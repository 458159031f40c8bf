-- ===== src/Checker/Rules.antt =====
-- naome-checker/src/lib.rs: `derive_step` and truth in structures.
use naome.Prelude.{ℕ, Bool, length}
use naome.Prelude.Result.{Ensures, returns, Ensures-bind}
use naome.Formula
use naome.Formula.{Formula}
use naome.Logic
use naome.Zfc.{Separation, Replacement, separation_formula, replacement_formula}
use naome.Zfc.Axioms.{ZfcAxiom}
use naome.Zfc.Instances.{separation_instance-IsFormula, replacement_instance-IsFormula}
use naome.Certificate
use naome.Certificate.{ProofStep, ProofFormula, primitive, defined, local_references}
use naome.Checker.{ContextView, Results}
use naome.Checker.Derive.{
  LastUses, primitive_separation, primitive_replacement, preflight_schema_depth,
}
use naome.Checker.Step.{derive_step}
use naome.Checker.Scope.{
  axiom_formula-IsFormula, simplification-IsFormula, frege-IsFormula,
  classical_contraposition-IsFormula, universal_distribution-IsFormula, vacuous_universal-IsFormula,
  universal_instantiation-IsFormula, equality_substitution-IsFormula,
}
use naome.Checker.Truth.{
  IsStepOf, IsSoundView, ResultsAreTrue, DerivesTruth, any, known, Ensures-map_err,
  derived-DerivesTruth, primitive_formula-IsFormula, derive_reference-DerivesTruth,
  derive_modus_ponens-DerivesTruth, derive_generalization-DerivesTruth,
}
use naome.Semantics.{Structure}
use naome.Semantics.Model.{IsModel}
use naome.Semantics.Sets.{axiom_formula_iff}
use naome.Semantics.Rules.{
  simplification-Valid, frege-Valid, classical_contraposition-Valid, universal_distribution-Valid,
  vacuous_universal-Valid, universal_instantiation-Valid, equality_reflexivity-Valid,
  equality_substitution-Valid,
}
use naome.Semantics.Schemas.{separation_formula-Valid, replacement_formula-Valid}

module _ (M : Structure) (cited : ZfcAxiom → Bool) (model : IsModel M cited) {D : Type 0}
    (view : ContextView D) (sound : IsSoundView M view) where
  -- every step of the checker derives a true formula from true results
  pub derive_step-DerivesTruth :
      (step : ℕ) (s : ProofStep D) (rs : Results) (uses : LastUses) (work : ℕ)
      → IsStepOf cited s
      → ResultsAreTrue M rs
      → Ensures (DerivesTruth M) (derive_step step s rs uses view work)
  unfolding derive_step primitive_separation primitive_replacement Logic.equality_reflexivity
      Formula.equal
  derive_step-DerivesTruth step (Certificate.simplification a c) rs uses work (ha, hc) h =
      Ensures-bind (primitive_formula-IsFormula M view sound step a ha) λ f hf.
        Ensures-bind (primitive_formula-IsFormula M view sound step c hc) λ g hg.
          derived-DerivesTruth M _ rs work
            (simplification-IsFormula f g hf hg, simplification-Valid M f g) h
  derive_step-DerivesTruth step (Certificate.frege a b c) rs uses work (ha, hb, hc) h =
      Ensures-bind (primitive_formula-IsFormula M view sound step a ha) λ f hf.
        Ensures-bind (primitive_formula-IsFormula M view sound step b hb) λ g hg.
          Ensures-bind (primitive_formula-IsFormula M view sound step c hc) λ k hk.
            derived-DerivesTruth M _ rs work (frege-IsFormula f g hf hg k hk, frege-Valid M f g k) h
  derive_step-DerivesTruth step (Certificate.classical_contraposition a c) rs uses work (ha, hc) h =
      Ensures-bind (primitive_formula-IsFormula M view sound step a ha) λ f hf.
        Ensures-bind (primitive_formula-IsFormula M view sound step c hc) λ g hg.
          derived-DerivesTruth M _ rs work
            (classical_contraposition-IsFormula f g hf hg, classical_contraposition-Valid M f g) h
  derive_step-DerivesTruth step (Certificate.universal_distribution v a c) rs uses work (ha, hc) h =
      Ensures-bind (primitive_formula-IsFormula M view sound step a ha) λ f hf.
        Ensures-bind (primitive_formula-IsFormula M view sound step c hc) λ g hg.
          derived-DerivesTruth M _ rs work
            (universal_distribution-IsFormula f g hf hg v, universal_distribution-Valid M v f g) h
  derive_step-DerivesTruth step (Certificate.vacuous_universal a) rs uses work ha h =
      Ensures-bind (primitive_formula-IsFormula M view sound step a ha) λ f hf.
        derived-DerivesTruth M _ rs work
          (vacuous_universal-IsFormula f hf, vacuous_universal-Valid M f hf) h
  derive_step-DerivesTruth step (Certificate.universal_instantiation v w a) rs uses work ha h =
      Ensures-bind (primitive_formula-IsFormula M view sound step a ha) λ f hf.
        derived-DerivesTruth M _ rs work
          (universal_instantiation-IsFormula f hf v w, universal_instantiation-Valid M v w f hf) h
  derive_step-DerivesTruth step (Certificate.equality_reflexivity v) rs uses work ha h =
      derived-DerivesTruth M _ rs work ((tt, tt), equality_reflexivity-Valid M v) h
  derive_step-DerivesTruth step (Certificate.equality_substitution v w a) rs uses work ha h =
      Ensures-bind (primitive_formula-IsFormula M view sound step a ha) λ f hf.
        derived-DerivesTruth M _ rs work
          (equality_substitution-IsFormula f hf v w, equality_substitution-Valid M v w f hf) h
  derive_step-DerivesTruth step (Certificate.zfc_axiom a) rs uses work ha h =
      derived-DerivesTruth M _ rs work
        (axiom_formula-IsFormula a, λ ρ. (axiom_formula_iff M ρ a).1 (model.statements a ha)) h
  derive_step-DerivesTruth step (Certificate.separation s) rs uses work ha h =
      Ensures-bind (any (preflight_schema_depth step (length s.parameters))) λ _ _.
        Ensures-bind
          (Ensures-bind (primitive_formula-IsFormula M view sound step s.predicate ha)
            λ f hf. returns hf)
          λ (s' : Separation) hs.
            Ensures-bind (Ensures-map_err _ (known (separation_formula s'))) λ f e.
              derived-DerivesTruth M f rs work
                (
                  separation_instance-IsFormula s' f e hs,
                  separation_formula-Valid M model s' f hs e,
                )
                h
  derive_step-DerivesTruth step (Certificate.replacement r) rs uses work ha h =
      Ensures-bind (any (preflight_schema_depth step (length r.parameters))) λ _ _.
        Ensures-bind
          (Ensures-bind (primitive_formula-IsFormula M view sound step r.predicate ha)
            λ f hf. returns hf)
          λ (r' : Replacement) hr.
            Ensures-bind (Ensures-map_err _ (known (replacement_formula r'))) λ f e.
              derived-DerivesTruth M f rs work
                (
                  replacement_instance-IsFormula r' f e hr,
                  replacement_formula-Valid M model r' f hr e,
                )
                h
  derive_step-DerivesTruth step (Certificate.proof_reference id) rs uses work ha h =
      derive_reference-DerivesTruth M view sound step id rs work h
  derive_step-DerivesTruth step (Certificate.modus_ponens p i) rs uses work ha h =
      derive_modus_ponens-DerivesTruth M step p i rs work h
  derive_step-DerivesTruth step (Certificate.generalization p v) rs uses work ha h =
      derive_generalization-DerivesTruth M step p v uses rs work h
