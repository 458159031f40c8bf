-- ===== src/Checker/Progress.antt =====
-- naome-checker/src/lib.rs: `derive_step` on present results.
use naome.Prelude.{ap, ◌∙◌, ℕ, ◌+◌, ◌<◌, arith, All, length, leb, Bool-cases, inl, inr}
use naome.Prelude.Result.{Result, ok, err, map_err}
use naome.Node.{FreeVariable}
use naome.Formula.{Formula}
use naome.Logic
use naome.Zfc.{separation_formula, replacement_formula}
use naome.Certificate
use naome.Certificate.{ProofStep, ProofFormula, ProofId, primitive, defined, local_references}
use naome.Canonical.{formula_max_depth, formula_max_nodes}
use naome.Checker.{ContextView, Results, DefinitionExpansionError, access}
use naome.Checker.Derive.{
  LastUses, Derivation, preflight_schema_depth, expansion_error, combine, derived,
  primitive_formula, primitive_separation, primitive_replacement, derive_reference,
  derive_modus_ponens, derive_generalization,
}
use naome.Checker.Step.{derive_step}
use naome.Checker.Uses.{Completes, completes, rejects, Completes-bind, IsUsed}
use naome.Checker.Panic.{
  Done, IsLength, IsBoundedView, view-Completes, checked_add-Completes, get-Completes,
  charge_formula_work-Completes, rejected-Completes, ok_or-Completes, IsReady, later-IsReady,
  result-Completes, drop_if-IsReady,
}

done : {A B : Type 0} {b : B} (a : A) → Completes Done (ok b)
done a = completes tt

preflight-Completes : (step n : ℕ) → Completes Done (preflight_schema_depth step n)
unfolding preflight_schema_depth
preflight-Completes step n = elim (Bool-cases (leb formula_max_depth n)) [
  | inl e ↦ rw e rejects
  | inr e ↦ rw e (completes tt)
]

expansion-Completes :
    (step : ℕ) (r : Result DefinitionExpansionError Formula)
    → Completes Done (map_err (expansion_error step) r)
unfolding expansion_error
expansion-Completes step (ok f) = completes tt
expansion-Completes step (err (access e)) = rejects
expansion-Completes step (err e) = rejects

module _ {D : Type 0} (view : ContextView D) (bounded : IsBoundedView view) (step : ℕ) where
  primitive_formula-Completes :
      (f : ProofFormula D) → Completes Done (primitive_formula view step f)
  unfolding primitive_formula
  primitive_formula-Completes (primitive f) = completes tt
  primitive_formula-Completes (defined d) =
      expansion-Completes step (view.expand_with_node_limit d formula_max_nodes)

  -- what a step that leaves the results alone promises
  abbrev Keeps : LastUses → Derivation → Type 0
  Keeps uses (d, rs, work) = IsReady uses step (step + 1) rs × IsLength d.precharged_length

  derive_reference-Keeps :
      (uses : LastUses) (id : ProofId) (rs : Results) (work : ℕ)
      → IsReady uses step step rs
      → Completes (Keeps uses) (derive_reference view step id rs work)
  unfolding derive_reference
  derive_reference-Keeps uses id rs work ready =
      Completes-bind (view-Completes step (view.proof_header id) (bounded.answers id)) λ found e.
        Completes-bind (ok_or-Completes _ found) λ header e'.
          let small = bounded.lengths id header (e ∙ ap (λ o. ok o) e') in
          Completes-bind (charge_formula_work-Completes step header.length work (omega arith))
            λ left _.
              Completes-bind (rejected-Completes _ (view.proof_formula header header.length))
                λ found' _.
                  Completes-bind (ok_or-Completes _ found')
                    λ f _. completes (later-IsReady uses step rs ready, small)

  derive_modus_ponens-Keeps :
      (uses : LastUses) (p i : ℕ) (rs : Results) (work : ℕ)
      → p < step
      → i < step
      → IsUsed uses step p
      → IsUsed uses step i
      → IsReady uses step step rs
      → Completes (Keeps uses) (derive_modus_ponens step p i rs work)
  unfolding derive_modus_ponens combine derived
  derive_modus_ponens-Keeps uses p i rs work hp hi up ui ready =
      Completes-bind (result-Completes rs p (ready.1 p hp up)) λ a ha.
        Completes-bind (result-Completes rs i (ready.1 i hi ui)) λ b hb.
          Completes-bind (checked_add-Completes a.canonical_length b.canonical_length (omega arith))
            λ sum e.
              Completes-bind (charge_formula_work-Completes step sum work (omega arith)) λ left _.
                Completes-bind (rejected-Completes _ (Logic.modus_ponens a.formula b.formula))
                  λ f _. completes (later-IsReady uses step rs ready, tt)

  derive_generalization-Keeps :
      (uses : LastUses) (p : ℕ) (v : FreeVariable) (rs : Results) (work : ℕ)
      → p < step
      → step < length uses
      → IsUsed uses step p
      → IsReady uses step step rs
      → Completes (Keeps uses) (derive_generalization step p v uses rs work)
  unfolding derive_generalization derived
  derive_generalization-Keeps uses p v rs work hp n up ready =
      Completes-bind (result-Completes rs p (ready.1 p hp up)) λ a ha.
        Completes-bind (charge_formula_work-Completes step a.canonical_length work (omega arith))
          λ left _. Completes-bind (get-Completes uses p (omega arith)) λ use_of e.
            Completes-bind
              (drop_if-IsReady uses step p rs use_of e hp (later-IsReady uses step rs ready))
              λ rs' ready'. completes (ready', tt)

  pub derive_step-Keeps :
      (s : ProofStep D) (uses : LastUses) (rs : Results) (work : ℕ)
      → step < length uses
      → All (λ r. r < step) (local_references s)
      → All (IsUsed uses step) (local_references s)
      → IsReady uses step step rs
      → Completes (Keeps uses) (derive_step step s rs uses view work)
  unfolding derive_step derived primitive_separation primitive_replacement local_references
  derive_step-Keeps (Certificate.simplification a c) uses rs work n h u ready =
      Completes-bind (primitive_formula-Completes a) λ f _.
        Completes-bind (primitive_formula-Completes c)
          λ g _. completes (later-IsReady uses step rs ready, tt)
  derive_step-Keeps (Certificate.frege a b c) uses rs work n h u ready =
      Completes-bind (primitive_formula-Completes a) λ f _.
        Completes-bind (primitive_formula-Completes b) λ g _.
          Completes-bind (primitive_formula-Completes c)
            λ k _. completes (later-IsReady uses step rs ready, tt)
  derive_step-Keeps (Certificate.classical_contraposition a c) uses rs work n h u ready =
      Completes-bind (primitive_formula-Completes a) λ f _.
        Completes-bind (primitive_formula-Completes c)
          λ g _. completes (later-IsReady uses step rs ready, tt)
  derive_step-Keeps (Certificate.universal_distribution v a c) uses rs work n h u ready =
      Completes-bind (primitive_formula-Completes a) λ f _.
        Completes-bind (primitive_formula-Completes c)
          λ g _. completes (later-IsReady uses step rs ready, tt)
  derive_step-Keeps (Certificate.vacuous_universal a) uses rs work n h u ready =
      Completes-bind (primitive_formula-Completes a)
        λ f _. completes (later-IsReady uses step rs ready, tt)
  derive_step-Keeps (Certificate.universal_instantiation v w a) uses rs work n h u ready =
      Completes-bind (primitive_formula-Completes a)
        λ f _. completes (later-IsReady uses step rs ready, tt)
  derive_step-Keeps (Certificate.equality_reflexivity v) uses rs work n h u ready =
      completes (later-IsReady uses step rs ready, tt)
  derive_step-Keeps (Certificate.equality_substitution v w a) uses rs work n h u ready =
      Completes-bind (primitive_formula-Completes a)
        λ f _. completes (later-IsReady uses step rs ready, tt)
  derive_step-Keeps (Certificate.zfc_axiom a) uses rs work n h u ready =
      completes (later-IsReady uses step rs ready, tt)
  derive_step-Keeps (Certificate.separation s) uses rs work n h u ready =
      Completes-bind (preflight-Completes step (length s.parameters)) λ _ _.
        Completes-bind (Completes-bind (primitive_formula-Completes s.predicate) λ f _. done f)
          λ s' _.
            Completes-bind (rejected-Completes _ (separation_formula s'))
              λ f _. completes (later-IsReady uses step rs ready, tt)
  derive_step-Keeps (Certificate.replacement r) uses rs work n h u ready =
      Completes-bind (preflight-Completes step (length r.parameters)) λ _ _.
        Completes-bind (Completes-bind (primitive_formula-Completes r.predicate) λ f _. done f)
          λ r' _.
            Completes-bind (rejected-Completes _ (replacement_formula r'))
              λ f _. completes (later-IsReady uses step rs ready, tt)
  derive_step-Keeps (Certificate.proof_reference id) uses rs work n h u ready =
      derive_reference-Keeps uses id rs work ready
  derive_step-Keeps (Certificate.modus_ponens p i) uses rs work n (hp, (hi, _)) (up, (ui, _))
        ready =
      derive_modus_ponens-Keeps uses p i rs work hp hi up ui ready
  derive_step-Keeps (Certificate.generalization p v) uses rs work n (hp, _) (up, _) ready =
      derive_generalization-Keeps uses p v rs work hp n up ready
