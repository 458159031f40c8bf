-- ===== src/Checker/Step.antt =====
-- naome-checker/src/lib.rs: `derive_step`, its match on the step.
use naome.Prelude.{ℕ, length}
use naome.Prelude.Result.{ok, ◌>>=◌, ◌>>◌, map_err}
use naome.Logic
use naome.Zfc.{separation_formula, replacement_formula}
use naome.Zfc.Axioms.{axiom_formula}
use naome.Certificate.{
  ProofStep, simplification, frege, classical_contraposition, universal_distribution,
  vacuous_universal, universal_instantiation, equality_reflexivity, equality_substitution,
  zfc_axiom, separation, replacement, proof_reference, modus_ponens, generalization,
}
use naome.Checker
use naome.Checker.{ContextView, Results, Outcome, rejected}
use naome.Checker.Derive.{
  LastUses, Derivation, preflight_schema_depth, primitive_formula, primitive_separation,
  primitive_replacement, derive_reference, derive_modus_ponens, derive_generalization, derived,
}

-- The arguments `results` and `remaining_work`, which the source changes, are also results.
unfoldable pub derive_step :
    {D : Type 0} → ℕ → ProofStep D → Results → LastUses → ContextView D → ℕ → Outcome Derivation
unfolding primitive_formula primitive_separation primitive_replacement preflight_schema_depth
    derived derive_reference derive_modus_ponens derive_generalization separation_formula
    replacement_formula axiom_formula Logic.simplification Logic.frege
    Logic.classical_contraposition Logic.universal_distribution Logic.vacuous_universal
    Logic.universal_instantiation Logic.equality_reflexivity Logic.equality_substitution
derive_step step (simplification antecedent consequent) results uses view work = do
  a ← primitive_formula view step antecedent
  c ← primitive_formula view step consequent
  ok (derived (Logic.simplification a c) results work)
derive_step step (frege first second third) results uses view work = do
  a ← primitive_formula view step first
  b ← primitive_formula view step second
  c ← primitive_formula view step third
  ok (derived (Logic.frege a b c) results work)
derive_step step (classical_contraposition antecedent consequent) results uses view work = do
  a ← primitive_formula view step antecedent
  c ← primitive_formula view step consequent
  ok (derived (Logic.classical_contraposition a c) results work)
derive_step step (universal_distribution variable antecedent consequent) results uses view work = do
  a ← primitive_formula view step antecedent
  c ← primitive_formula view step consequent
  ok (derived (Logic.universal_distribution variable a c) results work)
derive_step step (vacuous_universal formula) results uses view work = do
  f ← primitive_formula view step formula
  ok (derived (Logic.vacuous_universal f) results work)
derive_step step (universal_instantiation variable by body) results uses view work = do
  f ← primitive_formula view step body
  ok (derived (Logic.universal_instantiation variable by f) results work)
derive_step step (equality_reflexivity variable) results uses view work =
    ok (derived (Logic.equality_reflexivity variable) results work)
derive_step step (equality_substitution from to body) results uses view work = do
  f ← primitive_formula view step body
  ok (derived (Logic.equality_substitution from to f) results work)
derive_step step (zfc_axiom axiom_name) results uses view work =
    ok (derived (axiom_formula axiom_name) results work)
derive_step step (separation s) results uses view work = do
  preflight_schema_depth step (length s.parameters)
  s ← primitive_separation view step s
  f ← map_err (λ source. rejected (Checker.schema step source)) (separation_formula s)
  ok (derived f results work)
derive_step step (replacement r) results uses view work = do
  preflight_schema_depth step (length r.parameters)
  r ← primitive_replacement view step r
  f ← map_err (λ source. rejected (Checker.schema step source)) (replacement_formula r)
  ok (derived f results work)
derive_step step (proof_reference proof_id) results uses view work =
    derive_reference view step proof_id results work
derive_step step (modus_ponens premise implication) results uses view work =
    derive_modus_ponens step premise implication results work
derive_step step (generalization premise variable) results uses view work =
    derive_generalization step premise variable uses results work
