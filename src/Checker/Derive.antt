-- ===== src/Checker/Derive.antt =====
-- naome-checker/src/lib.rs: `last_uses` and `derive_step`.
use naome.Prelude.{
  ℕ, ◌+◌, Bool, false, Option, none, some, List, [], ◌∷◌, get_elem?, map, leb, ◌==◌, if◌then◌else◌,
}
use naome.Prelude.Result.{ok, err, ◌>>=◌, map_err}
use naome.Node.{FreeVariable}
use naome.Formula
use naome.Formula.{Formula}
use naome.Canonical
use naome.Canonical.{formula_max_depth, formula_max_nodes}
use naome.Comparison
use naome.Comparison.{FormulaPathSegment}
use naome.Logic
use naome.Logic.{LogicError}
use naome.Zfc.{Separation, Replacement}
use naome.Certificate.{
  ProofStep, ProofFormula, ProofSeparation, ProofReplacement, primitive, defined, local_references,
  ProofId,
}
use naome.Checker
use naome.Checker.{
  ContextView, ContextError, CheckErrorKind, CheckedStep, DerivedStep, Results, Outcome, rejected,
  panicked, expect, ok_or, set_at, checked_add, charge_formula_work, ViewFailure, failed,
  view_panicked, DefinitionExpansionError, context_access, unknown_proof_reference,
  definition_expansion, access, ProofHeader,
}

abbrev pub LastUses : Type 0
LastUses = List (Option ℕ)

-- the inner loop of `last_uses`, for one step
unfoldable pub mark : ℕ → List ℕ → LastUses → Outcome LastUses
unfolding set_at
mark position [] uses = ok uses
mark position (reference ∷ rest) uses = do
  uses ← set_at reference (some position) uses
  mark position rest uses

module _ {D : Type 0} where
  unfoldable pub mark_all : ℕ → List (ProofStep D) → LastUses → Outcome LastUses
  unfolding mark local_references
  mark_all position [] uses = ok uses
  mark_all position (step ∷ steps) uses = do
    uses ← mark position (local_references step) uses
    mark_all (position + 1) steps uses

  unfoldable pub last_uses : List (ProofStep D) → Outcome LastUses
  unfolding mark_all
  last_uses steps = mark_all 0 steps (map (λ _. none) steps)

unfoldable pub preflight_schema_depth : ℕ → ℕ → Outcome (Unit {0})
preflight_schema_depth step parameter_count =
    if leb formula_max_depth parameter_count
    then err
        (rejected (Checker.derived_formula step (Canonical.depth_limit_exceeded formula_max_depth)))
    else ok tt

-- the error of a failed expansion
unfoldable pub expansion_error : ℕ → DefinitionExpansionError → Checker.Failure
expansion_error step (access source) = rejected (context_access step source)
expansion_error step source = rejected (definition_expansion step source)

-- the end of a step whose call of the view returns no value
unfoldable pub view_error : ℕ → ViewFailure → Checker.Failure
view_error step (failed source) = rejected (context_access step source)
view_error step view_panicked = panicked

unfoldable pub result : Results → ℕ → Outcome CheckedStep
unfolding expect
result results reference = do slot ← expect (get_elem? results reference); expect slot

-- the comparison that a failed modus ponens reports
unfoldable pub comparison : Formula → Formula → Option (List FormulaPathSegment)
unfolding Formula.implication_parts Comparison.between
comparison premise implication = elim (Formula.implication_parts implication) [
  | none ↦ none
  | some (antecedent, _) ↦ Comparison.between antecedent premise
]

unfoldable pub combine : ℕ → Formula → Formula → Outcome Formula
unfolding comparison Logic.modus_ponens
combine step premise implication =
    map_err (λ source. rejected (Checker.logic step source (comparison premise implication)))
      (Logic.modus_ponens premise implication)

abbrev pub Derivation : Type 0
Derivation = DerivedStep × Results × ℕ

-- the end of `derive_step`
unfoldable pub derived : Formula → Results → ℕ → Derivation
derived formula results work = (
  record { formula = formula; precharged_length = none; referenced_derivation_id = none },
  results,
  work,
)

module _ {D : Type 0} where
  unfoldable pub primitive_formula : ContextView D → ℕ → ProofFormula D → Outcome Formula
  unfolding expansion_error
  primitive_formula view step (primitive f) = ok f
  primitive_formula view step (defined d) =
      map_err (expansion_error step) (view.expand_with_node_limit d formula_max_nodes)

  unfoldable pub primitive_separation : ContextView D → ℕ → ProofSeparation D → Outcome Separation
  unfolding primitive_formula
  primitive_separation view step s = do
    predicate ← primitive_formula view step s.predicate
    ok (record {
      predicate = predicate;
      element = s.element;
      source = s.source;
      result = s.result;
      parameters = s.parameters;
    })

  unfoldable pub primitive_replacement :
      ContextView D → ℕ → ProofReplacement D → Outcome Replacement
  unfolding primitive_formula
  primitive_replacement view step r = do
    predicate ← primitive_formula view step r.predicate
    ok (record {
      predicate = predicate;
      input = r.input;
      output = r.output;
      uniqueness_witness = r.uniqueness_witness;
      source = r.source;
      result = r.result;
      parameters = r.parameters;
    })

  -- the branch of `derive_step` for a `ProofReference`
  unfoldable pub derive_reference : ContextView D → ℕ → ProofId → Results → ℕ → Outcome Derivation
  unfolding charge_formula_work ok_or view_error
  derive_reference view step proof_id results work = do
    found ← map_err (view_error step) (view.proof_header proof_id)
    header ← ok_or (rejected (unknown_proof_reference step proof_id)) found
    work ← charge_formula_work step header.length work
    found ←
        map_err (λ source. rejected (context_access step source))
          (view.proof_formula header header.length)
    formula ← ok_or (rejected (context_access step Checker.corrupt)) found
    ok (
      record {
        formula = formula;
        precharged_length = some header.length;
        referenced_derivation_id = some header.derivation;
      },
      results,
      work,
    )

unfoldable pub derive_modus_ponens : ℕ → ℕ → ℕ → Results → ℕ → Outcome Derivation
unfolding result checked_add charge_formula_work combine derived
derive_modus_ponens step premise implication results work = do
  p ← result results premise
  i ← result results implication
  referenced_work ← checked_add p.canonical_length i.canonical_length
  work ← charge_formula_work step referenced_work work
  formula ← combine step p.formula i.formula
  ok (derived formula results work)

-- `last_uses[premise_index] == Some(step)`
abbrev pub is_use : Option ℕ → ℕ → Bool
is_use none step = false
is_use (some position) step = position == step

unfoldable pub derive_generalization :
    ℕ → ℕ → FreeVariable → LastUses → Results → ℕ → Outcome Derivation
unfolding result charge_formula_work set_at expect derived Logic.generalization
derive_generalization step premise variable uses results work = do
  p ← result results premise
  work ← charge_formula_work step p.canonical_length work
  use_of ← expect (get_elem? uses premise)
  results ← (if is_use use_of step then set_at premise none results else ok results)
  ok (derived (Logic.generalization variable p.formula) results work)
