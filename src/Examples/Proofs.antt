-- ===== src/Examples/Proofs.antt =====
-- The theorems on the logic, on certificates and on the checker, applied.
use naome.Prelude.{ℕ, ◌≡◌, ◌≢◌, ◌≤◌, ◌<◌, refl, ◌↔◌, true, Option, none, List, [], ◌∷◌, length, All}
use naome.Prelude.Result.{ok, err, throws}
use naome.Formula
use naome.Formula.{Formula}
use naome.Formula.Scope.{IsFormula, for_all-IsFormula}
use naome.Logic
use naome.Certificate
use naome.Certificate.{ProofStep, primitive, validate_steps}
use naome.Certificate.Validation.{IsAcyclic, validate_steps_iff}
use naome.Zfc.Axioms.{extensionality, axiom_formula}
use naome.Checker
use naome.Checker.{charge_formula_work, ContextView, Identity, Outcome, panicked}
use naome.Checker.Run.{check_with_diagnostic_query, derive, omit_derivation}
use naome.Checker.Scope.{axiom_formula-IsFormula}
use naome.Checker.Panic.{IsBoundedView}
use naome.Checker.Truth.{IsSoundView, IsStepOf}
use naome.Checker.Total.{check_with_diagnostic_query_never_panics}
use naome.Checker.Soundness.{check_with_diagnostic_query-Valid}
use naome.Semantics.{Valid, Holds, Valuation, update}
use naome.Semantics.Connectives.{Some}
use naome.Checker.Obligation.{function_obligation}
use naome.Checker.Obligation.Meaning.{function_obligation_iff}
use naome.Node
use naome.Semantics.Rules.{
  universal_instantiation-Valid, equality_substitution-Valid, modus_ponens-Valid, modus_ponens_iff,
  simplification-Valid,
}
use naome.Examples.{value_of, sample, sample-IsFormula, point, point-IsModel, only_extensionality}

universal_instantiation-Valid_example : Valid point (Logic.universal_instantiation 1 2 sample)
universal_instantiation-Valid_example =
    universal_instantiation-Valid point 1 2 sample sample-IsFormula

equality_substitution-Valid_example : Valid point (Logic.equality_substitution 1 2 sample)
equality_substitution-Valid_example = equality_substitution-Valid point 1 2 sample sample-IsFormula

-- x0 = x0
abbrev equation : Formula
equation = Formula.equal 0 0

combined :
    Logic.modus_ponens equation (Logic.simplification equation sample)
    ≡ ok (Formula.implies sample equation)
unfolding Logic.modus_ponens Logic.simplification Formula.implies Formula.equal
combined = refl

modus_ponens_iff_example :
    (Logic.modus_ponens equation (Logic.simplification equation sample)
      ≡ ok (Formula.implies sample equation))
    ↔ (Logic.simplification equation sample
        ≡ Formula.implies equation (Formula.implies sample equation))
modus_ponens_iff_example =
    modus_ponens_iff equation (Logic.simplification equation sample)
      (Formula.implies sample equation)

modus_ponens-Valid_example : Valid point (Formula.implies sample equation)
unfolding Logic.simplification Formula.implies
modus_ponens-Valid_example =
    modus_ponens-Valid point equation (Logic.simplification equation sample)
      (Formula.implies sample equation) (λ ρ. refl) (simplification-Valid point equation sample)
      combined

-- a view of no proofs and no definitions, as that of a new `ArtifactState`
abbrev no_context : ContextView Unit
no_context = record {
  expand_with_node_limit = λ _ _. err (Checker.unknown_definition []);
  proof_header = λ _. ok none;
  proof_formula = λ _ _. ok none;
}

no_context-IsSoundView : IsSoundView point no_context
no_context-IsSoundView = record {
  expansion = λ d limit. throws;
  registered = λ id header maximum f e _. cc;
}

no_context-IsBoundedView : IsBoundedView no_context
no_context-IsBoundedView = record { answers = λ id e. cc; lengths = λ id header e. cc }

-- ∀ x0. x0 = x0
abbrev reflexive : Formula
reflexive = Formula.for_all 0 (Formula.equal 0 0)

-- from x0 = x0 and extensionality to extensionality → ∀ x0. x0 = x0
abbrev steps : List (ProofStep Unit)
steps =
    Certificate.equality_reflexivity 0
    ∷ Certificate.generalization 0 0
    ∷ Certificate.zfc_axiom extensionality
    ∷ Certificate.simplification (primitive reflexive) (primitive (axiom_formula extensionality))
    ∷ Certificate.modus_ponens 1 3
    ∷ []

steps_fields : All (IsStepOf only_extensionality) steps
unfolding Formula.equal
steps_fields = (
  tt,
  (
    tt,
    (
      refl,
      (
        (for_all-IsFormula 0 (Formula.equal 0 0) (tt, tt), axiom_formula-IsFormula extensionality),
        (tt, tt),
      ),
    ),
  ),
)

-- in the place of SHA-256
abbrev digest : List ℕ → List ℕ
digest bytes = length bytes ∷ []

abbrev run : Outcome (Formula × List ℕ × Option Identity)
run = check_with_diagnostic_query digest steps no_context derive

abbrev outcome : Formula × List ℕ × Option Identity
outcome = value_of (sample, [], none) run

run_accepted : run ≡ ok outcome
unfolding check_with_diagnostic_query Formula.for_all Formula.equal axiom_formula
run_accepted = refl

validate_steps_iff_example :
    (validate_steps steps ≡ ok tt)
    ↔ ((0 < length steps) × (length steps ≤ 65536) × IsAcyclic 0 steps)
validate_steps_iff_example = validate_steps_iff steps

-- the identity, x0 = x1, as the graph of a function of one argument
function_obligation_iff_example : Valid point (function_obligation 1 (Formula.equal 0 1)) ↔ (
    (ρ : Valuation point)
    → Some (λ (y : Unit).
      Holds point (Formula.equal 0 1) (update ρ 1 y)
      × ((d : Unit) → Holds point (Formula.equal 0 1) (update ρ 1 d) → d ≡ y)))
unfolding Formula.equal Node.has_matching_free_variable
function_obligation_iff_example = function_obligation_iff point 1 (Formula.equal 0 1) (tt, tt) refl

steps_valid : validate_steps steps ≡ ok tt
unfolding validate_steps
steps_valid = refl

check_with_diagnostic_query_never_panics_example :
    check_with_diagnostic_query digest steps no_context omit_derivation ≢ err panicked
check_with_diagnostic_query_never_panics_example =
    check_with_diagnostic_query_never_panics digest no_context steps no_context-IsBoundedView
      steps_valid

check_with_diagnostic_query-Valid_example :
    IsFormula outcome.0 × Valid point outcome.0 × (Formula.is_closed outcome.0 ≡ true)
check_with_diagnostic_query-Valid_example =
    check_with_diagnostic_query-Valid point only_extensionality point-IsModel no_context
      no_context-IsSoundView digest derive steps outcome.0 outcome.1 outcome.2 steps_fields
      run_accepted

-- A header of the largest length, after one byte of work
charge_overflow : charge_formula_work 1 18446744073709551615 4194303 ≡ err panicked
unfolding charge_formula_work
charge_overflow = refl
