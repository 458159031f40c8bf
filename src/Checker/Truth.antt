-- ===== src/Checker/Truth.antt =====
-- naome-checker/src/lib.rs: the steps that refer to results or to the context, and truth.
use naome.Prelude.{
  ℕ, zero, suc, ◌≡◌, refl, ap, ◌∙◌, subst, Bool, true, Option, none, some, [], ◌∷◌, All, get_elem?,
}
use naome.Prelude.Result.{
  Result, ok, err, map_err, Ensures, returns, throws, Ensures-if, Ensures-bind,
}
use naome.Node.{FreeVariable}
use naome.Formula
use naome.Formula.{Formula}
use naome.Formula.Scope.{IsFormula, for_all-IsFormula}
use naome.Logic
use naome.Zfc.Axioms.{ZfcAxiom}
use naome.Certificate
use naome.Certificate.{ProofStep, ProofFormula, ProofId, primitive, defined, local_references}
use naome.Checker
use naome.Checker.{
  ContextView, CheckedStep, DerivedStep, Identity, ProofHeader, Results, Outcome, expect, ok_or,
  set_at, rejected, checked_add, charge_formula_work,
}
use naome.Checker.Derive.{
  LastUses, Derivation, primitive_formula, derive_reference, derive_modus_ponens,
  derive_generalization, derived, result, combine, is_use,
}
use naome.Semantics.{Structure, Valid}
use naome.Semantics.Rules.{modus_ponens-Valid, modus_ponens_inv, generalization-Valid}

-- the invariant of `Formula` in a field of a step
abbrev pub IsProofFormula : {D : Type 0} → ProofFormula D → Type 0
IsProofFormula (primitive f) = IsFormula f
IsProofFormula (defined d) = Unit

-- The fields of a step are formulas, and the fixed axiom that it may use is a `cited` one.
abbrev pub IsStepOf : {D : Type 0} → (ZfcAxiom → Bool) → ProofStep D → Type 0
IsStepOf cited (Certificate.simplification a c) = IsProofFormula a × IsProofFormula c
IsStepOf cited (Certificate.frege a b c) = IsProofFormula a × IsProofFormula b × IsProofFormula c
IsStepOf cited (Certificate.classical_contraposition a c) = IsProofFormula a × IsProofFormula c
IsStepOf cited (Certificate.universal_distribution v a c) = IsProofFormula a × IsProofFormula c
IsStepOf cited (Certificate.vacuous_universal f) = IsProofFormula f
IsStepOf cited (Certificate.universal_instantiation v w f) = IsProofFormula f
IsStepOf cited (Certificate.equality_substitution v w f) = IsProofFormula f
IsStepOf cited (Certificate.separation s) = IsProofFormula s.predicate
IsStepOf cited (Certificate.replacement r) = IsProofFormula r.predicate
IsStepOf cited (Certificate.zfc_axiom a) = cited a ≡ true
IsStepOf cited _ = Unit

-- A view of formulas that hold: expansions are formulas, and the formula of a header is one that
-- holds, as that of a registered proof does.
pub record IsSoundView (M : Structure) {D : Type 0} (view : ContextView D) : Type 0 where
  pub expansion : (d : D) (limit : ℕ) → Ensures IsFormula (view.expand_with_node_limit d limit)
  pub registered :
      (id : ProofId) (header : ProofHeader) (maximum : ℕ) (f : Formula)
      → view.proof_header id ≡ ok (some header)
      → view.proof_formula header maximum ≡ ok (some f)
      → IsFormula f × Valid M f

pub Ensures-map_err :
    {E F A : Type 0} {P : A → Type 0} (g : E → F) {r : Result E A}
    → Ensures P r
    → Ensures P (map_err g r)
Ensures-map_err g (returns h) = returns h
Ensures-map_err g throws = throws

-- a result of which nothing is needed
pub any : {E A : Type 0} (r : Result E A) → Ensures (λ _. Unit {0}) r
any (ok a) = returns tt
any (err e) = throws

-- the value, with the equation that says where it comes from
pub known : {E A : Type 0} (r : Result E A) → Ensures (λ a. r ≡ ok a) r
known (ok a) = returns refl
known (err e) = throws

pub Ensures-expect :
    {A : Type 0} {P : A → Type 0} (o : Option A)
    → ((a : A) → o ≡ some a → P a)
    → Ensures P (expect o)
unfolding expect
Ensures-expect none h = throws
Ensures-expect (some a) h = returns (h a refl)

Ensures-ok_or :
    {A : Type 0} {P : A → Type 0} (e : Checker.Failure) (o : Option A)
    → ((a : A) → o ≡ some a → P a)
    → Ensures P (ok_or e o)
unfolding ok_or
Ensures-ok_or e none h = throws
Ensures-ok_or e (some a) h = returns (h a refl)

module _ (M : Structure) where
  abbrev pub IsTrue : Formula → Type 0
  IsTrue f = IsFormula f × Valid M f

  abbrev pub SlotIsTrue : Option CheckedStep → Type 0
  SlotIsTrue none = Unit
  SlotIsTrue (some c) = IsTrue c.formula

  abbrev pub ResultsAreTrue : Results → Type 0
  ResultsAreTrue = All SlotIsTrue

  get-ResultsAreTrue :
      (rs : Results) (i : ℕ) (slot : Option CheckedStep)
      → ResultsAreTrue rs
      → get_elem? rs i ≡ some slot
      → SlotIsTrue slot
  get-ResultsAreTrue [] i slot h e = cc
  get-ResultsAreTrue (r ∷ rs) zero slot h e = subst SlotIsTrue (cc) h.0
  get-ResultsAreTrue (r ∷ rs) (suc i) slot h e = get-ResultsAreTrue rs i slot h.1 e

  pub set_at-ResultsAreTrue :
      (i : ℕ) (rs : Results) → ResultsAreTrue rs → Ensures ResultsAreTrue (set_at i none rs)
  unfolding set_at
  set_at-ResultsAreTrue i [] h = throws
  set_at-ResultsAreTrue zero (r ∷ rs) h = returns (tt, h.1)
  set_at-ResultsAreTrue (suc i) (r ∷ rs) h =
      Ensures-bind (set_at-ResultsAreTrue i rs h.1) λ ys hs. returns (h.0, hs)

  pub result-IsTrue :
      (rs : Results) (i : ℕ) → ResultsAreTrue rs → Ensures (λ c. IsTrue c.formula) (result rs i)
  unfolding result
  result-IsTrue rs i h =
      Ensures-bind (Ensures-expect (get_elem? rs i) (λ slot e. get-ResultsAreTrue rs i slot h e))
        λ slot s. Ensures-expect slot (λ c e. subst SlotIsTrue e s)

  -- what `derive_step` promises of its result
  abbrev pub DerivesTruth : Derivation → Type 0
  DerivesTruth (d, results, work) = IsTrue d.formula × ResultsAreTrue results

  pub derived-DerivesTruth :
      (f : Formula) (rs : Results) (work : ℕ)
      → IsTrue f
      → ResultsAreTrue rs
      → Ensures {E = Checker.Failure} DerivesTruth (ok (derived f rs work))
  unfolding derived
  derived-DerivesTruth f rs work h hr = returns (h, hr)

  pub derive_modus_ponens-DerivesTruth :
      (step premise implication : ℕ) (rs : Results) (work : ℕ)
      → ResultsAreTrue rs
      → Ensures DerivesTruth (derive_modus_ponens step premise implication rs work)
  unfolding derive_modus_ponens combine derived Formula.implies
  derive_modus_ponens-DerivesTruth step premise implication rs work h =
      Ensures-bind (result-IsTrue rs premise h) λ p hp.
        Ensures-bind (result-IsTrue rs implication h) λ i hi.
          Ensures-bind (any (checked_add p.canonical_length i.canonical_length)) λ referenced _.
            Ensures-bind (any (charge_formula_work step referenced work)) λ left _.
              Ensures-bind (Ensures-map_err _ (known (Logic.modus_ponens p.formula i.formula)))
                λ c e.
                  let shape = subst IsFormula (modus_ponens_inv p.formula i.formula c e) hi.0 in
                  returns ((shape.1, modus_ponens-Valid M p.formula i.formula c hp.1 hi.1 e), h)

  pub derive_generalization-DerivesTruth :
      (step premise : ℕ) (variable : FreeVariable) (uses : LastUses) (rs : Results) (work : ℕ)
      → ResultsAreTrue rs
      → Ensures DerivesTruth (derive_generalization step premise variable uses rs work)
  unfolding derive_generalization derived Logic.generalization
  derive_generalization-DerivesTruth step premise variable uses rs work h =
      Ensures-bind (result-IsTrue rs premise h) λ p hp.
        Ensures-bind (any (charge_formula_work step _ work)) λ left _.
          Ensures-bind (any (expect (get_elem? uses premise))) λ use_of _.
            Ensures-bind
              (Ensures-if (is_use use_of step) (λ _. set_at-ResultsAreTrue premise rs h)
                (λ _. returns h))
              λ rs' h'. returns (
                (
                  for_all-IsFormula variable p.formula hp.0,
                  generalization-Valid M variable p.formula hp.0 hp.1,
                ),
                h',
              )

  module _ {D : Type 0} (view : ContextView D) (sound : IsSoundView M view) where
    pub primitive_formula-IsFormula :
        (step : ℕ) (f : ProofFormula D)
        → IsProofFormula f
        → Ensures IsFormula (primitive_formula view step f)
    unfolding primitive_formula
    primitive_formula-IsFormula step (primitive f) h = returns h
    primitive_formula-IsFormula step (defined d) h = Ensures-map_err _ (sound.expansion d _)

    pub derive_reference-DerivesTruth :
        (step : ℕ) (id : ProofId) (rs : Results) (work : ℕ)
        → ResultsAreTrue rs
        → Ensures DerivesTruth (derive_reference view step id rs work)
    unfolding derive_reference
    derive_reference-DerivesTruth step id rs work h =
        Ensures-bind (Ensures-map_err _ (known (view.proof_header id))) λ found e.
          Ensures-bind (Ensures-ok_or _ found (λ header p. e ∙ ap ok p)) λ header served.
            Ensures-bind (any (charge_formula_work step header.length work)) λ left _.
              Ensures-bind (Ensures-map_err _ (known (view.proof_formula header header.length)))
                λ found' e'.
                  Ensures-bind (Ensures-ok_or _ found' (λ f p. e' ∙ ap ok p))
                    λ f given. returns (sound.registered id header header.length f served given, h)
