-- ===== src/Examples.antt =====
-- Inputs at which the theorems are applied, and runs of the definitions at them.
mod Formulas
mod Codec
mod Schemas
mod Proofs
mod State
mod Definitions
use naome.Prelude.{ℕ, ◌≡◌, refl, Bool, true, false, Option, none, some, List, [], ◌∷◌, arith}
use naome.Prelude.Result.{Result, ok, err}
use naome.Formula
use naome.Formula.{Formula}
use naome.Formula.Scope.{IsFormula}
use naome.Zfc.{Separation, Replacement, separation_formula, replacement_formula}
use naome.Semantics.{Structure}
use naome.Semantics.Model.{IsModel}
use naome.Semantics.Sets.{Statement}
use naome.Zfc.Axioms.{ZfcAxiom, extensionality}

-- the value of a run that succeeds
abbrev pub value_of : {E A : Type 0} → A → Result E A → A
value_of default (ok a) = a
value_of default (err e) = default

-- ∀ x0. x0 ∈ x1 → ¬ (x1 = x2)
abbrev pub sample : Formula
sample =
    Formula.implies (Formula.for_all 0 (Formula.member 0 1)) (Formula.negate (Formula.equal 1 2))

pub sample-IsFormula : IsFormula sample
unfolding Formula.for_all Formula.implies Formula.member Formula.negate Formula.equal
sample-IsFormula = ground arith

-- the elements of x1 that are members of x3
abbrev pub members : Separation
members = record {
  predicate = Formula.member 0 3;
  element = 0;
  source = 1;
  result = 2;
  parameters = 3 ∷ [];
}

-- the image of x3 under the identity, with a parameter x5 that nothing uses
abbrev pub identity_image : Replacement
identity_image = record {
  predicate = Formula.equal 0 1;
  input = 0;
  output = 1;
  uniqueness_witness = 2;
  source = 3;
  result = 4;
  parameters = 5 ∷ [];
}

-- the structure of one set, which is empty
abbrev pub point : Structure
point = record {
  Domain = Unit;
  belongs = λ _ _. ⊥;
  eq_stable = λ _ _ _. refl;
  belongs_stable = λ _ _ h. h (λ b. b);
}

abbrev pub only_extensionality : ZfcAxiom → Bool
only_extensionality extensionality = true
only_extensionality _ = false

pub point-IsModel : IsModel point only_extensionality
point-IsModel = record {
  statements = point_statements;
  separates = λ p ρ e a h k. k tt (λ z. (λ b. absurd b, λ (m, _). m));
  replaces = λ p ρ i o a h f k. k tt (λ y. (λ b. absurd b, λ s. s (λ x (m, _). m)));
}
  where
    point_statements : (a : ZfcAxiom) → only_extensionality a ≡ true → Statement point a
    point_statements extensionality e = λ x y h. refl
    point_statements _ e = cc
