-- ===== src/Construction/Shape.antt =====
-- construction.rs: the recipes of the schemas as formulas, and evaluation and scope.
use naome.Prelude.{◌≡◌, refl}
use naome.Node.{FreeVariable}
use naome.Formula
use naome.Formula.{Formula}
use naome.Formula.Scope.{IsFormula, for_all-IsFormula, substitute_free-IsFormula, IsScoped-mono}
use naome.Expression.{Expression}
use naome.Construction
use naome.Construction.{evaluate}
use naome.Prelude.{arith}

-- `P` holds of the inputs of a recipe.
abbrev pub AllInputs {ℓ} : {F : Type 0} → (F → Type ℓ) → Expression F → Type ℓ
AllInputs P (Expression.input a) = P a
AllInputs P (Expression.equal a b) = Unit
AllInputs P (Expression.member a b) = Unit
AllInputs P (Expression.not a) = AllInputs P a
AllInputs P (Expression.implies a b) = AllInputs P a × AllInputs P b
AllInputs P (Expression.for_all v a) = AllInputs P a
AllInputs P (Expression.vacuous a) = AllInputs P a
AllInputs P (Expression.substitute v w a) = AllInputs P a

-- A recipe whose inputs have no dangling index evaluates to a formula without one.
pub evaluate-IsFormula : (e : Expression Formula) → AllInputs IsFormula e → IsFormula (evaluate e)
unfolding evaluate
evaluate-IsFormula (Expression.input a) h = h
evaluate-IsFormula (Expression.equal a b) h = (tt, tt)
evaluate-IsFormula (Expression.member a b) h = (tt, tt)
evaluate-IsFormula (Expression.not a) h = evaluate-IsFormula a h
evaluate-IsFormula (Expression.implies a b) h = (evaluate-IsFormula a h.0, evaluate-IsFormula b h.1)
evaluate-IsFormula (Expression.for_all v a) h =
    for_all-IsFormula v (evaluate a) (evaluate-IsFormula a h)
evaluate-IsFormula (Expression.vacuous a) h =
    IsScoped-mono (evaluate a) 0 1 (omega arith) (evaluate-IsFormula a h)
evaluate-IsFormula (Expression.substitute v w a) h =
    substitute_free-IsFormula v w (evaluate a) (evaluate-IsFormula a h)

module _ (predicate : Formula) where
  abbrev pub separation_shape : FreeVariable → FreeVariable → FreeVariable → Formula
  separation_shape e s r = Formula.for_all s (
      Formula.exists r (
        Formula.for_all e (
          Formula.biconditional (Formula.member e r)
            (Formula.conjunction (Formula.member e s) predicate))))

  pub evaluate-separation :
      (e s r : FreeVariable)
      → evaluate (Construction.separation predicate e s r) ≡ separation_shape e s r
  unfolding evaluate Construction.separation Formula.exists Formula.biconditional
  evaluate-separation e s r = refl

  -- `unique`
  abbrev pub unique_shape : FreeVariable → FreeVariable → Formula
  unique_shape o w = Formula.exists o (
      Formula.conjunction predicate (
        Formula.for_all w
          (Formula.implies (Formula.substitute_free o w predicate) (Formula.equal w o))))

  -- `image`
  abbrev pub image_shape : FreeVariable → FreeVariable → FreeVariable → FreeVariable → Formula
  image_shape i o s r = Formula.for_all o (
      Formula.biconditional (Formula.member o r)
        (Formula.exists i (Formula.conjunction (Formula.member i s) predicate)))

  abbrev pub replacement_shape :
      FreeVariable → FreeVariable → FreeVariable → FreeVariable → FreeVariable → Formula
  replacement_shape i o w s r = Formula.for_all s (
      Formula.implies (Formula.for_all i (Formula.implies (Formula.member i s) (unique_shape o w)))
        (Formula.exists r (image_shape i o s r)))

  pub evaluate-replacement :
      (i o w s r : FreeVariable)
      → evaluate (Construction.replacement predicate i o w s r) ≡ replacement_shape i o w s r
  unfolding evaluate Construction.replacement Formula.exists Formula.biconditional
  evaluate-replacement i o w s r = refl

  pub separation-AllInputs :
      (e s r : FreeVariable)
      → IsFormula predicate
      → AllInputs IsFormula (Construction.separation predicate e s r)
  unfolding Construction.separation
  separation-AllInputs e s r h = ((tt, (tt, h)), ((tt, h), tt))

  pub replacement-AllInputs :
      (i o w s r : FreeVariable)
      → IsFormula predicate
      → AllInputs IsFormula (Construction.replacement predicate i o w s r)
  unfolding Construction.replacement
  replacement-AllInputs i o w s r h = ((tt, (h, (h, tt))), ((tt, (tt, h)), ((tt, h), tt)))
