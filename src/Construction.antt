-- ===== src/Construction.antt =====
-- crates/naome-foundation/src/construction.rs: the methods of `Expression`, their evaluation to a
-- formula, and the recipes of the logical axioms and of the two schemas.
pub mod Shape
use naome.Node.{FreeVariable}
use naome.Formula
use naome.Formula.{Formula}
use naome.Expression
use naome.Expression.{Expression, input}

module _ {F : Type 0} where
  unfoldable pub negate : Expression F → Expression F
  negate e = Expression.not e

  unfoldable pub implies : Expression F → Expression F → Expression F
  implies l r = Expression.implies l r

  unfoldable pub for_all : FreeVariable → Expression F → Expression F
  for_all v e = Expression.for_all v e

  unfoldable pub exists : FreeVariable → Expression F → Expression F
  unfolding negate for_all
  exists v e = negate (for_all v (negate e))

  unfoldable pub conjunction : Expression F → Expression F → Expression F
  unfolding negate implies
  conjunction l r = negate (implies l (negate r))

  unfoldable pub substitute : FreeVariable → FreeVariable → Expression F → Expression F
  substitute from to e = Expression.substitute from to e

  unfoldable pub biconditional : Expression F → Expression F → Expression F
  unfolding implies conjunction
  biconditional l r = conjunction (implies l r) (implies r l)

  unfoldable pub simplification : F → F → Expression F
  unfolding implies
  simplification a b = implies (input a) (implies (input b) (input a))

  unfoldable pub frege : F → F → F → Expression F
  unfolding implies
  frege a b c =
      implies (implies (input a) (implies (input b) (input c)))
        (implies (implies (input a) (input b)) (implies (input a) (input c)))

  unfoldable pub contraposition : F → F → Expression F
  unfolding implies negate
  contraposition a b =
      implies (implies (negate (input b)) (negate (input a))) (implies (input a) (input b))

  unfoldable pub distribution : FreeVariable → F → F → Expression F
  unfolding implies for_all
  distribution v a b =
      implies (for_all v (implies (input a) (input b)))
        (implies (for_all v (input a)) (for_all v (input b)))

  unfoldable pub vacuous : F → Expression F
  unfolding implies
  vacuous a = implies (input a) (Expression.vacuous (input a))

  unfoldable pub instantiation : FreeVariable → FreeVariable → F → Expression F
  unfolding implies for_all substitute
  instantiation v replacement a = implies (for_all v (input a)) (substitute v replacement (input a))

  unfoldable pub substitution : FreeVariable → FreeVariable → F → Expression F
  unfolding implies substitute
  substitution from to body =
      implies (Expression.equal from to) (implies (input body) (substitute from to (input body)))

  unfoldable pub separation : F → FreeVariable → FreeVariable → FreeVariable → Expression F
  unfolding biconditional conjunction for_all exists
  separation predicate element source result = for_all source (
      exists result (
        for_all element (
          biconditional (Expression.member element result)
            (conjunction (Expression.member element source) (input predicate)))))

  -- `unique` and `image` of `replacement`
  unfoldable pub unique_output : F → FreeVariable → FreeVariable → Expression F
  unfolding conjunction implies for_all exists substitute
  unique_output predicate output witness = exists output (
      conjunction (input predicate) (
        for_all witness (
          implies (substitute output witness (input predicate)) (Expression.equal witness output))))

  unfoldable pub image :
      F → FreeVariable → FreeVariable → FreeVariable → FreeVariable → Expression F
  unfolding biconditional conjunction for_all exists
  image predicate input_variable output source result = for_all output (
      biconditional (Expression.member output result) (
        exists input_variable
          (conjunction (Expression.member input_variable source) (input predicate))))

  unfoldable pub replacement :
      F → FreeVariable → FreeVariable → FreeVariable → FreeVariable → FreeVariable → Expression F
  unfolding unique_output image implies for_all exists
  replacement predicate input_variable output witness source result = for_all source (
      implies
        (for_all input_variable (
          implies (Expression.member input_variable source)
            (unique_output predicate output witness)))
        (exists result (image predicate input_variable output source result)))

unfoldable pub evaluate : Expression Formula → Formula
unfolding Formula.equal Formula.member Formula.negate Formula.implies Formula.for_all
    Formula.vacuous_for_all Formula.substitute_free
evaluate (Expression.input value) = value
evaluate (Expression.equal a b) = Formula.equal a b
evaluate (Expression.member a b) = Formula.member a b
evaluate (Expression.not a) = Formula.negate (evaluate a)
evaluate (Expression.implies a b) = Formula.implies (evaluate a) (evaluate b)
evaluate (Expression.for_all v a) = Formula.for_all v (evaluate a)
evaluate (Expression.vacuous a) = Formula.vacuous_for_all (evaluate a)
evaluate (Expression.substitute a b value) = Formula.substitute_free a b (evaluate value)
