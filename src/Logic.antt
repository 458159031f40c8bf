-- ===== src/Logic.antt =====
-- crates/naome-foundation/src/logic.rs: the logical axioms and the two inference rules.
use naome.Prelude.{none, some}
use naome.Prelude.Result.{Result, ok, err}
use mathlib.Core.Logic.{ite}
use naome.Node.{FreeVariable, Node-discrete}
use naome.Formula
use naome.Formula.{Formula}
use naome.Construction
use naome.Construction.{evaluate}

pub data LogicError : Type 0 where
  expected_implication antecedent_mismatch : LogicError

unfoldable pub simplification : Formula → Formula → Formula
unfolding Construction.simplification evaluate
simplification antecedent consequent = evaluate (Construction.simplification antecedent consequent)

unfoldable pub frege : Formula → Formula → Formula → Formula
unfolding Construction.frege evaluate
frege first second third = evaluate (Construction.frege first second third)

unfoldable pub classical_contraposition : Formula → Formula → Formula
unfolding Construction.contraposition evaluate
classical_contraposition antecedent consequent =
    evaluate (Construction.contraposition antecedent consequent)

unfoldable pub universal_distribution : FreeVariable → Formula → Formula → Formula
unfolding Construction.distribution evaluate
universal_distribution variable antecedent consequent =
    evaluate (Construction.distribution variable antecedent consequent)

unfoldable pub vacuous_universal : Formula → Formula
unfolding Construction.vacuous evaluate
vacuous_universal formula = evaluate (Construction.vacuous formula)

unfoldable pub universal_instantiation : FreeVariable → FreeVariable → Formula → Formula
unfolding Construction.instantiation evaluate
universal_instantiation variable replacement body =
    evaluate (Construction.instantiation variable replacement body)

unfoldable pub equality_reflexivity : FreeVariable → Formula
unfolding Formula.equal
equality_reflexivity variable = Formula.equal variable variable

unfoldable pub equality_substitution : FreeVariable → FreeVariable → Formula → Formula
unfolding Construction.substitution evaluate
equality_substitution from to body = evaluate (Construction.substitution from to body)

unfoldable pub modus_ponens : Formula → Formula → Result LogicError Formula
unfolding Formula.implication_parts Node-discrete
modus_ponens premise implication = elim (Formula.implication_parts implication) [
  | none ↦ err expected_implication
  | some (antecedent, consequent) ↦
      ite (Node-discrete antecedent premise) (ok consequent) (err antecedent_mismatch)
]

unfoldable pub generalization : FreeVariable → Formula → Formula
unfolding Formula.for_all
generalization variable premise = Formula.for_all variable premise
