-- ===== src/Checker/Scope.antt =====
-- logic.rs, zfc.rs: the rules of the checker and the invariant of formulas.
use naome.Prelude.{arith}
use naome.Node.{FreeVariable}
use naome.Formula.{Formula}
use naome.Formula.Scope.{IsFormula}
use naome.Construction
use naome.Construction.Shape.{evaluate-IsFormula}
use naome.Logic
use naome.Zfc.Axioms.{
  ZfcAxiom, extensionality, pairing, union, power_set, infinity, foundation, choice, axiom_formula,
}

pub axiom_formula-IsFormula : (a : ZfcAxiom) → IsFormula (axiom_formula a)
unfolding axiom_formula
axiom_formula-IsFormula extensionality = ground arith
axiom_formula-IsFormula pairing = ground arith
axiom_formula-IsFormula union = ground arith
axiom_formula-IsFormula power_set = ground arith
axiom_formula-IsFormula infinity = ground arith
axiom_formula-IsFormula foundation = ground arith
axiom_formula-IsFormula choice = ground arith

module _ (f g : Formula) (hf : IsFormula f) (hg : IsFormula g) where
  pub simplification-IsFormula : IsFormula (Logic.simplification f g)
  unfolding Logic.simplification Construction.simplification
  simplification-IsFormula = evaluate-IsFormula (Construction.simplification f g) (hf, (hg, hf))

  pub frege-IsFormula : (h : Formula) → IsFormula h → IsFormula (Logic.frege f g h)
  unfolding Logic.frege Construction.frege
  frege-IsFormula h hh =
      evaluate-IsFormula (Construction.frege f g h) ((hf, (hg, hh)), ((hf, hg), (hf, hh)))

  pub classical_contraposition-IsFormula : IsFormula (Logic.classical_contraposition f g)
  unfolding Logic.classical_contraposition Construction.contraposition
  classical_contraposition-IsFormula =
      evaluate-IsFormula (Construction.contraposition f g) ((hg, hf), (hf, hg))

  pub universal_distribution-IsFormula :
      (v : FreeVariable) → IsFormula (Logic.universal_distribution v f g)
  unfolding Logic.universal_distribution Construction.distribution
  universal_distribution-IsFormula v =
      evaluate-IsFormula (Construction.distribution v f g) ((hf, hg), (hf, hg))

module _ (f : Formula) (hf : IsFormula f) where
  pub vacuous_universal-IsFormula : IsFormula (Logic.vacuous_universal f)
  unfolding Logic.vacuous_universal Construction.vacuous
  vacuous_universal-IsFormula = evaluate-IsFormula (Construction.vacuous f) (hf, hf)

  pub universal_instantiation-IsFormula :
      (v w : FreeVariable) → IsFormula (Logic.universal_instantiation v w f)
  unfolding Logic.universal_instantiation Construction.instantiation
  universal_instantiation-IsFormula v w =
      evaluate-IsFormula (Construction.instantiation v w f) (hf, hf)

  pub equality_substitution-IsFormula :
      (v w : FreeVariable) → IsFormula (Logic.equality_substitution v w f)
  unfolding Logic.equality_substitution Construction.substitution
  equality_substitution-IsFormula v w =
      evaluate-IsFormula (Construction.substitution v w f) (tt, (hf, hf))
