-- ===== src/Zfc/Axioms.antt =====
-- crates/naome-foundation/src/zfc.rs: the seven fixed axioms. `ZfcAxiom.formula` is `axiom_formula`;
-- the local variables of a function keep their names.
use naome.Prelude.{[], ◌∷◌}
use naome.Node.{FreeVariable}
use naome.Formula.{
  Formula, equal, member, negate, implies, conjunction, disjunction, biconditional, for_all, exists,
  for_all_many,
}

pub data ZfcAxiom : Type 0 where
  extensionality pairing union power_set infinity foundation choice : ZfcAxiom

unfoldable pub extensionality_formula : Formula
unfolding equal member implies biconditional for_all for_all_many
extensionality_formula =
    let x : FreeVariable = 0 in
    let y : FreeVariable = 1 in
    let z : FreeVariable = 2 in
    let same_members = for_all z (biconditional (member z x) (member z y)) in
    for_all_many (x ∷ y ∷ []) (implies same_members (equal x y))

unfoldable pub pairing_formula : Formula
unfolding equal member disjunction biconditional for_all exists for_all_many
pairing_formula =
    let x : FreeVariable = 0 in
    let y : FreeVariable = 1 in
    let pair : FreeVariable = 2 in
    let z : FreeVariable = 3 in
    let pair_member = disjunction (equal z x) (equal z y) in
    let body = for_all z (biconditional (member z pair) pair_member) in
    for_all_many (x ∷ y ∷ []) (exists pair body)

unfoldable pub union_formula : Formula
unfolding member conjunction biconditional for_all exists
union_formula =
    let source : FreeVariable = 0 in
    let union_set : FreeVariable = 1 in
    let element : FreeVariable = 2 in
    let member_set : FreeVariable = 3 in
    let appears_in_member =
      exists member_set (conjunction (member element member_set) (member member_set source)) in
    let body = for_all element (biconditional (member element union_set) appears_in_member) in
    for_all source (exists union_set body)

unfoldable pub power_set_formula : Formula
unfolding member implies biconditional for_all exists
power_set_formula =
    let source : FreeVariable = 0 in
    let power : FreeVariable = 1 in
    let subset : FreeVariable = 2 in
    let element : FreeVariable = 3 in
    let is_subset = for_all element (implies (member element subset) (member element source)) in
    let body = for_all subset (biconditional (member subset power) is_subset) in
    for_all source (exists power body)

unfoldable pub infinity_formula : Formula
unfolding equal member negate implies conjunction disjunction biconditional for_all exists
infinity_formula =
    let inductive : FreeVariable = 0 in
    let empty : FreeVariable = 1 in
    let element : FreeVariable = 2 in
    let successor : FreeVariable = 3 in
    let candidate : FreeVariable = 4 in
    let is_empty = for_all candidate (negate (member candidate empty)) in
    let contains_empty = exists empty (conjunction is_empty (member empty inductive)) in
    let is_successor = for_all candidate (
      biconditional (member candidate successor)
        (disjunction (member candidate element) (equal candidate element))) in
    let contains_successor =
      exists successor (conjunction is_successor (member successor inductive)) in
    let successor_closed =
      for_all element (implies (member element inductive) contains_successor) in
    exists inductive (conjunction contains_empty successor_closed)

unfoldable pub foundation_formula : Formula
unfolding member negate implies conjunction for_all exists
foundation_formula =
    let set : FreeVariable = 0 in
    let element : FreeVariable = 1 in
    let nested : FreeVariable = 2 in
    let is_non_empty = exists element (member element set) in
    let is_disjoint =
      for_all nested (implies (member nested element) (negate (member nested set))) in
    let has_minimal_element = exists element (conjunction (member element set) is_disjoint) in
    for_all set (implies is_non_empty has_minimal_element)

unfoldable pub choice_formula : Formula
unfolding equal member negate implies conjunction for_all exists for_all_many
choice_formula =
    let family : FreeVariable = 0 in
    let first_set : FreeVariable = 1 in
    let second_set : FreeVariable = 2 in
    let element : FreeVariable = 3 in
    let choice_set : FreeVariable = 4 in
    let other_element : FreeVariable = 5 in
    let non_empty_family =
      for_all first_set
        (implies (member first_set family) (exists element (member element first_set))) in
    let both_family_members =
      conjunction (conjunction (member first_set family) (member second_set family))
        (negate (equal first_set second_set)) in
    let shared_element =
      exists element (conjunction (member element first_set) (member element second_set)) in
    let pairwise_disjoint =
      for_all_many (first_set ∷ second_set ∷ [])
        (implies both_family_members (negate shared_element)) in
    let other_is_chosen =
      conjunction (member other_element first_set) (member other_element choice_set) in
    let unique = for_all other_element (implies other_is_chosen (equal other_element element)) in
    let exactly_one =
      exists element
        (conjunction (conjunction (member element first_set) (member element choice_set)) unique) in
    let meets_every_member = for_all first_set (implies (member first_set family) exactly_one) in
    let has_choice_set = exists choice_set meets_every_member in
    for_all family (implies (conjunction non_empty_family pairwise_disjoint) has_choice_set)

unfoldable pub axiom_formula : ZfcAxiom → Formula
unfolding extensionality_formula pairing_formula union_formula power_set_formula infinity_formula
    foundation_formula choice_formula
axiom_formula extensionality = extensionality_formula
axiom_formula pairing = pairing_formula
axiom_formula union = union_formula
axiom_formula power_set = power_set_formula
axiom_formula infinity = infinity_formula
axiom_formula foundation = foundation_formula
axiom_formula choice = choice_formula
