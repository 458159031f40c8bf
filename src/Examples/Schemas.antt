-- ===== src/Examples/Schemas.antt =====
-- The theorems on the axiom schemas, applied.
use naome.Prelude.{◌≡◌, refl, ◌↔◌, true, [], ◌∷◌}
use naome.Prelude.Result.{ok}
use naome.Formula
use naome.Formula.{Formula}
use naome.Zfc.{separation_formula, replacement_formula, validate_schema}
use naome.Zfc.Axioms.{infinity, axiom_formula}
use naome.Zfc.Validation.{IsAdmissible, validate_schema_iff}
use naome.Zfc.Instances.{separation_formula-closed, replacement_formula-closed}
use naome.Semantics.{Valid, Holds}
use naome.Semantics.Sets.{Statement, axiom_formula_iff}
use naome.Semantics.Schemas.{separation_formula-Valid, replacement_formula-Valid}
use naome.Examples.{value_of, sample, members, identity_image, point, point-IsModel}

abbrev members_instance : Formula
members_instance = value_of sample (separation_formula members)

members_accepted : separation_formula members ≡ ok members_instance
unfolding separation_formula Formula.member
members_accepted = refl

abbrev image_instance : Formula
image_instance = value_of sample (replacement_formula identity_image)

image_accepted : replacement_formula identity_image ≡ ok image_instance
unfolding replacement_formula Formula.equal
image_accepted = refl

validate_schema_iff_example :
    (validate_schema members.predicate (0 ∷ 1 ∷ 2 ∷ []) (0 ∷ 1 ∷ []) (2 ∷ []) (3 ∷ []) ≡ ok tt)
    ↔ IsAdmissible members.predicate (0 ∷ 1 ∷ 2 ∷ []) (0 ∷ 1 ∷ []) (2 ∷ []) (3 ∷ [])
validate_schema_iff_example =
    validate_schema_iff members.predicate (0 ∷ 1 ∷ 2 ∷ []) (0 ∷ 1 ∷ []) (2 ∷ []) (3 ∷ [])

separation_formula-closed_example : Formula.is_closed members_instance ≡ true
separation_formula-closed_example =
    separation_formula-closed members members_instance members_accepted

replacement_formula-closed_example : Formula.is_closed image_instance ≡ true
replacement_formula-closed_example =
    replacement_formula-closed identity_image image_instance image_accepted

axiom_formula_iff_example :
    Holds point (axiom_formula infinity) (λ _. tt) ↔ Statement point infinity
axiom_formula_iff_example = axiom_formula_iff point (λ _. tt) infinity

separation_formula-Valid_example : Valid point members_instance
unfolding Formula.member
separation_formula-Valid_example =
    separation_formula-Valid point point-IsModel members members_instance (tt, tt) members_accepted

replacement_formula-Valid_example : Valid point image_instance
unfolding Formula.equal
replacement_formula-Valid_example =
    replacement_formula-Valid point point-IsModel identity_image image_instance (tt, tt)
      image_accepted
