-- ===== src/Examples/Formulas.antt =====
-- The theorems on formulas, applied.
use naome.Prelude.{arith, ◌≡◌, refl, true, ◌↔◌, none, some, [], ◌∷◌}
use naome.Prelude.Set
use naome.Node
use naome.Node.Checked.{bind_free_checked, bind_free_checked-eq-bind_free}
use naome.Formula
use naome.Formula.{Formula}
use naome.Formula.Scope.{IsFormula}
use naome.Formula.Binding.{for_all_each, for_all_many-eq-for_all_each}
use naome.Formula.Opening.{open_outer_universal-for_all}
use naome.Formula.Variables.{occurs, contains-free_variables, is_closed-iff-free_variables}
use naome.Construction
use naome.Construction.{evaluate}
use naome.Construction.Shape.{evaluate-IsFormula, replacement-AllInputs}
use naome.Comparison
use naome.Comparison.Difference.{between_iff}
use naome.Semantics.{Holds, update}
use naome.Semantics.Truth.{Holds-for_all, Holds-substitute_free}
use naome.Examples.{sample, sample-IsFormula, point}

bind_free_checked-eq-bind_free_example :
    bind_free_checked sample 3 (Formula.only 1) ≡ some (Node.bind_free sample 3 (Formula.only 1))
unfolding Node.node_depth Formula.for_all Formula.implies Formula.member Formula.negate
    Formula.equal
bind_free_checked-eq-bind_free_example =
    bind_free_checked-eq-bind_free 0 (Formula.only 1) (λ x i h. ground arith) sample 3
      (ground arith)

for_all_many-eq-for_all_each_example :
    Formula.for_all_many (1 ∷ 2 ∷ 1 ∷ []) sample ≡ for_all_each (1 ∷ 2 ∷ 1 ∷ []) sample
for_all_many-eq-for_all_each_example = for_all_many-eq-for_all_each (1 ∷ 2 ∷ 1 ∷ []) sample

open_outer_universal-for_all_example :
    Formula.open_outer_universal (Formula.for_all 1 sample) 7
    ≡ some (Formula.substitute_free 1 7 sample)
unfolding Formula.for_all Formula.implies Formula.member Formula.negate Formula.equal
    Node.has_matching_free_variable
open_outer_universal-for_all_example = open_outer_universal-for_all 1 7 sample sample-IsFormula refl

contains-free_variables_example : Set.contains 2 (Formula.free_variables sample) ≡ occurs 2 sample
contains-free_variables_example = contains-free_variables 2 sample

is_closed-iff-free_variables_example :
    (Formula.is_closed sample ≡ true) ↔ (Formula.free_variables sample ≡ [])
is_closed-iff-free_variables_example = is_closed-iff-free_variables sample

evaluate-IsFormula_example : IsFormula (evaluate (Construction.replacement sample 0 1 2 3 4))
evaluate-IsFormula_example =
    evaluate-IsFormula (Construction.replacement sample 0 1 2 3 4)
      (replacement-AllInputs sample 0 1 2 3 4 sample-IsFormula)

between_iff_example :
    (Comparison.between sample (Formula.negate sample) ≡ none) ↔ (sample ≡ Formula.negate sample)
between_iff_example = between_iff sample (Formula.negate sample)

Holds-for_all_example :
    Holds point (Formula.for_all 1 sample) (λ _. tt)
    ≡ ((d : Unit) → Holds point sample (update (λ _. tt) 1 d))
Holds-for_all_example = Holds-for_all point 1 sample (λ _. tt) sample-IsFormula

Holds-substitute_free_example :
    Holds point (Formula.substitute_free 1 2 sample) (λ _. tt)
    ≡ Holds point sample (update (λ _. tt) 1 tt)
Holds-substitute_free_example = Holds-substitute_free point 1 2 sample (λ _. tt) sample-IsFormula
