-- ===== src/Comparison.antt =====
-- crates/naome-foundation/src/formula/comparison.rs: the first difference of two formulas. The bounded
-- previews `expected` and `actual` of a mismatch are text for a reader and are left out.
pub mod Difference
use naome.Prelude.{Bool, true, false, Option, none, some, List, [], ◌∷◌, ◌++◌, if◌then◌else◌}
use mathlib.Core.Logic.{ite}
use naome.Node
use naome.Node.{Node, Variable-discrete}
use naome.Formula.{Formula}

pub data FormulaPathSegment : Type 0 where
  negated antecedent consequent quantified left_variable right_variable : FormulaPathSegment

-- The result is `path` after the call if the formulas differ, and `none` if they do not: the call has
-- then taken back whatever it pushed.
unfoldable pub different : Node → Node → List FormulaPathSegment → Option (List FormulaPathSegment)
unfolding Variable-discrete
different (Node.equal a b) (Node.equal c d) path =
    ite (Variable-discrete a c)
      (ite (Variable-discrete b d) none (some (path ++ right_variable ∷ [])))
      (some (path ++ left_variable ∷ []))
different (Node.member a b) (Node.member c d) path =
    ite (Variable-discrete a c)
      (ite (Variable-discrete b d) none (some (path ++ right_variable ∷ [])))
      (some (path ++ left_variable ∷ []))
different (Node.not a) (Node.not b) path = different a b (path ++ negated ∷ [])
different (Node.for_all a) (Node.for_all b) path = different a b (path ++ quantified ∷ [])
different (Node.implies a b) (Node.implies c d) path =
    elim (different a c (path ++ antecedent ∷ [])) [
      | some found ↦ some found
      | none ↦ different b d (path ++ consequent ∷ [])
    ]
different _ _ path = some path

-- `FormulaMismatch::between`, whose result is the path of the mismatch
unfoldable pub between : Formula → Formula → Option (List FormulaPathSegment)
unfolding different
between expected actual = different expected actual []
