-- ===== src/Comparison/Difference.antt =====
-- comparison.rs: reported differences and equality.
use naome.Prelude.{◌≡◌, refl, ap, ap₂, ◌↔◌, none, some, List, [], ◌∷◌, ◌++◌, Option-cases, inl, inr}
use mathlib.Core.Logic.{ite, if_pos, if_neg}
use naome.Node
use naome.Node.{Node, Variable-discrete}
use naome.Formula.{Formula}
use naome.Comparison.{FormulaPathSegment, different, between, antecedent}

different_same : (n : Node) (path : List FormulaPathSegment) → different n n path ≡ none
unfolding different
different_same (Node.equal a b) path =
    rw (if_pos (Variable-discrete a a) refl, if_pos (Variable-discrete b b) refl) refl
different_same (Node.member a b) path =
    rw (if_pos (Variable-discrete a a) refl, if_pos (Variable-discrete b b) refl) refl
different_same (Node.not n) path = different_same n _
different_same (Node.implies l r) path =
    rw (different_same l (path ++ antecedent ∷ [])) (different_same r _)
different_same (Node.for_all n) path = different_same n _

variables_same :
    (a b c d : Node.Variable) (p q : List FormulaPathSegment)
    → ite (Variable-discrete a c) (ite (Variable-discrete b d) none (some p)) (some q) ≡ none
    → (a ≡ c) × (b ≡ d)
variables_same a b c d p q e = elim (Variable-discrete a c) [
  | yes h ↦
      let e' = rw (if_pos (Variable-discrete a c) h) at e in
      elim (Variable-discrete b d) [
        | yes k ↦ (h, k)
        | no nk ↦ let e'' = rw (if_neg (Variable-discrete b d) nk) at e' in cc
      ]
  | no nh ↦ let e' = rw (if_neg (Variable-discrete a c) nh) at e in cc
]

different-none : (n m : Node) (path : List FormulaPathSegment) → different n m path ≡ none → n ≡ m
unfolding different
different-none (Node.equal a b) (Node.equal c d) path e =
    let (p, q) = variables_same a b c d _ _ e in ap₂ Node.equal p q
different-none (Node.member a b) (Node.member c d) path e =
    let (p, q) = variables_same a b c d _ _ e in ap₂ Node.member p q
different-none (Node.not n) (Node.not m) path e = ap Node.not (different-none n m _ e)
different-none (Node.for_all n) (Node.for_all m) path e = ap Node.for_all (different-none n m _ e)
different-none (Node.implies l r) (Node.implies l' r') path e =
    elim (Option-cases (different l l' (path ++ antecedent ∷ []))) [
      | inl p ↦
          let e' = rw p at e in
          ap₂ Node.implies (different-none l l' _ p) (different-none r r' _ e')
      | inr (found, p) ↦ let e' = rw p at e in cc
    ]
different-none _ _ path e = cc

-- `FormulaMismatch::between` reports no mismatch exactly when the two formulas are equal.
pub between_iff :
    (expected actual : Formula) → (between expected actual ≡ none) ↔ (expected ≡ actual)
unfolding between
between_iff expected actual =
    (different-none expected actual [], λ e. rw e (different_same actual []))
