-- ===== src/Formula/Opening.antt =====
-- formula.rs: opening a universal formula, and binding.
use naome.Prelude.{
  ℕ, ◌+◌, ◌≡◌, refl, sym, ◌∙◌, ap, ap₂, false, some, arith, ◌==◌, if◌then◌else◌, Bool-cases, inl,
  inr,
}
use naome.Node
use naome.Node.{Node, Variable, bound, free, FreeVariable}
use naome.Formula
use naome.Formula.{Formula}
use naome.Formula.Scope.{InScope, IsScoped, IsFormula}
use naome.Formula.Variables.{occurs, contains-free_variables}

-- what `substitute_free v w` does to a variable
abbrev rename : FreeVariable → FreeVariable → FreeVariable → FreeVariable
rename v w x = if x == v then w else x

open-bind_variable :
    (u : Variable) (d : ℕ) (v w : FreeVariable)
    → InScope d u
    → Node.open_variable (Node.bind_variable u d (Formula.only v)) d w
      ≡ Node.map_free_variable u (rename v w)
unfolding Node.open_variable Node.bind_variable Node.map_free_variable
open-bind_variable (bound i) d v w h = ground arith
open-bind_variable (free x) d v w h = ground arith

open-bind_free :
    (n : Node) (d : ℕ) (v w : FreeVariable)
    → IsScoped d n
    → Node.open_binder (Node.bind_free n d (Formula.only v)) d w
      ≡ Node.map_free_variables n (rename v w)
unfolding Node.open_binder Node.bind_free Node.map_free_variables
open-bind_free (Node.equal a b) d v w h =
    ap₂ Node.equal (open-bind_variable a d v w h.0) (open-bind_variable b d v w h.1)
open-bind_free (Node.member a b) d v w h =
    ap₂ Node.member (open-bind_variable a d v w h.0) (open-bind_variable b d v w h.1)
open-bind_free (Node.not n) d v w h = ap Node.not (open-bind_free n d v w h)
open-bind_free (Node.implies l r) d v w h =
    ap₂ Node.implies (open-bind_free l d v w h.0) (open-bind_free r d v w h.1)
open-bind_free (Node.for_all n) d v w h = ap Node.for_all (open-bind_free n (d + 1) v w h)

rename_self-variable : (u : Variable) (v : FreeVariable) → Node.map_free_variable u (rename v v) ≡ u
unfolding Node.map_free_variable
rename_self-variable (bound i) v = refl
rename_self-variable (free x) v = ground arith

rename_self : (n : Node) (v : FreeVariable) → Node.map_free_variables n (rename v v) ≡ n
unfolding Node.map_free_variables
rename_self (Node.equal a b) v =
    ap₂ Node.equal (rename_self-variable a v) (rename_self-variable b v)
rename_self (Node.member a b) v =
    ap₂ Node.member (rename_self-variable a v) (rename_self-variable b v)
rename_self (Node.not n) v = ap Node.not (rename_self n v)
rename_self (Node.implies l r) v = ap₂ Node.implies (rename_self l v) (rename_self r v)
rename_self (Node.for_all n) v = ap Node.for_all (rename_self n v)

-- The shortcut of `substitute_free` for equal variables does not change its result.
pub substitute_free-eq-map :
    (v w : FreeVariable) (f : Formula)
    → Formula.substitute_free v w f ≡ Node.map_free_variables f (rename v w)
unfolding Formula.substitute_free
substitute_free-eq-map v w f = elim (Bool-cases (v == w)) [
  | inl same ↦ let e : v ≡ w = ground arith in rw same (rw (← e) (sym (rename_self f v)))
  | inr differ ↦ rw differ
]

-- Opening `for_all v f`, for a well-scoped `f`, at a variable that is not free in it gives `f` with
-- that variable in the place of `v`.
pub open_outer_universal-for_all :
    (v w : FreeVariable) (f : Formula)
    → IsFormula f
    → occurs w (Formula.for_all v f) ≡ false
    → Formula.open_outer_universal (Formula.for_all v f) w ≡ some (Formula.substitute_free v w f)
unfolding Formula.open_outer_universal
open_outer_universal-for_all v w f h fresh =
    rw (contains-free_variables w (Formula.for_all v f), fresh)
      (unfold Formula.for_all in
        ap some (open-bind_free f 0 v w h ∙ sym (substitute_free-eq-map v w f)))
