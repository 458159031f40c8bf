-- ===== src/Formula/Scope.antt =====
-- formula.rs: the invariant of `Formula`, that no bound index dangles, and the public operations.
use naome.Prelude.{
  ℕ, ◌+◌, ◌≤◌, ◌<◌, ◌≡◌, Option, some, arith, ◌==◌, Bool-cases, Option-cases, inl, inr,
}
use naome.Node
use naome.Node.{Node, Variable, bound, free, FreeVariable}
use naome.Formula
use naome.Formula.{Formula}

abbrev pub InScope : ℕ → Variable → Type 0
InScope k (bound i) = i < k
InScope k (free x) = Unit

-- Every index of the tree is below the number of its enclosing binders, `k` of them outside the tree.
abbrev pub IsScoped : ℕ → Node → Type 0
IsScoped k (Node.equal a b) = InScope k a × InScope k b
IsScoped k (Node.member a b) = InScope k a × InScope k b
IsScoped k (Node.not n) = IsScoped k n
IsScoped k (Node.implies l r) = IsScoped k l × IsScoped k r
IsScoped k (Node.for_all n) = IsScoped (k + 1) n

abbrev pub IsFormula : Formula → Type 0
IsFormula = IsScoped 0

-- `g` gives indices below `m` only.
abbrev pub IsBelow : ℕ → (FreeVariable → Option ℕ) → Type 0
IsBelow m g = (x i : ℕ) → g x ≡ some i → i < m

module _ (m : ℕ) (g : FreeVariable → Option ℕ) (below : IsBelow m g) where
  bind_variable-InScope :
      (v : Variable) (d k : ℕ) → k ≡ d + m → InScope d v → InScope k (Node.bind_variable v d g)
  unfolding Node.bind_variable
  bind_variable-InScope (bound i) d k e h = omega arith
  bind_variable-InScope (free x) d k e h = elim (Option-cases (g x)) [
    | inl miss ↦ rw (miss, InScope, Node.bind_variable) tt
    | inr (i, hit) ↦
        rw (hit, InScope, Node.bind_variable) (let lt : i < m = below x i hit in omega arith)
  ]

  pub bind_free-IsScoped :
      (n : Node) (d k : ℕ) → k ≡ d + m → IsScoped d n → IsScoped k (Node.bind_free n d g)
  unfolding Node.bind_free
  bind_free-IsScoped (Node.equal a b) d k e h =
      (bind_variable-InScope a d k e h.0, bind_variable-InScope b d k e h.1)
  bind_free-IsScoped (Node.member a b) d k e h =
      (bind_variable-InScope a d k e h.0, bind_variable-InScope b d k e h.1)
  bind_free-IsScoped (Node.not n) d k e h = bind_free-IsScoped n d k e h
  bind_free-IsScoped (Node.implies l r) d k e h =
      (bind_free-IsScoped l d k e h.0, bind_free-IsScoped r d k e h.1)
  bind_free-IsScoped (Node.for_all n) d k e h = bind_free-IsScoped n (d + 1) (k + 1) (omega arith) h

pub only-IsBelow : (v : FreeVariable) → IsBelow 1 (Formula.only v)
only-IsBelow v x i h = ground arith

pub for_all-IsFormula :
    (v : FreeVariable) (f : Formula) → IsFormula f → IsFormula (Formula.for_all v f)
unfolding Formula.for_all
for_all-IsFormula v f h =
    bind_free-IsScoped 1 (Formula.only v) (only-IsBelow v) f 0 1 (omega arith) h

pub exists-IsFormula :
    (v : FreeVariable) (f : Formula) → IsFormula f → IsFormula (Formula.exists v f)
unfolding Formula.exists Formula.negate
exists-IsFormula v f h = for_all-IsFormula v (Node.not f) h

InScope-mono : (v : Variable) (k m : ℕ) → k ≤ m → InScope k v → InScope m v
InScope-mono (bound i) k m e h = omega arith
InScope-mono (free x) k m e h = tt

pub IsScoped-mono : (n : Node) (k m : ℕ) → k ≤ m → IsScoped k n → IsScoped m n
IsScoped-mono (Node.equal a b) k m e h = (InScope-mono a k m e h.0, InScope-mono b k m e h.1)
IsScoped-mono (Node.member a b) k m e h = (InScope-mono a k m e h.0, InScope-mono b k m e h.1)
IsScoped-mono (Node.not n) k m e h = IsScoped-mono n k m e h
IsScoped-mono (Node.implies l r) k m e h = (IsScoped-mono l k m e h.0, IsScoped-mono r k m e h.1)
IsScoped-mono (Node.for_all n) k m e h = IsScoped-mono n (k + 1) (m + 1) (omega arith) h

map_free_variable-InScope :
    (v : Variable) (k : ℕ) (f : FreeVariable → FreeVariable)
    → InScope k v
    → InScope k (Node.map_free_variable v f)
unfolding Node.map_free_variable
map_free_variable-InScope (bound i) k f h = h
map_free_variable-InScope (free x) k f h = tt

pub map_free_variables-IsScoped :
    (n : Node) (k : ℕ) (f : FreeVariable → FreeVariable)
    → IsScoped k n
    → IsScoped k (Node.map_free_variables n f)
unfolding Node.map_free_variables
map_free_variables-IsScoped (Node.equal a b) k f h =
    (map_free_variable-InScope a k f h.0, map_free_variable-InScope b k f h.1)
map_free_variables-IsScoped (Node.member a b) k f h =
    (map_free_variable-InScope a k f h.0, map_free_variable-InScope b k f h.1)
map_free_variables-IsScoped (Node.not n) k f h = map_free_variables-IsScoped n k f h
map_free_variables-IsScoped (Node.implies l r) k f h =
    (map_free_variables-IsScoped l k f h.0, map_free_variables-IsScoped r k f h.1)
map_free_variables-IsScoped (Node.for_all n) k f h = map_free_variables-IsScoped n (k + 1) f h

pub substitute_free-IsFormula :
    (from to : FreeVariable) (f : Formula)
    → IsFormula f
    → IsFormula (Formula.substitute_free from to f)
unfolding Formula.substitute_free
substitute_free-IsFormula from to f h = elim (Bool-cases (from == to)) [
  | inl same ↦ rw same h
  | inr differ ↦ rw differ (map_free_variables-IsScoped f 0 _ h)
]

open_variable-InScope :
    (v : Variable) (d k : ℕ) (w : FreeVariable)
    → d ≤ k
    → InScope (k + 1) v
    → InScope k (Node.open_variable v d w)
unfolding Node.open_variable
open_variable-InScope (bound i) d k w e h = ground arith
open_variable-InScope (free x) d k w e h = tt

pub open_binder-IsScoped :
    (n : Node) (d k : ℕ) (w : FreeVariable)
    → d ≤ k
    → IsScoped (k + 1) n
    → IsScoped k (Node.open_binder n d w)
unfolding Node.open_binder
open_binder-IsScoped (Node.equal a b) d k w e h =
    (open_variable-InScope a d k w e h.0, open_variable-InScope b d k w e h.1)
open_binder-IsScoped (Node.member a b) d k w e h =
    (open_variable-InScope a d k w e h.0, open_variable-InScope b d k w e h.1)
open_binder-IsScoped (Node.not n) d k w e h = open_binder-IsScoped n d k w e h
open_binder-IsScoped (Node.implies l r) d k w e h =
    (open_binder-IsScoped l d k w e h.0, open_binder-IsScoped r d k w e h.1)
open_binder-IsScoped (Node.for_all n) d k w e h =
    open_binder-IsScoped n (d + 1) (k + 1) w (omega arith) h

pub equal-IsFormula : (a b : FreeVariable) → IsFormula (Formula.equal a b)
unfolding Formula.equal
equal-IsFormula a b = (tt, tt)

pub member-IsFormula : (a b : FreeVariable) → IsFormula (Formula.member a b)
unfolding Formula.member
member-IsFormula a b = (tt, tt)

pub implies-IsFormula :
    (f g : Formula) → IsFormula f → IsFormula g → IsFormula (Formula.implies f g)
unfolding Formula.implies
implies-IsFormula f g h k = (h, k)

pub conjunction-IsFormula :
    (f g : Formula) → IsFormula f → IsFormula g → IsFormula (Formula.conjunction f g)
unfolding Formula.conjunction
conjunction-IsFormula f g h k = (h, k)

pub biconditional-IsFormula :
    (f g : Formula) → IsFormula f → IsFormula g → IsFormula (Formula.biconditional f g)
unfolding Formula.biconditional
biconditional-IsFormula f g h k = ((h, k), (k, h))

pub ruleset scoped = (
  equal-IsFormula, member-IsFormula, implies-IsFormula, conjunction-IsFormula,
  biconditional-IsFormula, for_all-IsFormula, exists-IsFormula, substitute_free-IsFormula,
)
