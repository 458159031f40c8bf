-- ===== src/Formula/Variables.antt =====
-- formula.rs: the free variables of a formula, and closed formulas.
use naome.Prelude.{
  sym, ℕ, ◌+◌, ◌≡◌, ◌↔◌, refl, ◌∙◌, ap, ap₂, fun_ext, Bool, true, false, Option, none, some, List,
  [], ◌∷◌, arith, ◌==◌, if◌then◌else◌, ◌||◌, negb, Bool-cases, inl, inr, ◌≢◌, ℕ_discrete,
}
use naome.Prelude.Set
use naome.Prelude.Set.{Set, contains-insert}
use naome.Node
use naome.Node.{Node, Variable, bound, free, FreeVariable}
use naome.Formula
use naome.Formula.{Formula}
use naome.Formula.Binding.{Binding, for_all_each, for_all_many-eq-for_all_each}

-- `x` occurs free in the tree
abbrev pub occurs : FreeVariable → Node → Bool
occurs x n = Node.has_matching_free_variable n (λ y. y == x)

contains-collect_free_variable :
    (v : Variable) (s : Set) (x : ℕ)
    → Set.contains x (Node.collect_free_variable v s)
      ≡ (Node.matches_free v (λ y. y == x) || Set.contains x s)
unfolding Node.collect_free_variable Node.matches_free
contains-collect_free_variable (bound i) s x = refl
contains-collect_free_variable (free y) s x = contains-insert x y s

pub contains-collect_free_variables :
    (n : Node) (s : Set) (x : ℕ)
    → Set.contains x (Node.collect_free_variables n s) ≡ (occurs x n || Set.contains x s)
unfolding Node.collect_free_variables Node.has_matching_free_variable
contains-collect_free_variables (Node.equal a b) s x = ground (
  arith,
  contains-collect_free_variable b (Node.collect_free_variable a s) x,
  contains-collect_free_variable a s x,
)
contains-collect_free_variables (Node.member a b) s x = ground (
  arith,
  contains-collect_free_variable b (Node.collect_free_variable a s) x,
  contains-collect_free_variable a s x,
)
contains-collect_free_variables (Node.not n) s x = contains-collect_free_variables n s x
contains-collect_free_variables (Node.implies l r) s x = ground (
  arith,
  contains-collect_free_variables r (Node.collect_free_variables l s) x,
  contains-collect_free_variables l s x,
)
contains-collect_free_variables (Node.for_all n) s x = contains-collect_free_variables n s x

or_false : (b : Bool) → (b || false) ≡ b
or_false true = refl
or_false false = refl

-- `free_variables` is the set of the variables that occur free.
pub contains-free_variables :
    (x : FreeVariable) (f : Formula) → Set.contains x (Formula.free_variables f) ≡ occurs x f
unfolding Formula.free_variables Set.contains
contains-free_variables x f = contains-collect_free_variables f [] x ∙ or_false (occurs x f)

abbrev unbound : Option ℕ → Bool → Bool
unbound (some i) b = false
unbound none b = b

matches_free-bind_variable :
    (v : Variable) (d : ℕ) (g : Binding) (p : FreeVariable → Bool)
    → Node.matches_free (Node.bind_variable v d g) p
      ≡ Node.matches_free v (λ x. unbound (g x) (p x))
unfolding Node.bind_variable Node.matches_free
matches_free-bind_variable (bound i) d g p = refl
matches_free-bind_variable (free x) d g p = ground arith

pub has_matching-bind_free :
    (n : Node) (d : ℕ) (g : Binding) (p : FreeVariable → Bool)
    → Node.has_matching_free_variable (Node.bind_free n d g) p
      ≡ Node.has_matching_free_variable n (λ x. unbound (g x) (p x))
unfolding Node.bind_free Node.has_matching_free_variable
has_matching-bind_free (Node.equal a b) d g p =
    rw (matches_free-bind_variable a d g p, matches_free-bind_variable b d g p)
has_matching-bind_free (Node.member a b) d g p =
    rw (matches_free-bind_variable a d g p, matches_free-bind_variable b d g p)
has_matching-bind_free (Node.not n) d g p = has_matching-bind_free n d g p
has_matching-bind_free (Node.implies l r) d g p =
    ap₂ ◌||◌ (has_matching-bind_free l d g p) (has_matching-bind_free r d g p)
has_matching-bind_free (Node.for_all n) d g p = has_matching-bind_free n (d + 1) g p

-- A test that fails at every variable that occurs matches nothing.
matches_free-none :
    (v : Variable) (p : FreeVariable → Bool)
    → ((x : FreeVariable) → Node.matches_free v (λ y. y == x) ≡ true → p x ≡ false)
    → Node.matches_free v p ≡ false
unfolding Node.matches_free
matches_free-none (bound i) p h = refl
matches_free-none (free x) p h = h x (ground arith)

pub or_left : (a b : Bool) → a ≡ true → (a || b) ≡ true
or_left a b h = ground arith

pub or_right : (a b : Bool) → b ≡ true → (a || b) ≡ true
or_right a b h = ground arith

or_none : (a b : Bool) → a ≡ false → b ≡ false → (a || b) ≡ false
or_none a b h k = ground arith

pub has_matching-none :
    (n : Node) (p : FreeVariable → Bool)
    → ((x : FreeVariable) → occurs x n ≡ true → p x ≡ false)
    → Node.has_matching_free_variable n p ≡ false
unfolding Node.has_matching_free_variable
has_matching-none (Node.equal a b) p h =
    or_none _ _ (matches_free-none a p (λ x e. h x (or_left _ _ e)))
      (matches_free-none b p (λ x e. h x (or_right _ _ e)))
has_matching-none (Node.member a b) p h =
    or_none _ _ (matches_free-none a p (λ x e. h x (or_left _ _ e)))
      (matches_free-none b p (λ x e. h x (or_right _ _ e)))
has_matching-none (Node.not n) p h = has_matching-none n p h
has_matching-none (Node.implies l r) p h =
    or_none _ _ (has_matching-none l p (λ x e. h x (or_left _ _ e)))
      (has_matching-none r p (λ x e. h x (or_right _ _ e)))
has_matching-none (Node.for_all n) p h = has_matching-none n p h

matches_free_mono :
    (v : Variable) (p q : FreeVariable → Bool)
    → ((x : FreeVariable) → p x ≡ true → q x ≡ true)
    → Node.matches_free v p ≡ true
    → Node.matches_free v q ≡ true
unfolding Node.matches_free
matches_free_mono (bound i) p q h e = e
matches_free_mono (free x) p q h e = h x e

or_mono :
    (a b c d : Bool)
    → (a ≡ true → c ≡ true)
    → (b ≡ true → d ≡ true)
    → (a || b) ≡ true
    → (c || d) ≡ true
or_mono true b c d h k e = or_left c d (h refl)
or_mono false b c d h k e = or_right c d (k e)

pub has_matching_mono :
    (n : Node) (p q : FreeVariable → Bool)
    → ((x : FreeVariable) → p x ≡ true → q x ≡ true)
    → Node.has_matching_free_variable n p ≡ true
    → Node.has_matching_free_variable n q ≡ true
unfolding Node.has_matching_free_variable
has_matching_mono (Node.equal a b) p q h =
    or_mono _ _ _ _ (matches_free_mono a p q h) (matches_free_mono b p q h)
has_matching_mono (Node.member a b) p q h =
    or_mono _ _ _ _ (matches_free_mono a p q h) (matches_free_mono b p q h)
has_matching_mono (Node.not n) p q h = has_matching_mono n p q h
has_matching_mono (Node.implies l r) p q h =
    or_mono _ _ _ _ (has_matching_mono l p q h) (has_matching_mono r p q h)
has_matching_mono (Node.for_all n) p q h = has_matching_mono n p q h

unbound_self : (x v y : ℕ) → x ≡ v → unbound (Formula.only v y) (y == x) ≡ false
unbound_self x v y e = ground arith

unbound_other : (x v y : ℕ) → x ≢ v → unbound (Formula.only v y) (y == x) ≡ (y == x)
unbound_other x v y e = ground arith

-- `for_all v` binds every occurrence of `v` and leaves the other variables free.
pub occurs-for_all :
    (x v : FreeVariable) (f : Formula)
    → occurs x (Formula.for_all v f) ≡ (if v == x then false else occurs x f)
unfolding Formula.for_all Node.has_matching_free_variable
occurs-for_all x v f = elim (ℕ_discrete x v) [
  | yes e ↦
      has_matching-bind_free f 0 (Formula.only v) (λ y. y == x)
      ∙ has_matching-none f _ (λ y _. unbound_self x v y e)
      ∙ ground arith
  | no ne ↦
      has_matching-bind_free f 0 (Formula.only v) (λ y. y == x)
      ∙ ap (Node.has_matching_free_variable f) (fun_ext (λ y. unbound_other x v y ne))
      ∙ ground arith
]

occurs-for_all_each :
    (x : FreeVariable) (vs : List FreeVariable) (f : Formula)
    → occurs x (for_all_each vs f) ≡ (if Set.contains x vs then false else occurs x f)
unfolding for_all_each Set.contains
occurs-for_all_each x [] f = refl
occurs-for_all_each x (v ∷ vs) f =
    ground (arith, occurs-for_all x v (for_all_each vs f), occurs-for_all_each x vs f)

-- The variables free under `for_all_many` are those of the body that are not bound.
pub occurs-for_all_many :
    (x : FreeVariable) (vs : List FreeVariable) (f : Formula)
    → occurs x (Formula.for_all_many vs f) ≡ (if Set.contains x vs then false else occurs x f)
occurs-for_all_many x vs f =
    ap (occurs x) (for_all_many-eq-for_all_each vs f) ∙ occurs-for_all_each x vs f

closed_of_none :
    (f : Formula) → ((x : FreeVariable) → occurs x f ≡ false) → Formula.is_closed f ≡ true
unfolding Formula.is_closed
closed_of_none f h = ap negb (has_matching-none f (λ _. true) (λ x e. cc (h x)))

none_of_closed :
    (f : Formula) → Formula.is_closed f ≡ true → (x : FreeVariable) → occurs x f ≡ false
unfolding Formula.is_closed
none_of_closed f h x = elim (Bool-cases (occurs x f)) [
  | inl hit ↦ let any = has_matching_mono f (λ y. y == x) (λ _. true) (λ _ _. refl) hit in cc
  | inr miss ↦ miss
]

-- `is_closed` holds exactly when no variable occurs free.
pub is_closed_iff :
    (f : Formula) → (Formula.is_closed f ≡ true) ↔ ((x : FreeVariable) → occurs x f ≡ false)
is_closed_iff f = (none_of_closed f, closed_of_none f)

none_of_empty : (s : Set.Set) → ((x : FreeVariable) → Set.contains x s ≡ false) → s ≡ []
unfolding Set.contains
none_of_empty [] h = refl
none_of_empty (x ∷ s) h = let miss = h x in absurd (ground arith)

no_member : (x : FreeVariable) → Set.contains x [] ≡ false
unfolding Set.contains
no_member x = refl

-- `is_closed` holds exactly when `free_variables` collects no variable.
pub is_closed-iff-free_variables :
    (f : Formula) → (Formula.is_closed f ≡ true) ↔ (Formula.free_variables f ≡ [])
is_closed-iff-free_variables f = (
  λ closed.
      none_of_empty (Formula.free_variables f)
        (λ x. contains-free_variables x f ∙ none_of_closed f closed x),
  λ empty. closed_of_none f (λ x. sym (contains-free_variables x f) ∙ rw empty (no_member x)),
)
