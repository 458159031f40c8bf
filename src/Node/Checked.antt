-- ===== src/Node/Checked.antt =====
-- formula.rs: `bind_free` with the program's 32-bit sums, where `none` is a panic of its `expect`.
use naome.Prelude.{
  ℕ, ◌+◌, ◌≤◌, ◌<◌, ◌≡◌, refl, ap, ◌∙◌, Option, none, some, arith, ltb, if◌then◌else◌, Option-cases,
  inl, inr,
}
use naome.Node
use naome.Node.{Node, Variable, bound, free, FreeVariable}

-- `checked_add` on `u32`
unfoldable checked_add : ℕ → ℕ → Option ℕ
checked_add a b = if ltb (a + b) 4294967296 then some (a + b) else none

abbrev map_some : {A B : Type 0} → (A → B) → Option A → Option B
map_some f (some a) = some (f a)
map_some f none = none

abbrev and_then : {A B : Type 0} → Option A → (A → Option B) → Option B
and_then (some a) f = f a
and_then none f = none

abbrev map_both : {A B C : Type 0} → (A → B → C) → Option A → Option B → Option C
map_both f (some a) (some b) = some (f a b)
map_both f _ _ = none

unfoldable pub bind_variable_checked : Variable → ℕ → (FreeVariable → Option ℕ) → Option Variable
unfolding checked_add
bind_variable_checked (free x) depth binding_index = elim (binding_index x) [
  | some i ↦ map_some bound (checked_add i depth)
  | none ↦ some (free x)
]
bind_variable_checked (bound i) depth binding_index = some (bound i)

unfoldable pub bind_free_checked : Node → ℕ → (FreeVariable → Option ℕ) → Option Node
unfolding bind_variable_checked
bind_free_checked (Node.equal a b) d g =
    map_both Node.equal (bind_variable_checked a d g) (bind_variable_checked b d g)
bind_free_checked (Node.member a b) d g =
    map_both Node.member (bind_variable_checked a d g) (bind_variable_checked b d g)
bind_free_checked (Node.not n) d g = map_some Node.not (bind_free_checked n d g)
bind_free_checked (Node.implies l r) d g =
    map_both Node.implies (bind_free_checked l d g) (bind_free_checked r d g)
bind_free_checked (Node.for_all n) d g =
    and_then (checked_add d 1)
      (λ nested_depth. map_some Node.for_all (bind_free_checked n nested_depth g))

-- `g` gives indices of at most `m` only.
abbrev pub IsBounded : ℕ → (FreeVariable → Option ℕ) → Type 0
IsBounded m g = (x i : ℕ) → g x ≡ some i → i ≤ m

checked_add_fits : (a b : ℕ) → a + b < 4294967296 → checked_add a b ≡ some (a + b)
unfolding checked_add
checked_add_fits a b h = ground arith

module _ (m : ℕ) (g : FreeVariable → Option ℕ) (bounded : IsBounded m g) where
  bind_variable_fits :
      (v : Variable) (d : ℕ)
      → d + m < 4294967296
      → bind_variable_checked v d g ≡ some (Node.bind_variable v d g)
  unfolding bind_variable_checked Node.bind_variable
  bind_variable_fits (bound i) d h = refl
  bind_variable_fits (free x) d h = elim (Option-cases (g x)) [
    | inl miss ↦ rw (miss, bind_variable_checked, Node.bind_variable) refl
    | inr (i, hit) ↦
        let low : i ≤ m = bounded x i hit in
        rw (hit, bind_variable_checked, Node.bind_variable)
          (ap (map_some bound) (checked_add_fits i d (omega arith)))
  ]

  -- If no index that `g` gives, plus the depth and the nesting of the tree, reaches 2^32, binding with
  -- checked 32-bit sums succeeds, and its result is that of `bind_free`.
  pub bind_free_checked-eq-bind_free :
      (n : Node) (d : ℕ)
      → Node.node_depth n + d + m < 4294967296
      → bind_free_checked n d g ≡ some (Node.bind_free n d g)
  unfolding bind_free_checked Node.bind_free Node.node_depth
  bind_free_checked-eq-bind_free (Node.equal a b) d h =
      rw (bind_variable_fits a d (omega arith), bind_variable_fits b d (omega arith)) refl
  bind_free_checked-eq-bind_free (Node.member a b) d h =
      rw (bind_variable_fits a d (omega arith), bind_variable_fits b d (omega arith)) refl
  bind_free_checked-eq-bind_free (Node.not n) d h =
      rw (bind_free_checked-eq-bind_free n d (omega arith)) refl
  bind_free_checked-eq-bind_free (Node.implies l r) d h =
      rw
        (
          bind_free_checked-eq-bind_free l d (omega arith),
          bind_free_checked-eq-bind_free r d (omega arith),
        )
        refl
  bind_free_checked-eq-bind_free (Node.for_all n) d h =
      ap (λ depth. and_then depth (λ e. map_some Node.for_all (bind_free_checked n e g)))
        (checked_add_fits d 1 (omega arith))
      ∙ ap (map_some Node.for_all) (bind_free_checked-eq-bind_free n (d + 1) (omega arith))
