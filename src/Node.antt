-- ===== src/Node.antt =====
-- crates/naome-foundation/src/formula.rs: the private formula tree and its traversals.
pub mod Checked
use naome.Prelude.{
  ℕ, ◌+◌, ◌-◌, max, Bool, false, ◌||◌, Option, none, some, ltb, ◌==◌, if◌then◌else◌, ℕ_discrete,
}
use naome.Prelude.Set
use naome.Prelude.Set.{Set}

-- `FreeVariable(u32)`; the range of the identifier is a hypothesis where it matters.
abbrev pub FreeVariable : Type 0
FreeVariable = ℕ

pub data Variable : Type 0 where
  bound : ℕ → Variable
  free : FreeVariable → Variable

pub data Node : Type 0 where
  equal member : Variable → Variable → Node
  not : Node → Node
  implies : Node → Node → Node
  for_all : Node → Node

-- the derived `PartialEq`
unfoldable pub Variable-discrete : Discrete Variable
unfolding ℕ_discrete
Variable-discrete = hlevel ℕ_discrete

unfoldable pub Node-discrete : Discrete Node
unfolding Variable-discrete
Node-discrete = hlevel Variable-discrete

-- `metrics` of `node_count_and_depth`, its two results one by one
unfoldable pub node_count : Node → ℕ
node_count (equal a b) = 1
node_count (member a b) = 1
node_count (not n) = node_count n + 1
node_count (implies l r) = node_count l + node_count r + 1
node_count (for_all n) = node_count n + 1

unfoldable pub node_depth : Node → ℕ
node_depth (equal a b) = 1
node_depth (member a b) = 1
node_depth (not n) = node_depth n + 1
node_depth (implies l r) = max (node_depth l) (node_depth r) + 1
node_depth (for_all n) = node_depth n + 1

unfoldable pub bind_variable : Variable → ℕ → (FreeVariable → Option ℕ) → Variable
bind_variable (free x) depth binding_index = elim (binding_index x) [
  | some i ↦ bound (i + depth)
  | none ↦ free x
]
bind_variable (bound i) depth binding_index = bound i

-- The sums are plain here; `Node.Checked` has the program's `checked_add`.
unfoldable pub bind_free : Node → ℕ → (FreeVariable → Option ℕ) → Node
unfolding bind_variable
bind_free (equal a b) d g = equal (bind_variable a d g) (bind_variable b d g)
bind_free (member a b) d g = member (bind_variable a d g) (bind_variable b d g)
bind_free (not n) d g = not (bind_free n d g)
bind_free (implies l r) d g = implies (bind_free l d g) (bind_free r d g)
bind_free (for_all n) d g = for_all (bind_free n (d + 1) g)

-- the closure `open` of `open_binder`
unfoldable pub open_variable : Variable → ℕ → FreeVariable → Variable
open_variable (bound i) depth replacement =
    if i == depth then free replacement else if ltb depth i then bound (i - 1) else bound i
open_variable (free x) depth replacement = free x

unfoldable pub open_binder : Node → ℕ → FreeVariable → Node
unfolding open_variable
open_binder (equal a b) d w = equal (open_variable a d w) (open_variable b d w)
open_binder (member a b) d w = member (open_variable a d w) (open_variable b d w)
open_binder (not n) d w = not (open_binder n d w)
open_binder (implies l r) d w = implies (open_binder l d w) (open_binder r d w)
open_binder (for_all n) d w = for_all (open_binder n (d + 1) w)

unfoldable pub map_free_variable : Variable → (FreeVariable → FreeVariable) → Variable
map_free_variable (free x) f = free (f x)
map_free_variable (bound i) f = bound i

unfoldable pub map_free_variables : Node → (FreeVariable → FreeVariable) → Node
unfolding map_free_variable
map_free_variables (equal a b) f = equal (map_free_variable a f) (map_free_variable b f)
map_free_variables (member a b) f = member (map_free_variable a f) (map_free_variable b f)
map_free_variables (not n) f = not (map_free_variables n f)
map_free_variables (implies l r) f = implies (map_free_variables l f) (map_free_variables r f)
map_free_variables (for_all n) f = for_all (map_free_variables n f)

unfoldable pub collect_free_variable : Variable → Set → Set
unfolding Set.insert
collect_free_variable (free x) s = Set.insert x s
collect_free_variable (bound i) s = s

unfoldable pub collect_free_variables : Node → Set → Set
unfolding collect_free_variable
collect_free_variables (equal a b) s = collect_free_variable b (collect_free_variable a s)
collect_free_variables (member a b) s = collect_free_variable b (collect_free_variable a s)
collect_free_variables (not n) s = collect_free_variables n s
collect_free_variables (implies l r) s = collect_free_variables r (collect_free_variables l s)
collect_free_variables (for_all n) s = collect_free_variables n s

-- the closure `matches_free` of `has_matching_free_variable`
unfoldable pub matches_free : Variable → (FreeVariable → Bool) → Bool
matches_free (free x) p = p x
matches_free (bound i) p = false

unfoldable pub has_matching_free_variable : Node → (FreeVariable → Bool) → Bool
unfolding matches_free
has_matching_free_variable (equal a b) p = matches_free a p || matches_free b p
has_matching_free_variable (member a b) p = matches_free a p || matches_free b p
has_matching_free_variable (not n) p = has_matching_free_variable n p
has_matching_free_variable (implies l r) p =
    has_matching_free_variable l p || has_matching_free_variable r p
has_matching_free_variable (for_all n) p = has_matching_free_variable n p
