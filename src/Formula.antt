-- ===== src/Formula.antt =====
-- crates/naome-foundation/src/formula.rs: the operations of `Formula`.
pub mod Scope
pub mod Binding
pub mod Variables
pub mod Opening
use naome.Prelude.{
  ℕ, suc, ◌+◌, ◌-◌, Bool, true, false, Option, none, some, List, [], ◌∷◌, ◌==◌, negb, length,
  if◌then◌else◌,
}
use naome.Prelude.Map
use naome.Prelude.Map.{Map}
use naome.Prelude.Set
use naome.Prelude.Set.{Set}
use naome.Node
use naome.Node.{Node, Variable, bound, free, FreeVariable}

-- The struct `Formula(Node)`; its invariant, no dangling index, is `Formula.Scope.IsScoped`.
abbrev pub Formula : Type 0
Formula = Node

unfoldable pub equal : FreeVariable → FreeVariable → Formula
equal left right = Node.equal (free left) (free right)

unfoldable pub member : FreeVariable → FreeVariable → Formula
member element set = Node.member (free element) (free set)

unfoldable pub negate : Formula → Formula
negate f = Node.not f

unfoldable pub implies : Formula → Formula → Formula
implies antecedent consequent = Node.implies antecedent consequent

unfoldable pub conjunction : Formula → Formula → Formula
unfolding negate implies
conjunction left right = negate (implies left (negate right))

unfoldable pub disjunction : Formula → Formula → Formula
unfolding negate implies
disjunction left right = implies (negate left) right

unfoldable pub biconditional : Formula → Formula → Formula
unfolding conjunction implies
biconditional left right = conjunction (implies left right) (implies right left)

-- the closure that `for_all` hands to `bind_free`
abbrev pub only : FreeVariable → FreeVariable → Option ℕ
only variable candidate = if candidate == variable then some 0 else none

unfoldable pub for_all : FreeVariable → Formula → Formula
unfolding Node.bind_free
for_all variable body = Node.for_all (Node.bind_free body 0 (only variable))

-- the loop of `for_all_many` that fills `binders`, from the given position on
unfoldable pub binders_from : ℕ → ℕ → List FreeVariable → Map ℕ → Map ℕ
unfolding Map.insert
binders_from binder_count position [] binders = binders
binders_from binder_count position (v ∷ vs) binders =
    binders_from binder_count (position + 1) vs (Map.insert v (binder_count - position - 1) binders)

-- the last loop of `for_all_many`
unfoldable pub wrap : List FreeVariable → Formula → Formula
wrap [] body = body
wrap (v ∷ vs) body = wrap vs (Node.for_all body)

unfoldable pub for_all_many : List FreeVariable → Formula → Formula
unfolding binders_from wrap Node.bind_free Map.get
for_all_many [] body = body
for_all_many (v ∷ vs) body =
    let binders = binders_from (length (v ∷ vs)) 0 (v ∷ vs) [] in
    wrap (v ∷ vs) (Node.bind_free body 0 (λ x. Map.get x binders))

unfoldable pub exists : FreeVariable → Formula → Formula
unfolding negate for_all
exists variable body = negate (for_all variable (negate body))

unfoldable pub substitute_free : FreeVariable → FreeVariable → Formula → Formula
unfolding Node.map_free_variables
substitute_free from to f =
    if from == to
    then f
    else Node.map_free_variables f (λ variable. if variable == from then to else variable)

unfoldable pub free_variables : Formula → Set
unfolding Node.collect_free_variables
free_variables f = Node.collect_free_variables f []

unfoldable pub is_closed : Formula → Bool
unfolding Node.has_matching_free_variable
is_closed f = negb (Node.has_matching_free_variable f (λ _. true))

abbrev outer_body : Formula → Option Node
outer_body (Node.for_all body) = some body
outer_body _ = none

unfoldable pub open_outer_universal : Formula → FreeVariable → Option Formula
unfolding free_variables Set.contains Node.open_binder
open_outer_universal f variable =
    if Set.contains variable (free_variables f)
    then none
    else elim (outer_body f) [ some body ↦ some (Node.open_binder body 0 variable) | none ↦ none ]

-- `implication_parts` of `Formula` and of `FormulaView`
unfoldable pub implication_parts : Formula → Option (Formula × Formula)
implication_parts (Node.implies antecedent consequent) = some (antecedent, consequent)
implication_parts _ = none

unfoldable pub negated : Formula → Option Formula
negated (Node.not body) = some body
negated _ = none

unfoldable pub equality_variables : Formula → Option (FreeVariable × FreeVariable)
equality_variables (Node.equal (free left) (free right)) = some (left, right)
equality_variables _ = none

unfoldable pub vacuous_for_all : Formula → Formula
vacuous_for_all body = Node.for_all body
