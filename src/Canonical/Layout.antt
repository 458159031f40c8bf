-- ===== src/Canonical/Layout.antt =====
-- canonical.rs: the bytes of a formula as a function of its tree, with no budget and no state.
use naome.Prelude.{ℕ, ◌+◌, ◌*◌, ◌≤◌, ◌<◌, ◌≡◌, refl, List, ◌∷◌, ◌++◌, arith, length, length-append}
use naome.Node
use naome.Node.{Node, Variable, bound, free}
use naome.Canonical.Words.{to_be_bytes, IsU32}

unfoldable pub variable_layout : Variable → List ℕ
variable_layout (free x) = 0 ∷ to_be_bytes x
variable_layout (bound i) = 1 ∷ to_be_bytes i

unfoldable pub layout : Node → List ℕ
layout (Node.equal a b) = 0 ∷ (variable_layout a ++ variable_layout b)
layout (Node.member a b) = 1 ∷ (variable_layout a ++ variable_layout b)
layout (Node.not n) = 2 ∷ layout n
layout (Node.implies l r) = 3 ∷ (layout l ++ layout r)
layout (Node.for_all n) = 4 ∷ layout n

abbrev pub VariableIsU32 : Variable → Type 0
VariableIsU32 (free x) = IsU32 x
VariableIsU32 (bound i) = IsU32 i

-- Every identifier and every index is a `u32`.
abbrev pub IsMachine : Node → Type 0
IsMachine (Node.equal a b) = VariableIsU32 a × VariableIsU32 b
IsMachine (Node.member a b) = VariableIsU32 a × VariableIsU32 b
IsMachine (Node.not n) = IsMachine n
IsMachine (Node.implies l r) = IsMachine l × IsMachine r
IsMachine (Node.for_all n) = IsMachine n

length-variable_layout : (v : Variable) → length (variable_layout v) ≡ 5
unfolding variable_layout to_be_bytes
length-variable_layout (free x) = refl
length-variable_layout (bound i) = refl

pub node_count_pos : (n : Node) → 0 < Node.node_count n
unfolding Node.node_count
node_count_pos (Node.equal a b) = omega arith
node_count_pos (Node.member a b) = omega arith
node_count_pos n = omega arith

pub node_depth_pos : (n : Node) → 0 < Node.node_depth n
unfolding Node.node_depth
node_depth_pos (Node.equal a b) = omega arith
node_depth_pos (Node.member a b) = omega arith
node_depth_pos n = omega arith

unfoldable leaves : Node → ℕ
leaves (Node.equal a b) = 1
leaves (Node.member a b) = 1
leaves (Node.not n) = leaves n
leaves (Node.implies l r) = leaves l + leaves r
leaves (Node.for_all n) = leaves n

leaves_bound : (n : Node) → 2 * leaves n ≤ Node.node_count n + 1
unfolding leaves Node.node_count
leaves_bound (Node.equal a b) = omega arith
leaves_bound (Node.member a b) = omega arith
leaves_bound (Node.not n) = omega (arith, leaves_bound n)
leaves_bound (Node.implies l r) = omega (arith, leaves_bound l, leaves_bound r)
leaves_bound (Node.for_all n) = omega (arith, leaves_bound n)

-- Every node writes its tag, and a leaf ten bytes more.
length-layout : (n : Node) → length (layout n) ≡ Node.node_count n + 10 * leaves n
unfolding layout Node.node_count leaves
length-layout (Node.equal a b) = omega (
  arith,
  length-append {0} (variable_layout a) (variable_layout b),
  length-variable_layout a,
  length-variable_layout b,
)
length-layout (Node.member a b) = omega (
  arith,
  length-append {0} (variable_layout a) (variable_layout b),
  length-variable_layout a,
  length-variable_layout b,
)
length-layout (Node.not n) = omega (arith, length-layout n)
length-layout (Node.implies l r) =
    omega (arith, length-append {0} (layout l) (layout r), length-layout l, length-layout r)
length-layout (Node.for_all n) = omega (arith, length-layout n)

pub length-layout_bound : (n : Node) → Node.node_count n ≤ 65536 → length (layout n) ≤ 393216
length-layout_bound n h = omega (arith, length-layout n, leaves_bound n)
