-- ===== src/Canonical/Decode.antt =====
-- canonical.rs: the decoder on the layout of a tree.
use naome.Prelude.{ℕ, zero, suc, ◌+◌, ◌≤◌, ◌<◌, ◌≡◌, ap, ◌++◌, arith, append_assoc}
use naome.Prelude.Result.{ok}
use naome.Node
use naome.Node.{Node, Variable, bound, free}
use naome.Formula.Scope.{InScope, IsScoped}
use naome.Canonical.{
  NodeBudget, Cursor, charge, read_u8, decode_variable, decode_tagged, decode_node,
}
use naome.Canonical.Words.{to_be_bytes, from_be_bytes-to_be_bytes}
use naome.Canonical.Layout.{variable_layout, layout, VariableIsU32, IsMachine, node_depth_pos}

abbrev pub budget : ℕ → ℕ → NodeBudget
budget used maximum = record { used = used; maximum = maximum }

decode_variable-layout :
    (v : Variable) (binders : ℕ) (rest : Cursor)
    → InScope binders v
    → VariableIsU32 v
    → decode_variable binders (variable_layout v ++ rest) ≡ ok (v, rest)
unfolding decode_variable variable_layout to_be_bytes
decode_variable-layout (free x) binders rest s h = rw (from_be_bytes-to_be_bytes x h)
decode_variable-layout (bound i) binders rest s h =
    rw (from_be_bytes-to_be_bytes i h) (ground arith)

charge_ok : (u m : ℕ) → u < m → charge (budget u m) ≡ ok (budget (u + 1) m)
unfolding charge
charge_ok u m h = ground arith

budget_path :
    {u v : ℕ} (n : Node) (c : Cursor) (m : ℕ)
    → u ≡ v
    → ◌≡◌ {A = Node × Cursor × NodeBudget} (n, c, budget u m) (n, c, budget v m)
budget_path n c m p = ap (λ u. (n, c, budget u m)) p

-- The decoder reads the layout of a tree in scope back, and leaves what follows.
pub decode_node-layout :
    (n : Node) (levels binders u m : ℕ) (rest : Cursor)
    → Node.node_depth n ≤ levels
    → u + Node.node_count n ≤ m
    → IsScoped binders n
    → IsMachine n
    → decode_node levels binders (layout n ++ rest) (budget u m)
      ≡ ok (n, rest, budget (u + Node.node_count n) m)
unfolding decode_node read_u8 decode_tagged layout Node.node_count Node.node_depth
decode_node-layout n zero binders u m rest hd hc hs hm = absurd (omega (arith, node_depth_pos n))
decode_node-layout (Node.equal a b) (suc levels) binders u m rest hd hc hs hm =
    rw (charge_ok u m (omega arith)) (
      rw append_assoc (
        rw (
          decode_variable-layout a binders (variable_layout b ++ rest) hs.0 hm.0,
          decode_variable-layout b binders rest hs.1 hm.1,
        )))
decode_node-layout (Node.member a b) (suc levels) binders u m rest hd hc hs hm =
    rw (charge_ok u m (omega arith)) (
      rw append_assoc (
        rw (
          decode_variable-layout a binders (variable_layout b ++ rest) hs.0 hm.0,
          decode_variable-layout b binders rest hs.1 hm.1,
        )))
decode_node-layout (Node.not n) (suc levels) binders u m rest hd hc hs hm =
    rw
      (
        charge_ok u m (omega arith),
        decode_node-layout n levels binders (u + 1) m rest (omega arith) (omega arith) hs hm,
      )
      (ap ok (budget_path (Node.not n) rest m (omega arith)))
decode_node-layout (Node.implies l r) (suc levels) binders u m rest hd hc hs hm =
    rw (charge_ok u m (omega arith)) (
      rw append_assoc (
        rw
          (
            decode_node-layout l levels binders (u + 1) m (layout r ++ rest) (omega arith)
                (omega arith) hs.0 hm.0,
            decode_node-layout r levels binders (u + 1 + Node.node_count l) m rest (omega arith)
                (omega arith) hs.1 hm.1,
          )
          (ap ok (budget_path (Node.implies l r) rest m (omega arith)))))
decode_node-layout (Node.for_all n) (suc levels) binders u m rest hd hc hs hm =
    rw
      (
        charge_ok u m (omega arith),
        decode_node-layout n levels (binders + 1) (u + 1) m rest (omega arith) (omega arith) hs hm,
      )
      (ap ok (budget_path (Node.for_all n) rest m (omega arith)))
