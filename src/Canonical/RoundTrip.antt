-- ===== src/Canonical/RoundTrip.antt =====
-- canonical.rs: the encoder and the decoder together.
use naome.Prelude.{
  ℕ, ◌+◌, ◌≤◌, ◌≡◌, sym, ap, ◌∙◌, List, [], ◌∷◌, arith, All, append-nil, min, length, ltb, ge→ltb,
  ap₂, if◌then◌else◌,
}
use naome.Prelude.Result.{
  ok, err, ◌>>=◌, Ensures, returns, throws, Ensures-ok, Ensures-if, Ensures-bind,
}
use naome.Node
use naome.Node.{Node}
use naome.Formula.{Formula}
use naome.Formula.Scope.{IsFormula}
use naome.Canonical.{
  encode_canonical_with_node_limit, decode_canonical_with_node_limit, formula_max_bytes,
  formula_max_nodes, finish, Cursor, Outcome, input_too_long, NodeBudget, decode_node,
}
use naome.Canonical.Words.{IsByte}
use naome.Canonical.Layout.{layout, IsMachine, length-layout_bound}
use naome.Canonical.Encode.{encode_canonical_with_node_limit_iff}
use naome.Canonical.Decode.{budget, decode_node-layout}
use naome.Canonical.Accepts.{Read, decode_node-Ensures}

decode_canonical-decode_node :
    (bytes : List ℕ) (limit : ℕ) (n : Node) (c : Cursor) (b : NodeBudget)
    → length bytes ≤ formula_max_bytes
    → decode_node 256 0 bytes (budget 0 (min limit formula_max_nodes)) ≡ ok (n, c, b)
    → decode_canonical_with_node_limit bytes limit ≡ finish n c b
unfolding decode_canonical_with_node_limit
decode_canonical-decode_node bytes limit n c b short run =
    ap₂
      (λ t (m : Outcome (Node × Cursor × NodeBudget)).
        if t
        then err (input_too_long (length bytes) formula_max_bytes)
        else (m >>= λ (n, c, nodes). finish n c nodes))
      (ge→ltb formula_max_bytes (length bytes) short) run

-- What `encode_canonical_with_node_limit` writes for a well-scoped formula whose identifiers and
-- indices are `u32`, `decode_canonical_with_node_limit` reads back under the same limit, with the
-- same number of nodes.
pub decode_canonical-encode_canonical :
    (f : Formula) (limit : ℕ) (bytes : List ℕ) (used : ℕ)
    → IsFormula f
    → IsMachine f
    → encode_canonical_with_node_limit f limit ≡ ok (bytes, used)
    → decode_canonical_with_node_limit bytes limit ≡ ok (f, used)
unfolding finish
decode_canonical-encode_canonical f limit bytes used scope machine q =
    let (hd, hc, p, r) = (encode_canonical_with_node_limit_iff f limit bytes used).0 q in
    let size = length-layout_bound f (omega arith) in
    let run =
      decode_node-layout f 256 0 0 (min limit formula_max_nodes) [] hd (omega arith) scope
        machine in
    let whole = append-nil (layout f) in
    let run' =
      sym (ap (λ c. decode_node 256 0 c (budget 0 (min limit formula_max_nodes))) whole) ∙ run in
    let read =
      decode_canonical-decode_node (layout f) limit f [] (budget (0 + Node.node_count f) _) size
        run' in
    ap (λ bytes. decode_canonical_with_node_limit bytes limit) p
    ∙ read
    ∙ ap (λ used. ok (f, used)) (omega arith)

record Canonical (limit : ℕ) (bytes : List ℕ) (r : Formula × ℕ) : Type 0 where
  scope : IsFormula r.0
  machine : IsMachine r.0
  encoded : encode_canonical_with_node_limit r.0 limit ≡ ok (bytes, r.1)

finish-Ensures :
    (limit : ℕ) (bytes : List ℕ) (n : Node) (c : Cursor) (b : NodeBudget)
    → Read 256 0 0 (min limit formula_max_nodes) bytes (n, c, b)
    → Ensures (Canonical limit bytes) (finish n c b)
unfolding finish
finish-Ensures limit bytes n [] b r = returns (record {
  scope = r.scope;
  machine = r.machine;
  encoded =
      let count = ap (λ (b : NodeBudget). b.used) r.charged in
      (encode_canonical_with_node_limit_iff n limit bytes b.used).1
        (r.depth, omega (arith, r.within), r.bytes ∙ append-nil (layout n), omega arith);
})
finish-Ensures limit bytes n (x ∷ c) b r = throws

decode_canonical-Ensures :
    (limit : ℕ) (bytes : List ℕ)
    → All IsByte bytes
    → Ensures (Canonical limit bytes) (decode_canonical_with_node_limit bytes limit)
unfolding decode_canonical_with_node_limit
decode_canonical-Ensures limit bytes h =
    Ensures-if (ltb formula_max_bytes (length bytes)) (λ _. throws)
      λ _.
        Ensures-bind
          (decode_node-Ensures 256 (min limit formula_max_nodes) 0 bytes 0 (omega arith) h)
          λ (n, c, b) r. finish-Ensures limit bytes n c b r

-- Whatever bytes `decode_canonical_with_node_limit` accepts, its result has no dangling bound
-- variable and `u32` identifiers and indices, and encodes to those same bytes under the same limit,
-- with the same number of nodes.
pub encode_canonical-decode_canonical :
    (limit : ℕ) (bytes : List ℕ) (f : Formula) (used : ℕ)
    → All IsByte bytes
    → decode_canonical_with_node_limit bytes limit ≡ ok (f, used)
    → IsFormula f × IsMachine f × (encode_canonical_with_node_limit f limit ≡ ok (bytes, used))
encode_canonical-decode_canonical limit bytes f used h q =
    let r = Ensures-ok (decode_canonical-Ensures limit bytes h) q in (r.scope, r.machine, r.encoded)
