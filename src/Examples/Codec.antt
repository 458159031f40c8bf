-- ===== src/Examples/Codec.antt =====
-- The theorems on the codec, applied.
use naome.Prelude.{ℕ, ◌≡◌, refl, ◌≤◌, ◌↔◌, List, [], ◌∷◌, min, arith}
use naome.Prelude.Result.{ok}
use naome.Node
use naome.Node.{Node, bound, free}
use naome.Formula.{Formula}
use naome.Formula.Scope.{IsFormula}
use naome.Canonical.{
  encode_canonical_with_node_limit, decode_canonical_with_node_limit, formula_max_nodes,
}
use naome.Canonical.Layout.{layout, IsMachine}
use naome.Canonical.Encode.{encode_canonical_with_node_limit_iff}
use naome.Canonical.RoundTrip.{decode_canonical-encode_canonical, encode_canonical-decode_canonical}

-- ∀ 0 ∈ x258
abbrev subset : Formula
subset = Node.for_all (Node.member (bound 0) (free 258))

abbrev subset_bytes : List ℕ
subset_bytes = 4 ∷ 1 ∷ 1 ∷ 0 ∷ 0 ∷ 0 ∷ 0 ∷ 0 ∷ 0 ∷ 0 ∷ 1 ∷ 2 ∷ []

encode_example : encode_canonical_with_node_limit subset 10 ≡ ok (subset_bytes, 2)
unfolding encode_canonical_with_node_limit
encode_example = refl

decode_example : decode_canonical_with_node_limit subset_bytes 10 ≡ ok (subset, 2)
unfolding decode_canonical_with_node_limit
decode_example = refl

encode_canonical_with_node_limit_iff_example :
    (encode_canonical_with_node_limit subset 10 ≡ ok (subset_bytes, 2)) ↔ (
      (Node.node_depth subset ≤ 256)
      × (Node.node_count subset ≤ min 10 formula_max_nodes)
      × (subset_bytes ≡ layout subset)
      × (2 ≡ Node.node_count subset))
encode_canonical_with_node_limit_iff_example =
    encode_canonical_with_node_limit_iff subset 10 subset_bytes 2

decode_canonical-encode_canonical_example :
    decode_canonical_with_node_limit subset_bytes 10 ≡ ok (subset, 2)
decode_canonical-encode_canonical_example =
    decode_canonical-encode_canonical subset 10 subset_bytes 2 (ground arith) (ground arith)
      encode_example

encode_canonical-decode_canonical_example :
    IsFormula subset
    × IsMachine subset
    × (encode_canonical_with_node_limit subset 10 ≡ ok (subset_bytes, 2))
encode_canonical-decode_canonical_example =
    encode_canonical-decode_canonical 10 subset_bytes subset 2 (ground arith) decode_example
