-- ===== src/Canonical/Implication.antt =====
-- formula/canonical.rs: `canonical_implication`, the bytes of the parts of an implication. A slice out of
-- range is `none`.
use naome.Prelude.{ℕ, zero, suc, ◌+◌, Option, none, some, List, [], ◌∷◌}
use naome.Prelude.Result.{ok, ◌>>=◌}
use naome.Node.{Node}
use naome.Formula.{Formula}
use naome.Canonical.{Outcome, encode_canonical}

pub record CanonicalImplication : Type 0 where
  pub bytes : List ℕ
  pub antecedent_end : ℕ
  pub consequents : List ℕ

unfoldable width : Node → ℕ
width (Node.equal left right) = 11
width (Node.member left right) = 11
width (Node.not body) = 1 + width body
width (Node.for_all body) = 1 + width body
width (Node.implies left right) = 1 + width left + width right

-- the loop that collects the offsets
unfoldable offsets : ℕ → Node → List ℕ
unfolding width
offsets offset (Node.implies left right) =
    (offset + (1 + width left)) ∷ offsets (offset + (1 + width left)) right
offsets offset _ = []

unfoldable pub canonical_implication : Formula → Outcome (Option CanonicalImplication)
unfolding encode_canonical width offsets
canonical_implication (Node.implies left right) = do
  bytes ← encode_canonical (Node.implies left right)
  ok (
      some (record {
        bytes = bytes;
        antecedent_end = 1 + width left;
        consequents = offsets 0 (Node.implies left right);
      }))
canonical_implication _ = ok none

-- `&bytes[start..]`
unfoldable pub slice_from : ℕ → List ℕ → Option (List ℕ)
slice_from zero bytes = some bytes
slice_from (suc start) [] = none
slice_from (suc start) (byte ∷ bytes) = slice_from start bytes

unfoldable take_bytes : ℕ → List ℕ → Option (List ℕ)
take_bytes zero bytes = some []
take_bytes (suc count) [] = none
take_bytes (suc count) (byte ∷ bytes) =
    let rest = take_bytes count bytes in
    elim rest [ none ↦ none | some taken ↦ some (byte ∷ taken) ]

-- `&self.bytes[1..self.antecedent_end]`
unfoldable pub antecedent : CanonicalImplication → Option (List ℕ)
unfolding slice_from take_bytes
antecedent parts = elim (take_bytes parts.antecedent_end parts.bytes) [
  | none ↦ none
  | some bytes ↦ slice_from 1 bytes
]
