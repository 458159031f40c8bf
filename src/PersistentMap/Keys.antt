-- ===== src/PersistentMap/Keys.antt =====
-- naome-checker/src/state/persistent_map.rs: the bits of a key of 32 bytes, the first is the most
-- significant bit of the first byte.
use naome.Prelude.{
  ℕ, zero, suc, ◌+◌, ◌-◌, ◌*◌, ◌/◌, ◌%◌, ◌^◌, ◌≡◌, Bool, true, false, ◌&&◌, Option, none, some,
  List, [], ◌∷◌, length, All, ◌==◌, ltb, if◌then◌else◌,
}
use naome.Canonical.Words.{IsByte}

-- `[u8; 32]`
abbrev pub Key : Type 0
Key = List ℕ

pub record IsKey (key : Key) : Type 0 where
  pub size : length key ≡ 32
  pub bytes : All IsByte key

-- Rust's `==` on byte arrays
unfoldable pub equal_bytes : List ℕ → List ℕ → Bool
equal_bytes [] [] = true
equal_bytes (a ∷ as_) (b ∷ bs) = a == b && equal_bytes as_ bs
equal_bytes _ _ = false

-- Rust's `left ^ right` on numbers of `width` bits
unfoldable pub xor : ℕ → ℕ → ℕ → ℕ
xor zero left right = 0
xor (suc width) left right =
    (left / 2 ^ width + right / 2 ^ width) % 2 * 2 ^ width
    + xor width (left % 2 ^ width) (right % 2 ^ width)

-- Rust's `leading_zeros` on numbers of `width` bits
unfoldable pub leading_zeros : ℕ → ℕ → ℕ
leading_zeros zero number = 0
leading_zeros (suc width) number =
    let rest = leading_zeros width number in if ltb number (2 ^ width) then suc rest else 0

-- `byte & (1 << (7 - bit)) != 0`
unfoldable pub byte_bit : ℕ → ℕ → Bool
byte_bit byte bit = byte / 2 ^ (7 - bit) % 2 == 1

-- `key[index]`, 0 where the index is out of range, which no bit of a key of 32 bytes is
unfoldable pub byte_at : Key → ℕ → ℕ
byte_at [] index = 0
byte_at (byte ∷ bytes) zero = byte
byte_at (byte ∷ bytes) (suc index) = byte_at bytes index

unfoldable pub key_bit : Key → ℕ → Bool
unfolding byte_bit byte_at
key_bit key bit = byte_bit (byte_at key (bit / 8)) (bit % 8)

-- the loop of `first_differing_bit`, from the given byte index on; `none` is its `unreachable!`
unfoldable pub first_differing_from : ℕ → Key → Key → Option ℕ
unfolding xor leading_zeros
first_differing_from byte_index (left ∷ lefts) (right ∷ rights) =
    let rest = first_differing_from (byte_index + 1) lefts rights in
    if xor 8 left right == 0
    then rest
    else some (byte_index * 8 + leading_zeros 8 (xor 8 left right))
first_differing_from byte_index _ _ = none

unfoldable pub first_differing_bit : Key → Key → Option ℕ
unfolding first_differing_from
first_differing_bit left right = first_differing_from 0 left right

-- Rust's `<` on byte arrays
unfoldable pub less_bytes : List ℕ → List ℕ → Bool
less_bytes (a ∷ as_) (b ∷ bs) =
    if ltb a b then true else if a == b then less_bytes as_ bs else false
less_bytes [] (b ∷ bs) = true
less_bytes _ [] = false
