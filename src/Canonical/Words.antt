-- ===== src/Canonical/Words.antt =====
-- Rust's `u32::to_be_bytes` and `u32::from_be_bytes`, on numbers and bytes.
use naome.Prelude.{ℕ, ◌+◌, ◌*◌, ◌/◌, ◌%◌, ◌^◌, ◌<◌, ◌≡◌, List, [], ◌∷◌, arith}

unfoldable pub to_be_bytes : ℕ → List ℕ
to_be_bytes value =
    value / 2 ^ 24 % 256 ∷ value / 2 ^ 16 % 256 ∷ value / 2 ^ 8 % 256 ∷ value % 256 ∷ []

unfoldable pub from_be_bytes : ℕ → ℕ → ℕ → ℕ → ℕ
from_be_bytes a b c d = a * 2 ^ 24 + b * 2 ^ 16 + c * 2 ^ 8 + d

abbrev pub IsU32 : ℕ → Type 0
IsU32 value = value < 2 ^ 32

abbrev pub IsByte : ℕ → Type 0
IsByte b = b < 256

pub from_be_bytes-to_be_bytes :
    (value : ℕ)
    → IsU32 value
    → from_be_bytes
        (value / 2 ^ 24 % 256)
        (value / 2 ^ 16 % 256)
        (value / 2 ^ 8 % 256)
        (value % 256)
      ≡ value
unfolding from_be_bytes
from_be_bytes-to_be_bytes value h = omega arith

pub to_be_bytes-from_be_bytes :
    (a b c d : ℕ)
    → IsByte a
    → IsByte b
    → IsByte c
    → IsByte d
    → to_be_bytes (from_be_bytes a b c d) ≡ a ∷ b ∷ c ∷ d ∷ []
unfolding to_be_bytes from_be_bytes
to_be_bytes-from_be_bytes a b c d ha hb hc hd = ground arith

pub from_be_bytes-IsU32 :
    (a b c d : ℕ) → IsByte a → IsByte b → IsByte c → IsByte d → IsU32 (from_be_bytes a b c d)
unfolding from_be_bytes
from_be_bytes-IsU32 a b c d ha hb hc hd = omega arith
