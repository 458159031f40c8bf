-- ===== src/PersistentMap/Bits.antt =====
-- naome-checker/src/state/persistent_map.rs: the bits of bytes and of keys as lists, for the proofs.
use naome.Prelude.{
  ℕ, zero, suc, ◌+◌, ◌-◌, ◌*◌, ◌/◌, ◌%◌, ◌^◌, ◌<◌, ◌≡◌, ◌≢◌, refl, sym, ap, ap₂, ◌∙◌, subst, Bool,
  false, some, List, [], ◌∷◌, ◌++◌, length, All, ◌==◌, ltb, arith, Bool-cases, inl, inr, ◌⊎◌,
  length-append, lt→ltb, ge→ltb,
}
use native.Mathlib.Nat.{mod-lt, div-add-mod', zero-div, div-lt_iff_lt-mul}
use naome.Canonical.Words.{IsByte}
use naome.PersistentMap.Keys.{
  Key, IsKey, xor, leading_zeros, byte_bit, byte_at, key_bit, first_differing_from,
  first_differing_bit,
}

unfoldable bits : ℕ → ℕ → List Bool
bits zero number = []
bits (suc width) number = (number / 2 ^ width % 2 == 1) ∷ bits width (number % 2 ^ width)

unfoldable bit_of : List Bool → ℕ → Bool
bit_of [] index = false
bit_of (b ∷ bs) zero = b
bit_of (b ∷ bs) (suc index) = bit_of bs index

unfoldable key_bits : Key → List Bool
unfolding bits
key_bits [] = []
key_bits (byte ∷ bytes) = bits 8 byte ++ key_bits bytes

-- the first place at which two lists differ
data Differ : List Bool → List Bool → ℕ → Type 0 where
  here : {x y : Bool} {xs ys : List Bool} → x ≢ y → Differ (x ∷ xs) (y ∷ ys) 0
  there : {x : Bool} {xs ys : List Bool} {k : ℕ} → Differ xs ys k → Differ (x ∷ xs) (x ∷ ys) (suc k)

Differ-append : (xs ys rs ss : List Bool) (k : ℕ) → Differ xs ys k → Differ (xs ++ rs) (ys ++ ss) k
Differ-append _ _ rs ss _ (here h) = here h
Differ-append _ _ rs ss _ (there {xs = xs} {ys} {k} h) = there (Differ-append xs ys rs ss k h)

Differ-prepend :
    (ps xs ys : List Bool) (k : ℕ) → Differ xs ys k → Differ (ps ++ xs) (ps ++ ys) (length ps + k)
Differ-prepend [] xs ys k h = subst (Differ xs ys) (omega arith) h
Differ-prepend (p ∷ ps) xs ys k h =
    subst (Differ (p ∷ ps ++ xs) (p ∷ ps ++ ys)) (omega arith) (there (Differ-prepend ps xs ys k h))

bit_of-Differ :
    (xs ys : List Bool) (k : ℕ)
    → Differ xs ys k
    → ((i : ℕ) → i < k → bit_of xs i ≡ bit_of ys i) × (bit_of xs k ≢ bit_of ys k) × (k < length xs)
unfolding bit_of
bit_of-Differ _ _ _ (here h) = (λ i lt. absurd (omega arith), h, omega arith)
bit_of-Differ _ _ _ (there {x} {xs} {ys} {k} h) =
    let (same, other, range) = bit_of-Differ xs ys k h in (below same, other, omega arith)
  where
    below :
        ((i : ℕ) → i < k → bit_of xs i ≡ bit_of ys i)
        → (i : ℕ) → i < suc k
        → bit_of (x ∷ xs) i ≡ bit_of (x ∷ ys) i
    below same zero lt = refl
    below same (suc i) lt = same i (omega arith)

parity : (n : ℕ) → (n % 2 ≡ 0) ⊎ (n % 2 ≡ 1)
parity n = ground arith

xor_lt : (w a b : ℕ) → xor w a b < 2 ^ w
unfolding xor
xor_lt zero a b = omega arith
xor_lt (suc w) a b =
    let rest = xor_lt w (a % 2 ^ w) (b % 2 ^ w) in
    elim (parity (a / 2 ^ w + b / 2 ^ w)) [
      | inl e ↦ rw e (omega arith)
      | inr e ↦ rw e (omega arith)
    ]

quotient_lt_two : (w a : ℕ) → a < 2 ^ suc w → a / 2 ^ w < 2
quotient_lt_two w a h = (div-lt_iff_lt-mul {k = 2 ^ w} (omega arith)).1 (omega arith)

recombine : (w a b : ℕ) → a / 2 ^ w ≡ b / 2 ^ w → a % 2 ^ w ≡ b % 2 ^ w → a ≡ b
recombine w a b p q =
    sym (div-add-mod' a (2 ^ w)) ∙ ap₂ (λ x y. x * 2 ^ w + y) p q ∙ div-add-mod' b (2 ^ w)

xor_zero : (w a b : ℕ) → a < 2 ^ w → b < 2 ^ w → xor w a b ≡ 0 → a ≡ b
unfolding xor
xor_zero zero a b ha hb h = omega arith
xor_zero (suc w) a b ha hb h =
    let pa = quotient_lt_two w a ha in
    let pb = quotient_lt_two w b hb in
    let la = mod-lt a {m = 2 ^ w} (omega arith) in
    let lb = mod-lt b {m = 2 ^ w} (omega arith) in
    let step = xor_zero w (a % 2 ^ w) (b % 2 ^ w) la lb in
    let rest = xor w (a % 2 ^ w) (b % 2 ^ w) in
    elim (parity (a / 2 ^ w + b / 2 ^ w)) [
      | inl e ↦ recombine w a b (omega arith) (step (omega arith))
      | inr e ↦ absurd (omega (arith, subst (λ s. s * 2 ^ w + rest ≡ 0) e h))
    ]

-- one step of `xor` and of `leading_zeros`: the top bits `p` and `q`, the rest `r` of the result
Differ-step :
    (p q r w : ℕ) (xs ys : List Bool)
    → r < 2 ^ w
    → (r ≢ 0 → Differ xs ys (leading_zeros w r))
    → (p + q) % 2 * 2 ^ w + r ≢ 0
    → Differ
        ((p % 2 == 1) ∷ xs)
        ((q % 2 == 1) ∷ ys)
        (leading_zeros (suc w) ((p + q) % 2 * 2 ^ w + r))
unfolding leading_zeros
Differ-step p q r w xs ys lt rest h = elim (parity (p + q)) [
  | inl e ↦
      let same : (p % 2 == 1) ≡ (q % 2 == 1) = ground arith in
      let all : r ≡ (p + q) % 2 * 2 ^ w + r = rw e (omega arith) in
      subst (λ n. Differ ((p % 2 == 1) ∷ xs) ((q % 2 == 1) ∷ ys) (leading_zeros (suc w) n)) all
        (rw (same, lt→ltb r (2 ^ w) lt) (there (rest (λ z. h (sym all ∙ z)))))
  | inr e ↦
      let zero_count : ltb ((p + q) % 2 * 2 ^ w + r) (2 ^ w) ≡ false =
        ge→ltb _ _ (rw e (omega arith)) in
      rw zero_count (here (ground arith))
]

leading_zeros-Differ :
    (w a b : ℕ) → xor w a b ≢ 0 → Differ (bits w a) (bits w b) (leading_zeros w (xor w a b))
unfolding xor leading_zeros bits
leading_zeros-Differ zero a b h = absurd (h refl)
leading_zeros-Differ (suc w) a b h =
    Differ-step (a / 2 ^ w) (b / 2 ^ w) (xor w (a % 2 ^ w) (b % 2 ^ w)) w (bits w (a % 2 ^ w))
      (bits w (b % 2 ^ w)) (xor_lt w (a % 2 ^ w) (b % 2 ^ w))
      (leading_zeros-Differ w (a % 2 ^ w) (b % 2 ^ w)) h

length-bits : (w a : ℕ) → length (bits w a) ≡ w
unfolding bits
length-bits zero a = refl
length-bits (suc w) a = ap suc (length-bits w (a % 2 ^ w))

bit_of-append_left : (xs ys : List Bool) (i : ℕ) → i < length xs → bit_of (xs ++ ys) i ≡ bit_of xs i
unfolding bit_of
bit_of-append_left [] ys i h = absurd (omega arith)
bit_of-append_left (x ∷ xs) ys zero h = refl
bit_of-append_left (x ∷ xs) ys (suc i) h = bit_of-append_left xs ys i (omega arith)

bit_of-append_right : (xs ys : List Bool) (i : ℕ) → bit_of (xs ++ ys) (length xs + i) ≡ bit_of ys i
unfolding bit_of
bit_of-append_right [] ys i = ap (bit_of ys) (omega arith)
bit_of-append_right (x ∷ xs) ys i =
    let shift : suc (length xs) + i ≡ suc (length xs + i) = omega arith in
    rw shift (bit_of-append_right xs ys i)

byte_bit-eq-bit_of : (a i : ℕ) → IsByte a → i < 8 → byte_bit a i ≡ bit_of (bits 8 a) i
unfolding byte_bit bit_of bits
byte_bit-eq-bit_of a zero ha h = refl
byte_bit-eq-bit_of a (suc zero) ha h = ap (λ n. n == 1) (omega arith)
byte_bit-eq-bit_of a (suc (suc zero)) ha h = ap (λ n. n == 1) (omega arith)
byte_bit-eq-bit_of a (suc (suc (suc zero))) ha h = ap (λ n. n == 1) (omega arith)
byte_bit-eq-bit_of a (suc (suc (suc (suc zero)))) ha h = ap (λ n. n == 1) (omega arith)
byte_bit-eq-bit_of a (suc (suc (suc (suc (suc zero))))) ha h = ap (λ n. n == 1) (omega arith)
byte_bit-eq-bit_of a (suc (suc (suc (suc (suc (suc zero)))))) ha h = ap (λ n. n == 1) (omega arith)
byte_bit-eq-bit_of a (suc (suc (suc (suc (suc (suc (suc zero))))))) ha h =
    ap (λ n. n == 1) (omega arith)
byte_bit-eq-bit_of a (suc (suc (suc (suc (suc (suc (suc (suc i)))))))) ha h = absurd (omega arith)

-- a place among the bits of a key, by the byte and the bit in the byte
place-eq-bit_of :
    (key : Key) (q r : ℕ)
    → All IsByte key
    → r < 8
    → byte_bit (byte_at key q) r ≡ bit_of (key_bits key) (8 * q + r)
unfolding byte_at key_bits byte_bit bit_of
place-eq-bit_of [] q r hk hr = rw (zero-div (2 ^ (7 - r))) refl
place-eq-bit_of (b ∷ bs) zero r (hb, hk) hr =
    byte_bit-eq-bit_of b r hb hr
    ∙ sym (bit_of-append_left (bits 8 b) (key_bits bs) r (omega (arith, length-bits 8 b)))
    ∙ ap (bit_of (bits 8 b ++ key_bits bs)) (omega arith)
place-eq-bit_of (b ∷ bs) (suc q) r (hb, hk) hr =
    place-eq-bit_of bs q r hk hr
    ∙ sym (bit_of-append_right (bits 8 b) (key_bits bs) (8 * q + r))
    ∙ ap (bit_of (bits 8 b ++ key_bits bs)) (omega (arith, length-bits 8 b))

key_bit-eq-bit_of : (key : Key) (i : ℕ) → All IsByte key → key_bit key i ≡ bit_of (key_bits key) i
unfolding key_bit
key_bit-eq-bit_of key i hk =
    place-eq-bit_of key (i / 8) (i % 8) hk (omega arith) ∙ ap (bit_of (key_bits key)) (omega arith)

length-key_bits : (key : Key) → length (key_bits key) ≡ 8 * length key
unfolding key_bits
length-key_bits [] = refl
length-key_bits (b ∷ bs) =
    length-append (bits 8 b) (key_bits bs) ∙ omega (arith, length-bits 8 b, length-key_bits bs)

first_differing_from-Differ :
    (j : ℕ) (xs ys : Key)
    → length xs ≡ length ys
    → All IsByte xs
    → All IsByte ys
    → xs ≢ ys
    → (k : ℕ) × (first_differing_from j xs ys ≡ some (j * 8 + k))
      × Differ (key_bits xs) (key_bits ys) k
unfolding first_differing_from key_bits
first_differing_from-Differ j [] [] n hx hy ne = absurd (ne refl)
first_differing_from-Differ j [] (y ∷ ys) n hx hy ne = absurd (omega arith)
first_differing_from-Differ j (x ∷ xs) [] n hx hy ne = absurd (omega arith)
first_differing_from-Differ j (x ∷ xs) (y ∷ ys) n (hx, hxs) (hy, hys) ne =
    elim (Bool-cases (xor 8 x y == 0)) [
      | inl z ↦
          let same : x ≡ y = xor_zero 8 x y hx hy (ground arith) in
          let (k, found, differ) =
            first_differing_from-Differ (j + 1) xs ys (omega arith) hxs hys
              (λ e. ne (ap₂ ◌∷◌ same e)) in
          (
            8 + k,
            rw (z, found) (ap some (omega arith)),
            subst (λ b. Differ (bits 8 x ++ key_bits xs) (bits 8 b ++ key_bits ys) (8 + k)) same
                (Differ-prepend (bits 8 x) (key_bits xs) (key_bits ys) k differ),
          )
      | inr z ↦ (
        leading_zeros 8 (xor 8 x y),
        rw z refl,
        Differ-append (bits 8 x) (bits 8 y) (key_bits xs) (key_bits ys) _
            (leading_zeros-Differ 8 x y (ground arith)),
      )
    ]

-- `d` is what the function returns, the first bit at which the keys differ, and one of their 256.
pub record IsFirstDifference (a b : Key) (d : ℕ) : Type 0 where
  pub found : first_differing_bit a b ≡ some d
  pub same : (i : ℕ) → i < d → key_bit a i ≡ key_bit b i
  pub other : key_bit a d ≢ key_bit b d
  pub range : d < 256

-- Of two distinct keys of 32 bytes the function returns the first bit at which they differ, which is
-- below 256; it does not reach its `unreachable!`.
pub first_differing_bit-IsFirstDifference :
    (a b : Key) → IsKey a → IsKey b → a ≢ b → (d : ℕ) × IsFirstDifference a b d
unfolding first_differing_bit
first_differing_bit-IsFirstDifference a b ha hb ne =
    let (k, found, differ) =
      first_differing_from-Differ 0 a b (ha.size ∙ sym hb.size) ha.bytes hb.bytes ne in
    let (same, other, range) = bit_of-Differ (key_bits a) (key_bits b) k differ in
    let at_a = λ (i : ℕ). key_bit-eq-bit_of a i ha.bytes in
    let at_b = λ (i : ℕ). key_bit-eq-bit_of b i hb.bytes in
    (
      k,
      record {
        found = found ∙ ap some (omega arith);
        same = λ i lt. at_a i ∙ same i lt ∙ sym (at_b i);
        other = λ e. other (sym (at_a k) ∙ e ∙ at_b k);
        range = omega (arith, length-key_bits a, ha.size);
      },
    )
