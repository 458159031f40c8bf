-- ===== src/Prelude/Result.antt =====
-- Rust's `Result<A, E>`, with `?` as the bind of a `do` block.
use mathlib.Core.Path.{◌≡◌, refl, sym, subst}
use mathlib.Core.Logic.{◌⊎◌, inl, inr}
use mathlib.Core.Bool.{Bool, true, false}
use naome.Prelude.Tests.{if◌then◌else◌}

pub data Result {ℓ κ} (E : Type ℓ) (A : Type κ) : Type (ℓ ⊔ κ) where
  ok : A → Result E A
  err : E → Result E A

abbrev pub map_err {ℓ κ μ} :
    {E : Type ℓ} {F : Type κ} {A : Type μ} → (E → F) → Result E A → Result F A
map_err convert (err failure) = err (convert failure)
map_err convert (ok value) = ok value

infixl 5 ◌>>=◌
abbrev pub ◌>>=◌ {ℓ κ μ} :
    {E : Type ℓ} {A : Type κ} {B : Type μ} → Result E A → (A → Result E B) → Result E B
err failure >>= rest = err failure
ok value >>= rest = rest value

-- A run that succeeds has both its parts succeed.
pub >>=-eq-ok {ℓ κ μ} :
    {E : Type ℓ} {A : Type κ} {B : Type μ}
    → (run : Result E A) (rest : A → Result E B) {result : B} → (run >>= rest) ≡ ok result
    → (value : A) × (run ≡ ok value) × (rest value ≡ ok result)
>>=-eq-ok (err failure) rest q = cc
>>=-eq-ok (ok value) rest q = (value, refl, q)

-- the second of two runs, the first for its failure only
infixl 5 ◌>>◌
abbrev pub ◌>>◌ {ℓ κ μ} :
    {E : Type ℓ} {A : Type κ} {B : Type μ} → Result E A → Result E B → Result E B
first >> second = first >>= λ _. second

pub ok-injective {ℓ κ} :
    {E : Type ℓ} {A : Type κ} {a b : A} → ◌≡◌ {A = Result E A} (ok a) (ok b) → a ≡ b
ok-injective e = cc

-- `P` holds of the value, if there is one.
pub data Ensures {ℓ κ μ} {E : Type ℓ} {A : Type κ} (P : A → Type μ)
    : Result E A → Type (ℓ ⊔ κ ⊔ μ) where
  returns : {a : A} → P a → Ensures P (ok a)
  throws : {e : E} → Ensures P (err e)

module _ {ℓ κ μ} {E : Type ℓ} {A : Type κ} {P : A → Type μ} where
  pub Ensures-ok : {r : Result E A} {a : A} → Ensures P r → r ≡ ok a → P a
  Ensures-ok (returns h) e = subst P (cc) h
  Ensures-ok throws e = cc

  pub Ensures-if :
      (b : Bool) {x y : Result E A}
      → (b ≡ true → Ensures P x)
      → (b ≡ false → Ensures P y)
      → Ensures P (if b then x else y)
  Ensures-if true hx hy = hx refl
  Ensures-if false hx hy = hy refl

  pub Ensures-bind {ν ξ} :
      {B : Type ν} {Q : B → Type ξ} {r : Result E A} {f : A → Result E B}
      → Ensures P r
      → ((a : A) → P a → Ensures Q (f a))
      → Ensures Q (r >>= f)
  Ensures-bind (returns {a} h) k = k a h
  Ensures-bind throws k = throws

-- `Q` holds of the error, if there is one.
pub data Refuses {ℓ κ μ} {E : Type ℓ} {A : Type κ} (Q : E → Type μ)
    : Result E A → Type (ℓ ⊔ κ ⊔ μ) where
  passes : {a : A} → Refuses Q (ok a)
  fails : {e : E} → Q e → Refuses Q (err e)

module _ {ℓ κ μ} {E : Type ℓ} {A : Type κ} {Q : E → Type μ} where
  pub Refuses-err : {r : Result E A} {e : E} → Refuses Q r → r ≡ err e → Q e
  Refuses-err passes q = cc
  Refuses-err (fails h) q = subst Q (cc) h

  pub Refuses-if :
      (b : Bool) {x y : Result E A}
      → (b ≡ true → Refuses Q x)
      → (b ≡ false → Refuses Q y)
      → Refuses Q (if b then x else y)
  Refuses-if true hx hy = hx refl
  Refuses-if false hx hy = hy refl

  pub Refuses-bind {ν} :
      {B : Type ν} {r : Result E A} {f : A → Result E B}
      → Refuses Q r
      → ((a : A) → r ≡ ok a → Refuses Q (f a))
      → Refuses Q (r >>= f)
  Refuses-bind (passes {a}) k = k a refl
  Refuses-bind (fails h) k = fails h

  pub Refuses-map_err {ν} :
      {F : Type ν} (g : F → E) (r : Result F A) → ((f : F) → Q (g f)) → Refuses Q (map_err g r)
  Refuses-map_err g (ok a) h = passes
  Refuses-map_err g (err f) h = fails (h f)

pub Ensures-weaken {ℓ κ μ ν} :
    {E : Type ℓ} {A : Type κ} {P : A → Type μ} {Q : A → Type ν} {r : Result E A}
    → Ensures P r
    → ((a : A) → P a → Q a)
    → Ensures Q r
Ensures-weaken (returns {a} h) k = returns (k a h)
Ensures-weaken throws k = throws

-- Two continuations that agree on the value of a run give the same.
pub >>=-eq {ℓ} :
    {E A B : Type 0} {P : A → Type ℓ} {r : Result E A} {f g : A → Result E B}
    → Ensures P r
    → ((a : A) → P a → f a ≡ g a)
    → (r >>= f) ≡ (r >>= g)
>>=-eq (returns {a} h) k = k a h
>>=-eq throws k = refl

pub map_err-eq-ok {ℓ κ μ} :
    {E : Type ℓ} {F : Type κ} {A : Type μ} (g : E → F) (r : Result E A) (a : A)
    → map_err g r ≡ ok a
    → r ≡ ok a
map_err-eq-ok g (ok b) a q = cc
map_err-eq-ok g (err e) a q = cc

-- A run that succeeds goes on with its value.
pub >>=-ok {ℓ κ μ} :
    {E : Type ℓ} {A : Type κ} {B : Type μ} {run : Result E A} (f : A → Result E B) {a : A}
    {after : Result E B}
    → run ≡ ok a
    → f a ≡ after
    → (run >>= f) ≡ after
>>=-ok f {after = after} q e = subst (λ run. (run >>= f) ≡ after) (sym q) e

pub Result-cases :
    {E A : Type 0} (r : Result E A) → ((a : A) × (r ≡ ok a)) ⊎ ((e : E) × (r ≡ err e))
Result-cases (ok a) = inl (a, refl)
Result-cases (err e) = inr (e, refl)
