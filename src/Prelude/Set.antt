-- ===== src/Prelude/Set.antt =====
-- What the program uses of `BTreeSet` with numeric elements: an ascending list with no repetition.
use Prim.Native.Nat.{ℕ}
use mathlib.Core.Path.{◌≡◌, refl}
use mathlib.Core.Bool.{Bool, false, ◌||◌}
use mathlib.Core.List.{List, [], ◌∷◌}
use native.Mathlib.Omega.{arith}
use naome.Prelude.Tests.{◌==◌, ltb, if◌then◌else◌}

abbrev pub Set : Type 0
Set = List ℕ

unfoldable pub contains : ℕ → Set → Bool
contains x [] = false
contains x (y ∷ s) = y == x || contains x s

unfoldable pub insert : ℕ → Set → Set
insert x [] = x ∷ []
insert x (y ∷ s) = if y == x then y ∷ s else if ltb x y then x ∷ y ∷ s else y ∷ insert x s

pub contains-insert : (x y : ℕ) (s : Set) → contains x (insert y s) ≡ (y == x || contains x s)
unfolding contains insert
contains-insert x y [] = refl
contains-insert x y (z ∷ s) = ground (arith, contains-insert x y s)
