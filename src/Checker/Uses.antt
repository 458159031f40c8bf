-- ===== src/Checker/Uses.antt =====
-- naome-checker/src/lib.rs: what `last_uses` records, and the runs that do not panic.
use naome.Prelude.{
  ℕ, zero, suc, ◌+◌, ◌≤◌, ◌<◌, ◌≡◌, refl, sym, ap, ◌∙◌, subst, none, some, List, [], ◌∷◌, arith,
  All, length, get_elem?, map, ◌==◌, if◌then◌else◌, Bool-cases, inl, inr, ==_refl,
}
use naome.Prelude.Result.{ok, err, ◌>>=◌}
use naome.Certificate.{ProofStep, local_references}
use naome.Certificate.Validation.{IsAcyclic}
use naome.Checker.{Outcome, CheckErrorKind, rejected, set_at}
use naome.Checker.Derive.{LastUses, mark, mark_all, last_uses}

-- The run returns a value with `P`, or an error, but does not panic.
pub data Completes {A : Type 0} (P : A → Type 0) : Outcome A → Type 0 where
  completes : {a : A} → P a → Completes P (ok a)
  rejects : {kind : CheckErrorKind} → Completes P (err (rejected kind))

pub Completes-bind :
    {A B : Type 0} {P : A → Type 0} {Q : B → Type 0} {r : Outcome A} {f : A → Outcome B}
    → Completes P r
    → ((a : A) → P a → Completes Q (f a))
    → Completes Q (r >>= f)
Completes-bind (completes {a} h) k = k a h
Completes-bind rejects k = rejects

pub Completes-map :
    {A : Type 0} {P Q : A → Type 0} {r : Outcome A}
    → Completes P r
    → ((a : A) → P a → Q a)
    → Completes Q r
Completes-map (completes {a} h) k = completes (k a h)
Completes-map rejects k = rejects

-- what `set_at` leaves: the length, and every other entry
abbrev pub IsUpdated : {A : Type 0} → ℕ → A → List A → List A → Type 0
IsUpdated i v xs ys =
    (length ys ≡ length xs)
    × ((j : ℕ) → get_elem? ys j ≡ (if i == j then some v else get_elem? xs j))

pub set_at-IsUpdated :
    {A : Type 0} (i : ℕ) (v : A) (xs : List A)
    → i < length xs
    → Completes (IsUpdated i v xs) (set_at i v xs)
unfolding set_at
set_at-IsUpdated i v [] h = absurd (omega arith)
set_at-IsUpdated zero v (x ∷ xs) h = completes (refl, head)
  where
    head : (j : ℕ) → get_elem? (v ∷ xs) j ≡ (if zero == j then some v else get_elem? (x ∷ xs) j)
    head zero = refl
    head (suc j) = ground arith
set_at-IsUpdated (suc i) v (x ∷ xs) h =
    Completes-bind (set_at-IsUpdated i v xs (omega arith))
      λ ys (n, e). completes (omega arith, tail ys e)
  where
    tail :
        (ys : List _)
        → ((j : ℕ) → get_elem? ys j ≡ (if i == j then some v else get_elem? xs j))
        → (j : ℕ) → get_elem? (x ∷ ys) j ≡ (if suc i == j then some v else get_elem? (x ∷ xs) j)
    tail ys e zero = ground arith
    tail ys e (suc j) = ground (arith, e j)

-- the last use of the result `r` is not before `p`
abbrev pub IsUsed : LastUses → ℕ → ℕ → Type 0
IsUsed uses p r = (q : ℕ) × (get_elem? uses r ≡ some (some q)) × (p ≤ q)

abbrev Grows : ℕ → LastUses → LastUses → Type 0
Grows p uses uses' =
    (length uses' ≡ length uses) × ((q r : ℕ) → q ≤ p → IsUsed uses q r → IsUsed uses' q r)

set-Grows : (p i : ℕ) (uses uses' : LastUses) → IsUpdated i (some p) uses uses' → Grows p uses uses'
set-Grows p i uses uses' (n, e) = (
  n,
  λ q r h (last, k, l). elim (Bool-cases (i == r)) [
    | inl hit ↦ (p, e r ∙ rw hit refl, h)
    | inr miss ↦ (last, e r ∙ rw miss k, l)
  ],
)

mark-Grows :
    (p : ℕ) (refs : List ℕ) (uses : LastUses)
    → All (λ r. r < length uses) refs
    → Completes (λ uses'. Grows p uses uses' × All (IsUsed uses' p) refs) (mark p refs uses)
unfolding mark
mark-Grows p [] uses h = completes ((refl, λ q r l u. u), tt)
mark-Grows p (r ∷ rs) uses (h, hs) = Completes-bind (set_at-IsUpdated r (some p) uses h) λ mid set.
    Completes-map (mark-Grows p rs mid (subst (λ n. All (λ r. r < n) rs) (sym set.0) hs))
      λ uses' ((n, grows), used). (
        (n ∙ set.0, λ q s l u. grows q s l ((set-Grows p r uses mid set).1 q s l u)),
        (grows p r (omega arith) (p, set.1 r ∙ rw (==_refl r) refl, omega arith), used),
      )

All-map :
    {A : Type 0} {P Q : A → Type 0} (xs : List A) → ((a : A) → P a → Q a) → All P xs → All Q xs
All-map [] f h = tt
All-map (x ∷ xs) f (h, hs) = (f x h, All-map xs f hs)

module _ {D : Type 0} where
  -- every step's references are used at the step or later
  abbrev pub AreUsed : LastUses → ℕ → List (ProofStep D) → Type 0
  AreUsed uses position [] = Unit
  AreUsed uses position (s ∷ ss) =
      All (IsUsed uses position) (local_references s) × AreUsed uses (position + 1) ss

  mark_all-AreUsed :
      (position : ℕ) (steps : List (ProofStep D)) (uses : LastUses)
      → position + length steps ≤ length uses
      → IsAcyclic position steps
      → Completes
          (λ uses'. Grows position uses uses' × AreUsed uses' position steps)
          (mark_all position steps uses)
  unfolding mark_all
  mark_all-AreUsed position [] uses n a = completes ((refl, λ q r l u. u), tt)
  mark_all-AreUsed position (s ∷ ss) uses n (a, later_a) =
      Completes-bind
        (mark-Grows position (local_references s) uses
          (All-map (local_references s) (λ r (h : r < position). omega arith) a))
        λ mid ((m, grows), used).
          Completes-map (mark_all-AreUsed (position + 1) ss mid (omega arith) later_a)
            λ uses' ((k, later), rest). (
              (k ∙ m, λ q r l u. later q r (omega arith) (grows q r l u)),
              (All-map (local_references s) (λ r u. later position r (omega arith) u) used, rest),
            )

  abbrev no_uses : List (ProofStep D) → LastUses
  no_uses steps = map (λ _. none) steps

  length-unused : (steps : List (ProofStep D)) → length (no_uses steps) ≡ length steps
  length-unused [] = refl
  length-unused (s ∷ ss) = ap suc (length-unused ss)

  -- On steps that refer to earlier steps only, `last_uses` completes.
  pub last_uses-AreUsed :
      (steps : List (ProofStep D))
      → IsAcyclic 0 steps
      → Completes (λ uses. (length uses ≡ length steps) × AreUsed uses 0 steps) (last_uses steps)
  unfolding last_uses
  last_uses-AreUsed steps a =
      Completes-map
        (mark_all-AreUsed 0 steps (no_uses steps) (omega (arith, length-unused steps)) a)
        λ uses ((n, _), used). (n ∙ length-unused steps, used)
