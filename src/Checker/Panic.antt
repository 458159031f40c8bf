-- ===== src/Checker/Panic.antt =====
-- naome-checker/src/lib.rs: which results are present before and after a step.
use naome.Prelude.{
  ◌*◌, ◌-◌, ◌≤◌, ◌≢◌, subst, lt→ltb, ℕ, zero, suc, ◌+◌, ◌<◌, ◌≡◌, refl, sym, ap, ◌∙◌, true, Option,
  none, some, List, [], ◌∷◌, arith, All, length, get_elem?, ◌==◌, ltb, if◌then◌else◌, Bool-cases,
  inl, inr,
}
use naome.Prelude.Result.{Result, ok, err, map_err, Ensures, returns, throws}
use naome.Canonical.{formula_max_bytes}
use naome.Certificate.{ProofId}
use naome.Checker.{
  ContextView, ProofHeader, CheckedStep, Results, CheckErrorKind, ViewFailure, failed,
  view_panicked, checked_add, checker_max_formula_work_bytes, rejected, expect, ok_or, set_at,
  charge_formula_work,
}
use naome.Checker.Truth.{any}
use naome.Checker.Derive.{view_error, LastUses, result, is_use}
use naome.Checker.Run.{release}
use naome.Checker.Uses.{
  Completes, completes, rejects, Completes-bind, Completes-map, set_at-IsUpdated, IsUsed,
}

abbrev pub Done : {A : Type 0} → A → Type 0
Done a = Unit

pub expect-Completes :
    {A : Type 0} (o : Option A) (a : A) → o ≡ some a → Completes (λ b. o ≡ some b) (expect o)
unfolding expect
expect-Completes none a e = cc
expect-Completes (some b) a e = completes refl

pub get-Completes :
    {A : Type 0} (xs : List A) (i : ℕ)
    → i < length xs
    → Completes (λ a. get_elem? xs i ≡ some a) (expect (get_elem? xs i))
get-Completes [] i h = absurd (omega arith)
get-Completes (x ∷ xs) zero h = expect-Completes (some x) x refl
get-Completes (x ∷ xs) (suc i) h = get-Completes xs i (omega arith)

pub checked_add-Completes :
    (a b : ℕ) → a + b < 18446744073709551616 → Completes (λ c. c ≡ a + b) (checked_add a b)
unfolding checked_add
checked_add-Completes a b h = rw (lt→ltb (a + b) 18446744073709551616 h) (completes refl)

pub charge_formula_work-Completes :
    (step amount work : ℕ)
    → amount ≤ 2 * formula_max_bytes
    → Completes Done (charge_formula_work step amount work)
unfolding charge_formula_work
charge_formula_work-Completes step amount work h = elim (Bool-cases (ltb work amount)) [
  | inl e ↦
      let sum =
        checked_add-Completes (checker_max_formula_work_bytes - work) amount (omega arith) in
      rw e (Completes-bind sum λ actual _. rejects)
  | inr e ↦ rw e (completes tt)
]

pub rejected-Ensures :
    {E A : Type 0} {P : A → Type 0} (f : E → CheckErrorKind) {r : Result E A}
    → Ensures P r
    → Completes P (map_err (λ e. rejected (f e)) r)
rejected-Ensures f (returns h) = completes h
rejected-Ensures f throws = rejects

pub rejected-Completes :
    {E A : Type 0} (f : E → CheckErrorKind) (r : Result E A)
    → Completes Done (map_err (λ e. rejected (f e)) r)
rejected-Completes f r = rejected-Ensures f (any r)

pub view-Completes :
    {A : Type 0} (step : ℕ) (r : Result ViewFailure A)
    → r ≢ err view_panicked
    → Completes (λ a. r ≡ ok a) (map_err (view_error step) r)
unfolding view_error
view-Completes step (ok a) h = completes refl
view-Completes step (err (failed e)) h = rejects
view-Completes step (err view_panicked) h = absurd (h refl)

pub ok_or-Completes :
    {A : Type 0} (k : CheckErrorKind) (o : Option A)
    → Completes (λ a. o ≡ some a) (ok_or (rejected k) o)
unfolding ok_or
ok_or-Completes k none = rejects
ok_or-Completes k (some a) = completes refl

-- A length that is there is that of a formula.
abbrev pub IsLength : Option ℕ → Type 0
IsLength none = Unit
IsLength (some n) = n ≤ formula_max_bytes

-- A view that does not panic, and whose headers give the length of a formula
pub record IsBoundedView {D : Type 0} (view : ContextView D) : Type 0 where
  pub answers : (id : ProofId) → view.proof_header id ≢ err view_panicked
  pub lengths :
      (id : ProofId) (header : ProofHeader)
      → view.proof_header id ≡ ok (some header)
      → header.length ≤ formula_max_bytes

abbrev pub IsPresent : Results → ℕ → Type 0
IsPresent rs r =
    (c : CheckedStep) × (get_elem? rs r ≡ some (some c)) × (c.canonical_length ≤ formula_max_bytes)

-- Before the step `p` of a run there are `p` results, and those in use at `from` or later are present,
-- with the length of a formula.
abbrev pub IsReady : LastUses → ℕ → ℕ → Results → Type 0
IsReady uses p from rs = (length rs ≡ p) × ((r : ℕ) → r < p → IsUsed uses from r → IsPresent rs r)

pub later-IsReady :
    (uses : LastUses) (p : ℕ) (rs : Results) → IsReady uses p p rs → IsReady uses p (p + 1) rs
later-IsReady uses p rs (n, present) = (n, λ r h (q, e, l). present r h (q, e, omega arith))

pub result-Completes :
    (rs : Results) (r : ℕ)
    → IsPresent rs r
    → Completes (λ c. c.canonical_length ≤ formula_max_bytes) (result rs r)
unfolding result
result-Completes rs r (c, e, small) =
    Completes-bind (expect-Completes (get_elem? rs r) (some c) e) λ slot e'.
      Completes-map (expect-Completes slot c (cc)) λ c' e''.
        let same : c ≡ c' = cc in
        subst (λ (c : CheckedStep). c.canonical_length ≤ formula_max_bytes) same small

-- A result whose last use is `p` may go.
drop-IsReady :
    (uses : LastUses) (p r : ℕ) (rs : Results) (use_of : Option ℕ)
    → get_elem? uses r ≡ some use_of
    → r < p
    → is_use use_of p ≡ true
    → IsReady uses p (p + 1) rs
    → Completes (IsReady uses p (p + 1)) (set_at r none rs)
drop-IsReady uses p r rs none e h u ready = cc
drop-IsReady uses p r rs (some last) e h u (n, present) =
    let at_p : last ≡ p = ground arith in
    Completes-map (set_at-IsUpdated r none rs (omega arith)) λ rs' (m, entry). (
      omega arith,
      λ j k (q, used, l). elim (Bool-cases (r == j)) [
        | inl same ↦
            let here : r ≡ j = ground arith in
            let both : some (some last) ≡ some (some q) = sym e ∙ ap (get_elem? uses) here ∙ used in
            let equal : last ≡ q = cc in absurd (omega arith)
        | inr other ↦
            let (c, there, small) = present j k (q, used, l) in (c, entry j ∙ rw other there, small)
      ],
    )

pub drop_if-IsReady :
    (uses : LastUses) (p r : ℕ) (rs : Results) (use_of : Option ℕ)
    → get_elem? uses r ≡ some use_of
    → r < p
    → IsReady uses p (p + 1) rs
    → Completes (IsReady uses p (p + 1)) (if is_use use_of p then set_at r none rs else ok rs)
drop_if-IsReady uses p r rs use_of e h ready = elim (Bool-cases (is_use use_of p)) [
  | inl u ↦ rw u (drop-IsReady uses p r rs use_of e h u ready)
  | inr u ↦ rw u (completes ready)
]

pub release-IsReady :
    (uses : LastUses) (p : ℕ) (refs : List ℕ) (rs : Results)
    → p < length uses
    → All (λ r. r < p) refs
    → IsReady uses p (p + 1) rs
    → Completes (IsReady uses p (p + 1)) (release p uses refs rs)
unfolding release
release-IsReady uses p [] rs n h ready = completes ready
release-IsReady uses p (r ∷ refs) rs n (h, hs) ready =
    Completes-bind (get-Completes uses r (omega arith)) λ use_of e.
      Completes-bind (drop_if-IsReady uses p r rs use_of e h ready)
        λ rs' ready'. release-IsReady uses p refs rs' n hs ready'
