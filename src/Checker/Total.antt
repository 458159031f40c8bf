-- ===== src/Checker/Total.antt =====
-- naome-checker/src/lib.rs: the run on a certificate that `validate_steps` accepts.
use naome.Prelude.{
  ◌≤◌, subst, ℕ, zero, suc, ◌+◌, ◌-◌, ◌<◌, ◌≡◌, ◌≢◌, refl, sym, ap, ◌∙◌, Bool, true, false, ◌||◌,
  Option, none, some, List, [], ◌∷◌, ◌++◌, arith, All, length, length-append, get_elem?, ◌==◌,
  if◌then◌else◌, Bool-cases, inl, inr,
}
use naome.Prelude.Result.{ok, err, Ensures, returns, Ensures-bind}
use naome.Canonical.{
  formula_max_bytes, formula_max_nodes, encode_canonical, encode_canonical_with_node_limit,
}
use naome.Canonical.Layout.{length-layout_bound}
use naome.Canonical.Encode.{encode_canonical_with_node_limit_iff}
use naome.Checker.Truth.{known}
use naome.Formula
use naome.Formula.{Formula}
use naome.Certificate.{ProofStep, local_references, validate_steps}
use naome.Certificate.Validation.{IsAcyclic, validate_steps_iff}
use naome.Checker.{ContextView, CheckedStep, DerivedStep, Identity, Results, Outcome, panicked}
use naome.Checker.Derive.{LastUses}
use naome.Checker.Run.{
  State, omit_derivation, step_inputs, encode, canonical_bytes, charge_result, push_identity,
  check_step, check_steps, conclude, check_with_diagnostic_query, last, is_none, is_used,
}
use naome.Checker.Uses.{
  Completes, completes, rejects, Completes-bind, IsUsed, AreUsed, last_uses-AreUsed,
}
use naome.Checker.Panic.{
  Done, IsLength, IsBoundedView, rejected-Ensures, expect-Completes, get-Completes,
  charge_formula_work-Completes, IsReady, release-IsReady,
}
use naome.Checker.Progress.{derive_step-Keeps}

or_true : (b : Bool) → (b || true) ≡ true
or_true true = refl
or_true false = refl

inputs-Completes :
    (refs : List ℕ) (ids : Option (List Identity))
    → ids ≡ none
    → Completes Done (step_inputs refs ids)
unfolding step_inputs
inputs-Completes refs none e = completes tt
inputs-Completes refs (some ids) e = cc

-- the canonical bytes are there for a step that is not charged in advance, and for the last one
abbrev IsEncoded : Bool → DerivedStep → Option (List ℕ) → Type 0
IsEncoded is_final d canonical =
    (is_none d.precharged_length || is_final) ≡ true
    → (bytes : List ℕ) × (canonical ≡ some bytes) × (length bytes ≤ formula_max_bytes)

encode-length :
    (f : Formula) → Ensures (λ bytes. length bytes ≤ formula_max_bytes) (encode omit_derivation f)
unfolding encode encode_canonical
encode-length f =
    Ensures-bind (known (encode_canonical_with_node_limit f formula_max_nodes)) λ (bytes, used) q.
      let (_, count, e, _) =
        (encode_canonical_with_node_limit_iff f formula_max_nodes bytes used).0 q in
      let bound = length-layout_bound f (omega arith) in returns (rw e bound)

canonical_bytes-Completes :
    (position : ℕ) (is_final : Bool) (d : DerivedStep)
    → Completes (IsEncoded is_final d) (canonical_bytes omit_derivation position is_final d)
unfolding canonical_bytes
canonical_bytes-Completes position is_final d =
    elim (Bool-cases (is_none d.precharged_length || is_final)) [
      | inl e ↦ rw e (
          Completes-bind (rejected-Ensures _ (encode-length d.formula))
            λ bytes h. completes (λ _. (bytes, refl, h)))
      | inr e ↦ rw e (completes (λ q. cc))
    ]

charge_result-Completes :
    (position : ℕ) (pre : Option ℕ) (canonical : Option (List ℕ)) (work : ℕ)
    → (is_none pre ≡ true
        → (bytes : List ℕ) × (canonical ≡ some bytes) × (length bytes ≤ formula_max_bytes))
    → IsLength pre
    → Completes (λ (r : ℕ × ℕ). r.0 ≤ formula_max_bytes) (charge_result position pre canonical work)
unfolding charge_result
charge_result-Completes position (some n) canonical work h small = completes small
charge_result-Completes position none canonical work h _ =
    let (bytes, e, small) = h refl in
    Completes-bind (expect-Completes canonical bytes e) λ bytes' e'.
      let same : bytes ≡ bytes' = cc in
      let small' = subst (λ bytes. length bytes ≤ formula_max_bytes) same small in
      Completes-bind (charge_formula_work-Completes position (length bytes') work (omega arith))
        λ left _. completes small'

last-append : {A : Type 0} (xs : List A) (x : A) → last (xs ++ x ∷ []) ≡ some x
last-append [] x = refl
last-append (y ∷ []) x = refl
last-append (y ∷ z ∷ xs) x = last-append (z ∷ xs) x

get-append_left :
    {A : Type 0} (xs ys : List A) (i : ℕ) → i < length xs → get_elem? (xs ++ ys) i ≡ get_elem? xs i
get-append_left [] ys i h = absurd (omega arith)
get-append_left (x ∷ xs) ys zero h = refl
get-append_left (x ∷ xs) ys (suc i) h = get-append_left xs ys i (omega arith)

get-append_last :
    {A : Type 0} (xs : List A) (x : A) (i : ℕ) → i ≡ length xs → get_elem? (xs ++ x ∷ []) i ≡ some x
get-append_last [] x zero h = refl
get-append_last [] x (suc i) h = absurd (omega arith)
get-append_last (y ∷ xs) x zero h = absurd (omega arith)
get-append_last (y ∷ xs) x (suc i) h = get-append_last xs x i (omega arith)

-- the slot of a step that is used later
kept-present :
    (b : Bool) (use_of : Option ℕ) (q : ℕ) (c : CheckedStep)
    → some use_of ≡ some (some q)
    → (if b || is_used use_of then some c else none) ≡ some c
kept-present true use_of q c e = refl
kept-present false none q c e = cc
kept-present false (some p) q c e = refl

append-IsReady :
    (uses : LastUses) (p : ℕ) (rs : Results) (b : Bool) (use_of : Option ℕ) (c : CheckedStep)
    → get_elem? uses p ≡ some use_of
    → c.canonical_length ≤ formula_max_bytes
    → IsReady uses p (p + 1) rs
    → IsReady uses (p + 1) (p + 1) (rs ++ (if b || is_used use_of then some c else none) ∷ [])
append-IsReady uses p rs b use_of c e small (n, present) = (
  omega (arith, length-append rs ((if b || is_used use_of then some c else none) ∷ [])),
  λ r h (q, used, l). elim (Bool-cases (r == p)) [
    | inl same ↦
        let here : r ≡ p = ground arith in
        let both : some use_of ≡ some (some q) = sym e ∙ ap (get_elem? uses) (sym here) ∙ used in
        (c, get-append_last rs _ r (omega arith) ∙ ap some (kept-present b use_of q c both), small)
    | inr differ ↦
        let (d, there, short) = present r (ground arith) (q, used, l) in
        (d, get-append_left rs _ r (ground arith) ∙ there, short)
  ],
)

-- the state of the run before the step `p`
abbrev IsRunning : LastUses → ℕ → State → Type 0
IsRunning uses p s = IsReady uses p p s.results × (s.derivation_ids ≡ none)

-- the state of the run after the last step
abbrev IsFinal : State → Type 0
IsFinal s =
    ((c : CheckedStep) × (last s.results ≡ some (some c))
      × (c.canonical_length ≤ formula_max_bytes))
    × ((bytes : List ℕ) × (s.canonical_conclusion ≡ some bytes))

module _ (sha256 : List ℕ → List ℕ) {D : Type 0} (view : ContextView D)
    (bounded : IsBoundedView view) where
  identity-Completes :
      (step : ProofStep D) (d : DerivedStep) (canonical : Option (List ℕ))
      (inputs ids : Option (List Identity))
      → ids ≡ none
      → Completes (λ ids'. ids' ≡ none) (push_identity sha256 step d canonical inputs ids)
  unfolding push_identity
  identity-Completes step d canonical inputs none e = completes refl
  identity-Completes step d canonical inputs (some ids) e = cc

  check_step-Completes :
      (final_step : ℕ) (uses : LastUses) (p : ℕ) (step : ProofStep D) (s : State)
      → p < length uses
      → All (λ r. r < p) (local_references step)
      → All (IsUsed uses p) (local_references step)
      → IsRunning uses p s
      → Completes
          (λ (s' : State). IsRunning uses (p + 1) s' × (p ≡ final_step → IsFinal s'))
          (check_step sha256 omit_derivation view final_step uses p step s)
  unfolding check_step
  check_step-Completes final_step uses p step s n h u (ready, no_ids) =
      Completes-bind
        (derive_step-Keeps view bounded p step uses s.results s.remaining_work n h u ready)
        λ (d, results, work) (kept, pre).
          Completes-bind (inputs-Completes (local_references step) s.derivation_ids no_ids)
            λ inputs _.
              Completes-bind (release-IsReady uses p (local_references step) results n h kept)
                λ results' kept'.
                  Completes-bind (canonical_bytes-Completes p (p == final_step) d)
                    λ canonical encoded.
                      Completes-bind
                        (charge_result-Completes p d.precharged_length canonical work
                          (λ q. encoded (rw q refl)) pre)
                        λ (canonical_length, left) small.
                          Completes-bind
                            (identity-Completes step d canonical inputs s.derivation_ids no_ids)
                            λ ids no_ids'. Completes-bind (get-Completes uses p n) λ use_of e.
                              completes (
                                (
                                  append-IsReady uses p results' (p == final_step) use_of _ e small
                                      kept',
                                  no_ids',
                                ),
                                λ is_final.
                                    let now : (p == final_step) ≡ true = ground arith in
                                    let (bytes, here, _) =
                                      encoded (rw now (or_true (is_none d.precharged_length))) in
                                    (
                                      (
                                        record {
                                          formula = d.formula;
                                          canonical_length = canonical_length;
                                        },
                                        last-append results' _ ∙ ap some (rw now refl),
                                        small,
                                      ),
                                      (bytes, rw now here),
                                    ),
                              )

  check_steps-Completes :
      (final_step : ℕ) (uses : LastUses) (p : ℕ) (step : ProofStep D) (steps : List (ProofStep D))
      (s : State)
      → p + length steps ≡ final_step
      → final_step < length uses
      → IsAcyclic p (step ∷ steps)
      → AreUsed uses p (step ∷ steps)
      → IsRunning uses p s
      → Completes IsFinal
          (check_steps sha256 omit_derivation view final_step uses p (step ∷ steps) s)
  unfolding check_steps
  check_steps-Completes final_step uses p step [] s e n (h, _) (u, _) running =
      Completes-bind (check_step-Completes final_step uses p step s (omega arith) h u running)
        λ s' (_, final). completes (final (omega arith))
  check_steps-Completes final_step uses p step (next ∷ steps) s e n (h, hs) (u, us) running =
      Completes-bind (check_step-Completes final_step uses p step s (omega arith) h u running)
        λ s' (running', _).
          check_steps-Completes final_step uses (p + 1) next steps s' (omega arith) n hs us running'

conclude-Completes :
    (final_step : ℕ) (s : State) → IsFinal s → Completes Done (conclude final_step s)
unfolding conclude
conclude-Completes final_step s ((c, e, small), (bytes, b)) =
    Completes-bind (expect-Completes (last s.results) (some c) e) λ slot e'.
      Completes-bind (expect-Completes slot c (cc)) λ c' e''.
        let same : c ≡ c' = cc in
        let small' =
          subst (λ (c : CheckedStep). c.canonical_length ≤ formula_max_bytes) same small in
        Completes-bind
          (charge_formula_work-Completes final_step c'.canonical_length s.remaining_work
            (omega arith))
          λ left _. elim (Bool-cases (Formula.is_closed c'.formula)) [
            | inl closed ↦ rw closed (
                Completes-bind (expect-Completes s.canonical_conclusion bytes b)
                  λ bytes' _. completes tt)
            | inr free ↦ rw free rejects
          ]

run-Completes :
    (sha256 : List ℕ → List ℕ) {D : Type 0} (view : ContextView D) (steps : List (ProofStep D))
    → IsBoundedView view
    → 0 < length steps
    → IsAcyclic 0 steps
    → Completes Done (check_with_diagnostic_query sha256 steps view omit_derivation)
unfolding check_with_diagnostic_query
run-Completes sha256 view [] bounded n a = absurd (omega arith)
run-Completes sha256 view (step ∷ steps) bounded n a =
    Completes-bind (last_uses-AreUsed (step ∷ steps) a) λ uses (k, used).
      Completes-bind
        (check_steps-Completes sha256 view bounded (suc (length steps) - 1) uses 0 step steps _
          (omega arith) (omega arith) a used ((refl, λ r h u. absurd (omega arith)), refl))
        λ s final. conclude-Completes (suc (length steps) - 1) s final

Completes-ne-panicked :
    {A : Type 0} {P : A → Type 0} {r : Outcome A} → Completes P r → r ≢ err panicked
Completes-ne-panicked (completes h) e = cc
Completes-ne-panicked rejects e = cc

-- On the steps of a certificate that `validate_steps` accepts, and against a view that does not panic
-- and whose headers give lengths of at most 393,216, as formulas have, the checker in the mode without
-- derivation identities ends with a conclusion or with an error: none of its own `expect` calls fails,
-- those on sums of lengths in 64 bits included, and no index.
pub check_with_diagnostic_query_never_panics :
    (sha256 : List ℕ → List ℕ) {D : Type 0} (view : ContextView D) (steps : List (ProofStep D))
    → IsBoundedView view
    → validate_steps steps ≡ ok tt
    → check_with_diagnostic_query sha256 steps view omit_derivation ≢ err panicked
check_with_diagnostic_query_never_panics sha256 view steps bounded valid =
    let (n, _, a) = (validate_steps_iff steps).0 valid in
    Completes-ne-panicked (run-Completes sha256 view steps bounded n a)
