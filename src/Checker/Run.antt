-- ===== src/Checker/Run.antt =====
-- naome-checker/src/lib.rs: `check_with_diagnostic_query`, the run of the checker over a certificate.
use naome.Prelude.{
  ℕ, ◌+◌, ◌-◌, Bool, true, false, ◌||◌, Option, none, some, List, [], ◌∷◌, ◌++◌, length, get_elem?,
  ltb, ◌==◌, if◌then◌else◌,
}
use naome.Prelude.Result.{ok, err, ◌>>=◌, map_err}
use naome.Formula
use naome.Formula.{Formula}
use naome.Canonical
use naome.Canonical.Words.{to_be_bytes}
use naome.Certificate.{ProofStep, canonical_tag, local_references}
use naome.Checker
use naome.Checker.{
  ContextView, CheckedStep, DerivedStep, Identity, Results, Outcome, rejected, panicked, expect,
  set_at, charge_formula_work, checker_max_formula_work_bytes,
}
use naome.Checker.Derive.{LastUses, last_uses, is_use}
use naome.Checker.Step.{derive_step}

pub data IdentityMode : Type 0 where
  omit_derivation derive : IdentityMode

-- "naome:derivation-node\0"
abbrev derivation_node_id_domain : List ℕ
derivation_node_id_domain =
    110 ∷ 97 ∷ 111 ∷ 109 ∷ 101 ∷ 58 ∷ 100 ∷ 101 ∷ 114 ∷ 105 ∷ 118 ∷ 97 ∷ 116 ∷ 105 ∷ 111 ∷ 110 ∷ 45
    ∷ 110 ∷ 111 ∷ 100 ∷ 101 ∷ 0 ∷ []

-- "naome:zfc"
abbrev foundation_id : List ℕ
foundation_id = 110 ∷ 97 ∷ 111 ∷ 109 ∷ 101 ∷ 58 ∷ 122 ∷ 102 ∷ 99 ∷ []

-- the bytes that `update_framed` adds to the hasher
unfoldable pub framed : List ℕ → Outcome (List ℕ)
unfolding to_be_bytes
framed bytes =
    if ltb (length bytes) 4294967296 then ok (to_be_bytes (length bytes) ++ bytes) else err panicked

abbrev pub concat : List Identity → List ℕ
concat [] = []
concat (input ∷ inputs) = input ++ concat inputs

-- the loop that drops the results whose last use is this step
unfoldable pub release : ℕ → LastUses → List ℕ → Results → Outcome Results
unfolding expect set_at
release position uses [] results = ok results
release position uses (reference ∷ rest) results = do
  use_of ← expect (get_elem? uses reference)
  results ← (if is_use use_of position then set_at reference none results else ok results)
  release position uses rest results

-- `derivation_inputs`, over the references that are there
unfoldable pub derivation_inputs : List ℕ → List Identity → Outcome (List Identity)
unfolding expect
derivation_inputs [] ids = ok []
derivation_inputs (reference ∷ rest) ids = do
  id ← expect (get_elem? ids reference)
  inputs ← derivation_inputs rest ids
  ok (id ∷ inputs)

-- `derivation_inputs` in the mode `derive`
unfoldable pub step_inputs : List ℕ → Option (List Identity) → Outcome (Option (List Identity))
unfolding derivation_inputs
step_inputs references none = ok none
step_inputs references (some ids) = do inputs ← derivation_inputs references ids; ok (some inputs)

unfoldable pub encode : IdentityMode → Formula → Canonical.Outcome (List ℕ)
unfolding Canonical.encode_canonical Canonical.encode_free_variable_normalized
encode omit_derivation f = Canonical.encode_canonical f
encode derive f = Canonical.encode_free_variable_normalized f

-- The local variables of the run; `derivation_ids` is there in the mode `derive`.
pub record State : Type 0 where
  pub results : Results
  pub derivation_ids : Option (List Identity)
  pub remaining_work : ℕ
  pub canonical_conclusion : Option (List ℕ)

abbrev pub is_none : Option ℕ → Bool
is_none none = true
is_none (some _) = false

-- `canonical_length`, and the work that remains
unfoldable pub charge_result : ℕ → Option ℕ → Option (List ℕ) → ℕ → Outcome (ℕ × ℕ)
unfolding charge_formula_work expect
charge_result position (some precharged) canonical work = ok (precharged, work)
charge_result position none canonical work = do
  bytes ← expect canonical
  work ← charge_formula_work position (length bytes) work
  ok (length bytes, work)

-- `canonical`, which is computed unless the length is known and the step is not the last
unfoldable pub canonical_bytes : IdentityMode → ℕ → Bool → DerivedStep → Outcome (Option (List ℕ))
unfolding encode
canonical_bytes mode position is_final d =
    if is_none d.precharged_length || is_final
    then (do
      bytes ←
          map_err (λ source. rejected (Checker.derived_formula position source))
            (encode mode d.formula)
      ok (some bytes))
    else ok none

-- the entry of `last_uses` is `Some`
abbrev pub is_used : Option ℕ → Bool
is_used none = false
is_used (some _) = true

-- The parameters of a run: SHA-256 and the number of the last step.
module _ (sha256 : List ℕ → List ℕ) {D : Type 0} where
  unfoldable pub derivation_id : ProofStep D → List ℕ → List Identity → Outcome Identity
  unfolding framed canonical_tag
  derivation_id step canonical_result inputs = do
    foundation ← framed foundation_id
    result ← framed canonical_result
    ok (
        sha256 (
          derivation_node_id_domain
          ++ foundation
          ++ canonical_tag step ∷ (result ++ concat inputs)))

  -- the identity that a step pushes on `derivation_ids`
  unfoldable pub push_identity :
      ProofStep D
      → DerivedStep
      → Option (List ℕ)
      → Option (List Identity)
      → Option (List Identity)
      → Outcome (Option (List Identity))
  unfolding expect derivation_id
  push_identity step d canonical inputs none = ok none
  push_identity step d canonical inputs (some ids) = do
    id ← elim d.referenced_derivation_id [
      | some id ↦ ok id
      | none ↦ (do
        bytes ← expect canonical
        inputs ← expect inputs
        derivation_id step bytes inputs)
    ]
    ok (some (ids ++ id ∷ []))

  -- the body of the loop
  unfoldable pub check_step :
      IdentityMode → ContextView D → ℕ → LastUses → ℕ → ProofStep D → State → Outcome State
  unfolding derive_step step_inputs local_references release canonical_bytes charge_result
      push_identity expect
  check_step mode view final_step uses position step s = do
    (d, results, work) ← derive_step position step s.results uses view s.remaining_work
    inputs ← step_inputs (local_references step) s.derivation_ids
    results ← release position uses (local_references step) results
    canonical ← canonical_bytes mode position (position == final_step) d
    (canonical_length, work) ← charge_result position d.precharged_length canonical work
    ids ← push_identity step d canonical inputs s.derivation_ids
    use_of ← expect (get_elem? uses position)
    ok (record {
      results =
          results
          ++ (if (position == final_step) || is_used use_of
              then some (record { formula = d.formula; canonical_length = canonical_length })
              else none)
            ∷ [];
      derivation_ids = ids;
      remaining_work = work;
      canonical_conclusion = if position == final_step then canonical else s.canonical_conclusion;
    })

  -- the loop, from the given position on
  unfoldable pub check_steps :
      IdentityMode → ContextView D → ℕ → LastUses → ℕ → List (ProofStep D) → State → Outcome State
  unfolding check_step
  check_steps mode view final_step uses position [] s = ok s
  check_steps mode view final_step uses position (step ∷ steps) s = do
    s ← check_step mode view final_step uses position step s
    check_steps mode view final_step uses (position + 1) steps s

abbrev pub last : {A : Type 0} → List A → Option A
last [] = none
last (x ∷ []) = some x
last (x ∷ y ∷ ys) = last (y ∷ ys)

abbrev last_identity : Option (List Identity) → Option Identity
last_identity none = none
last_identity (some ids) = last ids

abbrev identities : IdentityMode → Option (List Identity)
identities omit_derivation = none
identities derive = some []

-- the end of the run: the last result is charged once more and must be closed
unfoldable pub conclude : ℕ → State → Outcome (Formula × List ℕ × Option Identity)
unfolding expect charge_formula_work Formula.is_closed
conclude final_step s = do
  slot ← expect (last s.results)
  conclusion ← expect slot
  _ ← charge_formula_work final_step conclusion.canonical_length s.remaining_work
  if Formula.is_closed conclusion.formula
      then (do
        bytes ← expect s.canonical_conclusion
        ok (conclusion.formula, bytes, last_identity s.derivation_ids))
      else err (rejected (Checker.open_conclusion final_step))

-- `check_with_diagnostic_query` on the steps of a certificate, of which there is at least one
unfoldable pub check_with_diagnostic_query :
    (List ℕ → List ℕ)
    → {D : Type 0} → List (ProofStep D)
    → ContextView D
    → IdentityMode
    → Outcome (Formula × List ℕ × Option Identity)
unfolding last_uses check_steps conclude
check_with_diagnostic_query sha256 steps view mode = do
  uses ← last_uses steps
  s ← check_steps sha256 mode view (length steps - 1) uses 0 steps (record {
    results = [];
    derivation_ids = identities mode;
    remaining_work = checker_max_formula_work_bytes;
    canonical_conclusion = none;
  })
  conclude (length steps - 1) s
