-- ===== src/Checker/Soundness.antt =====
-- naome-checker/src/lib.rs: the run of the checker and truth in structures.
use naome.Prelude.{
  ℕ, ◌+◌, ◌-◌, ◌≡◌, subst, Bool, true, false, ◌==◌, Option, none, some, List, [], ◌∷◌, ◌++◌, All,
  length, get_elem?, if◌then◌else◌,
}
use naome.Prelude.Result.{ok, Ensures, returns, throws, Ensures-ok, Ensures-if, Ensures-bind}
use naome.Formula
use naome.Formula.{Formula}
use naome.Formula.Scope.{IsFormula}
use naome.Zfc.Axioms.{ZfcAxiom}
use naome.Certificate.{ProofStep, local_references}
use naome.Checker.{ContextView, CheckedStep, Identity, Results, expect, charge_formula_work}
use naome.Checker.Derive.{LastUses, is_use, last_uses}
use naome.Checker.Run.{
  IdentityMode, State, release, check_step, check_steps, conclude, check_with_diagnostic_query,
  canonical_bytes, charge_result, push_identity, last, step_inputs,
}
use naome.Checker.Truth.{
  IsStepOf, IsSoundView, IsTrue, SlotIsTrue, ResultsAreTrue, any, Ensures-expect,
  set_at-ResultsAreTrue,
}
use naome.Semantics.{Structure, Valid}
use naome.Semantics.Model.{IsModel}
use naome.Checker.Rules.{derive_step-DerivesTruth}

release-ResultsAreTrue :
    (M : Structure) (position : ℕ) (uses : LastUses) (references : List ℕ) (rs : Results)
    → ResultsAreTrue M rs
    → Ensures (ResultsAreTrue M) (release position uses references rs)
unfolding release
release-ResultsAreTrue M position uses [] rs h = returns h
release-ResultsAreTrue M position uses (r ∷ rest) rs h =
    Ensures-bind (any (expect (get_elem? uses r))) λ use_of _.
      Ensures-bind
        (Ensures-if (is_use use_of position) (λ _. set_at-ResultsAreTrue M r rs h) (λ _. returns h))
        λ rs' h'. release-ResultsAreTrue M position uses rest rs' h'

append-ResultsAreTrue :
    (M : Structure) (rs : Results) (slot : Option CheckedStep)
    → ResultsAreTrue M rs
    → SlotIsTrue M slot
    → ResultsAreTrue M (rs ++ slot ∷ [])
append-ResultsAreTrue M [] slot h k = (k, tt)
append-ResultsAreTrue M (r ∷ rs) slot (h, hs) k = (h, append-ResultsAreTrue M rs slot hs k)

kept-SlotIsTrue :
    (M : Structure) (keep : Bool) (c : CheckedStep)
    → IsTrue M c.formula
    → SlotIsTrue M (if keep then some c else none)
kept-SlotIsTrue M true c h = h
kept-SlotIsTrue M false c h = tt

last-SlotIsTrue :
    (M : Structure) (rs : Results) (slot : Option CheckedStep)
    → ResultsAreTrue M rs
    → last rs ≡ some slot
    → SlotIsTrue M slot
last-SlotIsTrue M [] slot h e = cc
last-SlotIsTrue M (r ∷ []) slot h e = subst (SlotIsTrue M) (cc) h.0
last-SlotIsTrue M (r ∷ q ∷ rs) slot h e = last-SlotIsTrue M (q ∷ rs) slot h.1 e

conclude-IsTrue :
    (M : Structure) (final_step : ℕ) (s : State)
    → ResultsAreTrue M s.results
    → Ensures
        (λ (r : Formula × List ℕ × Option Identity). IsTrue M r.0 × (Formula.is_closed r.0 ≡ true))
        (conclude final_step s)
unfolding conclude
conclude-IsTrue M final_step s h =
    Ensures-bind (Ensures-expect (last s.results) (λ slot e. last-SlotIsTrue M s.results slot h e))
      λ slot k.
        Ensures-bind (Ensures-expect slot (λ c e. subst (SlotIsTrue M) e k)) λ (c : CheckedStep) hc.
          Ensures-bind (any (charge_formula_work final_step c.canonical_length s.remaining_work))
            λ _ _.
              Ensures-if (Formula.is_closed c.formula)
                (λ closed.
                  Ensures-bind (any (expect s.canonical_conclusion))
                    λ bytes _. returns (hc, closed))
                (λ _. throws)

module _ (M : Structure) (cited : ZfcAxiom → Bool) (model : IsModel M cited) {D : Type 0}
    (view : ContextView D) (sound : IsSoundView M view) (sha256 : List ℕ → List ℕ)
    (mode : IdentityMode) where
  check_step-ResultsAreTrue :
      (final_step : ℕ) (uses : LastUses) (position : ℕ) (step : ProofStep D) (s : State)
      → IsStepOf cited step
      → ResultsAreTrue M s.results
      → Ensures
          (λ (s : State). ResultsAreTrue M s.results)
          (check_step sha256 mode view final_step uses position step s)
  unfolding check_step
  check_step-ResultsAreTrue final_step uses position step s ha h =
      Ensures-bind
        (derive_step-DerivesTruth M cited model view sound position step s.results uses
          s.remaining_work ha h)
        λ (d, results, work) (hd, hr).
          Ensures-bind (any (step_inputs (local_references step) s.derivation_ids)) λ inputs _.
            Ensures-bind (release-ResultsAreTrue M position uses (local_references step) results hr)
              λ results' hr'.
                Ensures-bind (any (canonical_bytes mode position (position == final_step) d))
                  λ canonical _.
                    Ensures-bind (any (charge_result position d.precharged_length canonical work))
                      λ (canonical_length, left) _.
                        Ensures-bind
                          (any (push_identity sha256 step d canonical inputs s.derivation_ids))
                          λ ids _. Ensures-bind (any (expect (get_elem? uses position))) λ use_of _.
                            returns (
                              append-ResultsAreTrue M results' _ hr' (
                                kept-SlotIsTrue M _
                                  (record {
                                    formula = d.formula;
                                    canonical_length = canonical_length;
                                  })
                                  hd))

  check_steps-ResultsAreTrue :
      (final_step : ℕ) (uses : LastUses) (position : ℕ) (steps : List (ProofStep D)) (s : State)
      → All (IsStepOf cited) steps
      → ResultsAreTrue M s.results
      → Ensures
          (λ (s : State). ResultsAreTrue M s.results)
          (check_steps sha256 mode view final_step uses position steps s)
  unfolding check_steps
  check_steps-ResultsAreTrue final_step uses position [] s ha h = returns h
  check_steps-ResultsAreTrue final_step uses position (step ∷ steps) s (ha, has) h =
      Ensures-bind (check_step-ResultsAreTrue final_step uses position step s ha h)
        λ s' h'. check_steps-ResultsAreTrue final_step uses (position + 1) steps s' has h'

  -- Take any structure that models both schemas and the fixed axioms that the steps use, any view
  -- whose expansions are well scoped and whose registered formulas are well scoped and true in the
  -- structure, and steps whose formulas are well scoped. If the checker accepts the steps, then the
  -- conclusion is true in the structure, has no dangling index, and is closed.
  pub check_with_diagnostic_query-Valid :
      (steps : List (ProofStep D)) (f : Formula) (bytes : List ℕ) (id : Option Identity)
      → All (IsStepOf cited) steps
      → check_with_diagnostic_query sha256 steps view mode ≡ ok (f, bytes, id)
      → IsFormula f × Valid M f × (Formula.is_closed f ≡ true)
  unfolding check_with_diagnostic_query
  check_with_diagnostic_query-Valid steps f bytes id ha e =
      let accepted =
        Ensures-ok
          (Ensures-bind (any (last_uses steps)) λ uses _.
            Ensures-bind (check_steps-ResultsAreTrue (length steps - 1) uses 0 steps _ ha tt)
              λ s h. conclude-IsTrue M (length steps - 1) s h)
          e in
      (accepted.0.0, accepted.0.1, accepted.1)
