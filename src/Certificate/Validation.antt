-- ===== src/Certificate/Validation.antt =====
-- naome-proof/src/lib.rs: what `validate_steps` accepts.
use naome.Prelude.{ℕ, ◌+◌, ◌<◌, ◌≤◌, ◌≡◌, refl, ◌↔◌, List, [], ◌∷◌, arith, length, All}
use naome.Prelude.Result.{ok, >>=-eq-ok}
use naome.Certificate.{
  ProofStep, validate_reference, validate_references, validate_step_references, validate_steps_from,
  validate_steps, local_references,
}

validate_reference_iff :
    (step reference : ℕ) → (validate_reference step reference ≡ ok tt) ↔ (reference < step)
unfolding validate_reference
validate_reference_iff step reference = ground arith

validate_references_iff :
    (position : ℕ) (references : List ℕ)
    → (validate_references position references ≡ ok tt) ↔ All (λ r. r < position) references
unfolding validate_references
validate_references_iff position [] = (λ _. tt, λ _. refl)
validate_references_iff position (r ∷ rs) = (
  λ e.
      let (_, first, others) = >>=-eq-ok (validate_reference position r) _ e in
      ((validate_reference_iff position r).0 first, (validate_references_iff position rs).0 others),
  λ (h, hs).
      rw ((validate_reference_iff position r).1 h) ((validate_references_iff position rs).1 hs),
)

-- every reference of every step is to an earlier step, the first step having the given position
abbrev pub IsAcyclic : {D : Type 0} → ℕ → List (ProofStep D) → Type 0
IsAcyclic position [] = Unit
IsAcyclic position (step ∷ steps) =
    All (λ r. r < position) (local_references step) × IsAcyclic (position + 1) steps

module _ {D : Type 0} where
  pub validate_steps_from_iff :
      (position : ℕ) (steps : List (ProofStep D))
      → (validate_steps_from position steps ≡ ok tt) ↔ IsAcyclic position steps
  unfolding validate_steps_from validate_step_references
  validate_steps_from_iff position [] = (λ _. tt, λ _. refl)
  validate_steps_from_iff position (s ∷ ss) = (
    λ e.
        let (_, first, others) =
          >>=-eq-ok (validate_references position (local_references s)) _ e in
        (
          (validate_references_iff position (local_references s)).0 first,
          (validate_steps_from_iff (position + 1) ss).0 others,
        ),
    λ (h, hs).
        rw ((validate_references_iff position (local_references s)).1 h)
          ((validate_steps_from_iff (position + 1) ss).1 hs),
  )

  -- `validate_steps` accepts exactly the sequences of 1 to 65,536 steps in which every step refers
  -- to earlier steps only.
  pub validate_steps_iff :
      (steps : List (ProofStep D))
      → (validate_steps steps ≡ ok tt)
        ↔ ((0 < length steps) × (length steps ≤ 65536) × IsAcyclic 0 steps)
  unfolding validate_steps
  validate_steps_iff [] = ground arith
  validate_steps_iff (s ∷ ss) = ground (arith, validate_steps_from_iff 0 (s ∷ ss))
