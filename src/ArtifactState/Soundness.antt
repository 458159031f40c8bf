-- ===== src/ArtifactState/Soundness.antt =====
-- naome-checker/src/state.rs and lib.rs: the states that registrations of checked proofs reach, and
-- truth in structures.
use naome.Prelude.{
  ℕ, ◌≡◌, inl, inr, refl, sym, ap, subst, Bool, Option, none, some, List, All, Bool-cases,
  Option-cases, ltb,
}
use naome.Prelude.Result.{ok, returns, Ensures-bind, >>=-eq-ok, ok-injective}
use naome.Formula.{Formula}
use naome.Formula.Scope.{IsFormula}
use naome.Zfc.Axioms.{ZfcAxiom}
use naome.Certificate.{ProofId}
use naome.Checker
use naome.Checker.{Identity, ProofHeader}
use naome.Checker.Run
use naome.Checker.Truth.{IsStepOf, IsSoundView}
use naome.Checker.Soundness.{check_with_diagnostic_query-Valid}
use naome.Semantics.{Structure, Valid}
use naome.Semantics.Model.{IsModel}
use naome.Defined.Primitive.{expand_with_node_limit-IsFormula}
use naome.Identity.{of_canonical_formula, of_canonical_certificate}
use naome.PersistentMap
use naome.PersistentMap.Keys.{IsKey}
use naome.ArtifactState
use naome.ArtifactState.{
  ArtifactState, CheckedProof, CheckedDefinition, StoredStatement, statement_formula,
  known_statement, resolve_statement, formula_within,
}
use naome.ArtifactState.Register.{
  context_view, expansion, register_proof, register_proof_for_replication, register_definition,
}
use naome.ArtifactState.Check.{ProofNormalForm, check_normal_form_with_state}
use naome.ArtifactState.Invariant.{HasKeys, IsState, new-IsState}
use naome.ArtifactState.ProjectionKeys.{IsDigest}
use naome.ArtifactState.Transitions.{
  Leaves, Concludes, register_proof-Leaves, replicate-Leaves, register_definition-outcomes,
}

-- Every stored conclusion is a formula that holds in the structure.
abbrev pub StatementsHold : Structure → ArtifactState → Type 0
StatementsHold M s =
    (st : Identity) (x : StoredStatement)
    → PersistentMap.get s.statements st ≡ some x
    → IsFormula x.conclusion × Valid M x.conclusion

formula_within-some :
    (k : Option (ProofId × Formula × ℕ)) (maximum : ℕ) (r : Option Formula) (f : Formula)
    → formula_within k maximum r ≡ ok (some f)
    → r ≡ some f
unfolding formula_within
formula_within-some none maximum r f q = absurd (cc)
formula_within-some (some (w, c, l)) maximum r f q = elim (Bool-cases (ltb maximum l)) [
  | inl e ↦ absurd (let q' = rw e at q in cc)
  | inr e ↦ ok-injective (rw e at q)
]

pub statement_formula-stored :
    (s : ArtifactState) (st : Identity) (maximum : ℕ) (f : Formula)
    → statement_formula s st maximum ≡ ok (some f)
    → (x : StoredStatement) × (PersistentMap.get s.statements st ≡ some x) × (f ≡ x.conclusion)
unfolding statement_formula resolve_statement
statement_formula-stored s st maximum f q =
    elim (Option-cases (PersistentMap.get s.statements st)) [
      | inl e ↦
          let found : none ≡ some f = rw e at (formula_within-some _ maximum _ f q) in absurd (cc)
      | inr (x, e) ↦
          let found : some x.conclusion ≡ some f = rw e at (formula_within-some _ maximum _ f q) in
          (x, e, cc)
    ]

pub context_view-IsSoundView :
    (M : Structure) (s : ArtifactState) → StatementsHold M s → IsSoundView M (context_view s)
unfolding context_view expansion
context_view-IsSoundView M s h = record {
  expansion = λ d limit.
      Ensures-bind (expand_with_node_limit-IsFormula (ArtifactState.resolve_definition s) d limit)
        λ (f, _) hf. returns hf;
  registered = λ id header maximum f _ q.
      let (x, e, same) = statement_formula-stored s header.statement maximum f q in
      let (hf, hv) = h header.statement x e in
      (subst IsFormula (sym same) hf, subst (Valid M) (sym same) hv);
}

-- The steps of the program on a state. A proof may have been checked in another reachable state. The
-- identities of a checked value are 32 bytes, as their types say.
pub data Reachable (sha256 : List ℕ → List ℕ) (cited : ZfcAxiom → Bool)
    : ArtifactState → Type 0 where
  start : Reachable sha256 cited ArtifactState.new
  registers :
      {checked_in s after : ArtifactState} (n : ProofNormalForm) (p : CheckedProof)
      → Reachable sha256 cited checked_in
      → Reachable sha256 cited s
      → All (IsStepOf cited) n.steps
      → HasKeys p
      → check_normal_form_with_state sha256 n checked_in ≡ ok p
      → register_proof sha256 s p ≡ ok after
      → Reachable sha256 cited after
  replicates :
      {checked_in s after : ArtifactState} (n : ProofNormalForm) (p : CheckedProof)
      → Reachable sha256 cited checked_in
      → Reachable sha256 cited s
      → All (IsStepOf cited) n.steps
      → HasKeys p
      → check_normal_form_with_state sha256 n checked_in ≡ ok p
      → register_proof_for_replication sha256 s p ≡ ok after
      → Reachable sha256 cited after
  defines :
      {s after : ArtifactState} (d : CheckedDefinition)
      → Reachable sha256 cited s
      → IsKey d.definition_id
      → register_definition sha256 s d ≡ ok after
      → Reachable sha256 cited after

module _ (sha256 : List ℕ → List ℕ) (digest : IsDigest sha256) (cited : ZfcAxiom → Bool) where
  definition-Leaves :
      (s : ArtifactState) (d : CheckedDefinition) (after : ArtifactState)
      → IsState sha256 s
      → IsKey d.definition_id
      → register_definition sha256 s d ≡ ok after
      → IsState sha256 after × (after.statements ≡ s.statements)
  definition-Leaves s d after h hkey run =
      elim (register_definition-outcomes sha256 digest s d h hkey) [
        | inl (e, _, q) ↦ absurd (cc)
        | inr (after', q, kept, same, _) ↦
            subst (λ a. IsState sha256 a × (a.statements ≡ s.statements)) (cc) (kept, same)
      ]

  -- Every reachable state is well-formed.
  pub Reachable-IsState : {s : ArtifactState} → Reachable sha256 cited s → IsState sha256 s
  unfolding register_proof_for_replication
  Reachable-IsState start = new-IsState sha256
  Reachable-IsState (registers {s = s} {after} n p _ reached _ keys _ run) =
      (register_proof-Leaves sha256 digest s p after (Reachable-IsState reached) keys run).kept
  Reachable-IsState (replicates {s = s} {after} n p _ reached _ keys _ run) =
      (replicate-Leaves sha256 digest s p after _ (Reachable-IsState reached) keys refl run).kept
  Reachable-IsState (defines {s = s} {after = after} d reached hkey run) =
      (definition-Leaves s d after (Reachable-IsState reached) hkey run).0

  module _ (M : Structure) (model : IsModel M cited) where
    check-Valid :
        (s : ArtifactState) (n : ProofNormalForm) (p : CheckedProof)
        → StatementsHold M s
        → All (IsStepOf cited) n.steps
        → check_normal_form_with_state sha256 n s ≡ ok p
        → IsFormula p.conclusion × Valid M p.conclusion
    unfolding check_normal_form_with_state
    check-Valid s n p h steps q =
        let ((f, bytes, id), run, q₁) =
          >>=-eq-ok (Run.check_with_diagnostic_query sha256 n.steps (context_view s) Run.derive) _
            q in
        let (hf, hv, _) =
          check_with_diagnostic_query-Valid M cited model (context_view s)
            (context_view-IsSoundView M s h) sha256 Run.derive n.steps f bytes id steps run in
        let (d, _, q₂) = >>=-eq-ok (Checker.expect id) _ q₁ in
        let (st, _, q₃) = >>=-eq-ok (Checker.expect (of_canonical_formula sha256 bytes)) _ q₂ in
        let (pid, _, q₄) =
          >>=-eq-ok (Checker.expect (of_canonical_certificate sha256 st n.canonical_bytes)) _ q₃ in
        let same : f ≡ p.conclusion = ap (λ (p : CheckedProof). p.conclusion) (ok-injective q₄) in
        (subst IsFormula same hf, subst (Valid M) same hv)

    StatementsHold-step :
        (s : ArtifactState) (p : CheckedProof) (after : ArtifactState)
        → StatementsHold M s
        → IsFormula p.conclusion × Valid M p.conclusion
        → Leaves sha256 digest s after (Concludes sha256 digest p)
        → StatementsHold M after
    StatementsHold-step s p after h (hf, hv) leaves st x q = elim (leaves.statements st x q) [
      | inl old ↦ h st x old
      | inr (_, e) ↦ (subst IsFormula (sym e) hf, subst (Valid M) (sym e) hv)
    ]

    -- Every stored conclusion of a reachable state is a formula that holds in every model.
    pub Reachable-StatementsHold :
        {s : ArtifactState} → Reachable sha256 cited s → StatementsHold M s
    unfolding register_proof_for_replication PersistentMap.get
    Reachable-StatementsHold start st x q = cc
    Reachable-StatementsHold
          (registers {checked_in = c} {s = s} {after = after} n p before reached steps keys run q)
          st x found =
        StatementsHold-step s p after (Reachable-StatementsHold reached)
          (check-Valid c n p (Reachable-StatementsHold before) steps run)
          (register_proof-Leaves sha256 digest s p after (Reachable-IsState reached) keys q) st x
          found
    Reachable-StatementsHold
          (replicates {checked_in = c} {s = s} {after = after} n p before reached steps keys run q)
          st x found =
        StatementsHold-step s p after (Reachable-StatementsHold reached)
          (check-Valid c n p (Reachable-StatementsHold before) steps run)
          (replicate-Leaves sha256 digest s p after _ (Reachable-IsState reached) keys refl q) st x
          found
    Reachable-StatementsHold (defines {s = s} {after = after} d reached hkey run) st x q =
        let (_, same) = definition-Leaves s d after (Reachable-IsState reached) hkey run in
        Reachable-StatementsHold reached st x (subst (λ m. PersistentMap.get m st ≡ some x) same q)

    -- The view that a reachable state gives the checker serves formulas that hold in every model.
    pub Reachable-IsSoundView :
        (s : ArtifactState) → Reachable sha256 cited s → IsSoundView M (context_view s)
    Reachable-IsSoundView s reached =
        context_view-IsSoundView M s (Reachable-StatementsHold reached)
