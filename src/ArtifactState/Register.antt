-- ===== src/ArtifactState/Register.antt =====
-- naome-checker/src/state.rs, context.rs and question/index.rs: the views of the state and the
-- operations that change it. The `debug_assert!` calls are left out, and the canonical bytes that a
-- registration returns.
use naome.Prelude.{ℕ, Bool, true, false, Option, none, some, List, [], ◌∷◌, if◌then◌else◌}
use naome.Prelude.Result.{Result, ok, err, map_err, ◌>>=◌, ◌>>◌}
use naome.Formula.{Formula}
use naome.Certificate.{ProofId}
use naome.Checker
use naome.Checker.{Identity, ViewFailure, view_panicked, ContextError, ContextView, ProofHeader}
use naome.Defined
use naome.Defined.{DefinedFormula}
use naome.Identity.{from_proof_id, from_definition_id}
use naome.PersistentMap
use naome.PersistentMap.{PersistentMap}
use naome.PersistentMap.Keys.{less_bytes}
use naome.ArtifactState.{
  ArtifactState, Buckets, KnowledgeIndex, CheckedProof, CheckedDefinition, Panic, resolve_proof,
  statement_formula, resolve_definition,
}
use naome.ArtifactState.Projections.{
  Panics, Projection, outgoing, deductions, instances, projections,
}
use naome.ArtifactState.Registration
use naome.ArtifactState.Registration.{
  ArtifactStateError, RegistrationView, Access, Outcome, Failure, refused, panicked, validate,
  validate_definition,
}

-- a panic inside a view
abbrev pub panicking : {A : Type 0} → Result Panic A → Result ViewFailure A
panicking (ok a) = ok a
panicking (err panic) = err view_panicked

abbrev is_present : {A : Type 0} → Option A → Bool
is_present none = false
is_present (some a) = true

-- `RegistrationView` for `ArtifactState`
unfoldable pub registration_view : ArtifactState → RegistrationView
unfolding resolve_proof statement_formula PersistentMap.get
registration_view s = record {
  proof_header = λ id. panicking (resolve_proof s id);
  has_proof = λ id. ok (is_present (PersistentMap.get s.proofs id));
  derivation_statement = λ id. ok (PersistentMap.get s.derivations id);
  statement_formula = statement_formula s;
  definition_certificate = λ id. ok (PersistentMap.get s.definitions id);
}

unfoldable pub expansion :
    ArtifactState → DefinedFormula → ℕ → Result Checker.DefinitionExpansionError Formula
unfolding resolve_definition Defined.expand_with_node_limit
expansion s d limit = do
  (f, _) ← Defined.expand_with_node_limit (resolve_definition s) d limit
  ok f

-- `ContextView` for `ArtifactState`
unfoldable pub context_view : ArtifactState → ContextView DefinedFormula
unfolding expansion resolve_proof statement_formula
context_view s = record {
  expand_with_node_limit = expansion s;
  proof_header = λ id. panicking (resolve_proof s id);
  proof_formula = λ header maximum. statement_formula s header.statement maximum;
}

abbrev pub expect : {A : Type 0} → Option A → Outcome A
expect (some a) = ok a
expect none = err panicked

abbrev pub bucket_or_empty : Option (PersistentMap (Unit {0})) → PersistentMap (Unit {0})
bucket_or_empty none = none
bucket_or_empty (some bucket) = bucket

unfoldable pub projected : {A : Type 0} → Panics A → Outcome A
projected (ok a) = ok a
projected (err panic) = err panicked

module _ (sha256 : List ℕ → List ℕ) where
  unfoldable pub insert_or_panic :
      {V : Type 0} → PersistentMap V → List ℕ → V → Outcome (PersistentMap V)
  unfolding PersistentMap.insert
  insert_or_panic m key value = do
    (m, inserted) ← expect (PersistentMap.insert sha256 m key value)
    ok m

  -- `insert` of index.rs
  unfoldable pub insert_bucket : Buckets → Identity → Identity → Outcome Buckets
  unfolding PersistentMap.get PersistentMap.insert PersistentMap.set
  insert_bucket buckets key statement = do
    (bucket, inserted) ←
        expect (
          PersistentMap.insert sha256 (bucket_or_empty (PersistentMap.get buckets key)) statement
            tt)
    expect (PersistentMap.set sha256 buckets key bucket)

  unfoldable pub add_projection : KnowledgeIndex → Projection → Identity → Outcome KnowledgeIndex
  unfolding insert_bucket
  add_projection index (outgoing, key) statement = do
    buckets ← insert_bucket index.outgoing key statement
    ok (record index { outgoing = buckets })
  add_projection index (deductions, key) statement = do
    buckets ← insert_bucket index.deductions key statement
    ok (record index { deductions = buckets })
  add_projection index (instances, key) statement = do
    buckets ← insert_bucket index.instances key statement
    ok (record index { instances = buckets })

  -- the loop over the projections
  unfoldable pub add_projections :
      List Projection → KnowledgeIndex → Identity → Outcome KnowledgeIndex
  unfolding add_projection
  add_projections [] index statement = ok index
  add_projections (p ∷ ps) index statement = do
    index ← add_projection index p statement
    add_projections ps index statement

  -- `register_proof` of the index, for the witness that the statement has
  unfoldable pub index_statement :
      KnowledgeIndex → ProofId → Identity → Formula → Option ProofId → Outcome KnowledgeIndex
  unfolding insert_or_panic PersistentMap.set less_bytes projections projected add_projections
  index_statement index proof statement formula (some existing) =
      if less_bytes proof existing
      then (do
        witnesses ← expect (PersistentMap.set sha256 index.witnesses statement proof)
        ok (record index { witnesses = witnesses }))
      else ok index
  index_statement index proof statement formula none = do
    witnesses ← insert_or_panic index.witnesses statement proof
    found ← projected (projections sha256 formula)
    add_projections found (record index { witnesses = witnesses }) statement

  unfoldable pub index_proof :
      KnowledgeIndex → ProofId → Identity → Formula → Outcome KnowledgeIndex
  unfolding insert_or_panic index_statement from_proof_id PersistentMap.get
  index_proof index proof statement formula = do
    artifacts ← insert_or_panic index.artifacts (from_proof_id sha256 proof) tt
    index_statement (record index { artifacts = artifacts }) proof statement formula
        (PersistentMap.get index.witnesses statement)

  unfoldable pub index_definition : KnowledgeIndex → Identity → Outcome KnowledgeIndex
  unfolding insert_or_panic from_definition_id
  index_definition index definition = do
    artifacts ← insert_or_panic index.artifacts (from_definition_id sha256 definition) tt
    ok (record index { artifacts = artifacts })

  -- `register_proof` after its checks
  unfoldable pub store_proof : ArtifactState → CheckedProof → Outcome ArtifactState
  unfolding index_proof insert_or_panic
  store_proof s p = do
    index ← index_proof s.question_index p.proof_id p.statement_id p.conclusion
    statements ←
        insert_or_panic s.statements p.statement_id
          (record { conclusion = p.conclusion; canonical_length = p.canonical_conclusion_length })
    derivations ← insert_or_panic s.derivations p.derivation_id p.statement_id
    proofs ← insert_or_panic s.proofs p.proof_id p.derivation_id
    ok (record {
      proofs = proofs;
      derivations = derivations;
      statements = statements;
      definitions = s.definitions;
      question_index = index;
    })

  unfoldable pub register_proof : ArtifactState → CheckedProof → Outcome ArtifactState
  unfolding validate registration_view store_proof
  register_proof s p = do validate (registration_view s) p false; store_proof s p

  -- `register_proof_for_replication` for a derivation that another proof has
  unfoldable pub store_alias : ArtifactState → CheckedProof → Outcome ArtifactState
  unfolding index_proof insert_or_panic
  store_alias s p = do
    index ← index_proof s.question_index p.proof_id p.statement_id p.conclusion
    proofs ← insert_or_panic s.proofs p.proof_id p.derivation_id
    ok (record s { proofs = proofs; question_index = index })

  unfoldable pub replicate :
      ArtifactState → CheckedProof → Outcome (Unit {0}) → Outcome ArtifactState
  unfolding store_alias register_proof
  replicate s p (err (refused (Registration.duplicate_derivation id))) = store_alias s p
  replicate s p (err e) = err e
  replicate s p (ok _) = register_proof s p

  unfoldable pub register_proof_for_replication :
      ArtifactState → CheckedProof → Outcome ArtifactState
  unfolding replicate validate registration_view
  register_proof_for_replication s p = replicate s p (validate (registration_view s) p false)

  unfoldable pub register_definition : ArtifactState → CheckedDefinition → Outcome ArtifactState
  unfolding validate_definition registration_view index_definition insert_or_panic
  register_definition s d = do
    map_err refused (validate_definition (registration_view s) d)
    index ← index_definition s.question_index d.definition_id
    definitions ← insert_or_panic s.definitions d.definition_id d.certificate
    ok (record s { definitions = definitions; question_index = index })
