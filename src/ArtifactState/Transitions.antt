-- ===== src/ArtifactState/Transitions.antt =====
-- naome-checker/src/state.rs: the outcomes of the registrations on a well-formed state.
use naome.Prelude.{ℕ, ◌≡◌, ◌⊎◌, inl, inr, refl, ap, ◌∙◌, subst, false, none, some, List}
use naome.Prelude.Result.{Result-cases, ok, err, map_err}
use naome.Checker.{Identity}
use naome.Identity.{from_definition_id}
use naome.PersistentMap
use naome.PersistentMap.Keys.{IsKey}
use naome.PersistentMap.Extension.{IsExtension}
use naome.ArtifactState
use naome.ArtifactState.{
  ArtifactState, CheckedProof, CheckedDefinition, StoredStatement, resolve_proof, header_of,
}
use naome.ArtifactState.Registration
use naome.ArtifactState.Registration.{
  ArtifactStateError, Outcome, refused, panicked, header_found, validate, validate_definition,
  duplicate_derivation,
}
use naome.ArtifactState.Register.{
  registration_view, register_proof, register_definition, index_definition, replicate,
}
use naome.ArtifactState.Invariant.{
  HasKeys, IsState, IsStored, store_proof-IsState, store_alias-IsState,
}
use naome.ArtifactState.ProjectionKeys.{IsDigest}
use naome.ArtifactState.Index.{with_artifacts, insert_or_panic-IsExtension}
use naome.ArtifactState.Projections.{projections}
use naome.ArtifactState.Admission.{
  IsNew, validate-eq-header_found, validate-IsNew, validate-duplicate_derivation,
}

module _ (sha256 : List ℕ → List ℕ) (digest : IsDigest sha256) where
  -- a proof that passed the checks, stored
  pub record IsRegistered (s : ArtifactState) (p : CheckedProof) (after : ArtifactState)
      : Type 0 where
    pub new : IsNew s p
    pub kept : IsState sha256 after
    pub stored : IsStored sha256 s p after

  -- On a well-formed state `register_proof` refuses exactly what the checks refuse, with their error.
  -- Otherwise it succeeds, or it panics, and it panics only if the projections of the conclusion for
  -- the index panic. If it succeeds, the proof and its derivation are new, and the state that it leaves
  -- is well-formed and has the bindings of the proof, all earlier ones, and no other.
  pub register_proof-outcomes :
      (s : ArtifactState) (p : CheckedProof)
      → IsState sha256 s
      → HasKeys p
      → ((e : ArtifactStateError) × (validate (registration_view s) p false ≡ err (refused e))
          × (register_proof sha256 s p ≡ err (refused e)))
        ⊎ ((after : ArtifactState) × (validate (registration_view s) p false ≡ ok tt)
            × (register_proof sha256 s p ≡ ok after)
            × IsRegistered s p after)
        ⊎ ((validate (registration_view s) p false ≡ ok tt)
            × (register_proof sha256 s p ≡ err panicked)
            × (projections sha256 p.conclusion ≡ err ArtifactState.panicked))
  unfolding register_proof
  register_proof-outcomes s p h keys =
      let (found, _, e) = validate-eq-header_found s p h in
      elim (Result-cases (header_found (registration_view s) p false found)) [
        | inr (f, q) ↦ let q' = e ∙ ap (map_err refused) q in inl (f, q', rw q' refl)
        | inl (tt, q) ↦
            let q' = e ∙ ap (map_err refused) q in
            elim (store_proof-IsState sha256 digest s p h keys) [
              | inr (run, f) ↦ inr (inr (q', rw q' run, f))
              | inl (after, run, kept, stored) ↦ inr (
                  inl (
                    after,
                    q',
                    rw q' run,
                    record { new = validate-IsNew s p h q'; kept = kept; stored = stored },
                  ))
            ]
      ]

  -- After a registration the proof's header has the proof's derivation and statement.
  pub resolve_proof-register_proof :
      (s : ArtifactState) (p : CheckedProof) (after : ArtifactState)
      → IsState sha256 s
      → HasKeys p
      → register_proof sha256 s p ≡ ok after
      → (x : StoredStatement) × (PersistentMap.get after.statements p.statement_id ≡ some x)
        × (resolve_proof after p.proof_id
            ≡ ok (
                some (record {
                  location = none;
                  derivation = p.derivation_id;
                  statement = p.statement_id;
                  length = x.canonical_length;
                })))
  unfolding resolve_proof header_of
  resolve_proof-register_proof s p after h keys run = elim (register_proof-outcomes s p h keys) [
    | inl (e, _, q) ↦ absurd (cc)
    | inr (inr (_, q, _)) ↦ absurd (cc)
    | inr (inl (after', _, q, done)) ↦
        let same : after' ≡ after = cc in
        subst
          (λ a.
            (x : StoredStatement) × (PersistentMap.get a.statements p.statement_id ≡ some x)
            × (header_of a (PersistentMap.get a.proofs p.proof_id)
                ≡ ok (
                    some (record {
                      location = none;
                      derivation = p.derivation_id;
                      statement = p.statement_id;
                      length = x.canonical_length;
                    }))))
          same
          (let (x, e) = done.stored.statements.present in
            (
              x,
              e,
              rw
                  (
                    done.stored.proofs.fresh done.new.proof,
                    done.stored.derivations.fresh done.new.derivation,
                    e,
                  )
                  refl,
            ))
  ]

  -- what a registration leaves, whatever it was
  pub record Leaves (s after : ArtifactState) (P : Identity → StoredStatement → Type 0)
      : Type 0 where
    pub kept : IsState sha256 after
    pub statements :
        (st : Identity) (x : StoredStatement)
        → PersistentMap.get after.statements st ≡ some x
        → (PersistentMap.get s.statements st ≡ some x) ⊎ P st x

  -- the statement that a proof adds
  abbrev pub Concludes : CheckedProof → Identity → StoredStatement → Type 0
  Concludes p st x = (st ≡ p.statement_id) × (x.conclusion ≡ p.conclusion)

  pub register_proof-Leaves :
      (s : ArtifactState) (p : CheckedProof) (after : ArtifactState)
      → IsState sha256 s
      → HasKeys p
      → register_proof sha256 s p ≡ ok after
      → Leaves s after (Concludes p)
  register_proof-Leaves s p after h keys run = elim (register_proof-outcomes s p h keys) [
    | inl (e, _, q) ↦ absurd (cc)
    | inr (inr (_, q, _)) ↦ absurd (cc)
    | inr (inl (after', _, q, done)) ↦
        subst (λ a. Leaves s a (Concludes p)) (cc)
          (record {
            kept = done.kept;
            statements = λ st x found. elim (done.stored.statements.only st x found) [
              | inl old ↦ inl old
              | inr (_, e, f) ↦ inr (e, ap (λ (x : StoredStatement). x.conclusion) f)
            ];
          })
  ]

  pub replicate-Leaves :
      (s : ArtifactState) (p : CheckedProof) (after : ArtifactState) (r : Outcome (Unit {0}))
      → IsState sha256 s
      → HasKeys p
      → validate (registration_view s) p false ≡ r
      → replicate sha256 s p r ≡ ok after
      → Leaves s after (Concludes p)
  unfolding replicate
  replicate-Leaves s p after (ok _) h keys q run = register_proof-Leaves s p after h keys run
  replicate-Leaves s p after (err (refused (duplicate_derivation id))) h keys q run =
      elim (store_alias-IsState sha256 digest s p h keys
        (validate-duplicate_derivation s p id h q)) [
          | inr (run', _) ↦ absurd (cc)
          | inl (after', run', kept, same, _) ↦
              subst (λ a. Leaves s a (Concludes p)) (cc)
                (record {
                  kept = kept;
                  statements =
                      λ st x found. inl (subst (λ m. PersistentMap.get m st ≡ some x) same found);
                })
        ]
  replicate-Leaves s p after (err (refused (Registration.context e))) h keys q run = absurd (cc)
  replicate-Leaves s p after (err (refused (Registration.duplicate_proof e))) h keys q run =
      absurd (cc)
  replicate-Leaves s p after (err (refused (Registration.proof_identity_collision e))) h keys q
        run =
      absurd (cc)
  replicate-Leaves s p after (err (refused (Registration.derivation_identity_collision e))) h keys q
        run =
      absurd (cc)
  replicate-Leaves s p after (err (refused (Registration.statement_identity_collision e))) h keys q
        run =
      absurd (cc)
  replicate-Leaves s p after (err (refused (Registration.duplicate_definition e))) h keys q run =
      absurd (cc)
  replicate-Leaves s p after (err (refused (Registration.definition_identity_collision e))) h keys q
        run =
      absurd (cc)
  replicate-Leaves s p after (err (refused (Registration.missing_proof_dependency e))) h keys q
        run =
      absurd (cc)
  replicate-Leaves s p after (err (refused (Registration.missing_definition_dependency e))) h keys q
        run =
      absurd (cc)
  replicate-Leaves s p after (err (refused (Registration.missing_definition_obligation e))) h keys q
        run =
      absurd (cc)
  replicate-Leaves s p after (err panicked) h keys q run = absurd (cc)

  pub register_definition-outcomes :
      (s : ArtifactState) (d : CheckedDefinition)
      → IsState sha256 s
      → IsKey d.definition_id
      → ((e : ArtifactStateError) × (validate_definition (registration_view s) d ≡ err e)
          × (register_definition sha256 s d ≡ err (refused e)))
        ⊎ ((after : ArtifactState) × (register_definition sha256 s d ≡ ok after)
            × IsState sha256 after
            × (after.statements ≡ s.statements)
            × IsExtension s.definitions d.definition_id d.certificate after.definitions)
  unfolding register_definition index_definition
  register_definition-outcomes s d h hkey =
      elim (Result-cases (validate_definition (registration_view s) d)) [
        | inr (e, q) ↦ inl (e, q, rw q refl)
        | inl (tt, q) ↦
            let (artifacts, r₁, ha, _) =
              insert_or_panic-IsExtension sha256 s.question_index.artifacts
                (from_definition_id sha256 d.definition_id) tt h.index.artifacts (digest _) in
            let (definitions, r₂, hd, extends) =
              insert_or_panic-IsExtension sha256 s.definitions d.definition_id d.certificate
                h.definitions hkey in
            inr (
              record s {
                definitions = definitions;
                question_index = record (s.question_index) { artifacts = artifacts };
              },
              rw (q, r₁, r₂) refl,
              record {
                proofs = h.proofs;
                derivations = h.derivations;
                statements = h.statements;
                definitions = hd;
                index = with_artifacts sha256 s.question_index artifacts h.index ha;
                derived = h.derived;
                stated = h.stated;
                witnessed = h.witnessed;
              },
              refl,
              extends,
            )
      ]
