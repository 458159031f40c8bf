-- ===== src/ArtifactState/Invariant.antt =====
-- naome-checker/src/state.rs: the links between the maps of a state, which every operation keeps.
use naome.Prelude.{◌⊎◌, ℕ, ◌≡◌, inl, inr, refl, sym, subst, Option, none, some, List, Option-cases}
use naome.Prelude.Result.{ok, err}
use naome.Certificate.{ProofId}
use naome.Checker.{Identity, ProofHeader}
use naome.PersistentMap
use naome.PersistentMap.{PersistentMap}
use naome.PersistentMap.Keys.{IsKey}
use naome.PersistentMap.Invariant.{IsMap}
use naome.PersistentMap.Extension.{IsExtension}
use naome.ArtifactState
use naome.ArtifactState.{
  ArtifactState, KnowledgeIndex, CheckedProof, CheckedDefinition, DefinitionCertificate,
  StoredStatement, resolve_proof, header_of,
}
use naome.ArtifactState.Registration.{panicked}
use naome.ArtifactState.Projections.{projections}
use naome.ArtifactState.ProjectionKeys.{IsDigest}
use naome.ArtifactState.Index.{Binds, IsIndex, insert_or_panic-IsExtension, index_proof-IsIndex}
use naome.ArtifactState.Register.{store_proof, store_alias}

-- The identities of a checked value are 32 bytes.
pub record HasKeys (p : CheckedProof) : Type 0 where
  pub statement : IsKey p.statement_id
  pub derivation : IsKey p.derivation_id
  pub proof : IsKey p.proof_id

module _ (sha256 : List ℕ → List ℕ) where
  -- The maps are well-formed, a registered proof has a registered derivation, that has a stored
  -- statement, and a stored statement has a witness.
  pub record IsState (s : ArtifactState) : Type 0 where
    pub proofs : IsMap sha256 s.proofs
    pub derivations : IsMap sha256 s.derivations
    pub statements : IsMap sha256 s.statements
    pub definitions : IsMap sha256 s.definitions
    pub index : IsIndex sha256 s.question_index
    pub derived :
        (id : ProofId) (d : Identity)
        → PersistentMap.get s.proofs id ≡ some d
        → Binds s.derivations d
    pub stated :
        (d st : Identity) → PersistentMap.get s.derivations d ≡ some st → Binds s.statements st
    pub witnessed : (st : Identity) → Binds s.statements st → Binds s.question_index.witnesses st

  pub new-IsState : IsState ArtifactState.new
  unfolding IsMap PersistentMap.get
  new-IsState = record {
    proofs = tt;
    derivations = tt;
    statements = tt;
    definitions = tt;
    index = record {
      artifacts = tt;
      witnesses = tt;
      outgoing = (tt, λ k b q. cc);
      deductions = (tt, λ k b q. cc);
      instances = (tt, λ k b q. cc);
    };
    derived = λ id d q. cc;
    stated = λ d st q. cc;
    witnessed = λ st (v, q). cc;
  }

  -- `store_proof` succeeds on a well-formed state, and leaves one with the proof's bindings added.
  pub record IsStored (s : ArtifactState) (p : CheckedProof) (after : ArtifactState) : Type 0 where
    pub proofs : IsExtension s.proofs p.proof_id p.derivation_id after.proofs
    pub derivations : IsExtension s.derivations p.derivation_id p.statement_id after.derivations
    pub statements :
        IsExtension s.statements p.statement_id
          (record { conclusion = p.conclusion; canonical_length = p.canonical_conclusion_length })
          after.statements
    pub definitions : after.definitions ≡ s.definitions

  pub store_proof-IsState :
      IsDigest sha256
      → (s : ArtifactState) (p : CheckedProof) → IsState s
      → HasKeys p
      → ((after : ArtifactState) × (store_proof sha256 s p ≡ ok after)
          × IsState after
          × IsStored s p after)
        ⊎ ((store_proof sha256 s p ≡ err panicked)
            × (projections sha256 p.conclusion ≡ err ArtifactState.panicked))
  unfolding store_proof
  store_proof-IsState digest s p h keys =
      elim (index_proof-IsIndex sha256 digest s.question_index p.proof_id p.statement_id
        p.conclusion h.index keys.statement) [
          | inr (r₁, q) ↦ inr (rw r₁ refl, q)
          | inl (index, r₁, hi, witnesses, witness) ↦
              let (statements, r₂, hs, es) =
                insert_or_panic-IsExtension sha256 s.statements p.statement_id
                  (record {
                    conclusion = p.conclusion;
                    canonical_length = p.canonical_conclusion_length;
                  })
                  h.statements keys.statement in
              let (derivations, r₃, hd, ed) =
                insert_or_panic-IsExtension sha256 s.derivations p.derivation_id p.statement_id
                  h.derivations keys.derivation in
              let (proofs, r₄, hp, ep) =
                insert_or_panic-IsExtension sha256 s.proofs p.proof_id p.derivation_id h.proofs
                  keys.proof in
              let after : ArtifactState = record {
                proofs = proofs;
                derivations = derivations;
                statements = statements;
                definitions = s.definitions;
                question_index = index;
              } in
              inl (
                after,
                rw (r₁, r₂, r₃, r₄) refl,
                record {
                  proofs = hp;
                  derivations = hd;
                  statements = hs;
                  definitions = h.definitions;
                  index = hi;
                  derived = λ id d q. elim (ep.only id d q) [
                    | inl old ↦ let (v, e) = h.derived id d old in (v, ed.kept d v e)
                    | inr (_, _, e) ↦ subst (Binds derivations) (sym e) ed.present
                  ];
                  stated = λ d st q. elim (ed.only d st q) [
                    | inl old ↦ let (v, e) = h.stated d st old in (v, es.kept st v e)
                    | inr (_, _, e) ↦ subst (Binds statements) (sym e) es.present
                  ];
                  witnessed = λ st (v, q). elim (es.only st v q) [
                    | inl old ↦ witnesses st (h.witnessed st (v, old))
                    | inr (_, e, _) ↦ subst (Binds index.witnesses) (sym e) witness
                  ];
                },
                record { proofs = ep; derivations = ed; statements = es; definitions = refl },
              )
        ]

  pub store_alias-IsState :
      IsDigest sha256
      → (s : ArtifactState) (p : CheckedProof) → IsState s
      → HasKeys p
      → Binds s.derivations p.derivation_id
      → ((after : ArtifactState) × (store_alias sha256 s p ≡ ok after)
          × IsState after
          × (after.statements ≡ s.statements)
          × (after.definitions ≡ s.definitions))
        ⊎ ((store_alias sha256 s p ≡ err panicked)
            × (projections sha256 p.conclusion ≡ err ArtifactState.panicked))
  unfolding store_alias
  store_alias-IsState digest s p h keys known =
      elim (index_proof-IsIndex sha256 digest s.question_index p.proof_id p.statement_id
        p.conclusion h.index keys.statement) [
          | inr (r₁, q) ↦ inr (rw r₁ refl, q)
          | inl (index, r₁, hi, witnesses, witness) ↦
              let (proofs, r₂, hp, ep) =
                insert_or_panic-IsExtension sha256 s.proofs p.proof_id p.derivation_id h.proofs
                  keys.proof in
              let after : ArtifactState = record s { proofs = proofs; question_index = index } in
              inl (
                after,
                rw (r₁, r₂) refl,
                record {
                  proofs = hp;
                  derivations = h.derivations;
                  statements = h.statements;
                  definitions = h.definitions;
                  index = hi;
                  derived = λ id d q. elim (ep.only id d q) [
                    | inl old ↦ h.derived id d old
                    | inr (_, _, e) ↦ subst (Binds s.derivations) (sym e) known
                  ];
                  stated = h.stated;
                  witnessed = λ st b. witnesses st (h.witnessed st b);
                },
                refl,
                refl,
              )
        ]

  -- On a well-formed state the `expect` calls of `resolve_proof` do not fail.
  pub resolve_proof-IsState :
      (s : ArtifactState) (id : ProofId)
      → IsState s
      → (r : Option ProofHeader) × (resolve_proof s id ≡ ok r)
  unfolding resolve_proof header_of
  resolve_proof-IsState s id h = elim (Option-cases (PersistentMap.get s.proofs id)) [
    | inl q ↦ (none, rw q refl)
    | inr (d, q) ↦
        let (st, q') = h.derived id d q in
        let (x, q'') = h.stated d st q' in
        (
          some (record {
            location = none;
            derivation = d;
            statement = st;
            length = x.canonical_length;
          }),
          rw (q, q', q'') refl,
        )
  ]
