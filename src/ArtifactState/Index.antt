-- ===== src/ArtifactState/Index.antt =====
-- naome-checker/src/question/index.rs: the operations of the index on well-formed maps.
use naome.Prelude.{
  ℕ, ◌≡◌, ◌⊎◌, inl, inr, refl, sym, subst, ◌∙◌, none, some, List, [], ◌∷◌, Bool-cases, Option-cases,
}
use naome.ArtifactState.Registration
use naome.Prelude.Result.{Result-cases, ok, err, Ensures-ok}
use naome.Formula.{Formula}
use naome.Certificate.{ProofId}
use naome.Checker.{Identity}
use naome.Identity.{from_proof_id}
use naome.PersistentMap
use naome.PersistentMap.{PersistentMap}
use naome.PersistentMap.Keys.{Key, IsKey, less_bytes}
use naome.PersistentMap.Invariant.{IsMap}
use naome.PersistentMap.Refinement.{bind, set-refines}
use naome.PersistentMap.Extension.{IsExtension, insert-IsExtension, bind_hit, bind_kept, bind_inv}
use naome.ArtifactState
use naome.ArtifactState.{Buckets, KnowledgeIndex, expect}
use naome.ArtifactState.Projections.{Projection, outgoing, deductions, instances, projections}
use naome.ArtifactState.Registration.{panicked}
use naome.ArtifactState.ProjectionKeys.{IsDigest, HaveKeys, projections-HaveKeys}
use naome.ArtifactState.Register.{
  insert_or_panic, bucket_or_empty, insert_bucket, add_projection, add_projections, projected,
  index_statement, index_proof,
}

abbrev pub Binds : {V : Type 0} → PersistentMap V → Key → Type 0
Binds {V} m key = (v : V) × (PersistentMap.get m key ≡ some v)

module _ (sha256 : List ℕ → List ℕ) where
  -- a well-formed map of well-formed maps
  abbrev pub IsBuckets : Buckets → Type 0
  IsBuckets m =
      IsMap sha256 m
      × ((k : Key) (b : PersistentMap (Unit {0})) → PersistentMap.get m k ≡ some b → IsMap sha256 b)

  pub record IsIndex (index : KnowledgeIndex) : Type 0 where
    pub artifacts : IsMap sha256 index.artifacts
    pub witnesses : IsMap sha256 index.witnesses
    pub outgoing : IsBuckets index.outgoing
    pub deductions : IsBuckets index.deductions
    pub instances : IsBuckets index.instances

  pub insert_or_panic-IsExtension :
      {V : Type 0} (m : PersistentMap V) (key : Key) (value : V)
      → IsMap sha256 m
      → IsKey key
      → (after : PersistentMap V) × (insert_or_panic sha256 m key value ≡ ok after)
        × IsMap sha256 after
        × IsExtension m key value after
  unfolding insert_or_panic
  insert_or_panic-IsExtension m key value h hkey =
      let ((after, inserted), run, kept, extends) = insert-IsExtension sha256 m key value h hkey in
      (after, rw run refl, kept, extends)

  -- the same index with another map
  pub with_artifacts :
      (index : KnowledgeIndex) (m : PersistentMap (Unit {0}))
      → IsIndex index
      → IsMap sha256 m
      → IsIndex (record index { artifacts = m })
  with_artifacts index m h k = record {
    artifacts = k;
    witnesses = h.witnesses;
    outgoing = h.outgoing;
    deductions = h.deductions;
    instances = h.instances;
  }

  with_witnesses :
      (index : KnowledgeIndex) (m : PersistentMap ProofId)
      → IsIndex index
      → IsMap sha256 m
      → IsIndex (record index { witnesses = m })
  with_witnesses index m h k = record {
    artifacts = h.artifacts;
    witnesses = k;
    outgoing = h.outgoing;
    deductions = h.deductions;
    instances = h.instances;
  }

module _ (sha256 : List ℕ → List ℕ) (digest : IsDigest sha256) where
  bucket-IsMap :
      (m : Buckets) (key : Identity)
      → IsBuckets sha256 m
      → IsMap sha256 (bucket_or_empty (PersistentMap.get m key))
  unfolding IsMap
  bucket-IsMap m key h = elim (Option-cases (PersistentMap.get m key)) [
    | inl q ↦ rw q tt
    | inr (b, q) ↦ rw q (h.1 key b q)
  ]

  insert_bucket-IsBuckets :
      (m : Buckets) (key st : Identity)
      → IsBuckets sha256 m
      → IsKey key
      → IsKey st
      → (after : Buckets) × (insert_bucket sha256 m key st ≡ ok after) × IsBuckets sha256 after
  unfolding insert_bucket
  insert_bucket-IsBuckets m key st h hkey hst =
      let ((bucket, inserted), run, kept, _) =
        insert-IsExtension sha256 (bucket_or_empty (PersistentMap.get m key)) st tt
          (bucket-IsMap m key h) hst in
      let (after, run', ha, view) = set-refines sha256 m key bucket h.0 hkey in
      (
        after,
        rw (run, run') refl,
        (
          ha,
          λ k b q. elim (bind_inv key bucket (PersistentMap.get m) k b (sym (view k) ∙ q)) [
            | inl old ↦ h.1 k b old
            | inr (_, e) ↦ subst (IsMap sha256) (sym e) kept
          ],
        ),
      )

  -- the state of an index after some projections
  abbrev Adds : KnowledgeIndex → KnowledgeIndex → Type 0
  Adds index after = IsIndex sha256 after × (after.witnesses ≡ index.witnesses)

  add_projection-IsIndex :
      (index : KnowledgeIndex) (p : Projection) (st : Identity)
      → IsIndex sha256 index
      → IsKey p.1
      → IsKey st
      → (after : KnowledgeIndex) × (add_projection sha256 index p st ≡ ok after) × Adds index after
  unfolding add_projection
  add_projection-IsIndex index (outgoing, key) st h hkey hst =
      let (b, run, hb) = insert_bucket-IsBuckets index.outgoing key st h.outgoing hkey hst in
      (
        record index { outgoing = b },
        rw run refl,
        (
          record {
            artifacts = h.artifacts;
            witnesses = h.witnesses;
            outgoing = hb;
            deductions = h.deductions;
            instances = h.instances;
          },
          refl,
        ),
      )
  add_projection-IsIndex index (deductions, key) st h hkey hst =
      let (b, run, hb) = insert_bucket-IsBuckets index.deductions key st h.deductions hkey hst in
      (
        record index { deductions = b },
        rw run refl,
        (
          record {
            artifacts = h.artifacts;
            witnesses = h.witnesses;
            outgoing = h.outgoing;
            deductions = hb;
            instances = h.instances;
          },
          refl,
        ),
      )
  add_projection-IsIndex index (instances, key) st h hkey hst =
      let (b, run, hb) = insert_bucket-IsBuckets index.instances key st h.instances hkey hst in
      (
        record index { instances = b },
        rw run refl,
        (
          record {
            artifacts = h.artifacts;
            witnesses = h.witnesses;
            outgoing = h.outgoing;
            deductions = h.deductions;
            instances = hb;
          },
          refl,
        ),
      )

  add_projections-IsIndex :
      (ps : List Projection) (index : KnowledgeIndex) (st : Identity)
      → IsIndex sha256 index
      → HaveKeys sha256 digest ps
      → IsKey st
      → (after : KnowledgeIndex) × (add_projections sha256 ps index st ≡ ok after)
        × Adds index after
  unfolding add_projections
  add_projections-IsIndex [] index st h hkeys hst = (index, refl, (h, refl))
  add_projections-IsIndex (p ∷ ps) index st h (hkey, hkeys) hst =
      let (mid, run, (hm, e)) = add_projection-IsIndex index p st h hkey hst in
      let (after, run', (ha, e')) = add_projections-IsIndex ps mid st hm hkeys hst in
      (after, rw run run', (ha, e' ∙ e))

  -- the outcomes of a registration in the index: it panics only where the projections do
  abbrev Registers :
      KnowledgeIndex → Identity → Formula → Registration.Outcome KnowledgeIndex → Type 0
  Registers index st f run =
      ((after : KnowledgeIndex) × (run ≡ ok after)
        × IsIndex sha256 after
        × ((k : Identity) → Binds index.witnesses k → Binds after.witnesses k)
        × Binds after.witnesses st)
      ⊎ ((run ≡ err panicked) × (projections sha256 f ≡ err ArtifactState.panicked))

  index_new-Registers :
      (index : KnowledgeIndex) (proof : ProofId) (st : Identity) (f : Formula)
      → IsIndex sha256 index
      → IsKey st
      → Registers index st f (index_statement sha256 index proof st f none)
  unfolding index_statement projected
  index_new-Registers index proof st f h hst =
      let (witnesses, run, hw, extends) =
        insert_or_panic-IsExtension sha256 index.witnesses st proof h.witnesses hst in
      elim (Result-cases (projections sha256 f)) [
        | inr (ArtifactState.panicked, q) ↦ inr (rw (run, q) refl, q)
        | inl (ps, q) ↦
            let (after, run', (ha, e)) =
              add_projections-IsIndex ps (record index { witnesses = witnesses }) st
                (with_witnesses sha256 index witnesses h hw)
                (Ensures-ok (projections-HaveKeys sha256 digest f) q) hst in
            inl (
              after,
              rw (run, q) run',
              ha,
              (λ k (v, b). subst (λ m. Binds m k) (sym e) (v, extends.kept k v b)),
              subst (λ m. Binds m st) (sym e) extends.present,
            )
      ]

  index_known-Registers :
      (index : KnowledgeIndex) (proof : ProofId) (st : Identity) (f : Formula) (w : ProofId)
      → IsIndex sha256 index
      → IsKey st
      → PersistentMap.get index.witnesses st ≡ some w
      → Registers index st f (index_statement sha256 index proof st f (some w))
  unfolding index_statement bind
  index_known-Registers index proof st f w h hst q = elim (Bool-cases (less_bytes proof w)) [
    | inl e ↦
        let (after, run, kept, view) =
          set-refines sha256 index.witnesses st proof h.witnesses hst in
        inl (
          record index { witnesses = after },
          rw (e, run) refl,
          with_witnesses sha256 index after h kept,
          (λ k (v, p).
              let (v', p') = bind_kept st proof (PersistentMap.get index.witnesses) k v p in
              (v', view k ∙ p')),
          (proof, view st ∙ bind_hit st proof (PersistentMap.get index.witnesses)),
        )
    | inr e ↦ inl (index, rw e refl, h, (λ k b. b), (w, q))
  ]

  pub index_proof-IsIndex :
      (index : KnowledgeIndex) (proof : ProofId) (st : Identity) (f : Formula)
      → IsIndex sha256 index
      → IsKey st
      → Registers index st f (index_proof sha256 index proof st f)
  unfolding index_proof from_proof_id
  index_proof-IsIndex index proof st f h hst =
      let (artifacts, run, ha, _) =
        insert_or_panic-IsExtension sha256 index.artifacts (from_proof_id sha256 proof) tt
          h.artifacts (digest _) in
      let mid : KnowledgeIndex = record index { artifacts = artifacts } in
      let hm : IsIndex sha256 mid = with_artifacts sha256 index artifacts h ha in
      elim (Option-cases (PersistentMap.get index.witnesses st)) [
        | inl q ↦ rw (run, q) (index_new-Registers mid proof st f hm hst)
        | inr (w, q) ↦ rw (run, q) (index_known-Registers mid proof st f w hm hst q)
      ]
