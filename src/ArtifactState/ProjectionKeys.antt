-- ===== src/ArtifactState/ProjectionKeys.antt =====
-- naome-checker/src/question/index.rs and instantiation.rs: the keys of the projections are 32 bytes.
use naome.Prelude.{
  ℕ, Bool, Option, none, some, List, [], ◌∷◌, ◌++◌, All, map, true, false, ltb, length,
  if◌then◌else◌,
}
use naome.Prelude.Result.{Ensures, returns, throws, Ensures-bind}
use naome.Formula.{Formula}
use naome.Node
use naome.Canonical.{encode_canonical}
use naome.Canonical.Implication.{CanonicalImplication, canonical_implication, antecedent}
use naome.Checker.{Identity}
use naome.Checker.Truth.{any}
use naome.Identity.{of_canonical_formula, scoped_hash}
use naome.PersistentMap.Keys.{Key, IsKey}
use naome.ArtifactState.{expect}
use naome.ArtifactState.Projections.{
  Projection, BucketKind, outgoing, deductions, instances, Opened, encoded, slices, statement_id,
  statement_ids, bytes_key, implication_projections, bounded_instances, universal_instances,
  consequent_keys, open_outer, pattern_keys, implied_projections, instance_keys, universal_keys,
  projections,
}

-- The digests are 32 bytes.
abbrev pub IsDigest : (List ℕ → List ℕ) → Type 0
IsDigest sha256 = (bytes : List ℕ) → IsKey (sha256 bytes)

expect-IsKey : (b : Bool) (k : Key) → IsKey k → Ensures IsKey (expect (if b then some k else none))
expect-IsKey true k h = returns h
expect-IsKey false k h = throws

module _ (sha256 : List ℕ → List ℕ) (digest : IsDigest sha256) where
  abbrev AreKeys : List Identity → Type 0
  AreKeys = All IsKey

  abbrev pub HaveKeys : List Projection → Type 0
  HaveKeys = All (λ (p : Projection). IsKey p.1)

  append-HaveKeys : (ps qs : List Projection) → HaveKeys ps → HaveKeys qs → HaveKeys (ps ++ qs)
  append-HaveKeys [] qs h k = k
  append-HaveKeys (p ∷ ps) qs (h, hs) k = (h, append-HaveKeys ps qs hs k)

  map-HaveKeys :
      (kind : BucketKind) (ids : List Identity)
      → AreKeys ids
      → HaveKeys (map (λ (id : Identity). (kind, id)) ids)
  map-HaveKeys kind [] h = tt
  map-HaveKeys kind (id ∷ ids) (h, hs) = (h, map-HaveKeys kind ids hs)

  statement_id-IsKey : (bytes : List ℕ) → Ensures IsKey (statement_id sha256 bytes)
  unfolding statement_id of_canonical_formula scoped_hash
  statement_id-IsKey bytes = expect-IsKey (ltb (length bytes) 4294967296) _ (digest _)

  statement_ids-AreKeys : (bs : List (List ℕ)) → Ensures AreKeys (statement_ids sha256 bs)
  unfolding statement_ids
  statement_ids-AreKeys [] = returns tt
  statement_ids-AreKeys (b ∷ bs) =
      Ensures-bind (statement_id-IsKey b)
        λ id h. Ensures-bind (statement_ids-AreKeys bs) λ ids hs. returns (h, hs)

  implication_projections-HaveKeys :
      (parts : Option CanonicalImplication)
      → Ensures HaveKeys (implication_projections sha256 parts)
  unfolding implication_projections
  implication_projections-HaveKeys none = returns tt
  implication_projections-HaveKeys (some parts) =
      Ensures-bind (any (expect (antecedent parts))) λ bytes _.
        Ensures-bind (statement_id-IsKey bytes) λ id h.
          Ensures-bind (any (slices parts.consequents parts.bytes)) λ ss _.
            Ensures-bind (statement_ids-AreKeys ss) λ ids hs.
              let all : HaveKeys ((outgoing, id) ∷ map (λ (id : Identity). (deductions, id)) ids) =
                (h, map-HaveKeys deductions ids hs) in
              returns all

  bytes_keys-AreKeys : (bs : List (List ℕ)) → AreKeys (map (bytes_key sha256) bs)
  unfolding bytes_key
  bytes_keys-AreKeys [] = tt
  bytes_keys-AreKeys (b ∷ bs) = (digest _, bytes_keys-AreKeys bs)

  consequent_keys-AreKeys :
      (parts : Option CanonicalImplication) → Ensures AreKeys (consequent_keys sha256 parts)
  unfolding consequent_keys
  consequent_keys-AreKeys none = returns tt
  consequent_keys-AreKeys (some parts) =
      Ensures-bind (any (slices parts.consequents parts.bytes))
        λ ss _. returns (bytes_keys-AreKeys ss)

  pattern_keys-AreKeys : (o : Opened) → Ensures AreKeys (pattern_keys sha256 o)
  unfolding pattern_keys bytes_key
  pattern_keys-AreKeys (f, []) = returns tt
  pattern_keys-AreKeys (f, v ∷ vs) =
      Ensures-bind (any (encoded (encode_canonical (Node.map_free_variables f (λ _. 0)))))
        λ bytes _.
          Ensures-bind (any (encoded (canonical_implication (Node.map_free_variables f (λ _. 0)))))
            λ parts _. Ensures-bind (consequent_keys-AreKeys parts) λ keys h.
              let all : AreKeys (bytes_key sha256 bytes ∷ keys) = (digest _, h) in returns all

  implied_projections-HaveKeys : (f : Formula) → Ensures HaveKeys (implied_projections sha256 f)
  unfolding implied_projections
  implied_projections-HaveKeys f =
      Ensures-bind (any (encoded (canonical_implication f)))
        λ parts _. implication_projections-HaveKeys parts

  instance_keys-AreKeys : (f : Formula) → Ensures AreKeys (instance_keys sha256 f)
  unfolding instance_keys
  instance_keys-AreKeys f = statement_ids-AreKeys (bounded_instances sha256 (universal_instances f))

  universal_keys-AreKeys : (f : Formula) → Ensures AreKeys (universal_keys sha256 f)
  unfolding universal_keys
  universal_keys-AreKeys f =
      Ensures-bind (any (open_outer f)) λ opened _. pattern_keys-AreKeys opened

  pub projections-HaveKeys : (f : Formula) → Ensures HaveKeys (projections sha256 f)
  unfolding projections
  projections-HaveKeys f = Ensures-bind (implied_projections-HaveKeys f) λ implied h.
      Ensures-bind (instance_keys-AreKeys f) λ ids hs.
        Ensures-bind (universal_keys-AreKeys f) λ keys ks. returns (
          append-HaveKeys implied _ h
            (append-HaveKeys _ _ (map-HaveKeys instances ids hs) (map-HaveKeys instances keys ks)))
