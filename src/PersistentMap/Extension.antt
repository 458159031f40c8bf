-- ===== src/PersistentMap/Extension.antt =====
-- naome-checker/src/state/persistent_map.rs: what a caller of `insert` uses of it.
use naome.Prelude.{
  ℕ, ◌≡◌, ◌⊎◌, inl, inr, refl, sym, ap, ◌∙◌, Bool, Option, none, some, List, Bool-cases,
  Option-cases,
}
use naome.PersistentMap.{Fingerprint, PersistentMap, get, insert}
use naome.PersistentMap.Keys.{Key, IsKey, equal_bytes}
use naome.PersistentMap.Invariant.{
  IsMap, equal_bytes_sound, equal_bytes_refl, contains_key-some, contains_key-none,
}
use naome.PersistentMap.Refinement.{IsInsertion, insert-refines, bind}

module _ {V : Type 0} where
  -- The second map has all bindings of the first, and one for the key, which is the given one if the
  -- first map has none; it has no other binding.
  pub record IsExtension (m : PersistentMap V) (key : Key) (value : V) (after : PersistentMap V)
      : Type 0 where
    pub kept : (k : Key) (v : V) → get m k ≡ some v → get after k ≡ some v
    pub present : (v : V) × (get after key ≡ some v)
    pub fresh : get m key ≡ none → get after key ≡ some value
    pub only :
        (k : Key) (v : V)
        → get after k ≡ some v
        → (get m k ≡ some v) ⊎ ((get m key ≡ none) × (k ≡ key) × (v ≡ value))

  pub bind_hit :
      (key : Key) (value : V) (view : Key → Option V) → bind key value view key ≡ some value
  unfolding bind
  bind_hit key value view = rw (equal_bytes_refl key) refl

  pub bind_kept :
      (key : Key) (value : V) (view : Key → Option V) (k : Key) (v : V)
      → view k ≡ some v
      → (v' : V) × (bind key value view k ≡ some v')
  unfolding bind
  bind_kept key value view k v q = elim (Bool-cases (equal_bytes key k)) [
    | inl e ↦ (value, rw e refl)
    | inr e ↦ (v, rw e q)
  ]

  bind_miss :
      (key : Key) (value : V) (view : Key → Option V) (k : Key) (v : V)
      → view key ≡ none
      → view k ≡ some v
      → bind key value view k ≡ some v
  unfolding bind
  bind_miss key value view k v absent q = elim (Bool-cases (equal_bytes key k)) [
    | inl e ↦ let clash = sym absent ∙ ap view (equal_bytes_sound key k e) ∙ q in absurd (cc)
    | inr e ↦ rw e q
  ]

  pub bind_inv :
      (key : Key) (value : V) (view : Key → Option V) (k : Key) (v : V)
      → bind key value view k ≡ some v
      → (view k ≡ some v) ⊎ ((k ≡ key) × (v ≡ value))
  unfolding bind
  bind_inv key value view k v q = elim (Bool-cases (equal_bytes key k)) [
    | inl e ↦ let q' : some value ≡ some v = rw e at q in inr (sym (equal_bytes_sound key k e), cc)
    | inr e ↦ inl (rw e at q)
  ]

  insertion-IsExtension :
      (sha256 : List ℕ → Fingerprint) (m : PersistentMap V) (key : Key) (value : V)
      (r : PersistentMap V × Bool)
      → IsInsertion sha256 m key value r
      → IsExtension m key value r.0
  insertion-IsExtension sha256 m key value r done = elim (Option-cases (get m key)) [
    | inr (w, q) ↦
        let same : (k : Key) → get r.0 k ≡ get m k =
          λ k. done.view k ∙ rw (contains_key-some m key w q) refl in
        record {
          kept = λ k v p. same k ∙ p;
          present = (w, same key ∙ q);
          fresh = λ p. absurd (cc);
          only = λ k v p. inl (sym (same k) ∙ p);
        }
    | inl q ↦
        let added : (k : Key) → get r.0 k ≡ bind key value (get m) k =
          λ k. done.view k ∙ rw (contains_key-none m key q) refl in
        record {
          kept = λ k v p. added k ∙ bind_miss key value (get m) k v q p;
          present = (value, added key ∙ bind_hit key value (get m));
          fresh = λ _. added key ∙ bind_hit key value (get m);
          only = λ k v p. elim (bind_inv key value (get m) k v (sym (added k) ∙ p)) [
            | inl old ↦ inl old
            | inr (e, f) ↦ inr (q, e, f)
          ];
        }
  ]

  pub insert-IsExtension :
      (sha256 : List ℕ → Fingerprint) (m : PersistentMap V) (key : Key) (value : V)
      → IsMap sha256 m
      → IsKey key
      → (r : PersistentMap V × Bool) × (insert sha256 m key value ≡ some r)
        × IsMap sha256 r.0
        × IsExtension m key value r.0
  insert-IsExtension sha256 m key value h hkey =
      let (r, run, done) = insert-refines sha256 m key value h hkey in
      (r, run, done.kept, insertion-IsExtension sha256 m key value r done)
