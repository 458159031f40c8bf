-- ===== src/PersistentMap/Refinement.antt =====
-- naome-checker/src/state/persistent_map.rs: `insert` and `set` against the finite partial function
-- that `get` shows.
use naome.Prelude.{
  ℕ, ◌≡◌, ◌≢◌, inl, inr, refl, sym, ap, ◌∙◌, Bool, true, false, Option, none, some, List,
  Bool-cases, Option-cases, if◌then◌else◌, negb,
}
use naome.PersistentMap.{
  Node, Fingerprint, PersistentMap, get_node, get, contains_key, terminal_key, make_leaf, insert_at,
  replace_at, insert, set, insert_terminal, insert_differing, insert_or_keep,
}
use naome.PersistentMap.Keys.{Key, IsKey, equal_bytes}
use naome.PersistentMap.Bits.{first_differing_bit-IsFirstDifference}
use naome.PersistentMap.Invariant.{
  Has, IsTrie, IsMap, Has-terminal, terminal_key-Has, get_node-Entry, Entry-get_node, Has-IsKey,
  equal_bytes_sound, equal_bytes_refl, contains_key-some, contains_key-none,
}
use naome.PersistentMap.Insert.{Added-insert_at, insert_at-Added, insert_at-IsTrie}
use naome.PersistentMap.Replace.{replace_at-IsTrie, get_node-replace_at}

-- a finite map as its readers see it, and the binding of one key
abbrev pub Partial : Type 0 → Type 0
Partial V = Key → Option V

unfoldable pub bind : {V : Type 0} → Key → V → Partial V → Partial V
bind key value view k = if equal_bytes key k then some value else view k

some-injective : {A : Type 0} {x y : A} → ◌≡◌ {A = Option A} (some x) (some y) → x ≡ y
some-injective e = cc

module _ {V : Type 0} (sha256 : List ℕ → Fingerprint) where
  get_node-insert_at :
      (root : Node V) (d : ℕ) (key : Key) (value : V) (k : Key)
      → IsTrie sha256 root
      → IsTrie sha256 (insert_at sha256 root d key value)
      → get_node (insert_at sha256 root d key value) k ≡ bind key value (get_node root) k
  unfolding bind
  get_node-insert_at root d key value k h after = elim (Bool-cases (equal_bytes key k)) [
    | inl e ↦
        let same = sym (equal_bytes_sound key k e) in
        let entry = insert_at-Added sha256 root d key value k value (inl (same, refl)) in
        rw e (get_node-Entry sha256 _ k value after entry)
    | inr e ↦ rw e (elim (Option-cases (get_node root k)) [
      | inr (w, q) ↦
          let entry =
            insert_at-Added sha256 root d key value k w (inr (Entry-get_node root k w q)) in
          get_node-Entry sha256 _ k w after entry ∙ sym q
      | inl q ↦ elim (Option-cases (get_node (insert_at sha256 root d key value) k)) [
        | inl q' ↦ q' ∙ sym q
        | inr (w, q') ↦
            elim (Added-insert_at sha256 root d key value k w (Entry-get_node _ k w q')) [
              | inl (same, _) ↦ absurd (absent k same e)
              | inr entry ↦ absurd (missing k w q (get_node-Entry sha256 root k w h entry))
            ]
      ]
    ])
  ]
    where
      absent : (k : Key) → k ≡ key → equal_bytes key k ≡ false → ⊥
      absent k same e = let yes = ap (equal_bytes key) same ∙ equal_bytes_refl key in cc

      missing : (k : Key) (w : V) → get_node root k ≡ none → get_node root k ≡ some w → ⊥
      missing k w p q = cc

  -- what an insertion leaves, and the flag that it returns
  pub record IsInsertion (m : PersistentMap V) (key : Key) (value : V) (r : PersistentMap V × Bool)
      : Type 0 where
    pub kept : IsMap sha256 r.0
    pub fresh : r.1 ≡ negb (contains_key m key)
    pub view :
        (k : Key) → get r.0 k ≡ (if contains_key m key then get m k else bind key value (get m) k)

  get_node-absent :
      (root : Node V) (key t : Key)
      → IsTrie sha256 root
      → terminal_key root key ≡ some t
      → t ≢ key
      → get_node root key ≡ none
  get_node-absent root key t h reached ne = elim (Option-cases (get_node root key)) [
    | inl q ↦ q
    | inr (w, q) ↦
        let own = terminal_key-Has sha256 root key h (w, Entry-get_node root key w q) in
        absurd (ne (some-injective (sym reached ∙ own)))
  ]

  insert_terminal-IsInsertion :
      (root : Node V) (key t : Key) (value : V)
      → IsTrie sha256 root
      → IsKey key
      → terminal_key root key ≡ some t
      → Has t root
      → (r : PersistentMap V × Bool) × (insert_terminal sha256 root key value (some t) ≡ some r)
        × IsInsertion (some root) key value r
  unfolding insert_terminal insert_differing IsMap get
  insert_terminal-IsInsertion root key t value h hkey reached (w, has) =
      elim (Bool-cases (equal_bytes t key)) [
        | inl e ↦
            let here = get_node-Entry sha256 root t w h has in
            let found : get_node root key ≡ some w =
              ap (get_node root) (sym (equal_bytes_sound t key e)) ∙ here in
            let present = contains_key-some (some root) key w found in
            (
              (some root, false),
              rw e refl,
              record { kept = h; fresh = rw present refl; view = λ k. rw present refl },
            )
        | inr e ↦
            let ne : t ≢ key = different t e in
            let missing =
              contains_key-none (some root) key (get_node-absent root key t h reached ne) in
            let (d, first) =
              first_differing_bit-IsFirstDifference t key (Has-IsKey sha256 root t h (w, has)) hkey
                ne in
            let after =
              insert_at-IsTrie sha256 root d key t value h hkey
                (record { reached = reached; same = first.same; other = first.other }) in
            (
              (some (insert_at sha256 root d key value), true),
              rw (e, first.found) refl,
              record {
                kept = after;
                fresh = rw missing refl;
                view = λ k. rw missing (get_node-insert_at root d key value k h after);
              },
            )
      ]
    where
      different : (t : Key) → equal_bytes t key ≡ false → t ≢ key
      different t e q = let yes = ap (equal_bytes t) q in let own = equal_bytes_refl t in cc

  -- `insert` never panics on a well-formed map and a key of 32 bytes. It leaves a well-formed map,
  -- returns whether the key was absent, and binds the key if it was absent; a present key keeps its
  -- value, and so does every other key.
  pub insert-refines :
      (m : PersistentMap V) (key : Key) (value : V)
      → IsMap sha256 m
      → IsKey key
      → (r : PersistentMap V × Bool) × (insert sha256 m key value ≡ some r)
        × IsInsertion m key value r
  unfolding insert IsMap get get_node bind make_leaf IsTrie
  insert-refines none key value h hkey =
      let missing = contains_key-none {V = V} none key refl in
      (
        (some (make_leaf sha256 key value), true),
        refl,
        record { kept = (hkey, refl); fresh = rw missing refl; view = λ k. rw missing refl },
      )
  insert-refines (some root) key value h hkey =
      let (t, reached, has) = Has-terminal root key in
      rw reached (insert_terminal-IsInsertion root key t value h hkey reached has)

  set_present :
      (m : PersistentMap V) (key : Key) (value : V)
      → IsMap sha256 m
      → contains_key m key ≡ true
      → (after : PersistentMap V) × (set sha256 m key value ≡ some after)
        × IsMap sha256 after
        × ((k : Key) → get after k ≡ bind key value (get m) k)
  unfolding set IsMap get bind
  set_present none key value h e =
      let missing = contains_key-none {V = V} none key refl in absurd (cc)
  set_present (some root) key value h e = elim (Option-cases (get_node root key)) [
    | inl q ↦ let missing = contains_key-none (some root) key q in absurd (cc)
    | inr (w, q) ↦
        let has : Has key root = (w, Entry-get_node root key w q) in
        (
          some (replace_at sha256 root key value),
          rw e refl,
          replace_at-IsTrie sha256 root key value h has,
          λ k. get_node-replace_at sha256 root key value k h has,
        )
  ]

  set_absent :
      (m : PersistentMap V) (key : Key) (value : V)
      → IsMap sha256 m
      → IsKey key
      → contains_key m key ≡ false
      → (after : PersistentMap V) × (set sha256 m key value ≡ some after)
        × IsMap sha256 after
        × ((k : Key) → get after k ≡ bind key value (get m) k)
  unfolding set insert_or_keep
  set_absent m key value h hkey e =
      let ((after, inserted), run, done) = insert-refines m key value h hkey in
      (after, rw (e, run) refl, done.kept, λ k. done.view k ∙ rw e refl)

  -- `set` never panics on a well-formed map and a key of 32 bytes. It leaves a well-formed map in
  -- which the key is bound to the value and every other key is bound as before.
  pub set-refines :
      (m : PersistentMap V) (key : Key) (value : V)
      → IsMap sha256 m
      → IsKey key
      → (after : PersistentMap V) × (set sha256 m key value ≡ some after)
        × IsMap sha256 after
        × ((k : Key) → get after k ≡ bind key value (get m) k)
  set-refines m key value h hkey = elim (Bool-cases (contains_key m key)) [
    | inl e ↦ set_present m key value h e
    | inr e ↦ set_absent m key value h hkey e
  ]
