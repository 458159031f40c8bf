-- ===== src/PersistentMap/Invariant.antt =====
-- naome-checker/src/state/persistent_map.rs: what a well-formed Patricia trie is, and its look-up.
use naome.Prelude.{
  ℕ, ◌<◌, ◌≡◌, ◌≢◌, ◌⊎◌, inl, inr, refl, sym, ap, ap₂, subst, true, false, none, some, List, [],
  ◌∷◌, Bool-cases, ◌==◌, ==_refl, arith,
}
use naome.PersistentMap.{
  Node, leaf, branch, Fingerprint, PersistentMap, node_fingerprint, get_node, get, contains_key,
  is_some, terminal_node, terminal_key, leaf_fingerprint, branch_fingerprint,
}
use naome.PersistentMap.Keys.{Key, IsKey, equal_bytes, key_bit}

pub equal_bytes_sound : (a b : List ℕ) → equal_bytes a b ≡ true → a ≡ b
unfolding equal_bytes
equal_bytes_sound [] [] h = refl
equal_bytes_sound [] (y ∷ b) h = cc
equal_bytes_sound (x ∷ a) [] h = cc
equal_bytes_sound (x ∷ a) (y ∷ b) h = elim (Bool-cases (x == y)) [
  | inl e ↦ ap₂ ◌∷◌ (ground arith) (equal_bytes_sound a b (rw e at h))
  | inr e ↦ absurd (ground arith)
]

pub equal_bytes_refl : (a : List ℕ) → equal_bytes a a ≡ true
unfolding equal_bytes
equal_bytes_refl [] = refl
equal_bytes_refl (x ∷ a) = rw (==_refl x) (equal_bytes_refl a)

pub equal_bytes_ne : (a b : List ℕ) → a ≢ b → equal_bytes a b ≡ false
equal_bytes_ne a b ne = elim (Bool-cases (equal_bytes a b)) [
  | inl e ↦ absurd (ne (equal_bytes_sound a b e))
  | inr e ↦ e
]

module _ {V : Type 0} where
  -- the trie binds the key to the value
  unfoldable pub Entry : Key → V → Node V → Type 0
  Entry key value (leaf stored found fingerprint) = (key ≡ stored) × (value ≡ found)
  Entry key value (branch bit left right fingerprint) = Entry key value left ⊎ Entry key value right

  abbrev pub Has : Key → Node V → Type 0
  Has key node = (value : V) × Entry key value node

  -- the keys of the trie all agree below a bit
  abbrev pub IsUniform : ℕ → Node V → Type 0
  IsUniform bit node =
      (a b : Key) → Has a node → Has b node → (i : ℕ) → i < bit → key_bit a i ≡ key_bit b i

  -- Each branch is at the first bit at which its keys differ, and splits them by that bit; each
  -- node's fingerprint is that of its keys.
  unfoldable pub IsTrie : (List ℕ → Fingerprint) → Node V → Type 0
  unfolding Entry
  IsTrie sha256 (leaf key value fingerprint) =
      IsKey key × (fingerprint ≡ leaf_fingerprint sha256 key)
  IsTrie sha256 (branch bit left right fingerprint) =
      IsTrie sha256 left
      × IsTrie sha256 right
      × ((key : Key) → Has key left → key_bit key bit ≡ false)
      × ((key : Key) → Has key right → key_bit key bit ≡ true)
      × IsUniform bit (branch bit left right fingerprint)
      × (fingerprint
          ≡ branch_fingerprint sha256 bit (node_fingerprint left) (node_fingerprint right))

  unfoldable pub IsMap : (List ℕ → Fingerprint) → PersistentMap V → Type 0
  unfolding IsTrie
  IsMap sha256 none = Unit {0}
  IsMap sha256 (some root) = IsTrie sha256 root

  pub Has-IsKey :
      (sha256 : List ℕ → Fingerprint) (node : Node V) (key : Key)
      → IsTrie sha256 node
      → Has key node
      → IsKey key
  unfolding IsTrie Entry
  Has-IsKey sha256 (leaf stored v f) key (hk, _) (_, (e, _)) = subst IsKey (sym e) hk
  Has-IsKey sha256 (branch b l r f) key (hl, hr, _, _, _, _) (v, inl e) =
      Has-IsKey sha256 l key hl (v, e)
  Has-IsKey sha256 (branch b l r f) key (hl, hr, _, _, _, _) (v, inr e) =
      Has-IsKey sha256 r key hr (v, e)

  -- The look-up finds every entry of a well-formed trie ...
  pub get_node-Entry :
      (sha256 : List ℕ → Fingerprint) (node : Node V) (key : Key) (value : V)
      → IsTrie sha256 node
      → Entry key value node
      → get_node node key ≡ some value
  unfolding IsTrie Entry get_node
  get_node-Entry sha256 (leaf stored v f) key value h (e, q) =
      rw (e, equal_bytes_refl stored) (ap some (sym q))
  get_node-Entry sha256 (branch b l r f) key value (hl, hr, on_l, on_r, _, _) (inl e) =
      rw (on_l key (value, e)) (get_node-Entry sha256 l key value hl e)
  get_node-Entry sha256 (branch b l r f) key value (hl, hr, on_l, on_r, _, _) (inr e) =
      rw (on_r key (value, e)) (get_node-Entry sha256 r key value hr e)

  -- ... and what it finds is an entry.
  pub Entry-get_node :
      (node : Node V) (key : Key) (value : V)
      → get_node node key ≡ some value
      → Entry key value node
  unfolding Entry get_node
  Entry-get_node (leaf stored v f) key value h = elim (Bool-cases (equal_bytes stored key)) [
    | inl e ↦ (sym (equal_bytes_sound stored key e), cc)
    | inr e ↦ absurd (cc)
  ]
  Entry-get_node (branch b l r f) key value h = elim (Bool-cases (key_bit key b)) [
    | inl e ↦ inr (Entry-get_node r key value (rw e at h))
    | inr e ↦ inl (Entry-get_node l key value (rw e at h))
  ]

  pub Has-terminal :
      (node : Node V) (key : Key) → (t : Key) × (terminal_key node key ≡ some t) × Has t node
  unfolding Entry terminal_key terminal_node
  Has-terminal (leaf stored v f) key = (stored, refl, (v, (refl, refl)))
  Has-terminal (branch b l r f) key = elim (Bool-cases (key_bit key b)) [
    | inl e ↦ let (t, q, (v, h)) = Has-terminal r key in (t, rw e q, (v, inr h))
    | inr e ↦ let (t, q, (v, h)) = Has-terminal l key in (t, rw e q, (v, inl h))
  ]

  -- The descent for a key of the trie ends at that key.
  pub terminal_key-Has :
      (sha256 : List ℕ → Fingerprint) (node : Node V) (key : Key)
      → IsTrie sha256 node
      → Has key node
      → terminal_key node key ≡ some key
  unfolding IsTrie Entry terminal_key terminal_node
  terminal_key-Has sha256 (leaf stored v f) key h (_, (e, _)) = ap some (sym e)
  terminal_key-Has sha256 (branch b l r f) key (hl, hr, on_l, on_r, _, _) (v, inl e) =
      rw (on_l key (v, e)) (terminal_key-Has sha256 l key hl (v, e))
  terminal_key-Has sha256 (branch b l r f) key (hl, hr, on_l, on_r, _, _) (v, inr e) =
      rw (on_r key (v, e)) (terminal_key-Has sha256 r key hr (v, e))

  pub contains_key-some :
      (m : PersistentMap V) (key : Key) (value : V)
      → get m key ≡ some value
      → contains_key m key ≡ true
  unfolding contains_key
  contains_key-some m key value q = ap is_some q

  pub contains_key-none :
      (m : PersistentMap V) (key : Key) → get m key ≡ none → contains_key m key ≡ false
  unfolding contains_key
  contains_key-none m key q = ap is_some q
