-- ===== src/PersistentMap/Replace.antt =====
-- naome-checker/src/state/persistent_map.rs: `replace_at` on a well-formed trie that has the key.
use naome.Prelude.{
  ℕ, ◌≡◌, ◌≢◌, inl, inr, refl, sym, ap, ◌∙◌, subst, some, Bool, true, false, List, Bool-cases,
  if◌then◌else◌,
}
use naome.PersistentMap.{
  Node, leaf, branch, Fingerprint, make_leaf, make_branch, branch_fingerprint, node_fingerprint,
  leaf_fingerprint, replace_at, get_node,
}
use naome.PersistentMap.Keys.{Key, IsKey, key_bit, equal_bytes}
use naome.PersistentMap.Invariant.{Entry, Has, IsTrie, equal_bytes_ne}

-- keys that differ in a bit are different
apart :
    (key k : Key) (b : ℕ) (x y : Bool)
    → key_bit key b ≡ x
    → key_bit k b ≡ y
    → x ≢ y
    → equal_bytes key k ≡ false
apart key k b x y p q ne = equal_bytes_ne key k (λ e. ne (sym p ∙ ap (λ z. key_bit z b) e ∙ q))

module _ {V : Type 0} (sha256 : List ℕ → Fingerprint) where
  -- the trie with the value replaced has the same keys
  pub Has-replace_at :
      (node : Node V) (key : Key) (value : V)
      → IsTrie sha256 node
      → Has key node
      → (k : Key) → Has k (replace_at sha256 node key value)
      → Has k node
  unfolding replace_at make_leaf make_branch IsTrie Entry
  Has-replace_at (leaf stored w f) key value h (_, (q, _)) k (v, (e, _)) = (w, (e ∙ q, refl))
  Has-replace_at (branch b l r f) key value (hl, hr, on_l, on_r, _, _) (w, inl has) k (v, hk) =
      let off = on_l key (w, has) in
      elim (rw off at hk) [
        | inl x ↦ let (u, y) = Has-replace_at l key value hl (w, has) k (v, x) in (u, inl y)
        | inr x ↦ (v, inr x)
      ]
  Has-replace_at (branch b l r f) key value (hl, hr, on_l, on_r, _, _) (w, inr has) k (v, hk) =
      let off = on_r key (w, has) in
      elim (rw off at hk) [
        | inl x ↦ (v, inl x)
        | inr x ↦ let (u, y) = Has-replace_at r key value hr (w, has) k (v, x) in (u, inr y)
      ]

  -- The fingerprint does not change: it is that of the keys.
  pub replace_at_fingerprint :
      (node : Node V) (key : Key) (value : V)
      → IsTrie sha256 node
      → Has key node
      → node_fingerprint (replace_at sha256 node key value) ≡ node_fingerprint node
  unfolding replace_at make_leaf make_branch IsTrie Entry node_fingerprint
  replace_at_fingerprint (leaf stored w f) key value (hk, hf) (_, (q, _)) =
      ap (leaf_fingerprint sha256) q ∙ sym hf
  replace_at_fingerprint (branch b l r f) key value (hl, hr, on_l, on_r, _, hf) (w, inl has) =
      rw (on_l key (w, has)) (
        ap (λ x. branch_fingerprint sha256 b x (node_fingerprint r))
          (replace_at_fingerprint l key value hl (w, has))
        ∙ sym hf)
  replace_at_fingerprint (branch b l r f) key value (hl, hr, on_l, on_r, _, hf) (w, inr has) =
      rw (on_r key (w, has)) (
        ap (λ x. branch_fingerprint sha256 b (node_fingerprint l) x)
          (replace_at_fingerprint r key value hr (w, has))
        ∙ sym hf)

  left_keys :
      (b : ℕ) (l m r : Node V) (f : Fingerprint)
      → ((k : Key) → Has k m → Has k l)
      → (k : Key) → Has k (make_branch sha256 b m r)
      → Has k (branch b l r f)
  unfolding make_branch Entry
  left_keys b l m r f keys k (v, inl h) = let (u, y) = keys k (v, h) in (u, inl y)
  left_keys b l m r f keys k (v, inr h) = (v, inr h)

  right_keys :
      (b : ℕ) (l r m : Node V) (f : Fingerprint)
      → ((k : Key) → Has k m → Has k r)
      → (k : Key) → Has k (make_branch sha256 b l m)
      → Has k (branch b l r f)
  unfolding make_branch Entry
  right_keys b l r m f keys k (v, inl h) = (v, inl h)
  right_keys b l r m f keys k (v, inr h) = let (u, y) = keys k (v, h) in (u, inr y)

  pub replace_at-IsTrie :
      (node : Node V) (key : Key) (value : V)
      → IsTrie sha256 node
      → Has key node
      → IsTrie sha256 (replace_at sha256 node key value)
  unfolding replace_at make_leaf make_branch IsTrie Entry node_fingerprint
  replace_at-IsTrie (leaf stored w f) key value (hk, hf) (_, (q, _)) =
      (subst IsKey (sym q) hk, refl)
  replace_at-IsTrie (branch b l r f) key value (hl, hr, on_l, on_r, uniform, hf) (w, inl has) =
      let off = on_l key (w, has) in
      let keys = Has-replace_at l key value hl (w, has) in
      rw off (
        replace_at-IsTrie l key value hl (w, has),
        hr,
        (λ k hk. on_l k (keys k hk)),
        on_r,
        (λ x y hx hy. uniform x y (left_keys b l _ r f keys x hx) (left_keys b l _ r f keys y hy)),
        refl,
      )
  replace_at-IsTrie (branch b l r f) key value (hl, hr, on_l, on_r, uniform, hf) (w, inr has) =
      let off = on_r key (w, has) in
      let keys = Has-replace_at r key value hr (w, has) in
      rw off (
        hl,
        replace_at-IsTrie r key value hr (w, has),
        on_l,
        (λ k hk. on_r k (keys k hk)),
        (λ x y hx hy.
            uniform x y (right_keys b l r _ f keys x hx) (right_keys b l r _ f keys y hy)),
        refl,
      )

  pub get_node-replace_at :
      (node : Node V) (key : Key) (value : V) (k : Key)
      → IsTrie sha256 node
      → Has key node
      → get_node (replace_at sha256 node key value) k
        ≡ (if equal_bytes key k then some value else get_node node k)
  unfolding replace_at make_leaf make_branch IsTrie Entry get_node
  get_node-replace_at (leaf stored w f) key value k h (_, (q, _)) =
      rw (sym q) (elim (Bool-cases (equal_bytes key k)) [ inl e ↦ rw e refl | inr e ↦ rw e refl ])
  get_node-replace_at (branch b l r f) key value k (hl, hr, on_l, on_r, _, _) (w, inl has) =
      let off = on_l key (w, has) in
      elim (Bool-cases (key_bit k b)) [
        | inl e ↦ rw (off, e, apart key k b false true off e (λ x. cc)) refl
        | inr e ↦ rw (off, e) (get_node-replace_at l key value k hl (w, has))
      ]
  get_node-replace_at (branch b l r f) key value k (hl, hr, on_l, on_r, _, _) (w, inr has) =
      let on = on_r key (w, has) in
      elim (Bool-cases (key_bit k b)) [
        | inl e ↦ rw (on, e) (get_node-replace_at r key value k hr (w, has))
        | inr e ↦ rw (on, e, apart key k b true false on e (λ x. cc)) refl
      ]
