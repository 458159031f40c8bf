-- ===== src/PersistentMap/Insert.antt =====
-- naome-checker/src/state/persistent_map.rs: `insert_at` and `replace_at` on a well-formed trie.
use naome.Prelude.{
  ℕ, ◌<◌, ◌≤◌, ◌≡◌, ◌≢◌, ◌⊎◌, inl, inr, refl, sym, ap, ◌∙◌, subst, Bool, true, false, Option, some,
  List, Bool-cases, ltb, ltb→lt, arith,
}
use naome.PersistentMap.{
  Node, leaf, branch, Fingerprint, terminal_key, terminal_node, make_leaf, make_branch, split_at,
  insert_at,
}
use naome.PersistentMap.Keys.{Key, IsKey, key_bit}
use naome.PersistentMap.Invariant.{Entry, Has, IsUniform, IsTrie, Has-terminal}

some-injective : {A : Type 0} {x y : A} → ◌≡◌ {A = Option A} (some x) (some y) → x ≡ y
some-injective e = cc

Bool-other : (x y : Bool) → x ≢ y → y ≡ true → x ≡ false
Bool-other true y h e = absurd (h (sym e))
Bool-other false y h e = refl

Bool-same : (x y : Bool) → x ≢ y → y ≡ false → x ≡ true
Bool-same true y h e = refl
Bool-same false y h e = absurd (h (sym e))

under_right : {L X N R : Type 0} → L ⊎ X → (X → N ⊎ R) → N ⊎ (L ⊎ R)
under_right (inl l) step = inr (inl l)
under_right (inr x) step = elim (step x) [ inl n ↦ inl n | inr r ↦ inr (inr r) ]

under_left : {L X N R : Type 0} → X ⊎ R → (X → N ⊎ L) → N ⊎ (L ⊎ R)
under_left (inr r) step = inr (inr r)
under_left (inl x) step = elim (step x) [ inl n ↦ inl n | inr l ↦ inr (inl l) ]

module _ {V : Type 0} (sha256 : List ℕ → Fingerprint) where
  -- the entries after an insertion: the new one, or an old one
  abbrev pub Added : Key → V → Node V → Key → V → Type 0
  Added key value node k v = ((k ≡ key) × (v ≡ value)) ⊎ Entry k v node

  Added-split_at :
      (node : Node V) (d : ℕ) (key : Key) (value : V) (k : Key) (v : V)
      → Entry k v (split_at sha256 node d key value)
      → Added key value node k v
  unfolding split_at make_leaf make_branch Entry
  Added-split_at node d key value k v h = elim (Bool-cases (key_bit key d)) [
    | inl e ↦ swapped (rw e at h)
    | inr e ↦ (rw e at h)
  ]
    where
      swapped : (Entry k v node ⊎ ((k ≡ key) × (v ≡ value))) → Added key value node k v
      swapped (inl x) = inr x
      swapped (inr x) = inl x

  split_at-Added :
      (node : Node V) (d : ℕ) (key : Key) (value : V) (k : Key) (v : V)
      → Added key value node k v
      → Entry k v (split_at sha256 node d key value)
  unfolding split_at make_leaf make_branch Entry
  split_at-Added node d key value k v h = elim (Bool-cases (key_bit key d)) [
    | inl e ↦ rw e (elim h [ inl x ↦ inr x | inr x ↦ inl x ])
    | inr e ↦ rw e h
  ]

  pub Added-insert_at :
      (node : Node V) (d : ℕ) (key : Key) (value : V) (k : Key) (v : V)
      → Entry k v (insert_at sha256 node d key value)
      → Added key value node k v
  unfolding insert_at make_branch Entry
  Added-insert_at (leaf stored w f) d key value k v h =
      Added-split_at (leaf stored w f) d key value k v h
  Added-insert_at (branch b l r f) d key value k v h = elim (Bool-cases (ltb b d)) [
    | inr past ↦ Added-split_at (branch b l r f) d key value k v (rw past at h)
    | inl below ↦ elim (Bool-cases (key_bit key b)) [
      | inl e ↦ under_right (rw (below, e) at h) (Added-insert_at r d key value k v)
      | inr e ↦ under_left (rw (below, e) at h) (Added-insert_at l d key value k v)
    ]
  ]

  pub insert_at-Added :
      (node : Node V) (d : ℕ) (key : Key) (value : V) (k : Key) (v : V)
      → Added key value node k v
      → Entry k v (insert_at sha256 node d key value)
  unfolding insert_at make_branch Entry
  insert_at-Added (leaf stored w f) d key value k v h =
      split_at-Added (leaf stored w f) d key value k v h
  insert_at-Added (branch b l r f) d key value k v h = elim (Bool-cases (ltb b d)) [
    | inr past ↦ rw past (split_at-Added (branch b l r f) d key value k v h)
    | inl below ↦ elim (Bool-cases (key_bit key b)) [
      | inl e ↦
          rw (below, e)
            (elim h [
              | inl x ↦ inr (insert_at-Added r d key value k v (inl x))
              | inr (inl x) ↦ inl x
              | inr (inr x) ↦ inr (insert_at-Added r d key value k v (inr x))
            ])
      | inr e ↦
          rw (below, e)
            (elim h [
              | inl x ↦ inl (insert_at-Added l d key value k v (inl x))
              | inr (inl x) ↦ inl (insert_at-Added l d key value k v (inr x))
              | inr (inr x) ↦ inr x
            ])
    ]
  ]

  -- all keys of the trie agree with the key below the bit
  abbrev Matches : Key → ℕ → Node V → Type 0
  Matches key d node = (k : Key) → Has k node → (i : ℕ) → i < d → key_bit k i ≡ key_bit key i

  make_branch-IsTrie :
      (bit : ℕ) (left right : Node V) (key : Key)
      → IsTrie sha256 left
      → IsTrie sha256 right
      → ((k : Key) → Has k left → key_bit k bit ≡ false)
      → ((k : Key) → Has k right → key_bit k bit ≡ true)
      → Matches key bit left
      → Matches key bit right
      → IsTrie sha256 (make_branch sha256 bit left right)
  unfolding IsTrie make_branch Entry
  make_branch-IsTrie bit left right key hl hr on_l on_r ml mr = (hl, hr, on_l, on_r, uniform, refl)
    where
      with_key :
          (k : Key)
          → Has k (make_branch sha256 bit left right)
          → (i : ℕ) → i < bit
          → key_bit k i ≡ key_bit key i
      with_key k (v, inl h) = ml k (v, h)
      with_key k (v, inr h) = mr k (v, h)

      uniform : IsUniform bit (make_branch sha256 bit left right)
      uniform a b ha hb i lt = with_key a ha i lt ∙ sym (with_key b hb i lt)

  -- the key that the descent reaches, and the first bit at which the new key differs from it
  pub record IsPlace (node : Node V) (key terminal : Key) (d : ℕ) : Type 0 where
    pub reached : terminal_key node key ≡ some terminal
    pub same : (i : ℕ) → i < d → key_bit terminal i ≡ key_bit key i
    pub other : key_bit terminal d ≢ key_bit key d

  reached-Has : (node : Node V) (key t : Key) → terminal_key node key ≡ some t → Has t node
  reached-Has node key t q =
      let (u, p, h) = Has-terminal node key in
      subst (λ x. Has x node) (some-injective (sym p ∙ q)) h

  reached-bit :
      (b : ℕ) (l r : Node V) (f : Fingerprint) (key t : Key)
      → IsTrie sha256 (branch b l r f)
      → terminal_key (branch b l r f) key ≡ some t
      → key_bit t b ≡ key_bit key b
  unfolding IsTrie terminal_key terminal_node
  reached-bit b l r f key t (hl, hr, on_l, on_r, _, _) q = elim (Bool-cases (key_bit key b)) [
    | inl e ↦ on_r t (reached-Has r key t (rw e at q)) ∙ sym e
    | inr e ↦ on_l t (reached-Has l key t (rw e at q)) ∙ sym e
  ]

  -- Where the descent of `insert_at` stops, every key agrees with the reached one up to the bit.
  stopped :
      (b : ℕ) (l r : Node V) (f : Fingerprint) (key t : Key) (d : ℕ)
      → IsTrie sha256 (branch b l r f)
      → IsPlace (branch b l r f) key t d
      → d ≤ b
      → (k : Key) → Has k (branch b l r f)
      → (i : ℕ) → i ≤ d
      → key_bit k i ≡ key_bit t i
  unfolding IsTrie
  stopped b l r f key t d h place le k hk i lt =
      let ne : b ≢ d = λ e.
        place.other (
          subst (λ x. key_bit t x ≡ key_bit key x) e (reached-bit b l r f key t h place.reached)) in
      let (_, _, _, _, uniform, _) = h in
      uniform k t hk (reached-Has (branch b l r f) key t place.reached) i (omega arith)

  split_at-IsTrie :
      (node : Node V) (d : ℕ) (key t : Key) (value : V)
      → IsTrie sha256 node
      → IsKey key
      → IsPlace node key t d
      → ((k : Key) → Has k node → (i : ℕ) → i ≤ d → key_bit k i ≡ key_bit t i)
      → IsTrie sha256 (split_at sha256 node d key value)
  unfolding split_at make_leaf IsTrie Entry
  split_at-IsTrie node d key t value h hkey place agree = elim (Bool-cases (key_bit key d)) [
    | inl e ↦ rw e (
        make_branch-IsTrie d node (make_leaf sha256 key value) key h (hkey, refl)
          (λ k hk. agree k hk d (omega arith) ∙ Bool-other _ _ place.other e)
          (λ k (_, (q, _)). ap (λ x. key_bit x d) q ∙ e)
          (λ k hk i lt. agree k hk i (omega arith) ∙ place.same i lt)
          (λ k (_, (q, _)) i lt. ap (λ x. key_bit x i) q))
    | inr e ↦ rw e (
        make_branch-IsTrie d (make_leaf sha256 key value) node key (hkey, refl) h
          (λ k (_, (q, _)). ap (λ x. key_bit x d) q ∙ e)
          (λ k hk. agree k hk d (omega arith) ∙ Bool-same _ _ place.other e)
          (λ k (_, (q, _)) i lt. ap (λ x. key_bit x i) q)
          (λ k hk i lt. agree k hk i (omega arith) ∙ place.same i lt))
  ]

  Has-insert_at :
      (node : Node V) (d : ℕ) (key : Key) (value : V) (P : Key → Type 0)
      → P key
      → ((k : Key) → Has k node → P k)
      → (k : Key) → Has k (insert_at sha256 node d key value)
      → P k
  Has-insert_at node d key value P new old k (v, h) =
      elim (Added-insert_at node d key value k v h) [
        | inl (q, _) ↦ subst P (sym q) new
        | inr e ↦ old k (v, e)
      ]

  pub insert_at-IsTrie :
      (node : Node V) (d : ℕ) (key t : Key) (value : V)
      → IsTrie sha256 node
      → IsKey key
      → IsPlace node key t d
      → IsTrie sha256 (insert_at sha256 node d key value)
  unfolding insert_at IsTrie Entry terminal_key terminal_node
  insert_at-IsTrie (leaf stored w f) d key t value h hkey place =
      split_at-IsTrie (leaf stored w f) d key t value h hkey place
        (λ k (_, (q, _)) i lt. ap (λ x. key_bit x i) (q ∙ some-injective place.reached))
  insert_at-IsTrie (branch b l r f) d key t value h hkey place =
      let (hl, hr, on_l, on_r, uniform, _) = h in
      let found = reached-Has (branch b l r f) key t place.reached in
      let matches = λ (k : Key) (hk : Has k (branch b l r f)) (i : ℕ) (lt : i < b) (lt' : i < d).
        uniform k t hk found i lt ∙ place.same i lt' in
      elim (Bool-cases (ltb b d)) [
        | inr past ↦ rw past (
            split_at-IsTrie (branch b l r f) d key t value h hkey place
              (stopped b l r f key t d h place (ground arith)))
        | inl below ↦
            let lt = ltb→lt b d below in
            elim (Bool-cases (key_bit key b)) [
              | inl e ↦
                  let step = insert_at-IsTrie r d key t value hr hkey (record {
                    reached = rw e at place.reached;
                    same = place.same;
                    other = place.other;
                  }) in
                  rw (below, e)
                    (make_branch-IsTrie b l (insert_at sha256 r d key value) key hl step on_l
                      (Has-insert_at r d key value (λ k. key_bit k b ≡ true) e on_r)
                      (λ k (v, hk) i lt'. matches k (v, inl hk) i lt' (omega arith))
                      (Has-insert_at r d key value
                        (λ k. (i : ℕ) → i < b → key_bit k i ≡ key_bit key i) (λ i _. refl)
                        (λ k (v, hk) i lt'. matches k (v, inr hk) i lt' (omega arith))))
              | inr e ↦
                  let step = insert_at-IsTrie l d key t value hl hkey (record {
                    reached = rw e at place.reached;
                    same = place.same;
                    other = place.other;
                  }) in
                  rw (below, e)
                    (make_branch-IsTrie b (insert_at sha256 l d key value) r key step hr
                      (Has-insert_at l d key value (λ k. key_bit k b ≡ false) e on_l) on_r
                      (Has-insert_at l d key value
                        (λ k. (i : ℕ) → i < b → key_bit k i ≡ key_bit key i) (λ i _. refl)
                        (λ k (v, hk) i lt'. matches k (v, inl hk) i lt' (omega arith)))
                      (λ k (v, hk) i lt'. matches k (v, inr hk) i lt' (omega arith)))
            ]
      ]
