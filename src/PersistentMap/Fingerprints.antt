-- ===== src/PersistentMap/Fingerprints.antt =====
-- naome-checker/src/state/persistent_map.rs: the fingerprint of a map and the keys that it holds.
use naome.Prelude.{
  ℕ, ◌<◌, ◌≡◌, inl, inr, refl, sym, ap, ap₂, ◌∙◌, Bool, true, false, none, some, List, [], arith,
  Option-cases,
}
use naome.PersistentMap.{
  Node, leaf, branch, Fingerprint, PersistentMap, node_fingerprint, get_node, get, contains_key,
  map_fingerprint, leaf_fingerprint, branch_fingerprint,
}
use naome.PersistentMap.Keys.{Key, key_bit}
use naome.PersistentMap.Invariant.{
  Entry, Has, IsTrie, IsMap, Has-terminal, get_node-Entry, Entry-get_node, contains_key-some,
  contains_key-none,
}

module _ {V W : Type 0} where
  abbrev Covers : Node V → Node W → Type 0
  Covers a b = (key : Key) → Has key b → Has key a

true_is_false : (b : Bool) → b ≡ true → b ≡ false → ⊥
true_is_false b p q = cc

-- a branch has two keys that differ at its bit
branch_keys :
    {V : Type 0} (sha256 : List ℕ → Fingerprint) (b : ℕ) (l r : Node V) (f : Fingerprint)
    → IsTrie sha256 (branch b l r f)
    → (x y : Key) × Has x (branch b l r f)
      × Has y (branch b l r f)
      × (key_bit x b ≡ false)
      × (key_bit y b ≡ true)
unfolding IsTrie Entry
branch_keys sha256 b l r f (hl, hr, on_l, on_r, _, _) =
    let (x, _, (v, hx)) = Has-terminal l [] in
    let (y, _, (w, hy)) = Has-terminal r [] in
    (x, y, (v, inl hx), (w, inr hy), on_l x (v, hx), on_r y (w, hy))

-- a trie that has all keys of a branch is uniform no further than the branch's bit
leaf_not-branch :
    {V W : Type 0} (sha256 : List ℕ → Fingerprint) (stored : Key) (v : V) (g : Fingerprint) (b : ℕ)
    (l r : Node W) (f : Fingerprint)
    → IsTrie sha256 (branch b l r f)
    → Covers (leaf stored v g) (branch b l r f)
    → ⊥
unfolding Entry
leaf_not-branch sha256 stored v g b l r f h covers =
    let (x, y, hx, hy, px, py) = branch_keys sha256 b l r f h in
    let (_, (ex, _)) = covers x hx in
    let (_, (ey, _)) = covers y hy in
    true_is_false (key_bit stored b) (ap (λ k. key_bit k b) (sym ey) ∙ py)
      (ap (λ k. key_bit k b) (sym ex) ∙ px)

uniform_bound :
    {V W : Type 0} (sha256 : List ℕ → Fingerprint) (a : ℕ) (k m : Node V) (g : Fingerprint) (b : ℕ)
    (l r : Node W) (f : Fingerprint)
    → IsTrie sha256 (branch a k m g)
    → IsTrie sha256 (branch b l r f)
    → Covers (branch a k m g) (branch b l r f)
    → b < a
    → ⊥
unfolding IsTrie
uniform_bound sha256 a k m g b l r f (_, _, _, _, uniform, _) h covers lt =
    let (x, y, hx, hy, px, py) = branch_keys sha256 b l r f h in
    true_is_false (key_bit x b) (uniform x y (covers x hx) (covers y hy) b lt ∙ py) px

left_Covers :
    {V W : Type 0} (sha256 : List ℕ → Fingerprint) (a b : ℕ) (k m : Node V) (g : Fingerprint)
    (l r : Node W) (f : Fingerprint)
    → a ≡ b
    → IsTrie sha256 (branch a k m g)
    → IsTrie sha256 (branch b l r f)
    → Covers (branch a k m g) (branch b l r f)
    → Covers k l × Covers m r
unfolding IsTrie Entry
left_Covers sha256 a b k m g l r f e (_, _, on_k, on_m, _, _) (_, _, on_l, on_r, _, _) covers =
    (on_left, on_right)
  where
    on_left : Covers k l
    on_left key (v, h) =
        let (w, found) = covers key (v, inl h) in
        elim found [
          | inl x ↦ (w, x)
          | inr x ↦ absurd (
              true_is_false (key_bit key b) (ap (key_bit key) (sym e) ∙ on_m key (w, x))
                (on_l key (v, h)))
        ]

    on_right : Covers m r
    on_right key (v, h) =
        let (w, found) = covers key (v, inr h) in
        elim found [
          | inr x ↦ (w, x)
          | inl x ↦ absurd (
              true_is_false (key_bit key b) (on_r key (v, h))
                (ap (key_bit key) (sym e) ∙ on_k key (w, x)))
        ]

node_fingerprint-eq :
    {V W : Type 0} (sha256 : List ℕ → Fingerprint) (n : Node V) (m : Node W)
    → IsTrie sha256 n
    → IsTrie sha256 m
    → Covers n m
    → Covers m n
    → node_fingerprint n ≡ node_fingerprint m
unfolding IsTrie Entry node_fingerprint
node_fingerprint-eq sha256 (leaf x v f) (leaf y w g) (_, hf) (_, hg) nm mn =
    let (_, (e, _)) = nm y (w, (refl, refl)) in hf ∙ ap (leaf_fingerprint sha256) (sym e) ∙ sym hg
node_fingerprint-eq sha256 (leaf x v f) (branch b l r g) hn hm nm mn =
    absurd (leaf_not-branch sha256 x v f b l r g hm nm)
node_fingerprint-eq sha256 (branch b l r g) (leaf x v f) hn hm nm mn =
    absurd (leaf_not-branch sha256 x v f b l r g hn mn)
node_fingerprint-eq sha256 (branch a k m f) (branch b l r g) hn hm nm mn =
    let above = uniform_bound sha256 a k m f b l r g hn hm nm in
    let below = uniform_bound sha256 b l r g a k m f hm hn mn in
    let e : a ≡ b = ground arith in
    let (kl, mr) = left_Covers sha256 a b k m f l r g e hn hm nm in
    let (lk, rm) = left_Covers sha256 b a l r g k m f (sym e) hm hn mn in
    let (hk, hm', _, _, _, hf) = hn in
    let (hl, hr, _, _, _, hg) = hm in
    let left = node_fingerprint-eq sha256 k l hk hl kl lk in
    let right = node_fingerprint-eq sha256 m r hm' hr mr rm in
    hf
    ∙ ap₂ (λ i p. branch_fingerprint sha256 i p (node_fingerprint m)) e left
    ∙ ap (branch_fingerprint sha256 b (node_fingerprint l)) right
    ∙ sym hg

Has-contains_key :
    {V : Type 0} (sha256 : List ℕ → Fingerprint) (n : Node V) (key : Key)
    → IsTrie sha256 n
    → Has key n
    → contains_key (some n) key ≡ true
unfolding get
Has-contains_key sha256 n key h (v, e) =
    contains_key-some (some n) key v (get_node-Entry sha256 n key v h e)

contains_key-Has :
    {V : Type 0} (n : Node V) (key : Key) → contains_key (some n) key ≡ true → Has key n
unfolding get
contains_key-Has n key h = elim (Option-cases (get_node n key)) [
  | inl q ↦ absurd (true_is_false _ h (contains_key-none (some n) key q))
  | inr (v, q) ↦ (v, Entry-get_node n key v q)
]

-- Two well-formed maps that hold the same keys have the same fingerprint, whatever the values are
-- and in whatever order the keys were inserted.
pub map_fingerprint-eq :
    {V W : Type 0} (sha256 : List ℕ → Fingerprint) (m : PersistentMap V) (n : PersistentMap W)
    → IsMap sha256 m
    → IsMap sha256 n
    → ((key : Key) → contains_key m key ≡ contains_key n key)
    → map_fingerprint m ≡ map_fingerprint n
unfolding IsMap map_fingerprint get
map_fingerprint-eq sha256 none none hm hn same = refl
map_fingerprint-eq {W = W} sha256 none (some n) hm hn same =
    let (x, _, has) = Has-terminal n [] in
    absurd (
      true_is_false _ (same x ∙ Has-contains_key sha256 n x hn has) (contains_key-none none x refl))
map_fingerprint-eq sha256 (some m) none hm hn same =
    let (x, _, has) = Has-terminal m [] in
    absurd (
      true_is_false _ (sym (same x) ∙ Has-contains_key sha256 m x hm has)
        (contains_key-none none x refl))
map_fingerprint-eq sha256 (some m) (some n) hm hn same =
    node_fingerprint-eq sha256 m n hm hn
      (λ key has. contains_key-Has m key (same key ∙ Has-contains_key sha256 n key hn has))
      (λ key has. contains_key-Has n key (sym (same key) ∙ Has-contains_key sha256 m key hm has))
