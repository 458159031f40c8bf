-- ===== src/PersistentMap/Entries.antt =====
-- naome-checker/src/state/persistent_map.rs: the iteration over the entries of a map.
use naome.Prelude.{
  ℕ, zero, suc, ◌≤◌, ◌≡◌, ◌⊎◌, ◌↔◌, inl, inr, refl, sym, ap, ap₂, ◌∙◌, subst, none, some, List, [],
  ◌∷◌, ◌++◌, append_assoc, append-nil, arith,
}
use naome.PersistentMap.{
  Node, leaf, branch, Fingerprint, PersistentMap, get, entries, entries_from, yields, weight,
}
use naome.PersistentMap.Keys.{Key}
use naome.PersistentMap.Invariant.{Entry, IsMap, get_node-Entry, Entry-get_node}

-- membership in a list
pub data Among {A : Type 0} (x : A) : List A → Type 0 where
  first : {xs : List A} → Among x (x ∷ xs)
  later : {y : A} {xs : List A} → Among x xs → Among x (y ∷ xs)

module _ {A : Type 0} where
  Among-append_left : (x : A) (xs ys : List A) → Among x xs → Among x (xs ++ ys)
  Among-append_left x _ ys first = first
  Among-append_left x _ ys (later {xs = xs} h) = later (Among-append_left x xs ys h)

  Among-append_right : (x : A) (xs ys : List A) → Among x ys → Among x (xs ++ ys)
  Among-append_right x [] ys h = h
  Among-append_right x (y ∷ xs) ys h = later (Among-append_right x xs ys h)

  Among-append_inv : (x : A) (xs ys : List A) → Among x (xs ++ ys) → Among x xs ⊎ Among x ys
  Among-append_inv x [] ys h = inr h
  Among-append_inv x (y ∷ xs) ys first = inl first
  Among-append_inv x (y ∷ xs) ys (later h) = elim (Among-append_inv x xs ys h) [
    | inl l ↦ inl (later l)
    | inr r ↦ inr r
  ]

module _ {V : Type 0} where
  unfoldable flatten : Node V → List (Key × V)
  flatten (leaf key value f) = (key, value) ∷ []
  flatten (branch bit left right f) = flatten left ++ flatten right

  unfoldable flatten_all : List (Node V) → List (Key × V)
  unfolding flatten
  flatten_all [] = []
  flatten_all (node ∷ pending) = flatten node ++ flatten_all pending

  -- The stack machine visits the entries of the tries on the stack from left to right.
  entries_from-eq-flatten_all :
      (fuel : ℕ) (pending : List (Node V))
      → weight pending ≤ fuel
      → entries_from fuel pending ≡ some (flatten_all pending)
  unfolding entries_from flatten_all flatten yields
  entries_from-eq-flatten_all zero [] h = refl
  entries_from-eq-flatten_all zero (leaf k v f ∷ pending) h = absurd (omega arith)
  entries_from-eq-flatten_all zero (branch b l r f ∷ pending) h = absurd (omega arith)
  entries_from-eq-flatten_all (suc fuel) [] h = refl
  entries_from-eq-flatten_all (suc fuel) (leaf k v f ∷ pending) h =
      ap (yields (k, v)) (entries_from-eq-flatten_all fuel pending (omega arith))
  entries_from-eq-flatten_all (suc fuel) (branch b l r f ∷ pending) h =
      entries_from-eq-flatten_all fuel (l ∷ r ∷ pending) (omega arith)
      ∙ ap (λ xs. some xs) (sym (append_assoc (flatten l) (flatten r) (flatten_all pending)))

  flatten-Entry :
      (node : Node V) (key : Key) (value : V)
      → Among (key, value) (flatten node)
      → Entry key value node
  unfolding flatten Entry
  flatten-Entry (leaf k v f) key value first = (refl, refl)
  flatten-Entry (leaf k v f) key value (later x) = elim x [ ]
  flatten-Entry (branch b l r f) key value h =
      elim (Among-append_inv (key, value) (flatten l) (flatten r) h) [
        | inl x ↦ inl (flatten-Entry l key value x)
        | inr x ↦ inr (flatten-Entry r key value x)
      ]

  Entry-flatten :
      (node : Node V) (key : Key) (value : V)
      → Entry key value node
      → Among (key, value) (flatten node)
  unfolding flatten Entry
  Entry-flatten (leaf k v f) key value (p, q) =
      subst (λ e. Among e ((k, v) ∷ [])) (sym (ap₂ (λ (k : Key) (v : V). (k, v)) p q)) first
  Entry-flatten (branch b l r f) key value (inl h) =
      Among-append_left (key, value) (flatten l) (flatten r) (Entry-flatten l key value h)
  Entry-flatten (branch b l r f) key value (inr h) =
      Among-append_right (key, value) (flatten l) (flatten r) (Entry-flatten r key value h)

  whole : (node : Node V) → flatten_all (node ∷ []) ≡ flatten node
  unfolding flatten_all
  whole node = append-nil (flatten node)

  -- The iteration over a well-formed map comes to its end within as many turns as the map has nodes,
  -- and yields exactly the bindings that `get` finds.
  pub entries-eq-get :
      (sha256 : List ℕ → Fingerprint) (m : PersistentMap V)
      → IsMap sha256 m
      → (xs : List (Key × V)) × (entries m ≡ some xs)
        × ((key : Key) (value : V) → Among (key, value) xs ↔ (get m key ≡ some value))
  unfolding entries IsMap get entries_from
  entries-eq-get sha256 none h = ([], refl, λ key value. (λ a. elim a [ ], λ e. cc))
  entries-eq-get sha256 (some root) h = (
    flatten root,
    entries_from-eq-flatten_all _ (root ∷ []) (omega arith) ∙ ap (λ xs. some xs) (whole root),
    λ key value. (
      λ a. get_node-Entry sha256 root key value h (flatten-Entry root key value a),
      λ e. Entry-flatten root key value (Entry-get_node root key value e),
    ),
  )
