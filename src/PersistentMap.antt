-- ===== src/PersistentMap.antt =====
-- naome-checker/src/state/persistent_map.rs: the immutable Patricia map. An `Arc` is the node that
-- it points to. `sha256` is the digest of the `sha2` crate; the calls of `update` before `finalize`
-- are the concatenation of their arguments.
pub mod Keys
pub mod Bits
pub mod Invariant
pub mod Insert
pub mod Replace
pub mod Refinement
pub mod Extension
pub mod Fingerprints
pub mod Entries
use naome.Prelude.{
  ℕ, zero, suc, ◌+◌, ◌≡◌, Bool, true, false, Option, none, some, List, [], ◌∷◌, ◌++◌, leb, ltb,
  if◌then◌else◌,
}
use naome.PersistentMap.Keys.{Key, equal_bytes, key_bit, first_differing_bit}

abbrev pub Fingerprint : Type 0
Fingerprint = List ℕ

pub data Node (V : Type 0) : Type 0 where
  leaf : Key → V → Fingerprint → Node V
  branch : ℕ → Node V → Node V → Fingerprint → Node V

-- the prefix `naome:checked-map:leaf:v1\0`
abbrev pub leaf_domain : List ℕ
leaf_domain =
    110 ∷ 97 ∷ 111 ∷ 109 ∷ 101 ∷ 58 ∷ 99 ∷ 104 ∷ 101 ∷ 99 ∷ 107 ∷ 101 ∷ 100 ∷ 45 ∷ 109 ∷ 97 ∷ 112
    ∷ 58 ∷ 108 ∷ 101 ∷ 97 ∷ 102 ∷ 58 ∷ 118 ∷ 49 ∷ 0 ∷ []

-- the prefix `naome:checked-map:branch:v1\0`
abbrev pub branch_domain : List ℕ
branch_domain =
    110 ∷ 97 ∷ 111 ∷ 109 ∷ 101 ∷ 58 ∷ 99 ∷ 104 ∷ 101 ∷ 99 ∷ 107 ∷ 101 ∷ 100 ∷ 45 ∷ 109 ∷ 97 ∷ 112
    ∷ 58 ∷ 98 ∷ 114 ∷ 97 ∷ 110 ∷ 99 ∷ 104 ∷ 58 ∷ 118 ∷ 49 ∷ 0 ∷ []

abbrev pub PersistentMap : Type 0 → Type 0
PersistentMap V = Option (Node V)

abbrev pub is_some : {V : Type 0} → Option V → Bool
is_some none = false
is_some (some value) = true

module _ {V : Type 0} where
  unfoldable pub node_fingerprint : Node V → Fingerprint
  node_fingerprint (leaf key value fingerprint) = fingerprint
  node_fingerprint (branch bit left right fingerprint) = fingerprint

  unfoldable pub terminal_node : Node V → Key → Node V
  terminal_node (leaf stored value fingerprint) key = leaf stored value fingerprint
  terminal_node (branch bit left right fingerprint) key =
      let on_right = terminal_node right key in
      let on_left = terminal_node left key in if key_bit key bit then on_right else on_left

  unfoldable leaf_key : Node V → Option Key
  leaf_key (leaf stored value fingerprint) = some stored
  leaf_key (branch bit left right fingerprint) = none

  -- `none` is the `unreachable!`
  unfoldable pub terminal_key : Node V → Key → Option Key
  unfolding terminal_node leaf_key
  terminal_key node key = leaf_key (terminal_node node key)

  -- the loop of `get`
  unfoldable pub get_node : Node V → Key → Option V
  unfolding equal_bytes
  get_node (leaf stored value fingerprint) key = if equal_bytes stored key then some value else none
  get_node (branch bit left right fingerprint) key =
      let on_right = get_node right key in
      let on_left = get_node left key in if key_bit key bit then on_right else on_left

  unfoldable pub get : PersistentMap V → Key → Option V
  unfolding get_node
  get none key = none
  get (some node) key = get_node node key

  unfoldable pub contains_key : PersistentMap V → Key → Bool
  unfolding get
  contains_key m key = is_some (get m key)

module _ (sha256 : List ℕ → Fingerprint) where
  unfoldable pub leaf_fingerprint : Key → Fingerprint
  leaf_fingerprint key = sha256 (leaf_domain ++ key)

  unfoldable pub branch_fingerprint : ℕ → Fingerprint → Fingerprint → Fingerprint
  branch_fingerprint bit left right = sha256 (branch_domain ++ (bit ∷ []) ++ left ++ right)

  module _ {V : Type 0} where
    unfoldable pub make_leaf : Key → V → Node V
    unfolding leaf_fingerprint
    make_leaf key value = leaf key value (leaf_fingerprint key)

    unfoldable pub make_branch : ℕ → Node V → Node V → Node V
    unfolding branch_fingerprint node_fingerprint
    make_branch bit left right =
        branch bit left right
          (branch_fingerprint bit (node_fingerprint left) (node_fingerprint right))

    unfoldable pub replace_at : Node V → Key → V → Node V
    unfolding make_leaf make_branch
    replace_at (leaf stored old fingerprint) key value = make_leaf key value
    replace_at (branch bit left right fingerprint) key value =
        let on_right = replace_at right key value in
        let on_left = replace_at left key value in
        if key_bit key bit then make_branch bit left on_right else make_branch bit on_left right

    -- the new branch of `insert_at`
    unfoldable pub split_at : Node V → ℕ → Key → V → Node V
    unfolding make_leaf make_branch
    split_at node differing_bit key value =
        if key_bit key differing_bit
        then make_branch differing_bit node (make_leaf key value)
        else make_branch differing_bit (make_leaf key value) node

    unfoldable pub insert_at : Node V → ℕ → Key → V → Node V
    unfolding make_branch split_at
    insert_at (leaf stored old fingerprint) differing_bit key value =
        split_at (leaf stored old fingerprint) differing_bit key value
    insert_at (branch bit left right fingerprint) differing_bit key value =
        let on_right = insert_at right differing_bit key value in
        let on_left = insert_at left differing_bit key value in
        if ltb bit differing_bit
        then (if key_bit key bit
            then make_branch bit left on_right
            else make_branch bit on_left right)
        else split_at (branch bit left right fingerprint) differing_bit key value

    -- `insert` at the bit that `first_differing_bit` returns
    unfoldable insert_differing : Node V → Key → V → Option ℕ → Option (PersistentMap V × Bool)
    unfolding insert_at
    insert_differing root key value none = none
    insert_differing root key value (some differing_bit) =
        some (some (insert_at root differing_bit key value), true)

    -- `insert` with the key that `terminal_key` returns
    unfoldable insert_terminal : Node V → Key → V → Option Key → Option (PersistentMap V × Bool)
    unfolding insert_differing first_differing_bit
    insert_terminal root key value none = none
    insert_terminal root key value (some terminal) =
        if equal_bytes terminal key
        then some (some root, false)
        else insert_differing root key value (first_differing_bit terminal key)

    -- the new map, and whether a leaf was inserted; `none` is a panic
    unfoldable pub insert : PersistentMap V → Key → V → Option (PersistentMap V × Bool)
    unfolding make_leaf terminal_key insert_terminal
    insert none key value = some (some (make_leaf key value), true)
    insert (some root) key value = insert_terminal root key value (terminal_key root key)

    unfoldable insert_or_keep : Option (PersistentMap V × Bool) → Option (PersistentMap V)
    insert_or_keep none = none
    insert_or_keep (some (m, inserted)) = some m

    -- `none` is a panic
    unfoldable pub set : PersistentMap V → Key → V → Option (PersistentMap V)
    unfolding contains_key replace_at insert insert_or_keep
    set m key value =
        if contains_key m key
        then (elim m [ none ↦ none | some root ↦ some (some (replace_at root key value)) ])
        else insert_or_keep (insert m key value)

module _ {V : Type 0} where
  unfoldable pub map_fingerprint : PersistentMap V → Fingerprint
  unfolding node_fingerprint
  map_fingerprint none =
      0 ∷ 0 ∷ 0 ∷ 0 ∷ 0 ∷ 0 ∷ 0 ∷ 0 ∷ 0 ∷ 0 ∷ 0 ∷ 0 ∷ 0 ∷ 0 ∷ 0 ∷ 0 ∷ 0 ∷ 0 ∷ 0 ∷ 0 ∷ 0 ∷ 0 ∷ 0 ∷ 0
      ∷ 0 ∷ 0 ∷ 0 ∷ 0 ∷ 0 ∷ 0 ∷ 0 ∷ 0 ∷ []
  map_fingerprint (some root) = node_fingerprint root

  -- the number of nodes of the tries of a stack
  abbrev node_weight : Node V → ℕ
  node_weight (leaf key value fingerprint) = 1
  node_weight (branch bit left right fingerprint) = node_weight left + node_weight right + 1

  abbrev pub weight : List (Node V) → ℕ
  weight [] = 0
  weight (node ∷ pending) = node_weight node + weight pending

  unfoldable pub yields : Key × V → Option (List (Key × V)) → Option (List (Key × V))
  yields entry none = none
  yields entry (some rest) = some (entry ∷ rest)

  -- The iterator that `entries` returns, run to its end from the given stack. Each turn takes one node;
  -- `none` says that the fuel ran out before the end.
  unfoldable pub entries_from : ℕ → List (Node V) → Option (List (Key × V))
  unfolding yields
  entries_from fuel [] = some []
  entries_from zero (node ∷ pending) = none
  entries_from (suc fuel) (leaf key value fingerprint ∷ pending) =
      yields (key, value) (entries_from fuel pending)
  entries_from (suc fuel) (branch bit left right fingerprint ∷ pending) =
      entries_from fuel (left ∷ right ∷ pending)

  abbrev pub pending_of : PersistentMap V → List (Node V)
  pending_of none = []
  pending_of (some root) = root ∷ []

  unfoldable pub entries : PersistentMap V → Option (List (Key × V))
  unfolding entries_from
  entries m = entries_from (weight (pending_of m)) (pending_of m)
