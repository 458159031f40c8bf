-- ===== src/Canonical.antt =====
-- crates/naome-foundation/src/formula/canonical.rs: the canonical bytes of a formula.
-- A `Cursor` is the list of the bytes that it has not read. `usize` sums that cannot overflow on a
-- 64-bit target are plain sums.
pub mod Implication
pub mod Words
pub mod Layout
pub mod Encode
pub mod Decode
pub mod Accepts
pub mod RoundTrip
use naome.Prelude.{
  ℕ, zero, suc, ◌+◌, Bool, true, false, Option, none, some, List, [], ◌∷◌, ◌++◌, ltb, leb, ◌==◌,
  length, min, if◌then◌else◌,
}
use naome.Prelude.Map
use naome.Prelude.Map.{Map}
use naome.Prelude.Result.{Result, ok, err, ◌>>=◌, ◌>>◌}
use naome.Canonical.Words.{to_be_bytes, from_be_bytes}
use naome.Node
use naome.Node.{Node, Variable, bound, free, FreeVariable}
use naome.Formula
use naome.Formula.{Formula}

abbrev pub formula_max_bytes : ℕ
formula_max_bytes = 393216

abbrev pub formula_max_depth : ℕ
formula_max_depth = 256

abbrev pub formula_max_nodes : ℕ
formula_max_nodes = 65536

pub data FormulaCodecError : Type 0 where
  input_too_long : ℕ → ℕ → FormulaCodecError
  node_limit_exceeded : ℕ → FormulaCodecError
  depth_limit_exceeded : ℕ → FormulaCodecError
  unexpected_end : FormulaCodecError
  unknown_formula_tag : ℕ → FormulaCodecError
  unknown_variable_tag : ℕ → FormulaCodecError
  dangling_bound_variable : ℕ → ℕ → FormulaCodecError
  trailing_bytes : ℕ → FormulaCodecError

abbrev pub Outcome : Type 0 → Type 0
Outcome A = Result FormulaCodecError A

abbrev pub Cursor : Type 0
Cursor = List ℕ

pub record NodeBudget : Type 0 where
  pub used : ℕ
  pub maximum : ℕ

unfoldable pub new_budget : ℕ → NodeBudget
new_budget maximum = record { used = 0; maximum = min maximum formula_max_nodes }

unfoldable pub charge : NodeBudget → Outcome NodeBudget
charge b =
    if b.used == b.maximum
    then err (node_limit_exceeded b.maximum)
    else ok (record b { used = b.used + 1 })

unfoldable pub check_depth : ℕ → Outcome (Unit {0})
check_depth depth =
    if leb formula_max_depth depth then err (depth_limit_exceeded formula_max_depth) else ok tt

pub data FreeVariableEncoding : Type 0 where
  preserve : FreeVariableEncoding
  normalize : Map ℕ → ℕ → FreeVariableEncoding

-- The entry of `identifiers`, or the next identifier, which is then taken. The sum is plain, where the
-- source panics from 2^32 on: there are at most two identifiers for each of the 65,536 nodes.
abbrev pub or_next : Option ℕ → FreeVariable → Map ℕ → ℕ → ℕ × FreeVariableEncoding
or_next (some identifier) variable identifiers next = (identifier, normalize identifiers next)
or_next none variable identifiers next =
    (next, normalize (Map.insert variable next identifiers) (next + 1))

unfoldable pub identifier : FreeVariableEncoding → FreeVariable → ℕ × FreeVariableEncoding
unfolding Map.get Map.insert
identifier preserve variable = (variable, preserve)
identifier (normalize identifiers next) variable =
    or_next (Map.get variable identifiers) variable identifiers next

-- what `encode_node` changes
pub record Encoder : Type 0 where
  pub nodes : NodeBudget
  pub variables : FreeVariableEncoding
  pub output : List ℕ

unfoldable pub push : ℕ → Encoder → Encoder
push byte e = record e { output = e.output ++ byte ∷ [] }

unfoldable pub encode_variable : Variable → Encoder → Encoder
unfolding identifier to_be_bytes
encode_variable (free variable) e =
    let (value, variables) = identifier e.variables variable in
    record e { variables = variables; output = e.output ++ 0 ∷ to_be_bytes value }
encode_variable (bound index) e = record e { output = e.output ++ 1 ∷ to_be_bytes index }

-- `check_depth(depth)?; nodes.charge()?`
unfoldable pub enter : ℕ → Encoder → Outcome Encoder
unfolding check_depth charge
enter depth e = do check_depth depth; nodes ← charge e.nodes; ok (record e { nodes = nodes })

unfoldable pub encode_node : Node → ℕ → Encoder → Outcome Encoder
unfolding enter push encode_variable
encode_node (Node.equal left right) depth e = do
  e ← enter depth e
  ok (encode_variable right (encode_variable left (push 0 e)))
encode_node (Node.member element set) depth e = do
  e ← enter depth e
  ok (encode_variable set (encode_variable element (push 1 e)))
encode_node (Node.not formula) depth e = do
  e ← enter depth e
  encode_node formula (depth + 1) (push 2 e)
encode_node (Node.implies antecedent consequent) depth e = do
  e ← enter depth e
  e ← encode_node antecedent (depth + 1) (push 3 e)
  encode_node consequent (depth + 1) e
encode_node (Node.for_all body) depth e = do
  e ← enter depth e
  encode_node body (depth + 1) (push 4 e)

unfoldable pub encode_with_node_limit : Formula → ℕ → FreeVariableEncoding → Outcome (List ℕ × ℕ)
unfolding new_budget encode_node
encode_with_node_limit f maximum_nodes variables = do
  e ←
      encode_node f 0
        (record { nodes = new_budget maximum_nodes; variables = variables; output = [] })
  ok (e.output, e.nodes.used)

unfoldable pub encode_canonical_with_node_limit : Formula → ℕ → Outcome (List ℕ × ℕ)
unfolding encode_with_node_limit
encode_canonical_with_node_limit f maximum_nodes = encode_with_node_limit f maximum_nodes preserve

unfoldable pub encode_canonical : Formula → Outcome (List ℕ)
unfolding encode_canonical_with_node_limit
encode_canonical f = do (bytes, _) ← encode_canonical_with_node_limit f formula_max_nodes; ok bytes

unfoldable pub encode_free_variable_normalized : Formula → Outcome (List ℕ)
unfolding encode_with_node_limit
encode_free_variable_normalized f = do
  (bytes, _) ← encode_with_node_limit f formula_max_nodes (normalize [] 0)
  ok bytes

unfoldable pub read_u8 : Cursor → Outcome (ℕ × Cursor)
read_u8 [] = err unexpected_end
read_u8 (byte ∷ rest) = ok (byte, rest)

unfoldable pub read_u32 : Cursor → Outcome (ℕ × Cursor)
unfolding from_be_bytes
read_u32 (a ∷ b ∷ c ∷ d ∷ rest) = ok (from_be_bytes a b c d, rest)
read_u32 _ = err unexpected_end

unfoldable pub decode_variable : ℕ → Cursor → Outcome (Variable × Cursor)
unfolding read_u8 read_u32
decode_variable binder_depth c = do
  (tag, c) ← read_u8 c
  (value, c) ← read_u32 c
  if tag == 0
      then ok (free value, c)
      else if tag == 1
      then (if ltb value binder_depth
          then ok (bound value, c)
          else err (dangling_bound_variable value binder_depth))
      else err (unknown_variable_tag tag)

-- a formula decoder, given the binder depth
abbrev pub Decoder : Type 0
Decoder = ℕ → Cursor → NodeBudget → Outcome (Node × Cursor × NodeBudget)

-- The match of `decode_node` on the tag; `recur` is its call one level deeper.
unfoldable pub decode_tagged : Decoder → ℕ → Decoder
unfolding decode_variable
decode_tagged recur tag binder_depth c nodes =
    if tag == 0
    then (do
      (left, c) ← decode_variable binder_depth c
      (right, c) ← decode_variable binder_depth c
      ok (Node.equal left right, c, nodes))
    else if tag == 1
    then (do
      (left, c) ← decode_variable binder_depth c
      (right, c) ← decode_variable binder_depth c
      ok (Node.member left right, c, nodes))
    else if tag == 2
    then (do (n, c, nodes) ← recur binder_depth c nodes; ok (Node.not n, c, nodes))
    else if tag == 3
    then (do
      (l, c, nodes) ← recur binder_depth c nodes
      (r, c, nodes) ← recur binder_depth c nodes
      ok (Node.implies l r, c, nodes))
    else if tag == 4
    then (do (n, c, nodes) ← recur (binder_depth + 1) c nodes; ok (Node.for_all n, c, nodes))
    else err (unknown_formula_tag tag)

-- The first argument is `FORMULA_MAX_DEPTH - depth`, so `check_depth` fails where it is 0.
unfoldable pub decode_node : ℕ → Decoder
unfolding charge read_u8 decode_tagged
decode_node zero binder_depth c nodes = err (depth_limit_exceeded formula_max_depth)
decode_node (suc levels) binder_depth c nodes = do
  nodes ← charge nodes
  (tag, c) ← read_u8 c
  decode_tagged (decode_node levels) tag binder_depth c nodes

-- the test on `cursor.remaining()`
unfoldable pub finish : Node → Cursor → NodeBudget → Outcome (Formula × ℕ)
finish n [] nodes = ok (n, nodes.used)
finish n (b ∷ c) nodes = err (trailing_bytes (length (b ∷ c)))

unfoldable pub decode_canonical_with_node_limit : List ℕ → ℕ → Outcome (Formula × ℕ)
unfolding new_budget decode_node finish
decode_canonical_with_node_limit bytes maximum_nodes =
    if ltb formula_max_bytes (length bytes)
    then err (input_too_long (length bytes) formula_max_bytes)
    else do
      (n, c, nodes) ← decode_node formula_max_depth 0 bytes (new_budget maximum_nodes)
      finish n c nodes

unfoldable pub decode_canonical : List ℕ → Outcome Formula
unfolding decode_canonical_with_node_limit
decode_canonical bytes = do (f, _) ← decode_canonical_with_node_limit bytes formula_max_nodes; ok f
