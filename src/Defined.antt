-- ===== src/Defined.antt =====
-- crates/naome-proof/src/defined_formula.rs: formulas that apply definitions, and their expansion.
-- The private `Variable`, `NodeBudget` and `FreeVariableEncoding` of the file are those of the
-- foundation, field by field. A resolver is the function `resolve_definition`.
pub mod Primitive
pub mod Fuel
use naome.Prelude.{
  ℕ, zero, suc, ◌+◌, ◌-◌, ◌≤◌, Bool, true, false, ◌||◌, Option, none, some, List, [], ◌∷◌, ◌++◌,
  ltb, leb, ◌==◌, length, get_elem?, min, if◌then◌else◌,
}
use naome.Prelude.Result.{Result, ok, err, map_err, ◌>>=◌, ◌>>◌}
use naome.Node.{Variable, bound, free, FreeVariable}
use naome.Formula.{Formula}
use naome.Canonical
use naome.Canonical.{
  Encoder, FreeVariableEncoding, NodeBudget, new_budget, push, encode_variable, formula_max_bytes,
  formula_max_depth, formula_max_nodes,
}
use naome.Canonical.Words.{to_be_bytes}
use naome.Checker
use naome.Checker.{Identity, ContextError, DefinedFormulaCodecError, DefinitionExpansionError}
use naome.PersistentMap.Keys.{equal_bytes}

pub data Node : Type 0 where
  equal member : Variable → Variable → Node
  not : Node → Node
  implies : Node → Node → Node
  for_all : Node → Node
  defined_relation : Identity → List Variable → Node

-- `DefinedFormula(Node)`
abbrev pub DefinedFormula : Type 0
DefinedFormula = Node

unfoldable pub first_definition_reference : Node → Option Identity
first_definition_reference (defined_relation id arguments) = some id
first_definition_reference (not n) = first_definition_reference n
first_definition_reference (for_all n) = first_definition_reference n
first_definition_reference (implies l r) = elim (first_definition_reference l) [
  | some id ↦ some id
  | none ↦ first_definition_reference r
]
first_definition_reference _ = none

unfoldable pub contains_definition : Node → Bool
contains_definition (defined_relation id arguments) = true
contains_definition (not n) = contains_definition n
contains_definition (for_all n) = contains_definition n
contains_definition (implies l r) = contains_definition l || contains_definition r
contains_definition _ = false

-- the references that `collect_definition_references` pushes
unfoldable pub definition_references : Node → List Identity
definition_references (defined_relation id arguments) = id ∷ []
definition_references (not n) = definition_references n
definition_references (for_all n) = definition_references n
definition_references (implies l r) = definition_references l ++ definition_references r
definition_references _ = []

abbrev pub Outcome : Type 0 → Type 0
Outcome A = Result DefinedFormulaCodecError A

-- `check_depth_limit(depth, maximum)?; nodes.charge()?`
unfoldable pub enter : ℕ → ℕ → Encoder → Outcome Encoder
enter depth maximum e =
    if leb maximum depth
    then err (Checker.depth_limit_exceeded maximum)
    else if e.nodes.used == e.nodes.maximum
    then err (Checker.node_limit_exceeded e.nodes.maximum)
    else ok (record e { nodes = record (e.nodes) { used = e.nodes.used + 1 } })

-- the test on `output.len()` at the end of `encode_node`
unfoldable pub within_bytes : Encoder → Outcome Encoder
within_bytes e =
    if ltb formula_max_bytes (length e.output)
    then err (Checker.input_too_long (length e.output) formula_max_bytes)
    else ok e

unfoldable pub encode_arguments : List Variable → Encoder → Encoder
unfolding encode_variable
encode_arguments [] e = e
encode_arguments (argument ∷ arguments) e = encode_arguments arguments (encode_variable argument e)

unfoldable pub encode_relation : Identity → List Variable → Bool → Encoder → Outcome Encoder
unfolding push encode_arguments to_be_bytes
encode_relation id arguments false e = err (Checker.unexpanded_definition id)
encode_relation id arguments true e =
    if ltb (length arguments) 4294967296
    then ok (
        encode_arguments arguments
          (record e { output = e.output ++ 5 ∷ (id ++ to_be_bytes (length arguments)) }))
    else err (Checker.too_many_definition_arguments (length arguments))

unfoldable pub encode_node : Node → ℕ → Bool → ℕ → Encoder → Outcome Encoder
unfolding enter within_bytes push encode_variable encode_relation
encode_node (equal left right) depth allow_definitions maximum_depth e = do
  e ← enter depth maximum_depth e
  within_bytes (encode_variable right (encode_variable left (push 0 e)))
encode_node (member left right) depth allow_definitions maximum_depth e = do
  e ← enter depth maximum_depth e
  within_bytes (encode_variable right (encode_variable left (push 1 e)))
encode_node (not n) depth allow_definitions maximum_depth e = do
  e ← enter depth maximum_depth e
  e ← encode_node n (depth + 1) allow_definitions maximum_depth (push 2 e)
  within_bytes e
encode_node (implies l r) depth allow_definitions maximum_depth e = do
  e ← enter depth maximum_depth e
  e ← encode_node l (depth + 1) allow_definitions maximum_depth (push 3 e)
  e ← encode_node r (depth + 1) allow_definitions maximum_depth e
  within_bytes e
encode_node (for_all n) depth allow_definitions maximum_depth e = do
  e ← enter depth maximum_depth e
  e ← encode_node n (depth + 1) allow_definitions maximum_depth (push 4 e)
  within_bytes e
encode_node (defined_relation id arguments) depth allow_definitions maximum_depth e = do
  e ← enter depth maximum_depth e
  e ← encode_relation id arguments allow_definitions e
  within_bytes e

unfoldable pub encode_with_limits :
    Node → FreeVariableEncoding → Bool → ℕ → ℕ → Outcome (List ℕ × ℕ)
unfolding new_budget encode_node
encode_with_limits n variables allow_definitions maximum_nodes maximum_depth = do
  e ←
      encode_node n 0 allow_definitions (min maximum_depth formula_max_depth)
        (record { nodes = new_budget maximum_nodes; variables = variables; output = [] })
  ok (e.output, e.nodes.used)

unfoldable pub into_primitive : Node → Outcome Formula
unfolding encode_with_limits Canonical.decode_canonical
into_primitive n = do
  (bytes, _) ← encode_with_limits n Canonical.preserve false formula_max_nodes formula_max_depth
  map_err Checker.primitive (Canonical.decode_canonical bytes)

pub record DefinitionResolution : Type 0 where
  pub relation_arity : ℕ
  pub body : Node

abbrev pub DefinitionResolver : Type 0
DefinitionResolver = Identity → Result ContextError (Option DefinitionResolution)

abbrev pub Expansion : Type 0 → Type 0
Expansion A = Result DefinitionExpansionError A

-- `budget.charge()?` of `ExpansionBudget`
unfoldable pub charge : NodeBudget → Expansion NodeBudget
charge b =
    if b.used == b.maximum
    then err (Checker.expansion_nodes_exceeded b.maximum)
    else ok (record b { used = b.used + 1 })

-- `checked_add` on `u32`
unfoldable pub shift : ℕ → ℕ → Expansion Variable
shift index depth =
    if ltb (index + depth) 4294967296
    then ok (bound (index + depth))
    else err (Checker.expansion_depth_exceeded formula_max_depth)

unfoldable pub instantiate_argument : ℕ → Option Variable → ℕ → Expansion Variable
unfolding shift
instantiate_argument parameter none depth = err (Checker.undeclared_formal_variable parameter)
instantiate_argument parameter (some (bound index)) depth = shift index depth
instantiate_argument parameter (some (free x)) depth = ok (free x)

unfoldable pub instantiate_variable : Variable → Option (List Variable) → ℕ → Expansion Variable
unfolding instantiate_argument
instantiate_variable v none depth = ok v
instantiate_variable (bound i) (some arguments) depth = ok (bound i)
instantiate_variable (free x) (some arguments) depth =
    instantiate_argument x (get_elem? arguments x) depth

unfoldable pub instantiate_variables :
    List Variable → Option (List Variable) → ℕ → Expansion (List Variable)
unfolding instantiate_variable
instantiate_variables [] substitution depth = ok []
instantiate_variables (v ∷ vs) substitution depth = do
  w ← instantiate_variable v substitution depth
  ws ← instantiate_variables vs substitution depth
  ok (w ∷ ws)

abbrev pub contains : Identity → List Identity → Bool
contains id [] = false
contains id (other ∷ rest) = equal_bytes other id || contains id rest

unfoldable pub resolved : Identity → Option DefinitionResolution → Expansion DefinitionResolution
resolved id (some definition) = ok definition
resolved id none = err (Checker.unknown_definition id)

-- the three tests between `resolve_definition` and the call on the body
unfoldable pub admit :
    Identity → List Variable → DefinitionResolution → ℕ → List Identity → Expansion (Unit {0})
admit id arguments definition formula_depth definitions =
    if length arguments == definition.relation_arity
    then (if contains id definitions
        then err (Checker.cyclic_definition id)
        else if leb (formula_max_depth - formula_depth) (length definitions)
        then err (Checker.expansion_depth_exceeded formula_max_depth)
        else ok tt)
    else err (Checker.arity_mismatch id definition.relation_arity (length arguments))

-- `substitution_depth + u32::from(substitution.is_some())`
abbrev pub under_binder : Option (List Variable) → ℕ → ℕ
under_binder none depth = depth
under_binder (some arguments) depth = depth + 1

-- The arguments of `expand_node` after the resolver.
abbrev pub Expander : Type 0
Expander =
    Node
    → Option (List Variable)
    → ℕ
    → ℕ
    → List Identity
    → NodeBudget
    → Expansion (Node × NodeBudget)

-- The match of `expand_node` on the node; `recur` is its call of itself.
unfoldable pub expand_match : DefinitionResolver → Expander → Expander
unfolding instantiate_variable instantiate_variables resolved admit
expand_match resolver recur (equal left right) substitution depth formula_depth definitions b = do
  left ← instantiate_variable left substitution depth
  right ← instantiate_variable right substitution depth
  ok (equal left right, b)
expand_match resolver recur (member left right) substitution depth formula_depth definitions b = do
  left ← instantiate_variable left substitution depth
  right ← instantiate_variable right substitution depth
  ok (member left right, b)
expand_match resolver recur (not n) substitution depth formula_depth definitions b = do
  (n, b) ← recur n substitution depth (formula_depth + 1) definitions b
  ok (not n, b)
expand_match resolver recur (implies l r) substitution depth formula_depth definitions b = do
  (l, b) ← recur l substitution depth (formula_depth + 1) definitions b
  (r, b) ← recur r substitution depth (formula_depth + 1) definitions b
  ok (implies l r, b)
expand_match resolver recur (for_all n) substitution depth formula_depth definitions b = do
  (n, b) ← recur n substitution (under_binder substitution depth) (formula_depth + 1) definitions b
  ok (for_all n, b)
expand_match resolver recur (defined_relation id arguments) substitution depth formula_depth
      definitions b =
    do
      found ← map_err Checker.access (resolver id)
      definition ← resolved id found
      admit id arguments definition formula_depth definitions
      arguments ← instantiate_variables arguments substitution depth
      recur definition.body (some arguments) 0 formula_depth (definitions ++ id ∷ []) b

-- Every call charges the budget first, so what the budget has left bounds the nesting of the calls:
-- the first argument is at least that, and the budget is used up where it is 0.
unfoldable pub expand_node : ℕ → DefinitionResolver → Expander
unfolding charge expand_match
expand_node zero resolver n substitution depth formula_depth definitions b =
    err (Checker.expansion_nodes_exceeded b.maximum)
expand_node (suc fuel) resolver n substitution depth formula_depth definitions b = do
  b ← charge b
  if leb formula_max_depth formula_depth
      then err (Checker.expansion_depth_exceeded formula_max_depth)
      else expand_match resolver (expand_node fuel resolver) n substitution depth formula_depth
          definitions b

unfoldable pub expand_with_node_limit : DefinitionResolver → Node → ℕ → Expansion (Formula × ℕ)
unfolding new_budget expand_node into_primitive
expand_with_node_limit resolver n maximum_nodes = do
  (expanded, b) ←
      expand_node (min maximum_nodes formula_max_nodes) resolver n none 0 0 []
        (new_budget maximum_nodes)
  f ← map_err Checker.formula (into_primitive expanded)
  ok (f, b.used)
