-- ===== src/ArtifactState/Definition.antt =====
-- naome-proof/src/definition.rs: `DefinitionCertificate::new`, with the checks on the kind, the free
-- variables and the length. The conversion of the graph arity to 32 bits is left out, it is at most 256.
use naome.Prelude.{
  ℕ, zero, suc, ◌+◌, true, Option, none, some, List, [], ◌∷◌, ◌++◌, ltb, leb, length, if◌then◌else◌,
}
use naome.Prelude.Result.{Result, ok, err, map_err, ◌>>=◌, ◌>>◌}
use naome.Prelude.Set
use naome.Node.{FreeVariable, Variable, free, bound}
use naome.Canonical
use naome.Canonical.{
  FormulaCodecError, formula_max_bytes, formula_max_depth, formula_max_nodes, encode_canonical,
  decode_canonical,
}
use naome.Canonical.Words.{to_be_bytes}
use naome.Checker.{Identity, DefinedFormulaCodecError}
use naome.Defined
use naome.Defined.{DefinedFormula, encode_with_limits, first_definition_reference}
use naome.Identity.{scoped_hash}
use naome.ArtifactState.{DefinitionKind, relation, function}

-- without the three errors of the decoder
pub data DefinitionCertificateError : Type 0 where
  formula : DefinedFormulaCodecError → DefinitionCertificateError
  zero_relation_arity zero_function_arity : DefinitionCertificateError
  arity_too_large : ℕ → ℕ → DefinitionCertificateError
  definition_reference : Identity → DefinitionCertificateError
  undeclared_formal_variable missing_formal_variable : ℕ → ℕ → DefinitionCertificateError
  input_too_long : ℕ → ℕ → DefinitionCertificateError

abbrev pub definition_max_graph_arity : ℕ
definition_max_graph_arity = 256

abbrev pub definition_max_bytes : ℕ
definition_max_bytes = 1 + 4 + 4 + formula_max_bytes

-- `naome:definition:v1\0`
abbrev definition_domain : List ℕ
definition_domain =
    110 ∷ 97 ∷ 111 ∷ 109 ∷ 101 ∷ 58 ∷ 100 ∷ 101 ∷ 102 ∷ 105 ∷ 110 ∷ 105 ∷ 116 ∷ 105 ∷ 111 ∷ 110 ∷ 58
    ∷ 118 ∷ 49 ∷ 0 ∷ []

abbrev pub Certified : Type 0 → Type 0
Certified A = Result DefinitionCertificateError A

abbrev pub bounded_arity : ℕ → Certified ℕ
bounded_arity graph_arity =
    if ltb definition_max_graph_arity graph_arity
    then err (arity_too_large graph_arity definition_max_graph_arity)
    else ok graph_arity

unfoldable pub validate_kind : DefinitionKind → Certified ℕ
validate_kind (relation zero) = err zero_relation_arity
validate_kind (relation (suc arity)) = bounded_arity (suc arity)
validate_kind (function zero) = err zero_function_arity
validate_kind (function (suc input_arity)) = bounded_arity (suc input_arity + 1)

unfoldable pub collect_free_variable : Variable → Set.Set → Set.Set
unfolding Set.insert
collect_free_variable (free x) variables = Set.insert x variables
collect_free_variable (bound i) variables = variables

unfoldable pub collect_arguments : List Variable → Set.Set → Set.Set
unfolding collect_free_variable
collect_arguments [] variables = variables
collect_arguments (argument ∷ arguments) variables =
    collect_arguments arguments (collect_free_variable argument variables)

unfoldable pub collect_free_variables : Defined.Node → Set.Set → Set.Set
unfolding collect_free_variable collect_arguments
collect_free_variables (Defined.equal left right) variables =
    collect_free_variable right (collect_free_variable left variables)
collect_free_variables (Defined.member left right) variables =
    collect_free_variable right (collect_free_variable left variables)
collect_free_variables (Defined.defined_relation id arguments) variables =
    collect_arguments arguments variables
collect_free_variables (Defined.not n) variables = collect_free_variables n variables
collect_free_variables (Defined.for_all n) variables = collect_free_variables n variables
collect_free_variables (Defined.implies l r) variables =
    collect_free_variables r (collect_free_variables l variables)

-- the first variable that is not below the arity
unfoldable pub check_declared : ℕ → List FreeVariable → Certified (Unit {0})
check_declared arity [] = ok tt
check_declared arity (identifier ∷ variables) =
    let rest = check_declared arity variables in
    if leb arity identifier then err (undeclared_formal_variable identifier arity) else rest

-- the loop over `0..arity`, with `count` identifiers to go
unfoldable pub check_present : ℕ → ℕ → ℕ → Set.Set → Certified (Unit {0})
unfolding Set.contains
check_present zero identifier arity variables = ok tt
check_present (suc count) identifier arity variables =
    let rest = check_present count (identifier + 1) arity variables in
    if Set.contains identifier variables
    then rest
    else err (missing_formal_variable identifier arity)

unfoldable pub check_no_reference : Option Identity → Certified (Unit {0})
check_no_reference none = ok tt
check_no_reference (some id) = err (definition_reference id)

unfoldable pub validate : DefinitionKind → DefinedFormula → ℕ → Certified (Unit {0})
unfolding validate_kind check_no_reference collect_free_variables check_declared check_present
    first_definition_reference
validate kind body body_length = do
  arity ← validate_kind kind
  check_no_reference (first_definition_reference body)
  check_declared arity (collect_free_variables body [])
  check_present arity 0 arity (collect_free_variables body [])
  if ltb definition_max_bytes (1 + 4 + 4 + body_length)
      then err (input_too_long (1 + 4 + 4 + body_length) definition_max_bytes)
      else ok tt

-- the tag and the arity
unfoldable pub kind_bytes : DefinitionKind → List ℕ
unfolding to_be_bytes
kind_bytes (relation arity) = 0 ∷ to_be_bytes arity
kind_bytes (function input_arity) = 2 ∷ to_be_bytes input_arity

-- the canonical bytes of the certificate that `new` makes
unfoldable pub canonical_bytes : DefinitionKind → DefinedFormula → Certified (List ℕ)
unfolding validate_kind validate kind_bytes to_be_bytes encode_with_limits
canonical_bytes kind body = do
  validate_kind kind
  (encoded, _) ←
      map_err formula
        (encode_with_limits body Canonical.preserve true formula_max_nodes formula_max_depth)
  validate kind body (length encoded)
  ok (kind_bytes kind ++ to_be_bytes (length encoded) ++ encoded)

-- `from_parts`: the identity of a certificate with the given canonical bytes; `none` is a panic
unfoldable pub definition_id : (List ℕ → List ℕ) → List ℕ → Option Identity
unfolding scoped_hash
definition_id sha256 canonical = scoped_hash sha256 definition_domain [] canonical
