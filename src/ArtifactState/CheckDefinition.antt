-- ===== src/ArtifactState/CheckDefinition.antt =====
-- naome-checker/src/lib.rs: `check_definition_with_state`. The certificate comes with its identity,
-- which its constructor has computed. The subtraction from the node limit is plain, since the arity of
-- a certificate is below 256.
use naome.Prelude.{
  ℕ, ◌+◌, ◌-◌, ◌/◌, true, Option, none, some, ltb, leb, ◌==◌, if◌then◌else◌, decided,
}
use naome.Prelude.Result.{Result, ok, err, map_err, ◌>>=◌}
use naome.Formula.{Formula}
use naome.Node.{Node-discrete}
use naome.Canonical
use naome.Canonical.{
  FormulaCodecError, formula_max_depth, formula_max_nodes, encode_canonical, decode_canonical,
}
use naome.Checker
use naome.Checker.{Identity, ContextError, DefinedFormulaCodecError, checker_max_formula_work_bytes}
use naome.Checker.Obligation.{function_obligation}
use naome.Defined.{DefinedFormula, encode_with_limits}
use naome.Identity.{of_canonical_formula}
use naome.ArtifactState.{
  ArtifactState, CheckedDefinition, CheckedDefinitionObligation, DefinitionCertificate,
  DefinitionKind, relation, function, statement_formula,
}
use naome.Prelude.{List}

-- `Expansion` and `Certificate` come from the normalization of authored bodies only.
pub data DefinitionCheckError : Type 0 where
  context_access : ContextError → DefinitionCheckError
  canonical_body : DefinedFormulaCodecError → DefinitionCheckError
  unknown_obligation_statement obligation_conclusion_mismatch : Identity → DefinitionCheckError
  obligation_formula : FormulaCodecError → DefinitionCheckError

pub data Failure : Type 0 where
  rejected : DefinitionCheckError → Failure
  panicked : Failure

abbrev pub Outcome : Type 0 → Type 0
Outcome A = Result Failure A

unfoldable pub expect : {A : Type 0} → Option A → Outcome A
expect (some a) = ok a
expect none = err panicked

unfoldable maximum_function_body_nodes : ℕ → ℕ
maximum_function_body_nodes input_arity = (formula_max_nodes - (input_arity + 9)) / 2

-- `checked_add` on `u32`, `checked_sub`, and `filter`
unfoldable maximum_function_body_depth : ℕ → Option ℕ
maximum_function_body_depth input_arity =
    if leb 4294967296 (input_arity + 8)
    then none
    else if ltb formula_max_depth (input_arity + 8)
    then none
    else if formula_max_depth - (input_arity + 8) == 0
    then none
    else some (formula_max_depth - (input_arity + 8))

-- the arms of the match on the encoding of the body
unfoldable body_error : DefinedFormulaCodecError → Failure
body_error (Checker.node_limit_exceeded maximum) =
    rejected (obligation_formula (Canonical.node_limit_exceeded formula_max_nodes))
body_error (Checker.depth_limit_exceeded maximum) =
    rejected (obligation_formula (Canonical.depth_limit_exceeded formula_max_depth))
body_error e = rejected (canonical_body e)

unfoldable pub body_within : DefinedFormula → ℕ → Option ℕ → Outcome Formula
unfolding encode_with_limits body_error decode_canonical
body_within body maximum_nodes none =
    err (rejected (obligation_formula (Canonical.depth_limit_exceeded formula_max_depth)))
body_within body maximum_nodes (some maximum_depth) = do
  (bytes, _) ←
      map_err body_error
        (encode_with_limits body Canonical.preserve true maximum_nodes maximum_depth)
  map_err (λ e. rejected (canonical_body (Checker.primitive e))) (decode_canonical bytes)

-- the primitive body of a function, within the limits that the obligation leaves for it
unfoldable pub function_body : ℕ → DefinedFormula → Outcome Formula
unfolding body_within maximum_function_body_nodes maximum_function_body_depth
function_body input_arity body =
    body_within body (maximum_function_body_nodes input_arity)
      (maximum_function_body_depth input_arity)

-- what the state has for the statement of the obligation
unfoldable pub selected_obligation :
    Identity → Formula → Option Formula → Outcome CheckedDefinitionObligation
unfolding Node-discrete
selected_obligation id conclusion none = err (rejected (unknown_obligation_statement id))
selected_obligation id conclusion (some selected) =
    if decided (Node-discrete selected conclusion)
    then ok (record { statement_id = id; conclusion = conclusion })
    else err (rejected (obligation_conclusion_mismatch id))

module _ (sha256 : List ℕ → List ℕ) (s : ArtifactState) where
  -- the arm of the match for a function
  unfoldable pub check_obligation : ℕ → DefinedFormula → Outcome CheckedDefinitionObligation
  unfolding function_body encode_canonical function_obligation expect of_canonical_formula
      statement_formula selected_obligation
  check_obligation input_arity body = do
    body ← function_body input_arity body
    canonical ←
        map_err (λ e. rejected (obligation_formula e))
          (encode_canonical (function_obligation input_arity body))
    id ← expect (of_canonical_formula sha256 canonical)
    selected ←
        map_err (λ e. rejected (context_access e))
          (statement_formula s id checker_max_formula_work_bytes)
    selected_obligation id (function_obligation input_arity body) selected

  unfoldable pub obligation_of :
      DefinitionKind → DefinedFormula → Outcome (Option CheckedDefinitionObligation)
  unfolding check_obligation
  obligation_of (relation arity) body = ok none
  obligation_of (function input_arity) body = do o ← check_obligation input_arity body; ok (some o)

  unfoldable pub check_definition_with_state :
      DefinitionCertificate → Identity → Outcome CheckedDefinition
  unfolding obligation_of
  check_definition_with_state certificate id = do
    obligation ← obligation_of certificate.kind certificate.body
    ok (record { certificate = certificate; definition_id = id; obligation = obligation })
