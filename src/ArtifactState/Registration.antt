-- ===== src/ArtifactState/Registration.antt =====
-- naome-checker/src/state/registration.rs: the checks of a registration, over the view of a state.
use naome.Prelude.{
  ℕ, Bool, ◌&&◌, ◌||◌, Option, none, some, List, [], ◌∷◌, ◌++◌, if◌then◌else◌, negb, decided,
  ℕ_discrete,
}
use naome.Prelude.Result.{Result, ok, err, map_err, ◌>>=◌, ◌>>◌}
use naome.Node.{Node-discrete, Variable-discrete}
use naome.Formula.{Formula}
use naome.Certificate
use naome.Certificate.{ProofStep, ProofFormula, ProofId, primitive, defined}
use naome.Checker.{
  Identity, ViewFailure, failed, view_panicked, ContextError, ProofHeader,
  checker_max_formula_work_bytes,
}
use naome.Defined
use naome.Defined.{DefinedFormula}
use naome.ArtifactState.{
  DefinitionKind, DefinitionCertificate, CheckedProof, CheckedDefinition,
  CheckedDefinitionObligation,
}
use naome.PersistentMap.Keys.{equal_bytes}

pub data ArtifactStateError : Type 0 where
  context : ContextError → ArtifactStateError
  duplicate_proof : ProofId → ArtifactStateError
  duplicate_derivation : Identity → ArtifactStateError
  proof_identity_collision : ProofId → ArtifactStateError
  derivation_identity_collision : Identity → ArtifactStateError
  statement_identity_collision : Identity → ArtifactStateError
  duplicate_definition : Identity → ArtifactStateError
  definition_identity_collision : Identity → ArtifactStateError
  missing_proof_dependency : ProofId → ArtifactStateError
  missing_definition_dependency : Identity → ArtifactStateError
  missing_definition_obligation : Identity → ArtifactStateError

abbrev pub Checked : Type 0 → Type 0
Checked A = Result ArtifactStateError A

abbrev pub Access : Type 0 → Type 0
Access A = Result ContextError A

-- what ends an operation: a refusal, or a panic
pub data Failure : Type 0 where
  refused : ArtifactStateError → Failure
  panicked : Failure

abbrev pub Outcome : Type 0 → Type 0
Outcome A = Result Failure A

unfoldable pub header_failure : ViewFailure → Failure
header_failure (failed e) = refused (context e)
header_failure view_panicked = panicked

-- the methods of `RegistrationView` and of its `ContextView` that the checks call
pub record RegistrationView : Type 0 where
  pub proof_header : ProofId → Result ViewFailure (Option ProofHeader)
  pub has_proof : ProofId → Access Bool
  pub derivation_statement : Identity → Access (Option Identity)
  pub statement_formula : Identity → ℕ → Access (Option Formula)
  pub definition_certificate : Identity → Access (Option DefinitionCertificate)

unfoldable formula_references : ProofFormula DefinedFormula → List Identity
unfolding Defined.definition_references
formula_references (primitive f) = []
formula_references (defined d) = Defined.definition_references d

-- `ProofStep::definition_references`
unfoldable pub definition_references : ProofStep DefinedFormula → List Identity
unfolding formula_references
definition_references (Certificate.simplification a c) =
    formula_references a ++ formula_references c
definition_references (Certificate.classical_contraposition a c) =
    formula_references a ++ formula_references c
definition_references (Certificate.universal_distribution v a c) =
    formula_references a ++ formula_references c
definition_references (Certificate.frege a b c) =
    formula_references a ++ formula_references b ++ formula_references c
definition_references (Certificate.vacuous_universal f) = formula_references f
definition_references (Certificate.universal_instantiation v w f) = formula_references f
definition_references (Certificate.equality_substitution v w f) = formula_references f
definition_references (Certificate.separation s) = formula_references s.predicate
definition_references (Certificate.replacement r) = formula_references r.predicate
definition_references _ = []

module _ (view : RegistrationView) where
  unfoldable pub same_formula : Identity → Formula → Option Formula → Checked (Unit {0})
  unfolding Node-discrete
  same_formula statement_id conclusion none = ok tt
  same_formula statement_id conclusion (some formula) =
      if decided (Node-discrete formula conclusion)
      then ok tt
      else err (statement_identity_collision statement_id)

  unfoldable pub same_statement : CheckedProof → Checked (Unit {0})
  unfolding same_formula
  same_statement p = do
    found ← map_err context (view.statement_formula p.statement_id checker_max_formula_work_bytes)
    same_formula p.statement_id p.conclusion found

  unfoldable pub require_definition : Identity → Option DefinitionCertificate → Checked (Unit {0})
  require_definition definition_id none = err (missing_definition_dependency definition_id)
  require_definition definition_id (some certificate) = ok tt

  -- the loop over `definition_references`
  unfoldable pub require_definitions : List Identity → Checked (Unit {0})
  unfolding require_definition
  require_definitions [] = ok tt
  require_definitions (definition_id ∷ rest) = do
    found ← map_err context (view.definition_certificate definition_id)
    require_definition definition_id found
    require_definitions rest

  unfoldable pub require_proof : ProofStep DefinedFormula → Checked (Unit {0})
  require_proof (Certificate.proof_reference proof_id) = do
    found ← map_err context (view.has_proof proof_id)
    if found then ok tt else err (missing_proof_dependency proof_id)
  require_proof _ = ok tt

  -- the loop over the steps
  unfoldable pub require_dependencies : List (ProofStep DefinedFormula) → Checked (Unit {0})
  unfolding require_proof require_definitions definition_references
  require_dependencies [] = ok tt
  require_dependencies (step ∷ steps) = do
    require_proof step
    require_definitions (definition_references step)
    require_dependencies steps

  -- `validate` for a proof identity that is already registered
  unfoldable pub registered_proof : CheckedProof → ProofHeader → Checked (Unit {0})
  unfolding same_statement equal_bytes
  registered_proof p header =
      if negb (equal_bytes header.derivation p.derivation_id)
        || negb (equal_bytes header.statement p.statement_id)
      then err (proof_identity_collision p.proof_id)
      else do same_statement p; err (duplicate_proof p.proof_id)

  -- `validate` for a derivation that is already registered
  unfoldable pub registered_derivation : CheckedProof → Bool → Identity → Checked (Unit {0})
  unfolding same_statement equal_bytes
  registered_derivation p aliases statement =
      if negb (equal_bytes statement p.statement_id)
      then err (derivation_identity_collision p.derivation_id)
      else do
        same_statement p
        if aliases then ok tt else err (duplicate_derivation p.derivation_id)

  unfoldable pub derivation_found : CheckedProof → Bool → Option Identity → Checked (Unit {0})
  unfolding registered_derivation same_statement
  derivation_found p aliases none = same_statement p
  derivation_found p aliases (some statement) = registered_derivation p aliases statement

  -- `validate` for a proof identity that is new
  unfoldable pub new_proof : CheckedProof → Bool → Checked (Unit {0})
  unfolding require_dependencies derivation_found
  new_proof p aliases = do
    require_dependencies p.steps
    found ← map_err context (view.derivation_statement p.derivation_id)
    derivation_found p aliases found

  unfoldable pub header_found : CheckedProof → Bool → Option ProofHeader → Checked (Unit {0})
  unfolding registered_proof new_proof
  header_found p aliases none = new_proof p aliases
  header_found p aliases (some header) = registered_proof p header

  unfoldable pub validate : CheckedProof → Bool → Outcome (Unit {0})
  unfolding header_found header_failure
  validate p aliases = do
    header ← map_err header_failure (view.proof_header p.proof_id)
    map_err refused (header_found p aliases header)

unfoldable Kind-discrete : Discrete DefinitionKind
unfolding ℕ_discrete
Kind-discrete = hlevel ℕ_discrete

unfoldable Defined-discrete : Discrete DefinedFormula
unfolding Variable-discrete ℕ_discrete
Defined-discrete = hlevel (Variable-discrete, ℕ_discrete)

module _ (view : RegistrationView) where
  -- `validate_definition` for a definition identity that is already registered
  unfoldable registered_definition : CheckedDefinition → DefinitionCertificate → Checked (Unit {0})
  unfolding Kind-discrete Defined-discrete
  registered_definition d existing =
      if decided (Kind-discrete existing.kind d.certificate.kind)
        && decided (Defined-discrete existing.body d.certificate.body)
      then err (duplicate_definition d.definition_id)
      else err (definition_identity_collision d.definition_id)

  unfoldable selected_obligation : CheckedDefinitionObligation → Option Formula → Checked (Unit {0})
  unfolding Node-discrete
  selected_obligation o none = err (missing_definition_obligation o.statement_id)
  selected_obligation o (some selected) =
      if decided (Node-discrete selected o.conclusion)
      then ok tt
      else err (statement_identity_collision o.statement_id)

  unfoldable require_obligation : Option CheckedDefinitionObligation → Checked (Unit {0})
  unfolding selected_obligation
  require_obligation none = ok tt
  require_obligation (some o) = do
    selected ←
        map_err context (view.statement_formula o.statement_id checker_max_formula_work_bytes)
    selected_obligation o selected

  unfoldable certificate_found :
      CheckedDefinition → Option DefinitionCertificate → Checked (Unit {0})
  unfolding registered_definition require_obligation
  certificate_found d none = require_obligation d.obligation
  certificate_found d (some existing) = registered_definition d existing

  unfoldable pub validate_definition : CheckedDefinition → Checked (Unit {0})
  unfolding certificate_found
  validate_definition d = do
    existing ← map_err context (view.definition_certificate d.definition_id)
    certificate_found d existing
