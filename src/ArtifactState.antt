-- ===== src/ArtifactState.antt =====
-- naome-checker/src/state.rs, and the index of question/index.rs that it keeps: the checked proofs and
-- definitions of one context. `naome.PersistentMap` is its map.
pub mod Projections
pub mod Registration
pub mod Register
pub mod Check
pub mod ProjectionKeys
pub mod Index
pub mod Invariant
pub mod Admission
pub mod Transitions
pub mod Definition
pub mod CheckDefinition
pub mod Soundness
pub mod Functions
pub mod Interface
pub mod Constructor
use naome.Prelude.{
  ℕ, ◌+◌, ◌≤◌, Bool, true, false, Option, none, some, List, [], ◌∷◌, ◌++◌, ltb, if◌then◌else◌,
}
use naome.Prelude.Result.{Result, ok, err, ◌>>=◌}
use naome.Formula.{Formula}
use naome.Certificate.{ProofStep, ProofId}
use naome.Checker
use naome.Checker.{Identity, ContextError, ProofHeader}
use naome.Defined
use naome.Defined.{DefinedFormula, DefinitionResolution}
use naome.Identity
use naome.PersistentMap
use naome.PersistentMap.{PersistentMap}
use naome.PersistentMap.Keys.{less_bytes}

pub data DefinitionKind : Type 0 where
  relation : ℕ → DefinitionKind
  function : ℕ → DefinitionKind

pub record DefinitionCertificate : Type 0 where
  pub kind : DefinitionKind
  pub body : DefinedFormula

unfoldable pub relation_arity : DefinitionKind → ℕ
relation_arity (relation arity) = arity
relation_arity (function input_arity) = input_arity + 1

pub record StoredStatement : Type 0 where
  pub conclusion : Formula
  pub canonical_length : ℕ

-- The certificate of the normal form is its steps.
pub record CheckedProof : Type 0 where
  pub steps : List (ProofStep DefinedFormula)
  pub conclusion : Formula
  pub statement_id : Identity
  pub derivation_id : Identity
  pub proof_id : ProofId
  pub canonical_conclusion_length : ℕ

pub record CheckedDefinitionObligation : Type 0 where
  pub statement_id : Identity
  pub conclusion : Formula

pub record CheckedDefinition : Type 0 where
  pub certificate : DefinitionCertificate
  pub definition_id : Identity
  pub obligation : Option CheckedDefinitionObligation

-- sets of statements, by a key
abbrev pub Buckets : Type 0
Buckets = PersistentMap (PersistentMap (Unit {0}))

pub record KnowledgeIndex : Type 0 where
  pub artifacts : PersistentMap (Unit {0})
  pub witnesses : PersistentMap ProofId
  pub outgoing : Buckets
  pub deductions : Buckets
  pub instances : Buckets

pub record ArtifactState : Type 0 where
  pub proofs : PersistentMap Identity
  pub derivations : PersistentMap Identity
  pub statements : PersistentMap StoredStatement
  pub definitions : PersistentMap DefinitionCertificate
  pub question_index : KnowledgeIndex

abbrev pub new : ArtifactState
new = record {
  proofs = none;
  derivations = none;
  statements = none;
  definitions = none;
  question_index = record {
    artifacts = none;
    witnesses = none;
    outgoing = none;
    deductions = none;
    instances = none;
  };
}

-- a value, or a panic
pub data Panic : Type 0 where
  panicked : Panic

abbrev pub expect : {A : Type 0} → Option A → Result Panic A
expect (some a) = ok a
expect none = err panicked

-- `resolve_proof` for the derivation that the proof has
unfoldable pub header_of : ArtifactState → Option Identity → Result Panic (Option ProofHeader)
unfolding PersistentMap.get
header_of s none = ok none
header_of s (some derivation_id) = do
  statement_id ← expect (PersistentMap.get s.derivations derivation_id)
  statement ← expect (PersistentMap.get s.statements statement_id)
  ok (
      some (record {
        location = none;
        derivation = derivation_id;
        statement = statement_id;
        length = statement.canonical_length;
      }))

unfoldable pub resolve_proof : ArtifactState → ProofId → Result Panic (Option ProofHeader)
unfolding PersistentMap.get header_of
resolve_proof s proof_id = header_of s (PersistentMap.get s.proofs proof_id)

-- `known_statement` for the statement and the witness that there are
unfoldable pub known : Option StoredStatement → Option ProofId → Option (ProofId × Formula × ℕ)
known none witness = none
known (some stored) none = none
known (some stored) (some witness) = some (witness, stored.conclusion, stored.canonical_length)

unfoldable pub known_statement : ArtifactState → Identity → Option (ProofId × Formula × ℕ)
unfolding PersistentMap.get known
known_statement s statement_id =
    known (PersistentMap.get s.statements statement_id)
      (PersistentMap.get s.question_index.witnesses statement_id)

abbrev conclusion_of : Option StoredStatement → Option Formula
conclusion_of none = none
conclusion_of (some stored) = some stored.conclusion

unfoldable pub resolve_statement : ArtifactState → Identity → Option Formula
unfolding PersistentMap.get
resolve_statement s statement_id = conclusion_of (PersistentMap.get s.statements statement_id)

-- `statement_formula` for what `known_statement` returns
unfoldable pub formula_within :
    Option (ProofId × Formula × ℕ) → ℕ → Option Formula → Result ContextError (Option Formula)
formula_within none maximum formula = ok none
formula_within (some (witness, conclusion, length)) maximum formula =
    if ltb maximum length then err Checker.limit else ok formula

unfoldable pub statement_formula :
    ArtifactState → Identity → ℕ → Result ContextError (Option Formula)
unfolding known_statement resolve_statement formula_within
statement_formula s id maximum =
    formula_within (known_statement s id) maximum (resolve_statement s id)

unfoldable resolution_of : Option DefinitionCertificate → Option DefinitionResolution
unfolding relation_arity
resolution_of none = none
resolution_of (some definition) =
    some (record { relation_arity = relation_arity definition.kind; body = definition.body })

unfoldable pub resolve_definition :
    ArtifactState → Identity → Result ContextError (Option DefinitionResolution)
unfolding PersistentMap.get resolution_of
resolve_definition s id = ok (resolution_of (PersistentMap.get s.definitions id))
