-- ===== src/Checker.antt =====
-- crates/naome-checker/src/lib.rs and context.rs: the data of the checker and its charges.
-- A `CheckError` stands without its diagnostic, the evidence for a reader that the program adds to it.
pub mod Derive
pub mod Step
pub mod Run
pub mod Scope
pub mod Uses
pub mod Panic
pub mod Progress
pub mod Total
pub mod Truth
pub mod Rules
pub mod Obligation
pub mod Soundness
use naome.Prelude.{ℕ, zero, suc, ◌+◌, ◌-◌, Option, none, some, List, [], ◌∷◌, ltb, if◌then◌else◌}
use naome.Prelude.Result.{Result, ok, err, ◌>>=◌}
use naome.Formula.{Formula}
use naome.Canonical.{FormulaCodecError}
use naome.Comparison.{FormulaPathSegment}
use naome.Logic.{LogicError}
use naome.Zfc.{SchemaError}
use naome.Certificate.{ProofId}

-- the 32 bytes of a `DefinitionId`, a `StatementId` or a `DerivationId`
abbrev pub Identity : Type 0
Identity = List ℕ

abbrev pub checker_max_formula_work_bytes : ℕ
checker_max_formula_work_bytes = 4194304

-- `DefinitionAccessError` has the same cases; a message is the list of its characters.
pub data ContextError : Type 0 where
  storage : List ℕ → ContextError
  corrupt limit : ContextError

pub data DefinedFormulaCodecError : Type 0 where
  input_too_long : ℕ → ℕ → DefinedFormulaCodecError
  node_limit_exceeded : ℕ → DefinedFormulaCodecError
  depth_limit_exceeded : ℕ → DefinedFormulaCodecError
  too_many_definition_arguments : ℕ → DefinedFormulaCodecError
  unexpanded_definition : Identity → DefinedFormulaCodecError
  unexpected_end : DefinedFormulaCodecError
  unknown_formula_tag : ℕ → DefinedFormulaCodecError
  unknown_variable_tag : ℕ → DefinedFormulaCodecError
  dangling_bound_variable : ℕ → ℕ → DefinedFormulaCodecError
  trailing_bytes : ℕ → DefinedFormulaCodecError
  primitive : FormulaCodecError → DefinedFormulaCodecError

pub data DefinitionExpansionError : Type 0 where
  access : ContextError → DefinitionExpansionError
  unknown_definition : Identity → DefinitionExpansionError
  arity_mismatch : Identity → ℕ → ℕ → DefinitionExpansionError
  cyclic_definition : Identity → DefinitionExpansionError
  undeclared_formal_variable : ℕ → DefinitionExpansionError
  expansion_nodes_exceeded : ℕ → DefinitionExpansionError
  expansion_depth_exceeded : ℕ → DefinitionExpansionError
  formula : DefinedFormulaCodecError → DefinitionExpansionError

-- The comparison of `logic` is the path of its `FormulaMismatch`.
pub data CheckErrorKind : Type 0 where
  context_access : ℕ → ContextError → CheckErrorKind
  unknown_proof_reference : ℕ → ProofId → CheckErrorKind
  definition_expansion : ℕ → DefinitionExpansionError → CheckErrorKind
  logic : ℕ → LogicError → Option (List FormulaPathSegment) → CheckErrorKind
  schema : ℕ → SchemaError → CheckErrorKind
  derived_formula : ℕ → FormulaCodecError → CheckErrorKind
  formula_work_limit_exceeded : ℕ → ℕ → ℕ → CheckErrorKind
  open_conclusion : ℕ → CheckErrorKind

-- what ends a run: an error, or an `expect` or an index that fails
pub data Failure : Type 0 where
  rejected : CheckErrorKind → Failure
  panicked : Failure

abbrev pub Outcome : Type 0 → Type 0
Outcome A = Result Failure A

unfoldable pub expect : {A : Type 0} → Option A → Outcome A
expect (some a) = ok a
expect none = err panicked

-- Rust's `ok_or`
unfoldable pub ok_or : {A : Type 0} → Failure → Option A → Outcome A
ok_or e (some a) = ok a
ok_or e none = err e

-- `xs[index] = value`
unfoldable pub set_at : {A : Type 0} → ℕ → A → List A → Outcome (List A)
set_at index value [] = err panicked
set_at zero value (x ∷ xs) = ok (value ∷ xs)
set_at (suc index) value (x ∷ xs) = do ys ← set_at index value xs; ok (x ∷ ys)

pub record ProofHeader : Type 0 where
  pub location : Option (Identity × Identity)
  pub derivation : Identity
  pub statement : Identity
  pub length : ℕ

-- what ends a call of a view that returns no value: an error, or a panic inside the view
pub data ViewFailure : Type 0 where
  failed : ContextError → ViewFailure
  view_panicked : ViewFailure

-- The operations of a `ContextView` that the checker calls. `expand_with_node_limit` is
-- `DefinedFormula::expand_with_node_limit` with this view for its resolver, less the work it reports.
pub record ContextView (D : Type 0) : Type 0 where
  pub expand_with_node_limit : D → ℕ → Result DefinitionExpansionError Formula
  pub proof_header : ProofId → Result ViewFailure (Option ProofHeader)
  pub proof_formula : ProofHeader → ℕ → Result ContextError (Option Formula)

pub record CheckedStep : Type 0 where
  pub formula : Formula
  pub canonical_length : ℕ

pub record DerivedStep : Type 0 where
  pub formula : Formula
  pub precharged_length : Option ℕ
  pub referenced_derivation_id : Option Identity

abbrev pub Results : Type 0
Results = List (Option CheckedStep)

-- `checked_add` on `usize` of 64 bits, with its `expect`
unfoldable pub checked_add : ℕ → ℕ → Outcome ℕ
checked_add a b = if ltb (a + b) 18446744073709551616 then ok (a + b) else err panicked

-- The result is the work that remains.
unfoldable pub charge_formula_work : ℕ → ℕ → ℕ → Outcome ℕ
unfolding checked_add
charge_formula_work step amount remaining =
    if ltb remaining amount
    then (do
      actual ← checked_add (checker_max_formula_work_bytes - remaining) amount
      err (rejected (formula_work_limit_exceeded step actual checker_max_formula_work_bytes)))
    else ok (remaining - amount)
