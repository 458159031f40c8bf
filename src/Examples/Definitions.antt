-- ===== src/Examples/Definitions.antt =====
-- The theorem on function definitions, applied to the function that is the identity.
use naome.Prelude.{
  true, ◌↔◌, ◌++◌, length, ℕ, ◌≡◌, refl, ap, subst, inl, inr, Bool-cases, some, List, [], arith,
}
use naome.Prelude.Result.{ok}
use naome.Node
use naome.Node.{free}
use naome.Formula
use naome.Formula.{Formula}
use naome.Formula.Scope.{IsFormula}
use naome.Canonical
use naome.Checker.{Identity}
use naome.Identity.{of_canonical_formula}
use naome.Checker.Obligation.{function_obligation}
use naome.Checker.Obligation.Meaning.{function_obligation_iff}
use naome.Semantics.{Valid}
use naome.Defined
use naome.Defined.{DefinedFormula, encode_with_limits}
use naome.PersistentMap
use naome.PersistentMap.{leaf}
use naome.PersistentMap.Keys.{equal_bytes}
use naome.ArtifactState
use naome.ArtifactState.{ArtifactState, CheckedDefinition, StoredStatement, function}
use naome.ArtifactState.Definition.{Certified, canonical_bytes, kind_bytes}
use naome.ArtifactState.Interface.{IsGraph}
use naome.ArtifactState.Constructor.{canonical_bytes_iff}
use naome.Canonical.{formula_max_nodes, formula_max_depth}
use naome.Canonical.Words.{to_be_bytes}
use naome.ArtifactState.CheckDefinition
use naome.ArtifactState.CheckDefinition.{check_definition_with_state, function_body}
use naome.ArtifactState.Soundness.{StatementsHold}
use naome.ArtifactState.Functions.{IsTotalFunction, check_definition_with_state-IsTotalFunction}
use naome.Examples.{value_of, point}
use naome.Examples.State.{digest, key_of}

-- x1 = x0
abbrev body : DefinedFormula
body = Defined.equal (free 1) (free 0)

abbrev primitive_body : Formula
primitive_body = Formula.equal 1 0

abbrev obligation : Formula
obligation = function_obligation 1 primitive_body

abbrev certificate_run : Certified (List ℕ)
certificate_run = canonical_bytes (function 1) body

abbrev bytes : List ℕ
bytes = value_of [] certificate_run

made : certificate_run ≡ ok bytes
unfolding canonical_bytes
made = refl

body_run : function_body 1 body ≡ ok primitive_body
unfolding function_body Formula.equal
body_run = refl

abbrev statement : Identity
statement = key_of 75

abbrev canonical : List ℕ
canonical = value_of [] (Canonical.encode_canonical obligation)

-- the identity of the obligation
statement_of : of_canonical_formula digest canonical ≡ some statement
unfolding of_canonical_formula Canonical.encode_canonical function_obligation
statement_of = refl

-- the state that holds the obligation
abbrev state : ArtifactState
state = record ArtifactState.new {
  statements = some (leaf statement (record { conclusion = obligation; canonical_length = 1 }) []);
  question_index = record (ArtifactState.new.question_index) {
    witnesses = some (leaf statement statement []);
  };
}

abbrev checked_run : CheckDefinition.Outcome CheckedDefinition
checked_run =
    check_definition_with_state digest state (record { kind = function 1; body = body }) []

abbrev checked : CheckedDefinition
checked = record {
  certificate = record { kind = function 1; body = body };
  definition_id = [];
  obligation = some (record { statement_id = statement; conclusion = obligation });
}

accepted : checked_run ≡ ok checked
unfolding check_definition_with_state
accepted = refl

obligation-IsFormula : IsFormula obligation
unfolding function_obligation Formula.equal
obligation-IsFormula = ground arith

obligation_holds : Valid point obligation
unfolding Formula.equal Node.has_matching_free_variable
obligation_holds =
    (function_obligation_iff point 1 primitive_body (tt, tt) refl).1
      (λ ρ none_. none_ tt (refl, λ d q. refl))

some-injective : {A : Type 0} {a b : A} → some a ≡ some b → a ≡ b
some-injective q = cc

state-StatementsHold : StatementsHold point state
unfolding PersistentMap.get
state-StatementsHold st x q = elim (Bool-cases (equal_bytes statement st)) [
  | inl e ↦
      let q' : some (record { conclusion = obligation; canonical_length = 1 }) ≡ some x =
        rw e at q in
      let same : obligation ≡ x.conclusion =
        ap (λ (x : StoredStatement). x.conclusion) (some-injective q') in
      (subst IsFormula same obligation-IsFormula, subst (Valid point) same obligation_holds)
  | inr e ↦ absurd (let q' = rw e at q in cc)
]

check_definition_with_state-IsTotalFunction_example : IsTotalFunction point 1 primitive_body
unfolding Formula.equal Node.has_matching_free_variable
check_definition_with_state-IsTotalFunction_example =
    check_definition_with_state-IsTotalFunction digest point state state-StatementsHold 1 body []
      checked bytes primitive_body made accepted body_run refl

canonical_bytes_iff_example : (canonical_bytes (function 1) body ≡ ok bytes) ↔ (
    IsGraph (function 1) body
    × ((r : List ℕ × ℕ) × (encode_with_limits body Canonical.preserve true formula_max_nodes
            formula_max_depth
          ≡ ok r)
        × (bytes ≡ kind_bytes (function 1) ++ to_be_bytes (length r.0) ++ r.0)))
canonical_bytes_iff_example = canonical_bytes_iff (function 1) body bytes
