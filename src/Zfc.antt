-- ===== src/Zfc.antt =====
-- crates/naome-foundation/src/zfc.rs: the two axiom schemas and their side conditions.
pub mod Axioms
pub mod Validation
pub mod Instances
use naome.Prelude.{ℕ, Bool, true, false, List, [], ◌∷◌, ◌++◌, ◌&&◌, negb, if◌then◌else◌}
use naome.Prelude.Result.{Result, ok, err, ◌>>=◌, ◌>>◌}
use naome.Prelude.Set
use naome.Prelude.Set.{Set}
use naome.Node.{FreeVariable}
use naome.Formula
use naome.Formula.{Formula}
use naome.Construction
use naome.Construction.{evaluate}

pub data SchemaError : Type 0 where
  role_variable_collision : FreeVariable → SchemaError
  parameter_collides_with_role : FreeVariable → SchemaError
  duplicate_parameter : FreeVariable → SchemaError
  forbidden_predicate_variable : FreeVariable → SchemaError
  undeclared_predicate_variable : FreeVariable → SchemaError

pub record Separation : Type 0 where
  pub predicate : Formula
  pub element : FreeVariable
  pub source : FreeVariable
  pub result : FreeVariable
  pub parameters : List FreeVariable

pub record Replacement : Type 0 where
  pub predicate : Formula
  pub input : FreeVariable
  pub output : FreeVariable
  pub uniqueness_witness : FreeVariable
  pub source : FreeVariable
  pub result : FreeVariable
  pub parameters : List FreeVariable

-- The three loops of `validate_schema`. The first holds the slice before its position.
unfoldable pub check_roles : List FreeVariable → List FreeVariable → Result SchemaError (Unit {0})
unfolding Set.contains
check_roles before [] = ok tt
check_roles before (v ∷ vs) =
    let rest = check_roles (before ++ v ∷ []) vs in
    if Set.contains v before then err (role_variable_collision v) else rest

unfoldable pub check_parameters :
    List FreeVariable → Set → List FreeVariable → Result SchemaError Set
unfolding Set.contains Set.insert
check_parameters roles declared [] = ok declared
check_parameters roles declared (p ∷ ps) =
    let rest = check_parameters roles (Set.insert p declared) ps in
    if Set.contains p roles
    then err (parameter_collides_with_role p)
    else if Set.contains p declared
    then err (duplicate_parameter p)
    else rest

unfoldable pub check_predicate :
    List FreeVariable → List FreeVariable → Set → List FreeVariable → Result SchemaError (Unit {0})
unfolding Set.contains
check_predicate allowed forbidden declared [] = ok tt
check_predicate allowed forbidden declared (v ∷ vs) =
    let rest = check_predicate allowed forbidden declared vs in
    if Set.contains v forbidden
    then err (forbidden_predicate_variable v)
    else if negb (Set.contains v allowed) && negb (Set.contains v declared)
    then err (undeclared_predicate_variable v)
    else rest

unfoldable pub validate_schema :
    Formula
    → List FreeVariable
    → List FreeVariable
    → List FreeVariable
    → List FreeVariable
    → Result SchemaError (Unit {0})
unfolding check_roles check_parameters check_predicate Formula.free_variables
validate_schema predicate role_variables allowed_roles forbidden_roles parameters = do
  check_roles [] role_variables
  declared ← check_parameters role_variables [] parameters
  check_predicate allowed_roles forbidden_roles declared (Formula.free_variables predicate)

unfoldable pub close_parameters : List FreeVariable → Formula → Formula
unfolding Formula.for_all_many
close_parameters parameters body = Formula.for_all_many parameters body

unfoldable pub separation_formula : Separation → Result SchemaError Formula
unfolding validate_schema close_parameters evaluate Construction.separation
separation_formula s = do
  validate_schema s.predicate (s.element ∷ s.source ∷ s.result ∷ []) (s.element ∷ s.source ∷ [])
      (s.result ∷ []) s.parameters
  ok (
      close_parameters s.parameters
        (evaluate (Construction.separation s.predicate s.element s.source s.result)))

unfoldable pub replacement_formula : Replacement → Result SchemaError Formula
unfolding validate_schema close_parameters evaluate Construction.replacement
replacement_formula r = do
  validate_schema r.predicate (r.input ∷ r.output ∷ r.uniqueness_witness ∷ r.source ∷ r.result ∷ [])
      (r.input ∷ r.output ∷ r.source ∷ []) (r.uniqueness_witness ∷ r.result ∷ []) r.parameters
  ok (
      close_parameters r.parameters (
        evaluate (
          Construction.replacement r.predicate r.input r.output r.uniqueness_witness r.source
            r.result)))
