-- ===== src/ArtifactState/Interface.antt =====
-- naome-proof/src/definition.rs: the checks of `DefinitionCertificate::validate`.
use naome.Prelude.{
  ℕ, zero, suc, ◌+◌, ◌≤◌, ◌<◌, ◌≡◌, refl, ◌∙◌, Bool, true, false, ◌||◌, ◌==◌, Option, none, some,
  List, [], ◌∷◌, ltb, arith, ap,
}
use naome.Prelude.Result.{ok, >>=-eq-ok}
use naome.Prelude.Set
use naome.Prelude.Set.{contains-insert}
use naome.Node.{FreeVariable, Variable, free, bound}
use naome.Canonical.{formula_max_bytes}
use naome.Checker.{Identity}
use naome.Defined
use naome.Defined.{
  Node, first_definition_reference, enter, within_bytes, encode_relation, encode_node,
  encode_with_limits,
}
use naome.ArtifactState.{DefinitionKind, relation, function, relation_arity}
use naome.ArtifactState.Definition.{
  validate_kind, collect_free_variable, collect_arguments, collect_free_variables, check_declared,
  check_present, check_no_reference, validate, definition_max_graph_arity,
}

abbrev is_variable : FreeVariable → Variable → Bool
is_variable x (free y) = y == x
is_variable x (bound i) = false

abbrev is_argument : FreeVariable → List Variable → Bool
is_argument x [] = false
is_argument x (v ∷ vs) = is_variable x v || is_argument x vs

-- the variable is free in the tree
abbrev pub has_free : FreeVariable → Node → Bool
has_free x (Defined.equal l r) = is_variable x l || is_variable x r
has_free x (Defined.member l r) = is_variable x l || is_variable x r
has_free x (Defined.not n) = has_free x n
has_free x (Defined.for_all n) = has_free x n
has_free x (Defined.implies l r) = has_free x l || has_free x r
has_free x (Defined.defined_relation id vs) = is_argument x vs

contains-collect_free_variable :
    (x : FreeVariable) (v : Variable) (s : Set.Set)
    → Set.contains x (collect_free_variable v s) ≡ (is_variable x v || Set.contains x s)
unfolding collect_free_variable
contains-collect_free_variable x (free y) s = contains-insert x y s
contains-collect_free_variable x (bound i) s = refl

contains-collect_arguments :
    (x : FreeVariable) (vs : List Variable) (s : Set.Set)
    → Set.contains x (collect_arguments vs s) ≡ (is_argument x vs || Set.contains x s)
unfolding collect_arguments
contains-collect_arguments x [] s = refl
contains-collect_arguments x (v ∷ vs) s = ground (
  arith,
  contains-collect_arguments x vs (collect_free_variable v s),
  contains-collect_free_variable x v s,
)

contains-collect_free_variables :
    (x : FreeVariable) (n : Node) (s : Set.Set)
    → Set.contains x (collect_free_variables n s) ≡ (has_free x n || Set.contains x s)
unfolding collect_free_variables
contains-collect_free_variables x (Defined.equal l r) s = ground (
  arith,
  contains-collect_free_variable x r (collect_free_variable l s),
  contains-collect_free_variable x l s,
)
contains-collect_free_variables x (Defined.member l r) s = ground (
  arith,
  contains-collect_free_variable x r (collect_free_variable l s),
  contains-collect_free_variable x l s,
)
contains-collect_free_variables x (Defined.not n) s = contains-collect_free_variables x n s
contains-collect_free_variables x (Defined.for_all n) s = contains-collect_free_variables x n s
contains-collect_free_variables x (Defined.implies l r) s = ground (
  arith,
  contains-collect_free_variables x r (collect_free_variables l s),
  contains-collect_free_variables x l s,
)
contains-collect_free_variables x (Defined.defined_relation id vs) s =
    contains-collect_arguments x vs s

check_declared_sound :
    (arity : ℕ) (vs : List FreeVariable) (x : FreeVariable)
    → check_declared arity vs ≡ ok tt
    → Set.contains x vs ≡ true
    → x < arity
unfolding check_declared Set.contains
check_declared_sound arity [] x q h = cc
check_declared_sound arity (v ∷ vs) x q h = ground (arith, check_declared_sound arity vs x)

check_declared_complete :
    (arity : ℕ) (vs : List FreeVariable)
    → ((x : FreeVariable) → Set.contains x vs ≡ true → x < arity)
    → check_declared arity vs ≡ ok tt
unfolding check_declared Set.contains
check_declared_complete arity [] h = refl
check_declared_complete arity (v ∷ vs) h =
    ground (arith, h v, check_declared_complete arity vs (λ x k. h x (ground arith)))

check_present_sound :
    (count i arity : ℕ) (vs : Set.Set) (x : FreeVariable)
    → check_present count i arity vs ≡ ok tt
    → i ≤ x
    → x < i + count
    → Set.contains x vs ≡ true
unfolding check_present
check_present_sound zero i arity vs x q l u = absurd (omega arith)
check_present_sound (suc count) i arity vs x q l u =
    ground (arith, check_present_sound count (i + 1) arity vs x)

check_present_complete :
    (count i arity : ℕ) (vs : Set.Set)
    → ((x : FreeVariable) → i ≤ x → x < i + count → Set.contains x vs ≡ true)
    → check_present count i arity vs ≡ ok tt
unfolding check_present
check_present_complete zero i arity vs h = refl
check_present_complete (suc count) i arity vs h =
    rw (h i (omega arith) (omega arith))
      (check_present_complete count (i + 1) arity vs (λ x l u. h x (omega arith) (omega arith)))

-- the arguments of the definition
abbrev pub declared_arity : DefinitionKind → ℕ
declared_arity (relation arity) = arity
declared_arity (function input_arity) = input_arity

-- There is an argument, and the graph has at most 256.
abbrev pub IsInterface : DefinitionKind → Type 0
IsInterface k = (1 ≤ declared_arity k) × (relation_arity k ≤ definition_max_graph_arity)

validate_kind_sound :
    (k : DefinitionKind) (a : ℕ) → validate_kind k ≡ ok a → IsInterface k × (a ≡ relation_arity k)
unfolding validate_kind relation_arity
validate_kind_sound (relation zero) a q = cc
validate_kind_sound (relation (suc n)) a q = ground arith
validate_kind_sound (function zero) a q = cc
validate_kind_sound (function (suc n)) a q = ground arith

pub validate_kind_complete :
    (k : DefinitionKind) → IsInterface k → validate_kind k ≡ ok (relation_arity k)
unfolding validate_kind relation_arity
validate_kind_complete (relation zero) h = absurd (omega (arith, h.0))
validate_kind_complete (relation (suc n)) h = ground arith
validate_kind_complete (function zero) h = absurd (omega (arith, h.0))
validate_kind_complete (function (suc n)) h = ground arith

check_no_reference_sound : (o : Option Identity) → check_no_reference o ≡ ok tt → o ≡ none
unfolding check_no_reference
check_no_reference_sound none q = refl
check_no_reference_sound (some id) q = cc

-- A graph interface, and a primitive body whose free variables are those below the graph's arity
abbrev pub IsGraph : DefinitionKind → Node → Type 0
IsGraph k n =
    IsInterface k
    × (first_definition_reference n ≡ none)
    × ((x : FreeVariable) → has_free x n ≡ ltb x (relation_arity k))

free_variables_sound :
    (n : Node) (arity : ℕ)
    → check_declared arity (collect_free_variables n []) ≡ ok tt
    → check_present arity 0 arity (collect_free_variables n []) ≡ ok tt
    → (x : FreeVariable) → has_free x n ≡ ltb x arity
unfolding Set.contains
free_variables_sound n arity below all x = ground (
  arith,
  contains-collect_free_variables x n [],
  check_declared_sound arity (collect_free_variables n []) x below,
  check_present_sound arity 0 arity (collect_free_variables n []) x all,
)

pub validate_sound :
    (k : DefinitionKind) (n : Node) (size : ℕ) → validate k n size ≡ ok tt → IsGraph k n
unfolding validate
validate_sound k n size q =
    let (a, qa, q) = >>=-eq-ok (validate_kind k) _ q in
    let (_, qr, q) = >>=-eq-ok (check_no_reference (first_definition_reference n)) _ q in
    let (_, qd, q) = >>=-eq-ok (check_declared a (collect_free_variables n [])) _ q in
    let (_, qp, q) = >>=-eq-ok (check_present a 0 a (collect_free_variables n [])) _ q in
    let (interface, e) = validate_kind_sound k a qa in
    (interface, check_no_reference_sound _ qr, λ x. free_variables_sound n a qd qp x ∙ ap (ltb x) e)

pub validate_complete :
    (k : DefinitionKind) (n : Node) (size : ℕ)
    → IsGraph k n
    → size ≤ formula_max_bytes
    → validate k n size ≡ ok tt
unfolding validate check_no_reference Set.contains
validate_complete k n size (interface, plain, interfaces) small =
    let below =
      check_declared_complete (relation_arity k) (collect_free_variables n [])
        (λ x h. ground (arith, interfaces x, contains-collect_free_variables x n [])) in
    let all =
      check_present_complete (relation_arity k) 0 (relation_arity k) (collect_free_variables n [])
        (λ x l u. ground (arith, interfaces x, contains-collect_free_variables x n [])) in
    rw (validate_kind_complete k interface, plain, below, all) (ground arith)
