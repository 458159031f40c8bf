-- ===== src/Zfc/Validation.antt =====
-- zfc.rs: `validate_schema` and the side conditions of the schemas.
use naome.Prelude.{
  ℕ, ◌≡◌, refl, ◌↔◌, true, false, ◌||◌, List, [], ◌∷◌, ◌++◌, arith, Bool-cases, inl, inr,
}
use naome.Prelude.Result.{ok, >>=-eq-ok}
use naome.Prelude.Set
use naome.Prelude.Set.{Set, contains-insert}
use naome.Node.{FreeVariable}
use naome.Formula
use naome.Formula.{Formula}
use naome.Formula.Variables.{occurs, contains-free_variables}
use naome.Zfc.{check_roles, check_parameters, check_predicate, validate_schema}

-- No element stands twice.
abbrev pub IsNodup : List FreeVariable → Type 0
IsNodup [] = Unit
IsNodup (v ∷ vs) = (Set.contains v vs ≡ false) × IsNodup vs

-- No element of the first list stands in the second.
abbrev pub Avoids : List FreeVariable → List FreeVariable → Type 0
Avoids vs ws = (x : FreeVariable) → Set.contains x vs ≡ true → Set.contains x ws ≡ false

contains-append :
    (x : ℕ) (vs ws : List FreeVariable)
    → Set.contains x (vs ++ ws) ≡ (Set.contains x vs || Set.contains x ws)
unfolding Set.contains
contains-append x [] ws = refl
contains-append x (v ∷ vs) ws = ground (arith, contains-append x vs ws)

check_roles_sound :
    (before vs : List FreeVariable) → check_roles before vs ≡ ok tt → IsNodup vs × Avoids vs before
unfolding check_roles Set.contains
check_roles_sound before [] e = (tt, λ x h. cc)
check_roles_sound before (v ∷ vs) e = elim (Bool-cases (Set.contains v before)) [
  | inl hit ↦ let q = rw hit at e in cc
  | inr miss ↦
      let q = rw miss at e in
      let (nodup, avoids) = check_roles_sound (before ++ v ∷ []) vs q in
      (
        (ground (arith, avoids v, contains-append v before (v ∷ [])), nodup),
        λ x h. ground (arith, avoids x, contains-append x before (v ∷ [])),
      )
]

check_roles_complete :
    (before vs : List FreeVariable) → IsNodup vs → Avoids vs before → check_roles before vs ≡ ok tt
unfolding check_roles Set.contains
check_roles_complete before [] n a = refl
check_roles_complete before (v ∷ vs) n a = rw (a v (ground arith)) (
    check_roles_complete (before ++ v ∷ []) vs n.1
      (λ x h. ground (arith, n.0, a x, contains-append x before (v ∷ []))))

check_parameters_sound :
    (roles ps : List FreeVariable) (declared d : Set)
    → check_parameters roles declared ps ≡ ok d
    → IsNodup ps
      × Avoids ps roles
      × Avoids ps declared
      × ((x : FreeVariable) → Set.contains x d ≡ (Set.contains x ps || Set.contains x declared))
unfolding check_parameters Set.contains
check_parameters_sound roles [] declared d e = (tt, λ x h. cc, λ x h. cc, λ x. ground arith)
check_parameters_sound roles (p ∷ ps) declared d e = elim (Bool-cases (Set.contains p roles)) [
  | inl hit ↦ let q = rw hit at e in cc
  | inr fresh ↦ elim (Bool-cases (Set.contains p declared)) [
    | inl hit ↦ let q = rw (fresh, hit) at e in cc
    | inr new ↦
        let q = rw (fresh, new) at e in
        let (nodup, avoids, undeclared, adds) =
          check_parameters_sound roles ps (Set.insert p declared) d q in
        (
          (ground (arith, undeclared p, contains-insert p p declared), nodup),
          λ x h. ground (arith, avoids x),
          λ x h. ground (arith, undeclared x, contains-insert x p declared),
          λ x. ground (arith, adds x, contains-insert x p declared),
        )
  ]
]

-- The set that the loop ends with.
declare_all : Set → List FreeVariable → Set
declare_all declared [] = declared
declare_all declared (p ∷ ps) = declare_all (Set.insert p declared) ps

contains-declare_all :
    (x : FreeVariable) (ps : List FreeVariable) (declared : Set)
    → Set.contains x (declare_all declared ps) ≡ (Set.contains x ps || Set.contains x declared)
unfolding declare_all Set.contains
contains-declare_all x [] declared = refl
contains-declare_all x (p ∷ ps) declared =
    ground (arith, contains-declare_all x ps (Set.insert p declared), contains-insert x p declared)

check_parameters_complete :
    (roles ps : List FreeVariable) (declared : Set)
    → IsNodup ps
    → Avoids ps roles
    → Avoids ps declared
    → check_parameters roles declared ps ≡ ok (declare_all declared ps)
unfolding check_parameters declare_all Set.contains
check_parameters_complete roles [] declared n a u = refl
check_parameters_complete roles (p ∷ ps) declared n a u =
    rw (a p (ground arith), u p (ground arith))
      (check_parameters_complete roles ps (Set.insert p declared) n.1 (λ x h. a x (ground arith))
        (λ x h. ground (arith, n.0, u x, contains-insert x p declared)))

-- A free variable of the predicate plays an allowed role or is declared, and plays no forbidden role.
abbrev pub IsPermitted : List FreeVariable → List FreeVariable → Set → FreeVariable → Type 0
IsPermitted allowed forbidden declared x =
    (Set.contains x forbidden ≡ false)
    × ((Set.contains x allowed || Set.contains x declared) ≡ true)

check_predicate_sound :
    (allowed forbidden : List FreeVariable) (declared : Set) (vs : List FreeVariable)
    → (x : FreeVariable) → check_predicate allowed forbidden declared vs ≡ ok tt
    → Set.contains x vs ≡ true
    → IsPermitted allowed forbidden declared x
unfolding check_predicate Set.contains
check_predicate_sound allowed forbidden declared [] x e h = cc
check_predicate_sound allowed forbidden declared (v ∷ vs) x e h =
    ground (arith, check_predicate_sound allowed forbidden declared vs x)

check_predicate_complete :
    (allowed forbidden : List FreeVariable) (declared : Set) (vs : List FreeVariable)
    → ((x : FreeVariable) → Set.contains x vs ≡ true → IsPermitted allowed forbidden declared x)
    → check_predicate allowed forbidden declared vs ≡ ok tt
unfolding check_predicate Set.contains
check_predicate_complete allowed forbidden declared [] h = refl
check_predicate_complete allowed forbidden declared (v ∷ vs) h =
    ground (
      arith,
      h v,
      check_predicate_complete allowed forbidden declared vs (λ x k. h x (ground arith)),
    )

-- The side conditions of a schema instance.
pub record IsAdmissible (predicate : Formula)
    (roles allowed forbidden parameters : List FreeVariable) : Type 0 where
  pub distinct_roles : IsNodup roles
  pub distinct_parameters : IsNodup parameters
  pub fresh_parameters : Avoids parameters roles
  pub permitted :
      (x : FreeVariable) → occurs x predicate ≡ true → IsPermitted allowed forbidden parameters x

module _ (predicate : Formula) (roles allowed forbidden parameters : List FreeVariable) where
  sound :
      validate_schema predicate roles allowed forbidden parameters ≡ ok tt
      → IsAdmissible predicate roles allowed forbidden parameters
  unfolding validate_schema Set.contains
  sound e =
      let (_, roles_ok, rest) = >>=-eq-ok (check_roles [] roles) _ e in
      let (d, parameters_ok, predicate_ok) =
        >>=-eq-ok (check_parameters roles [] parameters) _ rest in
      let (distinct, _) = check_roles_sound [] roles roles_ok in
      let (nodup, fresh, _, adds) = check_parameters_sound roles parameters [] d parameters_ok in
      record {
        distinct_roles = distinct;
        distinct_parameters = nodup;
        fresh_parameters = fresh;
        permitted = λ x h. ground (
          arith,
          adds x,
          check_predicate_sound allowed forbidden d (Formula.free_variables predicate) x
              predicate_ok,
          contains-free_variables x predicate,
        );
      }

  complete :
      IsAdmissible predicate roles allowed forbidden parameters
      → validate_schema predicate roles allowed forbidden parameters ≡ ok tt
  unfolding validate_schema Set.contains
  complete h = rw (check_roles_complete [] roles h.distinct_roles (λ x e. refl)) (
      rw
        (check_parameters_complete roles parameters [] h.distinct_parameters h.fresh_parameters
          (λ x e. refl))
        (check_predicate_complete allowed forbidden (declare_all [] parameters)
          (Formula.free_variables predicate)
          (λ x e. ground (
            arith,
            h.permitted x,
            contains-free_variables x predicate,
            contains-declare_all x parameters [],
          ))))

  -- `validate_schema` accepts exactly when the roles are distinct, the parameters are distinct and
  -- no roles, and each free variable of the predicate is permitted.
  pub validate_schema_iff :
      (validate_schema predicate roles allowed forbidden parameters ≡ ok tt)
      ↔ IsAdmissible predicate roles allowed forbidden parameters
  validate_schema_iff = (sound, complete)
