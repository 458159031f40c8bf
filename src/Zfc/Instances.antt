-- ===== src/Zfc/Instances.antt =====
-- zfc.rs: the shape and the free variables of accepted schema instances.
use naome.Prelude.{
  ◌≡◌, refl, sym, ◌∙◌, ap, Bool, true, false, ◌||◌, negb, List, [], ◌∷◌, arith, ◌==◌, if◌then◌else◌,
  Bool-cases, inl, inr,
}
use naome.Prelude.Result.{ok, >>=-eq-ok, ok-injective}
use naome.Prelude.Set
use naome.Node
use naome.Node.{Node, Variable, bound, free, FreeVariable}
use naome.Formula
use naome.Formula.{Formula}
use naome.Formula.Scope.{IsFormula, for_all-IsFormula}
use naome.Formula.Binding.{for_all_each, for_all_many-eq-for_all_each}
use naome.Formula.Variables.{
  occurs, occurs-for_all, occurs-for_all_many, has_matching-none, is_closed_iff,
}
use naome.Formula.Opening.{substitute_free-eq-map}
use naome.Construction
use naome.Construction.{evaluate}
use naome.Construction.Shape.{
  separation_shape, replacement_shape, evaluate-separation, evaluate-replacement,
  evaluate-IsFormula, separation-AllInputs, replacement-AllInputs,
}
use naome.Zfc.{Separation, Replacement, validate_schema, separation_formula, replacement_formula}
use naome.Zfc.Validation.{IsAdmissible, validate_schema_iff}

module _ (x : FreeVariable) where
  occurs-equal : (a b : FreeVariable) → occurs x (Formula.equal a b) ≡ (a == x || b == x)
  unfolding Formula.equal Node.has_matching_free_variable
  occurs-equal a b = refl

  occurs-member : (a b : FreeVariable) → occurs x (Formula.member a b) ≡ (a == x || b == x)
  unfolding Formula.member Node.has_matching_free_variable
  occurs-member a b = refl

  occurs-implies : (f g : Formula) → occurs x (Formula.implies f g) ≡ (occurs x f || occurs x g)
  unfolding Formula.implies Node.has_matching_free_variable
  occurs-implies f g = refl

  occurs-conjunction :
      (f g : Formula) → occurs x (Formula.conjunction f g) ≡ (occurs x f || occurs x g)
  unfolding Formula.conjunction Node.has_matching_free_variable
  occurs-conjunction f g = refl

  occurs-biconditional :
      (f g : Formula) → occurs x (Formula.biconditional f g) ≡ (occurs x f || occurs x g)
  unfolding Formula.biconditional Node.has_matching_free_variable
  occurs-biconditional f g = ground arith

  occurs-exists :
      (v : FreeVariable) (f : Formula)
      → occurs x (Formula.exists v f) ≡ (if v == x then false else occurs x f)
  unfolding Formula.exists Node.has_matching_free_variable
  occurs-exists v f = occurs-for_all x v (Node.not f)

  ruleset occurs_laws = (
    occurs-equal, occurs-member, occurs-implies, occurs-conjunction, occurs-biconditional,
    occurs-exists, occurs-for_all,
  )

  matches_free-map :
      (u : Variable) (m : FreeVariable → FreeVariable) (p : FreeVariable → Bool)
      → Node.matches_free (Node.map_free_variable u m) p ≡ Node.matches_free u (λ y. p (m y))
  unfolding Node.map_free_variable Node.matches_free
  matches_free-map (bound i) m p = refl
  matches_free-map (free y) m p = refl

  has_matching-map :
      (n : Node) (m : FreeVariable → FreeVariable) (p : FreeVariable → Bool)
      → Node.has_matching_free_variable (Node.map_free_variables n m) p
        ≡ Node.has_matching_free_variable n (λ y. p (m y))
  unfolding Node.map_free_variables Node.has_matching_free_variable
  has_matching-map (Node.equal a b) m p = rw (matches_free-map a m p, matches_free-map b m p)
  has_matching-map (Node.member a b) m p = rw (matches_free-map a m p, matches_free-map b m p)
  has_matching-map (Node.not n) m p = has_matching-map n m p
  has_matching-map (Node.implies l r) m p = rw (has_matching-map l m p, has_matching-map r m p)
  has_matching-map (Node.for_all n) m p = has_matching-map n m p

  -- A substitution brings in no variable but the replacement.
  occurs-substitute_free :
      (v w : FreeVariable) (f : Formula)
      → (w == x) ≡ false
      → occurs x f ≡ false
      → occurs x (Formula.substitute_free v w f) ≡ false
  occurs-substitute_free v w f ne h =
      ap (occurs x) (substitute_free-eq-map v w f)
      ∙ has_matching-map f (λ y. if y == v then w else y) (λ y. y == x)
      ∙ has_matching-none f _ (λ y e. elim (Bool-cases (y == x)) [
        | inl same ↦ let q : y ≡ x = ground arith in absurd (let r = rw q at e in cc)
        | inr other ↦ ground arith
      ])

  occurs-separation :
      (p : Formula) (e s r : FreeVariable)
      → occurs x (separation_shape p e s r)
        ≡ (if s == x then false else if r == x then false else if e == x then false else occurs x p)
  occurs-separation p e s r = simp occurs_laws (ground arith)

  -- The variables free in the body of Replacement are free in the predicate and are no roles.
  not_occurs-replacement :
      (p : Formula) (i o w s r : FreeVariable)
      → ((i == x || o == x || s == x) || negb (occurs x p)) ≡ true
      → occurs x (replacement_shape p i o w s r) ≡ false
  not_occurs-replacement p i o w s r h =
      simp occurs_laws (ground (arith, occurs-substitute_free o w p))

pub for_all_each-IsFormula :
    (vs : List FreeVariable) (f : Formula) → IsFormula f → IsFormula (for_all_each vs f)
unfolding for_all_each
for_all_each-IsFormula [] f h = h
for_all_each-IsFormula (v ∷ vs) f h =
    for_all-IsFormula v (for_all_each vs f) (for_all_each-IsFormula vs f h)

pub for_all_many-IsFormula :
    (vs : List FreeVariable) (f : Formula) → IsFormula f → IsFormula (Formula.for_all_many vs f)
for_all_many-IsFormula vs f h =
    rw (for_all_many-eq-for_all_each vs f) (for_all_each-IsFormula vs f h)

-- the side conditions of Separation and of Replacement
abbrev pub SeparationConditions : Separation → Type 0
SeparationConditions s =
    IsAdmissible s.predicate (s.element ∷ s.source ∷ s.result ∷ []) (s.element ∷ s.source ∷ [])
      (s.result ∷ []) s.parameters

abbrev pub ReplacementConditions : Replacement → Type 0
ReplacementConditions r =
    IsAdmissible r.predicate (r.input ∷ r.output ∷ r.uniqueness_witness ∷ r.source ∷ r.result ∷ [])
      (r.input ∷ r.output ∷ r.source ∷ []) (r.uniqueness_witness ∷ r.result ∷ []) r.parameters

abbrev pub separation_body : Separation → Formula
separation_body s = separation_shape s.predicate s.element s.source s.result

abbrev pub replacement_body : Replacement → Formula
replacement_body r =
    replacement_shape r.predicate r.input r.output r.uniqueness_witness r.source r.result

pub separation_body-IsFormula :
    (s : Separation) → IsFormula s.predicate → IsFormula (separation_body s)
separation_body-IsFormula s h =
    rw (evaluate-separation s.predicate s.element s.source s.result) at (
      evaluate-IsFormula (Construction.separation s.predicate s.element s.source s.result)
        (separation-AllInputs s.predicate s.element s.source s.result h))

pub replacement_body-IsFormula :
    (r : Replacement) → IsFormula r.predicate → IsFormula (replacement_body r)
replacement_body-IsFormula r h =
    rw (evaluate-replacement r.predicate r.input r.output r.uniqueness_witness r.source r.result) at
      (evaluate-IsFormula
        (Construction.replacement r.predicate r.input r.output r.uniqueness_witness r.source
          r.result)
        (replacement-AllInputs r.predicate r.input r.output r.uniqueness_witness r.source r.result
          h))

pub separation_formula_inv :
    (s : Separation) (f : Formula)
    → separation_formula s ≡ ok f
    → SeparationConditions s × (f ≡ Formula.for_all_many s.parameters (separation_body s))
unfolding separation_formula
separation_formula_inv s f e =
    let (_, valid, result) =
      >>=-eq-ok
        (validate_schema s.predicate (s.element ∷ s.source ∷ s.result ∷ [])
          (s.element ∷ s.source ∷ []) (s.result ∷ []) s.parameters)
        _ e in
    (
      (validate_schema_iff _ _ _ _ _).0 valid,
      sym (ok-injective result)
          ∙ ap (Formula.for_all_many s.parameters)
              (evaluate-separation s.predicate s.element s.source s.result),
    )

pub replacement_formula_inv :
    (r : Replacement) (f : Formula)
    → replacement_formula r ≡ ok f
    → ReplacementConditions r × (f ≡ Formula.for_all_many r.parameters (replacement_body r))
unfolding replacement_formula
replacement_formula_inv r f e =
    let (_, valid, result) =
      >>=-eq-ok
        (validate_schema r.predicate
          (r.input ∷ r.output ∷ r.uniqueness_witness ∷ r.source ∷ r.result ∷ [])
          (r.input ∷ r.output ∷ r.source ∷ []) (r.uniqueness_witness ∷ r.result ∷ []) r.parameters)
        _ e in
    (
      (validate_schema_iff _ _ _ _ _).0 valid,
      sym (ok-injective result)
          ∙ ap (Formula.for_all_many r.parameters) (
              evaluate-replacement r.predicate r.input r.output r.uniqueness_witness r.source
                r.result),
    )

module _ (s : Separation) (f : Formula) (accepted : separation_formula s ≡ ok f) where
  separation_occurs : (x : FreeVariable) → occurs x f ≡ false
  unfolding Set.contains
  separation_occurs x =
      let (h, e) = separation_formula_inv s f accepted in
      ap (occurs x) e
      ∙ ground (
        arith,
        occurs-for_all_many x s.parameters (separation_body s),
        occurs-separation x s.predicate s.element s.source s.result,
        h.permitted x,
      )

  -- A Separation instance that `formula` accepts is closed.
  pub separation_formula-closed : Formula.is_closed f ≡ true
  separation_formula-closed = (is_closed_iff f).1 separation_occurs

  pub separation_instance-IsFormula : IsFormula s.predicate → IsFormula f
  separation_instance-IsFormula h =
      let (_, e) = separation_formula_inv s f accepted in
      rw e (for_all_many-IsFormula s.parameters (separation_body s) (separation_body-IsFormula s h))

module _ (r : Replacement) (f : Formula) (accepted : replacement_formula r ≡ ok f) where
  replacement_occurs : (x : FreeVariable) → occurs x f ≡ false
  unfolding Set.contains
  replacement_occurs x =
      let (h, e) = replacement_formula_inv r f accepted in
      ap (occurs x) e
      ∙ ground (
        arith,
        occurs-for_all_many x r.parameters (replacement_body r),
        not_occurs-replacement x r.predicate r.input r.output r.uniqueness_witness r.source
            r.result,
        h.permitted x,
      )

  -- A Replacement instance that `formula` accepts is closed.
  pub replacement_formula-closed : Formula.is_closed f ≡ true
  replacement_formula-closed = (is_closed_iff f).1 replacement_occurs

  pub replacement_instance-IsFormula : IsFormula r.predicate → IsFormula f
  replacement_instance-IsFormula h =
      let (_, e) = replacement_formula_inv r f accepted in
      rw e
        (for_all_many-IsFormula r.parameters (replacement_body r) (replacement_body-IsFormula r h))
