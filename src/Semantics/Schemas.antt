-- ===== src/Semantics/Schemas.antt =====
-- zfc.rs: schema instances in a model.
use naome.Prelude.{◌≡◌, Bool, true, false, List, [], ◌∷◌, arith, subst, sym}
use naome.Prelude.Result.{ok}
use naome.Prelude.Set
use naome.Node.{FreeVariable}
use naome.Formula
use naome.Formula.{Formula}
use naome.Formula.Scope.{IsFormula}
use naome.Formula.Binding.{for_all_each, for_all_many-eq-for_all_each}
use naome.Formula.Variables.{occurs}
use naome.Zfc.{Separation, Replacement, separation_formula, replacement_formula}
use naome.Zfc.Instances.{
  separation_formula_inv, replacement_formula_inv, separation_body, replacement_body,
  for_all_each-IsFormula, separation_body-IsFormula, replacement_body-IsFormula,
}
use naome.Semantics.{Structure, Valid}
use naome.Zfc.Axioms.{ZfcAxiom}
use naome.Semantics.Model.{IsModel, Valid-for_all}
use naome.Semantics.Separation.{separation-Holds}
use naome.Semantics.Replacement.{replacement-Holds}

module _ (M : Structure) where
  Valid-for_all_each :
      (vs : List FreeVariable) (f : Formula) → IsFormula f → Valid M f → Valid M (for_all_each vs f)
  unfolding for_all_each
  Valid-for_all_each [] f h p = p
  Valid-for_all_each (v ∷ vs) f h p =
      Valid-for_all M v (for_all_each vs f) (for_all_each-IsFormula vs f h)
        (Valid-for_all_each vs f h p)

  Valid-for_all_many :
      (vs : List FreeVariable) (f : Formula)
      → IsFormula f
      → Valid M f
      → Valid M (Formula.for_all_many vs f)
  Valid-for_all_many vs f h p =
      subst (Valid M) (sym (for_all_many-eq-for_all_each vs f)) (Valid-for_all_each vs f h p)

  -- A forbidden variable does not occur in an admitted predicate.
  not_permitted :
      (p : Formula) (forbidden : List FreeVariable) (x : FreeVariable)
      → Set.contains x forbidden ≡ true
      → (occurs x p ≡ true → Set.contains x forbidden ≡ false)
      → occurs x p ≡ false
  not_permitted p forbidden x e h = ground arith

  -- In a structure that separates by every formula, every Separation instance that `formula`
  -- accepts for a well-scoped predicate is true.
  pub separation_formula-Valid :
      {cited : ZfcAxiom → Bool}
      → IsModel M cited
      → (s : Separation) (f : Formula) → IsFormula s.predicate
      → separation_formula s ≡ ok f
      → Valid M f
  unfolding Set.contains
  separation_formula-Valid model s f h accepted =
      let (c, e) = separation_formula_inv s f accepted in
      let nodup = c.distinct_roles in
      subst (Valid M) (sym e) (
        Valid-for_all_many s.parameters (separation_body s) (separation_body-IsFormula s h) (
          separation-Holds M s.predicate s.element s.source s.result h (ground arith) (ground arith)
            (ground arith)
            (not_permitted s.predicate (s.result ∷ []) s.result (ground arith)
              (λ o. (c.permitted s.result o).0))
            model))

  -- In a structure that replaces by every formula, every Replacement instance that `formula`
  -- accepts for a well-scoped predicate is true.
  pub replacement_formula-Valid :
      {cited : ZfcAxiom → Bool}
      → IsModel M cited
      → (r : Replacement) (f : Formula) → IsFormula r.predicate
      → replacement_formula r ≡ ok f
      → Valid M f
  unfolding Set.contains
  replacement_formula-Valid model r f h accepted =
      let (c, e) = replacement_formula_inv r f accepted in
      let nodup = c.distinct_roles in
      let forbidden = r.uniqueness_witness ∷ r.result ∷ [] in
      subst (Valid M) (sym e) (
        Valid-for_all_many r.parameters (replacement_body r) (replacement_body-IsFormula r h) (
          replacement-Holds M r.predicate r.input r.output r.uniqueness_witness r.source r.result h
            (ground arith) (ground arith) (ground arith) (ground arith) (ground arith)
            (ground arith) (ground arith) (ground arith) (ground arith) (ground arith)
            (not_permitted r.predicate forbidden r.uniqueness_witness (ground arith)
              (λ o. (c.permitted r.uniqueness_witness o).0))
            (not_permitted r.predicate forbidden r.result (ground arith)
              (λ o. (c.permitted r.result o).0))
            model))
