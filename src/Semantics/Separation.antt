-- ===== src/Semantics/Separation.antt =====
-- zfc.rs: the body of a Separation instance in a model.
use naome.Prelude.{◌≡◌, ◌≢◌, sym, Bool, false, arith, ◌↔◌}
use mathlib.Core.Path.{transport}
use naome.Node.{FreeVariable}
use naome.Formula
use naome.Formula.{Formula}
use naome.Formula.Scope.{IsFormula, scoped}
use naome.Formula.Variables.{occurs}
use naome.Construction.Shape.{separation_shape}
use naome.Zfc.Axioms.{ZfcAxiom}
use naome.Semantics.{Structure, Valuation, update, Holds, Valid}
use naome.Semantics.Truth.{Holds-for_all}
use naome.Semantics.Connectives.{Holds-conjunction, Holds-biconditional, Holds-exists}
use naome.Semantics.Model.{IsModel, Some-map, occurs-ne, member_path, Holds-agree}

-- the body of Separation, at distinct roles and with `r` not in the predicate
module _ (M : Structure) (p : Formula) (e s r : FreeVariable) (h : IsFormula p) (es : e ≢ s)
    (er : e ≢ r) (sr : s ≢ r) (fresh : occurs r p ≡ false) where
  module _ (ρ : Valuation M) (a b z : M.Domain) where
    -- the roles' values, the innermost last
    valuation : Valuation M
    valuation = update (update (update ρ s a) r b) e z

    element_value : valuation e ≡ z
    unfolding valuation
    element_value = ground arith

    source_value : valuation s ≡ a
    unfolding valuation
    source_value = ground arith

    result_value : valuation r ≡ b
    unfolding valuation
    result_value = ground arith

    predicate_value : Holds M p valuation ≡ Holds M p (update (update ρ s a) e z)
    unfolding valuation
    predicate_value =
        Holds-agree M p _ _ h (λ x o. let ne : x ≢ r = occurs-ne p x r o fresh in ground arith)

    membership :
        M.belongs z b ↔ (M.belongs z a × Holds M p (update (update ρ s a) e z))
        → Holds M
            (Formula.biconditional
              (Formula.member e r)
              (Formula.conjunction (Formula.member e s) p))
            valuation
    membership eq = (Holds-biconditional M _ _ valuation).1 (
      λ m.
          let (x, y) =
            eq.0 (transport (member_path M e r valuation element_value result_value) m) in
          (Holds-conjunction M _ _ valuation).1 (
            transport (sym (member_path M e s valuation element_value source_value)) x,
            transport (sym predicate_value) y,
          ),
      λ c.
          let (x, y) = (Holds-conjunction M (Formula.member e s) p valuation).0 c in
          transport (sym (member_path M e r valuation element_value result_value)) (
            eq.1 (
              transport (member_path M e s valuation element_value source_value) x,
              transport predicate_value y,
            )),
    )

  pub separation-Holds :
      {cited : ZfcAxiom → Bool} → IsModel M cited → Valid M (separation_shape p e s r)
  unfolding valuation
  separation-Holds model ρ = transport (sym (Holds-for_all M s _ ρ (search (h, scoped)))) λ a.
      transport (sym (Holds-exists M r _ (update ρ s a) (search (h, scoped)))) (
        Some-map
          (λ b eq.
            transport (sym (Holds-for_all M e _ (update (update ρ s a) r b) (search (h, scoped))))
              (λ z. membership ρ a b z (eq z)))
          (model.separates p (update ρ s a) e a h))
