-- ===== src/Checker/Obligation/Meaning.antt =====
-- naome-checker/src/lib.rs: what the obligation of a function definition says.
use naome.Prelude.{ℕ, zero, suc, ◌+◌, ◌≡◌, ◌≢◌, ◌↔◌, sym, ◌∙◌, ap₂, fun_ext, subst, false, arith}
use mathlib.Core.Path.{transport}
use naome.Node.{FreeVariable}
use naome.Formula
use naome.Formula.{Formula}
use naome.Formula.Scope.{IsFormula, for_all-IsFormula, scoped}
use naome.Formula.Variables.{occurs}
use naome.Checker.Obligation.{close_inputs, function_obligation}
use naome.Semantics.{Structure, Valuation, update, Holds, Valid}
use naome.Semantics.Truth.{Holds-for_all, Holds-substitute_free}
use naome.Semantics.Connectives.{Some, Holds-conjunction, Holds-exists}
use naome.Semantics.Model.{Some-map, occurs-ne, Holds-agree, Valid-for_all}

-- the formula of that name in `function_obligation`
abbrev uniqueness : Formula → FreeVariable → FreeVariable → Formula
uniqueness body o w =
    Formula.for_all w (Formula.implies (Formula.substitute_free o w body) (Formula.equal w o))

module _ (M : Structure) where
  update_same : (ρ : Valuation M) (v x : FreeVariable) → update ρ v (ρ v) x ≡ ρ x
  update_same ρ v x = ground arith

  Valid-for_all_iff :
      (v : FreeVariable) (f : Formula) → IsFormula f → Valid M (Formula.for_all v f) ↔ Valid M f
  Valid-for_all_iff v f h = (
    λ p ρ.
        subst (Holds M f) (fun_ext (update_same ρ v))
          (transport (Holds-for_all M v f ρ h) (p ρ) (ρ v)),
    Valid-for_all M v f h,
  )

  Valid-close_inputs : (n : ℕ) (f : Formula) → IsFormula f → Valid M (close_inputs n f) ↔ Valid M f
  unfolding close_inputs
  Valid-close_inputs zero f h = (λ p. p, λ p. p)
  Valid-close_inputs (suc n) f h =
      let inner = Valid-close_inputs n (Formula.for_all n f) (for_all-IsFormula n f h) in
      let outer = Valid-for_all_iff n f h in (λ p. outer.0 (inner.0 p), λ p. inner.1 (outer.1 p))

  module _ (body : Formula) (o w : FreeVariable) (h : IsFormula body) (ne : o ≢ w)
      (no_w : occurs w body ≡ false) (ρ : Valuation M) (y : M.Domain) where
    related : Valuation M
    related = update ρ o y

    witness_value :
        (d : M.Domain)
        → Holds M (Formula.substitute_free o w body) (update related w d)
          ≡ Holds M body (update ρ o d)
    unfolding related
    witness_value d =
        Holds-substitute_free M o w body (update related w d) h
        ∙ Holds-agree M body _ _ h
            (λ v q. let other : v ≢ w = occurs-ne body v w q no_w in ground arith)

    equal_value :
        (d : M.Domain) → Holds M (Formula.equal w o) (update related w d) ≡ ◌≡◌ {A = M.Domain} d y
    unfolding related Formula.equal
    equal_value d = ap₂ (λ (u v : M.Domain). u ≡ v) (ground arith) (ground arith)

    unique_iff :
        Holds M (Formula.conjunction body (uniqueness body o w)) related
        ↔ (Holds M body related × ((d : M.Domain) → Holds M body (update ρ o d) → d ≡ y))
    unfolding Formula.implies
    unique_iff =
        let parts = Holds-conjunction M body (uniqueness body o w) related in
        let all = Holds-for_all M w _ related (search (h, scoped)) in
        (
          λ c.
              let (holds, unique) = parts.0 c in
              (
                holds,
                λ d q.
                    transport (equal_value d)
                      (transport all unique d (transport (sym (witness_value d)) q)),
              ),
          λ (holds, unique). parts.1 (
            holds,
            transport (sym all)
                (λ d q. transport (sym (equal_value d)) (unique d (transport (witness_value d) q))),
          ),
        )

  -- For a well-scoped body in which the variable after the output does not occur, the obligation is
  -- true in a structure exactly when, at all values of the other variables, the body holds for one
  -- value of the output and for no other.
  pub function_obligation_iff :
      (n : ℕ) (body : Formula)
      → IsFormula body
      → occurs (n + 1) body ≡ false
      → Valid M (function_obligation n body) ↔ (
          (ρ : Valuation M)
          → Some (λ (y : M.Domain).
            Holds M body (update ρ n y) × ((d : M.Domain) → Holds M body (update ρ n d) → d ≡ y)))
  unfolding function_obligation related
  function_obligation_iff n body h fresh =
      let ne : n ≢ n + 1 = omega arith in
      let inner = Formula.conjunction body (uniqueness body n (n + 1)) in
      let closed = Valid-close_inputs n (Formula.exists n inner) (search (h, scoped)) in
      let path = λ (ρ : Valuation M). Holds-exists M n inner ρ (search (h, scoped)) in
      let unique = unique_iff body n (n + 1) h ne fresh in
      (
        λ p ρ. Some-map (λ y c. (unique ρ y).0 c) (transport (path ρ) (closed.0 p ρ)),
        λ q. closed.1 (λ ρ. transport (sym (path ρ)) (Some-map (λ y c. (unique ρ y).1 c) (q ρ))),
      )
