-- ===== src/Semantics/Replacement.antt =====
-- zfc.rs: the body of a Replacement instance in a model.
use naome.Prelude.{◌≡◌, ◌≢◌, sym, ap₂, Bool, false, arith, ◌↔◌}
use mathlib.Core.Path.{transport}
use naome.Node.{FreeVariable}
use naome.Formula
use naome.Formula.{Formula}
use naome.Formula.Scope.{IsFormula, scoped}
use naome.Formula.Variables.{occurs}
use naome.Construction.Shape.{replacement_shape}
use naome.Zfc.Axioms.{ZfcAxiom}
use naome.Semantics.{Structure, Valuation, update, Holds, Valid}
use naome.Semantics.Truth.{Holds-for_all, Holds-substitute_free}
use naome.Semantics.Connectives.{Some, Holds-conjunction, Holds-biconditional, Holds-exists}
use naome.Semantics.Model.{IsModel, Some-map, occurs-ne, member_path, Holds-agree}

-- at distinct roles, with neither `w` nor `r` in the predicate
module _ (M : Structure) (p : Formula) (i o w s r : FreeVariable) (h : IsFormula p) (io : i ≢ o)
    (iw : i ≢ w) (is : i ≢ s) (ir : i ≢ r) (ow : o ≢ w) (os : o ≢ s) (or : o ≢ r) (wr : w ≢ r)
    (ws : w ≢ s) (sr : s ≢ r) (no_w : occurs w p ≡ false) (no_r : occurs r p ≡ false) where
  module _ (ρ : Valuation M) (a x y : M.Domain) where
    -- the values in the premise: `source`, `input` and `output`
    related : Valuation M
    related = update (update (update ρ s a) i x) o y

    -- another output `d` of the same input, by the uniqueness witness
    witness_value :
        (d : M.Domain)
        → Holds M p (update (update related w d) o (update related w d w))
          ≡ Holds M p (update (update (update ρ s a) i x) o d)
    unfolding related
    witness_value d =
        Holds-agree M p _ _ h (λ v q. let ne : v ≢ w = occurs-ne p v w q no_w in ground arith)

    equal_value :
        (d : M.Domain) → Holds M (Formula.equal w o) (update related w d) ≡ ◌≡◌ {A = M.Domain} d y
    unfolding related Formula.equal
    equal_value d = ap₂ (λ (u v : M.Domain). u ≡ v) (ground arith) (ground arith)

    unique_output :
        Holds M
          (Formula.conjunction p (
            Formula.for_all w
              (Formula.implies (Formula.substitute_free o w p) (Formula.equal w o))))
          related
        → Holds M p related
          × ((d : M.Domain) → Holds M p (update (update (update ρ s a) i x) o d) → d ≡ y)
    unfolding Formula.implies
    unique_output c =
        let (holds, unique) =
          (Holds-conjunction M p
              (Formula.for_all w
                (Formula.implies (Formula.substitute_free o w p) (Formula.equal w o)))
              related).0
            c in
        (
          holds,
          λ d q. transport (equal_value d) (
              transport (Holds-for_all M w _ related (search (h, scoped))) unique d (
                transport (sym (Holds-substitute_free M o w p (update related w d) h))
                  (transport (sym (witness_value d)) q))),
        )

  module _ (ρ : Valuation M) (a b y x : M.Domain) where
    -- the values in the conclusion: `source`, `result`, `output` and `input`
    imaged : Valuation M
    imaged = update (update (update (update ρ s a) r b) o y) i x

    input_value : imaged i ≡ x
    unfolding imaged
    input_value = ground arith

    source_value : imaged s ≡ a
    unfolding imaged
    source_value = ground arith

    output_value : update (update (update ρ s a) r b) o y o ≡ y
    output_value = ground arith

    result_value : update (update (update ρ s a) r b) o y r ≡ b
    result_value = ground arith

    predicate_value : Holds M p imaged ≡ Holds M p (update (update (update ρ s a) i x) o y)
    unfolding imaged
    predicate_value =
        Holds-agree M p _ _ h (λ v q. let ne : v ≢ r = occurs-ne p v r q no_r in ground arith)

    preimage_iff :
        Holds M (Formula.conjunction (Formula.member i s) p) imaged
        ↔ (M.belongs x a × Holds M p (update (update (update ρ s a) i x) o y))
    preimage_iff = (
      λ c.
          let (u, v) = (Holds-conjunction M (Formula.member i s) p imaged).0 c in
          (
            transport (member_path M i s imaged input_value source_value) u,
            transport predicate_value v,
          ),
      λ (u, v). (Holds-conjunction M _ _ imaged).1 (
        transport (sym (member_path M i s imaged input_value source_value)) u,
        transport (sym predicate_value) v,
      ),
    )

  image_body : Formula
  image_body =
      Formula.biconditional (Formula.member o r)
        (Formula.exists i (Formula.conjunction (Formula.member i s) p))

  membership :
      (ρ : Valuation M) (a b y : M.Domain)
      → M.belongs y b
        ↔ Some
            (λ (x : M.Domain). M.belongs x a × Holds M p (update (update (update ρ s a) i x) o y))
      → Holds M image_body (update (update (update ρ s a) r b) o y)
  unfolding image_body imaged
  membership ρ a b y eq =
      let σ : Valuation M = update (update (update ρ s a) r b) o y in
      let here = member_path M o r σ (output_value ρ a b y y) (result_value ρ a b y y) in
      let some_path =
        Holds-exists M i (Formula.conjunction (Formula.member i s) p) σ (search (h, scoped)) in
      (Holds-biconditional M _ _ σ).1 (
        λ m.
            transport (sym some_path)
              (Some-map (λ x q. (preimage_iff ρ a b y x).1 q) (eq.0 (transport here m))),
        λ c.
            transport (sym here)
              (eq.1 (Some-map (λ x q. (preimage_iff ρ a b y x).0 q) (transport some_path c))),
      )

  premise_path :
      (ρ : Valuation M) (a x : M.Domain)
      → Holds M (Formula.member i s) (update (update ρ s a) i x) ≡ M.belongs x a
  premise_path ρ a x =
      member_path M i s (update (update ρ s a) i x) {c = x} {d = a} (ground arith) (ground arith)

  pub replacement-Holds :
      {cited : ZfcAxiom → Bool} → IsModel M cited → Valid M (replacement_shape p i o w s r)
  unfolding image_body related Formula.implies
  replacement-Holds model ρ =
      transport (sym (Holds-for_all M s _ ρ (search (h, scoped) depth 12))) λ a total.
        transport (sym (Holds-exists M r _ (update ρ s a) (search (h, scoped)))) (
          Some-map
            (λ b eq.
              transport (sym (Holds-for_all M o _ (update (update ρ s a) r b) (search (h, scoped))))
                (λ y. membership ρ a b y (eq y)))
            (model.replaces p (update ρ s a) i o a h (λ x m. Some-map (unique_output ρ a x) (
              transport (Holds-exists M o _ (update (update ρ s a) i x) (search (h, scoped))) (
                transport (Holds-for_all M i _ (update ρ s a) (search (h, scoped))) total x
                  (transport (sym (premise_path ρ a x)) m))))))
