-- ===== src/Semantics/Rules.antt =====
-- logic.rs: the axioms and the rules in a structure.
use naome.Prelude.{
  ◌↔◌, ℕ, ◌≡◌, refl, sym, ◌∙◌, ap, subst, fun_ext, ◌==◌, arith, Bool-cases, inl, inr,
}
use naome.Prelude.Result.{ok}
use mathlib.Core.Path.{transport}
use mathlib.Core.Logic.{if_pos, if_neg}
use naome.Node.{Node, FreeVariable, Node-discrete}
use naome.Formula
use naome.Formula.{Formula}
use naome.Formula.Scope.{IsFormula}
use naome.Logic
use naome.Logic.{LogicError}
use naome.Semantics.{Structure, Valuation, update, Holds, Valid}
use naome.Semantics.Truth.{Holds-for_all, Holds-vacuous_for_all, Holds-substitute_free}
use naome.Semantics.Connectives.{Sat-Stable}

pub modus_ponens_inv :
    (premise implication c : Formula)
    → Logic.modus_ponens premise implication ≡ ok c
    → implication ≡ Formula.implies premise c
unfolding Logic.modus_ponens Formula.implies
modus_ponens_inv premise (Node.implies l r) c e = elim (Node-discrete l premise) [
  | yes p ↦ let q = rw (if_pos _ p) at e in cc
  | no np ↦ let q = rw (if_neg _ np) at e in cc
]
modus_ponens_inv premise _ c e = cc

-- `modus_ponens` succeeds exactly when its second argument is an implication whose antecedent is the
-- first argument, and returns the consequent.
pub modus_ponens_iff :
    (premise implication c : Formula)
    → (Logic.modus_ponens premise implication ≡ ok c) ↔ (implication ≡ Formula.implies premise c)
unfolding Logic.modus_ponens Formula.implies
modus_ponens_iff premise implication c = (
  modus_ponens_inv premise implication c,
  λ e.
      rw e (elim (Node-discrete premise premise) [
        | yes p ↦ rw (if_pos _ p)
        | no np ↦ absurd (np refl)
      ]),
)

module _ (M : Structure) where
  pub simplification-Valid : (f g : Formula) → Valid M (Logic.simplification f g)
  unfolding Logic.simplification
  simplification-Valid f g ρ a b = a

  pub frege-Valid : (f g h : Formula) → Valid M (Logic.frege f g h)
  unfolding Logic.frege
  frege-Valid f g h ρ k l a = k a (l a)

  pub classical_contraposition-Valid :
      (f g : Formula) → Valid M (Logic.classical_contraposition f g)
  unfolding Logic.classical_contraposition
  classical_contraposition-Valid f g ρ k a = Sat-Stable M g ρ ρ (λ nb. k nb a)

  pub universal_distribution-Valid :
      (v : FreeVariable) (f g : Formula) → Valid M (Logic.universal_distribution v f g)
  unfolding Logic.universal_distribution
  universal_distribution-Valid v f g ρ k l d = k d (l d)

  pub vacuous_universal-Valid : (f : Formula) → IsFormula f → Valid M (Logic.vacuous_universal f)
  unfolding Logic.vacuous_universal
  vacuous_universal-Valid f h ρ a = transport (sym (Holds-vacuous_for_all M f ρ h)) (λ _. a)

  -- Q3 is true in every structure: from `for_all v f`, for a well-scoped `f`, follows `f` with any
  -- variable in the place of `v`.
  pub universal_instantiation-Valid :
      (v w : FreeVariable) (f : Formula)
      → IsFormula f
      → Valid M (Logic.universal_instantiation v w f)
  unfolding Logic.universal_instantiation
  universal_instantiation-Valid v w f h ρ all =
      transport (sym (Holds-substitute_free M v w f ρ h))
        (transport (Holds-for_all M v f ρ h) all (ρ w))

  pub equality_reflexivity-Valid : (v : FreeVariable) → Valid M (Logic.equality_reflexivity v)
  unfolding Logic.equality_reflexivity
  equality_reflexivity-Valid v ρ = refl

  update_same :
      (v w : FreeVariable) (ρ : Valuation M) (x : ℕ) → ρ v ≡ ρ w → ρ x ≡ update ρ v (ρ w) x
  update_same v w ρ x e = elim (Bool-cases (x == v)) [
    | inl same ↦ let q : x ≡ v = ground arith in rw same (ap ρ q ∙ e)
    | inr differ ↦ rw differ
  ]

  -- E2 is true in every structure: equal values may be substituted in a well-scoped formula.
  pub equality_substitution-Valid :
      (v w : FreeVariable) (f : Formula) → IsFormula f → Valid M (Logic.equality_substitution v w f)
  unfolding Logic.equality_substitution
  equality_substitution-Valid v w f h ρ e a =
      transport (sym (Holds-substitute_free M v w f ρ h))
        (subst (Holds M f) (fun_ext (λ x. update_same v w ρ x e)) a)

  -- What `modus_ponens` returns for two formulas that are true in a structure is true in it.
  pub modus_ponens-Valid :
      (premise implication c : Formula)
      → Valid M premise
      → Valid M implication
      → Logic.modus_ponens premise implication ≡ ok c
      → Valid M c
  unfolding Formula.implies
  modus_ponens-Valid premise implication c p i e ρ =
      let q : Holds M (Node.implies premise c) ρ =
        subst (λ f. Holds M f ρ) (modus_ponens_inv premise implication c e) (i ρ) in
      q (p ρ)

  -- `generalization` of a well-scoped formula that is true in a structure is true in it.
  pub generalization-Valid :
      (v : FreeVariable) (f : Formula)
      → IsFormula f
      → Valid M f
      → Valid M (Logic.generalization v f)
  unfolding Logic.generalization
  generalization-Valid v f h p ρ = transport (sym (Holds-for_all M v f ρ h)) (λ d. p (update ρ v d))
