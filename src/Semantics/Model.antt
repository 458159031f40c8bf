-- ===== src/Semantics/Model.antt =====
-- zfc.rs: what it is to be a model of the axioms, and facts about truth that both schemas use.
use naome.Prelude.{◌≡◌, ◌≢◌, sym, ◌∙◌, ap₂, Bool, true, false, ◌↔◌}
use mathlib.Core.Path.{transport}
use naome.Node.{FreeVariable}
use naome.Formula
use naome.Formula.{Formula}
use naome.Formula.Scope.{IsFormula}
use naome.Formula.Variables.{occurs}
use naome.Zfc.Axioms.{ZfcAxiom}
use naome.Semantics.{Structure, Valuation, update, Holds, Valid}
use naome.Semantics.Truth.{Holds-for_all, Sat-IsFormula}
use naome.Semantics.Connectives.{Some, Sat-agree}
use naome.Semantics.Sets.{Statement}

-- A model of the two schemas, for every property that a formula defines, and of the fixed axioms that
-- `cited` selects: of ZFC, where it selects all seven.
pub record IsModel (M : Structure) (cited : ZfcAxiom → Bool) : Type 0 where
  pub statements : (a : ZfcAxiom) → cited a ≡ true → Statement M a
  pub separates :
      (p : Formula) (ρ : Valuation M) (e : FreeVariable) (a : M.Domain)
      → IsFormula p
      → Some (λ (b : M.Domain).
        (z : M.Domain) → M.belongs z b ↔ (M.belongs z a × Holds M p (update ρ e z)))
  pub replaces :
      (p : Formula) (ρ : Valuation M) (i o : FreeVariable) (a : M.Domain)
      → IsFormula p
      → ((x : M.Domain)
          → M.belongs x a
          → Some (λ (y : M.Domain).
            Holds M p (update (update ρ i x) o y)
            × ((w : M.Domain) → Holds M p (update (update ρ i x) o w) → w ≡ y)))
      → Some (λ (b : M.Domain).
        (y : M.Domain)
        → M.belongs y b
          ↔ Some (λ (x : M.Domain). M.belongs x a × Holds M p (update (update ρ i x) o y)))

pub Some-map : {D : Type 0} {P Q : D → Type 0} → ((d : D) → P d → Q d) → Some P → Some Q
Some-map h s k = s (λ d p. k d (h d p))

pub occurs-ne : (p : Formula) (x r : FreeVariable) → occurs x p ≡ true → occurs r p ≡ false → x ≢ r
occurs-ne p x r o f q = let o' = rw q at o in cc

module _ (M : Structure) where
  pub member_path :
      (a b : FreeVariable) (σ : Valuation M) {c d : M.Domain}
      → σ a ≡ c
      → σ b ≡ d
      → Holds M (Formula.member a b) σ ≡ M.belongs c d
  unfolding Formula.member
  member_path a b σ p q = ap₂ M.belongs p q

  pub Valid-for_all :
      (v : FreeVariable) (f : Formula) → IsFormula f → Valid M f → Valid M (Formula.for_all v f)
  Valid-for_all v f h p ρ = transport (sym (Holds-for_all M v f ρ h)) (λ d. p (update ρ v d))

  -- Truth does not depend on a variable that does not occur.
  pub Holds-agree :
      (f : Formula) (ρ σ : Valuation M)
      → IsFormula f
      → ((x : FreeVariable) → occurs x f ≡ true → ρ x ≡ σ x)
      → Holds M f ρ ≡ Holds M f σ
  Holds-agree f ρ σ h e = Sat-agree M f ρ ρ σ e ∙ Sat-IsFormula M f ρ σ σ h
