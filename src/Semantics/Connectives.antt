-- ===== src/Semantics/Connectives.antt =====
-- formula.rs: the connectives defined from ¬, → and ∀, and stability of truth.
use naome.Prelude.{◌≡◌, refl, ap, ap₂, true, ◌==◌, ◌↔◌, arith}
use naome.Node
use naome.Node.{Node, Variable, bound, free, FreeVariable}
use naome.Formula
use naome.Formula.{Formula}
use naome.Formula.Scope.{IsFormula}
use naome.Formula.Variables.{occurs, or_left, or_right}
use naome.Semantics.{Structure, Valuation, push, update, value, Sat, Holds}
use naome.Semantics.Truth.{all_path, Holds-for_all}

abbrev pub Stable : Type 0 → Type 0
Stable A = ¬ ¬ A → A

-- what `conjunction`, `disjunction` and `exists` come to
abbrev pub Both : Type 0 → Type 0 → Type 0
Both A B = ¬ (A → ¬ B)

abbrev pub Some : {D : Type 0} → (D → Type 0) → Type 0
Some {D} P = ¬ ((d : D) → ¬ P d)

pub Both_iff : {A B : Type 0} → Stable A → Stable B → Both A B ↔ (A × B)
Both_iff sa sb =
    (λ h. (sa (λ na. h (λ a. absurd (na a))), sb (λ nb. h (λ a b. nb b))), λ (a, b) h. h a b)

pub Both-Stable : {A B : Type 0} → Stable (Both A B)
Both-Stable n h = n (λ k. k h)

pub ¬-Stable : {A : Type 0} → Stable (¬ A)
¬-Stable n a = n (λ k. k a)

pub →-Stable : {A B : Type 0} → Stable B → Stable (A → B)
→-Stable s n a = s (λ nb. n (λ f. nb (f a)))

pub Π-Stable : {D : Type 0} {P : D → Type 0} → ((d : D) → Stable (P d)) → Stable ((d : D) → P d)
Π-Stable s n d = s d (λ np. n (λ f. np (f d)))

pub ×-Stable : {A B : Type 0} → Stable A → Stable B → Stable (A × B)
×-Stable sa sb n = (sa (λ k. n (λ p. k p.0)), sb (λ k. n (λ p. k p.1)))

module _ (M : Structure) where
  -- Truth of any formula is stable under double negation.
  pub Sat-Stable : (n : Node) (β ρ : Valuation M) → Stable (Sat M n β ρ)
  Sat-Stable (Node.equal a b) β ρ = M.eq_stable (value β ρ a) (value β ρ b)
  Sat-Stable (Node.member a b) β ρ = M.belongs_stable (value β ρ a) (value β ρ b)
  Sat-Stable (Node.not n) β ρ = ¬-Stable
  Sat-Stable (Node.implies l r) β ρ = →-Stable (Sat-Stable r β ρ)
  Sat-Stable (Node.for_all n) β ρ = Π-Stable (λ d. Sat-Stable n (push d β) ρ)

  pub Holds-conjunction :
      (f g : Formula) (ρ : Valuation M)
      → Holds M (Formula.conjunction f g) ρ ↔ (Holds M f ρ × Holds M g ρ)
  unfolding Formula.conjunction
  Holds-conjunction f g ρ = Both_iff (Sat-Stable f ρ ρ) (Sat-Stable g ρ ρ)

  pub Holds-disjunction :
      (f g : Formula) (ρ : Valuation M)
      → Holds M (Formula.disjunction f g) ρ ↔ ¬ (¬ Holds M f ρ × ¬ Holds M g ρ)
  unfolding Formula.disjunction
  Holds-disjunction f g ρ = (λ h (nf, ng). ng (h nf), λ h nf. Sat-Stable g ρ ρ (λ ng. h (nf, ng)))

  pub Holds-biconditional :
      (f g : Formula) (ρ : Valuation M)
      → Holds M (Formula.biconditional f g) ρ ↔ (Holds M f ρ ↔ Holds M g ρ)
  unfolding Formula.biconditional Formula.conjunction Formula.implies Formula.negate
  Holds-biconditional f g ρ = Both_iff (→-Stable (Sat-Stable g ρ ρ)) (→-Stable (Sat-Stable f ρ ρ))

  -- `exists v f` holds when not every value of `v` refutes `f`.
  pub Holds-exists :
      (v : FreeVariable) (f : Formula) (ρ : Valuation M)
      → IsFormula f
      → Holds M (Formula.exists v f) ρ ≡ Some (λ d. Holds M f (update ρ v d))
  unfolding Formula.exists Formula.negate
  Holds-exists v f ρ h = ap (λ X. ¬ X) (Holds-for_all M v (Node.not f) ρ h)

  value-agree :
      (u : Variable) (β ρ σ : Valuation M)
      → ((x : FreeVariable) → Node.matches_free u (λ y. y == x) ≡ true → ρ x ≡ σ x)
      → value β ρ u ≡ value β σ u
  unfolding Node.matches_free
  value-agree (bound i) β ρ σ e = refl
  value-agree (free x) β ρ σ e = e x (ground arith)

  -- Truth depends on the values of the variables that occur.
  pub Sat-agree :
      (n : Node) (β ρ σ : Valuation M)
      → ((x : FreeVariable) → occurs x n ≡ true → ρ x ≡ σ x)
      → Sat M n β ρ ≡ Sat M n β σ
  unfolding Node.has_matching_free_variable
  Sat-agree (Node.equal a b) β ρ σ e =
      ap₂ ◌≡◌ (value-agree a β ρ σ (λ x h. e x (or_left _ _ h)))
        (value-agree b β ρ σ (λ x h. e x (or_right _ _ h)))
  Sat-agree (Node.member a b) β ρ σ e =
      ap₂ M.belongs (value-agree a β ρ σ (λ x h. e x (or_left _ _ h)))
        (value-agree b β ρ σ (λ x h. e x (or_right _ _ h)))
  Sat-agree (Node.not n) β ρ σ e = ap (λ X. ¬ X) (Sat-agree n β ρ σ e)
  Sat-agree (Node.implies l r) β ρ σ e =
      ap₂ (λ X Y. X → Y) (Sat-agree l β ρ σ (λ x h. e x (or_left _ _ h)))
        (Sat-agree r β ρ σ (λ x h. e x (or_right _ _ h)))
  Sat-agree (Node.for_all n) β ρ σ e = all_path M (λ d. Sat-agree n (push d β) ρ σ e)
