-- ===== src/Semantics/Truth.antt =====
-- Binding, substitution and the vacuous quantifier of formula.rs, as truth sees them.
use naome.Prelude.{
  ℕ, zero, suc, ◌+◌, ◌<◌, ◌≡◌, refl, ◌∙◌, ap, ap₂, fun_ext, Option, none, some, arith, ◌==◌,
  if◌then◌else◌, Bool-cases, inl, inr,
}
use naome.Node
use naome.Node.{Node, Variable, bound, free, FreeVariable}
use naome.Formula
use naome.Formula.{Formula}
use naome.Formula.Scope.{InScope, IsScoped, IsFormula}
use naome.Formula.Binding.{Binding}
use naome.Formula.Opening.{substitute_free-eq-map}
use naome.Semantics.{Structure, Valuation, push, update, value, Sat, Holds}

-- the value of a variable that `g` binds at depth `k`
abbrev pub resolve : {D : Type 0} → Option ℕ → (ℕ → D) → ℕ → D → D
resolve (some i) β k d = β (i + k)
resolve none β k d = d

module _ (M : Structure) where
  -- paths between the parts of a truth value
  not_path : {A B : Type 0} → A ≡ B → (¬ A) ≡ (¬ B)
  not_path p = ap (λ X. ¬ X) p

  implies_path : {A B C E : Type 0} → A ≡ B → C ≡ E → (A → C) ≡ (B → E)
  implies_path p q = ap₂ (λ X Y. X → Y) p q

  pub all_path :
      {P Q : M.Domain → Type 0}
      → ((d : M.Domain) → P d ≡ Q d)
      → ((d : M.Domain) → P d) ≡ ((d : M.Domain) → Q d)
  all_path h = ap (λ (R : M.Domain → Type 0). (d : M.Domain) → R d) (fun_ext h)

  value-bind_variable :
      (u : Variable) (k : ℕ) (g : Binding) (β ρ : Valuation M)
      → value β ρ (Node.bind_variable u k g) ≡ value β (λ x. resolve (g x) β k (ρ x)) u
  unfolding Node.bind_variable
  value-bind_variable (bound i) k g β ρ = refl
  value-bind_variable (free x) k g β ρ = ground arith

  push_index : (d : M.Domain) (β : Valuation M) (i k : ℕ) → push d β (i + (k + 1)) ≡ β (i + k)
  push_index d β i k = let e : i + (k + 1) ≡ suc (i + k) = omega arith in rw e

  resolve-push :
      (o : Option ℕ) (d : M.Domain) (β : Valuation M) (k : ℕ) (e : M.Domain)
      → resolve o (push d β) (k + 1) e ≡ resolve o β k e
  resolve-push (some i) d β k e = push_index d β i k
  resolve-push none d β k e = refl

  -- Binding by `g` is the same as giving the bound variables the values of their indices.
  pub Sat-bind_free :
      (n : Node) (k : ℕ) (g : Binding) (β ρ : Valuation M)
      → Sat M (Node.bind_free n k g) β ρ ≡ Sat M n β (λ x. resolve (g x) β k (ρ x))
  unfolding Node.bind_free
  Sat-bind_free (Node.equal a b) k g β ρ =
      ap₂ ◌≡◌ (value-bind_variable a k g β ρ) (value-bind_variable b k g β ρ)
  Sat-bind_free (Node.member a b) k g β ρ =
      ap₂ M.belongs (value-bind_variable a k g β ρ) (value-bind_variable b k g β ρ)
  Sat-bind_free (Node.not n) k g β ρ = not_path (Sat-bind_free n k g β ρ)
  Sat-bind_free (Node.implies l r) k g β ρ =
      implies_path (Sat-bind_free l k g β ρ) (Sat-bind_free r k g β ρ)
  Sat-bind_free (Node.for_all n) k g β ρ = all_path λ d.
      Sat-bind_free n (k + 1) g (push d β) ρ
      ∙ ap (Sat M n (push d β)) (fun_ext (λ x. resolve-push (g x) d β k (ρ x)))

  value-scoped :
      (u : Variable) (k : ℕ) (β γ ρ : Valuation M)
      → InScope k u
      → ((i : ℕ) → i < k → β i ≡ γ i)
      → value β ρ u ≡ value γ ρ u
  value-scoped (bound i) k β γ ρ h e = e i h
  value-scoped (free x) k β γ ρ h e = refl

  push_agree :
      (k : ℕ) (d : M.Domain) (β γ : Valuation M)
      → ((i : ℕ) → i < k → β i ≡ γ i)
      → (i : ℕ) → i < k + 1
      → push d β i ≡ push d γ i
  push_agree k d β γ e zero h = refl
  push_agree k d β γ e (suc i) h = e i (omega arith)

  -- Only the indices in scope matter.
  pub Sat-scoped :
      (n : Node) (k : ℕ) (β γ ρ : Valuation M)
      → IsScoped k n
      → ((i : ℕ) → i < k → β i ≡ γ i)
      → Sat M n β ρ ≡ Sat M n γ ρ
  Sat-scoped (Node.equal a b) k β γ ρ h e =
      ap₂ ◌≡◌ (value-scoped a k β γ ρ h.0 e) (value-scoped b k β γ ρ h.1 e)
  Sat-scoped (Node.member a b) k β γ ρ h e =
      ap₂ M.belongs (value-scoped a k β γ ρ h.0 e) (value-scoped b k β γ ρ h.1 e)
  Sat-scoped (Node.not n) k β γ ρ h e = not_path (Sat-scoped n k β γ ρ h e)
  Sat-scoped (Node.implies l r) k β γ ρ h e =
      implies_path (Sat-scoped l k β γ ρ h.0 e) (Sat-scoped r k β γ ρ h.1 e)
  Sat-scoped (Node.for_all n) k β γ ρ h e =
      all_path λ d. Sat-scoped n (k + 1) (push d β) (push d γ) ρ h (push_agree k d β γ e)

  pub Sat-IsFormula : (f : Formula) (β γ ρ : Valuation M) → IsFormula f → Sat M f β ρ ≡ Sat M f γ ρ
  Sat-IsFormula f β γ ρ h = Sat-scoped f 0 β γ ρ h (λ i lt. absurd (omega arith))

  resolve-only :
      (v x : FreeVariable) (d : M.Domain) (β ρ : Valuation M)
      → resolve (Formula.only v x) (push d β) 0 (ρ x) ≡ update ρ v d x
  resolve-only v x d β ρ = elim (Bool-cases (x == v)) [
    | inl same ↦ rw same
    | inr differ ↦ rw differ
  ]

  Sat-for_all :
      (v : FreeVariable) (f : Formula) (β ρ : Valuation M)
      → Sat M (Formula.for_all v f) β ρ ≡ ((d : M.Domain) → Sat M f (push d β) (update ρ v d))
  unfolding Formula.for_all
  Sat-for_all v f β ρ = all_path λ d.
      Sat-bind_free f 0 (Formula.only v) (push d β) ρ
      ∙ ap (Sat M f (push d β)) (fun_ext (λ x. resolve-only v x d β ρ))

  -- For a well-scoped `f`, that `for_all v f` holds is that `f` holds at every value of `v`.
  pub Holds-for_all :
      (v : FreeVariable) (f : Formula) (ρ : Valuation M)
      → IsFormula f
      → Holds M (Formula.for_all v f) ρ ≡ ((d : M.Domain) → Holds M f (update ρ v d))
  Holds-for_all v f ρ h =
      Sat-for_all v f ρ ρ
      ∙ all_path (λ d. Sat-IsFormula f (push d ρ) (update ρ v d) (update ρ v d) h)

  pub Holds-vacuous_for_all :
      (f : Formula) (ρ : Valuation M)
      → IsFormula f
      → Holds M (Formula.vacuous_for_all f) ρ ≡ (M.Domain → Holds M f ρ)
  unfolding Formula.vacuous_for_all
  Holds-vacuous_for_all f ρ h = all_path (λ d. Sat-IsFormula f (push d ρ) ρ ρ h)

  value-map_free_variable :
      (u : Variable) (m : FreeVariable → FreeVariable) (β ρ : Valuation M)
      → value β ρ (Node.map_free_variable u m) ≡ value β (λ x. ρ (m x)) u
  unfolding Node.map_free_variable
  value-map_free_variable (bound i) m β ρ = refl
  value-map_free_variable (free x) m β ρ = refl

  pub Sat-map_free_variables :
      (n : Node) (m : FreeVariable → FreeVariable) (β ρ : Valuation M)
      → Sat M (Node.map_free_variables n m) β ρ ≡ Sat M n β (λ x. ρ (m x))
  unfolding Node.map_free_variables
  Sat-map_free_variables (Node.equal a b) m β ρ =
      ap₂ ◌≡◌ (value-map_free_variable a m β ρ) (value-map_free_variable b m β ρ)
  Sat-map_free_variables (Node.member a b) m β ρ =
      ap₂ M.belongs (value-map_free_variable a m β ρ) (value-map_free_variable b m β ρ)
  Sat-map_free_variables (Node.not n) m β ρ = not_path (Sat-map_free_variables n m β ρ)
  Sat-map_free_variables (Node.implies l r) m β ρ =
      implies_path (Sat-map_free_variables l m β ρ) (Sat-map_free_variables r m β ρ)
  Sat-map_free_variables (Node.for_all n) m β ρ =
      all_path λ d. Sat-map_free_variables n m (push d β) ρ

  rename-update :
      (v w x : FreeVariable) (ρ : Valuation M) → ρ (if x == v then w else x) ≡ update ρ v (ρ w) x
  rename-update v w x ρ = elim (Bool-cases (x == v)) [ inl same ↦ rw same | inr differ ↦ rw differ ]

  -- For a well-scoped `f`, that `f` with `w` for `v` holds is that `f` holds at the value of `w`.
  pub Holds-substitute_free :
      (v w : FreeVariable) (f : Formula) (ρ : Valuation M)
      → IsFormula f
      → Holds M (Formula.substitute_free v w f) ρ ≡ Holds M f (update ρ v (ρ w))
  Holds-substitute_free v w f ρ h =
      ap (λ g. Sat M g ρ ρ) (substitute_free-eq-map v w f)
      ∙ Sat-map_free_variables f (λ x. if x == v then w else x) ρ ρ
      ∙ ap (Sat M f ρ) (fun_ext (λ x. rename-update v w x ρ))
      ∙ Sat-IsFormula f ρ (update ρ v (ρ w)) (update ρ v (ρ w)) h
