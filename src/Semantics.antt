-- ===== src/Semantics.antt =====
-- The meaning of the formulas of crates/naome-foundation: truth in a structure for set theory.
-- Equality is that of the domain, so E1 and E2 need no axiom; the two relations are stable under double
-- negation, so classical reasoning about formulas, which are built from ¬, → and ∀, needs none either.
pub mod Truth
pub mod Connectives
pub mod Rules
pub mod Sets
pub mod Model
pub mod Separation
pub mod Replacement
pub mod Schemas
use naome.Prelude.{ℕ, zero, suc, ◌≡◌, ◌==◌, if◌then◌else◌}
use naome.Node.{Node, Variable, bound, free, FreeVariable}

pub record Structure : Type 1 where
  pub Domain : Type 0
  pub belongs : Domain → Domain → Type 0
  pub eq_stable : (x y : Domain) → ¬ ¬ (x ≡ y) → x ≡ y
  pub belongs_stable : (x y : Domain) → ¬ ¬ belongs x y → belongs x y

-- the values of the bound indices, or of the free variables
abbrev pub Valuation : Structure → Type 0
Valuation M = ℕ → M.Domain

module _ {D : Type 0} where
  abbrev pub push : D → (ℕ → D) → ℕ → D
  push d β zero = d
  push d β (suc i) = β i

  abbrev pub update : (ℕ → D) → FreeVariable → D → ℕ → D
  update ρ v d x = if x == v then d else ρ x

  abbrev pub value : (ℕ → D) → (ℕ → D) → Variable → D
  value β ρ (bound i) = β i
  value β ρ (free x) = ρ x

-- Truth of a tree under values `β` of its dangling indices and `ρ` of its free variables.
abbrev pub Sat : (M : Structure) → Node → Valuation M → Valuation M → Type 0
Sat M (Node.equal a b) β ρ = value β ρ a ≡ value β ρ b
Sat M (Node.member a b) β ρ = M.belongs (value β ρ a) (value β ρ b)
Sat M (Node.not n) β ρ = ¬ Sat M n β ρ
Sat M (Node.implies l r) β ρ = Sat M l β ρ → Sat M r β ρ
Sat M (Node.for_all n) β ρ = (d : M.Domain) → Sat M n (push d β) ρ

-- Truth of a formula, whose value does not depend on the second valuation.
abbrev pub Holds : (M : Structure) → Node → Valuation M → Type 0
Holds M f ρ = Sat M f ρ ρ

abbrev pub Valid : (M : Structure) → Node → Type 0
Valid M f = (ρ : Valuation M) → Holds M f ρ
