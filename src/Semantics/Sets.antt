-- ===== src/Semantics/Sets.antt =====
-- zfc.rs: what the seven fixed axioms say about sets.
use naome.Prelude.{◌≡◌, ◌↔◌}
use naome.Zfc.Axioms.{
  ZfcAxiom, extensionality, pairing, union, power_set, infinity, foundation, choice, axiom_formula,
}
use naome.Semantics.{Structure, Valuation, Holds}
use naome.Semantics.Connectives.{
  Stable, Both, Some, Both_iff, Both-Stable, ¬-Stable, →-Stable, Π-Stable,
}

-- a classical disjunction
abbrev pub Either : Type 0 → Type 0 → Type 0
Either A B = ¬ (¬ A × ¬ B)

-- The textbook statements. `Some` and `Either` are classical, since a structure is.
abbrev pub Statement : Structure → ZfcAxiom → Type 0
Statement M extensionality =
    (x y : M.Domain) → ((z : M.Domain) → M.belongs z x ↔ M.belongs z y) → x ≡ y
Statement M pairing =
    (x y : M.Domain)
    → Some (λ (p : M.Domain). (z : M.Domain) → M.belongs z p ↔ Either (z ≡ x) (z ≡ y))
Statement M union =
    (s : M.Domain)
    → Some (λ (u : M.Domain).
      (z : M.Domain) → M.belongs z u ↔ Some (λ (m : M.Domain). M.belongs z m × M.belongs m s))
Statement M power_set =
    (s : M.Domain)
    → Some (λ (p : M.Domain).
      (t : M.Domain) → M.belongs t p ↔ ((z : M.Domain) → M.belongs z t → M.belongs z s))
Statement M infinity = Some (λ (i : M.Domain).
    Some (λ (e : M.Domain). ((c : M.Domain) → ¬ M.belongs c e) × M.belongs e i)
    × ((x : M.Domain)
        → M.belongs x i
        → Some (λ (s : M.Domain).
          ((c : M.Domain) → M.belongs c s ↔ Either (M.belongs c x) (c ≡ x)) × M.belongs s i)))
Statement M foundation =
    (s : M.Domain)
    → Some (λ (e : M.Domain). M.belongs e s)
    → Some (λ (e : M.Domain). M.belongs e s × ((n : M.Domain) → M.belongs n e → ¬ M.belongs n s))
Statement M choice =
    (f : M.Domain)
    → ((a : M.Domain) → M.belongs a f → Some (λ (e : M.Domain). M.belongs e a))
      × ((a b : M.Domain)
          → (M.belongs a f × M.belongs b f) × ¬ (a ≡ b)
          → ¬ Some (λ (e : M.Domain). M.belongs e a × M.belongs e b))
    → Some (λ (c : M.Domain).
      (a : M.Domain)
      → M.belongs a f
      → Some (λ (e : M.Domain).
        (M.belongs e a × M.belongs e c) × ((o : M.Domain) → M.belongs o a × M.belongs o c → o ≡ e)))

-- congruence of the connectives
iff_self : {A : Type 0} → A ↔ A
iff_self = (λ a. a, λ a. a)

all_iff :
    {D : Type 0} {P Q : D → Type 0} → ((d : D) → P d ↔ Q d) → ((d : D) → P d) ↔ ((d : D) → Q d)
all_iff h = (λ f d. (h d).0 (f d), λ f d. (h d).1 (f d))

not_iff : {A B : Type 0} → A ↔ B → (¬ A) ↔ (¬ B)
not_iff h = (λ na b. na (h.1 b), λ nb a. nb (h.0 a))

imp_iff : {A B C E : Type 0} → A ↔ B → C ↔ E → (A → C) ↔ (B → E)
imp_iff h k = (λ f b. k.0 (f (h.1 b)), λ f a. k.1 (f (h.0 a)))

some_iff : {D : Type 0} {P Q : D → Type 0} → ((d : D) → P d ↔ Q d) → Some P ↔ Some Q
some_iff h = not_iff (all_iff (λ d. not_iff (h d)))

conj_iff : {A B C E : Type 0} → Stable A → Stable C → A ↔ B → C ↔ E → Both A C ↔ (B × E)
conj_iff sa sc h k =
    (λ b. let (a, c) = (Both_iff sa sc).0 b in (h.0 a, k.0 c), λ (b, e) f. f (h.1 b) (k.1 e))

bicond_iff :
    {A B C E : Type 0} → Stable A → Stable C → A ↔ B → C ↔ E → Both (A → C) (C → A) ↔ (B ↔ E)
bicond_iff sa sc h k = (
  λ b.
      let (f, g) = (Both_iff (→-Stable sc) (→-Stable sa)).0 b in
      (λ x. k.0 (f (h.1 x)), λ y. h.0 (g (k.1 y))),
  λ (f, g) n. n (λ a. k.1 (f (h.0 a))) (λ c. h.1 (g (k.0 c))),
)

either_iff : {A B C E : Type 0} → Stable C → A ↔ B → C ↔ E → (¬ A → C) ↔ Either B E
either_iff sc h k = (
  λ f (nb, ne). ne (k.0 (f (λ a. nb (h.0 a)))),
  λ n na. sc (λ nc. n (λ b. na (h.1 b), λ e. nc (k.1 e))),
)

module _ (M : Structure) (ρ : Valuation M) where
  extensionality_iff : Holds M (axiom_formula extensionality) ρ ↔ Statement M extensionality
  unfolding axiom_formula
  extensionality_iff = all_iff λ x. all_iff λ y.
      imp_iff
        (all_iff λ z. bicond_iff (M.belongs_stable z x) (M.belongs_stable z y) iff_self iff_self)
        iff_self

  pairing_iff : Holds M (axiom_formula pairing) ρ ↔ Statement M pairing
  unfolding axiom_formula
  pairing_iff = all_iff λ x. all_iff λ y. some_iff λ p. all_iff λ z.
      bicond_iff (M.belongs_stable z p) (→-Stable (M.eq_stable z y)) iff_self
        (either_iff (M.eq_stable z y) iff_self iff_self)

  union_iff : Holds M (axiom_formula union) ρ ↔ Statement M union
  unfolding axiom_formula
  union_iff = all_iff λ s. some_iff λ u. all_iff λ z.
      bicond_iff (M.belongs_stable z u) ¬-Stable iff_self
        (some_iff λ m. conj_iff (M.belongs_stable z m) (M.belongs_stable m s) iff_self iff_self)

  power_set_iff : Holds M (axiom_formula power_set) ρ ↔ Statement M power_set
  unfolding axiom_formula
  power_set_iff = all_iff λ s. some_iff λ p. all_iff λ t.
      bicond_iff (M.belongs_stable t p) (Π-Stable (λ z. →-Stable (M.belongs_stable z s))) iff_self
        iff_self

  infinity_iff : Holds M (axiom_formula infinity) ρ ↔ Statement M infinity
  unfolding axiom_formula
  infinity_iff = some_iff λ i.
      conj_iff ¬-Stable (Π-Stable (λ x. →-Stable ¬-Stable))
        (some_iff λ e. conj_iff (Π-Stable (λ c. ¬-Stable)) (M.belongs_stable e i) iff_self iff_self)
        (all_iff λ x. imp_iff iff_self (
          some_iff λ s.
            conj_iff (Π-Stable (λ c. Both-Stable)) (M.belongs_stable s i)
              (all_iff λ c.
                bicond_iff (M.belongs_stable c s) (→-Stable (M.eq_stable c x)) iff_self
                  (either_iff (M.eq_stable c x) iff_self iff_self))
              iff_self))

  foundation_iff : Holds M (axiom_formula foundation) ρ ↔ Statement M foundation
  unfolding axiom_formula
  foundation_iff = all_iff λ s. imp_iff iff_self (
      some_iff
        λ e. conj_iff (M.belongs_stable e s) (Π-Stable (λ n. →-Stable ¬-Stable)) iff_self iff_self)

  choice_iff : Holds M (axiom_formula choice) ρ ↔ Statement M choice
  unfolding axiom_formula
  choice_iff = all_iff λ f.
      imp_iff
        (conj_iff (Π-Stable (λ a. →-Stable ¬-Stable))
          (Π-Stable (λ a. Π-Stable (λ b. →-Stable ¬-Stable))) iff_self
          (all_iff λ a. all_iff λ b.
            imp_iff
              (conj_iff Both-Stable ¬-Stable
                (conj_iff (M.belongs_stable a f) (M.belongs_stable b f) iff_self iff_self) iff_self)
              (not_iff (
                some_iff
                  λ e. conj_iff (M.belongs_stable e a) (M.belongs_stable e b) iff_self iff_self))))
        (some_iff λ c. all_iff λ a. imp_iff iff_self (
          some_iff λ e.
            conj_iff Both-Stable (Π-Stable (λ o. →-Stable (M.eq_stable o e)))
              (conj_iff (M.belongs_stable e a) (M.belongs_stable e c) iff_self iff_self)
              (all_iff λ o.
                imp_iff (conj_iff (M.belongs_stable o a) (M.belongs_stable o c) iff_self iff_self)
                  iff_self)))

  -- The formula of a fixed axiom holds, under any valuation, exactly when the structure satisfies the
  -- textbook statement of that axiom.
  pub axiom_formula_iff : (a : ZfcAxiom) → Holds M (axiom_formula a) ρ ↔ Statement M a
  axiom_formula_iff extensionality = extensionality_iff
  axiom_formula_iff pairing = pairing_iff
  axiom_formula_iff union = union_iff
  axiom_formula_iff power_set = power_set_iff
  axiom_formula_iff infinity = infinity_iff
  axiom_formula_iff foundation = foundation_iff
  axiom_formula_iff choice = choice_iff
