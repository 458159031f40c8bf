-- ===== src/Defined/Fuel.antt =====
-- crates/naome-proof/src/defined_formula.rs: the budget of an expansion, and its fuel.
use naome.Prelude.{
  ℕ, zero, suc, ◌+◌, ◌-◌, ◌≤◌, ◌≡◌, refl, sym, ap, ◌∙◌, true, Option, some, List, [], ◌∷◌, ◌++◌,
  leb, ◌==◌, arith, Bool-cases, inl, inr,
}
use naome.Prelude.Result.{
  >>=-eq, ok, err, map_err, ◌>>=◌, Ensures, returns, throws, Ensures-if, Ensures-bind,
  Ensures-weaken,
}
use naome.Node.{Variable}
use naome.Canonical.{NodeBudget, formula_max_depth}
use naome.Checker
use naome.Checker.{Identity}
use naome.Checker.Truth.{any}
use naome.Defined
use naome.Defined.{
  Node, DefinitionResolver, DefinitionResolution, Expansion, Expander, charge, expand_match,
  expand_node, instantiate_variable, instantiate_variables, resolved, admit, under_binder,
}

-- the number of nodes of a tree
unfoldable pub node_count : Node → ℕ
node_count (Defined.not n) = node_count n + 1
node_count (Defined.implies l r) = node_count l + node_count r + 1
node_count (Defined.for_all n) = node_count n + 1
node_count _ = 1

-- the budget after work of at least the given size
pub record Spent (b : NodeBudget) (size : ℕ) (after : NodeBudget) : Type 0 where
  pub used : b.used + size ≤ after.used
  pub within : after.used ≤ after.maximum
  pub same : after.maximum ≡ b.maximum

charge-Spent : (b : NodeBudget) → b.used ≤ b.maximum → Ensures (Spent b 1) (charge b)
unfolding charge
charge-Spent b h =
    Ensures-if (b.used == b.maximum) (λ _. throws)
      (λ e. returns (record { used = omega arith; within = ground arith; same = refl }))

abbrev ResultOf : Type 0
ResultOf = Node × NodeBudget

-- The expansion of a node costs at least the size of its result.
abbrev pub Costs : NodeBudget → ResultOf → Type 0
Costs b r = Spent b (node_count r.0) r.1

-- what a recursive call must give
abbrev Promise : Expander → Type 0
Promise recur =
    (n : Node) (sub : Option (List Variable)) (depth formula_depth : ℕ)
    (definitions : List Identity) (b : NodeBudget)
    → b.used ≤ b.maximum
    → Ensures (Costs b) (recur n sub depth formula_depth definitions b)

expand_match-Costs :
    (resolver : DefinitionResolver) (recur : Expander)
    → Promise recur
    → (n : Node) (sub : Option (List Variable)) (depth formula_depth : ℕ)
      (definitions : List Identity) (b before : NodeBudget)
    → Spent before 1 b
    → Ensures (Costs before) (expand_match resolver recur n sub depth formula_depth definitions b)
unfolding expand_match node_count
expand_match-Costs resolver recur ih (Defined.equal x y) sub depth fd ds b b₀ h =
    Ensures-bind (any (instantiate_variable x sub depth))
      λ x _. Ensures-bind (any (instantiate_variable y sub depth)) λ y _. returns h
expand_match-Costs resolver recur ih (Defined.member x y) sub depth fd ds b b₀ h =
    Ensures-bind (any (instantiate_variable x sub depth))
      λ x _. Ensures-bind (any (instantiate_variable y sub depth)) λ y _. returns h
expand_match-Costs resolver recur ih (Defined.not n) sub depth fd ds b b₀ h =
    Ensures-bind (ih n sub depth (fd + 1) ds b h.within) λ (n, b') k.
      returns
        (record { used = omega (arith, h.used, k.used); within = k.within; same = k.same ∙ h.same })
expand_match-Costs resolver recur ih (Defined.implies l r) sub depth fd ds b b₀ h =
    Ensures-bind (ih l sub depth (fd + 1) ds b h.within) λ (l, b') k.
      Ensures-bind (ih r sub depth (fd + 1) ds b' k.within) λ (r, b'') k'. returns (record {
        used = omega (arith, h.used, k.used, k'.used);
        within = k'.within;
        same = k'.same ∙ k.same ∙ h.same;
      })
expand_match-Costs resolver recur ih (Defined.for_all n) sub depth fd ds b b₀ h =
    Ensures-bind (ih n sub (under_binder sub depth) (fd + 1) ds b h.within) λ (n, b') k.
      returns
        (record { used = omega (arith, h.used, k.used); within = k.within; same = k.same ∙ h.same })
expand_match-Costs resolver recur ih (Defined.defined_relation id arguments) sub depth fd ds b b₀
      h =
    Ensures-bind (any (map_err Checker.access (resolver id))) λ found _.
      Ensures-bind (any (resolved id found)) λ (d : DefinitionResolution) _.
        Ensures-bind (any (admit id arguments d fd ds)) λ _ _.
          Ensures-bind (any (instantiate_variables arguments sub depth)) λ vs _.
            Ensures-weaken (ih d.body (some vs) 0 fd (ds ++ id ∷ []) b h.within) λ (n, b') k.
              record {
                used = omega (arith, h.used, k.used);
                within = k.within;
                same = k.same ∙ h.same;
              }

-- An expansion never uses more than its budget, and costs at least one for each node of its result.
pub expand_node-Costs :
    (fuel : ℕ) (resolver : DefinitionResolver) (n : Node) (sub : Option (List Variable))
    (depth formula_depth : ℕ) (definitions : List Identity) (b : NodeBudget)
    → b.used ≤ b.maximum
    → Ensures (Costs b) (expand_node fuel resolver n sub depth formula_depth definitions b)
unfolding expand_node
expand_node-Costs zero resolver n sub depth fd ds b h = throws
expand_node-Costs (suc fuel) resolver n sub depth fd ds b h =
    Ensures-bind (charge-Spent b h) λ b' k.
      Ensures-if (leb formula_max_depth fd) (λ _. throws)
        (λ _.
          expand_match-Costs resolver (expand_node fuel resolver) (expand_node-Costs fuel resolver)
            n sub depth fd ds b' b k)

-- Two recursive calls that agree where the budget has at most that much left.
abbrev Agrees : ℕ → Expander → Expander → Type 0
Agrees left f g =
    (n : Node) (sub : Option (List Variable)) (depth formula_depth : ℕ)
    (definitions : List Identity) (b : NodeBudget)
    → b.used ≤ b.maximum
    → b.maximum ≤ b.used + left
    → f n sub depth formula_depth definitions b ≡ g n sub depth formula_depth definitions b

expand_match-Agrees :
    (resolver : DefinitionResolver) (left : ℕ) (f g : Expander)
    → Promise f
    → Agrees left f g
    → Agrees left (expand_match resolver f) (expand_match resolver g)
unfolding expand_match
expand_match-Agrees resolver left f g cost same (Defined.equal x y) sub depth fd ds b h l = refl
expand_match-Agrees resolver left f g cost same (Defined.member x y) sub depth fd ds b h l = refl
expand_match-Agrees resolver left f g cost same (Defined.not n) sub depth fd ds b h l =
    ap (λ r. r >>= λ ((n, b) : ResultOf). ok (Defined.not n, b))
      (same n sub depth (fd + 1) ds b h l)
expand_match-Agrees resolver left f g cost same (Defined.for_all n) sub depth fd ds b h l =
    ap (λ r. r >>= λ ((n, b) : ResultOf). ok (Defined.for_all n, b))
      (same n sub (under_binder sub depth) (fd + 1) ds b h l)
expand_match-Agrees resolver left f g cost same (Defined.implies m n) sub depth fd ds b h l =
    >>=-eq (cost m sub depth (fd + 1) ds b h) (λ (m, b') k.
      ap (λ r. r >>= λ ((n, b) : ResultOf). ok (Defined.implies m n, b))
        (same n sub depth (fd + 1) ds b' k.within (omega (arith, k.used, k.same))))
    ∙ ap
        (λ r. r >>= λ ((m, b) : ResultOf).
          g n sub depth (fd + 1) ds b >>= λ ((n, b) : ResultOf). ok (Defined.implies m n, b))
        (same m sub depth (fd + 1) ds b h l)
expand_match-Agrees resolver left f g cost same (Defined.defined_relation id vs) sub depth fd ds b h
      l =
    >>=-eq (any (map_err Checker.access (resolver id))) λ found _.
      >>=-eq (any (resolved id found)) λ (d : DefinitionResolution) _.
        >>=-eq (any (admit id vs d fd ds)) λ _ _.
          >>=-eq (any (instantiate_variables vs sub depth))
            λ ws _. same d.body (some ws) 0 fd (ds ++ id ∷ []) b h l

charge_used_up :
    (b : NodeBudget) (rest : NodeBudget → Expansion ResultOf)
    → b.used ≡ b.maximum
    → (charge b >>= rest) ≡ err (Checker.expansion_nodes_exceeded b.maximum)
unfolding charge
charge_used_up b rest e = let hit : (b.used == b.maximum) ≡ true = ground arith in rw hit refl

-- The fuel of `expand_node` does not matter as long as it is at least what the budget has left.
pub expand_node-fuel :
    (f g : ℕ) (resolver : DefinitionResolver) (n : Node) (sub : Option (List Variable))
    (depth formula_depth : ℕ) (definitions : List Identity) (b : NodeBudget)
    → b.used ≤ b.maximum
    → b.maximum ≤ b.used + f
    → b.maximum ≤ b.used + g
    → expand_node f resolver n sub depth formula_depth definitions b
      ≡ expand_node g resolver n sub depth formula_depth definitions b
unfolding expand_node
expand_node-fuel zero zero resolver n sub depth fd ds b h lf lg = refl
expand_node-fuel zero (suc g) resolver n sub depth fd ds b h lf lg =
    sym (charge_used_up b _ (omega arith))
expand_node-fuel (suc f) zero resolver n sub depth fd ds b h lf lg =
    charge_used_up b _ (omega arith)
expand_node-fuel (suc f) (suc g) resolver n sub depth fd ds b h lf lg =
    >>=-eq (charge-Spent b h) λ b' k. elim (Bool-cases (leb formula_max_depth fd)) [
      | inl e ↦ rw e refl
      | inr e ↦ rw e (
          expand_match-Agrees resolver (b'.maximum - b'.used) (expand_node f resolver)
            (expand_node g resolver) (expand_node-Costs f resolver)
            (λ n sub depth fd ds c hc lc.
              expand_node-fuel f g resolver n sub depth fd ds c hc
                (omega (arith, k.used, k.same, k.within)) (omega (arith, k.used, k.same, k.within)))
            n sub depth fd ds b' k.within (omega (arith, k.within)))
    ]
