-- ===== src/Canonical/Encode.antt =====
-- canonical.rs: the encoder, its limits and the layout of a tree.
use naome.Prelude.{
  ℕ, ◌+◌, ◌≤◌, ◌<◌, ◌≡◌, refl, sym, ap, ap₂, ◌∙◌, List, [], ◌∷◌, ◌++◌, arith, append_assoc, min,
  ◌↔◌,
}
use naome.Prelude.Result.{ok, ◌>>=◌, >>=-eq-ok, ok-injective}
use naome.Node
use naome.Node.{Node, Variable, bound, free}
use naome.Formula.{Formula}
use naome.Canonical.{
  Encoder, preserve, enter, encode_node, encode_variable, push, encode_canonical_with_node_limit,
  formula_max_nodes,
}
use naome.Canonical.Layout.{variable_layout, layout}

-- the encoder's state under `Preserve`
abbrev pub state : ℕ → ℕ → List ℕ → Encoder
state used maximum output = record {
  nodes = record { used = used; maximum = maximum };
  variables = preserve;
  output = output;
}

state_path : {u u' : ℕ} (m : ℕ) {o o' : List ℕ} → u ≡ u' → o ≡ o' → state u m o ≡ state u' m o'
state_path m p q = ap₂ (λ u o. state u m o) p q

enter_ok :
    (d u m : ℕ) (o : List ℕ) → d < 256 → u < m → enter d (state u m o) ≡ ok (state (u + 1) m o)
unfolding enter
enter_ok d u m o hd hu = ground arith

enter_inv :
    (d u m : ℕ) (o : List ℕ) (e : Encoder)
    → u ≤ m
    → enter d (state u m o) ≡ ok e
    → (d < 256) × (u < m) × (e ≡ state (u + 1) m o)
unfolding enter
enter_inv d u m o e h q = ground arith

encode_variable-state :
    (v : Variable) (u m : ℕ) (o : List ℕ)
    → encode_variable v (state u m o) ≡ state u m (o ++ variable_layout v)
unfolding encode_variable variable_layout
encode_variable-state (free x) u m o = refl
encode_variable-state (bound i) u m o = refl

leaf_output :
    (a b : Variable) (t u m : ℕ) (o : List ℕ)
    → encode_variable b (encode_variable a (push t (state u m o)))
      ≡ state u m (o ++ t ∷ (variable_layout a ++ variable_layout b))
unfolding push
leaf_output a b t u m o =
    ap (encode_variable b) (encode_variable-state a u m (o ++ t ∷ []))
    ∙ encode_variable-state b u m ((o ++ t ∷ []) ++ variable_layout a)
    ∙ state_path m refl (simp append_assoc)

-- Within the limits the encoder appends the layout and charges the nodes.
pub encode_node-layout :
    (n : Node) (d u m : ℕ) (o : List ℕ)
    → Node.node_depth n + d ≤ 256
    → u + Node.node_count n ≤ m
    → encode_node n d (state u m o) ≡ ok (state (u + Node.node_count n) m (o ++ layout n))
unfolding encode_node Node.node_depth Node.node_count layout
encode_node-layout (Node.equal a b) d u m o hd hc =
    rw (enter_ok d u m o (omega arith) (omega arith)) (ap ok (leaf_output a b 0 (u + 1) m o))
encode_node-layout (Node.member a b) d u m o hd hc =
    rw (enter_ok d u m o (omega arith) (omega arith)) (ap ok (leaf_output a b 1 (u + 1) m o))
encode_node-layout (Node.not n) d u m o hd hc = rw (enter_ok d u m o (omega arith) (omega arith)) (
    encode_node-layout n (d + 1) (u + 1) m (o ++ 2 ∷ []) (omega arith) (omega arith)
    ∙ ap ok (state_path m (omega arith) (simp append_assoc)))
encode_node-layout (Node.implies l r) d u m o hd hc =
    rw
      (
        enter_ok d u m o (omega arith) (omega arith),
        encode_node-layout l (d + 1) (u + 1) m (o ++ 3 ∷ []) (omega arith) (omega arith),
      )
      (encode_node-layout r (d + 1) (u + 1 + Node.node_count l) m ((o ++ 3 ∷ []) ++ layout l)
          (omega arith) (omega arith)
        ∙ ap ok (state_path m (omega arith) (simp append_assoc)))
encode_node-layout (Node.for_all n) d u m o hd hc =
    rw (enter_ok d u m o (omega arith) (omega arith)) (
      encode_node-layout n (d + 1) (u + 1) m (o ++ 4 ∷ []) (omega arith) (omega arith)
      ∙ ap ok (state_path m (omega arith) (simp append_assoc)))

-- The limits that a successful run has kept.
abbrev pub Fits : Node → ℕ → ℕ → ℕ → Type 0
Fits n d u m = (Node.node_depth n + d ≤ 256) × (u + Node.node_count n ≤ m)

-- what the inversion says of a child, at any state
abbrev Inverts : Node → ℕ → ℕ → Type 0
Inverts n d m =
    (v : ℕ) (p : List ℕ) (e : Encoder) → v ≤ m → encode_node n d (state v m p) ≡ ok e → Fits n d v m

unary_inv :
    (n : Node) (d u m t : ℕ) (o : List ℕ) (e : Encoder)
    → u ≤ m
    → Inverts n (d + 1) m
    → (enter d (state u m o) >>= λ e. encode_node n (d + 1) (push t e)) ≡ ok e
    → (d < 256) × Fits n (d + 1) (u + 1) m
unfolding push
unary_inv n d u m t o e h ih q =
    let (e₁, entered, q₁) = >>=-eq-ok (enter d (state u m o)) _ q in
    let (hd, hu, p) = enter_inv d u m o e₁ h entered in
    (hd, ih (u + 1) (o ++ t ∷ []) e (omega arith) (rw p at q₁))

binary_inv :
    (l r : Node) (d u m : ℕ) (o : List ℕ) (e : Encoder)
    → u ≤ m
    → Inverts l (d + 1) m
    → Inverts r (d + 1) m
    → (enter d (state u m o) >>= λ e.
        encode_node l (d + 1) (push 3 e) >>= λ e. encode_node r (d + 1) e)
      ≡ ok e
    → (d < 256) × Fits l (d + 1) (u + 1) m × Fits r (d + 1) (u + 1 + Node.node_count l) m
unfolding push
binary_inv l r d u m o e h il ir q =
    let (e₁, entered, q₁) = >>=-eq-ok (enter d (state u m o)) _ q in
    let (hd, hu, p) = enter_inv d u m o e₁ h entered in
    let (e₂, first, q₂) = >>=-eq-ok (encode_node l (d + 1) (push 3 e₁)) _ q₁ in
    let first' : encode_node l (d + 1) (state (u + 1) m (o ++ 3 ∷ [])) ≡ ok e₂ =
      sym (ap (λ (e : Encoder). encode_node l (d + 1) (push 3 e)) p) ∙ first in
    let fl = il (u + 1) (o ++ 3 ∷ []) e₂ (omega arith) first' in
    let after = encode_node-layout l (d + 1) (u + 1) m (o ++ 3 ∷ []) fl.0 fl.1 in
    let left = ok-injective (sym first' ∙ after) in
    let fr =
      ir (u + 1 + Node.node_count l) ((o ++ 3 ∷ []) ++ layout l) e (omega (arith, fl.1))
        (sym (ap (encode_node r (d + 1)) left) ∙ q₂) in
    (hd, fl, fr)

pub encode_node_inv :
    (n : Node) (d u m : ℕ) (o : List ℕ) (e : Encoder)
    → u ≤ m
    → encode_node n d (state u m o) ≡ ok e
    → Fits n d u m
unfolding encode_node Node.node_depth Node.node_count
encode_node_inv (Node.equal a b) d u m o e h q =
    let (e₁, entered, _) = >>=-eq-ok (enter d (state u m o)) _ q in
    let (hd, hu, _) = enter_inv d u m o e₁ h entered in (omega arith, omega arith)
encode_node_inv (Node.member a b) d u m o e h q =
    let (e₁, entered, _) = >>=-eq-ok (enter d (state u m o)) _ q in
    let (hd, hu, _) = enter_inv d u m o e₁ h entered in (omega arith, omega arith)
encode_node_inv (Node.not n) d u m o e h q =
    let (hd, fits) = unary_inv n d u m 2 o e h (λ v p e₁. encode_node_inv n (d + 1) v m p e₁) q in
    (omega arith, omega arith)
encode_node_inv (Node.implies l r) d u m o e h q =
    let (hd, fl, fr) =
      binary_inv l r d u m o e h (λ v p e₁. encode_node_inv l (d + 1) v m p e₁)
        (λ v p e₁. encode_node_inv r (d + 1) v m p e₁) q in
    (omega arith, omega arith)
encode_node_inv (Node.for_all n) d u m o e h q =
    let (hd, fits) = unary_inv n d u m 4 o e h (λ v p e₁. encode_node_inv n (d + 1) v m p e₁) q in
    (omega arith, omega arith)

-- Encoding succeeds exactly when the formula nests at most 256 deep and has at most as many nodes as
-- both limits admit; the result is then the layout and the number of nodes.
pub encode_canonical_with_node_limit_iff :
    (f : Formula) (limit : ℕ) (bytes : List ℕ) (used : ℕ)
    → (encode_canonical_with_node_limit f limit ≡ ok (bytes, used)) ↔ (
        (Node.node_depth f ≤ 256)
        × (Node.node_count f ≤ min limit formula_max_nodes)
        × (bytes ≡ layout f)
        × (used ≡ Node.node_count f))
unfolding encode_canonical_with_node_limit
encode_canonical_with_node_limit_iff f limit bytes used = (
  λ q.
      let (e, run, result) =
        >>=-eq-ok (encode_node f 0 (state 0 (min limit formula_max_nodes) [])) _ q in
      let (hd, hc) = encode_node_inv f 0 0 (min limit formula_max_nodes) [] e (omega arith) run in
      let same =
        ok-injective (sym run ∙ encode_node-layout f 0 0 (min limit formula_max_nodes) [] hd hc) in
      let pair = ok-injective result in
      let count = ap (λ (e : Encoder). e.nodes.used) same in
      let taken = ap (λ (p : List ℕ × ℕ). p.1) pair in
      (
        omega arith,
        omega arith,
        sym (ap (λ (p : List ℕ × ℕ). p.0) pair) ∙ ap (λ (e : Encoder). e.output) same,
        omega arith,
      ),
  λ (hd, hc, p, q).
      rw (encode_node-layout f 0 0 (min limit formula_max_nodes) [] (omega arith) (omega arith))
        (ground arith),
)
