-- ===== src/Canonical/Accepts.antt =====
-- canonical.rs: the input and the result of a run of the decoder.
use naome.Prelude.{
  ℕ, zero, suc, ◌+◌, ◌≤◌, ◌<◌, ◌≡◌, refl, ap, ◌∙◌, [], ◌∷◌, ◌++◌, arith, All, append_assoc,
  Bool-cases, inl, inr, ltb, ltb→lt, ◌==◌,
}
use naome.Prelude.Result.{ok, ◌>>=◌, Ensures, returns, throws, Ensures-if, Ensures-bind}
use naome.Node
use naome.Node.{Node, Variable, bound, free}
use naome.Formula.Scope.{InScope, IsScoped}
use naome.Canonical.{
  NodeBudget, Cursor, Decoder, charge, read_u8, decode_variable, decode_tagged, decode_node,
}
use naome.Canonical.Words.{from_be_bytes, IsByte, to_be_bytes-from_be_bytes, from_be_bytes-IsU32}
use naome.Canonical.Layout.{variable_layout, layout, VariableIsU32, IsMachine}
use naome.Canonical.Decode.{budget}

record ReadVariable (binders : ℕ) (c : Cursor) (r : Variable × Cursor) : Type 0 where
  bytes : c ≡ variable_layout r.0 ++ r.1
  scope : InScope binders r.0
  machine : VariableIsU32 r.0
  rest : All IsByte r.1

decode_variable-Ensures :
    (binders : ℕ) (c : Cursor)
    → All IsByte c
    → Ensures (ReadVariable binders c) (decode_variable binders c)
unfolding decode_variable variable_layout
decode_variable-Ensures binders [] h = throws
decode_variable-Ensures binders (t ∷ []) h = throws
decode_variable-Ensures binders (t ∷ a ∷ []) h = throws
decode_variable-Ensures binders (t ∷ a ∷ b ∷ []) h = throws
decode_variable-Ensures binders (t ∷ a ∷ b ∷ c ∷ []) h = throws
decode_variable-Ensures binders (t ∷ a ∷ b ∷ c ∷ d ∷ rest) (ht, (ha, (hb, (hc, (hd, hr))))) =
    let word = to_be_bytes-from_be_bytes a b c d ha hb hc hd in
    let range = from_be_bytes-IsU32 a b c d ha hb hc hd in
    Ensures-if (t == 0)
      (λ e. returns (record {
        bytes = rw word (let q : t ≡ 0 = ground arith in rw q);
        scope = tt;
        machine = range;
        rest = hr;
      }))
      (λ _.
        Ensures-if (t == 1)
          (λ e.
            Ensures-if (ltb (from_be_bytes a b c d) binders)
              (λ lt. returns (record {
                bytes = rw word (let q : t ≡ 1 = ground arith in rw q);
                scope = ltb→lt _ _ lt;
                machine = range;
                rest = hr;
              }))
              (λ _. throws))
          (λ _. throws))

pub record Read (levels binders u m : ℕ) (c : Cursor) (r : Node × Cursor × NodeBudget)
    : Type 0 where
  pub bytes : c ≡ layout r.0 ++ r.1
  pub depth : Node.node_depth r.0 ≤ levels
  pub scope : IsScoped binders r.0
  pub machine : IsMachine r.0
  pub charged : r.2 ≡ budget (u + Node.node_count r.0) m
  pub within : u + Node.node_count r.0 ≤ m
  pub rest : All IsByte r.1

-- what the decoder promises at every call one level deeper
abbrev Promise : ℕ → ℕ → Decoder → Type 0
Promise levels m recur =
    (binders : ℕ) (c : Cursor) (u : ℕ)
    → u ≤ m
    → All IsByte c
    → Ensures (Read levels binders u m c) (recur binders c (budget u m))

-- `TAG` of the two formulas that have two variables, and their constructor
atom-Ensures :
    (atom : Variable → Variable → Node) (t : ℕ)
    → ((a b : Variable) → layout (atom a b) ≡ t ∷ (variable_layout a ++ variable_layout b))
    → ((a b : Variable) → Node.node_count (atom a b) ≡ 1)
    → ((a b : Variable) → Node.node_depth (atom a b) ≡ 1)
    → ((a b : Variable) (n : ℕ) → InScope n a → InScope n b → IsScoped n (atom a b))
    → ((a b : Variable) → VariableIsU32 a → VariableIsU32 b → IsMachine (atom a b))
    → (levels binders u m : ℕ) (c : Cursor) → u < m
    → All IsByte c
    → Ensures (Read (suc levels) binders u m (t ∷ c)) (do
      (left, c) ← decode_variable binders c
      (right, c) ← decode_variable binders c
      ok (atom left right, c, budget (u + 1) m))
atom-Ensures atom t form count depth scope machine levels binders u m c hu hc =
    Ensures-bind (decode_variable-Ensures binders c hc) λ (a, c₁) ra.
      Ensures-bind (decode_variable-Ensures binders c₁ ra.rest) λ (b, c₂) rb. returns (record {
        bytes = rw (form a b, ra.bytes, rb.bytes) (simp append_assoc);
        depth = omega (arith, depth a b);
        scope = scope a b binders ra.scope rb.scope;
        machine = machine a b ra.machine rb.machine;
        charged = rw (count a b);
        within = omega (arith, count a b);
        rest = rb.rest;
      })

unary-Ensures :
    (wrap : Node → Node) (t inner binders : ℕ)
    → ((n : Node) → layout (wrap n) ≡ t ∷ layout n)
    → ((n : Node) → Node.node_count (wrap n) ≡ Node.node_count n + 1)
    → ((n : Node) → Node.node_depth (wrap n) ≡ Node.node_depth n + 1)
    → ((n : Node) → IsScoped inner n → IsScoped binders (wrap n))
    → ((n : Node) → IsMachine n → IsMachine (wrap n))
    → (levels u m : ℕ) (c : Cursor) (recur : Decoder) → Promise levels m recur
    → u < m
    → All IsByte c
    → Ensures
        (Read (suc levels) binders u m (t ∷ c))
        (do (n, c, nodes) ← recur inner c (budget (u + 1) m); ok (wrap n, c, nodes))
unary-Ensures wrap t inner binders form count depth scope machine levels u m c recur ih hu hc =
    Ensures-bind (ih inner c (u + 1) (omega arith) hc) λ (n, c₁, b) r. returns (record {
      bytes = rw (form n, r.bytes);
      depth = omega (arith, depth n, r.depth);
      scope = scope n r.scope;
      machine = machine n r.machine;
      charged = r.charged ∙ ap (λ u. budget u m) (omega (arith, count n));
      within = omega (arith, count n, r.within);
      rest = r.rest;
    })

binary-Ensures :
    (levels binders u m : ℕ) (c : Cursor) (recur : Decoder)
    → Promise levels m recur
    → u < m
    → All IsByte c
    → Ensures (Read (suc levels) binders u m (3 ∷ c)) (do
      (l, c, nodes) ← recur binders c (budget (u + 1) m)
      (r, c, nodes) ← recur binders c nodes
      ok (Node.implies l r, c, nodes))
unfolding layout Node.node_count Node.node_depth
binary-Ensures levels binders u m c recur ih hu hc =
    Ensures-bind (ih binders c (u + 1) (omega arith) hc) λ (l, c₁, b₁) rl. rw rl.charged (
      Ensures-bind (ih binders c₁ (u + 1 + Node.node_count l) rl.within rl.rest) λ (r, c₂, b₂) rr.
        returns (record {
          bytes = rw (rl.bytes, rr.bytes) (simp append_assoc);
          depth = omega (arith, rl.depth, rr.depth);
          scope = (rl.scope, rr.scope);
          machine = (rl.machine, rr.machine);
          charged = rr.charged ∙ ap (λ u. budget u m) (omega arith);
          within = omega (arith, rr.within);
          rest = rr.rest;
        }))

decode_tagged-Ensures :
    (levels binders u m t : ℕ) (c : Cursor) (recur : Decoder)
    → Promise levels m recur
    → u < m
    → All IsByte c
    → Ensures
        (Read (suc levels) binders u m (t ∷ c))
        (decode_tagged recur t binders c (budget (u + 1) m))
unfolding decode_tagged layout Node.node_count Node.node_depth
decode_tagged-Ensures levels binders u m t c recur ih hu hc =
    Ensures-if (t == 0)
      (λ e.
        atom-Ensures Node.equal t (λ a b. let q : t ≡ 0 = ground arith in rw q) (λ a b. refl)
          (λ a b. refl) (λ a b n s v. (s, v)) (λ a b s v. (s, v)) levels binders u m c hu hc)
      λ _.
        Ensures-if (t == 1)
          (λ e.
            atom-Ensures Node.member t (λ a b. let q : t ≡ 1 = ground arith in rw q) (λ a b. refl)
              (λ a b. refl) (λ a b n s v. (s, v)) (λ a b s v. (s, v)) levels binders u m c hu hc)
          λ _.
            Ensures-if (t == 2)
              (λ e.
                unary-Ensures Node.not t binders binders (λ n. let q : t ≡ 2 = ground arith in rw q)
                  (λ n. refl) (λ n. refl) (λ n h. h) (λ n h. h) levels u m c recur ih hu hc)
              λ _.
                Ensures-if (t == 3)
                  (λ e.
                    let q : t ≡ 3 = ground arith in
                    rw q (binary-Ensures levels binders u m c recur ih hu hc))
                  λ _.
                    Ensures-if (t == 4)
                      (λ e.
                        unary-Ensures Node.for_all t (binders + 1) binders
                          (λ n. let q : t ≡ 4 = ground arith in rw q) (λ n. refl) (λ n. refl)
                          (λ n h. h) (λ n h. h) levels u m c recur ih hu hc)
                      λ _. throws

-- Whatever the decoder accepts is the layout of its result and what is left.
pub decode_node-Ensures :
    (levels : ℕ) (m binders : ℕ) (c : Cursor) (u : ℕ)
    → u ≤ m
    → All IsByte c
    → Ensures (Read levels binders u m c) (decode_node levels binders c (budget u m))
unfolding decode_node charge read_u8
decode_node-Ensures zero m binders c u hu hc = throws
decode_node-Ensures (suc levels) m binders [] u hu hc = elim (Bool-cases (u == m)) [
  | inl e ↦ rw e throws
  | inr e ↦ rw e throws
]
decode_node-Ensures (suc levels) m binders (t ∷ c) u hu (ht, hc) = elim (Bool-cases (u == m)) [
  | inl e ↦ rw e throws
  | inr e ↦ rw e (
      decode_tagged-Ensures levels binders u m t c (decode_node levels)
        (λ b c v. decode_node-Ensures levels m b c v) (ground arith) hc)
]
