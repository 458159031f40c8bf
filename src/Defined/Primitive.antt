-- ===== src/Defined/Primitive.antt =====
-- crates/naome-proof/src/defined_formula.rs: `into_primitive`, through the bytes of the formula.
use naome.Prelude.{
  ℕ, ◌≡◌, refl, false, none, min, List, [], ◌∷◌, ◌++◌, All, length, ltb, leb, ◌==◌, arith,
}
use naome.Prelude.Result.{Ensures, returns, throws, Ensures-if, Ensures-bind}
use naome.Node.{Variable, bound, free}
use naome.Formula.{Formula}
use naome.Formula.Scope.{IsFormula}
use naome.Canonical
use naome.Canonical.{
  Encoder, new_budget, push, encode_variable, formula_max_bytes, formula_max_nodes,
  formula_max_depth,
}
use naome.Canonical.Words.{to_be_bytes, IsByte}
use naome.Canonical.RoundTrip.{encode_canonical-decode_canonical}
use naome.Checker
use naome.Checker.Truth.{Ensures-map_err, known, any}
use naome.Defined
use naome.Defined.{
  Node, enter, within_bytes, encode_relation, encode_node, encode_with_limits, into_primitive,
  DefinitionResolver, expand_node, expand_with_node_limit,
}

append-IsByte : (xs ys : List ℕ) → All IsByte xs → All IsByte ys → All IsByte (xs ++ ys)
append-IsByte [] ys h k = k
append-IsByte (x ∷ xs) ys (h, hs) k = (h, append-IsByte xs ys hs k)

-- an encoder whose output is bytes, and that keeps the identifiers
abbrev IsWriter : Encoder → Type 0
IsWriter e = All IsByte e.output × (e.variables ≡ Canonical.preserve)

to_be_bytes-IsByte : (n : ℕ) → All IsByte (to_be_bytes n)
unfolding to_be_bytes
to_be_bytes-IsByte n = (omega arith, (omega arith, (omega arith, (omega arith, tt))))

push-IsWriter : (b : ℕ) (e : Encoder) → IsByte b → IsWriter e → IsWriter (push b e)
unfolding push
push-IsWriter b e hb (h, v) = (append-IsByte e.output (b ∷ []) h (hb, tt), v)

encode_variable-IsWriter :
    (v : Variable) (e : Encoder) → IsWriter e → IsWriter (encode_variable v e)
unfolding encode_variable Canonical.identifier
encode_variable-IsWriter (bound i) e (h, v) =
    (append-IsByte e.output (1 ∷ to_be_bytes i) h (omega arith, to_be_bytes-IsByte i), v)
encode_variable-IsWriter (free x) e (h, v) =
    rw v (append-IsByte e.output (0 ∷ to_be_bytes x) h (omega arith, to_be_bytes-IsByte x), refl)

enter-IsWriter :
    (depth maximum : ℕ) (e : Encoder) → IsWriter e → Ensures IsWriter (enter depth maximum e)
unfolding enter
enter-IsWriter depth maximum e h =
    Ensures-if (leb maximum depth) (λ _. throws)
      (λ _. Ensures-if (e.nodes.used == e.nodes.maximum) (λ _. throws) (λ _. returns h))

within_bytes-IsWriter : (e : Encoder) → IsWriter e → Ensures IsWriter (within_bytes e)
unfolding within_bytes
within_bytes-IsWriter e h =
    Ensures-if (ltb formula_max_bytes (length e.output)) (λ _. throws) (λ _. returns h)

encode_node-IsWriter :
    (n : Node) (depth maximum : ℕ) (e : Encoder)
    → IsWriter e
    → Ensures IsWriter (encode_node n depth false maximum e)
unfolding encode_node encode_relation
encode_node-IsWriter (Defined.equal a b) depth maximum e h =
    Ensures-bind (enter-IsWriter depth maximum e h) λ e h. within_bytes-IsWriter _ (
      encode_variable-IsWriter b _
        (encode_variable-IsWriter a _ (push-IsWriter 0 e (omega arith) h)))
encode_node-IsWriter (Defined.member a b) depth maximum e h =
    Ensures-bind (enter-IsWriter depth maximum e h) λ e h. within_bytes-IsWriter _ (
      encode_variable-IsWriter b _
        (encode_variable-IsWriter a _ (push-IsWriter 1 e (omega arith) h)))
encode_node-IsWriter (Defined.not n) depth maximum e h =
    Ensures-bind (enter-IsWriter depth maximum e h) λ e h.
      Ensures-bind (encode_node-IsWriter n _ maximum _ (push-IsWriter 2 e (omega arith) h))
        within_bytes-IsWriter
encode_node-IsWriter (Defined.implies l r) depth maximum e h =
    Ensures-bind (enter-IsWriter depth maximum e h) λ e h.
      Ensures-bind (encode_node-IsWriter l _ maximum _ (push-IsWriter 3 e (omega arith) h))
        λ e h. Ensures-bind (encode_node-IsWriter r _ maximum e h) within_bytes-IsWriter
encode_node-IsWriter (Defined.for_all n) depth maximum e h =
    Ensures-bind (enter-IsWriter depth maximum e h) λ e h.
      Ensures-bind (encode_node-IsWriter n _ maximum _ (push-IsWriter 4 e (omega arith) h))
        within_bytes-IsWriter
encode_node-IsWriter (Defined.defined_relation id arguments) depth maximum e h =
    Ensures-bind (enter-IsWriter depth maximum e h) λ e h. throws

pub encode_with_limits-IsByte :
    (n : Node) (maximum_nodes maximum_depth : ℕ)
    → Ensures
        (λ (r : List ℕ × ℕ). All IsByte r.0)
        (encode_with_limits n Canonical.preserve false maximum_nodes maximum_depth)
unfolding encode_with_limits
encode_with_limits-IsByte n maximum_nodes maximum_depth =
    Ensures-bind (encode_node-IsWriter n 0 _ _ (tt, refl)) λ e (h, _). returns h

pub decode_canonical-IsFormula :
    (bytes : List ℕ) → All IsByte bytes → Ensures IsFormula (Canonical.decode_canonical bytes)
unfolding Canonical.decode_canonical
decode_canonical-IsFormula bytes h =
    Ensures-bind (known (Canonical.decode_canonical_with_node_limit bytes formula_max_nodes))
      λ (f, used) e.
        returns (encode_canonical-decode_canonical formula_max_nodes bytes f used h e).0

-- What `into_primitive` returns has no dangling index.
pub into_primitive-IsFormula : (n : Node) → Ensures IsFormula (into_primitive n)
unfolding into_primitive
into_primitive-IsFormula n =
    Ensures-bind (encode_with_limits-IsByte n formula_max_nodes formula_max_depth)
      λ (bytes, _) h. Ensures-map_err Checker.primitive (decode_canonical-IsFormula bytes h)

-- Whatever the resolver returns, an expansion is a formula with no dangling index.
pub expand_with_node_limit-IsFormula :
    (resolver : DefinitionResolver) (n : Node) (maximum_nodes : ℕ)
    → Ensures (λ (r : Formula × ℕ). IsFormula r.0) (expand_with_node_limit resolver n maximum_nodes)
unfolding expand_with_node_limit
expand_with_node_limit-IsFormula resolver n maximum_nodes =
    Ensures-bind
      (any (
        expand_node (min maximum_nodes formula_max_nodes) resolver n none 0 0 []
          (new_budget maximum_nodes)))
      λ (n, b) _.
        Ensures-bind (Ensures-map_err Checker.formula (into_primitive-IsFormula n))
          λ f hf. returns hf
