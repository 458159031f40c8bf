-- ===== src/ArtifactState/Constructor.antt =====
-- naome-proof/src/definition.rs: the inputs of `DefinitionCertificate::new` that it accepts.
use naome.Prelude.{ℕ, ◌+◌, ◌≤◌, ◌≡◌, Bool, true, ◌↔◌, List, ltb, arith, ap, length, ◌++◌, sym}
use naome.Prelude.Result.{
  ok, map_err, map_err-eq-ok, >>=-eq-ok, >>=-ok, Ensures, returns, throws, Ensures-if, Ensures-bind,
  Ensures-ok, ok-injective,
}
use naome.Canonical
use naome.Canonical.{Encoder, push, formula_max_bytes, formula_max_nodes, formula_max_depth}
use naome.Canonical.Words.{to_be_bytes}
use naome.Checker.Truth.{any}
use naome.Defined
use naome.Defined.{
  Node, first_definition_reference, enter, within_bytes, encode_relation, encode_node,
  encode_with_limits,
}
use naome.ArtifactState.{DefinitionKind}
use naome.ArtifactState.Definition.{validate_kind, validate, kind_bytes, canonical_bytes, formula}
use naome.ArtifactState.Interface.{
  IsGraph, validate_sound, validate_complete, validate_kind_complete,
}

-- The encoder stops at the limit on the bytes.
within_bytes-Ensures :
    (e : Encoder) → Ensures (λ (e : Encoder). length e.output ≤ formula_max_bytes) (within_bytes e)
unfolding within_bytes
within_bytes-Ensures e =
    Ensures-if (ltb formula_max_bytes (length e.output)) (λ _. throws) (λ h. returns (ground arith))

encode_node-length :
    (n : Node) (depth : ℕ) (allow : Bool) (maximum : ℕ) (e : Encoder)
    → Ensures
        (λ (e : Encoder). length e.output ≤ formula_max_bytes)
        (encode_node n depth allow maximum e)
unfolding encode_node
encode_node-length (Defined.equal l r) depth allow maximum e =
    Ensures-bind (any (enter depth maximum e)) λ e _. within_bytes-Ensures _
encode_node-length (Defined.member l r) depth allow maximum e =
    Ensures-bind (any (enter depth maximum e)) λ e _. within_bytes-Ensures _
encode_node-length (Defined.not n) depth allow maximum e =
    Ensures-bind (any (enter depth maximum e)) λ e _.
      Ensures-bind (any (encode_node n (depth + 1) allow maximum (push 2 e)))
        λ e _. within_bytes-Ensures e
encode_node-length (Defined.for_all n) depth allow maximum e =
    Ensures-bind (any (enter depth maximum e)) λ e _.
      Ensures-bind (any (encode_node n (depth + 1) allow maximum (push 4 e)))
        λ e _. within_bytes-Ensures e
encode_node-length (Defined.implies l r) depth allow maximum e =
    Ensures-bind (any (enter depth maximum e)) λ e _.
      Ensures-bind (any (encode_node l (depth + 1) allow maximum (push 3 e))) λ e _.
        Ensures-bind (any (encode_node r (depth + 1) allow maximum e)) λ e _. within_bytes-Ensures e
encode_node-length (Defined.defined_relation id vs) depth allow maximum e =
    Ensures-bind (any (enter depth maximum e))
      λ e _. Ensures-bind (any (encode_relation id vs allow e)) λ e _. within_bytes-Ensures e

encode_with_limits-length :
    (n : Node) (nodes depth : ℕ)
    → Ensures
        (λ (r : List ℕ × ℕ). length r.0 ≤ formula_max_bytes)
        (encode_with_limits n Canonical.preserve true nodes depth)
unfolding encode_with_limits
encode_with_limits-length n nodes depth =
    Ensures-bind (encode_node-length n 0 true _ _) λ e h. returns h

-- `DefinitionCertificate::new` accepts a kind and a body exactly when there is an argument, the graph
-- has at most 256, the body refers to no definition, its free variables are those below the arity of the
-- graph, and it has an encoding within the limits of formulas; the bytes are then the kind, the length of
-- the encoding, and the encoding.
pub canonical_bytes_iff :
    (k : DefinitionKind) (n : Node) (bytes : List ℕ)
    → (canonical_bytes k n ≡ ok bytes) ↔ (
        IsGraph k n
        × ((r : List ℕ × ℕ) × (encode_with_limits n Canonical.preserve true formula_max_nodes
                formula_max_depth
              ≡ ok r)
            × (bytes ≡ kind_bytes k ++ to_be_bytes (length r.0) ++ r.0)))
unfolding canonical_bytes
canonical_bytes_iff k n bytes = (
  λ q.
      let (_, _, q) = >>=-eq-ok (validate_kind k) _ q in
      let (r, qe, q) =
        >>=-eq-ok
          (map_err formula
            (encode_with_limits n Canonical.preserve true formula_max_nodes formula_max_depth))
          _ q in
      let (_, qv, q) = >>=-eq-ok (validate k n (length r.0)) _ q in
      (validate_sound k n (length r.0) qv, (r, map_err-eq-ok _ _ r qe, sym (ok-injective q))),
  λ (graph, (r, qe, e)).
      let small = Ensures-ok (encode_with_limits-length n formula_max_nodes formula_max_depth) qe in
      >>=-ok _ (validate_kind_complete k graph.0) (
        >>=-ok _ (ap (map_err formula) qe)
          (>>=-ok _ (validate_complete k n (length r.0) graph small) (ap (λ b. ok b) (sym e)))),
)
