-- ===== src/ArtifactState/Functions.antt =====
-- naome-checker/src/lib.rs: what the definition of a function that the checker accepts means.
use naome.Prelude.{
  ℕ, ◌+◌, ◌≡◌, refl, sym, ap, subst, ◌∙◌, true, false, Option, none, some, List, All, decided-false,
}
use naome.Prelude.Result.{
  ok, map_err, ◌>>=◌, Ensures, returns, throws, Ensures-bind, Ensures-ok, >>=-eq, Ensures-weaken,
  map_err-eq-ok, >>=-eq-ok, ok-injective,
}
use naome.Formula.{Formula}
use naome.Formula.Scope.{IsFormula}
use naome.Formula.Variables.{occurs}
use naome.Node.{Node-discrete}
use naome.Canonical
use naome.Canonical.{Encoder, push, formula_max_nodes, formula_max_depth}
use naome.Canonical.Words.{IsByte}
use naome.Checker.{Identity, checker_max_formula_work_bytes}
use naome.Identity.{of_canonical_formula}
use naome.Checker.Truth.{Ensures-map_err, any}
use naome.Checker.Obligation.{function_obligation}
use naome.Checker.Obligation.Meaning.{function_obligation_iff}
use naome.Semantics.{Structure, Valuation, update, Holds, Valid}
use naome.Semantics.Connectives.{Some}
use naome.Defined
use naome.Defined.{
  Node, DefinedFormula, encode_node, encode_relation, encode_with_limits,
  first_definition_reference, within_bytes, enter,
}
use naome.Defined.Primitive.{encode_with_limits-IsByte, decode_canonical-IsFormula}
use naome.ArtifactState.{
  ArtifactState, CheckedDefinition, CheckedDefinitionObligation, DefinitionKind, function,
  statement_formula,
}
use naome.ArtifactState.Definition.{
  canonical_bytes, validate, validate_kind, check_no_reference, formula,
}
use naome.ArtifactState.CheckDefinition.{
  body_within, function_body, selected_obligation, check_definition_with_state, check_obligation,
  obligation_of, expect,
}
use naome.ArtifactState.Soundness.{StatementsHold, statement_formula-stored}

none-or :
    (a b : Option Identity)
    → elim a [ some id ↦ some id | none ↦ b ] ≡ none
    → (a ≡ none) × (b ≡ none)
none-or none b q = (refl, q)
none-or (some a) b q = cc

-- Without a reference, the encoder writes the same whether it allows references or not.
encode_node-allow :
    (n : Node) (depth maximum : ℕ) (e : Encoder)
    → first_definition_reference n ≡ none
    → encode_node n depth true maximum e ≡ encode_node n depth false maximum e
unfolding encode_node first_definition_reference
encode_node-allow (Defined.equal a b) depth maximum e q = refl
encode_node-allow (Defined.member a b) depth maximum e q = refl
encode_node-allow (Defined.not n) depth maximum e q =
    >>=-eq (any (enter depth maximum e))
      λ e _. ap (λ r. r >>= within_bytes) (encode_node-allow n (depth + 1) maximum (push 2 e) q)
encode_node-allow (Defined.implies l r) depth maximum e q =
    let (ql, qr) = none-or _ _ q in
    >>=-eq (any (enter depth maximum e)) λ e _.
      ap (λ run. run >>= λ e. encode_node r (depth + 1) true maximum e >>= within_bytes)
        (encode_node-allow l (depth + 1) maximum (push 3 e) ql)
      ∙ >>=-eq (any (encode_node l (depth + 1) false maximum (push 3 e)))
          λ e _. ap (λ r. r >>= within_bytes) (encode_node-allow r (depth + 1) maximum e qr)
encode_node-allow (Defined.for_all n) depth maximum e q =
    >>=-eq (any (enter depth maximum e))
      λ e _. ap (λ r. r >>= within_bytes) (encode_node-allow n (depth + 1) maximum (push 4 e) q)
encode_node-allow (Defined.defined_relation id arguments) depth maximum e q = cc

encode_with_limits-allow :
    (n : Node) (nodes depth : ℕ)
    → first_definition_reference n ≡ none
    → encode_with_limits n Canonical.preserve true nodes depth
      ≡ encode_with_limits n Canonical.preserve false nodes depth
unfolding encode_with_limits
encode_with_limits-allow n nodes depth q =
    ap (λ r. r >>= λ (e : Encoder). ok (e.output, e.nodes.used)) (encode_node-allow n 0 _ _ q)

body_within-IsFormula :
    (n : Node) (nodes : ℕ) (depth : Option ℕ)
    → first_definition_reference n ≡ none
    → Ensures IsFormula (body_within n nodes depth)
unfolding body_within
body_within-IsFormula n nodes none q = throws
body_within-IsFormula n nodes (some depth) q =
    Ensures-bind
      (Ensures-map_err _ (
        subst (Ensures (λ (r : List ℕ × ℕ). All IsByte r.0))
          (sym (encode_with_limits-allow n nodes depth q))
          (encode_with_limits-IsByte n nodes depth)))
      λ (bytes, _) h. Ensures-map_err _ (decode_canonical-IsFormula bytes h)

check_no_reference-Ensures :
    (o : Option Identity) → Ensures (λ (_ : Unit {0}). o ≡ none) (check_no_reference o)
unfolding check_no_reference
check_no_reference-Ensures none = returns refl
check_no_reference-Ensures (some id) = throws

-- A certificate that the constructor makes has no reference to a definition.
canonical_bytes-no_reference :
    (k : DefinitionKind) (n : Node)
    → Ensures (λ (_ : List ℕ). first_definition_reference n ≡ none) (canonical_bytes k n)
unfolding canonical_bytes validate
canonical_bytes-no_reference k n = Ensures-bind (any (validate_kind k)) λ _ _.
    Ensures-bind
      (any (
        map_err formula
          (encode_with_limits n Canonical.preserve true formula_max_nodes formula_max_depth)))
      λ (encoded, _) _.
        Ensures-bind
          (Ensures-bind (any (validate_kind k)) λ arity _.
            Ensures-bind (check_no_reference-Ensures (first_definition_reference n))
              λ _ e. Ensures-weaken (any _) (λ _ _. e))
          λ _ e. returns e

selected_obligation-some :
    (id : Identity) (f : Formula) (selected : Option Formula) (o : CheckedDefinitionObligation)
    → selected_obligation id f selected ≡ ok o
    → selected ≡ some f
unfolding selected_obligation
selected_obligation-some id f none o q = cc
selected_obligation-some id f (some g) o q = elim (Node-discrete g f) [
  | yes e ↦ ap (λ f. some f) e
  | no ne ↦ absurd (let q' = rw (decided-false (Node-discrete g f) ne) at q in cc)
]

-- At all values of the other variables, the body holds for one value of the output and for no other.
abbrev pub IsTotalFunction : Structure → ℕ → Formula → Type 0
IsTotalFunction M input_arity body =
    (ρ : Valuation M)
    → Some (λ (y : M.Domain).
      Holds M body (update ρ input_arity y)
      × ((d : M.Domain) → Holds M body (update ρ input_arity d) → d ≡ y))

module _ (sha256 : List ℕ → List ℕ) (M : Structure) (s : ArtifactState)
    (h : StatementsHold M s) where
  check_obligation-Valid :
      (n : ℕ) (c : DefinedFormula) (o : CheckedDefinitionObligation) (body : Formula)
      → check_obligation sha256 s n c ≡ ok o
      → function_body n c ≡ ok body
      → Valid M (function_obligation n body)
  unfolding check_obligation
  check_obligation-Valid n c o body q hb =
      let (b, qb, q) = >>=-eq-ok (function_body n c) _ q in
      let same : b ≡ body = ok-injective (sym qb ∙ hb) in
      let (bytes, _, q) =
        >>=-eq-ok (map_err _ (Canonical.encode_canonical (function_obligation n b))) _ q in
      let (id, _, q) = >>=-eq-ok (expect (of_canonical_formula sha256 bytes)) _ q in
      let (selected, qs, q) =
        >>=-eq-ok (map_err _ (statement_formula s id checker_max_formula_work_bytes)) _ q in
      let found = selected_obligation-some id (function_obligation n b) selected o q in
      let run = map_err-eq-ok _ _ selected qs in
      let (x, stored, e) =
        statement_formula-stored s id checker_max_formula_work_bytes (function_obligation n b)
          (subst (λ r. statement_formula s id checker_max_formula_work_bytes ≡ ok r) found run) in
      subst (λ b. Valid M (function_obligation n b)) same
        (subst (Valid M) (sym e) (h id x stored).1)

  -- Let a function definition, with a certificate that the constructor makes, be accepted in a state
  -- whose statements hold in a structure, and let the variable after its output not occur in its
  -- primitive body. Then the body holds in the structure for one value of the output and for no other,
  -- at all values of the other variables.
  pub check_definition_with_state-IsTotalFunction :
      (n : ℕ) (c : DefinedFormula) (id : Identity) (d : CheckedDefinition) (bytes : List ℕ)
      (body : Formula)
      → canonical_bytes (function n) c ≡ ok bytes
      → check_definition_with_state sha256 s (record { kind = function n; body = c }) id ≡ ok d
      → function_body n c ≡ ok body
      → occurs (n + 1) body ≡ false
      → IsTotalFunction M n body
  unfolding check_definition_with_state function_body
  check_definition_with_state-IsTotalFunction n c id d bytes body made q hb fresh =
      let (o, q, _) = >>=-eq-ok (obligation_of sha256 s (function n) c) _ q in
      let (o, q, _) = >>=-eq-ok (check_obligation sha256 s n c) _ q in
      let plain = Ensures-ok (canonical_bytes-no_reference (function n) c) made in
      (function_obligation_iff M n body (Ensures-ok (body_within-IsFormula c _ _ plain) hb) fresh).0
        (check_obligation-Valid n c o body q hb)
