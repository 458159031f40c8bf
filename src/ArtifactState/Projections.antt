-- ===== src/ArtifactState/Projections.antt =====
-- naome-checker/src/question/index.rs and question/instantiation.rs: the structural projections of a
-- statement, the keys of the buckets of the index. `universal_instances` stands without the steps that
-- it collects beside each formula, which no projection reads. A failing `expect` is `panicked`.
use naome.Prelude.{
  ℕ, zero, suc, ◌+◌, true, false, Option, none, some, List, [], ◌∷◌, ◌++◌, map, if◌then◌else◌,
}
use naome.Prelude.Result.{Result, ok, err, ◌>>=◌}
use naome.Prelude.Set
use naome.Node
use naome.Node.{FreeVariable}
use naome.Formula
use naome.Formula.{Formula}
use naome.Logic
use naome.Canonical
use naome.Canonical.{encode_canonical, encode_canonical_with_node_limit}
use naome.Canonical.Implication.{
  CanonicalImplication, canonical_implication, antecedent, slice_from,
}
use naome.Checker.{Identity}
use naome.Identity.{of_canonical_formula}
use naome.ArtifactState.{Panic, panicked, expect}

abbrev pub Panics : Type 0 → Type 0
Panics A = Result Panic A

pub data BucketKind : Type 0 where
  outgoing deductions instances : BucketKind

abbrev pub Projection : Type 0
Projection = BucketKind × Identity

-- `expect` on the result of an encoding
unfoldable pub encoded : {A : Type 0} → Canonical.Outcome A → Panics A
encoded (ok a) = ok a
encoded (err e) = err panicked

-- `consequents` of a canonical implication
unfoldable pub slices : List ℕ → List ℕ → Panics (List (List ℕ))
unfolding slice_from
slices [] bytes = ok []
slices (start ∷ starts) bytes = do
  slice ← expect (slice_from start bytes)
  rest ← slices starts bytes
  ok (slice ∷ rest)

-- the formulas of `universal_instances`, from the given level on
unfoldable universal_instances_from : ℕ → ℕ → Formula → List Formula
unfolding Formula.open_outer_universal Formula.substitute_free Logic.generalization
universal_instances_from zero level current = []
universal_instances_from (suc count) level current =
    elim (Formula.open_outer_universal current (2 + level)) [
      | none ↦ []
      | some body ↦
          let next = Formula.substitute_free (2 + level) 0 body in
          next ∷ Logic.generalization 0 next ∷ universal_instances_from count (level + 1) next
    ]

unfoldable pub universal_instances : Formula → List Formula
unfolding universal_instances_from
universal_instances premise = universal_instances_from 2 0 premise

-- the loop of `open` over the identifiers, from the given one down
unfoldable next_unused : ℕ → Set.Set → Panics FreeVariable
unfolding Set.contains
next_unused zero variables = if Set.contains zero variables then err panicked else ok zero
next_unused (suc identifier) variables = elim (Set.contains (suc identifier) variables) [
  | true ↦ next_unused identifier variables
  | false ↦ ok (suc identifier)
]

-- `checked_sub(1)` with its `expect`
unfoldable decrement : ℕ → Panics ℕ
decrement zero = err panicked
decrement (suc identifier) = ok identifier

abbrev pub Opened : Type 0
Opened = Formula × List FreeVariable

unfoldable outer_opened :
    (Formula → List FreeVariable → ℕ → Panics Opened)
    → Formula
    → List FreeVariable
    → FreeVariable
    → Option Formula
    → Panics Opened
unfolding decrement
outer_opened continue current variables variable none = ok (current, variables)
outer_opened continue current variables variable (some body) = do
  identifier ← decrement variable
  continue body (variables ++ variable ∷ []) identifier

-- the loop of `open`, with nothing excluded
unfoldable open_from : ℕ → Formula → List FreeVariable → ℕ → Panics Opened
unfolding next_unused outer_opened Formula.free_variables Formula.open_outer_universal
open_from zero current variables identifier = ok (current, variables)
open_from (suc count) current variables identifier = do
  variable ← next_unused identifier (Formula.free_variables current)
  outer_opened (open_from count) current variables variable
      (Formula.open_outer_universal current variable)

-- `open` with nothing excluded, where no opened variable stands for `none`
unfoldable pub open_outer : Formula → Panics Opened
unfolding open_from
open_outer formula = open_from 32 formula [] 4294967295

-- "naome:question:universal-pattern\0"
abbrev universal_pattern : List ℕ
universal_pattern =
    110 ∷ 97 ∷ 111 ∷ 109 ∷ 101 ∷ 58 ∷ 113 ∷ 117 ∷ 101 ∷ 115 ∷ 116 ∷ 105 ∷ 111 ∷ 110 ∷ 58 ∷ 117 ∷ 110
    ∷ 105 ∷ 118 ∷ 101 ∷ 114 ∷ 115 ∷ 97 ∷ 108 ∷ 45 ∷ 112 ∷ 97 ∷ 116 ∷ 116 ∷ 101 ∷ 114 ∷ 110 ∷ 0 ∷ []

module _ (sha256 : List ℕ → List ℕ) where
  unfoldable pub statement_id : List ℕ → Panics Identity
  unfolding of_canonical_formula
  statement_id bytes = expect (of_canonical_formula sha256 bytes)

  unfoldable pub statement_ids : List (List ℕ) → Panics (List Identity)
  unfolding statement_id
  statement_ids [] = ok []
  statement_ids (bytes ∷ rest) = do id ← statement_id bytes; ids ← statement_ids rest; ok (id ∷ ids)

  unfoldable pub bytes_key : List ℕ → Identity
  bytes_key bytes = sha256 (universal_pattern ++ bytes)

  -- the projections of an implication
  unfoldable pub implication_projections : Option CanonicalImplication → Panics (List Projection)
  unfolding antecedent slices statement_id statement_ids
  implication_projections none = ok []
  implication_projections (some parts) = do
    bytes ← expect (antecedent parts)
    id ← statement_id bytes
    slices ← slices parts.consequents parts.bytes
    ids ← statement_ids slices
    ok ((outgoing, id) ∷ map (λ id. (deductions, id)) ids)

  -- the instances that have an encoding within the limit, `AssessmentLimits::MAXIMUM.formula_nodes + 1`
  abbrev within_limit : Canonical.Outcome (List ℕ × ℕ) → List (List ℕ) → List (List ℕ)
  within_limit (ok (bytes, nodes)) rest = bytes ∷ rest
  within_limit (err e) rest = rest

  unfoldable pub bounded_instances : List Formula → List (List ℕ)
  unfolding encode_canonical_with_node_limit
  bounded_instances [] = []
  bounded_instances (instance_ ∷ rest) =
      within_limit (encode_canonical_with_node_limit instance_ 1025) (bounded_instances rest)

  unfoldable pub consequent_keys : Option CanonicalImplication → Panics (List Identity)
  unfolding slices bytes_key
  consequent_keys none = ok []
  consequent_keys (some parts) = do
    slices ← slices parts.consequents parts.bytes
    ok (map bytes_key slices)

  -- the keys for what `open` returns
  unfoldable pub pattern_keys : Opened → Panics (List Identity)
  unfolding Node.map_free_variables encoded encode_canonical canonical_implication bytes_key
      consequent_keys
  pattern_keys (opened, []) = ok []
  pattern_keys (opened, variable ∷ variables) = do
    bytes ← encoded (encode_canonical (Node.map_free_variables opened (λ _. 0)))
    parts ← encoded (canonical_implication (Node.map_free_variables opened (λ _. 0)))
    keys ← consequent_keys parts
    ok (bytes_key bytes ∷ keys)

  unfoldable pub implied_projections : Formula → Panics (List Projection)
  unfolding encoded canonical_implication implication_projections
  implied_projections formula = do
    parts ← encoded (canonical_implication formula)
    implication_projections parts

  unfoldable pub instance_keys : Formula → Panics (List Identity)
  unfolding bounded_instances universal_instances statement_ids
  instance_keys formula = statement_ids (bounded_instances (universal_instances formula))

  -- `projections` of instantiation.rs
  unfoldable pub universal_keys : Formula → Panics (List Identity)
  unfolding open_outer pattern_keys
  universal_keys formula = do opened ← open_outer formula; pattern_keys opened

  -- `projections` of index.rs
  unfoldable pub projections : Formula → Panics (List Projection)
  unfolding implied_projections instance_keys universal_keys
  projections formula = do
    implied ← implied_projections formula
    ids ← instance_keys formula
    keys ← universal_keys formula
    ok (implied ++ (map (λ id. (instances, id)) ids ++ map (λ id. (instances, id)) keys))
