-- ===== src/Examples/State.antt =====
-- The theorems on the Patricia map, on defined formulas and on the artifact state, applied.
use naome.Prelude.{
  ℕ, ◌≡◌, ◌≢◌, refl, sym, ap, subst, ◌∙◌, true, false, Bool, Option, none, some, List, [], ◌∷◌, ◌⊎◌,
  ◌↔◌, inl, inr, Bool-cases, length, arith, ◌%◌,
}
use naome.Prelude.Result.{ok, err, Ensures}
use naome.Formula
use naome.Formula.{Formula}
use naome.Formula.Scope.{IsFormula}
use naome.Certificate
use naome.Certificate.{ProofStep, primitive}
use naome.Checker.{Outcome}
use naome.Checker.Truth.{IsSoundView}
use naome.Defined
use naome.Defined.{DefinedFormula}
use naome.PersistentMap
use naome.PersistentMap.{PersistentMap}
use naome.PersistentMap.Keys.{Key, IsKey, byte_at, key_bit, equal_bytes}
use naome.ArtifactState
use naome.ArtifactState.{ArtifactState, CheckedProof}
use naome.ArtifactState.Projections.{projections}
use naome.ArtifactState.Check.{ProofNormalForm, check_normal_form_with_state}
use naome.ArtifactState.Registration
use naome.ArtifactState.Register.{context_view, registration_view, register_proof}
use naome.ArtifactState.Invariant.{HasKeys, IsState, new-IsState}
use naome.ArtifactState.ProjectionKeys.{IsDigest}
use naome.ArtifactState.Soundness.{
  Reachable, start, registers, Reachable-IsState, Reachable-IsSoundView,
}
use naome.ArtifactState.Registration.{ArtifactStateError, refused, panicked, validate}
use naome.ArtifactState.Transitions.{
  IsRegistered, register_proof-outcomes, resolve_proof-register_proof,
}
use naome.PersistentMap.Bits.{IsFirstDifference, first_differing_bit-IsFirstDifference}
use naome.PersistentMap.Invariant.{IsMap}
use naome.PersistentMap.Refinement.{bind, IsInsertion, insert-refines, set-refines}
use naome.PersistentMap.Fingerprints.{map_fingerprint-eq}
use naome.PersistentMap.Entries.{Among, entries-eq-get}
use naome.Node.{free}
use naome.Canonical.{NodeBudget}
use naome.Defined.Fuel.{Costs, expand_node-Costs, expand_node-fuel}
use naome.Defined.Primitive.{expand_with_node_limit-IsFormula}
use naome.Examples.{value_of, point, point-IsModel, only_extensionality}

-- a key of 32 bytes
abbrev pub key_of : ℕ → Key
key_of n =
    n % 256
    ∷ 0
    ∷ 0
    ∷ 0
    ∷ 0
    ∷ 0
    ∷ 0
    ∷ 0
    ∷ 0
    ∷ 0
    ∷ 0
    ∷ 0
    ∷ 0
    ∷ 0
    ∷ 0
    ∷ 0
    ∷ 0
    ∷ 0
    ∷ 0
    ∷ 0
    ∷ 0
    ∷ 0
    ∷ 0
    ∷ 0
    ∷ 0
    ∷ 0
    ∷ 0
    ∷ 0
    ∷ 0
    ∷ 0
    ∷ 0
    ∷ 0
    ∷ []

-- in the place of SHA-256
abbrev pub digest : List ℕ → List ℕ
digest bytes = key_of (length bytes)

zeros : (n : ℕ) → IsKey (key_of n)
zeros n = record { size = refl; bytes = ground arith }

digest-IsDigest : IsDigest digest
digest-IsDigest bytes = zeros (length bytes)

-- ∀ x0. x0 = x0, from x0 = x0
abbrev normal_form : ProofNormalForm
normal_form = record {
  steps = Certificate.equality_reflexivity 0 ∷ Certificate.generalization 0 0 ∷ [];
  canonical_bytes = 0 ∷ [];
}

abbrev checked_run : Outcome CheckedProof
checked_run = check_normal_form_with_state digest normal_form ArtifactState.new

abbrev checked : CheckedProof
checked = record {
  steps = normal_form.steps;
  conclusion = Formula.for_all 0 (Formula.equal 0 0);
  statement_id = key_of 45;
  derivation_id = key_of 84;
  proof_id = key_of 62;
  canonical_conclusion_length = 12;
}

accepted : checked_run ≡ ok checked
unfolding check_normal_form_with_state Formula.for_all Formula.equal
accepted = refl

checked-HasKeys : HasKeys checked
checked-HasKeys = record { statement = zeros 45; derivation = zeros 84; proof = zeros 62 }

abbrev registered_run : Registration.Outcome ArtifactState
registered_run = register_proof digest ArtifactState.new checked

abbrev registered : ArtifactState
registered = value_of ArtifactState.new registered_run

registered_ok : registered_run ≡ ok registered
unfolding register_proof Formula.equal key_bit
registered_ok = refl

reached : Reachable digest only_extensionality registered
reached =
    registers normal_form checked start start (tt, (tt, tt)) checked-HasKeys accepted registered_ok

Reachable-IsSoundView_example : IsSoundView point (context_view registered)
Reachable-IsSoundView_example =
    Reachable-IsSoundView digest digest-IsDigest only_extensionality point point-IsModel registered
      reached

resolve_proof-register_proof_example :
    (x : ArtifactState.StoredStatement) × (PersistentMap.get registered.statements
        checked.statement_id
      ≡ some x)
    × (ArtifactState.resolve_proof registered checked.proof_id
        ≡ ok (
            some (record {
              location = none;
              derivation = checked.derivation_id;
              statement = checked.statement_id;
              length = x.canonical_length;
            })))
resolve_proof-register_proof_example =
    resolve_proof-register_proof digest digest-IsDigest ArtifactState.new checked registered
      (new-IsState digest) checked-HasKeys registered_ok

Reachable-IsState_example : IsState digest registered
Reachable-IsState_example = Reachable-IsState digest digest-IsDigest only_extensionality reached

-- the second registration of the proof
register_proof-outcomes_example :
    ((e : ArtifactStateError) × (validate (registration_view registered) checked false
        ≡ err (refused e))
      × (register_proof digest registered checked ≡ err (refused e)))
    ⊎ ((after : ArtifactState) × (validate (registration_view registered) checked false ≡ ok tt)
        × (register_proof digest registered checked ≡ ok after)
        × IsRegistered digest digest-IsDigest registered checked after)
    ⊎ ((validate (registration_view registered) checked false ≡ ok tt)
        × (register_proof digest registered checked ≡ err panicked)
        × (projections digest checked.conclusion ≡ err ArtifactState.panicked))
register_proof-outcomes_example =
    register_proof-outcomes digest digest-IsDigest registered checked Reachable-IsState_example
      checked-HasKeys

insert-refines_example :
    (r : PersistentMap.PersistentMap Key × Bool) × (PersistentMap.insert digest registered.proofs
        (key_of 70)
        (key_of 3)
      ≡ some r)
    × IsInsertion digest registered.proofs (key_of 70) (key_of 3) r
insert-refines_example =
    insert-refines digest registered.proofs (key_of 70) (key_of 3) Reachable-IsState_example.proofs
      (zeros 70)

set-refines_example :
    (after : PersistentMap.PersistentMap Key) × (PersistentMap.set digest registered.proofs
        (key_of 62)
        (key_of 3)
      ≡ some after)
    × IsMap digest after
    × ((k : Key)
        → PersistentMap.get after k
          ≡ bind (key_of 62) (key_of 3) (PersistentMap.get registered.proofs) k)
set-refines_example =
    set-refines digest registered.proofs (key_of 62) (key_of 3) Reachable-IsState_example.proofs
      (zeros 62)

after_insert :
    (m after : PersistentMap.PersistentMap ℕ) (k : Key) (v : ℕ)
    → IsMap digest m
    → IsKey k
    → PersistentMap.insert digest m k v ≡ some (after, true)
    → IsMap digest after
after_insert m after k v h hk q =
    let (r, run, done) = insert-refines digest m k v h hk in
    subst (λ r. IsMap digest r.0) (some-injective (sym run ∙ q)) done.kept
  where
    some-injective : {A : Type 0} {x y : A} → ◌≡◌ {A = Option A} (some x) (some y) → x ≡ y
    some-injective e = cc

abbrev leaf_of : ℕ → ℕ → PersistentMap.Node ℕ
leaf_of k v = PersistentMap.make_leaf digest (key_of k) v

abbrev both : ℕ → ℕ → PersistentMap.PersistentMap ℕ
both v w = some (PersistentMap.make_branch digest 1 (leaf_of 62 v) (leaf_of 70 w))

-- the keys in one order of insertion
ascending-IsMap : (v w : ℕ) → IsMap digest (both v w)
unfolding PersistentMap.insert IsMap equal_bytes key_bit
ascending-IsMap v w =
    after_insert (some (leaf_of 62 v)) (both v w) (key_of 70) w
      (after_insert none (some (leaf_of 62 v)) (key_of 62) v tt (zeros 62) refl) (zeros 70) refl

-- and in the other, with other values
descending-IsMap : (v w : ℕ) → IsMap digest (both v w)
unfolding PersistentMap.insert IsMap equal_bytes key_bit
descending-IsMap v w =
    after_insert (some (leaf_of 70 w)) (both v w) (key_of 62) v
      (after_insert none (some (leaf_of 70 w)) (key_of 70) w tt (zeros 70) refl) (zeros 62) refl

same_keys :
    (k : Key) → PersistentMap.contains_key (both 1 2) k ≡ PersistentMap.contains_key (both 3 4) k
unfolding PersistentMap.contains_key PersistentMap.make_branch PersistentMap.make_leaf
    PersistentMap.get PersistentMap.get_node
same_keys k = elim (Bool-cases (key_bit k 1)) [
  | inl right ↦ elim (Bool-cases (equal_bytes (key_of 70) k)) [
    | inl e ↦ rw (right, e) refl
    | inr e ↦ rw (right, e) refl
  ]
  | inr left ↦ elim (Bool-cases (equal_bytes (key_of 62) k)) [
    | inl e ↦ rw (left, e) refl
    | inr e ↦ rw (left, e) refl
  ]
]

map_fingerprint-eq_example :
    PersistentMap.map_fingerprint (both 1 2) ≡ PersistentMap.map_fingerprint (both 3 4)
map_fingerprint-eq_example =
    map_fingerprint-eq digest (both 1 2) (both 3 4) (ascending-IsMap 1 2) (descending-IsMap 3 4)
      same_keys

-- ¬ (x0 = x0 → a definition that is absent)
expand_with_node_limit-IsFormula_example :
    Ensures
      (λ (r : Formula × ℕ). IsFormula r.0)
      (Defined.expand_with_node_limit
        (ArtifactState.resolve_definition registered)
        (Defined.not
          (Defined.implies (Defined.equal (free 0) (free 0)) (Defined.defined_relation [] [])))
        10)
expand_with_node_limit-IsFormula_example =
    expand_with_node_limit-IsFormula (ArtifactState.resolve_definition registered)
      (Defined.not
        (Defined.implies (Defined.equal (free 0) (free 0)) (Defined.defined_relation [] [])))
      10

first_differing_bit-IsFirstDifference_example :
    (d : ℕ) × IsFirstDifference (key_of 62) (key_of 70) d
unfolding byte_at
first_differing_bit-IsFirstDifference_example =
    first_differing_bit-IsFirstDifference (key_of 62) (key_of 70) (zeros 62) (zeros 70) different
  where
    different : key_of 62 ≢ key_of 70
    different e = let byte : ◌≡◌ {A = ℕ} 62 70 = ap (λ k. byte_at k 0) e in omega arith

entries-eq-get_example :
    (xs : List (Key × ℕ)) × (PersistentMap.entries (both 1 2) ≡ some xs)
    × ((k : Key) (v : ℕ) → Among (k, v) xs ↔ (PersistentMap.get (both 1 2) k ≡ some v))
entries-eq-get_example = entries-eq-get digest (both 1 2) (ascending-IsMap 1 2)

-- a negated application, whose definition says that its argument is itself
abbrev applied : Defined.Node
applied = Defined.not (Defined.defined_relation (key_of 9) (free 4 ∷ []))

abbrev reflexive_definition : Defined.DefinitionResolver
reflexive_definition id =
    ok (some (record { relation_arity = 1; body = Defined.equal (free 0) (free 0) }))

abbrev three : NodeBudget
three = record { used = 0; maximum = 3 }

expand_node-fuel_example :
    Defined.expand_node 3 reflexive_definition applied none 0 0 [] three
    ≡ Defined.expand_node 65536 reflexive_definition applied none 0 0 [] three
expand_node-fuel_example =
    expand_node-fuel 3 65536 reflexive_definition applied none 0 0 [] three (omega arith)
      (omega arith) (omega arith)

expand_node-Costs_example :
    Ensures (Costs three) (Defined.expand_node 3 reflexive_definition applied none 0 0 [] three)
expand_node-Costs_example =
    expand_node-Costs 3 reflexive_definition applied none 0 0 [] three (omega arith)

applied_run :
    Defined.expand_node 3 reflexive_definition applied none 0 0 [] three
    ≡ ok (Defined.not (Defined.equal (free 4) (free 4)), record { used = 3; maximum = 3 })
unfolding Defined.expand_node
applied_run = refl
