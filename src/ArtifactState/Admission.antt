-- ===== src/ArtifactState/Admission.antt =====
-- naome-checker/src/state/registration.rs: what the outcome of the checks says of the state.
use naome.Prelude.{
  ap, sym, ◌∙◌, ℕ, ◌≡◌, refl, false, ◌||◌, negb, Option, none, some, List, [], ◌∷◌, decided,
}
use naome.Prelude.Result.{
  map_err, map_err-eq-ok, Result, ok, err, >>=-eq-ok, Refuses, passes, fails, Refuses-err,
  Refuses-if, Refuses-bind, Refuses-map_err, Ensures, returns, throws, Ensures-ok, Ensures-if,
  Ensures-bind,
}
use naome.Node.{Node-discrete}
use naome.Formula.{Formula}
use naome.Certificate
use naome.Certificate.{ProofStep}
use naome.Checker.{Identity, ProofHeader}
use naome.Defined.{DefinedFormula}
use naome.PersistentMap
use naome.PersistentMap.Keys.{equal_bytes}
use naome.ArtifactState
use naome.ArtifactState.{
  ArtifactState, CheckedProof, DefinitionCertificate, resolve_proof, header_of,
}
use naome.ArtifactState.Registration
use naome.ArtifactState.Registration.{
  ArtifactStateError, RegistrationView, Checked, same_statement, same_formula, require_definition,
  require_definitions, require_proof, require_dependencies, registered_proof, registered_derivation,
  derivation_found, new_proof, header_found, validate,
}
use naome.ArtifactState.Register.{registration_view}
use naome.ArtifactState.Invariant.{IsState, resolve_proof-IsState}
use naome.ArtifactState.Index.{Binds}

Ensures-always : {E A : Type 0} {P : Type 0} (r : Result E A) → P → Ensures (λ _. P) r
Ensures-always (ok a) h = returns h
Ensures-always (err e) h = throws

refused-injective :
    {A : Type 0} (r : Checked A) (e : ArtifactStateError)
    → map_err Registration.refused r ≡ err (Registration.refused e)
    → r ≡ err e
refused-injective (ok a) e q = cc
refused-injective (err f) e q = ap (λ f. err f) (cc)

-- the error does not say that the derivation is registered
abbrev Other : ArtifactStateError → Type 0
Other e = (id : Identity) → e ≡ Registration.duplicate_derivation id → ⊥

module _ (view : RegistrationView) where
  same_formula-Other :
      (st : Identity) (f : Formula) (found : Option Formula)
      → Refuses Other (same_formula view st f found)
  unfolding same_formula
  same_formula-Other st f none = passes
  same_formula-Other st f (some g) =
      Refuses-if (decided (Node-discrete g f)) (λ _. passes) (λ _. fails (λ _ e. cc))

  same_statement-Other : (p : CheckedProof) → Refuses Other (same_statement view p)
  unfolding same_statement
  same_statement-Other p =
      Refuses-bind
        (Refuses-map_err Registration.context (view.statement_formula p.statement_id _)
          (λ f id e. cc))
        λ found _. same_formula-Other p.statement_id p.conclusion found

  require_definition-Other :
      (id : Identity) (found : Option DefinitionCertificate)
      → Refuses Other (require_definition view id found)
  unfolding require_definition
  require_definition-Other id none = fails (λ _ e. cc)
  require_definition-Other id (some c) = passes

  require_definitions-Other : (ids : List Identity) → Refuses Other (require_definitions view ids)
  unfolding require_definitions
  require_definitions-Other [] = passes
  require_definitions-Other (id ∷ ids) =
      Refuses-bind
        (Refuses-map_err Registration.context (view.definition_certificate id) (λ f id e. cc))
        λ found _.
          Refuses-bind (require_definition-Other id found) λ _ _. require_definitions-Other ids

  require_proof-Other : (step : ProofStep DefinedFormula) → Refuses Other (require_proof view step)
  unfolding require_proof
  require_proof-Other (Certificate.proof_reference id) =
      Refuses-bind (Refuses-map_err Registration.context (view.has_proof id) (λ f id e. cc))
        λ found _. Refuses-if found (λ _. passes) (λ _. fails (λ _ e. cc))
  require_proof-Other (Certificate.simplification _ _) = passes
  require_proof-Other (Certificate.frege _ _ _) = passes
  require_proof-Other (Certificate.classical_contraposition _ _) = passes
  require_proof-Other (Certificate.universal_distribution _ _ _) = passes
  require_proof-Other (Certificate.vacuous_universal _) = passes
  require_proof-Other (Certificate.universal_instantiation _ _ _) = passes
  require_proof-Other (Certificate.equality_reflexivity _) = passes
  require_proof-Other (Certificate.equality_substitution _ _ _) = passes
  require_proof-Other (Certificate.zfc_axiom _) = passes
  require_proof-Other (Certificate.separation _) = passes
  require_proof-Other (Certificate.replacement _) = passes
  require_proof-Other (Certificate.modus_ponens _ _) = passes
  require_proof-Other (Certificate.generalization _ _) = passes

  require_dependencies-Other :
      (steps : List (ProofStep DefinedFormula)) → Refuses Other (require_dependencies view steps)
  unfolding require_dependencies
  require_dependencies-Other [] = passes
  require_dependencies-Other (step ∷ steps) = Refuses-bind (require_proof-Other step) λ _ _.
      Refuses-bind (require_definitions-Other (Registration.definition_references step))
        λ _ _. require_dependencies-Other steps

module _ (s : ArtifactState) (p : CheckedProof) where
  -- an error that says that the derivation is registered is right
  abbrev Faithful : ArtifactStateError → Type 0
  Faithful e =
      (id : Identity)
      → e ≡ Registration.duplicate_derivation id
      → Binds s.derivations p.derivation_id

  faithful : {A : Type 0} {r : Checked A} → Refuses Other r → Refuses Faithful r
  faithful passes = passes
  faithful (fails h) = fails (λ id e. absurd (h id e))

  derivation_found-Faithful :
      (found : Option Identity)
      → PersistentMap.get s.derivations p.derivation_id ≡ found
      → Refuses Faithful (derivation_found (registration_view s) p false found)
  unfolding derivation_found registered_derivation
  derivation_found-Faithful none q = faithful (same_statement-Other (registration_view s) p)
  derivation_found-Faithful (some st) q =
      Refuses-if (negb (equal_bytes st p.statement_id)) (λ _. fails (λ _ e. cc))
        λ _.
          Refuses-bind (faithful (same_statement-Other (registration_view s) p))
            λ _ _. fails (λ id e. (st, q))

  header_found-Faithful :
      (found : Option ProofHeader)
      → Refuses Faithful (header_found (registration_view s) p false found)
  unfolding header_found registered_proof new_proof registration_view
  header_found-Faithful (some header) =
      Refuses-if
        (negb (equal_bytes header.derivation p.derivation_id)
          || negb (equal_bytes header.statement p.statement_id))
        (λ _. fails (λ _ e. cc))
        λ _.
          Refuses-bind (faithful (same_statement-Other (registration_view s) p))
            λ _ _. fails (λ id e. cc)
  header_found-Faithful none =
      Refuses-bind (faithful (require_dependencies-Other (registration_view s) p.steps))
        λ _ _. derivation_found-Faithful (PersistentMap.get s.derivations p.derivation_id) refl

  -- On a well-formed state the look-up of the proof does not panic, and the checks go on with it.
  pub validate-eq-header_found :
      {sha256 : List ℕ → List ℕ}
      → IsState sha256 s
      → (found : Option ProofHeader) × (resolve_proof s p.proof_id ≡ ok found)
        × (validate (registration_view s) p false
            ≡ map_err Registration.refused (header_found (registration_view s) p false found))
  unfolding validate registration_view
  validate-eq-header_found h =
      let (found, r) = resolve_proof-IsState _ s p.proof_id h in (found, r, rw r refl)

  -- A refusal for a registered derivation is given only where the derivation is registered.
  pub validate-duplicate_derivation :
      {sha256 : List ℕ → List ℕ} (id : Identity)
      → IsState sha256 s
      → validate (registration_view s) p false
        ≡ err (Registration.refused (Registration.duplicate_derivation id))
      → Binds s.derivations p.derivation_id
  validate-duplicate_derivation id h q =
      let (found, _, e) = validate-eq-header_found h in
      Refuses-err (header_found-Faithful found)
        (refused-injective (header_found (registration_view s) p false found) _ (sym e ∙ q)) id refl

  -- what the checks find of an admissible proof: its identity and its derivation are new
  pub record IsNew : Type 0 where
    pub proof : PersistentMap.get s.proofs p.proof_id ≡ none
    pub derivation : PersistentMap.get s.derivations p.derivation_id ≡ none

  header_of-none : (found : Option Identity) → header_of s found ≡ ok none → found ≡ none
  unfolding header_of
  header_of-none none q = refl
  header_of-none (some d) q =
      let (st, _, q₁) = >>=-eq-ok (ArtifactState.expect (PersistentMap.get s.derivations d)) _ q in
      let (x, _, q₂) = >>=-eq-ok (ArtifactState.expect (PersistentMap.get s.statements st)) _ q₁ in
      absurd (cc)

  derivation_found-IsNew :
      (found : Option Identity)
      → PersistentMap.get s.proofs p.proof_id ≡ none
      → PersistentMap.get s.derivations p.derivation_id ≡ found
      → Ensures (λ _. IsNew) (derivation_found (registration_view s) p false found)
  unfolding derivation_found registered_derivation
  derivation_found-IsNew none absent q =
      Ensures-always (same_statement (registration_view s) p)
        (record { proof = absent; derivation = q })
  derivation_found-IsNew (some st) absent q =
      Ensures-if (negb (equal_bytes st p.statement_id)) (λ _. throws)
        λ _.
          Ensures-bind (Ensures-always (same_statement (registration_view s) p) (tt {0}))
            λ _ _. throws

  header_found-IsNew :
      (found : Option ProofHeader)
      → resolve_proof s p.proof_id ≡ ok found
      → Ensures (λ _. IsNew) (header_found (registration_view s) p false found)
  unfolding header_found registered_proof new_proof registration_view resolve_proof
  header_found-IsNew (some header) q =
      Ensures-if
        (negb (equal_bytes header.derivation p.derivation_id)
          || negb (equal_bytes header.statement p.statement_id))
        (λ _. throws)
        λ _.
          Ensures-bind (Ensures-always (same_statement (registration_view s) p) (tt {0}))
            λ _ _. throws
  header_found-IsNew none q =
      Ensures-bind (Ensures-always (require_dependencies (registration_view s) p.steps) (tt {0}))
        λ _ _.
          derivation_found-IsNew (PersistentMap.get s.derivations p.derivation_id)
            (header_of-none (PersistentMap.get s.proofs p.proof_id) q) refl

  pub validate-IsNew :
      {sha256 : List ℕ → List ℕ}
      → IsState sha256 s
      → validate (registration_view s) p false ≡ ok tt
      → IsNew
  validate-IsNew h q =
      let (found, r, e) = validate-eq-header_found h in
      Ensures-ok (header_found-IsNew found r) (map_err-eq-ok _ _ tt (sym e ∙ q))
