-- ===== src/Certificate.antt =====
-- crates/naome-proof/src/lib.rs and proof_formula.rs: the steps of a proof certificate and their
-- structural validation. `D` stands for `DefinedFormula`.
pub mod Validation
use naome.Prelude.{ℕ, ◌+◌, suc, List, [], ◌∷◌, leb, ltb, length, if◌then◌else◌}
use naome.Prelude.Result.{Result, ok, err, ◌>>=◌, ◌>>◌}
use naome.Node.{FreeVariable}
use naome.Formula.{Formula}
use naome.Zfc.Axioms.{ZfcAxiom}

-- `ProofId([u8; 32])`
abbrev pub ProofId : Type 0
ProofId = List ℕ

abbrev pub certificate_max_steps : ℕ
certificate_max_steps = 65536

pub data ProofFormula (D : Type 0) : Type 0 where
  primitive : Formula → ProofFormula D
  defined : D → ProofFormula D

pub record ProofSeparation (D : Type 0) : Type 0 where
  pub predicate : ProofFormula D
  pub element : FreeVariable
  pub source : FreeVariable
  pub result : FreeVariable
  pub parameters : List FreeVariable

pub record ProofReplacement (D : Type 0) : Type 0 where
  pub predicate : ProofFormula D
  pub input : FreeVariable
  pub output : FreeVariable
  pub uniqueness_witness : FreeVariable
  pub source : FreeVariable
  pub result : FreeVariable
  pub parameters : List FreeVariable

pub data ProofStep (D : Type 0) : Type 0 where
  simplification : ProofFormula D → ProofFormula D → ProofStep D
  frege : ProofFormula D → ProofFormula D → ProofFormula D → ProofStep D
  classical_contraposition : ProofFormula D → ProofFormula D → ProofStep D
  universal_distribution : FreeVariable → ProofFormula D → ProofFormula D → ProofStep D
  vacuous_universal : ProofFormula D → ProofStep D
  universal_instantiation : FreeVariable → FreeVariable → ProofFormula D → ProofStep D
  equality_reflexivity : FreeVariable → ProofStep D
  equality_substitution : FreeVariable → FreeVariable → ProofFormula D → ProofStep D
  zfc_axiom : ZfcAxiom → ProofStep D
  separation : ProofSeparation D → ProofStep D
  replacement : ProofReplacement D → ProofStep D
  proof_reference : ProofId → ProofStep D
  modus_ponens : ℕ → ℕ → ProofStep D
  generalization : ℕ → FreeVariable → ProofStep D

pub data ProofCertificateError : Type 0 where
  empty_certificate : ProofCertificateError
  too_many_steps : ℕ → ℕ → ProofCertificateError
  reference_not_earlier : ℕ → ℕ → ProofCertificateError

module _ {D : Type 0} where
  unfoldable pub canonical_tag : ProofStep D → ℕ
  canonical_tag (simplification _ _) = 0
  canonical_tag (frege _ _ _) = 1
  canonical_tag (classical_contraposition _ _) = 2
  canonical_tag (universal_distribution _ _ _) = 3
  canonical_tag (vacuous_universal _) = 4
  canonical_tag (universal_instantiation _ _ _) = 5
  canonical_tag (equality_reflexivity _) = 6
  canonical_tag (equality_substitution _ _ _) = 7
  canonical_tag (zfc_axiom _) = 16
  canonical_tag (separation _) = 17
  canonical_tag (replacement _) = 18
  canonical_tag (modus_ponens _ _) = 32
  canonical_tag (generalization _ _) = 33
  canonical_tag (proof_reference _) = 48

  -- `local_references().into_iter().flatten()`, the form in which every caller uses it
  unfoldable pub local_references : ProofStep D → List ℕ
  local_references (modus_ponens premise implication) = premise ∷ implication ∷ []
  local_references (generalization premise _) = premise ∷ []
  local_references _ = []

unfoldable pub validate_reference : ℕ → ℕ → Result ProofCertificateError (Unit {0})
validate_reference step reference =
    if leb step reference then err (reference_not_earlier step reference) else ok tt

-- the loop of `validate_step_references`
unfoldable pub validate_references : ℕ → List ℕ → Result ProofCertificateError (Unit {0})
unfolding validate_reference
validate_references position [] = ok tt
validate_references position (reference ∷ rest) = do
  validate_reference position reference
  validate_references position rest

module _ {D : Type 0} where
  unfoldable pub validate_step_references :
      ℕ → ProofStep D → Result ProofCertificateError (Unit {0})
  unfolding validate_references local_references
  validate_step_references position step = validate_references position (local_references step)

  -- the loop of `validate_steps`, from the given position on
  unfoldable pub validate_steps_from :
      ℕ → List (ProofStep D) → Result ProofCertificateError (Unit {0})
  unfolding validate_step_references
  validate_steps_from position [] = ok tt
  validate_steps_from position (step ∷ steps) = do
    validate_step_references position step
    validate_steps_from (position + 1) steps

  unfoldable pub validate_steps : List (ProofStep D) → Result ProofCertificateError (Unit {0})
  unfolding validate_steps_from
  validate_steps [] = err empty_certificate
  validate_steps (step ∷ steps) =
      if ltb certificate_max_steps (length (step ∷ steps))
      then err (too_many_steps (length (step ∷ steps)) certificate_max_steps)
      else validate_steps_from 0 (step ∷ steps)
