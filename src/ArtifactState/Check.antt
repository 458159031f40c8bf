-- ===== src/ArtifactState/Check.antt =====
-- naome-checker/src/lib.rs: `check_normal_form_with_resolver`, the run of the checker that makes a
-- `CheckedProof`, without its snapshot.
use naome.Prelude.{ℕ, List, length}
use naome.Prelude.Result.{ok, ◌>>=◌}
use naome.Certificate.{ProofStep}
use naome.Checker.{Outcome, expect}
use naome.Checker.Run.{check_with_diagnostic_query, derive}
use naome.Defined.{DefinedFormula}
use naome.Identity.{of_canonical_formula, of_canonical_certificate}
use naome.ArtifactState.{ArtifactState, CheckedProof}
use naome.ArtifactState.Register.{context_view}

-- `ProofNormalForm`: the steps of its certificate, and their canonical bytes
pub record ProofNormalForm : Type 0 where
  pub steps : List (ProofStep DefinedFormula)
  pub canonical_bytes : List ℕ

unfoldable pub check_normal_form_with_state :
    (List ℕ → List ℕ) → ProofNormalForm → ArtifactState → Outcome CheckedProof
unfolding check_with_diagnostic_query context_view expect of_canonical_formula
    of_canonical_certificate
check_normal_form_with_state sha256 n s = do
  (conclusion, canonical_conclusion, id) ←
      check_with_diagnostic_query sha256 n.steps (context_view s) derive
  derivation_id ← expect id
  statement_id ← expect (of_canonical_formula sha256 canonical_conclusion)
  proof_id ← expect (of_canonical_certificate sha256 statement_id n.canonical_bytes)
  ok (record {
    steps = n.steps;
    conclusion = conclusion;
    statement_id = statement_id;
    derivation_id = derivation_id;
    proof_id = proof_id;
    canonical_conclusion_length = length canonical_conclusion;
  })
