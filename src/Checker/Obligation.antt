-- ===== src/Checker/Obligation.antt =====
-- naome-checker/src/lib.rs: the statement that a function definition must have a proof of. The sum
-- `input_arity + 1` is plain, where the source panics from 2^32 on.
pub mod Meaning
use naome.Prelude.{ℕ, zero, suc, ◌+◌}
use naome.Formula
use naome.Formula.{Formula}

-- the loop over `(0..input_arity).rev()`
unfoldable pub close_inputs : ℕ → Formula → Formula
unfolding Formula.for_all
close_inputs zero obligation = obligation
close_inputs (suc identifier) obligation =
    close_inputs identifier (Formula.for_all identifier obligation)

unfoldable pub function_obligation : ℕ → Formula → Formula
unfolding close_inputs Formula.exists Formula.conjunction Formula.for_all Formula.implies
    Formula.substitute_free Formula.equal
function_obligation input_arity body =
    let output = input_arity in
    let uniqueness_witness = input_arity + 1 in
    let witness_body = Formula.substitute_free output uniqueness_witness body in
    let uniqueness =
      Formula.for_all uniqueness_witness
        (Formula.implies witness_body (Formula.equal uniqueness_witness output)) in
    close_inputs input_arity (Formula.exists output (Formula.conjunction body uniqueness))
