-- ===== src/Lib.antt =====
-- The mathematical kernel of the repository: formulas of set theory, their axioms and rules, their
-- canonical bytes, proof certificates and the checker of certificates.
--
-- How the parts interact. A certificate (crates/naome-proof) is a list of steps. A step cites an axiom
-- of logic, a fixed axiom of ZFC, a schema instance, a registered proof, or earlier steps by position.
-- The checker (crates/naome-checker) rebuilds the formula of every step with the operations of
-- crates/naome-foundation, charges the canonical length of each formula to a work limit, drops a result
-- after its last use, and accepts only a closed last formula. Canonical bytes are the identity of a
-- formula, so the codec must be a bijection.
--
-- What models what:
--   Node, Formula: crates/naome-foundation/src/formula.rs. The private `Node` is the data type of the
--     same name, `Formula(Node)` is `Formula`; methods keep their names. The invariant of the struct, no
--     dangling De Bruijn index, is `Formula.Scope.IsFormula`, and a hypothesis where a theorem needs it.
--   Expression, Construction: construction.rs. Logic: logic.rs. Zfc: zfc.rs, where
--     `ZfcAxiom::formula` is `axiom_formula`, `Separation::formula` is `separation_formula` and
--     `Replacement::formula` is `replacement_formula`.
--   Canonical: formula/canonical.rs, with `canonical_implication` in `Implication`. The encoder's
--     budget, variable map and output are the record `Encoder`, passed on explicitly; the decoder's
--     cursor is the list of unread bytes.
--   Comparison: formula/comparison.rs, the path of a mismatch.
--   Certificate: crates/naome-proof/src/lib.rs and proof_formula.rs, steps and `validate_steps`.
--   Checker: crates/naome-checker/src/lib.rs. `derive_step` returns the results and the remaining work
--     that the source changes in place. The loop of `check_with_diagnostic_query` is `check_steps`, with
--     its local variables in `State`. A failing `expect` or index of the file is the failure `panicked`, as
--     is a sum of lengths from 2^64 on and a panic inside the view, which `ViewFailure` has.
--     `Checker.Obligation` is `function_obligation`.
--   PersistentMap: state/persistent_map.rs of crates/naome-checker/src. A node that an `Arc` points to is a
--     value, the returned map takes the place of the mutable handle, and a panic is `none`.
--   Defined: crates/naome-proof/src/defined_formula.rs. `expand_node` passes its budget on explicitly; its
--     fuel is what the budget admits, since every call charges first.
--   Identity: crates/naome-proof/src/identity.rs.
--   ArtifactState: state.rs and state/registration.rs of crates/naome-checker/src, with the part of
--     context.rs that they use. `Projections` has the keys under which question/index.rs and
--     question/instantiation.rs file a statement. `Registration` has the checks over the record
--     `RegistrationView`, `Register` the views and the operations, `Check` the making of a checked proof.
--     `Definition` is the constructor in crates/naome-proof/src/definition.rs, and `CheckDefinition` the
--     check of a certificate in crates/naome-checker/src/lib.rs. `Reachable` in `Soundness` is the
--     step relation of a program run.
--   Semantics: no code, but the meaning of formulas: truth in a structure, models of the axioms.
--   Prelude: shared notation; Map and Set stand for BTreeMap and BTreeSet. Examples: concrete runs.
--
-- Bounds. The codec's limits are those of the source: 393,216 bytes, depth 256, 65,536 nodes. The decoder
-- recurses on the number of levels that the depth limit leaves, so the limit is its fuel, and running out
-- is the source's own error. Identifiers and indices are numbers; that they are below 2^32 is the
-- hypothesis `IsMachine` where the bytes depend on it. De Bruijn sums are plain in `bind_free`;
-- `Node.Checked` has the source's `checked_add`, which panics from 2^32 on.
--
-- Parameters. SHA-256 is a function argument; where keys must be 32 bytes, `IsDigest` says that its
-- digests are. The checker reads registered proofs and expansions through the record `ContextView`, for
-- a type `D` of defined formulas; `ArtifactState.Register.context_view` fills it for `DefinedFormula`.
-- `IsSoundView` states what the checker relies on: expansions are formulas, and registered formulas are
-- true; the artifact state is shown to give it. `IsBoundedView` states that the view does not panic and
-- that a header has the length of a formula. A statement that is stored as a graph on disk has a header
-- of the largest length instead, and a reference to it can panic.
--
-- Not modelled: the diagnostics added to errors, the read cache around a view, the byte codec and the
-- normal form of certificates, the decoder of definition certificates, the snapshot identity of the
-- artifact state, its form on disk, the incremental engine, questions but for the index,
-- authoring, replication and storage. The texts of mismatches and errors are for a reader. The libp2p
-- copies under vendor are other projects' code.
pub mod Prelude
pub mod Node
pub mod PersistentMap
pub mod Formula
pub mod Expression
pub mod Construction
pub mod Logic
pub mod Zfc
pub mod Semantics
pub mod Canonical
pub mod Comparison
pub mod Certificate
pub mod Checker
pub mod Defined
pub mod Identity
pub mod ArtifactState
pub mod Examples
