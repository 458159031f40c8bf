-- ===== src/Identity.antt =====
-- crates/naome-proof/src/identity.rs: the content identities, digests of framed bytes. `sha256` is the
-- digest of the `sha2` crate; the calls of `update` are the concatenation of their arguments.
use naome.Prelude.{ℕ, Option, none, some, List, [], ◌∷◌, ◌++◌, length, ltb, if◌then◌else◌}
use naome.Canonical.Words.{to_be_bytes}

-- `naome:zfc`
abbrev pub foundation_id : List ℕ
foundation_id = 110 ∷ 97 ∷ 111 ∷ 109 ∷ 101 ∷ 58 ∷ 122 ∷ 102 ∷ 99 ∷ []

-- `naome:statement\0`
abbrev pub statement_domain : List ℕ
statement_domain =
    110 ∷ 97 ∷ 111 ∷ 109 ∷ 101 ∷ 58 ∷ 115 ∷ 116 ∷ 97 ∷ 116 ∷ 101 ∷ 109 ∷ 101 ∷ 110 ∷ 116 ∷ 0 ∷ []

-- `naome:proof\0`
abbrev pub proof_domain : List ℕ
proof_domain = 110 ∷ 97 ∷ 111 ∷ 109 ∷ 101 ∷ 58 ∷ 112 ∷ 114 ∷ 111 ∷ 111 ∷ 102 ∷ 0 ∷ []

-- `naome:artifact:proof:v0\0`
abbrev pub proof_artifact_domain : List ℕ
proof_artifact_domain =
    110 ∷ 97 ∷ 111 ∷ 109 ∷ 101 ∷ 58 ∷ 97 ∷ 114 ∷ 116 ∷ 105 ∷ 102 ∷ 97 ∷ 99 ∷ 116 ∷ 58 ∷ 112 ∷ 114
    ∷ 111 ∷ 111 ∷ 102 ∷ 58 ∷ 118 ∷ 48 ∷ 0 ∷ []

-- `naome:artifact:definition:v1\0`
abbrev pub definition_artifact_domain : List ℕ
definition_artifact_domain =
    110 ∷ 97 ∷ 111 ∷ 109 ∷ 101 ∷ 58 ∷ 97 ∷ 114 ∷ 116 ∷ 105 ∷ 102 ∷ 97 ∷ 99 ∷ 116 ∷ 58 ∷ 100 ∷ 101
    ∷ 102 ∷ 105 ∷ 110 ∷ 105 ∷ 116 ∷ 105 ∷ 111 ∷ 110 ∷ 58 ∷ 118 ∷ 49 ∷ 0 ∷ []

module _ (sha256 : List ℕ → List ℕ) where
  unfoldable pub scoped_hash : List ℕ → List ℕ → List ℕ → Option (List ℕ)
  unfolding to_be_bytes
  scoped_hash domain binding payload =
      if ltb (length payload) 4294967296
      then some (
          sha256 (
            domain
            ++ to_be_bytes (length foundation_id)
            ++ foundation_id
            ++ binding
            ++ to_be_bytes (length payload)
            ++ payload))
      else none

  unfoldable pub of_canonical_formula : List ℕ → Option (List ℕ)
  unfolding scoped_hash
  of_canonical_formula bytes = scoped_hash statement_domain [] bytes

  unfoldable pub of_canonical_certificate : List ℕ → List ℕ → Option (List ℕ)
  unfolding scoped_hash
  of_canonical_certificate statement bytes = scoped_hash proof_domain statement bytes

  unfoldable pub from_proof_id : List ℕ → List ℕ
  from_proof_id proof_id = sha256 (proof_artifact_domain ++ proof_id)

  unfoldable pub from_definition_id : List ℕ → List ℕ
  from_definition_id definition_id = sha256 (definition_artifact_domain ++ definition_id)
