-- ===== src/Identity.antt =====
-- Signatures and quorum proofs: verify_signature, QuorumConfig and QuorumProof of
-- crates/runtime/icn-identity/src/lib.rs, and KeyPair of its keypair.rs. Bytes are a list of numbers,
-- a DID is its text, SHA-256 is a parameter, and f32 is taken as a `Floats` of its own.
pub mod Bundle
pub mod Counting
pub mod Majority
mod Tests
use icn.Prelude.{
  ℕ, ◌+◌, ◌-◌, ◌*◌, ◌%◌, Bool, true, false, not, ◌&&◌, Option, none, some, String, List, [], ◌∷◌,
  ◌++◌, Result, ok, err, if◌then◌else◌, ltb, leb, length, contains, ◌==◌, nat_eq, string_eq,
  u32_mod, add32,
}
use icn.Prelude.Map.{Map, get_or}
use icn.Prelude.Floats.{Floats}

abbrev pub Bytes : Type 0
Bytes = List ℕ

-- The verification errors that the modelled code makes.
pub data IdentityError : Type 0 where
  signature_too_short : ℕ → IdentityError
  test_invalid_signature : IdentityError
  -- the error of a vote in a quorum proof
  signature_verification : IdentityError → IdentityError
  outdated_epoch : ℕ → ℕ → IdentityError
  no_proof no_dag_roots : IdentityError
  duplicate_signer unauthorized_signer : String → IdentityError
  dag_check_failed : String → IdentityError

pub record KeyPair : Type 0 where
  pub private_key : Bytes
  pub public_key : Bytes

unfoldable pub new_keypair : Bytes → Bytes → KeyPair
new_keypair secret public = record { private_key = secret; public_key = public }

-- `KeyPair::sign`, which never fails
unfoldable pub sign : (Bytes → Bytes) → KeyPair → Bytes → Bytes
sign sha256 k message = sha256 (k.private_key ++ message)

unfoldable pub sign_message : (Bytes → Bytes) → Bytes → KeyPair → Bytes
sign_message sha256 message k = sign sha256 k (sha256 message)

unfoldable pub is_test_pattern : Bytes → Bool
is_test_pattern (a ∷ b ∷ c ∷ d ∷ _) = a == 1 && b == 2 && c == 3 && d == 4
is_test_pattern _ = false

-- Neither the message nor the key of the DID decides.
unfoldable pub verify_signature : Bytes → Bytes → String → Result IdentityError Bool
verify_signature message signature did =
    if ltb (length signature) 8
    then err (signature_too_short (length signature))
    else if is_test_pattern signature
    then err test_invalid_signature
    else ok true

pub data QuorumConfig : Type 0 where
  majority : QuorumConfig
  threshold : ℕ → QuorumConfig
  weighted : Map String ℕ → ℕ → QuorumConfig

pub record QuorumProof : Type 0 where
  -- the DID of the signer, and its signature of the content hash
  pub votes : List (String × Bytes)
  pub config : QuorumConfig

-- What the loop of `verify` has counted.
pub record Tally : Type 0 where
  pub valid_signatures : ℕ
  pub weighted_sum : ℕ
  pub verified_dids : List String

abbrev pub no_signatures : Tally
no_signatures = record { valid_signatures = 0; weighted_sum = 0; verified_dids = [] }

unfoldable pub weight_of : QuorumConfig → String → ℕ
weight_of (weighted weights _) did = get_or did 0 weights
weight_of _ did = 0

unfoldable pub count_signature : QuorumConfig → String → Tally → Tally
count_signature config did t = record {
  valid_signatures = add32 t.valid_signatures 1;
  weighted_sum = add32 t.weighted_sum (weight_of config did);
  verified_dids = did ∷ t.verified_dids;
}

-- One round of the loop.
unfoldable pub count_vote :
    QuorumConfig → Bytes → List String → String × Bytes → Tally → Result IdentityError Tally
count_vote config content_hash guardians vote t =
    if contains vote.0 t.verified_dids
    then ok t
    else if not (contains vote.0 guardians)
    then ok t
    else elim (verify_signature content_hash vote.1 vote.0) [
      | ok valid ↦ if valid then ok (count_signature config vote.0 t) else ok t
      | err e ↦ err (signature_verification e)
    ]

unfoldable pub count_votes :
    QuorumConfig → Bytes → List String → List (String × Bytes) → Tally → Result IdentityError Tally
count_votes config content_hash guardians [] t = ok t
count_votes config content_hash guardians (vote ∷ votes) t =
    elim (count_vote config content_hash guardians vote t) [
      | ok t' ↦ count_votes config content_hash guardians votes t'
      | err e ↦ err e
    ]

-- `(total as f32 * percentage).ceil() as u32`
unfoldable pub threshold_count : Floats → ℕ → ℕ → ℕ
threshold_count fl percentage total =
    let capped = if ltb 100 percentage then 100 else percentage in
    let share = fl.div (fl.of_u64 capped) (fl.of_u64 100) in
    let count = fl.to_u64 (fl.ceil (fl.mul (fl.of_u64 total) share)) in
    if ltb count u32_mod then count else u32_mod - 1

unfoldable pub meets_quorum : Floats → QuorumConfig → ℕ → Tally → Bool
meets_quorum fl majority total t = ltb total (t.valid_signatures * 2 % u32_mod)
meets_quorum fl (threshold percentage) total t =
    leb (threshold_count fl percentage total) t.valid_signatures
meets_quorum fl (weighted _ required) total t = leb required t.weighted_sum

unfoldable pub verify : Floats → Bytes → List String → QuorumProof → Result IdentityError Bool
verify fl content_hash guardians proof =
    elim (count_votes proof.config content_hash guardians proof.votes no_signatures) [
      | ok t ↦ ok (meets_quorum fl proof.config (length proof.votes % u32_mod) t)
      | err e ↦ err e
    ]
