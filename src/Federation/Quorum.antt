-- ===== src/Federation/Quorum.antt =====
-- SignerQuorumConfig and quorum decisions: crates/runtime/icn-federation/src/quorum.rs, without the
-- test helpers that generate DIDs. A signer is its DID and its key pair; SHA-256 and f32 are
-- parameters, and `J` stands for serde_json::Value.
pub mod Decisions
mod Tests
use icn.Prelude.{
  ℕ, ◌+◌, ◌/◌, Option, none, String, List, [], ◌∷◌, Result, ok, err, if◌then◌else◌, ltb, length,
  contains, string_eq, map_err, Bool,
}
use icn.Prelude.Map.{Map}
use icn.Prelude.Floats.{Floats}
use icn.Identity.{Bytes, IdentityError, KeyPair, sign_message, QuorumConfig, QuorumProof, verify}

pub data QuorumType : Type 0 where
  majority : QuorumType
  threshold : ℕ → QuorumType
  unanimous : QuorumType
  weighted : Map String ℕ → ℕ → QuorumType

pub record SignerQuorumConfig (J : Type 0) : Type 0 where
  pub signers : List String
  pub quorum_type : QuorumType
  pub min_wait_time_seconds : Option ℕ
  pub additional_requirements : Option J

pub record Signer : Type 0 where
  pub did : String
  pub keypair : KeyPair

-- The errors of FederationError that the modelled code makes.
pub data FederationError : Type 0 where
  not_enough_signatures : ℕ → ℕ → FederationError
  failed_to_verify : IdentityError → FederationError

module _ {J : Type 0} where
  -- `SignerQuorumConfig::new`
  unfoldable pub new_config : QuorumType → List String → SignerQuorumConfig J
  new_config rule dids = record {
    signers = dids;
    quorum_type = rule;
    min_wait_time_seconds = none;
    additional_requirements = none;
  }

  unfoldable pub new_majority : List String → SignerQuorumConfig J
  new_majority dids = new_config majority dids

  unfoldable pub new_threshold : List String → ℕ → SignerQuorumConfig J
  new_threshold dids percentage =
      new_config (threshold (if ltb 100 percentage then 100 else percentage)) dids

  unfoldable pub new_unanimous : List String → SignerQuorumConfig J
  new_unanimous dids = new_config unanimous dids

  unfoldable pub create_quorum_config : List String → QuorumType → SignerQuorumConfig J
  create_quorum_config dids majority = new_majority dids
  create_quorum_config dids (threshold percentage) = new_threshold dids percentage
  create_quorum_config dids unanimous = new_unanimous dids
  create_quorum_config dids (weighted weights required) =
      new_config (weighted weights required) dids

-- The body of `to_quorum_config`. An IdentityId is its text.
unfoldable pub to_quorum_rule : QuorumType → QuorumConfig
to_quorum_rule majority = QuorumConfig.majority
to_quorum_rule (threshold percentage) = QuorumConfig.threshold percentage
to_quorum_rule unanimous = QuorumConfig.threshold 100
to_quorum_rule (weighted weights required) = QuorumConfig.weighted weights required

-- The body of `required_signatures`, for `total` signers.
unfoldable pub required_of : Floats → QuorumType → ℕ → ℕ
required_of fl majority total = total / 2 + 1
required_of fl (threshold percentage) total =
    let share = fl.div (fl.of_u64 percentage) (fl.of_u64 100) in
    fl.to_u64 (fl.ceil (fl.mul (fl.of_u64 total) share))
required_of fl unanimous total = total
required_of fl (weighted _ required) total = required

module _ {J : Type 0} where
  unfoldable pub to_quorum_config : SignerQuorumConfig J → QuorumConfig
  to_quorum_config c = to_quorum_rule c.quorum_type

  unfoldable pub required_signatures : Floats → SignerQuorumConfig J → ℕ
  required_signatures fl c = required_of fl c.quorum_type (length c.signers)

-- The loop of `create_quorum_proof`.
unfoldable pub collect_signatures :
    (Bytes → Bytes) → Bytes → List String → List Signer → List (String × Bytes)
collect_signatures sha256 action authorized [] = []
collect_signatures sha256 action authorized (s ∷ rest) =
    let signed = collect_signatures sha256 action authorized rest in
    if contains s.did authorized
    then (s.did, sign_message sha256 action s.keypair) ∷ signed
    else signed

module _ {J : Type 0} where
  unfoldable pub create_quorum_proof :
      Floats
      → (Bytes → Bytes)
      → Bytes
      → List Signer
      → SignerQuorumConfig J
      → Result FederationError QuorumProof
  create_quorum_proof fl sha256 action signers c =
      let signatures = collect_signatures sha256 action c.signers signers in
      let required = required_signatures fl c in
      if ltb (length signatures) required
      then err (not_enough_signatures (length signatures) required)
      else ok (record { votes = signatures; config = to_quorum_config c })

unfoldable pub verify_quorum_proof :
    Floats → QuorumProof → Bytes → List String → Result FederationError Bool
verify_quorum_proof fl proof content_hash member_dids =
    map_err failed_to_verify (verify fl content_hash member_dids proof)
