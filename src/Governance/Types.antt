-- ===== src/Governance/Types.antt =====
-- Proposals, votes, role credentials and errors of crates/runtime/icn-governance-kernel/src/lib.rs,
-- and the events of its events.rs. Timestamps are i64, an IdentityId is its text, and where an error
-- carries a text, the constructor carries what the text is made of.
use icn.Prelude.{ℕ, Bool, true, false, Option, String, List, ◌≡◌, ◌↔◌, arith, PartialEq}
use icn.Prelude.Int.{ℤ}
use icn.Identity.{Bytes}
use icn.Economics.Types.{IdentityScope}

pub data VoteChoice : Type 0 where
  for against abstain : VoteChoice

pub data ProposalStatus : Type 0 where
  draft active passed rejected executed expired finalized : ProposalStatus

unfoldable pub status_beq : ProposalStatus → ProposalStatus → Bool
status_beq draft draft = true
status_beq active active = true
status_beq passed passed = true
status_beq rejected rejected = true
status_beq executed executed = true
status_beq expired expired = true
status_beq finalized finalized = true
status_beq _ _ = false

pub status_beq_iff : (a b : ProposalStatus) → (status_beq a b ≡ true) ↔ (a ≡ b)
unfolding status_beq
status_beq_iff a b = (ground arith, ground arith)

instance abbrev pub status_eq : PartialEq ProposalStatus
status_eq = record { same = status_beq; same_iff = status_beq_iff }

pub record Proposal : Type 0 where
  pub title : String
  pub description : String
  pub proposer : String
  pub scope : IdentityScope
  pub scope_id : Option String
  pub status : ProposalStatus
  pub voting_end_time : ℤ
  pub votes_for : ℕ
  pub votes_against : ℕ
  pub votes_abstain : ℕ
  pub ccl_code : Option String
  pub wasm_bytes : Option Bytes
  pub thread_id : Option String

pub record Vote : Type 0 where
  pub voter : String
  pub proposal_id : String
  pub choice : VoteChoice
  pub weight : ℕ
  pub scope : IdentityScope
  pub scope_id : Option String
  pub reason : Option String
  pub timestamp : ℤ

pub record SignatureProof : Type 0 where
  pub signature_type : String
  pub signature_value : String
  pub created : ℤ
  pub verification_method : String
  pub purpose : String

pub record RoleAssignmentCredential : Type 0 where
  pub issuer : String
  pub subject : String
  pub issuance_date : ℤ
  pub expiration_date : Option ℤ
  pub scope_id : String
  pub scope_type : IdentityScope
  pub roles : List String
  pub proof : SignatureProof

pub record RoleAssignmentOptions : Type 0 where
  pub expiration_days : Option ℤ
  pub scope_type : Option IdentityScope
  pub store_in_dag : Bool

pub data GovernanceEventType : Type 0 where
  proposal_created vote_cast proposal_finalized proposal_executed : GovernanceEventType
  mandate_issued trust_bundle_created trust_bundle_updated config_updated : GovernanceEventType
  custom : String → GovernanceEventType

pub data EventStatus : Type 0 where
  success failed pending : EventStatus

-- The JSON data of the events that the kernel emits, by what it is made of.
pub data EventData : Type 0 where
  created_data : (title description proposer : String) → EventData
  vote_data : (voter : String) → VoteChoice → (weight : ℕ) → (reason : Option String) → EventData
  finalized_data :
      (title : String) → ProposalStatus → (votes_for votes_against votes_abstain : ℕ) → EventData
  executed_data : (title : String) → (execution_timestamp : ℤ) → EventData
  config_data : (scope_id config_type : String) → (timestamp : ℤ) → EventData

pub record GovernanceEvent : Type 0 where
  pub id : String
  pub event_type : GovernanceEventType
  pub timestamp : ℕ
  pub issuer : String
  pub scope : IdentityScope
  pub organization : Option String
  pub proposal_cid : Option String
  pub status : EventStatus
  pub event_data : EventData

-- What is wrong with a proposal, a vote or a credential.
pub data ProposalFault : Type 0 where
  no_scope_id : ProposalFault
  cannot_serialize cannot_deserialize : String → ProposalFault
  not_votable : ProposalStatus → ProposalFault
  no_config_for role_not_defined : String → ProposalFault
  no_roles_defined no_governance_structure : ProposalFault
  invalid_signature_encoding : String → ProposalFault
  not_self_issued : String → ProposalFault

-- What went wrong in the storage or with what is written to it.
pub data StorageFault : Type 0 where
  backend failed_to_deserialize failed_to_serialize : String → StorageFault

pub data GovernanceError : Type 0 where
  invalid_proposal : ProposalFault → GovernanceError
  unauthorized : (identity permission scope_id : String) → GovernanceError
  no_configuration : (scope_id : String) → GovernanceError
  storage_error : StorageFault → GovernanceError
  event_emission_error : StorageFault → GovernanceError
