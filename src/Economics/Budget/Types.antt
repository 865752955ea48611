-- ===== src/Economics/Budget/Types.antt =====
-- Participatory budgets, their rules, proposals and votes (crates/runtime/icn-economics/src/lib.rs).
use icn.Prelude.{ℕ, Option, String}
use icn.Prelude.Int.{ℤ}
use icn.Prelude.Map.{Map}
use icn.Economics.Types.{IdentityScope, ResourceType, ProposalStatus}

pub data VotingMethod : Type 0 where
  simple_majority quadratic_voting threshold : VotingMethod

pub data VoteChoice : Type 0 where
  approve reject abstain : VoteChoice
  quadratic : ℕ → VoteChoice

pub record CategoryRule : Type 0 where
  pub min_allocation : Option ℕ
  pub max_allocation : Option ℕ
  pub description : Option String

pub record BudgetRulesConfig (J : Type 0) : Type 0 where
  pub voting_method : Option VotingMethod
  pub categories : Option (Map String CategoryRule)
  pub min_participants : Option ℕ
  pub quorum_percentage : Option ℕ
  pub threshold_percentage : Option ℕ
  pub custom_rules : Option J

pub record BudgetProposal (J : Type 0) : Type 0 where
  pub id : ℕ
  pub title : String
  pub description : String
  pub proposer_did : String
  pub requested_resources : Map ResourceType ℕ
  pub status : ProposalStatus
  pub category : Option String
  pub votes : Map String VoteChoice
  pub creation_timestamp : ℤ
  pub metadata : Option J

pub record ParticipatoryBudget (J : Type 0) : Type 0 where
  pub id : String
  pub name : String
  pub scope_id : String
  pub scope_type : IdentityScope
  pub total_allocated : Map ResourceType ℕ
  pub spent_by_proposal : Map ℕ (Map ResourceType ℕ)
  pub proposals : Map ℕ (BudgetProposal J)
  pub rules : Option (BudgetRulesConfig J)
  pub start_timestamp : ℤ
  pub end_timestamp : ℤ
