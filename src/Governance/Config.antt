-- ===== src/Governance/Config.antt =====
-- GovernanceConfig and its parts: crates/runtime/icn-governance-kernel/src/config.rs. The numbers of
-- type f64 are those of a `Floats`. BudgetConfig is not modelled.
use icn.Prelude.{ℕ, Bool, Option, String, List}
use icn.Prelude.Map.{Map}
use icn.Prelude.Floats.{Floats}
use icn.Economics.Types.{IdentityScope}

pub record IdentityInfo : Type 0 where
  pub name : Option String
  pub description : Option String
  pub founding_date : Option String
  pub mission_statement : Option String

pub record Role : Type 0 where
  pub name : String
  pub permissions : List String

pub record GovernanceStructure (fl : Floats) : Type 0 where
  pub decision_making : Option String
  pub quorum : Option fl.F
  pub majority : Option fl.F
  pub term_length : Option ℕ
  pub roles : Option (List Role)

pub record Onboarding : Type 0 where
  pub requires_sponsor : Option Bool
  pub trial_period_days : Option ℕ
  pub requirements : Option (List String)

pub record DuesOption : Type 0 where
  pub amount : ℕ
  pub description : String

pub record Dues : Type 0 where
  pub amount : Option ℕ
  pub frequency : Option String
  pub variable_options : Option (List DuesOption)

pub record Offboarding : Type 0 where
  pub notice_period_days : Option ℕ
  pub max_inactive_days : Option ℕ

pub record MembershipRules : Type 0 where
  pub onboarding : Option Onboarding
  pub dues : Option Dues
  pub offboarding : Option Offboarding

pub record ProposalType (fl : Floats) : Type 0 where
  pub name : String
  pub quorum_modifier : Option fl.F
  pub majority_modifier : Option fl.F
  pub discussion_period_days : Option ℕ

pub record ProposalProcess (fl : Floats) : Type 0 where
  pub types : Option (List (ProposalType fl))

pub record ResourceAllocation : Type 0 where
  pub default_budget : Option ℕ
  pub requires_approval : Option Bool

pub record WorkingGroups : Type 0 where
  pub formation_threshold : Option ℕ
  pub dissolution_threshold : Option ℕ
  pub resource_allocation : Option ResourceAllocation

pub record DisputeResolution : Type 0 where
  pub process : Option (List String)
  pub committee_size : Option ℕ

pub record CompensationPolicy : Type 0 where
  pub hourly_rates : Option (Map String ℕ)
  pub track_hours : Option Bool
  pub volunteer_options : Option Bool

pub record EconomicModel : Type 0 where
  pub surplus_distribution : Option String
  pub compensation_policy : Option CompensationPolicy

pub record GovernanceConfig (fl : Floats) : Type 0 where
  pub template_type : String
  pub template_version : String
  pub governing_scope : IdentityScope
  pub identity : Option IdentityInfo
  pub governance : Option (GovernanceStructure fl)
  pub membership : Option MembershipRules
  pub proposals : Option (ProposalProcess fl)
  pub working_groups : Option WorkingGroups
  pub dispute_resolution : Option DisputeResolution
  pub economic_model : Option EconomicModel
