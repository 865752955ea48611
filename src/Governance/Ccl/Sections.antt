-- ===== src/Governance/Ccl/Sections.antt =====
-- The sections of a CCL document: extract_identity_info, extract_governance_structure,
-- extract_proposal_process, extract_working_groups and extract_dispute_resolution of
-- crates/runtime/icn-governance-kernel/src/lib.rs. A section's loop is a fold of its step over the
-- pairs, and the record that the step changes holds the loop's variables.
use mathlib.Core.List.{foldl}
use icn.Prelude.{
  Bool, true, false, ◌||◌, Option, none, some, List, [], ◌++◌, if◌then◌else◌, unwrap_or, ◌==◌,
  string_eq,
}
use icn.Prelude.Floats.{Floats}
use icn.Governance.Config.{
  IdentityInfo, GovernanceStructure, Role, ProposalType, ProposalProcess, ResourceAllocation,
  WorkingGroups, DisputeResolution,
}
use icn.Governance.Ccl.{CclValue, CclPair}
use icn.Governance.Ccl.Reading.{
  newer, as_string, as_number, as_u64, as_boolean, as_array, as_list, as_strings, as_record,
  strings, extract_section,
}

abbrev pub no_identity : IdentityInfo
no_identity = record {
  name = none;
  description = none;
  founding_date = none;
  mission_statement = none;
}

abbrev pub no_role : Role
no_role = record { name = ""; permissions = [] }

abbrev pub no_allocation : ResourceAllocation
no_allocation = record { default_budget = none; requires_approval = none }

abbrev pub no_groups : WorkingGroups
no_groups = record {
  formation_threshold = none;
  dissolution_threshold = none;
  resource_allocation = none;
}

abbrev pub no_resolution : DisputeResolution
no_resolution = record { process = none; committee_size = none }

unfoldable pub is_some {ℓ} : {A : Type ℓ} → Option A → Bool
is_some none = false
is_some (some a) = true

module _ {fl : Floats} where
  abbrev pub no_structure : GovernanceStructure fl
  no_structure = record {
    decision_making = none;
    quorum = none;
    majority = none;
    term_length = none;
    roles = none;
  }

  abbrev pub no_type : ProposalType fl
  no_type = record {
    name = "";
    quorum_modifier = none;
    majority_modifier = none;
    discussion_period_days = none;
  }

  abbrev pub no_process : ProposalProcess fl
  no_process = record { types = none }

  unfoldable pub identity_step : IdentityInfo → CclPair fl → IdentityInfo
  identity_step i p =
      if p.key == "name"
      then record i { name = newer (as_string p.value) i.name }
      else if p.key == "description"
      then record i { description = newer (as_string p.value) i.description }
      else if p.key == "founding_date"
      then record i { founding_date = newer (as_string p.value) i.founding_date }
      else if p.key == "mission_statement"
      then record i { mission_statement = newer (as_string p.value) i.mission_statement }
      else i

  unfoldable pub extract_identity_info : List (CclPair fl) → Option IdentityInfo
  extract_identity_info pairs =
      let i = foldl identity_step no_identity pairs in
      if is_some i.name
        || (is_some i.description || (is_some i.founding_date || is_some i.mission_statement))
      then some i
      else none

  unfoldable pub role_step : Role → CclPair fl → Role
  role_step r p =
      if p.key == "name"
      then record r { name = unwrap_or (as_string p.value) r.name }
      else if p.key == "permissions"
      then record r {
        permissions = r.permissions ++ elim (as_array p.value) [ none ↦ [] | some vs ↦ strings vs ];
      }
      else r

  -- A role of the array `roles`, unless it is no object or has no name.
  unfoldable pub as_role : CclValue fl → Option Role
  as_role v = elim (as_record role_step no_role v) [
    | none ↦ none
    | some r ↦ if r.name == "" then none else some r
  ]

  unfoldable pub governance_step : GovernanceStructure fl → CclPair fl → GovernanceStructure fl
  governance_step g p =
      if p.key == "decision_making"
      then record g { decision_making = newer (as_string p.value) g.decision_making }
      else if p.key == "quorum"
      then record g { quorum = newer (as_number p.value) g.quorum }
      else if p.key == "majority"
      then record g { majority = newer (as_number p.value) g.majority }
      else if p.key == "term_length"
      then record g { term_length = newer (as_u64 p.value) g.term_length }
      else if p.key == "roles"
      then record g { roles = newer (as_list as_role p.value) g.roles }
      else g

  unfoldable pub extract_governance_structure : List (CclPair fl) → Option (GovernanceStructure fl)
  extract_governance_structure pairs =
      extract_section "governance" governance_step no_structure pairs

  unfoldable pub proposal_type_step : ProposalType fl → CclPair fl → ProposalType fl
  proposal_type_step t p =
      if p.key == "name"
      then record t { name = unwrap_or (as_string p.value) t.name }
      else if p.key == "quorum_modifier"
      then record t { quorum_modifier = newer (as_number p.value) t.quorum_modifier }
      else if p.key == "majority_modifier"
      then record t { majority_modifier = newer (as_number p.value) t.majority_modifier }
      else if p.key == "discussion_period_days"
      then record t { discussion_period_days = newer (as_u64 p.value) t.discussion_period_days }
      else t

  unfoldable pub as_proposal_type : CclValue fl → Option (ProposalType fl)
  as_proposal_type v = elim (as_record proposal_type_step no_type v) [
    | none ↦ none
    | some t ↦ if t.name == "" then none else some t
  ]

  unfoldable pub proposals_step : ProposalProcess fl → CclPair fl → ProposalProcess fl
  proposals_step pr p =
      if p.key == "types"
      then record pr { types = newer (as_list as_proposal_type p.value) pr.types }
      else pr

  unfoldable pub extract_proposal_process : List (CclPair fl) → Option (ProposalProcess fl)
  extract_proposal_process pairs = extract_section "proposals" proposals_step no_process pairs

  unfoldable pub allocation_step : ResourceAllocation → CclPair fl → ResourceAllocation
  allocation_step r p =
      if p.key == "default_budget"
      then record r { default_budget = newer (as_u64 p.value) r.default_budget }
      else if p.key == "requires_approval"
      then record r { requires_approval = newer (as_boolean p.value) r.requires_approval }
      else r

  unfoldable pub groups_step : WorkingGroups → CclPair fl → WorkingGroups
  groups_step g p =
      if p.key == "formation_threshold"
      then record g { formation_threshold = newer (as_u64 p.value) g.formation_threshold }
      else if p.key == "dissolution_threshold"
      then record g { dissolution_threshold = newer (as_u64 p.value) g.dissolution_threshold }
      else if p.key == "resource_allocation"
      then record g {
        resource_allocation =
            newer (as_record allocation_step no_allocation p.value) g.resource_allocation;
      }
      else g

  unfoldable pub extract_working_groups : List (CclPair fl) → Option WorkingGroups
  extract_working_groups pairs = extract_section "working_groups" groups_step no_groups pairs

  unfoldable pub resolution_step : DisputeResolution → CclPair fl → DisputeResolution
  resolution_step d p =
      if p.key == "process"
      then record d { process = newer (as_strings p.value) d.process }
      else if p.key == "committee_size"
      then record d { committee_size = newer (as_u64 p.value) d.committee_size }
      else d

  unfoldable pub extract_dispute_resolution : List (CclPair fl) → Option DisputeResolution
  extract_dispute_resolution pairs =
      extract_section "dispute_resolution" resolution_step no_resolution pairs
