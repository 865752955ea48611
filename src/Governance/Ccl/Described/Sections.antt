-- ===== src/Governance/Ccl/Described/Sections.antt =====
-- The sections of crates/runtime/icn-governance-kernel/src/lib.rs that Ccl/Sections models, described.
use mathlib.Core.List.{foldl}
use icn.Prelude.{◌≡◌, refl, ap, ◌∙◌, List, arith, string_eq}
use icn.Prelude.Floats.{Floats}
use icn.Governance.Config.{
  IdentityInfo, GovernanceStructure, ProposalProcess, ResourceAllocation, WorkingGroups,
  DisputeResolution,
}
use icn.Governance.Ccl.{CclPair}
use icn.Governance.Ccl.Reading.{
  as_string, as_number, as_u64, as_boolean, as_list, as_strings, as_object, as_record,
}
use icn.Governance.Ccl.Sections.{
  as_role, as_proposal_type, identity_step, no_identity, governance_step, no_structure,
  proposals_step, no_process, allocation_step, no_allocation, groups_step, no_groups,
  resolution_step, no_resolution,
}
use icn.Governance.Ccl.Described.{
  apart, last_read, declared, foldl-last_read_new, as_record-declared,
}

module _ {fl : Floats} where
  unfoldable pub declared_identity : List (CclPair fl) → IdentityInfo
  declared_identity ps = record {
    name = last_read "name" as_string ps;
    description = last_read "description" as_string ps;
    founding_date = last_read "founding_date" as_string ps;
    mission_statement = last_read "mission_statement" as_string ps;
  }

  pub identity_step-declared :
      (ps : List (CclPair fl)) → foldl identity_step no_identity ps ≡ declared_identity ps
  unfolding identity_step declared_identity
  identity_step-declared ps =
      let e1 =
        foldl-last_read_new (λ s. s.name) identity_step "name" as_string (λ s p. ground arith)
          no_identity ps refl in
      let e2 =
        foldl-last_read_new (λ s. s.description) identity_step "description" as_string
          (λ s p. ground (arith, apart p.key "name" "description" refl)) no_identity ps refl in
      let e3 =
        foldl-last_read_new (λ s. s.founding_date) identity_step "founding_date" as_string
          (λ s p. ground (
            arith,
            apart p.key "name" "founding_date" refl,
            apart p.key "description" "founding_date" refl,
          ))
          no_identity ps refl in
      let e4 =
        foldl-last_read_new (λ s. s.mission_statement) identity_step "mission_statement" as_string
          (λ s p. ground (
            arith,
            apart p.key "name" "mission_statement" refl,
            apart p.key "description" "mission_statement" refl,
            apart p.key "founding_date" "mission_statement" refl,
          ))
          no_identity ps refl in
      λ i. record {
        name = e1 i;
        description = e2 i;
        founding_date = e3 i;
        mission_statement = e4 i;
      }

  unfoldable pub declared_structure : List (CclPair fl) → GovernanceStructure fl
  declared_structure ps = record {
    decision_making = last_read "decision_making" as_string ps;
    quorum = last_read "quorum" as_number ps;
    majority = last_read "majority" as_number ps;
    term_length = last_read "term_length" as_u64 ps;
    roles = last_read "roles" (as_list as_role) ps;
  }

  pub governance_step-declared :
      (ps : List (CclPair fl)) → foldl governance_step no_structure ps ≡ declared_structure ps
  unfolding governance_step declared_structure
  governance_step-declared ps =
      let e1 =
        foldl-last_read_new (λ s. s.decision_making) governance_step "decision_making" as_string
          (λ s p. ground arith) no_structure ps refl in
      let e2 =
        foldl-last_read_new (λ s. s.quorum) governance_step "quorum" as_number
          (λ s p. ground (arith, apart p.key "decision_making" "quorum" refl)) no_structure ps
          refl in
      let e3 =
        foldl-last_read_new (λ s. s.majority) governance_step "majority" as_number
          (λ s p. ground (
            arith,
            apart p.key "decision_making" "majority" refl,
            apart p.key "quorum" "majority" refl,
          ))
          no_structure ps refl in
      let e4 =
        foldl-last_read_new (λ s. s.term_length) governance_step "term_length" as_u64
          (λ s p. ground (
            arith,
            apart p.key "decision_making" "term_length" refl,
            apart p.key "quorum" "term_length" refl,
            apart p.key "majority" "term_length" refl,
          ))
          no_structure ps refl in
      let e5 =
        foldl-last_read_new (λ s. s.roles) governance_step "roles" (as_list as_role)
          (λ s p. ground (
            arith,
            apart p.key "decision_making" "roles" refl,
            apart p.key "quorum" "roles" refl,
            apart p.key "majority" "roles" refl,
            apart p.key "term_length" "roles" refl,
          ))
          no_structure ps refl in
      λ i. record {
        decision_making = e1 i;
        quorum = e2 i;
        majority = e3 i;
        term_length = e4 i;
        roles = e5 i;
      }

  unfoldable pub declared_process : List (CclPair fl) → ProposalProcess fl
  declared_process ps = record { types = last_read "types" (as_list as_proposal_type) ps }

  pub proposals_step-declared :
      (ps : List (CclPair fl)) → foldl proposals_step no_process ps ≡ declared_process ps
  unfolding proposals_step declared_process
  proposals_step-declared ps =
      let e1 =
        foldl-last_read_new (λ s. s.types) proposals_step "types" (as_list as_proposal_type)
          (λ s p. ground arith) no_process ps refl in
      λ i. record { types = e1 i }

  unfoldable pub declared_allocation : List (CclPair fl) → ResourceAllocation
  declared_allocation ps = record {
    default_budget = last_read "default_budget" as_u64 ps;
    requires_approval = last_read "requires_approval" as_boolean ps;
  }

  pub allocation_step-declared :
      (ps : List (CclPair fl)) → foldl allocation_step no_allocation ps ≡ declared_allocation ps
  unfolding allocation_step declared_allocation
  allocation_step-declared ps =
      let e1 =
        foldl-last_read_new (λ s. s.default_budget) allocation_step "default_budget" as_u64
          (λ s p. ground arith) no_allocation ps refl in
      let e2 =
        foldl-last_read_new (λ s. s.requires_approval) allocation_step "requires_approval"
          as_boolean (λ s p. ground (arith, apart p.key "default_budget" "requires_approval" refl))
          no_allocation ps refl in
      λ i. record { default_budget = e1 i; requires_approval = e2 i }

  unfoldable pub declared_groups : List (CclPair fl) → WorkingGroups
  declared_groups ps = record {
    formation_threshold = last_read "formation_threshold" as_u64 ps;
    dissolution_threshold = last_read "dissolution_threshold" as_u64 ps;
    resource_allocation =
        last_read "resource_allocation" (λ v. declared declared_allocation (as_object v)) ps;
  }

  pub groups_step-declared :
      (ps : List (CclPair fl)) → foldl groups_step no_groups ps ≡ declared_groups ps
  unfolding groups_step declared_groups
  groups_step-declared ps =
      let e1 =
        foldl-last_read_new (λ s. s.formation_threshold) groups_step "formation_threshold" as_u64
          (λ s p. ground arith) no_groups ps refl in
      let e2 =
        foldl-last_read_new (λ s. s.dissolution_threshold) groups_step "dissolution_threshold"
          as_u64
          (λ s p. ground (arith, apart p.key "formation_threshold" "dissolution_threshold" refl))
          no_groups ps refl in
      let e3 =
        foldl-last_read_new (λ s. s.resource_allocation) groups_step "resource_allocation"
          (as_record allocation_step no_allocation)
          (λ s p. ground (
            arith,
            apart p.key "formation_threshold" "resource_allocation" refl,
            apart p.key "dissolution_threshold" "resource_allocation" refl,
          ))
          no_groups ps refl
        ∙ ap (λ r. last_read "resource_allocation" r ps)
            (λ i v.
              as_record-declared allocation_step no_allocation declared_allocation
                allocation_step-declared v i) in
      λ i. record {
        formation_threshold = e1 i;
        dissolution_threshold = e2 i;
        resource_allocation = e3 i;
      }

  unfoldable pub declared_resolution : List (CclPair fl) → DisputeResolution
  declared_resolution ps = record {
    process = last_read "process" as_strings ps;
    committee_size = last_read "committee_size" as_u64 ps;
  }

  pub resolution_step-declared :
      (ps : List (CclPair fl)) → foldl resolution_step no_resolution ps ≡ declared_resolution ps
  unfolding resolution_step declared_resolution
  resolution_step-declared ps =
      let e1 =
        foldl-last_read_new (λ s. s.process) resolution_step "process" as_strings
          (λ s p. ground arith) no_resolution ps refl in
      let e2 =
        foldl-last_read_new (λ s. s.committee_size) resolution_step "committee_size" as_u64
          (λ s p. ground (arith, apart p.key "process" "committee_size" refl)) no_resolution ps
          refl in
      λ i. record { process = e1 i; committee_size = e2 i }
