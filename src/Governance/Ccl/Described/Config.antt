-- ===== src/Governance/Ccl/Described/Config.antt =====
-- The configuration that CclInterpreter::interpret_ccl of
-- crates/runtime/icn-governance-kernel/src/lib.rs builds, described.
use icn.Prelude.{◌≡◌, ap, ◌||◌, Option, none, some, String, List, if◌then◌else◌}
use icn.Prelude.Floats.{Floats}
use icn.Economics.Types.{IdentityScope}
use icn.Governance.Config.{GovernanceConfig, IdentityInfo}
use icn.Governance.Ccl.{CclPair}
use icn.Governance.Ccl.Sections.{
  is_some, extract_identity_info, governance_step, no_structure, extract_governance_structure,
  proposals_step, no_process, extract_proposal_process, groups_step, no_groups,
  extract_working_groups, resolution_step, no_resolution, extract_dispute_resolution,
}
use icn.Governance.Ccl.Membership.{
  membership_step, no_rules, extract_membership_rules, economic_step, no_model,
  extract_economic_model,
}
use icn.Governance.Ccl.Interpret.{build_config}
use icn.Governance.Ccl.Described.{declared, first_object, extract_section-first_object}
use icn.Governance.Ccl.Described.Sections.{
  declared_identity, identity_step-declared, declared_structure, governance_step-declared,
  declared_process, proposals_step-declared, declared_groups, groups_step-declared,
  declared_resolution, resolution_step-declared,
}
use icn.Governance.Ccl.Described.Membership.{
  declared_rules, membership_step-declared, declared_model, economic_step-declared,
}

-- An identity is declared if one of its fields is.
unfoldable pub unless_absent : IdentityInfo → Option IdentityInfo
unless_absent i =
    if is_some i.name
      || (is_some i.description || (is_some i.founding_date || is_some i.mission_statement))
    then some i
    else none

module _ {fl : Floats} where
  -- Every section by itself: the first object under its name, and in it the last value of the right
  -- type under each key.
  unfoldable pub declared_config :
      (kind version : String) → IdentityScope → List (CclPair fl) → GovernanceConfig fl
  declared_config kind version scope pairs = record {
    template_type = kind;
    template_version = version;
    governing_scope = scope;
    identity = unless_absent (declared_identity pairs);
    governance = declared declared_structure (first_object "governance" pairs);
    membership = declared declared_rules (first_object "membership" pairs);
    proposals = declared declared_process (first_object "proposals" pairs);
    working_groups = declared declared_groups (first_object "working_groups" pairs);
    dispute_resolution = declared declared_resolution (first_object "dispute_resolution" pairs);
    economic_model = declared declared_model (first_object "economic_model" pairs);
  }

  -- The loops of the interpreter build the configuration that the document declares: in each section
  -- every field is the last value of the right type under its key, whatever stands under the others.
  pub build_config-declared_config :
      (kind version : String) (scope : IdentityScope) (pairs : List (CclPair fl))
      → build_config kind version scope pairs ≡ declared_config kind version scope pairs
  unfolding build_config declared_config extract_identity_info extract_governance_structure
      extract_proposal_process extract_working_groups extract_dispute_resolution
      extract_membership_rules extract_economic_model unless_absent
  build_config-declared_config kind version scope pairs =
      let e1 = ap unless_absent (identity_step-declared pairs) in
      let e2 =
        extract_section-first_object governance_step no_structure declared_structure
          governance_step-declared "governance" pairs in
      let e3 =
        extract_section-first_object membership_step no_rules declared_rules
          membership_step-declared "membership" pairs in
      let e4 =
        extract_section-first_object proposals_step no_process declared_process
          proposals_step-declared "proposals" pairs in
      let e5 =
        extract_section-first_object groups_step no_groups declared_groups groups_step-declared
          "working_groups" pairs in
      let e6 =
        extract_section-first_object resolution_step no_resolution declared_resolution
          resolution_step-declared "dispute_resolution" pairs in
      let e7 =
        extract_section-first_object economic_step no_model declared_model economic_step-declared
          "economic_model" pairs in
      λ i. record {
        template_type = kind;
        template_version = version;
        governing_scope = scope;
        identity = e1 i;
        governance = e2 i;
        membership = e3 i;
        proposals = e4 i;
        working_groups = e5 i;
        dispute_resolution = e6 i;
        economic_model = e7 i;
      }
