-- ===== src/Governance/Ccl/Tests.antt =====
-- Documents for the interpreter of crates/runtime/icn-governance-kernel/src/lib.rs, and witnesses.
use mathlib.Core.List.{filter_map}
use icn.Prelude.{
  ℕ, if◌then◌else◌, ◌==◌, string_eq, ◌≡◌, ◌↔◌, refl, true, none, some, String, [], ◌∷◌, Result, ok,
  err,
}
use icn.Prelude.Floats.{fractions}
use icn.Economics.Types.{community, cooperative}
use icn.Economics.Policy.{scope_beq}
use icn.Governance.Config.{GovernanceConfig}
use icn.Governance.Ccl.{
  CclValue, string, number, boolean, object, array, Pairs, no_pairs, pair, no_values, value,
  CclRoot, pairs_of, values_of,
}
use icn.Governance.Ccl.Reading.{
  newer, unless_empty, as_string, as_number, as_u64, as_object, as_array, strings, as_list,
  as_record, extract_section,
}
use icn.Governance.Ccl.Sections.{
  is_some, identity_step, extract_identity_info, role_step, as_role, governance_step,
  extract_governance_structure, extract_proposal_process, extract_working_groups,
  extract_dispute_resolution,
}
use icn.Governance.Ccl.Membership.{
  onboarding_step, membership_step, extract_membership_rules, extract_economic_model,
}
use icn.Governance.Ccl.Interpret.{
  invalid_template_for_scope, unsupported_template_version, type_mismatch, syntax_error,
  missing_required_field, split, split_once, template_of, check_scope, check_version, check_pairs,
  check_object, check_quorum, check_types, check_onboarding, check_trial, build_config, require,
  validate_required_fields, interpret_root, interpret_ccl,
}
use icn.Governance.Ccl.Accepted.{IsInterpretation, interpret_ccl_iff}
use icn.Governance.Ccl.Described.Config.{declared_config, build_config-declared_config}

abbrev num : (n d : ℕ) → CclValue fractions
num n d = number (record { num = n; den = d })

abbrev a_role : Pairs fractions
a_role = pair "name" (string "member") (
    pair "permissions" (array (value (string "vote_on_proposals") (value (num 1 1) no_values)))
      no_pairs)

abbrev governance : Pairs fractions
governance = pair "quorum" (num 1 2) (
    pair "roles" (array (value (object a_role) (value (object no_pairs) no_values)))
      (pair "quorum" (num 2 3) (pair "term_length" (string "one year") no_pairs)))

abbrev onboarding : CclValue fractions → Pairs fractions
onboarding days = pair "onboarding" (object (pair "trial_period_days" days no_pairs)) no_pairs

abbrev sections : CclValue fractions → Pairs fractions
sections days = pair "name" (string "Our coop") (
    pair "governance" (string "none yet") (
      pair "governance" (object governance)
        (pair "membership" (object (onboarding days)) no_pairs)))

abbrev document : String → CclValue fractions → CclRoot fractions
document template days = record { template_type = template; content = object (sections days) }

-- A parser that reads one text.
abbrev parse : CclRoot fractions → String → Result String (CclRoot fractions)
parse root text = if text == "document" then ok root else err "expected a template"

abbrev coop : GovernanceConfig fractions
coop = record {
  template_type = "coop_bylaws";
  template_version = "v2";
  governing_scope = cooperative;
  identity = some (record {
    name = some "Our coop";
    description = none;
    founding_date = none;
    mission_statement = none;
  });
  governance = some (record {
    decision_making = none;
    quorum = some (record { num = 2; den = 3 });
    majority = none;
    term_length = none;
    roles = some (record { name = "member"; permissions = "vote_on_proposals" ∷ [] } ∷ []);
  });
  membership = some (record {
    onboarding =
        some (record { requires_sponsor = none; trial_period_days = some 90; requirements = none });
    dues = none;
    offboarding = none;
  });
  proposals = none;
  working_groups = none;
  dispute_resolution = none;
  economic_model = none;
}

-- The last quorum counts, a role without a name and a term that is a text are left out.
interprets_bylaws :
    interpret_ccl (parse (document "coop_bylaws:v2" (num 90 1))) "document" cooperative ≡ ok coop
unfolding interpret_ccl interpret_root template_of split split_once check_scope scope_beq
    check_version check_pairs check_object check_quorum check_types check_onboarding check_trial
    as_object pairs_of values_of build_config extract_identity_info identity_step is_some
    extract_section as_record governance_step newer as_string as_number as_u64 as_list as_array
    as_role role_step strings filter_map unless_empty extract_governance_structure
    extract_proposal_process extract_working_groups extract_dispute_resolution
    extract_membership_rules membership_step onboarding_step extract_economic_model
    validate_required_fields require
interprets_bylaws = refl

refuses_documents :
    (interpret_ccl (parse (document "coop_bylaws" (num 90 1))) "document" community
      ≡ err (invalid_template_for_scope "coop_bylaws" community))
    × (interpret_ccl (parse (document "coop_bylaws:v3" (num 90 1))) "document" cooperative
        ≡ err (unsupported_template_version "coop_bylaws:v3" "v3"))
    × (interpret_ccl (parse (document "coop_bylaws" (boolean true))) "document" cooperative
        ≡ err (type_mismatch "trial_period_days" "integer" "boolean"))
    × (interpret_ccl (parse (document "budget_proposal" (num 90 1))) "document" cooperative
        ≡ err (missing_required_field "economic_model section is required for budget_proposal"))
    × (interpret_ccl (parse (document "coop_bylaws" (num 90 1))) "" cooperative
        ≡ err (syntax_error "expected a template"))
unfolding interpret_ccl interpret_root template_of split split_once check_scope scope_beq
    check_version check_pairs check_object check_quorum check_types check_onboarding check_trial
    as_object pairs_of build_config validate_required_fields require extract_economic_model
    extract_section
refuses_documents = (refl, refl, refl, refl, refl)

interpret_ccl_iff_example :
    (interpret_ccl (parse (document "coop_bylaws:v2" (num 90 1))) "document" cooperative ≡ ok coop)
    ↔ IsInterpretation (parse (document "coop_bylaws:v2" (num 90 1))) "document" cooperative coop
interpret_ccl_iff_example =
    interpret_ccl_iff (parse (document "coop_bylaws:v2" (num 90 1))) "document" cooperative coop

build_config-declared_config_example :
    build_config "coop_bylaws" "v2" cooperative (pairs_of (sections (num 90 1)))
    ≡ declared_config "coop_bylaws" "v2" cooperative (pairs_of (sections (num 90 1)))
build_config-declared_config_example =
    build_config-declared_config "coop_bylaws" "v2" cooperative (pairs_of (sections (num 90 1)))
