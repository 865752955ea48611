-- ===== src/Governance/Ccl/Membership.antt =====
-- The membership and the economic section of a CCL document: extract_membership_rules and
-- extract_economic_model of crates/runtime/icn-governance-kernel/src/lib.rs.
use mathlib.Core.List.{foldl}
use icn.Prelude.{ℕ, Option, none, some, String, List, [], if◌then◌else◌, unwrap_or, ◌==◌, string_eq}
use icn.Prelude.Map.{Map, insert}
use icn.Prelude.Floats.{Floats}
use icn.Governance.Config.{
  Onboarding, DuesOption, Dues, Offboarding, MembershipRules, CompensationPolicy, EconomicModel,
}
use icn.Governance.Ccl.{CclValue, CclPair}
use icn.Governance.Ccl.Reading.{
  newer, unless_empty, as_string, as_u64, as_boolean, as_object, as_list, as_strings, as_record,
  extract_section,
}

abbrev pub no_onboarding : Onboarding
no_onboarding = record { requires_sponsor = none; trial_period_days = none; requirements = none }

abbrev pub no_option : DuesOption
no_option = record { amount = 0; description = "" }

abbrev pub no_dues : Dues
no_dues = record { amount = none; frequency = none; variable_options = none }

abbrev pub no_offboarding : Offboarding
no_offboarding = record { notice_period_days = none; max_inactive_days = none }

abbrev pub no_rules : MembershipRules
no_rules = record { onboarding = none; dues = none; offboarding = none }

abbrev pub no_policy : CompensationPolicy
no_policy = record { hourly_rates = none; track_hours = none; volunteer_options = none }

abbrev pub no_model : EconomicModel
no_model = record { surplus_distribution = none; compensation_policy = none }

module _ {fl : Floats} where
  unfoldable pub onboarding_step : Onboarding → CclPair fl → Onboarding
  onboarding_step o p =
      if p.key == "requires_sponsor"
      then record o { requires_sponsor = newer (as_boolean p.value) o.requires_sponsor }
      else if p.key == "trial_period_days"
      then record o { trial_period_days = newer (as_u64 p.value) o.trial_period_days }
      else if p.key == "requirements"
      then record o { requirements = newer (as_strings p.value) o.requirements }
      else o

  unfoldable pub option_step : DuesOption → CclPair fl → DuesOption
  option_step o p =
      if p.key == "amount"
      then record o { amount = unwrap_or (as_u64 p.value) o.amount }
      else if p.key == "description"
      then record o { description = unwrap_or (as_string p.value) o.description }
      else o

  unfoldable pub as_dues_option : CclValue fl → Option DuesOption
  as_dues_option v = elim (as_record option_step no_option v) [
    | none ↦ none
    | some o ↦ if o.description == "" then none else some o
  ]

  unfoldable pub dues_step : Dues → CclPair fl → Dues
  dues_step d p =
      if p.key == "amount"
      then record d { amount = newer (as_u64 p.value) d.amount }
      else if p.key == "frequency"
      then record d { frequency = newer (as_string p.value) d.frequency }
      else if p.key == "variable_options"
      then record d { variable_options = newer (as_list as_dues_option p.value) d.variable_options }
      else d

  unfoldable pub offboarding_step : Offboarding → CclPair fl → Offboarding
  offboarding_step o p =
      if p.key == "notice_period_days"
      then record o { notice_period_days = newer (as_u64 p.value) o.notice_period_days }
      else if p.key == "max_inactive_days"
      then record o { max_inactive_days = newer (as_u64 p.value) o.max_inactive_days }
      else o

  unfoldable pub membership_step : MembershipRules → CclPair fl → MembershipRules
  membership_step m p =
      if p.key == "onboarding"
      then record m {
        onboarding = newer (as_record onboarding_step no_onboarding p.value) m.onboarding;
      }
      else if p.key == "dues"
      then record m { dues = newer (as_record dues_step no_dues p.value) m.dues }
      else if p.key == "offboarding"
      then record m {
        offboarding = newer (as_record offboarding_step no_offboarding p.value) m.offboarding;
      }
      else m

  unfoldable pub extract_membership_rules : List (CclPair fl) → Option MembershipRules
  extract_membership_rules pairs = extract_section "membership" membership_step no_rules pairs

  unfoldable pub rate_step : Map String ℕ → CclPair fl → Map String ℕ
  rate_step rates p = elim (as_u64 p.value) [ none ↦ rates | some n ↦ insert p.key n rates ]

  unfoldable pub as_rates : CclValue fl → Option (Map String ℕ)
  as_rates v = elim (as_object v) [ none ↦ none | some ps ↦ unless_empty (foldl rate_step [] ps) ]

  unfoldable pub policy_step : CompensationPolicy → CclPair fl → CompensationPolicy
  policy_step c p =
      if p.key == "hourly_rates"
      then record c { hourly_rates = newer (as_rates p.value) c.hourly_rates }
      else if p.key == "track_hours"
      then record c { track_hours = newer (as_boolean p.value) c.track_hours }
      else if p.key == "volunteer_options"
      then record c { volunteer_options = newer (as_boolean p.value) c.volunteer_options }
      else c

  unfoldable pub economic_step : EconomicModel → CclPair fl → EconomicModel
  economic_step m p =
      if p.key == "surplus_distribution"
      then record m { surplus_distribution = newer (as_string p.value) m.surplus_distribution }
      else if p.key == "compensation_policy"
      then record m {
        compensation_policy = newer (as_record policy_step no_policy p.value) m.compensation_policy;
      }
      else m

  unfoldable pub extract_economic_model : List (CclPair fl) → Option EconomicModel
  extract_economic_model pairs = extract_section "economic_model" economic_step no_model pairs
