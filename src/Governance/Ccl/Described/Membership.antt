-- ===== src/Governance/Ccl/Described/Membership.antt =====
-- The sections of crates/runtime/icn-governance-kernel/src/lib.rs that Ccl/Membership models, described.
use mathlib.Core.List.{foldl}
use icn.Prelude.{◌≡◌, refl, ap, ◌∙◌, List, arith, string_eq}
use icn.Prelude.Floats.{Floats}
use icn.Governance.Config.{
  Onboarding, Dues, Offboarding, MembershipRules, CompensationPolicy, EconomicModel,
}
use icn.Governance.Ccl.{CclPair}
use icn.Governance.Ccl.Reading.{
  as_string, as_u64, as_boolean, as_list, as_strings, as_object, as_record,
}
use icn.Governance.Ccl.Membership.{
  as_dues_option, as_rates, onboarding_step, no_onboarding, dues_step, no_dues, offboarding_step,
  no_offboarding, membership_step, no_rules, policy_step, no_policy, economic_step, no_model,
}
use icn.Governance.Ccl.Described.{
  apart, last_read, declared, foldl-last_read_new, as_record-declared,
}

module _ {fl : Floats} where
  unfoldable pub declared_onboarding : List (CclPair fl) → Onboarding
  declared_onboarding ps = record {
    requires_sponsor = last_read "requires_sponsor" as_boolean ps;
    trial_period_days = last_read "trial_period_days" as_u64 ps;
    requirements = last_read "requirements" as_strings ps;
  }

  pub onboarding_step-declared :
      (ps : List (CclPair fl)) → foldl onboarding_step no_onboarding ps ≡ declared_onboarding ps
  unfolding onboarding_step declared_onboarding
  onboarding_step-declared ps =
      let e1 =
        foldl-last_read_new (λ s. s.requires_sponsor) onboarding_step "requires_sponsor" as_boolean
          (λ s p. ground arith) no_onboarding ps refl in
      let e2 =
        foldl-last_read_new (λ s. s.trial_period_days) onboarding_step "trial_period_days" as_u64
          (λ s p. ground (arith, apart p.key "requires_sponsor" "trial_period_days" refl))
          no_onboarding ps refl in
      let e3 =
        foldl-last_read_new (λ s. s.requirements) onboarding_step "requirements" as_strings
          (λ s p. ground (
            arith,
            apart p.key "requires_sponsor" "requirements" refl,
            apart p.key "trial_period_days" "requirements" refl,
          ))
          no_onboarding ps refl in
      λ i. record { requires_sponsor = e1 i; trial_period_days = e2 i; requirements = e3 i }

  unfoldable pub declared_dues : List (CclPair fl) → Dues
  declared_dues ps = record {
    amount = last_read "amount" as_u64 ps;
    frequency = last_read "frequency" as_string ps;
    variable_options = last_read "variable_options" (as_list as_dues_option) ps;
  }

  pub dues_step-declared : (ps : List (CclPair fl)) → foldl dues_step no_dues ps ≡ declared_dues ps
  unfolding dues_step declared_dues
  dues_step-declared ps =
      let e1 =
        foldl-last_read_new (λ s. s.amount) dues_step "amount" as_u64 (λ s p. ground arith) no_dues
          ps refl in
      let e2 =
        foldl-last_read_new (λ s. s.frequency) dues_step "frequency" as_string
          (λ s p. ground (arith, apart p.key "amount" "frequency" refl)) no_dues ps refl in
      let e3 =
        foldl-last_read_new (λ s. s.variable_options) dues_step "variable_options"
          (as_list as_dues_option)
          (λ s p. ground (
            arith,
            apart p.key "amount" "variable_options" refl,
            apart p.key "frequency" "variable_options" refl,
          ))
          no_dues ps refl in
      λ i. record { amount = e1 i; frequency = e2 i; variable_options = e3 i }

  unfoldable pub declared_offboarding : List (CclPair fl) → Offboarding
  declared_offboarding ps = record {
    notice_period_days = last_read "notice_period_days" as_u64 ps;
    max_inactive_days = last_read "max_inactive_days" as_u64 ps;
  }

  pub offboarding_step-declared :
      (ps : List (CclPair fl)) → foldl offboarding_step no_offboarding ps ≡ declared_offboarding ps
  unfolding offboarding_step declared_offboarding
  offboarding_step-declared ps =
      let e1 =
        foldl-last_read_new (λ s. s.notice_period_days) offboarding_step "notice_period_days" as_u64
          (λ s p. ground arith) no_offboarding ps refl in
      let e2 =
        foldl-last_read_new (λ s. s.max_inactive_days) offboarding_step "max_inactive_days" as_u64
          (λ s p. ground (arith, apart p.key "notice_period_days" "max_inactive_days" refl))
          no_offboarding ps refl in
      λ i. record { notice_period_days = e1 i; max_inactive_days = e2 i }

  unfoldable pub declared_rules : List (CclPair fl) → MembershipRules
  declared_rules ps = record {
    onboarding = last_read "onboarding" (λ v. declared declared_onboarding (as_object v)) ps;
    dues = last_read "dues" (λ v. declared declared_dues (as_object v)) ps;
    offboarding = last_read "offboarding" (λ v. declared declared_offboarding (as_object v)) ps;
  }

  pub membership_step-declared :
      (ps : List (CclPair fl)) → foldl membership_step no_rules ps ≡ declared_rules ps
  unfolding membership_step declared_rules
  membership_step-declared ps =
      let e1 =
        foldl-last_read_new (λ s. s.onboarding) membership_step "onboarding"
          (as_record onboarding_step no_onboarding) (λ s p. ground arith) no_rules ps refl
        ∙ ap (λ r. last_read "onboarding" r ps)
            (λ i v.
              as_record-declared onboarding_step no_onboarding declared_onboarding
                onboarding_step-declared v i) in
      let e2 =
        foldl-last_read_new (λ s. s.dues) membership_step "dues" (as_record dues_step no_dues)
          (λ s p. ground (arith, apart p.key "onboarding" "dues" refl)) no_rules ps refl
        ∙ ap (λ r. last_read "dues" r ps)
            (λ i v. as_record-declared dues_step no_dues declared_dues dues_step-declared v i) in
      let e3 =
        foldl-last_read_new (λ s. s.offboarding) membership_step "offboarding"
          (as_record offboarding_step no_offboarding)
          (λ s p. ground (
            arith,
            apart p.key "onboarding" "offboarding" refl,
            apart p.key "dues" "offboarding" refl,
          ))
          no_rules ps refl
        ∙ ap (λ r. last_read "offboarding" r ps)
            (λ i v.
              as_record-declared offboarding_step no_offboarding declared_offboarding
                offboarding_step-declared v i) in
      λ i. record { onboarding = e1 i; dues = e2 i; offboarding = e3 i }

  unfoldable pub declared_policy : List (CclPair fl) → CompensationPolicy
  declared_policy ps = record {
    hourly_rates = last_read "hourly_rates" as_rates ps;
    track_hours = last_read "track_hours" as_boolean ps;
    volunteer_options = last_read "volunteer_options" as_boolean ps;
  }

  pub policy_step-declared :
      (ps : List (CclPair fl)) → foldl policy_step no_policy ps ≡ declared_policy ps
  unfolding policy_step declared_policy
  policy_step-declared ps =
      let e1 =
        foldl-last_read_new (λ s. s.hourly_rates) policy_step "hourly_rates" as_rates
          (λ s p. ground arith) no_policy ps refl in
      let e2 =
        foldl-last_read_new (λ s. s.track_hours) policy_step "track_hours" as_boolean
          (λ s p. ground (arith, apart p.key "hourly_rates" "track_hours" refl)) no_policy ps
          refl in
      let e3 =
        foldl-last_read_new (λ s. s.volunteer_options) policy_step "volunteer_options" as_boolean
          (λ s p. ground (
            arith,
            apart p.key "hourly_rates" "volunteer_options" refl,
            apart p.key "track_hours" "volunteer_options" refl,
          ))
          no_policy ps refl in
      λ i. record { hourly_rates = e1 i; track_hours = e2 i; volunteer_options = e3 i }

  unfoldable pub declared_model : List (CclPair fl) → EconomicModel
  declared_model ps = record {
    surplus_distribution = last_read "surplus_distribution" as_string ps;
    compensation_policy =
        last_read "compensation_policy" (λ v. declared declared_policy (as_object v)) ps;
  }

  pub economic_step-declared :
      (ps : List (CclPair fl)) → foldl economic_step no_model ps ≡ declared_model ps
  unfolding economic_step declared_model
  economic_step-declared ps =
      let e1 =
        foldl-last_read_new (λ s. s.surplus_distribution) economic_step "surplus_distribution"
          as_string (λ s p. ground arith) no_model ps refl in
      let e2 =
        foldl-last_read_new (λ s. s.compensation_policy) economic_step "compensation_policy"
          (as_record policy_step no_policy)
          (λ s p. ground (arith, apart p.key "surplus_distribution" "compensation_policy" refl))
          no_model ps refl
        ∙ ap (λ r. last_read "compensation_policy" r ps)
            (λ i v.
              as_record-declared policy_step no_policy declared_policy policy_step-declared v i) in
      λ i. record { surplus_distribution = e1 i; compensation_policy = e2 i }
