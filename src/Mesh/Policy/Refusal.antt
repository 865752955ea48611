-- ===== src/Mesh/Policy/Refusal.antt =====
-- What MeshPolicy::apply_update of crates/mesh/mesh-types/src/lib.rs leaves when it refuses a quorum.
use icn.Prelude.{
  ℕ, ◌≡◌, ◌∙◌, refl, true, false, Option, none, some, List, [], ◌∷◌, add32, unwrap_or, ok, err,
  arith,
}
use icn.Prelude.State.{modify}
use icn.Prelude.Floats.{Floats}
use icn.Mesh.Policy.{
  RewardSettings, BondingRequirements, SchedulingParams, MeshPolicy, ReputationParamsFragment,
  RewardSettingsFragment, BondingRequirementsFragment, SchedulingParamsFragment,
  VerificationQuorumFragment, MeshPolicyFragment,
}
use icn.Mesh.Policy.Update.{
  Update, UpdateError, when_some, quorum_out_of_range, sums_wrongly, update_rewards, update_bonding,
  update_scheduling, out_of_range, update_reputation, apply_update, count_update, rewards_part,
  bonding_part, scheduling_part, quorum_part, scope_part, last_part, later_parts, in_order,
}

-- What a fragment that may be missing gives in place of a value.
abbrev pub given : {F A : Type 0} → Option F → (F → Option A) → A → A
given none g old = old
given (some f) g old = unwrap_or (g f) old

abbrev pub given_rewards : Option RewardSettingsFragment → RewardSettings → RewardSettings
given_rewards o r = record {
  worker_percentage = given o (λ f. f.worker_percentage) r.worker_percentage;
  verifier_percentage = given o (λ f. f.verifier_percentage) r.verifier_percentage;
  platform_fee_percentage = given o (λ f. f.platform_fee_percentage) r.platform_fee_percentage;
  use_reputation_weighting = given o (λ f. f.use_reputation_weighting) r.use_reputation_weighting;
  platform_fee_address = given o (λ f. f.platform_fee_address) r.platform_fee_address;
}

abbrev pub given_bonding :
    Option BondingRequirementsFragment → BondingRequirements → BondingRequirements
given_bonding o b = record {
  min_stake_amount = given o (λ f. f.min_stake_amount) b.min_stake_amount;
  min_lock_period_days = given o (λ f. f.min_lock_period_days) b.min_lock_period_days;
  allowed_token_types = given o (λ f. f.allowed_token_types) b.allowed_token_types;
}

abbrev pub given_scheduling :
    {fl : Floats} → Option (SchedulingParamsFragment fl) → SchedulingParams fl → SchedulingParams fl
given_scheduling o s = record {
  use_fair_queuing = given o (λ f. f.use_fair_queuing) s.use_fair_queuing;
  max_queue_length = given o (λ f. f.max_queue_length) s.max_queue_length;
  reputation_priority_boost =
      given o (λ f. f.reputation_priority_boost) s.reputation_priority_boost;
  task_timeout_minutes = given o (λ f. f.task_timeout_minutes) s.task_timeout_minutes;
  default_capability_scope = given o (λ f. f.default_capability_scope) s.default_capability_scope;
}

module _ {fl : Floats} {Cid : Type 0} where
  reputation_step :
      (o : Option (ReputationParamsFragment fl)) (p : MeshPolicy fl Cid)
      → when_some o (λ r. modify (update_reputation r)) p ≡ (
        ok tt,
        record p {
          alpha = given o (λ r. r.alpha) p.alpha;
          beta = given o (λ r. r.beta) p.beta;
          gamma = given o (λ r. r.gamma) p.gamma;
          lambda = given o (λ r. r.lambda) p.lambda;
        },
      )
  unfolding update_reputation
  reputation_step none p = refl
  reputation_step (some r) p = refl

  rewards_step :
      (o : Option RewardSettingsFragment) (p : MeshPolicy fl Cid)
      → ((r : RewardSettingsFragment) → o ≡ some r → sums_wrongly r ≡ false)
      → when_some o rewards_part p
        ≡ (ok tt, record p { reward_settings = given_rewards o p.reward_settings })
  unfolding rewards_part update_rewards
  rewards_step none p fine = refl
  rewards_step (some r) p fine = ground (arith, fine r refl)

  bonding_step :
      (o : Option BondingRequirementsFragment) (p : MeshPolicy fl Cid)
      → when_some o bonding_part p
        ≡ (ok tt, record p { bonding_requirements = given_bonding o p.bonding_requirements })
  unfolding bonding_part update_bonding
  bonding_step none p = refl
  bonding_step (some b) p = refl

  scheduling_step :
      (o : Option (SchedulingParamsFragment fl)) (p : MeshPolicy fl Cid)
      → when_some o scheduling_part p
        ≡ (ok tt, record p { scheduling_params = given_scheduling o p.scheduling_params })
  unfolding scheduling_part update_scheduling
  scheduling_step none p = refl
  scheduling_step (some s) p = refl

  quorum_step :
      (o : Option VerificationQuorumFragment) (q : VerificationQuorumFragment)
      (p : MeshPolicy fl Cid)
      → o ≡ some q
      → out_of_range q ≡ true
      → when_some o quorum_part p ≡ (err quorum_out_of_range, p)
  unfolding quorum_part
  quorum_step o q p there wrong = rw (there, wrong) refl

  -- The steps of a list up to the one that fails.
  then_ok :
      (part : Update fl Cid) (parts : List (Update fl Cid)) (p p' : MeshPolicy fl Cid)
      → part p ≡ (ok tt, p')
      → in_order (part ∷ parts) p ≡ in_order parts p'
  then_ok part parts p p' fine = ground (arith, fine)

  then_err :
      (part : Update fl Cid) (parts : List (Update fl Cid)) (e : UpdateError)
      (p p' : MeshPolicy fl Cid)
      → part p ≡ (err e, p')
      → in_order (part ∷ parts) p ≡ (err e, p')
  then_err part parts e p p' failed = ground (arith, failed)

  -- An update whose quorum is out of range is refused, and leaves the version counted and the
  -- reputation parameters, reward settings, bonding requirements and scheduling parameters that it
  -- gives applied, each value that it does not give as it was. Everything else of the policy, the
  -- capability scope, stake weight, minimum fee, quorum and timestamp among it, is as it was. Reward
  -- settings, if given, do not have three percentages that add up wrongly.
  pub refused_update_applies :
      (now : ℕ) (f : MeshPolicyFragment fl) (q : VerificationQuorumFragment) (p : MeshPolicy fl Cid)
      → ((r : RewardSettingsFragment) → f.reward_settings ≡ some r → sums_wrongly r ≡ false)
      → f.verification_quorum ≡ some q
      → out_of_range q ≡ true
      → apply_update now f p ≡ (
        err quorum_out_of_range,
        record p {
          policy_version = add32 p.policy_version 1;
          alpha = given f.reputation_params (λ r. r.alpha) p.alpha;
          beta = given f.reputation_params (λ r. r.beta) p.beta;
          gamma = given f.reputation_params (λ r. r.gamma) p.gamma;
          lambda = given f.reputation_params (λ r. r.lambda) p.lambda;
          reward_settings = given_rewards f.reward_settings p.reward_settings;
          bonding_requirements = given_bonding f.bonding_requirements p.bonding_requirements;
          scheduling_params = given_scheduling f.scheduling_params p.scheduling_params;
        },
      )
  unfolding apply_update later_parts count_update
  refused_update_applies now f q p fine refused wrong =
      let p1 : MeshPolicy fl Cid = (count_update p).1 in
      let rep : Update fl Cid = when_some f.reputation_params (λ r. modify (update_reputation r)) in
      let rewards : Update fl Cid = when_some f.reward_settings rewards_part in
      let bonds : Update fl Cid = when_some f.bonding_requirements bonding_part in
      let plan : Update fl Cid = when_some f.scheduling_params scheduling_part in
      let quorum : Update fl Cid = when_some f.verification_quorum quorum_part in
      let scope : Update fl Cid = when_some f.base_capability_scope scope_part in
      let after_quorum : List (Update fl Cid) = scope ∷ last_part now f ∷ [] in
      then_ok rep (rewards ∷ later_parts now f) p1 _ (reputation_step f.reputation_params p1)
      ∙ then_ok rewards (later_parts now f) _ _ (rewards_step f.reward_settings _ fine)
      ∙ then_ok bonds (plan ∷ quorum ∷ after_quorum) _ _ (bonding_step f.bonding_requirements _)
      ∙ then_ok plan (quorum ∷ after_quorum) _ _ (scheduling_step f.scheduling_params _)
      ∙ then_err quorum after_quorum quorum_out_of_range _ _
          (quorum_step f.verification_quorum q _ refused wrong)
