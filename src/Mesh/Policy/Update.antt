-- ===== src/Mesh/Policy/Update.antt =====
-- MeshPolicy::apply_update of crates/mesh/mesh-types/src/lib.rs. An error leaves what was written
-- before it.
use icn.Prelude.{
  ℕ, ◌+◌, ◌%◌, Bool, false, not, ◌||◌, Option, none, some, List, [], ◌∷◌, add32, ltb, unwrap_or,
  ◌==◌, nat_eq,
}
use icn.Prelude.State.{Action, pure, raise_if, modify, ◌>>◌}
use icn.Prelude.Floats.{Floats}
use icn.Mesh.Policy.{
  CapabilityScope, RewardSettings, BondingRequirements, SchedulingParams, VerificationQuorum,
  MeshPolicy, CapabilityScopeFragment, ReputationParamsFragment, RewardSettingsFragment,
  BondingRequirementsFragment, SchedulingParamsFragment, VerificationQuorumFragment,
  MeshPolicyFragment,
}

pub data UpdateError : Type 0 where
  percentages_must_add_up quorum_out_of_range : UpdateError

-- The sum of three u8.
abbrev pub sum_u8 : ℕ → ℕ → ℕ → ℕ
sum_u8 a b c = ((a + b) % 256 + c) % 256

-- All three percentages are given, and do not add up to 100.
unfoldable pub sums_wrongly : RewardSettingsFragment → Bool
sums_wrongly f = elim f.worker_percentage [
  | none ↦ false
  | some w ↦ elim f.verifier_percentage [
    | none ↦ false
    | some v ↦ elim f.platform_fee_percentage [ none ↦ false | some p ↦ not (sum_u8 w v p == 100) ]
  ]
]

unfoldable pub update_rewards : RewardSettingsFragment → RewardSettings → RewardSettings
update_rewards f r = record {
  worker_percentage = unwrap_or f.worker_percentage r.worker_percentage;
  verifier_percentage = unwrap_or f.verifier_percentage r.verifier_percentage;
  platform_fee_percentage = unwrap_or f.platform_fee_percentage r.platform_fee_percentage;
  use_reputation_weighting = unwrap_or f.use_reputation_weighting r.use_reputation_weighting;
  platform_fee_address = unwrap_or f.platform_fee_address r.platform_fee_address;
}

unfoldable pub update_bonding :
    BondingRequirementsFragment → BondingRequirements → BondingRequirements
update_bonding f b = record {
  min_stake_amount = unwrap_or f.min_stake_amount b.min_stake_amount;
  min_lock_period_days = unwrap_or f.min_lock_period_days b.min_lock_period_days;
  allowed_token_types = unwrap_or f.allowed_token_types b.allowed_token_types;
}

unfoldable pub update_scheduling :
    {fl : Floats} → SchedulingParamsFragment fl → SchedulingParams fl → SchedulingParams fl
update_scheduling f s = record {
  use_fair_queuing = unwrap_or f.use_fair_queuing s.use_fair_queuing;
  max_queue_length = unwrap_or f.max_queue_length s.max_queue_length;
  reputation_priority_boost = unwrap_or f.reputation_priority_boost s.reputation_priority_boost;
  task_timeout_minutes = unwrap_or f.task_timeout_minutes s.task_timeout_minutes;
  default_capability_scope = unwrap_or f.default_capability_scope s.default_capability_scope;
}

-- A required percentage that is given is not between 50 and 100.
unfoldable pub out_of_range : VerificationQuorumFragment → Bool
out_of_range f = elim f.required_percentage [ none ↦ false | some req ↦ ltb req 50 || ltb 100 req ]

unfoldable pub update_quorum : VerificationQuorumFragment → VerificationQuorum → VerificationQuorum
update_quorum f q = record {
  required_percentage = unwrap_or f.required_percentage q.required_percentage;
  minimum_verifiers = unwrap_or f.minimum_verifiers q.minimum_verifiers;
  maximum_verifiers = unwrap_or f.maximum_verifiers q.maximum_verifiers;
  verification_timeout_minutes =
      unwrap_or f.verification_timeout_minutes q.verification_timeout_minutes;
}

unfoldable pub update_scope : CapabilityScopeFragment → CapabilityScope → CapabilityScope
update_scope f c = record {
  mem_mb = unwrap_or f.mem_mb c.mem_mb;
  cpu_cycles = unwrap_or f.cpu_cycles c.cpu_cycles;
  gpu_flops = unwrap_or f.gpu_flops c.gpu_flops;
  io_mb = unwrap_or f.io_mb c.io_mb;
}

abbrev pub Update : Floats → Type 0 → Type 0
Update fl Cid = Action (MeshPolicy fl Cid) UpdateError (Unit {0})

module _ {fl : Floats} {Cid : Type 0} where
  -- `if let Some(part) = ...`
  abbrev pub when_some : {A : Type 0} → Option A → (A → Update fl Cid) → Update fl Cid
  when_some none f = pure tt
  when_some (some a) f = f a

  unfoldable pub update_reputation :
      ReputationParamsFragment fl → MeshPolicy fl Cid → MeshPolicy fl Cid
  update_reputation f p = record p {
    alpha = unwrap_or f.alpha p.alpha;
    beta = unwrap_or f.beta p.beta;
    gamma = unwrap_or f.gamma p.gamma;
    lambda = unwrap_or f.lambda p.lambda;
  }

  unfoldable pub count_update : Update fl Cid
  count_update = modify λ p. record p { policy_version = add32 p.policy_version 1 }

  unfoldable pub rewards_part : RewardSettingsFragment → Update fl Cid
  rewards_part r = do
    raise_if (sums_wrongly r) percentages_must_add_up
    modify λ p. record p { reward_settings = update_rewards r p.reward_settings }

  unfoldable pub bonding_part : BondingRequirementsFragment → Update fl Cid
  bonding_part b =
      modify λ p. record p { bonding_requirements = update_bonding b p.bonding_requirements }

  unfoldable pub scheduling_part : SchedulingParamsFragment fl → Update fl Cid
  scheduling_part s =
      modify λ p. record p { scheduling_params = update_scheduling s p.scheduling_params }

  unfoldable pub quorum_part : VerificationQuorumFragment → Update fl Cid
  quorum_part q = do
    raise_if (out_of_range q) quorum_out_of_range
    modify λ p. record p { verification_quorum = update_quorum q p.verification_quorum }

  unfoldable pub scope_part : CapabilityScopeFragment → Update fl Cid
  scope_part c =
      modify λ p. record p { base_capability_scope = update_scope c p.base_capability_scope }

  unfoldable pub last_part : (now : ℕ) → MeshPolicyFragment fl → Update fl Cid
  last_part now f = modify λ p. record p {
    stake_weight = unwrap_or f.stake_weight p.stake_weight;
    min_fee = unwrap_or f.min_fee p.min_fee;
    activation_timestamp = now;
  }

  -- One after the other, until one fails.
  abbrev pub in_order : List (Update fl Cid) → Update fl Cid
  in_order [] = pure tt
  in_order (part ∷ parts) = part >> in_order parts

  -- The parts after the reward settings.
  unfoldable pub later_parts : (now : ℕ) → MeshPolicyFragment fl → List (Update fl Cid)
  later_parts now f =
      when_some f.bonding_requirements bonding_part
      ∷ when_some f.scheduling_params scheduling_part
      ∷ when_some f.verification_quorum quorum_part
      ∷ when_some f.base_capability_scope scope_part
      ∷ last_part now f
      ∷ []

  unfoldable pub apply_update : (now : ℕ) → MeshPolicyFragment fl → Update fl Cid
  apply_update now f = in_order (
      count_update
      ∷ when_some f.reputation_params (λ r. modify (update_reputation r))
      ∷ when_some f.reward_settings rewards_part
      ∷ later_parts now f)
