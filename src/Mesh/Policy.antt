-- ===== src/Mesh/Policy.antt =====
-- MeshPolicy, its settings and the fragments that update it: crates/mesh/mesh-types/src/lib.rs.
-- `Cid` stands for the CIDs of policies, and a time is a number.
pub mod Update
pub mod Bounds
pub mod Shares
pub mod Refusal
mod Tests
use icn.Prelude.{ℕ, Bool, true, Option, none, String, List, [], ◌∷◌}
use icn.Prelude.Floats.{Floats}

pub record CapabilityScope : Type 0 where
  pub mem_mb : ℕ
  pub cpu_cycles : ℕ
  pub gpu_flops : ℕ
  pub io_mb : ℕ

pub record RewardSettings : Type 0 where
  pub worker_percentage : ℕ
  pub verifier_percentage : ℕ
  pub platform_fee_percentage : ℕ
  pub use_reputation_weighting : Bool
  pub platform_fee_address : String

pub record BondingRequirements : Type 0 where
  pub min_stake_amount : ℕ
  pub min_lock_period_days : ℕ
  pub allowed_token_types : List String

pub record SchedulingParams (fl : Floats) : Type 0 where
  pub use_fair_queuing : Bool
  pub max_queue_length : ℕ
  pub reputation_priority_boost : fl.F
  pub task_timeout_minutes : ℕ
  pub default_capability_scope : CapabilityScope

pub record VerificationQuorum : Type 0 where
  pub required_percentage : ℕ
  pub minimum_verifiers : ℕ
  pub maximum_verifiers : ℕ
  pub verification_timeout_minutes : ℕ

pub record MeshPolicy (fl : Floats) (Cid : Type 0) : Type 0 where
  pub policy_version : ℕ
  pub alpha : fl.F
  pub beta : fl.F
  pub gamma : fl.F
  pub lambda : fl.F
  pub stake_weight : fl.F
  pub min_fee : ℕ
  pub base_capability_scope : CapabilityScope
  pub reward_settings : RewardSettings
  pub bonding_requirements : BondingRequirements
  pub scheduling_params : SchedulingParams fl
  pub verification_quorum : VerificationQuorum
  pub previous_policy_cid : Option Cid
  pub activation_timestamp : ℕ
  pub federation_did : String

pub record CapabilityScopeFragment : Type 0 where
  pub mem_mb : Option ℕ
  pub cpu_cycles : Option ℕ
  pub gpu_flops : Option ℕ
  pub io_mb : Option ℕ

pub record ReputationParamsFragment (fl : Floats) : Type 0 where
  pub alpha : Option fl.F
  pub beta : Option fl.F
  pub gamma : Option fl.F
  pub lambda : Option fl.F

pub record RewardSettingsFragment : Type 0 where
  pub worker_percentage : Option ℕ
  pub verifier_percentage : Option ℕ
  pub platform_fee_percentage : Option ℕ
  pub use_reputation_weighting : Option Bool
  pub platform_fee_address : Option String

pub record BondingRequirementsFragment : Type 0 where
  pub min_stake_amount : Option ℕ
  pub min_lock_period_days : Option ℕ
  pub allowed_token_types : Option (List String)

pub record SchedulingParamsFragment (fl : Floats) : Type 0 where
  pub use_fair_queuing : Option Bool
  pub max_queue_length : Option ℕ
  pub reputation_priority_boost : Option fl.F
  pub task_timeout_minutes : Option ℕ
  pub default_capability_scope : Option CapabilityScope

pub record VerificationQuorumFragment : Type 0 where
  pub required_percentage : Option ℕ
  pub minimum_verifiers : Option ℕ
  pub maximum_verifiers : Option ℕ
  pub verification_timeout_minutes : Option ℕ

pub record MeshPolicyFragment (fl : Floats) : Type 0 where
  pub reputation_params : Option (ReputationParamsFragment fl)
  pub stake_weight : Option fl.F
  pub min_fee : Option ℕ
  pub base_capability_scope : Option CapabilityScopeFragment
  pub reward_settings : Option RewardSettingsFragment
  pub bonding_requirements : Option BondingRequirementsFragment
  pub scheduling_params : Option (SchedulingParamsFragment fl)
  pub verification_quorum : Option VerificationQuorumFragment
  pub description : String
  pub proposer_did : String

abbrev pub default_scope : CapabilityScope
default_scope = record { mem_mb = 128; cpu_cycles = 1000000; gpu_flops = 0; io_mb = 50 }

abbrev pub default_reward_settings : RewardSettings
default_reward_settings = record {
  worker_percentage = 70;
  verifier_percentage = 20;
  platform_fee_percentage = 10;
  use_reputation_weighting = true;
  platform_fee_address = "default-platform-fee-address";
}

abbrev pub default_bonding_requirements : BondingRequirements
default_bonding_requirements = record {
  min_stake_amount = 100;
  min_lock_period_days = 7;
  allowed_token_types = "ICN" ∷ [];
}

abbrev pub default_verification_quorum : VerificationQuorum
default_verification_quorum = record {
  required_percentage = 66;
  minimum_verifiers = 3;
  maximum_verifiers = 7;
  verification_timeout_minutes = 15;
}

-- A literal with decimals is the quotient of two numbers.
abbrev pub ratio : (fl : Floats) → ℕ → ℕ → fl.F
ratio fl n d = fl.div (fl.of_u64 n) (fl.of_u64 d)

abbrev pub default_scheduling_params : (fl : Floats) → SchedulingParams fl
default_scheduling_params fl = record {
  use_fair_queuing = true;
  max_queue_length = 100;
  reputation_priority_boost = ratio fl 3 2;
  task_timeout_minutes = 30;
  default_capability_scope = default_scope;
}

unfoldable pub new_default :
    (fl : Floats) {Cid : Type 0} → (now : ℕ) (federation_did : String) → MeshPolicy fl Cid
new_default fl now federation_did = record {
  policy_version = 1;
  alpha = ratio fl 6 10;
  beta = ratio fl 3 10;
  gamma = ratio fl 1 10;
  lambda = ratio fl 5 100;
  stake_weight = ratio fl 4 10;
  min_fee = 10;
  base_capability_scope = default_scope;
  reward_settings = default_reward_settings;
  bonding_requirements = default_bonding_requirements;
  scheduling_params = default_scheduling_params fl;
  verification_quorum = default_verification_quorum;
  previous_policy_cid = none;
  activation_timestamp = now;
  federation_did = federation_did;
}
