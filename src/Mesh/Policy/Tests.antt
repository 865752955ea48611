-- ===== src/Mesh/Policy/Tests.antt =====
-- Witnesses on MeshPolicy of crates/mesh/mesh-types/src/lib.rs.
use icn.Prelude.{ℕ, ◌≡◌, ◌≢◌, refl, none, some, [], ◌∷◌, err, add32, arith}
use icn.Prelude.Floats.{fractions}
use icn.Mesh.Policy.{
  MeshPolicy, ReputationParamsFragment, RewardSettingsFragment, VerificationQuorumFragment,
  MeshPolicyFragment, new_default, ratio,
}
use icn.Mesh.Policy.Update.{quorum_out_of_range, sums_wrongly, out_of_range, apply_update}
use icn.Mesh.Policy.Bounds.{IsQuorum, IsSplit, after, updates-IsQuorum}
use icn.Mesh.Policy.Shares.{
  Share, of_worker, of_verifier, of_platform, share, given_share, lone_percentage_breaks,
}
use icn.Mesh.Policy.Refusal.{refused_update_applies}

abbrev default_policy : MeshPolicy fractions ℕ
default_policy = new_default fractions 5 "fed"

abbrev rewards : RewardSettingsFragment
rewards = record {
  worker_percentage = some 80;
  verifier_percentage = none;
  platform_fee_percentage = none;
  use_reputation_weighting = none;
  platform_fee_address = none;
}

abbrev quorum : ℕ → VerificationQuorumFragment
quorum required = record {
  required_percentage = some required;
  minimum_verifiers = none;
  maximum_verifiers = some 1;
  verification_timeout_minutes = none;
}

abbrev reputation : ReputationParamsFragment fractions
reputation = record {
  alpha = some (ratio fractions 9 10);
  beta = none;
  gamma = none;
  lambda = none;
}

abbrev update : ℕ → MeshPolicyFragment fractions
update required = record {
  reputation_params = some reputation;
  stake_weight = none;
  min_fee = some 20;
  base_capability_scope = none;
  reward_settings = some rewards;
  bonding_requirements = none;
  scheduling_params = none;
  verification_quorum = some (quorum required);
  description = "";
  proposer_did = "ada";
}

updates-IsQuorum_example :
    IsQuorum (after ((6, update 51) ∷ (7, update 10) ∷ []) default_policy).verification_quorum
updates-IsQuorum_example = updates-IsQuorum ℕ 5 "fed" ((6, update 51) ∷ (7, update 10) ∷ [])

-- Only the verifiers' share is given.
abbrev verifiers_only : RewardSettingsFragment
verifiers_only = record rewards { worker_percentage = none; verifier_percentage = some 25 }

others_absent : (l : Share) → l ≢ of_verifier → given_share l verifiers_only ≡ none
others_absent of_worker ne = refl
others_absent of_verifier ne = absurd (ne refl)
others_absent of_platform ne = refl

abbrev lone_update : MeshPolicyFragment fractions
lone_update = record (update 51) { reward_settings = some verifiers_only }

lone_percentage_breaks_example :
    let shares = (apply_update 6 lone_update default_policy).1.reward_settings in
    (share of_verifier shares ≡ 25)
    × ((l : Share) → l ≢ of_verifier → share l shares ≡ share l default_policy.reward_settings)
    × ¬ IsSplit shares
unfolding new_default
lone_percentage_breaks_example =
    lone_percentage_breaks 6 25 of_verifier lone_update verifiers_only default_policy refl refl
      others_absent (omega arith) (omega arith) (λ h. omega (arith, h)) refl

-- The update has a minimum fee, and the quorum is refused before it is written.
refused_update_applies_example : apply_update 6 (update 10) default_policy ≡ (
  err quorum_out_of_range,
  record default_policy {
    policy_version = add32 default_policy.policy_version 1;
    alpha = ratio fractions 9 10;
    reward_settings = record default_policy.reward_settings { worker_percentage = 80 };
  },
)
unfolding sums_wrongly out_of_range
refused_update_applies_example =
    refused_update_applies 6 (update 10) (quorum 10) default_policy (λ r h. ground (arith, h)) refl
      refl
