-- ===== src/Escrow/Contracts/Rewards.antt =====
-- The rewards that `distribute_rewards` of crates/mesh/mesh-escrow/src/contracts.rs computes from a
-- contract.
use icn.Prelude.{ℕ, Bool, Option, none, some, String, List, [], ◌∷◌, map, if◌then◌else◌, length}
use icn.Prelude.Map.{Map}
use icn.Prelude.Floats.{Floats}
use icn.Escrow.Token.{TokenAmount, RewardSettings, mul}

pub record VerifierReward (fl : Floats) : Type 0 where
  pub verifier_did : String
  pub amount : TokenAmount
  pub reputation_weight : Option fl.F

pub record RewardDistribution (fl : Floats) (Cid : Type 0) : Type 0 where
  pub contract_id : String
  pub task_cid : Cid
  pub total_amount : TokenAmount
  pub timestamp : ℕ
  pub worker_did : String
  pub worker_reward : TokenAmount
  pub verifier_rewards : List (VerifierReward fl)
  pub platform_fee : TokenAmount

abbrev pub positive_verifiers : Map String Bool → List String
positive_verifiers [] = []
positive_verifiers ((did, verdict) ∷ rest) =
    let others = positive_verifiers rest in if verdict then did ∷ others else others

module _ (fl : Floats) where
  unfoldable pub total_reputation : (String → fl.F) → fl.F → List String → fl.F
  total_reputation score sum [] = sum
  total_reputation score sum (did ∷ rest) = total_reputation score (fl.add sum (score did)) rest

  -- The rewards of the verifiers, by reputation or equal.
  unfoldable pub rewards_of :
      (String → fl.F) → RewardSettings → TokenAmount → List String → List (VerifierReward fl)
  unfolding total_reputation
  rewards_of score settings reward positive =
      let sum = total_reputation score (fl.of_u64 0) positive in
      let equal = fl.div (fl.of_u64 1) (fl.of_u64 (length positive)) in
      let weight : String → fl.F =
        λ did. if fl.lt (fl.of_u64 0) sum then fl.div (score did) sum else equal in
      if settings.use_reputation_weighting
      then map
          (λ did. record {
            verifier_did = did;
            amount = mul fl reward (weight did);
            reputation_weight = some (weight did);
          })
          positive
      else map
          (λ did. record {
            verifier_did = did;
            amount = mul fl reward equal;
            reputation_weight = none;
          })
          positive

  abbrev pub share_of : TokenAmount → ℕ → TokenAmount
  share_of total percentage = mul fl total (fl.div (fl.of_u64 percentage) (fl.of_u64 100))

  -- The distribution, if a verification is positive; the first positive verifier stands for the
  -- worker.
  unfoldable pub distribution_of :
      {Cid : Type 0}
      → (String → fl.F)
      → ℕ
      → String
      → Cid
      → TokenAmount
      → RewardSettings
      → Map String Bool
      → Option (RewardDistribution fl Cid)
  unfolding rewards_of
  distribution_of score now id receipt total settings verifications =
      elim (positive_verifiers verifications) [
        | [] ↦ none
        | worker ∷ rest ↦ some (record {
          contract_id = id;
          task_cid = receipt;
          total_amount = total;
          timestamp = now;
          worker_did = worker;
          worker_reward = share_of total settings.worker_percentage;
          verifier_rewards =
              rewards_of score settings (share_of total settings.verifier_percentage)
                (worker ∷ rest);
          platform_fee = share_of total settings.platform_fee_percentage;
        })
      ]
