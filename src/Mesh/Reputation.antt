-- ===== src/Mesh/Reputation.antt =====
-- ReputationSystem of crates/mesh/mesh-reputation/src/lib.rs. The updates that are sent over the
-- channel, a failure to send, which is only logged, and the locks, of which no two are taken in
-- different orders, are left out. The policy is what the code reads of it.
pub mod Record
mod Tests
use icn.Prelude.{
  ℕ, suc, ◌+◌, Bool, true, false, Option, none, some, String, List, [], ◌∷◌, ◌++◌, map, unwrap_or,
  if◌then◌else◌, ◌==◌, string_eq,
}
use icn.Prelude.Map.{Map, get, insert, get_or, map_values}
use icn.Prelude.Floats.{Floats}

-- What the code reads of a MeshPolicy.
pub record Weights (fl : Floats) : Type 0 where
  pub alpha : fl.F
  pub beta : fl.F
  pub lambda : fl.F

pub record ExecutionMetrics (fl : Floats) : Type 0 where
  pub timestamp : ℕ
  pub success : Bool
  pub efficiency : fl.F
  pub time_efficiency : fl.F

pub record VerificationMetrics (fl : Floats) : Type 0 where
  pub timestamp : ℕ
  pub accuracy : Bool
  pub timeliness : fl.F

pub record ReputationSystem (fl : Floats) : Type 0 where
  pub scores : Map String fl.F
  pub execution_history : Map String (List (ExecutionMetrics fl))
  pub verification_history : Map String (List (VerificationMetrics fl))
  pub policy : Weights fl

-- The parts of the receipts that the code reads.
pub record ExecutionReceipt : Type 0 where
  pub worker_did : String
  pub timestamp : ℕ

pub record VerificationReceipt : Type 0 where
  pub verifier_did : String
  pub verdict : Bool
  pub timestamp : ℕ

-- `==` of bool
unfoldable pub bool_beq : Bool → Bool → Bool
bool_beq true true = true
bool_beq false false = true
bool_beq _ _ = false

-- `entry(did).or_insert_with(Vec::new).push(metrics)`
unfoldable pub push_metrics : {M : Type 0} → String → M → Map String (List M) → Map String (List M)
push_metrics did m history = insert did (get_or did [] history ++ (m ∷ [])) history

module _ (fl : Floats) where
  abbrev pub half : fl.F
  half = fl.div (fl.of_u64 1) (fl.of_u64 2)

  -- The loop over the scores: the index, the total and the sum of the weights.
  unfoldable pub weighted_sums : ℕ → fl.F → fl.F → List fl.F → fl.F × fl.F
  weighted_sums i total weight_sum [] = (total, weight_sum)
  weighted_sums i total weight_sum (score ∷ scores) =
      let weight = fl.of_u64 (i + 1) in
      weighted_sums (suc i) (fl.add total (fl.mul score weight)) (fl.add weight_sum weight) scores

  unfoldable pub weighted_average : List fl.F → fl.F
  weighted_average [] = half
  weighted_average (score ∷ scores) =
      let (total, weight_sum) = weighted_sums 0 (fl.of_u64 0) (fl.of_u64 0) (score ∷ scores) in
      fl.div total weight_sum

  -- A component of the score: the average over a history, if there is one.
  unfoldable pub component : {M : Type 0} → (M → fl.F) → Option (List M) → fl.F
  component score none = half
  component score (some metrics) = weighted_average (map score metrics)

  -- `x.max(0.0)`
  unfoldable pub max_zero : fl.F → fl.F
  max_zero x = if fl.lt (fl.of_u64 0) x then x else fl.of_u64 0

module _ {fl : Floats} where
  unfoldable pub new_system : Weights fl → ReputationSystem fl
  new_system policy = record {
    scores = [];
    execution_history = [];
    verification_history = [];
    policy = policy;
  }

  unfoldable pub update_policy : Weights fl → ReputationSystem fl → ReputationSystem fl
  update_policy policy s = record s { policy = policy }

  unfoldable pub execution_score : ExecutionMetrics fl → fl.F
  execution_score m =
      if m.success
      then fl.add (half fl)
          (fl.div (fl.mul (half fl) (fl.add m.efficiency m.time_efficiency)) (fl.of_u64 2))
      else fl.of_u64 0

  unfoldable pub verification_score : VerificationMetrics fl → fl.F
  verification_score m =
      if m.accuracy then fl.add (half fl) (fl.mul (half fl) m.timeliness) else fl.of_u64 0

  unfoldable pub recalculate_reputation : String → ReputationSystem fl → ReputationSystem fl
  recalculate_reputation peer_did s =
      let execution = component fl execution_score (get peer_did s.execution_history) in
      let verification = component fl verification_score (get peer_did s.verification_history) in
      let new_score =
        fl.add (fl.mul s.policy.alpha execution) (fl.mul s.policy.beta verification) in
      record s { scores = insert peer_did new_score s.scores }

  unfoldable pub process_execution : ExecutionReceipt → ReputationSystem fl → ReputationSystem fl
  process_execution receipt s =
      let metrics : ExecutionMetrics fl = record {
        timestamp = receipt.timestamp;
        success = true;
        efficiency = fl.of_u64 1;
        time_efficiency = fl.of_u64 1;
      } in
      recalculate_reputation receipt.worker_did (record s {
        execution_history = push_metrics receipt.worker_did metrics s.execution_history;
      })

  unfoldable pub process_verification :
      VerificationReceipt → Bool → ReputationSystem fl → ReputationSystem fl
  process_verification receipt consensus_verdict s =
      let metrics : VerificationMetrics fl = record {
        timestamp = receipt.timestamp;
        accuracy = bool_beq receipt.verdict consensus_verdict;
        timeliness = fl.of_u64 1;
      } in
      recalculate_reputation receipt.verifier_did (record s {
        verification_history = push_metrics receipt.verifier_did metrics s.verification_history;
      })

  unfoldable pub slash_reputation : String → fl.F → ReputationSystem fl → ReputationSystem fl
  slash_reputation peer_did amount s = record s {
    scores =
        insert peer_did (max_zero fl (fl.sub (get_or peer_did (half fl) s.scores) amount)) s.scores;
  }

  unfoldable pub apply_decay : ReputationSystem fl → ReputationSystem fl
  apply_decay s = record s {
    scores = map_values (λ score. fl.mul score (fl.sub (fl.of_u64 1) s.policy.lambda)) s.scores;
  }

  unfoldable pub get_score : String → ReputationSystem fl → fl.F
  get_score peer_did s = get_or peer_did (half fl) s.scores
