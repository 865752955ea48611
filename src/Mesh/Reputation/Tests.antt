-- ===== src/Mesh/Reputation/Tests.antt =====
-- Runs and witnesses for crates/mesh/mesh-reputation/src/lib.rs.
use icn.Prelude.{◌≡◌, refl, true, false, List, [], ◌∷◌, ◌++◌, string_eq}
use icn.Prelude.Map.{get, insert}
use icn.Prelude.Floats.{fractions}
use icn.Mesh.Policy.{ratio}
use icn.Mesh.Reputation.{
  Weights, ReputationSystem, ExecutionReceipt, new_system, process_execution, slash_reputation,
  get_score, bool_beq, apply_decay, max_zero, process_verification, recalculate_reputation,
  push_metrics, component, weighted_average, weighted_sums, execution_score, verification_score,
}
use icn.Mesh.Reputation.Record.{
  Event, executed, verified, slashed, decayed, perform, earned, judged, full_score, merit, after,
  get_score-process_execution,
}

abbrev weights : Weights fractions
weights = record {
  alpha = ratio fractions 6 10;
  beta = ratio fractions 4 10;
  lambda = ratio fractions 1 100;
}

abbrev receipt : ExecutionReceipt
receipt = record { worker_did = "ada"; timestamp = 5 }

abbrev events : List (Event fractions)
events =
    executed receipt
    ∷ verified (record { verifier_did = "ada"; verdict = true; timestamp = 6 }) false
    ∷ slashed "ada" (ratio fractions 1 2)
    ∷ decayed
    ∷ []

abbrev system : ReputationSystem fractions
system = after events (new_system weights)

-- A slashing of a peer without a score starts at one half and stops at zero.
slash_to_zero :
    get_score "bob" (slash_reputation "bob" (ratio fractions 3 4) system)
    ≡ record { num = 0; den = 1 }
unfolding get_score slash_reputation max_zero get insert perform new_system process_execution
    process_verification recalculate_reputation push_metrics component weighted_average
    weighted_sums apply_decay bool_beq execution_score verification_score
slash_to_zero = refl

get_score-process_execution_example :
    get_score "ada" (process_execution receipt system)
    ≡ merit weights (earned "ada" events ++ (full_score fractions ∷ [])) (judged "ada" events)
unfolding perform new_system process_execution process_verification slash_reputation apply_decay
    recalculate_reputation
get_score-process_execution_example = get_score-process_execution weights events receipt
