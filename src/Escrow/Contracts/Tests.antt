-- ===== src/Escrow/Contracts/Tests.antt =====
-- An escrow system with three contracts, runs of its methods, and the theorems at it.
use icn.Prelude.{
  ℕ, ◌≡◌, refl, true, false, none, some, String, [], ◌∷◌, ok, err, arith, string_eq, nat_eq,
}
use icn.Prelude.Map.{get, insert}
use icn.Prelude.Floats.{fractions, Fraction}
use icn.Escrow.Token.{TokenAmount, validate, mul}
use icn.Escrow.Contracts.Rewards.{distribution_of, rewards_of, total_reputation}
use icn.Escrow.Contracts.{
  created, in_progress, completed, EscrowContract, EscrowSystem, TaskIntent, deadlock, out_of_fuel,
  wrong_state, new_system, holding, find, put, update_contract_state, check_verification_quorum,
  has_quorum, create_contract, get_contract_state, lock_tokens, release_lock, distribute_rewards,
  process_execution, process_verification, create_dispute, is_contract_completed,
  check_contract_expiry, state_beq,
}
use icn.Escrow.Contracts.Locking.{expired_never_answers, verification_deadlocks}
use icn.Escrow.Contracts.States.{settled_refuses}

abbrev amount : ℕ → TokenAmount
amount n = record { value = n; decimals = 6 }

abbrev task : TaskIntent String
task = record { publisher_did = "ann"; wasm_cid = "wasm"; fee = 1000; verifiers = 1; expiry = 100 }

abbrev fresh : EscrowContract String
fresh = record {
  id = "new";
  publisher_did = "ann";
  task_cid = "wasm";
  token_amount = amount 1000;
  state = created;
  created_at = 0;
  expires_at = 100;
  execution_receipt_cid = none;
  verifications = [];
  verification_quorum = 51;
  max_verifiers = 3;
  reward_settings = record {
    worker_percentage = 70;
    verifier_percentage = 20;
    platform_fee_percentage = 10;
    use_reputation_weighting = true;
    platform_fee_address = "fee";
  };
  metadata = none;
}

abbrev running : EscrowContract String
running = record fresh { id = "run"; state = in_progress }

abbrev single : EscrowContract String
single = record running { id = "one"; max_verifiers = 1; execution_receipt_cid = some "receipt" }

abbrev done : EscrowContract String
done = record fresh { id = "end"; state = completed }

abbrev system : EscrowSystem fractions String
system = record {
  contracts = ("new", fresh) ∷ ("run", running) ∷ ("one", single) ∷ ("end", done) ∷ [];
  contracts_held = false;
  locks = [];
  distributions = [];
}

abbrev score : String → Fraction
score did = record { num = 1; den = 2 }

made :
    (create_contract "id" 5 task fresh.reward_settings (new_system fractions String)).0
    ≡ ok (record fresh { id = "id"; created_at = 5; max_verifiers = 1 })
unfolding create_contract validate holding put new_system insert
made = refl

one_is_enough :
    (process_verification score 5 "one" "vera" true system).1.contracts
    ≡ ("new", fresh)
      ∷ ("run", running)
      ∷ ("one", record single { state = completed; verifications = ("vera", true) ∷ [] })
      ∷ ("end", done)
      ∷ []
unfolding process_verification check_verification_quorum update_contract_state distribute_rewards
    distribution_of rewards_of total_reputation holding find put has_quorum release_lock state_beq
    get insert mul
one_is_enough = refl

expired_never_answers_example : get_contract_state 7 101 "run" system ≡ (err out_of_fuel, system)
unfolding get
expired_never_answers_example =
    expired_never_answers 7 101 "run" running system refl refl (omega arith)

abbrev no_score : String → Fraction
no_score did = record { num = 0; den = 1 }

verification_deadlocks_example :
    let (r, s') = process_verification score 5 "run" "vera" true system in
    (r ≡ err deadlock)
    × (process_verification no_score 6 "one" "otto" false s' ≡ (err deadlock, s'))
    × (process_execution no_score 6 "one" "receipt" s' ≡ (err deadlock, s'))
    × (create_dispute "one" s' ≡ (err deadlock, s'))
    × (distribute_rewards no_score 6 "one" s' ≡ (err deadlock, s'))
    × (update_contract_state "one" completed s' ≡ (err deadlock, s'))
    × (get_contract_state 4 6 "one" s' ≡ (err deadlock, s'))
    × (is_contract_completed 4 6 "one" s' ≡ (err deadlock, s'))
    × (check_contract_expiry 6 (get_contract_state 3 6 "one") "one" s' ≡ (err deadlock, s'))
    × (check_verification_quorum "one" s' ≡ (err deadlock, s'))
    × (lock_tokens "l" 6 "one" (amount 7) s' ≡ (err deadlock, s'))
    × (create_contract "l" 6 task fresh.reward_settings s' ≡ (err deadlock, s'))
unfolding get validate
verification_deadlocks_example =
    verification_deadlocks score no_score 5 6 "run" "one" "vera" "otto" "l" true false completed
      "receipt" (amount 7) 3 task fresh.reward_settings running system refl refl refl (omega arith)

settled_refuses_example :
    (lock_tokens "l" 5 "end" (amount 7) system ≡ (err (wrong_state completed), system))
    × (process_execution score 5 "end" "cid" system ≡ (err (wrong_state completed), system))
    × (process_verification score 5 "end" "vera" true system
        ≡ (err (wrong_state completed), system))
    × (create_dispute "end" system ≡ (err (wrong_state completed), system))
unfolding get
settled_refuses_example =
    settled_refuses score 5 "l" "end" "vera" true "cid" (amount 7) done system refl refl refl
