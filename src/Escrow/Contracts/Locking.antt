-- ===== src/Escrow/Contracts/Locking.antt =====
-- Locks and recursion of crates/mesh/mesh-escrow/src/contracts.rs: when a method returns at all.
use icn.Prelude.{
  [], ◌∷◌, ◌+◌, ℕ, zero, suc, ◌≤◌, ◌<◌, ◌≡◌, refl, ap, sym, ◌∙◌, inl, inr, Bool, true, false, some,
  String, ok, err, arith, ltb, length, ==_iff, string_eq, nat_eq, Bool-cases, if◌then◌else◌,
}
use icn.Prelude.Map.{Map, get, insert}
use icn.Prelude.Floats.{Floats}
use icn.Escrow.Token.{TokenAmount, RewardSettings, validate}
use icn.Escrow.Contracts.{
  EscrowState, in_progress, state_eq, EscrowContract, EscrowSystem, TaskIntent, deadlock,
  out_of_fuel, invalid_reward_settings, holding, create_contract, lock_tokens, process_execution,
  is_contract_completed, find, put, update_contract_state, check_verification_quorum,
  check_contract_expiry, get_contract_state, distribute_rewards, process_verification,
  create_dispute,
}

over_test : (a b : ℕ) → a < b → ltb a b ≡ true
over_test a b h = ground arith

length-insert : (k : String) (v : Bool) (m : Map String Bool) → length (insert k v m) ≤ length m + 1
unfolding insert
length-insert k v [] = omega arith
length-insert k v ((j, w) ∷ m) = ground (arith, length-insert k v m)

module _ {fl : Floats} {Cid : Type 0} where
  found_again :
      (id : String) (c : EscrowContract Cid) (s : EscrowSystem fl Cid)
      → s.contracts_held ≡ false
      → get id s.contracts ≡ some c
      → holding (find id) s ≡ (ok c, s)
  unfolding holding find
  found_again id c s free found = rw (free, found) refl

  -- After the expiry of a contract its state is never reported: every call of `get_contract_state`
  -- makes the next one with nothing changed, so that no fuel is enough and the contract is never
  -- marked as expired.
  pub expired_never_answers :
      (fuel now : ℕ) (id : String) (c : EscrowContract Cid) (s : EscrowSystem fl Cid)
      → s.contracts_held ≡ false
      → get id s.contracts ≡ some c
      → c.expires_at < now
      → (get_contract_state fuel now id s ≡ (err out_of_fuel, s))
  unfolding get_contract_state check_contract_expiry
  expired_never_answers zero now id c s free found over = refl
  expired_never_answers (suc fuel) now id c s free found over =
      ground (
        arith,
        found_again id c s free found,
        expired_never_answers fuel now id c s free found over,
      )

  stuck :
      (score : String → fl.F) (now : ℕ) (id verifier : String) (verdict : Bool)
      (c : EscrowContract Cid) (s : EscrowSystem fl Cid)
      → get id s.contracts ≡ some c
      → c.state ≡ in_progress
      → length c.verifications + 1 < c.max_verifiers
      → process_verification score now id verifier verdict (record s { contracts_held = false }) ≡ (
        err deadlock,
        record s {
          contracts =
              insert id
                (record c { verifications = insert verifier verdict c.verifications })
                s.contracts;
          contracts_held = true;
        },
      )
  unfolding process_verification check_verification_quorum holding find put
  stuck score now id verifier verdict c s found running more =
      ground
        (arith, found, length-insert verifier verdict c.verifications, ==_iff c.state in_progress)

  -- A verification that is not the last one expected never returns: it holds the lock on the
  -- contracts when the quorum is checked, which takes that lock again. This is the case when a
  -- contract in progress expects at least two verifications more than it has. The lock is not given
  -- back, so that no method returns after it, on any contract, at any time, for whatever arguments,
  -- and none changes the system: no verification, execution, dispute or distribution, no change or
  -- reading of a state, no check of the quorum or of the expiry, no locking of tokens and no new contract, where only
  -- invalid reward settings are reported before the lock is taken.
  pub verification_deadlocks :
      (score score' : String → fl.F) (now later : ℕ) (id other verifier verifier' uuid : String)
      (verdict verdict' : Bool) (new_state : EscrowState) (receipt : Cid) (amount : TokenAmount)
      (fuel : ℕ) (task : TaskIntent Cid) (settings : RewardSettings) (c : EscrowContract Cid)
      (s : EscrowSystem fl Cid)
      → s.contracts_held ≡ false
      → get id s.contracts ≡ some c
      → c.state ≡ in_progress
      → length c.verifications + 1 < c.max_verifiers
      → let (r, s') = process_verification score now id verifier verdict s in
        (r ≡ err deadlock)
        × (process_verification score' later other verifier' verdict' s' ≡ (err deadlock, s'))
        × (process_execution score' later other receipt s' ≡ (err deadlock, s'))
        × (create_dispute other s' ≡ (err deadlock, s'))
        × (distribute_rewards score' later other s' ≡ (err deadlock, s'))
        × (update_contract_state other new_state s' ≡ (err deadlock, s'))
        × (get_contract_state (suc fuel) later other s' ≡ (err deadlock, s'))
        × (is_contract_completed (suc fuel) later other s' ≡ (err deadlock, s'))
        × (check_contract_expiry later (get_contract_state fuel later other) other s'
            ≡ (err deadlock, s'))
        × (check_verification_quorum other s' ≡ (err deadlock, s'))
        × (lock_tokens uuid later other amount s' ≡ (err deadlock, s'))
        × (create_contract uuid later task settings s'
            ≡ (if validate settings then err deadlock else err invalid_reward_settings, s'))
  unfolding process_verification process_execution create_dispute distribute_rewards
      update_contract_state get_contract_state is_contract_completed check_contract_expiry
      check_verification_quorum lock_tokens create_contract holding
  verification_deadlocks score score' now later id other verifier verifier' uuid verdict verdict'
        new_state receipt amount fuel task settings c s free found running more =
      let whole : record s { contracts_held = false } ≡ s =
        ap (λ (b : Bool). record s { contracts_held = b }) (sym free) in
      rw
        (ap (process_verification score now id verifier verdict) (sym whole)
          ∙ stuck score now id verifier verdict c s found running more)
        (
          refl,
          refl,
          refl,
          refl,
          refl,
          refl,
          refl,
          refl,
          refl,
          refl,
          refl,
          elim (Bool-cases (validate settings)) [
            | inl valid ↦ rw valid refl
            | inr invalid ↦ rw invalid refl
          ],
        )
