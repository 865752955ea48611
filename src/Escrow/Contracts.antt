-- ===== src/Escrow/Contracts.antt =====
-- EscrowSystem of crates/mesh/mesh-escrow/src/contracts.rs, as `new` makes it: without a DAG manager.
-- The mutex on the contracts is a flag of the state, since a method that locks it twice waits for
-- itself. The reputation system is the score it gives, Cid stands for cid::Cid, and fresh
-- identifiers and the time are arguments.
pub mod Rewards
pub mod States
pub mod Locking
mod Tests
use icn.Prelude.{
  ℕ, zero, suc, ◌%◌, Bool, true, false, not, ◌||◌, Option, none, some, String, List, [], ◌∷◌, map,
  Result, ok, err, ok_or, if◌then◌else◌, ltb, leb, length, retain, ◌==◌, nat_eq, string_eq, ◌≡◌,
  ◌↔◌, PartialEq, arith,
}
use icn.Prelude.Map.{Map, get, insert, map_values, values}
use icn.Prelude.State.{Action, pure, raise, raise_if, lift, gets, modify, ◌>>=◌, ◌>>◌}
use icn.Prelude.Floats.{Floats}
use icn.Escrow.Token.{TokenAmount, RewardSettings, validate}
use Rewards.{RewardDistribution, positive_verifiers, distribution_of}

pub data EscrowState : Type 0 where
  created in_progress completed disputed failed expired : EscrowState

pub state_beq : EscrowState → EscrowState → Bool
state_beq created created = true
state_beq in_progress in_progress = true
state_beq completed completed = true
state_beq disputed disputed = true
state_beq failed failed = true
state_beq expired expired = true
state_beq _ _ = false

pub state_beq_iff : (a b : EscrowState) → (state_beq a b ≡ true) ↔ (a ≡ b)
unfolding state_beq
state_beq_iff a b = (ground arith, ground arith)

instance abbrev pub state_eq : PartialEq EscrowState
state_eq = record { same = state_beq; same_iff = state_beq_iff }

pub record EscrowContract (Cid : Type 0) : Type 0 where
  pub id : String
  pub publisher_did : String
  pub task_cid : Cid
  pub token_amount : TokenAmount
  pub state : EscrowState
  pub created_at : ℕ
  pub expires_at : ℕ
  pub execution_receipt_cid : Option Cid
  pub verifications : Map String Bool
  pub verification_quorum : ℕ
  pub max_verifiers : ℕ
  pub reward_settings : RewardSettings
  pub metadata : Option (Map String String)

pub record TokenLock : Type 0 where
  pub lock_id : String
  pub owner_did : String
  pub contract_id : String
  pub amount : TokenAmount
  pub locked_at : ℕ
  pub lock_expires_at : ℕ
  pub released : Bool
  pub released_at : Option ℕ

-- What `create_contract` reads of a task.
pub record TaskIntent (Cid : Type 0) : Type 0 where
  pub publisher_did : String
  pub wasm_cid : Cid
  pub fee : ℕ
  pub verifiers : ℕ
  pub expiry : ℕ

-- Why a method stops: an error of its own, a lock that it holds itself, or a recursion that has
-- used up its fuel.
pub data Stop : Type 0 where
  invalid_reward_settings no_execution_receipt no_positive_verifications : Stop
  contract_not_found too_many_verifiers : String → Stop
  wrong_state : EscrowState → Stop
  deadlock out_of_fuel : Stop

pub record EscrowSystem (fl : Floats) (Cid : Type 0) : Type 0 where
  pub contracts : Map String (EscrowContract Cid)
  pub contracts_held : Bool
  pub locks : Map String TokenLock
  pub distributions : Map String (RewardDistribution fl Cid)

module _ (fl : Floats) (Cid : Type 0) where
  unfoldable pub new_system : EscrowSystem fl Cid
  new_system = record { contracts = []; contracts_held = false; locks = []; distributions = [] }

abbrev pub Method : Floats → Type 0 → Type 0 → Type 0
Method fl Cid A = Action (EscrowSystem fl Cid) Stop A

-- The loop of `distribute_rewards` over the locks.
unfoldable pub release_lock : ℕ → String → TokenLock → TokenLock
release_lock now id lock =
    if not (lock.contract_id == id)
    then lock
    else if lock.released
    then lock
    else record lock { released = true; released_at = some now }

-- The test of `check_verification_quorum` on the contract.
unfoldable pub has_quorum : {Cid : Type 0} → Floats → EscrowContract Cid → Bool
has_quorum fl c =
    let total = length c.verifications in
    let positive = length (positive_verifiers c.verifications) in
    let share = fl.mul (fl.div (fl.of_u64 positive) (fl.of_u64 total)) (fl.of_u64 100) in
    if total == 0 then false else fl.le (fl.of_u64 c.verification_quorum) share

module _ {fl : Floats} {Cid : Type 0} where
  -- `self.contracts.lock()`, a body, and the end of the guard: an error drops the guard too, and only
  -- a method that waits for ever keeps it.
  unfoldable pub holding : {A : Type 0} → Method fl Cid A → Method fl Cid A
  holding body s =
      if s.contracts_held
      then (err deadlock, s)
      else (let (r, s') = body (record s { contracts_held = true }) in
          elim r [
            | err deadlock ↦ (err deadlock, s')
            | other ↦ (other, record s' { contracts_held = false })
          ])

  -- `contracts.get(contract_id)`, or the error
  unfoldable pub find : String → Method fl Cid (EscrowContract Cid)
  find id s = (ok_or (get id s.contracts) (contract_not_found id), s)

  unfoldable pub put : String → EscrowContract Cid → Method fl Cid (Unit {0})
  put id c s = (ok tt, record s { contracts = insert id c s.contracts })

  pub update_contract_state : String → EscrowState → Method fl Cid (Unit {0})
  update_contract_state id new_state =
      holding do c ← find id; put id (record c { state = new_state })

  pub check_verification_quorum : String → Method fl Cid Bool
  check_verification_quorum id = holding do c ← find id; pure (has_quorum fl c)

  -- `check_contract_expiry`, which calls `get_contract_state`.
  unfoldable pub check_contract_expiry : ℕ → Method fl Cid EscrowState → String → Method fl Cid Bool
  check_contract_expiry now get_state id = do
    c ← holding (find id)
    if ltb c.expires_at now
        then (do
          current ← get_state
          elim current [
            | created ↦ update_contract_state id expired
            | in_progress ↦ update_contract_state id expired
            | _ ↦ pure tt
          ]
          pure true)
        else pure false

  -- `get_contract_state`, which calls `check_contract_expiry`: the fuel counts the calls.
  pub get_contract_state : ℕ → ℕ → String → Method fl Cid EscrowState
  get_contract_state zero now id = raise out_of_fuel
  get_contract_state (suc fuel) now id =
      let inner = get_contract_state fuel now id in
      do
        is_expired ← check_contract_expiry now inner id
        if is_expired then pure expired else (do c ← holding (find id); pure c.state)

  pub is_contract_completed : ℕ → ℕ → String → Method fl Cid Bool
  is_contract_completed fuel now id = do
    state ← get_contract_state fuel now id
    pure (state == completed)

  pub create_contract :
      String → ℕ → TaskIntent Cid → RewardSettings → Method fl Cid (EscrowContract Cid)
  create_contract uuid now task settings = do
    raise_if (not (validate settings)) invalid_reward_settings
    let c : EscrowContract Cid = record {
      id = uuid;
      publisher_did = task.publisher_did;
      task_cid = task.wasm_cid;
      token_amount = record { value = task.fee; decimals = 6 };
      state = created;
      created_at = now;
      expires_at = task.expiry;
      execution_receipt_cid = none;
      verifications = [];
      verification_quorum = 51;
      max_verifiers = task.verifiers % 256;
      reward_settings = settings;
      metadata = none;
    }
    holding (put uuid c)
    pure c

  pub lock_tokens : String → ℕ → String → TokenAmount → Method fl Cid TokenLock
  lock_tokens uuid now id amount = do
    lock ← holding do
      c ← find id
      raise_if (not (c.state == created)) (wrong_state c.state)
      let lock : TokenLock = record {
        lock_id = uuid;
        owner_did = c.publisher_did;
        contract_id = id;
        amount = amount;
        locked_at = now;
        lock_expires_at = c.expires_at;
        released = false;
        released_at = none;
      }
      modify (λ s. record s { locks = insert uuid lock s.locks })
      pure lock
    update_contract_state id in_progress
    pure lock

  pub distribute_rewards : (String → fl.F) → ℕ → String → Method fl Cid (RewardDistribution fl Cid)
  distribute_rewards score now id = holding do
    c ← find id
    raise_if (not (c.state == completed)) (wrong_state c.state)
    receipt ← lift (ok_or c.execution_receipt_cid no_execution_receipt)
    d ← lift (
        ok_or
          (distribution_of fl score now id receipt c.token_amount c.reward_settings c.verifications)
          no_positive_verifications)
    modify (λ s. record s { distributions = insert id d s.distributions })
    modify (λ s. record s { locks = map_values (release_lock now id) s.locks })
    pure d

  pub process_execution : (String → fl.F) → ℕ → String → Cid → Method fl Cid (Unit {0})
  process_execution score now id receipt_task_cid = do
    max ← holding do
      c ← find id
      raise_if (not (c.state == in_progress)) (wrong_state c.state)
      put id (record c { execution_receipt_cid = some receipt_task_cid })
      pure c.max_verifiers
    if max == 0
        then (do update_contract_state id completed; _ ← distribute_rewards score now id; pure tt)
        else pure tt

  pub process_verification : (String → fl.F) → ℕ → String → String → Bool → Method fl Cid (Unit {0})
  process_verification score now id verifier verdict = do
    reached ← holding do
      c ← find id
      raise_if (not (c.state == in_progress)) (wrong_state c.state)
      raise_if (leb c.max_verifiers (length c.verifications)) (too_many_verifiers id)
      let verifications : Map String Bool = insert verifier verdict c.verifications
      put id (record c { verifications = verifications })
      if leb c.max_verifiers (length verifications) then pure true else check_verification_quorum id
    if reached
        then (do
          quorum ← check_verification_quorum id
          if quorum
              then (do
                update_contract_state id completed
                _ ← distribute_rewards score now id
                pure tt)
              else update_contract_state id failed)
        else pure tt

  pub create_dispute : String → Method fl Cid (Unit {0})
  create_dispute id = do
    holding do
      c ← find id
      elim c.state [ created ↦ pure tt | in_progress ↦ pure tt | other ↦ raise (wrong_state other) ]
    update_contract_state id disputed
