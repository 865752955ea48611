-- ===== src/Escrow/Payments.antt =====
-- SimplePaymentSystem of crates/mesh/mesh-escrow/src/payments.rs. The fields behind the mutexes
-- are one state, and a call is one step of it: the histories are sequential. lock_tokens of the source
-- gives the guard of the balances back between its test and the subtraction, and what another
-- thread does in between is not modelled. Fresh identifiers and the time are arguments. `balance + amount` wraps as in a release build.
pub mod Conservation
pub mod Behaviour
mod Tests
use icn.Prelude.{
  ℕ, ◌+◌, ◌-◌, Bool, true, false, not, Option, none, some, String, List, [], ◌∷◌, ◌++◌, Result, ok,
  err, ok_or, ltb, leb, add64, u64_mod, if◌then◌else◌, ◌==◌, nat_eq, string_eq,
}
use icn.Prelude.Map.{Map, get, insert, remove, or_insert, get_or}
use icn.Prelude.State.{Action, pure, lift, gets, reads, ◌>>=◌, ◌>>◌, raise_if, modify}
use icn.Escrow.Token.{TokenAmount}

pub record TokenTransfer : Type 0 where
  pub id : String
  pub from_did : String
  pub to_did : String
  pub amount : TokenAmount
  pub timestamp : ℕ
  pub reference : String

-- The owner, the amount and the purpose of a lock.
pub record LockedTokens : Type 0 where
  pub owner : String
  pub held : TokenAmount
  pub purpose : String

pub record PaymentSystem : Type 0 where
  pub balances : Map String TokenAmount
  pub locked_tokens : Map String LockedTokens
  pub transfers : List TokenTransfer
  pub decimals : ℕ

pub data PaymentError : Type 0 where
  balance_overflow decimals_mismatch insufficient_balance account_not_found : PaymentError
  lock_not_found : String → PaymentError

abbrev pub Method : Type 0 → Type 0
Method = Action PaymentSystem PaymentError

pub new : ℕ → PaymentSystem
new decimals = record { balances = []; locked_tokens = []; transfers = []; decimals = decimals }

abbrev pub tokens : PaymentSystem → ℕ → TokenAmount
tokens s n = record { value = n; decimals = s.decimals }

-- `balances.entry(account).or_insert(0)`: the account is there afterwards
pub open_account : String → PaymentSystem → PaymentSystem
open_account account s = record s { balances = or_insert account (tokens s 0) s.balances }

-- the value of the balance that `entry` hands out
pub entry_value : String → PaymentSystem → ℕ
entry_value account s = (get_or account (tokens s 0) s.balances).value

pub set_value : String → ℕ → PaymentSystem → PaymentSystem
set_value account n s = record s { balances = insert account (tokens s n) s.balances }

-- `checked_add`; a new account stays open after the error.
pub add_balance : String → ℕ → Method (Unit {0})
add_balance account amount = do
  modify (open_account account)
  value ← gets (entry_value account)
  raise_if (leb u64_mod (value + amount)) balance_overflow
  modify (set_value account (value + amount))

pub transfer : String → ℕ → String → String → TokenAmount → String → Method TokenTransfer
transfer uuid now from to amount reference = do
  decimals ← gets (λ s. s.decimals)
  raise_if (not (amount.decimals == decimals)) decimals_mismatch
  modify (open_account from)
  sender ← gets (entry_value from)
  raise_if (ltb sender amount.value) insufficient_balance
  modify (set_value from (sender - amount.value))
  modify (open_account to)
  recipient ← gets (entry_value to)
  modify (set_value to (add64 recipient amount.value))
  let record_of_transfer : TokenTransfer = record {
    id = uuid;
    from_did = from;
    to_did = to;
    amount = amount;
    timestamp = now;
    reference = reference;
  }
  modify (λ s. record s { transfers = s.transfers ++ record_of_transfer ∷ [] })
  pure record_of_transfer

pub get_balance : String → PaymentSystem → TokenAmount
get_balance account s = get_or account (tokens s 0) s.balances

pub has_sufficient_balance : String → TokenAmount → PaymentSystem → Result PaymentError Bool
unfolding get_balance
has_sufficient_balance account amount s =
    let balance = get_balance account s in
    if balance.decimals == amount.decimals
    then ok (leb amount.value balance.value)
    else err decimals_mismatch

pub lock_tokens : String → String → TokenAmount → String → Method String
unfolding has_sufficient_balance
lock_tokens lock_id account amount purpose = do
  enough ← reads (has_sufficient_balance account amount)
  raise_if (not enough) insufficient_balance
  found ← gets (λ s. get account s.balances)
  balance ← lift (ok_or found account_not_found)
  modify (set_value account (balance.value - amount.value))
  let entry : LockedTokens = record { owner = account; held = amount; purpose = purpose }
  modify (λ s. record s { locked_tokens = insert lock_id entry s.locked_tokens })
  pure lock_id

pub release_tokens : String → Method (Unit {0})
release_tokens lock_id = do
  found ← gets (λ s. get lock_id s.locked_tokens)
  lock ← lift (ok_or found (lock_not_found lock_id))
  modify (λ s. record s { locked_tokens = remove lock_id s.locked_tokens })
  modify (open_account lock.owner)
  value ← gets (entry_value lock.owner)
  modify (set_value lock.owner (add64 value lock.held.value))
