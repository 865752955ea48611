-- ===== src/Escrow/Payments/Behaviour.antt =====
-- What each method of payments.rs does to the balances, on its good and its bad branches.
use icn.Prelude.{
  ℕ, ◌+◌, ◌-◌, ◌≤◌, ◌<◌, ◌≡◌, ◌≢◌, ◌⊎◌, refl, none, some, String, List, [], ◌∷◌, ◌++◌, ok, err,
  arith, u64_mod, if◌then◌else◌, string_eq, nat_eq, add64, ==_iff, ==-refl, ◌==◌,
}
use icn.Prelude.Map.{Map, get, insert, remove, get-insert, get-insert_self, get-remove_self}
use icn.Escrow.Token.{TokenAmount}
use icn.Escrow.Payments.{
  PaymentSystem, LockedTokens, TokenTransfer, insufficient_balance, decimals_mismatch,
  lock_not_found, tokens, open_account, entry_value, set_value, transfer, lock_tokens,
  release_tokens, get_balance,
}

-- The balance that is read after a write, and after an account is opened.
entry_value-set_value :
    (a b : String) (n : ℕ) (s : PaymentSystem)
    → entry_value b (set_value a n s) ≡ (if a == b then n else entry_value b s)
unfolding entry_value set_value
entry_value-set_value a b n s = ground (arith, get-insert b a (tokens s n) s.balances)

entry_value-open_account :
    (a b : String) (s : PaymentSystem) → entry_value b (open_account a s) ≡ entry_value b s
unfolding entry_value open_account
entry_value-open_account a b s = ground (arith, get-insert b a (tokens s 0) s.balances, ==_iff a b)

open_account-decimals : (a : String) (s : PaymentSystem) → (open_account a s).decimals ≡ s.decimals
unfolding open_account
open_account-decimals a s = refl

open_account-transfers :
    (a : String) (s : PaymentSystem) → (open_account a s).transfers ≡ s.transfers
unfolding open_account
open_account-transfers a s = refl

set_value-decimals :
    (a : String) (n : ℕ) (s : PaymentSystem) → (set_value a n s).decimals ≡ s.decimals
unfolding set_value
set_value-decimals a n s = refl

-- The log of transfers has no part in the balances.
entry_value-log :
    (a : String) (log : List TokenTransfer) (s : PaymentSystem)
    → entry_value a (record s { transfers = log }) ≡ entry_value a s
unfolding entry_value
entry_value-log a log s = refl

entry_value-locks :
    (a : String) (locks : Map String LockedTokens) (s : PaymentSystem)
    → entry_value a (record s { locked_tokens = locks }) ≡ entry_value a s
unfolding entry_value
entry_value-locks a locks s = refl

ruleset accounts =
    (entry_value-locks, entry_value-log, entry_value-set_value, entry_value-open_account)

-- The accounts after a transfer that passes its tests.
paid : String → String → ℕ → PaymentSystem → PaymentSystem
paid from to a s =
    let s1 = open_account from s in
    let s2 = open_account to (set_value from (entry_value from s1 - a) s1) in
    set_value to (add64 (entry_value to s2) a) s2

transfer_state :
    (uuid : String) (now : ℕ) (from to : String) (a : TokenAmount) (r : String) (s : PaymentSystem)
    → a.decimals ≡ s.decimals
    → a.value ≤ entry_value from s
    → (transfer uuid now from to a r s).1 ≡ record (paid from to a.value s) {
      transfers =
          (paid from to a.value s).transfers
          ++ record {
            id = uuid;
            from_did = from;
            to_did = to;
            amount = a;
            timestamp = now;
            reference = r;
          }
            ∷ [];
    }
unfolding transfer paid
transfer_state uuid now from to a r s same cover =
    ground (arith, entry_value-open_account from from s)

transfer-eq :
    (uuid : String) (now : ℕ) (from to : String) (a : TokenAmount) (r : String) (s : PaymentSystem)
    → a.decimals ≡ s.decimals
    → a.value ≤ entry_value from s
    → (b : String)
    → entry_value b (transfer uuid now from to a r s).1 ≡ entry_value b (paid from to a.value s)
transfer-eq uuid now from to a r s same cover b =
    rw (transfer_state uuid now from to a r s same cover) (entry_value-log b _ _)

-- Each balance after it.
entry_value-paid :
    (from to : String) (n : ℕ) (s : PaymentSystem) (b : String)
    → entry_value b (paid from to n s) ≡ (
        if to == b
        then add64 (if from == to then entry_value from s - n else entry_value to s) n
        else if from == b
        then entry_value from s - n
        else entry_value b s)
unfolding paid
entry_value-paid from to n s b = simp accounts

-- A transfer between two accounts that the sender can cover moves the amount, and no third
-- account changes.
pub transfer_moves :
    (uuid : String) (now : ℕ) (from to other : String) (a : TokenAmount) (r : String)
    (s : PaymentSystem)
    → from ≢ to
    → from ≢ other
    → to ≢ other
    → a.decimals ≡ s.decimals
    → a.value ≤ entry_value from s
    → entry_value to s + a.value < u64_mod
    → let s' = (transfer uuid now from to a r s).1 in
      (entry_value from s' + a.value ≡ entry_value from s)
      × (entry_value to s' ≡ entry_value to s + a.value)
      × (entry_value other s' ≡ entry_value other s)
transfer_moves uuid now from to other a r s ne f t same cover room = ground (
  arith,
  transfer-eq uuid now from to a r s same cover from,
  transfer-eq uuid now from to a r s same cover to,
  transfer-eq uuid now from to a r s same cover other,
  entry_value-paid from to a.value s from,
  entry_value-paid from to a.value s to,
  entry_value-paid from to a.value s other,
  ==_iff from to,
  ==_iff to from,
  ==_iff to to,
  ==_iff from from,
  ==_iff to other,
  ==_iff from other,
)

-- A transfer is refused when the precision differs or the sender holds too little, and then every
-- balance stays and nothing is logged.
pub transfer_refused :
    (uuid : String) (now : ℕ) (from to : String) (a : TokenAmount) (r b : String)
    (s : PaymentSystem)
    → (a.decimals ≢ s.decimals) ⊎ (entry_value from s < a.value)
    → let (res, s') = transfer uuid now from to a r s in
      (res ≡ (if a.decimals == s.decimals then err insufficient_balance else err decimals_mismatch))
      × (entry_value b s' ≡ entry_value b s)
      × (s'.transfers ≡ s.transfers)
unfolding transfer
transfer_refused uuid now from to a r b s h = ground (
  arith,
  entry_value-open_account from from s,
  entry_value-open_account from b s,
  open_account-transfers from s,
)

-- The state after a lock that passes its tests, and after the release of a lock that is there.
lock_state :
    (id account : String) (a old : TokenAmount) (purpose : String) (s : PaymentSystem)
    → get account s.balances ≡ some old
    → old.decimals ≡ a.decimals
    → a.value ≤ old.value
    → let entry : LockedTokens = record { owner = account; held = a; purpose = purpose } in
      let s' = set_value account (old.value - a.value) s in
      lock_tokens id account a purpose s
      ≡ (ok id, record s' { locked_tokens = insert id entry s'.locked_tokens })
unfolding lock_tokens get_balance
lock_state id account a old purpose s found same cover = ground arith

release_state :
    (id : String) (l : LockedTokens) (s : PaymentSystem)
    → get id s.locked_tokens ≡ some l
    → let s1 = open_account l.owner (record s { locked_tokens = remove id s.locked_tokens }) in
      release_tokens id s
      ≡ (ok tt, set_value l.owner (add64 (entry_value l.owner s1) l.held.value) s1)
unfolding release_tokens
release_state id l s found = ground arith

release_absent :
    (id : String) (s : PaymentSystem)
    → get id s.locked_tokens ≡ none
    → (release_tokens id s).0 ≡ err (lock_not_found id)
unfolding release_tokens
release_absent id s missing = ground arith

entry_value-found :
    (account : String) (old : TokenAmount) (s : PaymentSystem)
    → get account s.balances ≡ some old
    → entry_value account s ≡ old.value
unfolding entry_value
entry_value-found account old s found = ground arith

set_value-locks :
    (a : String) (n : ℕ) (s : PaymentSystem) → (set_value a n s).locked_tokens ≡ s.locked_tokens
unfolding set_value
set_value-locks a n s = refl

open_account-locks :
    (a : String) (s : PaymentSystem) → (open_account a s).locked_tokens ≡ s.locked_tokens
unfolding open_account
open_account-locks a s = refl

ruleset locks_kept = (set_value-locks, open_account-locks)

release_again :
    (id account : String) (n : ℕ) (locks : Map String LockedTokens) (s : PaymentSystem)
    → let s1 = open_account account (record s { locked_tokens = remove id locks }) in
      (release_tokens id (set_value account n s1)).0 ≡ err (lock_not_found id)
release_again id account n locks s =
    let s1 = open_account account (record s { locked_tokens = remove id locks }) in
    release_absent id (set_value account n s1) (simp locks_kept (get-remove_self id locks))

-- A lock takes its amount out of the account, and its release puts it back: every balance is then
-- as it was, and the lock is good for one release only.
pub release-lock :
    (id account : String) (a old : TokenAmount) (purpose b : String) (s : PaymentSystem)
    → get account s.balances ≡ some old
    → old.decimals ≡ a.decimals
    → a.value ≤ old.value
    → old.value < u64_mod
    → let (locked, s1) = lock_tokens id account a purpose s in
      let (released, s2) = release_tokens id s1 in
      (locked ≡ ok id)
      × (entry_value account s1 + a.value ≡ entry_value account s)
      × (released ≡ ok tt)
      × (entry_value b s2 ≡ entry_value b s)
      × ((release_tokens id s2).0 ≡ err (lock_not_found id))
release-lock id account a old purpose b s found same cover bound =
    let l : LockedTokens = record { owner = account; held = a; purpose = purpose } in
    let s' : PaymentSystem = set_value account (old.value - a.value) s in
    let held_funds = entry_value-found account old s found in
    rw
      (
        lock_state id account a old purpose s found same cover,
        release_state id l (record s' { locked_tokens = insert id l s'.locked_tokens })
            (get-insert_self id l s'.locked_tokens),
      )
      (
        refl,
        simp (accounts, ==-refl account, held_funds) (omega arith),
        refl,
        simp (accounts, ==-refl account, held_funds) (ground (arith, ==_iff account b, held_funds)),
        release_again id account _ (insert id l s'.locked_tokens)
            (record s' { locked_tokens = insert id l s'.locked_tokens }),
      )
