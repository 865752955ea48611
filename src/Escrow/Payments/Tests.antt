-- ===== src/Escrow/Payments/Tests.antt =====
-- Runs of the payment system of payments.rs, and the theorems at concrete systems.
use icn.Prelude.{ℕ, ◌≡◌, refl, List, [], ◌∷◌, arith, string_eq, nat_eq}
use icn.Prelude.Map.{get, insert}
use icn.Escrow.Token.{TokenAmount}
use icn.Escrow.Payments.{
  PaymentSystem, open_account, entry_value, set_value, transfer, lock_tokens,
  has_sufficient_balance, get_balance,
}
use icn.Escrow.Payments.Conservation.{
  Call, transfers, locks, releases, step, run, supply, RunFresh, supply-run,
}

abbrev amount : ℕ → TokenAmount
amount n = record { value = n; decimals = 6 }

abbrev bank : PaymentSystem
bank = record {
  balances = ("alice", amount 1000) ∷ ("bob", amount 5) ∷ [];
  locked_tokens = [];
  transfers = [];
  decimals = 6;
}

moved :
    (transfer "t1" 0 "alice" "carol" (amount 400) "pay" bank).1.balances
    ≡ ("alice", amount 600) ∷ ("bob", amount 5) ∷ ("carol", amount 400) ∷ []
unfolding transfer open_account entry_value set_value get insert
moved = refl

locked :
    (lock_tokens "l1" "alice" (amount 200) "escrow" bank).1.balances
    ≡ ("alice", amount 800) ∷ ("bob", amount 5) ∷ []
unfolding lock_tokens has_sufficient_balance get_balance set_value get insert
locked = refl

abbrev history : List Call
history =
    transfers "t1" 0 "alice" "carol" (amount 400) "pay"
    ∷ locks "l1" "alice" (amount 200) "escrow"
    ∷ transfers "t2" 1 "alice" "bob" (amount 900) "too much"
    ∷ releases "l1"
    ∷ releases "l1"
    ∷ []

history-RunFresh : RunFresh history bank
unfolding step transfer open_account entry_value set_value get insert
history-RunFresh = (tt, (refl, (tt, (tt, (tt, tt)))))

supply-run_example : supply (run history bank) ≡ 1005
supply-run_example = supply-run history bank tt (omega arith) history-RunFresh
