-- ===== src/Escrow/Payments/Conservation.antt =====
-- The sum of all balances and locks under the methods of
-- crates/mesh/mesh-escrow/src/payments.rs.
use icn.Prelude.{
  ℕ, ◌+◌, ◌-◌, ◌≤◌, ◌<◌, ◌≡◌, ◌⊎◌, inl, inr, refl, none, String, List, [], ◌∷◌, ◌∙◌, ok, err, arith,
  u64_mod, Option-cases, sum_by, string_eq,
}
use icn.Prelude.Map.{
  get, IsUnique, insert-IsUnique, remove-IsUnique, sum_by-insert, sum_by-insert_new, le-sum_by,
  sum_by-remove, get-insert_self,
}
use icn.Escrow.Token.{TokenAmount}
use icn.Escrow.Payments.{
  PaymentSystem, LockedTokens, PaymentError, tokens, open_account, entry_value, set_value,
  add_balance, transfer, lock_tokens, release_tokens, get_balance,
}

abbrev pub funds : PaymentSystem → ℕ
funds s = sum_by (λ p. p.1.value) s.balances

abbrev pub held_total : PaymentSystem → ℕ
held_total s = sum_by (λ p. p.1.held.value) s.locked_tokens

-- All tokens there are, free and locked.
abbrev pub supply : PaymentSystem → ℕ
supply s = funds s + held_total s

-- Writing a balance moves the sum by the difference.
pub funds-set_value :
    (account : String) (n : ℕ) (s : PaymentSystem)
    → funds (set_value account n s) + entry_value account s ≡ funds s + n
unfolding set_value entry_value
funds-set_value account n s = elim (Option-cases (get account s.balances)) [
  | inl missing ↦ ground (
    arith,
    sum_by-insert_new (λ (v : TokenAmount). v.value) account (tokens s n) s.balances missing,
  )
  | inr (old, found) ↦ ground (
    arith,
    sum_by-insert (λ (v : TokenAmount). v.value) account (tokens s n) old s.balances found,
  )
]

pub funds-open_account :
    (account : String) (s : PaymentSystem) → funds (open_account account s) ≡ funds s
unfolding open_account
funds-open_account account s = elim (Option-cases (get account s.balances)) [
  | inl missing ↦ ground (
    arith,
    sum_by-insert_new (λ (v : TokenAmount). v.value) account (tokens s 0) s.balances missing,
  )
  | inr (old, found) ↦ ground arith
]

pub entry_value-open_account :
    (account : String) (s : PaymentSystem)
    → entry_value account (open_account account s) ≡ entry_value account s
unfolding open_account entry_value
entry_value-open_account account s = ground (arith, get-insert_self account (tokens s 0) s.balances)

pub entry_value-le-funds : (account : String) (s : PaymentSystem) → entry_value account s ≤ funds s
unfolding entry_value
entry_value-le-funds account s = elim (Option-cases (get account s.balances)) [
  | inl missing ↦ ground arith
  | inr (old, found) ↦
      ground (arith, le-sum_by (λ (v : TokenAmount). v.value) account old s.balances found)
]

-- What the helpers leave alone.
pub open_account_keeps :
    (account : String) (s : PaymentSystem)
    → ((open_account account s).locked_tokens ≡ s.locked_tokens)
      × ((open_account account s).decimals ≡ s.decimals)
      × ((open_account account s).transfers ≡ s.transfers)
unfolding open_account
open_account_keeps account s = (refl, refl, refl)

pub set_value_keeps :
    (account : String) (n : ℕ) (s : PaymentSystem)
    → ((set_value account n s).locked_tokens ≡ s.locked_tokens)
      × ((set_value account n s).decimals ≡ s.decimals)
      × ((set_value account n s).transfers ≡ s.transfers)
unfolding set_value
set_value_keeps account n s = (refl, refl, refl)

ruleset writes = (
  arith, funds-set_value, funds-open_account, entry_value-open_account, entry_value-le-funds,
  open_account_keeps, set_value_keeps,
)

transfer-funds :
    (uuid : String) (now : ℕ) (from to : String) (a : TokenAmount) (r : String) (s : PaymentSystem)
    → funds s < u64_mod
    → (funds (transfer uuid now from to a r s).1 ≡ funds s)
      × ((transfer uuid now from to a r s).1.locked_tokens ≡ s.locked_tokens)
unfolding transfer
transfer-funds uuid now from to a r s h = grind writes

lock_supply :
    (id account : String) (a : TokenAmount) (purpose : String) (s : PaymentSystem)
    → get id s.locked_tokens ≡ none
    → supply (lock_tokens id account a purpose s).1 ≡ supply s
unfolding lock_tokens entry_value get_balance
lock_supply id account a purpose s fresh = ground (
  arith,
  funds-set_value account ((entry_value account s) - a.value) s,
  set_value_keeps account ((entry_value account s) - a.value) s,
  sum_by-insert_new (λ (v : LockedTokens). v.held.value) id
      (record { owner = account; held = a; purpose = purpose }) s.locked_tokens fresh,
)

release_supply :
    (id : String) (s : PaymentSystem)
    → IsUnique s.locked_tokens
    → supply s < u64_mod
    → supply (release_tokens id s).1 ≡ supply s
unfolding release_tokens
release_supply id s u h = elim (Option-cases (get id s.locked_tokens)) [
  | inl missing ↦ ground arith
  | inr (l, found) ↦
      grind
        (writes, sum_by-remove (λ (v : LockedTokens). v.held.value) id l s.locked_tokens u found)
]

-- `add_balance` adds its amount to all tokens there are, or reports an overflow and adds none.
pub supply-add_balance :
    (account : String) (n : ℕ) (s : PaymentSystem)
    → (((add_balance account n s).0 ≡ ok tt) × (supply (add_balance account n s).1 ≡ supply s + n))
      ⊎ (((add_balance account n s).0 ≡ err PaymentError.balance_overflow)
          × (supply (add_balance account n s).1 ≡ supply s))
unfolding add_balance
supply-add_balance account n s = grind writes

lock-IsUnique :
    (id account : String) (a : TokenAmount) (purpose : String) (s : PaymentSystem)
    → IsUnique s.locked_tokens
    → IsUnique (lock_tokens id account a purpose s).1.locked_tokens
unfolding lock_tokens set_value
lock-IsUnique id account a purpose s u = ground (
  arith,
  insert-IsUnique id (record { owner = account; held = a; purpose = purpose }) s.locked_tokens u,
)

release-IsUnique :
    (id : String) (s : PaymentSystem)
    → IsUnique s.locked_tokens
    → IsUnique (release_tokens id s).1.locked_tokens
unfolding release_tokens set_value open_account
release-IsUnique id s u = ground (arith, remove-IsUnique id s.locked_tokens u)

-- The methods that move tokens, with their fresh identifiers and times.
pub data Call : Type 0 where
  transfers : String → ℕ → String → String → TokenAmount → String → Call
  locks : String → String → TokenAmount → String → Call
  releases : String → Call

unfoldable pub step : Call → PaymentSystem → PaymentSystem
step (transfers uuid now from to a r) s = (transfer uuid now from to a r s).1
step (locks id account a purpose) s = (lock_tokens id account a purpose s).1
step (releases id) s = (release_tokens id s).1

-- A new lock has a new identifier.
abbrev pub IsFresh : Call → PaymentSystem → Type 0
IsFresh (locks id account a purpose) s = get id s.locked_tokens ≡ none
IsFresh (transfers uuid now from to a r) s = Unit
IsFresh (releases id) s = Unit

step-supply :
    (c : Call) (s : PaymentSystem)
    → IsUnique s.locked_tokens
    → supply s < u64_mod
    → IsFresh c s
    → (supply (step c s) ≡ supply s) × IsUnique (step c s).locked_tokens
unfolding step
step-supply (transfers uuid now from to a r) s u h fresh =
    let (moved, kept) = transfer-funds uuid now from to a r s (omega arith) in
    (rw (moved, kept) refl, rw kept u)
step-supply (locks id account a purpose) s u h fresh =
    (lock_supply id account a purpose s fresh, lock-IsUnique id account a purpose s u)
step-supply (releases id) s u h fresh = (release_supply id s u h, release-IsUnique id s u)

pub run : List Call → PaymentSystem → PaymentSystem
run [] s = s
run (c ∷ cs) s = run cs (step c s)

abbrev pub RunFresh : List Call → PaymentSystem → Type 0
RunFresh [] s = Unit
RunFresh (c ∷ cs) s = IsFresh c s × RunFresh cs (step c s)

-- Any history of transfers, locks and releases, failed calls among them, keeps the sum of all free
-- and locked tokens, if that sum is a u64 and every new lock has a new identifier.
pub supply-run :
    (cs : List Call) (s : PaymentSystem)
    → IsUnique s.locked_tokens
    → supply s < u64_mod
    → RunFresh cs s
    → supply (run cs s) ≡ supply s
unfolding run
supply-run [] s u h fresh = refl
supply-run (c ∷ cs) s u h (f, fs) =
    let (same, u') = step-supply c s u h f in supply-run cs (step c s) u' (rw same h) fs ∙ same
