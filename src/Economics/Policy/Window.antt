-- ===== src/Economics/Policy/Window.antt =====
-- Rate limits and balances over an authorized use: `authorize_resource_usage`, then
-- `record_resource_usage` (crates/runtime/icn-economics/src/policy.rs).
use icn.Prelude.{
  ℕ, ◌+◌, ◌-◌, ◌%◌, ◌≤◌, ◌<◌, ◌≡◌, ◌≢◌, ◌⊎◌, refl, some, String, List, [], ◌∷◌, ◌++◌, ok, err,
  arith, if◌then◌else◌, string_eq, ◌==◌, ==_iff, ==-refl, retain, sum_by, u64_mod, ltb,
}
use icn.Prelude.Map.{Map, insert, get-insert_self}
use icn.Economics.Types.{IdentityScope}
use icn.Economics.Policy.{
  ResourceType, to_string, insufficient_balance, TokenAuthorizationRule, RateLimit, get_token_rule,
}
use icn.Economics.Policy.Enforcer.{
  Usage, PolicyEnforcer, get_balance, set_balance, usage_of, usage_key, is_recent, total,
  check_min_balance, check_rate_limits, authorize_resource_usage, record_resource_usage,
}
use icn.Economics.Policy.Checks.{get_balance-set_balance}

-- The exact sum of the amounts in the window that ends now.
abbrev pub used : ℕ → RateLimit → Usage → ℕ
used now limit u = sum_by (λ x. x.1) (retain (is_recent now limit) u)

total-mod : (u : Usage) → total u ≡ sum_by (λ x. x.1) u % u64_mod
unfolding total
total-mod [] = omega arith
total-mod ((time, n) ∷ u) = omega (arith, total-mod u)

-- Cleaning up takes nothing out of the window.
used-retain :
    (now : ℕ) (limit : RateLimit) (u : Usage)
    → used now limit (retain (is_recent now limit) u) ≡ used now limit u
used-retain now limit [] = refl
used-retain now limit ((time, n) ∷ u) = ground (arith, used-retain now limit u)

-- A use that is recorded now is in the window.
used-append :
    (now n : ℕ) (limit : RateLimit) (u : Usage)
    → used now limit (u ++ ((now, n) ∷ [])) ≡ used now limit u + n
used-append now n limit [] = ground arith
used-append now n limit ((time, m) ∷ u) = ground (arith, used-append now n limit u)

recorded_usage :
    (now : ℕ) (identity : String) (t : ResourceType) (amount : ℕ) (e : PolicyEnforcer)
    → usage_of identity t (record_resource_usage now identity t amount e).1
      ≡ usage_of identity t e ++ ((now, amount) ∷ [])
unfolding record_resource_usage set_balance
recorded_usage now identity t amount e = ground (
  arith,
  get-insert_self (usage_key identity t) (usage_of identity t e ++ ((now, amount) ∷ []))
      e.usage_tracker,
)

record_result :
    (now : ℕ) (identity : String) (t : ResourceType) (amount : ℕ) (e : PolicyEnforcer)
    → let balance = get_balance identity (to_string t) e in
      (record_resource_usage now identity t amount e).0
      ≡ (if ltb balance amount then err (insufficient_balance amount balance) else ok tt)
unfolding record_resource_usage
record_result now identity t amount e = ground arith

tracking_keeps :
    (i t : String) (m : Map String Usage) (e : PolicyEnforcer)
    → get_balance i t (record e { usage_tracker = m }) ≡ get_balance i t e
unfolding get_balance
tracking_keeps i t m e = refl

recorded_balance :
    (now : ℕ) (identity j u : String) (t : ResourceType) (amount : ℕ) (e : PolicyEnforcer)
    → let balance = get_balance identity (to_string t) e in
      get_balance j u (record_resource_usage now identity t amount e).1 ≡ (
        if identity == j
        then (if to_string t == u
            then (if ltb balance amount then balance else balance - amount)
            else get_balance j u e)
        else get_balance j u e)
unfolding record_resource_usage
recorded_balance now identity j u t amount e =
    let key : String = to_string t in
    let balance : ℕ = get_balance identity key e in
    let tracked : Usage = usage_of identity t e ++ ((now, amount) ∷ []) in
    let m : Map String Usage = insert (usage_key identity t) tracked e.usage_tracker in
    let e1 : PolicyEnforcer = record e { usage_tracker = m } in
    let e2 : PolicyEnforcer = set_balance identity key balance e1 in
    ground (
      arith,
      tracking_keeps j u m e,
      get_balance-set_balance identity j key u balance e1,
      get_balance-set_balance identity j key u (balance - amount) e2,
    )

-- What is recorded is paid exactly: the record succeeds when the balance covers the amount, which is
-- then taken off, and no other balance changes. A record that fails takes nothing.
pub record_resource_usage_exact :
    (now : ℕ) (identity j u : String) (t : ResourceType) (amount : ℕ) (e : PolicyEnforcer)
    → (identity ≢ j) ⊎ (to_string t ≢ u)
    → let (r, e') = record_resource_usage now identity t amount e in
      let balance = get_balance identity (to_string t) e in
      (((r ≡ ok tt) × (get_balance identity (to_string t) e' + amount ≡ balance))
        ⊎ ((r ≡ err (insufficient_balance amount balance))
            × (balance < amount)
            × (get_balance identity (to_string t) e' ≡ balance)))
      × (get_balance j u e' ≡ get_balance j u e)
record_resource_usage_exact now identity j u t amount e ne =
    let key : String = to_string t in
    ground (
      arith,
      record_result now identity t amount e,
      recorded_balance now identity identity key t amount e,
      recorded_balance now identity j u t amount e,
      ==-refl identity,
      ==-refl key,
      ==_iff identity j,
      ==_iff key u,
    )

-- A record that the balance does not cover fails, and still counts against the rate limit: the use
-- of the window grows by the amount that was not paid, which is not what an error should do.
pub record_failed_counts :
    (now : ℕ) (identity : String) (t : ResourceType) (amount : ℕ) (limit : RateLimit)
    (e : PolicyEnforcer)
    → get_balance identity (to_string t) e < amount
    → let (r, e') = record_resource_usage now identity t amount e in
      (r ≡ err (insufficient_balance amount (get_balance identity (to_string t) e)))
      × (get_balance identity (to_string t) e' ≡ get_balance identity (to_string t) e)
      × (used now limit (usage_of identity t e') ≡ used now limit (usage_of identity t e) + amount)
record_failed_counts now identity t amount limit e short =
    let key : String = to_string t in
    ground (
      arith,
      record_result now identity t amount e,
      recorded_balance now identity identity key t amount e,
      ==-refl identity,
      ==-refl key,
      recorded_usage now identity t amount e,
      used-append now amount limit (usage_of identity t e),
    )

-- What the two checks on the state of the enforcer leave, and what they tell when they pass.
authorized :
    (now : ℕ) (identity : String) (t : ResourceType) (amount least : ℕ) (scope : IdentityScope)
    (roles : List String) (rule : TokenAuthorizationRule) (limit : RateLimit) (e : PolicyEnforcer)
    → get_token_rule t e.policy ≡ some rule
    → rule.min_balance ≡ some least
    → rule.rate_limits ≡ some limit
    → used now limit (usage_of identity t e) + amount < u64_mod
    → (authorize_resource_usage now identity t amount scope roles e).0 ≡ ok tt
    → let e' = (authorize_resource_usage now identity t amount scope roles e).1 in
      (used now limit (usage_of identity t e) + amount ≤ limit.max_amount)
      × (least + amount ≤ get_balance identity (to_string t) e)
      × (usage_of identity t e' ≡ retain (is_recent now limit) (usage_of identity t e))
      × (get_balance identity (to_string t) e' ≡ get_balance identity (to_string t) e)
unfolding authorize_resource_usage check_min_balance check_rate_limits
authorized now identity t amount least scope roles rule limit e found minimum limited room passed =
    let recent : Usage = retain (is_recent now limit) (usage_of identity t e) in
    ground (
      arith,
      total-mod recent,
      get-insert_self (usage_key identity t) recent e.usage_tracker,
      tracking_keeps identity (to_string t) (insert (usage_key identity t) recent e.usage_tracker)
          e,
    )

-- A use that is authorized and then recorded at the same time stays in bounds: all that was used in
-- the window is within the rate limit, and the amount comes off the balance, which keeps its
-- minimum. This takes a rule with a minimum and a limit, and a sum of the uses that is a u64.
pub authorized_use_in_bounds :
    (now : ℕ) (identity : String) (t : ResourceType) (amount least : ℕ) (scope : IdentityScope)
    (roles : List String) (rule : TokenAuthorizationRule) (limit : RateLimit) (e : PolicyEnforcer)
    → get_token_rule t e.policy ≡ some rule
    → rule.min_balance ≡ some least
    → rule.rate_limits ≡ some limit
    → used now limit (usage_of identity t e) + amount < u64_mod
    → (authorize_resource_usage now identity t amount scope roles e).0 ≡ ok tt
    → let e1 = (authorize_resource_usage now identity t amount scope roles e).1 in
      let (r, e2) = record_resource_usage now identity t amount e1 in
      (r ≡ ok tt)
      × (used now limit (usage_of identity t e2) ≤ limit.max_amount)
      × (get_balance identity (to_string t) e2 + amount ≡ get_balance identity (to_string t) e)
      × (least ≤ get_balance identity (to_string t) e2)
authorized_use_in_bounds now identity t amount least scope roles rule limit e found minimum limited
      room passed =
    let e1 : PolicyEnforcer = (authorize_resource_usage now identity t amount scope roles e).1 in
    let key : String = to_string t in
    ground (
      arith,
      authorized now identity t amount least scope roles rule limit e found minimum limited room
          passed,
      record_result now identity t amount e1,
      recorded_balance now identity identity key t amount e1,
      ==-refl identity,
      ==-refl key,
      recorded_usage now identity t amount e1,
      used-append now amount limit (usage_of identity t e1),
      used-retain now limit (usage_of identity t e),
    )
