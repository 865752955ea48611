-- ===== src/Economics/Policy/Enforcer.antt =====
-- `PolicyEnforcer`: balances and the usage of the last seconds, per identity and token type
-- (crates/runtime/icn-economics/src/policy.rs). Instants are numbers of nanoseconds.
use Prim.Native.String.{◌++◌ as str_append}
use icn.Prelude.{
  ℕ, ◌-◌, ◌*◌, Bool, ◌||◌, none, some, String, List, [], ◌∷◌, ◌++◌, Result, ok, err, if◌then◌else◌,
  ltb, leb, add64, string_eq, retain,
}
use icn.Prelude.Map.{Map, get, insert, get_or}
use icn.Prelude.State.{Action}
use icn.Economics.Types.{IdentityScope}
use icn.Economics.Policy.{
  ResourceType, to_string, PolicyError, rate_limit_exceeded, insufficient_balance, RateLimit,
  FederationPolicy, get_token_rule, check_resource_authorization,
}

abbrev pub Usage : Type 0
Usage = List (ℕ × ℕ)

pub record PolicyEnforcer : Type 0 where
  pub policy : FederationPolicy
  pub balances : Map String (Map String ℕ)
  pub usage_tracker : Map String Usage

unfoldable pub new_enforcer : FederationPolicy → PolicyEnforcer
new_enforcer policy = record { policy = policy; balances = []; usage_tracker = [] }

-- `get_balance`
unfoldable pub get_balance : (identity token_type : String) → PolicyEnforcer → ℕ
get_balance identity token_type e = elim (get identity e.balances) [
  | none ↦ 0
  | some balances ↦ get_or token_type 0 balances
]

unfoldable pub set_balance : (identity token_type : String) → ℕ → PolicyEnforcer → PolicyEnforcer
set_balance identity token_type amount e = record e {
  balances = insert identity (insert token_type amount (get_or identity [] e.balances)) e.balances;
}

-- The key of the tracker.
unfoldable pub usage_key : String → ResourceType → String
usage_key identity t = str_append identity (str_append ":" (to_string t))

-- What `entry(key).or_insert_with(Vec::new)` finds.
abbrev pub usage_of : String → ResourceType → PolicyEnforcer → Usage
usage_of identity t e = get_or (usage_key identity t) [] e.usage_tracker

abbrev pub is_recent : ℕ → RateLimit → ℕ × ℕ → Bool
is_recent now limit (time, _) = leb (now - time) (limit.window_seconds * 1_000_000_000)

-- `iter().map(|(_, amt)| amt).sum()` on u64
unfoldable pub total : Usage → ℕ
total [] = 0
total ((_, amount) ∷ rest) = add64 amount (total rest)

unfoldable pub check_rate_limits :
    ℕ → String → ResourceType → ℕ → Action PolicyEnforcer PolicyError (Unit {0})
check_rate_limits now identity t amount e = elim (get_token_rule t e.policy) [
  | none ↦ (ok tt, e)
  | some rule ↦ elim rule.rate_limits [
    | none ↦ (ok tt, e)
    | some limit ↦
        let recent = retain (is_recent now limit) (usage_of identity t e) in
        let e' = record e {
          usage_tracker = insert (usage_key identity t) recent e.usage_tracker;
        } in
        (
          if ltb limit.max_amount (add64 (total recent) amount)
              then err (rate_limit_exceeded t limit.max_amount limit.window_seconds)
              else ok tt,
          e',
        )
  ]
]

-- The test on the minimum balance in `authorize_resource_usage`.
unfoldable pub check_min_balance :
    String → ResourceType → ℕ → PolicyEnforcer → Result PolicyError (Unit {0})
check_min_balance identity t amount e = elim (get_token_rule t e.policy) [
  | none ↦ ok tt
  | some rule ↦ elim rule.min_balance [
    | none ↦ ok tt
    | some least ↦
        let balance = get_balance identity (to_string t) e in
        if ltb balance amount || ltb (balance - amount) least
        then err (insufficient_balance (add64 amount least) balance)
        else ok tt
  ]
]

unfoldable pub authorize_resource_usage :
    ℕ
    → String
    → ResourceType
    → ℕ
    → IdentityScope
    → List String
    → Action PolicyEnforcer PolicyError (Unit {0})
authorize_resource_usage now identity t amount scope roles e =
    elim (check_resource_authorization e.policy t amount scope roles) [
      | err x ↦ (err x, e)
      | ok _ ↦ elim (check_min_balance identity t amount e) [
        | err x ↦ (err x, e)
        | ok _ ↦ check_rate_limits now identity t amount e
      ]
    ]

unfoldable pub record_resource_usage :
    ℕ → String → ResourceType → ℕ → Action PolicyEnforcer PolicyError (Unit {0})
record_resource_usage now identity t amount e =
    let tracked = usage_of identity t e ++ ((now, amount) ∷ []) in
    let balance = get_balance identity (to_string t) e in
    let e1 = record e { usage_tracker = insert (usage_key identity t) tracked e.usage_tracker } in
    let e2 = set_balance identity (to_string t) balance e1 in
    if ltb balance amount
    then (err (insufficient_balance amount balance), e2)
    else (ok tt, set_balance identity (to_string t) (balance - amount) e2)
