-- ===== src/Economics/Policy/Tests.antt =====
-- A policy with one rule and an enforcer with one account, and the theorems at them.
use icn.Prelude.{◌+◌, ◌≤◌, ◌≡◌, refl, none, some, [], ◌∷◌, ok, err, arith, string_eq, nat_eq}
use icn.Prelude.Map.{get}
use icn.Economics.Types.{cooperative, federation}
use icn.Economics.Policy.{
  energy, custom, to_string, decimal, role_not_authorized, RateLimit, TokenAuthorizationRule,
  FederationPolicy, get_token_rule, is_scope_allowed, has_allowed_role, scope_beq,
  check_resource_authorization,
}
use icn.Economics.Policy.Enforcer.{
  PolicyEnforcer, get_balance, usage_of, total, check_min_balance, check_rate_limits,
  authorize_resource_usage, record_resource_usage,
}
use icn.Economics.Policy.Window.{used, authorized_use_in_bounds}

abbrev limit : RateLimit
limit = record { max_amount = 100; window_seconds = 60; max_burst = none }

abbrev energy_rule : TokenAuthorizationRule
energy_rule = record {
  token_type = energy;
  max_per_action = 80;
  min_balance = some 10;
  rate_limits = some limit;
  allowed_scopes = some (cooperative ∷ federation ∷ []);
  allowed_roles = some ("member" ∷ []);
}

abbrev policy : FederationPolicy
policy = record {
  federation_id = "fed";
  version = "1";
  token_rules = ("energy", energy_rule) ∷ [];
  global_rate_limits = none;
  metadata = none;
}

abbrev enforcer : PolicyEnforcer
enforcer = record {
  policy = policy;
  balances = ("ann", ("energy", 90) ∷ []) ∷ [];
  usage_tracker = [];
}

named : to_string (custom 407) ≡ "custom_407"
unfolding to_string decimal
named = refl

stranger :
    check_resource_authorization policy energy 5 cooperative ("guest" ∷ [])
    ≡ err (role_not_authorized "guest")
unfolding check_resource_authorization get_token_rule get to_string is_scope_allowed
    has_allowed_role scope_beq
stranger = refl

authorized_use_in_bounds_example :
    let e1 = (authorize_resource_usage 5 "ann" energy 80 cooperative ("member" ∷ []) enforcer).1 in
    let (r, e2) = record_resource_usage 5 "ann" energy 80 e1 in
    (r ≡ ok tt)
    × (used 5 limit (usage_of "ann" energy e2) ≤ 100)
    × (get_balance "ann" (to_string energy) e2 + 80 ≡ get_balance "ann" (to_string energy) enforcer)
    × (10 ≤ get_balance "ann" (to_string energy) e2)
unfolding authorize_resource_usage check_resource_authorization get_token_rule get to_string
    is_scope_allowed has_allowed_role scope_beq check_min_balance check_rate_limits get_balance
    total
authorized_use_in_bounds_example =
    authorized_use_in_bounds 5 "ann" energy 80 10 cooperative ("member" ∷ []) energy_rule limit
      enforcer refl refl refl (omega arith) refl
