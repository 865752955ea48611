-- ===== src/Economics/Policy/Checks.antt =====
-- Which requests the checks of a policy let pass, and what a balance pays for
-- (crates/runtime/icn-economics/src/policy.rs).
use icn.Prelude.{
  ℕ, ◌≤◌, ◌≡◌, ◌↔◌, inl, inr, true, some, String, List, [], ok, arith, if◌then◌else◌, string_eq,
  ◌==◌, ==_iff, Option-cases,
}
use icn.Prelude.Map.{get, insert, get_or, get-insert}
use icn.Economics.Types.{IdentityScope}
use icn.Economics.Policy.{
  ResourceType, to_string, TokenAuthorizationRule, FederationPolicy, get_token_rule, add_token_rule,
  is_scope_allowed, has_allowed_role, check_resource_authorization,
}
use icn.Economics.Policy.Enforcer.{PolicyEnforcer, get_balance, set_balance}

-- A policy lets a request pass exactly when it has a rule for the token type, and the rule allows
-- the scope, one of the roles, and the amount.
pub check_resource_authorization_iff :
    (p : FederationPolicy) (t : ResourceType) (amount : ℕ) (scope : IdentityScope)
    (roles : List String)
    → (check_resource_authorization p t amount scope roles ≡ ok tt) ↔ (
        (rule : TokenAuthorizationRule) × (get_token_rule t p ≡ some rule)
        × (is_scope_allowed rule scope ≡ true)
        × (has_allowed_role rule roles ≡ true)
        × (amount ≤ rule.max_per_action))
unfolding check_resource_authorization
check_resource_authorization_iff p t amount scope roles = elim (Option-cases (get_token_rule t p)) [
  | inl missing ↦ (λ h. ground arith, λ (r, f, s, o, l). ground arith)
  | inr (rule, found) ↦ (
    λ h. (rule, found, ground arith, ground arith, ground arith),
    λ (r, f, s, o, l). ground arith,
  )
]

-- Adding a rule replaces the rule for its token type, and keeps the others.
pub get_token_rule-add_token_rule :
    (t : ResourceType) (rule : TokenAuthorizationRule) (p : FederationPolicy)
    → get_token_rule t (add_token_rule rule p)
      ≡ (if to_string rule.token_type == to_string t then some rule else get_token_rule t p)
unfolding get_token_rule add_token_rule
get_token_rule-add_token_rule t rule p =
    get-insert (to_string t) (to_string rule.token_type) rule p.token_rules

-- A balance that was set is read back, and no other is changed.
pub get_balance-set_balance :
    (i j t u : String) (n : ℕ) (e : PolicyEnforcer)
    → get_balance j u (set_balance i t n e)
      ≡ (if i == j then (if t == u then n else get_balance j u e) else get_balance j u e)
unfolding get_balance set_balance get
get_balance-set_balance i j t u n e = ground (
  arith,
  get-insert j i (insert t n (get_or i [] e.balances)) e.balances,
  get-insert u t n (get_or i [] e.balances),
  ==_iff i j,
)
