-- ===== src/Economics/Policy.antt =====
-- Economic policies of a federation: the rules for token types and the check of a request against
-- them (crates/runtime/icn-economics/src/policy.rs).
pub mod Enforcer
pub mod Checks
pub mod Window
mod Tests
use Prim.Native.String.{◌++◌ as str_append}
use icn.Prelude.{
  ℕ, ◌/◌, ◌%◌, ◌≡◌, ◌↔◌, Bool, true, false, not, Option, none, some, String, List, [], ◌∷◌, Result,
  ok, err, arith, PartialEq, ◌==◌, nat_eq, string_eq, if◌then◌else◌, ltb, any, suc, zero, unwrap_or,
}
use icn.Prelude.Map.{Map, get, insert}
use icn.Economics.Types.{
  IdentityScope, individual, cooperative, community, federation, node, guardian, administrator,
}

-- `ResourceType` of policy.rs, which is not the one of the budgets
pub data ResourceType : Type 0 where
  compute storage network token energy reputation : ResourceType
  custom : ℕ → ResourceType

abbrev digit_in : List String → ℕ → String
digit_in [] n = ""
digit_in (d ∷ ds) zero = d
digit_in (d ∷ ds) (suc n) = digit_in ds n

abbrev digit : ℕ → String
digit = digit_in ("0" ∷ "1" ∷ "2" ∷ "3" ∷ "4" ∷ "5" ∷ "6" ∷ "7" ∷ "8" ∷ "9" ∷ [])

-- A number in decimal, of at most one digit more than the fuel: 4 are enough for a u16.
unfoldable pub decimal : ℕ → ℕ → String
decimal zero n = digit n
decimal (suc fuel) n =
    let rest = decimal fuel (n / 10) in
    if ltb n 10 then digit n else str_append rest (digit (n % 10))

-- `Display`
unfoldable pub to_string : ResourceType → String
to_string compute = "compute"
to_string storage = "storage"
to_string network = "network"
to_string token = "token"
to_string energy = "energy"
to_string reputation = "reputation"
to_string (custom id) = str_append "custom_" (decimal 4 id)

pub data PolicyError : Type 0 where
  token_type_not_allowed : String → PolicyError
  exceeds_maximum_amount : (token_type : String) → (requested limit : ℕ) → PolicyError
  rate_limit_exceeded : ResourceType → (max_amount window_seconds : ℕ) → PolicyError
  insufficient_balance : (required available : ℕ) → PolicyError
  scope_not_allowed : IdentityScope → PolicyError
  role_not_authorized : String → PolicyError

pub record RateLimit : Type 0 where
  pub max_amount : ℕ
  pub window_seconds : ℕ
  pub max_burst : Option ℕ

pub record TokenAuthorizationRule : Type 0 where
  pub token_type : ResourceType
  pub max_per_action : ℕ
  pub min_balance : Option ℕ
  pub rate_limits : Option RateLimit
  pub allowed_scopes : Option (List IdentityScope)
  pub allowed_roles : Option (List String)

unfoldable pub new_rule : ResourceType → ℕ → TokenAuthorizationRule
new_rule token_type max_per_action = record {
  token_type = token_type;
  max_per_action = max_per_action;
  min_balance = none;
  rate_limits = none;
  allowed_scopes = none;
  allowed_roles = none;
}

unfoldable pub scope_beq : IdentityScope → IdentityScope → Bool
scope_beq individual individual = true
scope_beq cooperative cooperative = true
scope_beq community community = true
scope_beq federation federation = true
scope_beq node node = true
scope_beq guardian guardian = true
scope_beq administrator administrator = true
scope_beq _ _ = false

pub scope_beq_iff : (a b : IdentityScope) → (scope_beq a b ≡ true) ↔ (a ≡ b)
unfolding scope_beq
scope_beq_iff a b = (ground arith, ground arith)

instance abbrev pub scope_eq : PartialEq IdentityScope
scope_eq = record { same = scope_beq; same_iff = scope_beq_iff }

-- `contains`
abbrev pub contains : {A : Type 0} → ⦃e : PartialEq A⦄ → List A → A → Bool
contains xs x = any (λ y. y == x) xs

unfoldable pub is_scope_allowed : TokenAuthorizationRule → IdentityScope → Bool
is_scope_allowed rule scope = elim rule.allowed_scopes [
  | none ↦ true
  | some scopes ↦ contains scopes scope
]

-- The test on the roles in `check_resource_authorization`.
unfoldable pub has_allowed_role : TokenAuthorizationRule → List String → Bool
has_allowed_role rule roles = elim rule.allowed_roles [
  | none ↦ true
  | some allowed ↦ any (λ role. contains allowed role) roles
]

abbrev pub first_role : List String → String
first_role [] = ""
first_role (role ∷ _) = role

pub record FederationPolicy : Type 0 where
  pub federation_id : String
  pub version : String
  pub token_rules : Map String TokenAuthorizationRule
  pub global_rate_limits : Option (Map String RateLimit)
  pub metadata : Option (Map String String)

unfoldable pub new_policy : (federation_id version : String) → FederationPolicy
new_policy federation_id version = record {
  federation_id = federation_id;
  version = version;
  token_rules = [];
  global_rate_limits = none;
  metadata = none;
}

unfoldable pub add_token_rule : TokenAuthorizationRule → FederationPolicy → FederationPolicy
add_token_rule rule p = record p {
  token_rules = insert (to_string rule.token_type) rule p.token_rules;
}

unfoldable pub add_global_rate_limit :
    ResourceType → RateLimit → FederationPolicy → FederationPolicy
add_global_rate_limit t limit p = record p {
  global_rate_limits = some (insert (to_string t) limit (unwrap_or p.global_rate_limits []));
}

unfoldable pub get_token_rule : ResourceType → FederationPolicy → Option TokenAuthorizationRule
get_token_rule t p = get (to_string t) p.token_rules

unfoldable pub check_resource_authorization :
    FederationPolicy
    → ResourceType
    → ℕ
    → IdentityScope
    → List String
    → Result PolicyError (Unit {0})
check_resource_authorization p t amount scope roles = elim (get_token_rule t p) [
  | none ↦ err (token_type_not_allowed (to_string t))
  | some rule ↦
      if not (is_scope_allowed rule scope)
      then err (scope_not_allowed scope)
      else if not (has_allowed_role rule roles)
      then err (role_not_authorized (first_role roles))
      else if ltb rule.max_per_action amount
      then err (exceeds_maximum_amount (to_string t) amount rule.max_per_action)
      else ok tt
]
