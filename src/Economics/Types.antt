-- ===== src/Economics/Types.antt =====
-- Tokens, authorizations, budgets and errors: the types of crates/runtime/icn-economics/src/lib.rs.
-- A Uuid is its 128-bit number, a timestamp is an i64, and `J` stands for serde_json::Value. Where
-- an error carries a text, the constructor carries what the text is made of.
use icn.Prelude.{
  ℕ, Bool, true, false, Option, none, some, String, ◌≡◌, ◌↔◌, arith, PartialEq, ==_iff, ◌==◌,
  string_eq, ltb, ◌-◌, if◌then◌else◌,
}
use icn.Prelude.Int.{ℤ, ltb_ℤ}

-- IdentityScope of crates/runtime/icn-identity/src/lib.rs
pub data IdentityScope : Type 0 where
  individual cooperative community federation node guardian administrator : IdentityScope

pub data ResourceType : Type 0 where
  compute storage network_bandwidth : ResourceType
  labor_hours community_credit custom : String → ResourceType

-- the derived `PartialEq`
unfoldable pub resource_beq : ResourceType → ResourceType → Bool
resource_beq compute compute = true
resource_beq storage storage = true
resource_beq network_bandwidth network_bandwidth = true
resource_beq (labor_hours a) (labor_hours b) = a == b
resource_beq (community_credit a) (community_credit b) = a == b
resource_beq (custom a) (custom b) = a == b
resource_beq _ _ = false

pub resource_beq_iff : (a b : ResourceType) → (resource_beq a b ≡ true) ↔ (a ≡ b)
unfolding resource_beq
resource_beq_iff (labor_hours a) (labor_hours b) =
    (ground (arith, ==_iff a b), ground (arith, ==_iff a b))
resource_beq_iff (community_credit a) (community_credit b) =
    (ground (arith, ==_iff a b), ground (arith, ==_iff a b))
resource_beq_iff (custom a) (custom b) = (ground (arith, ==_iff a b), ground (arith, ==_iff a b))
resource_beq_iff a b = (ground arith, ground arith)

instance abbrev pub resource_eq : PartialEq ResourceType
resource_eq = record { same = resource_beq; same_iff = resource_beq_iff }

pub data ProposalStatus : Type 0 where
  proposed voting_open voting_closed approved rejected executed failed cancelled : ProposalStatus

-- What went wrong with a token or an authorization in storage.
pub data TokenFault : Type 0 where
  cannot_serialize cannot_deserialize storage_error : String → TokenFault

-- What went wrong with a budget. The text of a storage's own error is left out.
pub data BudgetFault : Type 0 where
  cannot_serialize cannot_deserialize cannot_serialize_authorization : String → BudgetFault
  failed_to_load failed_to_store failed_to_store_authorization : BudgetFault
  budget_not_found category_not_found : String → BudgetFault
  outside_timeframe : ℤ → ℤ → BudgetFault
  exceeds_category : ResourceType → String → BudgetFault
  proposal_not_found : ℕ → BudgetFault
  not_votable not_approved : ProposalStatus → BudgetFault
  voting_ended : ℤ → BudgetFault
  quadratic_required : BudgetFault

pub data EconomicsError : Type 0 where
  invalid_token : TokenFault → EconomicsError
  insufficient_balance : (requested : ℕ) → ResourceType → (available : ℕ) → EconomicsError
  invalid_budget : BudgetFault → EconomicsError
  unauthorized : String → EconomicsError
  authorization_expired : ℤ → EconomicsError
  insufficient_authorization : (requested available : ℕ) → EconomicsError
  authorization_not_found token_not_found : ℕ → EconomicsError

pub record ScopedResourceToken (J : Type 0) : Type 0 where
  pub token_id : ℕ
  pub owner_did : String
  pub resource_type : ResourceType
  pub amount : ℕ
  pub scope : IdentityScope
  pub metadata : Option J
  pub issuance_date : ℤ

pub is_valid_for_scope : {J : Type 0} → ScopedResourceToken J → IdentityScope → Bool
is_valid_for_scope t scope = scope_matches t.scope scope
  where
    scope_matches : IdentityScope → IdentityScope → Bool
    scope_matches individual individual = true
    scope_matches cooperative cooperative = true
    scope_matches community community = true
    scope_matches federation federation = true
    scope_matches node node = true
    scope_matches guardian guardian = true
    scope_matches _ _ = false

pub record ResourceAuthorization (J : Type 0) : Type 0 where
  pub auth_id : ℕ
  pub grantor_did : String
  pub grantee_did : String
  pub resource_type : ResourceType
  pub authorized_amount : ℕ
  pub consumed_amount : ℕ
  pub scope : IdentityScope
  pub expiry_timestamp : Option ℤ
  pub metadata : Option J

module _ {J : Type 0} where
  unfoldable pub new_authorization :
      ℕ
      → (grantor grantee : String) → ResourceType
      → ℕ
      → IdentityScope
      → Option ℤ
      → Option J
      → ResourceAuthorization J
  new_authorization uuid grantor grantee t amount scope expiry metadata = record {
    auth_id = uuid;
    grantor_did = grantor;
    grantee_did = grantee;
    resource_type = t;
    authorized_amount = amount;
    consumed_amount = 0;
    scope = scope;
    expiry_timestamp = expiry;
    metadata = metadata;
  }

  unfoldable pub is_valid : ResourceAuthorization J → ℤ → Bool
  is_valid auth now = elim auth.expiry_timestamp [ none ↦ true | some expiry ↦ ltb_ℤ now expiry ]

  unfoldable pub remaining_amount : ResourceAuthorization J → ℕ
  remaining_amount auth =
      if ltb auth.authorized_amount auth.consumed_amount
      then 0
      else auth.authorized_amount - auth.consumed_amount
