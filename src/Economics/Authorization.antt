-- ===== src/Economics/Authorization.antt =====
-- Creating, validating and consuming resource authorizations, over any authorization storage
-- (crates/runtime/icn-economics/src/lib.rs).
pub mod Spending
mod Tests
use icn.Prelude.{
  ℕ, Bool, true, false, not, Option, none, some, String, Result, ok, err, ok_or, ltb, add64,
  if◌then◌else◌,
}
use icn.Prelude.Int.{ℤ}
use icn.Prelude.State.{Action, pure, lift, reads, ◌>>=◌, ◌>>◌}
use icn.Economics.Types.{
  IdentityScope, ResourceType, EconomicsError, authorization_expired, insufficient_authorization,
  authorization_not_found, ResourceAuthorization, new_authorization, is_valid, remaining_amount,
}
use icn.Economics.Storage.{AuthorizationStorage}

-- The tests of `validate_authorization_usage` on the authorization that was read.
pub check_usage : {J : Type 0} → ℕ → ℤ → ResourceAuthorization J → Result EconomicsError (Unit {0})
check_usage requested now auth =
    let remaining = remaining_amount auth in
    let enough : Result EconomicsError (Unit {0}) =
      if ltb remaining requested
      then err (insufficient_authorization requested remaining)
      else ok tt in
    if is_valid auth now then enough else elim auth.expiry_timestamp [
      | none ↦ enough
      | some expiry ↦ err (authorization_expired expiry)
    ]

module _ {J S : Type 0} (st : AuthorizationStorage J S) where
  open st use {store_authorization, get_authorization, update_authorization}

  pub create_authorization :
      ℕ
      → (grantor grantee : String) → ResourceType
      → ℕ
      → IdentityScope
      → Option ℤ
      → Option J
      → Action S EconomicsError (ResourceAuthorization J)
  create_authorization uuid grantor grantee t amount scope expiry metadata = do
    let auth = new_authorization uuid grantor grantee t amount scope expiry metadata
    store_authorization auth
    pure auth

  pub validate_authorization_usage : ℕ → ℕ → ℤ → S → Result EconomicsError (Unit {0})
  validate_authorization_usage id requested now s = elim (get_authorization id s) [
    | err e ↦ err e
    | ok none ↦ err (authorization_not_found id)
    | ok (some auth) ↦ check_usage requested now auth
  ]

  pub consume_authorization : ℕ → ℕ → ℤ → Action S EconomicsError (ResourceAuthorization J)
  unfolding validate_authorization_usage
  consume_authorization id amount now = do
    reads (validate_authorization_usage id amount now)
    found ← reads (get_authorization id)
    auth ← lift (ok_or found (authorization_not_found id))
    let consumed = record auth { consumed_amount = add64 auth.consumed_amount amount }
    update_authorization consumed
    pure consumed
