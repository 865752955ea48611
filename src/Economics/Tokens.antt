-- ===== src/Economics/Tokens.antt =====
-- Minting, transferring and burning scoped resource tokens, over any token storage: `token_ops` of
-- crates/runtime/icn-economics/src/lib.rs.
pub mod Ownership
mod Tests
use icn.Prelude.{
  ℕ, Bool, true, false, not, Option, none, some, String, List, Result, ok, err, ok_or, ◌==◌,
  string_eq,
}
use icn.Prelude.Int.{ℤ}
use icn.Prelude.State.{Action, pure, lift, reads, ◌>>=◌, ◌>>◌, raise_if}
use icn.Economics.Types.{
  IdentityScope, ResourceType, EconomicsError, unauthorized, token_not_found, ScopedResourceToken,
}
use icn.Economics.Storage.{TokenStorage}

module _ {J S : Type 0} (st : TokenStorage J S) where
  open st use {store_token, get_token, delete_token, list_tokens_by_owner}

  -- `now` is the current time, and `uuid` the fresh identifier.
  pub mint_token :
      ℕ
      → ℤ
      → String
      → ResourceType
      → ℕ
      → IdentityScope
      → Option J
      → Action S EconomicsError (ScopedResourceToken J)
  mint_token uuid now owner t amount scope metadata = do
    let token : ScopedResourceToken J = record {
      token_id = uuid;
      owner_did = owner;
      resource_type = t;
      amount = amount;
      scope = scope;
      metadata = metadata;
      issuance_date = now;
    }
    store_token token
    pure token

  pub transfer_token : ℕ → (from to : String) → Action S EconomicsError (Unit {0})
  transfer_token id from to = do
    found ← reads (get_token id)
    token ← lift (ok_or found (token_not_found id))
    raise_if (not (token.owner_did == from)) (unauthorized from)
    store_token (record token { owner_did = to })

  pub burn_token : ℕ → String → Action S EconomicsError (Unit {0})
  burn_token id owner = do
    found ← reads (get_token id)
    token ← lift (ok_or found (token_not_found id))
    raise_if (not (token.owner_did == owner)) (unauthorized owner)
    delete_token id

  pub get_tokens_by_owner : String → S → Result EconomicsError (List (ScopedResourceToken J))
  get_tokens_by_owner owner s = list_tokens_by_owner owner s
