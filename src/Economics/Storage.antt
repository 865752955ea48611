-- ===== src/Economics/Storage.antt =====
-- The storage traits of crates/runtime/icn-economics/src/token_storage.rs as interfaces, with the
-- laws that their clients rely on, and the in-memory implementations.
use icn.Prelude.{
  ℕ, Option, none, some, String, List, ◌≡◌, arith, Result, ok, nat_eq, string_eq, ◌==◌,
  if◌then◌else◌, retain,
}
use icn.Prelude.Map.{Map, get, insert, remove, values, get-insert, get-remove}
use icn.Prelude.State.{Action, modify}
use icn.Economics.Types.{ScopedResourceToken, ResourceAuthorization, EconomicsError}

module _ (J S : Type 0) where
  pub record TokenStorage : Type 0 where
    pub store_token : ScopedResourceToken J → Action S EconomicsError (Unit {0})
    pub get_token : ℕ → S → Result EconomicsError (Option (ScopedResourceToken J))
    pub delete_token : ℕ → Action S EconomicsError (Unit {0})
    pub list_tokens_by_owner : String → S → Result EconomicsError (List (ScopedResourceToken J))

  pub record AuthorizationStorage : Type 0 where
    pub store_authorization : ResourceAuthorization J → Action S EconomicsError (Unit {0})
    pub get_authorization : ℕ → S → Result EconomicsError (Option (ResourceAuthorization J))
    pub update_authorization : ResourceAuthorization J → Action S EconomicsError (Unit {0})

-- What a client of a token storage may rely on: a store that succeeds is read back, and changes
-- what is read of no other token; so for a deletion.
pub record LawfulTokens {J S : Type 0} (st : TokenStorage J S) : Type 0 where
  pub get-store :
      (t : ScopedResourceToken J) (id : ℕ) (s : S)
      → (st.store_token t s).0 ≡ ok tt
      → st.get_token id (st.store_token t s).1
        ≡ (if t.token_id == id then ok (some t) else st.get_token id s)
  pub get-delete :
      (id j : ℕ) (s : S)
      → (st.delete_token id s).0 ≡ ok tt
      → st.get_token j (st.delete_token id s).1 ≡ (if id == j then ok none else st.get_token j s)

pub record LawfulAuthorizations {J S : Type 0} (st : AuthorizationStorage J S) : Type 0 where
  pub get-store_authorization :
      (a : ResourceAuthorization J) (id : ℕ) (s : S)
      → (st.store_authorization a s).0 ≡ ok tt
      → st.get_authorization id (st.store_authorization a s).1
        ≡ (if a.auth_id == id then ok (some a) else st.get_authorization id s)
  pub get-update :
      (a : ResourceAuthorization J) (id : ℕ) (s : S)
      → (st.update_authorization a s).0 ≡ ok tt
      → st.get_authorization id (st.update_authorization a s).1
        ≡ (if a.auth_id == id then ok (some a) else st.get_authorization id s)

-- MockTokenStorage: a map by token id.
abbrev pub MockTokens : Type 0 → Type 0
MockTokens J = Map ℕ (ScopedResourceToken J)

abbrev pub mock_tokens : {J : Type 0} → TokenStorage J (MockTokens J)
mock_tokens = record {
  store_token = λ t. modify (insert t.token_id t);
  get_token = λ id s. ok (get id s);
  delete_token = λ id. modify (remove id);
  list_tokens_by_owner = λ owner s. ok (retain (λ t. t.owner_did == owner) (values s));
}

-- MockAuthorizationStorage: a map by authorization id.
abbrev pub MockAuthorizations : Type 0 → Type 0
MockAuthorizations J = Map ℕ (ResourceAuthorization J)

abbrev pub mock_authorizations : {J : Type 0} → AuthorizationStorage J (MockAuthorizations J)
mock_authorizations = record {
  store_authorization = λ a. modify (insert a.auth_id a);
  get_authorization = λ id s. ok (get id s);
  update_authorization = λ a. modify (insert a.auth_id a);
}

-- The in-memory token storage meets the laws.
pub mock_tokens-LawfulTokens : (J : Type 0) → LawfulTokens (mock_tokens {J = J})
mock_tokens-LawfulTokens J = record {
  get-store = λ t id s h. ground (arith, get-insert id t.token_id t s);
  get-delete = λ id j s h. ground (arith, get-remove j id s);
}

-- The in-memory authorization storage meets the laws.
pub mock_authorizations-LawfulAuthorizations :
    (J : Type 0) → LawfulAuthorizations (mock_authorizations {J = J})
mock_authorizations-LawfulAuthorizations J = record {
  get-store_authorization = λ a id s h. ground (arith, get-insert id a.auth_id a s);
  get-update = λ a id s h. ground (arith, get-insert id a.auth_id a s);
}
