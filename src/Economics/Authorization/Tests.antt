-- ===== src/Economics/Authorization/Tests.antt =====
-- The theorems on authorizations at a concrete one, in the in-memory storage.
use icn.Prelude.{ℕ, ◌+◌, ◌≡◌, ◌≤◌, refl, none, some, List, [], ◌∷◌, ok, err, arith, nat_eq}
use icn.Prelude.Int.{ℤ, pos}
use icn.Prelude.Map.{get, insert}
use icn.Economics.Types.{
  cooperative, compute, authorization_expired, ResourceAuthorization, new_authorization, is_valid,
  remaining_amount,
}
use icn.Economics.Storage.{
  AuthorizationStorage, MockAuthorizations, mock_authorizations,
  mock_authorizations-LawfulAuthorizations,
}
use icn.Economics.Authorization.{check_usage, create_authorization, consume_authorization}
use icn.Economics.Authorization.Spending.{IsWithin, consume_all, consume_all_exact}

abbrev allowance : ResourceAuthorization ℕ
allowance = record {
  auth_id = 7;
  grantor_did = "did:icn:coop";
  grantee_did = "did:icn:worker";
  resource_type = compute;
  authorized_amount = 100;
  consumed_amount = 40;
  scope = cooperative;
  expiry_timestamp = some (pos 1000);
  metadata = none;
}

abbrev books : MockAuthorizations ℕ
books = (7, allowance) ∷ (8, record allowance { auth_id = 8 }) ∷ []

abbrev mock : AuthorizationStorage ℕ (MockAuthorizations ℕ)
mock = mock_authorizations

created :
    (create_authorization mock 9 "did:icn:coop" "did:icn:worker" compute 5 cooperative none none
      []).1
    ≡ (9, new_authorization 9 "did:icn:coop" "did:icn:worker" compute 5 cooperative none none) ∷ []
unfolding create_authorization insert new_authorization
created = refl

consumed :
    (consume_authorization mock 7 60 (pos 999) books).0
    ≡ ok (record allowance { consumed_amount = 100 })
unfolding consume_authorization check_usage is_valid remaining_amount get insert
consumed = refl

too_late :
    consume_authorization mock 7 61 (pos 1000) books
    ≡ (err (authorization_expired (pos 1000)), books)
unfolding consume_authorization check_usage is_valid remaining_amount get insert
too_late = refl

allowance-IsWithin : IsWithin allowance
allowance-IsWithin = omega arith

abbrev attempts : List (ℕ × ℤ)
attempts = (30, pos 1) ∷ (31, pos 2) ∷ (30, pos 3) ∷ (1, pos 4) ∷ []

consume_all_exact_example :
    let (granted, s') = consume_all mock 7 attempts books in
    (mock.get_authorization 7 s' ≡ ok (some (record allowance { consumed_amount = 40 + granted })))
    × (40 + granted ≤ 100)
unfolding get
consume_all_exact_example =
    consume_all_exact mock (mock_authorizations-LawfulAuthorizations ℕ) 7 attempts allowance books
      refl refl allowance-IsWithin (λ b t. refl)
