-- ===== src/Economics/Tokens/Tests.antt =====
-- The theorems on tokens at concrete ones, in the in-memory storage.
use icn.Prelude.{ℕ, ◌≡◌, refl, none, some, [], ◌∷◌, ok, arith, nat_eq, string_eq}
use icn.Prelude.Int.{pos}
use icn.Prelude.Map.{get}
use icn.Economics.Types.{cooperative, compute, storage, ScopedResourceToken}
use icn.Economics.Storage.{TokenStorage, MockTokens, mock_tokens, mock_tokens-LawfulTokens}
use icn.Economics.Tokens.{transfer_token, get_tokens_by_owner}
use icn.Economics.Tokens.Ownership.{transfer_token_moves}

abbrev hours : ScopedResourceToken ℕ
hours = record {
  token_id = 1;
  owner_did = "did:icn:a";
  resource_type = compute;
  amount = 50;
  scope = cooperative;
  metadata = none;
  issuance_date = pos 10;
}

abbrev disk : ScopedResourceToken ℕ
disk = record hours { token_id = 2; owner_did = "did:icn:b"; resource_type = storage }

abbrev shelf : MockTokens ℕ
shelf = (1, hours) ∷ (2, disk) ∷ []

abbrev mock : TokenStorage ℕ (MockTokens ℕ)
mock = mock_tokens

owned : get_tokens_by_owner mock "did:icn:b" shelf ≡ ok (disk ∷ [])
unfolding get_tokens_by_owner
owned = refl

transfer_token_moves_example :
    let s' = (transfer_token mock 1 "did:icn:a" "did:icn:b" shelf).1 in
    (t : ScopedResourceToken ℕ) × (mock.get_token 1 shelf ≡ ok (some t))
    × (t.owner_did ≡ "did:icn:a")
    × (mock.get_token 1 s' ≡ ok (some (record t { owner_did = "did:icn:b" })))
    × (mock.get_token 2 s' ≡ mock.get_token 2 shelf)
unfolding transfer_token get
transfer_token_moves_example =
    transfer_token_moves mock (mock_tokens-LawfulTokens ℕ) 1 2 "did:icn:a" "did:icn:b" shelf refl
      (λ t e. ground arith) (omega arith)
