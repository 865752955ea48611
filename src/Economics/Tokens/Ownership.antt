-- ===== src/Economics/Tokens/Ownership.antt =====
-- Owners of tokens: `token_ops` of crates/runtime/icn-economics/src/lib.rs over a lawful storage.
use icn.Prelude.{
  ℕ, ◌≡◌, ◌≢◌, inl, inr, none, some, String, ok, err, arith, ==_iff, nat_eq, string_eq,
  Result-cases,
}
use icn.Prelude.Int.{ℤ}
use icn.Economics.Types.{unauthorized, token_not_found, ScopedResourceToken}
use icn.Economics.Storage.{TokenStorage, LawfulTokens}
use icn.Economics.Tokens.{mint_token, transfer_token, burn_token}

module _ {J S : Type 0} (st : TokenStorage J S) (laws : LawfulTokens st) where
  open st use {store_token, get_token, delete_token}

  -- A transfer succeeds only for the owner of a token that exists; it then changes the owner and
  -- nothing else of the token, and no other token.
  pub transfer_token_moves :
      (id other : ℕ) (from to : String) (s : S)
      → (transfer_token st id from to s).0 ≡ ok tt
      → ((t : ScopedResourceToken J) → get_token id s ≡ ok (some t) → t.token_id ≡ id)
      → id ≢ other
      → let s' = (transfer_token st id from to s).1 in
        (t : ScopedResourceToken J) × (get_token id s ≡ ok (some t))
        × (t.owner_did ≡ from)
        × (get_token id s' ≡ ok (some (record t { owner_did = to })))
        × (get_token other s' ≡ get_token other s)
  unfolding transfer_token
  transfer_token_moves id other from to s done keyed ne = elim (Result-cases (get_token id s)) [
    | inr (e, failed) ↦ ground arith
    | inl (none, missing) ↦ ground arith
    | inl (some t, found) ↦ (
      t,
      found,
      ground (arith, ==_iff t.owner_did from),
      ground (arith, keyed t found, laws.get-store (record t { owner_did = to }) id s),
      ground (arith, keyed t found, laws.get-store (record t { owner_did = to }) other s),
    )
  ]

  -- Whoever is not the owner can neither move nor burn a token: the storage stays as it is.
  pub not_owner :
      (id : ℕ) (did to : String) (t : ScopedResourceToken J) (s : S)
      → get_token id s ≡ ok (some t)
      → t.owner_did ≢ did
      → (transfer_token st id did to s ≡ (err (unauthorized did), s))
        × (burn_token st id did s ≡ (err (unauthorized did), s))
  unfolding transfer_token burn_token
  not_owner id did to t s found ne =
      (ground (arith, ==_iff t.owner_did did), ground (arith, ==_iff t.owner_did did))

  -- A token that its owner burns is gone, and then it can be neither moved nor burnt again; every
  -- other token is as before.
  pub burn_token_gone :
      (id other : ℕ) (owner did to : String) (s : S)
      → (burn_token st id owner s).0 ≡ ok tt
      → id ≢ other
      → let s' = (burn_token st id owner s).1 in
        (get_token id s' ≡ ok none)
        × ((transfer_token st id did to s').0 ≡ err (token_not_found id))
        × ((burn_token st id did s').0 ≡ err (token_not_found id))
        × (get_token other s' ≡ get_token other s)
  unfolding transfer_token burn_token
  burn_token_gone id other owner did to s done ne = elim (Result-cases (get_token id s)) [
    | inr (e, failed) ↦ ground arith
    | inl (none, missing) ↦ ground arith
    | inl (some t, found) ↦ ground (arith, laws.get-delete id id s, laws.get-delete id other s)
  ]

  -- A minted token is there with its amount, for its owner, who can hand it on; the new owner has
  -- it then, and the first one cannot take it back.
  pub mint-transfer :
      (uuid : ℕ) (now : ℤ) (owner to : String) (t : ScopedResourceToken J) (s : S)
      → t.token_id ≡ uuid
      → t.issuance_date ≡ now
      → t.owner_did ≡ owner
      → owner ≢ to
      → ((u : ScopedResourceToken J) (x : S) → (store_token u x).0 ≡ ok tt)
      → let (minted, s1) =
          mint_token st uuid now owner t.resource_type t.amount t.scope t.metadata s in
        let (moved, s2) = transfer_token st uuid owner to s1 in
        (minted ≡ ok t)
        × (get_token uuid s1 ≡ ok (some t))
        × (moved ≡ ok tt)
        × (get_token uuid s2 ≡ ok (some (record t { owner_did = to })))
        × (transfer_token st uuid owner owner s2 ≡ (err (unauthorized owner), s2))
  unfolding mint_token transfer_token
  mint-transfer uuid now owner to t s keyed dated owned ne writes =
      let s1 : S = (store_token t s).1 in
      let t' : ScopedResourceToken J = record t { owner_did = to } in
      ground (
        arith,
        writes t s,
        writes t' s1,
        laws.get-store t uuid s,
        laws.get-store t' uuid s1,
        ==_iff owner owner,
        ==_iff to owner,
      )
