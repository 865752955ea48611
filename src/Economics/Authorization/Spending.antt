-- ===== src/Economics/Authorization/Spending.antt =====
-- What is consumed of an authorization, in one call and over a history of calls
-- (crates/runtime/icn-economics/src/lib.rs).
use icn.Prelude.{
  ℕ, ◌+◌, ◌-◌, ◌≤◌, ◌<◌, ◌≡◌, ◌≢◌, ◌⊎◌, inl, inr, ap, none, some, List, [], ◌∷◌, Result, ok, err,
  arith, u64_mod, nat_eq, add64, Result-cases, Bool-cases, Option-cases,
}
use icn.Prelude.Int.{ℤ, ◌≤ℤ◌, ltb_ℤ}
use icn.Economics.Types.{
  EconomicsError, authorization_expired, insufficient_authorization, ResourceAuthorization,
  is_valid, remaining_amount,
}
use icn.Economics.Storage.{AuthorizationStorage, LawfulAuthorizations}
use icn.Economics.Authorization.{check_usage, consume_authorization}

-- No more is consumed than was authorized, a u64.
pub record IsWithin {J : Type 0} (a : ResourceAuthorization J) : Type 0 where
  pub consumed_le : a.consumed_amount ≤ a.authorized_amount
  pub bounded : a.authorized_amount < u64_mod

abbrev pub IsExpired : {J : Type 0} → ℤ → ResourceAuthorization J → Type 0
IsExpired now a = elim a.expiry_timestamp [ none ↦ ⊥ | some e ↦ e ≤ℤ now ]

-- An authorization can be used for an amount exactly when it has not expired and the amount is
-- left; an expired one is reported as such before the amount is looked at.
pub check_usage_cases :
    {J : Type 0} (n : ℕ) (now : ℤ) (a : ResourceAuthorization J)
    → IsWithin a
    → ((check_usage n now a ≡ ok tt)
        × ¬ (IsExpired now a)
        × (a.consumed_amount + n ≤ a.authorized_amount))
      ⊎ ((e : ℤ) × (a.expiry_timestamp ≡ some e)
          × (e ≤ℤ now)
          × (check_usage n now a ≡ err (authorization_expired e)))
      ⊎ ((check_usage n now a
            ≡ err (insufficient_authorization n (a.authorized_amount - a.consumed_amount)))
          × ¬ (IsExpired now a)
          × (a.authorized_amount < a.consumed_amount + n))
unfolding check_usage is_valid remaining_amount
check_usage_cases n now a w = elim (Option-cases a.expiry_timestamp) [
  | inl never ↦ ground arith
  | inr (e, at) ↦ elim (Bool-cases (ltb_ℤ now e)) [
    | inl live ↦ ground arith
    | inr over ↦ inr (inl (e, at, ground arith, ground arith))
  ]
]

-- Below the authorized amount the sum does not wrap.
fits :
    {J : Type 0} (n : ℕ) (a : ResourceAuthorization J)
    → IsWithin a
    → a.consumed_amount + n ≤ a.authorized_amount
    → add64 a.consumed_amount n ≡ a.consumed_amount + n
fits n a w h = omega arith

-- What an attempt is granted.
attempt : {J : Type 0} → Result EconomicsError (ResourceAuthorization J) → ℕ → ℕ
attempt (ok _) n = n
attempt (err _) n = 0

module _ {J S : Type 0} (st : AuthorizationStorage J S) where
  -- A history of attempts on one authorization: the sum of the amounts granted, and the state.
  pub consume_all : ℕ → List (ℕ × ℤ) → S → ℕ × S
  consume_all id [] s = (0, s)
  consume_all id ((n, now) ∷ rest) s =
      let (r, s1) = consume_authorization st id n now s in
      let (more, s2) = consume_all id rest s1 in (attempt r n + more, s2)

module _ {J S : Type 0} (st : AuthorizationStorage J S) (laws : LawfulAuthorizations st) where
  open st use {get_authorization, update_authorization}

  -- The state after the tests have passed and the update was written.
  abbrev spent : ℕ → ResourceAuthorization J → ResourceAuthorization J
  spent n a = record a { consumed_amount = add64 a.consumed_amount n }

  consume_refused :
      (id n : ℕ) (now : ℤ) (a : ResourceAuthorization J) (e : EconomicsError) (s : S)
      → get_authorization id s ≡ ok (some a)
      → check_usage n now a ≡ err e
      → consume_authorization st id n now s ≡ (err e, s)
  unfolding consume_authorization
  consume_refused id n now a e s found refused = ground arith

  consume_passed :
      (id n : ℕ) (now : ℤ) (a : ResourceAuthorization J) (s : S)
      → get_authorization id s ≡ ok (some a)
      → check_usage n now a ≡ ok tt
      → consume_authorization st id n now s ≡ elim (update_authorization (spent n a) s).0 [
        | ok _ ↦ (ok (spent n a), (update_authorization (spent n a) s).1)
        | err e ↦ (err e, (update_authorization (spent n a) s).1)
      ]
  unfolding consume_authorization
  consume_passed id n now a s found passed =
      elim (Result-cases (update_authorization (spent n a) s).0) [
        | inl (_, wrote) ↦ ground arith
        | inr (e, failed) ↦ ground arith
      ]

  -- A consumption that succeeds was covered: the authorization that is read afterwards has the
  -- amount added and stays within what was authorized, nothing else of it changes, and every
  -- other authorization is as before.
  pub consume-IsWithin :
      (id n other : ℕ) (now : ℤ) (a c : ResourceAuthorization J) (s : S)
      → get_authorization id s ≡ ok (some a)
      → a.auth_id ≡ id
      → IsWithin a
      → id ≢ other
      → (consume_authorization st id n now s).0 ≡ ok c
      → let s' = (consume_authorization st id n now s).1 in
        (get_authorization id s' ≡ ok (some c))
        × (c ≡ record a { consumed_amount = a.consumed_amount + n })
        × IsWithin c
        × (get_authorization other s' ≡ get_authorization other s)
  consume-IsWithin id n other now a c s found self w ne done = elim (check_usage_cases n now a w) [
    | inl (passed, live, cover) ↦ elim (Result-cases (update_authorization (spent n a) s).0) [
      | inl (_, wrote) ↦ ground (
        arith,
        consume_passed id n now a s found passed,
        laws.get-update (spent n a) id s,
        laws.get-update (spent n a) other s,
      )
      | inr (e, failed) ↦ ground (arith, consume_passed id n now a s found passed)
    ]
    | inr (inl (e, at, over, refused)) ↦
        ground (arith, consume_refused id n now a (authorization_expired e) s found refused)
    | inr (inr (refused, live, short)) ↦
        ground (arith, consume_refused id n now a _ s found refused)
  ]

  -- The other way round: an unexpired authorization that covers the amount is consumed, if the
  -- storage takes the write.
  pub consume_covered :
      (id n : ℕ) (now : ℤ) (a : ResourceAuthorization J) (s : S)
      → get_authorization id s ≡ ok (some a)
      → IsWithin a
      → ¬ (IsExpired now a)
      → a.consumed_amount + n ≤ a.authorized_amount
      → (update_authorization (record a { consumed_amount = a.consumed_amount + n }) s).0 ≡ ok tt
      → (consume_authorization st id n now s).0
        ≡ ok (record a { consumed_amount = a.consumed_amount + n })
  consume_covered id n now a s found w live cover wrote = elim (check_usage_cases n now a w) [
    | inl (passed, _, _) ↦
        ground (arith, consume_passed id n now a s found passed, fits n a w cover)
    | inr (inl (e, at, over, refused)) ↦ absurd (live (rw at over))
    | inr (inr (refused, _, short)) ↦ absurd (omega arith)
  ]

  -- A consumption that the tests refuse writes nothing, and reports the expiry first.
  pub consume_refused_unchanged :
      (id n : ℕ) (now : ℤ) (a : ResourceAuthorization J) (s : S)
      → get_authorization id s ≡ ok (some a)
      → IsWithin a
      → IsExpired now a ⊎ (a.authorized_amount < a.consumed_amount + n)
      → ((consume_authorization st id n now s).1 ≡ s)
        × (((e : ℤ) × (a.expiry_timestamp ≡ some e)
              × (e ≤ℤ now)
              × ((consume_authorization st id n now s).0 ≡ err (authorization_expired e)))
            ⊎ ((consume_authorization st id n now s).0
                ≡ err (insufficient_authorization n (a.authorized_amount - a.consumed_amount))))
  consume_refused_unchanged id n now a s found w bad = elim (check_usage_cases n now a w) [
    | inl (_, live, cover) ↦ elim bad [
      | inl over ↦ absurd (live over)
      | inr short ↦ absurd (omega arith)
    ]
    | inr (inl (e, at, over, refused)) ↦
        let stopped = consume_refused id n now a (authorization_expired e) s found refused in
        (ap (λ r. r.1) stopped, inl (e, at, over, ap (λ r. r.0) stopped))
    | inr (inr (refused, _, _)) ↦
        let stopped = consume_refused id n now a _ s found refused in
        (ap (λ r. r.1) stopped, inr (ap (λ r. r.0) stopped))
  ]

  -- One attempt, granted or not.
  consume_attempt :
      (id n : ℕ) (now : ℤ) (a : ResourceAuthorization J) (s : S)
      → get_authorization id s ≡ ok (some a)
      → a.auth_id ≡ id
      → IsWithin a
      → ((b : ResourceAuthorization J) (t : S) → (update_authorization b t).0 ≡ ok tt)
      → let (r, s1) = consume_authorization st id n now s in
        (get_authorization id s1
          ≡ ok (some (record a { consumed_amount = a.consumed_amount + attempt r n })))
        × (a.consumed_amount + attempt r n ≤ a.authorized_amount)
  unfolding attempt
  consume_attempt id n now a s found self w writes = elim (check_usage_cases n now a w) [
    | inl (passed, _, cover) ↦ ground (
      arith,
      consume_passed id n now a s found passed,
      writes (spent n a) s,
      laws.get-update (spent n a) id s,
    )
    | inr (inl (e, _, _, refused)) ↦
        ground (arith, consume_refused id n now a (authorization_expired e) s found refused)
    | inr (inr (refused, _, _)) ↦ ground (arith, consume_refused id n now a _ s found refused)
  ]

  -- Over any history of attempts on a storage that takes every write, the authorization that is
  -- read at the end has consumed exactly what was granted, and never more than was authorized.
  pub consume_all_exact :
      (id : ℕ) (attempts : List (ℕ × ℤ)) (a : ResourceAuthorization J) (s : S)
      → get_authorization id s ≡ ok (some a)
      → a.auth_id ≡ id
      → IsWithin a
      → ((b : ResourceAuthorization J) (t : S) → (update_authorization b t).0 ≡ ok tt)
      → let (granted, s') = consume_all st id attempts s in
        (get_authorization id s'
          ≡ ok (some (record a { consumed_amount = a.consumed_amount + granted })))
        × (a.consumed_amount + granted ≤ a.authorized_amount)
  unfolding consume_all
  consume_all_exact id [] a s found self w writes = ground arith
  consume_all_exact id ((n, now) ∷ rest) a s found self w writes =
      let (r, s1) = consume_authorization st id n now s in
      let (kept, cover) = consume_attempt id n now a s found self w writes in
      let b : ResourceAuthorization J = record a {
        consumed_amount = a.consumed_amount + attempt r n;
      } in
      let w' : IsWithin b = record { consumed_le = cover; bounded = w.bounded } in
      ground (arith, consume_all_exact id rest b s1 kept self w' writes)
