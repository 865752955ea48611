-- ===== src/Economics/Budget/Execution.antt =====
-- What `finalize_budget_proposal` leaves in the storage
-- (crates/runtime/icn-economics/src/budget_ops.rs).
use icn.Prelude.{
  ℕ, suc, ◌≡◌, ◌∙◌, refl, false, some, String, [], ◌∷◌, ok, arith, ==_iff, ◌==◌, nat_eq, string_eq,
  if◌then◌else◌, PartialEq,
}
use icn.Prelude.Int.{ℤ}
use icn.Prelude.Map.{Map, get}
use icn.Prelude.Floats.{Floats}
use icn.Economics.Types.{approved, executed, ResourceType, resource_eq, ResourceAuthorization}
use icn.Economics.Budget.Types.{BudgetProposal, ParticipatoryBudget}
use icn.Economics.Budget.Store.{
  Platform, BudgetStorage, LawfulBudgets, ReadsBack, load_budget, save_budget, load-save,
  budget_key,
}
use icn.Economics.Budget.Steps.{is_final}
use icn.Economics.Budget.Outcome.{
  tally, approve_spending, copy_resources, authorization_for, authorization_key,
}
use icn.Economics.Budget.{
  store_authorizations, put_authorization, settle, finalize_tallied, finalize_budget_proposal,
}

-- A platform and a storage on which no write fails.
pub record WritesAll {J S Bytes Cid : Type 0} (pl : Platform J Bytes Cid)
    (st : BudgetStorage S Bytes Cid) : Type 0 where
  pub stores : (k : String) (d : Bytes) (s : S) → (st.store_budget k d s).0 ≡ ok tt
  pub puts : (c : Cid) (d : Bytes) (s : S) → (st.put_with_key c d s).0 ≡ ok tt
  pub serializes : (b : ParticipatoryBudget J) → (d : Bytes) × (pl.budget_serde.to_vec b ≡ ok d)
  pub serializes_auth :
      (a : ResourceAuthorization J) → (d : Bytes) × (pl.auth_serde.to_vec a ≡ ok d)

module _ {J S Bytes Cid : Type 0} ⦃e : PartialEq Cid⦄ (pl : Platform J Bytes Cid)
    (st : BudgetStorage S Bytes Cid) (laws : LawfulBudgets st)
    (reads_back : ReadsBack pl.budget_serde) (writes : WritesAll pl st) where
  saved : (b : ParticipatoryBudget J) (s : S) → (save_budget pl st b s).0 ≡ ok tt
  unfolding save_budget
  saved b s =
      let (d, wrote) = writes.serializes b in ground (arith, writes.stores (budget_key b.id) d s)

  load-put :
      (c : Cid) (d : Bytes) (j : String) (s : S)
      → load_budget pl st j (st.put_with_key c d s).1 ≡ load_budget pl st j s
  unfolding load_budget
  load-put c d j s = ground (arith, laws.get-put c (budget_key j) d s)

  put_authorization_lem :
      (a : ResourceAuthorization J) (j : String) (s : S)
      → ((put_authorization pl st a s).0 ≡ ok tt)
        × (load_budget pl st j (put_authorization pl st a s).1 ≡ load_budget pl st j s)
  unfolding put_authorization
  put_authorization_lem a j s =
      let (d, wrote) = writes.serializes_auth a in
      let key : Cid = authorization_key pl a.auth_id in
      ground (arith, writes.puts key d s, load-put key d j s)

  store_authorizations_lem :
      (fresh : ℕ → ℕ) (n : ℕ) (now : ℤ) (id : String) (b : ParticipatoryBudget J)
      (p : BudgetProposal J) (pid : ℕ) (m : Map ResourceType ℕ) (j : String) (s : S)
      → ((store_authorizations pl st fresh n now id b p pid m s).0 ≡ ok tt)
        × (load_budget pl st j (store_authorizations pl st fresh n now id b p pid m s).1
            ≡ load_budget pl st j s)
  unfolding store_authorizations
  store_authorizations_lem fresh n now id b p pid [] j s = (refl, refl)
  store_authorizations_lem fresh n now id b p pid ((t, amount) ∷ rest) j s =
      let a : ResourceAuthorization J = authorization_for pl (fresh n) now id b p pid t amount in
      let s1 : S = (put_authorization pl st a s).1 in
      ground (
        arith,
        put_authorization_lem a j s,
        store_authorizations_lem fresh (suc n) now id b p pid rest j s1,
      )

  finalize_state :
      (fl : Floats) (fresh : ℕ → ℕ) (now : ℤ) (id : String) (pid : ℕ) (p : BudgetProposal J)
      (b : ParticipatoryBudget J) (s : S)
      → load_budget pl st id s ≡ ok b
      → get pid b.proposals ≡ some p
      → is_final p.status ≡ false
      → tally fl pid b ≡ ok approved
      → finalize_budget_proposal pl st fl fresh now id pid s ≡ (
        ok executed,
        (store_authorizations pl st fresh 0 now id b p pid
            (copy_resources p.requested_resources [])
            (save_budget pl st (approve_spending pid p b) s).1).1,
      )
  unfolding finalize_budget_proposal finalize_tallied settle
  finalize_state fl fresh now id pid p b s loaded found open_still passed =
      let b' : ParticipatoryBudget J = approve_spending pid p b in
      let s1 : S = (save_budget pl st b' s).1 in
      let m : Map ResourceType ℕ = copy_resources p.requested_resources [] in
      ground (arith, saved b' s, store_authorizations_lem fresh 0 now id b p pid m id s1)

  load_executed :
      (fresh : ℕ → ℕ) (now : ℤ) (id : String) (pid : ℕ) (p : BudgetProposal J)
      (b : ParticipatoryBudget J) (j : String) (s : S)
      → load_budget pl st j
          (store_authorizations pl st fresh 0 now id b p pid
            (copy_resources p.requested_resources [])
            (save_budget pl st (approve_spending pid p b) s).1).1
        ≡ (if b.id == j then ok (approve_spending pid p b) else load_budget pl st j s)
  unfolding approve_spending
  load_executed fresh now id pid p b j s =
      let b' : ParticipatoryBudget J = approve_spending pid p b in
      let m : Map ResourceType ℕ = copy_resources p.requested_resources [] in
      (store_authorizations_lem fresh 0 now id b p pid m j (save_budget pl st b' s).1).1
      ∙ load-save pl st laws reads_back b' j s (saved b' s)

  pub finalize_saves :
      (fl : Floats) (fresh : ℕ → ℕ) (now : ℤ) (id : String) (pid : ℕ) (p : BudgetProposal J)
      (b : ParticipatoryBudget J) (s : S)
      → load_budget pl st id s ≡ ok b
      → b.id ≡ id
      → get pid b.proposals ≡ some p
      → is_final p.status ≡ false
      → tally fl pid b ≡ ok approved
      → let (r, s') = finalize_budget_proposal pl st fl fresh now id pid s in
        (r ≡ ok executed) × (load_budget pl st id s' ≡ ok (approve_spending pid p b))
  finalize_saves fl fresh now id pid p b s loaded named found open_still passed =
      rw (finalize_state fl fresh now id pid p b s loaded found open_still passed)
        (refl, ground (arith, load_executed fresh now id pid p b id s, ==_iff b.id id))
