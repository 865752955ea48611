-- ===== src/Economics/Budget/Store.antt =====
-- The storage of budgets: the trait `BudgetStorage` as an interface, loading and saving a budget
-- through it, and MockBudgetStorage (crates/runtime/icn-economics/src/budget_ops.rs).
use Prim.Native.String.{◌++◌ as str_append}
use text.Mathlib.TextLemmas.{append_cancel_left}
use icn.Prelude.{
  ℕ, ◌≡◌, inl, inr, ap, refl, Option, none, some, String, List, Result, ok, err, map_err, arith,
  PartialEq, ◌==◌, ==_iff, string_eq, if◌then◌else◌, Result-cases,
}
use icn.Prelude.Int.{ℤ}
use icn.Prelude.Map.{Map, get, insert, get-insert}
use icn.Prelude.State.{Action, modify}
pub use icn.Prelude.Serde.{Serde, ReadsBack}
use icn.Economics.Types.{
  EconomicsError, invalid_budget, budget_not_found, cannot_serialize, cannot_deserialize,
  failed_to_load, failed_to_store, ResourceAuthorization,
}
use icn.Economics.Budget.Types.{ParticipatoryBudget}

-- What the code takes from other packages: the accessors of serde_json::Value, the `json!` object
-- of an authorization, the text of a Uuid, the CID of the SHA-256 hash of a key, and serde_json.
pub record Platform (J Bytes Cid : Type 0) : Type 0 where
  pub json_get : String → J → Option J
  pub as_array : J → Option (List J)
  pub as_str : J → Option String
  pub auth_metadata : (proposal_id budget_id : String) → ℤ → J
  pub uuid_string : ℕ → String
  pub cid_of : String → Cid
  pub budget_serde : Serde (ParticipatoryBudget J) Bytes
  pub auth_serde : Serde (ResourceAuthorization J) Bytes

pub record BudgetStorage (S Bytes Cid : Type 0) : Type 0 where
  pub store_budget : String → Bytes → Action S EconomicsError (Unit {0})
  pub get_budget : String → S → Result EconomicsError (Option Bytes)
  pub put_with_key : Cid → Bytes → Action S EconomicsError (Unit {0})
  pub get_by_cid : Cid → S → Result EconomicsError (Option Bytes)

-- What a client of a budget storage may rely on: what is stored under a key is read back, and
-- nothing else changes.
pub record LawfulBudgets {S Bytes Cid : Type 0} ⦃e : PartialEq Cid⦄ (st : BudgetStorage S Bytes Cid)
    : Type 0 where
  pub get-store :
      (k j : String) (d : Bytes) (s : S)
      → (st.store_budget k d s).0 ≡ ok tt
      → st.get_budget j (st.store_budget k d s).1
        ≡ (if k == j then ok (some d) else st.get_budget j s)
  pub get-put :
      (c : Cid) (j : String) (d : Bytes) (s : S)
      → st.get_budget j (st.put_with_key c d s).1 ≡ st.get_budget j s
  pub get_by_cid-put :
      (c b : Cid) (d : Bytes) (s : S)
      → (st.put_with_key c d s).0 ≡ ok tt
      → st.get_by_cid b (st.put_with_key c d s).1
        ≡ (if c == b then ok (some d) else st.get_by_cid b s)

-- BUDGET_KEY_PREFIX
unfoldable pub budget_key : String → String
budget_key id = str_append "budget::" id

pub budget_key_injective : (a b : String) → budget_key a ≡ budget_key b → a ≡ b
unfolding budget_key
budget_key_injective a b h = append_cancel_left "budget::" a b h

-- MockBudgetStorage; `cid_string` is the text of a CID.
pub record MockBudgetStorage (Bytes : Type 0) : Type 0 where
  pub budget_data : Map String Bytes
  pub cid_data : Map String Bytes

module _ {Bytes Cid : Type 0} (cid_string : Cid → String) where
  abbrev pub mock_budgets : BudgetStorage (MockBudgetStorage Bytes) Bytes Cid
  mock_budgets = record {
    store_budget = λ k d. modify (λ s. record s { budget_data = insert k d s.budget_data });
    get_budget = λ k s. ok (get k s.budget_data);
    put_with_key = λ c d. modify (λ s. record s { cid_data = insert (cid_string c) d s.cid_data });
    get_by_cid = λ c s. ok (get (cid_string c) s.cid_data);
  }

  -- The in-memory budget storage meets the laws, if two CIDs are equal exactly when their texts are.
  pub mock_budgets-LawfulBudgets :
      ⦃e : PartialEq Cid⦄
      → ((a b : Cid) → (a == b) ≡ (cid_string a == cid_string b))
      → LawfulBudgets mock_budgets
  mock_budgets-LawfulBudgets texts = record {
    get-store = λ k j d s h. ground (arith, get-insert j k d s.budget_data);
    get-put = λ c j d s. refl;
    get_by_cid-put = λ c b d s h.
        rw (texts c b) (ground (arith, get-insert (cid_string b) (cid_string c) d s.cid_data));
  }

module _ {J S Bytes Cid : Type 0} (pl : Platform J Bytes Cid) (st : BudgetStorage S Bytes Cid) where
  open st use {store_budget, get_budget}

  unfoldable pub load_budget : String → S → Result EconomicsError (ParticipatoryBudget J)
  load_budget id s = elim (get_budget (budget_key id) s) [
    | err _ ↦ err (invalid_budget failed_to_load)
    | ok none ↦ err (invalid_budget (budget_not_found id))
    | ok (some bytes) ↦
        map_err (λ e. invalid_budget (cannot_deserialize e)) (pl.budget_serde.from_slice bytes)
  ]

  unfoldable pub save_budget : ParticipatoryBudget J → Action S EconomicsError (Unit {0})
  save_budget b s = elim (pl.budget_serde.to_vec b) [
    | err e ↦ (err (invalid_budget (cannot_serialize e)), s)
    | ok bytes ↦
        let (r, s') = store_budget (budget_key b.id) bytes s in
        (map_err (λ _. invalid_budget failed_to_store) r, s')
  ]

module _ {J S Bytes Cid : Type 0} ⦃e : PartialEq Cid⦄ (pl : Platform J Bytes Cid)
    (st : BudgetStorage S Bytes Cid) (laws : LawfulBudgets st)
    (reads_back : ReadsBack pl.budget_serde) where
  -- A budget that was saved is loaded under its identifier, and no other budget changes, on a
  -- storage that meets the laws and if what serializes is read back.
  pub load-save :
      (b : ParticipatoryBudget J) (j : String) (s : S)
      → (save_budget pl st b s).0 ≡ ok tt
      → load_budget pl st j (save_budget pl st b s).1
        ≡ (if b.id == j then ok b else load_budget pl st j s)
  unfolding load_budget save_budget
  load-save b j s saved = elim (Result-cases (pl.budget_serde.to_vec b)) [
    | inr (t, failed) ↦ ground arith
    | inl (bytes, wrote) ↦ ground (
      arith,
      reads_back b bytes wrote,
      laws.get-store (budget_key b.id) (budget_key j) bytes s,
      ==_iff (budget_key b.id) (budget_key j),
      ==_iff b.id j,
      budget_key_injective b.id j,
      ap budget_key {x = b.id} {y = j},
    )
  ]
