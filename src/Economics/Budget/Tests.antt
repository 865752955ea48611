-- ===== src/Economics/Budget/Tests.antt =====
-- A budget with two proposals, and a concrete platform and storage to run it on.
mod Votes
mod Ends
use icn.Prelude.{
  ℕ, ◌≡◌, refl, Bool, true, false, Option, none, some, String, List, [], ◌∷◌, map, ok, err, Result,
  string_eq, ◌==◌, if◌then◌else◌, nat_eq, arith,
}
use icn.Prelude.Int.{ℤ, pos}
use icn.Prelude.Map.{Map}
use icn.Economics.Types.{
  cooperative, compute, storage, proposed, voting_open, ResourceAuthorization, resource_eq,
}
use icn.Economics.Budget.Types.{
  simple_majority, quadratic_voting, approve, reject, abstain, quadratic, BudgetRulesConfig,
  BudgetProposal, ParticipatoryBudget,
}
use icn.Economics.Budget.Store.{
  Platform, BudgetStorage, MockBudgetStorage, mock_budgets, mock_budgets-LawfulBudgets,
  LawfulBudgets, ReadsBack,
}
use icn.Economics.Budget.Execution.{WritesAll}

-- JSON values that are lists of texts: enough for a list of allowed voters.
abbrev pub Texts : Type 0
Texts = List String

pub data Blob : Type 0 where
  budget_blob : ParticipatoryBudget Texts → Blob
  auth_blob : ResourceAuthorization Texts → Blob

abbrev read_budget : Blob → Result String (ParticipatoryBudget Texts)
read_budget (budget_blob b) = ok b
read_budget (auth_blob a) = err "not a budget"

abbrev read_auth : Blob → Result String (ResourceAuthorization Texts)
read_auth (budget_blob b) = err "not an authorization"
read_auth (auth_blob a) = ok a

abbrev single : Texts → Option String
single [] = none
single (t ∷ ts) = some t

abbrev pub platform : Platform Texts Blob String
platform = record {
  json_get = λ k j. if k == "allowed_voters" then some j else none;
  as_array = λ j. some (map (λ t. t ∷ []) j);
  as_str = single;
  auth_metadata = λ p b now. p ∷ b ∷ [];
  uuid_string = λ n. if n == 0 then "uuid-0" else if n == 1 then "uuid-1" else "uuid-2";
  cid_of = λ k. k;
  budget_serde = record { to_vec = λ b. ok (budget_blob b); from_slice = read_budget };
  auth_serde = record { to_vec = λ a. ok (auth_blob a); from_slice = read_auth };
}

abbrev pub mock : BudgetStorage (MockBudgetStorage Blob) Blob String
mock = mock_budgets (λ c. c)

pub mock-LawfulBudgets : LawfulBudgets mock
mock-LawfulBudgets = mock_budgets-LawfulBudgets (λ c. c) (λ a b. refl)

pub platform-ReadsBack : ReadsBack platform.budget_serde
platform-ReadsBack a d e = ground arith

pub mock-WritesAll : WritesAll platform mock
mock-WritesAll = record {
  stores = λ k d s. refl;
  puts = λ c d s. refl;
  serializes = λ b. (budget_blob b, refl);
  serializes_auth = λ a. (auth_blob a, refl);
}

abbrev pub rules : BudgetRulesConfig Texts
rules = record {
  voting_method = some simple_majority;
  categories = none;
  min_participants = some 3;
  quorum_percentage = some 30;
  threshold_percentage = some 50;
  custom_rules = some ("ann" ∷ "bob" ∷ "cat" ∷ []);
}

abbrev pub proposal : BudgetProposal Texts
proposal = record {
  id = 1;
  title = "Servers";
  description = "More compute";
  proposer_did = "ann";
  requested_resources = (compute, 600) ∷ [];
  status = voting_open;
  category = none;
  votes = ("ann", approve) ∷ ("bob", approve) ∷ ("cat", reject) ∷ [];
  creation_timestamp = pos 10;
  metadata = none;
}

abbrev pub rival : BudgetProposal Texts
rival = record proposal { id = 2; status = proposed; votes = [] }

abbrev pub budget : ParticipatoryBudget Texts
budget = record {
  id = "b1";
  name = "Coop budget";
  scope_id = "did:icn:coop";
  scope_type = cooperative;
  total_allocated = (compute, 1000) ∷ (storage, 50) ∷ [];
  spent_by_proposal = [];
  proposals = (1, proposal) ∷ (2, rival) ∷ [];
  rules = some rules;
  start_timestamp = pos 0;
  end_timestamp = pos 100;
}

abbrev pub stored : MockBudgetStorage Blob
stored = record { budget_data = ("budget::b1", budget_blob budget) ∷ []; cid_data = [] }
