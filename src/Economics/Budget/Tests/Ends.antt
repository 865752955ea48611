-- ===== src/Economics/Budget/Tests/Ends.antt =====
-- How proposals end, at the budget of the tests.
use icn.Prelude.{ℕ, suc, ◌≢◌, [], ◌∷◌, ok, nat_eq, string_eq}
use icn.Prelude.Int.{pos}
use icn.Prelude.Floats.{fractions}
use icn.Economics.Types.{rejected, resource_eq}
use icn.Economics.Budget.Types.{BudgetProposal, ParticipatoryBudget}
use icn.Economics.Budget.Store.{MockBudgetStorage}
use icn.Economics.Budget.{approve_budget_proposal}
use icn.Economics.Budget.Lifecycle.{approve_budget_proposal_fails}
use icn.Economics.Budget.Tests.{Texts, Blob, budget_blob, platform, mock, proposal, budget, stored}

abbrev fresh : ℕ → ℕ
fresh n = n

abbrev closed : ParticipatoryBudget Texts
closed = record budget { proposals = (1, record proposal { status = rejected }) ∷ [] }

abbrev stored_closed : MockBudgetStorage Blob
stored_closed = record { budget_data = ("budget::b1", budget_blob closed) ∷ []; cid_data = [] }

-- Both proposals ask for 600 of the 1000 units, and have the same votes.
abbrev second_proposal : BudgetProposal Texts
second_proposal = record proposal { id = 2 }

abbrev contested : ParticipatoryBudget Texts
contested = record budget { proposals = (1, proposal) ∷ (2, second_proposal) ∷ [] }

abbrev stored_contested : MockBudgetStorage Blob
stored_contested = record {
  budget_data = ("budget::b1", budget_blob contested) ∷ [];
  cid_data = [];
}

abbrev fresh_later : ℕ → ℕ
fresh_later n = suc n

approve_budget_proposal_fails_example :
    (approve_budget_proposal platform mock fractions fresh (pos 50) "b1" 1 "ann" stored).0 ≢ ok tt
approve_budget_proposal_fails_example =
    approve_budget_proposal_fails platform mock fractions fresh (pos 50) "b1" 1 "ann" stored
