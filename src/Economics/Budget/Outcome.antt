-- ===== src/Economics/Budget/Outcome.antt =====
-- What a tally decides and what its outcome makes of a budget and its proposal: the pure parts of
-- `tally_budget_votes` and `finalize_budget_proposal`
-- (crates/runtime/icn-economics/src/budget_ops.rs).
use icn.Prelude.{
  ℕ, Option, none, some, String, [], ◌∷◌, Result, ok, err, if◌then◌else◌, unwrap_or, nat_eq,
}
use icn.Prelude.Int.{ℤ}
use icn.Prelude.Map.{Map, get, insert, remove}
use icn.Prelude.Floats.{Floats}
use icn.Economics.Types.{
  ResourceType, resource_eq, ProposalStatus, rejected, executed, EconomicsError, invalid_budget,
  proposal_not_found, new_authorization, ResourceAuthorization,
}
use icn.Economics.Budget.Types.{
  simple_majority, BudgetRulesConfig, BudgetProposal, ParticipatoryBudget,
}
use icn.Economics.Budget.Store.{Platform}
use icn.Economics.Budget.Tally.{tally_votes}
use icn.Economics.Budget.Steps.{is_votable, is_final}
use Prim.Native.String.{◌++◌ as str_append}

-- `resources_map`: the requested resources, inserted one by one into a new map.
unfoldable pub copy_resources : Map ResourceType ℕ → Map ResourceType ℕ → Map ResourceType ℕ
copy_resources [] acc = acc
copy_resources ((t, n) ∷ rest) acc = copy_resources rest (insert t n acc)

-- The rules of a budget that has none.
unfoldable pub default_rules : {J : Type 0} → BudgetRulesConfig J
default_rules = record {
  voting_method = some simple_majority;
  categories = none;
  min_participants = some 1;
  quorum_percentage = some 10;
  threshold_percentage = some 50;
  custom_rules = none;
}

-- "For now, we'll assume 10 eligible voters."
abbrev pub total_eligible_voters : ℕ
total_eligible_voters = 10

-- `tally_budget_votes` on the budget that was loaded.
unfoldable pub tally :
    {J : Type 0} → Floats → ℕ → ParticipatoryBudget J → Result EconomicsError ProposalStatus
unfolding default_rules is_votable
tally fl id b = elim (get id b.proposals) [
  | none ↦ err (invalid_budget (proposal_not_found id))
  | some p ↦
      if is_votable p.status
      then ok (tally_votes fl p (unwrap_or b.rules default_rules) total_eligible_voters)
      else ok p.status
]

-- The budget that an approval saves: the request is spent, and the proposal executed.
unfoldable pub approve_spending :
    {J : Type 0} → ℕ → BudgetProposal J → ParticipatoryBudget J → ParticipatoryBudget J
unfolding copy_resources
approve_spending id p b = record b {
  spent_by_proposal = insert id (copy_resources p.requested_resources []) b.spent_by_proposal;
  proposals = insert id (record p { status = executed }) b.proposals;
}

-- The budget that any other decision saves.
unfoldable pub set_status :
    {J : Type 0}
    → ℕ
    → BudgetProposal J
    → ProposalStatus
    → ParticipatoryBudget J
    → ParticipatoryBudget J
set_status id p rejected b = record b {
  proposals = insert id (record p { status = rejected }) b.proposals;
  spent_by_proposal = remove id b.spent_by_proposal;
}
set_status id p status b = record b {
  proposals = insert id (record p { status = status }) b.proposals;
}

-- The status that ends `finalize_budget_proposal` at once.
unfoldable pub settled : {J : Type 0} → ℕ → ParticipatoryBudget J → Option ProposalStatus
settled proposal_id b = elim (get proposal_id b.proposals) [
  | none ↦ none
  | some p ↦ if is_final p.status then some p.status else none
]

module _ {J Bytes Cid : Type 0} (pl : Platform J Bytes Cid) where
  -- The authorization of the proposer for one resource of an approved proposal.
  unfoldable pub authorization_for :
      ℕ
      → ℤ
      → String
      → ParticipatoryBudget J
      → BudgetProposal J
      → ℕ
      → ResourceType
      → ℕ
      → ResourceAuthorization J
  authorization_for uuid now id b p proposal_id t amount =
      new_authorization uuid b.scope_id p.proposer_did t amount b.scope_type (some b.end_timestamp)
        (some (pl.auth_metadata (pl.uuid_string proposal_id) id now))

  unfoldable pub authorization_key : ℕ → Cid
  authorization_key uuid = pl.cid_of (str_append "auth::" (pl.uuid_string uuid))
