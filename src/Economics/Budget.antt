-- ===== src/Economics/Budget.antt =====
-- Participatory budgets: the operations of crates/runtime/icn-economics/src/budget_ops.rs over any
-- budget storage. Fresh identifiers and the time are arguments. Where the source reads the clock
-- again only to log, the model does not.
pub mod Types
pub mod Store
pub mod Tally
pub mod Counting
pub mod Steps
pub mod Outcome
pub mod Voting
pub mod Spending
pub mod Lifecycle
pub mod Execution
pub mod Overspending
mod Tests
use icn.Prelude.{
  ℕ, suc, ◌+◌, Bool, true, false, not, ◌||◌, Option, none, some, String, List, [], ◌∷◌, Result, ok,
  err, ok_or, map_err, ltb, if◌then◌else◌, unwrap_or, nat_eq,
}
use icn.Prelude.Int.{ℤ, ltb_ℤ}
use icn.Prelude.Map.{Map, get, insert, remove}
use icn.Prelude.State.{Action, pure, raise, lift, reads, ◌>>=◌, ◌>>◌, raise_if}
use icn.Prelude.Floats.{Floats}
use icn.Economics.Types.{
  IdentityScope, ResourceType, resource_eq, ProposalStatus, proposed, voting_open, voting_closed,
  approved, rejected, executed, failed, cancelled, EconomicsError, insufficient_balance,
  invalid_budget, outside_timeframe, proposal_not_found, not_approved,
  cannot_serialize_authorization, failed_to_store_authorization, new_authorization,
  ResourceAuthorization,
}
use Types.{
  simple_majority, VoteChoice, approve, BudgetRulesConfig, BudgetProposal, ParticipatoryBudget,
}
use Store.{Platform, BudgetStorage, load_budget, save_budget}
use Tally.{tally_votes}
use Outcome.{
  copy_resources, default_rules, total_eligible_voters, tally, approve_spending, set_status,
  settled, authorization_for, authorization_key,
}
use Steps.{is_votable, is_final, available_balance, allocate, check_category, cast_vote}
use Prim.Native.String.{◌++◌ as str_append}

module _ {J S Bytes Cid : Type 0} (pl : Platform J Bytes Cid) (st : BudgetStorage S Bytes Cid) where
  open st use {put_with_key}

  pub create_budget :
      ℕ
      → (name scope_id : String) → IdentityScope
      → (start end_time : ℤ) → Option (BudgetRulesConfig J)
      → Action S EconomicsError String
  unfolding save_budget
  create_budget uuid name scope_id scope_type start end_time rules = do
    let budget : ParticipatoryBudget J = record {
      id = pl.uuid_string uuid;
      name = name;
      scope_id = scope_id;
      scope_type = scope_type;
      total_allocated = [];
      spent_by_proposal = [];
      proposals = [];
      rules = rules;
      start_timestamp = start;
      end_timestamp = end_time;
    }
    save_budget pl st budget
    pure (pl.uuid_string uuid)

  pub allocate_to_budget : String → ResourceType → ℕ → Action S EconomicsError (Unit {0})
  unfolding allocate
  allocate_to_budget id t amount = do
    budget ← reads (load_budget pl st id)
    save_budget pl st (allocate t amount budget)

  pub query_budget_balance : String → ResourceType → S → Result EconomicsError ℕ
  query_budget_balance id t s = elim (load_budget pl st id s) [
    | err e ↦ err e
    | ok budget ↦ ok (available_balance t budget)
  ]

  -- The loop of `propose_budget_spend` over the requested resources.
  pub check_available : String → Map ResourceType ℕ → S → Result EconomicsError (Unit {0})
  unfolding query_budget_balance
  check_available id [] s = ok tt
  check_available id ((t, requested) ∷ rest) s =
      let next = check_available id rest s in
      elim (query_budget_balance id t s) [
        | err e ↦ err e
        | ok available ↦
            if ltb available requested
            then err (insufficient_balance requested t available)
            else next
      ]

  pub propose_budget_spend :
      Floats
      → ℕ
      → ℤ
      → String
      → (title description : String) → Map ResourceType ℕ
      → String
      → Option String
      → Option J
      → Action S EconomicsError ℕ
  unfolding check_available
  propose_budget_spend fl uuid now id title description requested proposer category metadata = do
    budget ← reads (load_budget pl st id)
    raise_if (ltb_ℤ now budget.start_timestamp || ltb_ℤ budget.end_timestamp now)
        (invalid_budget (outside_timeframe budget.start_timestamp budget.end_timestamp))
    reads (check_available id requested)
    lift (check_category fl budget category requested)
    let proposal : BudgetProposal J = record {
      id = uuid;
      title = title;
      description = description;
      proposer_did = proposer;
      requested_resources = requested;
      status = proposed;
      category = category;
      votes = [];
      creation_timestamp = now;
      metadata = metadata;
    }
    save_budget pl st (record budget { proposals = insert uuid proposal budget.proposals })
    pure uuid

  pub record_budget_vote : ℤ → String → ℕ → String → VoteChoice → Action S EconomicsError (Unit {0})
  record_budget_vote now id proposal_id voter vote = do
    budget ← reads (load_budget pl st id)
    voted ← lift (cast_vote pl now proposal_id voter vote budget)
    save_budget pl st voted

  pub tally_budget_votes : Floats → String → ℕ → S → Result EconomicsError ProposalStatus
  tally_budget_votes fl id proposal_id s = elim (load_budget pl st id s) [
    | err e ↦ err e
    | ok budget ↦ tally fl proposal_id budget
  ]

  pub put_authorization : ResourceAuthorization J → Action S EconomicsError (Unit {0})
  unfolding authorization_key
  put_authorization auth s = elim (pl.auth_serde.to_vec auth) [
    | err e ↦ (err (invalid_budget (cannot_serialize_authorization e)), s)
    | ok bytes ↦
        let (r, s') = put_with_key (authorization_key pl auth.auth_id) bytes s in
        (map_err (λ _. invalid_budget failed_to_store_authorization) r, s')
  ]

  -- One authorization for each resource, the n-th under the fresh identifier `fresh n`.
  pub store_authorizations :
      (ℕ → ℕ)
      → ℕ
      → ℤ
      → String
      → ParticipatoryBudget J
      → BudgetProposal J
      → ℕ
      → Map ResourceType ℕ
      → Action S EconomicsError (Unit {0})
  store_authorizations fresh n now id b p proposal_id [] = pure tt
  store_authorizations fresh n now id b p proposal_id ((t, amount) ∷ rest) = do
    put_authorization (authorization_for pl (fresh n) now id b p proposal_id t amount)
    store_authorizations fresh (suc n) now id b p proposal_id rest

  -- `finalize_budget_proposal` once the votes are counted and the budget is loaded again.
  pub settle :
      (ℕ → ℕ)
      → ℤ
      → String
      → ℕ
      → ProposalStatus
      → BudgetProposal J
      → ParticipatoryBudget J
      → Action S EconomicsError ProposalStatus
  settle fresh now id proposal_id approved p b = do
    save_budget pl st (approve_spending proposal_id p b)
    store_authorizations fresh 0 now id b p proposal_id (copy_resources p.requested_resources [])
    pure executed
  settle fresh now id proposal_id status p b = do
    save_budget pl st (set_status proposal_id p status b)
    pure status

  pub finalize_tallied :
      (ℕ → ℕ) → ℤ → String → ℕ → ProposalStatus → Action S EconomicsError ProposalStatus
  finalize_tallied fresh now id proposal_id voting_open = pure voting_open
  finalize_tallied fresh now id proposal_id status = do
    budget ← reads (load_budget pl st id)
    p ←
        lift (
          ok_or (get proposal_id budget.proposals)
            (invalid_budget (proposal_not_found proposal_id)))
    settle fresh now id proposal_id status p budget

  pub finalize_budget_proposal :
      Floats → (ℕ → ℕ) → ℤ → String → ℕ → Action S EconomicsError ProposalStatus
  unfolding settled tally_budget_votes
  finalize_budget_proposal fl fresh now id proposal_id = do
    budget_state ← reads (load_budget pl st id)
    elim (settled proposal_id budget_state) [
      | some status ↦ pure status
      | none ↦ do
        new_status ← reads (tally_budget_votes fl id proposal_id)
        finalize_tallied fresh now id proposal_id new_status
    ]

  -- `status == Approved`
  abbrev is_approved : ProposalStatus → Bool
  is_approved approved = true
  is_approved _ = false

  pub approve_budget_proposal :
      Floats → (ℕ → ℕ) → ℤ → String → ℕ → String → Action S EconomicsError (Unit {0})
  approve_budget_proposal fl fresh now id proposal_id approver = do
    record_budget_vote now id proposal_id approver approve
    status ← finalize_budget_proposal fl fresh now id proposal_id
    if is_approved status then pure tt else raise (invalid_budget (not_approved status))
