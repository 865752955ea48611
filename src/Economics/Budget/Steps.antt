-- ===== src/Economics/Budget/Steps.antt =====
-- The steps of budget_ops.rs on a budget that was loaded
-- (crates/runtime/icn-economics/src/budget_ops.rs): balances, allocation, the rules of categories,
-- who may vote, and a vote. Amounts are u64 and wrap as in a release build; logging is left out.
use icn.Prelude.{
  ℕ, ◌-◌, Bool, true, false, not, Option, none, some, String, List, [], ◌∷◌, Result, ok, err, ltb,
  add64, any, ◌==◌, nat_eq, string_eq, if◌then◌else◌,
}
use icn.Prelude.Int.{ℤ, ltb_ℤ}
use icn.Prelude.Map.{Map, get, insert, values, get_or}
use icn.Prelude.Floats.{Floats}
use icn.Economics.Types.{
  IdentityScope, individual, cooperative, community, federation, node, guardian, administrator,
  ResourceType, resource_eq, ProposalStatus, proposed, voting_open, rejected, executed, failed,
  cancelled, EconomicsError, invalid_budget, unauthorized, category_not_found, exceeds_category,
  proposal_not_found, not_votable, voting_ended, quadratic_required,
}
use icn.Economics.Budget.Types.{
  VotingMethod, quadratic_voting, VoteChoice, quadratic, BudgetRulesConfig, ParticipatoryBudget,
}
use icn.Economics.Budget.Store.{Platform}

-- `status == Proposed || status == VotingOpen`
unfoldable pub is_votable : ProposalStatus → Bool
is_votable proposed = true
is_votable voting_open = true
is_votable _ = false

-- The statuses that `finalize_budget_proposal` leaves alone.
unfoldable pub is_final : ProposalStatus → Bool
is_final executed = true
is_final failed = true
is_final rejected = true
is_final cancelled = true
is_final _ = false

-- The sum of what all proposals have spent of one resource, in iteration order.
unfoldable pub total_spent : ResourceType → List (Map ResourceType ℕ) → ℕ
total_spent t [] = 0
total_spent t (m ∷ ms) = add64 (get_or t 0 m) (total_spent t ms)

unfoldable pub available_balance : {J : Type 0} → ResourceType → ParticipatoryBudget J → ℕ
unfolding total_spent
available_balance t b =
    let allocated = get_or t 0 b.total_allocated in
    let spent = total_spent t (values b.spent_by_proposal) in
    if ltb allocated spent then 0 else allocated - spent

unfoldable pub allocate :
    {J : Type 0} → ResourceType → ℕ → ParticipatoryBudget J → ParticipatoryBudget J
allocate t amount b = record b {
  total_allocated = insert t (add64 (get_or t 0 b.total_allocated) amount) b.total_allocated;
}

-- The loop over the requested resources against the maximal share of a category.
unfoldable pub check_share :
    Floats → Map ResourceType ℕ → String → ℕ → Map ResourceType ℕ → Result EconomicsError (Unit {0})
check_share fl allocated category max_share [] = ok tt
check_share fl allocated category max_share ((t, requested) ∷ rest) =
    let next = check_share fl allocated category max_share rest in
    elim (get t allocated) [
      | none ↦ next
      | some total ↦
          let percentage =
            fl.mul (fl.div (fl.of_u64 requested) (fl.of_u64 total)) (fl.of_u64 100) in
          if fl.lt (fl.of_u64 max_share) percentage
          then err (invalid_budget (exceeds_category t category))
          else next
    ]

-- The rules of the category of a proposal, if it names one and the budget has such rules.
unfoldable pub check_category :
    {J : Type 0}
    → Floats
    → ParticipatoryBudget J
    → Option String
    → Map ResourceType ℕ
    → Result EconomicsError (Unit {0})
unfolding check_share
check_category fl b category requested = elim category [
  | none ↦ ok tt
  | some cat ↦ elim b.rules [
    | none ↦ ok tt
    | some rules ↦ elim rules.categories [
      | none ↦ ok tt
      | some categories ↦ elim (get cat categories) [
        | none ↦ err (invalid_budget (category_not_found cat))
        | some rule ↦ elim rule.max_allocation [
          | none ↦ ok tt
          | some max_share ↦ check_share fl b.total_allocated cat max_share requested
        ]
      ]
    ]
  ]
]

module _ {J Bytes Cid : Type 0} (pl : Platform J Bytes Cid) where
  -- `voters.iter().filter_map(as_str).any(|did| did == voter_did)`
  unfoldable pub is_listed : String → List J → Bool
  is_listed voter vs = any (λ v. elim (pl.as_str v) [ none ↦ false | some did ↦ did == voter ]) vs

  -- The list `allowed_voters` of the custom rules, if there is one.
  unfoldable pub allowed_voters : BudgetRulesConfig J → Option (List J)
  allowed_voters rules = elim rules.custom_rules [
    | none ↦ none
    | some custom ↦ elim (pl.json_get "allowed_voters" custom) [
      | none ↦ none
      | some v ↦ pl.as_array v
    ]
  ]

  -- "If Quadratic voting is required, ensure vote is Quadratic type."
  unfoldable pub check_method : Option VotingMethod → VoteChoice → Result EconomicsError (Unit {0})
  check_method (some quadratic_voting) (quadratic w) = ok tt
  check_method (some quadratic_voting) _ = err (invalid_budget quadratic_required)
  check_method _ _ = ok tt

  unfoldable pub check_rules :
      BudgetRulesConfig J → String → VoteChoice → Result EconomicsError (Unit {0})
  unfolding check_method
  check_rules rules voter vote = elim (allowed_voters rules) [
    | none ↦ check_method rules.voting_method vote
    | some vs ↦
        if is_listed voter vs
        then check_method rules.voting_method vote
        else err (unauthorized voter)
  ]

  -- Whether a voter may cast a vote, by the scope of the budget.
  unfoldable pub check_voter :
      IdentityScope → ParticipatoryBudget J → String → VoteChoice → Result EconomicsError (Unit {0})
  unfolding check_rules
  check_voter individual b voter vote =
      if voter == b.scope_id then ok tt else err (unauthorized voter)
  check_voter cooperative b voter vote = elim b.rules [
    | none ↦ ok tt
    | some rules ↦ check_rules rules voter vote
  ]
  check_voter community b voter vote = elim b.rules [
    | none ↦ ok tt
    | some rules ↦ check_rules rules voter vote
  ]
  check_voter federation b voter vote = ok tt
  check_voter guardian b voter vote = ok tt
  check_voter administrator b voter vote = ok tt
  check_voter node b voter vote = if voter == b.scope_id then ok tt else err (unauthorized voter)

  -- `record_budget_vote` on the budget that was loaded.
  unfoldable pub cast_vote :
      ℤ
      → ℕ
      → String
      → VoteChoice
      → ParticipatoryBudget J
      → Result EconomicsError (ParticipatoryBudget J)
  unfolding is_votable
  cast_vote now id voter vote b = elim (get id b.proposals) [
    | none ↦ err (invalid_budget (proposal_not_found id))
    | some p ↦
        if not (is_votable p.status)
        then err (invalid_budget (not_votable p.status))
        else if ltb_ℤ b.end_timestamp now
        then err (invalid_budget (voting_ended b.end_timestamp))
        else elim (check_voter b.scope_type b voter vote) [
          | err e ↦ err e
          | ok _ ↦
              let voted = record p { status = voting_open; votes = insert voter vote p.votes } in
              ok (record b { proposals = insert id voted b.proposals })
        ]
  ]
