-- ===== src/Economics/Budget/Tests/Votes.antt =====
-- The theorems on votes, counts and balances at the budget of the tests.
use icn.Prelude.{◌≡◌, ◌≢◌, ◌⊎◌, inl, refl, none, some, [], ◌∷◌, arith, nat_eq, string_eq}
use icn.Prelude.Int.{pos, ◌≤ℤ◌}
use icn.Prelude.Map.{get, insert}
use icn.Prelude.Floats.{fractions, sqrt_below}
use icn.Economics.Types.{compute, proposed, voting_open, approved, rejected, resource_eq}
use icn.Economics.Budget.Types.{
  quadratic_voting, approve, reject, quadratic, BudgetRulesConfig, BudgetProposal,
  ParticipatoryBudget,
}
use icn.Economics.Budget.Tally.{tally_votes, count_votes, no_votes, threshold_ratio}
use icn.Economics.Budget.Steps.{
  cast_vote, check_voter, check_rules, is_listed, allowed_voters, check_method, available_balance,
}
use icn.Economics.Budget.Voting.{cast_vote_records}
use icn.Economics.Budget.Counting.{tally_by_counts, tally_quadratic_never_rejects}
use icn.Economics.Budget.Tests.{Texts, platform, rules, proposal, rival, budget}

two_to_one : tally_votes fractions proposal rules 10 ≡ approved
unfolding tally_votes
two_to_one = refl

abbrev changed : ParticipatoryBudget Texts
changed = record budget {
  proposals =
      (1, record proposal { votes = ("ann", reject) ∷ ("bob", approve) ∷ ("cat", reject) ∷ [] })
      ∷ (2, rival)
      ∷ [];
}

cast_vote_records_example :
    (q : BudgetProposal Texts) × (get 1 changed.proposals ≡ some q)
    × (get "bob" q.votes ≡ some approve)
    × (q.status ≡ voting_open)
    × ((voting_open ≡ proposed) ⊎ (voting_open ≡ voting_open))
    × (pos 50 ≤ℤ pos 100)
    × (q.requested_resources ≡ (compute, 600) ∷ [])
    × (q.proposer_did ≡ "ann")
    × (get 2 changed.proposals ≡ get 2 budget.proposals)
    × (available_balance compute changed ≡ available_balance compute budget)
unfolding cast_vote check_voter check_rules is_listed allowed_voters check_method get insert
cast_vote_records_example =
    cast_vote_records platform (pos 50) 1 2 "ann" "bob" reject compute proposal budget changed refl
      refl (omega arith)

abbrev back : ParticipatoryBudget Texts
back = budget

abbrev quiet : BudgetProposal Texts
quiet = record proposal { votes = ("ann", approve) ∷ ("bob", approve) ∷ [] }

abbrev reordered : BudgetProposal Texts
reordered = record proposal { votes = ("x", reject) ∷ ("y", approve) ∷ ("z", approve) ∷ [] }

tally_by_counts_example :
    tally_votes fractions proposal rules 10 ≡ tally_votes fractions reordered rules 10
tally_by_counts_example =
    tally_by_counts fractions proposal reordered rules 10 (λ e. cc) refl refl refl

abbrev weighed : BudgetProposal Texts
weighed = record proposal {
  votes = ("ann", quadratic 9) ∷ ("bob", quadratic 0) ∷ ("cat", reject) ∷ [];
}

abbrev quadratic_rules : BudgetRulesConfig Texts
quadratic_rules = record rules {
  voting_method = some quadratic_voting;
  quorum_percentage = none;
  min_participants = none;
}

tally_quadratic_never_rejects_example : tally_votes fractions weighed quadratic_rules 10 ≢ rejected
unfolding count_votes no_votes threshold_ratio sqrt_below
tally_quadratic_never_rejects_example =
    tally_quadratic_never_rejects fractions weighed quadratic_rules 10 refl refl refl refl
      (inl (refl, refl)) refl
