-- ===== src/Economics/Budget/Voting.antt =====
-- What a vote changes, and whose votes count (`record_budget_vote` of
-- crates/runtime/icn-economics/src/budget_ops.rs).
use icn.Prelude.{
  ℕ, ◌≡◌, ◌≢◌, ◌∙◌, ◌⊎◌, inl, inr, refl, ap, true, false, some, String, List, ok, err, arith,
  ==_iff, ◌==◌, nat_eq, string_eq, if◌then◌else◌, Result-cases,
}
use icn.Prelude.Int.{ℤ, ltb_ℤ, ◌≤ℤ◌}
use icn.Prelude.Map.{Map, get, insert, get-insert, get-insert_self, insert-insert}
use icn.Economics.Types.{
  IdentityScope, individual, cooperative, community, node, ProposalStatus, proposed, voting_open,
  unauthorized, ResourceType,
}
use icn.Economics.Budget.Types.{VoteChoice, BudgetRulesConfig, BudgetProposal, ParticipatoryBudget}
use icn.Economics.Budget.Store.{Platform}
use icn.Economics.Budget.Steps.{
  is_votable, is_listed, allowed_voters, check_rules, check_voter, cast_vote, available_balance,
}

votable_cases : (s : ProposalStatus) → is_votable s ≡ true → (s ≡ proposed) ⊎ (s ≡ voting_open)
unfolding is_votable
votable_cases s h = ground arith

module _ {J Bytes Cid : Type 0} (pl : Platform J Bytes Cid) where
  -- The proposal with a vote recorded.
  abbrev voted : String → VoteChoice → BudgetProposal J → BudgetProposal J
  voted voter vote p = record p { status = voting_open; votes = insert voter vote p.votes }

  pub cast_vote-eq-ok :
      (now : ℤ) (id : ℕ) (voter : String) (vote : VoteChoice) (p : BudgetProposal J)
      (b c : ParticipatoryBudget J)
      → get id b.proposals ≡ some p
      → cast_vote pl now id voter vote b ≡ ok c
      → (is_votable p.status ≡ true)
        × (ltb_ℤ b.end_timestamp now ≡ false)
        × (check_voter pl b.scope_type b voter vote ≡ ok tt)
        × (c ≡ record b { proposals = insert id (voted voter vote p) b.proposals })
  unfolding cast_vote
  cast_vote-eq-ok now id voter vote p b c found done =
      elim (Result-cases (check_voter pl b.scope_type b voter vote)) [
        | inl (_, eligible) ↦ ground arith
        | inr (e, refused) ↦ ground arith
      ]

  cast_vote-ok :
      (now : ℤ) (id : ℕ) (voter : String) (vote : VoteChoice) (p : BudgetProposal J)
      (b : ParticipatoryBudget J)
      → get id b.proposals ≡ some p
      → is_votable p.status ≡ true
      → ltb_ℤ b.end_timestamp now ≡ false
      → check_voter pl b.scope_type b voter vote ≡ ok tt
      → cast_vote pl now id voter vote b
        ≡ ok (record b { proposals = insert id (voted voter vote p) b.proposals })
  unfolding cast_vote
  cast_vote-ok now id voter vote p b found votable open_still eligible = ground arith

  -- Who may vote does not depend on the proposals.
  check_voter-proposals :
      (s : IdentityScope) (b : ParticipatoryBudget J) (m : Map ℕ (BudgetProposal J))
      (voter : String) (vote : VoteChoice)
      → check_voter pl s (record b { proposals = m }) voter vote ≡ check_voter pl s b voter vote
  unfolding check_voter
  check_voter-proposals individual b m voter vote = refl
  check_voter-proposals _ b m voter vote = refl

  check_voter_outsider :
      (b : ParticipatoryBudget J) (voter : String) (vote : VoteChoice) (rules : BudgetRulesConfig J)
      (vs : List J)
      → (((b.scope_type ≡ individual) ⊎ (b.scope_type ≡ node)) × (voter ≢ b.scope_id))
        ⊎ (((b.scope_type ≡ cooperative) ⊎ (b.scope_type ≡ community))
            × (b.rules ≡ some rules)
            × (allowed_voters pl rules ≡ some vs)
            × (is_listed pl voter vs ≡ false))
      → check_voter pl b.scope_type b voter vote ≡ err (unauthorized voter)
  unfolding check_voter check_rules
  check_voter_outsider b voter vote rules vs outsider = ground (arith, ==_iff voter b.scope_id)

  -- A vote that is taken: the proposal was votable and the voting not over; the vote stands under
  -- its voter, every other vote, the request and the other proposals are as before, and so is
  -- every balance of the budget.
  pub cast_vote_records :
      (now : ℤ) (id other : ℕ) (voter w : String) (vote : VoteChoice) (t : ResourceType)
      (p : BudgetProposal J) (b c : ParticipatoryBudget J)
      → get id b.proposals ≡ some p
      → cast_vote pl now id voter vote b ≡ ok c
      → id ≢ other
      → (q : BudgetProposal J) × (get id c.proposals ≡ some q)
        × (get w q.votes ≡ (if voter == w then some vote else get w p.votes))
        × (q.status ≡ voting_open)
        × ((p.status ≡ proposed) ⊎ (p.status ≡ voting_open))
        × (now ≤ℤ b.end_timestamp)
        × (q.requested_resources ≡ p.requested_resources)
        × (q.proposer_did ≡ p.proposer_did)
        × (get other c.proposals ≡ get other b.proposals)
        × (available_balance t c ≡ available_balance t b)
  unfolding available_balance
  cast_vote_records now id other voter w vote t p b c found done ne =
      let (votable, open_still, eligible, after) =
        cast_vote-eq-ok now id voter vote p b c found done in
      (
        voted voter vote p,
        rw after (get-insert_self id (voted voter vote p) b.proposals),
        get-insert w voter vote p.votes,
        refl,
        votable_cases p.status votable,
        ground (arith, open_still),
        refl,
        refl,
        rw after (ground (arith, get-insert other id (voted voter vote p) b.proposals)),
        rw after refl,
      )

  -- The last vote of a voter counts: a vote that replaces one leaves the budget as if it had been
  -- the only one.
  pub cast_vote_last :
      (now later : ℤ) (id : ℕ) (voter : String) (first second : VoteChoice) (p : BudgetProposal J)
      (b c d : ParticipatoryBudget J)
      → get id b.proposals ≡ some p
      → cast_vote pl now id voter first b ≡ ok c
      → cast_vote pl later id voter second c ≡ ok d
      → cast_vote pl later id voter second b ≡ ok d
  cast_vote_last now later id voter first second p b c d found one two =
      let (votable, _, _, after) = cast_vote-eq-ok now id voter first p b c found one in
      let m : Map ℕ (BudgetProposal J) = insert id (voted voter first p) b.proposals in
      let (_, open_still, eligible, after_two) =
        cast_vote-eq-ok later id voter second (voted voter first p) (record b { proposals = m }) d
          (get-insert_self id (voted voter first p) b.proposals) (rw after at two) in
      cast_vote-ok later id voter second p b found votable open_still
        (rw (check_voter-proposals b.scope_type b m voter second) at eligible)
      ∙ ap ok (
          rw (
            after_two,
            insert-insert voter second first p.votes,
            insert-insert id (voted voter second p) (voted voter first p) b.proposals,
          ))

  -- The budget of an individual or a node takes votes of its owner only, and a list of allowed
  -- voters in the rules of a cooperative or a community budget keeps all others out; the vote is
  -- then refused as unauthorized if the proposal could have been voted on.
  pub cast_vote_unauthorized :
      (now : ℤ) (id : ℕ) (voter : String) (vote : VoteChoice) (p : BudgetProposal J)
      (b : ParticipatoryBudget J) (rules : BudgetRulesConfig J) (vs : List J)
      → get id b.proposals ≡ some p
      → is_votable p.status ≡ true
      → now ≤ℤ b.end_timestamp
      → (((b.scope_type ≡ individual) ⊎ (b.scope_type ≡ node)) × (voter ≢ b.scope_id))
        ⊎ (((b.scope_type ≡ cooperative) ⊎ (b.scope_type ≡ community))
            × (b.rules ≡ some rules)
            × (allowed_voters pl rules ≡ some vs)
            × (is_listed pl voter vs ≡ false))
      → cast_vote pl now id voter vote b ≡ err (unauthorized voter)
  unfolding cast_vote
  cast_vote_unauthorized now id voter vote p b rules vs found votable in_time outsider =
      ground (arith, check_voter_outsider b voter vote rules vs outsider)
