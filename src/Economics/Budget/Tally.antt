-- ===== src/Economics/Budget/Tally.antt =====
-- Counting the votes on a proposal: `tally_votes` of
-- crates/runtime/icn-economics/src/budget_ops.rs. Counts are usize and cannot wrap.
use Prim.Native.Nat.{min}
use icn.Prelude.{
  ℕ, ◌+◌, ◌%◌, Bool, true, none, some, List, [], ◌∷◌, ltb, leb, unwrap_or, nat_eq, ◌==◌, ◌&&◌,
  if◌then◌else◌,
}
use icn.Prelude.Map.{values}
use icn.Prelude.Floats.{Floats}
use icn.Economics.Types.{ProposalStatus, voting_open, approved, rejected}
use icn.Economics.Budget.Types.{
  VotingMethod, simple_majority, quadratic_voting, threshold, VoteChoice, approve, reject, abstain,
  quadratic, BudgetRulesConfig, BudgetProposal,
}

-- The counters of the loop.
pub record Count (fl : Floats) : Type 0 where
  pub approve_count : ℕ
  pub reject_count : ℕ
  pub abstain_count : ℕ
  pub quadratic_approve_total : fl.F
  pub quadratic_reject_total : fl.F
  pub total_vote_weight : ℕ

module _ (fl : Floats) where
  unfoldable pub no_votes : Count fl
  no_votes = record {
    approve_count = 0;
    reject_count = 0;
    abstain_count = 0;
    quadratic_approve_total = fl.of_u64 0;
    quadratic_reject_total = fl.of_u64 0;
    total_vote_weight = 0;
  }

  -- One round of the loop. The weights of u32 are summed up as such.
  unfoldable pub count_vote : VoteChoice → Count fl → Count fl
  count_vote approve c = record c {
    approve_count = c.approve_count + 1;
    total_vote_weight = (c.total_vote_weight + 1) % 0x100000000;
  }
  count_vote reject c = record c {
    reject_count = c.reject_count + 1;
    total_vote_weight = (c.total_vote_weight + 1) % 0x100000000;
  }
  count_vote abstain c = record c {
    abstain_count = c.abstain_count + 1;
    total_vote_weight = (c.total_vote_weight + 1) % 0x100000000;
  }
  count_vote (quadratic weight) c =
      if ltb 0 weight
      then record c {
        quadratic_approve_total = fl.add c.quadratic_approve_total (fl.sqrt (fl.of_u64 weight));
        total_vote_weight = (c.total_vote_weight + weight) % 0x100000000;
      }
      else record c {
        quadratic_reject_total = fl.add c.quadratic_reject_total (fl.sqrt (fl.of_u64 weight));
        total_vote_weight = (c.total_vote_weight + weight) % 0x100000000;
      }

  unfoldable pub count_votes : List VoteChoice → Count fl → Count fl
  unfolding count_vote
  count_votes [] c = c
  count_votes (v ∷ vs) c = count_votes vs (count_vote v c)

  -- `(total * (quorum / 100.0)).ceil() as u32`
  unfoldable pub quorum_threshold : ℕ → ℕ → ℕ
  quorum_threshold eligible percentage =
      min
        (fl.to_u64
          (fl.ceil (fl.mul (fl.of_u64 eligible) (fl.div (fl.of_u64 percentage) (fl.of_u64 100)))))
        0xffffffff

  unfoldable pub quorum_met : {J : Type 0} → BudgetRulesConfig J → ℕ → Count fl → Bool
  quorum_met rules eligible c =
      let total_votes_cast = c.approve_count + c.reject_count + c.abstain_count in
      elim rules.quorum_percentage [
        | some percentage ↦ leb (quorum_threshold eligible percentage) total_votes_cast
        | none ↦ elim rules.min_participants [
          | some participants ↦ leb participants total_votes_cast
          | none ↦ true
        ]
      ]

  unfoldable pub threshold_ratio : {J : Type 0} → BudgetRulesConfig J → fl.F
  threshold_ratio rules =
      fl.div (fl.of_u64 (unwrap_or rules.threshold_percentage 50)) (fl.of_u64 100)

  -- `x == 0.0`: no total is below zero or NaN
  abbrev is_zero : fl.F → Bool
  is_zero x = fl.le x (fl.of_u64 0) && fl.le (fl.of_u64 0) x

  unfoldable pub decide : VotingMethod → fl.F → ℕ → Count fl → ProposalStatus
  decide simple_majority ratio eligible c =
      let decided = c.approve_count + c.reject_count in
      if decided == 0
      then voting_open
      else if fl.lt ratio (fl.div (fl.of_u64 c.approve_count) (fl.of_u64 decided))
      then approved
      else rejected
  decide threshold ratio eligible c =
      if fl.le ratio (fl.div (fl.of_u64 c.approve_count) (fl.of_u64 eligible))
      then approved
      else rejected
  decide quadratic_voting ratio eligible c =
      let power =
        fl.div c.quadratic_approve_total
          (fl.add c.quadratic_approve_total c.quadratic_reject_total) in
      if is_zero c.quadratic_approve_total && is_zero c.quadratic_reject_total
      then voting_open
      else if fl.lt c.quadratic_reject_total c.quadratic_approve_total
      then (if fl.le ratio power then approved else rejected)
      else rejected

  unfoldable pub tally_votes :
      {J : Type 0} → BudgetProposal J → BudgetRulesConfig J → ℕ → ProposalStatus
  unfolding no_votes count_votes quorum_met quorum_threshold threshold_ratio decide
  tally_votes proposal rules eligible =
      let c = count_votes (values proposal.votes) no_votes in
      if quorum_met rules eligible c
      then decide (unwrap_or rules.voting_method simple_majority) (threshold_ratio rules) eligible c
      else voting_open
