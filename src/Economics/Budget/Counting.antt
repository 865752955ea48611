-- ===== src/Economics/Budget/Counting.antt =====
-- What `tally_votes` counts and decides (crates/runtime/icn-economics/src/budget_ops.rs).
use icn.Prelude.{
  ℕ, zero, suc, ◌+◌, ◌<◌, ◌≡◌, ◌≢◌, ◌⊎◌, inl, inr, refl, Bool, true, false, some, List, [], ◌∷◌,
  arith, nat_eq, if◌then◌else◌, unwrap_or, length, retain, Bool-cases,
}
use icn.Prelude.Map.{values}
use icn.Prelude.Floats.{Floats}
use icn.Economics.Types.{voting_open, rejected}
use icn.Economics.Budget.Types.{
  VotingMethod, simple_majority, quadratic_voting, threshold, VoteChoice, approve, reject, abstain,
  quadratic, BudgetRulesConfig, BudgetProposal,
}
use icn.Economics.Budget.Tally.{
  Count, no_votes, count_vote, count_votes, quorum_threshold, quorum_met, threshold_ratio, decide,
  tally_votes,
}

-- The votes of each plain kind.
abbrev pub is_approve : VoteChoice → Bool
is_approve approve = true
is_approve _ = false

abbrev pub is_reject : VoteChoice → Bool
is_reject reject = true
is_reject _ = false

abbrev pub is_abstain : VoteChoice → Bool
is_abstain abstain = true
is_abstain _ = false

abbrev pub votes_of : (VoteChoice → Bool) → List VoteChoice → ℕ
votes_of kind vs = length (retain kind vs)

module _ (fl : Floats) where
  count_votes_from :
      (vs : List VoteChoice) (c : Count fl)
      → ((count_votes fl vs c).approve_count ≡ c.approve_count + votes_of is_approve vs)
        × ((count_votes fl vs c).reject_count ≡ c.reject_count + votes_of is_reject vs)
        × ((count_votes fl vs c).abstain_count ≡ c.abstain_count + votes_of is_abstain vs)
  unfolding count_votes
  count_votes_from [] c = omega arith
  count_votes_from (approve ∷ vs) c = omega (arith, count_votes_from vs (count_vote fl approve c))
  count_votes_from (reject ∷ vs) c = omega (arith, count_votes_from vs (count_vote fl reject c))
  count_votes_from (abstain ∷ vs) c = omega (arith, count_votes_from vs (count_vote fl abstain c))
  count_votes_from (quadratic w ∷ vs) c =
      ground (arith, count_votes_from vs (count_vote fl (quadratic w) c))

  -- The loop counts the votes of each plain kind, in any order, and no quadratic ones.
  pub count_votes_exact :
      (vs : List VoteChoice)
      → let c = count_votes fl vs (no_votes fl) in
        (c.approve_count ≡ votes_of is_approve vs)
        × (c.reject_count ≡ votes_of is_reject vs)
        × (c.abstain_count ≡ votes_of is_abstain vs)
  unfolding no_votes
  count_votes_exact vs = omega (arith, count_votes_from vs (no_votes fl))

  -- A square root of zero adds nothing to zero.
  zero_stays :
      (vs : List VoteChoice) (c : Count fl)
      → fl.sqrt (fl.of_u64 0) ≡ fl.of_u64 0
      → fl.add (fl.of_u64 0) (fl.of_u64 0) ≡ fl.of_u64 0
      → c.quadratic_reject_total ≡ fl.of_u64 0
      → (count_votes fl vs c).quadratic_reject_total ≡ fl.of_u64 0
  unfolding count_votes
  zero_stays [] c root sum z = z
  zero_stays (approve ∷ vs) c root sum z = zero_stays vs (count_vote fl approve c) root sum z
  zero_stays (reject ∷ vs) c root sum z = zero_stays vs (count_vote fl reject c) root sum z
  zero_stays (abstain ∷ vs) c root sum z = zero_stays vs (count_vote fl abstain c) root sum z
  zero_stays (quadratic zero ∷ vs) c root sum z =
      zero_stays vs (count_vote fl (quadratic 0) c) root sum (rw (z, root) sum)
  zero_stays (quadratic (suc w) ∷ vs) c root sum z =
      zero_stays vs (count_vote fl (quadratic (suc w)) c) root sum (ground arith)

  -- Below the quorum a proposal stays open, whatever the method and the votes for it.
  pub tally_below_quorum :
      {J : Type 0} (p : BudgetProposal J) (rules : BudgetRulesConfig J) (eligible percentage : ℕ)
      → rules.quorum_percentage ≡ some percentage
      → votes_of is_approve (values p.votes)
          + votes_of is_reject (values p.votes)
          + votes_of is_abstain (values p.votes)
        < quorum_threshold fl eligible percentage
      → tally_votes fl p rules eligible ≡ voting_open
  unfolding tally_votes
  tally_below_quorum p rules eligible percentage quorum few =
      ground (arith, count_votes_exact (values p.votes))

  by_counts :
      {J : Type 0} (rules : BudgetRulesConfig J) (eligible : ℕ) (method : VotingMethod)
      (c d : Count fl)
      → method ≢ quadratic_voting
      → c.approve_count ≡ d.approve_count
      → c.reject_count ≡ d.reject_count
      → c.abstain_count ≡ d.abstain_count
      → (if quorum_met fl rules eligible c
          then decide fl method (threshold_ratio fl rules) eligible c
          else voting_open)
        ≡ (if quorum_met fl rules eligible d
            then decide fl method (threshold_ratio fl rules) eligible d
            else voting_open)
  unfolding quorum_met decide
  by_counts rules eligible simple_majority c d plain a r n = rw (a, r, n) refl
  by_counts rules eligible threshold c d plain a r n = rw (a, r, n) refl
  by_counts rules eligible quadratic_voting c d plain a r n = absurd (plain refl)

  -- Plain voting does not depend on the order in which the map of votes is read: two proposals
  -- with as many approvals, rejections and abstentions get the same status.
  pub tally_by_counts :
      {J : Type 0} (p q : BudgetProposal J) (rules : BudgetRulesConfig J) (eligible : ℕ)
      → unwrap_or rules.voting_method simple_majority ≢ quadratic_voting
      → votes_of is_approve (values p.votes) ≡ votes_of is_approve (values q.votes)
      → votes_of is_reject (values p.votes) ≡ votes_of is_reject (values q.votes)
      → votes_of is_abstain (values p.votes) ≡ votes_of is_abstain (values q.votes)
      → tally_votes fl p rules eligible ≡ tally_votes fl q rules eligible
  unfolding tally_votes
  tally_by_counts p q rules eligible plain a r n =
      let (pa, pr, pn) = count_votes_exact (values p.votes) in
      let (qa, qr, qn) = count_votes_exact (values q.votes) in
      let c : Count fl = count_votes fl (values p.votes) (no_votes fl) in
      let d : Count fl = count_votes fl (values q.votes) (no_votes fl) in
      let same_a : c.approve_count ≡ d.approve_count = omega arith in
      let same_r : c.reject_count ≡ d.reject_count = omega arith in
      let same_n : c.abstain_count ≡ d.abstain_count = omega arith in
      by_counts rules eligible (unwrap_or rules.voting_method simple_majority) c d plain same_a
        same_r same_n

  start_zero : (no_votes fl).quadratic_reject_total ≡ fl.of_u64 0
  unfolding no_votes
  start_zero = refl

  quadratic_decided :
      (ratio : fl.F) (eligible : ℕ) (c : Count fl)
      → c.quadratic_reject_total ≡ fl.of_u64 0
      → fl.add c.quadratic_approve_total (fl.of_u64 0) ≡ c.quadratic_approve_total
      → ((fl.lt (fl.of_u64 0) c.quadratic_approve_total ≡ true)
          × (fl.le ratio (fl.div c.quadratic_approve_total c.quadratic_approve_total) ≡ true))
        ⊎ (c.quadratic_approve_total ≡ fl.of_u64 0)
      → fl.le (fl.of_u64 0) (fl.of_u64 0) ≡ true
      → decide fl quadratic_voting ratio eligible c ≢ rejected
  unfolding decide
  quadratic_decided ratio eligible c zero_against unit (inl (more, share)) self =
      rw (zero_against, unit, more, share) (λ h. ground arith)
  quadratic_decided ratio eligible c zero_against unit (inr nothing) self =
      rw (zero_against, nothing, self) (λ h. cc)

  -- The sum of the roots of all weights.
  abbrev pub voting_power : {J : Type 0} → BudgetProposal J → fl.F
  voting_power p = (count_votes fl (values p.votes) (no_votes fl)).quadratic_approve_total

  -- Quadratic voting cannot reject: weights are unsigned, so the sum of the rejections stays zero,
  -- and a proposal with any positive weight has the whole of the voting power. Of the arithmetic
  -- this takes that the root of zero is zero, that adding zero changes nothing, that a sum of
  -- roots is zero or positive, and that the share of the whole reaches the threshold.
  pub tally_quadratic_never_rejects :
      {J : Type 0} (p : BudgetProposal J) (rules : BudgetRulesConfig J) (eligible : ℕ)
      → rules.voting_method ≡ some quadratic_voting
      → fl.sqrt (fl.of_u64 0) ≡ fl.of_u64 0
      → fl.add (fl.of_u64 0) (fl.of_u64 0) ≡ fl.of_u64 0
      → fl.add (voting_power p) (fl.of_u64 0) ≡ voting_power p
      → ((fl.lt (fl.of_u64 0) (voting_power p) ≡ true)
          × (fl.le (threshold_ratio fl rules) (fl.div (voting_power p) (voting_power p)) ≡ true))
        ⊎ (voting_power p ≡ fl.of_u64 0)
      → fl.le (fl.of_u64 0) (fl.of_u64 0) ≡ true
      → tally_votes fl p rules eligible ≢ rejected
  unfolding tally_votes
  tally_quadratic_never_rejects p rules eligible method root sum unit positive self h =
      let c : Count fl = count_votes fl (values p.votes) (no_votes fl) in
      let none_against : c.quadratic_reject_total ≡ fl.of_u64 0 =
        zero_stays (values p.votes) (no_votes fl) root sum start_zero in
      let undecided =
        quadratic_decided (threshold_ratio fl rules) eligible c none_against unit positive self in
      elim (Bool-cases (quorum_met fl rules eligible c)) [
        | inl met ↦ undecided (ground arith)
        | inr short ↦ ground arith
      ]
