-- ===== src/Economics/Budget/Lifecycle.antt =====
-- The life of a proposal through the storage: votes, and `finalize_budget_proposal`
-- (crates/runtime/icn-economics/src/budget_ops.rs).
use icn.Prelude.{
  ℕ, ◌≡◌, ◌≢◌, ◌⊎◌, inl, inr, true, false, some, String, ok, err, arith, nat_eq, string_eq,
  if◌then◌else◌, Result-cases, Option-cases, Bool-cases,
}
use icn.Prelude.Int.{ℤ}
use icn.Prelude.Map.{get}
use icn.Prelude.Floats.{Floats}
use icn.Economics.Types.{ProposalStatus, voting_open, approved, EconomicsError}
use icn.Economics.Budget.Types.{VoteChoice, BudgetProposal, ParticipatoryBudget}
use icn.Economics.Budget.Store.{Platform, BudgetStorage, load_budget}
use icn.Economics.Budget.Steps.{is_final, cast_vote}
use icn.Economics.Budget.Outcome.{tally, settled}
use icn.Economics.Budget.{
  record_budget_vote, settle, finalize_tallied, finalize_budget_proposal, approve_budget_proposal,
}

module _ {J S Bytes Cid : Type 0} (pl : Platform J Bytes Cid) (st : BudgetStorage S Bytes Cid) where
  -- A vote that is refused writes nothing.
  record_budget_vote_refused :
      (now : ℤ) (id : String) (pid : ℕ) (voter : String) (vote : VoteChoice) (e : EconomicsError)
      (b : ParticipatoryBudget J) (s : S)
      → load_budget pl st id s ≡ ok b
      → cast_vote pl now pid voter vote b ≡ err e
      → record_budget_vote pl st now id pid voter vote s ≡ (err e, s)
  unfolding record_budget_vote
  record_budget_vote_refused now id pid voter vote e b s loaded refused = ground arith

  pub finalize_final :
      (fl : Floats) (fresh : ℕ → ℕ) (now : ℤ) (id : String) (pid : ℕ) (p : BudgetProposal J)
      (b : ParticipatoryBudget J) (s : S)
      → load_budget pl st id s ≡ ok b
      → get pid b.proposals ≡ some p
      → is_final p.status ≡ true
      → finalize_budget_proposal pl st fl fresh now id pid s ≡ (ok p.status, s)
  unfolding finalize_budget_proposal
  finalize_final fl fresh now id pid p b s loaded found final = ground arith

  finalize_undecided :
      (fl : Floats) (fresh : ℕ → ℕ) (now : ℤ) (id : String) (pid : ℕ) (p : BudgetProposal J)
      (b : ParticipatoryBudget J) (s : S)
      → load_budget pl st id s ≡ ok b
      → get pid b.proposals ≡ some p
      → is_final p.status ≡ false
      → tally fl pid b ≡ ok voting_open
      → finalize_budget_proposal pl st fl fresh now id pid s ≡ (ok voting_open, s)
  unfolding finalize_budget_proposal finalize_tallied
  finalize_undecided fl fresh now id pid p b s loaded found open_still undecided = ground arith

  -- A proposal whose status is final keeps it, and one whose tally is undecided stays open:
  -- finalizing reports that status and writes nothing.
  pub finalize_unchanged :
      (fl : Floats) (fresh : ℕ → ℕ) (now : ℤ) (id : String) (pid : ℕ) (p : BudgetProposal J)
      (b : ParticipatoryBudget J) (s : S)
      → load_budget pl st id s ≡ ok b
      → get pid b.proposals ≡ some p
      → (is_final p.status ≡ true) ⊎ (tally fl pid b ≡ ok voting_open)
      → finalize_budget_proposal pl st fl fresh now id pid s
        ≡ (ok (if is_final p.status then p.status else voting_open), s)
  finalize_unchanged fl fresh now id pid p b s loaded found over =
      elim (Bool-cases (is_final p.status)) [
        | inl final ↦ rw final (finalize_final fl fresh now id pid p b s loaded found final)
        | inr live ↦ elim over [
          | inl final ↦ ground arith
          | inr undecided ↦
              rw live (finalize_undecided fl fresh now id pid p b s loaded found live undecided)
        ]
      ]

  settle-ne-approved :
      (fresh : ℕ → ℕ) (now : ℤ) (id : String) (pid : ℕ) (status : ProposalStatus)
      (p : BudgetProposal J) (b : ParticipatoryBudget J) (s : S)
      → (settle pl st fresh now id pid status p b s).0 ≢ ok approved
  unfolding settle
  settle-ne-approved fresh now id pid approved p b s h = ground arith
  settle-ne-approved fresh now id pid status p b s h = ground arith

  finalize_tallied-ne-approved :
      (fresh : ℕ → ℕ) (now : ℤ) (id : String) (pid : ℕ) (status : ProposalStatus) (s : S)
      → (finalize_tallied pl st fresh now id pid status s).0 ≢ ok approved
  unfolding finalize_tallied
  finalize_tallied-ne-approved fresh now id pid voting_open s h = ground arith
  finalize_tallied-ne-approved fresh now id pid status s h =
      elim (Result-cases (load_budget pl st id s)) [
        | inr (e, unread) ↦ ground arith
        | inl (b, loaded) ↦ elim (Option-cases (get pid b.proposals)) [
          | inl missing ↦ ground arith
          | inr (p, found) ↦ settle-ne-approved fresh now id pid status p b s (ground arith)
        ]
      ]

  settled-ne-approved : (pid : ℕ) (b : ParticipatoryBudget J) → settled pid b ≢ some approved
  unfolding settled is_final
  settled-ne-approved pid b h = ground arith

  finalize-ne-approved :
      (fl : Floats) (fresh : ℕ → ℕ) (now : ℤ) (id : String) (pid : ℕ) (s : S)
      → (finalize_budget_proposal pl st fl fresh now id pid s).0 ≢ ok approved
  unfolding finalize_budget_proposal
  finalize-ne-approved fl fresh now id pid s h = elim (Result-cases (load_budget pl st id s)) [
    | inr (e, unread) ↦ ground arith
    | inl (b, loaded) ↦ elim (Option-cases (settled pid b)) [
      | inr (status, final) ↦ ground (arith, settled-ne-approved pid b)
      | inl open_still ↦ elim (Result-cases (tally fl pid b)) [
        | inr (e, stopped) ↦ ground arith
        | inl (status, tallied) ↦
            finalize_tallied-ne-approved fresh now id pid status s (ground arith)
      ]
    ]
  ]

  -- `approve_budget_proposal` never succeeds, whatever the votes: the only status that it takes for
  -- success, Approved, is one that `finalize_budget_proposal` never returns.
  pub approve_budget_proposal_fails :
      (fl : Floats) (fresh : ℕ → ℕ) (now : ℤ) (id : String) (pid : ℕ) (approver : String) (s : S)
      → (approve_budget_proposal pl st fl fresh now id pid approver s).0 ≢ ok tt
  unfolding approve_budget_proposal
  approve_budget_proposal_fails fl fresh now id pid approver s h =
      elim (Result-cases (record_budget_vote pl st now id pid approver VoteChoice.approve s).0) [
        | inr (e, refused) ↦ ground arith
        | inl (_, taken) ↦
            let s1 : S = (record_budget_vote pl st now id pid approver VoteChoice.approve s).1 in
            elim (Result-cases (finalize_budget_proposal pl st fl fresh now id pid s1).0) [
              | inr (e, stopped) ↦ ground arith
              | inl (status, ended) ↦
                  ground (arith, ended, finalize-ne-approved fl fresh now id pid s1)
            ]
      ]
