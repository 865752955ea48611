-- ===== src/Identity/Counting.antt =====
-- The signatures that `QuorumProof::verify` of crates/runtime/icn-identity/src/lib.rs counts, against
-- a description that keeps no count: the first vote of every authorized signer.
use icn.Prelude.{
  ◌+◌, ◌%◌, ◌≤◌, ◌<◌, ◌≡◌, refl, ap, Bool, true, false, String, List, [], ◌∷◌, ok, arith,
  if◌then◌else◌, length, contains, All, sum_by, u32_mod, string_eq, Result-cases, inl, inr,
}
use icn.Prelude.Floats.{Floats}
use icn.Identity.{
  Bytes, verify_signature, QuorumConfig, QuorumProof, Tally, no_signatures, weight_of,
  count_signature, count_vote, count_votes, meets_quorum, verify,
}

-- The votes that can count, in their order: `seen` are the signers who have voted before.
abbrev pub first_votes : List String → List String → List (String × Bytes) → List (String × Bytes)
first_votes guardians seen [] = []
first_votes guardians seen (vote ∷ votes) =
    let skipped = first_votes guardians seen votes in
    let counted = first_votes guardians (vote.0 ∷ seen) votes in
    if contains vote.0 seen
    then skipped
    else if contains vote.0 guardians
    then vote ∷ counted
    else skipped

-- A signature that `verify_signature` takes.
abbrev pub IsFormed : Bytes → String × Bytes → Type 0
IsFormed content vote = verify_signature content vote.1 vote.0 ≡ ok true

-- What is counted when the votes are counted: their number and their weight, both as u32.
abbrev pub tally_of : QuorumConfig → List (String × Bytes) → Tally → Tally
tally_of config [] t = t
tally_of config (vote ∷ votes) t = tally_of config votes (count_signature config vote.0 t)

module _ (config : QuorumConfig) (content : Bytes) (guardians : List String) where
  count_votes-first_votes :
      (votes : List (String × Bytes)) (t : Tally)
      → All (IsFormed content) (first_votes guardians t.verified_dids votes)
      → count_votes config content guardians votes t
        ≡ ok (tally_of config (first_votes guardians t.verified_dids votes) t)
  unfolding count_votes count_vote count_signature
  count_votes-first_votes [] t formed = refl
  count_votes-first_votes (vote ∷ votes) t formed = ground (
    arith,
    count_votes-first_votes votes t,
    count_votes-first_votes votes (count_signature config vote.0 t),
  )

  count_votes_ok :
      (votes : List (String × Bytes)) (t out : Tally)
      → count_votes config content guardians votes t ≡ ok out
      → All (IsFormed content) (first_votes guardians t.verified_dids votes)
  unfolding count_votes count_vote verify_signature count_signature
  count_votes_ok [] t out h = tt
  count_votes_ok (vote ∷ votes) t out h = ground (
    arith,
    count_votes_ok votes t out,
    count_votes_ok votes (count_signature config vote.0 t) out,
  )

-- The counts of a list of votes that can all count.
module _ (config : QuorumConfig) where
  pub valid_signatures-tally_of :
      (votes : List (String × Bytes)) (t : Tally)
      → t.valid_signatures + length votes < u32_mod
      → (tally_of config votes t).valid_signatures ≡ t.valid_signatures + length votes
  unfolding count_signature
  valid_signatures-tally_of [] t small = omega arith
  valid_signatures-tally_of (vote ∷ votes) t small =
      ground (arith, valid_signatures-tally_of votes (count_signature config vote.0 t))

  pub weighted_sum-tally_of :
      (votes : List (String × Bytes)) (t : Tally)
      → t.weighted_sum + sum_by (λ v. weight_of config v.0) votes < u32_mod
      → (tally_of config votes t).weighted_sum
        ≡ t.weighted_sum + sum_by (λ v. weight_of config v.0) votes
  unfolding count_signature
  weighted_sum-tally_of [] t small = omega arith
  weighted_sum-tally_of (vote ∷ votes) t small =
      ground (arith, weighted_sum-tally_of votes (count_signature config vote.0 t))

-- No signer occurs twice, or in `seen`.
abbrev pub IsDistinct : List String → List (String × Bytes) → Type 0
IsDistinct seen [] = Unit
IsDistinct seen (vote ∷ votes) = (contains vote.0 seen ≡ false) × IsDistinct (vote.0 ∷ seen) votes

pub first_votes-IsDistinct :
    (guardians seen : List String) (votes : List (String × Bytes))
    → IsDistinct seen (first_votes guardians seen votes)
first_votes-IsDistinct guardians seen [] = tt
first_votes-IsDistinct guardians seen (vote ∷ votes) = ground (
  arith,
  first_votes-IsDistinct guardians seen votes,
  first_votes-IsDistinct guardians (vote.0 ∷ seen) votes,
)

pub first_votes-authorized :
    (guardians seen : List String) (votes : List (String × Bytes))
    → All (λ v. contains v.0 guardians ≡ true) (first_votes guardians seen votes)
first_votes-authorized guardians seen [] = tt
first_votes-authorized guardians seen (vote ∷ votes) = ground (
  arith,
  first_votes-authorized guardians seen votes,
  first_votes-authorized guardians (vote.0 ∷ seen) votes,
)

pub length-first_votes :
    (guardians seen : List String) (votes : List (String × Bytes))
    → length (first_votes guardians seen votes) ≤ length votes
length-first_votes guardians seen [] = omega arith
length-first_votes guardians seen (vote ∷ votes) = ground (
  arith,
  length-first_votes guardians seen votes,
  length-first_votes guardians (vote.0 ∷ seen) votes,
)

-- Votes of distinct authorized signers all count.
pub first_votes-All :
    (guardians seen : List String) (votes : List (String × Bytes))
    → IsDistinct seen votes
    → All (λ v. contains v.0 guardians ≡ true) votes
    → first_votes guardians seen votes ≡ votes
first_votes-All guardians seen [] distinct allowed = refl
first_votes-All guardians seen (vote ∷ votes) distinct allowed =
    rw (distinct.0, allowed.0)
      (ap (λ vs. vote ∷ vs) (first_votes-All guardians (vote.0 ∷ seen) votes distinct.1 allowed.1))

module _ (fl : Floats) (content : Bytes) (guardians : List String) (proof : QuorumProof) where
  pub verify_lem :
      All (IsFormed content) (first_votes guardians [] proof.votes)
      → verify fl content guardians proof
        ≡ ok (
            meets_quorum fl proof.config
              (length proof.votes % u32_mod)
              (tally_of proof.config (first_votes guardians [] proof.votes) no_signatures))
  unfolding verify
  verify_lem formed =
      rw
        (
          verify,
          count_votes-first_votes proof.config content guardians proof.votes no_signatures formed,
        )
        refl

  pub verify_ok :
      (b : Bool)
      → verify fl content guardians proof ≡ ok b
      → All (IsFormed content) (first_votes guardians [] proof.votes)
  unfolding verify
  verify_ok b h =
      elim (Result-cases (count_votes proof.config content guardians proof.votes no_signatures)) [
        | inl (t, counted) ↦
            count_votes_ok proof.config content guardians proof.votes no_signatures t counted
        | inr (e, failed) ↦ ground (arith, failed)
      ]
