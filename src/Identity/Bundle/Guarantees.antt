-- ===== src/Identity/Bundle/Guarantees.antt =====
-- What the verification of a trust bundle guarantees, and what it does not:
-- crates/runtime/icn-identity/src/lib.rs.
use icn.Prelude.{
  ℕ, ◌*◌, ◌≤◌, ◌<◌, ◌≡◌, ◌≢◌, refl, sym, ◌∙◌, ◌↔◌, Bool, true, false, some, String, List, [], ◌∷◌,
  ok, arith, ltb, length, if◌then◌else◌, All, u32_mod, string_eq,
}
use icn.Prelude.Floats.{Floats}
use icn.Identity.{
  Bytes, QuorumConfig, majority, threshold, QuorumProof, threshold_count, verify, count_votes,
  meets_quorum, weight_of,
}
use icn.Identity.Counting.{IsDistinct, IsFormed}
use icn.Identity.Majority.{decision, weight_sum, no_weight, verify_distinct_iff, IsAuthorized}
use icn.Identity.Bundle.{
  TrustBundle, Encoding, calculate_hash, check_duplicates, check_authorized, check_roots,
  verify_bundle,
}

check_duplicates_iff :
    (seen : List String) (votes : List (String × Bytes))
    → (check_duplicates seen votes ≡ ok tt) ↔ IsDistinct seen votes
unfolding check_duplicates
check_duplicates_iff seen [] = (λ _. tt, λ _. refl)
check_duplicates_iff seen (vote ∷ votes) = (
  ground (arith, check_duplicates_iff (vote.0 ∷ seen) votes),
  ground (arith, check_duplicates_iff (vote.0 ∷ seen) votes),
)

check_authorized_iff :
    (guardians : List String) (votes : List (String × Bytes))
    → (check_authorized guardians votes ≡ ok tt) ↔ IsAuthorized guardians votes
unfolding check_authorized
check_authorized_iff guardians [] = (λ _. tt, λ _. refl)
check_authorized_iff guardians (vote ∷ votes) = (
  ground (arith, check_authorized_iff guardians votes),
  ground (arith, check_authorized_iff guardians votes),
)

weightless :
    (config : QuorumConfig) (votes : List (String × Bytes))
    → config ≡ majority
    → weight_sum config votes < u32_mod
unfolding weight_of
weightless config votes rule = rw (rule, no_weight votes) (omega arith)

majority_of_itself :
    (fl : Floats) (config : QuorumConfig) (votes : List (String × Bytes))
    → config ≡ majority
    → votes ≢ []
    → decision fl config (length votes) votes ≡ true
majority_of_itself fl config [] rule signed = absurd (signed refl)
majority_of_itself fl config (v ∷ vs) rule signed = rw rule (ground arith)

empty_passes :
    (fl : Floats) (content : Bytes) (guardians : List String) (proof : QuorumProof) (percentage : ℕ)
    → proof.config ≡ threshold percentage
    → proof.votes ≡ []
    → ((share : fl.F) → fl.to_u64 (fl.ceil (fl.mul (fl.of_u64 0) share)) ≡ 0)
    → verify fl content guardians proof ≡ ok true
unfolding verify count_votes meets_quorum threshold_count
empty_passes fl content guardians proof percentage rule unsigned zero_share =
    let share =
      fl.div (fl.of_u64 (if ltb 100 percentage then 100 else percentage)) (fl.of_u64 100) in
    rw (unsigned, rule, zero_share share) refl

module _ {Cid Attestation : Type 0} (fl : Floats) (enc : Encoding Cid Attestation)
    (guardians : List String) (current : ℕ) (b : TrustBundle Cid Attestation) (proof : QuorumProof)
    (present : b.proof ≡ some proof) where
  -- What a bundle has to be for its verification to give an answer.
  verify_bundle_cases :
      (answer : Bool)
      → (verify_bundle fl enc guardians current b ≡ ok answer) ↔ (
          (current ≤ b.epoch_id)
          × (check_roots b.dag_roots ≡ ok tt)
          × IsDistinct [] proof.votes
          × IsAuthorized guardians proof.votes
          × (verify fl (calculate_hash enc b) guardians proof ≡ ok answer))
  unfolding verify_bundle
  verify_bundle_cases answer = rw present (
      ground
        (arith, check_duplicates_iff [] proof.votes, check_authorized_iff guardians proof.votes))

  -- A bundle with a proof is answered exactly if it is not older than the current epoch, names DAG
  -- roots, and all signers are distinct authorized guardians with signatures that
  -- `verify_signature` takes; the answer is what all votes together decide. There are fewer than
  -- 2^31 votes, which weigh less than 2^32.
  pub verify_bundle_iff :
      length proof.votes * 2 < u32_mod
      → weight_sum proof.config proof.votes < u32_mod
      → (answer : Bool)
      → (verify_bundle fl enc guardians current b ≡ ok answer) ↔ (
          (current ≤ b.epoch_id)
          × (check_roots b.dag_roots ≡ ok tt)
          × IsDistinct [] proof.votes
          × IsAuthorized guardians proof.votes
          × All (IsFormed (calculate_hash enc b)) proof.votes
          × (decision fl proof.config (length proof.votes) proof.votes ≡ answer))
  verify_bundle_iff small light answer =
      let counts =
        verify_distinct_iff fl (calculate_hash enc b) guardians proof answer small light in
      (
        λ h.
            let (fresh, roots, distinct, allowed, verified) = (verify_bundle_cases answer).0 h in
            let (formed, decided) = (counts distinct allowed).0 verified in
            (fresh, roots, distinct, allowed, formed, decided),
        λ (fresh, roots, distinct, allowed, formed, decided).
            (verify_bundle_cases answer).1
              (fresh, roots, distinct, allowed, (counts distinct allowed).1 (formed, decided)),
      )

  -- Under the majority rule a bundle with a signature is never answered false: it is refused with an
  -- error, or verified, however few of the guardians have signed it. There are fewer than 2^31 votes.
  pub any_guardian_suffices :
      proof.config ≡ majority
      → proof.votes ≢ []
      → length proof.votes * 2 < u32_mod
      → verify_bundle fl enc guardians current b ≢ ok false
  any_guardian_suffices rule signed small refused =
      let light = weightless proof.config proof.votes rule in
      let (_, _, _, _, _, decided) = (verify_bundle_iff small light false).0 refused in
      cc (sym decided ∙ majority_of_itself fl proof.config proof.votes rule signed)

  -- A bundle that nobody has signed is verified under any threshold, if it is not older than the
  -- current epoch and names DAG roots: the threshold is a share of the votes in the proof, which
  -- are none. The arithmetic is asked that a share of 0 rounds up to 0.
  pub unsigned_bundle_passes :
      (percentage : ℕ)
      → proof.config ≡ threshold percentage
      → proof.votes ≡ []
      → ((share : fl.F) → fl.to_u64 (fl.ceil (fl.mul (fl.of_u64 0) share)) ≡ 0)
      → current ≤ b.epoch_id
      → check_roots b.dag_roots ≡ ok tt
      → verify_bundle fl enc guardians current b ≡ ok true
  unsigned_bundle_passes percentage rule unsigned zero_share fresh roots =
      (verify_bundle_cases true).1 (
        fresh,
        roots,
        rw unsigned tt,
        rw unsigned tt,
        empty_passes fl (calculate_hash enc b) guardians proof percentage rule unsigned zero_share,
      )
