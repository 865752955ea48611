-- ===== src/Identity/Majority.antt =====
-- What a quorum proof of crates/runtime/icn-identity/src/lib.rs decides.
use icn.Prelude.{
  ℕ, ◌*◌, ◌%◌, ◌≤◌, ◌<◌, ◌≡◌, refl, subst, ◌↔◌, Bool, true, String, List, [], ◌∷◌, ok, arith, ltb,
  leb, length, contains, All, sum_by, u32_mod, string_eq,
}
use icn.Prelude.Map.{get_or}
use icn.Prelude.Floats.{Floats}
use icn.Identity.{
  Bytes, QuorumConfig, majority, threshold, weighted, QuorumProof, no_signatures, weight_of,
  threshold_count, meets_quorum, verify,
}
use icn.Identity.Counting.{
  first_votes, first_votes-All, IsDistinct, IsFormed, tally_of, valid_signatures-tally_of,
  weighted_sum-tally_of, length-first_votes, verify_lem, verify_ok,
}

-- What a list of votes, the first one of every authorized signer, decides out of `total` votes.
abbrev pub decision : Floats → QuorumConfig → ℕ → List (String × Bytes) → Bool
decision fl majority total counted = ltb total (2 * length counted)
decision fl (threshold percentage) total counted =
    leb (threshold_count fl percentage total) (length counted)
decision fl (weighted weights required) total counted =
    leb required (sum_by (λ v. get_or v.0 0 weights) counted)

abbrev pub weight_sum : QuorumConfig → List (String × Bytes) → ℕ
weight_sum config counted = sum_by (λ v. weight_of config v.0) counted

pub no_weight : (votes : List (String × Bytes)) → sum_by (λ _. 0) votes ≡ 0
no_weight [] = refl
no_weight (vote ∷ votes) = omega (arith, no_weight votes)

meets_quorum-tally_of :
    (fl : Floats) (config : QuorumConfig) (total : ℕ) (counted : List (String × Bytes))
    → length counted ≤ total
    → total * 2 < u32_mod
    → weight_sum config counted < u32_mod
    → meets_quorum fl config (total % u32_mod) (tally_of config counted no_signatures)
      ≡ decision fl config total counted
unfolding meets_quorum weight_of
meets_quorum-tally_of fl majority total counted fewer small light =
    ground (arith, valid_signatures-tally_of majority counted no_signatures)
meets_quorum-tally_of fl (threshold p) total counted fewer small light =
    let same : total % u32_mod ≡ total = omega arith in
    rw same (ground (arith, valid_signatures-tally_of (threshold p) counted no_signatures))
meets_quorum-tally_of fl (weighted ws r) total counted fewer small light =
    ground (arith, weighted_sum-tally_of (weighted ws r) counted no_signatures)

abbrev pub IsAuthorized : List String → List (String × Bytes) → Type 0
IsAuthorized guardians votes = All (λ v. contains v.0 guardians ≡ true) votes

module _ (fl : Floats) (content : Bytes) (guardians : List String) (proof : QuorumProof)
    (b : Bool) where
  -- What `verify` decides, for fewer than 2^31 votes that weigh less than 2^32. It answers exactly
  -- if the first vote of every authorized signer carries a signature that `verify_signature` takes.
  -- It answers true exactly if these first votes are more than half of all votes, reach the
  -- percentage of all votes, or weigh what is required.
  pub verify_iff :
      length proof.votes * 2 < u32_mod
      → weight_sum proof.config (first_votes guardians [] proof.votes) < u32_mod
      → (verify fl content guardians proof ≡ ok b) ↔ (
          All (IsFormed content) (first_votes guardians [] proof.votes)
          × (decision fl proof.config (length proof.votes) (first_votes guardians [] proof.votes)
              ≡ b))
  verify_iff small light =
      let counted = first_votes guardians [] proof.votes in
      let same =
        meets_quorum-tally_of fl proof.config (length proof.votes) counted
          (length-first_votes guardians [] proof.votes) small light in
      (
        λ h.
            let formed = verify_ok fl content guardians proof b h in
            (formed, ground (arith, verify_lem fl content guardians proof formed, same, h)),
        λ h. ground (arith, verify_lem fl content guardians proof h.0, same, h.1),
      )

  -- When the signers are distinct and authorized, all votes count.
  pub verify_distinct_iff :
      length proof.votes * 2 < u32_mod
      → weight_sum proof.config proof.votes < u32_mod
      → IsDistinct [] proof.votes
      → IsAuthorized guardians proof.votes
      → (verify fl content guardians proof ≡ ok b) ↔ (
          All (IsFormed content) proof.votes
          × (decision fl proof.config (length proof.votes) proof.votes ≡ b))
  verify_distinct_iff small light distinct allowed =
      subst
        (λ vs.
          weight_sum proof.config vs < u32_mod
          → (verify fl content guardians proof ≡ ok b)
            ↔ (All (IsFormed content) vs × (decision fl proof.config (length proof.votes) vs ≡ b)))
        (first_votes-All guardians [] proof.votes distinct allowed) (verify_iff small) light
