-- ===== src/Federation/Quorum/Decisions.antt =====
-- What the proofs that crates/runtime/icn-federation/src/quorum.rs makes are worth when they are
-- verified.
use icn.Prelude.{
  ℕ, ◌+◌, ◌/◌, ◌≤◌, ◌<◌, ◌≡◌, ap, subst, true, false, String, List, [], ◌∷◌, ok, err, map_err,
  length, contains, arith, All, u32_mod, string_eq, ==-refl,
}
use icn.Prelude.Floats.{Floats}
use icn.Identity as identity
use icn.Identity.{
  Bytes, sign_message, verify_signature, QuorumConfig, QuorumProof, threshold_count, verify,
  weight_of, meets_quorum, count_signature,
}
use icn.Identity.Counting.{IsDistinct, IsFormed, verify_lem}
use icn.Identity.Majority.{decision, weight_sum, no_weight, verify_distinct_iff, IsAuthorized}
use icn.Federation.Quorum.{
  QuorumType, majority, threshold, unanimous, weighted, SignerQuorumConfig, Signer,
  not_enough_signatures, to_quorum_rule, to_quorum_config, required_of, required_signatures,
  collect_signatures, create_quorum_proof, verify_quorum_proof, new_majority, new_config,
}

-- The rules that count signatures without weights.
abbrev pub IsByCount : QuorumType → Type 0
IsByCount (weighted _ _) = ⊥
IsByCount _ = Unit

-- What is asked of the arithmetic: a percentage, which the code takes as at most 100, of a total up
-- to 2^24 is at most the total once it is rounded up. An f32 holds every number up to 2^24 exactly,
-- and not those above it.
abbrev pub IsShare : Floats → Type 0
IsShare fl =
    (percentage total : ℕ) → total ≤ 0x1000000 → threshold_count fl percentage total ≤ total

collect_signatures-IsAuthorized :
    (sha256 : Bytes → Bytes) (action : Bytes) (authorized : List String) (signers : List Signer)
    → IsAuthorized authorized (collect_signatures sha256 action authorized signers)
unfolding collect_signatures
collect_signatures-IsAuthorized sha256 action authorized [] = tt
collect_signatures-IsAuthorized sha256 action authorized (s ∷ rest) =
    ground (arith, collect_signatures-IsAuthorized sha256 action authorized rest)

-- Distinct votes meet every rule that counts them, the majority rule if there is one at all.
decision-to_quorum_rule :
    (fl : Floats) (rule : QuorumType) (total : ℕ) (votes : List (String × Bytes))
    → IsShare fl
    → length votes ≤ 0x1000000
    → IsByCount rule
    → required_of fl rule total ≤ length votes
    → (decision fl (to_quorum_rule rule) (length votes) votes ≡ true)
      × (weight_sum (to_quorum_rule rule) votes ≡ 0)
unfolding to_quorum_rule required_of weight_of
decision-to_quorum_rule fl majority total votes share few counts enough =
    (ground arith, no_weight votes)
decision-to_quorum_rule fl (threshold p) total votes share few counts enough =
    (ground (arith, share p (length votes) few), no_weight votes)
decision-to_quorum_rule fl unanimous total votes share few counts enough =
    (ground (arith, share 100 (length votes) few), no_weight votes)
decision-to_quorum_rule fl (weighted _ _) total votes share few counts enough = absurd counts

-- The proof of a majority that one signer alone would make, and one that a signer makes twice.
abbrev pub signed_by : (Bytes → Bytes) → Bytes → Signer → String × Bytes
signed_by sha256 action s = (s.did, sign_message sha256 action s.keypair)

abbrev pub single_proof : (Bytes → Bytes) → Bytes → Signer → QuorumProof
single_proof sha256 action s = record {
  votes = signed_by sha256 action s ∷ [];
  config = identity.majority;
}

abbrev pub repeated_proof : (Bytes → Bytes) → Bytes → Signer → QuorumProof
repeated_proof sha256 action s = record {
  votes = signed_by sha256 action s ∷ signed_by sha256 action s ∷ [];
  config = identity.majority;
}

module _ {J : Type 0} (fl : Floats) (sha256 : Bytes → Bytes) (action : Bytes) where
  -- A proof is made exactly if the authorized ones among the signers are as many as the rule
  -- requires, and then holds the signature of each of them.
  create_quorum_proof_ok :
      (signers : List Signer) (c : SignerQuorumConfig J) (proof : QuorumProof)
      → create_quorum_proof fl sha256 action signers c ≡ ok proof
      → (required_signatures fl c ≤ length (collect_signatures sha256 action c.signers signers))
        × (proof ≡ record {
          votes = collect_signatures sha256 action c.signers signers;
          config = to_quorum_config c;
        })
  unfolding create_quorum_proof
  create_quorum_proof_ok signers c proof h = ground arith

  -- A proof that was made by distinct signers under a rule that counts signatures is verified by the
  -- members who made the rule, if `verify_signature` takes its signatures and there are at most 2^24
  -- of them. Up to there the arithmetic is asked that a percentage of a total, rounded up, is at most
  -- the total.
  pub verify_quorum_proof-create_quorum_proof :
      (signers : List Signer) (c : SignerQuorumConfig J) (proof : QuorumProof)
      → create_quorum_proof fl sha256 action signers c ≡ ok proof
      → IsShare fl
      → IsByCount c.quorum_type
      → IsDistinct [] proof.votes
      → All (IsFormed action) proof.votes
      → length proof.votes ≤ 0x1000000
      → verify_quorum_proof fl proof action c.signers ≡ ok true
  unfolding verify_quorum_proof required_signatures to_quorum_config
  verify_quorum_proof-create_quorum_proof signers c proof made share counts distinct formed few =
      let (enough, whole) = create_quorum_proof_ok signers c proof made in
      let allowed : IsAuthorized c.signers proof.votes =
        rw whole (collect_signatures-IsAuthorized sha256 action c.signers signers) in
      let few_collected : length (collect_signatures sha256 action c.signers signers) ≤ 0x1000000 =
        subst (λ (v : QuorumProof). length v.votes ≤ 0x1000000) whole few in
      let (met, weightless) =
        decision-to_quorum_rule fl c.quorum_type (length c.signers)
          (collect_signatures sha256 action c.signers signers) share few_collected counts enough in
      let light : weight_sum proof.config proof.votes < u32_mod =
        rw (whole, weightless) (omega arith) in
      let decided : decision fl proof.config (length proof.votes) proof.votes ≡ true =
        rw whole met in
      ap (map_err _) (
        (verify_distinct_iff fl action c.signers proof true (omega (arith, few)) light distinct
            allowed).1
          (formed, decided))

module _ (J : Type 0) (fl : Floats) (sha256 : Bytes → Bytes) (action : Bytes) where
  -- Under the majority rule of at least two members, no proof is made of the signature of one of
  -- them, but such a proof is verified by the members: what is required when a proof is made is not
  -- asked when it is verified.
  pub single_proof_passes :
      (members : List String) (s : Signer)
      → 2 ≤ length members
      → contains s.did members ≡ true
      → verify_signature action (sign_message sha256 action s.keypair) s.did ≡ ok true
      → (create_quorum_proof {J = J} fl sha256 action (s ∷ []) (new_majority members)
          ≡ err (not_enough_signatures 1 (length members / 2 + 1)))
        × (verify_quorum_proof fl (single_proof sha256 action s) action members ≡ ok true)
  unfolding create_quorum_proof verify_quorum_proof meets_quorum count_signature required_signatures
      required_of collect_signatures new_majority new_config
  single_proof_passes members s two member formed =
      (ground arith, ground (arith, verify_lem fl action members (single_proof sha256 action s)))

  -- Under the majority rule of two or three members, one of them who signs twice makes a proof, and
  -- the members do not verify it.
  pub repeated_proof_fails :
      (members : List String) (s : Signer)
      → 2 ≤ length members
      → length members ≤ 3
      → contains s.did members ≡ true
      → verify_signature action (sign_message sha256 action s.keypair) s.did ≡ ok true
      → (create_quorum_proof {J = J} fl sha256 action (s ∷ s ∷ []) (new_majority members)
          ≡ ok (repeated_proof sha256 action s))
        × (verify_quorum_proof fl (repeated_proof sha256 action s) action members ≡ ok false)
  unfolding create_quorum_proof verify_quorum_proof meets_quorum count_signature required_signatures
      required_of collect_signatures new_majority new_config to_quorum_config to_quorum_rule
  repeated_proof_fails members s two three member formed = (
    ground arith,
    ground (arith, ==-refl s.did, verify_lem fl action members (repeated_proof sha256 action s)),
  )
