-- ===== src/Federation/Quorum/Tests.antt =====
-- Runs and witnesses for crates/runtime/icn-federation/src/quorum.rs.
use native.Mathlib.Nat.{mul-le-mul_left}
use icn.Prelude.{
  ℕ, ◌+◌, ◌*◌, ◌/◌, ◌≤◌, ◌≡◌, refl, true, String, List, [], ◌∷◌, ok, arith, if◌then◌else◌, ltb,
}
use icn.Prelude.Floats.{fractions}
use icn.Identity.{
  Bytes, QuorumProof, verify_signature, is_test_pattern, sign, sign_message, threshold_count,
}
use icn.Federation.Quorum.{
  threshold, unanimous, Signer, new_threshold, new_config, create_quorum_config, required_of,
  required_signatures, create_quorum_proof, collect_signatures, verify_quorum_proof,
  to_quorum_config,
}
use icn.Federation.Quorum.Decisions.{IsShare, verify_quorum_proof-create_quorum_proof}

abbrev members : List String
members = "ada" ∷ "bob" ∷ "cyd" ∷ []

-- A stand-in for SHA-256 whose digests are long enough.
abbrev digest : Bytes → Bytes
digest bytes = 0 ∷ 0 ∷ 0 ∷ 0 ∷ 0 ∷ 0 ∷ 0 ∷ 0 ∷ bytes

abbrev signer : String → Signer
signer did = record { did = did; keypair = record { private_key = 5 ∷ []; public_key = 6 ∷ [] } }

-- The numbers of the tests of the source.
required_run :
    (required_of fractions (threshold 75) 4 ≡ 3)
    × (required_of fractions (threshold 51) 10 ≡ 6)
    × (required_of fractions unanimous 3 ≡ 3)
unfolding required_of
required_run = (refl, refl, refl)

capped_run :
    create_quorum_config {J = Unit} members (threshold 200) ≡ new_config (threshold 100) members
unfolding create_quorum_config new_threshold new_config
capped_run = refl

share_le : (c n : ℕ) → c ≤ 100 → (n * (c * 1) + 99) / 100 / 1 ≤ n
share_le c n h =
    let bound : n * (c * 1) ≤ n * 100 = mul-le-mul_left n (omega arith) in omega (arith, bound)

shares : IsShare fractions
unfolding threshold_count
shares percentage total few =
    let c = if ltb 100 percentage then 100 else percentage in
    let bound = share_le c total (ground arith) in ground (arith, bound)

abbrev two_signed : QuorumProof
two_signed = record {
  votes =
      ("ada", sign_message digest (3 ∷ []) (signer "ada").keypair)
      ∷ ("bob", sign_message digest (3 ∷ []) (signer "bob").keypair)
      ∷ [];
  config = to_quorum_config {J = Unit} (new_threshold members 50);
}

verify_quorum_proof-create_quorum_proof_example :
    verify_quorum_proof fractions two_signed (3 ∷ []) members ≡ ok true
unfolding create_quorum_proof required_signatures required_of collect_signatures new_threshold
    new_config verify_signature is_test_pattern sign_message sign
verify_quorum_proof-create_quorum_proof_example =
    verify_quorum_proof-create_quorum_proof fractions digest (3 ∷ [])
      (signer "ada" ∷ signer "bob" ∷ signer "eve" ∷ []) (new_threshold {J = Unit} members 50)
      two_signed refl shares tt (refl, (refl, tt)) (refl, (refl, tt)) (omega arith)
