-- ===== src/Identity/Tests.antt =====
-- Runs and witnesses for crates/runtime/icn-identity/src/lib.rs.
use native.Mathlib.Nat.{div-zero, div-eq_of_lt}
use icn.Prelude.{
  ℕ, zero, suc, ◌+◌, ◌*◌, ◌-◌, ◌/◌, ◌≤◌, ◌≡◌, refl, ◌↔◌, true, some, String, List, [], ◌∷◌, ok, err,
  length, All, arith,
}
use icn.Prelude.Map.{get}
use icn.Prelude.Floats.{fractions}
use icn.Identity.{
  Bytes, QuorumConfig, majority, threshold, weighted, QuorumProof, verify, verify_signature,
  count_vote, count_votes, weight_of, signature_too_short, signature_verification,
}
use icn.Identity.Counting.{first_votes, IsFormed, IsDistinct}
use icn.Identity.Majority.{decision, verify_iff, IsAuthorized}
use icn.Identity.Bundle.{TrustBundle, Encoding, verify_bundle, check_roots, calculate_hash}
use icn.Identity.Bundle.Guarantees.{verify_bundle_iff, unsigned_bundle_passes}

abbrev signature : Bytes
signature = 0 ∷ 0 ∷ 0 ∷ 0 ∷ 0 ∷ 0 ∷ 0 ∷ 0 ∷ []

abbrev members : List String
members = "ada" ∷ "bob" ∷ "cyd" ∷ []

-- ada signs twice, and eve is no member.
abbrev votes : List (String × Bytes)
votes =
    ("ada", signature)
    ∷ ("eve", [])
    ∷ ("ada", signature)
    ∷ ("bob", signature)
    ∷ ("cyd", signature)
    ∷ []

abbrev proof_by : QuorumConfig → QuorumProof
proof_by rule = record { votes = votes; config = rule }

first_votes_run : length (first_votes members [] votes) ≡ 3
first_votes_run = refl

-- A signature that is too short stops the verification, if its signer counts.
short_signature :
    verify fractions [] members (record { votes = ("bob", []) ∷ votes; config = majority })
    ≡ err (signature_verification (signature_too_short 0))
unfolding verify count_votes verify_signature count_vote
short_signature = refl

verify_iff_example :
    (verify fractions [] members (proof_by (weighted (("ada", 2) ∷ ("cyd", 3) ∷ []) 5)) ≡ ok true)
    ↔ (All (IsFormed []) (first_votes members [] votes)
        × (decision fractions
              (weighted (("ada", 2) ∷ ("cyd", 3) ∷ []) 5)
              5
              (first_votes members [] votes)
            ≡ true))
unfolding weight_of get
verify_iff_example =
    verify_iff fractions [] members (proof_by (weighted (("ada", 2) ∷ ("cyd", 3) ∷ []) 5)) true
      (omega arith) (omega arith)

abbrev encoding : Encoding ℕ Unit
encoding = record {
  sha256 = λ bytes. bytes;
  text_bytes = λ _. [];
  cid_bytes = λ c. c ∷ [];
  attestation_bytes = λ _. some [];
}

abbrev bundle_of : QuorumProof → TrustBundle ℕ Unit
bundle_of proof = record {
  epoch_id = 4;
  federation_id = "fed";
  dag_roots = 7 ∷ [];
  attestations = [];
  proof = some proof;
}

abbrev two_votes : QuorumProof
two_votes = record { votes = ("ada", signature) ∷ ("bob", signature) ∷ []; config = majority }

abbrev no_votes : QuorumProof
no_votes = record { votes = []; config = threshold 67 }

-- What `verify_bundle_iff` asks of the bundle with two votes.
verify_bundle_iff_example :
    (verify_bundle fractions encoding members 3 (bundle_of two_votes) ≡ ok true) ↔ (
      (3 ≤ 4)
      × (check_roots {Cid = ℕ} (7 ∷ []) ≡ ok tt)
      × IsDistinct [] two_votes.votes
      × IsAuthorized members two_votes.votes
      × All (IsFormed (calculate_hash encoding (bundle_of two_votes))) two_votes.votes
      × (decision fractions majority 2 two_votes.votes ≡ true))
unfolding weight_of
verify_bundle_iff_example =
    verify_bundle_iff fractions encoding members 3 (bundle_of two_votes) two_votes refl
      (omega arith) (omega arith) true

pred-div : (x y : ℕ) → x ≡ y - 1 → x / y ≡ 0
pred-div x zero h = div-zero x
pred-div x (suc y) h = div-eq_of_lt (omega arith)

no_share :
    (share : fractions.F)
    → fractions.to_u64 (fractions.ceil (fractions.mul (fractions.of_u64 0) share)) ≡ 0
no_share share =
    ground (arith, pred-div (0 * share.num + (1 * share.den - 1)) (1 * share.den) (omega arith))

unsigned_bundle_passes_example :
    verify_bundle fractions encoding members 3 (bundle_of no_votes) ≡ ok true
unfolding check_roots
unsigned_bundle_passes_example =
    unsigned_bundle_passes fractions encoding members 3 (bundle_of no_votes) no_votes refl 67 refl
      refl no_share (omega arith) refl
