-- ===== src/Identity/Bundle.antt =====
-- TrustBundle of crates/runtime/icn-identity/src/lib.rs. The encodings of what is hashed and the DAG
-- store are parameters; attestations are opaque, but for the role that their subject names.
pub mod Guarantees
use icn.Prelude.{
  ℕ, ◌+◌, ◌/◌, ◌%◌, Bool, true, false, not, Option, none, some, String, List, [], ◌∷◌, ◌++◌, Result,
  ok, err, if◌then◌else◌, ltb, contains, ◌==◌, string_eq, map_err, ◌>>=◌, ◌>>◌,
}
use icn.Prelude.Floats.{Floats}
use icn.Identity.{
  Bytes, IdentityError, outdated_epoch, no_proof, no_dag_roots, duplicate_signer,
  unauthorized_signer, dag_check_failed, QuorumProof, verify,
}

pub record TrustBundle (Cid Attestation : Type 0) : Type 0 where
  pub epoch_id : ℕ
  pub federation_id : String
  pub dag_roots : List Cid
  pub attestations : List Attestation
  pub proof : Option QuorumProof

-- SHA-256, the bytes of a text and of a CID, and an attestation as JSON, if it can be written.
pub record Encoding (Cid Attestation : Type 0) : Type 0 where
  pub sha256 : Bytes → Bytes
  pub text_bytes : String → Bytes
  pub cid_bytes : Cid → Bytes
  pub attestation_bytes : Attestation → Option Bytes

module _ {Cid Attestation : Type 0} where
  unfoldable pub new_bundle : ℕ → String → List Cid → List Attestation → TrustBundle Cid Attestation
  new_bundle epoch federation roots creds = record {
    epoch_id = epoch;
    federation_id = federation;
    dag_roots = roots;
    attestations = creds;
    proof = none;
  }

-- `u64::to_be_bytes`
unfoldable pub be_bytes : ℕ → Bytes
be_bytes n =
    n / 0x100000000000000 % 256
    ∷ n / 0x1000000000000 % 256
    ∷ n / 0x10000000000 % 256
    ∷ n / 0x100000000 % 256
    ∷ n / 0x1000000 % 256
    ∷ n / 0x10000 % 256
    ∷ n / 0x100 % 256
    ∷ n % 256
    ∷ []

unfoldable pub concat_map : {A : Type 0} → (A → Bytes) → List A → Bytes
concat_map f [] = []
concat_map f (x ∷ xs) = f x ++ concat_map f xs

module _ {Cid Attestation : Type 0} (enc : Encoding Cid Attestation) where
  -- An attestation that cannot be written is left out.
  unfoldable pub hash_attestation : Attestation → Bytes
  hash_attestation a = elim (enc.attestation_bytes a) [ none ↦ [] | some bytes ↦ bytes ]

  unfoldable pub calculate_hash : TrustBundle Cid Attestation → Bytes
  calculate_hash b = enc.sha256 (
      be_bytes b.epoch_id
      ++ enc.text_bytes b.federation_id
      ++ concat_map enc.cid_bytes b.dag_roots
      ++ concat_map hash_attestation b.attestations)

-- The loop over the signers with a set of those seen.
unfoldable pub check_duplicates :
    List String → List (String × Bytes) → Result IdentityError (Unit {0})
check_duplicates seen [] = ok tt
check_duplicates seen (vote ∷ votes) =
    if contains vote.0 seen
    then err (duplicate_signer vote.0)
    else check_duplicates (vote.0 ∷ seen) votes

unfoldable pub check_authorized :
    List String → List (String × Bytes) → Result IdentityError (Unit {0})
check_authorized guardians [] = ok tt
check_authorized guardians (vote ∷ votes) =
    if not (contains vote.0 guardians)
    then err (unauthorized_signer vote.0)
    else check_authorized guardians votes

module _ {Cid : Type 0} where
  unfoldable pub check_roots : List Cid → Result IdentityError (Unit {0})
  check_roots [] = err no_dag_roots
  check_roots (_ ∷ _) = ok tt

module _ {Cid : Type 0} where
  -- `verify_dag_anchor`, over what the DAG store answers on a CID.
  unfoldable pub all_contained : (Cid → Result String Bool) → List Cid → Result IdentityError Bool
  all_contained dag_contains [] = ok true
  all_contained dag_contains (root ∷ roots) = do
    found ← map_err dag_check_failed (dag_contains root)
    if found then all_contained dag_contains roots else ok false

module _ {Cid Attestation : Type 0} where
  -- `TrustBundle::verify`
  unfoldable pub verify_bundle :
      Floats
      → Encoding Cid Attestation
      → List String
      → ℕ
      → TrustBundle Cid Attestation
      → Result IdentityError Bool
  verify_bundle fl enc guardians current_epoch b =
      if ltb b.epoch_id current_epoch
      then err (outdated_epoch b.epoch_id current_epoch)
      else elim b.proof [
        | none ↦ err no_proof
        | some proof ↦ do
          check_roots b.dag_roots
          check_duplicates [] proof.votes
          check_authorized guardians proof.votes
          verify fl (calculate_hash enc b) guardians proof
      ]

  unfoldable pub verify_dag_anchor :
      (Cid → Result String Bool) → TrustBundle Cid Attestation → Result IdentityError Bool
  verify_dag_anchor dag_contains b = all_contained dag_contains b.dag_roots

  -- `count_nodes_by_role`, over the text in the field "role" of a credential's subject, if it has
  -- one, and `to_lowercase`.
  unfoldable pub count_nodes_by_role :
      (Attestation → Option String) → (String → String) → String → TrustBundle Cid Attestation → ℕ
  count_nodes_by_role node_role to_lowercase role b = count b.attestations
    where
      count : List Attestation → ℕ
      count [] = 0
      count (a ∷ others) =
          let rest = count others in
          elim (node_role a) [
            | none ↦ rest
            | some r ↦ if to_lowercase r == to_lowercase role then rest + 1 else rest
          ]
