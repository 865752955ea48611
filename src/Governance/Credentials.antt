-- ===== src/Governance/Credentials.antt =====
-- Signing and checking a role credential: crates/runtime/icn-governance-kernel/src/lib.rs.
pub mod Lists
use Prim.Native.Nat.{Ordering}
use Prim.Native.String.{compare, ◌++◌ as str_append}
use icn.Prelude.{
  ℕ, Bool, true, false, Option, none, some, String, List, [], ◌∷◌, ◌++◌, Result, ok, err, map_err,
  if◌then◌else◌, ◌==◌, string_eq, nat_eq, list_eq, ◌>>=◌, ◌>>◌,
}
use icn.Prelude.Int.{ℤ, pos, ltb_ℤ}
use icn.Prelude.Floats.{Floats}
use icn.Identity.{Bytes, sign}
use icn.Governance.Types.{
  RoleAssignmentCredential, SignatureProof, GovernanceError, StorageFault, invalid_proposal,
  invalid_signature_encoding, not_self_issued, storage_error, failed_to_serialize,
}
use icn.Governance.Kernel.{Environment, IdentityContext, create_key_cid, joined}

-- `sort` on texts
unfoldable pub insert_sorted : String → List String → List String
insert_sorted x [] = x ∷ []
insert_sorted x (y ∷ ys) =
    let rest = insert_sorted x ys in elim (compare x y) [ Ordering.gt ↦ y ∷ rest | _ ↦ x ∷ y ∷ ys ]

unfoldable pub sort : List String → List String
sort [] = []
sort (x ∷ xs) = insert_sorted x (sort xs)

-- `dedup`: of equal neighbours the first one stays.
unfoldable pub dedup_after : String → List String → List String
dedup_after x [] = []
dedup_after x (y ∷ ys) = let rest = dedup_after y ys in if x == y then rest else y ∷ rest

unfoldable pub dedup : List String → List String
dedup [] = []
dedup (x ∷ xs) = x ∷ dedup_after x xs

abbrev pub with_signature : String → RoleAssignmentCredential → RoleAssignmentCredential
with_signature signature c = record c { proof = record c.proof { signature_value = signature } }

unfoldable pub is_expired : ℕ → RoleAssignmentCredential → Bool
is_expired now c = elim c.expiration_date [
  | none ↦ false
  | some end_date ↦ ltb_ℤ end_date (pos now)
]

unfoldable pub credential_key : (scope_id subject credential_id : String) → String
credential_key scope_id subject credential_id =
    joined ("role_credential::" ∷ scope_id ∷ "::" ∷ subject ∷ "::" ∷ credential_id ∷ [])

unfoldable pub index_key : (scope_id subject : String) → String
index_key scope_id subject = joined ("role_index::" ∷ scope_id ∷ "::" ∷ subject ∷ [])

module _ {fl : Floats} {Store Cid Json : Type 0} (env : Environment fl Store Cid Json)
    (own : IdentityContext) where
  -- The signature of a credential without its signature, with the kernel's own key.
  unfoldable pub signature_of : RoleAssignmentCredential → Result GovernanceError Bytes
  signature_of c = do
    canonical ←
        map_err (λ t. storage_error (failed_to_serialize t))
          (env.credential_to_string (with_signature "" c))
    ok (sign env.sha256 own.keypair (env.sha256 (env.as_bytes canonical)))

  unfoldable pub verify_credential_signature :
      RoleAssignmentCredential → Result GovernanceError Bool
  verify_credential_signature c = do
    our_signature ← signature_of c
    signature ←
        map_err (λ t. invalid_proposal (invalid_signature_encoding t))
          (env.base64_decode c.proof.signature_value)
    if own.did == c.issuer
        then ok (our_signature == signature)
        else err (invalid_proposal (not_self_issued c.issuer))

  -- The roles that one credential adds, if it can be read, has not expired and verifies.
  unfoldable pub roles_of_credential :
      ℕ → Result String (Option Json) → Result GovernanceError (List String)
  roles_of_credential now (ok (some bytes)) = elim (env.credential_serde.from_slice bytes) [
    | err _ ↦ ok []
    | ok c ↦
        if is_expired now c
        then ok []
        else (do valid ← verify_credential_signature c; if valid then ok c.roles else ok [])
  ]
  roles_of_credential now _ = ok []

  -- The loop of `get_verified_roles` over the credentials of the index.
  unfoldable pub collect_roles :
      ℕ → (scope_id subject : String) → List String → Store → Result GovernanceError (List String)
  collect_roles now scope_id subject [] store = ok []
  collect_roles now scope_id subject (id ∷ ids) store = do
    roles ←
        roles_of_credential now
          (env.storage.get_kv (create_key_cid env (credential_key scope_id subject id)) store)
    others ← collect_roles now scope_id subject ids store
    ok (roles ++ others)
