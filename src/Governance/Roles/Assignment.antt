-- ===== src/Governance/Roles/Assignment.antt =====
-- From assign_roles to get_verified_roles and check_permission:
-- crates/runtime/icn-governance-kernel/src/lib.rs.
use icn.Prelude.{
  ℕ, ◌≡◌, ap, sym, ◌∙◌, Bool, true, false, Option, some, String, List, [], ◌∷◌, ◌++◌, ok, arith,
  unwrap_or, PartialEq, ==-refl, string_eq, nat_eq, list_eq, Result-cases, inl, inr,
}
use icn.Prelude.Floats.{Floats}
use icn.Prelude.Serde.{ReadsBack}
use icn.Identity.{Bytes, sign}
use icn.Governance.Types.{RoleAssignmentCredential, RoleAssignmentOptions}
use icn.Governance.Kernel.{
  Environment, LawfulBackend, IdentityContext, GovernanceKernel, create_key_cid, with_storage,
  put_kv, serialize,
}
use icn.Governance.Credentials.{
  with_signature, is_expired, credential_key, index_key, signature_of, verify_credential_signature,
  roles_of_credential,
}
use icn.Governance.Roles.{
  new_credential, default_options, load_governance_config, old_index, assign_roles,
  store_credential,
}

-- The base64 of a SHA-256 digest is undone by its decoding.
abbrev pub Base64Decodes :
    {fl : Floats} {Store Cid Json : Type 0} → Environment fl Store Cid Json → Type 0
Base64Decodes env =
    (m : Bytes) → env.base64_decode (env.base64_encode (env.sha256 m)) ≡ ok (env.sha256 m)

-- What the code relies on: base64 is undone by its decoding, credentials and indexes are read back
-- from their JSON, the storage keeps what it takes, and SHA-256 gives different keys different CIDs.
pub record Reliable {fl : Floats} {Store Cid Json : Type 0} ⦃e : PartialEq Cid⦄
    (env : Environment fl Store Cid Json) : Type 0 where
  pub base64_decodes : Base64Decodes env
  pub credential_back : ReadsBack env.credential_serde
  pub index_back : ReadsBack env.index_serde
  pub backend : LawfulBackend env.storage
  pub collision_free : (a b : String) → env.cid_of a ≡ env.cid_of b → a ≡ b

module _ {fl : Floats} {Store Cid Json : Type 0} (env : Environment fl Store Cid Json)
    (own : IdentityContext) where
  own_signature :
      (c : RoleAssignmentCredential) (signature : Bytes)
      → Base64Decodes env
      → c.issuer ≡ own.did
      → signature_of env own c ≡ ok signature
      → verify_credential_signature env own (with_signature (env.base64_encode signature) c)
        ≡ ok true
  unfolding verify_credential_signature signature_of sign
  own_signature c signature decodes issued signed =
      elim (Result-cases (env.credential_to_string (with_signature "" c))) [
        | inr (e, unwritten) ↦ ground (arith, unwritten, signed)
        | inl (canonical, written) ↦
            let message = own.keypair.private_key ++ env.sha256 (env.as_bytes canonical) in
            ground
              (arith, written, signed, decodes message, issued, ==-refl own.did, ==-refl signature)
      ]

  -- A credential of this kernel that is signed and stored gives its roles until it expires.
  pub own_credential :
      (now : ℕ) (c : RoleAssignmentCredential) (signature : Bytes) (bytes : Json)
      → Base64Decodes env
      → ReadsBack env.credential_serde
      → c.issuer ≡ own.did
      → is_expired now c ≡ false
      → signature_of env own c ≡ ok signature
      → env.credential_serde.to_vec (with_signature (env.base64_encode signature) c) ≡ ok bytes
      → roles_of_credential env own now (ok (some bytes)) ≡ ok c.roles
  unfolding roles_of_credential is_expired
  own_credential now c signature bytes decodes reads issued live signed written = ground (
    arith,
    reads (with_signature (env.base64_encode signature) c) bytes written,
    own_signature c signature decodes issued signed,
  )

module _ {fl : Floats} {Store Cid Json Vc : Type 0} (env : Environment fl Store Cid Json) where
  -- What a successful write of a credential has done.
  pub store_credential_ok :
      (subject scope id : String) (bytes : Json) (k k' : GovernanceKernel Store Vc)
      → k.storage_held ≡ false
      → store_credential env subject scope id bytes k ≡ (ok tt, k')
      → let first =
          env.storage.put_kv
            (create_key_cid env (credential_key scope subject id))
            bytes
            k.storage in
        (first.0 ≡ ok tt)
        × ((index_bytes : Json) × (env.index_serde.to_vec
                (old_index env (index_key scope subject) first.1 ++ id ∷ [])
              ≡ ok index_bytes)
            × ((env.storage.put_kv
                  (create_key_cid env (index_key scope subject))
                  index_bytes
                  first.1).0
                ≡ ok tt)
            × (k' ≡ record k {
              storage_held = false;
              storage =
                  (env.storage.put_kv
                    (create_key_cid env (index_key scope subject))
                    index_bytes
                    first.1).1;
            }))
  unfolding store_credential with_storage put_kv serialize
  store_credential_ok subject scope id bytes k k' free h =
      let released : record k { storage_held = false } ≡ k =
        ap (λ (b : Bool). record k { storage_held = b }) (sym free) in
      let h' = ap (store_credential env subject scope id bytes) released ∙ h in
      let first =
        env.storage.put_kv (create_key_cid env (credential_key scope subject id)) bytes k.storage in
      let ids = old_index env (index_key scope subject) first.1 ++ id ∷ [] in
      elim (Result-cases first.0) [
        | inr (e, refused) ↦ ground (arith, refused, h')
        | inl (_, stored) ↦ elim (Result-cases (env.index_serde.to_vec ids)) [
          | inr (e, unwritten) ↦ ground (arith, stored, unwritten, h')
          | inl (index_bytes, written) ↦
              let second =
                env.storage.put_kv (create_key_cid env (index_key scope subject)) index_bytes
                  first.1 in
              elim (Result-cases second.0) [
                | inr (e, refused) ↦ ground (arith, stored, written, refused, h')
                | inl (_, indexed) ↦ (
                  stored,
                  (index_bytes, written, indexed, ground (arith, stored, written, indexed, h')),
                )
              ]
        ]
      ]

  -- What a successful assignment has done before it stores the credential.
  pub assign_roles_ok :
      (now : ℕ) (uuid subject scope id : String) (roles : List String)
      (given : Option RoleAssignmentOptions) (k k' : GovernanceKernel Store Vc)
      → k.storage_held ≡ false
      → assign_roles env now uuid subject scope roles given k ≡ (ok id, k')
      → let c =
          new_credential now k.identity.did subject scope roles (unwrap_or given default_options) in
        (signature : Bytes) × (bytes : Json) × (signature_of env k.identity c ≡ ok signature)
        × (env.credential_serde.to_vec (with_signature (env.base64_encode signature) c) ≡ ok bytes)
        × (store_credential env subject scope id bytes (record k { storage_held = false })
            ≡ (ok tt, k'))
  unfolding assign_roles load_governance_config with_storage serialize
  assign_roles_ok now uuid subject scope id roles given k k' free h =
      let released : record k { storage_held = false } ≡ k =
        ap (λ (b : Bool). record k { storage_held = b }) (sym free) in
      let h' = ap (assign_roles env now uuid subject scope roles given) released ∙ h in
      let c =
        new_credential now k.identity.did subject scope roles (unwrap_or given default_options) in
      elim (Result-cases (signature_of env k.identity c)) [
        | inr (e, unsigned) ↦ ground (arith, unsigned, h')
        | inl (signature, signed) ↦
            elim (Result-cases
              (env.credential_serde.to_vec (with_signature (env.base64_encode signature) c))) [
                | inr (e, unwritten) ↦ ground (arith, signed, unwritten, h')
                | inl (bytes, written) ↦
                    (signature, bytes, signed, written, ground (arith, signed, written, h'))
              ]
      ]
