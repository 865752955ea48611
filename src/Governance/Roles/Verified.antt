-- ===== src/Governance/Roles/Verified.antt =====
-- The roles that are verified after an assignment: crates/runtime/icn-governance-kernel/src/lib.rs.
use icn.Prelude.{
  ℕ, ◌≡◌, ◌≢◌, refl, ap, sym, ◌∙◌, subst, false, ◌||◌, Option, some, String, List, [], ◌∷◌, ◌++◌,
  ok, arith, All, contains, unwrap_or, PartialEq, string_eq,
}
use icn.Prelude.Floats.{Floats}
use icn.Governance.Types.{RoleAssignmentOptions}
use icn.Governance.Kernel.{Environment, IdentityContext, GovernanceKernel, create_key_cid}
use icn.Governance.Kernel.Laws.{get-put_self, get-put_ne}
use icn.Governance.Credentials.{
  is_expired, credential_key, index_key, roles_of_credential, collect_roles, sort, dedup,
}
use icn.Governance.Credentials.Lists.{contains-dedup-sort, contains-append}
use icn.Governance.Roles.{
  new_credential, default_options, read_index, old_index, get_verified_roles, assign_roles,
}
use icn.Governance.Roles.Keys.{index_key-ne-credential_key, credential_key_injective}
use icn.Governance.Roles.Assignment.{Reliable, own_credential, store_credential_ok, assign_roles_ok}
use icn.Governance.Roles.Reading.{
  collect_roles-same, collect_roles-append, get_verified_roles_ok, get_verified_roles_done,
  old_index-read_index, old_credentials,
}

-- The storage after a credential and the index have been written.
module _ {fl : Floats} {Store Cid Json : Type 0} ⦃e : PartialEq Cid⦄
    (env : Environment fl Store Cid Json) (reliable : Reliable env) (scope subject id : String)
    (bytes index_bytes : Json) (s : Store) where
  abbrev credential_cid : String → Cid
  credential_cid i = create_key_cid env (credential_key scope subject i)

  abbrev index_cid : Cid
  index_cid = create_key_cid env (index_key scope subject)

  abbrev first : Store
  first = (env.storage.put_kv (credential_cid id) bytes s).1

  abbrev second : Store
  second = (env.storage.put_kv index_cid index_bytes first).1

  apart : (i : String) → index_cid ≢ credential_cid i
  unfolding create_key_cid
  apart i same = index_key-ne-credential_key scope subject i (reliable.collision_free _ _ same)

  others_apart : (old : String) → old ≢ id → credential_cid id ≢ credential_cid old
  unfolding create_key_cid
  others_apart old differs same =
      differs
        (sym (credential_key_injective scope subject id old (reliable.collision_free _ _ same)))

  module _ (stored : (env.storage.put_kv (credential_cid id) bytes s).0 ≡ ok tt)
      (indexed : (env.storage.put_kv index_cid index_bytes first).0 ≡ ok tt) where
    index-first : env.storage.get_kv index_cid first ≡ env.storage.get_kv index_cid s
    index-first =
        get-put_ne reliable.backend (credential_cid id) bytes s stored index_cid
          (λ same. apart id (sym same))

    index-second : env.storage.get_kv index_cid second ≡ ok (some index_bytes)
    index-second = get-put_self reliable.backend index_cid index_bytes first indexed

    stored_at-second : env.storage.get_kv (credential_cid id) second ≡ ok (some bytes)
    stored_at-second =
        get-put_ne reliable.backend index_cid index_bytes first indexed (credential_cid id)
          (apart id)
        ∙ get-put_self reliable.backend (credential_cid id) bytes s stored

    stored_at-old :
        (old : String)
        → old ≢ id
        → env.storage.get_kv (credential_cid old) second ≡ env.storage.get_kv (credential_cid old) s
    stored_at-old old differs =
        get-put_ne reliable.backend index_cid index_bytes first indexed (credential_cid old)
          (apart old)
        ∙ get-put_ne reliable.backend (credential_cid id) bytes s stored (credential_cid old)
            (others_apart old differs)

    read_index-second :
        (ids : List String)
        → read_index env (index_key scope subject) s ≡ ok ids
        → env.index_serde.to_vec (old_index env (index_key scope subject) first ++ id ∷ [])
          ≡ ok index_bytes
        → read_index env (index_key scope subject) second ≡ ok (ids ++ id ∷ [])
    unfolding read_index old_index
    read_index-second ids before listed =
        let kept : old_index env (index_key scope subject) first ≡ ids =
          rw (old_index, index-first)
            (old_index-read_index env (index_key scope subject) s ids before) in
        let written : env.index_serde.to_vec (ids ++ id ∷ []) ≡ ok index_bytes =
          ap (λ l. env.index_serde.to_vec (l ++ id ∷ [])) (sym kept) ∙ listed in
        ground (arith, index-second, reliable.index_back _ _ written)

    collect_roles-second :
        (own : IdentityContext) (later : ℕ) (ids found roles : List String)
        → All (λ old. old ≢ id) ids
        → collect_roles env own later scope subject ids s ≡ ok found
        → roles_of_credential env own later (ok (some bytes)) ≡ ok roles
        → collect_roles env own later scope subject (ids ++ id ∷ []) second
          ≡ ok (found ++ (roles ++ []))
    collect_roles-second own later ids found roles fresh before last =
        let same = old_credentials env scope subject id s second ids stored_at-old fresh in
        collect_roles-append env own later scope subject ids id second roles found
          (collect_roles-same env own later scope subject ids s second same ∙ before)
          (ap (roles_of_credential env own later) stored_at-second ∙ last)

added_roles :
    (r : String) (found roles : List String)
    → contains r (dedup (sort (found ++ (roles ++ []))))
      ≡ (contains r (dedup (sort found)) || contains r roles)
added_roles r found roles = ground (
  arith,
  contains-dedup-sort r (found ++ (roles ++ [])),
  contains-dedup-sort r found,
  contains-append r found (roles ++ []),
  contains-append r roles [],
)

module _ {fl : Floats} {Store Cid Json Vc : Type 0} ⦃e : PartialEq Cid⦄
    (env : Environment fl Store Cid Json) (reliable : Reliable env) (now later : ℕ)
    (uuid subject scope id : String) (roles before : List String)
    (given : Option RoleAssignmentOptions) (k k' k'' : GovernanceKernel Store Vc) where
  -- After a successful assignment exactly the roles that verified before and those that were
  -- assigned verify, until the new credential expires. The kernel is free, the identifier of the
  -- credential is new, the index could be read before, and storage, JSON, base64 and SHA-256 do what
  -- the code relies on.
  pub get_verified_roles-assign_roles :
      k.storage_held ≡ false
      → get_verified_roles env later subject scope k ≡ (ok before, k'')
      → assign_roles env now uuid subject scope roles given k ≡ (ok id, k')
      → All (λ old. old ≢ id) (old_index env (index_key scope subject) k.storage)
      → is_expired later
          (new_credential now k.identity.did subject scope roles (unwrap_or given default_options))
        ≡ false
      → (after : List String) × (get_verified_roles env later subject scope k' ≡ (ok after, k'))
        × ((r : String) → contains r after ≡ (contains r before || contains r roles))
  unfolding new_credential
  get_verified_roles-assign_roles free verified assigned fresh live =
      let key = index_key scope subject in
      let (ids, found, indexed, collected, sorted) =
        get_verified_roles_ok env later subject scope before k k'' free verified in
      let (signature, bytes, signed, written, ended) =
        assign_roles_ok env now uuid subject scope id roles given k k' free assigned in
      let (stored, (index_bytes, listed, kept, final)) =
        store_credential_ok env subject scope id bytes (record k { storage_held = false }) k' refl
          ended in
      let s = second env reliable scope subject id bytes index_bytes k.storage in
      let c =
        new_credential now k.identity.did subject scope roles (unwrap_or given default_options) in
      let own =
        own_credential env k.identity later c signature bytes reliable.base64_decodes
          reliable.credential_back refl live signed written in
      let new_ids : All (λ old. old ≢ id) ids =
        subst (All (λ old. old ≢ id)) (old_index-read_index env key k.storage ids indexed) fresh in
      let listed_now =
        read_index-second env reliable scope subject id bytes index_bytes k.storage stored kept ids
          indexed listed in
      let all =
        collect_roles-second env reliable scope subject id bytes index_bytes k.storage stored kept
          k.identity later ids found roles new_ids collected own in
      let answer =
        get_verified_roles_done env later subject scope (ids ++ id ∷ []) (found ++ (roles ++ []))
          (record k { storage = s }) listed_now all in
      (
        dedup (sort (found ++ (roles ++ []))),
        subst
            (λ st.
              get_verified_roles env later subject scope st
              ≡ (ok (dedup (sort (found ++ (roles ++ [])))), st))
            (sym final) answer,
        λ r. added_roles r found roles ∙ ap (λ b. contains r b || contains r roles) (sym sorted),
      )
