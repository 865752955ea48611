-- ===== src/Governance/Roles/Permission.antt =====
-- The permission that an assigned role gives: check_permission after assign_roles in
-- crates/runtime/icn-governance-kernel/src/lib.rs.
use icn.Prelude.{
  ℕ, ◌≡◌, ◌≢◌, refl, ap, sym, ◌∙◌, subst, Bool, true, false, Option, some, String, List, [], ◌∷◌,
  ok, arith, All, contains, if◌then◌else◌, unwrap_or, PartialEq, string_eq,
}
use icn.Prelude.Floats.{Floats}
use icn.Governance.Config.{GovernanceConfig, Role}
use icn.Governance.Types.{RoleAssignmentOptions}
use icn.Governance.Kernel.{Environment, GovernanceKernel, create_key_cid, with_storage}
use icn.Governance.Kernel.Laws.{get-put_ne}
use icn.Governance.Credentials.{is_expired, index_key, credential_key}
use icn.Governance.Roles.{
  config_key, defined_roles, new_credential, default_options, old_index, grants, is_empty,
  load_governance_config, get_verified_roles, check_permission, assign_roles,
}
use icn.Governance.Roles.Keys.{config_key-ne-credential_key, config_key-ne-index_key}
use icn.Governance.Roles.Assignment.{Reliable, store_credential_ok, assign_roles_ok}
use icn.Governance.Roles.Verified.{get_verified_roles-assign_roles}

-- Roles that contain those of another list grant what that list grants.
grants_more :
    (defined : List Role) (few more : List String) (permission : String)
    → ((r : String) → contains r few ≡ true → contains r more ≡ true)
    → grants defined few permission ≡ true
    → (grants defined more permission ≡ true) × (is_empty more ≡ false)
unfolding grants is_empty
grants_more [] few more permission larger h = ground (arith, h)
grants_more (role ∷ defined) few [] permission larger h =
    ground (arith, larger role.name, grants_more defined few [] permission larger, h)
grants_more (role ∷ defined) few (x ∷ more) permission larger h =
    ground (arith, larger role.name, grants_more defined few (x ∷ more) permission larger, h)

abbrev pub config_cid :
    {fl : Floats} {Store Cid Json : Type 0} → Environment fl Store Cid Json → String → Cid
config_cid env scope = create_key_cid env (config_key scope)

module _ {fl : Floats} {Store Cid Json Vc : Type 0} ⦃e : PartialEq Cid⦄
    (env : Environment fl Store Cid Json) where
  -- An assignment gives the lock back and leaves the configuration as it is.
  assign_keeps_config :
      (now : ℕ) (uuid subject scope id : String) (roles : List String)
      (given : Option RoleAssignmentOptions) (k k' : GovernanceKernel Store Vc)
      → Reliable env
      → k.storage_held ≡ false
      → assign_roles env now uuid subject scope roles given k ≡ (ok id, k')
      → (k'.storage_held ≡ false)
        × (env.storage.get_kv (config_cid env scope) k'.storage
            ≡ env.storage.get_kv (config_cid env scope) k.storage)
  unfolding create_key_cid
  assign_keeps_config now uuid subject scope id roles given k k' reliable free assigned =
      let (signature, bytes, _, _, ended) =
        assign_roles_ok env now uuid subject scope id roles given k k' free assigned in
      let (stored, (index_bytes, _, kept, final)) =
        store_credential_ok env subject scope id bytes (record k { storage_held = false }) k' refl
          ended in
      let first =
        env.storage.put_kv (create_key_cid env (credential_key scope subject id)) bytes k.storage in
      let apart_credential : create_key_cid env (credential_key scope subject id)
          ≢ config_cid env scope =
        λ same.
          config_key-ne-credential_key scope subject id (reliable.collision_free _ _ (sym same)) in
      let apart_index : create_key_cid env (index_key scope subject) ≢ config_cid env scope =
        λ same. config_key-ne-index_key scope subject (reliable.collision_free _ _ (sym same)) in
      let step1 =
        get-put_ne reliable.backend (create_key_cid env (credential_key scope subject id)) bytes
          k.storage stored (config_cid env scope) apart_credential in
      let step2 =
        get-put_ne reliable.backend (create_key_cid env (index_key scope subject)) index_bytes
          first.1 kept (config_cid env scope) apart_index in
      (
        ap (λ s. s.storage_held) final,
        ap (λ s. env.storage.get_kv (config_cid env scope) s.storage) final ∙ step2 ∙ step1,
      )

  -- What `check_permission` answers in a free state with a configuration that defines roles.
  check_permission_free :
      (now : ℕ) (caller scope permission : String) (c : GovernanceConfig fl) (json : Json)
      (defined : List Role) (assigned : List String) (k : GovernanceKernel Store Vc)
      → k.storage_held ≡ false
      → env.storage.get_kv (config_cid env scope) k.storage ≡ ok (some json)
      → env.config_serde.from_slice json ≡ ok c
      → defined_roles c ≡ some defined
      → get_verified_roles env now caller scope k ≡ (ok assigned, k)
      → check_permission env now caller scope permission k
        ≡ (ok (if is_empty assigned then false else grants defined assigned permission), k)
  unfolding check_permission load_governance_config with_storage
  check_permission_free now caller scope permission c json defined assigned k free stored read names
        verified =
      let released : record k { storage_held = false } ≡ k =
        ap (λ (b : Bool). record k { storage_held = b }) (sym free) in
      let verified' =
        subst (λ st. get_verified_roles env now caller scope st ≡ (ok assigned, st)) (sym released)
          verified in
      subst
        (λ st.
          check_permission env now caller scope permission st
          ≡ (ok (if is_empty assigned then false else grants defined assigned permission), st))
        released (ground (arith, stored, read, names, verified'))

  -- Who is assigned a role of the configuration that has a permission is granted it until the
  -- credential expires. The kernel is free, the configuration of the scope is stored and can be read,
  -- the identifier of the credential is new, the roles that the caller had could be verified, and
  -- storage, JSON, base64 and SHA-256 do what the code relies on.
  pub check_permission-assign_roles :
      (now later : ℕ) (uuid caller scope id permission : String) (roles before : List String)
      (given : Option RoleAssignmentOptions) (c : GovernanceConfig fl) (json : Json)
      (defined : List Role) (k k' k'' : GovernanceKernel Store Vc)
      → Reliable env
      → k.storage_held ≡ false
      → env.storage.get_kv (config_cid env scope) k.storage ≡ ok (some json)
      → env.config_serde.from_slice json ≡ ok c
      → defined_roles c ≡ some defined
      → grants defined roles permission ≡ true
      → get_verified_roles env later caller scope k ≡ (ok before, k'')
      → assign_roles env now uuid caller scope roles given k ≡ (ok id, k')
      → All (λ old. old ≢ id) (old_index env (index_key scope caller) k.storage)
      → is_expired later
          (new_credential now k.identity.did caller scope roles (unwrap_or given default_options))
        ≡ false
      → check_permission env later caller scope permission k' ≡ (ok true, k')
  check_permission-assign_roles now later uuid caller scope id permission roles before given c json
        defined k k' k'' reliable free stored read names granted verified assigned fresh live =
      let (after, answer, same) =
        get_verified_roles-assign_roles env reliable now later uuid caller scope id roles before
          given k k' k'' free verified assigned fresh live in
      let (free', kept) =
        assign_keeps_config now uuid caller scope id roles given k k' reliable free assigned in
      let larger : (r : String) → contains r roles ≡ true → contains r after ≡ true =
        λ r held. same r ∙ ground (arith, held) in
      let (more, some_role) = grants_more defined roles after permission larger granted in
      let checked =
        check_permission_free later caller scope permission c json defined after k' free'
          (kept ∙ stored) read names answer in
      checked ∙ ground (arith, more, some_role)
