-- ===== src/Governance/Roles.antt =====
-- Role credentials and permissions: assign_roles, get_verified_roles, load_governance_config and
-- check_permission of crates/runtime/icn-governance-kernel/src/lib.rs. The option `store_in_dag` has
-- no effect there.
pub mod Keys
pub mod Assignment
pub mod Reading
pub mod Verified
pub mod Permission
use Prim.Native.String.{◌++◌ as str_append}
use icn.Prelude.{
  ℕ, Bool, true, false, not, ◌&&◌, ◌||◌, Option, none, some, String, List, [], ◌∷◌, ◌++◌, Result,
  ok, err, map_err, if◌then◌else◌, any, contains, unwrap_or, ◌==◌, string_eq,
}
use icn.Prelude.Int.{ℤ, pos, add_i64, mul_i64}
use icn.Prelude.State.{pure, raise, lift, gets, ◌>>=◌, ◌>>◌}
use icn.Prelude.Floats.{Floats}
use icn.Identity.{Bytes}
use icn.Economics.Types.{IdentityScope, cooperative}
use icn.Governance.Config.{GovernanceConfig, Role}
use icn.Governance.Types.{
  RoleAssignmentCredential, RoleAssignmentOptions, GovernanceError, ProposalFault, invalid_proposal,
  no_config_for, role_not_defined, no_roles_defined, no_governance_structure, no_configuration,
  storage_error, backend, failed_to_deserialize, failed_to_serialize,
}
use icn.Governance.Kernel.{
  Environment, Method, failed, joined, with_storage, create_key_cid, put_kv, serialize,
}
use icn.Governance.Credentials.{
  with_signature, credential_key, index_key, signature_of, collect_roles, sort, dedup,
}

unfoldable pub config_key : String → String
config_key scope_id = str_append "governance::config::" scope_id

unfoldable pub default_options : RoleAssignmentOptions
default_options = record { expiration_days = none; scope_type = none; store_in_dag = false }

-- Every role is one of those that the configuration defines.
unfoldable pub check_defined : List Role → List String → Result ProposalFault (Unit {0})
check_defined defined [] = ok tt
check_defined defined (role ∷ roles) =
    if not (any (λ r. r.name == role) defined)
    then err (role_not_defined role)
    else check_defined defined roles

unfoldable pub check_roles :
    {fl : Floats} → GovernanceConfig fl → List String → Result ProposalFault (Unit {0})
check_roles c roles = elim c.governance [
  | none ↦ err no_governance_structure
  | some g ↦ elim g.roles [
    | none ↦ err no_roles_defined
    | some defined ↦ check_defined defined roles
  ]
]

-- The roles that a configuration defines, if it does.
unfoldable pub defined_roles : {fl : Floats} → GovernanceConfig fl → Option (List Role)
defined_roles c = elim c.governance [ none ↦ none | some g ↦ g.roles ]

-- Some role of the configuration that is assigned has the permission.
unfoldable pub grants : List Role → (assigned : List String) → (permission : String) → Bool
grants defined assigned permission =
    any (λ r. contains r.name assigned && contains permission r.permissions) defined

unfoldable pub is_empty : {A : Type 0} → List A → Bool
is_empty [] = true
is_empty (_ ∷ _) = false

-- The credential that `assign_roles` makes, before it is signed.
unfoldable pub new_credential :
    (now : ℕ) (issuer subject scope_id : String) (roles : List String)
    → RoleAssignmentOptions
    → RoleAssignmentCredential
new_credential now issuer subject scope_id roles options = record {
  issuer = issuer;
  subject = subject;
  issuance_date = pos now;
  expiration_date = elim options.expiration_days [
    | none ↦ none
    | some days ↦ some (add_i64 (pos now) (mul_i64 days (pos 86400)))
  ];
  scope_id = scope_id;
  scope_type = unwrap_or options.scope_type cooperative;
  roles = roles;
  proof = record {
    signature_type = "Ed25519Signature2020";
    signature_value = "";
    created = pos now;
    verification_method = str_append issuer "#keys-1";
    purpose = "assertionMethod";
  };
}

unfoldable pub new_credential_id : (scope_id subject uuid : String) → String
new_credential_id scope_id subject uuid =
    joined ("credential:role:" ∷ scope_id ∷ ":" ∷ subject ∷ ":" ∷ uuid ∷ [])

module _ {fl : Floats} {Store Cid Json : Type 0} (env : Environment fl Store Cid Json) where
  -- The index of `get_verified_roles`: an error of the storage counts as an empty index.
  unfoldable pub read_index : String → Store → Result GovernanceError (List String)
  read_index key store = elim (env.storage.get_kv (create_key_cid env key) store) [
    | err _ ↦ ok []
    | ok found ↦ elim found [
      | none ↦ ok []
      | some bytes ↦
          map_err (λ t. storage_error (failed_to_deserialize t)) (env.index_serde.from_slice bytes)
    ]
  ]

  -- The index of `assign_roles`, which starts anew where it cannot be read.
  unfoldable pub old_index : String → Store → List String
  old_index key store = elim (env.storage.get_kv (create_key_cid env key) store) [
    | err _ ↦ []
    | ok found ↦ elim found [
      | none ↦ []
      | some bytes ↦ elim (env.index_serde.from_slice bytes) [ err _ ↦ [] | ok ids ↦ ids ]
    ]
  ]

module _ {fl : Floats} {Store Cid Json Vc : Type 0} (env : Environment fl Store Cid Json) where
  unfoldable pub load_governance_config : String → Method Store Vc (Option (GovernanceConfig fl))
  load_governance_config scope_id = with_storage λ k. (
    elim (env.storage.get_kv (create_key_cid env (config_key scope_id)) k.storage) [
      | err t ↦ err (failed (storage_error (backend t)))
      | ok found ↦ elim found [
        | none ↦ ok none
        | some bytes ↦ elim (env.config_serde.from_slice bytes) [
          | err t ↦ err (failed (storage_error (failed_to_deserialize t)))
          | ok c ↦ ok (some c)
        ]
      ]
    ],
    k,
  )

  unfoldable pub get_verified_roles :
      (now : ℕ) (identity_id scope_id : String) → Method Store Vc (List String)
  get_verified_roles now identity_id scope_id = with_storage do
    store ← gets λ k. k.storage
    own ← gets λ k. k.identity
    ids ← lift (map_err failed (read_index env (index_key scope_id identity_id) store))
    roles ← lift (map_err failed (collect_roles env own now scope_id identity_id ids store))
    pure (dedup (sort roles))

  -- `get_assigned_roles`
  unfoldable pub get_assigned_roles :
      (now : ℕ) (identity_id scope_id : String) → Method Store Vc (List String)
  get_assigned_roles now identity_id scope_id = get_verified_roles now identity_id scope_id

  unfoldable pub check_permission :
      (now : ℕ) (caller_id scope_id permission : String) → Method Store Vc Bool
  check_permission now caller_id scope_id permission = do
    found ← load_governance_config scope_id
    elim found [
      | none ↦ raise (failed (no_configuration scope_id))
      | some c ↦ elim (defined_roles c) [
        | none ↦ pure false
        | some defined ↦ (do
          assigned ← get_verified_roles now caller_id scope_id
          pure (if is_empty assigned then false else grants defined assigned permission))
      ]
    ]

  -- The end of `assign_roles`: under the guard the credential is stored and added to the index.
  unfoldable pub store_credential :
      (subject_id scope_id id : String) → Json → Method Store Vc (Unit {0})
  store_credential subject_id scope_id id bytes = with_storage do
    put_kv env storage_error (credential_key scope_id subject_id id) bytes
    store ← gets λ k. k.storage
    index_bytes ←
        serialize env.index_serde (λ t. storage_error (failed_to_serialize t))
          (old_index env (index_key scope_id subject_id) store ++ id ∷ [])
    put_kv env storage_error (index_key scope_id subject_id) index_bytes

  unfoldable pub assign_roles :
      (now : ℕ) (uuid subject_id scope_id : String) (roles : List String)
      → Option RoleAssignmentOptions
      → Method Store Vc String
  assign_roles now uuid subject_id scope_id roles given = do
    found ← load_governance_config scope_id
    elim found [
      | none ↦ raise (failed (invalid_proposal (no_config_for scope_id)))
      | some c ↦ lift (map_err (λ f. failed (invalid_proposal f)) (check_roles c roles))
    ]
    own ← gets λ k. k.identity
    let options = unwrap_or given default_options
    let id = new_credential_id scope_id subject_id uuid
    let unsigned = new_credential now own.did subject_id scope_id roles options
    signature ← lift (map_err failed (signature_of env own unsigned))
    let credential = with_signature (env.base64_encode signature) unsigned
    bytes ← serialize env.credential_serde (λ t. storage_error (failed_to_serialize t)) credential
    store_credential subject_id scope_id id bytes
    pure id
