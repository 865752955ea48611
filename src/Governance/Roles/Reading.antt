-- ===== src/Governance/Roles/Reading.antt =====
-- What get_verified_roles of crates/runtime/icn-governance-kernel/src/lib.rs depends on.
use mathlib.Core.List.{append_assoc}
use icn.Prelude.{
  ℕ, ◌≡◌, ◌≢◌, refl, ap, sym, ◌∙◌, Bool, false, Option, String, List, [], ◌∷◌, ◌++◌, Result, ok,
  arith, All, string_eq, Result-cases, inl, inr,
}
use icn.Prelude.Floats.{Floats}
use icn.Governance.Kernel.{
  Environment, IdentityContext, GovernanceKernel, create_key_cid, with_storage,
}
use icn.Governance.Credentials.{
  credential_key, index_key, roles_of_credential, collect_roles, sort, dedup,
}
use icn.Governance.Roles.{read_index, old_index, get_verified_roles}

-- What is stored under the key of a credential.
abbrev pub stored_at :
    {fl : Floats} {Store Cid Json : Type 0}
    → Environment fl Store Cid Json
    → (scope subject : String) → Store
    → String
    → Result String (Option Json)
stored_at env scope subject s id =
    env.storage.get_kv (create_key_cid env (credential_key scope subject id)) s

module _ {fl : Floats} {Store Cid Json : Type 0} (env : Environment fl Store Cid Json)
    (own : IdentityContext) (now : ℕ) (scope subject : String) where
  -- The roles depend only on what is stored under the keys of the index.
  pub collect_roles-same :
      (ids : List String) (s t : Store)
      → All (λ id. stored_at env scope subject t id ≡ stored_at env scope subject s id) ids
      → collect_roles env own now scope subject ids t
        ≡ collect_roles env own now scope subject ids s
  unfolding collect_roles
  collect_roles-same [] s t same = refl
  collect_roles-same (id ∷ ids) s t same = ground (arith, same.0, collect_roles-same ids s t same.1)

  pub collect_roles-append :
      (ids : List String) (id : String) (s : Store) (roles others : List String)
      → collect_roles env own now scope subject ids s ≡ ok others
      → roles_of_credential env own now (stored_at env scope subject s id) ≡ ok roles
      → collect_roles env own now scope subject (ids ++ id ∷ []) s ≡ ok (others ++ (roles ++ []))
  unfolding collect_roles
  collect_roles-append [] id s roles others before last = ground (arith, before, last)
  collect_roles-append (i ∷ ids) id s roles others before last =
      elim (Result-cases (roles_of_credential env own now (stored_at env scope subject s i))) [
        | inr (e, refused) ↦ ground (arith, refused, before)
        | inl (head, first) ↦ elim (Result-cases (collect_roles env own now scope subject ids s)) [
          | inr (e, refused) ↦ ground (arith, first, refused, before)
          | inl (rest, more) ↦
              let tail = collect_roles-append ids id s roles rest more last in
              ground (arith, first, more, tail, before, append_assoc head rest (roles ++ []))
        ]
      ]

module _ {fl : Floats} {Store Cid Json Vc : Type 0} (env : Environment fl Store Cid Json) where
  -- What `get_verified_roles` reads, in a state whose storage is free.
  pub get_verified_roles_ok :
      (now : ℕ) (subject scope : String) (roles : List String) (k k' : GovernanceKernel Store Vc)
      → k.storage_held ≡ false
      → get_verified_roles env now subject scope k ≡ (ok roles, k')
      → (ids : List String) × (found : List String) × (read_index env
            (index_key scope subject)
            k.storage
          ≡ ok ids)
        × (collect_roles env k.identity now scope subject ids k.storage ≡ ok found)
        × (roles ≡ dedup (sort found))
  unfolding get_verified_roles with_storage
  get_verified_roles_ok now subject scope roles k k' free h =
      let released : record k { storage_held = false } ≡ k =
        ap (λ (b : Bool). record k { storage_held = b }) (sym free) in
      let h' = ap (get_verified_roles env now subject scope) released ∙ h in
      elim (Result-cases (read_index env (index_key scope subject) k.storage)) [
        | inr (e, refused) ↦ ground (arith, refused, h')
        | inl (ids, indexed) ↦
            elim (Result-cases (collect_roles env k.identity now scope subject ids k.storage)) [
              | inr (e, refused) ↦ ground (arith, indexed, refused, h')
              | inl (found, collected) ↦
                  (ids, found, indexed, collected, ground (arith, indexed, collected, h'))
            ]
      ]

  pub get_verified_roles_done :
      (now : ℕ) (subject scope : String) (ids found : List String) (k : GovernanceKernel Store Vc)
      → read_index env (index_key scope subject) k.storage ≡ ok ids
      → collect_roles env k.identity now scope subject ids k.storage ≡ ok found
      → get_verified_roles env now subject scope (record k { storage_held = false })
        ≡ (ok (dedup (sort found)), record k { storage_held = false })
  unfolding get_verified_roles with_storage
  get_verified_roles_done now subject scope ids found k indexed collected =
      ground (arith, indexed, collected)

-- The two ways to read the index agree where it can be read.
pub old_index-read_index :
    {fl : Floats} {Store Cid Json : Type 0} (env : Environment fl Store Cid Json) (key : String)
    (s : Store) (ids : List String)
    → read_index env key s ≡ ok ids
    → old_index env key s ≡ ids
unfolding old_index read_index
old_index-read_index env key s ids h = ground (arith, h)

-- Credentials of an index that does not name `id` are stored as before.
pub old_credentials :
    {fl : Floats} {Store Cid Json : Type 0} (env : Environment fl Store Cid Json)
    (scope subject id : String) (s t : Store) (ids : List String)
    → ((old : String)
        → old ≢ id
        → stored_at env scope subject t old ≡ stored_at env scope subject s old)
    → All (λ old. old ≢ id) ids
    → All (λ old. stored_at env scope subject t old ≡ stored_at env scope subject s old) ids
old_credentials env scope subject id s t [] same fresh = tt
old_credentials env scope subject id s t (old ∷ ids) same fresh =
    (same old fresh.0, old_credentials env scope subject id s t ids same fresh.1)
