-- ===== src/Governance/Kernel.antt =====
-- GovernanceKernel of crates/runtime/icn-governance-kernel/src/lib.rs: its state, the storage behind
-- a mutex, and its events. The mutex on the storage is a flag of the state, since a method that locks
-- it twice waits for itself; the mutexes on events and credentials are never held across a call.
-- Fresh identifiers and the time, in seconds, are arguments. `Vc` stands
-- for VerifiableCredential, and `Json` for the bytes of a value that serde_json has written.
pub mod Laws
use Prim.Native.String.{◌++◌ as str_append, find, len}
use icn.Prelude.{
  ℕ, Bool, true, false, Option, none, some, String, List, [], ◌∷◌, map, Result, ok, err, map_err,
  leb, if◌then◌else◌, retain, any, ◌==◌, ◌≡◌, PartialEq, string_eq,
}
use icn.Prelude.Map.{Map, insert, values, keys}
use icn.Prelude.State.{Action, pure, lift, gets, modify, ◌>>=◌, ◌>>◌}
use icn.Prelude.Floats.{Floats}
use icn.Prelude.Serde.{Serde}
use icn.Identity.{Bytes, KeyPair}
use icn.Economics.Types.{IdentityScope}
use icn.Governance.Config.{GovernanceConfig}
use icn.Governance.Types.{
  Proposal, Vote, RoleAssignmentCredential, GovernanceEvent, GovernanceEventType, EventStatus,
  success, EventData, GovernanceError, StorageFault, backend, failed_to_serialize,
  event_emission_error,
}

-- What the kernel uses of the trait StorageBackend.
pub record StorageBackend (Store Cid Json : Type 0) : Type 0 where
  pub get_kv : Cid → Store → Result String (Option Json)
  pub put_kv : Cid → Json → Store → Result String (Unit {0}) × Store

-- A storage that keeps what it takes: what is put under a key is read back, and nothing else changes.
pub record LawfulBackend {Store Cid Json : Type 0} ⦃e : PartialEq Cid⦄
    (st : StorageBackend Store Cid Json) : Type 0 where
  pub get-put :
      (c j : Cid) (d : Json) (s : Store)
      → (st.put_kv c d s).0 ≡ ok tt
      → st.get_kv j (st.put_kv c d s).1 ≡ (if c == j then ok (some d) else st.get_kv j s)

-- The storage, and what the code takes from other packages: the CID of the SHA-256 multihash of a
-- text, SHA-256, texts as bytes, base64, `to_lowercase`, `replace`, and serde_json.
pub record Environment (fl : Floats) (Store Cid Json : Type 0) : Type 0 where
  pub storage : StorageBackend Store Cid Json
  pub cid_of : String → Cid
  pub sha256 : Bytes → Bytes
  pub as_bytes : String → Bytes
  pub base64_encode : Bytes → String
  pub base64_decode : String → Result String Bytes
  pub to_lowercase : String → String
  pub replace : (from to : String) → String → String
  pub proposal_serde : Serde Proposal Json
  pub vote_serde : Serde Vote Json
  pub config_serde : Serde (GovernanceConfig fl) Json
  pub credential_serde : Serde RoleAssignmentCredential Json
  pub credential_to_string : RoleAssignmentCredential → Result String String
  pub index_serde : Serde (List String) Json
  pub event_serde : Serde GovernanceEvent Json

-- IdentityContext of crates/runtime/icn-core-vm/src/lib.rs
pub record IdentityContext : Type 0 where
  pub keypair : KeyPair
  pub did : String

pub record GovernanceKernel (Store Vc : Type 0) : Type 0 where
  pub storage : Store
  pub storage_held : Bool
  pub identity : IdentityContext
  pub events : Map String GovernanceEvent
  pub credentials : Map String Vc

-- Why a method stops: an error of its own, or a lock that it holds itself.
pub data Stop : Type 0 where
  failed : GovernanceError → Stop
  deadlock : Stop

abbrev pub Method : Type 0 → Type 0 → Type 0 → Type 0
Method Store Vc A = Action (GovernanceKernel Store Vc) Stop A

abbrev pub joined : List String → String
joined [] = ""
joined (s ∷ rest) = str_append s (joined rest)

module _ {Store Vc : Type 0} where
  unfoldable pub new_kernel : Store → IdentityContext → GovernanceKernel Store Vc
  new_kernel store identity = record {
    storage = store;
    storage_held = false;
    identity = identity;
    events = [];
    credentials = [];
  }

  -- `self.storage.lock().await`, a body, and the end of the guard: an error drops the guard too, and
  -- only a method that waits for ever keeps it.
  unfoldable pub with_storage : {A : Type 0} → Method Store Vc A → Method Store Vc A
  with_storage body k =
      if k.storage_held
      then (err deadlock, k)
      else (let (r, k') = body (record k { storage_held = true }) in
          elim r [
            | err deadlock ↦ (err deadlock, k')
            | other ↦ (other, record k' { storage_held = false })
          ])

  unfoldable pub get_events : Method Store Vc (List GovernanceEvent)
  get_events = gets λ k. values k.events

  unfoldable pub get_credentials : Method Store Vc (List Vc)
  get_credentials = gets λ k. values k.credentials

unfoldable pub is_about : String → GovernanceEvent → Bool
is_about proposal_id e = elim e.proposal_cid [ none ↦ false | some p ↦ p == proposal_id ]

-- `str::contains`
unfoldable pub has_substring : String → String → Bool
has_substring text part = leb (find text part) (len text)

module _ {Store Vc : Type 0} where
  -- `get_proposal_events`, and `get_events_for_proposal`
  unfoldable pub get_proposal_events : String → Method Store Vc (List GovernanceEvent)
  get_proposal_events proposal_id = gets λ k. retain (is_about proposal_id) (values k.events)

  -- `get_proposal_credentials`, and `get_credentials_for_proposal`
  unfoldable pub get_proposal_credentials : String → Method Store Vc (List Vc)
  get_proposal_credentials proposal_id = do
    event_ids ← gets λ k. keys (retain (λ e. is_about proposal_id e.1) k.events)
    gets λ k. values (retain (λ c. any (has_substring c.0) event_ids) k.credentials)

-- `GovernanceEvent::new`
unfoldable pub new_event :
    (id : String) (now : ℕ)
    → GovernanceEventType
    → (issuer : String) → IdentityScope
    → (organization proposal_cid : Option String) → EventData
    → GovernanceEvent
new_event id now type issuer scope organization proposal_cid data' = record {
  id = id;
  event_type = type;
  timestamp = now;
  issuer = issuer;
  scope = scope;
  organization = organization;
  proposal_cid = proposal_cid;
  status = success;
  event_data = data';
}

unfoldable pub create_key_cid :
    {fl : Floats} {Store Cid Json : Type 0} → Environment fl Store Cid Json → String → Cid
create_key_cid env key = env.cid_of key

-- `to_vec`, with the error that the caller makes of a failure.
unfoldable pub serialize :
    {Json Store Vc A : Type 0}
    → Serde A Json
    → (String → GovernanceError)
    → A
    → Method Store Vc Json
serialize serde wrap a = lift (map_err (λ e. failed (wrap e)) (serde.to_vec a))

module _ {fl : Floats} {Store Cid Json Vc : Type 0} (env : Environment fl Store Cid Json) where
  -- `storage.put_kv` under a key, with the error that the caller makes of a failure.
  unfoldable pub put_kv :
      (StorageFault → GovernanceError) → String → Json → Method Store Vc (Unit {0})
  put_kv wrap key bytes k =
      let (r, store) = env.storage.put_kv (create_key_cid env key) bytes k.storage in
      (map_err (λ e. failed (wrap (backend e))) r, record k { storage = store })

  unfoldable pub emit_event : GovernanceEvent → Method Store Vc String
  emit_event e = do
    bytes ← serialize env.event_serde (λ t. event_emission_error (failed_to_serialize t)) e
    with_storage (put_kv event_emission_error (str_append "event::" e.id) bytes)
    modify λ k. record k { events = insert (str_append "event:" e.id) e k.events }
    pure (str_append "event:" e.id)
