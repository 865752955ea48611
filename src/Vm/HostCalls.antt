-- ===== src/Vm/HostCalls.antt =====
-- The host calls of ConcreteHostEnvironment on DAG nodes and tokens, with what they are charged:
-- store_dag_node, get_dag_node, contains_dag_node, mint_tokens and transfer_resources of
-- crates/runtime/icn-core-vm/src/lib.rs.
pub mod Charges
pub mod Stored
use icn.Prelude.{
  ℕ, ◌/◌, Bool, true, false, not, Option, none, some, String, List, [], ◌∷◌, Result, ok, err,
  map_err, if◌then◌else◌, length, ◌==◌, string_eq,
}
use icn.Prelude.State.{Action, pure, raise, raise_if, lift, ◌>>=◌, ◌>>◌}
use icn.Identity.{Bytes}
use icn.Economics.Types.{IdentityScope, individual, administrator}
use icn.Economics.Policy.{scope_eq}
use icn.Vm.{
  VmContext, HostEnvironment, HostError, Host, codec_error, invalid_input, storage_error,
  not_administrator, not_authorized, failed_to_store_record, ResourceType, record_compute_usage,
  record_storage_usage,
}

-- DagNodeBuilder, as `store_dag_node` fills it.
pub record NodeBuilder (Cid Payload Metadata : Type 0) : Type 0 where
  pub issuer : String
  pub payload : Payload
  pub parents : List Cid
  pub metadata : Metadata

-- The storage of DAG nodes, and the encodings: CBOR, CIDs from bytes, the metadata of a node that is
-- given none, and the length of a node as JSON.
pub record Dag (D Cid Payload Metadata Node : Type 0) : Type 0 where
  pub store_node : String → NodeBuilder Cid Payload Metadata → D → Result String (Cid × Node) × D
  pub get_node_bytes : String → Cid → D → Result String (Option Bytes)
  pub contains_node : String → Cid → D → Result String Bool
  pub decode_payload : Bytes → Result String Payload
  pub decode_metadata : Bytes → Result String Metadata
  pub default_metadata : ℕ → Metadata
  pub read_cid : Bytes → Result String Cid
  pub json_length : Node → Result String ℕ

unfoldable pub read_cids :
    {Cid : Type 0} → (Bytes → Result String Cid) → List Bytes → Result String (List Cid)
read_cids read [] = ok []
read_cids read (b ∷ bs) =
    let rest = read_cids read bs in
    elim (read b) [
      | err e ↦ err e
      | ok cid ↦ elim rest [ err e ↦ err e | ok cids ↦ ok (cid ∷ cids) ]
    ]

module _ {D Cid Payload Metadata Node : Type 0} (dag : Dag D Cid Payload Metadata Node) where
  -- `dag_storage.store_node`, with the error that the caller makes of a failure.
  unfoldable pub store_node : String → NodeBuilder Cid Payload Metadata → Host D (Cid × Node)
  store_node entity_did builder s =
      let (r, d) = dag.store_node entity_did builder s.dag_storage in
      (map_err storage_error r, record s { dag_storage = d })

  unfoldable pub metadata_of : (now : ℕ) → Bytes → Result HostError Metadata
  metadata_of now [] = ok (dag.default_metadata now)
  metadata_of now (b ∷ bs) = map_err codec_error (dag.decode_metadata (b ∷ bs))

  -- The signature that the caller passes is not used.
  unfoldable pub store_dag_node :
      VmContext
      → (now : ℕ) (entity_did : String) (payload : Bytes) (parents : List Bytes)
        (signature metadata : Bytes)
      → Host D Cid
  store_dag_node ctx now entity_did payload parents signature metadata = do
    record_compute_usage ctx 2000
    decoded ← lift (map_err codec_error (dag.decode_payload payload))
    cids ← lift (map_err invalid_input (read_cids dag.read_cid parents))
    m ← lift (metadata_of now metadata)
    stored ←
        store_node entity_did
          (record { issuer = entity_did; payload = decoded; parents = cids; metadata = m })
    size ← lift (map_err codec_error (dag.json_length stored.1))
    record_storage_usage ctx size
    pure stored.0

  unfoldable pub get_dag_node : VmContext → String → Bytes → Host D (Option Bytes)
  get_dag_node ctx entity_did cid_bytes = do
    record_compute_usage ctx 500
    cid ← lift (map_err invalid_input (dag.read_cid cid_bytes))
    found ← (λ s. (map_err storage_error (dag.get_node_bytes entity_did cid s.dag_storage), s))
    elim found [
      | none ↦ pure none
      | some bytes ↦ (do record_storage_usage ctx (length bytes / 2); pure (some bytes))
    ]

  unfoldable pub contains_dag_node : VmContext → String → Bytes → Host D Bool
  contains_dag_node ctx entity_did cid_bytes = do
    record_compute_usage ctx 200
    cid ← lift (map_err invalid_input (dag.read_cid cid_bytes))
    λ s. (map_err storage_error (dag.contains_node entity_did cid s.dag_storage), s)

-- The scope of the caller, which is never another one.
unfoldable pub caller_scope : VmContext → IdentityScope
caller_scope ctx = individual

module _ {D : Type 0} where
  -- Nothing is stored: a write is charged and logged.
  unfoldable pub set_value : VmContext → (key : String) → Bytes → Host D (Unit {0})
  set_value ctx key value = do record_compute_usage ctx 100; record_storage_usage ctx (length value)

  -- The end of a token operation: its record, with the error that it makes of a failure.
  unfoldable pub store_record : VmContext → (key : String) → Bytes → Host D (Unit {0})
  store_record ctx key value s =
      let (r, s') = set_value ctx key value s in (map_err failed_to_store_record r, s')

  unfoldable pub mint_tokens :
      VmContext
      → ResourceType
      → (record_key : String) (record_bytes : Result String Bytes) → Host D (Unit {0})
  mint_tokens ctx resource record_key record_bytes = do
    raise_if (not (caller_scope ctx == administrator)) not_administrator
    bytes ← lift (map_err codec_error record_bytes)
    store_record ctx record_key bytes

  unfoldable pub transfer_resources :
      VmContext
      → (from to : String) (record_key : String) (record_bytes : Result String Bytes)
      → Host D (Unit {0})
  transfer_resources ctx from to record_key record_bytes = do
    raise_if (if ctx.caller_did == from then false else not (caller_scope ctx == administrator))
        (not_authorized ctx.caller_did from)
    bytes ← lift (map_err codec_error record_bytes)
    store_record ctx record_key bytes
