-- ===== src/Storage/Cached.antt =====
-- InMemoryStorageManager of crates/runtime/icn-storage/src/memory.rs: the storage of Memory with a
-- store of nodes and one of their metadata before it, neither of which knows entities. No mutex is
-- held across another call. The operations on namespaces and blobs are those of Memory, except that
-- the CID of a blob is computed from its encoding.
pub mod Coherence
pub mod Sharing
use icn.Prelude.{
  Bool, true, false, Option, none, some, String, List, [], ◌∷◌, Result, ok, err, map_err,
  if◌then◌else◌, PartialEq, string_eq, ◌==◌, not,
}
use icn.Prelude.Map.{Map, get, insert, contains_key}
use icn.Prelude.State.{Action, pure, raise, raise_if, lift, gets, modify, ◌>>=◌, ◌>>◌}
use icn.Identity.{Bytes}
use icn.Storage.Types.{
  DagNode, DagNodeMetadata, StorageFault, build_failed, serialization_error, deserialization_error,
  no_namespace, no_entity_namespace, Builder, Codec,
}
use icn.Storage.Memory.{insert_in, get_in, with_namespace}

pub record InMemoryStorageManager (Cid Payload : Type 0) : Type 0 where
  pub blobs : Map String Bytes
  pub nodes : Map String (Map String Bytes)
  pub node_store : Map Cid (DagNode Cid Payload)
  pub metadata_store : Map Cid DagNodeMetadata

unfoldable pub new_storage : {Cid Payload : Type 0} → InMemoryStorageManager Cid Payload
new_storage = record { blobs = []; nodes = []; node_store = []; metadata_store = [] }

abbrev pub Step : Type 0 → Type 0 → Type 0 → Type 0
Step Cid Payload A = Action (InMemoryStorageManager Cid Payload) StorageFault A

module _ {Cid Payload : Type 0} where
  unfoldable pub create_namespace : String → Step Cid Payload (Unit {0})
  create_namespace namespace = modify λ s. record s { nodes = with_namespace namespace s.nodes }

  unfoldable pub namespace_exists : String → Step Cid Payload Bool
  namespace_exists namespace = gets λ s. contains_key namespace s.nodes

  unfoldable pub write_in : StorageFault → String → String → Bytes → Step Cid Payload (Unit {0})
  write_in fault namespace key bytes s = elim (insert_in namespace key bytes s.nodes) [
    | none ↦ (err fault, s)
    | some nodes ↦ (ok tt, record s { nodes = nodes })
  ]

  unfoldable pub store_in_namespace : String → String → Bytes → Step Cid Payload (Unit {0})
  store_in_namespace namespace key bytes = write_in (no_namespace namespace) namespace key bytes

  unfoldable pub get_from_namespace : String → String → Step Cid Payload (Option Bytes)
  get_from_namespace namespace key = gets λ s. get_in namespace key s.nodes

  unfoldable pub contains_in_namespace : String → String → Step Cid Payload Bool
  contains_in_namespace namespace key =
      gets λ s. elim (get namespace s.nodes) [ none ↦ false | some ns ↦ contains_key key ns ]

module _ {Cid Payload : Type 0} ⦃e : PartialEq Cid⦄ (codec : Codec Cid Payload) where
  unfoldable pub store_blob : Bytes → Step Cid Payload Cid
  store_blob bytes = do
    serialized ← lift (map_err serialization_error (codec.encode_bytes bytes))
    let cid = codec.raw_cid serialized
    modify λ s. record s { blobs = insert (codec.to_string cid) bytes s.blobs }
    pure cid

  unfoldable pub get_blob : Cid → Step Cid Payload (Option Bytes)
  get_blob cid = gets λ s. get (codec.to_string cid) s.blobs

  unfoldable pub contains_blob : Cid → Step Cid Payload Bool
  contains_blob cid = gets λ s. contains_key (codec.to_string cid) s.blobs

  -- The node that a builder builds, which the two stores take, and its bytes, which `blobs` takes.
  unfoldable pub cache_and_encode :
      Builder Cid Payload → Step Cid Payload (DagNode Cid Payload × Bytes)
  cache_and_encode builder = do
    node ← lift (map_err build_failed builder)
    modify λ s. record s { node_store = insert node.cid node s.node_store }
    modify λ s. record s { metadata_store = insert node.cid node.metadata s.metadata_store }
    bytes ← lift (map_err serialization_error (codec.encode node))
    _cid ← store_blob bytes
    pure (node, bytes)

  unfoldable pub store_new_dag_root :
      String → Builder Cid Payload → Step Cid Payload (Cid × DagNode Cid Payload)
  store_new_dag_root entity_did builder = do
    (node, bytes) ← cache_and_encode builder
    modify λ s. record s { nodes = with_namespace entity_did s.nodes }
    modify λ s. record s {
      nodes = elim (insert_in entity_did (codec.to_string node.cid) bytes s.nodes) [
        | none ↦ s.nodes
        | some nodes ↦ nodes
      ];
    }
    pure (node.cid, node)

  unfoldable pub store_node :
      String → Builder Cid Payload → Step Cid Payload (Cid × DagNode Cid Payload)
  store_node entity_did builder = do
    exists ← namespace_exists entity_did
    raise_if (not exists) (no_entity_namespace entity_did)
    (node, bytes) ← cache_and_encode builder
    write_in (no_entity_namespace entity_did) entity_did (codec.to_string node.cid) bytes
    pure (node.cid, node)

  unfoldable pub get_node_bytes : String → Cid → Step Cid Payload (Option Bytes)
  get_node_bytes entity_did cid = gets λ s. get_in entity_did (codec.to_string cid) s.nodes

  unfoldable pub get_node : String → Cid → Step Cid Payload (Option (DagNode Cid Payload))
  get_node entity_did cid = do
    cached ← gets λ s. get cid s.node_store
    elim cached [
      | some node ↦ pure (some node)
      | none ↦ (do
        found ← get_node_bytes entity_did cid
        elim found [
          | none ↦ pure none
          | some bytes ↦ (do
            node ← lift (map_err deserialization_error (codec.decode bytes))
            modify λ s. record s { node_store = insert cid node s.node_store }
            pure (some node))
        ])
    ]

  unfoldable pub contains_node : String → Cid → Step Cid Payload Bool
  contains_node entity_did cid = do
    cached ← gets λ s. contains_key cid s.node_store
    if cached then pure true else contains_in_namespace entity_did (codec.to_string cid)

  unfoldable pub store_each :
      String → List (Builder Cid Payload) → Step Cid Payload (List (Cid × DagNode Cid Payload))
  store_each entity_did [] = pure []
  store_each entity_did (builder ∷ builders) = do
    stored ← store_node entity_did builder
    results ← store_each entity_did builders
    pure (stored ∷ results)

  unfoldable pub store_nodes_batch :
      String → List (Builder Cid Payload) → Step Cid Payload (List (Cid × DagNode Cid Payload))
  store_nodes_batch entity_did builders = do
    exists ← namespace_exists entity_did
    raise_if (not exists) (no_entity_namespace entity_did)
    store_each entity_did builders
