-- ===== src/Storage/Memory.antt =====
-- MemoryStorageManager of crates/runtime/icn-storage/src/lib.rs. Its two mutexes are never held
-- across another call, so that each operation is one step on the state.
pub mod Laws
pub mod Keeping
use icn.Prelude.{
  Bool, true, false, Option, none, some, String, List, [], ◌∷◌, Result, ok, err, map_err,
  if◌then◌else◌, string_eq,
}
use icn.Prelude.Map.{Map, get, insert, contains_key}
use icn.Prelude.State.{Action, pure, raise, lift, gets, modify, ◌>>=◌, ◌>>◌}
use icn.Identity.{Bytes}
use icn.Storage.Types.{
  DagNode, StorageFault, build_failed, serialization_error, deserialization_error, no_namespace,
  no_entity_namespace, Builder, Codec,
}

pub record MemoryStorageManager : Type 0 where
  pub blobs : Map String Bytes
  pub nodes : Map String (Map String Bytes)

abbrev pub Step : Type 0 → Type 0
Step A = Action MemoryStorageManager StorageFault A

unfoldable pub new_storage : MemoryStorageManager
new_storage = record { blobs = []; nodes = [] }

-- `get_mut(namespace)` and `insert(key, data)`, if there is such a namespace.
unfoldable pub insert_in :
    String → String → Bytes → Map String (Map String Bytes) → Option (Map String (Map String Bytes))
insert_in namespace key bytes nodes = elim (get namespace nodes) [
  | none ↦ none
  | some ns ↦ some (insert namespace (insert key bytes ns) nodes)
]

-- The entry of a key in a namespace.
unfoldable pub get_in : String → String → Map String (Map String Bytes) → Option Bytes
get_in namespace key nodes = elim (get namespace nodes) [ none ↦ none | some ns ↦ get key ns ]

unfoldable pub with_namespace :
    String → Map String (Map String Bytes) → Map String (Map String Bytes)
with_namespace namespace nodes =
    if contains_key namespace nodes then nodes else insert namespace [] nodes

unfoldable pub create_namespace : String → Step (Unit {0})
create_namespace namespace = modify λ s. record s { nodes = with_namespace namespace s.nodes }

unfoldable pub namespace_exists : String → Step Bool
namespace_exists namespace = gets λ s. contains_key namespace s.nodes

-- The write into a namespace, with the error of the caller when there is no such namespace.
unfoldable pub write_in : StorageFault → String → String → Bytes → Step (Unit {0})
write_in fault namespace key bytes s = elim (insert_in namespace key bytes s.nodes) [
  | none ↦ (err fault, s)
  | some nodes ↦ (ok tt, record s { nodes = nodes })
]

unfoldable pub store_in_namespace : String → String → Bytes → Step (Unit {0})
store_in_namespace namespace key bytes = write_in (no_namespace namespace) namespace key bytes

unfoldable pub get_from_namespace : String → String → Step (Option Bytes)
get_from_namespace namespace key = gets λ s. get_in namespace key s.nodes

unfoldable pub contains_in_namespace : String → String → Step Bool
contains_in_namespace namespace key =
    gets λ s. elim (get namespace s.nodes) [ none ↦ false | some ns ↦ contains_key key ns ]

module _ {Cid Payload : Type 0} (codec : Codec Cid Payload) where
  unfoldable pub store_blob : Bytes → Step Cid
  store_blob bytes = do
    let cid = codec.raw_cid bytes
    modify λ s. record s { blobs = insert (codec.to_string cid) bytes s.blobs }
    pure cid

  unfoldable pub get_blob : Cid → Step (Option Bytes)
  get_blob cid = gets λ s. get (codec.to_string cid) s.blobs

  unfoldable pub contains_blob : Cid → Step Bool
  contains_blob cid = gets λ s. contains_key (codec.to_string cid) s.blobs

  -- The node that a builder builds, and its bytes.
  unfoldable pub encoded : Builder Cid Payload → Step (DagNode Cid Payload × Bytes)
  encoded builder = do
    node ← lift (map_err build_failed builder)
    bytes ← lift (map_err serialization_error (codec.encode node))
    pure (node, bytes)

  unfoldable pub store_new_dag_root :
      String → Builder Cid Payload → Step (Cid × DagNode Cid Payload)
  store_new_dag_root entity_did builder = do
    (node, bytes) ← encoded builder
    _cid ← store_blob bytes
    modify λ s. record s { nodes = with_namespace entity_did s.nodes }
    modify λ s. record s {
      nodes = elim (insert_in entity_did (codec.to_string node.cid) bytes s.nodes) [
        | none ↦ s.nodes
        | some nodes ↦ nodes
      ];
    }
    pure (node.cid, node)

  unfoldable pub store_node : String → Builder Cid Payload → Step (Cid × DagNode Cid Payload)
  store_node entity_did builder = do
    (node, bytes) ← encoded builder
    _cid ← store_blob bytes
    write_in (no_entity_namespace entity_did) entity_did (codec.to_string node.cid) bytes
    pure (node.cid, node)

  unfoldable pub get_node_bytes : String → Cid → Step (Option Bytes)
  get_node_bytes entity_did cid = gets λ s. get_in entity_did (codec.to_string cid) s.nodes

  unfoldable pub get_node : String → Cid → Step (Option (DagNode Cid Payload))
  get_node entity_did cid = do
    found ← get_node_bytes entity_did cid
    elim found [
      | none ↦ pure none
      | some bytes ↦ (do
        node ← lift (map_err deserialization_error (codec.decode bytes))
        pure (some node))
    ]

  unfoldable pub contains_node : String → Cid → Step Bool
  contains_node entity_did cid = contains_in_namespace entity_did (codec.to_string cid)

  unfoldable pub store_nodes_batch :
      String → List (Builder Cid Payload) → Step (List (Cid × DagNode Cid Payload))
  store_nodes_batch entity_did [] = pure []
  store_nodes_batch entity_did (builder ∷ builders) = do
    stored ← store_node entity_did builder
    results ← store_nodes_batch entity_did builders
    pure (stored ∷ results)
