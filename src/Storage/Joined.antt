-- ===== src/Storage/Joined.antt =====
-- AsyncInMemoryStorage of crates/runtime/icn-storage/src/lib.rs: one map from keys that are joined of
-- the namespace and the key. Its blobs are not modelled, since `store_blob` panics on the identifier
-- that it makes up, nor is the trait StorageBackend, whose methods are todo!().
pub mod Separation
use Prim.Native.String.{◌++◌ as str_append}
use icn.Prelude.{
  Bool, true, false, Option, none, some, String, List, [], ◌∷◌, Result, ok, err, map_err, string_eq,
}
use icn.Prelude.Map.{Map, get, insert, contains_key}
use icn.Prelude.State.{Action, pure, lift, gets, modify, ◌>>=◌, ◌>>◌}
use icn.Identity.{Bytes}
use icn.Storage.Types.{
  DagNode, StorageFault, build_failed, serialization_error, deserialization_error, Builder, Codec,
}

pub record AsyncInMemoryStorage : Type 0 where
  pub kv_store : Map String Bytes

abbrev pub Step : Type 0 → Type 0
Step A = Action AsyncInMemoryStorage StorageFault A

unfoldable pub full_key : String → String → String
full_key namespace key = str_append namespace (str_append "/" key)

unfoldable pub create_namespace : String → Step (Unit {0})
create_namespace namespace = pure tt

unfoldable pub namespace_exists : String → Step Bool
namespace_exists namespace = pure true

unfoldable pub store_in_namespace : String → String → Bytes → Step (Unit {0})
store_in_namespace namespace key bytes =
    modify λ s. record s { kv_store = insert (full_key namespace key) bytes s.kv_store }

unfoldable pub get_from_namespace : String → String → Step (Option Bytes)
get_from_namespace namespace key = gets λ s. get (full_key namespace key) s.kv_store

unfoldable pub contains_in_namespace : String → String → Step Bool
contains_in_namespace namespace key = gets λ s. contains_key (full_key namespace key) s.kv_store

unfoldable pub dag_namespace : String → String
dag_namespace entity_did = str_append "dag/" entity_did

module _ {Cid Payload : Type 0} (codec : Codec Cid Payload) where
  -- `store_new_dag_root` has the same body.
  unfoldable pub store_node : String → Builder Cid Payload → Step (Cid × DagNode Cid Payload)
  store_node entity_did builder = do
    node ← lift (map_err build_failed builder)
    bytes ← lift (map_err serialization_error (codec.encode node))
    store_in_namespace (dag_namespace entity_did) (codec.to_string node.cid) bytes
    pure (node.cid, node)

  unfoldable pub get_node_bytes : String → Cid → Step (Option Bytes)
  get_node_bytes entity_did cid =
      get_from_namespace (dag_namespace entity_did) (codec.to_string cid)

  unfoldable pub get_node : String → Cid → Step (Option (DagNode Cid Payload))
  get_node entity_did cid = do
    found ← get_node_bytes entity_did cid
    elim found [
      | none ↦ pure none
      | some bytes ↦ (do
        node ← lift (map_err deserialization_error (codec.decode bytes))
        pure (some node))
    ]

  unfoldable pub contains_node : String → Cid → Step Bool
  contains_node entity_did cid =
      contains_in_namespace (dag_namespace entity_did) (codec.to_string cid)

  unfoldable pub store_nodes_batch :
      String → List (Builder Cid Payload) → Step (List (Cid × DagNode Cid Payload))
  store_nodes_batch entity_did [] = pure []
  store_nodes_batch entity_did (builder ∷ builders) = do
    stored ← store_node entity_did builder
    results ← store_nodes_batch entity_did builders
    pure (stored ∷ results)
