-- ===== src/Storage/Cached/Coherence.antt =====
-- That InMemoryStorageManager of crates/runtime/icn-storage/src/memory.rs answers for a CID with a
-- node of that CID.
use icn.Prelude.{◌≡◌, some, String, List, ok, PartialEq, string_eq}
use icn.Prelude.Map.{get}
use icn.Identity.{Bytes}
use icn.Storage.Types.{DagNode, Builder, Codec}
use icn.Storage.Memory.{get_in}
use icn.Storage.Cached.{
  InMemoryStorageManager, create_namespace, store_blob, store_new_dag_root, store_node, get_node,
  store_nodes_batch,
}

-- The calls of the storage that handle nodes.
pub data Call (Cid Payload : Type 0) : Type 0 where
  new_namespace : String → Call Cid Payload
  new_blob : Bytes → Call Cid Payload
  new_root new_node : String → Builder Cid Payload → Call Cid Payload
  new_batch : String → List (Builder Cid Payload) → Call Cid Payload
  read_node : String → Cid → Call Cid Payload

module _ {Cid Payload : Type 0} ⦃e : PartialEq Cid⦄ (codec : Codec Cid Payload) where
  -- What a call leaves, whether it succeeds or fails.
  unfoldable pub perform :
      InMemoryStorageManager Cid Payload → Call Cid Payload → InMemoryStorageManager Cid Payload
  perform s (new_namespace namespace) = (create_namespace namespace s).1
  perform s (new_blob bytes) = (store_blob codec bytes s).1
  perform s (new_root entity builder) = (store_new_dag_root codec entity builder s).1
  perform s (new_node entity builder) = (store_node codec entity builder s).1
  perform s (new_batch entity builders) = (store_nodes_batch codec entity builders s).1
  perform s (read_node entity cid) = (get_node codec entity cid s).1

  -- Every node that is kept, as a node or as its bytes, is kept under its own CID.
  pub record IsCoherent (s : InMemoryStorageManager Cid Payload) : Type 0 where
    pub cached : (c : Cid) (n : DagNode Cid Payload) → get c s.node_store ≡ some n → n.cid ≡ c
    pub written :
        (entity : String) (c : Cid) (d : Bytes)
        → get_in entity (codec.to_string c) s.nodes ≡ some d
        → (n : DagNode Cid Payload) × (codec.decode d ≡ ok n) × (n.cid ≡ c)
