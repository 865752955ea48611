-- ===== src/Storage/Cached/Sharing.antt =====
-- What the store of nodes of InMemoryStorageManager does across entities and after an error:
-- crates/runtime/icn-storage/src/memory.rs.
use icn.Prelude.{◌≡◌, true, some, String, ok, err, arith, PartialEq, string_eq}
use icn.Prelude.Map.{get, contains_key, get-insert_self}
use icn.Storage.Types.{DagNode, serialization_error, Builder, Codec}
use icn.Storage.Cached.{
  InMemoryStorageManager, write_in, namespace_exists, store_blob, cache_and_encode, store_node,
  get_node, contains_node,
}

module _ {Cid Payload : Type 0} ⦃e : PartialEq Cid⦄ (codec : Codec Cid Payload) where
  -- A node in the store of nodes is answered for every entity.
  answered :
      (cid : Cid) (node : DagNode Cid Payload) (s : InMemoryStorageManager Cid Payload)
      (other : String)
      → get cid s.node_store ≡ some node
      → (get_node codec other cid s ≡ (ok (some node), s))
        × (contains_node codec other cid s ≡ (ok true, s))
  unfolding get_node contains_node
  answered cid node s other held = (ground (arith, held), ground (arith, held))

  stored_cached :
      (entity : String) (builder : Builder Cid Payload) (cid : Cid) (node : DagNode Cid Payload)
      (s s' : InMemoryStorageManager Cid Payload)
      → store_node codec entity builder s ≡ (ok (cid, node), s')
      → get cid s'.node_store ≡ some node
  unfolding store_node namespace_exists cache_and_encode store_blob write_in
  stored_cached entity (err m) cid node s s' stored = ground (arith, stored)
  stored_cached entity (ok n) cid node s s' stored =
      ground (arith, stored, get-insert_self n.cid n s.node_store)

  -- A node that is stored for one entity is answered for any other, whether that has a namespace or
  -- not.
  pub get_node_any_entity :
      (entity other : String) (builder : Builder Cid Payload) (cid : Cid)
      (node : DagNode Cid Payload) (s s' : InMemoryStorageManager Cid Payload)
      → store_node codec entity builder s ≡ (ok (cid, node), s')
      → (get_node codec other cid s' ≡ (ok (some node), s'))
        × (contains_node codec other cid s' ≡ (ok true, s'))
  get_node_any_entity entity other builder cid node s s' stored =
      answered cid node s' other (stored_cached entity builder cid node s s' stored)

  -- A node that cannot be encoded is refused for an entity with a namespace, its bytes are written
  -- nowhere, and it is answered from then on all the same.
  pub refused_node_answered :
      (entity other : String) (node : DagNode Cid Payload) (fault : String)
      (s : InMemoryStorageManager Cid Payload)
      → contains_key entity s.nodes ≡ true
      → codec.encode node ≡ err fault
      → let (r, s') = store_node codec entity (ok node) s in
        (r ≡ err (serialization_error fault))
        × (s'.nodes ≡ s.nodes)
        × (s'.blobs ≡ s.blobs)
        × (get_node codec other node.cid s' ≡ (ok (some node), s'))
  unfolding store_node namespace_exists cache_and_encode
  refused_node_answered entity other node fault s exists broken =
      let s' = (store_node codec entity (ok node) s).1 in
      let held : get node.cid s'.node_store ≡ some node =
        ground (arith, exists, broken, get-insert_self node.cid node s.node_store) in
      (
        ground (arith, exists, broken),
        ground (arith, exists, broken),
        ground (arith, exists, broken),
        (answered node.cid node s' other held).0,
      )
