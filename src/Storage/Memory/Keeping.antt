-- ===== src/Storage/Memory/Keeping.antt =====
-- What MemoryStorageManager of crates/runtime/icn-storage/src/lib.rs keeps.
use icn.Prelude.{
  ◌≡◌, ◌≢◌, ◌↔◌, ◌⊎◌, inl, inr, refl, sym, ap, ◌∙◌, true, ◌&&◌, some, String, List, [], ◌∷◌, ◌++◌,
  ok, err, Result-cases, Option-cases, arith, if◌then◌else◌, ◌==◌, ==_iff, string_eq,
}
use icn.Prelude.Map.{contains_key}
use icn.Identity.{Bytes}
use icn.Storage.Types.{DagNode, StorageFault, Builder, Codec, LawfulCodec}
use icn.Storage.Memory.{
  MemoryStorageManager, insert_in, get_in, with_namespace, write_in, store_blob, encoded,
  store_new_dag_root, store_node, get_node_bytes, get_node, contains_node, store_nodes_batch,
  contains_in_namespace,
}
use icn.Storage.Memory.Laws.{
  get_in-insert_in, insert_in-succeeds, insert_in-exists, with_namespace-exists,
}

module _ {Cid Payload : Type 0} (codec : Codec Cid Payload) where
  -- What a store of a node that succeeds has done.
  pub store_node_ok :
      (entity : String) (builder : Builder Cid Payload) (cid : Cid) (node : DagNode Cid Payload)
      (s s' : MemoryStorageManager)
      → store_node codec entity builder s ≡ (ok (cid, node), s')
      → (bytes : Bytes) × (builder ≡ ok node)
        × (cid ≡ node.cid)
        × (codec.encode node ≡ ok bytes)
        × (insert_in entity (codec.to_string cid) bytes s.nodes ≡ some s'.nodes)
  unfolding store_node encoded store_blob write_in
  store_node_ok entity builder cid node s s' stored = elim (Result-cases builder) [
    | inr (e, failed) ↦ ground (arith, failed, stored)
    | inl (n, built) ↦ elim (Result-cases (codec.encode n)) [
      | inr (e, failed) ↦ ground (arith, built, failed, stored)
      | inl (bytes, written) ↦
          elim (Option-cases (insert_in entity (codec.to_string n.cid) bytes s.nodes)) [
            | inl missing ↦ ground (arith, built, written, missing, stored)
            | inr (nodes, held) ↦
                let same : n ≡ node = ground (arith, built, written, held, stored) in
                let id : n.cid ≡ cid = ground (arith, built, written, held, stored) in
                let kept : nodes ≡ s'.nodes = ground (arith, built, written, held, stored) in
                (
                  bytes,
                  ground (arith, built, same),
                  sym id ∙ ap (λ x. x.cid) same,
                  ground (arith, written, same),
                  ground (arith, held, kept, id),
                )
          ]
    ]
  ]

  -- A store of a node that fails leaves all namespaces as they were.
  pub store_node_failed :
      (entity : String) (builder : Builder Cid Payload) (fault : StorageFault)
      (s s' : MemoryStorageManager)
      → store_node codec entity builder s ≡ (err fault, s')
      → s'.nodes ≡ s.nodes
  unfolding store_node encoded store_blob write_in
  store_node_failed entity builder fault s s' failed = ground (arith, failed)

  -- A node is stored exactly if it can be built and encoded and the entity has a namespace.
  pub store_node_iff :
      (entity : String) (builder : Builder Cid Payload) (s : MemoryStorageManager)
      → ((node : DagNode Cid Payload) × ((store_node codec entity builder s).0
            ≡ ok (node.cid, node)))
        ↔ ((node : DagNode Cid Payload) × (bytes : Bytes) × (builder ≡ ok node)
            × (codec.encode node ≡ ok bytes)
            × (contains_key entity s.nodes ≡ true))
  unfolding store_node encoded store_blob write_in insert_in
  store_node_iff entity builder s = (
    λ (node, stored). elim (Result-cases builder) [
      | inr (e, failed) ↦ ground (arith, failed, stored)
      | inl (n, built) ↦ elim (Result-cases (codec.encode n)) [
        | inr (e, failed) ↦ ground (arith, built, failed, stored)
        | inl (bytes, written) ↦ (n, bytes, built, written, ground (arith, built, written, stored))
      ]
    ],
    λ (node, bytes, built, written, exists). (node, ground (arith, built, written, exists)),
  )

  module _ (lawful : LawfulCodec codec) where
    -- What is stored is found under its entity and its CID, and every other node of every entity is
    -- what it was.
    pub get_node-store_node :
        (entity : String) (builder : Builder Cid Payload) (cid : Cid) (node : DagNode Cid Payload)
        (s s' : MemoryStorageManager)
        → store_node codec entity builder s ≡ (ok (cid, node), s')
        → (get_node codec entity cid s' ≡ (ok (some node), s'))
          × ((other : String) (c : Cid)
              → (other ≢ entity) ⊎ (c ≢ cid)
              → (get_node codec other c s').0 ≡ (get_node codec other c s).0)
    unfolding get_node get_node_bytes
    get_node-store_node entity builder cid node s s' stored =
        let (bytes, built, id, written, held) = store_node_ok entity builder cid node s s' stored in
        let at : (n k : String)
            → get_in n k s'.nodes ≡ (
                if (entity == n) && (codec.to_string cid == k)
                then some bytes
                else get_in n k s.nodes) =
          λ n k. get_in-insert_in entity (codec.to_string cid) n k bytes s.nodes s'.nodes held in
        (
          ground (
            arith,
            at entity (codec.to_string cid),
            ==_iff entity entity,
            ==_iff (codec.to_string cid) (codec.to_string cid),
            lawful.decode-encode node bytes written,
          ),
          λ other c apart.
              let unchanged : get_in other (codec.to_string c) s'.nodes
                  ≡ get_in other (codec.to_string c) s.nodes =
                elim apart [
                  | inl entities ↦
                      ground (arith, at other (codec.to_string c), ==_iff entity other, entities)
                  | inr cids ↦ ground (
                    arith,
                    at other (codec.to_string c),
                    ==_iff (codec.to_string cid) (codec.to_string c),
                    lawful.to_string_inj cid c,
                    cids,
                  )
                ] in
              ground (arith, unchanged),
        )

  -- A batch that fails has stored the nodes before the one that failed, which stay.
  pub store_nodes_batch-prefix :
      (entity : String) (builders : List (Builder Cid Payload)) (fault : StorageFault)
      (s s' : MemoryStorageManager)
      → store_nodes_batch codec entity builders s ≡ (err fault, s')
      → (before after : List (Builder Cid Payload)) × (bad : Builder Cid Payload)
        × (mid : MemoryStorageManager) × (results : List (Cid × DagNode Cid Payload)) × (builders
            ≡ before ++ (bad ∷ after))
        × (store_nodes_batch codec entity before s ≡ (ok results, mid))
        × (store_node codec entity bad mid ≡ (err fault, s'))
        × (s'.nodes ≡ mid.nodes)
  unfolding store_nodes_batch
  store_nodes_batch-prefix entity [] fault s s' failed = ground (arith, failed)
  store_nodes_batch-prefix entity (b ∷ bs) fault s s' failed =
      elim (Result-cases (store_node codec entity b s).0) [
        | inr (e, wrong) ↦
            let here : store_node codec entity b s ≡ (err fault, s') =
              ground (arith, wrong, failed) in
            ([], bs, b, s, [], refl, refl, here, store_node_failed entity b fault s s' here)
        | inl (stored, fine) ↦
            let next = (store_node codec entity b s).1 in
            let later : store_nodes_batch codec entity bs next ≡ (err fault, s') =
              ground (arith, fine, failed) in
            let (before, after, bad, mid, results, parts, done, wrong, kept) =
              store_nodes_batch-prefix entity bs fault next s' later in
            (
              b ∷ before,
              after,
              bad,
              mid,
              stored ∷ results,
              ap (λ l. b ∷ l) parts,
              ground (arith, fine, done),
              wrong,
              kept,
            )
      ]

  -- A root opens its entity: it is stored if it can be built and encoded, and from then on every node
  -- that can be built and encoded is stored for the entity.
  pub store_node-store_new_dag_root :
      (entity : String) (root node : DagNode Cid Payload) (root_bytes bytes : Bytes)
      (s : MemoryStorageManager)
      → codec.encode root ≡ ok root_bytes
      → codec.encode node ≡ ok bytes
      → let (r, opened) = store_new_dag_root codec entity (ok root) s in
        (r ≡ ok (root.cid, root))
        × ((store_node codec entity (ok node) opened).0 ≡ ok (node.cid, node))
  unfolding store_new_dag_root store_node encoded store_blob write_in
  store_node-store_new_dag_root entity root node root_bytes bytes s h1 h2 =
      let opened = with_namespace entity s.nodes in
      let (nodes, held) =
        insert_in-succeeds entity (codec.to_string root.cid) root_bytes opened
          (with_namespace-exists entity s.nodes) in
      let exists : contains_key entity nodes ≡ true =
        insert_in-exists entity (codec.to_string root.cid) root_bytes opened nodes held in
      let (after, held') =
        insert_in-succeeds entity (codec.to_string node.cid) bytes nodes exists in
      (ground (arith, h1), ground (arith, h1, h2, held, held'))

  -- What is stored is contained.
  pub contains_node-store_node :
      (entity : String) (builder : Builder Cid Payload) (cid : Cid) (node : DagNode Cid Payload)
      (s s' : MemoryStorageManager)
      → store_node codec entity builder s ≡ (ok (cid, node), s')
      → contains_node codec entity cid s' ≡ (ok true, s')
  unfolding contains_node contains_in_namespace get_in
  contains_node-store_node entity builder cid node s s' stored =
      let (bytes, built, id, written, held) = store_node_ok entity builder cid node s s' stored in
      let found =
        get_in-insert_in entity (codec.to_string cid) entity (codec.to_string cid) bytes s.nodes
          s'.nodes held in
      ground
        (arith, found, ==_iff entity entity, ==_iff (codec.to_string cid) (codec.to_string cid))
