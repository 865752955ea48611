-- ===== src/Vm/HostCalls/Stored.antt =====
-- The host calls of crates/runtime/icn-core-vm/src/lib.rs on the storage MemoryStorageManager of
-- crates/runtime/icn-storage/src/lib.rs.
use icn.Prelude.{
  ℕ, ◌+◌, ◌≤◌, ◌<◌, ◌≡◌, refl, inl, inr, sym, true, String, List, Result, ok, map_err, Result-cases,
  arith, u64_mod, string_eq,
}
use icn.Identity.{Bytes}
use icn.Storage.Types.{DagNode, StorageFault, Builder, Codec}
use icn.Storage.Memory as Memory
use icn.Storage.Memory.{MemoryStorageManager, get_node_bytes, contains_node}
use icn.Storage.Memory.Keeping.{contains_node-store_node}
use icn.Vm.{
  ResourceType, compute, storage, VmContext, HostEnvironment, limit_of, record_resource_consumption,
  record_compute_usage, record_storage_usage, used, resource_beq,
}
use icn.Vm.Metering.{charge_accepted}
use icn.Vm.HostCalls.{
  NodeBuilder, Dag, read_cids, metadata_of, store_node, store_dag_node, contains_dag_node,
}

-- What the host calls use beside the storage: the texts of its faults, `build`, and the encodings.
pub record Encodings (Cid Payload Metadata : Type 0) : Type 0 where
  pub codec : Codec Cid Payload
  pub text : StorageFault → String
  pub build : NodeBuilder Cid Payload Metadata → Builder Cid Payload
  pub decode_payload : Bytes → Result String Payload
  pub decode_metadata : Bytes → Result String Metadata
  pub default_metadata : ℕ → Metadata
  pub read_cid : Bytes → Result String Cid
  pub json_length : DagNode Cid Payload → Result String ℕ

-- The storage as the host calls see it.
unfoldable pub memory_dag :
    {Cid Payload Metadata : Type 0}
    → Encodings Cid Payload Metadata
    → Dag MemoryStorageManager Cid Payload Metadata (DagNode Cid Payload)
memory_dag enc = record {
  store_node = λ did b d.
      let (r, d') = Memory.store_node enc.codec did (enc.build b) d in (map_err enc.text r, d');
  get_node_bytes = λ did cid d. map_err enc.text (get_node_bytes enc.codec did cid d).0;
  contains_node = λ did cid d. map_err enc.text (contains_node enc.codec did cid d).0;
  decode_payload = enc.decode_payload;
  decode_metadata = enc.decode_metadata;
  default_metadata = enc.default_metadata;
  read_cid = enc.read_cid;
  json_length = enc.json_length;
}

module _ {Cid Payload Metadata : Type 0} (enc : Encodings Cid Payload Metadata)
    (ctx : VmContext) where
  charge_keeps_dag :
      (t : ResourceType) (amount : ℕ) (s : HostEnvironment MemoryStorageManager)
      → (record_resource_consumption ctx t amount s).1.dag_storage ≡ s.dag_storage
  unfolding record_resource_consumption
  charge_keeps_dag t amount s = ground arith

  stored_in_memory :
      (now : ℕ) (entity_did : String) (payload : Bytes) (parents : List Bytes)
      (signature metadata : Bytes) (cid : Cid) (s s' : HostEnvironment MemoryStorageManager)
      → store_dag_node (memory_dag enc) ctx now entity_did payload parents signature metadata s
        ≡ (ok cid, s')
      → (builder : Builder Cid Payload) × (node : DagNode Cid Payload)
        × (before : MemoryStorageManager) × (Memory.store_node enc.codec entity_did builder before
            ≡ (ok (cid, node), s'.dag_storage))
  unfolding store_dag_node memory_dag store_node record_compute_usage record_storage_usage
  stored_in_memory now entity_did payload parents signature metadata cid s s' stored =
      let s1 = (record_resource_consumption ctx compute 2000 s).1 in
      elim (Result-cases (record_resource_consumption ctx compute 2000 s).0) [
        | inr (f, failed) ↦ ground (arith, failed, stored)
        | inl (u, charged) ↦ elim (Result-cases (enc.decode_payload payload)) [
          | inr (f, failed) ↦ ground (arith, charged, failed, stored)
          | inl (decoded, fine) ↦ elim (Result-cases (read_cids enc.read_cid parents)) [
            | inr (f, failed) ↦ ground (arith, charged, fine, failed, stored)
            | inl (cids, read) ↦ elim (Result-cases (metadata_of (memory_dag enc) now metadata)) [
              | inr (f, failed) ↦ ground (arith, charged, fine, read, failed, stored)
              | inl (m, known) ↦
                  let b = enc.build (record {
                    issuer = entity_did;
                    payload = decoded;
                    parents = cids;
                    metadata = m;
                  }) in
                  elim (Result-cases (Memory.store_node enc.codec entity_did b s1.dag_storage).0) [
                    | inr (f, failed) ↦ ground (arith, charged, fine, read, known, failed, stored)
                    | inl ((c, n), done) ↦
                        let s2 = record s1 {
                          dag_storage = (Memory.store_node enc.codec entity_did b s1.dag_storage).1;
                        } in
                        elim (Result-cases (enc.json_length n)) [
                          | inr (f, failed) ↦
                              ground (arith, charged, fine, read, known, done, failed, stored)
                          | inl (size, sized) ↦
                              elim (Result-cases
                                (record_resource_consumption ctx storage size s2).0) [
                                  | inr (f, failed) ↦ ground (
                                    arith, charged, fine, read, known, done, sized, failed, stored,
                                  )
                                  | inl (v, paid) ↦
                                      let id : c ≡ cid = ground (
                                        arith, charged, fine, read, known, done, sized, paid,
                                        stored,
                                      ) in
                                      let last : (record_resource_consumption ctx storage size s2).1
                                          ≡ s' =
                                        ground (
                                          arith, charged, fine, read, known, done, sized, paid,
                                          stored,
                                        ) in
                                      let kept = charge_keeps_dag storage size s2 in
                                      (
                                        b,
                                        n,
                                        s1.dag_storage,
                                        ground (arith, done, id, sym last, kept),
                                      )
                                ]
                        ]
                  ]
            ]
          ]
        ]
      ]

  -- A node that a guest has stored is found by the guest under the CID that the call returned.
  pub contains_dag_node-store_dag_node :
      (now : ℕ) (entity_did : String) (payload : Bytes) (parents : List Bytes)
      (signature metadata cid_bytes : Bytes) (cid : Cid)
      (s s' : HostEnvironment MemoryStorageManager)
      → store_dag_node (memory_dag enc) ctx now entity_did payload parents signature metadata s
        ≡ (ok cid, s')
      → enc.read_cid cid_bytes ≡ ok cid
      → used compute s' + 200 < u64_mod
      → used compute s' + 200 ≤ limit_of compute ctx.resource_authorizations
      → (contains_dag_node (memory_dag enc) ctx entity_did cid_bytes s').0 ≡ ok true
  unfolding contains_dag_node memory_dag record_compute_usage resource_beq
  contains_dag_node-store_dag_node now entity_did payload parents signature metadata cid_bytes cid s
        s' stored read fits allowed =
      let (builder, node, before, kept) =
        stored_in_memory now entity_did payload parents signature metadata cid s s' stored in
      let (started, same_dag, same_use) =
        charge_accepted ctx storage compute 200 s' fits allowed refl in
      let found =
        contains_node-store_node enc.codec entity_did builder cid node before s'.dag_storage kept in
      ground (arith, started, same_dag, read, found)
