-- ===== src/Vm/Tests/Stored.antt =====
-- A witness on the host calls over the storage in memory: crates/runtime/icn-core-vm/src.
use icn.Prelude.{ℕ, ◌*◌, ◌≡◌, refl, true, [], ◌∷◌, ok, arith, length, list_beq, string_eq}
use icn.Prelude.Map.{get, insert}
use icn.Storage.Memory as Memory
use icn.Storage.Memory.{MemoryStorageManager, insert_in, with_namespace}
use icn.Storage.Tests.{node, codec, rooted, tally}
use icn.Vm.{
  HostEnvironment, new_host, limit_of, resource_beq, used, record_resource_consumption,
  record_compute_usage, record_storage_usage, check_total,
}
use icn.Vm.HostCalls.{store_dag_node, contains_dag_node, store_node, read_cids, metadata_of}
use icn.Vm.HostCalls.Stored.{Encodings, memory_dag, contains_dag_node-store_dag_node}
use icn.Vm.Tests.{context}

abbrev encodings : Encodings ℕ ℕ Unit
encodings = record {
  codec = codec;
  text = λ fault. "storage";
  build = λ b. ok (node (length b.parents) b.payload);
  decode_payload = λ bytes. ok (length bytes * 10);
  decode_metadata = λ bytes. ok tt;
  default_metadata = λ now. tt;
  read_cid = λ bytes. ok (length bytes);
  json_length = λ n. ok 5;
}

abbrev guest : HostEnvironment MemoryStorageManager
guest = new_host rooted

abbrev written : HostEnvironment MemoryStorageManager
written =
    (store_dag_node (memory_dag encodings) context 7 "ada" (1 ∷ 2 ∷ []) ([] ∷ [] ∷ []) [] []
      guest).1

contains_dag_node-store_dag_node_example :
    (contains_dag_node (memory_dag encodings) context "ada" (9 ∷ 9 ∷ []) written).0 ≡ ok true
unfolding store_dag_node store_node memory_dag read_cids metadata_of new_host record_compute_usage
    record_storage_usage record_resource_consumption check_total used limit_of resource_beq get
    insert list_beq tally Memory.store_node Memory.store_new_dag_root Memory.encoded
    Memory.store_blob Memory.write_in Memory.new_storage insert_in with_namespace
contains_dag_node-store_dag_node_example =
    contains_dag_node-store_dag_node encodings context 7 "ada" (1 ∷ 2 ∷ []) ([] ∷ [] ∷ []) [] []
      (9 ∷ 9 ∷ []) 2 guest written refl refl (omega arith) (omega arith)
