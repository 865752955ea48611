-- ===== src/Vm/Tests.antt =====
-- Runs and witnesses for crates/runtime/icn-core-vm/src.
mod Stored
use icn.Prelude.{
  ℕ, ◌+◌, ◌≤◌, ◌≡◌, refl, false, none, List, [], ◌∷◌, ok, err, arith, length, ne_of_beq, string_eq,
}
use icn.Prelude.Map.{get, insert}
use icn.Vm.{
  ResourceType, compute, storage, VmContext, HostEnvironment, limit_exceeded, not_administrator,
  not_authorized, limit_of, resource_beq, add_consumption, consumption_of, new_host,
  record_resource_consumption, check_total, used,
}
use icn.Vm.Metering.{run, accepted, used-run}
use icn.Vm.HostCalls.{Dag, store_dag_node, mint_tokens, transfer_resources, read_cids, metadata_of}
use icn.Vm.HostCalls.Charges.{tokens_refused, oversized_node_is_stored}

abbrev pub context : VmContext
context = record {
  caller_did = "ada";
  resource_authorizations =
      record { resource_type = compute; limit = 3000; context = none; description = "" }
      ∷ record { resource_type = storage; limit = 10; context = none; description = "" }
      ∷ [];
}

abbrev host : HostEnvironment (List ℕ)
host = new_host []

abbrev calls : List (ResourceType × ℕ)
calls = (compute, 2500) ∷ (compute, 600) ∷ (storage, 4) ∷ (compute, 500) ∷ []

-- The second call is over the limit.
run_compute :
    (used compute (run context calls host) ≡ 3000) × (accepted context compute calls host ≡ 3000)
unfolding record_resource_consumption check_total used limit_of resource_beq get insert new_host
run_compute = (refl, refl)

no_overflow :
    add_consumption compute 5 (record {
      compute_used = 0xffffffffffffffff;
      storage_used = 0;
      network_used = 0;
      token_used = 0;
    })
    ≡ err compute
unfolding add_consumption consumption_of
no_overflow = refl

used-run_example :
    (used compute (run context calls host)
      ≡ used compute host + accepted context compute calls host)
    × (used compute (run context calls host) ≤ limit_of compute context.resource_authorizations)
unfolding limit_of resource_beq used new_host get
used-run_example = used-run context compute calls host (omega arith)

-- A DAG storage that keeps the issuers' payloads; every node is twelve bytes long.
abbrev dag : Dag (List ℕ) ℕ ℕ Unit ℕ
dag = record {
  store_node = λ did b d. (ok (length d, b.payload), b.payload ∷ d);
  get_node_bytes = λ did cid d. ok none;
  contains_node = λ did cid d. ok false;
  decode_payload = λ bytes. ok (length bytes);
  decode_metadata = λ bytes. ok tt;
  default_metadata = λ now. tt;
  read_cid = λ bytes. ok (length bytes);
  json_length = λ n. ok 12;
}

oversized_node_is_stored_example :
    let (r, s') = store_dag_node dag context 7 "ada" (1 ∷ 2 ∷ []) [] [] [] host in
    (r ≡ err (limit_exceeded storage 12 10)) × (s'.dag_storage ≡ 2 ∷ []) × (used storage s' ≡ 0)
unfolding limit_of resource_beq used new_host get read_cids metadata_of
oversized_node_is_stored_example =
    oversized_node_is_stored dag context 7 "ada" (1 ∷ 2 ∷ []) [] [] [] 2 [] tt 0 2 (2 ∷ []) 12 host
      (omega arith) (omega arith) refl refl refl refl refl (omega arith) (omega arith)
