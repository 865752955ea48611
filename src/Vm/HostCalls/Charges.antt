-- ===== src/Vm/HostCalls/Charges.antt =====
-- What the host calls of crates/runtime/icn-core-vm/src/lib.rs do before and after they are charged.
use icn.Prelude.{
  ℕ, ◌+◌, ◌≤◌, ◌<◌, ◌≡◌, ◌≢◌, refl, String, List, Result, ok, err, arith, u64_mod, ==_iff,
  string_eq,
}
use icn.Identity.{Bytes}
use icn.Economics.Policy.{scope_eq, scope_beq}
use icn.Vm.{
  ResourceType, compute, storage, VmContext, HostEnvironment, limit_exceeded, limit_of,
  not_administrator, not_authorized, record_resource_consumption, record_compute_usage,
  record_storage_usage, used, resource_beq,
}
use icn.Vm.Metering.{charge_accepted, charge_refused}
use icn.Vm.HostCalls.{
  Dag, read_cids, metadata_of, store_node, store_dag_node, caller_scope, mint_tokens,
  transfer_resources,
}

module _ {D : Type 0} (ctx : VmContext) where
  -- Tokens are never minted, since the scope of the caller is always Individual, and resources are
  -- moved for nobody but the caller; both refusals change nothing.
  pub tokens_refused :
      (resource : ResourceType) (from to key : String) (bytes : Result String Bytes)
      (s : HostEnvironment D)
      → ctx.caller_did ≢ from
      → (mint_tokens ctx resource key bytes s ≡ (err not_administrator, s))
        × (transfer_resources ctx from to key bytes s
            ≡ (err (not_authorized ctx.caller_did from), s))
  unfolding mint_tokens transfer_resources caller_scope scope_beq
  tokens_refused resource from to key bytes s other =
      (refl, ground (arith, ==_iff ctx.caller_did from, other))

module _ {D Cid Payload Metadata Node : Type 0} (dag : Dag D Cid Payload Metadata Node)
    (ctx : VmContext) where
  -- A node whose storage exceeds the limit is refused with an error, and is stored all the same: its
  -- size is charged after it has been written.
  pub oversized_node_is_stored :
      (now : ℕ) (entity_did : String) (payload : Bytes) (parents : List Bytes)
      (signature metadata : Bytes) (decoded : Payload) (cids : List Cid) (m : Metadata) (cid : Cid)
      (node : Node) (d : D) (size : ℕ) (s : HostEnvironment D)
      → used compute s + 2000 < u64_mod
      → used compute s + 2000 ≤ limit_of compute ctx.resource_authorizations
      → dag.decode_payload payload ≡ ok decoded
      → read_cids dag.read_cid parents ≡ ok cids
      → metadata_of dag now metadata ≡ ok m
      → dag.store_node entity_did
          (record { issuer = entity_did; payload = decoded; parents = cids; metadata = m })
          s.dag_storage
        ≡ (ok (cid, node), d)
      → dag.json_length node ≡ ok size
      → used storage s + size < u64_mod
      → limit_of storage ctx.resource_authorizations < used storage s + size
      → let (r, s') = store_dag_node dag ctx now entity_did payload parents signature metadata s in
        (r
          ≡ err (
              limit_exceeded storage
                (used storage s + size)
                (limit_of storage ctx.resource_authorizations)))
        × (s'.dag_storage ≡ d)
        × (used storage s' ≡ used storage s)
  unfolding store_dag_node store_node record_compute_usage record_storage_usage used resource_beq
  oversized_node_is_stored now entity_did payload parents signature metadata decoded cids m cid node
        d size s fits allowed read_payload read_parents read_metadata stored sized small over =
      let s1 = (record_resource_consumption ctx compute 2000 s).1 in
      let s2 = record s1 { dag_storage = d } in
      let (started, same_dag, same_use) =
        charge_accepted ctx storage compute 2000 s fits allowed refl in
      let small' : used storage s2 + size < u64_mod = ground (arith, same_use) in
      let over' : limit_of storage ctx.resource_authorizations < used storage s2 + size =
        ground (arith, same_use) in
      let (refused, last_dag, last_use) = charge_refused ctx storage size s2 small' over' in
      ground (
        arith, started, same_dag, same_use, read_payload, read_parents, read_metadata, stored,
        sized, refused, last_dag, last_use,
      )
