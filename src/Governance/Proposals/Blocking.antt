-- ===== src/Governance/Proposals/Blocking.antt =====
-- What the guard that `store_governance_config` keeps does to the other methods of
-- crates/runtime/icn-governance-kernel/src/lib.rs.
use icn.Prelude.{
  ℕ, ◌≡◌, inl, inr, refl, true, false, Option, none, some, String, List, Result, ok, err, arith,
  Option-cases, Result-cases,
}
use icn.Prelude.Int.{pos}
use icn.Prelude.Floats.{Floats}
use icn.Governance.Config.{GovernanceConfig}
use icn.Governance.Types.{
  Proposal, Vote, GovernanceEvent, RoleAssignmentOptions, config_updated, config_data,
  invalid_proposal, no_scope_id, storage_error, failed_to_serialize,
}
use icn.Governance.Kernel.{
  Environment, GovernanceKernel, Stop, deadlock, failed, with_storage, create_key_cid, serialize,
  emit_event, new_event,
}
use icn.Governance.Roles.{
  load_governance_config, get_verified_roles, get_assigned_roles, check_permission, assign_roles,
  config_key,
}
use icn.Governance.Proposals.{
  store_and_emit, get_proposal, process_proposal, record_vote, finalize_proposal, execute_proposal,
  store_governance_config,
}
use icn.Governance.Proposals.Guards.{WritesEvents, stuck_with, store_and_emit_stuck}

-- The answer of a method that looks at the scope before it takes the lock.
abbrev pub scope_answer : {A : Type 0} → Option String → Result Stop A
scope_answer none = err (failed (invalid_proposal no_scope_id))
scope_answer (some _) = err deadlock

-- The answer of a method that writes JSON before it takes the lock.
abbrev pub json_answer : {Json A : Type 0} → Result String Json → Result Stop A
json_answer (err t) = err (failed (storage_error (failed_to_serialize t)))
json_answer (ok _) = err deadlock

module _ {fl : Floats} {Store Cid Json Vc : Type 0} (env : Environment fl Store Cid Json)
    (k : GovernanceKernel Store Vc) (held : k.storage_held ≡ true) (now : ℕ) where
  load_waits : (a : String) → load_governance_config env a k ≡ (err deadlock, k)
  unfolding load_governance_config with_storage
  load_waits a = rw held refl

  permission_waits : (a b c : String) → check_permission env now a b c k ≡ (err deadlock, k)
  unfolding check_permission load_governance_config with_storage
  permission_waits a b c = rw held refl

  process_waits :
      (a : String) (p : Proposal) → process_proposal env now a p k ≡ (scope_answer p.scope_id, k)
  unfolding process_proposal
  process_waits a p = elim (Option-cases p.scope_id) [
    | inl absent ↦ rw absent refl
    | inr (x, present) ↦ ground (arith, present, permission_waits p.proposer x "create_proposals")
  ]

  vote_waits : (a : String) (v : Vote) → record_vote env now a v k ≡ (scope_answer v.scope_id, k)
  unfolding record_vote
  vote_waits a v = elim (Option-cases v.scope_id) [
    | inl absent ↦ rw absent refl
    | inr (x, present) ↦ ground (arith, present, permission_waits v.voter x "vote_on_proposals")
  ]

  store_waits :
      (key : String) (bytes : Json) (event : GovernanceEvent)
      → store_and_emit env key bytes event k ≡ (err deadlock, k)
  unfolding store_and_emit with_storage
  store_waits key bytes event = rw held refl

  config_waits :
      (a b : String) (c : GovernanceConfig fl)
      → store_governance_config env now a b c k ≡ (json_answer (env.config_serde.to_vec c), k)
  unfolding store_governance_config serialize
  config_waits a b c =
      let event =
        new_event a now config_updated "did:icn:system:governance" c.governing_scope (some b) none
          (config_data b c.template_type (pos now)) in
      elim (Result-cases (env.config_serde.to_vec c)) [
        | inl (bytes, written) ↦ ground (arith, written, store_waits (config_key b) bytes event)
        | inr (e, unwritten) ↦ rw unwritten refl
      ]

  emit_waits :
      (event : GovernanceEvent) → WritesEvents env → emit_event env event k ≡ (err deadlock, k)
  unfolding emit_event serialize with_storage
  emit_waits event writes = ground (arith, (writes event).1, held)

  roles_wait : (a b : String) → get_verified_roles env now a b k ≡ (err deadlock, k)
  unfolding get_verified_roles with_storage
  roles_wait a b = rw held refl

  assign_waits :
      (a b c : String) (roles : List String) (options : Option RoleAssignmentOptions)
      → assign_roles env now a b c roles options k ≡ (err deadlock, k)
  unfolding assign_roles load_governance_config with_storage
  assign_waits a b c roles options = rw held refl

  proposal_waits : (a : String) → get_proposal env now a k ≡ (err deadlock, k)
  unfolding get_proposal with_storage
  proposal_waits a = rw held refl

  final_waits :
      (a b : String)
      → (finalize_proposal env now a b k ≡ (err deadlock, k))
        × (execute_proposal env now a b k ≡ (err deadlock, k))
  unfolding finalize_proposal execute_proposal get_proposal with_storage
  final_waits a b = rw held (refl, refl)

-- Storing a configuration stores it and does not return, and no method that uses the storage
-- returns with success after it, whatever its time and arguments are, and none changes the kernel:
-- reading a proposal, the roles of a member or a configuration, checking a permission, assigning
-- roles, finalizing, executing and emitting an event wait for the lock. So do processing a proposal
-- and recording a vote, which without a scope report that before they take the lock, and storing a
-- configuration, which reports one that cannot be written as JSON before. The kernel is free before,
-- the first configuration and the events can be written as JSON, and the storage takes the first
-- configuration.
pub config_blocks_kernel :
    {fl : Floats} {Store Cid Json Vc : Type 0} (env : Environment fl Store Cid Json)
    (k : GovernanceKernel Store Vc) (now later : ℕ) (event_id scope_id a b c : String)
    (config other : GovernanceConfig fl) (bytes : Json) (store : Store) (p : Proposal) (v : Vote)
    (roles : List String) (options : Option RoleAssignmentOptions) (event : GovernanceEvent)
    → k.storage_held ≡ false
    → WritesEvents env
    → env.config_serde.to_vec config ≡ ok bytes
    → env.storage.put_kv (create_key_cid env (config_key scope_id)) bytes k.storage ≡ (ok tt, store)
    → let (r, k') = store_governance_config env now event_id scope_id config k in
      (r ≡ err deadlock)
      × (k'.storage ≡ store)
      × (get_proposal env later a k' ≡ (err deadlock, k'))
      × (get_verified_roles env later a b k' ≡ (err deadlock, k'))
      × (get_assigned_roles env later a b k' ≡ (err deadlock, k'))
      × (load_governance_config env a k' ≡ (err deadlock, k'))
      × (check_permission env later a b c k' ≡ (err deadlock, k'))
      × (assign_roles env later a b c roles options k' ≡ (err deadlock, k'))
      × (finalize_proposal env later a b k' ≡ (err deadlock, k'))
      × (execute_proposal env later a b k' ≡ (err deadlock, k'))
      × (emit_event env event k' ≡ (err deadlock, k'))
      × (process_proposal env later a p k' ≡ (scope_answer p.scope_id, k'))
      × (record_vote env later a v k' ≡ (scope_answer v.scope_id, k'))
      × (store_governance_config env later a b other k'
          ≡ (json_answer (env.config_serde.to_vec other), k'))
unfolding store_governance_config serialize get_assigned_roles
config_blocks_kernel env k now later event_id scope_id a b c config other bytes store p v roles
      options event free writes written stored =
    let first =
      new_event event_id now config_updated "did:icn:system:governance" config.governing_scope
        (some scope_id) none (config_data scope_id config.template_type (pos now)) in
    let stuck =
      store_and_emit_stuck env k free (config_key scope_id) bytes first store writes stored in
    let k' = stuck_with store k in
    let (final, done) = final_waits env k' refl later a b in
    rw (written, stuck)
      (
        refl,
        refl,
        proposal_waits env k' refl later a,
        roles_wait env k' refl later a b,
        roles_wait env k' refl later a b,
        load_waits env k' refl later a,
        permission_waits env k' refl later a b c,
        assign_waits env k' refl later a b c roles options,
        final,
        done,
        emit_waits env k' refl later event writes,
        process_waits env k' refl later a p,
        vote_waits env k' refl later a v,
        config_waits env k' refl later a b other,
      )
