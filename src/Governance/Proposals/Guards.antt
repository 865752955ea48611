-- ===== src/Governance/Proposals/Guards.antt =====
-- The guard of the storage in the methods of crates/runtime/icn-governance-kernel/src/lib.rs that
-- store a value and emit an event: whether they return.
use icn.Prelude.{
  ◌≡◌, ◌≢◌, refl, ap, sym, ◌∙◌, Bool, PartialEq, ==-refl, true, false, none, some, String, ok, err,
  arith, ℕ,
}
use icn.Prelude.State.{Action}
use icn.Prelude.Int.{pos}
use icn.Prelude.Floats.{Floats}
use icn.Prelude.Serde.{ReadsBack}
use icn.Governance.Config.{GovernanceConfig}
use icn.Governance.Types.{
  Proposal, Vote, GovernanceEvent, executed, proposal_executed, executed_data, vote_cast, vote_data,
  status_beq,
}
use icn.Governance.Kernel.{
  Environment, LawfulBackend, GovernanceKernel, deadlock, with_storage, create_key_cid, put_kv,
  serialize, emit_event, new_event,
}
use icn.Governance.Roles.{check_permission}
use icn.Governance.Proposals.{
  store_and_emit, get_proposal, process_proposal, record_vote, finalize_proposal, execute_proposal,
  store_governance_config, proposal_key, read_proposal, vote_key, is_votable, dummy_proposal,
}

-- A method that never succeeds.
abbrev pub NeverSucceeds : {S E A : Type 0} → Action S E A → Type 0
NeverSucceeds {S} {E} {A} m = (s : S) (a : A) → (m s).0 ≢ ok a

module _ {fl : Floats} {Store Cid Json Vc : Type 0} (env : Environment fl Store Cid Json) where
  store_and_emit_fails :
      (key : String) (bytes : Json) (event : GovernanceEvent)
      → NeverSucceeds (store_and_emit env {Vc = Vc} key bytes event)
  unfolding store_and_emit with_storage put_kv emit_event serialize
  store_and_emit_fails key bytes event k a h = ground (arith, h)

  -- Nothing is ever processed, recorded, finalized, executed or configured with success: the five
  -- methods that store a value and emit an event never return ok, in no state and whatever the
  -- storage, the identity and the arguments are.
  pub writers_never_succeed :
      (now : ℕ) (event_id id : String) (p : Proposal) (v : Vote) (c : GovernanceConfig fl)
      (k : GovernanceKernel Store Vc) (answer : String)
      → ((process_proposal env now event_id p k).0 ≢ ok answer)
        × ((record_vote env now event_id v k).0 ≢ ok tt)
        × ((finalize_proposal env now event_id id k).0 ≢ ok tt)
        × ((execute_proposal env now event_id id k).0 ≢ ok tt)
        × ((store_governance_config env now event_id id c k).0 ≢ ok tt)
  unfolding process_proposal record_vote finalize_proposal execute_proposal store_governance_config
  writers_never_succeed now event_id id p v c k answer = (
    λ h. grind (arith, store_and_emit_fails),
    λ h. grind (arith, store_and_emit_fails),
    λ h. grind (arith, store_and_emit_fails),
    λ h. grind (arith, store_and_emit_fails),
    λ h. grind (arith, store_and_emit_fails),
  )

-- The events that the kernel emits can be written as JSON.
abbrev pub WritesEvents :
    {fl : Floats} {Store Cid Json : Type 0} → Environment fl Store Cid Json → Type 0
WritesEvents {Json = Json} env =
    (e : GovernanceEvent) → (bytes : Json) × (env.event_serde.to_vec e ≡ ok bytes)

-- The state after a method that has stored a value and waits for its own lock.
abbrev pub stuck_with :
    {Store Vc : Type 0} → Store → GovernanceKernel Store Vc → GovernanceKernel Store Vc
stuck_with store k = record k { storage = store; storage_held = true }

module _ {fl : Floats} {Store Cid Json Vc : Type 0} (env : Environment fl Store Cid Json)
    (k : GovernanceKernel Store Vc) (free : k.storage_held ≡ false) where
  released : record k { storage_held = false } ≡ k
  released = ap (λ (b : Bool). record k { storage_held = b }) (sym free)

  pub store_and_emit_stuck :
      (key : String) (bytes : Json) (event : GovernanceEvent) (store : Store)
      → WritesEvents env
      → env.storage.put_kv (create_key_cid env key) bytes k.storage ≡ (ok tt, store)
      → store_and_emit env key bytes event k ≡ (err deadlock, stuck_with store k)
  unfolding store_and_emit with_storage put_kv emit_event serialize
  store_and_emit_stuck key bytes event store writes stored =
      ap (store_and_emit env key bytes event) (sym released)
      ∙ ground (arith, stored, (writes event).1)

  get_proposal_free :
      (now : ℕ) (id : String) (p : Proposal)
      → read_proposal env now (env.storage.get_kv (create_key_cid env (proposal_key id)) k.storage)
        ≡ ok p
      → get_proposal env now id k ≡ (ok p, k)
  unfolding get_proposal with_storage
  get_proposal_free now id p found =
      ap (get_proposal env now id) (sym released) ∙ ground (arith, found, released)

  execute_proposal_stuck :
      (now : ℕ) (event_id id : String) (p : Proposal) (bytes : Json) (store : Store)
      → WritesEvents env
      → read_proposal env now (env.storage.get_kv (create_key_cid env (proposal_key id)) k.storage)
        ≡ ok p
      → env.proposal_serde.to_vec (record p { status = executed }) ≡ ok bytes
      → env.storage.put_kv (create_key_cid env (proposal_key id)) bytes k.storage ≡ (ok tt, store)
      → execute_proposal env now event_id id k ≡ (err deadlock, stuck_with store k)
  unfolding execute_proposal serialize
  execute_proposal_stuck now event_id id p bytes store writes found written stored =
      let event =
        new_event event_id now proposal_executed p.proposer p.scope p.scope_id (some id)
          (executed_data p.title (pos now)) in
      ground (
        arith,
        get_proposal_free now id p found,
        written,
        store_and_emit_stuck (proposal_key id) bytes event store writes stored,
      )

  -- The proposal is executed whatever its status is, and the method does not return: it waits for
  -- the lock on the storage that it holds itself, with the status Executed already stored. The events
  -- and proposals can be written as JSON and are read back, and the storage keeps what it takes.
  pub execute_proposal_any_status :
      ⦃e : PartialEq Cid⦄
      → (now : ℕ) (event_id id : String) (p : Proposal) (bytes : Json) → LawfulBackend env.storage
      → WritesEvents env
      → ReadsBack env.proposal_serde
      → read_proposal env now (env.storage.get_kv (create_key_cid env (proposal_key id)) k.storage)
        ≡ ok p
      → env.proposal_serde.to_vec (record p { status = executed }) ≡ ok bytes
      → (env.storage.put_kv (create_key_cid env (proposal_key id)) bytes k.storage).0 ≡ ok tt
      → let (r, k') = execute_proposal env now event_id id k in
        (r ≡ err deadlock)
        × (k'.storage_held ≡ true)
        × (read_proposal env now
              (env.storage.get_kv (create_key_cid env (proposal_key id)) k'.storage)
            ≡ ok (record p { status = executed }))
  unfolding read_proposal
  execute_proposal_any_status now event_id id p bytes lawful writes reads found written stored =
      let key = create_key_cid env (proposal_key id) in
      let kept = env.storage.put_kv key bytes k.storage in
      let whole =
        execute_proposal_stuck now event_id id p bytes kept.1 writes found written
          (ap (λ r. (r, kept.1)) stored) in
      let back = lawful.get-put key key bytes k.storage stored in
      rw whole (refl, refl, rw (back, ==-refl key, reads _ bytes written) refl)

  -- A vote on a proposal that is not stored is taken: a member with the permission to vote gets the
  -- vote stored, since a placeholder in the status Draft stands for the missing proposal. The method
  -- then waits for the lock that it holds.
  pub missing_proposal_takes_votes :
      (now : ℕ) (event_id scope_id : String) (v : Vote) (bytes : Json) (store : Store)
      → WritesEvents env
      → v.scope_id ≡ some scope_id
      → check_permission env now v.voter scope_id "vote_on_proposals" k ≡ (ok true, k)
      → env.storage.get_kv (create_key_cid env (proposal_key v.proposal_id)) k.storage ≡ ok none
      → env.vote_serde.to_vec v ≡ ok bytes
      → env.storage.put_kv (create_key_cid env (vote_key v.proposal_id v.voter)) bytes k.storage
        ≡ (ok tt, store)
      → record_vote env now event_id v k ≡ (err deadlock, stuck_with store k)
  unfolding record_vote serialize is_votable dummy_proposal read_proposal status_beq
  missing_proposal_takes_votes now event_id scope_id v bytes store writes scoped allowed missing
        written stored =
      let event =
        new_event event_id now vote_cast v.voter v.scope v.scope_id (some v.proposal_id)
          (vote_data v.voter v.choice v.weight v.reason) in
      ground (
        arith,
        scoped,
        allowed,
        get_proposal_free now v.proposal_id (dummy_proposal now) (rw missing refl),
        written,
        store_and_emit_stuck (vote_key v.proposal_id v.voter) bytes event store writes stored,
      )
