-- ===== src/Governance/Proposals.antt =====
-- Proposals and votes: process_proposal, record_vote, finalize_proposal, execute_proposal,
-- get_proposal and store_governance_config of crates/runtime/icn-governance-kernel/src/lib.rs. In
-- each of them the guard of the storage lives until the method returns, over the call of emit_event.
pub mod Guards
pub mod Blocking
use Prim.Native.String.{◌++◌ as str_append}
use icn.Prelude.{
  ℕ, Bool, true, false, not, ◌||◌, Option, none, some, String, List, [], ◌∷◌, Result, ok, err,
  map_err, ok_or, if◌then◌else◌, ◌==◌,
}
use icn.Prelude.Int.{pos, add_i64}
use icn.Prelude.State.{Action, pure, lift, raise_if, ◌>>=◌, ◌>>◌}
use icn.Prelude.Floats.{Floats}
use icn.Identity.{Bytes}
use icn.Economics.Types.{individual}
use icn.Governance.Config.{GovernanceConfig}
use icn.Governance.Types.{
  Proposal, ProposalStatus, draft, active, finalized, executed, status_eq, Vote, GovernanceEvent,
  proposal_created, vote_cast, proposal_finalized, proposal_executed, config_updated, created_data,
  vote_data, finalized_data, executed_data, config_data, GovernanceError, ProposalFault,
  invalid_proposal, no_scope_id, cannot_serialize, cannot_deserialize, not_votable, unauthorized,
  storage_error, backend, failed_to_serialize,
}
use icn.Governance.Kernel.{
  Environment, Method, Stop, failed, joined, with_storage, create_key_cid, put_kv, serialize,
  new_event, emit_event,
}
use icn.Governance.Roles.{config_key, check_permission}

unfoldable pub proposal_key : String → String
proposal_key id = str_append "proposal::" id

unfoldable pub vote_key : (proposal_id voter : String) → String
vote_key proposal_id voter = joined ("vote::" ∷ proposal_id ∷ "::" ∷ voter ∷ [])

-- What `get_proposal` answers for a proposal that is not stored.
unfoldable pub dummy_proposal : (now : ℕ) → Proposal
dummy_proposal now = record {
  title = "Dummy Proposal";
  description = "This is a placeholder proposal for testing";
  proposer = "did:test:123";
  scope = individual;
  scope_id = none;
  status = draft;
  voting_end_time = add_i64 (pos now) (pos 86400);
  votes_for = 0;
  votes_against = 0;
  votes_abstain = 0;
  ccl_code = none;
  wasm_bytes = none;
  thread_id = none;
}

unfoldable pub is_votable : Proposal → Bool
is_votable p = p.status == active || p.status == draft

module _ {fl : Floats} {Store Cid Json : Type 0} (env : Environment fl Store Cid Json) where
  unfoldable pub calculate_id : Proposal → String
  calculate_id p = str_append "proposal:" (env.replace " " "-" (env.to_lowercase p.title))

  -- The end of the methods: under the guard of the storage a value is stored and an event emitted.
  unfoldable pub store_and_emit :
      {Vc : Type 0} → (key : String) → Json → GovernanceEvent → Method Store Vc (Unit {0})
  store_and_emit key bytes event =
      with_storage do put_kv env storage_error key bytes; _ ← emit_event env event; pure tt

  -- What is read under the key of a proposal.
  unfoldable pub read_proposal :
      (now : ℕ) → Result String (Option Json) → Result GovernanceError Proposal
  read_proposal now (err t) = err (storage_error (backend t))
  read_proposal now (ok none) = ok (dummy_proposal now)
  read_proposal now (ok (some bytes)) =
      map_err (λ t. invalid_proposal (cannot_deserialize t)) (env.proposal_serde.from_slice bytes)

module _ {fl : Floats} {Store Cid Json Vc : Type 0} (env : Environment fl Store Cid Json) where
  unfoldable pub get_proposal : (now : ℕ) (proposal_id : String) → Method Store Vc Proposal
  get_proposal now proposal_id = with_storage λ k. (
    map_err failed (
        read_proposal env now
          (env.storage.get_kv (create_key_cid env (proposal_key proposal_id)) k.storage)),
    k,
  )

  unfoldable pub process_proposal :
      (now : ℕ) (event_id : String) → Proposal → Method Store Vc String
  process_proposal now event_id p = do
    scope_id ← lift (ok_or p.scope_id (failed (invalid_proposal no_scope_id)))
    allowed ← check_permission env now p.proposer scope_id "create_proposals"
    raise_if (not allowed) (failed (unauthorized p.proposer "create_proposals" scope_id))
    bytes ← serialize env.proposal_serde (λ t. invalid_proposal (cannot_serialize t)) p
    store_and_emit env (proposal_key (calculate_id env p)) bytes (
        new_event event_id now proposal_created p.proposer p.scope p.scope_id
          (some (calculate_id env p)) (created_data p.title p.description p.proposer))
    pure (calculate_id env p)

  unfoldable pub record_vote : (now : ℕ) (event_id : String) → Vote → Method Store Vc (Unit {0})
  record_vote now event_id v = do
    scope_id ← lift (ok_or v.scope_id (failed (invalid_proposal no_scope_id)))
    allowed ← check_permission env now v.voter scope_id "vote_on_proposals"
    raise_if (not allowed) (failed (unauthorized v.voter "vote_on_proposals" scope_id))
    p ← get_proposal now v.proposal_id
    raise_if (not (is_votable p)) (failed (invalid_proposal (not_votable p.status)))
    bytes ← serialize env.vote_serde (λ t. storage_error (failed_to_serialize t)) v
    store_and_emit env (vote_key v.proposal_id v.voter) bytes (
        new_event event_id now vote_cast v.voter v.scope v.scope_id (some v.proposal_id)
          (vote_data v.voter v.choice v.weight v.reason))

  unfoldable pub finalize_proposal :
      (now : ℕ) (event_id proposal_id : String) → Method Store Vc (Unit {0})
  finalize_proposal now event_id proposal_id = do
    p ← get_proposal now proposal_id
    bytes ←
        serialize env.proposal_serde (λ t. invalid_proposal (cannot_serialize t))
          (record p { status = finalized })
    store_and_emit env (proposal_key proposal_id) bytes (
        new_event event_id now proposal_finalized p.proposer p.scope p.scope_id (some proposal_id)
          (finalized_data p.title finalized p.votes_for p.votes_against p.votes_abstain))

  unfoldable pub execute_proposal :
      (now : ℕ) (event_id proposal_id : String) → Method Store Vc (Unit {0})
  execute_proposal now event_id proposal_id = do
    p ← get_proposal now proposal_id
    bytes ←
        serialize env.proposal_serde (λ t. invalid_proposal (cannot_serialize t))
          (record p { status = executed })
    store_and_emit env (proposal_key proposal_id) bytes (
        new_event event_id now proposal_executed p.proposer p.scope p.scope_id (some proposal_id)
          (executed_data p.title (pos now)))

  unfoldable pub store_governance_config :
      (now : ℕ) (event_id scope_id : String) → GovernanceConfig fl → Method Store Vc (Unit {0})
  store_governance_config now event_id scope_id c = do
    bytes ← serialize env.config_serde (λ t. storage_error (failed_to_serialize t)) c
    store_and_emit env (config_key scope_id) bytes (
        new_event event_id now config_updated "did:icn:system:governance" c.governing_scope
          (some scope_id) none (config_data scope_id c.template_type (pos now)))
