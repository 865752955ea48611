-- ===== src/Governance/Tests/Guards.antt =====
-- Witnesses on proposals of crates/runtime/icn-governance-kernel/src/lib.rs.
use icn.Prelude.{◌≡◌, ◌≢◌, refl, true, none, some, String, [], ◌∷◌, ok, err, string_eq, nat_eq}
use icn.Prelude.Int.{pos}
use icn.Prelude.Map.{Map, get, insert}
use icn.Economics.Types.{cooperative}
use icn.Governance.Types.{
  Proposal, rejected, executed, Vote, for, GovernanceEvent, proposal_created, created_data,
}
use icn.Governance.Kernel.{
  GovernanceKernel, deadlock, create_key_cid, with_storage, put_kv, serialize, emit_event,
  new_event,
}
use icn.Identity.{sign}
use icn.Governance.Credentials.{credential_key, index_key, signature_of, is_expired}
use icn.Governance.Roles.{
  load_governance_config, get_verified_roles, get_assigned_roles, check_permission, assign_roles,
  config_key, check_roles, check_defined, store_credential, new_credential_id, new_credential,
  default_options, old_index, defined_roles, grants,
}
use icn.Governance.Roles.Permission.{check_permission-assign_roles}
use icn.Governance.Proposals.{
  process_proposal, record_vote, finalize_proposal, execute_proposal, store_governance_config,
  get_proposal, read_proposal, proposal_key, vote_key,
}
use icn.Governance.Proposals.Guards.{
  WritesEvents, stuck_with, writers_never_succeed, execute_proposal_any_status,
  missing_proposal_takes_votes,
}
use icn.Governance.Proposals.Blocking.{scope_answer, config_blocks_kernel}
use icn.Governance.Tests.{
  Stored, a_proposal, a_vote, a_config, an_event, lawful, world, bylaws, kernel, run, run_id,
  world-Reliable, world-ReadsBack, fresh_id, no_roles,
}

abbrev refused_proposal : Proposal
refused_proposal = record {
  title = "Buy a tractor";
  description = "";
  proposer = "ada";
  scope = cooperative;
  scope_id = some "coop";
  status = rejected;
  voting_end_time = pos 50;
  votes_for = 1;
  votes_against = 7;
  votes_abstain = 0;
  ccl_code = none;
  wasm_bytes = none;
  thread_id = none;
}

abbrev kernel_with_proposal : GovernanceKernel (Map String Stored) Unit
kernel_with_proposal = record kernel {
  storage = ("proposal::p1", a_proposal refused_proposal) ∷ [];
}

abbrev ada_votes : Vote
ada_votes = record {
  voter = "ada";
  proposal_id = "nowhere";
  choice = for;
  weight = 1;
  scope = cooperative;
  scope_id = some "coop";
  reason = none;
  timestamp = pos 150;
}

writes : WritesEvents world
writes e = (an_event e, refl)

writers_never_succeed_example :
    ((process_proposal world 60 "e1" refused_proposal kernel).0 ≢ ok "proposal:Buy a tractor")
    × ((record_vote world 60 "e1" ada_votes kernel).0 ≢ ok tt)
    × ((finalize_proposal world 60 "e1" "p1" kernel).0 ≢ ok tt)
    × ((execute_proposal world 60 "e1" "p1" kernel).0 ≢ ok tt)
    × ((store_governance_config world 60 "e1" "p1" bylaws kernel).0 ≢ ok tt)
writers_never_succeed_example =
    writers_never_succeed world 60 "e1" "p1" refused_proposal ada_votes bylaws kernel
      "proposal:Buy a tractor"

execute_proposal_any_status_example :
    let (r, k') = execute_proposal world 60 "e1" "p1" kernel_with_proposal in
    (r ≡ err deadlock)
    × (k'.storage_held ≡ true)
    × (read_proposal world 60 (ok (get "proposal::p1" k'.storage))
        ≡ ok (record refused_proposal { status = executed }))
unfolding get read_proposal proposal_key create_key_cid
execute_proposal_any_status_example =
    execute_proposal_any_status world kernel_with_proposal refl 60 "e1" "p1" refused_proposal
      (a_proposal (record refused_proposal { status = executed })) lawful writes world-ReadsBack
      refl refl refl

may_vote : check_permission world 200 "ada" "coop" "vote_on_proposals" run.1 ≡ (ok true, run.1)
unfolding assign_roles load_governance_config with_storage put_kv serialize create_key_cid
    config_key get insert check_roles check_defined signature_of sign store_credential
    new_credential_id new_credential default_options old_index credential_key index_key is_expired
    defined_roles grants
may_vote =
    check_permission-assign_roles world 100 200 "u1" "ada" "coop" fresh_id "vote_on_proposals"
      ("member" ∷ []) [] none bylaws (a_config bylaws) _ kernel run.1 kernel world-Reliable refl
      refl refl refl refl no_roles run_id tt refl

missing_proposal_takes_votes_example : record_vote world 200 "e1" ada_votes run.1 ≡ (
  err deadlock,
  stuck_with (insert "vote::nowhere::ada" (a_vote ada_votes) run.1.storage) run.1,
)
unfolding proposal_key vote_key assign_roles load_governance_config with_storage put_kv serialize
    create_key_cid config_key get insert check_roles check_defined signature_of sign
    store_credential new_credential_id new_credential default_options old_index credential_key
    index_key
missing_proposal_takes_votes_example =
    missing_proposal_takes_votes world run.1 refl 200 "e1" "coop" ada_votes (a_vote ada_votes)
      (insert "vote::nowhere::ada" (a_vote ada_votes) run.1.storage) writes refl may_vote refl refl
      refl

abbrev unscoped : Proposal
unscoped = record refused_proposal { scope_id = none }

abbrev later_event : GovernanceEvent
later_event =
    new_event "e3" 61 proposal_created "ada" cooperative none none (created_data "" "" "ada")

config_blocks_kernel_example :
    let (r, k') = store_governance_config world 60 "e1" "coop" bylaws kernel in
    (r ≡ err deadlock)
    × (k'.storage ≡ kernel.storage)
    × (get_proposal world 61 "p1" k' ≡ (err deadlock, k'))
    × (get_verified_roles world 61 "p1" "coop" k' ≡ (err deadlock, k'))
    × (get_assigned_roles world 61 "p1" "coop" k' ≡ (err deadlock, k'))
    × (load_governance_config world "p1" k' ≡ (err deadlock, k'))
    × (check_permission world 61 "p1" "coop" "vote_on_proposals" k' ≡ (err deadlock, k'))
    × (assign_roles world 61 "p1" "coop" "vote_on_proposals" ("member" ∷ []) none k'
        ≡ (err deadlock, k'))
    × (finalize_proposal world 61 "p1" "coop" k' ≡ (err deadlock, k'))
    × (execute_proposal world 61 "p1" "coop" k' ≡ (err deadlock, k'))
    × (emit_event world later_event k' ≡ (err deadlock, k'))
    × (process_proposal world 61 "p1" unscoped k' ≡ (scope_answer none, k'))
    × (record_vote world 61 "p1" ada_votes k' ≡ (err deadlock, k'))
    × (store_governance_config world 61 "p1" "coop" bylaws k' ≡ (err deadlock, k'))
unfolding insert create_key_cid config_key
config_blocks_kernel_example =
    config_blocks_kernel world kernel 60 61 "e1" "coop" "p1" "coop" "vote_on_proposals" bylaws
      bylaws (a_config bylaws) kernel.storage unscoped ada_votes ("member" ∷ []) none later_event
      refl writes refl refl
