-- ===== src/Governance/Tests.antt =====
-- A storage in memory and a kernel, with runs of crates/runtime/icn-governance-kernel/src/lib.rs.
mod Roles
mod Guards
use icn.Prelude.{
  ◌≡◌, ◌≢◌, refl, true, false, none, some, String, List, [], ◌∷◌, Result, ok, err, string_eq,
  nat_eq, list_beq, arith, contains, ◌||◌,
}
use icn.Prelude.Int.{pos}
use icn.Prelude.Map.{Map, get, insert, get-insert}
use icn.Prelude.Floats.{fractions}
use icn.Prelude.Serde.{ReadsBack}
use icn.Economics.Types.{cooperative}
use icn.Governance.Config.{GovernanceConfig}
use icn.Governance.Types.{
  Proposal, rejected, executed, Vote, for, RoleAssignmentCredential, GovernanceEvent,
}
use icn.Governance.Kernel.{
  StorageBackend, LawfulBackend, Environment, GovernanceKernel, Stop, deadlock, create_key_cid,
  with_storage, put_kv, serialize,
}
use icn.Identity.{sign}
use icn.Governance.Credentials.{
  credential_key, index_key, signature_of, verify_credential_signature, roles_of_credential,
  collect_roles, is_expired, sort, insert_sorted, dedup, dedup_after,
}
use icn.Governance.Roles.{
  load_governance_config, get_verified_roles, check_permission, assign_roles, config_key,
  check_roles, check_defined, store_credential, new_credential_id, new_credential, default_options,
  old_index, read_index, defined_roles, grants,
}
use icn.Governance.Roles.Assignment.{Reliable}
use icn.Governance.Roles.Verified.{get_verified_roles-assign_roles}
use icn.Governance.Roles.Permission.{check_permission-assign_roles}
use icn.Governance.Proposals.{
  process_proposal, record_vote, finalize_proposal, execute_proposal, store_governance_config,
  get_proposal, read_proposal, proposal_key, vote_key,
}

-- What serde_json has written, by what it was.
pub data Stored : Type 0 where
  a_proposal : Proposal → Stored
  a_vote : Vote → Stored
  a_config : GovernanceConfig fractions → Stored
  a_credential : RoleAssignmentCredential → Stored
  an_index : List String → Stored
  an_event : GovernanceEvent → Stored

abbrev pub proposal_of : Stored → Result String Proposal
proposal_of (a_proposal p) = ok p
proposal_of _ = err "not a proposal"

abbrev pub vote_of : Stored → Result String Vote
vote_of (a_vote v) = ok v
vote_of _ = err "not a vote"

abbrev pub config_of : Stored → Result String (GovernanceConfig fractions)
config_of (a_config c) = ok c
config_of _ = err "not a configuration"

abbrev pub credential_of : Stored → Result String RoleAssignmentCredential
credential_of (a_credential c) = ok c
credential_of _ = err "not a credential"

abbrev pub index_of : Stored → Result String (List String)
index_of (an_index ids) = ok ids
index_of _ = err "not an index"

abbrev pub event_of : Stored → Result String GovernanceEvent
event_of (an_event e) = ok e
event_of _ = err "not an event"

abbrev pub in_memory : StorageBackend (Map String Stored) String Stored
in_memory = record { get_kv = λ c s. ok (get c s); put_kv = λ c d s. (ok tt, insert c d s) }

pub lawful : LawfulBackend in_memory
lawful = record { get-put = λ c j d s _. ground (arith, get-insert j c d s) }

abbrev pub world : Environment fractions (Map String Stored) String Stored
world = record {
  storage = in_memory;
  cid_of = λ key. key;
  sha256 = λ _. 1 ∷ 2 ∷ [];
  as_bytes = λ _. [];
  base64_encode = λ _. "AQI=";
  base64_decode = λ _. ok (1 ∷ 2 ∷ []);
  to_lowercase = λ s. s;
  replace = λ _ _ s. s;
  proposal_serde = record { to_vec = λ p. ok (a_proposal p); from_slice = proposal_of };
  vote_serde = record { to_vec = λ v. ok (a_vote v); from_slice = vote_of };
  config_serde = record { to_vec = λ c. ok (a_config c); from_slice = config_of };
  credential_serde = record { to_vec = λ c. ok (a_credential c); from_slice = credential_of };
  credential_to_string = λ _. ok "";
  index_serde = record { to_vec = λ ids. ok (an_index ids); from_slice = index_of };
  event_serde = record { to_vec = λ e. ok (an_event e); from_slice = event_of };
}

abbrev pub bylaws : GovernanceConfig fractions
bylaws = record {
  template_type = "coop_bylaws";
  template_version = "v1";
  governing_scope = cooperative;
  identity = none;
  governance = some (record {
    decision_making = none;
    quorum = none;
    majority = none;
    term_length = none;
    roles = some (
        record { name = "member"; permissions = "vote_on_proposals" ∷ [] }
        ∷ record { name = "steward"; permissions = "create_proposals" ∷ "vote_on_proposals" ∷ [] }
        ∷ []);
  });
  membership = none;
  proposals = none;
  working_groups = none;
  dispute_resolution = none;
  economic_model = none;
}

abbrev pub kernel : GovernanceKernel (Map String Stored) Unit
kernel = record {
  storage = ("governance::config::coop", a_config bylaws) ∷ [];
  storage_held = false;
  identity = record {
    keypair = record { private_key = 9 ∷ []; public_key = [] };
    did = "did:icn:kernel";
  };
  events = [];
  credentials = [];
}

abbrev pub run : Result Stop String × GovernanceKernel (Map String Stored) Unit
run = assign_roles world 100 "u1" "ada" "coop" ("member" ∷ []) none kernel

pub run_id : run ≡ (ok "credential:role:coop:ada:u1", run.1)
unfolding assign_roles load_governance_config with_storage put_kv serialize create_key_cid
    config_key get insert check_roles check_defined signature_of sign store_credential
    new_credential_id new_credential default_options old_index credential_key index_key
run_id = refl

-- ada has the role after it has been assigned, and not before.
run_roles :
    (get_verified_roles world 200 "ada" "coop" kernel ≡ (ok [], kernel))
    × (get_verified_roles world 200 "ada" "coop" run.1 ≡ (ok ("member" ∷ []), run.1))
unfolding assign_roles load_governance_config with_storage put_kv serialize create_key_cid
    config_key get insert check_roles check_defined signature_of sign store_credential
    new_credential_id new_credential default_options old_index credential_key index_key
    get_verified_roles read_index collect_roles roles_of_credential verify_credential_signature
    is_expired sort insert_sorted dedup dedup_after list_beq
run_roles = (refl, refl)

pub world-Reliable : Reliable world
world-Reliable = record {
  base64_decodes = λ _. refl;
  credential_back = λ c d h. ground (arith, h);
  index_back = λ ids d h. ground (arith, h);
  backend = lawful;
  collision_free = λ a b h. h;
}

pub world-ReadsBack : ReadsBack world.proposal_serde
world-ReadsBack p d h = ground (arith, h)

abbrev pub fresh_id : String
fresh_id = "credential:role:coop:ada:u1"

pub no_roles : get_verified_roles world 200 "ada" "coop" kernel ≡ (ok [], kernel)
no_roles = run_roles.0
