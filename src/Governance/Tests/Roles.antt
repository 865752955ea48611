-- ===== src/Governance/Tests/Roles.antt =====
-- Witnesses on the roles of crates/runtime/icn-governance-kernel/src/lib.rs.
use icn.Prelude.{
  ◌≡◌, refl, true, none, String, List, [], ◌∷◌, ok, string_eq, nat_eq, contains, ◌||◌,
}
use icn.Prelude.Map.{get, insert}
use icn.Governance.Kernel.{create_key_cid, with_storage, put_kv, serialize}
use icn.Identity.{sign}
use icn.Governance.Credentials.{credential_key, index_key, signature_of, is_expired}
use icn.Governance.Roles.{
  load_governance_config, get_verified_roles, check_permission, assign_roles, config_key,
  check_roles, check_defined, store_credential, new_credential_id, new_credential, default_options,
  old_index, defined_roles, grants,
}
use icn.Governance.Roles.Verified.{get_verified_roles-assign_roles}
use icn.Governance.Roles.Permission.{check_permission-assign_roles}
use icn.Governance.Tests.{
  a_config, world, bylaws, kernel, run, run_id, world-Reliable, fresh_id, no_roles,
}

get_verified_roles-assign_roles_example :
    (after : List String) × (get_verified_roles world 200 "ada" "coop" run.1 ≡ (ok after, run.1))
    × ((r : String) → contains r after ≡ (contains r [] || contains r ("member" ∷ [])))
unfolding assign_roles load_governance_config with_storage put_kv serialize create_key_cid
    config_key get insert check_roles check_defined signature_of sign store_credential
    new_credential_id new_credential default_options old_index credential_key index_key is_expired
get_verified_roles-assign_roles_example =
    get_verified_roles-assign_roles world world-Reliable 100 200 "u1" "ada" "coop" fresh_id
      ("member" ∷ []) [] none kernel run.1 kernel refl no_roles run_id tt refl

check_permission-assign_roles_example :
    check_permission world 200 "ada" "coop" "vote_on_proposals" run.1 ≡ (ok true, run.1)
unfolding assign_roles load_governance_config with_storage put_kv serialize create_key_cid
    config_key get insert check_roles check_defined signature_of sign store_credential
    new_credential_id new_credential default_options old_index credential_key index_key is_expired
    defined_roles grants
check_permission-assign_roles_example =
    check_permission-assign_roles world 100 200 "u1" "ada" "coop" fresh_id "vote_on_proposals"
      ("member" ∷ []) [] none bylaws (a_config bylaws) _ kernel run.1 kernel world-Reliable refl
      refl refl refl refl no_roles run_id tt refl
