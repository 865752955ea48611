-- ===== src/Vm.antt =====
-- Resource metering of the core VM: crates/runtime/icn-core-vm/src/resources.rs, and of
-- ConcreteHostEnvironment in its lib.rs the counters, the DAG host calls and the token operations.
-- The DAG storage, CBOR, CIDs and JSON are parameters, and so is the caller, whose scope is always
-- Individual. `D` is the state of the DAG storage.
pub mod Metering
pub mod HostCalls
mod Tests
use icn.Prelude.{
  ℕ, ◌+◌, ◌-◌, ◌/◌, Bool, true, false, not, Option, none, some, String, List, [], ◌∷◌, Result, ok,
  err, map_err, unwrap_or, if◌then◌else◌, ltb, leb, length, u64_mod, add64, PartialEq, ◌==◌, ◌≡◌,
  ◌↔◌, arith,
}
use icn.Prelude.Map.{Map, get, insert, or_insert, get_or}
use icn.Prelude.State.{Action}
use icn.Identity.{Bytes}

pub data ResourceType : Type 0 where
  compute storage network token : ResourceType

unfoldable pub resource_beq : ResourceType → ResourceType → Bool
resource_beq compute compute = true
resource_beq storage storage = true
resource_beq network network = true
resource_beq token token = true
resource_beq _ _ = false

pub resource_beq_iff : (a b : ResourceType) → (resource_beq a b ≡ true) ↔ (a ≡ b)
unfolding resource_beq
resource_beq_iff a b = (ground arith, ground arith)

instance abbrev pub resource_eq : PartialEq ResourceType
resource_eq = record { same = resource_beq; same_iff = resource_beq_iff }

pub record ResourceAuthorization : Type 0 where
  pub resource_type : ResourceType
  pub limit : ℕ
  pub context : Option String
  pub description : String

-- `ResourceAuthorization::allows`, with `checked_add` on u64
unfoldable pub allows : ResourceAuthorization → (current additional : ℕ) → Bool
allows a current additional =
    if ltb (current + additional) u64_mod then leb (current + additional) a.limit else false

pub record ResourceConsumption : Type 0 where
  pub compute_used : ℕ
  pub storage_used : ℕ
  pub network_used : ℕ
  pub token_used : ℕ

unfoldable pub consumption_of : ResourceType → ResourceConsumption → ℕ
consumption_of compute c = c.compute_used
consumption_of storage c = c.storage_used
consumption_of network c = c.network_used
consumption_of token c = c.token_used

unfoldable pub set_consumption : ResourceType → ℕ → ResourceConsumption → ResourceConsumption
set_consumption compute n c = record c { compute_used = n }
set_consumption storage n c = record c { storage_used = n }
set_consumption network n c = record c { network_used = n }
set_consumption token n c = record c { token_used = n }

-- `ResourceConsumption::add`; the error names the resource.
unfoldable pub add_consumption :
    ResourceType → ℕ → ResourceConsumption → Result ResourceType ResourceConsumption
add_consumption t amount c =
    let total = consumption_of t c + amount in
    if ltb total u64_mod then ok (set_consumption t total c) else err t

-- What went wrong in a host function.
pub data HostError : Type 0 where
  consumption_overflow : ResourceType → HostError
  limit_exceeded : ResourceType → (total limit : ℕ) → HostError
  codec_error invalid_input storage_error : String → HostError
  not_administrator : HostError
  not_authorized : (caller from : String) → HostError
  failed_to_store_record : HostError → HostError

pub record VmContext : Type 0 where
  pub caller_did : String
  pub resource_authorizations : List ResourceAuthorization

-- The part of ConcreteHostEnvironment that the modelled methods change.
pub record HostEnvironment (D : Type 0) : Type 0 where
  pub consumed_resources : Map ResourceType ℕ
  pub resource_usage : Map ResourceType ℕ
  pub dag_storage : D

unfoldable pub new_host : {D : Type 0} → D → HostEnvironment D
new_host d = record { consumed_resources = []; resource_usage = []; dag_storage = d }

-- The limit of the first authorization for the resource, or u64::MAX.
unfoldable pub limit_of : ResourceType → List ResourceAuthorization → ℕ
limit_of t [] = u64_mod - 1
limit_of t (a ∷ others) = if a.resource_type == t then a.limit else limit_of t others

abbrev pub Host : Type 0 → Type 0 → Type 0
Host D A = Action (HostEnvironment D) HostError A

-- The tests of `record_resource_consumption`: the new total, or the error.
unfoldable pub check_total : VmContext → ResourceType → (current amount : ℕ) → Result HostError ℕ
check_total ctx t current amount =
    let total = current + amount in
    let limit = limit_of t ctx.resource_authorizations in
    if not (ltb total u64_mod)
    then err (consumption_overflow t)
    else if ltb limit total
    then err (limit_exceeded t total limit)
    else ok total

module _ {D : Type 0} where
  -- `entry(resource_type).or_insert(0)` leaves an entry behind even if the consumption is refused.
  unfoldable pub record_resource_consumption : VmContext → ResourceType → ℕ → Host D (Unit {0})
  record_resource_consumption ctx t amount s =
      let usage = or_insert t 0 s.resource_usage in
      elim (check_total ctx t (get_or t 0 usage) amount) [
        | err e ↦ (err e, record s { resource_usage = usage })
        | ok total ↦ (
          ok tt,
          record s {
            resource_usage = insert t total usage;
            consumed_resources = insert t total s.consumed_resources;
          },
        )
      ]

  unfoldable pub record_compute_usage : VmContext → ℕ → Host D (Unit {0})
  record_compute_usage ctx amount = record_resource_consumption ctx compute amount

  unfoldable pub record_storage_usage : VmContext → ℕ → Host D (Unit {0})
  record_storage_usage ctx amount = record_resource_consumption ctx storage amount

  unfoldable pub record_network_usage : VmContext → ℕ → Host D (Unit {0})
  record_network_usage ctx amount = record_resource_consumption ctx network amount

  -- The public `record_resource_usage`, which tests no limit; `+=` wraps in a release build.
  unfoldable pub record_resource_usage : ResourceType → ℕ → HostEnvironment D → HostEnvironment D
  record_resource_usage t amount s =
      let usage = or_insert t 0 s.resource_usage in
      record s { resource_usage = insert t (add64 (get_or t 0 usage) amount) usage }

  -- `get_compute_consumed`, `get_storage_consumed` and `get_network_consumed`
  unfoldable pub consumed : ResourceType → HostEnvironment D → ℕ
  consumed t s = get_or t 0 s.consumed_resources

  -- What `get_resource_usage` says of one resource.
  unfoldable pub used : ResourceType → HostEnvironment D → ℕ
  used t s = get_or t 0 s.resource_usage
