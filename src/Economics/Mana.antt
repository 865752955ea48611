-- ===== src/Economics/Mana.antt =====
-- Regenerating resource pools: ManaPool and ResourceManager of
-- crates/runtime/icn-economics/src/resources.rs. A SystemTime is a number of nanoseconds; where
-- the source reads the clock, the time is an argument. Amounts are u64 and wrap as in a release
-- build.
pub mod Invariant
pub mod Reserve
mod Tests
use Prim.Native.Nat.{min}
use icn.Prelude.{
  ℕ, ◌+◌, ◌-◌, ◌/◌, Bool, true, false, Option, none, some, String, List, [], ◌∷◌, ◌≡◌, ◌↔◌, arith,
  ltb, leb, add64, sub64, if◌then◌else◌, PartialEq, ==_iff, ◌==◌, string_eq,
}
use icn.Prelude.Map.{Map, get, insert, map_values}
use icn.Prelude.Floats.{Floats}

pub data RegenerativeResourceType : Type 0 where
  mana compute_units storage_units network_bandwidth : RegenerativeResourceType
  custom : String → RegenerativeResourceType

-- the derived `PartialEq`
pub regenerative_beq : RegenerativeResourceType → RegenerativeResourceType → Bool
regenerative_beq mana mana = true
regenerative_beq compute_units compute_units = true
regenerative_beq storage_units storage_units = true
regenerative_beq network_bandwidth network_bandwidth = true
regenerative_beq (custom a) (custom b) = a == b
regenerative_beq _ _ = false

pub regenerative_beq_iff :
    (a b : RegenerativeResourceType) → (regenerative_beq a b ≡ true) ↔ (a ≡ b)
unfolding regenerative_beq
regenerative_beq_iff (custom a) (custom b) =
    (ground (arith, ==_iff a b), ground (arith, ==_iff a b))
regenerative_beq_iff a b = (ground arith, ground arith)

pub record ManaPool : Type 0 where
  pub current : ℕ
  pub max_capacity : ℕ
  pub regen_rate_per_hour : ℕ
  pub last_regen_time : ℕ
  pub locked : ℕ

pub new : ℕ → ℕ → ℕ → ManaPool
new now max_capacity rate = record {
  current = max_capacity;
  max_capacity = max_capacity;
  regen_rate_per_hour = rate;
  last_regen_time = now;
  locked = 0;
}

-- What `update_regeneration` has regained after the given seconds.
pub regen_amount : Floats → ℕ → ℕ → ℕ
regen_amount fl secs rate =
    fl.to_u64 (fl.mul (fl.div (fl.of_u64 secs) (fl.of_u64 3600)) (fl.of_u64 rate))

abbrev pub nanos_per_sec : ℕ
nanos_per_sec = 1_000_000_000

-- `duration_since` fails if the clock went backwards, and then nothing changes.
pub update_regeneration : Floats → ℕ → ManaPool → ManaPool
update_regeneration fl now p =
    let elapsed_secs = (now - p.last_regen_time) / nanos_per_sec in
    let regained = regen_amount fl elapsed_secs p.regen_rate_per_hour in
    if ltb now p.last_regen_time
    then p
    else if ltb 0 regained
    then record p { current = min (add64 p.current regained) p.max_capacity; last_regen_time = now }
    else p

pub has_sufficient : ℕ → ManaPool → Bool
has_sufficient amount p = leb (add64 amount p.locked) p.current

pub consume : Floats → ℕ → ℕ → ManaPool → ManaPool × Bool
unfolding has_sufficient
consume fl now amount p =
    let q = update_regeneration fl now p in
    if has_sufficient amount q
    then (record q { current = sub64 q.current amount }, true)
    else (q, false)

pub lock : Floats → ℕ → ℕ → ManaPool → ManaPool × Bool
unfolding has_sufficient
lock fl now amount p =
    let q = update_regeneration fl now p in
    if has_sufficient amount q
    then (record q { locked = add64 q.locked amount }, true)
    else (q, false)

pub release_lock : ℕ → ManaPool → ManaPool
release_lock amount p =
    if ltb p.locked amount then record p { locked = 0 } else record p { locked = p.locked - amount }

pub complete_locked_operation : ℕ → ManaPool → ManaPool
complete_locked_operation amount p =
    if ltb p.locked amount
    then record p { current = p.current - amount; locked = 0 }
    else record p { current = sub64 p.current amount; locked = p.locked - amount }

pub record ResourceManager : Type 0 where
  pub owner_did : String
  pub resource_pools : Map RegenerativeResourceType ManaPool
  pub reputation_score : Option ℕ

instance abbrev pub regenerative_eq : PartialEq RegenerativeResourceType
regenerative_eq = record { same = regenerative_beq; same_iff = regenerative_beq_iff }

pub new_manager : ℕ → String → ResourceManager
unfolding new
new_manager now owner_did = record {
  owner_did = owner_did;
  resource_pools = insert mana (new now 1000 100) [];
  reputation_score = none;
}

pub update_all_pools : Floats → ℕ → ResourceManager → ResourceManager
update_all_pools fl now r = record r {
  resource_pools = map_values (update_regeneration fl now) r.resource_pools;
}

pub add_resource_pool : ℕ → RegenerativeResourceType → ℕ → ℕ → ResourceManager → ResourceManager
unfolding new
add_resource_pool now t max_capacity rate r = record r {
  resource_pools = insert t (new now max_capacity rate) r.resource_pools;
}

pub consume_resource :
    Floats → ℕ → RegenerativeResourceType → ℕ → ResourceManager → ResourceManager × Bool
consume_resource fl now t amount r = elim (get t r.resource_pools) [
  | none ↦ (r, false)
  | some pool ↦ (
    record r { resource_pools = insert t (consume fl now amount pool).0 r.resource_pools },
    (consume fl now amount pool).1,
  )
]

-- One pool under `apply_reputation_effects`.
pub apply_modifier : (fl : Floats) → fl.F → ManaPool → ManaPool
apply_modifier fl modifier p =
    let new_max = fl.to_u64 (fl.mul (fl.of_u64 p.max_capacity) modifier) in
    let ratio = fl.div (fl.of_u64 new_max) (fl.of_u64 p.max_capacity) in
    let scaled = fl.to_u64 (fl.mul (fl.of_u64 p.current) ratio) in
    record p {
      current = if ltb p.max_capacity new_max then scaled else p.current;
      max_capacity = new_max;
      regen_rate_per_hour = fl.to_u64 (fl.mul (fl.of_u64 p.regen_rate_per_hour) modifier);
    }

pub apply_reputation_effects : Floats → ℕ → ResourceManager → ResourceManager
unfolding apply_modifier
apply_reputation_effects fl score r =
    let modifier = fl.add (fl.of_u64 1) (fl.div (fl.of_u64 score) (fl.of_u64 1000)) in
    record r {
      resource_pools = map_values (apply_modifier fl modifier) r.resource_pools;
      reputation_score = some score;
    }
