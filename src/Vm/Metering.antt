-- ===== src/Vm/Metering.antt =====
-- What the metering of crates/runtime/icn-core-vm/src/lib.rs guarantees over a whole execution.
use icn.Prelude.{
  ℕ, ◌+◌, ◌≤◌, ◌<◌, ◌≡◌, false, List, [], ◌∷◌, ok, err, arith, if◌then◌else◌, u64_mod, ◌==◌, ==_iff,
  Option-cases, inl, inr,
}
use icn.Prelude.Map.{Map, get, insert, get_or, or_insert, get-insert}
use icn.Vm.{
  ResourceType, resource_eq, VmContext, HostEnvironment, limit_exceeded, limit_of, check_total,
  record_resource_consumption, used, consumed,
}

get_or-or_insert :
    (r t : ResourceType) (m : Map ResourceType ℕ) → get_or r 0 (or_insert t 0 m) ≡ get_or r 0 m
get_or-or_insert r t m = elim (Option-cases (get t m)) [
  | inl absent ↦ ground (arith, get-insert r t 0 m, ==_iff t r, absent)
  | inr (n, found) ↦ ground (arith, found)
]

get_or-insert :
    (r t : ResourceType) (n : ℕ) (m : Map ResourceType ℕ)
    → get_or r 0 (insert t n m) ≡ (if t == r then n else get_or r 0 m)
get_or-insert r t n m = ground (arith, get-insert r t n m)

-- The calls of an execution, one after the other: what they leave, and how much of a resource those
-- calls have consumed that were not refused.
module _ {D : Type 0} (ctx : VmContext) where
  abbrev pub run : List (ResourceType × ℕ) → HostEnvironment D → HostEnvironment D
  run [] s = s
  run ((t, amount) ∷ calls) s = run calls (record_resource_consumption ctx t amount s).1

  abbrev pub accepted : ResourceType → List (ResourceType × ℕ) → HostEnvironment D → ℕ
  accepted r [] s = 0
  accepted r ((t, amount) ∷ calls) s =
      let (answer, s') = record_resource_consumption ctx t amount s in
      let rest = accepted r calls s' in
      elim answer [ ok _ ↦ if t == r then amount + rest else rest | err _ ↦ rest ]

  -- One call: the resource it names grows by the amount if it is not refused.
  step :
      (r t : ResourceType) (amount : ℕ) (s : HostEnvironment D)
      → used r s ≤ limit_of r ctx.resource_authorizations
      → let (answer, s') = record_resource_consumption ctx t amount s in
        (used r s' ≡ used r s + (elim answer [ ok _ ↦ if t == r then amount else 0 | err _ ↦ 0 ]))
        × (used r s' ≤ limit_of r ctx.resource_authorizations)
  unfolding record_resource_consumption used check_total
  step r t amount s small =
      let m = or_insert t 0 s.resource_usage in
      let total = get_or t 0 m + amount in
      ground (arith, get_or-or_insert r t s.resource_usage, get_or-insert r t total m, ==_iff t r)

  agree :
      (r t : ResourceType) (amount : ℕ) (s : HostEnvironment D)
      → consumed r s ≡ used r s
      → let s' = (record_resource_consumption ctx t amount s).1 in consumed r s' ≡ used r s'
  unfolding record_resource_consumption used consumed check_total
  agree r t amount s same =
      let m = or_insert t 0 s.resource_usage in
      let total = get_or t 0 m + amount in
      ground (
        arith,
        get_or-or_insert r t s.resource_usage,
        get_or-insert r t total m,
        get_or-insert r t total s.consumed_resources,
      )

  -- However the calls of an execution are made, and whichever of them are refused, the usage of a
  -- resource is what it was before and the amounts of the accepted calls for it, and never exceeds
  -- its limit.
  pub used-run :
      (r : ResourceType) (calls : List (ResourceType × ℕ)) (s : HostEnvironment D)
      → used r s ≤ limit_of r ctx.resource_authorizations
      → (used r (run calls s) ≡ used r s + accepted r calls s)
        × (used r (run calls s) ≤ limit_of r ctx.resource_authorizations)
  used-run r [] s small = (omega arith, small)
  used-run r ((t, amount) ∷ calls) s small =
      let (exact, bounded) = step r t amount s small in
      let s' = (record_resource_consumption ctx t amount s).1 in
      let (later, within) = used-run r calls s' bounded in (ground (arith, exact, later), within)

  -- The two counters agree after every execution that starts with agreeing ones, such as a new one.
  pub consumed-run :
      (r : ResourceType) (calls : List (ResourceType × ℕ)) (s : HostEnvironment D)
      → consumed r s ≡ used r s
      → consumed r (run calls s) ≡ used r (run calls s)
  consumed-run r [] s same = same
  consumed-run r ((t, amount) ∷ calls) s same =
      consumed-run r calls (record_resource_consumption ctx t amount s).1 (agree r t amount s same)

  -- A consumption within the limit is recorded, and touches no other resource.
  pub charge_accepted :
      (r t : ResourceType) (amount : ℕ) (s : HostEnvironment D)
      → used t s + amount < u64_mod
      → used t s + amount ≤ limit_of t ctx.resource_authorizations
      → (t == r) ≡ false
      → ((record_resource_consumption ctx t amount s).0 ≡ ok tt)
        × ((record_resource_consumption ctx t amount s).1.dag_storage ≡ s.dag_storage)
        × (used r (record_resource_consumption ctx t amount s).1 ≡ used r s)
  unfolding record_resource_consumption used check_total
  charge_accepted r t amount s fits allowed other =
      let m = or_insert t 0 s.resource_usage in
      let total = get_or t 0 m + amount in
      ground (
        arith,
        get_or-or_insert r t s.resource_usage,
        get_or-or_insert t t s.resource_usage,
        get_or-insert r t total m,
      )

  -- One over the limit is refused, and leaves every usage as it was.
  pub charge_refused :
      (t : ResourceType) (amount : ℕ) (s : HostEnvironment D)
      → used t s + amount < u64_mod
      → limit_of t ctx.resource_authorizations < used t s + amount
      → ((record_resource_consumption ctx t amount s).0
          ≡ err (limit_exceeded t (used t s + amount) (limit_of t ctx.resource_authorizations)))
        × ((record_resource_consumption ctx t amount s).1.dag_storage ≡ s.dag_storage)
        × (used t (record_resource_consumption ctx t amount s).1 ≡ used t s)
  unfolding record_resource_consumption used check_total
  charge_refused t amount s fits over = ground (arith, get_or-or_insert t t s.resource_usage)
