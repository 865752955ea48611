-- ===== src/Economics/Mana/Reserve.antt =====
-- Locks, payments and their release on mana pools (crates/runtime/icn-economics/src/resources.rs).
use icn.Prelude.{
  ℕ, ◌+◌, ◌-◌, ◌≤◌, ◌<◌, ◌≡◌, ◌≢◌, ◌⊎◌, inl, inr, Option-cases, true, false, arith, u64_mod, ==_iff,
}
use icn.Prelude.Map.{get, get-insert}
use icn.Prelude.Floats.{Floats}
use icn.Economics.Mana.{
  ManaPool, update_regeneration, consume, lock, release_lock, complete_locked_operation,
  RegenerativeResourceType, regenerative_eq, ResourceManager, consume_resource,
}
use icn.Economics.Mana.Invariant.{
  IsValid, RegainFits, update_regeneration-IsValid, update_regeneration_grows,
}

-- Paying in two steps, by a lock and its completion, succeeds when paying at once does, and leaves
-- the same pool.
pub complete-lock :
    (fl : Floats) (now a : ℕ) (p : ManaPool)
    → IsValid p
    → RegainFits fl now p
    → a + p.locked < u64_mod
    → (lock fl now a p).1 ≡ true
    → ((consume fl now a p).1 ≡ true)
      × (complete_locked_operation a (lock fl now a p).0 ≡ (consume fl now a p).0)
unfolding lock consume complete_locked_operation
complete-lock fl now a p v h k paid =
    ground (arith, update_regeneration-IsValid fl now v h, update_regeneration_grows fl now p v h)

-- Releasing a lock gives the pool back as it was after the regeneration.
pub release_lock-lock :
    (fl : Floats) (now a : ℕ) (p : ManaPool)
    → IsValid p
    → RegainFits fl now p
    → a + p.locked < u64_mod
    → (lock fl now a p).1 ≡ true
    → release_lock a (lock fl now a p).0 ≡ update_regeneration fl now p
unfolding lock release_lock
release_lock-lock fl now a p v h k paid =
    ground (arith, update_regeneration-IsValid fl now v h, update_regeneration_grows fl now p v h)

-- A payment is made exactly when the amount and all locks together are covered, and it takes
-- exactly the amount; a refused one takes nothing.
pub consume_exact :
    (fl : Floats) (now a : ℕ) (p : ManaPool)
    → IsValid p
    → RegainFits fl now p
    → a + p.locked < u64_mod
    → let q = update_regeneration fl now p in
      (((consume fl now a p).1 ≡ true)
        × (a + p.locked ≤ q.current)
        × ((consume fl now a p).0.current + a ≡ q.current))
      ⊎ (((consume fl now a p).1 ≡ false)
          × (q.current < a + p.locked)
          × ((consume fl now a p).0 ≡ q))
unfolding consume
consume_exact fl now a p v h k =
    ground (arith, update_regeneration-IsValid fl now v h, update_regeneration_grows fl now p v h)

-- Without the bound on the sum the check is defeated: a pool with a lock pays the amount
-- 2 ^ 64 - locked, whatever it holds, and its mana grows by what was locked (if that fits a u64).
pub consume_overflow :
    (fl : Floats) (now : ℕ) (p : ManaPool)
    → IsValid p
    → RegainFits fl now p
    → 0 < p.locked
    → (update_regeneration fl now p).current + p.locked < u64_mod
    → let (q, paid) = consume fl now (u64_mod - p.locked) p in
      (paid ≡ true) × (q.current ≡ (update_regeneration fl now p).current + p.locked)
unfolding consume
consume_overflow fl now p v h locked room =
    ground (arith, update_regeneration-IsValid fl now v h, update_regeneration_grows fl now p v h)

-- A payment from one pool of a manager leaves every other pool alone.
pub consume_resource_others :
    (fl : Floats) (now : ℕ) (t u : RegenerativeResourceType) (a : ℕ) (r : ResourceManager)
    → t ≢ u
    → get u (consume_resource fl now t a r).0.resource_pools ≡ get u r.resource_pools
unfolding consume_resource
consume_resource_others fl now t u a r h = elim (Option-cases (get t r.resource_pools)) [
  | inl missing ↦ ground arith
  | inr (pool, found) ↦
      ground (arith, get-insert u t (consume fl now a pool).0 r.resource_pools, ==_iff t u)
]
