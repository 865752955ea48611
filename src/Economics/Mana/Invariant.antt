-- ===== src/Economics/Mana/Invariant.antt =====
-- The states of a mana pool and histories of calls on it
-- (crates/runtime/icn-economics/src/resources.rs).
use icn.Prelude.{ℕ, ◌+◌, ◌-◌, ◌/◌, ◌≤◌, ◌<◌, ◌≡◌, List, [], ◌∷◌, arith, u64_mod}
use icn.Prelude.Floats.{Floats}
use icn.Economics.Mana.{
  ManaPool, regen_amount, nanos_per_sec, update_regeneration, consume, lock, release_lock,
  complete_locked_operation,
}

-- What is locked is there, and the pool is not over its capacity, a u64.
pub record IsValid (p : ManaPool) : Type 0 where
  pub covered : p.locked ≤ p.current
  pub capped : p.current ≤ p.max_capacity
  pub bounded : p.max_capacity < u64_mod

-- The calls that change a pool.
pub data Call : Type 0 where
  regenerates : Call
  consumes locks releases completes : ℕ → Call

unfoldable pub apply : Floats → ℕ → Call → ManaPool → ManaPool
apply fl now regenerates p = update_regeneration fl now p
apply fl now (consumes a) p = (consume fl now a p).0
apply fl now (locks a) p = (lock fl now a p).0
apply fl now (releases a) p = release_lock a p
apply fl now (completes a) p = complete_locked_operation a p

-- The sums that the calls compute stay below 2 ^ 64: what the pool regains, and what it is asked.
abbrev pub RegainFits : Floats → ℕ → ManaPool → Type 0
RegainFits fl now p =
    p.current + regen_amount fl ((now - p.last_regen_time) / nanos_per_sec) p.regen_rate_per_hour
    < u64_mod

abbrev pub Fits : Floats → ℕ → Call → ManaPool → Type 0
Fits fl now regenerates p = RegainFits fl now p
Fits fl now (consumes a) p = RegainFits fl now p × (a + p.locked < u64_mod)
Fits fl now (locks a) p = RegainFits fl now p × (a + p.locked < u64_mod)
Fits fl now (releases a) p = Unit
Fits fl now (completes a) p = Unit

pub update_regeneration-IsValid :
    (fl : Floats) (now : ℕ) {p : ManaPool}
    → IsValid p
    → RegainFits fl now p
    → IsValid (update_regeneration fl now p)
unfolding update_regeneration
update_regeneration-IsValid fl now v h = ground arith

-- Regeneration adds to what is there and takes nothing away; it touches no lock and no setting.
pub update_regeneration_grows :
    (fl : Floats) (now : ℕ) (p : ManaPool)
    → IsValid p
    → RegainFits fl now p
    → let q = update_regeneration fl now p in
      (p.current ≤ q.current)
      × (q.locked ≡ p.locked)
      × (q.max_capacity ≡ p.max_capacity)
      × (p.last_regen_time ≤ q.last_regen_time)
unfolding update_regeneration
update_regeneration_grows fl now p v h = ground arith

pub consume-IsValid :
    (fl : Floats) (now a : ℕ) {p : ManaPool}
    → IsValid p
    → RegainFits fl now p
    → a + p.locked < u64_mod
    → IsValid (consume fl now a p).0
unfolding consume
consume-IsValid fl now a {p} v h k =
    ground (arith, update_regeneration-IsValid fl now v h, update_regeneration_grows fl now p v h)

pub lock-IsValid :
    (fl : Floats) (now a : ℕ) {p : ManaPool}
    → IsValid p
    → RegainFits fl now p
    → a + p.locked < u64_mod
    → IsValid (lock fl now a p).0
unfolding lock
lock-IsValid fl now a {p} v h k =
    ground (arith, update_regeneration-IsValid fl now v h, update_regeneration_grows fl now p v h)

-- Every call keeps the pool valid, as long as the sums that it computes fit in a u64.
pub apply-IsValid :
    (fl : Floats) (now : ℕ) (c : Call) (p : ManaPool)
    → IsValid p
    → Fits fl now c p
    → IsValid (apply fl now c p)
unfolding apply release_lock complete_locked_operation
apply-IsValid fl now regenerates p v h = update_regeneration-IsValid fl now v h
apply-IsValid fl now (consumes a) p v h = consume-IsValid fl now a v h.0 h.1
apply-IsValid fl now (locks a) p v h = lock-IsValid fl now a v h.0 h.1
apply-IsValid fl now (releases a) p v h = ground arith
apply-IsValid fl now (completes a) p v h = ground arith

-- A history of calls, each with its time; every one has to fit where it is made.
pub run : Floats → List (ℕ × Call) → ManaPool → ManaPool
run fl [] p = p
run fl ((now, c) ∷ cs) p = run fl cs (apply fl now c p)

abbrev pub RunFits : Floats → List (ℕ × Call) → ManaPool → Type 0
RunFits fl [] p = Unit
RunFits fl ((now, c) ∷ cs) p = Fits fl now c p × RunFits fl cs (apply fl now c p)

-- So the invariant holds after any history of calls on a valid pool whose sums fit.
pub run-IsValid :
    (fl : Floats) (cs : List (ℕ × Call)) (p : ManaPool)
    → IsValid p
    → RunFits fl cs p
    → IsValid (run fl cs p)
unfolding run
run-IsValid fl [] p v h = v
run-IsValid fl ((now, c) ∷ cs) p v (h, hs) =
    run-IsValid fl cs (apply fl now c p) (apply-IsValid fl now c p v h) hs
