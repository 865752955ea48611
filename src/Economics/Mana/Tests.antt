-- ===== src/Economics/Mana/Tests.antt =====
-- Runs of the pools of resources.rs, and the theorems at concrete pools.
use icn.Prelude.{ℕ, ◌+◌, ◌-◌, ◌≡◌, refl, true, false, List, [], ◌∷◌, arith, u64_mod}
use icn.Prelude.Map.{insert}
use icn.Prelude.Floats.{fractions}
use icn.Economics.Mana.{
  ManaPool, regen_amount, update_regeneration, consume, lock, release_lock,
  complete_locked_operation, mana, compute_units, ResourceManager, new_manager, add_resource_pool,
  regenerative_eq, new, apply_reputation_effects,
}
use icn.Economics.Mana.Invariant.{
  IsValid, RegainFits, RunFits, Call, consumes, locks, releases, completes, apply, run, run-IsValid,
}
use icn.Economics.Mana.Reserve.{consume_overflow}

abbrev half_full : ManaPool
half_full = record {
  current = 50;
  max_capacity = 100;
  regen_rate_per_hour = 10;
  last_regen_time = 0;
  locked = 20;
}

-- two hours later, in nanoseconds
abbrev later : ℕ
later = 7_200_000_000_000

half_full-IsValid : IsValid half_full
half_full-IsValid = omega arith

regained :
    update_regeneration fractions later half_full
    ≡ record half_full { current = 70; last_regen_time = later }
unfolding update_regeneration regen_amount
regained = refl

consumed :
    consume fractions later 50 half_full
    ≡ (record half_full { current = 20; last_regen_time = later }, true)
unfolding consume update_regeneration regen_amount
consumed = refl

refused :
    consume fractions later 51 half_full
    ≡ (record half_full { current = 70; last_regen_time = later }, false)
unfolding consume update_regeneration regen_amount
refused = refl

boosted :
    (apply_reputation_effects fractions 500 (new_manager 0 "did:icn:a")).resource_pools
    ≡ (mana, record (new 0 1500 150) { current = 1500 }) ∷ []
unfolding apply_reputation_effects new_manager insert new
boosted = refl

half_full-RegainFits : RegainFits fractions later half_full
unfolding regen_amount
half_full-RegainFits = omega arith

abbrev history : List (ℕ × Call)
history =
    (later, locks 30) ∷ (later, completes 30) ∷ (later, releases 5) ∷ (later, consumes 90) ∷ []

history-RunFits : RunFits fractions history half_full
unfolding apply lock complete_locked_operation release_lock consume update_regeneration regen_amount
history-RunFits = omega arith

run-IsValid_example : IsValid (run fractions history half_full)
run-IsValid_example = run-IsValid fractions history half_full half_full-IsValid history-RunFits

consume_overflow_example :
    let (q, paid) = consume fractions later (u64_mod - 20) half_full in
    (paid ≡ true) × (q.current ≡ (update_regeneration fractions later half_full).current + 20)
unfolding update_regeneration regen_amount
consume_overflow_example =
    consume_overflow fractions later half_full half_full-IsValid half_full-RegainFits (omega arith)
      (omega arith)

abbrev two_pools : ResourceManager
two_pools = add_resource_pool 0 compute_units 10 1 (new_manager 0 "did:icn:a")
