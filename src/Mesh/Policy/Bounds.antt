-- ===== src/Mesh/Policy/Bounds.antt =====
-- What MeshPolicy::apply_update of crates/mesh/mesh-types/src/lib.rs keeps.
use icn.Prelude.{
  ℕ, ◌≤◌, ◌≡◌, inl, inr, refl, Bool, true, false, Option, none, some, String, List, [], ◌∷◌, All,
  nat_eq, arith, Bool-cases, Result-cases, Option-cases,
}
use icn.Prelude.State.{Action, modify, raise_if, ◌>>◌}
use icn.Prelude.Floats.{Floats}
use icn.Mesh.Policy.{
  RewardSettings, VerificationQuorum, MeshPolicy, RewardSettingsFragment,
  VerificationQuorumFragment, MeshPolicyFragment, new_default,
}
use icn.Mesh.Policy.Update.{
  Update, when_some, sum_u8, sums_wrongly, update_rewards, out_of_range, update_quorum,
  update_reputation, apply_update, count_update, rewards_part, bonding_part, scheduling_part,
  quorum_part, scope_part, last_part, later_parts, in_order,
}

abbrev pub IsQuorum : VerificationQuorum → Type 0
IsQuorum q = (50 ≤ q.required_percentage) × (q.required_percentage ≤ 100)

update_quorum-IsQuorum :
    (f : VerificationQuorumFragment) (q : VerificationQuorum)
    → out_of_range f ≡ false
    → IsQuorum q
    → IsQuorum (update_quorum f q)
unfolding out_of_range update_quorum
update_quorum-IsQuorum f q fits good = ground (arith, fits, good.0, good.1)

abbrev pub IsSplit : RewardSettings → Type 0
IsSplit r = sum_u8 r.worker_percentage r.verifier_percentage r.platform_fee_percentage ≡ 100

-- A call that keeps a property of the state, whether it succeeds or fails.
abbrev Keeps : {S E : Type 0} → (S → Type 0) → Action S E (Unit {0}) → Type 0
Keeps {S} I m = (s : S) → I s → I (m s).1

module _ {S E : Type 0} (I : S → Type 0) where
  then-Keeps : (m k : Action S E (Unit {0})) → Keeps I m → Keeps I k → Keeps I (m >> k)
  then-Keeps m k first second s good =
      let here = first s good in
      let there = second (m s).1 here in
      elim (Result-cases (m s).0) [
        | inl (u, fine) ↦ ground (arith, fine, there)
        | inr (e, failed) ↦ ground (arith, failed, here)
      ]

  raise_if-Keeps : (b : Bool) (e : E) → Keeps I (raise_if b e)
  raise_if-Keeps true e s good = good
  raise_if-Keeps false e s good = good

module _ {fl : Floats} {Cid : Type 0} where
  when_some-Keeps :
      {A : Type 0} (I : MeshPolicy fl Cid → Type 0) (o : Option A) (f : A → Update fl Cid)
      → ((a : A) → Keeps I (f a))
      → Keeps I (when_some o f)
  when_some-Keeps I none f each p good = good
  when_some-Keeps I (some a) f each p good = each a p good

  in_order-Keeps :
      (I : MeshPolicy fl Cid → Type 0) (parts : List (Update fl Cid))
      → All (Keeps I) parts
      → Keeps I (in_order parts)
  in_order-Keeps I [] each = λ p good. good
  in_order-Keeps I (part ∷ parts) each =
      then-Keeps I part (in_order parts) each.0 (in_order-Keeps I parts each.1)

  -- Whether an update succeeds or fails, a quorum between 50 and 100 percent stays one.
  apply_update-IsQuorum :
      (now : ℕ) (f : MeshPolicyFragment fl)
      → Keeps {S = MeshPolicy fl Cid} (λ p. IsQuorum p.verification_quorum) (apply_update now f)
  unfolding apply_update later_parts count_update update_reputation rewards_part bonding_part
      scheduling_part quorum_part scope_part last_part
  apply_update-IsQuorum now f =
      let I : MeshPolicy fl Cid → Type 0 = λ p. IsQuorum p.verification_quorum in
      let later : All (Keeps I) (later_parts now f) = (
        when_some-Keeps I f.bonding_requirements bonding_part (λ b p good. good),
        (
          when_some-Keeps I f.scheduling_params scheduling_part (λ s p good. good),
          (
            when_some-Keeps I f.verification_quorum quorum_part (λ q p good.
                elim (Bool-cases (out_of_range q)) [
                  | inl wrong ↦ ground (arith, wrong, good)
                  | inr fits ↦
                      ground (arith, fits, update_quorum-IsQuorum q p.verification_quorum fits good)
                ]),
            (
              when_some-Keeps I f.base_capability_scope scope_part (λ c p good. good),
              ((λ p good. good), tt),
            ),
          ),
        ),
      ) in
      let rep = when_some f.reputation_params (λ r. modify (update_reputation r)) in
      let rewards = when_some f.reward_settings rewards_part in
      then-Keeps I count_update (in_order (rep ∷ rewards ∷ later_parts now f)) (λ p good. good)
        (then-Keeps I rep (in_order (rewards ∷ later_parts now f))
          (when_some-Keeps I f.reputation_params (λ r. modify (update_reputation r))
            λ r p good. good)
          (then-Keeps I rewards (in_order (later_parts now f))
            (when_some-Keeps I f.reward_settings rewards_part λ r p good. ground (arith, good))
            (in_order-Keeps I (later_parts now f) later)))

  -- Reward settings that are taken are not changed again.
  pub rewards_updated :
      (now : ℕ) (f : MeshPolicyFragment fl) (r : RewardSettingsFragment) (p : MeshPolicy fl Cid)
      → f.reward_settings ≡ some r
      → sums_wrongly r ≡ false
      → (apply_update now f p).1.reward_settings ≡ update_rewards r p.reward_settings
  unfolding apply_update later_parts count_update update_reputation rewards_part bonding_part
      scheduling_part quorum_part scope_part last_part
  rewards_updated now f r p there fine =
      let I : MeshPolicy fl Cid → Type 0 =
        λ q. q.reward_settings ≡ update_rewards r p.reward_settings in
      let later : All (Keeps I) (later_parts now f) = (
        when_some-Keeps I f.bonding_requirements bonding_part (λ b p good. good),
        (
          when_some-Keeps I f.scheduling_params scheduling_part (λ s p good. good),
          (
            when_some-Keeps I f.verification_quorum quorum_part (λ q p good. ground (arith, good)),
            (
              when_some-Keeps I f.base_capability_scope scope_part (λ c p good. good),
              ((λ p good. good), tt),
            ),
          ),
        ),
      ) in
      let kept : Keeps I (in_order (later_parts now f)) =
        in_order-Keeps I (later_parts now f) later in
      elim (Option-cases f.reputation_params) [
        | inl absent ↦ ground (
          arith,
          there,
          fine,
          absent,
          kept (record (count_update p).1 { reward_settings = update_rewards r p.reward_settings })
              refl,
        )
        | inr (rep, present) ↦ ground (
          arith,
          there,
          fine,
          present,
          kept
              (record (update_reputation rep (count_update p).1) {
                reward_settings = update_rewards r p.reward_settings;
              })
              refl,
        )
      ]

  -- The policy after a list of updates, refused ones among them.
  abbrev pub after : List (ℕ × MeshPolicyFragment fl) → MeshPolicy fl Cid → MeshPolicy fl Cid
  after [] p = p
  after (u ∷ us) p = after us (apply_update u.0 u.1 p).1

  pub updates_kept :
      (updates : List (ℕ × MeshPolicyFragment fl)) (p : MeshPolicy fl Cid)
      → IsQuorum p.verification_quorum
      → IsQuorum (after updates p).verification_quorum
  updates_kept [] p good = good
  updates_kept (u ∷ us) p good =
      updates_kept us (apply_update u.0 u.1 p).1 (apply_update-IsQuorum u.0 u.1 p good)

-- Whatever updates a new policy has had, its quorum is between 50 and 100 percent.
pub updates-IsQuorum :
    {fl : Floats} (Cid : Type 0) (now : ℕ) (federation_did : String)
    (updates : List (ℕ × MeshPolicyFragment fl))
    → IsQuorum (after {Cid = Cid} updates (new_default fl now federation_did)).verification_quorum
unfolding new_default
updates-IsQuorum {fl} Cid now federation_did updates =
    updates_kept updates (new_default fl now federation_did) (omega arith, omega arith)
