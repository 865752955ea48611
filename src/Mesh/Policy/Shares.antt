-- ===== src/Mesh/Policy/Shares.antt =====
-- The percentages of the reward settings under MeshPolicy::apply_update of
-- crates/mesh/mesh-types/src/lib.rs.
use icn.Prelude.{ℕ, ◌<◌, ◌≡◌, ◌≢◌, refl, false, Option, none, some, arith, nat_eq}
use icn.Prelude.Floats.{Floats}
use icn.Mesh.Policy.{RewardSettings, MeshPolicy, RewardSettingsFragment, MeshPolicyFragment}
use icn.Mesh.Policy.Update.{sums_wrongly, update_rewards, apply_update}
use icn.Mesh.Policy.Bounds.{IsSplit, rewards_updated}

-- The three percentages of the reward settings, and of a fragment of them.
pub data Share : Type 0 where
  of_worker of_verifier of_platform : Share

abbrev pub share : Share → RewardSettings → ℕ
share of_worker r = r.worker_percentage
share of_verifier r = r.verifier_percentage
share of_platform r = r.platform_fee_percentage

abbrev pub given_share : Share → RewardSettingsFragment → Option ℕ
given_share of_worker r = r.worker_percentage
given_share of_verifier r = r.verifier_percentage
given_share of_platform r = r.platform_fee_percentage

verifier_other : of_verifier ≢ of_worker
verifier_other h = ground (arith, h)

platform_other : of_platform ≢ of_worker
platform_other h = ground (arith, h)

worker_other : of_worker ≢ of_verifier
worker_other h = ground (arith, h)

platform_other_verifier : of_platform ≢ of_verifier
platform_other_verifier h = ground (arith, h)

worker_other_platform : of_worker ≢ of_platform
worker_other_platform h = ground (arith, h)

verifier_other_platform : of_verifier ≢ of_platform
verifier_other_platform h = ground (arith, h)

lone-sums_wrongly :
    (k : Share) (w : ℕ) (r : RewardSettingsFragment)
    → given_share k r ≡ some w
    → ((l : Share) → l ≢ k → given_share l r ≡ none)
    → sums_wrongly r ≡ false
unfolding sums_wrongly
lone-sums_wrongly of_worker w r taken others =
    ground (arith, taken, others of_verifier verifier_other)
lone-sums_wrongly of_verifier w r taken others =
    ground (arith, taken, others of_worker worker_other)
lone-sums_wrongly of_platform w r taken others =
    ground (arith, taken, others of_worker worker_other_platform)

share_taken :
    (k : Share) (w : ℕ) (f : RewardSettingsFragment) (r : RewardSettings)
    → given_share k f ≡ some w
    → share k (update_rewards f r) ≡ w
unfolding update_rewards
share_taken of_worker w f r taken = rw taken refl
share_taken of_verifier w f r taken = rw taken refl
share_taken of_platform w f r taken = rw taken refl

share_kept :
    (l : Share) (f : RewardSettingsFragment) (r : RewardSettings)
    → given_share l f ≡ none
    → share l (update_rewards f r) ≡ share l r
unfolding update_rewards
share_kept of_worker f r absent = rw absent refl
share_kept of_verifier f r absent = rw absent refl
share_kept of_platform f r absent = rw absent refl

another-IsSplit :
    (k : Share) (w : ℕ) (r r' : RewardSettings)
    → share k r' ≡ w
    → ((l : Share) → l ≢ k → share l r' ≡ share l r)
    → w < 256
    → share k r < 256
    → w ≢ share k r
    → IsSplit r
    → ¬ IsSplit r'
another-IsSplit of_worker w r r' took kept small before differs split bad = ground (
  arith,
  took,
  kept of_verifier verifier_other,
  kept of_platform platform_other,
  differs,
  split,
  bad,
)
another-IsSplit of_verifier w r r' took kept small before differs split bad = ground (
  arith,
  took,
  kept of_worker worker_other,
  kept of_platform platform_other_verifier,
  differs,
  split,
  bad,
)
another-IsSplit of_platform w r r' took kept small before differs split bad = ground (
  arith,
  took,
  kept of_worker worker_other_platform,
  kept of_verifier verifier_other_platform,
  differs,
  split,
  bad,
)

lone_share :
    (k : Share) (w : ℕ) (f : RewardSettingsFragment) (r : RewardSettings)
    → given_share k f ≡ some w
    → ((l : Share) → l ≢ k → given_share l f ≡ none)
    → w < 256
    → share k r < 256
    → w ≢ share k r
    → IsSplit r
    → (share k (update_rewards f r) ≡ w)
      × ((l : Share) → l ≢ k → share l (update_rewards f r) ≡ share l r)
      × ¬ IsSplit (update_rewards f r)
lone_share k w f r taken others small before differs split =
    let took : share k (update_rewards f r) ≡ w = share_taken k w f r taken in
    let kept : (l : Share) → l ≢ k → share l (update_rewards f r) ≡ share l r =
      λ l ne. share_kept l f r (others l ne) in
    (took, kept, another-IsSplit k w r (update_rewards f r) took kept small before differs split)

module _ {fl : Floats} {Cid : Type 0} where
  -- A percentage that is given alone, be it the worker's, the verifiers' or the platform's, is taken,
  -- and the other two stay: the shares then no longer add up to 100, though they did, unless the
  -- percentage is the one that was there. Percentages are u8.
  pub lone_percentage_breaks :
      (now w : ℕ) (k : Share) (f : MeshPolicyFragment fl) (r : RewardSettingsFragment)
      (p : MeshPolicy fl Cid)
      → f.reward_settings ≡ some r
      → given_share k r ≡ some w
      → ((l : Share) → l ≢ k → given_share l r ≡ none)
      → w < 256
      → share k p.reward_settings < 256
      → w ≢ share k p.reward_settings
      → IsSplit p.reward_settings
      → let shares = (apply_update now f p).1.reward_settings in
        (share k shares ≡ w)
        × ((l : Share) → l ≢ k → share l shares ≡ share l p.reward_settings)
        × ¬ IsSplit shares
  lone_percentage_breaks now w k f r p taken_in taken others small before differs split =
      let fine : sums_wrongly r ≡ false = lone-sums_wrongly k w r taken others in
      rw (rewards_updated now f r p taken_in fine)
        (lone_share k w r p.reward_settings taken others small before differs split)
