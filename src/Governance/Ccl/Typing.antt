-- ===== src/Governance/Ccl/Typing.antt =====
-- What the tests on types of CclInterpreter::interpret_ccl of crates/runtime/icn-governance-kernel/src/lib.rs
-- let pass.
use icn.Prelude.{
  ◌≡◌, ◌↔◌, inl, inr, refl, none, some, String, List, [], ◌∷◌, Result, ok, Result-cases,
  Option-cases, Bool-cases, arith, All, if◌then◌else◌, ◌==◌, ==_iff, string_eq,
}
use icn.Prelude.Floats.{Floats}
use icn.Governance.Ccl.{CclValue, CclPair}
use icn.Governance.Ccl.Reading.{as_object, as_string, as_boolean}
use icn.Governance.Ccl.Interpret.{
  CclError, check_pairs, check_object, check_quorum, check_trial, check_onboarding, check_types,
}
use icn.Governance.Ccl.Checks.{this, other}

-- No pair of an object in the section fails a test.
abbrev pub Passing : {fl : Floats} → (CclPair fl → Type 0) → CclValue fl → Type 0
Passing {fl} P v = (pairs : List (CclPair fl)) → as_object v ≡ some pairs → All P pairs

module _ {fl : Floats} where
  -- A quorum that is no text, and a trial period that is no truth value.
  abbrev pub IsTyped : CclPair fl → Type 0
  IsTyped p =
      (p.key ≡ "governance" → Passing (λ q. q.key ≡ "quorum" → as_string q.value ≡ none) p.value)
      × (p.key ≡ "membership"
          → Passing
              (λ q.
                q.key ≡ "onboarding"
                → Passing (λ r. r.key ≡ "trial_period_days" → as_boolean r.value ≡ none) q.value)
              p.value)

  check_pairs-All :
      (check : CclPair fl → Result CclError (Unit {0})) (P : CclPair fl → Type 0)
      → ((p : CclPair fl) → (check p ≡ ok tt) ↔ P p)
      → (ps : List (CclPair fl)) → (check_pairs check ps ≡ ok tt) ↔ All P ps
  unfolding check_pairs
  check_pairs-All check P same [] = (λ _. tt, λ _. refl)
  check_pairs-All check P same (p ∷ ps) = (
    λ h. elim (Result-cases (check p)) [
      | inl (u, passed) ↦
          ((same p).0 passed, (check_pairs-All check P same ps).0 (ground (arith, passed, h)))
      | inr (e, failed) ↦ ground (arith, failed, h)
    ],
    λ all. ground (arith, (same p).1 all.0, (check_pairs-All check P same ps).1 all.1),
  )

  check_object-Passing :
      (check : CclPair fl → Result CclError (Unit {0})) (P : CclPair fl → Type 0)
      → ((p : CclPair fl) → (check p ≡ ok tt) ↔ P p)
      → (v : CclValue fl) → (check_object check v ≡ ok tt) ↔ Passing P v
  unfolding check_object
  check_object-Passing check P same v = elim (Option-cases (as_object v)) [
    | inl nothing ↦ (λ h pairs holds. ground (arith, nothing, holds), λ h. ground (arith, nothing))
    | inr (ps, holds) ↦ (
      λ h pairs held. (check_pairs-All check P same pairs).0 (ground (arith, held, h)),
      λ h. ground (arith, holds, (check_pairs-All check P same ps).1 (h ps holds)),
    )
  ]

  -- A test that looks at one key only.
  keyed_iff :
      (name : String) (test : Result CclError (Unit {0})) (P : Type 0) (p : CclPair fl)
      → (test ≡ ok tt) ↔ P
      → ((if p.key == name then test else ok tt) ≡ ok tt) ↔ (p.key ≡ name → P)
  keyed_iff name test P p same = (
    λ h key. same.0 (ground (arith, this p.key name key, h)),
    λ h. elim (Bool-cases (p.key == name)) [
      | inl here ↦ ground (arith, here, same.1 (h ((==_iff p.key name).0 here)))
      | inr away ↦ ground (arith, away)
    ],
  )

  check_quorum_iff :
      (p : CclPair fl) → (check_quorum p ≡ ok tt) ↔ (p.key ≡ "quorum" → as_string p.value ≡ none)
  unfolding check_quorum as_string
  check_quorum_iff p = keyed_iff "quorum" _ _ p (ground arith, ground arith)

  check_trial_iff :
      (p : CclPair fl)
      → (check_trial p ≡ ok tt) ↔ (p.key ≡ "trial_period_days" → as_boolean p.value ≡ none)
  unfolding check_trial as_boolean
  check_trial_iff p = keyed_iff "trial_period_days" _ _ p (ground arith, ground arith)

  check_onboarding_iff :
      (p : CclPair fl)
      → (check_onboarding p ≡ ok tt) ↔ (
          p.key ≡ "onboarding"
          → Passing (λ r. r.key ≡ "trial_period_days" → as_boolean r.value ≡ none) p.value)
  unfolding check_onboarding
  check_onboarding_iff p =
      keyed_iff "onboarding" _ _ p (check_object-Passing check_trial _ check_trial_iff p.value)

  check_types_iff : (p : CclPair fl) → (check_types p ≡ ok tt) ↔ IsTyped p
  unfolding check_types
  check_types_iff p =
      let governance = check_object-Passing check_quorum _ check_quorum_iff p.value in
      let membership = check_object-Passing check_onboarding _ check_onboarding_iff p.value in
      (
        λ h. (
          λ key. governance.0 (ground (arith, this p.key "governance" key, h)),
          λ key. membership.0 (
              ground (
                arith,
                this p.key "membership" key,
                other p.key "governance" "membership" refl key,
                h,
              )),
        ),
        λ h. elim (Bool-cases (p.key == "governance")) [
          | inl here ↦ ground (arith, here, governance.1 (h.0 ((==_iff p.key "governance").0 here)))
          | inr away ↦ elim (Bool-cases (p.key == "membership")) [
            | inl here ↦
                ground (arith, away, here, membership.1 (h.1 ((==_iff p.key "membership").0 here)))
            | inr neither ↦ ground (arith, away, neither)
          ]
        ],
      )

  pub check_types-All :
      (pairs : List (CclPair fl)) → (check_pairs check_types pairs ≡ ok tt) ↔ All IsTyped pairs
  check_types-All pairs = check_pairs-All check_types IsTyped check_types_iff pairs
