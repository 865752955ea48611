-- ===== src/Mesh/Reputation/Record.antt =====
-- What the score of a peer is made of: crates/mesh/mesh-reputation/src/lib.rs.
use mathlib.Core.List.{append-nil, append_assoc, map-append}
use icn.Prelude.{
  ◌≡◌, refl, sym, ap, ◌∙◌, Bool, true, Option, none, some, String, List, [], ◌∷◌, ◌++◌, map,
  unwrap_or, arith, if◌then◌else◌, ◌==◌, ==_iff, string_eq, inl, inr, Bool-cases,
}
use icn.Prelude.Map.{Map, get, get_or, get-insert, get-insert_self, insert-insert}
use icn.Prelude.Floats.{Floats}
use icn.Mesh.Reputation.{
  Weights, ExecutionMetrics, VerificationMetrics, ReputationSystem, ExecutionReceipt,
  VerificationReceipt, bool_beq, new_system, update_policy, half, execution_score,
  verification_score, weighted_average, component, recalculate_reputation, push_metrics,
  process_execution, process_verification, slash_reputation, apply_decay, get_score, max_zero,
}

map-get_or-push_metrics :
    {M F : Type 0} (score : M → F) (d peer : String) (m : M) (h : Map String (List M))
    → map score (get_or peer [] (push_metrics d m h)) ≡ (
        if d == peer
        then map score (get_or peer [] h) ++ (score m ∷ [])
        else map score (get_or peer [] h))
unfolding push_metrics
map-get_or-push_metrics score d peer m h =
    let new = get_or d [] h ++ (m ∷ []) in
    elim (Bool-cases (d == peer)) [
      | inl here ↦ ground (
        arith,
        here,
        get-insert peer d new h,
        ==_iff d peer,
        map-append score (get_or d [] h) (m ∷ []),
      )
      | inr away ↦ ground (arith, away, get-insert peer d new h)
    ]

component_average :
    (fl : Floats) {M : Type 0} (score : M → fl.F) (o : Option (List M))
    → component fl score o ≡ weighted_average fl (map score (unwrap_or o []))
unfolding component weighted_average
component_average fl score none = refl
component_average fl score (some ms) = refl

-- What happens to a reputation system.
pub data Event (fl : Floats) : Type 0 where
  executed : ExecutionReceipt → Event fl
  verified : VerificationReceipt → (consensus : Bool) → Event fl
  slashed : String → fl.F → Event fl
  decayed : Event fl
  policy_updated : Weights fl → Event fl

module _ {fl : Floats} where
  unfoldable pub perform : ReputationSystem fl → Event fl → ReputationSystem fl
  perform s (executed receipt) = process_execution receipt s
  perform s (verified receipt consensus) = process_verification receipt consensus s
  perform s (slashed peer amount) = slash_reputation peer amount s
  perform s decayed = apply_decay s
  perform s (policy_updated policy) = update_policy policy s

module _ (fl : Floats) where
  -- What every execution counts, whatever its receipt says.
  abbrev pub full_score : fl.F
  full_score =
      fl.add (half fl)
        (fl.div (fl.mul (half fl) (fl.add (fl.of_u64 1) (fl.of_u64 1))) (fl.of_u64 2))

  abbrev pub verdict_score : Bool → fl.F
  verdict_score accurate =
      if accurate then fl.add (half fl) (fl.mul (half fl) (fl.of_u64 1)) else fl.of_u64 0

module _ {fl : Floats} where
  -- The scores that a peer has earned, by the receipts alone.
  unfoldable pub earned : String → List (Event fl) → List fl.F
  earned peer [] = []
  earned peer (executed receipt ∷ events) =
      let rest = earned peer events in
      if receipt.worker_did == peer then full_score fl ∷ rest else rest
  earned peer (_ ∷ events) = earned peer events

  unfoldable pub judged : String → List (Event fl) → List fl.F
  judged peer [] = []
  judged peer (verified receipt consensus ∷ events) =
      let rest = judged peer events in
      if receipt.verifier_did == peer
      then verdict_score fl (bool_beq receipt.verdict consensus) ∷ rest
      else rest
  judged peer (_ ∷ events) = judged peer events

  abbrev executions : String → ReputationSystem fl → List fl.F
  executions peer s = map execution_score (get_or peer [] s.execution_history)

  abbrev verifications : String → ReputationSystem fl → List fl.F
  verifications peer s = map verification_score (get_or peer [] s.verification_history)

  executions-perform :
      (peer : String) (s : ReputationSystem fl) (e : Event fl)
      → executions peer (perform s e) ≡ executions peer s ++ earned peer (e ∷ [])
  unfolding perform earned process_execution process_verification slash_reputation apply_decay
      update_policy recalculate_reputation execution_score
  executions-perform peer s (executed receipt) =
      let m : ExecutionMetrics fl = record {
        timestamp = receipt.timestamp;
        success = true;
        efficiency = fl.of_u64 1;
        time_efficiency = fl.of_u64 1;
      } in
      let pushed =
        map-get_or-push_metrics execution_score receipt.worker_did peer m s.execution_history in
      ground (arith, pushed, append-nil (executions peer s))
  executions-perform peer s (verified receipt consensus) = sym (append-nil (executions peer s))
  executions-perform peer s (slashed other amount) = sym (append-nil (executions peer s))
  executions-perform peer s decayed = sym (append-nil (executions peer s))
  executions-perform peer s (policy_updated policy) = sym (append-nil (executions peer s))

  verifications-perform :
      (peer : String) (s : ReputationSystem fl) (e : Event fl)
      → verifications peer (perform s e) ≡ verifications peer s ++ judged peer (e ∷ [])
  unfolding perform judged process_execution process_verification slash_reputation apply_decay
      update_policy recalculate_reputation verification_score
  verifications-perform peer s (verified receipt consensus) =
      let m : VerificationMetrics fl = record {
        timestamp = receipt.timestamp;
        accuracy = bool_beq receipt.verdict consensus;
        timeliness = fl.of_u64 1;
      } in
      let pushed =
        map-get_or-push_metrics verification_score receipt.verifier_did peer m
          s.verification_history in
      ground (arith, pushed, append-nil (verifications peer s))
  verifications-perform peer s (executed receipt) = sym (append-nil (verifications peer s))
  verifications-perform peer s (slashed other amount) = sym (append-nil (verifications peer s))
  verifications-perform peer s decayed = sym (append-nil (verifications peer s))
  verifications-perform peer s (policy_updated policy) = sym (append-nil (verifications peer s))

  earned-cons :
      (peer : String) (e : Event fl) (events : List (Event fl))
      → earned peer (e ∷ events) ≡ earned peer (e ∷ []) ++ earned peer events
  unfolding earned
  earned-cons peer (executed receipt) events = ground arith
  earned-cons peer (verified receipt consensus) events = refl
  earned-cons peer (slashed other amount) events = refl
  earned-cons peer decayed events = refl
  earned-cons peer (policy_updated policy) events = refl

  judged-cons :
      (peer : String) (e : Event fl) (events : List (Event fl))
      → judged peer (e ∷ events) ≡ judged peer (e ∷ []) ++ judged peer events
  unfolding judged
  judged-cons peer (executed receipt) events = refl
  judged-cons peer (verified receipt consensus) events = ground arith
  judged-cons peer (slashed other amount) events = refl
  judged-cons peer decayed events = refl
  judged-cons peer (policy_updated policy) events = refl

  abbrev pub after : List (Event fl) → ReputationSystem fl → ReputationSystem fl
  after [] s = s
  after (e ∷ events) s = after events (perform s e)

  executions-after :
      (peer : String) (events : List (Event fl)) (s : ReputationSystem fl)
      → executions peer (after events s) ≡ executions peer s ++ earned peer events
  unfolding earned
  executions-after peer [] s = sym (append-nil (executions peer s))
  executions-after peer (e ∷ events) s =
      executions-after peer events (perform s e)
      ∙ ap (λ l. l ++ earned peer events) (executions-perform peer s e)
      ∙ append_assoc (executions peer s) (earned peer (e ∷ [])) (earned peer events)
      ∙ ap (λ l. executions peer s ++ l) (sym (earned-cons peer e events))

  verifications-after :
      (peer : String) (events : List (Event fl)) (s : ReputationSystem fl)
      → verifications peer (after events s) ≡ verifications peer s ++ judged peer events
  unfolding judged
  verifications-after peer [] s = sym (append-nil (verifications peer s))
  verifications-after peer (e ∷ events) s =
      verifications-after peer events (perform s e)
      ∙ ap (λ l. l ++ judged peer events) (verifications-perform peer s e)
      ∙ append_assoc (verifications peer s) (judged peer (e ∷ [])) (judged peer events)
      ∙ ap (λ l. verifications peer s ++ l) (sym (judged-cons peer e events))

  -- The weighted sum of the averages of the two records.
  abbrev pub merit : Weights fl → (executed judged : List fl.F) → fl.F
  merit policy xs ys =
      fl.add (fl.mul policy.alpha (weighted_average fl xs))
        (fl.mul policy.beta (weighted_average fl ys))

  recalculated :
      (peer : String) (s : ReputationSystem fl)
      → get_score peer (recalculate_reputation peer s)
        ≡ merit s.policy (executions peer s) (verifications peer s)
  unfolding get_score recalculate_reputation
  recalculated peer s = ground (
    arith,
    get-insert_self peer (merit s.policy (executions peer s) (verifications peer s)) s.scores,
    component_average fl execution_score (get peer s.execution_history),
    component_average fl verification_score (get peer s.verification_history),
  )

  -- After an execution the score of its worker is made of the receipts alone: every execution counts
  -- in full, every verification by whether it met the consensus, and no slashing or decay before it
  -- counts at all.
  pub get_score-process_execution :
      (policy : Weights fl) (events : List (Event fl)) (receipt : ExecutionReceipt)
      → let s = after events (new_system policy) in
        get_score receipt.worker_did (process_execution receipt s)
        ≡ merit s.policy
            (earned receipt.worker_did events ++ (full_score fl ∷ []))
            (judged receipt.worker_did events)
  unfolding process_execution new_system get execution_score
  get_score-process_execution policy events receipt =
      let peer = receipt.worker_did in
      let s = after events (new_system policy) in
      let m : ExecutionMetrics fl = record {
        timestamp = receipt.timestamp;
        success = true;
        efficiency = fl.of_u64 1;
        time_efficiency = fl.of_u64 1;
      } in
      let mid = record s { execution_history = push_metrics peer m s.execution_history } in
      let pushed = map-get_or-push_metrics execution_score peer peer m s.execution_history in
      let known = executions-after peer events (new_system policy) in
      let xs : executions peer mid ≡ earned peer events ++ (full_score fl ∷ []) =
        ground (arith, pushed, ==_iff peer peer, known) in
      let ys : verifications peer mid ≡ judged peer events =
        verifications-after peer events (new_system policy) in
      recalculated peer mid ∙ λ i. merit s.policy (xs i) (ys i)

  -- A slashing is undone by the next execution of the peer.
  pub process_execution-slash_reputation :
      (receipt : ExecutionReceipt) (amount : fl.F) (s : ReputationSystem fl)
      → process_execution receipt (slash_reputation receipt.worker_did amount s)
        ≡ process_execution receipt s
  unfolding process_execution slash_reputation recalculate_reputation
  process_execution-slash_reputation receipt amount s =
      let histories = (process_execution receipt s).execution_history in
      let new =
        fl.add
          (fl.mul s.policy.alpha (component fl execution_score (get receipt.worker_did histories)))
          (fl.mul s.policy.beta
            (component fl verification_score (get receipt.worker_did s.verification_history))) in
      λ i. record {
        scores =
            insert-insert receipt.worker_did new
              (max_zero fl (fl.sub (get_or receipt.worker_did (half fl) s.scores) amount)) s.scores
              i;
        execution_history = histories;
        verification_history = s.verification_history;
        policy = s.policy;
      }
