-- ===== src/Escrow/Contracts/States.antt =====
-- The states of an escrow contract under the methods of crates/mesh/mesh-escrow/src/contracts.rs.
use icn.Prelude.{
  ℕ, ◌≡◌, ◌≢◌, refl, ap, sym, ◌∙◌, Bool, true, false, none, some, String, ok, err, arith, ◌==◌,
  ==_iff, string_eq, nat_eq,
}
use icn.Prelude.Map.{get, insert, get-insert_self, get-insert}
use icn.Prelude.Floats.{Floats}
use icn.Escrow.Token.{TokenAmount}
use icn.Escrow.Contracts.{
  EscrowState, created, in_progress, completed, disputed, failed, expired, state_eq, state_beq,
  EscrowContract, EscrowSystem, TokenLock, wrong_state, holding, find, put, update_contract_state,
  lock_tokens, process_execution, process_verification, create_dispute,
}

-- A contract is settled when it is neither new nor in progress.
abbrev pub is_settled : EscrowState → Bool
is_settled created = false
is_settled in_progress = false
is_settled completed = true
is_settled disputed = true
is_settled failed = true
is_settled expired = true

module _ {fl : Floats} {Cid : Type 0} where
  free_again :
      (s : EscrowSystem fl Cid) → s.contracts_held ≡ false → record s { contracts_held = false } ≡ s
  free_again s free = ap (λ (b : Bool). record s { contracts_held = b }) (sym free)

  refusals :
      (score : String → fl.F) (now : ℕ) (uuid id verifier : String) (verdict : Bool) (cid : Cid)
      (a : TokenAmount) (c : EscrowContract Cid) (s : EscrowSystem fl Cid)
      → get id s.contracts ≡ some c
      → is_settled c.state ≡ true
      → let t = record s { contracts_held = false } in
        (lock_tokens uuid now id a t ≡ (err (wrong_state c.state), t))
        × (process_execution score now id cid t ≡ (err (wrong_state c.state), t))
        × (process_verification score now id verifier verdict t ≡ (err (wrong_state c.state), t))
        × (create_dispute id t ≡ (err (wrong_state c.state), t))
  unfolding lock_tokens process_execution process_verification create_dispute holding find state_beq
  refusals score now uuid id verifier verdict cid a c s found final = ground arith

  -- A settled contract stays settled: it takes no lock, no execution, no verification and no
  -- dispute, and each of these calls reports its state and changes nothing.
  pub settled_refuses :
      (score : String → fl.F) (now : ℕ) (uuid id verifier : String) (verdict : Bool) (cid : Cid)
      (a : TokenAmount) (c : EscrowContract Cid) (s : EscrowSystem fl Cid)
      → s.contracts_held ≡ false
      → get id s.contracts ≡ some c
      → is_settled c.state ≡ true
      → (lock_tokens uuid now id a s ≡ (err (wrong_state c.state), s))
        × (process_execution score now id cid s ≡ (err (wrong_state c.state), s))
        × (process_verification score now id verifier verdict s ≡ (err (wrong_state c.state), s))
        × (create_dispute id s ≡ (err (wrong_state c.state), s))
  settled_refuses score now uuid id verifier verdict cid a c s free found final =
      rw (free_again s free) at (refusals score now uuid id verifier verdict cid a c s found final)

  started :
      (now : ℕ) (uuid id : String) (a : TokenAmount) (c : EscrowContract Cid)
      (s : EscrowSystem fl Cid)
      → get id s.contracts ≡ some c
      → c.state ≡ created
      → let lock : TokenLock = record {
        lock_id = uuid;
        owner_did = c.publisher_did;
        contract_id = id;
        amount = a;
        locked_at = now;
        lock_expires_at = c.expires_at;
        released = false;
        released_at = none;
      } in
        lock_tokens uuid now id a (record s { contracts_held = false }) ≡ (
          ok lock,
          record s {
            contracts_held = false;
            locks = insert uuid lock s.locks;
            contracts = insert id (record c { state = in_progress }) s.contracts;
          },
        )
  unfolding lock_tokens update_contract_state holding find put state_beq
  started now uuid id a c s found new = ground arith

  relock :
      (now : ℕ) (uuid id : String) (a : TokenAmount) (c : EscrowContract Cid)
      (s : EscrowSystem fl Cid)
      → get id s.contracts ≡ some c
      → (c.state == created) ≡ false
      → lock_tokens uuid now id a (record s { contracts_held = false })
        ≡ (err (wrong_state c.state), record s { contracts_held = false })
  unfolding lock_tokens holding find
  relock now uuid id a c s found old = ground arith

  -- Locking tokens starts a new contract: the lock is there for the publisher, not released, the
  -- contract is in progress, no other contract changes, and a second lock is refused.
  pub lock_tokens_starts :
      (now later : ℕ) (uuid next id other : String) (a : TokenAmount) (c : EscrowContract Cid)
      (s : EscrowSystem fl Cid)
      → s.contracts_held ≡ false
      → get id s.contracts ≡ some c
      → c.state ≡ created
      → id ≢ other
      → let (r, s') = lock_tokens uuid now id a s in
        (l : TokenLock) × (r ≡ ok l)
        × (get uuid s'.locks ≡ some l)
        × (l.owner_did ≡ c.publisher_did)
        × (l.released ≡ false)
        × (get id s'.contracts ≡ some (record c { state = in_progress }))
        × (get other s'.contracts ≡ get other s.contracts)
        × (lock_tokens next later id a s' ≡ (err (wrong_state in_progress), s'))
  unfolding state_beq
  lock_tokens_starts now later uuid next id other a c s free found new ne =
      let c' : EscrowContract Cid = record c { state = in_progress } in
      let l : TokenLock = record {
        lock_id = uuid;
        owner_did = c.publisher_did;
        contract_id = id;
        amount = a;
        locked_at = now;
        lock_expires_at = c.expires_at;
        released = false;
        released_at = none;
      } in
      let s' : EscrowSystem fl Cid = record s {
        contracts_held = false;
        locks = insert uuid l s.locks;
        contracts = insert id c' s.contracts;
      } in
      rw
        (ap (lock_tokens uuid now id a) (sym (free_again s free))
          ∙ started now uuid id a c s found new)
        (
          l,
          refl,
          get-insert_self uuid l s.locks,
          refl,
          refl,
          get-insert_self id c' s.contracts,
          ground (arith, get-insert other id c' s.contracts, ==_iff id other),
          relock later next id a c' s' (get-insert_self id c' s.contracts) refl,
        )
