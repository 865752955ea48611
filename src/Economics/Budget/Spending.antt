-- ===== src/Economics/Budget/Spending.antt =====
-- Balances of a budget under allocation and spending
-- (crates/runtime/icn-economics/src/budget_ops.rs).
use icn.Prelude.{
  ℕ, ◌+◌, ◌-◌, ◌%◌, ◌≤◌, ◌<◌, ◌≡◌, ◌≢◌, refl, none, some, [], ◌∷◌, arith, ==_iff, nat_eq, add64,
  u64_mod, sum_by,
}
use icn.Prelude.Map.{
  Map, get, insert, get_or, values, get-insert, get-insert_self, IsUnique, sum_by-insert_new,
}
use icn.Economics.Types.{ResourceType, resource_eq}
use icn.Economics.Budget.Types.{BudgetProposal, ParticipatoryBudget}
use icn.Economics.Budget.Steps.{total_spent, available_balance, allocate}
use icn.Economics.Budget.Outcome.{copy_resources, approve_spending}

-- The exact sums behind the u64 ones.
abbrev pub spent_on : {J : Type 0} → ResourceType → ParticipatoryBudget J → ℕ
spent_on t b = sum_by (λ p. get_or t 0 p.1) b.spent_by_proposal

abbrev pub allocated_for : {J : Type 0} → ResourceType → ParticipatoryBudget J → ℕ
allocated_for t b = get_or t 0 b.total_allocated

total_spent-mod :
    (t : ResourceType) (m : Map ℕ (Map ResourceType ℕ))
    → total_spent t (values m) ≡ sum_by (λ p. get_or t 0 p.1) m % u64_mod
unfolding total_spent
total_spent-mod t [] = omega arith
total_spent-mod t ((k, v) ∷ m) = omega (arith, total_spent-mod t m)

-- The balance is what was allocated less what was spent, and 0 where more was spent than
-- allocated; as long as the spent amounts sum up to a u64.
pub available_balance_exact :
    {J : Type 0} (t : ResourceType) (b : ParticipatoryBudget J)
    → spent_on t b < u64_mod
    → available_balance t b ≡ allocated_for t b - spent_on t b
unfolding available_balance
available_balance_exact t b h = ground (arith, total_spent-mod t b.spent_by_proposal)

-- An allocation raises the balance of its resource by its amount, and of no other, on a budget that
-- has not overspent and where the sum is a u64.
pub available_balance-allocate :
    {J : Type 0} (t u : ResourceType) (n : ℕ) (b : ParticipatoryBudget J)
    → spent_on t b ≤ allocated_for t b
    → allocated_for t b + n < u64_mod
    → t ≢ u
    → (available_balance t (allocate t n b) ≡ available_balance t b + n)
      × (available_balance u (allocate t n b) ≡ available_balance u b)
unfolding available_balance allocate
available_balance-allocate t u n b h room ne = (
  ground (
    arith,
    get-insert_self t (add64 (allocated_for t b) n) b.total_allocated,
    total_spent-mod t b.spent_by_proposal,
  ),
  ground (arith, get-insert u t (add64 (allocated_for t b) n) b.total_allocated, ==_iff t u),
)

-- Copying a map of distinct keys changes no entry.
get-copy_resources :
    (t : ResourceType) (m acc : Map ResourceType ℕ)
    → IsUnique m
    → get t (copy_resources m acc) ≡ elim (get t m) [ some n ↦ some n | none ↦ get t acc ]
unfolding copy_resources get
get-copy_resources t [] acc u = refl
get-copy_resources t ((k, n) ∷ m) acc u =
    ground (arith, get-copy_resources t m (insert k n acc) u.1, get-insert t k n acc, ==_iff k t)

pub get_or-copy_resources :
    (t : ResourceType) (m : Map ResourceType ℕ)
    → IsUnique m
    → get_or t 0 (copy_resources m []) ≡ get_or t 0 m
unfolding get
get_or-copy_resources t m u = ground (arith, get-copy_resources t m [] u)

-- An approval of a proposal that has not spent yet adds its request to what is spent, of every
-- resource, and touches no allocation.
pub spent_on-approve_spending :
    {J : Type 0} (t : ResourceType) (pid : ℕ) (p : BudgetProposal J) (b : ParticipatoryBudget J)
    → get pid b.spent_by_proposal ≡ none
    → IsUnique p.requested_resources
    → (spent_on t (approve_spending pid p b) ≡ spent_on t b + get_or t 0 p.requested_resources)
      × (allocated_for t (approve_spending pid p b) ≡ allocated_for t b)
unfolding approve_spending
spent_on-approve_spending t pid p b fresh u = (
  ground (
    arith,
    sum_by-insert_new (λ (m : Map ResourceType ℕ). get_or t 0 m) pid
        (copy_resources p.requested_resources []) b.spent_by_proposal fresh,
    get_or-copy_resources t p.requested_resources u,
  ),
  refl,
)

-- So an approved request that was covered comes off the balance exactly.
pub available_balance-approve_spending :
    {J : Type 0} (t : ResourceType) (pid : ℕ) (p : BudgetProposal J) (b : ParticipatoryBudget J)
    → get pid b.spent_by_proposal ≡ none
    → IsUnique p.requested_resources
    → spent_on t b + get_or t 0 p.requested_resources ≤ allocated_for t b
    → allocated_for t b < u64_mod
    → available_balance t (approve_spending pid p b) + get_or t 0 p.requested_resources
      ≡ available_balance t b
available_balance-approve_spending t pid p b fresh u cover room = omega (
  arith,
  spent_on-approve_spending t pid p b fresh u,
  available_balance_exact t b,
  available_balance_exact t (approve_spending pid p b),
)

pub spent_fresh :
    {J : Type 0} (i j : ℕ) (p : BudgetProposal J) (b : ParticipatoryBudget J)
    → i ≢ j
    → get j b.spent_by_proposal ≡ none
    → get j (approve_spending i p b).spent_by_proposal ≡ none
unfolding approve_spending
spent_fresh i j p b ne fj = ground (
  arith,
  get-insert j i (copy_resources p.requested_resources []) b.spent_by_proposal,
  ==_iff i j,
)

-- Two approvals of proposals that each fit the balance, and together do not, spend more than was
-- allocated, and the balance reads 0.
pub twice-approve_spending :
    {J : Type 0} (t : ResourceType) (i j : ℕ) (p q : BudgetProposal J) (b : ParticipatoryBudget J)
    → i ≢ j
    → get i b.spent_by_proposal ≡ none
    → get j b.spent_by_proposal ≡ none
    → IsUnique p.requested_resources
    → IsUnique q.requested_resources
    → spent_on t b ≤ allocated_for t b
    → get_or t 0 p.requested_resources ≤ available_balance t b
    → get_or t 0 q.requested_resources ≤ available_balance t b
    → available_balance t b < get_or t 0 p.requested_resources + get_or t 0 q.requested_resources
    → spent_on t b + get_or t 0 p.requested_resources + get_or t 0 q.requested_resources < u64_mod
    → let c = approve_spending j q (approve_spending i p b) in
      (allocated_for t c < spent_on t c) × (available_balance t c ≡ 0)
twice-approve_spending t i j p q b ne fi fj up uq sound fits_p fits_q over room =
    let c1 : ParticipatoryBudget _ = approve_spending i p b in
    let c : ParticipatoryBudget _ = approve_spending j q c1 in
    let fresh : get j c1.spent_by_proposal ≡ none = spent_fresh i j p b ne fj in
    omega (
      arith,
      spent_on-approve_spending t i p b fi up,
      spent_on-approve_spending t j q c1 fresh uq,
      available_balance_exact t b,
      available_balance_exact t c,
    )
