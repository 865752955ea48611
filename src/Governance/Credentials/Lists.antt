-- ===== src/Governance/Credentials/Lists.antt =====
-- What sorting and removing duplicates keep of a list of roles
-- (crates/runtime/icn-governance-kernel/src/lib.rs).
use icn.Prelude.{
  ◌≡◌, refl, ◌∙◌, ◌||◌, String, List, [], ◌∷◌, ◌++◌, arith, contains, ◌==◌, ==_iff, string_eq,
}
use icn.Governance.Credentials.{insert_sorted, sort, dedup_after, dedup}

contains-insert_sorted :
    (r x : String) (xs : List String) → contains r (insert_sorted x xs) ≡ contains r (x ∷ xs)
unfolding insert_sorted
contains-insert_sorted r x [] = refl
contains-insert_sorted r x (y ∷ ys) = ground (arith, contains-insert_sorted r x ys)

contains-sort : (r : String) (xs : List String) → contains r (sort xs) ≡ contains r xs
unfolding sort
contains-sort r [] = refl
contains-sort r (x ∷ xs) = ground (arith, contains-insert_sorted r x (sort xs), contains-sort r xs)

contains-dedup_after :
    (r x : String) (xs : List String)
    → ((x == r) || contains r (dedup_after x xs)) ≡ ((x == r) || contains r xs)
unfolding dedup_after
contains-dedup_after r x [] = refl
contains-dedup_after r x (y ∷ ys) =
    ground (arith, contains-dedup_after r y ys, ==_iff x y, ==_iff y r, ==_iff x r)

contains-dedup : (r : String) (xs : List String) → contains r (dedup xs) ≡ contains r xs
unfolding dedup
contains-dedup r [] = refl
contains-dedup r (x ∷ xs) = contains-dedup_after r x xs

-- Sorting and removing duplicates keep exactly the roles that are there.
pub contains-dedup-sort :
    (r : String) (xs : List String) → contains r (dedup (sort xs)) ≡ contains r xs
contains-dedup-sort r xs = contains-dedup r (sort xs) ∙ contains-sort r xs

pub contains-append :
    (r : String) (xs ys : List String) → contains r (xs ++ ys) ≡ (contains r xs || contains r ys)
contains-append r [] ys = refl
contains-append r (x ∷ xs) ys = ground (arith, contains-append r xs ys)
