-- ===== src/Prelude/Map.antt =====
-- `HashMap` as an association list, in the order in which an iteration visits it.
use Prim.Native.Nat.{ℕ, ◌+◌, ◌≤◌}
use mathlib.Core.Path.{◌≡◌, refl}
use mathlib.Core.Logic.{◌≢◌}
use mathlib.Core.Bool.{Bool, true, false}
use mathlib.Core.Option.{Option, none, some}
use mathlib.Core.List.{List, [], ◌∷◌, map}
use native.Mathlib.Omega.{arith}
use icn.Prelude.Tests.{if◌then◌else◌}
use icn.Prelude.Lists.{sum_by}
use icn.Prelude.Results.{unwrap_or}
use icn.Prelude.EqClass.{PartialEq, ◌==◌, ==_iff}

abbrev pub Map : Type 0 → Type 0 → Type 0
Map K V = List (K × V)

abbrev pub values : {K V : Type 0} → Map K V → List V
values = map λ e. e.1

abbrev pub keys : {K V : Type 0} → Map K V → List K
keys = map λ e. e.0

-- `values_mut`: every value is changed in place
abbrev pub map_values : {K V : Type 0} → (V → V) → Map K V → Map K V
map_values f = map λ e. (e.0, f e.1)

module _ {K V : Type 0} ⦃e : PartialEq K⦄ where
  unfoldable pub get : K → Map K V → Option V
  get k [] = none
  get k ((j, v) ∷ m) = if j == k then some v else get k m

  unfoldable pub insert : K → V → Map K V → Map K V
  insert k v [] = (k, v) ∷ []
  insert k v ((j, w) ∷ m) = if j == k then (j, v) ∷ m else (j, w) ∷ insert k v m

  unfoldable pub remove : K → Map K V → Map K V
  remove k [] = []
  remove k ((j, w) ∷ m) = let rest = remove k m in if j == k then rest else (j, w) ∷ rest

  abbrev pub contains_key : K → Map K V → Bool
  contains_key k m = elim (get k m) [ none ↦ false | some _ ↦ true ]

  -- `entry(k).or_insert(v)`, as the map that it leaves
  abbrev pub or_insert : K → V → Map K V → Map K V
  or_insert k v m = elim (get k m) [ none ↦ insert k v m | some _ ↦ m ]

  abbrev pub get_or : K → V → Map K V → V
  get_or k d m = unwrap_or (get k m) d

  pub get-insert :
      (j k : K) (v : V) (m : Map K V) → get j (insert k v m) ≡ (if k == j then some v else get j m)
  unfolding get insert
  get-insert j k v [] = refl
  get-insert j k v ((i, w) ∷ m) =
      ground (arith, ==_iff k j, ==_iff i k, ==_iff i j, get-insert j k v m)

  pub get-remove : (j k : K) (m : Map K V) → get j (remove k m) ≡ (if k == j then none else get j m)
  unfolding get remove
  get-remove j k [] = ground arith
  get-remove j k ((i, w) ∷ m) = ground (arith, ==_iff k j, ==_iff i k, ==_iff i j, get-remove j k m)

  pub get-insert_self : (k : K) (v : V) (m : Map K V) → get k (insert k v m) ≡ some v
  get-insert_self k v m = ground (arith, get-insert k k v m, ==_iff k k)

  pub get-insert_ne : (j k : K) (v : V) (m : Map K V) → k ≢ j → get j (insert k v m) ≡ get j m
  get-insert_ne j k v m h = ground (arith, get-insert j k v m, ==_iff k j)

  pub get-remove_self : (k : K) (m : Map K V) → get k (remove k m) ≡ none
  get-remove_self k m = ground (arith, get-remove k k m, ==_iff k k)

  pub insert-insert : (k : K) (v w : V) (m : Map K V) → insert k v (insert k w m) ≡ insert k v m
  unfolding insert
  insert-insert k v w [] = ground (arith, ==_iff k k)
  insert-insert k v w ((i, x) ∷ m) = ground (arith, ==_iff i k, insert-insert k v w m)

  module _ (f : V → ℕ) where
    -- What a measure of the values does under a write.
    pub sum_by-insert :
        (k : K) (v old : V) (m : Map K V)
        → get k m ≡ some old
        → sum_by (λ p. f p.1) (insert k v m) + f old ≡ sum_by (λ p. f p.1) m + f v
    unfolding get insert
    sum_by-insert k v old [] h = ground arith
    sum_by-insert k v old ((i, w) ∷ m) h = ground (arith, sum_by-insert k v old m)

    pub sum_by-insert_new :
        (k : K) (v : V) (m : Map K V)
        → get k m ≡ none
        → sum_by (λ p. f p.1) (insert k v m) ≡ sum_by (λ p. f p.1) m + f v
    unfolding get insert
    sum_by-insert_new k v [] h = omega arith
    sum_by-insert_new k v ((i, w) ∷ m) h = ground (arith, sum_by-insert_new k v m)

    pub le-sum_by : (k : K) (v : V) (m : Map K V) → get k m ≡ some v → f v ≤ sum_by (λ p. f p.1) m
    unfolding get
    le-sum_by k v [] h = ground arith
    le-sum_by k v ((i, w) ∷ m) h = ground (arith, le-sum_by k v m)

-- No key occurs twice, as in a hash map.
module _ {K V : Type 0} ⦃e : PartialEq K⦄ where
  abbrev pub IsUnique : Map K V → Type 0
  IsUnique [] = Unit
  IsUnique ((k, v) ∷ m) = (get k m ≡ none) × IsUnique m

  pub insert-IsUnique : (k : K) (v : V) (m : Map K V) → IsUnique m → IsUnique (insert k v m)
  unfolding get insert
  insert-IsUnique k v [] u = (refl, tt)
  insert-IsUnique k v ((i, w) ∷ m) u =
      ground (arith, insert-IsUnique k v m u.1, get-insert i k v m, ==_iff i k, ==_iff k i)

  pub remove-IsUnique : (k : K) (m : Map K V) → IsUnique m → IsUnique (remove k m)
  unfolding get remove
  remove-IsUnique k [] u = tt
  remove-IsUnique k ((i, w) ∷ m) u =
      ground (arith, remove-IsUnique k m u.1, get-remove i k m, ==_iff i k, ==_iff k i)

  pub remove-absent : (k : K) (m : Map K V) → get k m ≡ none → remove k m ≡ m
  unfolding get remove
  remove-absent k [] h = refl
  remove-absent k ((i, w) ∷ m) h = ground (arith, remove-absent k m)

  pub sum_by-remove :
      (f : V → ℕ) (k : K) (old : V) (m : Map K V)
      → IsUnique m
      → get k m ≡ some old
      → sum_by (λ p. f p.1) (remove k m) + f old ≡ sum_by (λ p. f p.1) m
  unfolding get remove
  sum_by-remove f k old [] u h = ground arith
  sum_by-remove f k old ((i, w) ∷ m) u h =
      ground (arith, sum_by-remove f k old m u.1, remove-absent k m, ==_iff i k)
