-- ===== src/Prelude/EqClass.antt =====
-- Boolean equality as an instance, for the keys of maps and for `==` in the source.
use Prim.Native.Nat.{ℕ}
use Prim.Native.String.{String}
use mathlib.Core.Path.{◌≡◌, refl}
use mathlib.Core.Logic.{◌↔◌, ◌≢◌}
use mathlib.Core.Bool.{Bool, true, false}
use text.Mathlib.Text.{◌==◌ as str_eq}
use text.Mathlib.TextEquality.{eq_iff}
use mathlib.Core.List.{List, [], ◌∷◌}
use native.Mathlib.Omega.{arith}
use icn.Prelude.Tests.{nat_beq, nat_beq_iff, if◌then◌else◌}

-- `PartialEq`, for types whose `==` is equality.
pub record PartialEq {ℓ} (A : Type ℓ) : Type ℓ where
  pub same : (x y : A) → Bool
  pub same_iff : (x y : A) → (same x y ≡ true) ↔ (x ≡ y)

infix 50 ◌==◌
module _ {ℓ} {A : Type ℓ} where
  abbrev pub ◌==◌ : ⦃e : PartialEq A⦄ → A → A → Bool
  ◌==◌ ⦃e⦄ x y = e.same x y

instance abbrev pub string_eq : PartialEq String
string_eq = record { same_iff = eq_iff; same = str_eq }

instance abbrev pub nat_eq : PartialEq ℕ
nat_eq = record { same_iff = nat_beq_iff; same = nat_beq }

pub ==_iff {ℓ} : {A : Type ℓ} ⦃e : PartialEq A⦄ (a b : A) → ((a == b) ≡ true) ↔ (a ≡ b)
==_iff ⦃e⦄ a b = e.same_iff a b

pub ==-refl {ℓ} : {A : Type ℓ} ⦃e : PartialEq A⦄ (a : A) → (a == a) ≡ true
==-refl ⦃e⦄ a = (e.same_iff a a).1 refl

pub ne_of_beq {ℓ} : {A : Type ℓ} ⦃e : PartialEq A⦄ (a b : A) → (a == b) ≡ false → a ≢ b
ne_of_beq ⦃e⦄ a b h same = cc ((e.same_iff a b).1 same)

-- the equality of two vectors
unfoldable pub list_beq : {A : Type 0} ⦃e : PartialEq A⦄ → List A → List A → Bool
list_beq [] [] = true
list_beq (x ∷ xs) (y ∷ ys) = let rest = list_beq xs ys in if x == y then rest else false
list_beq _ _ = false

pub list_beq_iff :
    {A : Type 0} ⦃e : PartialEq A⦄ (xs ys : List A) → (list_beq xs ys ≡ true) ↔ (xs ≡ ys)
unfolding list_beq
list_beq_iff [] [] = (λ _. refl, λ _. refl)
list_beq_iff [] (y ∷ ys) = (ground arith, ground arith)
list_beq_iff (x ∷ xs) [] = (ground arith, ground arith)
list_beq_iff (x ∷ xs) (y ∷ ys) =
    (ground (arith, ==_iff x y, list_beq_iff xs ys), ground (arith, ==_iff x y, list_beq_iff xs ys))

instance abbrev pub list_eq : {A : Type 0} ⦃e : PartialEq A⦄ → PartialEq (List A)
list_eq = record { same = list_beq; same_iff = list_beq_iff }
