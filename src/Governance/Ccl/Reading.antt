-- ===== src/Governance/Ccl/Reading.antt =====
-- How the interpreter of crates/runtime/icn-governance-kernel/src/lib.rs reads the pairs of a section:
-- `if let` on a value, the loops that collect an array's values, and the loop that finds a section.
use mathlib.Core.List.{foldl, filter_map}
use icn.Prelude.{ℕ, Bool, Option, none, some, String, List, [], ◌∷◌, if◌then◌else◌, ◌==◌, string_eq}
use icn.Prelude.Floats.{Floats}
use icn.Governance.Ccl.{
  CclValue, string, number, boolean, object, array, CclPair, pairs_of, values_of,
}

-- `if let Some(new) = ... { x = Some(new) }`: the variable's next content.
unfoldable pub newer {ℓ} : {A : Type ℓ} → Option A → Option A → Option A
newer none old = old
newer (some new) old = some new

-- `if !vec.is_empty() { Some(vec) }`
unfoldable pub unless_empty : {A : Type 0} → List A → Option (List A)
unless_empty [] = none
unless_empty (x ∷ xs) = some (x ∷ xs)

module _ {fl : Floats} where
  unfoldable pub as_string : CclValue fl → Option String
  as_string v = elim v [ string s ↦ some s | _ ↦ none ]

  unfoldable pub as_number : CclValue fl → Option fl.F
  as_number v = elim v [ number n ↦ some n | _ ↦ none ]

  -- `*n as u64`
  unfoldable pub as_u64 : CclValue fl → Option ℕ
  as_u64 v = elim v [ number n ↦ some (fl.to_u64 n) | _ ↦ none ]

  unfoldable pub as_boolean : CclValue fl → Option Bool
  as_boolean v = elim v [ boolean b ↦ some b | _ ↦ none ]

  unfoldable pub as_object : CclValue fl → Option (List (CclPair fl))
  as_object v = elim v [ object ps ↦ some (pairs_of ps) | _ ↦ none ]

  unfoldable pub as_array : CclValue fl → Option (List (CclValue fl))
  as_array v = elim v [ array vs ↦ some (values_of vs) | _ ↦ none ]

  -- The strings among the values of an array.
  unfoldable pub strings : List (CclValue fl) → List String
  strings vs = filter_map as_string vs

  -- An array, read value by value; nothing when no value can be read.
  unfoldable pub as_list : {A : Type 0} → (CclValue fl → Option A) → CclValue fl → Option (List A)
  as_list read v = elim (as_array v) [ none ↦ none | some vs ↦ unless_empty (filter_map read vs) ]

  unfoldable pub as_strings : CclValue fl → Option (List String)
  as_strings v = as_list as_string v

  -- An object, read by a loop over its pairs.
  unfoldable pub as_record : {A : Type 0} → (A → CclPair fl → A) → A → CclValue fl → Option A
  as_record step start v = elim (as_object v) [ none ↦ none | some ps ↦ some (foldl step start ps) ]

  -- The first pair of the section that holds an object, read by a loop over that object's pairs.
  unfoldable pub extract_section :
      {A : Type 0} → String → (A → CclPair fl → A) → A → List (CclPair fl) → Option A
  extract_section name step start [] = none
  extract_section name step start (p ∷ ps) =
      let rest = extract_section name step start ps in
      if p.key == name
      then elim (as_record step start p.value) [ none ↦ rest | some a ↦ some a ]
      else rest
