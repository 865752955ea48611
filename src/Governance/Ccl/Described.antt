-- ===== src/Governance/Ccl/Described.antt =====
-- What the loops of CclInterpreter in crates/runtime/icn-governance-kernel/src/lib.rs read, described
-- without a loop's state: the last value of the right type under each key of the first section.
pub mod Sections
pub mod Membership
pub mod Config
use mathlib.Core.List.{foldl}
use icn.Prelude.{
  ◌≡◌, refl, sym, ap, ◌∙◌, inl, inr, Bool, true, false, Option, none, some, Option-cases, String,
  List, [], ◌∷◌, arith, if◌then◌else◌, ◌==◌, ==_iff, string_eq, ne_of_beq,
}
use icn.Prelude.Floats.{Floats}
use icn.Governance.Ccl.{CclValue, CclPair}
use icn.Governance.Ccl.Reading.{newer, as_object, as_record, extract_section}

-- Two literals are not the same key.
pub apart : (k a b : String) → (a == b) ≡ false → (k == a) ≡ true → (k == b) ≡ false
apart k a b h same = ground (arith, ==_iff k a, ==_iff k b, ne_of_beq a b h, same)

newer-none : {A : Type 0} (o : Option A) → newer o none ≡ o
unfolding newer
newer-none none = refl
newer-none (some a) = refl

newer-newer : {A : Type 0} (a b c : Option A) → newer (newer a b) c ≡ newer a (newer b c)
unfolding newer
newer-newer none b c = refl
newer-newer (some x) b c = refl

module _ {fl : Floats} where
  -- The last value of the right type that stands under a key.
  unfoldable pub last_read :
      {A : Type 0} → String → (CclValue fl → Option A) → List (CclPair fl) → Option A
  last_read key read [] = none
  last_read key read (p ∷ ps) =
      newer (last_read key read ps) (if p.key == key then read p.value else none)

  -- The pairs of the first object that stands under a key.
  unfoldable pub first_object : String → List (CclPair fl) → Option (List (CclPair fl))
  first_object key [] = none
  first_object key (p ∷ ps) =
      let rest = first_object key ps in
      if p.key == key then newer (as_object p.value) rest else rest

  -- An object, described by its pairs.
  unfoldable pub declared :
      {A : Type 0} → (List (CclPair fl) → A) → Option (List (CclPair fl)) → Option A
  declared describe none = none
  declared describe (some ps) = some (describe ps)

  module _ {S A : Type 0} (field : S → Option A) (step : S → CclPair fl → S) (key : String)
      (read : CclValue fl → Option A)
      (reads : (s : S) (p : CclPair fl)
        → field (step s p)
          ≡ (if p.key == key then newer (read p.value) (field s) else field s)) where
    -- A variable of a loop ends with what was read last, if its step reads one key into it.
    foldl-last_read :
        (s : S) (ps : List (CclPair fl))
        → field (foldl step s ps) ≡ newer (last_read key read ps) (field s)
    unfolding last_read newer
    foldl-last_read s [] = refl
    foldl-last_read s (p ∷ ps) =
        let read_now = if p.key == key then read p.value else none in
        ground (
          arith,
          foldl-last_read (step s p) ps,
          reads s p,
          newer-newer (last_read key read ps) read_now (field s),
        )

    pub foldl-last_read_new :
        (s : S) (ps : List (CclPair fl))
        → field s ≡ none
        → field (foldl step s ps) ≡ last_read key read ps
    foldl-last_read_new s ps new =
        foldl-last_read s ps ∙ ap (newer (last_read key read ps)) new ∙ newer-none _

  module _ {A : Type 0} (step : A → CclPair fl → A) (start : A) (describe : List (CclPair fl) → A)
      (same : (ps : List (CclPair fl)) → foldl step start ps ≡ describe ps) where
    pub as_record-declared :
        (v : CclValue fl) → as_record step start v ≡ declared describe (as_object v)
    unfolding as_record declared
    as_record-declared v = elim (Option-cases (as_object v)) [
      | inl nothing ↦ ground (arith, nothing)
      | inr (ps, holds) ↦ ground (arith, holds, same ps)
    ]

    pub extract_section-first_object :
        (name : String) (ps : List (CclPair fl))
        → extract_section name step start ps ≡ declared describe (first_object name ps)
    unfolding extract_section first_object as_record newer declared
    extract_section-first_object name [] = refl
    extract_section-first_object name (p ∷ ps) = elim (Option-cases (as_object p.value)) [
      | inl nothing ↦ ground (arith, extract_section-first_object name ps, nothing)
      | inr (qs, holds) ↦ ground (arith, extract_section-first_object name ps, holds, same qs)
    ]
