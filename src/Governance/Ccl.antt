-- ===== src/Governance/Ccl.antt =====
-- The values of CCL documents: crates/runtime/icn-governance-kernel/src/ast.rs. An object's pairs and
-- an array's values are lists of the block; `pairs_of` and `values_of` are their iterators. `Node`,
-- `Value` and the conversions are not modelled, since the interpreter uses none of them.
pub mod Reading
pub mod Sections
pub mod Membership
pub mod Interpret
pub mod Checks
pub mod Typing
pub mod Accepted
pub mod Described
mod Tests
use icn.Prelude.{Bool, String, List, [], ◌∷◌}
use icn.Prelude.Floats.{Floats}

mutual
  pub data CclValue (fl : Floats) : Type 0 where
    string : String → CclValue fl
    number : fl.F → CclValue fl
    boolean : Bool → CclValue fl
    object : Pairs fl → CclValue fl
    array : Values fl → CclValue fl
    identifier : String → CclValue fl
    null : CclValue fl

  -- `Vec<CclPair>`
  pub data Pairs (fl : Floats) : Type 0 where
    no_pairs : Pairs fl
    pair : (key : String) → CclValue fl → Pairs fl → Pairs fl

  -- `Vec<CclValue>`
  pub data Values (fl : Floats) : Type 0 where
    no_values : Values fl
    value : CclValue fl → Values fl → Values fl

pub record CclPair (fl : Floats) : Type 0 where
  pub key : String
  pub value : CclValue fl

pub record CclRoot (fl : Floats) : Type 0 where
  pub template_type : String
  pub content : CclValue fl

unfoldable pub pairs_of : {fl : Floats} → Pairs fl → List (CclPair fl)
pairs_of no_pairs = []
pairs_of (pair k v ps) = record { key = k; value = v } ∷ pairs_of ps

unfoldable pub values_of : {fl : Floats} → Values fl → List (CclValue fl)
values_of no_values = []
values_of (value v vs) = v ∷ values_of vs
