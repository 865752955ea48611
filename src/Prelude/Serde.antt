-- ===== src/Prelude/Serde.antt =====
-- serde_json, which the source takes from another package: a parameter of the model.
use Prim.Native.String.{String}
use mathlib.Core.Path.{◌≡◌}
use icn.Prelude.Results.{Result, ok}

-- serde_json over one type: `to_vec` and `from_slice`, each with the text of its error.
pub record Serde (A Bytes : Type 0) : Type 0 where
  pub to_vec : A → Result String Bytes
  pub from_slice : Bytes → Result String A

-- What serializes is read back from its bytes.
abbrev pub ReadsBack : {A Bytes : Type 0} → Serde A Bytes → Type 0
ReadsBack {A} {Bytes} sd = (a : A) (d : Bytes) → sd.to_vec a ≡ ok d → sd.from_slice d ≡ ok a
