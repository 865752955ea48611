-- ===== src/Governance/Ccl/Accepted.antt =====
-- Which documents CclInterpreter::interpret_ccl of crates/runtime/icn-governance-kernel/src/lib.rs
-- accepts.
use icn.Prelude.{
  ◌≡◌, ◌↔◌, inl, inr, some, String, List, Result, ok, Result-cases, Option-cases, arith, All,
  string_eq,
}
use icn.Prelude.Floats.{Floats}
use icn.Economics.Types.{IdentityScope}
use icn.Governance.Config.{GovernanceConfig}
use icn.Governance.Ccl.{CclPair, CclRoot}
use icn.Governance.Ccl.Reading.{as_object}
use icn.Governance.Ccl.Interpret.{
  template_of, check_scope, check_version, check_pairs, check_object, check_types, build_config,
  validate_required_fields, interpret_root, interpret_ccl,
}
use icn.Governance.Ccl.Checks.{
  IsFitting, IsSupported, IsComplete, check_scope-fits, fits-check_scope, check_version_iff,
  validate_required_fields-IsComplete, required_fields_accepted,
}
use icn.Governance.Ccl.Typing.{IsTyped, check_types-All}

module _ {fl : Floats} where
  -- What the text stands for: the configuration that its sections give, when the parser reads an
  -- object whose template fits the scope, whose version is known, whose quorum and trial period are
  -- of the right type, and which has the section that its template needs.
  abbrev pub IsInterpretation :
      (String → Result String (CclRoot fl)) → String → IdentityScope → GovernanceConfig fl → Type 0
  IsInterpretation parse_ccl text scope c =
      (root : CclRoot fl) × (pairs : List (CclPair fl)) × (parse_ccl text ≡ ok root)
      × (as_object root.content ≡ some pairs)
      × IsFitting (template_of root.template_type).0 scope
      × IsSupported (template_of root.template_type).1
      × All IsTyped pairs
      × (c
          ≡ build_config (template_of root.template_type).0 (template_of root.template_type).1 scope
              pairs)
      × IsComplete c

  interpret_ccl-IsInterpretation :
      (parse_ccl : String → Result String (CclRoot fl)) (text : String) (scope : IdentityScope)
      (c : GovernanceConfig fl)
      → interpret_ccl parse_ccl text scope ≡ ok c
      → IsInterpretation parse_ccl text scope c
  unfolding interpret_ccl interpret_root check_object
  interpret_ccl-IsInterpretation parse_ccl text scope c accepted =
      elim (Result-cases (parse_ccl text)) [
        | inr (e, failed) ↦ ground (arith, failed, accepted)
        | inl (root, parsed) ↦ elim (Option-cases (as_object root.content)) [
          | inl nothing ↦ ground (arith, parsed, nothing, accepted)
          | inr (pairs, holds) ↦
              let kind = (template_of root.template_type).0 in
              let version = (template_of root.template_type).1 in
              let scoped : check_scope kind scope ≡ ok tt = ground (arith, parsed, accepted) in
              let versioned : check_version root.template_type version ≡ ok tt =
                ground (arith, parsed, accepted) in
              let typed : check_pairs check_types pairs ≡ ok tt =
                ground (arith, parsed, holds, accepted) in
              let built : c ≡ build_config kind version scope pairs =
                ground (arith, parsed, holds, accepted) in
              let valid : validate_required_fields c ≡ ok tt =
                ground (arith, parsed, holds, accepted) in
              (
                root,
                pairs,
                parsed,
                holds,
                check_scope-fits kind scope scoped,
                (check_version_iff root.template_type version).0 versioned,
                (check_types-All pairs).0 typed,
                built,
                validate_required_fields-IsComplete c valid,
              )
        ]
      ]

  interpretation_accepted :
      (parse_ccl : String → Result String (CclRoot fl)) (text : String) (scope : IdentityScope)
      (c : GovernanceConfig fl)
      → IsInterpretation parse_ccl text scope c
      → interpret_ccl parse_ccl text scope ≡ ok c
  unfolding interpret_ccl interpret_root check_object
  interpretation_accepted parse_ccl text scope c
        (root, pairs, parsed, holds, fits, known, typed, built, complete) =
      let scoped = fits-check_scope (template_of root.template_type).0 scope fits in
      let versioned =
        (check_version_iff root.template_type (template_of root.template_type).1).1 known in
      let passed = (check_types-All pairs).1 typed in
      let valid = required_fields_accepted c complete in
      ground (arith, parsed, holds, scoped, versioned, passed, built, valid)

  -- The interpreter accepts a text with a configuration exactly if the configuration is the text's
  -- interpretation.
  pub interpret_ccl_iff :
      (parse_ccl : String → Result String (CclRoot fl)) (text : String) (scope : IdentityScope)
      (c : GovernanceConfig fl)
      → (interpret_ccl parse_ccl text scope ≡ ok c) ↔ IsInterpretation parse_ccl text scope c
  interpret_ccl_iff parse_ccl text scope c = (
    interpret_ccl-IsInterpretation parse_ccl text scope c,
    interpretation_accepted parse_ccl text scope c,
  )
