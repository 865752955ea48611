-- ===== src/Governance/Ccl/Interpret.antt =====
-- The interpreter of CCL documents: CclError and CclInterpreter::interpret_ccl of
-- crates/runtime/icn-governance-kernel/src/lib.rs. The parser is generated from a grammar by pest: it
-- is a parameter, which gives the document's tree or the text of its error.
use Prim.Native.Char.{Char, code}
use Prim.Native.String.{[] as []ˢ, ◌∷◌ as ◌∷ˢ◌}
use icn.Prelude.{
  not, ◌&&◌, ◌||◌, Option, none, some, String, List, [], ◌∷◌, Result, ok, err, ◌>>=◌, ◌>>◌, map_err,
  if◌then◌else◌, nat_beq, ◌==◌, string_eq,
}
use icn.Prelude.Floats.{Floats}
use icn.Economics.Types.{IdentityScope, community, cooperative}
use icn.Economics.Policy.{scope_beq}
use icn.Governance.Config.{GovernanceConfig}
use icn.Governance.Ccl.{CclValue, string, boolean, CclPair, CclRoot}
use icn.Governance.Ccl.Reading.{as_object}
use icn.Governance.Ccl.Sections.{
  extract_identity_info, extract_governance_structure, extract_proposal_process,
  extract_working_groups, extract_dispute_resolution,
}
use icn.Governance.Ccl.Membership.{extract_membership_rules, extract_economic_model}

pub data CclError : Type 0 where
  invalid_template_for_scope : (template : String) → (scope : IdentityScope) → CclError
  unsupported_template_version : (template version : String) → CclError
  missing_required_field : String → CclError
  type_mismatch : (field expected actual : String) → CclError
  syntax_error : String → CclError

-- `split(':')`, the parts of a text between the separators.
unfoldable pub split_once : Char → List String → List String
split_once c [] = (c ∷ˢ []ˢ) ∷ []
split_once c (w ∷ ws) = (c ∷ˢ w) ∷ ws

unfoldable pub split : Char → String → List String
split d []ˢ = []ˢ ∷ []
split d (c ∷ˢ s) =
    let rest = split d s in if nat_beq (code c) (code d) then []ˢ ∷ rest else split_once c rest

-- The template's type and version. A text without ":" is one part, so that the test for ":" decides
-- nothing that the number of parts does not.
unfoldable pub template_of : String → String × String
template_of text = elim (split ":" text) [
  | kind ∷ (version ∷ []) ↦ (kind, version)
  | _ ↦ (text, "v1")
]

unfoldable pub check_scope : String → IdentityScope → Result CclError (Unit {0})
check_scope kind scope =
    if kind == "community_charter" && scope_beq scope community
    then ok tt
    else if kind == "coop_bylaws" && scope_beq scope cooperative
    then ok tt
    else if kind == "budget_proposal"
    then ok tt
    else if kind == "resolution"
    then ok tt
    else if kind == "participation_rules"
    then ok tt
    else if (kind == "community_charter" && not (scope_beq scope community))
        || (kind == "coop_bylaws" && not (scope_beq scope cooperative))
    then err (invalid_template_for_scope kind scope)
    else ok tt

unfoldable pub check_version : (template version : String) → Result CclError (Unit {0})
check_version template version =
    if not (version == "v1") && not (version == "v2")
    then err (unsupported_template_version template version)
    else ok tt

unfoldable pub require : {A : Type 0} → String → Option A → Result CclError (Unit {0})
require what o = elim o [ none ↦ err (missing_required_field what) | some _ ↦ ok tt ]

module _ {fl : Floats} where
  -- A loop over pairs that returns at the first error.
  unfoldable pub check_pairs :
      (CclPair fl → Result CclError (Unit {0})) → List (CclPair fl) → Result CclError (Unit {0})
  check_pairs check [] = ok tt
  check_pairs check (p ∷ ps) = check p >> check_pairs check ps

  -- A loop over the pairs of an object; any other value has none.
  unfoldable pub check_object :
      (CclPair fl → Result CclError (Unit {0})) → CclValue fl → Result CclError (Unit {0})
  check_object check v = elim (as_object v) [ none ↦ ok tt | some ps ↦ check_pairs check ps ]

  unfoldable pub check_quorum : CclPair fl → Result CclError (Unit {0})
  check_quorum p =
      if p.key == "quorum"
      then elim p.value [ string _ ↦ err (type_mismatch "quorum" "number" "string") | _ ↦ ok tt ]
      else ok tt

  unfoldable pub check_trial : CclPair fl → Result CclError (Unit {0})
  check_trial p =
      if p.key == "trial_period_days"
      then elim p.value [
        | boolean _ ↦ err (type_mismatch "trial_period_days" "integer" "boolean")
        | _ ↦ ok tt
      ]
      else ok tt

  unfoldable pub check_onboarding : CclPair fl → Result CclError (Unit {0})
  check_onboarding p = if p.key == "onboarding" then check_object check_trial p.value else ok tt

  unfoldable pub check_types : CclPair fl → Result CclError (Unit {0})
  check_types p =
      if p.key == "governance"
      then check_object check_quorum p.value
      else if p.key == "membership"
      then check_object check_onboarding p.value
      else ok tt

  unfoldable pub build_config :
      (kind version : String) → IdentityScope → List (CclPair fl) → GovernanceConfig fl
  build_config kind version scope pairs = record {
    template_type = kind;
    template_version = version;
    governing_scope = scope;
    identity = extract_identity_info pairs;
    governance = extract_governance_structure pairs;
    membership = extract_membership_rules pairs;
    proposals = extract_proposal_process pairs;
    working_groups = extract_working_groups pairs;
    dispute_resolution = extract_dispute_resolution pairs;
    economic_model = extract_economic_model pairs;
  }

  unfoldable pub validate_required_fields : GovernanceConfig fl → Result CclError (Unit {0})
  validate_required_fields c =
      if c.template_type == "coop_bylaws"
      then require "governance section is required for coop_bylaws" c.governance
      else if c.template_type == "community_charter"
      then require "governance section is required for community_charter" c.governance
      else if c.template_type == "participation_rules"
      then require "membership section is required for participation_rules" c.membership
      else if c.template_type == "resolution"
      then require "identity section is required for resolution" c.identity
      else if c.template_type == "budget_proposal"
      then require "economic_model section is required for budget_proposal" c.economic_model
      else ok tt

  unfoldable pub interpret_root : CclRoot fl → IdentityScope → Result CclError (GovernanceConfig fl)
  interpret_root root scope = do
    let (kind, version) = template_of root.template_type
    check_scope kind scope
    check_version root.template_type version
    check_object check_types root.content
    elim (as_object root.content) [
      | none ↦ err (syntax_error "Expected object as root content")
      | some pairs ↦
          let c = build_config kind version scope pairs in validate_required_fields c >>= λ _. ok c
    ]

  unfoldable pub interpret_ccl :
      (String → Result String (CclRoot fl))
      → String
      → IdentityScope
      → Result CclError (GovernanceConfig fl)
  interpret_ccl parse_ccl text scope = do
    root ← map_err syntax_error (parse_ccl text)
    interpret_root root scope
