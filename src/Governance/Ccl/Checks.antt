-- ===== src/Governance/Ccl/Checks.antt =====
-- What the tests of CclInterpreter::interpret_ccl of crates/runtime/icn-governance-kernel/src/lib.rs
-- let pass.
use icn.Prelude.{
  ◌≡◌, ◌≢◌, ◌↔◌, ◌⊎◌, refl, ap, ◌∙◌, true, false, Option, none, String, ok, arith, ◌==◌, ==_iff,
  string_eq,
}
use icn.Prelude.Floats.{Floats}
use icn.Economics.Types.{IdentityScope, community, cooperative}
use icn.Economics.Policy.{scope_beq, scope_beq_iff}
use icn.Governance.Config.{GovernanceConfig}
use icn.Governance.Ccl.Interpret.{check_scope, check_version, require, validate_required_fields}

-- What a text is equal to decides its tests.
pub this : (k a : String) → k ≡ a → (k == a) ≡ true
this k a same = (==_iff k a).1 same

pub other : (k a b : String) → (b == a) ≡ false → k ≡ b → (k == a) ≡ false
other k a b h same = ap (λ x. x == a) same ∙ h

-- A charter is for a community and bylaws are for a cooperative.
abbrev pub IsFitting : String → IdentityScope → Type 0
IsFitting kind scope =
    (kind ≡ "community_charter" → scope ≡ community) × (kind ≡ "coop_bylaws" → scope ≡ cooperative)

pub check_scope-fits :
    (kind : String) (scope : IdentityScope) → check_scope kind scope ≡ ok tt → IsFitting kind scope
unfolding check_scope
check_scope-fits kind scope accepted = (
  λ same. ground (
    arith,
    this kind "community_charter" same,
    other kind "coop_bylaws" "community_charter" refl same,
    other kind "budget_proposal" "community_charter" refl same,
    other kind "resolution" "community_charter" refl same,
    other kind "participation_rules" "community_charter" refl same,
    scope_beq_iff scope community,
    accepted,
  ),
  λ same. ground (
    arith,
    this kind "coop_bylaws" same,
    other kind "community_charter" "coop_bylaws" refl same,
    other kind "budget_proposal" "coop_bylaws" refl same,
    other kind "resolution" "coop_bylaws" refl same,
    other kind "participation_rules" "coop_bylaws" refl same,
    scope_beq_iff scope cooperative,
    accepted,
  ),
)

pub fits-check_scope :
    (kind : String) (scope : IdentityScope) → IsFitting kind scope → check_scope kind scope ≡ ok tt
unfolding check_scope
fits-check_scope kind scope fits =
    let charter : (kind == "community_charter") ≡ true → scope_beq scope community ≡ true =
      λ h. (scope_beq_iff scope community).1 (fits.0 ((==_iff kind "community_charter").0 h)) in
    let bylaws : (kind == "coop_bylaws") ≡ true → scope_beq scope cooperative ≡ true =
      λ h. (scope_beq_iff scope cooperative).1 (fits.1 ((==_iff kind "coop_bylaws").0 h)) in
    ground (arith, charter, bylaws)

abbrev pub IsSupported : String → Type 0
IsSupported version = (version ≡ "v1") ⊎ (version ≡ "v2")

pub check_version_iff :
    (template version : String) → (check_version template version ≡ ok tt) ↔ IsSupported version
unfolding check_version
check_version_iff template version = (
  ground (arith, ==_iff version "v1", ==_iff version "v2"),
  ground (arith, ==_iff version "v1", ==_iff version "v2"),
)

abbrev IsPresent : {A : Type 0} → Option A → Type 0
IsPresent o = o ≢ none

-- The section that a template needs.
abbrev pub IsComplete : {fl : Floats} → GovernanceConfig fl → Type 0
IsComplete c =
    (c.template_type ≡ "coop_bylaws" → IsPresent c.governance)
    × (c.template_type ≡ "community_charter" → IsPresent c.governance)
    × (c.template_type ≡ "participation_rules" → IsPresent c.membership)
    × (c.template_type ≡ "resolution" → IsPresent c.identity)
    × (c.template_type ≡ "budget_proposal" → IsPresent c.economic_model)

require_iff : {A : Type 0} (what : String) (o : Option A) → (require what o ≡ ok tt) ↔ IsPresent o
unfolding require
require_iff what o = (ground arith, ground arith)

pub validate_required_fields-IsComplete :
    {fl : Floats} (c : GovernanceConfig fl) → validate_required_fields c ≡ ok tt → IsComplete c
unfolding validate_required_fields
validate_required_fields-IsComplete c accepted = (
  λ same.
      (require_iff "governance section is required for coop_bylaws" c.governance).0
        (ground (arith, this c.template_type "coop_bylaws" same, accepted)),
  λ same. (require_iff "governance section is required for community_charter" c.governance).0 (
      ground (
        arith,
        other c.template_type "coop_bylaws" "community_charter" refl same,
        this c.template_type "community_charter" same,
        accepted,
      )),
  λ same. (require_iff "membership section is required for participation_rules" c.membership).0 (
      ground (
        arith,
        other c.template_type "coop_bylaws" "participation_rules" refl same,
        other c.template_type "community_charter" "participation_rules" refl same,
        this c.template_type "participation_rules" same,
        accepted,
      )),
  λ same. (require_iff "identity section is required for resolution" c.identity).0 (
      ground (
        arith,
        other c.template_type "coop_bylaws" "resolution" refl same,
        other c.template_type "community_charter" "resolution" refl same,
        other c.template_type "participation_rules" "resolution" refl same,
        this c.template_type "resolution" same,
        accepted,
      )),
  λ same.
      (require_iff "economic_model section is required for budget_proposal" c.economic_model).0 (
        ground (
          arith,
          other c.template_type "coop_bylaws" "budget_proposal" refl same,
          other c.template_type "community_charter" "budget_proposal" refl same,
          other c.template_type "participation_rules" "budget_proposal" refl same,
          other c.template_type "resolution" "budget_proposal" refl same,
          this c.template_type "budget_proposal" same,
          accepted,
        )),
)

pub required_fields_accepted :
    {fl : Floats} (c : GovernanceConfig fl) → IsComplete c → validate_required_fields c ≡ ok tt
unfolding validate_required_fields
required_fields_accepted c complete =
    let need0 : (c.template_type == "coop_bylaws") ≡ true
        → require "governance section is required for coop_bylaws" c.governance ≡ ok tt =
      λ h.
        (require_iff "governance section is required for coop_bylaws" c.governance).1
          (complete.0 ((==_iff c.template_type "coop_bylaws").0 h)) in
    let need1 : (c.template_type == "community_charter") ≡ true
        → require "governance section is required for community_charter" c.governance ≡ ok tt =
      λ h.
        (require_iff "governance section is required for community_charter" c.governance).1
          (complete.1 ((==_iff c.template_type "community_charter").0 h)) in
    let need2 : (c.template_type == "participation_rules") ≡ true
        → require "membership section is required for participation_rules" c.membership ≡ ok tt =
      λ h.
        (require_iff "membership section is required for participation_rules" c.membership).1
          (complete.2 ((==_iff c.template_type "participation_rules").0 h)) in
    let need3 : (c.template_type == "resolution") ≡ true
        → require "identity section is required for resolution" c.identity ≡ ok tt =
      λ h.
        (require_iff "identity section is required for resolution" c.identity).1
          (complete.3 ((==_iff c.template_type "resolution").0 h)) in
    let need4 : (c.template_type == "budget_proposal") ≡ true
        → require "economic_model section is required for budget_proposal" c.economic_model
          ≡ ok tt =
      λ h.
        (require_iff "economic_model section is required for budget_proposal" c.economic_model).1
          (complete.4 ((==_iff c.template_type "budget_proposal").0 h)) in
    ground (arith, need0, need1, need2, need3, need4)
