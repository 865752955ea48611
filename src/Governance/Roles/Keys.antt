-- ===== src/Governance/Roles/Keys.antt =====
-- The keys under which crates/runtime/icn-governance-kernel/src/lib.rs stores role credentials, their
-- index and configurations.
use text.Mathlib.TextLemmas.{append_cancel_left, append_cancel_right, append_inj, append_assoc}
use Prim.Native.String.{count, ◌++◌ as str_append}
use icn.Prelude.{refl, sym, ◌∙◌, ne_of_beq, string_eq, ◌≡◌, ◌≢◌, String}
use icn.Governance.Credentials.{credential_key, index_key}
use icn.Governance.Roles.{config_key}

-- Texts that begin with different texts of the same length are different.
begins_otherwise :
    (p q p' q' a b : String)
    → count p ≡ count q
    → p ≢ q
    → str_append (str_append p p') a ≢ str_append (str_append q q') b
begins_otherwise p q p' q' a b same differ h =
    differ (append_inj (sym (append_assoc p p' a) ∙ h ∙ append_assoc q q' b) same).0

module _ (scope subject : String) where
  pub index_key-ne-credential_key :
      (id : String) → index_key scope subject ≢ credential_key scope subject id
  unfolding index_key credential_key
  index_key-ne-credential_key id =
      begins_otherwise "role_i" "role_c" "ndex::" "redential::" _ _ refl
        (ne_of_beq "role_i" "role_c" refl)

  pub config_key-ne-credential_key :
      (id : String) → config_key scope ≢ credential_key scope subject id
  unfolding config_key credential_key
  config_key-ne-credential_key id =
      begins_otherwise "g" "r" "overnance::config::" "ole_credential::" _ _ refl
        (ne_of_beq "g" "r" refl)

  pub config_key-ne-index_key : config_key scope ≢ index_key scope subject
  unfolding config_key index_key
  config_key-ne-index_key =
      begins_otherwise "g" "r" "overnance::config::" "ole_index::" _ _ refl (ne_of_beq "g" "r" refl)

  pub credential_key_injective :
      (a b : String) → credential_key scope subject a ≡ credential_key scope subject b → a ≡ b
  unfolding credential_key
  credential_key_injective a b h = append_cancel_right a b "" (
      append_cancel_left "::" _ _ (
        append_cancel_left subject _ _ (
          append_cancel_left "::" _ _
            (append_cancel_left scope _ _ (append_cancel_left "role_credential::" _ _ h)))))
