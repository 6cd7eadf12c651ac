-- ===== src/Compat.antt =====
-- crates/canokey-compat/src/lib.rs: capability decisions. A text is the list of its code points; a
-- triple of version numbers is a record, ordered as Rust orders tuples.
pub mod Firmware
pub mod Algorithms
pub mod Profile
pub mod Keys
pub mod UniqueIds
pub mod WireIds
pub mod KeySupport
mod Tests
use libcanokey.Prelude.{ℕ, ◌==◌, Bool, true, false, ◌&&◌, ◌||◌, leb, ltb, List, Option}
use libcanokey.Error
use libcanokey.Error.{Result, ok, err, unsupported_feature, capability_unknown}

-- `(u16, u16, u16)`.
pub record Version : Type 0 where
  pub major : ℕ
  pub minor : ℕ
  pub patch : ℕ

abbrev pub version : ℕ → ℕ → ℕ → Version
version a b c = record { major = a; minor = b; patch = c }

abbrev pub version_le : Version → Version → Bool
version_le v w =
    ltb v.major w.major
    || (v.major == w.major && (ltb v.minor w.minor || (v.minor == w.minor && leb v.patch w.patch)))

abbrev pub version_lt : Version → Version → Bool
version_lt v w =
    ltb v.major w.major
    || (v.major == w.major && (ltb v.minor w.minor || (v.minor == w.minor && ltb v.patch w.patch)))

abbrev pub version_eq : Version → Version → Bool
version_eq v w = v.major == w.major && (v.minor == w.minor && v.patch == w.patch)

-- `(first..=last).contains(&v)`.
abbrev pub in_range : Version → Version → Version → Bool
in_range first last v = version_le first v && version_le v last

pub data Support : Type 0 where
  supported unsupported unknown : Support

abbrev pub is_supported : Support → Bool
is_supported supported = true
is_supported _ = false

pub data Evidence : Type 0 where
  observed firmware_matrix latest_known_fallback : Evidence

pub record CapabilityStatus : Type 0 where
  pub support : Support
  pub evidence : Evidence

-- `CapabilityStatus::require`.
unfoldable pub require : CapabilityStatus → Result (Unit {0})
require s = elim s.support [
  | supported ↦ ok tt
  | unsupported ↦ err (Error.new unsupported_feature)
  | unknown ↦ err (Error.new capability_unknown)
]

pub data Capability : Type 0 where
  open_pgp open_pgp_wrapped_data open_pgp_algorithm_information : Capability
  open_pgp_wrapped_algorithm_information open_pgp_uif open_pgp_retry_reset : Capability
  open_pgp_short_digest open_pgp_bare_agreement open_pgp_public_key_length_fix : Capability
  oath oath_legacy oath_modern oath_full_response oath_rename_collision_check : Capability
  oath_reliable_pagination oath_set_default_slots oath_challenge_response : Capability
  admin admin_ndef_web_usb admin_keyboard admin_keyboard_return : Capability
  admin_legacy_piv_extensions admin_legacy_open_pgp_touch admin_ctap_pass_reset : Capability
  admin_pass_config admin_nfc admin_public_nfc_status admin_public_configuration : Capability
  admin_extended_configuration admin_sm2 admin_legacy_sm2 : Capability
  piv piv_select_resets_authentication metadata ecc_p256 ecc_p384 : Capability
  algorithm_extensions retired_slots object_writes object_write_chaining : Capability
  metadata_directory container_names key_move_delete retry_reset : Capability
  algorithm_config_write piv_protected_algorithm_config_read sm2_agreement : Capability
  attestation piv_reset certificate_deletion : Capability

pub data AdminConfigurationLayout : Type 0 where
  touch_policies basic keyboard_return reserved features : AdminConfigurationLayout

pub data ManagementKeyAlgorithm : Type 0 where
  tdes aes192 : ManagementKeyAlgorithm

-- `ManagementKeyAlgorithm::wire_id` and `block_len`.
abbrev pub management_wire_id : ManagementKeyAlgorithm → ℕ
management_wire_id tdes = 0x03
management_wire_id aes192 = 0x0a

abbrev pub block_len : ManagementKeyAlgorithm → ℕ
block_len tdes = 8
block_len aes192 = 16
