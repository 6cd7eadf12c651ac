-- ===== src/Compat/Profile.antt =====
-- crates/canokey-compat/src/lib.rs: `DeviceProfile` and its capability decisions. `from_utf8` of the
-- standard library is a parameter of `from_observations`.
use libcanokey.Prelude.{
  ℕ, ◌==◌, Bool, true, false, not, ◌&&◌, ◌||◌, List, [], ◌∷◌, ◌++◌, Option, none, some, ltb,
  if◌then◌else◌, length, is_empty, is_some, Bytes,
}
use libcanokey.Error
use libcanokey.Error.{
  Result, ok, err, ◌>>=◌, ◌>>◌, reject, ok_or, invalid_response, invalid_argument,
  capability_unknown,
}
use libcanokey.Compat.{
  Version, version, version_le, version_lt, version_eq, in_range, Support, supported, unsupported,
  unknown, is_supported, Evidence, observed, firmware_matrix, latest_known_fallback,
  CapabilityStatus, require, Capability, AdminConfigurationLayout, ManagementKeyAlgorithm,
}
use libcanokey.Compat.Firmware.{Text, FirmwareVersion, parse_version, compatibility_base, bind}
use libcanokey.Compat.Algorithms.{AlgorithmConfig}

pub record DeviceInfo : Type 0 where
  pub firmware_text : Bytes
  pub firmware : Option FirmwareVersion
  pub model : Option Text
  pub serial : Option Bytes
  pub piv_version : Option (ℕ × ℕ × ℕ)

pub data CompatibilityWarning : Type 0 where
  unrecognized_firmware fallback declared_base_version : CompatibilityWarning
  optional_command_unsupported optional_command_needs_authentication : Text → CompatibilityWarning

pub record DeviceObservations : Type 0 where
  pub firmware_text : Bytes
  pub model : Option Text
  pub serial : Option Bytes
  pub piv_version : Option (ℕ × ℕ × ℕ)
  pub algorithm_config : Option AlgorithmConfig
  pub warnings : List CompatibilityWarning

-- `DeviceObservations::new`.
abbrev pub observations : Bytes → DeviceObservations
observations text = record {
  firmware_text = text;
  model = none;
  serial = none;
  piv_version = none;
  algorithm_config = none;
  warnings = [];
}

pub record DeviceProfile : Type 0 where
  pub info : DeviceInfo
  pub config : Option AlgorithmConfig
  pub legacy_piv_extensions : Option Bool
  pub warnings : List CompatibilityWarning

abbrev pub base_above : FirmwareVersion → Bool
base_above f = version_lt (version 3 1 0) (compatibility_base f)

-- The warnings that `from_observations` adds.
unfoldable pub firmware_warnings : Option FirmwareVersion → List CompatibilityWarning
firmware_warnings none = unrecognized_firmware ∷ []
firmware_warnings (some f) =
    if base_above f
    then fallback ∷ []
    else if is_some f.suffix
    then declared_base_version ∷ []
    else []

abbrev pub bad_serial : Option Bytes → Bool
bad_serial none = false
bad_serial (some s) = not (length s == 4)

-- `DeviceProfile::from_observations`.
unfoldable pub from_observations : (Bytes → Option Text) → DeviceObservations → Result DeviceProfile
unfolding firmware_warnings
from_observations from_utf8 o = do
  reject (is_empty o.firmware_text || (ltb 256 (length o.firmware_text) || bad_serial o.serial))
      (Error.new invalid_response)
  let firmware = bind (from_utf8 o.firmware_text) parse_version
  ok (record {
    info = record {
      firmware_text = o.firmware_text;
      firmware = firmware;
      model = o.model;
      serial = o.serial;
      piv_version = o.piv_version;
    };
    config = o.algorithm_config;
    legacy_piv_extensions = none;
    warnings = o.warnings ++ firmware_warnings firmware;
  })

abbrev pub status_of : Support → Evidence → CapabilityStatus
status_of s e = record { support = s; evidence = e }

-- The versions whose rules were audited.
abbrev pub audited : Version → Bool
audited v =
    version_eq v (version 1 3 0)
    || (in_range (version 1 5 2) (version 3 0 3) v || version_eq v (version 3 1 0))

abbrev pub range_of : Option FirmwareVersion → Version → Version → CapabilityStatus
range_of none first last = status_of unknown latest_known_fallback
range_of (some f) first last =
    if audited (compatibility_base f)
    then status_of (if in_range first last (compatibility_base f) then supported else unsupported)
        firmware_matrix
    else status_of unknown latest_known_fallback

-- `DeviceProfile::firmware_range`.
unfoldable pub firmware_range : DeviceProfile → Version → Version → CapabilityStatus
firmware_range p first last = range_of p.info.firmware first last

-- The ranges of the `match` at the head of `capability`.
unfoldable pub range_for : Capability → Option (Version × Version)
range_for Capability.piv_reset = some (version 1 3 0, version 3 1 0)
range_for Capability.piv_select_resets_authentication = some (version 2 0 0, version 3 1 0)
range_for Capability.object_writes = some (version 1 3 0, version 3 1 0)
range_for Capability.object_write_chaining = some (version 1 3 0, version 3 1 0)
range_for Capability.oath = some (version 1 3 0, version 3 1 0)
range_for Capability.oath_legacy = some (version 1 3 0, version 1 3 0)
range_for Capability.oath_modern = some (version 1 5 2, version 3 1 0)
range_for Capability.oath_full_response = some (version 2 0 0, version 3 1 0)
range_for Capability.oath_rename_collision_check = some (version 2 0 0, version 3 1 0)
range_for Capability.oath_reliable_pagination = some (version 3 0 1, version 3 1 0)
range_for Capability.oath_set_default_slots = some (version 3 0 0, version 3 1 0)
range_for Capability.oath_challenge_response = some (version 3 1 0, version 3 1 0)
range_for Capability.open_pgp = some (version 1 3 0, version 3 1 0)
range_for Capability.open_pgp_wrapped_data = some (version 2 0 0, version 3 1 0)
range_for Capability.open_pgp_algorithm_information = some (version 1 6 1, version 3 1 0)
range_for Capability.open_pgp_public_key_length_fix = some (version 1 6 1, version 3 1 0)
range_for Capability.open_pgp_uif = some (version 1 5 2, version 3 1 0)
range_for Capability.open_pgp_bare_agreement = some (version 1 5 2, version 3 1 0)
range_for Capability.open_pgp_retry_reset = some (version 3 1 0, version 3 1 0)
range_for Capability.open_pgp_wrapped_algorithm_information = some (version 3 1 0, version 3 1 0)
range_for Capability.open_pgp_short_digest = some (version 3 1 0, version 3 1 0)
range_for Capability.admin = some (version 1 3 0, version 3 1 0)
range_for Capability.admin_ndef_web_usb = some (version 1 5 2, version 3 1 0)
range_for Capability.admin_keyboard = some (version 1 3 0, version 2 0 1)
range_for Capability.admin_keyboard_return = some (version 1 6 2, version 2 0 1)
range_for Capability.admin_legacy_piv_extensions = some (version 2 0 0, version 2 0 1)
range_for Capability.admin_legacy_open_pgp_touch = some (version 1 3 0, version 1 3 0)
range_for Capability.admin_ctap_pass_reset = some (version 3 0 0, version 3 1 0)
range_for Capability.admin_nfc = some (version 3 0 0, version 3 1 0)
range_for Capability.admin_sm2 = some (version 3 0 0, version 3 1 0)
range_for Capability.admin_pass_config = some (version 3 0 0, version 3 1 0)
range_for Capability.admin_public_nfc_status = some (version 3 0 1, version 3 1 0)
range_for Capability.admin_legacy_sm2 = some (version 3 0 0, version 3 0 3)
range_for Capability.piv_protected_algorithm_config_read = some (version 3 0 0, version 3 0 3)
range_for Capability.admin_public_configuration = some (version 3 1 0, version 3 1 0)
range_for Capability.admin_extended_configuration = some (version 3 1 0, version 3 1 0)
range_for Capability.certificate_deletion = some (version 3 1 0, version 3 1 0)
range_for Capability.metadata_directory = some (version 3 1 0, version 3 1 0)
range_for Capability.container_names = some (version 3 1 0, version 3 1 0)
range_for Capability.key_move_delete = some (version 3 1 0, version 3 1 0)
range_for Capability.retry_reset = some (version 3 1 0, version 3 1 0)
range_for Capability.algorithm_config_write = some (version 3 1 0, version 3 1 0)
range_for Capability.sm2_agreement = some (version 3 1 0, version 3 1 0)
range_for Capability.attestation = some (version 3 1 0, version 3 1 0)
range_for Capability.piv = none
range_for Capability.metadata = none
range_for Capability.ecc_p256 = none
range_for Capability.ecc_p384 = none
range_for Capability.algorithm_extensions = none
range_for Capability.retired_slots = none

unfoldable pub text_eq : Text → Text → Bool
text_eq [] [] = true
text_eq (x ∷ xs) (y ∷ ys) = x == y && text_eq xs ys
text_eq _ _ = false

-- The text `algorithm_config`.
abbrev pub algorithm_config_name : Text
algorithm_config_name =
    0x61 ∷ 0x6c ∷ 0x67 ∷ 0x6f ∷ 0x72 ∷ 0x69 ∷ 0x74 ∷ 0x68 ∷ 0x6d ∷ 0x5f ∷ 0x63 ∷ 0x6f ∷ 0x6e ∷ 0x66
    ∷ 0x69 ∷ 0x67 ∷ []

abbrev pub is_unsupported_warning : CompatibilityWarning → Bool
is_unsupported_warning (optional_command_unsupported t) = text_eq t algorithm_config_name
is_unsupported_warning _ = false

abbrev pub is_authentication_warning : CompatibilityWarning → Bool
is_authentication_warning (optional_command_needs_authentication t) =
    text_eq t algorithm_config_name
is_authentication_warning _ = false

abbrev pub any {ℓ} : {A : Type ℓ} → (A → Bool) → List A → Bool
any p [] = false
any p (x ∷ xs) = p x || any p xs

abbrev pub support_if : Bool → Support
support_if true = supported
support_if false = unsupported

-- What was observed of the algorithm extensions.
unfoldable pub observed_extensions : DeviceProfile → Option CapabilityStatus
unfolding text_eq
observed_extensions p = elim p.legacy_piv_extensions [
  | some enabled ↦ some (status_of (support_if enabled) observed)
  | none ↦
      if any is_unsupported_warning p.warnings
      then some (status_of unsupported observed)
      else if any is_authentication_warning p.warnings
      then some (status_of unknown observed)
      else elim p.config [ none ↦ none | some c ↦ some (status_of (support_if c.enabled) observed) ]
]

abbrev pub is_ecc_p256 : Capability → Bool
is_ecc_p256 Capability.ecc_p256 = true
is_ecc_p256 _ = false

abbrev pub threshold : Capability → Version
threshold Capability.ecc_p256 = version 1 3 0
threshold Capability.ecc_p384 = version 1 3 0
threshold _ = version 2 0 0

abbrev pub fallback_status : Capability → DeviceProfile → CapabilityStatus
fallback_status feature p =
    status_of (if is_ecc_p256 feature && is_some p.info.piv_version then supported else unknown)
      latest_known_fallback

abbrev pub matrix_for : Option FirmwareVersion → Capability → DeviceProfile → CapabilityStatus
matrix_for none feature p = fallback_status feature p
matrix_for (some f) feature p =
    if in_range (version 1 3 0) (version 3 1 0) (compatibility_base f)
    then status_of (support_if (version_le (threshold feature) (compatibility_base f)))
        firmware_matrix
    else fallback_status feature p

-- The end of `capability`: the firmware matrix, or the fallback.
unfoldable pub matrix_status : Capability → DeviceProfile → CapabilityStatus
matrix_status feature p = matrix_for p.info.firmware feature p

unfoldable pub unranged : Capability → DeviceProfile → CapabilityStatus
unfolding matrix_status observed_extensions
unranged Capability.piv p =
    status_of (if is_some p.info.piv_version then supported else unknown) observed
unranged Capability.algorithm_extensions p = elim (observed_extensions p) [
  | some s ↦ s
  | none ↦ matrix_status Capability.algorithm_extensions p
]
unranged feature p = matrix_status feature p

-- `DeviceProfile::capability`.
unfoldable pub capability : DeviceProfile → Capability → CapabilityStatus
unfolding firmware_range unranged
capability p feature = elim (range_for feature) [
  | some (first, last) ↦ firmware_range p first last
  | none ↦ unranged feature p
]

-- `DeviceProfile::with_legacy_piv_extensions`.
unfoldable pub with_legacy_piv_extensions : DeviceProfile → Bool → Result DeviceProfile
with_legacy_piv_extensions p enabled = do
  require (capability p Capability.admin_legacy_piv_extensions)
  reject (is_some p.config) (Error.new invalid_argument)
  ok (record p { legacy_piv_extensions = some enabled })

-- `DeviceProfile::management_key_support`.
unfoldable pub management_key_support : DeviceProfile → ManagementKeyAlgorithm → CapabilityStatus
unfolding firmware_range
management_key_support p ManagementKeyAlgorithm.tdes =
    firmware_range p (version 1 3 0) (version 3 0 3)
management_key_support p ManagementKeyAlgorithm.aes192 =
    firmware_range p (version 3 1 0) (version 3 1 0)

-- `DeviceProfile::legacy_explicit_le`.
unfoldable pub legacy_explicit_le : DeviceProfile → Bool
legacy_explicit_le p = is_supported (firmware_range p (version 1 3 0) (version 3 0 3)).support

abbrev pub layout_for : Version → AdminConfigurationLayout
layout_for v =
    if version_eq v (version 1 3 0)
    then AdminConfigurationLayout.touch_policies
    else if version_lt v (version 1 6 2)
    then AdminConfigurationLayout.basic
    else if version_lt v (version 3 0 0)
    then AdminConfigurationLayout.keyboard_return
    else if version_lt v (version 3 1 0)
    then AdminConfigurationLayout.reserved
    else AdminConfigurationLayout.features

-- `DeviceProfile::admin_configuration_layout`.
unfoldable pub admin_configuration_layout : DeviceProfile → Result AdminConfigurationLayout
admin_configuration_layout p = do
  require (capability p Capability.admin)
  f ← ok_or p.info.firmware (Error.new capability_unknown)
  ok (layout_for (compatibility_base f))
