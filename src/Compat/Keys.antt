-- ===== src/Compat/Keys.antt =====
-- crates/canokey-compat/src/lib.rs: which algorithms a profile knows, and their PIV identifiers.
use libcanokey.Prelude.{
  ℕ, ◌==◌, Bool, true, false, not, ◌&&◌, ◌||◌, List, [], ◌∷◌, Option, none, some, leb,
  if◌then◌else◌, is_some,
}
use libcanokey.Compat.{
  Version, version, version_le, version_lt, version_eq, Support, supported, unsupported, unknown,
  is_supported, observed, firmware_matrix, CapabilityStatus, Capability,
}
use libcanokey.Compat.Firmware.{FirmwareVersion, compatibility_base, bind}
use libcanokey.Compat.Algorithms.{
  Algorithm, rsa1024, rsa2048, rsa3072, rsa4096, ecc_p256, ecc_p384, ecc_p521, secp256k1, sm2,
  ed25519, x25519, ml_dsa65, ml_kem768, AlgorithmConfig, config_wire_id,
}
use libcanokey.Compat.Profile.{
  DeviceProfile, status_of, firmware_range, capability, support_if, any, is_unsupported_warning,
}

-- `is_some_and` on the firmware's compatibility base.
abbrev pub base_is : (Version → Bool) → Option FirmwareVersion → Bool
base_is p none = false
base_is p (some f) = p (compatibility_base f)

abbrev pub not_reserved : Bool → ℕ → Option ℕ
not_reserved modern id = if modern && (id == 0x0a || id == 0xff) then none else some id

-- `DeviceProfile::extension_wire_id`.
unfoldable pub extension_wire_id : DeviceProfile → Algorithm → Option ℕ
extension_wire_id p a = bind p.config λ c.
    bind (config_wire_id c a)
      λ id. not_reserved (base_is (λ v. version_le (version 3 1 0) v) p.info.firmware) id

abbrev pub is_2x : DeviceProfile → Bool
is_2x p =
    base_is (λ v. version_le (version 2 0 0) v && version_lt v (version 3 0 0)) p.info.firmware

-- The identifiers that the firmware fixes.
unfoldable pub fixed_extension_id : Bool → Algorithm → Option ℕ
fixed_extension_id legacy ed25519 = some (if legacy then 0x22 else 0xe0)
fixed_extension_id legacy rsa3072 = some (if legacy then 0x50 else 0x05)
fixed_extension_id legacy rsa4096 = some (if legacy then 0x51 else 0x16)
fixed_extension_id legacy x25519 = some (if legacy then 0x52 else 0xe1)
fixed_extension_id legacy secp256k1 = if legacy then some 0x53 else none
fixed_extension_id legacy sm2 = if legacy then some 0x54 else none
fixed_extension_id legacy _ = none

-- `DeviceProfile::algorithm_wire_id` of an algorithm that is not baseline.
unfoldable pub extended_wire_id : DeviceProfile → Algorithm → Option ℕ
unfolding extension_wire_id fixed_extension_id
extended_wire_id p a =
    if is_some p.config then extension_wire_id p a else fixed_extension_id (is_2x p) a

-- The identifiers that do not depend on the profile.
abbrev pub baseline_id : Algorithm → Option ℕ
baseline_id rsa1024 = some 0x06
baseline_id rsa2048 = some 0x07
baseline_id ecc_p256 = some 0x11
baseline_id ecc_p384 = some 0x14
baseline_id _ = none

abbrev pub or_id : Option ℕ → Option ℕ → Option ℕ
or_id (some id) other = some id
or_id none other = other

-- `DeviceProfile::algorithm_wire_id`.
unfoldable pub algorithm_wire_id : DeviceProfile → Algorithm → Option ℕ
unfolding extended_wire_id
algorithm_wire_id p a = or_id (baseline_id a) (extended_wire_id p a)

abbrev pub all_algorithms : List Algorithm
all_algorithms =
    rsa1024 ∷ rsa2048 ∷ rsa3072 ∷ rsa4096 ∷ ecc_p256 ∷ ecc_p384 ∷ ecc_p521 ∷ secp256k1 ∷ sm2
    ∷ ed25519 ∷ x25519 ∷ ml_dsa65 ∷ ml_kem768 ∷ []

abbrev pub is_id : Option ℕ → ℕ → Bool
is_id none id = false
is_id (some n) id = n == id

-- `find` by wire identifier.
unfoldable pub find_id : (Algorithm → Option ℕ) → ℕ → List Algorithm → Option Algorithm
find_id wire id [] = none
find_id wire id (a ∷ as') =
    let rest = find_id wire id as' in if is_id (wire a) id then some a else rest

-- `DeviceProfile::algorithm_from_wire_id`.
unfoldable pub algorithm_from_wire_id : DeviceProfile → ℕ → Option Algorithm
algorithm_from_wire_id p id = find_id (algorithm_wire_id p) id all_algorithms

-- `DeviceProfile::openpgp_algorithm_support`.
unfoldable pub openpgp_algorithm_support : DeviceProfile → Algorithm → Bool → CapabilityStatus
unfolding firmware_range
openpgp_algorithm_support p rsa2048 generate = firmware_range p (version 1 3 0) (version 3 1 0)
openpgp_algorithm_support p ecc_p256 generate = firmware_range p (version 1 3 0) (version 3 1 0)
openpgp_algorithm_support p ecc_p384 generate = firmware_range p (version 1 3 0) (version 3 1 0)
openpgp_algorithm_support p secp256k1 generate = firmware_range p (version 1 3 0) (version 3 1 0)
openpgp_algorithm_support p ed25519 generate = firmware_range p (version 1 3 0) (version 3 1 0)
openpgp_algorithm_support p x25519 generate = firmware_range p (version 1 3 0) (version 3 1 0)
openpgp_algorithm_support p rsa4096 generate =
    firmware_range p (if generate then version 2 0 0 else version 1 3 0) (version 3 1 0)
openpgp_algorithm_support p rsa3072 generate = firmware_range p (version 2 0 0) (version 3 1 0)
openpgp_algorithm_support p ecc_p521 generate = firmware_range p (version 3 1 0) (version 3 1 0)
openpgp_algorithm_support p _ generate = status_of unsupported firmware_matrix

-- `DeviceProfile::piv_slot_support`.
unfoldable pub piv_slot_support : DeviceProfile → ℕ → CapabilityStatus
piv_slot_support p reference =
    if reference == 0x9a || (reference == 0x9c || (reference == 0x9d || reference == 0x9e))
    then firmware_range p (version 1 3 0) (version 3 1 0)
    else if reference == 0x82 || reference == 0x83
    then firmware_range p (version 2 0 0) (version 3 1 0)
    else if leb 0x84 reference && leb reference 0x95
    then firmware_range p (version 3 1 0) (version 3 1 0)
    else status_of unsupported firmware_matrix

-- `DeviceProfile::algorithm_config_read_support`.
unfoldable pub algorithm_config_read_support : DeviceProfile → CapabilityStatus
algorithm_config_read_support p =
    if any is_unsupported_warning p.warnings
    then status_of unsupported observed
    else firmware_range p (version 3 0 0) (version 3 1 0)

-- The first firmware with an extended algorithm.
abbrev pub first_with : Algorithm → Version
first_with ed25519 = version 3 0 1
first_with x25519 = version 3 0 1
first_with ecc_p521 = version 3 1 0
first_with ml_dsa65 = version 3 1 0
first_with ml_kem768 = version 3 1 0
first_with _ = version 2 0 0

abbrev pub confirmed : Option Bool → Support
confirmed none = unknown
confirmed (some enabled) = support_if enabled

-- The last `match` of `key_algorithm_support`, on the observed configuration.
unfoldable pub extension_support : DeviceProfile → Algorithm → Option AlgorithmConfig → Support
unfolding extension_wire_id capability
extension_support p a none =
    if is_supported (capability p Capability.admin_legacy_piv_extensions).support
    then confirmed p.legacy_piv_extensions
    else unknown
extension_support p a (some c) =
    if is_some (extension_wire_id p a)
    then supported
    else if not c.enabled || is_some (config_wire_id c a)
    then unsupported
    else unknown

-- `key_algorithm_support` of an algorithm that is not baseline.
unfoldable pub extended_support : DeviceProfile → Algorithm → CapabilityStatus
unfolding firmware_range extension_support
extended_support p a =
    let range = firmware_range p (first_with a) (version 3 1 0) in
    if is_supported range.support
    then status_of (extension_support p a p.config) observed
    else range

abbrev pub key_support_by : DeviceProfile → Algorithm → CapabilityStatus → CapabilityStatus
key_support_by p rsa2048 baseline = baseline
key_support_by p ecc_p256 baseline = baseline
key_support_by p ecc_p384 baseline = baseline
key_support_by p rsa1024 baseline = status_of unsupported firmware_matrix
key_support_by p a baseline = extended_support p a

-- `DeviceProfile::key_algorithm_support`.
unfoldable pub key_algorithm_support : DeviceProfile → Algorithm → CapabilityStatus
unfolding firmware_range extended_support
key_algorithm_support p a =
    let baseline = firmware_range p (version 1 3 0) (version 3 1 0) in
    if is_supported baseline.support then key_support_by p a baseline else baseline

abbrev pub is_streaming : Algorithm → Bool
is_streaming ml_dsa65 = true
is_streaming ed25519 = true
is_streaming sm2 = true
is_streaming _ = false

-- `DeviceProfile::streaming_signing_support`.
unfoldable pub streaming_signing_support : DeviceProfile → Algorithm → CapabilityStatus
streaming_signing_support p a =
    if not (is_streaming a)
    then status_of unsupported firmware_matrix
    else if is_supported (firmware_range p (version 3 1 0) (version 3 1 0)).support
    then key_algorithm_support p a
    else firmware_range p (version 3 1 0) (version 3 1 0)

-- `DeviceProfile::legacy_empty_key_metadata`, `sm2_uses_p1363_signatures` and
-- `legacy_unwrapped_objects`.
abbrev pub legacy_empty_key_metadata : DeviceProfile → Bool
legacy_empty_key_metadata p = is_2x p

abbrev pub sm2_uses_p1363_signatures : DeviceProfile → Bool
sm2_uses_p1363_signatures p = base_is (λ v. version_eq v (version 3 1 0)) p.info.firmware

abbrev pub legacy_unwrapped_objects : DeviceProfile → Bool
legacy_unwrapped_objects p =
    base_is (λ v. version_le (version 1 3 0) v && version_lt v (version 1 6 1)) p.info.firmware
