-- ===== src/Compat/KeySupport.antt =====
-- `DeviceProfile::key_algorithm_support` and the identifiers of algorithms.
use libcanokey.Prelude.{
  ℕ, ◌≡◌, ◌≢◌, refl, sym, ap, ◌∙◌, inl, inr, Bool, true, not, ◌&&◌, ◌||◌, Option, none, some,
  if◌then◌else◌, arith, Bool-cases, Option-cases, some-injective, is_some,
}
use mathlib.Core.Bool.{true≢false}
use libcanokey.Compat.{
  Version, version, version_le, version_lt, in_range, Support, supported, unsupported, unknown,
  is_supported, CapabilityStatus, Capability,
}
use libcanokey.Compat.Firmware.{FirmwareVersion, compatibility_base}
use libcanokey.Compat.Algorithms.{
  Algorithm, rsa1024, rsa2048, rsa3072, rsa4096, ecc_p256, ecc_p384, ecc_p521, secp256k1, sm2,
  ed25519, x25519, ml_dsa65, ml_kem768, AlgorithmConfig, config_wire_id,
}
use libcanokey.Compat.Profile.{DeviceProfile, firmware_range, range_of, range_for, capability}
use libcanokey.Compat.Keys.{
  extension_wire_id, fixed_extension_id, extended_wire_id, baseline_id, or_id, algorithm_wire_id,
  is_2x, base_is, first_with, extension_support, extended_support, key_support_by,
  key_algorithm_support,
}

-- A range that is supported: there is a firmware, and its base lies in the range.
range_supported :
    (o : Option FirmwareVersion) (first last : Version)
    → is_supported (range_of o first last).support ≡ true
    → (f : FirmwareVersion) × (o ≡ some f) × (in_range first last (compatibility_base f) ≡ true)
range_supported none first last h = cc
range_supported (some f) first last h = (f, refl, ground arith)

is_supported-eq : (s : Support) → s ≡ supported → is_supported s ≡ true
is_supported-eq supported e = refl
is_supported-eq _ e = cc

-- An extended algorithm that the firmware range admits on 2.x has a fixed identifier there.
fixed_on_2x :
    (a : Algorithm) (v : Version)
    → baseline_id a ≡ none
    → in_range (first_with a) (version 3 1 0) v ≡ true
    → in_range (version 2 0 0) (version 2 0 1) v ≡ true
    → (id : ℕ) × (fixed_extension_id true a ≡ some id)
unfolding fixed_extension_id
fixed_on_2x rsa3072 v b h k = (0x50, refl)
fixed_on_2x rsa4096 v b h k = (0x51, refl)
fixed_on_2x secp256k1 v b h k = (0x53, refl)
fixed_on_2x sm2 v b h k = (0x54, refl)
fixed_on_2x ed25519 v b h k = (0x22, refl)
fixed_on_2x x25519 v b h k = (0x52, refl)
fixed_on_2x rsa1024 v b h k = cc
fixed_on_2x rsa2048 v b h k = cc
fixed_on_2x ecc_p256 v b h k = cc
fixed_on_2x ecc_p384 v b h k = cc
fixed_on_2x ecc_p521 v b h k = absurd (ground arith)
fixed_on_2x ml_dsa65 v b h k = absurd (ground arith)
fixed_on_2x ml_kem768 v b h k = absurd (ground arith)

key_support_by-extended :
    (p : DeviceProfile) (a : Algorithm) (b : CapabilityStatus)
    → baseline_id a ≡ none
    → key_support_by p a b ≡ extended_support p a
key_support_by-extended p rsa1024 b e = cc
key_support_by-extended p rsa2048 b e = cc
key_support_by-extended p ecc_p256 b e = cc
key_support_by-extended p ecc_p384 b e = cc
key_support_by-extended p _ b e = refl

uses_config :
    (p : DeviceProfile) (a : Algorithm) (c : AlgorithmConfig)
    → p.config ≡ some c
    → extended_wire_id p a ≡ extension_wire_id p a
unfolding extended_wire_id
uses_config p a c has = ground (arith, has)

module _ (p : DeviceProfile) (a : Algorithm) (no_baseline : baseline_id a ≡ none) where
  legacy_range :
      is_supported (capability p Capability.admin_legacy_piv_extensions).support ≡ true
      → is_supported (range_of p.info.firmware (version 2 0 0) (version 2 0 1)).support ≡ true
  unfolding capability range_for firmware_range
  legacy_range h = h

  -- Without a configuration.
  fixed_id :
      p.config ≡ none
      → is_supported (range_of p.info.firmware (first_with a) (version 3 1 0)).support ≡ true
      → is_supported (range_of p.info.firmware (version 2 0 0) (version 2 0 1)).support ≡ true
      → (id : ℕ) × (extended_wire_id p a ≡ some id)
  unfolding extended_wire_id
  fixed_id missing h k =
      let (f, has, within) = range_supported p.info.firmware (first_with a) (version 3 1 0) h in
      let (g, has', old) = range_supported p.info.firmware (version 2 0 0) (version 2 0 1) k in
      let same : f ≡ g = some-injective (sym has ∙ has') in
      let (id, fixed) = fixed_on_2x a (compatibility_base f) no_baseline within (
        ap
          (λ (x : FirmwareVersion). in_range (version 2 0 0) (version 2 0 1) (compatibility_base x))
          same
        ∙ old) in
      let is_old : is_2x p ≡ true =
        ap (base_is (λ v. version_le (version 2 0 0) v && version_lt v (version 3 0 0))) has'
        ∙ below_3 (compatibility_base g) old in
      (id, rw missing (ap (λ (b : Bool). fixed_extension_id b a) is_old ∙ fixed))
    where
      below_3 :
          (v : Version)
          → in_range (version 2 0 0) (version 2 0 1) v ≡ true
          → (version_le (version 2 0 0) v && version_lt v (version 3 0 0)) ≡ true
      below_3 v h = ground arith

  extension_id :
      (o : Option AlgorithmConfig)
      → p.config ≡ o
      → is_supported (range_of p.info.firmware (first_with a) (version 3 1 0)).support ≡ true
      → extension_support p a o ≡ supported
      → (id : ℕ) × (extended_wire_id p a ≡ some id)
  unfolding extension_support
  extension_id none missing h e =
      elim (Bool-cases
        (is_supported (capability p Capability.admin_legacy_piv_extensions).support)) [
          | inl old ↦ fixed_id missing h (legacy_range old)
          | inr other ↦ absurd (unknown_not (rw other at e))
        ]
    where
      unknown_not : unknown ≢ supported
      unknown_not e = cc
  extension_id (some c) has h e = elim (Option-cases (extension_wire_id p a)) [
    | inl missing ↦ absurd (refused (rw missing at e))
    | inr (id, found) ↦ (id, by_config found)
  ]
    where
      refused :
          (if not c.enabled || is_some (config_wire_id c a) then unsupported else unknown)
          ≢ supported
      refused e = ground arith

      by_config : {id : ℕ} → extension_wire_id p a ≡ some id → extended_wire_id p a ≡ some id
      by_config found = uses_config p a c has ∙ found

  extended_id :
      (extended_support p a).support ≡ supported → (id : ℕ) × (extended_wire_id p a ≡ some id)
  unfolding extended_support firmware_range
  extended_id e =
      elim (Bool-cases
        (is_supported (range_of p.info.firmware (first_with a) (version 3 1 0)).support)) [
          | inl good ↦ extension_id p.config refl good (rw good at e)
          | inr bad ↦ absurd (true≢false (sym (is_supported-eq _ (rw bad at e)) ∙ bad))
        ]

-- Whatever the firmware, the configuration and the flags of a profile are, an algorithm that
-- `key_algorithm_support` calls supported has a wire identifier in that profile.
pub supported-wire_id :
    (p : DeviceProfile) (a : Algorithm)
    → (key_algorithm_support p a).support ≡ supported
    → (id : ℕ) × (algorithm_wire_id p a ≡ some id)
unfolding key_algorithm_support firmware_range algorithm_wire_id
supported-wire_id p a e = elim (Option-cases (baseline_id a)) [
  | inr (id, has) ↦ (id, rw has refl)
  | inl missing ↦
      elim (Bool-cases
        (is_supported (range_of p.info.firmware (version 1 3 0) (version 3 1 0)).support)) [
          | inl good ↦
              let (id, found) = extended_id p a missing (
                sym
                  (ap (λ (s : CapabilityStatus). s.support) (key_support_by-extended p a _ missing))
                ∙ (rw good at e)) in
              (id, ap (λ (o : Option ℕ). or_id o (extended_wire_id p a)) missing ∙ found)
          | inr bad ↦ absurd (true≢false (sym (is_supported-eq _ (rw bad at e)) ∙ bad))
        ]
]
