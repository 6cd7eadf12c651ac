-- ===== src/Compat/Tests.antt =====
-- Runs of the definitions in Compat at concrete inputs.
use libcanokey.Prelude.{ℕ, ◌≡◌, refl, ◌↔◌, true, [], ◌∷◌, none, some, Bytes}
use libcanokey.Error.{ok}
use libcanokey.Compat.{supported}
use libcanokey.Compat.Firmware.{parse_version, compatibility_base, trim_start}
use libcanokey.Compat.Algorithms.{
  rsa3072, rsa4096, ed25519, x25519, secp256k1, sm2, AlgorithmConfig, parse_config, read_ids,
  config_wire_id, get_id,
}
use libcanokey.Compat.Profile.{DeviceProfile}
use libcanokey.Compat.Keys.{algorithm_from_wire_id, algorithm_wire_id, key_algorithm_support}
use libcanokey.Compat.WireIds.{wire_ids_inverse}
use libcanokey.Compat.KeySupport.{supported-wire_id}

-- `v3.1-dev`.
parse_development :
    parse_version (0x76 ∷ 0x33 ∷ 0x2e ∷ 0x31 ∷ 0x2d ∷ 0x64 ∷ 0x65 ∷ 0x76 ∷ [])
    ≡ some
        (record { major = 3; minor = 1; patch = 0; suffix = some (0x2d ∷ 0x64 ∷ 0x65 ∷ 0x76 ∷ []) })
unfolding parse_version trim_start
parse_development = refl

-- `3.70000` has a number above 65535.
parse_overflow : parse_version (0x33 ∷ 0x2e ∷ 0x37 ∷ 0x30 ∷ 0x30 ∷ 0x30 ∷ 0x30 ∷ []) ≡ none
unfolding parse_version trim_start
parse_overflow = refl

abbrev small_config_bytes : Bytes
small_config_bytes = 1 ∷ 0x22 ∷ 0x50 ∷ 0x51 ∷ 0x52 ∷ 0x53 ∷ 0x54 ∷ []

abbrev small_config : AlgorithmConfig
small_config = record {
  enabled = true;
  ids =
      (sm2, 0x54)
      ∷ (secp256k1, 0x53)
      ∷ (x25519, 0x52)
      ∷ (rsa4096, 0x51)
      ∷ (rsa3072, 0x50)
      ∷ (ed25519, 0x22)
      ∷ [];
  raw = small_config_bytes;
}

parse_small_config : parse_config small_config_bytes ≡ ok small_config
unfolding parse_config read_ids
parse_small_config = refl

abbrev small_profile : DeviceProfile
small_profile = record {
  info = record {
    firmware_text = 0x33 ∷ 0x2e ∷ 0x31 ∷ [];
    firmware = some (record { major = 3; minor = 1; patch = 0; suffix = none });
    model = none;
    serial = none;
    piv_version = none;
  };
  config = some small_config;
  legacy_piv_extensions = none;
  warnings = [];
}

wire_ids_inverse_example :
    (algorithm_from_wire_id small_profile 0x54 ≡ some sm2)
    ↔ (algorithm_wire_id small_profile sm2 ≡ some 0x54)
wire_ids_inverse_example =
    wire_ids_inverse small_profile sm2 0x54 (small_config_bytes, parse_small_config)

ed25519_supported : (key_algorithm_support small_profile ed25519).support ≡ supported
unfolding key_algorithm_support compatibility_base config_wire_id get_id
ed25519_supported = refl

supported-wire_id_example : (id : ℕ) × (algorithm_wire_id small_profile ed25519 ≡ some id)
supported-wire_id_example = supported-wire_id small_profile ed25519 ed25519_supported
