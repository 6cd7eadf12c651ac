-- ===== src/Ctap/Codes.antt =====
-- crates/canokey-ctap/src/status.rs: the typed CTAP status codes. The arms of the `match` that name one
-- byte each are a table; the arms on ranges follow it. `0xe0 | (low & 0x0f)` is `0xe0 + low % 16`.
use libcanokey.Prelude.{
  ℕ, ◌+◌, ◌%◌, ◌<◌, ◌==◌, ◌&&◌, List, [], ◌∷◌, Option, none, some, leb, if◌then◌else◌,
}

pub data CtapErrorCode : Type 0 where
  ctap1_err_success ctap1_err_invalid_command ctap1_err_invalid_parameter : CtapErrorCode
  ctap1_err_invalid_length ctap1_err_invalid_seq ctap1_err_timeout : CtapErrorCode
  ctap1_err_channel_busy ctap1_err_lock_required ctap1_err_invalid_channel : CtapErrorCode
  ctap2_err_cbor_unexpected_type ctap2_err_invalid_cbor ctap2_err_missing_parameter : CtapErrorCode
  ctap2_err_limit_exceeded ctap2_err_fp_database_full ctap2_err_large_blob_storage_full :
      CtapErrorCode
  ctap2_err_credential_excluded ctap2_err_processing ctap2_err_invalid_credential : CtapErrorCode
  ctap2_err_user_action_pending ctap2_err_operation_pending ctap2_err_no_operations : CtapErrorCode
  ctap2_err_unsupported_algorithm ctap2_err_operation_denied ctap2_err_key_store_full :
      CtapErrorCode
  ctap2_err_unsupported_option ctap2_err_invalid_option ctap2_err_keepalive_cancel : CtapErrorCode
  ctap2_err_no_credentials ctap2_err_user_action_timeout ctap2_err_not_allowed : CtapErrorCode
  ctap2_err_pin_invalid ctap2_err_pin_blocked ctap2_err_pin_auth_invalid : CtapErrorCode
  ctap2_err_pin_auth_blocked ctap2_err_pin_not_set ctap2_err_puat_required : CtapErrorCode
  ctap2_err_pin_policy_violation ctap2_err_reserved ctap2_err_request_too_large : CtapErrorCode
  ctap2_err_action_timeout ctap2_err_up_required ctap2_err_uv_blocked : CtapErrorCode
  ctap2_err_integrity_failure ctap2_err_invalid_subcommand ctap2_err_uv_invalid : CtapErrorCode
  ctap2_err_unauthorized_permission ctap1_err_other : CtapErrorCode
  extension vendor : ℕ → CtapErrorCode

-- The arms of `CtapErrorCode::from_byte` that name one byte.
abbrev pub code_table : List (ℕ × CtapErrorCode)
code_table =
    (0x00, ctap1_err_success)
    ∷ (0x01, ctap1_err_invalid_command)
    ∷ (0x02, ctap1_err_invalid_parameter)
    ∷ (0x03, ctap1_err_invalid_length)
    ∷ (0x04, ctap1_err_invalid_seq)
    ∷ (0x05, ctap1_err_timeout)
    ∷ (0x06, ctap1_err_channel_busy)
    ∷ (0x0a, ctap1_err_lock_required)
    ∷ (0x0b, ctap1_err_invalid_channel)
    ∷ (0x11, ctap2_err_cbor_unexpected_type)
    ∷ (0x12, ctap2_err_invalid_cbor)
    ∷ (0x14, ctap2_err_missing_parameter)
    ∷ (0x15, ctap2_err_limit_exceeded)
    ∷ (0x17, ctap2_err_fp_database_full)
    ∷ (0x18, ctap2_err_large_blob_storage_full)
    ∷ (0x19, ctap2_err_credential_excluded)
    ∷ (0x21, ctap2_err_processing)
    ∷ (0x22, ctap2_err_invalid_credential)
    ∷ (0x23, ctap2_err_user_action_pending)
    ∷ (0x24, ctap2_err_operation_pending)
    ∷ (0x25, ctap2_err_no_operations)
    ∷ (0x26, ctap2_err_unsupported_algorithm)
    ∷ (0x27, ctap2_err_operation_denied)
    ∷ (0x28, ctap2_err_key_store_full)
    ∷ (0x2b, ctap2_err_unsupported_option)
    ∷ (0x2c, ctap2_err_invalid_option)
    ∷ (0x2d, ctap2_err_keepalive_cancel)
    ∷ (0x2e, ctap2_err_no_credentials)
    ∷ (0x2f, ctap2_err_user_action_timeout)
    ∷ (0x30, ctap2_err_not_allowed)
    ∷ (0x31, ctap2_err_pin_invalid)
    ∷ (0x32, ctap2_err_pin_blocked)
    ∷ (0x33, ctap2_err_pin_auth_invalid)
    ∷ (0x34, ctap2_err_pin_auth_blocked)
    ∷ (0x35, ctap2_err_pin_not_set)
    ∷ (0x36, ctap2_err_puat_required)
    ∷ (0x37, ctap2_err_pin_policy_violation)
    ∷ (0x38, ctap2_err_reserved)
    ∷ (0x39, ctap2_err_request_too_large)
    ∷ (0x3a, ctap2_err_action_timeout)
    ∷ (0x3b, ctap2_err_up_required)
    ∷ (0x3c, ctap2_err_uv_blocked)
    ∷ (0x3d, ctap2_err_integrity_failure)
    ∷ (0x3e, ctap2_err_invalid_subcommand)
    ∷ (0x3f, ctap2_err_uv_invalid)
    ∷ (0x40, ctap2_err_unauthorized_permission)
    ∷ (0x7f, ctap1_err_other)
    ∷ []

abbrev pub lookup : List (ℕ × CtapErrorCode) → ℕ → Option CtapErrorCode
lookup [] b = none
lookup ((k, c) ∷ rest) b = let later = lookup rest b in if b == k then some c else later

-- The arms of `CtapErrorCode::from_byte` on ranges.
abbrev pub from_range : ℕ → Option CtapErrorCode
from_range b =
    if leb 0xe0 b && leb b 0xef
    then some (extension (b % 16))
    else if leb 0xf0 b && leb b 0xff
    then some (vendor (b % 16))
    else none

abbrev pub or_range : Option CtapErrorCode → ℕ → Option CtapErrorCode
or_range (some c) b = some c
or_range none b = from_range b

-- `CtapErrorCode::from_byte`.
unfoldable pub from_byte : ℕ → Option CtapErrorCode
from_byte b = or_range (lookup code_table b) b

-- `CtapErrorCode::byte`.
unfoldable pub byte : CtapErrorCode → ℕ
byte ctap1_err_success = 0x00
byte ctap1_err_invalid_command = 0x01
byte ctap1_err_invalid_parameter = 0x02
byte ctap1_err_invalid_length = 0x03
byte ctap1_err_invalid_seq = 0x04
byte ctap1_err_timeout = 0x05
byte ctap1_err_channel_busy = 0x06
byte ctap1_err_lock_required = 0x0a
byte ctap1_err_invalid_channel = 0x0b
byte ctap2_err_cbor_unexpected_type = 0x11
byte ctap2_err_invalid_cbor = 0x12
byte ctap2_err_missing_parameter = 0x14
byte ctap2_err_limit_exceeded = 0x15
byte ctap2_err_fp_database_full = 0x17
byte ctap2_err_large_blob_storage_full = 0x18
byte ctap2_err_credential_excluded = 0x19
byte ctap2_err_processing = 0x21
byte ctap2_err_invalid_credential = 0x22
byte ctap2_err_user_action_pending = 0x23
byte ctap2_err_operation_pending = 0x24
byte ctap2_err_no_operations = 0x25
byte ctap2_err_unsupported_algorithm = 0x26
byte ctap2_err_operation_denied = 0x27
byte ctap2_err_key_store_full = 0x28
byte ctap2_err_unsupported_option = 0x2b
byte ctap2_err_invalid_option = 0x2c
byte ctap2_err_keepalive_cancel = 0x2d
byte ctap2_err_no_credentials = 0x2e
byte ctap2_err_user_action_timeout = 0x2f
byte ctap2_err_not_allowed = 0x30
byte ctap2_err_pin_invalid = 0x31
byte ctap2_err_pin_blocked = 0x32
byte ctap2_err_pin_auth_invalid = 0x33
byte ctap2_err_pin_auth_blocked = 0x34
byte ctap2_err_pin_not_set = 0x35
byte ctap2_err_puat_required = 0x36
byte ctap2_err_pin_policy_violation = 0x37
byte ctap2_err_reserved = 0x38
byte ctap2_err_request_too_large = 0x39
byte ctap2_err_action_timeout = 0x3a
byte ctap2_err_up_required = 0x3b
byte ctap2_err_uv_blocked = 0x3c
byte ctap2_err_integrity_failure = 0x3d
byte ctap2_err_invalid_subcommand = 0x3e
byte ctap2_err_uv_invalid = 0x3f
byte ctap2_err_unauthorized_permission = 0x40
byte ctap1_err_other = 0x7f
byte (extension low) = 0xe0 + low % 16
byte (vendor low) = 0xf0 + low % 16

-- The codes that a status byte can stand for: their low part is a nibble.
abbrev pub HasNibble : CtapErrorCode → Type 0
HasNibble (extension low) = low < 16
HasNibble (vendor low) = low < 16
HasNibble _ = Unit
