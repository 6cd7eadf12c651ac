-- ===== src/Ctap/CodeBytes.antt =====
-- `CtapErrorCode::from_byte` and `CtapErrorCode::byte` (crates/canokey-ctap/src/status.rs).
use libcanokey.Prelude.{
  ℕ, ◌+◌, ◌%◌, ◌≤◌, ◌<◌, ◌==◌, ◌≡◌, ◌≢◌, refl, sym, ap, ◌∙◌, ◌↔◌, inl, inr, Bool, true, false, ◌&&◌,
  List, [], ◌∷◌, Option, none, some, leb, arith, Bool-cases,
}
use libcanokey.Ctap.Codes.{
  CtapErrorCode, code_table, lookup, from_range, or_range, from_byte, byte, HasNibble, extension,
  vendor, ctap1_err_success, ctap1_err_invalid_command, ctap1_err_invalid_parameter,
  ctap1_err_invalid_length, ctap1_err_invalid_seq, ctap1_err_timeout, ctap1_err_channel_busy,
  ctap1_err_lock_required, ctap1_err_invalid_channel, ctap2_err_cbor_unexpected_type,
  ctap2_err_invalid_cbor, ctap2_err_missing_parameter, ctap2_err_limit_exceeded,
  ctap2_err_fp_database_full, ctap2_err_large_blob_storage_full, ctap2_err_credential_excluded,
  ctap2_err_processing, ctap2_err_invalid_credential, ctap2_err_user_action_pending,
  ctap2_err_operation_pending, ctap2_err_no_operations, ctap2_err_unsupported_algorithm,
  ctap2_err_operation_denied, ctap2_err_key_store_full, ctap2_err_unsupported_option,
  ctap2_err_invalid_option, ctap2_err_keepalive_cancel, ctap2_err_no_credentials,
  ctap2_err_user_action_timeout, ctap2_err_not_allowed, ctap2_err_pin_invalid,
  ctap2_err_pin_blocked, ctap2_err_pin_auth_invalid, ctap2_err_pin_auth_blocked,
  ctap2_err_pin_not_set, ctap2_err_puat_required, ctap2_err_pin_policy_violation,
  ctap2_err_reserved, ctap2_err_request_too_large, ctap2_err_action_timeout, ctap2_err_up_required,
  ctap2_err_uv_blocked, ctap2_err_integrity_failure, ctap2_err_invalid_subcommand,
  ctap2_err_uv_invalid, ctap2_err_unauthorized_permission, ctap1_err_other,
}

pub some_is : {c d : CtapErrorCode} → some c ≡ some d → c ≡ d
some_is e = cc

pub none≢some : {c : CtapErrorCode} → ◌≢◌ {A = Option CtapErrorCode} none (some c)
none≢some e = cc

-- A table whose codes all stand beside their bytes, each at most 7F.
abbrev sound : List (ℕ × CtapErrorCode) → Bool
unfolding byte
sound [] = true
sound ((k, c) ∷ rest) = byte c == k && (leb k 0x7f && sound rest)

codes_are_right : sound code_table ≡ true
unfolding byte
codes_are_right = refl

sound_head :
    (k : ℕ) (c : CtapErrorCode) (rest : List (ℕ × CtapErrorCode))
    → sound ((k, c) ∷ rest) ≡ true
    → (byte c ≡ k) × (k ≤ 0x7f) × (sound rest ≡ true)
unfolding sound
sound_head k c rest h = ground arith

right_byte :
    (table : List (ℕ × CtapErrorCode)) (b : ℕ) (c : CtapErrorCode)
    → sound table ≡ true
    → lookup table b ≡ some c
    → byte c ≡ b
right_byte [] b c h e = cc
right_byte ((k, d) ∷ rest) b c h e = elim (Bool-cases (b == k)) [
  | inl same ↦
      let found : some d ≡ some c = rw same at e in
      ap byte (sym (some_is found)) ∙ (sound_head k d rest h).0 ∙ ground arith
  | inr other ↦ right_byte rest b c (sound_head k d rest h).2 (rw other at e)
]

-- No code of the table stands for a byte above 7F.
lookup_above :
    (table : List (ℕ × CtapErrorCode)) (b : ℕ)
    → sound table ≡ true
    → 0x7f < b
    → lookup table b ≡ none
lookup_above [] b h above = refl
lookup_above ((k, d) ∷ rest) b h above =
    let low = (sound_head k d rest h).1 in
    let other : (b == k) ≡ false = ground arith in
    rw other (lookup_above rest b (sound_head k d rest h).2 above)

from_above : (b : ℕ) → 0x7f < b → from_byte b ≡ from_range b
unfolding from_byte
from_above b h =
    ap (λ (o : Option CtapErrorCode). or_range o b) (lookup_above code_table b codes_are_right h)

range_sound : (b : ℕ) (c : CtapErrorCode) → from_range b ≡ some c → byte c ≡ b
unfolding byte
range_sound b c e = elim (Bool-cases (leb 0xe0 b && leb b 0xef)) [
  | inl first ↦
      let found : some (extension (b % 16)) ≡ some c = rw first at e in
      ap byte (sym (some_is found)) ∙ ground arith
  | inr outside ↦ elim (Bool-cases (leb 0xf0 b && leb b 0xff)) [
    | inl second ↦
        let found : some (vendor (b % 16)) ≡ some c = rw (outside, second) at e in
        ap byte (sym (some_is found)) ∙ ground arith
    | inr neither ↦ absurd (none≢some (rw (outside, neither) at e))
  ]
]

or_range_sound :
    (o : Option CtapErrorCode) (b : ℕ) (c : CtapErrorCode)
    → lookup code_table b ≡ o
    → or_range o b ≡ some c
    → byte c ≡ b
or_range_sound none b c e h = range_sound b c h
or_range_sound (some d) b c e h = right_byte code_table b c codes_are_right (e ∙ h)

from_byte-byte : (c : CtapErrorCode) → HasNibble c → from_byte (byte c) ≡ some c
unfolding from_byte byte
from_byte-byte ctap1_err_success h = refl
from_byte-byte ctap1_err_invalid_command h = refl
from_byte-byte ctap1_err_invalid_parameter h = refl
from_byte-byte ctap1_err_invalid_length h = refl
from_byte-byte ctap1_err_invalid_seq h = refl
from_byte-byte ctap1_err_timeout h = refl
from_byte-byte ctap1_err_channel_busy h = refl
from_byte-byte ctap1_err_lock_required h = refl
from_byte-byte ctap1_err_invalid_channel h = refl
from_byte-byte ctap2_err_cbor_unexpected_type h = refl
from_byte-byte ctap2_err_invalid_cbor h = refl
from_byte-byte ctap2_err_missing_parameter h = refl
from_byte-byte ctap2_err_limit_exceeded h = refl
from_byte-byte ctap2_err_fp_database_full h = refl
from_byte-byte ctap2_err_large_blob_storage_full h = refl
from_byte-byte ctap2_err_credential_excluded h = refl
from_byte-byte ctap2_err_processing h = refl
from_byte-byte ctap2_err_invalid_credential h = refl
from_byte-byte ctap2_err_user_action_pending h = refl
from_byte-byte ctap2_err_operation_pending h = refl
from_byte-byte ctap2_err_no_operations h = refl
from_byte-byte ctap2_err_unsupported_algorithm h = refl
from_byte-byte ctap2_err_operation_denied h = refl
from_byte-byte ctap2_err_key_store_full h = refl
from_byte-byte ctap2_err_unsupported_option h = refl
from_byte-byte ctap2_err_invalid_option h = refl
from_byte-byte ctap2_err_keepalive_cancel h = refl
from_byte-byte ctap2_err_no_credentials h = refl
from_byte-byte ctap2_err_user_action_timeout h = refl
from_byte-byte ctap2_err_not_allowed h = refl
from_byte-byte ctap2_err_pin_invalid h = refl
from_byte-byte ctap2_err_pin_blocked h = refl
from_byte-byte ctap2_err_pin_auth_invalid h = refl
from_byte-byte ctap2_err_pin_auth_blocked h = refl
from_byte-byte ctap2_err_pin_not_set h = refl
from_byte-byte ctap2_err_puat_required h = refl
from_byte-byte ctap2_err_pin_policy_violation h = refl
from_byte-byte ctap2_err_reserved h = refl
from_byte-byte ctap2_err_request_too_large h = refl
from_byte-byte ctap2_err_action_timeout h = refl
from_byte-byte ctap2_err_up_required h = refl
from_byte-byte ctap2_err_uv_blocked h = refl
from_byte-byte ctap2_err_integrity_failure h = refl
from_byte-byte ctap2_err_invalid_subcommand h = refl
from_byte-byte ctap2_err_uv_invalid h = refl
from_byte-byte ctap2_err_unauthorized_permission h = refl
from_byte-byte ctap1_err_other h = refl
from_byte-byte (extension low) h = from_above (0xe0 + low % 16) (omega arith) ∙ in_extension
  where
    in_extension : from_range (0xe0 + low % 16) ≡ some (extension low)
    in_extension =
        let one : (leb 0xe0 (0xe0 + low % 16) && leb (0xe0 + low % 16) 0xef) ≡ true =
          ground arith in
        rw one (ap (λ (n : ℕ). some (extension n)) (omega arith))
from_byte-byte (vendor low) h = from_above (0xf0 + low % 16) (omega arith) ∙ in_vendor
  where
    in_vendor : from_range (0xf0 + low % 16) ≡ some (vendor low)
    in_vendor =
        let one : (leb 0xe0 (0xf0 + low % 16) && leb (0xf0 + low % 16) 0xef) ≡ false =
          ground arith in
        let two : (leb 0xf0 (0xf0 + low % 16) && leb (0xf0 + low % 16) 0xff) ≡ true =
          ground arith in
        rw (one, two) (ap (λ (n : ℕ). some (vendor n)) (omega arith))

-- For every code whose low part is a nibble, a byte is read as that code exactly if it is the byte
-- that the code is written as.
pub from_byte_iff :
    (b : ℕ) (c : CtapErrorCode) → HasNibble c → (from_byte b ≡ some c) ↔ (byte c ≡ b)
unfolding from_byte
from_byte_iff b c h = (
  λ e. or_range_sound (lookup code_table b) b c refl e,
  λ e. ap from_byte (sym e) ∙ from_byte-byte c h,
)
