-- ===== src/Ctap/StatusKinds.antt =====
-- `CtapStatus::into_error` (crates/canokey-ctap/src/status.rs) against the typed codes of
-- `CtapErrorCode::from_byte` in the same file.
use libcanokey.Prelude.{
  ℕ, ◌==◌, ◌≡◌, ◌≢◌, refl, sym, ap, ◌∙◌, ◌⊎◌, inl, inr, true, false, List, [], ◌∷◌, Option, none,
  some, arith, Bool-cases,
}
use libcanokey.Error
use libcanokey.Error.{ErrorKind, Phase, Error}
use libcanokey.Ctap.{into_error, into_error_kind}
use libcanokey.Ctap.Codes.{
  CtapErrorCode, code_table, lookup, from_range, or_range, from_byte, byte, ctap1_err_success,
  ctap2_err_cbor_unexpected_type, ctap2_err_invalid_cbor, ctap2_err_missing_parameter,
  ctap2_err_limit_exceeded, ctap2_err_large_blob_storage_full, ctap2_err_credential_excluded,
  ctap2_err_invalid_credential, ctap2_err_unsupported_algorithm, ctap2_err_operation_denied,
  ctap2_err_key_store_full, ctap2_err_unsupported_option, ctap2_err_invalid_option,
  ctap2_err_keepalive_cancel, ctap2_err_no_credentials, ctap2_err_user_action_timeout,
  ctap2_err_not_allowed, ctap2_err_pin_invalid, ctap2_err_pin_blocked, ctap2_err_pin_auth_invalid,
  ctap2_err_pin_auth_blocked, ctap2_err_pin_not_set, ctap2_err_puat_required,
  ctap2_err_pin_policy_violation, ctap2_err_request_too_large, ctap2_err_up_required,
}
use libcanokey.Ctap.CodeBytes.{some_is, none≢some, from_byte_iff}

-- What a code's name means to the caller.
abbrev pub blame : CtapErrorCode → ErrorKind
blame ctap2_err_pin_invalid = ErrorKind.invalid_pin
blame ctap2_err_pin_policy_violation = ErrorKind.invalid_pin
blame ctap2_err_pin_blocked = ErrorKind.pin_blocked
blame ctap2_err_pin_auth_blocked = ErrorKind.pin_blocked
blame ctap2_err_pin_auth_invalid = ErrorKind.authentication_failed
blame ctap2_err_pin_not_set = ErrorKind.security_status_not_satisfied
blame ctap2_err_puat_required = ErrorKind.security_status_not_satisfied
blame ctap2_err_no_credentials = ErrorKind.not_found
blame ctap2_err_invalid_credential = ErrorKind.not_found
blame ctap2_err_credential_excluded = ErrorKind.conditions_not_satisfied
blame ctap2_err_operation_denied = ErrorKind.conditions_not_satisfied
blame ctap2_err_keepalive_cancel = ErrorKind.conditions_not_satisfied
blame ctap2_err_user_action_timeout = ErrorKind.conditions_not_satisfied
blame ctap2_err_not_allowed = ErrorKind.conditions_not_satisfied
blame ctap2_err_up_required = ErrorKind.conditions_not_satisfied
blame ctap2_err_unsupported_algorithm = ErrorKind.unsupported_algorithm
blame ctap2_err_unsupported_option = ErrorKind.unsupported_feature
blame ctap2_err_invalid_option = ErrorKind.unsupported_feature
blame ctap2_err_limit_exceeded = ErrorKind.limit_exceeded
blame ctap2_err_large_blob_storage_full = ErrorKind.limit_exceeded
blame ctap2_err_key_store_full = ErrorKind.limit_exceeded
blame ctap2_err_request_too_large = ErrorKind.limit_exceeded
blame ctap2_err_cbor_unexpected_type = ErrorKind.protocol_violation
blame ctap2_err_invalid_cbor = ErrorKind.protocol_violation
blame ctap2_err_missing_parameter = ErrorKind.protocol_violation
blame _ = ErrorKind.unexpected_status_word

-- A byte without a code says nothing more than that it is an error.
abbrev pub blame_of : Option CtapErrorCode → ErrorKind
blame_of none = ErrorKind.unexpected_status_word
blame_of (some c) = blame c

-- The kinds of a table's bytes, and those of its codes.
abbrev byte_kinds : List (ℕ × CtapErrorCode) → List ErrorKind
byte_kinds [] = []
byte_kinds ((k, c) ∷ rest) = into_error_kind k ∷ byte_kinds rest

abbrev code_kinds : List (ℕ × CtapErrorCode) → List ErrorKind
code_kinds [] = []
code_kinds ((k, c) ∷ rest) = blame c ∷ code_kinds rest

kinds_agree : byte_kinds code_table ≡ code_kinds code_table
unfolding into_error_kind
kinds_agree = refl

kind_of_entry :
    (table : List (ℕ × CtapErrorCode)) (b : ℕ) (c : CtapErrorCode)
    → byte_kinds table ≡ code_kinds table
    → lookup table b ≡ some c
    → into_error_kind b ≡ blame c
kind_of_entry [] b c h e = cc
kind_of_entry ((k, d) ∷ rest) b c h e = elim (Bool-cases (b == k)) [
  | inl same ↦
      let found : some d ≡ some c = rw same at e in
      let here : b ≡ k = ground arith in
      let head : into_error_kind k ≡ blame d = cc in
      ap into_error_kind here ∙ head ∙ ap blame (some_is found)
  | inr other ↦
      let later : byte_kinds rest ≡ code_kinds rest = cc in
      kind_of_entry rest b c later (rw other at e)
]

same_byte : (b n : ℕ) → (b == n) ≡ true → b ≡ n
same_byte b n h = ground arith

other_byte : (b n : ℕ) → (b == n) ≡ false → b ≢ n
other_byte b n h = ground arith

-- A byte that the table misses is not one of its bytes.
missed :
    (b : ℕ)
    → lookup code_table b ≡ none
    → (n : ℕ) {c : CtapErrorCode} → lookup code_table n ≡ some c
    → (b == n) ≡ false
missed b e n {c} found = elim (Bool-cases (b == n)) [
  | inr other ↦ other
  | inl same ↦ absurd (none≢some (sym e ∙ ap (lookup code_table) (same_byte b n same) ∙ found))
]

kind_beyond :
    (b : ℕ) → lookup code_table b ≡ none → into_error_kind b ≡ ErrorKind.unexpected_status_word
unfolding into_error_kind
kind_beyond b e =
    rw
      (
        missed b e 0x31 refl,
        missed b e 0x37 refl,
        missed b e 0x32 refl,
        missed b e 0x34 refl,
        missed b e 0x33 refl,
        missed b e 0x35 refl,
        missed b e 0x36 refl,
        missed b e 0x2e refl,
        missed b e 0x22 refl,
        missed b e 0x19 refl,
        missed b e 0x27 refl,
        missed b e 0x2d refl,
        missed b e 0x2f refl,
        missed b e 0x30 refl,
        missed b e 0x3b refl,
        missed b e 0x26 refl,
        missed b e 0x2b refl,
        missed b e 0x2c refl,
        missed b e 0x15 refl,
        missed b e 0x18 refl,
        missed b e 0x28 refl,
        missed b e 0x39 refl,
        missed b e 0x11 refl,
        missed b e 0x12 refl,
        missed b e 0x14 refl,
      )
      refl

-- No code of a range is among the names that say more.
range_blame : (b : ℕ) → blame_of (from_range b) ≡ ErrorKind.unexpected_status_word
range_blame b = ground arith

kind_of_code :
    (b : ℕ) (o : Option CtapErrorCode)
    → lookup code_table b ≡ o
    → into_error_kind b ≡ blame_of (or_range o b)
kind_of_code b none e = kind_beyond b e ∙ sym (range_blame b)
kind_of_code b (some c) e = kind_of_entry code_table b c kinds_agree e

-- A status byte is an error exactly if its code is not the success code. The error's kind is what
-- the name of the byte's typed code means: a byte that stands for no code, for an extension or for
-- a vendor code is an unexpected status. The error is of the given phase, keeps the byte as its
-- application status and has no status word.
pub into_error-from_byte :
    (b : ℕ) (phase : Phase)
    → ((from_byte b ≡ some ctap1_err_success) × (into_error b phase ≡ none))
      ⊎ ((from_byte b ≢ some ctap1_err_success)
          × ((e : Error) × (into_error b phase ≡ some e)
              × (e.kind ≡ blame_of (from_byte b))
              × (e.phase ≡ phase)
              × (e.application_status ≡ some b)
              × (e.status_word ≡ none)))
unfolding into_error from_byte byte
into_error-from_byte b phase =
    let classified : Error = record (Error.at_phase (Error.new (into_error_kind b)) phase) {
      application_status = some b;
    } in
    let (read, written) = from_byte_iff b ctap1_err_success tt in
    elim (Bool-cases (b == 0)) [
      | inl zero_byte ↦ inl (written (sym (same_byte b 0 zero_byte)), rw zero_byte refl)
      | inr other ↦
          let not_success : from_byte b ≢ some ctap1_err_success =
            λ e. other_byte b 0 other (sym (read e)) in
          inr (
            not_success,
            (
              classified,
              rw other refl,
              kind_of_code b (lookup code_table b) refl,
              refl,
              refl,
              refl,
            ),
          )
    ]
