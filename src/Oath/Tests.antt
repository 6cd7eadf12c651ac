-- ===== src/Oath/Tests.antt =====
-- Runs of the definitions in Oath at concrete inputs.
use libcanokey.Prelude.{
  ℕ, zero, suc, ◌≡◌, refl, ◌↔◌, true, false, [], ◌∷◌, ◌++◌, Option, none, some, arith, Bytes, take,
  length, All, ◌%◌, ◌^◌,
}
use libcanokey.Error.{ok}
use libcanokey.Apdu.{exact, is_success}
use libcanokey.Conversation.{LogicalCommand, ResponseData}
use libcanokey.Operation.{Action}
use libcanokey.Options.{default_options, validate}
use libcanokey.Oath.{Outcome, Access, Selection, Request, Calculation, truncated_code}
use libcanokey.Oath.Fields.{field, fields}
use libcanokey.Oath.FieldLaws.{fields_iff, encode_fields, IsSmall}
use libcanokey.Oath.Decimal.{decimal}
use libcanokey.Oath.DecimalLaws.{decimal_digits, IsDigit, read_decimal}
use libcanokey.Oath.Target.{select_oath}
use libcanokey.Oath.Response.{read_selection, see_fields, see_field}
use libcanokey.Compat.Profile.{text_eq}
use libcanokey.Oath.Machine.{Oath, with_le, validation, oath_next}
use libcanokey.Operation.{Operation, created, from_machine, validate_command}
use libcanokey.Compat.{require}
use libcanokey.Compat.Firmware.{compatibility_base}
use libcanokey.Conversation.{
  new, fit_expected, all_frames, extended_frames, short_frames, chain_frames, open_frames,
}
use libcanokey.Apdu.{encode, expected_field, length_field}
use libcanokey.Compat.Profile.{capability, range_for, firmware_range, legacy_explicit_le}
use libcanokey.Oath.Target.{target, command}
use libcanokey.Compat.Profile.{DeviceProfile}
use libcanokey.Oath.Factory.{operation}
use libcanokey.Oath.FactoryLaws.{operation-IsGuarded, IsGuarded}
use libcanokey.Oath.Authentication.{target_after_mutual_proof}

fields_iff_example :
    (fields (0x71 ∷ 2 ∷ 7 ∷ 8 ∷ 0x77 ∷ 0 ∷ []) ≡ ok ((0x71, 7 ∷ 8 ∷ []) ∷ (0x77, []) ∷ [])) ↔ (
      (0x71 ∷ 2 ∷ 7 ∷ 8 ∷ 0x77 ∷ 0 ∷ [] ≡ encode_fields ((0x71, 7 ∷ 8 ∷ []) ∷ (0x77, []) ∷ []))
      × All IsSmall ((0x71, 7 ∷ 8 ∷ []) ∷ (0x77, []) ∷ []))
fields_iff_example =
    fields_iff (0x71 ∷ 2 ∷ 7 ∷ 8 ∷ 0x77 ∷ 0 ∷ []) ((0x71, 7 ∷ 8 ∷ []) ∷ (0x77, []) ∷ [])
      (omega arith, (omega arith, (omega arith, (omega arith, (omega arith, (omega arith, tt))))))

-- The first value of RFC 4226, 755224 with the modulus 10^6.
abbrev rfc_code : Calculation
rfc_code = record {
  name = none;
  digits = 6;
  code = truncated_code (0x4c ∷ 0x93 ∷ 0xcf ∷ 0x18 ∷ []);
}

decimal_rfc : decimal rfc_code ≡ some (0x37 ∷ 0x35 ∷ 0x35 ∷ 0x32 ∷ 0x32 ∷ 0x34 ∷ [])
unfolding decimal
decimal_rfc = refl

decimal_digits_example :
    (out : Bytes) × (decimal rfc_code ≡ some out)
    × (length out ≡ 6)
    × All IsDigit out
    × (read_decimal 0 out ≡ 1284755224 % 10 ^ 6)
decimal_digits_example =
    decimal_digits rfc_code (0x4c ∷ 0x93 ∷ 0xcf ∷ 0x18 ∷ []) 1284755224 refl refl (omega arith)
      (omega arith)

abbrev zeros : ℕ → Bytes
zeros zero = []
zeros (suc n) = 0 ∷ zeros n

-- A function of the type of HMAC-SHA-1.
abbrev toy_hmac : Bytes → Bytes → Bytes
toy_hmac key message = take 20 (message ++ (key ++ zeros 20))

abbrev small_access : Access
small_access = record { key = 1 ∷ zeros 15; challenge = 1 ∷ 2 ∷ 3 ∷ 4 ∷ 5 ∷ 6 ∷ 7 ∷ 8 ∷ [] }

abbrev list_command : LogicalCommand
list_command = record {
  header = record { cla = 0; ins = 0xa1; p1 = 0; p2 = 0 };
  body = [];
  le = exact 255;
  allow_chaining = false;
  allow_extended = false;
  correct_le = false;
  continuation = libcanokey.Conversation.oath 0xa5 true;
}

abbrev at_phase_of : ℕ → Option Access → Option LogicalCommand → Oath
at_phase_of phase access target = record {
  request = Request.list;
  access = access;
  target = target;
  phase = phase;
  legacy = false;
  explicit_le = false;
  serial = none;
}

abbrev card_nonce : Bytes
card_nonce = 9 ∷ 9 ∷ 9 ∷ 9 ∷ 9 ∷ 9 ∷ 9 ∷ 9 ∷ []

abbrev selected : ResponseData
selected = record {
  body =
      (0x79 ∷ 3 ∷ 1 ∷ 0 ∷ 0 ∷ 0x71 ∷ 8 ∷ 5 ∷ 5 ∷ 5 ∷ 5 ∷ 5 ∷ 5 ∷ 5 ∷ 5 ∷ 0x74 ∷ 8 ∷ [])
      ++ (card_nonce ++ (0x7b ∷ 1 ∷ 1 ∷ []));
  status = 0x9000;
}

abbrev validated : ResponseData
validated = record {
  body = 0x75 ∷ 20 ∷ toy_hmac small_access.key small_access.challenge;
  status = 0x9000;
}

first_run : oath_next toy_hmac (at_phase_of 0 (some small_access) (some list_command)) none ≡ (
  at_phase_of 1 (some small_access) (some list_command),
  ok (Action.command (with_le false select_oath)),
)
unfolding oath_next
first_run = refl

second_run :
    oath_next toy_hmac (at_phase_of 1 (some small_access) (some list_command)) (some selected) ≡ (
      at_phase_of 2 (some small_access) (some list_command),
      ok (Action.command (validation toy_hmac small_access card_nonce false)),
    )
unfolding oath_next read_selection fields see_fields see_field text_eq
second_run = refl

third_run :
    oath_next toy_hmac (at_phase_of 2 (some small_access) (some list_command)) (some validated)
    ≡ (at_phase_of 3 none none, ok (Action.command list_command))
unfolding oath_next read_selection fields see_fields see_field text_eq
third_run = refl

target_after_mutual_proof_example :
    (with_le false select_oath ≡ with_le false select_oath)
    × ((sel : Selection) × (nonce : Bytes) × (read_selection selected.body ≡ ok sel)
        × (sel.challenge ≡ some nonce)
        × (validation toy_hmac small_access card_nonce false
            ≡ validation toy_hmac small_access nonce false)
        × ((validation toy_hmac small_access card_nonce false).header.ins ≡ 0xa3)
        × ((validation toy_hmac small_access card_nonce false).body
            ≡ field 0x75 (toy_hmac small_access.key nonce) ++ field 0x74 small_access.challenge))
    × (is_success validated.status ≡ true)
    × (fields validated.body ≡ ok ((0x75, toy_hmac small_access.key small_access.challenge) ∷ []))
    × (◌≡◌ {A = Option LogicalCommand} (some list_command) (some list_command))
    × ((at_phase_of 3 none none).phase ≡ 3)
target_after_mutual_proof_example =
    target_after_mutual_proof toy_hmac (at_phase_of 0 (some small_access) (some list_command))
      (at_phase_of 1 (some small_access) (some list_command))
      (at_phase_of 2 (some small_access) (some list_command)) (at_phase_of 3 none none) small_access
      selected validated (with_le false select_oath)
      (validation toy_hmac small_access card_nonce false) list_command refl refl refl refl first_run
      second_run third_run

abbrev modern_profile : DeviceProfile
modern_profile = record {
  info = record {
    firmware_text = 0x33 ∷ 0x2e ∷ 0x31 ∷ [];
    firmware = some (record { major = 3; minor = 1; patch = 0; suffix = none });
    model = none;
    serial = none;
    piv_version = none;
  };
  config = none;
  legacy_piv_extensions = none;
  warnings = [];
}

abbrev list_operation : Operation Oath Outcome
list_operation = record {
  machine = some (at_phase_of 0 (some small_access) (some list_command));
  conversation = none;
  output = none;
  progress = none;
  error = none;
  state = created;
  options = default_options;
  exchanges = 0;
  response_bytes = 0;
}

list_built :
    operation toy_hmac modern_profile Request.list (some small_access) default_options
    ≡ ok list_operation
unfolding operation require capability range_for firmware_range compatibility_base target
    validate_command validate new legacy_explicit_le select_oath fit_expected all_frames
    extended_frames short_frames chain_frames encode expected_field length_field open_frames
    from_machine command
list_built = refl

operation-IsGuarded_example : IsGuarded Request.list small_access list_operation
operation-IsGuarded_example =
    operation-IsGuarded toy_hmac modern_profile Request.list small_access default_options
      list_operation list_built
