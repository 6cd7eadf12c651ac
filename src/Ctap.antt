-- ===== src/Ctap.antt =====
-- crates/canokey-ctap/src/lib.rs and status.rs: the CTAP envelope. A CTAP status is its byte. The
-- queue of requests is a list; the boxed parser is a function, and `take` leaves none behind.
pub mod Codes
pub mod CodeBytes
pub mod Envelope
pub mod StatusKinds
pub mod Cbor
pub mod Cose
pub mod CoseLaws
pub mod AuthData
pub mod AuthDataLaws
mod Tests
mod DataTests
use libcanokey.Prelude.{
  ℕ, ◌==◌, Bool, true, false, ◌||◌, List, [], ◌∷◌, Option, none, some, length, is_empty, ltb,
  if◌then◌else◌, Bytes,
}
use libcanokey.Error
use libcanokey.Error.{
  ErrorKind, Phase, Error, Result, ok, err, ◌>>=◌, ◌>>◌, reject, ok_or, malformed, at_phase, status,
}
use libcanokey.Apdu.{absent, is_success}
use libcanokey.Options.{OperationOptions, validate}
use libcanokey.Conversation.{iso7816, LogicalCommand, ResponseData, new_command, ensure_success}
use libcanokey.Operation.{Action, Operation, from_machine, validate_command}

-- The `match` of `CtapStatus::into_error`.
unfoldable pub into_error_kind : ℕ → ErrorKind
into_error_kind b =
    if b == 0x31 || b == 0x37
    then ErrorKind.invalid_pin
    else if b == 0x32 || b == 0x34
    then ErrorKind.pin_blocked
    else if b == 0x33
    then ErrorKind.authentication_failed
    else if b == 0x35 || b == 0x36
    then ErrorKind.security_status_not_satisfied
    else if b == 0x2e || b == 0x22
    then ErrorKind.not_found
    else if b == 0x19 || b == 0x27 || b == 0x2d || b == 0x2f || b == 0x30 || b == 0x3b
    then ErrorKind.conditions_not_satisfied
    else if b == 0x26
    then ErrorKind.unsupported_algorithm
    else if b == 0x2b || b == 0x2c
    then ErrorKind.unsupported_feature
    else if b == 0x15 || b == 0x18 || b == 0x28 || b == 0x39
    then ErrorKind.limit_exceeded
    else if b == 0x11 || b == 0x12 || b == 0x14
    then ErrorKind.protocol_violation
    else ErrorKind.unexpected_status_word

-- `CtapStatus::into_error`.
unfoldable pub into_error : ℕ → Phase → Option Error
into_error b phase =
    if b == 0
    then none
    else some
        (record (at_phase (Error.new (into_error_kind b)) phase) { application_status = some b })

pub record CtapResponse : Type 0 where
  pub status : ℕ
  pub payload : Bytes

abbrev pub fido2_aid : Bytes
fido2_aid = 0xa0 ∷ 0x00 ∷ 0x00 ∷ 0x06 ∷ 0x47 ∷ 0x2f ∷ 0x00 ∷ 0x01 ∷ []

-- `command::select`.
unfoldable pub select_fido2 : LogicalCommand
select_fido2 =
    new_command (record { cla = 0x00; ins = 0xa4; p1 = 0x04; p2 = 0x00 }) fido2_aid absent

-- `command::msg`.
unfoldable pub msg : Bytes → LogicalCommand
msg message =
    record (new_command (record { cla = 0x80; ins = 0x10; p1 = 0x00; p2 = 0x00 }) message absent) {
      allow_chaining = true;
      allow_extended = true;
      continuation = iso7816 0x80;
    }

pub record Request : Type 0 where
  pub command : LogicalCommand
  pub phase : Phase

pub record Sequence (T : Type 0) : Type 0 where
  pub pending : List Request
  pub current : Option Phase
  pub parse : Option (ResponseData → Result T)

module _ {T : Type 0} where
  -- The end of `Sequence::next`: send the first request of the queue.
  unfoldable pub send : List Request → Sequence T → Sequence T × Result (Action T)
  send [] s = (s, err (Error.new ErrorKind.protocol_violation))
  send (q ∷ qs) s =
      (record s { pending = qs; current = some q.phase }, ok (Action.command q.command))

  -- `Sequence::next` with a response and an empty queue.
  unfoldable pub parse_last :
      Option (ResponseData → Result T) → Sequence T → ResponseData → Sequence T × Result (Action T)
  parse_last none s r = (s, err (Error.new ErrorKind.operation_state_error))
  parse_last (some parse) s r = (record s { parse = none }, (do v ← parse r; ok (Action.done v)))

  -- `Sequence::next` with a response and a queue that is not empty.
  unfoldable pub check_phase :
      Option Phase → Sequence T → ResponseData → Sequence T × Result (Action T)
  unfolding send
  check_phase none s r = (s, err (Error.new ErrorKind.protocol_violation))
  check_phase (some phase) s r =
      if is_success r.status then send s.pending s else (s, err (status r.status phase none))

  -- `Sequence::next`.
  unfoldable pub next_request : Sequence T → Option ResponseData → Sequence T × Result (Action T)
  unfolding send parse_last check_phase
  next_request s none = send s.pending s
  next_request s (some r) =
      if is_empty s.pending then parse_last s.parse s r else check_phase s.current s r

  abbrev pub sequence : List Request → (ResponseData → Result T) → Sequence T
  sequence requests parse = record { pending = requests; current = none; parse = some parse }

  -- `single`.
  unfoldable pub single :
      LogicalCommand
      → Phase
      → OperationOptions
      → (ResponseData → Result T)
      → Result (Operation (Sequence T) T)
  single command phase options parse = do
    o ← validate options
    validate_command command o
    from_machine (sequence (record { command = command; phase = phase } ∷ []) parse) o

unfoldable pub checked_message : Bytes → OperationOptions → Result (Unit {0})
checked_message message o = do
  reject (is_empty message) (Error.new ErrorKind.invalid_argument)
  reject (ltb o.limits.max_input_bytes (length message)) (Error.new ErrorKind.limit_exceeded)
  ok tt

abbrev split_first : Bytes → Option (ℕ × Bytes)
split_first [] = none
split_first (x ∷ xs) = some (x, xs)

unfoldable pub parse_response : ResponseData → Result CtapResponse
parse_response r = do
  ensure_success r Phase.command
  p ← ok_or (split_first r.body) malformed
  ok (record { status = p.0; payload = p.1 })

unfoldable pub typed : {T : Type 0} → CtapResponse → (Bytes → Result T) → Result T
typed r parse = elim (into_error r.status Phase.command) [ some e ↦ err e | none ↦ parse r.payload ]

unfoldable pub empty_payload : Bytes → Result (Unit {0})
empty_payload bytes = if is_empty bytes then ok tt else err malformed

unfoldable pub select_application :
    OperationOptions → Result (Operation (Sequence (Unit {0})) (Unit {0}))
select_application options =
    single select_fido2 Phase.select options λ r. ensure_success r Phase.select

unfoldable pub transceive_selected :
    Bytes → OperationOptions → Result (Operation (Sequence CtapResponse) CtapResponse)
transceive_selected message options = do
  checked_message message options
  single (msg message) Phase.command options parse_response

-- The two requests of `select_then`.
abbrev pub select_requests : Bytes → List Request
select_requests message =
    record { command = select_fido2; phase = Phase.select }
    ∷ record { command = msg message; phase = Phase.command }
    ∷ []

abbrev pub parse_then : {T : Type 0} → (CtapResponse → Result T) → ResponseData → Result T
parse_then parse r = do c ← parse_response r; parse c

unfoldable pub select_then :
    {T : Type 0}
    → Bytes
    → OperationOptions
    → (CtapResponse → Result T)
    → Result (Operation (Sequence T) T)
select_then message options parse = do
  o ← validate options
  checked_message message o
  validate_command select_fido2 o
  validate_command (msg message) o
  from_machine (sequence (select_requests message) (parse_then parse)) o

unfoldable pub transceive :
    Bytes → OperationOptions → Result (Operation (Sequence CtapResponse) CtapResponse)
transceive message options = select_then message options ok
