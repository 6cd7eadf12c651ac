-- ===== src/Oath/Machine.antt =====
-- crates/canokey-oath/src/execute.rs: the `Oath` machine and its `next`. Where `next` fails the model
-- keeps the state; the source has already changed its phase or taken its access there, but
-- `Operation::record` drops the machine, and it offers no progress. `verify_slice` is equality of the
-- 20 bytes. `hmac` is a parameter.
use libcanokey.Prelude.{
  ℕ, ◌==◌, Bool, true, false, not, ◌&&◌, List, [], ◌∷◌, ◌++◌, Option, none, some, is_empty,
  if◌then◌else◌, length, Bytes,
}
use libcanokey.Error
use libcanokey.Error.{
  Error, Phase, ErrorKind, SecretReference, Result, ok, err, ◌>>=◌, ◌>>◌, reject, ok_or, malformed,
  at_phase, status,
}
use libcanokey.Apdu.{absent, exact, is_success}
use libcanokey.Conversation.{LogicalCommand, ResponseData}
use libcanokey.Operation.{Action}
use libcanokey.Compat.Profile.{text_eq}
use libcanokey.Oath.{
  Access, Selection, Request, delete, rename, calculate, set_default, challenge_response_hmac,
  Outcome,
}
use libcanokey.Oath.Fields.{Field, field, fields}
use libcanokey.Oath.Target.{command, select_oath}
use libcanokey.Oath.Response.{read_selection, read_result}

pub record Oath : Type 0 where
  pub request : Request
  pub access : Option Access
  pub target : Option LogicalCommand
  pub phase : ℕ
  pub legacy : Bool
  pub explicit_le : Bool
  pub serial : Option Bytes

abbrev pub Answer : Type 0
Answer = Result (Oath × Action Outcome)

abbrev pub with_le : Bool → LogicalCommand → LogicalCommand
with_le explicit c = if explicit then record c { le = exact 256 } else c

abbrev pub send_found : Oath → Option LogicalCommand → Answer
send_found s (some c) = ok (record s { phase = 3; target = none }, Action.command c)
send_found s none = ok (record s { phase = 3 }, Action.done Outcome.unit)

-- `Oath::target`.
abbrev pub send_target : Oath → Answer
send_target s = send_found s s.target

abbrev pub phase_of : ℕ → Phase
phase_of n = if n == 1 then Phase.select else if n == 2 then Phase.authentication else Phase.command

-- The requests whose missing object the card reports as 6984.
abbrev pub names_object : Request → Bool
names_object (delete name) = true
names_object (rename old new) = true
names_object (calculate name kind algorithm challenge format) = true
names_object (set_default slot append_enter name) = true
names_object _ = false

abbrev pub is_vendor_hmac : Request → Bool
is_vendor_hmac (challenge_response_hmac slot challenge) = true
is_vendor_hmac _ = false

-- `GetSerial | ChallengeResponseHmac`.
abbrev pub is_vendor : Request → Bool
is_vendor Request.get_serial = true
is_vendor (challenge_response_hmac slot challenge) = true
is_vendor _ = false

-- The error of a status that is no success.
unfoldable pub failure : Oath → ℕ → Error
failure s sw =
    let e =
      status sw (phase_of s.phase)
        (if s.phase == 2 then some SecretReference.oath_access else none) in
    if s.phase == 2 && sw == 0x6a80
    then record e { kind = ErrorKind.authentication_failed }
    else if s.phase == 3 && (sw == 0x6984 && names_object s.request)
    then record e { kind = ErrorKind.not_found }
    else if s.phase == 3 && (sw == 0x6a82 && is_vendor_hmac s.request)
    then record e { kind = ErrorKind.not_found }
    else e

abbrev pub is_select : Request → Bool
is_select Request.select = true
is_select _ = false

abbrev pub is_validate : Request → Bool
is_validate Request.validate = true
is_validate _ = false

abbrev pub equal : Bytes → Bytes → Bool
equal xs ys = text_eq xs ys

abbrev pub has_algorithm_one : Option ℕ → Bool
has_algorithm_one none = false
has_algorithm_one (some n) = n == 1

-- The selection of legacy firmware is empty.
unfoldable pub after_legacy_select : Oath → Bytes → Answer
after_legacy_select s body = do
  reject (not (is_empty body)) malformed
  if is_select s.request
      then ok (s, Action.done (Outcome.legacy_selection s.serial))
      else send_target s

module _ (hmac : Bytes → Bytes → Bytes) where
  -- The VALIDATE command: the proof for the card's challenge, and the host's challenge.
  unfoldable pub validation : Access → Bytes → Bool → LogicalCommand
  unfolding command
  validation a challenge explicit =
      command 0xa3 0 0 (field 0x75 (hmac a.key challenge) ++ field 0x74 a.challenge)
        (if explicit then exact 256 else absent)

  -- The last `match` of the selection phase.
  unfoldable pub authenticate : Oath → Option Access → Selection → Option Bytes → Answer
  authenticate s none sel none = send_target s
  authenticate s none sel (some challenge) =
      err (at_phase (Error.new ErrorKind.security_status_not_satisfied) Phase.authentication)
  authenticate s (some a) sel none =
      err (at_phase (Error.new ErrorKind.conditions_not_satisfied) Phase.authentication)
  authenticate s (some a) sel (some challenge) = do
    reject (not (has_algorithm_one sel.algorithm)) (Error.new ErrorKind.unsupported_algorithm)
    ok (record s { phase = 2 }, Action.command (validation a challenge s.explicit_le))

  unfoldable pub after_modern_select : Oath → Bytes → Answer
  unfolding authenticate
  after_modern_select s body = do
    sel ← read_selection body
    if is_select s.request
        then ok (s, Action.done (Outcome.selection sel))
        else if is_vendor s.request
        then send_target s
        else authenticate s s.access sel sel.challenge

  -- Phase 1: the answer to SELECT.
  unfoldable pub after_select : Oath → Bytes → Answer
  unfolding after_legacy_select after_modern_select
  after_select s body = if s.legacy then after_legacy_select s body else after_modern_select s body

  abbrev pub card_proof : List Field → Result Bytes
  card_proof ((tag, bytes) ∷ []) =
      if tag == 0x75 && length bytes == 20 then ok bytes else err malformed
  card_proof _ = err malformed

  -- Phase 2: the answer to VALIDATE.
  unfoldable pub after_validate : Oath → Bytes → Answer
  after_validate s body = do
    fs ← fields body
    proof ← card_proof fs
    a ← ok_or s.access malformed
    reject (not (equal (hmac a.key a.challenge) proof))
        (at_phase (Error.new ErrorKind.device_authentication_failed) Phase.authentication)
    send_target (record s { access = none })

  abbrev pub after_target : Oath → Bytes → Answer
  after_target s body = do
    outcome ← read_result s.request body s.legacy
    ok (s, Action.done outcome)

  -- The `match` of the phase.
  unfoldable pub dispatch : Oath → Bytes → Answer
  unfolding after_select after_validate
  dispatch s body =
      if s.phase == 1
      then after_select s body
      else if s.phase == 2
      then after_validate s body
      else if s.phase == 3
      then after_target s body
      else err malformed

  unfoldable pub oath_answer : Oath → ResponseData → Answer
  unfolding dispatch failure
  oath_answer s r =
      if not (is_success r.status) then err (failure s r.status) else dispatch s r.body

  abbrev pub keep : Oath → Answer → Oath × Result (Action Outcome)
  keep s (err e) = (s, err e)
  keep s (ok (s', a)) = (s', ok a)

  unfoldable pub oath_response : Oath → Option ResponseData → Answer
  unfolding oath_answer
  oath_response s none = err malformed
  oath_response s (some r) = oath_answer s r

  -- `Oath::next`.
  unfoldable pub oath_next : Oath → Option ResponseData → Oath × Result (Action Outcome)
  unfolding oath_response
  oath_next s response =
      if s.phase == 0
      then (record s { phase = 1 }, ok (Action.command (with_le s.explicit_le select_oath)))
      else keep s (oath_response s response)
