-- ===== src/Ndef/Read.antt =====
-- crates/canokey-ndef/src/lib.rs: `CapabilityMachine` and `ReadMachine`, and the factories that check
-- the budgets before any command and build the operation.
use libcanokey.Prelude.{
  ℕ, ◌+◌, ◌-◌, ◌%◌, ◌==◌, not, ◌||◌, [], ◌∷◌, ◌++◌, Option, none, some, min, length, ltb,
  if◌then◌else◌, Bytes, from_be16,
}
use libcanokey.Error
use libcanokey.Error.{
  Error, Result, ok, err, ◌>>=◌, ◌>>◌, reject, ok_or, malformed, at_phase, command, select,
  limit_exceeded, invalid_argument, protocol_violation, security_status_not_satisfied,
}
use libcanokey.Options.{OperationOptions, validate}
use libcanokey.Conversation.{LogicalCommand, ResponseData, ensure_success, div_ceil}
use libcanokey.Operation.{Action, Machine, Operation, from_machine, validate_command}
use libcanokey.Ndef.{
  cc_file_id, cc_len, max_message_length, NdefCapability, select_applet, select_file, read_binary,
  parse_cc, read_chunk, settle, ReadStep, select_applet_step, select_cc, read_cc, select_ndef,
  read_nlen, message,
}

-- `CapabilityMachine`.
unfoldable pub capability_command : ReadStep → Result LogicalCommand
capability_command select_applet_step = ok select_applet
capability_command select_cc = ok (select_file cc_file_id)
capability_command read_cc = ok (read_binary 0 cc_len)
capability_command _ = err (Error.new protocol_violation)

abbrev pub capability_send : ReadStep → Result (ReadStep × Action NdefCapability)
capability_send step = do c ← capability_command step; ok (step, Action.command c)

unfoldable pub capability_answer :
    ReadStep → ResponseData → Result (ReadStep × Action NdefCapability)
unfolding capability_command
capability_answer select_applet_step r = do ensure_success r select; capability_send select_cc
capability_answer select_cc r = do ensure_success r command; capability_send read_cc
capability_answer read_cc r = do
  ensure_success r command
  capability ← parse_cc r.body
  ok (read_cc, Action.done capability)
capability_answer _ r = err (Error.new protocol_violation)

unfoldable pub capability_next :
    ReadStep → Option ResponseData → ReadStep × Result (Action NdefCapability)
unfolding capability_answer
capability_next s none = settle s (capability_send s)
capability_next s (some r) = settle s (capability_answer s r)

pub record ReadMachine : Type 0 where
  pub step : ReadStep
  pub chunk : ℕ
  pub file_id : ℕ
  pub max_message : ℕ
  pub offset : ℕ
  pub remaining : ℕ
  pub bytes : Bytes

-- `ReadMachine::command`, which never fails.
unfoldable pub read_command : ReadStep → ReadMachine → LogicalCommand
read_command select_applet_step m = select_applet
read_command select_cc m = select_file cc_file_id
read_command read_cc m = read_binary 0 cc_len
read_command select_ndef m = select_file m.file_id
read_command read_nlen m = read_binary 0 2
read_command message m = read_binary (m.offset % 65536) (min m.remaining m.chunk)

abbrev pub read_send : ReadMachine → Result (ReadMachine × Action Bytes)
read_send m = ok (m, Action.command (read_command m.step m))

-- The two NLEN bytes, `try_into::<[u8; 2]>` and `u16::from_be_bytes`.
abbrev pub nlen_of : Bytes → Result ℕ
nlen_of (hi ∷ lo ∷ []) = ok (from_be16 hi lo)
nlen_of _ = err malformed

unfoldable pub read_answer :
    ReadStep → ReadMachine → ResponseData → Result (ReadMachine × Action Bytes)
read_answer select_applet_step m r = do
  ensure_success r select
  read_send (record m { step = select_cc })
read_answer select_cc m r = do ensure_success r command; read_send (record m { step = read_cc })
read_answer read_cc m r = do
  ensure_success r command
  capability ← parse_cc r.body
  read_send (record m {
    file_id = capability.file_id;
    max_message = capability.max_length;
    step = select_ndef;
  })
read_answer select_ndef m r = do ensure_success r command; read_send (record m { step = read_nlen })
read_answer read_nlen m r = do
  ensure_success r command
  nlen ← nlen_of r.body
  reject (ltb m.max_message nlen) malformed
  let m' = record m { remaining = nlen; offset = 2; step = message }
  if nlen == 0 then ok (m', Action.done []) else read_send m'
read_answer message m r = do
  ensure_success r command
  let want = min m.remaining m.chunk
  reject (not (length r.body == want)) malformed
  let bytes = m.bytes ++ r.body
  let m' = record m { bytes = bytes; remaining = m.remaining - want; offset = m.offset + want }
  if m.remaining - want == 0 then ok (record m' { bytes = [] }, Action.done bytes) else read_send m'

unfoldable pub read_next : ReadMachine → Option ResponseData → ReadMachine × Result (Action Bytes)
unfolding read_answer
read_next m none = settle m (read_send m)
read_next m (some r) = settle m (read_answer m.step m r)

-- The machines as `Operation` drives them; neither overrides the progress methods.
abbrev pub without_progress :
    {S T : Type 0} → (S → Option ResponseData → S × Result (Action T)) → Machine S T
without_progress next = record { next = next; progress = λ s. none; take_progress = λ s. (s, none) }

abbrev pub initial_read : ℕ → ReadMachine
initial_read chunk = record {
  step = select_applet_step;
  chunk = chunk;
  file_id = 0;
  max_message = max_message_length;
  offset = 0;
  remaining = 0;
  bytes = [];
}

unfoldable pub read_capability : OperationOptions → Result (Operation ReadStep NdefCapability)
read_capability options = do
  o ← validate options
  reject (ltb o.limits.max_total_response_bytes cc_len || ltb o.limits.max_exchanges 3)
      (Error.new limit_exceeded)
  validate_command (read_binary 0 cc_len) o
  from_machine select_applet_step o

unfoldable pub read_message : OperationOptions → Result (Operation ReadMachine Bytes)
read_message options = do
  o ← validate options
  reject (ltb o.limits.max_total_response_bytes (cc_len + 2 + max_message_length))
      (Error.new limit_exceeded)
  reject (ltb o.limits.max_exchanges (5 + div_ceil max_message_length (read_chunk o)))
      (Error.new limit_exceeded)
  validate_command (read_binary 0 cc_len) o
  from_machine (initial_read (read_chunk o)) o
