-- ===== src/Ndef/Write.antt =====
-- crates/canokey-ndef/src/lib.rs: `WriteMachine` and `write_message`. The source subtracts the
-- offset from the message's length; the offset never passes it.
use libcanokey.Prelude.{
  ℕ, ◌+◌, ◌-◌, ◌%◌, ◌==◌, ◌||◌, [], ◌∷◌, Option, none, some, min, take, drop, length, is_empty, ltb,
  if◌then◌else◌, Bytes, be16,
}
use libcanokey.Error
use libcanokey.Error.{
  Error, Result, ok, err, ◌>>=◌, ◌>>◌, reject, ok_or, malformed, at_phase, command, select,
  limit_exceeded, invalid_argument, protocol_violation, security_status_not_satisfied,
}
use libcanokey.Options.{OperationOptions, validate}
use libcanokey.Conversation.{LogicalCommand, ResponseData, ensure_success, div_ceil}
use libcanokey.Operation.{Action, Operation, from_machine, validate_command}
use libcanokey.Ndef.{
  cc_file_id, cc_len, max_message_length, select_applet, select_file, read_binary, update_binary,
  parse_cc, write_chunk, settle,
}

pub data WriteStep : Type 0 where
  select_applet_step select_cc read_cc select_ndef zero_length message final_length : WriteStep

pub record WriteMachine : Type 0 where
  pub step : WriteStep
  pub message : Bytes
  pub chunk : ℕ
  pub file_id : ℕ
  pub offset : ℕ

-- The size of the chunk that starts at the offset.
abbrev pub this_chunk : WriteMachine → ℕ
this_chunk m = min (length m.message - m.offset) m.chunk

-- `WriteMachine::command`.
unfoldable pub write_command : WriteStep → WriteMachine → LogicalCommand
write_command select_applet_step m = select_applet
write_command select_cc m = select_file cc_file_id
write_command read_cc m = read_binary 0 cc_len
write_command select_ndef m = select_file m.file_id
write_command zero_length m = update_binary 0 (0 ∷ 0 ∷ [])
write_command message m =
    update_binary (2 + m.offset % 65536) (take (this_chunk m) (drop m.offset m.message))
write_command final_length m = update_binary 0 (be16 (length m.message))

abbrev pub write_send : WriteMachine → Result (WriteMachine × Action (Unit {0}))
write_send m = ok (m, Action.command (write_command m.step m))

unfoldable pub write_answer :
    WriteStep → WriteMachine → ResponseData → Result (WriteMachine × Action (Unit {0}))
write_answer select_applet_step m r = do
  ensure_success r select
  write_send (record m { step = select_cc })
write_answer select_cc m r = do ensure_success r command; write_send (record m { step = read_cc })
write_answer read_cc m r = do
  ensure_success r command
  capability ← parse_cc r.body
  reject capability.read_only (at_phase (Error.new security_status_not_satisfied) command)
  reject (ltb capability.max_length (length m.message))
      (at_phase (Error.new limit_exceeded) command)
  write_send (record m { file_id = capability.file_id; step = select_ndef })
write_answer select_ndef m r = do
  ensure_success r command
  write_send (record m { step = zero_length })
write_answer zero_length m r = do
  ensure_success r command
  write_send (record m { step = if is_empty m.message then final_length else message })
write_answer message m r = do
  ensure_success r command
  let offset = m.offset + this_chunk m
  write_send (record m {
    offset = offset;
    step = if offset == length m.message then final_length else message;
  })
write_answer final_length m r = do ensure_success r command; ok (m, Action.done tt)

unfoldable pub write_next :
    WriteMachine → Option ResponseData → WriteMachine × Result (Action (Unit {0}))
unfolding write_answer
write_next m none = settle m (write_send m)
write_next m (some r) = settle m (write_answer m.step m r)

abbrev pub initial_write : Bytes → ℕ → WriteMachine
initial_write bytes chunk = record {
  step = select_applet_step;
  message = bytes;
  chunk = chunk;
  file_id = 0;
  offset = 0;
}

unfoldable pub write_message : Bytes → OperationOptions → Result (Operation WriteMachine (Unit {0}))
write_message bytes options = do
  o ← validate options
  reject (ltb max_message_length (length bytes)) (Error.new invalid_argument)
  chunk ← write_chunk o
  reject
      (ltb o.limits.max_exchanges (6 + div_ceil (length bytes) chunk)
        || ltb o.limits.max_total_response_bytes cc_len)
      (Error.new limit_exceeded)
  validate_command (read_binary 0 cc_len) o
  validate_command (update_binary 0 (0 ∷ 0 ∷ [])) o
  if is_empty bytes
      then ok tt
      else validate_command (update_binary 2 (take (min (length bytes) chunk) bytes)) o
  from_machine (initial_write bytes chunk) o
