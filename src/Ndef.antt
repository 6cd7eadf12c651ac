-- ===== src/Ndef.antt =====
-- crates/canokey-ndef/src/lib.rs: reading and replacing the NDEF message. Each machine is a step
-- function on its state. On every error path the source leaves the state as it was, which `settle`
-- writes once. The factories at the end check the budgets before any command.
pub mod Read
pub mod Write
pub mod Tag
pub mod Layout
pub mod Crash
pub mod ReadBack
mod Tests
use libcanokey.Prelude.{
  ℕ, ◌+◌, ◌-◌, ◌*◌, ◌/◌, ◌%◌, ◌==◌, Bool, true, false, not, ◌&&◌, ◌||◌, List, [], ◌∷◌, ◌++◌, Option,
  none, some, min, take, drop, length, is_empty, leb, ltb, get_elem?, if◌then◌else◌, Bytes, be16,
  from_be16,
}
use libcanokey.Error
use libcanokey.Error.{
  Error, Result, ok, err, ◌>>=◌, ◌>>◌, reject, ok_or, malformed, at_phase, command, select,
  limit_exceeded, invalid_argument, protocol_violation, security_status_not_satisfied,
}
use libcanokey.Apdu.{ApduHeader, absent, exact}
use libcanokey.Options.{OperationOptions, validate}
use libcanokey.Conversation.{LogicalCommand, ResponseData, new_command, ensure_success, div_ceil}
use libcanokey.Operation.{Action, Machine, Operation, from_machine, validate_command}

abbrev pub ndef_aid : Bytes
ndef_aid = 0xd2 ∷ 0x76 ∷ 0x00 ∷ 0x00 ∷ 0x85 ∷ 0x01 ∷ 0x01 ∷ []

abbrev pub cc_file_id : ℕ
cc_file_id = 0xe103

abbrev pub cc_len : ℕ
cc_len = 15

abbrev pub max_chunk : ℕ
max_chunk = 240

abbrev pub max_message_length : ℕ
max_message_length = 1022

pub record NdefCapability : Type 0 where
  pub file_id : ℕ
  pub max_length : ℕ
  pub read_only : Bool

unfoldable pub select_applet : LogicalCommand
select_applet =
    new_command (record { cla = 0x00; ins = 0xa4; p1 = 0x04; p2 = 0x00 }) ndef_aid absent

unfoldable pub select_file : ℕ → LogicalCommand
select_file id =
    new_command (record { cla = 0x00; ins = 0xa4; p1 = 0x00; p2 = 0x0c }) (be16 id) absent

unfoldable pub read_binary : ℕ → ℕ → LogicalCommand
read_binary offset size =
    new_command (record { cla = 0x00; ins = 0xb0; p1 = offset / 256 % 256; p2 = offset % 256 }) []
      (exact size)

unfoldable pub update_binary : ℕ → Bytes → LogicalCommand
update_binary offset body =
    new_command (record { cla = 0x00; ins = 0xd6; p1 = offset / 256 % 256; p2 = offset % 256 }) body
      absent

-- `parse_cc`; each index lies inside the fifteen bytes.
unfoldable pub parse_cc : Bytes → Result NdefCapability
parse_cc body = do
  reject (not (length body == cc_len)) malformed
  t ← ok_or (get_elem? body 7) malformed
  l ← ok_or (get_elem? body 8) malformed
  reject (not (t == 0x04) || not (l == 0x06)) malformed
  id_hi ← ok_or (get_elem? body 9) malformed
  id_lo ← ok_or (get_elem? body 10) malformed
  size_hi ← ok_or (get_elem? body 11) malformed
  size_lo ← ok_or (get_elem? body 12) malformed
  access ← ok_or (get_elem? body 14) malformed
  reject (ltb (from_be16 size_hi size_lo) 2) malformed
  ok (record {
    file_id = from_be16 id_hi id_lo;
    max_length = min (from_be16 size_hi size_lo - 2) max_message_length;
    read_only = not (access == 0);
  })

abbrev pub read_chunk : OperationOptions → ℕ
read_chunk o = min max_chunk (o.exchange.max_response_bytes - 2)

abbrev pub write_chunk : OperationOptions → Result ℕ
write_chunk o = do
  let chunk = min max_chunk (o.exchange.max_command_bytes - 6)
  reject (chunk == 0) (Error.new limit_exceeded)
  ok chunk

-- A step that fails leaves the machine's state alone.
abbrev pub settle : {S T : Type 0} → S → Result (S × Action T) → S × Result (Action T)
settle s (err e) = (s, err e)
settle s (ok (s', a)) = (s', ok a)

pub data ReadStep : Type 0 where
  select_applet_step select_cc read_cc select_ndef read_nlen message : ReadStep
