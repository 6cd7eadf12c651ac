-- ===== src/Conversation.antt =====
-- crates/canokey-protocol/src/operation.rs: one logical command as a sequence of physical ones.
-- `ConversationState::new` cuts it into frames, `advance` takes the card's responses. Both run
-- under options that `validate` accepted, so `max_response_bytes - 2` does not underflow.
pub mod Card
pub mod Chain
pub mod FittedLe
pub mod Frames
pub mod ChannelFit
pub mod Reassembly
pub mod Responses
mod Tests
use libcanokey.Prelude.{
  ℕ, zero, suc, ◌+◌, ◌-◌, ◌*◌, ◌/◌, ◌%◌, ◌==◌, Bool, true, false, not, ◌&&◌, ◌||◌, List, [], ◌∷◌,
  ◌++◌, Option, none, some, min, take, drop, length, is_empty, leb, ltb, if◌then◌else◌, Bytes,
}
use libcanokey.Error
use libcanokey.Error.{
  Error, Phase, Result, ok, err, ◌>>=◌, ◌>>◌, reject, over_limit, violation, invalid_argument,
  limit_exceeded, protocol_violation, conversation, status,
}
use libcanokey.Apdu.{
  ApduHeader, ApduEncoding, short, extended, ExpectedLength, absent, exact, CommandApdu, encode,
  corrected, out_of_range, ResponseApdu, is_success,
}
use libcanokey.Options.{OperationOptions}

pub data Continuation : Type 0 where
  oath : ℕ → Bool → Continuation
  iso7816 : ℕ → Continuation
  no_continuation : Continuation

pub record LogicalCommand : Type 0 where
  pub header : ApduHeader
  pub body : Bytes
  pub le : ExpectedLength
  pub allow_chaining : Bool
  pub allow_extended : Bool
  pub correct_le : Bool
  pub continuation : Continuation

-- `LogicalCommand::new`.
abbrev pub new_command : ApduHeader → Bytes → ExpectedLength → LogicalCommand
new_command header body le = record {
  header = header;
  body = body;
  le = le;
  allow_chaining = false;
  allow_extended = false;
  correct_le = false;
  continuation = iso7816 0;
}

pub record ResponseData : Type 0 where
  pub body : Bytes
  pub status : ℕ

-- `ResponseData::ensure_success`.
unfoldable pub ensure_success : ResponseData → Phase → Result (Unit {0})
ensure_success r phase = if is_success r.status then ok tt else err (status r.status phase none)

pub record ConversationState : Type 0 where
  pub pending : List CommandApdu
  pub current : CommandApdu
  pub corrected : Bool
  pub correct_le : Bool
  pub continuation : Continuation
  pub continuing : Bool
  pub oath_poll : Bool
  pub body : Bytes

-- `matches!(continuation, Oath { instruction, .. } if ![0x06, 0xa5].contains(&instruction))`.
abbrev pub bad_instruction : Continuation → Bool
bad_instruction (oath instruction probe) = not (instruction == 0x06 || instruction == 0xa5)
bad_instruction (iso7816 cla) = false
bad_instruction no_continuation = false

abbrev is_iso7816 : Continuation → Bool
is_iso7816 (iso7816 cla) = true
is_iso7816 _ = false

-- The largest response data that the channel takes.
abbrev pub max_data : OperationOptions → ℕ
max_data o = o.exchange.max_response_bytes - 2

-- Le is lowered to the channel's limit where the card may be asked again, and refused elsewhere.
unfoldable pub fit_expected :
    Continuation → Bool → ExpectedLength → OperationOptions → Result ExpectedLength
fit_expected policy correct_le absent o = ok absent
fit_expected policy correct_le (exact n) o =
    if ltb (max_data o) n
    then (if is_iso7816 policy && correct_le
        then ok (exact (max_data o))
        else err (Error.new limit_exceeded))
    else ok (exact n)

-- Room for data in a short frame, with Le.
abbrev pub max_short : OperationOptions → ℕ
max_short o = min (o.exchange.max_command_bytes - 6) 255

-- `cla & 0x10 != 0` and `cla |= 0x10`.
abbrev pub is_chained : ℕ → Bool
is_chained cla = cla / 16 % 2 == 1

abbrev pub set_chained : ApduHeader → ApduHeader
set_chained h = record h { cla = if is_chained h.cla then h.cla else h.cla + 16 }

-- The extended attempt: one frame, if it is allowed and fits the channel.
unfoldable pub extended_frames :
    LogicalCommand → ExpectedLength → OperationOptions → Result (List CommandApdu)
extended_frames c le o =
    if c.allow_extended && o.exchange.allow_extended && leb (length c.body) 65535
    then (do
      cmd ← encode c.header c.body le extended
      ok (if leb (length cmd.bytes) o.exchange.max_command_bytes then cmd ∷ [] else []))
    else ok []

-- `i + 1 == count`, by the rounds that come after this one.
abbrev pub is_last : ℕ → Bool
is_last zero = true
is_last (suc rounds) = false

-- The loop over `data.chunks(size)`, with `rounds` chunks left.
unfoldable pub chain_frames :
    ℕ → ℕ → ApduHeader → ExpectedLength → Bytes → Result (List CommandApdu)
chain_frames zero size header le body = ok []
chain_frames (suc rounds) size header le body = do
  let last = is_last rounds
  frame ←
      encode (if last then header else set_chained header) (take size body)
        (if last then le else absent) short
  frames ← chain_frames rounds size header le (drop size body)
  ok (frame ∷ frames)

abbrev pub div_ceil : ℕ → ℕ → ℕ
div_ceil n m = (n + m - 1) / m

-- `matches!(le, ExpectedLength::Exact(n) if n > 256)`.
abbrev pub is_wide : ExpectedLength → Bool
is_wide absent = false
is_wide (exact n) = ltb 256 n

unfoldable pub short_frames :
    LogicalCommand → ExpectedLength → OperationOptions → Result (List CommandApdu)
short_frames c le o = do
  reject (is_wide le) (Error.new limit_exceeded)
  if is_empty c.body || leb (length c.body) (max_short o)
      then (do frame ← encode c.header c.body le short; ok (frame ∷ []))
      else (do
        reject (not c.allow_chaining || max_short o == 0 || is_chained c.header.cla)
            (Error.new limit_exceeded)
        let count = div_ceil (length c.body) (max_short o)
        reject (ltb o.limits.max_exchanges count) (Error.new limit_exceeded)
        chain_frames count (max_short o) c.header le c.body)

-- All frames: the extended one, or else the short ones.
unfoldable pub all_frames :
    LogicalCommand → ExpectedLength → OperationOptions → Result (List CommandApdu)
all_frames c le o = do
  frames ← extended_frames c le o
  elim frames [ [] ↦ short_frames c le o | f ∷ fs ↦ ok (f ∷ fs) ]

-- The first frame is current, the others are pending.
unfoldable pub open_frames :
    LogicalCommand → OperationOptions → List CommandApdu → Result ConversationState
open_frames c o [] = err (Error.new protocol_violation)
open_frames c o (current ∷ pending) = do
  reject (ltb o.exchange.max_command_bytes (length current.bytes)) (Error.new limit_exceeded)
  ok (record {
    pending = pending;
    current = current;
    corrected = false;
    correct_le = c.correct_le;
    continuation = c.continuation;
    continuing = false;
    oath_poll = false;
    body = [];
  })

-- `ConversationState::new`.
unfoldable pub new : LogicalCommand → OperationOptions → Result ConversationState
new c o = do
  reject (bad_instruction c.continuation) (Error.new invalid_argument)
  reject (ltb o.limits.max_input_bytes (length c.body)) (Error.new limit_exceeded)
  reject (out_of_range c.le 65536) (Error.new invalid_argument)
  le ← fit_expected c.continuation c.correct_le c.le o
  frames ← all_frames c le o
  open_frames c o frames

-- The length in SW2 of 61xx and 6Cxx; zero stands for 256.
abbrev pub status_length : ℕ → ℕ
status_length sw = if sw % 256 == 0 then 256 else sw % 256

abbrev pub Advanced : Type 0
Advanced = Result (ConversationState × Option ResponseData)

-- 6Cxx: send the last frame again with the Le that the card names.
unfoldable pub advance_corrected : ConversationState → ℕ → OperationOptions → Advanced
advance_corrected s sw o = do
  reject (ltb (max_data o) (status_length sw)) over_limit
  current ← corrected s.current (status_length sw)
  reject (ltb o.exchange.max_command_bytes (length current.bytes)) over_limit
  ok (record s { current = current; corrected = true }, none)

-- A fragment was answered, and `next` and `rest` are pending.
unfoldable pub advance_fragment :
    ConversationState → ResponseApdu → CommandApdu → List CommandApdu → Advanced
advance_fragment s r next rest =
    if not (is_success r.status)
    then err (status r.status conversation none)
    else if not (is_empty r.body)
    then err violation
    else ok (record s { current = next; pending = rest; corrected = false }, none)

-- The data is complete.
unfoldable pub finish : ConversationState → ResponseApdu → Advanced
finish s r =
    ok (record s { body = [] }, some (record { body = s.body ++ r.body; status = r.status }))

-- An empty GET RESPONSE or SEND REMAINING.
abbrev pub poll : ℕ → ℕ → ℕ → Result CommandApdu
poll cla ins le = encode (record { cla = cla; ins = ins; p1 = 0; p2 = 0 }) [] (exact le) short

unfoldable pub advance_oath :
    ℕ → Bool → ConversationState → ResponseApdu → OperationOptions → Advanced
unfolding finish
advance_oath instruction probe s r o =
    if s.oath_poll && r.status == 0x6985 && is_empty r.body
    then ok (record s { body = [] }, some (record { body = s.body; status = 0x9000 }))
    else if r.status / 256 == 0x61 || (probe && r.status == 0x9000 && not (is_empty r.body))
    then (do
      reject (is_empty r.body) violation
      current ← poll 0 instruction (min 255 (max_data o))
      ok (
        record s {
          body = s.body ++ r.body;
          oath_poll = r.status == 0x9000;
          current = current;
          corrected = false;
          correct_le = false;
        },
        none,
      ))
    else finish s r

unfoldable pub advance_iso7816 : ℕ → ConversationState → ResponseApdu → OperationOptions → Advanced
unfolding finish
advance_iso7816 cla s r o =
    if r.status / 256 == 0x61
    then (do
      reject (s.continuing && is_empty r.body) violation
      current ← poll cla 0xc0 (min (status_length r.status) (max_data o))
      ok (
        record s {
          body = s.body ++ r.body;
          continuing = true;
          current = current;
          corrected = false;
          correct_le = true;
        },
        none,
      ))
    else finish s r

unfoldable pub advance_last :
    Continuation → ConversationState → ResponseApdu → OperationOptions → Advanced
unfolding advance_oath advance_iso7816 finish
advance_last (oath instruction probe) s r o = advance_oath instruction probe s r o
advance_last (iso7816 cla) s r o = advance_iso7816 cla s r o
advance_last no_continuation s r o = finish s r

unfoldable pub advance_pending :
    List CommandApdu → ConversationState → ResponseApdu → OperationOptions → Advanced
unfolding advance_last advance_fragment
advance_pending [] s r o = advance_last s.continuation s r o
advance_pending (next ∷ rest) s r o = advance_fragment s r next rest

-- `ConversationState::advance`. Where it fails, `Operation::record` discards the state.
unfoldable pub advance : ConversationState → ResponseApdu → OperationOptions → Advanced
unfolding advance_corrected advance_pending
advance s r o =
    if r.status / 256 == 0x6c && s.correct_le && is_empty s.pending && not s.corrected
    then advance_corrected s r.status o
    else advance_pending s.pending s r o
