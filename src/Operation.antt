-- ===== src/Operation.antt =====
-- crates/canokey-protocol/src/operation.rs: `Operation<T>`, the lifecycle that a caller drives, over
-- an applet's machine. A method that takes `&mut self` returns the operation afterwards and its
-- result. The boxed machine is its state and the record of its methods.
pub mod Valid
pub mod Preserve
pub mod Lifecycle
pub mod Termination
mod Tests
use libcanokey.Prelude.{
  ℕ, ◌+◌, ◌==◌, ◌^◌, Bool, true, false, not, ◌&&◌, ◌||◌, Option, none, some, length, leb, ltb,
  if◌then◌else◌, Bytes,
}
use libcanokey.Error
use libcanokey.Error.{
  Error, Result, ok, err, ◌>>=◌, ◌>>◌, reject, ok_or, over_limit, operation_state_error,
}
use libcanokey.Apdu
use libcanokey.Apdu.{CommandApdu, ResponseApdu}
use libcanokey.Options.{OperationOptions, validate}
use libcanokey.Conversation
use libcanokey.Conversation.{LogicalCommand, ResponseData, ConversationState}

-- `engine::Action`.
pub data Action (T : Type 0) : Type 0 where
  command : LogicalCommand → Action T
  done : T → Action T

-- `engine::Machine`: the methods over the machine's state.
pub record Machine (S T : Type 0) : Type 0 where
  pub next : S → Option ResponseData → S × Result (Action T)
  pub progress : S → Option T
  pub take_progress : S → S × Option T

pub data Step : Type 0 where
  exchange done : Step

pub data OperationState : Type 0 where
  created awaiting_response completed failed cancelled result_taken : OperationState

pub record Operation (S T : Type 0) : Type 0 where
  pub machine : Option S
  pub conversation : Option ConversationState
  pub output : Option T
  pub progress : Option T
  pub error : Option Error
  pub state : OperationState
  pub options : OperationOptions
  pub exchanges : ℕ
  pub response_bytes : ℕ

abbrev pub state_error : Error
state_error = Error.new operation_state_error

abbrev pub is_created : OperationState → Bool
is_created created = true
is_created _ = false

abbrev pub is_awaiting : OperationState → Bool
is_awaiting awaiting_response = true
is_awaiting _ = false

abbrev pub is_completed : OperationState → Bool
is_completed completed = true
is_completed _ = false

module _ {S T : Type 0} where
  -- `Operation::from_machine`.
  unfoldable pub from_machine : S → OperationOptions → Result (Operation S T)
  from_machine s o = do
    valid ← validate o
    ok (record {
      machine = some s;
      conversation = none;
      output = none;
      progress = none;
      error = none;
      state = created;
      options = valid;
      exchanges = 0;
      response_bytes = 0;
    })

  -- `Operation::command`.
  unfoldable pub pending_command : Operation S T → Result CommandApdu
  pending_command op =
      if not (is_awaiting op.state)
      then err state_error
      else elim op.conversation [ none ↦ err state_error | some c ↦ ok c.current ]

  -- `Operation::result`.
  unfoldable pub result : Operation S T → Result T
  result op = if not (is_completed op.state) then err state_error else ok_or op.output state_error

  -- `Operation::take_result`.
  unfoldable pub take_result : Operation S T → Operation S T × Result T
  take_result op = if not (is_completed op.state) then (op, err state_error) else elim op.output [
    | none ↦ (op, err state_error)
    | some value ↦ (record op { output = none; state = result_taken }, ok value)
  ]

  -- `Operation::cancel`.
  unfoldable pub cancel : Operation S T → Operation S T
  cancel op =
      if is_created op.state || is_awaiting op.state
      then record op { machine = none; conversation = none; state = cancelled }
      else op

  -- `Operation::exchange`.
  unfoldable pub exchange_next : Operation S T → Operation S T × Result Step
  exchange_next op =
      if leb op.options.limits.max_exchanges op.exchanges
      then (op, err over_limit)
      else (record op { exchanges = op.exchanges + 1; state = awaiting_response }, ok exchange)

  -- `drive` with a command: on the conversation that it opens.
  unfoldable pub begin : Operation S T → Result ConversationState → Operation S T × Result Step
  unfolding exchange_next
  begin op (err e) = (op, err e)
  begin op (ok c) = exchange_next (record op { conversation = some c })

  -- The arms of `drive`, on the machine's answer.
  unfoldable pub act : Operation S T → Result (Action T) → Operation S T × Result Step
  unfolding begin
  act op (err e) = (op, err e)
  act op (ok (done value)) = (
    record op { output = some value; machine = none; conversation = none; state = completed },
    ok done,
  )
  act op (ok (command c)) = begin op (Conversation.new c op.options)

module _ {S T : Type 0} (m : Machine S T) where
  -- `Operation::progress`.
  unfoldable pub progress : Operation S T → Option T
  progress op = elim op.progress [
    | some p ↦ some p
    | none ↦ elim op.machine [ none ↦ none | some s ↦ m.progress s ]
  ]

  -- `Operation::drive`, on the machine that it finds.
  unfoldable pub drive_machine :
      Option S → Operation S T → Option ResponseData → Operation S T × Result Step
  unfolding act
  drive_machine none op response = (op, err state_error)
  drive_machine (some s) op response =
      let answer = m.next s response in act (record op { machine = some answer.0 }) answer.1

  unfoldable pub drive : Operation S T → Option ResponseData → Operation S T × Result Step
  unfolding drive_machine
  drive op response = drive_machine op.machine op response

  -- `Operation::record`.
  unfoldable pub record_result : Operation S T × Result Step → Operation S T × Result Step
  record_result (op, ok step) = (op, ok step)
  record_result (op, err e) = (
    record op {
      progress = elim op.machine [ none ↦ none | some s ↦ (m.take_progress s).1 ];
      machine = none;
      conversation = none;
      error = some e;
      state = failed;
    },
    err e,
  )

  -- `Operation::start`.
  unfoldable pub start : Operation S T → Operation S T × Result Step
  unfolding drive record_result
  start op =
      if not (is_created op.state) then (op, err state_error) else record_result (drive op none)

  -- What follows the conversation's answer in `advance_inner`.
  unfoldable pub converse :
      Operation S T → Result (ConversationState × Option ResponseData) → Operation S T × Result Step
  unfolding drive exchange_next
  converse op (err e) = (op, err e)
  converse op (ok (c, none)) = exchange_next (record op { conversation = some c })
  converse op (ok (c, some response)) = drive (record op { conversation = none }) (some response)

  -- `advance_inner` on the conversation that it finds.
  unfoldable pub talk :
      Option ConversationState → Operation S T → ResponseApdu → Operation S T × Result Step
  unfolding converse
  talk none op response = (op, err state_error)
  talk (some c) op response = converse op (Conversation.advance c response op.options)

  -- The part of `advance_inner` behind `ResponseApdu::parse`.
  unfoldable pub receive : Operation S T → ResponseApdu → Operation S T × Result Step
  unfolding talk
  receive op response =
      let total = op.response_bytes + length response.body in
      if leb (2 ^ 64) total
      then (op, err over_limit)
      else if ltb op.options.limits.max_total_response_bytes total
      then (record op { response_bytes = total }, err over_limit)
      else talk op.conversation (record op { response_bytes = total }) response

  unfoldable pub receive_parsed : Operation S T → Result ResponseApdu → Operation S T × Result Step
  unfolding receive
  receive_parsed op (err e) = (op, err e)
  receive_parsed op (ok response) = receive op response

  -- `Operation::advance_inner`.
  unfoldable pub advance_inner : Operation S T → Bytes → Operation S T × Result Step
  unfolding receive_parsed
  advance_inner op bytes =
      if ltb op.options.exchange.max_response_bytes (length bytes)
      then (op, err over_limit)
      else receive_parsed op (Apdu.parse bytes)

  -- `Operation::advance`.
  unfoldable pub advance : Operation S T → Bytes → Operation S T × Result Step
  unfolding advance_inner record_result
  advance op bytes =
      if not (is_awaiting op.state)
      then (op, err state_error)
      else record_result (advance_inner op bytes)

-- `SingleCommand`, the machine of `conversation`.
abbrev pub SingleCommand : Type 0
SingleCommand = Option LogicalCommand

unfoldable pub next_single :
    SingleCommand → Option ResponseData → SingleCommand × Result (Action ResponseData)
next_single s (some response) = (s, ok (done response))
next_single none none = (none, err state_error)
next_single (some c) none = (none, ok (command c))

abbrev pub single_command : Machine SingleCommand ResponseData
single_command = record { next = next_single; progress = λ s. none; take_progress = λ s. (s, none) }

-- `validate_command`.
unfoldable pub validate_command : LogicalCommand → OperationOptions → Result (Unit {0})
validate_command c o = do valid ← validate o; s ← Conversation.new c valid; ok tt

-- `conversation`.
unfoldable pub conversation :
    LogicalCommand → OperationOptions → Result (Operation SingleCommand ResponseData)
unfolding validate_command
conversation c o = do validate_command c o; from_machine (some c) o
