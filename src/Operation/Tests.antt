-- ===== src/Operation/Tests.antt =====
-- An operation of one command, and the theorems at concrete inputs.
use libcanokey.Prelude.{
  ◌≡◌, ◌≢◌, ◌⊎◌, ◌≤◌, inl, refl, some, none, false, [], ◌∷◌, Bytes, length, arith,
}
use libcanokey.Error.{Result, ok, err}
use libcanokey.Apdu.{CommandApdu, absent}
use libcanokey.Options.{OperationOptions, default_limits, default_options, validate}
use libcanokey.Conversation.{LogicalCommand, ResponseData, new_command}
use libcanokey.Operation.{
  Operation, created, awaiting_response, completed, failed, SingleCommand, single_command,
  next_single, from_machine, start, drive, drive_machine, act, record_result, state_error,
  is_awaiting, pending_command, result,
}
use libcanokey.Operation.Valid.{IsValid}
use libcanokey.Operation.Preserve.{from_machine-IsValid}
use libcanokey.Operation.Lifecycle.{
  starts, takes, answers, calls, reachable-IsValid, failure_is_final, getters_total,
}
use libcanokey.Operation.Termination.{advance_all, advance_all_terminates}

abbrev one_exchange : OperationOptions
one_exchange = record default_options { limits = record default_limits { max_exchanges = 1 } }

abbrev get_version : LogicalCommand
get_version = new_command (record { cla = 0; ins = 0x31; p1 = 0; p2 = 0 }) [] absent

abbrev fresh_with : SingleCommand → Operation SingleCommand ResponseData
fresh_with machine = record {
  machine = some machine;
  conversation = none;
  output = none;
  progress = none;
  error = none;
  state = created;
  options = one_exchange;
  exchanges = 0;
  response_bytes = 0;
}

abbrev fresh : Operation SingleCommand ResponseData
fresh = fresh_with (some get_version)

built_fresh :
    (c : SingleCommand)
    → ◌≡◌ {A = Result (Operation SingleCommand ResponseData)}
        (from_machine c one_exchange)
        (ok (fresh_with c))
unfolding from_machine validate
built_fresh c = refl

fresh-IsValid : IsValid fresh
fresh-IsValid = from_machine-IsValid (some get_version) one_exchange fresh (built_fresh _)

abbrev success : Bytes
success = 0x90 ∷ 0x00 ∷ []

reachable-IsValid_example :
    IsValid (calls single_command fresh (starts ∷ answers success ∷ takes ∷ []))
reachable-IsValid_example =
    reachable-IsValid single_command (some get_version) one_exchange fresh
      (starts ∷ answers success ∷ takes ∷ []) (built_fresh _)

-- A machine without a command fails at the start.
abbrev failed_start : Operation SingleCommand ResponseData
failed_start = record (fresh_with none) { machine = none; error = some state_error; state = failed }

failure_is_final_example :
    (failed ≡ failed)
    × (some state_error ≡ some state_error)
    × (calls single_command failed_start (starts ∷ answers success ∷ []) ≡ failed_start)
unfolding start drive drive_machine act record_result next_single
failure_is_final_example =
    failure_is_final single_command (fresh_with none) failed_start state_error
      (starts ∷ answers success ∷ []) (inl (refl, refl))

getters_total_example :
    (((f : CommandApdu) × (pending_command fresh ≡ ok f)
        × (created ≡ awaiting_response)
        × (length f.bytes ≤ 261))
      ⊎ ((pending_command fresh ≡ err state_error) × (created ≢ awaiting_response)))
    × (((t : ResponseData) × (result fresh ≡ ok t) × (created ≡ completed))
        ⊎ ((result fresh ≡ err state_error) × (created ≢ completed)))
getters_total_example = getters_total single_command fresh fresh-IsValid

advance_all_terminates_example :
    (is_awaiting (advance_all single_command fresh (success ∷ success ∷ [])).state ≡ false)
    × IsValid (advance_all single_command fresh (success ∷ success ∷ []))
advance_all_terminates_example =
    advance_all_terminates single_command fresh (success ∷ success ∷ []) fresh-IsValid (omega arith)
