-- ===== src/Operation/Lifecycle.antt =====
-- Whole lives of an operation: any calls of its methods in any order.
use libcanokey.Prelude.{
  ◌≤◌, ◌≡◌, ◌≢◌, refl, sym, ◌∙◌, ap, ◌⊎◌, inl, inr, true, none, some, arith, length, Bytes,
  Bool-cases, List, [], ◌∷◌,
}
use libcanokey.Error.{Error, Result, ok, err, err-injective, ok≢err}
use libcanokey.Options.{OperationOptions}
use libcanokey.Apdu.{CommandApdu}
use libcanokey.Operation.{
  Machine, Step, OperationState, awaiting_response, completed, failed, Operation, from_machine,
  drive, is_created, is_awaiting, is_completed, record_result, start, advance_inner, advance,
  cancel, take_result, pending_command, result, state_error,
}
use libcanokey.Operation.Valid.{IsValid, awaiting-Holds, completed-Holds}
use libcanokey.Operation.Preserve.{
  start-IsValid, advance-IsValid, cancel-IsValid, take_result-IsValid, from_machine-IsValid,
}

-- The calls that a caller can make to change an operation.
pub data Call : Type 0 where
  starts stops takes : Call
  answers : Bytes → Call

awaiting_is : (st : OperationState) → is_awaiting st ≡ true → st ≡ awaiting_response
awaiting_is awaiting_response e = refl
awaiting_is _ e = cc

completed_is : (st : OperationState) → is_completed st ≡ true → st ≡ completed
completed_is completed e = refl
completed_is _ e = cc

module _ {S T : Type 0} (m : Machine S T) where
  pub call : Operation S T → Call → Operation S T
  call op starts = (start m op).0
  call op stops = cancel op
  call op takes = (take_result op).0
  call op (answers bytes) = (advance m op bytes).0

  pub calls : Operation S T → List Call → Operation S T
  calls op [] = op
  calls op (c ∷ cs) = calls (call op c) cs

  call-IsValid : (op : Operation S T) (c : Call) → IsValid op → IsValid (call op c)
  unfolding call
  call-IsValid op starts v = start-IsValid m op v
  call-IsValid op stops v = cancel-IsValid op v
  call-IsValid op takes v = take_result-IsValid op v
  call-IsValid op (answers bytes) v = advance-IsValid m op bytes v

  calls-IsValid : (cs : List Call) (op : Operation S T) → IsValid op → IsValid (calls op cs)
  unfolding calls
  calls-IsValid [] op v = v
  calls-IsValid (c ∷ cs) op v = calls-IsValid cs (call op c) (call-IsValid op c v)

  -- Whatever machine an operation runs, whatever responses it is given and in whatever order its
  -- methods are called, each lifecycle state holds exactly what it should: a machine only while
  -- running, a conversation whose commands all fit the channel only while awaiting a response, a
  -- result only when completed, an error only and always when failed; and the budgets are kept.
  pub reachable-IsValid :
      (s : S) (o : OperationOptions) (op : Operation S T) (cs : List Call)
      → from_machine s o ≡ ok op
      → IsValid (calls op cs)
  reachable-IsValid s o op cs e = calls-IsValid cs op (from_machine-IsValid s o op e)

  failed_call : (op : Operation S T) (c : Call) → op.state ≡ failed → call op c ≡ op
  unfolding call start cancel take_result advance
  failed_call op starts h = rw (start, h) refl
  failed_call op stops h = rw (cancel, h) refl
  failed_call op takes h = rw (take_result, h) refl
  failed_call op (answers bytes) h = rw (advance, h) refl

  failed_stays : (cs : List Call) (op : Operation S T) → op.state ≡ failed → calls op cs ≡ op
  unfolding calls
  failed_stays [] op h = refl
  failed_stays (c ∷ cs) op h =
      ap (λ (p : Operation S T). calls p cs) (failed_call op c h) ∙ failed_stays cs op h

  record_result-failed :
      (p : Operation S T × Result Step) (op' : Operation S T) (e : Error) (cs : List Call)
      → record_result m p ≡ (op', err e)
      → (op'.state ≡ failed) × (op'.error ≡ some e) × (calls op' cs ≡ op')
  unfolding record_result
  record_result-failed (op, ok s) op' e cs h =
      absurd (ok≢err (ap (λ (q : Operation S T × Result Step). q.1) h))
  record_result-failed (op, err x) op' e cs h =
      let same : x ≡ e = err-injective (ap (λ (q : Operation S T × Result Step). q.1) h) in
      let is_failed : op'.state ≡ failed =
        ap (λ (q : Operation S T × Result Step). q.0.state) (sym h) in
      (
        is_failed,
        ap (λ (q : Operation S T × Result Step). q.0.error) (sym h) ∙ ap some same,
        failed_stays cs op' is_failed,
      )

  -- An operation fails when it is started in the state `created`, or is given a response while it
  -- awaits one, and the call returns an error. Then that error is kept, and whatever methods are
  -- called afterwards, with whatever responses, the operation stays as it is.
  pub failure_is_final :
      (op op' : Operation S T) (e : Error) (cs : List Call)
      → ((is_created op.state ≡ true) × (start m op ≡ (op', err e)))
        ⊎ ((bytes : Bytes) × (is_awaiting op.state ≡ true) × (advance m op bytes ≡ (op', err e)))
      → (op'.state ≡ failed) × (op'.error ≡ some e) × (calls op' cs ≡ op')
  unfolding start advance
  failure_is_final op op' e cs (inl (s, f)) =
      record_result-failed (drive m op none) op' e cs (rw (start, s) at f)
  failure_is_final op op' e cs (inr (bytes, s, f)) =
      record_result-failed (advance_inner m op bytes) op' e cs (rw (advance, s) at f)

  -- In a valid operation the getters fail only on the lifecycle state: a command is exposed exactly
  -- while a response is awaited and is never longer than the channel allows, a result exactly when
  -- completed.
  pub getters_total :
      (op : Operation S T)
      → IsValid op
      → (((f : CommandApdu) × (pending_command op ≡ ok f)
            × (op.state ≡ awaiting_response)
            × (length f.bytes ≤ op.options.exchange.max_command_bytes))
          ⊎ ((pending_command op ≡ err state_error) × (op.state ≢ awaiting_response)))
        × (((t : T) × (result op ≡ ok t) × (op.state ≡ completed))
            ⊎ ((result op ≡ err state_error) × (op.state ≢ completed)))
  unfolding pending_command result
  getters_total op v = (command_total, result_total)
    where
      command_total :
          ((f : CommandApdu) × (pending_command op ≡ ok f)
            × (op.state ≡ awaiting_response)
            × (length f.bytes ≤ op.options.exchange.max_command_bytes))
          ⊎ ((pending_command op ≡ err state_error) × (op.state ≢ awaiting_response))
      command_total = elim (Bool-cases (is_awaiting op.state)) [
        | inl waiting ↦
            let (running, (c, talking, fits), no_output, no_error) =
              awaiting-Holds op op.state waiting v.holds in
            inl (
              c.current,
              rw (pending_command, waiting, talking),
              awaiting_is op.state waiting,
              fits.0,
            )
        | inr other ↦ inr (rw (pending_command, other), λ e. ground (arith, other))
      ]

      result_total :
          ((t : T) × (result op ≡ ok t) × (op.state ≡ completed))
          ⊎ ((result op ≡ err state_error) × (op.state ≢ completed))
      result_total = elim (Bool-cases (is_completed op.state)) [
        | inl finished ↦
            let (stopped, silent, (t, has), no_error) =
              completed-Holds op op.state finished v.holds in
            inl (t, rw (result, finished, has), completed_is op.state finished)
        | inr other ↦ inr (rw (result, other), λ e. ground (arith, other))
      ]
