-- ===== src/Operation/Preserve.antt =====
-- The methods of `Operation<T>` and the invariant, one by one.
use libcanokey.Prelude.{
  ◌+◌, ◌≤◌, ◌≡◌, refl, sym, ◌∙◌, inl, inr, true, Option, none, some, is_some, arith, length, Bytes,
  Bool-cases, leb, ltb, ◌||◌, ◌^◌,
}
use mathlib.Core.Path.{subst}
use libcanokey.Error.{Result, ok, err, >>=-eq-ok, ok-injective}
use libcanokey.Options.{OperationOptions, validate}
use libcanokey.Apdu
use libcanokey.Apdu.{CommandApdu, ResponseApdu}
use libcanokey.Conversation
use libcanokey.Conversation.{ConversationState, ResponseData, LogicalCommand}
use libcanokey.Conversation.Frames.{ValidOptions, validate-ValidOptions}
use libcanokey.Conversation.ChannelFit.{new_fits}
use libcanokey.Conversation.Responses.{InChannel, advance-InChannel}
use libcanokey.Operation.{
  Action, command, done, Machine, Step, Operation, from_machine, act, begin, drive, drive_machine,
  talk, receive_parsed, is_created, is_awaiting, is_completed, exchange_next, record_result, start,
  converse, receive, advance_inner, advance, cancel, take_result,
}
use libcanokey.Operation.Valid.{
  InBudget, IsValid, created-Holds, awaiting-Holds, completed-Holds, active-Holds, not_failed,
  within_total,
}

same_value : {A : Type 0} {a b : A} → some a ≡ some b → a ≡ b
same_value e = cc

module _ {S T : Type 0} where
  -- What a drive leaves behind: a valid operation, or one that `record_result` makes valid.
  abbrev Outcome : Operation S T × Result Step → Type 0
  Outcome (op, ok step) = IsValid op
  Outcome (op, err e) = (op.output ≡ none) × InBudget op

  exchange_next-Outcome :
      (op : Operation S T) (c : ConversationState)
      → InBudget op
      → is_some op.machine ≡ true
      → op.conversation ≡ some c
      → InChannel op.options c
      → op.output ≡ none
      → op.error ≡ none
      → op.response_bytes ≤ op.options.limits.max_total_response_bytes
      → Outcome (exchange_next op)
  unfolding exchange_next
  exchange_next-Outcome op c b running talking fits no_output no_error total =
      elim (Bool-cases (leb op.options.limits.max_exchanges op.exchanges)) [
        | inl spent ↦ rw spent (no_output, b)
        | inr left ↦ rw left (record {
          holds = (running, (c, talking, fits), no_output, no_error);
          budget = record { valid = b.valid; few = ground arith };
          total = inr total;
        })
      ]

  -- A running operation between two commands.
  record Driving (op : Operation S T) : Type 0 where
    budget : InBudget op
    no_output : op.output ≡ none
    no_error : op.error ≡ none
    total : op.response_bytes ≤ op.options.limits.max_total_response_bytes

  begin-Outcome :
      (op : Operation S T) (r : Result ConversationState)
      → Driving op
      → is_some op.machine ≡ true
      → ((c : ConversationState) → r ≡ ok c → InChannel op.options c)
      → Outcome (begin op r)
  unfolding begin
  begin-Outcome op (err e) d running fits = (d.no_output, d.budget)
  begin-Outcome op (ok c) d running fits =
      exchange_next-Outcome (record op { conversation = some c }) c
        (record { valid = d.budget.valid; few = d.budget.few }) running refl (fits c refl)
        d.no_output d.no_error d.total

  act-Outcome :
      (op : Operation S T) (a : Result (Action T))
      → Driving op
      → is_some op.machine ≡ true
      → Outcome (act op a)
  unfolding act
  act-Outcome op (err e) d running = (d.no_output, d.budget)
  act-Outcome op (ok (done value)) d running = record {
    holds = (refl, refl, (value, refl), d.no_error);
    budget = record { valid = d.budget.valid; few = d.budget.few };
    total = inr d.total;
  }
  act-Outcome op (ok (command c)) d running =
      begin-Outcome op (Conversation.new c op.options) d running
        (λ s opened. new_fits c op.options s d.budget.valid opened)

module _ {S T : Type 0} (m : Machine S T) where
  drive_machine-Outcome :
      (s : Option S) (op : Operation S T) (response : Option ResponseData)
      → Driving op
      → Outcome (drive_machine m s op response)
  unfolding drive_machine
  drive_machine-Outcome none op response d = (d.no_output, d.budget)
  drive_machine-Outcome (some s) op response d =
      act-Outcome (record op { machine = some (m.next s response).0 }) (m.next s response).1
        (record {
          budget = record { valid = d.budget.valid; few = d.budget.few };
          no_output = d.no_output;
          no_error = d.no_error;
          total = d.total;
        })
        refl

  record_result-IsValid :
      (p : Operation S T × Result Step) → Outcome p → IsValid (record_result m p).0
  unfolding record_result
  record_result-IsValid (op, ok step) v = v
  record_result-IsValid (op, err e) (no_output, b) = record {
    holds = (refl, refl, no_output, (e, refl));
    budget = record { valid = b.valid; few = b.few };
    total = inl refl;
  }

  converse-Outcome :
      (op : Operation S T) (r : Result (ConversationState × Option ResponseData))
      → Driving op
      → is_some op.machine ≡ true
      → ((c : ConversationState) (out : Option ResponseData)
          → r ≡ ok (c, out)
          → InChannel op.options c)
      → Outcome (converse m op r)
  unfolding converse drive
  converse-Outcome op (err e) d running fits = (d.no_output, d.budget)
  converse-Outcome op (ok (c, none)) d running fits =
      begin-Outcome op (ok c) d running (λ s e. fits s none (cc))
  converse-Outcome op (ok (c, some response)) d running fits =
      drive_machine-Outcome op.machine (record op { conversation = none }) (some response)
        (record {
          budget = record { valid = d.budget.valid; few = d.budget.few };
          no_output = d.no_output;
          no_error = d.no_error;
          total = d.total;
        })

  -- What an advance needs of the operation.
  record Talking (op : Operation S T) : Type 0 where
    driving : Driving op
    running : is_some op.machine ≡ true

  talk-Outcome :
      (c : Option ConversationState) (op : Operation S T) (response : ResponseApdu)
      → Talking op
      → ((s : ConversationState) → c ≡ some s → InChannel op.options s)
      → Outcome (talk m c op response)
  unfolding talk
  talk-Outcome none op response t fits = (t.driving.no_output, t.driving.budget)
  talk-Outcome (some c) op response t fits =
      converse-Outcome op (Conversation.advance c response op.options) t.driving t.running
        (λ s out e.
          advance-InChannel op.options c s response out t.driving.budget.valid.command_room
            (fits c refl) e)

  receive-Outcome :
      (op : Operation S T) (response : ResponseApdu)
      → Talking op
      → ((s : ConversationState) → op.conversation ≡ some s → InChannel op.options s)
      → Outcome (receive m op response)
  unfolding receive
  receive-Outcome op response t fits =
      let total = op.response_bytes + length response.body in
      elim (Bool-cases (leb (2 ^ 64) total)) [
        | inl huge ↦ rw huge (t.driving.no_output, t.driving.budget)
        | inr sane ↦ elim (Bool-cases (ltb op.options.limits.max_total_response_bytes total)) [
          | inl over ↦
              rw (sane, over)
                (
                  t.driving.no_output,
                  record { valid = t.driving.budget.valid; few = t.driving.budget.few },
                )
          | inr within ↦
              rw (sane, within)
                (talk-Outcome op.conversation (record op { response_bytes = total }) response
                  (record {
                    driving = record {
                      budget = record {
                        valid = t.driving.budget.valid;
                        few = t.driving.budget.few;
                      };
                      no_output = t.driving.no_output;
                      no_error = t.driving.no_error;
                      total = ground arith;
                    };
                    running = t.running;
                  })
                  fits)
        ]
      ]

  receive_parsed-Outcome :
      (op : Operation S T) (r : Result ResponseApdu)
      → Talking op
      → ((s : ConversationState) → op.conversation ≡ some s → InChannel op.options s)
      → Outcome (receive_parsed m op r)
  unfolding receive_parsed
  receive_parsed-Outcome op (err e) t fits = (t.driving.no_output, t.driving.budget)
  receive_parsed-Outcome op (ok response) t fits = receive-Outcome op response t fits

  advance_inner-Outcome :
      (op : Operation S T) (bytes : Bytes)
      → Talking op
      → ((s : ConversationState) → op.conversation ≡ some s → InChannel op.options s)
      → Outcome (advance_inner m op bytes)
  unfolding advance_inner
  advance_inner-Outcome op bytes t fits =
      elim (Bool-cases (ltb op.options.exchange.max_response_bytes (length bytes))) [
        | inl long ↦ rw long (t.driving.no_output, t.driving.budget)
        | inr short ↦ rw short (receive_parsed-Outcome op (Apdu.parse bytes) t fits)
      ]

  -- Every method keeps the invariant, whatever the machine answers and whatever the card sends.
  pub start-IsValid : (op : Operation S T) → IsValid op → IsValid (start m op).0
  unfolding start drive
  start-IsValid op v = elim (Bool-cases (is_created op.state)) [
    | inr other ↦ rw (start, other) v
    | inl fresh ↦
        let (running, silent, no_output, no_error) = created-Holds op op.state fresh v.holds in
        rw (start, fresh)
          (record_result-IsValid (drive m op none) (
            drive_machine-Outcome op.machine op none (record {
              budget = v.budget;
              no_output = no_output;
              no_error = no_error;
              total = within_total op v (not_failed op.state (rw fresh));
            })))
  ]

  pub advance-IsValid :
      (op : Operation S T) (bytes : Bytes) → IsValid op → IsValid (advance m op bytes).0
  unfolding advance
  advance-IsValid op bytes v = elim (Bool-cases (is_awaiting op.state)) [
    | inr other ↦ rw (advance, other) v
    | inl waiting ↦
        let (running, (c, talking, fits), no_output, no_error) =
          awaiting-Holds op op.state waiting v.holds in
        rw (advance, waiting)
          (record_result-IsValid (advance_inner m op bytes) (
            advance_inner-Outcome op bytes
              (record {
                driving = record {
                  budget = v.budget;
                  no_output = no_output;
                  no_error = no_error;
                  total = within_total op v (not_failed op.state (ground (arith, waiting)));
                };
                running = running;
              })
              (λ s e. subst (InChannel op.options) (same_value (sym talking ∙ e)) fits)))
  ]

module _ {S T : Type 0} where
  pub cancel-IsValid : (op : Operation S T) → IsValid op → IsValid (cancel op)
  unfolding cancel
  cancel-IsValid op v = elim (Bool-cases (is_created op.state || is_awaiting op.state)) [
    | inr other ↦ rw (cancel, other) v
    | inl active ↦
        let (no_output, no_error, alive) = active-Holds op op.state active v.holds in
        rw (cancel, active)
          (record {
            holds = (refl, refl, no_output, no_error);
            budget = record { valid = v.budget.valid; few = v.budget.few };
            total = inr (within_total op v alive);
          })
  ]

  pub take_result-IsValid : (op : Operation S T) → IsValid op → IsValid (take_result op).0
  unfolding take_result
  take_result-IsValid op v = elim (Bool-cases (is_completed op.state)) [
    | inr other ↦ rw (take_result, other) v
    | inl finished ↦
        let (stopped, silent, (value, has), no_error) =
          completed-Holds op op.state finished v.holds in
        rw (take_result, finished, has)
          (record {
            holds = (stopped, silent, refl, no_error);
            budget = record { valid = v.budget.valid; few = v.budget.few };
            total = inr (within_total op v (not_failed op.state (ground (arith, finished))));
          })
  ]

  pub from_machine-IsValid :
      (s : S) (o : OperationOptions) (op : Operation S T) → from_machine s o ≡ ok op → IsValid op
  unfolding from_machine
  from_machine-IsValid s o op e =
      let (p, valid, e1) = >>=-eq-ok (validate o) _ e in
      let ok_options = validate-ValidOptions o valid in
      subst IsValid (ok-injective e1) (record {
        holds = (refl, refl, refl, refl);
        budget = record {
          valid = subst ValidOptions (sym ok_options.0) ok_options.1;
          few = omega arith;
        };
        total = inr (omega arith);
      })
