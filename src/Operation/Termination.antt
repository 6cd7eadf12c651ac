-- ===== src/Operation/Termination.antt =====
-- The loop of a caller over responses, and the exchange budget.
use libcanokey.Prelude.{
  ℕ, suc, ◌+◌, ◌<◌, ◌≡◌, refl, ◌∙◌, ap, ◌⊎◌, inl, inr, false, Option, none, some, arith, length,
  Bytes, Bool-cases, leb, ltb, ◌^◌, List, [], ◌∷◌,
}
use libcanokey.Error.{Result, ok, err}
use libcanokey.Options.{OperationOptions}
use libcanokey.Apdu
use libcanokey.Apdu.{CommandApdu, ResponseApdu}
use libcanokey.Conversation
use libcanokey.Conversation.{ConversationState, ResponseData, LogicalCommand}
use libcanokey.Operation.{
  Action, command, done, Machine, Step, exchange, Operation, act, begin, drive, drive_machine, talk,
  receive_parsed, is_awaiting, exchange_next, record_result, converse, receive, advance_inner,
  advance,
}
use libcanokey.Operation.Valid.{IsValid}
use libcanokey.Operation.Preserve.{advance-IsValid}

module _ {S T : Type 0} (m : Machine S T) where
  -- What a drive does to the exchange count: one more for `Exchange`, and no more exchanges after
  -- `Done` or an error.
  abbrev Counts : ℕ → OperationOptions → Operation S T × Result Step → Type 0
  Counts k o (op, ok exchange) = (op.exchanges ≡ suc k) × (op.options ≡ o)
  Counts k o (op, ok Step.done) = (is_awaiting op.state ≡ false) × (op.options ≡ o)
  Counts k o (op, err e) = op.options ≡ o

  exchange_next-Counts : (op : Operation S T) → Counts op.exchanges op.options (exchange_next op)
  unfolding exchange_next
  exchange_next-Counts op = elim (Bool-cases (leb op.options.limits.max_exchanges op.exchanges)) [
    | inl spent ↦ rw spent refl
    | inr left ↦ rw left (omega arith, refl)
  ]

  begin-Counts :
      (op : Operation S T) (r : Result ConversationState)
      → Counts op.exchanges op.options (begin op r)
  unfolding begin
  begin-Counts op (err e) = refl
  begin-Counts op (ok c) = exchange_next-Counts (record op { conversation = some c })

  drive_machine-Counts :
      (s : Option S) (op : Operation S T) (r : Option ResponseData)
      → Counts op.exchanges op.options (drive_machine m s op r)
  unfolding drive_machine
  drive_machine-Counts none op r = refl
  drive_machine-Counts (some s) op r =
      act-Counts (record op { machine = some (m.next s r).0 }) (m.next s r).1
    where
      act-Counts :
          (op : Operation S T) (a : Result (Action T)) → Counts op.exchanges op.options (act op a)
      act-Counts op (err e) = refl
      act-Counts op (ok (done value)) = (refl, refl)
      act-Counts op (ok (command c)) = begin-Counts op (Conversation.new c op.options)

  converse-Counts :
      (op : Operation S T) (r : Result (ConversationState × Option ResponseData))
      → Counts op.exchanges op.options (converse m op r)
  unfolding converse drive
  converse-Counts op (err e) = refl
  converse-Counts op (ok (c, none)) = begin-Counts op (ok c)
  converse-Counts op (ok (c, some response)) =
      drive_machine-Counts op.machine (record op { conversation = none }) (some response)

  receive-Counts :
      (op : Operation S T) (r : ResponseApdu) → Counts op.exchanges op.options (receive m op r)
  unfolding receive talk
  receive-Counts op r = elim (Bool-cases (leb (2 ^ 64) (op.response_bytes + length r.body))) [
    | inl huge ↦ rw huge refl
    | inr sane ↦
        elim (Bool-cases
          (ltb op.options.limits.max_total_response_bytes (op.response_bytes + length r.body))) [
            | inl over ↦ rw (sane, over) refl
            | inr within ↦
                rw (sane, within)
                  (talked op.conversation
                    (record op { response_bytes = op.response_bytes + length r.body }))
          ]
  ]
    where
      talked :
          (c : Option ConversationState) (op : Operation S T)
          → Counts op.exchanges op.options (talk m c op r)
      talked none op = refl
      talked (some c) op = converse-Counts op (Conversation.advance c r op.options)

  receive_parsed-Counts :
      (op : Operation S T) (r : Result ResponseApdu)
      → Counts op.exchanges op.options (receive_parsed m op r)
  unfolding receive_parsed
  receive_parsed-Counts op (err e) = refl
  receive_parsed-Counts op (ok r) = receive-Counts op r

  advance_inner-Counts :
      (op : Operation S T) (bytes : Bytes)
      → Counts op.exchanges op.options (advance_inner m op bytes)
  unfolding advance_inner
  advance_inner-Counts op bytes =
      elim (Bool-cases (ltb op.options.exchange.max_response_bytes (length bytes))) [
        | inl long ↦ rw long refl
        | inr short ↦ rw short (receive_parsed-Counts op (Apdu.parse bytes))
      ]

  record_result-ends :
      (k : ℕ) (o : OperationOptions) (p : Operation S T × Result Step)
      → Counts k o p
      → ((is_awaiting (record_result m p).0.state ≡ false)
          ⊎ ((record_result m p).0.exchanges ≡ suc k))
        × ((record_result m p).0.options ≡ o)
  unfolding record_result
  record_result-ends k o (op, ok exchange) h = (inr h.0, h.1)
  record_result-ends k o (op, ok Step.done) h = (inl h.0, h.1)
  record_result-ends k o (op, err e) h = (inl refl, h)

  -- A response either ends the wait or costs one exchange.
  advance_ends :
      (op : Operation S T) (bytes : Bytes)
      → ((is_awaiting (advance m op bytes).0.state ≡ false)
          ⊎ ((advance m op bytes).0.exchanges ≡ suc op.exchanges))
        × ((advance m op bytes).0.options ≡ op.options)
  unfolding advance
  advance_ends op bytes = elim (Bool-cases (is_awaiting op.state)) [
    | inl waiting ↦ rw waiting (
        record_result-ends op.exchanges op.options (advance_inner m op bytes)
          (advance_inner-Counts op bytes))
    | inr other ↦ rw (advance, other) (inl other, refl)
  ]

  -- A caller's loop over the responses that the transport delivers.
  pub advance_all : Operation S T → List Bytes → Operation S T
  advance_all op [] = op
  advance_all op (r ∷ rs) = advance_all (advance m op r).0 rs

  advance_all_stays :
      (rs : List Bytes) (op : Operation S T) → is_awaiting op.state ≡ false → advance_all op rs ≡ op
  unfolding advance_all advance
  advance_all_stays [] op h = refl
  advance_all_stays (r ∷ rs) op h = rw (advance_all, h) (advance_all_stays rs op h)

  advance_all_counts :
      (rs : List Bytes) (op : Operation S T)
      → (is_awaiting (advance_all op rs).state ≡ false)
        ⊎ ((advance_all op rs).exchanges ≡ op.exchanges + length rs)
  unfolding advance_all
  advance_all_counts [] op = inr (omega arith)
  advance_all_counts (r ∷ rs) op = elim ((advance_ends op r).0) [
    | inl ended ↦ inl (rw (advance_all_stays rs (advance m op r).0 ended) ended)
    | inr counted ↦ elim (advance_all_counts rs (advance m op r).0) [
      | inl ended ↦ inl ended
      | inr more ↦ inr (omega arith)
    ]
  ]

  advance_all_options :
      (rs : List Bytes) (op : Operation S T) → (advance_all op rs).options ≡ op.options
  unfolding advance_all
  advance_all_options [] op = refl
  advance_all_options (r ∷ rs) op =
      advance_all_options rs (advance m op r).0 ∙ (advance_ends op r).1

  advance_all-IsValid :
      (rs : List Bytes) (op : Operation S T) → IsValid op → IsValid (advance_all op rs)
  unfolding advance_all
  advance_all-IsValid [] op v = v
  advance_all-IsValid (r ∷ rs) op v =
      advance_all-IsValid rs (advance m op r).0 (advance-IsValid m op r v)

  -- No card can keep an operation waiting: once more responses than `max_exchanges` were delivered,
  -- whatever they are, no further command is awaiting one. The operation is valid all along.
  pub advance_all_terminates :
      (op : Operation S T) (rs : List Bytes)
      → IsValid op
      → op.options.limits.max_exchanges < op.exchanges + length rs
      → (is_awaiting (advance_all op rs).state ≡ false) × IsValid (advance_all op rs)
  advance_all_terminates op rs v h =
      let w = advance_all-IsValid rs op v in
      elim (advance_all_counts rs op) [
        | inl ended ↦ (ended, w)
        | inr counted ↦ absurd (
            omega (
              arith,
              w.budget.few,
              ap (λ (o : OperationOptions). o.limits.max_exchanges) (advance_all_options rs op),
            ))
      ]
