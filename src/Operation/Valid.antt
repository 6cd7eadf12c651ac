-- ===== src/Operation/Valid.antt =====
-- The invariant of `Operation<T>`: what each lifecycle state holds, and the budgets.
use libcanokey.Prelude.{◌≤◌, ◌≡◌, ◌≢◌, ◌⊎◌, inl, inr, true, none, some, is_some, ◌||◌}
use mathlib.Core.Bool.{false≢true}
use libcanokey.Error.{Error}
use libcanokey.Conversation.{ConversationState}
use libcanokey.Conversation.Frames.{ValidOptions}
use libcanokey.Conversation.Responses.{InChannel}
use libcanokey.Operation.{
  OperationState, created, awaiting_response, completed, failed, cancelled, result_taken, Operation,
  is_created, is_awaiting, is_completed,
}

pub not_failed :
    (st : OperationState)
    → (is_created st || is_awaiting st || is_completed st) ≡ true
    → st ≢ failed
not_failed failed e f = cc
not_failed _ e f = cc

module _ {S T : Type 0} where
  -- What an operation holds in each state.
  abbrev pub Holds : OperationState → Operation S T → Type 0
  Holds created op =
      (is_some op.machine ≡ true)
      × (op.conversation ≡ none)
      × (op.output ≡ none)
      × (op.error ≡ none)
  Holds awaiting_response op =
      (is_some op.machine ≡ true)
      × ((c : ConversationState) × (op.conversation ≡ some c) × InChannel op.options c)
      × (op.output ≡ none)
      × (op.error ≡ none)
  Holds completed op =
      (op.machine ≡ none)
      × (op.conversation ≡ none)
      × ((v : T) × (op.output ≡ some v))
      × (op.error ≡ none)
  Holds failed op =
      (op.machine ≡ none)
      × (op.conversation ≡ none)
      × (op.output ≡ none)
      × ((e : Error) × (op.error ≡ some e))
  Holds cancelled op =
      (op.machine ≡ none) × (op.conversation ≡ none) × (op.output ≡ none) × (op.error ≡ none)
  Holds result_taken op =
      (op.machine ≡ none) × (op.conversation ≡ none) × (op.output ≡ none) × (op.error ≡ none)

  -- The budgets of a running operation.
  pub record InBudget (op : Operation S T) : Type 0 where
    pub valid : ValidOptions op.options
    pub few : op.exchanges ≤ op.options.limits.max_exchanges

  pub record IsValid (op : Operation S T) : Type 0 where
    pub holds : Holds op.state op
    pub budget : InBudget op
    pub total :
        (op.state ≡ failed) ⊎ (op.response_bytes ≤ op.options.limits.max_total_response_bytes)

  pub within_total :
      (op : Operation S T)
      → IsValid op
      → op.state ≢ failed
      → op.response_bytes ≤ op.options.limits.max_total_response_bytes
  within_total op v h = elim v.total [ inl e ↦ absurd (h e) | inr few ↦ few ]

  pub created-Holds :
      (op : Operation S T) (st : OperationState)
      → is_created st ≡ true
      → Holds st op
      → Holds created op
  created-Holds op created e h = h
  created-Holds op _ e h = cc

  pub awaiting-Holds :
      (op : Operation S T) (st : OperationState)
      → is_awaiting st ≡ true
      → Holds st op
      → Holds awaiting_response op
  awaiting-Holds op awaiting_response e h = h
  awaiting-Holds op _ e h = cc

  pub completed-Holds :
      (op : Operation S T) (st : OperationState)
      → is_completed st ≡ true
      → Holds st op
      → Holds completed op
  completed-Holds op completed e h = h
  completed-Holds op _ e h = cc

  pub active-Holds :
      (op : Operation S T) (st : OperationState)
      → (is_created st || is_awaiting st) ≡ true
      → Holds st op
      → (op.output ≡ none) × (op.error ≡ none) × (st ≢ failed)
  active-Holds op created e h = (h.2, h.3, λ f. cc)
  active-Holds op awaiting_response e h = (h.2, h.3, λ f. cc)
  active-Holds op _ e h = absurd (false≢true e)
