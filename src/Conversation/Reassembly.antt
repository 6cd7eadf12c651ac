-- ===== src/Conversation/Reassembly.antt =====
-- `ConversationState::advance` over the responses of a continued answer.
use libcanokey.Prelude.{
  ℕ, ◌/◌, ◌≡◌, refl, ◌∙◌, true, false, List, [], ◌∷◌, ◌++◌, Option, none, some, if◌then◌else◌,
  is_empty, All, Bytes, arith, min, ◌≢◌,
}
use mathlib.Core.List.{append_assoc, append-nil}
use libcanokey.Error.{Result, ok, ◌>>=◌}
use libcanokey.Apdu.{ResponseApdu}
use libcanokey.Options.{OperationOptions, validate}
use libcanokey.Conversation.Frames.{ValidOptions, validate-ValidOptions}
use libcanokey.Conversation.Responses.{poll_ok, poll_built}
use libcanokey.Conversation.{
  ConversationState, oath, iso7816, ResponseData, advance, advance_iso7816, status_length, max_data,
}

-- The conversation over a whole list of responses. An answer counts if it comes with the last one.
pub feed : OperationOptions → ConversationState → List ResponseApdu → Result (Option ResponseData)
feed o s [] = ok none
feed o s (r ∷ rs) = do
  (s', out) ← advance s r o
  elim out [ none ↦ feed o s' rs | some d ↦ ok (if is_empty rs then some d else none) ]

-- The data of several responses.
abbrev pub bodies : List ResponseApdu → Bytes
bodies [] = []
bodies (r ∷ rs) = r.body ++ bodies rs

-- A response that announces more data, and one that ends an ISO 7816 answer.
abbrev pub Announces : ResponseApdu → Type 0
Announces r = (r.status / 256 ≡ 0x61) × (is_empty r.body ≡ false)

abbrev pub Ends : ResponseApdu → Type 0
Ends r = (r.status / 256 ≢ 0x61) × (r.status / 256 ≢ 0x6c)

module _ (o : OperationOptions) (valid : ValidOptions o) (cla : ℕ) where
  record Receiving (s : ConversationState) : Type 0 where
    no_pending : is_empty s.pending ≡ true
    policy : s.continuation ≡ iso7816 cla

  last_only :
      (s : ConversationState) (r : ResponseApdu)
      → Receiving s
      → r.status / 256 ≢ 0x6c
      → advance s r o ≡ advance_iso7816 cla s r o
  unfolding advance
  last_only s r w h = ground (arith, w.policy, w.no_pending)

  -- 61xx with data: the data is kept, and GET RESPONSE is sent.
  after_more : (s : ConversationState) (r : ResponseApdu) → ConversationState
  after_more s r = record s {
    body = s.body ++ r.body;
    continuing = true;
    current = poll_built cla 0xc0 (min (status_length r.status) (max_data o));
    corrected = false;
    correct_le = true;
  }

  after_more-Receiving :
      (s : ConversationState) (r : ResponseApdu) → Receiving s → Receiving (after_more s r)
  unfolding after_more
  after_more-Receiving s r w = record { no_pending = w.no_pending; policy = w.policy }

  advance_more :
      (s : ConversationState) (r : ResponseApdu)
      → Receiving s
      → Announces r
      → advance s r o ≡ ok (after_more s r, none)
  unfolding advance_iso7816 after_more
  advance_more s r w (more, some_data) =
      last_only s r w (λ e. omega arith)
      ∙ ground (
        arith,
        more,
        some_data,
        poll_ok cla 0xc0 (min (status_length r.status) (max_data o)),
        valid.response_room,
      )

  advance_end :
      (s : ConversationState) (r : ResponseApdu)
      → Receiving s
      → Ends r
      → advance s r o
        ≡ ok (record s { body = [] }, some (record { body = s.body ++ r.body; status = r.status }))
  unfolding advance_iso7816
  advance_end s r w (more, correct) = last_only s r w correct ∙ ground arith

  feed_continued :
      (s : ConversationState) (rs : List ResponseApdu) (final : ResponseApdu)
      → Receiving s
      → All Announces rs
      → Ends final
      → feed o s (rs ++ (final ∷ []))
        ≡ ok (some (record { body = s.body ++ (bodies rs ++ final.body); status = final.status }))
  unfolding feed
  feed_continued s [] final w a e = rw (advance_end s final w e)
  feed_continued s (r ∷ rs) final w (a, later) e =
      rw
        (
          advance_more s r w a,
          feed_continued (after_more s r) rs final (after_more-Receiving s r w) later e,
        )
        (unfold after_more in
          rw (
            append_assoc s.body r.body (bodies rs ++ final.body),
            append_assoc r.body (bodies rs) final.body,
          ))

-- An ISO 7816 answer of any number of nonempty 61xx responses and a last one is handed over as one
-- response: the data of all in order behind what was held, with the last status; nothing else is
-- returned on the way.
pub feed-iso7816 :
    (o : OperationOptions) (cla : ℕ) (s : ConversationState) (rs : List ResponseApdu)
    (final : ResponseApdu)
    → validate o ≡ ok o
    → s.continuation ≡ iso7816 cla
    → is_empty s.pending ≡ true
    → All Announces rs
    → Ends final
    → feed o s (rs ++ (final ∷ []))
      ≡ ok (some (record { body = s.body ++ (bodies rs ++ final.body); status = final.status }))
feed-iso7816 o cla s rs final v policy no_pending announced ends =
    feed_continued o (validate-ValidOptions o v).1 cla s rs final
      (record { no_pending = no_pending; policy = policy }) announced ends

-- A page that OATH firmware without a final-page marker sends, and the end that it then reports.
abbrev pub Page : ResponseApdu → Type 0
Page r = (r.status ≡ 0x9000) × (is_empty r.body ≡ false)

abbrev pub no_more_pages : ResponseApdu
no_more_pages = record { body = []; status = 0x6985 }

module _ (o : OperationOptions) (valid : ValidOptions o) (instruction : ℕ) where
  record Polling (s : ConversationState) : Type 0 where
    no_pending : is_empty s.pending ≡ true
    policy : s.continuation ≡ oath instruction true

  after_page : (s : ConversationState) (r : ResponseApdu) → ConversationState
  after_page s r = record s {
    body = s.body ++ r.body;
    oath_poll = true;
    current = poll_built 0 instruction (min 255 (max_data o));
    corrected = false;
    correct_le = false;
  }

  after_page-Polling :
      (s : ConversationState) (r : ResponseApdu) → Polling s → Polling (after_page s r)
  unfolding after_page
  after_page-Polling s r w = record { no_pending = w.no_pending; policy = w.policy }

  advance-Page :
      (s : ConversationState) (r : ResponseApdu)
      → Polling s
      → Page r
      → advance s r o ≡ ok (after_page s r, none)
  unfolding advance after_page
  advance-Page s r w (success, some_data) = ground (
    arith,
    w.policy,
    w.no_pending,
    success,
    some_data,
    poll_ok 0 instruction (min 255 (max_data o)),
    valid.response_room,
  )

  advance_no_more :
      (s : ConversationState)
      → Polling s
      → s.oath_poll ≡ true
      → advance s no_more_pages o
        ≡ ok (record s { body = [] }, some (record { body = s.body; status = 0x9000 }))
  unfolding advance
  advance_no_more s w polled = ground (arith, w.policy, w.no_pending, polled)

  feed_pages :
      (s : ConversationState) (rs : List ResponseApdu)
      → Polling s
      → s.oath_poll ≡ true
      → All Page rs
      → feed o s (rs ++ (no_more_pages ∷ []))
        ≡ ok (some (record { body = s.body ++ bodies rs; status = 0x9000 }))
  unfolding feed
  feed_pages s [] w polled a = rw (advance_no_more s w polled, append-nil s.body)
  feed_pages s (r ∷ rs) w polled (a, later) =
      rw
        (
          advance-Page s r w a,
          feed_pages (after_page s r) rs (after_page-Polling s r w) (unfold after_page in refl)
              later,
        )
        (unfold after_page in rw (append_assoc s.body r.body (bodies rs)))

-- OATH pages without a final-page marker: one or more nonempty 9000 responses are polled on, and the
-- empty 6985 that follows means completion, with the data of all pages in order and status 9000.
pub feed-oath :
    (o : OperationOptions) (instruction : ℕ) (s : ConversationState) (page : ResponseApdu)
    (rs : List ResponseApdu)
    → validate o ≡ ok o
    → s.continuation ≡ oath instruction true
    → is_empty s.pending ≡ true
    → Page page
    → All Page rs
    → feed o s (page ∷ (rs ++ (no_more_pages ∷ [])))
      ≡ ok (some (record { body = s.body ++ (page.body ++ bodies rs); status = 0x9000 }))
unfolding feed
feed-oath o instruction s page rs v policy no_pending first later =
    let valid = (validate-ValidOptions o v).1 in
    let w : Polling o valid instruction s = record { no_pending = no_pending; policy = policy } in
    rw
      (
        advance-Page o valid instruction s page w first,
        feed_pages o valid instruction (after_page o valid instruction s page) rs
            (after_page-Polling o valid instruction s page w) (unfold after_page in refl) later,
      )
      (unfold after_page in rw (append_assoc s.body page.body (bodies rs)))
