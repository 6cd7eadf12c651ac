-- ===== src/Conversation/Tests.antt =====
-- Conversations over a small channel, and the theorems at concrete inputs.
use libcanokey.Prelude.{◌≡◌, ◌≤◌, List, refl, some, none, true, false, [], ◌∷◌, All, length, arith}
use libcanokey.Error.{ok}
use libcanokey.Apdu.{
  ApduHeader, CommandApdu, ResponseApdu, ExpectedLength, absent, short, encode, length_field,
  expected_field,
}
use libcanokey.Apdu.Encode.{built}
use libcanokey.Options.{OperationOptions, default_exchange, default_limits, validate}
use libcanokey.Conversation.{
  Continuation, iso7816, oath, LogicalCommand, ConversationState, new, fit_expected,
  extended_frames, short_frames, chain_frames, all_frames, open_frames, advance, advance_pending,
  advance_fragment,
}
use libcanokey.Conversation.Card.{reassemble}
use libcanokey.Conversation.FittedLe.{IsFitted}
use libcanokey.Conversation.Frames.{reassemble-new}
use libcanokey.Conversation.Responses.{advance-InChannel}
use libcanokey.Conversation.Reassembly.{feed, Page, no_more_pages, feed-iso7816, feed-oath}

-- Two bytes of data for each short frame.
abbrev narrow : OperationOptions
narrow = record {
  exchange = record default_exchange { max_command_bytes = 8 };
  limits = default_limits;
}

abbrev header : ApduHeader
header = record { cla = 0x80; ins = 0x10; p1 = 0; p2 = 0 }

abbrev policy : Continuation
policy = iso7816 0x80

abbrev long_command : LogicalCommand
long_command = record {
  header = header;
  body = 1 ∷ 2 ∷ 3 ∷ [];
  le = absent;
  allow_chaining = true;
  allow_extended = false;
  correct_le = false;
  continuation = policy;
}

abbrev first_frame : CommandApdu
first_frame = built (record header { cla = 0x90 }) (1 ∷ 2 ∷ []) absent short

abbrev last_frame : CommandApdu
last_frame = built header (3 ∷ []) absent short

abbrev state_with : CommandApdu → List CommandApdu → Continuation → ConversationState
state_with current pending continuation = record {
  pending = pending;
  current = current;
  corrected = false;
  correct_le = false;
  continuation = continuation;
  continuing = false;
  oath_poll = false;
  body = [];
}

opens : new long_command narrow ≡ ok (state_with first_frame (last_frame ∷ []) policy)
unfolding new fit_expected extended_frames short_frames chain_frames all_frames open_frames encode
opens = refl

narrow_valid : validate narrow ≡ ok narrow
unfolding validate
narrow_valid = refl

reassemble-new_example :
    (le : ExpectedLength) × (fit_expected policy false absent narrow ≡ ok le)
    × IsFitted absent le narrow.exchange.max_response_bytes
    × (reassemble (first_frame ∷ last_frame ∷ [])
        ≡ some (record { header = header; body = 1 ∷ 2 ∷ 3 ∷ []; le = le }))
    × All (λ (f : CommandApdu). length f.bytes ≤ 8) (first_frame ∷ last_frame ∷ [])
    × (2 ≤ 4096)
    × ((state_with first_frame (last_frame ∷ []) policy).body ≡ [])
reassemble-new_example =
    reassemble-new long_command narrow (state_with first_frame (last_frame ∷ []) policy)
      narrow_valid refl opens

advance-InChannel_example : All (λ (f : CommandApdu). length f.bytes ≤ 8) (last_frame ∷ [])
unfolding advance advance_pending advance_fragment length_field expected_field
advance-InChannel_example =
    advance-InChannel narrow (state_with first_frame (last_frame ∷ []) policy)
      (state_with last_frame [] policy) (record { body = []; status = 0x9000 }) none (omega arith)
      (omega arith, (omega arith, tt)) refl

abbrev more : ResponseApdu
more = record { body = 1 ∷ []; status = 0x6102 }

abbrev end : ResponseApdu
end = record { body = 2 ∷ 3 ∷ []; status = 0x9000 }

feed-iso7816_example :
    feed narrow (state_with last_frame [] policy) (more ∷ end ∷ [])
    ≡ ok (some (record { body = 1 ∷ 2 ∷ 3 ∷ []; status = 0x9000 }))
feed-iso7816_example =
    feed-iso7816 narrow 0x80 (state_with last_frame [] policy) (more ∷ []) end narrow_valid refl
      refl ((refl, refl), tt) (omega arith, omega arith)

abbrev paging : Continuation
paging = oath 0xa5 true

end-Page : Page end
end-Page = (refl, refl)

feed-oath_example :
    feed narrow (state_with last_frame [] paging) (end ∷ end ∷ no_more_pages ∷ [])
    ≡ ok (some (record { body = 2 ∷ 3 ∷ 2 ∷ 3 ∷ []; status = 0x9000 }))
feed-oath_example =
    feed-oath narrow 0xa5 (state_with last_frame [] paging) end (end ∷ []) narrow_valid refl refl
      end-Page (end-Page, tt)
