-- ===== src/Conversation/ChannelFit.antt =====
-- The frames of `ConversationState::new` (crates/canokey-protocol/src/operation.rs) and the length that
-- the channel allows, for a class with the chaining bit too.
use libcanokey.Prelude.{
  ◌≤◌, ◌≡◌, ap, ◌∙◌, true, not, ◌||◌, List, [], ◌∷◌, is_empty, length, All, arith, ◌==◌, leb, ltb,
  Bool-cases, inl, inr, ◌≢◌,
}
use libcanokey.Error.{ok, >>=-eq-ok, reject-eq-ok}
use libcanokey.Apdu.{ExpectedLength, CommandApdu, encode, short, out_of_range}
use libcanokey.Options.{OperationOptions}
use libcanokey.Conversation.{
  LogicalCommand, ConversationState, is_chained, extended_frames, short_frames, all_frames, new,
  fit_expected, max_short, is_wide, bad_instruction,
}
use libcanokey.Conversation.Frames.{
  ValidOptions, open_frames_inverts, extended_frames_inverts, each_frame_fits, all_frames-Frames,
}

-- Chaining is refused where the class already carries the chaining bit.
short_frames_alone :
    (c : LogicalCommand) (le : ExpectedLength) (o : OperationOptions) (f g : CommandApdu)
    (gs : List CommandApdu)
    → is_chained c.header.cla ≡ true
    → short_frames c le o ≢ ok (f ∷ g ∷ gs)
unfolding short_frames
short_frames_alone c le o f g gs busy e =
    let (narrow, e1) = reject-eq-ok (is_wide le) _ _ e in
    elim (Bool-cases (is_empty c.body || leb (length c.body) (max_short o))) [
      | inl one ↦
          let (h, e2, e3) = >>=-eq-ok (encode c.header c.body le short) _ (rw one at e1) in cc
      | inr many ↦
          let (room, e2) =
            reject-eq-ok (not c.allow_chaining || max_short o == 0 || is_chained c.header.cla) _ _
              (rw many at e1) in
          ground (arith, room, busy)
    ]

all_frames_alone :
    (c : LogicalCommand) (le : ExpectedLength) (o : OperationOptions) (f g : CommandApdu)
    (gs : List CommandApdu)
    → is_chained c.header.cla ≡ true
    → all_frames c le o ≢ ok (f ∷ g ∷ gs)
unfolding all_frames
all_frames_alone c le o f g gs busy e =
    let (hs, e1, e2) = >>=-eq-ok (extended_frames c le o) _ e in alone hs e1 e2
  where
    alone :
        (hs : List CommandApdu)
        → extended_frames c le o ≡ ok hs
        → elim hs [ [] ↦ short_frames c le o | f ∷ fs ↦ ok (f ∷ fs) ] ≢ ok (f ∷ g ∷ gs)
    alone [] e1 e2 = short_frames_alone c le o f g gs busy e2
    alone (h ∷ hs) e1 e2 = let (none_left, x) = extended_frames_inverts c le o h hs e1 in cc

-- Whatever the class, no frame of a new conversation is longer than the channel allows.
pub new_fits :
    (c : LogicalCommand) (o : OperationOptions) (s : ConversationState)
    → ValidOptions o
    → new c o ≡ ok s
    → All
        (λ (f : CommandApdu). length f.bytes ≤ o.exchange.max_command_bytes)
        (s.current ∷ s.pending)
unfolding new
new_fits c o s valid e =
    let (i, e1) = reject-eq-ok (bad_instruction c.continuation) _ _ e in
    let (input, e2) = reject-eq-ok (ltb o.limits.max_input_bytes (length c.body)) _ _ e1 in
    let (range, e3) = reject-eq-ok (out_of_range c.le 65536) _ _ e2 in
    let (le, fit, e4) = >>=-eq-ok (fit_expected c.continuation c.correct_le c.le o) _ e3 in
    let (fs, frames, e5) = >>=-eq-ok (all_frames c le o) _ e4 in
    let opened = open_frames_inverts c o fs s e5 in
    let frames' : all_frames c le o ≡ ok (s.current ∷ s.pending) =
      frames ∙ ap ok opened.frames_are in
    each_frame_fits o s.current s.pending opened.first_fits (λ two.
      elim (Bool-cases (is_chained c.header.cla)) [
        | inl busy ↦ absurd (many le s.pending (omega arith) busy frames')
        | inr plain ↦ (all_frames-Frames c le o valid plain frames').fit two
      ])
  where
    many :
        (le : ExpectedLength) (gs : List CommandApdu)
        → 1 ≤ length gs
        → is_chained c.header.cla ≡ true
        → all_frames c le o ≢ ok (s.current ∷ gs)
    many le [] h busy = absurd (omega arith)
    many le (g ∷ gs) h busy = all_frames_alone c le o s.current g gs busy
