-- ===== src/Conversation/Frames.antt =====
-- `ConversationState::new`, the card that receives its frames, and the limits of the channel.
use libcanokey.Prelude.{
  ℕ, zero, suc, ◌+◌, ◌-◌, ◌*◌, ◌≤◌, ◌≡◌, false, not, ◌&&◌, ◌||◌, List, [], ◌∷◌, some, is_empty,
  length, All, All-mono, Bytes, arith, ◌==◌, leb, ltb, Bool-cases, inl, inr,
}
use mathlib.Core.Path.{subst}
use native.Mathlib.Nat.{div-add-mod, mod-lt}
use libcanokey.Error.{ok, >>=-eq-ok, reject-eq-ok}
use libcanokey.Apdu.{ExpectedLength, CommandApdu, encode, short, extended, out_of_range}
use libcanokey.Apdu.Iso7816.{receive}
use libcanokey.Apdu.RoundTrip.{receive-encode}
use libcanokey.Options.{OperationOptions, validate}
use libcanokey.Conversation.Card.{reassemble}
use libcanokey.Conversation.Chain.{chain_frames-Chained, reassemble-one}
use libcanokey.Conversation.FittedLe.{IsFitted, fit_expected-IsFitted}
use libcanokey.Conversation.{
  LogicalCommand, ConversationState, is_chained, chain_frames, extended_frames, short_frames,
  all_frames, open_frames, new, fit_expected, max_short, div_ceil, is_wide, bad_instruction,
}

-- What `validate` guarantees.
pub record ValidOptions (o : OperationOptions) : Type 0 where
  pub command_room : 5 ≤ o.exchange.max_command_bytes
  pub response_room : 3 ≤ o.exchange.max_response_bytes
  pub exchanges_pos : 1 ≤ o.limits.max_exchanges
  pub total_pos : 1 ≤ o.limits.max_total_response_bytes
  pub input_pos : 1 ≤ o.limits.max_input_bytes

pub validate-ValidOptions :
    (o : OperationOptions) {p : OperationOptions} → validate o ≡ ok p → (p ≡ o) × ValidOptions o
unfolding validate
validate-ValidOptions o h = ground arith

div_ceil_enough : (n m : ℕ) → 1 ≤ m → n ≤ div_ceil n m * m
div_ceil_enough n m h = omega (arith, div-add-mod (n + m - 1) m, mod-lt (n + m - 1) h)

-- The frames of a command: the card puts them together to it, and they fit the channel in number
-- and, but for a single frame that `open_frames` still has to check, in size.
pub record Frames (c : LogicalCommand) (le : ExpectedLength) (o : OperationOptions)
    (fs : List CommandApdu) : Type 0 where
  pub delivers : reassemble fs ≡ some (record { header = c.header; body = c.body; le = le })
  pub few : (1 ≤ length fs) × (length fs ≤ o.limits.max_exchanges)
  pub fit :
      2 ≤ length fs → All (λ (f : CommandApdu). length f.bytes ≤ o.exchange.max_command_bytes) fs

nonempty : (bs : Bytes) → is_empty bs ≡ false → 1 ≤ length bs
nonempty [] h = cc
nonempty (b ∷ bs) h = omega arith

pub record Opened (c : LogicalCommand) (o : OperationOptions) (fs : List CommandApdu)
    (s : ConversationState) : Type 0 where
  pub frames_are : fs ≡ s.current ∷ s.pending
  pub first_fits : length s.current.bytes ≤ o.exchange.max_command_bytes
  pub empty : s.body ≡ []

pub open_frames_inverts :
    (c : LogicalCommand) (o : OperationOptions) (fs : List CommandApdu) (s : ConversationState)
    → open_frames c o fs ≡ ok s
    → Opened c o fs s
unfolding open_frames
open_frames_inverts c o [] s e = cc
open_frames_inverts c o (f ∷ fs) s e = record {
  frames_are = ground arith;
  first_fits = ground arith;
  empty = ground arith;
}

pub extended_frames_inverts :
    (c : LogicalCommand) (le : ExpectedLength) (o : OperationOptions) (g : CommandApdu)
    (gs : List CommandApdu)
    → extended_frames c le o ≡ ok (g ∷ gs)
    → (gs ≡ []) × (encode c.header c.body le extended ≡ ok g)
unfolding extended_frames
extended_frames_inverts c le o g gs e =
    elim (Bool-cases (c.allow_extended && o.exchange.allow_extended && leb (length c.body) 65535)) [
      | inl allowed ↦
          let (cmd, e1, e2) = >>=-eq-ok (encode c.header c.body le extended) _ (rw allowed at e) in
          let same : cmd ≡ g = ground arith in (ground arith, rw same at e1)
      | inr refused ↦ absurd (ground arith)
    ]

pub each_frame_fits :
    (o : OperationOptions) (f : CommandApdu) (gs : List CommandApdu)
    → length f.bytes ≤ o.exchange.max_command_bytes
    → (2 ≤ length (f ∷ gs)
        → All (λ (f : CommandApdu). length f.bytes ≤ o.exchange.max_command_bytes) (f ∷ gs))
    → All (λ (f : CommandApdu). length f.bytes ≤ o.exchange.max_command_bytes) (f ∷ gs)
each_frame_fits o f [] h k = (h, tt)
each_frame_fits o f (g ∷ gs) h k = k (omega arith)

module _ (c : LogicalCommand) (le : ExpectedLength) (o : OperationOptions) (valid : ValidOptions o)
    (plain : is_chained c.header.cla ≡ false) where
  single :
      {f : CommandApdu}
      → receive f.bytes ≡ some (record { header = c.header; body = c.body; le = le })
      → Frames c le o (f ∷ [])
  single {f} r = record {
    delivers = reassemble-one f (record { header = c.header; body = c.body; le = le }) plain r;
    few = (omega arith, valid.exchanges_pos);
    fit = λ two. absurd (omega arith);
  }

  chained_rounds :
      (rounds size : ℕ) (fs : List CommandApdu)
      → 1 ≤ length c.body
      → length c.body ≤ rounds * size
      → rounds ≤ o.limits.max_exchanges
      → size + 6 ≤ o.exchange.max_command_bytes
      → chain_frames rounds size c.header le c.body ≡ ok fs
      → Frames c le o fs
  chained_rounds zero size fs some_data enough few room e = absurd (omega arith)
  chained_rounds (suc rounds) size fs some_data enough few room e =
      let (h, count) = chain_frames-Chained size c.header le plain rounds c.body fs enough e in
      record {
        delivers = h.delivers;
        few = (omega arith, omega arith);
        fit = λ two. All-mono fs (λ f g. omega arith) h.fit;
      }

  short_frames-Frames : {fs : List CommandApdu} → short_frames c le o ≡ ok fs → Frames c le o fs
  unfolding short_frames
  short_frames-Frames {fs} e =
      let (narrow, e1) = reject-eq-ok (is_wide le) _ _ e in
      elim (Bool-cases (is_empty c.body || leb (length c.body) (max_short o))) [
        | inl one ↦
            let (f, e2, e3) = >>=-eq-ok (encode c.header c.body le short) _ (rw one at e1) in
            let fs_is : f ∷ [] ≡ fs = ground arith in
            rw (← fs_is) (single (receive-encode c.header c.body le short e2))
        | inr many ↦
            let (room, e2) =
              reject-eq-ok (not c.allow_chaining || max_short o == 0 || is_chained c.header.cla) _ _
                (rw many at e1) in
            let (few, e3) =
              reject-eq-ok (ltb o.limits.max_exchanges (div_ceil (length c.body) (max_short o))) _ _
                e2 in
            let size : 1 ≤ max_short o = ground arith in
            chained_rounds (div_ceil (length c.body) (max_short o)) (max_short o) fs
              (nonempty c.body (ground arith)) (div_ceil_enough (length c.body) (max_short o) size)
              (ground arith) (omega arith) e3
      ]

  pub all_frames-Frames : {fs : List CommandApdu} → all_frames c le o ≡ ok fs → Frames c le o fs
  unfolding all_frames
  all_frames-Frames {fs} e =
      let (gs, e1, e2) = >>=-eq-ok (extended_frames c le o) _ e in extended_or_short gs e1 e2
    where
      extended_or_short :
          (gs : List CommandApdu)
          → extended_frames c le o ≡ ok gs
          → elim gs [ [] ↦ short_frames c le o | f ∷ fs ↦ ok (f ∷ fs) ] ≡ ok fs
          → Frames c le o fs
      extended_or_short [] e1 e2 = short_frames-Frames e2
      extended_or_short (g ∷ gs) e1 e2 =
          let (alone, x) = extended_frames_inverts c le o g gs e1 in
          let fs_is : g ∷ [] ≡ fs = ground arith in
          rw (← fs_is) (single (receive-encode c.header c.body le extended x))

-- A conversation that `new` opens for a command whose class leaves the chaining bit to the library:
-- Le is the given one where such a response fits the channel, and the most that fits elsewhere; the
-- card puts the frames together to exactly the header, the data and that Le, no frame is longer than the channel allows, there
-- are at most `max_exchanges` of them, and no response data is held yet.
pub reassemble-new :
    (c : LogicalCommand) (o : OperationOptions) (s : ConversationState)
    → validate o ≡ ok o
    → is_chained c.header.cla ≡ false
    → new c o ≡ ok s
    → (le : ExpectedLength) × (fit_expected c.continuation c.correct_le c.le o ≡ ok le)
      × IsFitted c.le le o.exchange.max_response_bytes
      × (reassemble (s.current ∷ s.pending)
          ≡ some (record { header = c.header; body = c.body; le = le }))
      × All
          (λ (f : CommandApdu). length f.bytes ≤ o.exchange.max_command_bytes)
          (s.current ∷ s.pending)
      × (length (s.current ∷ s.pending) ≤ o.limits.max_exchanges)
      × (s.body ≡ [])
unfolding new
reassemble-new c o s v plain e =
    let valid = (validate-ValidOptions o v).1 in
    let (i, e1) = reject-eq-ok (bad_instruction c.continuation) _ _ e in
    let (input, e2) = reject-eq-ok (ltb o.limits.max_input_bytes (length c.body)) _ _ e1 in
    let (range, e3) = reject-eq-ok (out_of_range c.le 65536) _ _ e2 in
    let (le, fit, e4) = >>=-eq-ok (fit_expected c.continuation c.correct_le c.le o) _ e3 in
    let (fs, frames, e5) = >>=-eq-ok (all_frames c le o) _ e4 in
    let opened = open_frames_inverts c o fs s e5 in
    let f = subst (Frames c le o) opened.frames_are (all_frames-Frames c le o valid plain frames) in
    (
      le,
      fit,
      fit_expected-IsFitted c.continuation c.correct_le c.le le o
          (omega (arith, valid.response_room)) fit,
      f.delivers,
      each_frame_fits o s.current s.pending opened.first_fits f.fit,
      f.few.1,
      opened.empty,
    )
