-- ===== src/Conversation/Chain.antt =====
-- Command chaining: the loop over chunks of `ConversationState::new`, and the card.
use libcanokey.Prelude.{
  ℕ, zero, suc, ◌+◌, ◌*◌, ◌≤◌, ◌≡◌, refl, ap, true, false, List, [], ◌∷◌, ◌++◌, some, length, take,
  drop, All, Bytes, arith, take-append-drop, length-take, length-drop, take_all,
}
use libcanokey.Error.{ok, >>=-eq-ok}
use libcanokey.Apdu.{ApduHeader, ExpectedLength, absent, exact, CommandApdu, encode, short}
use libcanokey.Apdu.Encode.{length-encode_short, le_size}
use libcanokey.Apdu.Iso7816.{Received, receive}
use libcanokey.Apdu.RoundTrip.{receive-encode}
use libcanokey.Conversation.Card.{reassemble}
use libcanokey.Conversation.{is_chained, set_chained, chain_frames}

set_chained-is_chained :
    (h : ApduHeader)
    → is_chained h.cla ≡ false
    → (is_chained (set_chained h).cla ≡ true) × ((set_chained h).cla ≡ h.cla + 16)
set_chained-is_chained h e = ground arith

le_size_short : (le : ExpectedLength) → le_size short le ≤ 1
le_size_short absent = omega arith
le_size_short (exact n) = omega arith

-- A single frame whose class has no chaining bit is a whole command.
pub reassemble-one :
    (f : CommandApdu) (r : Received)
    → is_chained r.header.cla ≡ false
    → receive f.bytes ≡ some r
    → reassemble (f ∷ []) ≡ some r
unfolding reassemble
reassemble-one f r plain e = rw e (rw plain)

pub record Chained (h : ApduHeader) (le : ExpectedLength) (body : Bytes) (size : ℕ)
    (fs : List CommandApdu) : Type 0 where
  pub delivers : reassemble fs ≡ some (record { header = h; body = body; le = le })
  pub fit : All (λ (f : CommandApdu). length f.bytes ≤ size + 6) fs

module _ (size : ℕ) (h : ApduHeader) (le : ExpectedLength) (plain : is_chained h.cla ≡ false) where
  one_frame :
      (body : Bytes) {f : CommandApdu}
      → length body ≤ size
      → encode h body le short ≡ ok f
      → Chained h le body size (f ∷ [])
  one_frame body {f} small e = record {
    delivers =
        reassemble-one f (record { header = h; body = body; le = le }) plain
          (receive-encode h body le short e);
    fit = (omega (arith, length-encode_short h body le e, le_size_short le), tt);
  }

  more_frames :
      (body : Bytes) (f : CommandApdu) (fs : List CommandApdu)
      → encode (set_chained h) (take size body) absent short ≡ ok f
      → Chained h le (drop size body) size fs
      → Chained h le body size (f ∷ fs)
  more_frames body f fs e c =
      let joins : reassemble (f ∷ fs)
          ≡ some (record { header = h; body = take size body ++ drop size body; le = le }) =
        unfold reassemble in
        rw (receive-encode (set_chained h) (take size body) absent short e, c.delivers)
          (ground (arith, plain, set_chained-is_chained h plain)) in
      record {
        delivers = rw take-append-drop at joins;
        fit = (
          omega (
            arith,
            length-encode_short (set_chained h) (take size body) absent e,
            length-take size body,
          ),
          c.fit,
        );
      }

  -- All rounds of the chunk loop: exactly as many frames as rounds, and they deliver the data.
  pub chain_frames-Chained :
      (rounds : ℕ) (body : Bytes) (fs : List CommandApdu)
      → length body ≤ suc rounds * size
      → chain_frames (suc rounds) size h le body ≡ ok fs
      → Chained h le body size fs × (length fs ≡ suc rounds)
  unfolding chain_frames
  chain_frames-Chained zero body fs small e =
      let (f, e1, e2) = >>=-eq-ok (encode h (take size body) le short) _ e in
      let whole : take size body ≡ body = take_all size body (omega arith) in
      let fs_is : f ∷ [] ≡ fs = ground arith in
      rw (← fs_is) (one_frame body (omega arith) (rw whole at e1), refl)
  chain_frames-Chained (suc rounds) body fs small e =
      let (f, e1, e2) = >>=-eq-ok (encode (set_chained h) (take size body) absent short) _ e in
      let (gs, e3, e4) = >>=-eq-ok (chain_frames (suc rounds) size h le (drop size body)) _ e2 in
      let (c, count) =
        chain_frames-Chained rounds (drop size body) gs (omega (arith, length-drop size body)) e3 in
      let fs_is : f ∷ gs ≡ fs = ground arith in
      rw (← fs_is) (more_frames body f gs e1 c, ap suc count)
