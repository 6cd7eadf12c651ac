-- ===== src/Conversation/Responses.antt =====
-- `ConversationState::advance` on one response, and the limits of the channel.
use libcanokey.Prelude.{
  ℕ, ◌/◌, ◌≤◌, ◌≡◌, refl, ap, ◌∙◌, Bool, not, ◌&&◌, ◌||◌, List, [], ◌∷◌, Option, is_empty, length,
  All, arith, ◌==◌, min, ltb, Bool-cases, inl, inr,
}
use mathlib.Core.Path.{subst}
use libcanokey.Error.{ok, ok-injective, >>=-eq-ok, reject-eq-ok}
use libcanokey.Apdu.{
  exact, CommandApdu, short, corrected, ResponseApdu, is_success, length_field, expected_field,
}
use libcanokey.Apdu.Encode.{built, encode-Fits, encode_inverts}
use libcanokey.Options.{OperationOptions}
use libcanokey.Conversation.{
  ConversationState, Continuation, oath, iso7816, no_continuation, ResponseData, advance,
  advance_pending, advance_corrected, advance_fragment, advance_last, advance_oath, advance_iso7816,
  finish, poll, status_length, max_data, Advanced,
}

abbrev pub poll_built : ℕ → ℕ → ℕ → CommandApdu
poll_built cla ins le = built (record { cla = cla; ins = ins; p1 = 0; p2 = 0 }) [] (exact le) short

length-poll_built : (cla ins le : ℕ) → length (poll_built cla ins le).bytes ≡ 5
unfolding length_field expected_field
length-poll_built cla ins le = refl

-- A continuation command is always encodable.
pub poll_ok : (cla ins le : ℕ) → 1 ≤ le → le ≤ 256 → poll cla ins le ≡ ok (poll_built cla ins le)
poll_ok cla ins le one most =
    encode-Fits (record { cla = cla; ins = ins; p1 = 0; p2 = 0 }) [] (exact le) short
      (record { body_fits = omega arith; le_fits = ground arith })

length-poll : (cla ins le : ℕ) {f : CommandApdu} → poll cla ins le ≡ ok f → length f.bytes ≡ 5
length-poll cla ins le e =
    let (fits, is) =
      encode_inverts (record { cla = cla; ins = ins; p1 = 0; p2 = 0 }) [] (exact le) short e in
    ap (λ (x : CommandApdu). length x.bytes) is ∙ length-poll_built cla ins le

same_state :
    {s t : ConversationState} {x y : Option ResponseData}
    → ◌≡◌ {A = Advanced} (ok (s, x)) (ok (t, y))
    → s ≡ t
same_state e = ap (λ (p : ConversationState × Option ResponseData). p.0) (ok-injective e)

module _ (o : OperationOptions) where
  -- Every command that the conversation exposes or still holds fits the channel.
  abbrev pub InChannel : ConversationState → Type 0
  InChannel s =
      All (λ (f : CommandApdu). length f.bytes ≤ o.exchange.max_command_bytes)
        (s.current ∷ s.pending)

  module _ (s s' : ConversationState) (out : Option ResponseData) (h : InChannel s) where
    advance_corrected-InChannel : (sw : ℕ) → advance_corrected s sw o ≡ ok (s', out) → InChannel s'
    unfolding advance_corrected
    advance_corrected-InChannel sw e =
        let (a, e1) = reject-eq-ok (ltb (max_data o) (status_length sw)) _ _ e in
        let (f, b, e2) = >>=-eq-ok (corrected s.current (status_length sw)) _ e1 in
        let (small, e3) = reject-eq-ok (ltb o.exchange.max_command_bytes (length f.bytes)) _ _ e2 in
        subst InChannel (same_state e3) (ground arith, h.1)

    finish-InChannel : (r : ResponseApdu) → finish s r ≡ ok (s', out) → InChannel s'
    unfolding finish
    finish-InChannel r e = subst InChannel (same_state e) h

    module _ (room : 5 ≤ o.exchange.max_command_bytes) where
      advance_iso7816-InChannel :
          (cla : ℕ) (r : ResponseApdu) → advance_iso7816 cla s r o ≡ ok (s', out) → InChannel s'
      unfolding advance_iso7816
      advance_iso7816-InChannel cla r e = elim (Bool-cases (r.status / 256 == 0x61)) [
        | inl more ↦
            let (a, e1) = reject-eq-ok (s.continuing && is_empty r.body) _ _ (rw more at e) in
            let (f, b, e2) =
              >>=-eq-ok (poll cla 0xc0 (min (status_length r.status) (max_data o))) _ e1 in
            subst InChannel (same_state e2) (omega (arith, length-poll _ _ _ b), h.1)
        | inr last ↦ finish-InChannel r (rw last at e)
      ]

      advance_oath-InChannel :
          (instruction : ℕ) (probe : Bool) (r : ResponseApdu)
          → advance_oath instruction probe s r o ≡ ok (s', out)
          → InChannel s'
      unfolding advance_oath
      advance_oath-InChannel instruction probe r e =
          elim (Bool-cases (s.oath_poll && r.status == 0x6985 && is_empty r.body)) [
            | inl ended ↦ subst InChannel (same_state (rw ended at e)) h
            | inr open_ ↦
                elim (Bool-cases (
                  r.status / 256 == 0x61
                  || (probe && r.status == 0x9000 && not (is_empty r.body)))) [
                    | inl more ↦
                        let (a, e1) = reject-eq-ok (is_empty r.body) _ _ (rw (open_, more) at e) in
                        let (f, b, e2) =
                          >>=-eq-ok (poll 0 instruction (min 255 (max_data o))) _ e1 in
                        subst InChannel (same_state e2) (omega (arith, length-poll _ _ _ b), h.1)
                    | inr last ↦ finish-InChannel r (rw (open_, last) at e)
                  ]
          ]

      advance_last-InChannel :
          (policy : Continuation) (r : ResponseApdu)
          → advance_last policy s r o ≡ ok (s', out)
          → InChannel s'
      unfolding advance_last
      advance_last-InChannel (oath instruction probe) r e =
          advance_oath-InChannel instruction probe r e
      advance_last-InChannel (iso7816 cla) r e = advance_iso7816-InChannel cla r e
      advance_last-InChannel no_continuation r e = finish-InChannel r e

      advance_pending-InChannel :
          (fs : List CommandApdu) (r : ResponseApdu)
          → s.pending ≡ fs
          → advance_pending fs s r o ≡ ok (s', out)
          → InChannel s'
      unfolding advance_pending advance_fragment
      advance_pending-InChannel [] r p e = advance_last-InChannel s.continuation r e
      advance_pending-InChannel (f ∷ fs) r p e = elim (Bool-cases (is_success r.status)) [
        | inl good ↦ elim (Bool-cases (is_empty r.body)) [
          | inl empty ↦ subst InChannel (same_state (rw (good, empty) at e)) (rw p at h.1)
          | inr data_ ↦ absurd (ground arith)
        ]
        | inr bad ↦ absurd (ground arith)
      ]

  -- An advance never exposes a command that is longer than the channel allows.
  pub advance-InChannel :
      (s s' : ConversationState) (r : ResponseApdu) (out : Option ResponseData)
      → 5 ≤ o.exchange.max_command_bytes
      → InChannel s
      → advance s r o ≡ ok (s', out)
      → InChannel s'
  unfolding advance
  advance-InChannel s s' r out room h e =
      elim (Bool-cases
        (r.status / 256 == 0x6c && s.correct_le && is_empty s.pending && not s.corrected)) [
          | inl again ↦ advance_corrected-InChannel s s' out h r.status (rw again at e)
          | inr onward ↦ advance_pending-InChannel s s' out h room s.pending r refl (rw onward at e)
        ]
