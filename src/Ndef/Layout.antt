-- ===== src/Ndef/Layout.antt =====
-- The bytes of an NDEF file while `WriteMachine` writes it, and steps of a session with a tag.
use libcanokey.Prelude.{
  ℕ, suc, ◌+◌, ◌≤◌, ◌<◌, ◌≡◌, ◌≢◌, refl, sym, ap, ◌∙◌, true, false, ◌∷◌, ◌++◌, Option, some, take,
  drop, length, Bytes, arith, length-append, length-take, length-drop, take-append_exact,
  drop-append_exact, take-append-take, drop_split,
}
use mathlib.Core.List.{append_assoc}
use libcanokey.Error.{Result, ok, err}
use libcanokey.Conversation.{LogicalCommand, ResponseData}
use libcanokey.Operation.{Action}
use libcanokey.Ndef.{cc_file_id, max_message_length, NdefCapability, parse_cc}
use libcanokey.Ndef.Tag.{Tag, Selected, respond, session, overwrite}

-- An exchange of a session, with the command and its response known.
pub session_command :
    {S T : Type 0} (next : S → Option ResponseData → S × Result (Action T)) (k : ℕ) (s s' : S)
    (r : Option ResponseData) (t : Tag) (c : LogicalCommand) (out : Tag × ResponseData)
    → next s r ≡ (s', ok (Action.command c))
    → respond t c ≡ out
    → session next (suc k) s r t ≡ session next k s' (some out.1) out.0
unfolding session
session_command next k s s' r t c out e f =
    ap
      (λ (p : _ × Result (Action _)). elim p.1 [
        | err x ↦ (t, some (err x))
        | ok (Action.done v) ↦ (t, some (ok v))
        | ok (Action.command c) ↦ session next k p.0 (some (respond t c).1) (respond t c).0
      ])
      e
    ∙ ap (λ (p : Tag × ResponseData). session next k s' (some p.1) p.0) f

-- The last step of a session.
pub session_done :
    {S T : Type 0} (next : S → Option ResponseData → S × Result (Action T)) (k : ℕ) (s : S)
    (r : Option ResponseData) (t : Tag) (v : T)
    → (next s r).1 ≡ ok (Action.done v)
    → session next (suc k) s r t ≡ (t, some (ok v))
unfolding session
session_done next k s r t v e =
    ap
      (λ (p : Result (Action _)). elim p [
        | err x ↦ (t, some (err x))
        | ok (Action.done v) ↦ (t, some (ok v))
        | ok (Action.command c) ↦ session next k (next s r).0 (some (respond t c).1) (respond t c).0
      ])
      e

pub overwrite-append :
    (n : ℕ) (xs new ys zs : Bytes)
    → length xs ≡ n
    → length new ≡ length ys
    → overwrite n new (xs ++ (ys ++ zs)) ≡ xs ++ (new ++ zs)
overwrite-append n xs new ys zs e f = rw (
  take-append_exact n xs (ys ++ zs) e,
  sym (append_assoc xs ys zs),
  drop-append_exact (n + length new) (xs ++ ys) zs (omega (arith, length-append xs ys)),
)

-- The file while it is written: no length yet, and the first `n` bytes of the message.
abbrev pub layout : Bytes → Bytes → ℕ → Bytes
layout msg rest n = (0 ∷ 0 ∷ take n msg) ++ drop n rest

module _ (msg rest : Bytes) (room : length msg ≤ length rest) where
  pub overwrite-layout :
      (n k : ℕ)
      → n + k ≤ length msg
      → overwrite (2 + n) (take k (drop n msg)) (layout msg rest n) ≡ layout msg rest (n + k)
  overwrite-layout n k h =
      ap (λ (ys : Bytes). overwrite (2 + n) (take k (drop n msg)) ((0 ∷ 0 ∷ take n msg) ++ ys))
        (drop_split n k (n + k) rest refl)
      ∙ overwrite-append (2 + n) (0 ∷ 0 ∷ take n msg) (take k (drop n msg)) (take k (drop n rest))
          (drop (n + k) rest) (omega (arith, length-take n msg))
          (omega (
            arith,
            length-take k (drop n msg),
            length-take k (drop n rest),
            length-drop n msg,
            length-drop n rest,
          ))
      ∙ ap (λ (ys : Bytes). 0 ∷ 0 ∷ ys)
          (sym (append_assoc (take n msg) (take k (drop n msg)) (drop (n + k) rest))
            ∙ ap (λ (ys : Bytes). ys ++ drop (n + k) rest) (take-append-take n k (n + k) msg refl))

  pub length-layout : (n : ℕ) → n ≤ length msg → length (layout msg rest n) ≡ 2 + length rest
  length-layout n h =
      omega (arith, length-append (take n msg) (drop n rest), length-take n msg, length-drop n rest)

-- A writable tag.
abbrev pub tag_with : Bytes → ℕ → Selected → Bytes → Tag
tag_with cc id selected bytes = record {
  cc = cc;
  file_id = id;
  bytes = bytes;
  writable = true;
  selected = selected;
}

-- A tag that takes a message, and the message.
pub record Setting (cc : Bytes) (id : ℕ) (rest msg : Bytes) (chunk : ℕ) (cap : NdefCapability)
    : Type 0 where
  pub parses : parse_cc cc ≡ ok cap
  pub declares : cap.file_id ≡ id
  pub id_small : id < 65536
  pub id_ne : id ≢ cc_file_id
  pub writable : cap.read_only ≡ false
  pub fits : length msg ≤ cap.max_length
  pub room : cap.max_length ≤ length rest
  pub chunk_pos : 1 ≤ chunk

pub parse_cc_bounds :
    (cc : Bytes) {cap : NdefCapability}
    → parse_cc cc ≡ ok cap
    → (length cc ≡ 15) × (cap.max_length ≤ max_message_length)
unfolding parse_cc
parse_cc_bounds cc e = ground arith
