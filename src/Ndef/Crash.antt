-- ===== src/Ndef/Crash.antt =====
-- `WriteMachine` against a tag, stage by stage, cut off anywhere.
use libcanokey.Prelude.{
  ℕ, zero, suc, ◌+◌, ◌-◌, ◌*◌, ◌/◌, ◌%◌, ◌≤◌, ◌<◌, ◌≡◌, refl, sym, ap, ◌∙◌, ◌⊎◌, inl, inr, true,
  false, [], ◌∷◌, ◌++◌, Option, none, some, min, take, drop, length, ltb, ◌==◌, Bytes, be16, arith,
  is_empty, Bool-cases, length-take, length-drop, take_all,
}
use libcanokey.Error.{Result, ok}
use libcanokey.Conversation.{ResponseData, ensure_success}
use libcanokey.Operation.{Action}
use libcanokey.Ndef.{cc_len, NdefCapability, select_applet, select_file, read_binary, update_binary}
use libcanokey.Ndef.Write.{
  WriteMachine, WriteStep, select_applet_step, select_cc, read_cc, select_ndef, zero_length,
  message, final_length, write_command, write_answer, write_next, initial_write,
}
use libcanokey.Ndef.Tag.{
  Tag, Selected, applet, container, file, respond, session, status_only, overwrite, select_name,
  select_id, read_at, update_at,
}
use libcanokey.Ndef.Layout.{
  session_command, overwrite-layout, length-layout, layout, tag_with, Setting, parse_cc_bounds,
}

module _ (cc : Bytes) (id a b : ℕ) (rest msg : Bytes) (chunk : ℕ) (cap : NdefCapability)
    (given : Setting cc id rest msg chunk cap) where
  abbrev tag : Selected → Bytes → Tag
  tag selected bytes = tag_with cc id selected bytes

  abbrev machine : WriteStep → ℕ → ℕ → WriteMachine
  machine step fid offset = record {
    step = step;
    message = msg;
    chunk = chunk;
    file_id = fid;
    offset = offset;
  }

  abbrev success : Option ResponseData
  success = some (status_only 0x9000)

  abbrev stored : Bytes
  stored = be16 (length msg) ++ (msg ++ drop (length msg) rest)

  -- The three states in which an interruption can leave the file.
  abbrev Safe : Bytes → Type 0
  Safe bytes = (bytes ≡ a ∷ b ∷ rest) ⊎ (take 2 bytes ≡ 0 ∷ 0 ∷ []) ⊎ (bytes ≡ stored)

  abbrev Ends : ℕ → ℕ → Tag × Option (Result (Unit {0})) → Type 0
  Ends need k p = Safe p.0.bytes × (need ≤ k → p ≡ (tag file stored, some (ok tt)))

  final_stage :
      (k offset : ℕ)
      → Ends 1 k (session write_next k (machine final_length id offset) success (tag file stored))
  unfolding session write_next ensure_success
  final_stage zero offset = (inr (inr refl), λ h. absurd (omega arith))
  final_stage (suc k) offset = (inr (inr refl), λ h. refl)

  small : (length msg ≤ 1022) × (length msg ≤ length rest)
  small = omega (arith, parse_cc_bounds cc given.parses, given.fits, given.room)

  respond_update :
      (offset : ℕ) (new old : Bytes)
      → offset < 65536
      → offset + length new ≤ length old
      → respond (tag file old) (update_binary offset new)
        ≡ (tag file (overwrite offset new old), status_only 0x9000)
  unfolding respond update_binary update_at
  respond_update offset new old h fits =
      let back : offset / 256 % 256 * 256 + offset % 256 ≡ offset = omega arith in
      rw back (ground (arith, fits))

  -- The last update, in a file that holds the whole message.
  respond_final :
      respond (tag file (layout msg rest (length msg))) (update_binary 0 (be16 (length msg)))
      ≡ (tag file stored, status_only 0x9000)
  respond_final =
      respond_update 0 (be16 (length msg)) (layout msg rest (length msg)) (omega arith)
        (omega (arith, length-layout msg rest small.1 (length msg) (omega arith)))
      ∙ ap
          (λ (xs : Bytes).
            (tag file (be16 (length msg) ++ (xs ++ drop (length msg) rest)), status_only 0x9000))
          (take_all (length msg) msg (omega arith))

  -- An update with the next part of the message.
  respond_chunk :
      (offset k : ℕ)
      → offset + k ≤ length msg
      → respond
          (tag file (layout msg rest offset))
          (update_binary (2 + offset % 65536) (take k (drop offset msg)))
        ≡ (tag file (layout msg rest (offset + k)), status_only 0x9000)
  respond_chunk offset k h =
      let (few, room) = small in
      let back : offset % 65536 ≡ offset = omega arith in
      rw back (
        respond_update (2 + offset) (take k (drop offset msg)) (layout msg rest offset)
          (omega arith)
          (omega (
            arith,
            length-layout msg rest room offset (omega arith),
            length-take k (drop offset msg),
            length-drop offset msg,
          ))
        ∙ ap (λ (xs : Bytes). (tag file xs, status_only 0x9000))
            (overwrite-layout msg rest room offset k h))

  Ends-later :
      (n n' k : ℕ) (p q : Tag × Option (Result (Unit {0})))
      → n < n'
      → p ≡ q
      → Ends n k q
      → Ends n' (suc k) p
  Ends-later n n' k p q h e (safe, done) = (rw e safe, λ f. e ∙ done (omega arith))

  abbrev running : ℕ → WriteMachine → Bytes → Tag × Option (Result (Unit {0}))
  running k m bytes = session write_next k m success (tag file bytes)

  module _ (k offset next : ℕ) (next_is : next ≡ offset + min (length msg - offset) chunk) where
    message_more :
        (next == length msg) ≡ false
        → next ≤ length msg
        → running (suc k) (machine message id offset) (layout msg rest next)
          ≡ running k
              (machine message id next)
              (layout msg rest (next + min (length msg - next) chunk))
    unfolding session write_next ensure_success write_command
    message_more more h =
        rw (sym next_is, more, respond_chunk next (min (length msg - next) chunk) (omega arith))

    message_last :
        next ≡ length msg
        → running (suc k) (machine message id offset) (layout msg rest next)
          ≡ running k (machine final_length id next) stored
    unfolding session write_next ensure_success write_command
    message_last all =
        let done : (next == length msg) ≡ true = ground arith in
        rw (sym next_is, done, ap (layout msg rest) all, respond_final)

  message_stage :
      (k offset next : ℕ)
      → offset < length msg
      → next ≡ offset + min (length msg - offset) chunk
      → Ends
          (length msg + 2 - offset)
          k
          (running k (machine message id offset) (layout msg rest next))
  unfolding session
  message_stage zero offset next h e = (inr (inl refl), λ f. absurd (omega arith))
  message_stage (suc k) offset next h e = elim (Bool-cases (next == length msg)) [
    | inl done ↦
        Ends-later 1 _ k _ _ (omega arith) (message_last k offset next e (ground arith))
          (final_stage k next)
    | inr more ↦
        let pos = given.chunk_pos in
        let ahead : next < length msg = ground arith in
        Ends-later (length msg + 2 - next) _ k _ _ (omega arith)
          (message_more k offset next e more (omega arith)) (message_stage k next _ ahead refl)
  ]

  zero_first :
      (k : ℕ)
      → (is_empty msg ≡ false)
      → running (suc k) (machine zero_length id 0) (layout msg rest 0)
        ≡ running k (machine message id 0) (layout msg rest (0 + min (length msg - 0) chunk))
  unfolding session write_next ensure_success write_command
  zero_first k some_data =
      rw (some_data, respond_chunk 0 (min (length msg - 0) chunk) (omega arith))

  zero_last :
      (k : ℕ)
      → (is_empty msg ≡ true)
      → running (suc k) (machine zero_length id 0) (layout msg rest 0)
        ≡ running k (machine final_length id 0) stored
  unfolding session write_next ensure_success write_command
  zero_last k empty =
      let none_left : 0 ≡ length msg = ground (arith, empty) in
      rw (empty, ap (layout msg rest) none_left, respond_final)

  zero_stage :
      (k : ℕ) → Ends (length msg + 3) k (running k (machine zero_length id 0) (layout msg rest 0))
  unfolding session
  zero_stage zero = (inr (inl refl), λ f. absurd (omega arith))
  zero_stage (suc k) = elim (Bool-cases (is_empty msg)) [
    | inl empty ↦ Ends-later 1 _ k _ _ (omega arith) (zero_last k empty) (final_stage k 0)
    | inr some_data ↦
        Ends-later (length msg + 2 - 0) _ k _ _ (omega arith) (zero_first k some_data)
          (message_stage k 0 _ (ground (arith, some_data)) refl)
  ]

  ndef_first :
      (k : ℕ)
      → running (suc k) (machine select_ndef id 0) (a ∷ b ∷ rest)
        ≡ running k (machine zero_length id 0) (layout msg rest 0)
  unfolding session write_next ensure_success write_command
  ndef_first k = rw (respond_update 0 (0 ∷ 0 ∷ []) (a ∷ b ∷ rest) (omega arith) (omega arith))

  ndef_stage :
      (k : ℕ) → Ends (length msg + 4) k (running k (machine select_ndef id 0) (a ∷ b ∷ rest))
  unfolding session
  ndef_stage zero = (inl refl, λ f. absurd (omega arith))
  ndef_stage (suc k) =
      Ends-later (length msg + 3) _ k _ _ (omega arith) (ndef_first k) (zero_stage k)

  abbrev read_out : Option ResponseData
  read_out = some (record { body = cc; status = 0x9000 })

  respond_select_ndef :
      (selected : Selected) (bytes : Bytes)
      → respond (tag selected bytes) (select_file id) ≡ (tag file bytes, status_only 0x9000)
  unfolding respond select_file select_id
  respond_select_ndef selected bytes = ground (arith, given.id_ne, given.id_small)

  read_cc_next :
      write_next (machine read_cc 0 0) read_out
      ≡ (machine select_ndef id 0, ok (Action.command (select_file id)))
  unfolding write_next write_answer ensure_success write_command
  read_cc_next =
      let short_enough : ltb cap.max_length (length msg) ≡ false = ground (arith, given.fits) in
      rw (given.parses, given.writable, short_enough, given.declares)

  cc_first :
      (k : ℕ)
      → session write_next (suc k) (machine read_cc 0 0) read_out (tag container (a ∷ b ∷ rest))
        ≡ running k (machine select_ndef id 0) (a ∷ b ∷ rest)
  cc_first k =
      session_command write_next k _ _ _ _ _ _ read_cc_next
        (respond_select_ndef container (a ∷ b ∷ rest))

  cc_stage :
      (k : ℕ)
      → Ends
          (length msg + 5)
          k
          (session write_next k (machine read_cc 0 0) read_out (tag container (a ∷ b ∷ rest)))
  unfolding session
  cc_stage zero = (inl refl, λ f. absurd (omega arith))
  cc_stage (suc k) = Ends-later (length msg + 4) _ k _ _ (omega arith) (cc_first k) (ndef_stage k)

  respond_read_cc :
      (bytes : Bytes)
      → respond (tag container bytes) (read_binary 0 cc_len)
        ≡ (tag container bytes, record { body = cc; status = 0x9000 })
  unfolding respond read_binary read_at
  respond_read_cc bytes =
      ap (λ (xs : Bytes). (tag container bytes, record { body = xs; status = 0x9000 }))
        (take_all 15 cc (omega (arith, parse_cc_bounds cc given.parses)))

  select_cc_first :
      (k : ℕ)
      → session write_next (suc k) (machine select_cc 0 0) success (tag container (a ∷ b ∷ rest))
        ≡ session write_next k (machine read_cc 0 0) read_out (tag container (a ∷ b ∷ rest))
  unfolding session write_next ensure_success write_command
  select_cc_first k = rw (respond_read_cc (a ∷ b ∷ rest))

  select_cc_stage :
      (k : ℕ)
      → Ends
          (length msg + 6)
          k
          (session write_next k (machine select_cc 0 0) success (tag container (a ∷ b ∷ rest)))
  unfolding session
  select_cc_stage zero = (inl refl, λ f. absurd (omega arith))
  select_cc_stage (suc k) =
      Ends-later (length msg + 5) _ k _ _ (omega arith) (select_cc_first k) (cc_stage k)

  applet_first :
      (k : ℕ)
      → session write_next
          (suc k)
          (machine select_applet_step 0 0)
          success
          (tag applet (a ∷ b ∷ rest))
        ≡ session write_next k (machine select_cc 0 0) success (tag container (a ∷ b ∷ rest))
  unfolding session write_next ensure_success write_command respond select_file select_id
  applet_first k = refl

  applet_stage :
      (k : ℕ)
      → Ends (length msg + 7) k (
          session write_next k (machine select_applet_step 0 0) success (tag applet (a ∷ b ∷ rest)))
  unfolding session
  applet_stage zero = (inl refl, λ f. absurd (omega arith))
  applet_stage (suc k) =
      Ends-later (length msg + 6) _ k _ _ (omega arith) (applet_first k) (select_cc_stage k)

  start_first :
      (k : ℕ) (selected : Selected)
      → session write_next (suc k) (initial_write msg chunk) none (tag selected (a ∷ b ∷ rest))
        ≡ session write_next k (machine select_applet_step 0 0) success (tag applet (a ∷ b ∷ rest))
  unfolding session write_next write_command respond select_applet select_name
  start_first k selected = refl

  start_stage :
      (k : ℕ) (selected : Selected)
      → Ends
          (length msg + 8)
          k
          (session write_next k (initial_write msg chunk) none (tag selected (a ∷ b ∷ rest)))
  unfolding session
  start_stage zero selected = (inl refl, λ f. absurd (omega arith))
  start_stage (suc k) selected =
      Ends-later (length msg + 7) _ k _ _ (omega arith) (start_first k selected) (applet_stage k)

-- Writing a message to a writable tag that has room for it, cut off after any number `k` of
-- exchanges: the file is still the old one, or announces no message (NLEN 0), or holds the new
-- message whole, its length in front and the old bytes behind it.
pub write_crash_consistent :
    (cc : Bytes) (id a b : ℕ) (rest msg : Bytes) (chunk : ℕ) (cap : NdefCapability)
    → Setting cc id rest msg chunk cap
    → (k : ℕ) (selected : Selected)
    → ((session write_next k
          (initial_write msg chunk)
          none
          (tag_with cc id selected (a ∷ b ∷ rest))).0.bytes
        ≡ a ∷ b ∷ rest)
      ⊎ (take 2
            (session write_next k
              (initial_write msg chunk)
              none
              (tag_with cc id selected (a ∷ b ∷ rest))).0.bytes
          ≡ 0 ∷ 0 ∷ [])
      ⊎ ((session write_next k
            (initial_write msg chunk)
            none
            (tag_with cc id selected (a ∷ b ∷ rest))).0.bytes
          ≡ be16 (length msg) ++ (msg ++ drop (length msg) rest))
write_crash_consistent cc id a b rest msg chunk cap given k selected =
    (start_stage cc id a b rest msg chunk cap given k selected).0

-- Writing a message to a writable tag that has room for it: with `length msg + 8` exchanges or more
-- the write is complete and reports success, and the file holds the message, its length in front
-- and the old bytes behind it.
pub write_completes :
    (cc : Bytes) (id a b : ℕ) (rest msg : Bytes) (chunk : ℕ) (cap : NdefCapability)
    → Setting cc id rest msg chunk cap
    → (k : ℕ) (selected : Selected) → length msg + 8 ≤ k
    → session write_next k (initial_write msg chunk) none (tag_with cc id selected (a ∷ b ∷ rest))
      ≡ (tag_with cc id file (be16 (length msg) ++ (msg ++ drop (length msg) rest)), some (ok tt))
write_completes cc id a b rest msg chunk cap given k selected h =
    (start_stage cc id a b rest msg chunk cap given k selected).1 h
