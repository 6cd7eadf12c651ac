-- ===== src/Ndef/ReadBack.antt =====
-- `ReadMachine` against a tag, stage by stage.
use libcanokey.Prelude.{
  ℕ, zero, suc, ◌+◌, ◌-◌, ◌*◌, ◌/◌, ◌%◌, ◌≤◌, ◌<◌, ◌≡◌, ◌≢◌, refl, ap, ◌∙◌, inl, inr, true, false,
  [], ◌∷◌, ◌++◌, Option, none, some, min, take, drop, length, ltb, ◌==◌, ==_iff, Bytes, be16, arith,
  Bool-cases, length-take, length-drop, take_all, take-append-take, slice-append,
}
use libcanokey.Error.{ok}
use libcanokey.Conversation.{ResponseData, ensure_success}
use libcanokey.Operation.{Action}
use libcanokey.Ndef.{
  cc_file_id, cc_len, NdefCapability, select_applet, select_file, read_binary, parse_cc, ReadStep,
  select_applet_step, select_cc, read_cc, select_ndef, read_nlen, message, max_message_length,
}
use libcanokey.Ndef.Read.{ReadMachine, read_command, read_answer, read_next, initial_read}
use libcanokey.Ndef.Tag.{
  Tag, Selected, applet, container, file, respond, session, status_only, select_name, select_id,
  read_at, slice,
}
use libcanokey.Ndef.Layout.{session_command, session_done, tag_with, parse_cc_bounds}

-- A tag whose NDEF file holds a message, and how it is read.
pub record Stored (cc : Bytes) (id : ℕ) (msg : Bytes) (chunk : ℕ) (cap : NdefCapability)
    : Type 0 where
  pub parses : parse_cc cc ≡ ok cap
  pub declares : cap.file_id ≡ id
  pub id_small : id < 65536
  pub id_ne : id ≢ cc_file_id
  pub fits : length msg ≤ cap.max_length
  pub chunk_pos : 1 ≤ chunk

module _ (cc : Bytes) (id : ℕ) (rest msg : Bytes) (chunk : ℕ) (cap : NdefCapability)
    (given : Stored cc id msg chunk cap) where
  abbrev stored : Bytes
  stored = be16 (length msg) ++ (msg ++ rest)

  abbrev tag : Selected → Tag
  tag selected = tag_with cc id selected stored

  abbrev machine : ReadStep → ℕ → ℕ → ℕ → ℕ → Bytes → ReadMachine
  machine step fid max_message offset remaining bytes = record {
    step = step;
    chunk = chunk;
    file_id = fid;
    max_message = max_message;
    offset = offset;
    remaining = remaining;
    bytes = bytes;
  }

  abbrev reading : ℕ → ℕ → Bytes → ReadMachine
  reading offset remaining bytes = machine message id cap.max_length offset remaining bytes

  abbrev answer : Bytes → ResponseData
  answer body = record { body = body; status = 0x9000 }

  abbrev Reads : ℕ → ReadMachine → Option ResponseData → Selected → Type 0
  Reads k m r selected = session read_next k m r (tag selected) ≡ (tag file, some (ok msg))

  respond_read :
      (offset n : ℕ)
      → offset < 65536
      → respond (tag file) (read_binary offset n) ≡ (tag file, slice offset n stored)
  unfolding respond read_binary read_at
  respond_read offset n h =
      let back : offset / 256 % 256 * 256 + offset % 256 ≡ offset = omega arith in rw back refl

  next_more :
      (offset remaining : ℕ) (bytes part : Bytes)
      → length part ≡ min remaining chunk
      → (remaining - min remaining chunk == 0) ≡ false
      → read_next (reading offset remaining bytes) (some (answer part)) ≡ (
        reading (offset + min remaining chunk) (remaining - min remaining chunk) (bytes ++ part),
        ok (
            Action.command (
              read_binary
                ((offset + min remaining chunk) % 65536)
                (min (remaining - min remaining chunk) chunk))),
      )
  unfolding read_next read_answer read_command ensure_success
  next_more offset remaining bytes part e more =
      let whole : (length part == min remaining chunk) ≡ true = (==_iff _ _).1 e in
      rw (whole, more) refl

  next_last :
      (offset remaining : ℕ) (bytes part : Bytes)
      → length part ≡ min remaining chunk
      → (remaining - min remaining chunk == 0) ≡ true
      → (read_next (reading offset remaining bytes) (some (answer part))).1
        ≡ ok (Action.done (bytes ++ part))
  unfolding read_next read_answer ensure_success
  next_last offset remaining bytes part e last =
      let whole : (length part == min remaining chunk) ≡ true = (==_iff _ _).1 e in
      rw (whole, last) refl

  short_message : length msg ≤ 1022
  short_message = omega (arith, parse_cc_bounds cc given.parses, given.fits)

  -- What a read of the file at an offset behind NLEN gives.
  part_at : ℕ → ℕ → Bytes
  part_at n k = take k (drop n (msg ++ rest))

  respond_part :
      (n offset k : ℕ)
      → offset ≡ 2 + n
      → n ≤ length msg
      → respond (tag file) (read_binary (offset % 65536) k) ≡ (tag file, answer (part_at n k))
  unfolding part_at
  respond_part n offset k e h =
      let few = short_message in
      let small : offset % 65536 ≡ suc (suc n) = omega arith in
      respond_read (offset % 65536) k (omega arith)
      ∙ ap (λ (i : ℕ). (tag file, answer (take k (drop i stored)))) small

  part_size : (n k : ℕ) → n + k ≤ length msg → length (part_at n k) ≡ k
  unfolding part_at
  part_size n k h =
      ap length (slice-append n k msg rest h)
      ∙ omega (arith, length-take k (drop n msg), length-drop n msg)

  part_joined : (n k : ℕ) → n + k ≤ length msg → take n msg ++ part_at n k ≡ take (n + k) msg
  unfolding part_at
  part_joined n k h =
      ap (λ (xs : Bytes). take n msg ++ xs) (slice-append n k msg rest h)
      ∙ take-append-take n k (n + k) msg refl

  message_stage :
      (k n offset remaining : ℕ) (bytes : Bytes)
      → n < length msg
      → length msg ≤ k + n
      → offset ≡ 2 + n
      → remaining ≡ length msg - n
      → bytes ≡ take n msg
      → Reads k
          (reading offset remaining bytes)
          (some (answer (part_at n (min remaining chunk))))
          file
  message_stage zero n offset remaining bytes h f e r b = absurd (omega arith)
  message_stage (suc k) n offset remaining bytes h f e r b =
      let pos = given.chunk_pos in
      let want = min remaining chunk in
      let size : length (part_at n want) ≡ want = part_size n want (omega arith) in
      let joined : bytes ++ part_at n want ≡ take (n + want) msg =
        ap (λ (xs : Bytes). xs ++ part_at n want) b ∙ part_joined n want (omega arith) in
      elim (Bool-cases (remaining - want == 0)) [
        | inl last ↦
            session_done read_next k _ _ (tag file) _ (next_last offset remaining bytes _ size last)
            ∙ ap (λ (xs : Bytes). (tag file, some (ok xs)))
                (joined ∙ take_all (n + want) msg (ground arith))
        | inr more ↦
            session_command read_next k _ _ _ _ _ _ (next_more offset remaining bytes _ size more) (
              respond_part (n + want) (offset + want) (min (remaining - want) chunk) (omega arith)
                (omega arith))
            ∙ message_stage k (n + want) (offset + want) (remaining - want) _ (ground arith)
                (omega arith) (omega arith) (omega arith) joined
      ]

  abbrev start_at : ReadStep → ReadMachine
  start_at step = machine step 0 max_message_length 0 0 []

  abbrev in_file : ReadStep → ReadMachine
  in_file step = machine step id cap.max_length 0 0 []

  abbrev nlen : ℕ
  nlen = length msg / 256 % 256 * 256 + length msg % 256

  nlen_is : nlen ≡ length msg
  nlen_is = let few = short_message in omega arith

  nlen_empty :
      length msg ≡ 0
      → (read_next (in_file read_nlen) (some (answer (be16 (length msg))))).1 ≡ ok (Action.done [])
  unfolding read_next read_answer ensure_success
  nlen_empty e =
      let fits : ltb cap.max_length nlen ≡ false =
        let few = given.fits in ground (arith, nlen_is) in
      let none_left : (nlen == 0) ≡ true = ground (arith, nlen_is) in rw (fits, none_left) refl

  nlen_more :
      length msg ≢ 0
      → read_next (in_file read_nlen) (some (answer (be16 (length msg))))
        ≡ (reading 2 nlen [], ok (Action.command (read_binary (2 % 65536) (min nlen chunk))))
  unfolding read_next read_answer read_command ensure_success
  nlen_more e =
      let fits : ltb cap.max_length nlen ≡ false =
        let few = given.fits in ground (arith, nlen_is) in
      let some_left : (nlen == 0) ≡ false = ground (arith, nlen_is) in rw (fits, some_left) refl

  nil_of_empty : (xs : Bytes) → length xs ≡ 0 → [] ≡ xs
  nil_of_empty [] h = refl
  nil_of_empty (x ∷ xs) h = absurd (omega arith)

  nlen_stage :
      (k : ℕ)
      → length msg < k
      → Reads k (in_file read_nlen) (some (answer (be16 (length msg)))) file
  nlen_stage zero h = absurd (omega arith)
  nlen_stage (suc k) h = elim (Bool-cases (length msg == 0)) [
    | inl empty ↦
        session_done read_next k _ _ (tag file) _ (nlen_empty (ground arith))
        ∙ ap (λ (xs : Bytes). (tag file, some (ok xs))) (nil_of_empty msg (ground arith))
    | inr full ↦
        session_command read_next k _ _ _ _ _ _ (nlen_more (ground arith))
          (respond_part 0 2 (min nlen chunk) refl (omega arith))
        ∙ message_stage k 0 2 nlen [] (ground arith) (omega arith) refl (omega (arith, nlen_is))
            refl
  ]

  respond_select_ndef :
      (selected : Selected)
      → respond (tag selected) (select_file id) ≡ (tag file, status_only 0x9000)
  unfolding respond select_file select_id
  respond_select_ndef selected = ground (arith, given.id_ne, given.id_small)

  respond_cc : respond (tag container) (read_binary 0 cc_len) ≡ (tag container, answer cc)
  unfolding respond read_binary read_at
  respond_cc =
      ap (λ (xs : Bytes). (tag container, answer xs))
        (take_all 15 cc (omega (arith, parse_cc_bounds cc given.parses)))

  cc_next :
      read_next (start_at read_cc) (some (answer cc))
      ≡ (in_file select_ndef, ok (Action.command (select_file id)))
  unfolding read_next read_answer read_command ensure_success
  cc_next = rw (given.parses, given.declares) refl

  -- From the selected file.
  ndef_stage :
      (k : ℕ) → length msg + 1 < k → Reads k (in_file select_ndef) (some (status_only 0x9000)) file
  unfolding session read_next read_answer read_command ensure_success respond read_binary read_at
  ndef_stage zero h = absurd (omega arith)
  ndef_stage (suc k) h = nlen_stage k (omega arith)

  cc_stage : (k : ℕ) → length msg + 2 < k → Reads k (start_at read_cc) (some (answer cc)) container
  cc_stage zero h = absurd (omega arith)
  cc_stage (suc k) h =
      session_command read_next k _ _ _ _ _ _ cc_next (respond_select_ndef container)
      ∙ ndef_stage k (omega arith)

  select_cc_stage :
      (k : ℕ)
      → length msg + 3 < k
      → Reads k (start_at select_cc) (some (status_only 0x9000)) container
  unfolding read_next read_answer read_command ensure_success
  select_cc_stage zero h = absurd (omega arith)
  select_cc_stage (suc k) h =
      session_command read_next k _ _ _ _ _ _ refl respond_cc ∙ cc_stage k (omega arith)

  applet_stage :
      (k : ℕ)
      → length msg + 4 < k
      → Reads k (start_at select_applet_step) (some (status_only 0x9000)) applet
  unfolding session read_next read_answer read_command ensure_success respond select_file select_id
  applet_stage zero h = absurd (omega arith)
  applet_stage (suc k) h = select_cc_stage k (omega arith)

  start_stage :
      (k : ℕ) (selected : Selected)
      → length msg + 5 < k
      → Reads k (initial_read chunk) none selected
  unfolding session read_next read_command respond select_applet select_name
  start_stage zero selected h = absurd (omega arith)
  start_stage (suc k) selected h = applet_stage k (omega arith)

-- Reading a tag whose capability container is valid and whose NDEF file holds a message within the
-- declared capacity, whatever follows it and whatever was selected: with `length msg + 6`
-- exchanges or more the read is complete and returns exactly that message, and the tag is as
-- before, its NDEF file selected.
pub read-Stored :
    (cc : Bytes) (id : ℕ) (rest msg : Bytes) (chunk : ℕ) (cap : NdefCapability)
    → Stored cc id msg chunk cap
    → (k : ℕ) (selected : Selected) → length msg + 5 < k
    → session read_next k
        (initial_read chunk)
        none
        (tag_with cc id selected (be16 (length msg) ++ (msg ++ rest)))
      ≡ (tag_with cc id file (be16 (length msg) ++ (msg ++ rest)), some (ok msg))
read-Stored cc id rest msg chunk cap given k selected h =
    start_stage cc id rest msg chunk cap given k selected h
