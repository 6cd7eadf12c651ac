-- ===== src/Ndef/Tests.antt =====
-- Sessions with a small tag, and the theorems at concrete inputs.
use libcanokey.Prelude.{◌≡◌, ◌⊎◌, refl, some, none, false, [], ◌∷◌, Bytes, take, arith}
use libcanokey.Error.{ok}
use libcanokey.Ndef.{NdefCapability, parse_cc}
use libcanokey.Ndef.Write.{write_next, initial_write}
use libcanokey.Ndef.Read.{read_next, initial_read}
use libcanokey.Ndef.Tag.{nothing, file, session}
use libcanokey.Ndef.Layout.{tag_with, Setting}
use libcanokey.Ndef.Crash.{write_crash_consistent, write_completes}
use libcanokey.Ndef.ReadBack.{Stored, read-Stored}

-- A capability container for the file E104 with six bytes, freely writable.
abbrev small_cc : Bytes
small_cc = 0 ∷ 15 ∷ 0x20 ∷ 0 ∷ 0x7f ∷ 0 ∷ 0x7f ∷ 4 ∷ 6 ∷ 0xe1 ∷ 4 ∷ 0 ∷ 6 ∷ 0 ∷ 0 ∷ []

abbrev small_capability : NdefCapability
small_capability = record { file_id = 0xe104; max_length = 4; read_only = false }

abbrev old_bytes : Bytes
old_bytes = 9 ∷ 9 ∷ 9 ∷ 9 ∷ []

abbrev new_message : Bytes
new_message = 1 ∷ 2 ∷ []

parse_small : parse_cc small_cc ≡ ok small_capability
unfolding parse_cc
parse_small = refl

small-Setting : Setting small_cc 0xe104 old_bytes new_message 1 small_capability
small-Setting = record {
  parses = parse_small;
  declares = refl;
  id_small = omega arith;
  id_ne = omega arith;
  writable = refl;
  fits = omega arith;
  room = omega arith;
  chunk_pos = omega arith;
}

write_crash_consistent_example :
    ((session write_next 7
        (initial_write new_message 1)
        none
        (tag_with small_cc 0xe104 nothing (0 ∷ 4 ∷ old_bytes))).0.bytes
      ≡ 0 ∷ 4 ∷ old_bytes)
    ⊎ (take 2
          (session write_next 7
            (initial_write new_message 1)
            none
            (tag_with small_cc 0xe104 nothing (0 ∷ 4 ∷ old_bytes))).0.bytes
        ≡ 0 ∷ 0 ∷ [])
    ⊎ ((session write_next 7
          (initial_write new_message 1)
          none
          (tag_with small_cc 0xe104 nothing (0 ∷ 4 ∷ old_bytes))).0.bytes
        ≡ 0 ∷ 2 ∷ 1 ∷ 2 ∷ 9 ∷ 9 ∷ [])
write_crash_consistent_example =
    write_crash_consistent small_cc 0xe104 0 4 old_bytes new_message 1 small_capability
      small-Setting 7 nothing

write_completes_example :
    session write_next 10
      (initial_write new_message 1)
      none
      (tag_with small_cc 0xe104 nothing (0 ∷ 4 ∷ old_bytes))
    ≡ (tag_with small_cc 0xe104 file (0 ∷ 2 ∷ 1 ∷ 2 ∷ 9 ∷ 9 ∷ []), some (ok tt))
write_completes_example =
    write_completes small_cc 0xe104 0 4 old_bytes new_message 1 small_capability small-Setting 10
      nothing (omega arith)

small-Stored : Stored small_cc 0xe104 new_message 1 small_capability
small-Stored = record {
  parses = parse_small;
  declares = refl;
  id_small = omega arith;
  id_ne = omega arith;
  fits = omega arith;
  chunk_pos = omega arith;
}

read-Stored_example :
    session read_next 8
      (initial_read 1)
      none
      (tag_with small_cc 0xe104 nothing (0 ∷ 2 ∷ 1 ∷ 2 ∷ 9 ∷ 9 ∷ []))
    ≡ (tag_with small_cc 0xe104 file (0 ∷ 2 ∷ 1 ∷ 2 ∷ 9 ∷ 9 ∷ []), some (ok (1 ∷ 2 ∷ [])))
read-Stored_example =
    read-Stored small_cc 0xe104 (9 ∷ 9 ∷ []) new_message 1 small_capability small-Stored 8 nothing
      (omega arith)
