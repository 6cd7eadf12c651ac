-- ===== src/Ndef/Tag.antt =====
-- A Type 4 Tag as the host sees it, independent of the code: SELECT, READ BINARY and UPDATE BINARY on
-- the capability container and the NDEF file, and a session of a machine with such a tag.
use libcanokey.Prelude.{
  ℕ, zero, suc, ◌+◌, ◌==◌, Bool, true, false, ◌&&◌, [], ◌∷◌, ◌++◌, Option, none, some, take, drop,
  length, leb, if◌then◌else◌, Bytes, from_be16,
}
use libcanokey.Error.{Result, ok, err}
use libcanokey.Apdu.{ExpectedLength, exact}
use libcanokey.Conversation.{LogicalCommand, ResponseData}
use libcanokey.Operation.{Action}
use libcanokey.Ndef.{ndef_aid, cc_file_id}

pub data Selected : Type 0 where
  nothing applet container file : Selected

pub record Tag : Type 0 where
  pub cc : Bytes
  pub file_id : ℕ
  pub bytes : Bytes
  pub writable : Bool
  pub selected : Selected

abbrev pub status_only : ℕ → ResponseData
status_only sw = record { body = []; status = sw }

pub equal : Bytes → Bytes → Bool
equal [] [] = true
equal (x ∷ xs) (y ∷ ys) = x == y && equal xs ys
equal _ _ = false

abbrev pub overwrite : ℕ → Bytes → Bytes → Bytes
overwrite offset new old = take offset old ++ (new ++ drop (offset + length new) old)

abbrev pub by_id : ℕ → Tag → Tag × ResponseData
by_id id t =
    if id == cc_file_id
    then (record t { selected = container }, status_only 0x9000)
    else if id == t.file_id
    then (record t { selected = file }, status_only 0x9000)
    else (t, status_only 0x6a82)

unfoldable pub select_name : Bytes → Tag → Tag × ResponseData
unfolding equal
select_name name t =
    if equal name ndef_aid
    then (record t { selected = applet }, status_only 0x9000)
    else (t, status_only 0x6a82)

unfoldable pub select_id : Bytes → Tag → Tag × ResponseData
select_id (hi ∷ lo ∷ []) t = by_id (from_be16 hi lo) t
select_id _ t = (t, status_only 0x6a80)

abbrev pub slice : ℕ → ℕ → Bytes → ResponseData
slice offset n bytes = record { body = take n (drop offset bytes); status = 0x9000 }

unfoldable pub read_at : ℕ → ExpectedLength → Selected → Tag → Tag × ResponseData
read_at offset (exact n) container t = (t, slice offset n t.cc)
read_at offset (exact n) file t = (t, slice offset n t.bytes)
read_at offset _ _ t = (t, status_only 0x6985)

unfoldable pub update_at : ℕ → Bytes → Selected → Tag → Tag × ResponseData
update_at offset new file t =
    if t.writable
    then (if leb (offset + length new) (length t.bytes)
        then (record t { bytes = overwrite offset new t.bytes }, status_only 0x9000)
        else (t, status_only 0x6700))
    else (t, status_only 0x6982)
update_at offset new _ t = (t, status_only 0x6985)

unfoldable pub respond : Tag → LogicalCommand → Tag × ResponseData
respond t c =
    let ins = c.header.ins in
    let offset = from_be16 c.header.p1 c.header.p2 in
    if ins == 0xa4
    then (if c.header.p1 == 0x04 then select_name c.body t else select_id c.body t)
    else if ins == 0xb0
    then read_at offset c.le t.selected t
    else if ins == 0xd6
    then update_at offset c.body t.selected t
    else (t, status_only 0x6d00)

-- A session of at most so many exchanges: the tag afterwards, and the result if there is one yet.
-- A session that is cut short is one with fewer exchanges.
module _ {S T : Type 0} (next : S → Option ResponseData → S × Result (Action T)) where
  unfoldable pub session : ℕ → S → Option ResponseData → Tag → Tag × Option (Result T)
  session zero s r t = (t, none)
  session (suc k) s r t = elim (next s r).1 [
    | err e ↦ (t, some (err e))
    | ok (Action.done v) ↦ (t, some (ok v))
    | ok (Action.command c) ↦ session k (next s r).0 (some (respond t c).1) (respond t c).0
  ]
