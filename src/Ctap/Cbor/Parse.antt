-- ===== src/Ctap/Cbor/Parse.antt =====
-- crates/canokey-ctap/src/cbor.rs: `parse`. A position is the list of the bytes from it on, and the
-- depth is counted down as in Encode. A position plus eight stays below the machine width, so the
-- `checked_add` succeeds. `from_utf8` is the test of its validity, a parameter; the set of seen keys
-- is a list.
use libcanokey.Prelude.{
  ℕ, zero, suc, ◌+◌, ◌-◌, ◌*◌, ◌/◌, ◌%◌, ◌^◌, ◌==◌, Bool, true, false, not, ◌||◌, List, [], ◌∷◌,
  leb, ltb, if◌then◌else◌, length, take, drop, is_empty, Bytes,
}
use libcanokey.Error
use libcanokey.Error.{
  Error, Result, ok, err, ◌>>=◌, ◌>>◌, reject, malformed, at_phase, limit_exceeded, parsing,
}
use libcanokey.Compat.Profile.{text_eq}
use libcanokey.Ctap.Cbor.{
  Value, unsigned, negative, byte_string, text, array, map, boolean, null, Items, nil, cons,
  Entries, end, entry,
}
use libcanokey.Ctap.Cbor.Encode.{max_depth, encode}

abbrev pub limit : Error
limit = at_phase (Error.new limit_exceeded) parsing

-- The loop of `read_be`: a shift in u64, and the next byte.
unfoldable pub be_value : ℕ → Bytes → ℕ
be_value acc [] = acc
be_value acc (b ∷ bs) = be_value (acc * 256 % 18446744073709551616 + b) bs

-- `read_be`.
unfoldable pub read_be : ℕ → Bytes → Result (ℕ × Bytes)
unfolding be_value
read_be count bs =
    if ltb (length bs) count then err malformed else ok (be_value 0 (take count bs), drop count bs)

-- An argument of 1, 2, 4 or 8 bytes, which must not fit a shorter one.
unfoldable pub wide_argument : ℕ → Bytes → Result (ℕ × Bytes)
unfolding read_be
wide_argument count bs = do
  p ← read_be count bs
  reject (ltb p.0 (if count == 1 then 24 else 2 ^ (8 * (count / 2)))) malformed
  ok p

-- The argument after the initial byte.
unfoldable pub parse_argument : ℕ → Bytes → Result (ℕ × Bytes)
unfolding wide_argument
parse_argument info bs =
    if ltb info 24
    then ok (info, bs)
    else if leb info 27
    then wide_argument (2 ^ (info - 24)) bs
    else err malformed

abbrev pub Parsed : Type 0
Parsed = Result (Value × Bytes)

abbrev pub simple : ℕ → Bytes → Parsed
simple info bs =
    if info == 20
    then ok (boolean false, bs)
    else if info == 21
    then ok (boolean true, bs)
    else if info == 22
    then ok (null, bs)
    else err malformed

unfoldable pub contains : Bytes → List Bytes → Bool
contains b [] = false
contains b (x ∷ xs) = text_eq b x || contains b xs

-- `map_err(|_| limit())`.
abbrev pub or_limit : Result Bytes → Result Bytes
or_limit (ok b) = ok b
or_limit (err e) = err limit

module _ (is_utf8 : Bytes → Bool) where
  module _ (inner : Bytes → Parsed) where
    unfoldable pub parse_items : ℕ → Bytes → Result (Items × Bytes)
    parse_items zero bs = ok (nil, bs)
    parse_items (suc n) bs = do p ← inner bs; q ← parse_items n p.1; ok (cons p.0 q.0, q.1)

    unfoldable pub parse_entries : ℕ → List Bytes → Bytes → Result (Entries × Bytes)
    parse_entries zero seen bs = ok (end, bs)
    parse_entries (suc n) seen bs = do
      p ← inner bs
      key ← or_limit (encode p.0)
      reject (contains key seen) malformed
      q ← inner p.1
      r ← parse_entries n (key ∷ seen) q.1
      ok (entry p.0 q.0 r.0, r.1)

    abbrev pub taken : (Bytes → Value) → (Bytes → Bool) → ℕ → Bytes → Parsed
    taken make good n bs =
        if ltb (length bs) n
        then err malformed
        else if good (take n bs)
        then ok (make (take n bs), drop n bs)
        else err malformed

    unfoldable pub parse_array : ℕ → Bytes → Parsed
    unfolding parse_items
    parse_array n bs = do
      reject (ltb (length bs) n) malformed
      p ← parse_items n bs
      ok (array p.0, p.1)

    unfoldable pub parse_map : ℕ → Bytes → Parsed
    unfolding parse_entries
    parse_map n bs = do
      reject (ltb (length bs / 2) n) malformed
      p ← parse_entries n [] bs
      ok (map p.0, p.1)

    -- The `match` of the major type.
    unfoldable pub parse_major : ℕ → ℕ → Bytes → Parsed
    unfolding parse_array parse_map
    parse_major major argument bs =
        if major == 0
        then ok (unsigned argument, bs)
        else if major == 1
        then ok (negative argument, bs)
        else if major == 2
        then taken byte_string (λ b. true) argument bs
        else if major == 3
        then taken text is_utf8 argument bs
        else if major == 4
        then parse_array argument bs
        else parse_map argument bs

    unfoldable pub parse_by : Bytes → Parsed
    unfolding parse_argument parse_major
    parse_by [] = err malformed
    parse_by (initial ∷ bs) =
        if initial / 32 == 7
        then simple (initial % 32) bs
        else if initial / 32 == 6
        then err malformed
        else (do p ← parse_argument (initial % 32) bs; parse_major (initial / 32) p.0 p.1)

  -- `parse_at`.
  unfoldable pub parse_at : ℕ → Bytes → Parsed
  unfolding parse_by
  parse_at zero bs = err limit
  parse_at (suc levels) bs = parse_by (parse_at levels) bs

  -- `parse_item`: the bytes after the item, in place of the number of those before.
  unfoldable pub parse_item : Bytes → Parsed
  unfolding parse_at
  parse_item bs = parse_at max_depth bs

  -- `parse`.
  unfoldable pub parse : Bytes → Result Value
  unfolding parse_item
  parse bs = do p ← parse_item bs; reject (not (is_empty p.1)) malformed; ok p.0
