-- ===== src/Tlv/Bounds.antt =====
-- Progress and budgets of `TlvReader::next`, `Tlv::children` and `TlvWriter::push`.
use libcanokey.Prelude.{
  ℕ, suc, ◌+◌, ◌≤◌, ◌<◌, ◌≡◌, ap, ◌⊎◌, inl, inr, Bytes, arith, length, length-append, length-drop,
  some, none, ◌^◌, Option-cases, Bool, ◌++◌, ltb, leb, ◌||◌, Bool-cases,
}
use libcanokey.Error
use libcanokey.Error.{Error, Result, Result-cases, ok, err, limit_exceeded}
use libcanokey.Tlv.{
  Tag, Tlv, TlvReader, TlvWriter, next, next_field, children, push, read_length, long_length,
  to_bytes, length_octets,
}
use libcanokey.Tlv.Field.{next_field_inverts, next_inverts}
use libcanokey.Tlv.Tags.{parse_tag_bounds}

read_length_start :
    (minimal : Bool) (first offset : ℕ) (bytes : Bytes) {len start : ℕ}
    → read_length minimal first offset bytes ≡ ok (len, start)
    → offset ≤ start
unfolding read_length long_length
read_length_start minimal first offset bytes h = ground arith

-- A field costs at least two bytes beside its value, so a reader can be advanced only finitely
-- often, and its value obeys the limit.
pub next_bounds :
    (r s : TlvReader) (t : Tlv)
    → next r ≡ (s, ok (some t))
    → (length s.bytes + length t.value + 2 ≤ length r.bytes)
      × (length t.value ≤ r.limits.max_value_bytes)
next_bounds r s t h =
    let (rest, e, s_is) = next_inverts r s t h in
    let f = next_field_inverts r t rest e in
    let (one, four, fits, len, value) = parse_tag_bounds r.bytes t.tag f.tag_len f.tag_read in
    let start = read_length_start r.minimal_lengths f.first _ r.bytes f.length_read in
    let size : length s.bytes ≡ length rest = ap (λ (x : TlvReader). length x.bytes) s_is in
    (
      omega (arith, ap length f.rest_is, length-drop (f.start + length t.value) r.bytes, f.inside),
      f.small,
    )

-- The nested reader that `children` gives for a field that was read is one level deeper than the
-- reader of the field, still within its depth limit, and stands at the start of the value.
pub children-next :
    (r s c : TlvReader) (t : Tlv)
    → next r ≡ (s, ok (some t))
    → children t ≡ ok c
    → (c.depth ≡ suc r.depth) × (c.depth ≤ r.limits.max_depth) × (c.bytes ≡ t.value)
unfolding children
children-next r s c t h k =
    let (rest, e, s_is) = next_inverts r s t h in
    let f = next_field_inverts r t rest e in ground (arith, f.inherits)

-- A reader that reports an error or the end of its input has not moved.
pub next_stays :
    (r s : TlvReader) → ((e : Error) × (next r ≡ (s, err e))) ⊎ (next r ≡ (s, ok none)) → s ≡ r
unfolding next
next_stays r s h = elim (Result-cases (next_field r)) [
  | inl ((t, rest), e) ↦ ground arith
  | inr (x, e) ↦ ground arith
]

-- `push` is atomic: either the field is appended and the output is within the limit, or the writer
-- is unchanged and the limit is reported, which happens exactly if the output would pass the limit,
-- overflow, or the value's length is no u32.
pub push_atomic :
    (w : TlvWriter) (tag : Tag) (value : Bytes)
    → (((push w tag value).1 ≡ ok tt)
        × (length (push w tag value).0.bytes ≤ w.limit)
        × ((octets : Bytes) × (length_octets (length value) ≡ some octets)
            × ((push w tag value).0
                ≡ record w { bytes = w.bytes ++ ((to_bytes tag ++ octets) ++ value) })))
      ⊎ ((push w tag value ≡ (w, err (Error.new limit_exceeded)))
          × ((length_octets (length value) ≡ none)
              ⊎ ((octets : Bytes) × (length_octets (length value) ≡ some octets)
                  × ((w.limit < length w.bytes + length (to_bytes tag ++ octets) + length value)
                      ⊎ (2 ^ 64
                          ≤ length w.bytes + length (to_bytes tag ++ octets) + length value)))))
unfolding push
push_atomic w tag value = elim (Option-cases (length_octets (length value))) [
  | inl e ↦ inr (rw (e, push), inl e)
  | inr (os, e) ↦ elim (Bool-cases (leb (2 ^ 64) (size os) || ltb w.limit (size os))) [
    | inl long ↦ inr (rw (e, push, long), inr (os, e, ground arith))
    | inr fits ↦ inl (
      rw (e, push, fits),
      rw (e, push, fits) (within os (ground arith)),
      (os, e, rw (e, push, fits)),
    )
  ]
]
  where
    size : Bytes → ℕ
    size os = length w.bytes + length (to_bytes tag ++ os) + length value

    within :
        (os : Bytes)
        → size os ≤ w.limit
        → length (w.bytes ++ ((to_bytes tag ++ os) ++ value)) ≤ w.limit
    within os h = omega (
      arith,
      length-append w.bytes ((to_bytes tag ++ os) ++ value),
      length-append (to_bytes tag ++ os) value,
    )
