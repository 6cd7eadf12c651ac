-- ===== src/Tlv/RoundTrip.antt =====
-- `TlvWriter::push` followed by `TlvReader::next`.
use libcanokey.Prelude.{
  ℕ, suc, ◌+◌, ◌%◌, ◌^◌, ◌≤◌, ◌<◌, ◌≡◌, refl, sym, ap, ◌∙◌, [], ◌∷◌, ◌++◌, some, arith, Bytes,
  IsByte, All, length, drop, Bool, false, length-append, inl, inr, drop-append_exact, ltb,
  get_elem?, get_elem?-append, Bool-cases, Option-cases, lt→ltb,
}
use mathlib.Core.List.{append_assoc}
use libcanokey.Error.{ok}
use libcanokey.Tlv.Lengths.{get_range-append, significant_shape, sum_length-significant}
use libcanokey.Tlv.Field.{next_of_field}
use libcanokey.Tlv.Tags.{parse_tag-append, from_bytes_inverts, to_bytes-from_bytes}
use libcanokey.Tlv.{
  be32, significant, length_octets, sum_length, long_length, read_length, get_range,
  starts_with_zero, Tag, Tlv, TlvReader, TlvWriter, next_field, next, push, TlvLimits, from_bytes,
  to_bytes,
}

module _ (minimal : Bool) (pre sig rest : Bytes) (n : ℕ) where
  long_length-significant :
      1 ≤ length sig
      → length sig ≤ 4
      → starts_with_zero sig ≡ false
      → sum_length 0 sig ≡ ok n
      → ltb n 128 ≡ false
      → long_length minimal
          (128 + length sig)
          (length pre + 1)
          (pre ++ (((128 + length sig) ∷ sig) ++ rest))
        ≡ ok (n, length pre + suc (length sig))
  unfolding long_length
  long_length-significant one four head sum long =
      let count : (128 + length sig) % 128 ≡ length sig = omega arith in
      let range : get_range (pre ++ (((128 + length sig) ∷ sig) ++ rest)) (length pre + 1)
            (length sig)
          ≡ some sig =
        rw (append_assoc pre ((128 + length sig) ∷ []) (sig ++ rest)) at (
          get_range-append (pre ++ ((128 + length sig) ∷ [])) sig rest (length pre + 1) (length sig)
            (length-append pre ((128 + length sig) ∷ [])) refl) in
      rw (count, range) (ground (arith, one, four))

-- Every encoded length is read back, by a strict and by a lenient reader.
read_length-octets :
    (minimal : Bool) (pre os rest : Bytes) (n : ℕ)
    → length_octets n ≡ some os
    → (first : ℕ) × (get_elem? (os ++ rest) 0 ≡ some first)
      × (read_length minimal first (length pre + 1) (pre ++ (os ++ rest))
          ≡ ok (n, length pre + length os))
unfolding length_octets read_length
read_length-octets minimal pre os rest n h = elim (Bool-cases (ltb n 128)) [
  | inl small ↦ (n, ground arith, ground arith)
  | inr long ↦
      let sig = significant (be32 n) in
      let octets : (128 + length sig) ∷ sig ≡ os = ground arith in
      let bound : n < 2 ^ 32 = ground arith in
      let (one, four, head) = significant_shape n (ground arith) bound in
      (
        128 + length sig,
        rw (← octets) refl,
        rw (← octets) (
            ground (
              arith,
              long_length-significant minimal pre sig rest n one four head
                  (sum_length-significant n bound) long,
            )),
      )
]

-- What a successful `push` did: the field is appended, within the limit.
push_ok :
    (w : TlvWriter) (tag : Tag) (value : Bytes) {w' : TlvWriter}
    → push w tag value ≡ (w', ok tt)
    → (os : Bytes) × (length_octets (length value) ≡ some os)
      × (w'.bytes ≡ w.bytes ++ ((to_bytes tag ++ os) ++ value))
      × (w'.limit ≡ w.limit)
      × (length w.bytes + length (to_bytes tag ++ os) + length value ≤ w.limit)
unfolding push
push_ok w tag value h = elim (Option-cases (length_octets (length value))) [
  | inl e ↦ absurd (ground arith)
  | inr (os, e) ↦ (os, e, ground arith, ground arith, ground arith)
]

module _ (depth : ℕ) (limits : TlvLimits) (minimal : Bool) where
  abbrev pub reading : Bytes → TlvReader
  reading bytes = record {
    bytes = bytes;
    depth = depth;
    limits = limits;
    minimal_lengths = minimal;
  }

  abbrev pub field_of : Tag → Bytes → Tlv
  field_of tag value = record {
    tag = tag;
    value = value;
    depth = depth;
    limits = limits;
    minimal_lengths = minimal;
  }

  next_field_reads :
      (enc os value rest : Bytes) (tag : Tag)
      → from_bytes enc ≡ ok tag
      → length_octets (length value) ≡ some os
      → depth ≤ limits.max_depth
      → length value ≤ limits.max_value_bytes
      → length enc + length os + length value < 2 ^ 64
      → next_field (reading (enc ++ (os ++ (value ++ rest)))) ≡ ok (field_of tag value, rest)
  unfolding next_field
  next_field_reads enc os value rest tag t l shallow small fits =
      let (first, f, len) = read_length-octets minimal enc os (value ++ rest) (length value) l in
      let found : get_elem? (enc ++ (os ++ (value ++ rest))) (length enc) ≡ some first =
        get_elem?-append (length enc) enc (os ++ (value ++ rest)) refl ∙ f in
      let at_value : enc ++ (os ++ (value ++ rest)) ≡ (enc ++ os) ++ (value ++ rest) =
        sym (append_assoc enc os (value ++ rest)) in
      let at_rest : enc ++ (os ++ (value ++ rest)) ≡ ((enc ++ os) ++ value) ++ rest =
        at_value ∙ sym (append_assoc (enc ++ os) value rest) in
      let range : get_range (enc ++ (os ++ (value ++ rest))) (length enc + length os) (length value)
          ≡ some value =
        rw at_value (
          get_range-append (enc ++ os) value rest (length enc + length os) (length value)
            (length-append enc os) refl) in
      let left : drop (length enc + length os + length value) (enc ++ (os ++ (value ++ rest)))
          ≡ rest =
        rw at_rest (
          drop-append_exact _ ((enc ++ os) ++ value) rest
            (omega (arith, length-append enc os, length-append (enc ++ os) value))) in
      rw
        (
          parse_tag-append enc (os ++ (value ++ rest)) tag (length enc)
              (from_bytes_inverts enc tag t),
          found,
          len,
          range,
          lt→ltb _ _ fits,
          left,
        )
        (ground (arith, shallow, small))

  -- A field that `push` appended stands at the end of the writer's output, and a reader at the
  -- front of it, strict or not, whose depth and value limits admit it reads that very tag and
  -- value and is left at whatever follows.
  pub next-push :
      (w : TlvWriter) (enc value rest : Bytes) (tag : Tag) {w' : TlvWriter}
      → All IsByte enc
      → from_bytes enc ≡ ok tag
      → push w tag value ≡ (w', ok tt)
      → w.limit < 2 ^ 64
      → depth ≤ limits.max_depth
      → length value ≤ limits.max_value_bytes
      → (encoded : Bytes) × (w'.bytes ≡ w.bytes ++ encoded)
        × (next (reading (encoded ++ rest)) ≡ (reading rest, ok (some (field_of tag value))))
  next-push w enc value rest tag {w'} b t p limit shallow small =
      let (os, l, appended, same, fits) = push_ok w tag value p in
      let written : to_bytes tag ≡ enc = to_bytes-from_bytes enc tag b t in
      let size : length enc + length os + length value < 2 ^ 64 =
        omega (arith, ap length written, length-append (to_bytes tag) os, fits) in
      let regroup : ((enc ++ os) ++ value) ++ rest ≡ enc ++ (os ++ (value ++ rest)) =
        append_assoc (enc ++ os) value rest ∙ append_assoc enc os (value ++ rest) in
      (
        (enc ++ os) ++ value,
        rw (← written) appended,
        rw regroup (
            next_of_field _ _ rest (next_field_reads enc os value rest tag t l shallow small size)),
      )
