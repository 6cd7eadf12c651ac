-- ===== src/Tlv/Canonical.antt =====
-- What a strict `TlvReader` accepts.
use libcanokey.Prelude.{
  ℕ, suc, ◌+◌, ◌%◌, ◌≤◌, ◌≡◌, refl, sym, ap, ◌∙◌, [], ◌∷◌, ◌++◌, some, arith, Bytes, IsByte, All,
  length, take, drop, true, false, inl, inr, All-take, All-drop, ltb, get_elem?, ◌==◌, ◌||◌,
  drop-get_elem?, drop-drop, take-append-drop, Bool-cases,
}
use mathlib.Core.Path.{subst, ap₂}
use libcanokey.Error.{ok, ok_or, malformed, >>=-eq-ok, reject-eq-ok, ok_or-eq-ok}
use libcanokey.Tlv.Lengths.{get_range_inverts, significant_unique}
use libcanokey.Tlv.Field.{next_field_inverts, next_inverts}
use libcanokey.Tlv.Tags.{to_bytes-from_bytes, from_bytes-take}
use libcanokey.Tlv.{
  length_octets, sum_length, long_length, read_length, get_range, starts_with_zero, Tlv, TlvReader,
  next, to_bytes,
}

-- What a length in the long form says when a strict reader accepts it.
record LongLength (first offset : ℕ) (bytes : Bytes) (len start : ℕ) : Type 0 where
  count : (1 ≤ first % 128) × (first % 128 ≤ 4)
  encoded : Bytes
  slice : get_range bytes offset (first % 128) ≡ some encoded
  no_zero : starts_with_zero encoded ≡ false
  sums : sum_length 0 encoded ≡ ok len
  long : 128 ≤ len
  start_is : start ≡ offset + first % 128

long_length_inverts :
    (first offset : ℕ) (bytes : Bytes) (len start : ℕ)
    → long_length true first offset bytes ≡ ok (len, start)
    → LongLength first offset bytes len start
unfolding long_length
long_length_inverts first offset bytes len start h =
    let (count, h1) = reject-eq-ok (first % 128 == 0 || ltb 4 (first % 128)) _ _ h in
    let (encoded, e, h2) =
      >>=-eq-ok (ok_or (get_range bytes offset (first % 128)) malformed) _ h1 in
    let (no_zero, h3) = reject-eq-ok (starts_with_zero encoded) _ _ h2 in
    let (n, sums, h4) = >>=-eq-ok (sum_length 0 encoded) _ h3 in
    let (long, h5) = reject-eq-ok (ltb n 128) _ _ h4 in
    let same : n ≡ len = ground arith in
    record {
      count = ground arith;
      encoded = encoded;
      slice = ok_or-eq-ok _ _ e;
      no_zero = no_zero;
      sums = rw same at sums;
      long = ground arith;
      start_is = ground arith;
    }

-- The octets of a strict length are those that the writer chooses for it.
record OctetsAt (bytes : Bytes) (n len start : ℕ) : Type 0 where
  octets : Bytes
  chosen : length_octets len ≡ some octets
  stands : drop n bytes ≡ octets ++ drop start bytes
  start_is : start ≡ n + length octets

module _ (bytes : Bytes) (n len start first : ℕ) (are_bytes : All IsByte bytes)
    (at : get_elem? bytes n ≡ some first) where
  cut : drop n bytes ≡ first ∷ drop (suc n) bytes
  cut = drop-get_elem? n bytes at

  first-IsByte : IsByte first
  first-IsByte = (subst (All IsByte) cut (All-drop IsByte n bytes are_bytes)).0

  next_is : suc n ≡ n + 1
  next_is = omega arith

  octets_short : ltb first 128 ≡ true → first ≡ len → start ≡ n + 1 → OctetsAt bytes n len start
  octets_short small e f = record {
    octets = first ∷ [];
    chosen = unfold length_octets in ground arith;
    stands = cut ∙ ap (λ (k : ℕ). first ∷ drop k bytes) {x = suc n} (omega arith);
    start_is = omega arith;
  }

  octets_long :
      LongLength first (n + 1) bytes len start → ltb first 128 ≡ false → OctetsAt bytes n len start
  octets_long l big =
      let (inside, size, is) = get_range_inverts bytes (n + 1) (first % 128) l.encoded l.slice in
      let enc_bytes : All IsByte l.encoded = rw is (
        All-take IsByte (first % 128) (drop (n + 1) bytes)
          (All-drop IsByte (n + 1) bytes are_bytes)) in
      let (kept, small) =
        significant_unique l.encoded len enc_bytes (omega arith) (omega arith) l.no_zero l.sums in
      let head : first ≡ 128 + length l.encoded = ground (arith, first-IsByte) in
      record {
        octets = first ∷ l.encoded;
        chosen = unfold length_octets in rw kept (ground arith);
        stands =
            cut
            ∙ ap (◌∷◌ first) (
                ap (λ (k : ℕ). drop k bytes) next_is
                ∙ sym (take-append-drop (first % 128) (drop (n + 1) bytes))
                ∙ rw (is, drop-drop (first % 128) (n + 1) start bytes (omega arith)));
        start_is = omega arith;
      }

  octets_at : read_length true first (n + 1) bytes ≡ ok (len, start) → OctetsAt bytes n len start
  unfolding read_length
  octets_at h = elim (Bool-cases (ltb first 128)) [
    | inl small ↦ octets_short small (ground arith) (ground arith)
    | inr big ↦ octets_long (long_length_inverts first (n + 1) bytes len start (rw big at h)) big
  ]

-- When a strict reader reads a field, the bytes that it passed are exactly the tag, the octets that
-- the writer chooses for the value's length, and the value: no second encoding is accepted, and the
-- reader is left at what follows with its depth, limits and mode unchanged.
pub next_canonical :
    (r s : TlvReader) (t : Tlv)
    → All IsByte r.bytes
    → r.minimal_lengths ≡ true
    → next r ≡ (s, ok (some t))
    → (octets : Bytes) × (length_octets (length t.value) ≡ some octets)
      × (r.bytes ≡ to_bytes t.tag ++ (octets ++ (t.value ++ s.bytes)))
      × (s ≡ record r { bytes = s.bytes })
next_canonical r s t b strict h =
    let (rest, e, s_is) = next_inverts r s t h in
    let f = next_field_inverts r t rest e in
    let o =
      octets_at r.bytes f.tag_len (length t.value) f.start f.first b f.first_read
        (rw strict at f.length_read) in
    let tag_bytes : to_bytes t.tag ≡ take f.tag_len r.bytes =
      to_bytes-from_bytes (take f.tag_len r.bytes) t.tag (All-take IsByte f.tag_len r.bytes b)
        (from_bytes-take r.bytes t.tag f.tag_len f.tag_read) in
    let value_rest : drop f.start r.bytes ≡ t.value ++ rest =
      sym (take-append-drop (length t.value) (drop f.start r.bytes))
      ∙ ap₂ ◌++◌ (sym f.value_read)
          (drop-drop (length t.value) f.start _ r.bytes refl ∙ sym f.rest_is) in
    let s_bytes : s.bytes ≡ rest = ap (λ (x : TlvReader). x.bytes) s_is in
    (
      o.octets,
      o.chosen,
      rw s_bytes (
          sym (take-append-drop f.tag_len r.bytes)
          ∙ ap₂ ◌++◌ (sym tag_bytes) (o.stands ∙ ap (◌++◌ o.octets) value_rest)),
      s_is ∙ ap (λ (x : Bytes). record r { bytes = x }) (sym s_bytes),
    )
