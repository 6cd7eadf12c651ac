-- ===== src/Tlv/Field.antt =====
-- A field at the front of an input: what `next_field` found when it answers.
use libcanokey.Prelude.{
  ℕ, ◌+◌, ◌≤◌, ◌≡◌, refl, ap, [], ◌∷◌, some, arith, Bytes, length, take, drop, false, inl, inr, ltb,
  get_elem?, is_empty,
}
use mathlib.Core.Path.{subst}
use libcanokey.Error.{
  Result-cases, ok-injective, ok, ok_or, malformed, >>=-eq-ok, reject-eq-ok, ok_or-eq-ok,
}
use libcanokey.Tlv.Lengths.{get_range_inverts}
use libcanokey.Tlv.Tags.{parse_tag_bounds}
use libcanokey.Tlv.{
  read_length, get_range, Tag, Tlv, TlvReader, next, next_field, parse_tag, checked,
}

pub record FieldAt (r : TlvReader) (t : Tlv) (rest : Bytes) : Type 0 where
  pub tag_len : ℕ
  pub first : ℕ
  pub start : ℕ
  pub shallow : r.depth ≤ r.limits.max_depth
  pub tag_read : parse_tag r.bytes ≡ ok (t.tag, tag_len)
  pub first_read : get_elem? r.bytes tag_len ≡ some first
  pub length_read :
      read_length r.minimal_lengths first (tag_len + 1) r.bytes ≡ ok (length t.value, start)
  pub small : length t.value ≤ r.limits.max_value_bytes
  pub inside : start + length t.value ≤ length r.bytes
  pub value_read : t.value ≡ take (length t.value) (drop start r.bytes)
  pub rest_is : rest ≡ drop (start + length t.value) r.bytes
  pub inherits :
      (t.depth ≡ r.depth) × (t.limits ≡ r.limits) × (t.minimal_lengths ≡ r.minimal_lengths)

module _ (r : TlvReader) (tag : Tag) (n first len start end : ℕ) (value : Bytes) where
  abbrev found : Tlv
  found = record {
    tag = tag;
    value = value;
    depth = r.depth;
    limits = r.limits;
    minimal_lengths = r.minimal_lengths;
  }

  FieldAt-found :
      ltb r.limits.max_depth r.depth ≡ false
      → parse_tag r.bytes ≡ ok (tag, n)
      → ok_or (get_elem? r.bytes n) malformed ≡ ok first
      → read_length r.minimal_lengths first (n + 1) r.bytes ≡ ok (len, start)
      → ltb r.limits.max_value_bytes len ≡ false
      → checked (start + len) ≡ ok end
      → ok_or (get_range r.bytes start len) malformed ≡ ok value
      → FieldAt r found (drop end r.bytes)
  FieldAt-found shallow tag_read f l small e v =
      let (inside, size, value_is) =
        get_range_inverts r.bytes start len value (ok_or-eq-ok _ _ v) in
      record {
        tag_len = n;
        first = first;
        start = start;
        shallow = ground arith;
        tag_read = tag_read;
        first_read = ok_or-eq-ok _ _ f;
        length_read = rw size l;
        small = ground arith;
        inside = omega arith;
        value_read = rw size value_is;
        rest_is = ap (λ (k : ℕ). drop k r.bytes) (ground arith);
        inherits = (refl, refl, refl);
      }

pub next_field_inverts :
    (r : TlvReader) (t : Tlv) (rest : Bytes) → next_field r ≡ ok (t, rest) → FieldAt r t rest
unfolding next_field
next_field_inverts r t rest h =
    let (shallow, h1) = reject-eq-ok (ltb r.limits.max_depth r.depth) _ _ h in
    let ((tag, n), tag_read, h2) = >>=-eq-ok (parse_tag r.bytes) _ h1 in
    let (first, f, h3) = >>=-eq-ok (ok_or (get_elem? r.bytes n) malformed) _ h2 in
    let ((len, start), l, h4) =
      >>=-eq-ok (read_length r.minimal_lengths first (n + 1) r.bytes) _ h3 in
    let (small, h5) = reject-eq-ok (ltb r.limits.max_value_bytes len) _ _ h4 in
    let (end, e, h6) = >>=-eq-ok (checked (start + len)) _ h5 in
    let (value, v, h7) = >>=-eq-ok (ok_or (get_range r.bytes start len) malformed) _ h6 in
    subst (λ (p : Tlv × Bytes). FieldAt r p.0 p.1) (ok-injective h7)
      (FieldAt-found r tag n first len start end value shallow tag_read f l small e v)

nonempty : (bs : Bytes) → 1 ≤ length bs → is_empty bs ≡ false
nonempty [] h = absurd (omega arith)
nonempty (b ∷ bs) h = refl

-- `next` moves the reader behind the field that `next_field` found.
pub next_of_field :
    (r : TlvReader) (t : Tlv) (rest : Bytes)
    → next_field r ≡ ok (t, rest)
    → next r ≡ (record r { bytes = rest }, ok (some t))
unfolding next
next_of_field r t rest e =
    let f = next_field_inverts r t rest e in
    let (one, four, fits, len, value) = parse_tag_bounds r.bytes t.tag f.tag_len f.tag_read in
    rw (nonempty r.bytes (omega arith), e)

pub next_inverts :
    (r s : TlvReader) (t : Tlv)
    → next r ≡ (s, ok (some t))
    → (rest : Bytes) × (next_field r ≡ ok (t, rest)) × (s ≡ record r { bytes = rest })
unfolding next
next_inverts r s t h = elim (Result-cases (next_field r)) [
  | inl ((u, rest), e) ↦ (rest, ground arith, ground arith)
  | inr (x, e) ↦ absurd (ground arith)
]
