-- ===== src/Tlv/Tags.antt =====
-- Tags: what `parse_tag` takes, and the round trips of `Tag::from_bytes` and `Tag::to_bytes`.
use libcanokey.Prelude.{
  ℕ, zero, suc, ◌+◌, ◌-◌, ◌≤◌, ◌<◌, ◌≡◌, refl, ap, ◌∙◌, [], ◌∷◌, ◌++◌, arith, Bytes, IsByte, All,
  length, take, drop, take-append_le, take_all, length-take, false,
}
use libcanokey.Error.{Result, ok, err}
use libcanokey.Tlv.{Tag, tag_value, tag_end, bad_second, parse_tag, from_bytes, to_bytes, be32}

-- The tag end lies behind the start, within four bytes and within the input, and the bytes up to
-- it decide it.
tag_end_bounds :
    (bs : Bytes) (n m : ℕ) → tag_end n bs ≡ ok m → (n < m) × (m ≤ 4) × (m ≤ n + length bs)
unfolding tag_end
tag_end_bounds [] n m h = ground arith
tag_end_bounds (b ∷ bs) n m h = ground (arith, tag_end_bounds bs (n + 1) m)

-- The bytes behind the tag can be cut off.
tag_end-take :
    (bs : Bytes) (n m k : ℕ) → m ≡ n + k → tag_end n bs ≡ ok m → tag_end n (take k bs) ≡ ok m
unfolding tag_end
tag_end-take [] n m k e h = ground arith
tag_end-take (b ∷ bs) n m zero e h = absurd (omega (arith, (tag_end_bounds (b ∷ bs) n m h).0))
tag_end-take (b ∷ bs) n m (suc k) e h = ground (arith, tag_end-take bs (n + 1) m k (omega arith))

-- What stands behind the tag is not looked at.
tag_end-append : (bs more : Bytes) (n m : ℕ) → tag_end n bs ≡ ok m → tag_end n (bs ++ more) ≡ ok m
unfolding tag_end
tag_end-append [] more n m h = ground arith
tag_end-append (b ∷ bs) more n m h = ground (arith, tag_end-append bs more (n + 1) m)

pub parse_tag_bounds :
    (bytes : Bytes) (t : Tag) (n : ℕ)
    → parse_tag bytes ≡ ok (t, n)
    → (1 ≤ n) × (n ≤ 4) × (n ≤ length bytes) × (t.len ≡ n) × (t.value ≡ tag_value 0 (take n bytes))
unfolding parse_tag
parse_tag_bounds [] t n h = ground arith
parse_tag_bounds (first ∷ rest) t n h = ground (arith, tag_end_bounds rest 1 n)

be32_value :
    (bs : Bytes)
    → All IsByte bs
    → 1 ≤ length bs
    → length bs ≤ 4
    → drop (4 - length bs) (be32 (tag_value 0 bs)) ≡ bs
unfolding tag_value
be32_value [] h p q = absurd (omega arith)
be32_value (a ∷ []) h p q = ground arith
be32_value (a ∷ b ∷ []) h p q = ground arith
be32_value (a ∷ b ∷ c ∷ []) h p q = ground arith
be32_value (a ∷ b ∷ c ∷ d ∷ []) h p q = ground arith
be32_value (a ∷ b ∷ c ∷ d ∷ e ∷ r) h p q = absurd (omega arith)

pub from_bytes_inverts :
    (bytes : Bytes) (t : Tag) → from_bytes bytes ≡ ok t → parse_tag bytes ≡ ok (t, length bytes)
unfolding from_bytes
from_bytes_inverts bytes t e = from_parsed (parse_tag bytes) refl
  where
    from_parsed :
        (r : Result (Tag × ℕ)) → parse_tag bytes ≡ r → parse_tag bytes ≡ ok (t, length bytes)
    from_parsed (err x) p = cc
    from_parsed (ok (u, n)) p = ground arith

-- Reading a tag and writing it gives the bytes that were read.
pub to_bytes-from_bytes :
    (bytes : Bytes) (t : Tag) → All IsByte bytes → from_bytes bytes ≡ ok t → to_bytes t ≡ bytes
unfolding to_bytes
to_bytes-from_bytes bytes t h e =
    let (one, four, fits, len, value) =
      parse_tag_bounds bytes t (length bytes) (from_bytes_inverts bytes t e) in
    let value' : t.value ≡ tag_value 0 bytes =
      value ∙ ap (tag_value 0) (take_all (length bytes) bytes (omega arith)) in
    rw (len, value') (be32_value bytes h one four)

bad_second-append : (bs more : Bytes) → bad_second bs ≡ false → bad_second (bs ++ more) ≡ false
bad_second-append [] more h = ground arith
bad_second-append (b ∷ bs) more h = h

-- A tag that stands at the front of any input is found there.
pub parse_tag-append :
    (bytes more : Bytes) (t : Tag) (n : ℕ)
    → parse_tag bytes ≡ ok (t, n)
    → parse_tag (bytes ++ more) ≡ ok (t, n)
unfolding parse_tag
parse_tag-append [] more t n e = ground arith
parse_tag-append (first ∷ rest) more t n e = ground (
  arith,
  tag_end-append rest more 1 n,
  tag_end_bounds rest 1 n,
  take-append_le n (first ∷ rest) more,
  bad_second-append rest more,
)

bad_second-take :
    (bs : Bytes) (k : ℕ) → bad_second bs ≡ false → bad_second (take (suc k) bs) ≡ false
bad_second-take [] k h = cc
bad_second-take (b ∷ bs) k h = h

parse_tag-take :
    (bytes : Bytes) (t : Tag) (n : ℕ)
    → parse_tag bytes ≡ ok (t, n)
    → parse_tag (take n bytes) ≡ ok (t, n)
unfolding parse_tag
parse_tag-take [] t n e = ground arith
parse_tag-take (first ∷ rest) t zero e =
    absurd (omega (arith, (parse_tag_bounds (first ∷ rest) t 0 e).0))
parse_tag-take (first ∷ rest) t (suc zero) e = ground (arith, tag_end_bounds rest 1 1)
parse_tag-take (first ∷ rest) t (suc (suc n)) e = ground (
  arith,
  tag_end_bounds rest 1 (suc (suc n)),
  tag_end-take rest 1 (suc (suc n)) (suc n) (omega arith),
  bad_second-take rest n,
  take_all (suc n) (take (suc n) rest) (omega (arith, length-take (suc n) rest)),
)

-- The bytes of the tag that stands at the front of an input are that tag.
pub from_bytes-take :
    (bytes : Bytes) (t : Tag) (n : ℕ)
    → parse_tag bytes ≡ ok (t, n)
    → from_bytes (take n bytes) ≡ ok t
unfolding from_bytes
from_bytes-take bytes t n e =
    let bounds = parse_tag_bounds bytes t n e in
    rw (parse_tag-take bytes t n e) (ground (arith, length-take n bytes))
