-- ===== src/Apdu/Encode.antt =====
-- Laws of `CommandApdu::encode` and `corrected` (crates/canokey-protocol/src/apdu.rs).
use libcanokey.Prelude.{
  ℕ, ◌+◌, ◌≤◌, ◌<◌, ◌≡◌, refl, ap, ◌∙◌, [], ◌∷◌, ◌++◌, arith, Bytes, length, take, drop,
  length-append, take-append_exact, drop-append_exact, false,
}
use libcanokey.Error.{ok}
use libcanokey.Apdu.{
  ExpectedLength, absent, exact, ApduEncoding, short, extended, ApduHeader, CommandApdu, encode,
  corrected, max_field, length_field, expected_field, out_of_range, header_bytes,
}

-- The ranges that an encoding can express.
pub record Fits (body : Bytes) (le : ExpectedLength) (encoding : ApduEncoding) : Type 0 where
  pub body_fits : length body < max_field encoding
  pub le_fits : out_of_range le (max_field encoding) ≡ false

-- The command that `encode` builds when its arguments are in range.
abbrev pub built : ApduHeader → Bytes → ExpectedLength → ApduEncoding → CommandApdu
built header body le encoding = record {
  bytes =
      (header_bytes header ++ length_field encoding le body)
      ++ (body ++ expected_field encoding le);
  header = header;
  data_start = length (header_bytes header ++ length_field encoding le body);
  data_len = length body;
  encoding = encoding;
}

pub encode-Fits :
    (header : ApduHeader) (body : Bytes) (le : ExpectedLength) (encoding : ApduEncoding)
    → Fits body le encoding
    → encode header body le encoding ≡ ok (built header body le encoding)
unfolding encode
encode-Fits header body le encoding f = ground (arith, f.body_fits, f.le_fits)

pub encode_inverts :
    (header : ApduHeader) (body : Bytes) (le : ExpectedLength) (encoding : ApduEncoding)
    {c : CommandApdu}
    → encode header body le encoding ≡ ok c
    → Fits body le encoding × (c ≡ built header body le encoding)
unfolding encode
encode_inverts header body le encoding h = ground arith

abbrev pub le_size : ApduEncoding → ExpectedLength → ℕ
le_size encoding absent = 0
le_size short (exact n) = 1
le_size extended (exact n) = 2

length-expected_field :
    (encoding : ApduEncoding) (le : ExpectedLength)
    → length (expected_field encoding le) ≡ le_size encoding le
unfolding expected_field
length-expected_field short absent = refl
length-expected_field extended absent = refl
length-expected_field short (exact n) = refl
length-expected_field extended (exact n) = refl

length-length_field :
    (encoding : ApduEncoding) (le : ExpectedLength) (body : Bytes)
    → length (length_field encoding le body) ≤ 3
unfolding length_field
length-length_field short absent [] = omega arith
length-length_field short (exact n) [] = omega arith
length-length_field extended absent [] = omega arith
length-length_field extended (exact n) [] = omega arith
length-length_field short le (b ∷ bs) = omega arith
length-length_field extended le (b ∷ bs) = omega arith

length-length_field_short :
    (le : ExpectedLength) (body : Bytes) → length (length_field short le body) ≤ 1
unfolding length_field
length-length_field_short le [] = omega arith
length-length_field_short le (b ∷ bs) = omega arith

-- A short command takes at most six bytes beside its data, and five without Le.
pub length-encode_short :
    (header : ApduHeader) (body : Bytes) (le : ExpectedLength) {c : CommandApdu}
    → encode header body le short ≡ ok c
    → length c.bytes ≤ 5 + length body + le_size short le
length-encode_short header body le {c} h =
    let (f, e) = encode_inverts header body le short h in
    omega (
      arith,
      ap (λ (x : CommandApdu). length x.bytes) e,
      length-append (header_bytes header ++ length_field short le body)
          (body ++ expected_field short le),
      length-append (header_bytes header) (length_field short le body),
      length-append body (expected_field short le),
      length-expected_field short le,
      length-length_field_short le body,
    )

-- An encoded command remembers where its data stands: correcting Le of a command that `encode`
-- built is encoding the same header, data and form with the new Le.
pub corrected-encode :
    (header : ApduHeader) (body : Bytes) (le : ExpectedLength) (encoding : ApduEncoding) (n : ℕ)
    {c : CommandApdu}
    → encode header body le encoding ≡ ok c
    → corrected c n ≡ encode header body (exact n) encoding
unfolding corrected
corrected-encode header body le encoding n {c} h =
    let (f, e) = encode_inverts header body le encoding h in
    ap
      (λ (x : CommandApdu).
        encode x.header (take x.data_len (drop x.data_start x.bytes)) (exact n) x.encoding)
      e
    ∙ ap (λ (b : Bytes). encode header b (exact n) encoding) data_part
  where
    front : Bytes
    front = header_bytes header ++ length_field encoding le body

    data_part :
        take (length body) (drop (length front) (front ++ (body ++ expected_field encoding le)))
        ≡ body
    data_part =
        ap (take (length body))
          (drop-append_exact (length front) front (body ++ expected_field encoding le) refl)
        ∙ take-append_exact (length body) body (expected_field encoding le) refl
