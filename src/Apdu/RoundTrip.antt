-- ===== src/Apdu/RoundTrip.antt =====
-- `CommandApdu::encode` and a card that reads the command.
use libcanokey.Prelude.{
  suc, ◌%◌, ◌/◌, ◌≡◌, refl, ap, ◌∙◌, [], ◌∷◌, ◌++◌, Option, some, arith, Bytes, length,
  take-append_exact, drop-append_exact, false, from_be16,
}
use libcanokey.Error.{ok}
use libcanokey.Apdu.{
  ExpectedLength, absent, exact, ApduEncoding, short, extended, ApduHeader, CommandApdu, encode,
  length_field, expected_field, out_of_range,
}
use libcanokey.Apdu.Encode.{Fits, built, encode_inverts}
use libcanokey.Apdu.Iso7816.{Received, receive, short_body, extended_body}

abbrev meant : ApduHeader → Bytes → ExpectedLength → Option Received
meant h body le = some (record { header = h; body = body; le = le })

module _ (h : ApduHeader) (body : Bytes) where
  short_body_reads :
      (le : ExpectedLength)
      → out_of_range le 256 ≡ false
      → short_body h (length body) (body ++ expected_field short le) ≡ meant h body le
  unfolding short_body expected_field
  short_body_reads absent r =
      rw
        (take-append_exact (length body) body [] refl, drop-append_exact (length body) body [] refl)
        (ground arith)
  short_body_reads (exact n) r =
      rw
        (
          take-append_exact (length body) body ((n % 256) ∷ []) refl,
          drop-append_exact (length body) body ((n % 256) ∷ []) refl,
        )
        (ground arith)

  extended_body_reads :
      (le : ExpectedLength)
      → out_of_range le 65536 ≡ false
      → extended_body h (length body) (body ++ expected_field extended le) ≡ meant h body le
  unfolding extended_body expected_field
  extended_body_reads absent r =
      rw
        (take-append_exact (length body) body [] refl, drop-append_exact (length body) body [] refl)
        (ground arith)
  extended_body_reads (exact n) r =
      rw
        (
          take-append_exact (length body) body (expected_field extended (exact n)) refl,
          drop-append_exact (length body) body (expected_field extended (exact n)) refl,
        )
        (ground arith)

receive-built :
    (h : ApduHeader) (body : Bytes) (le : ExpectedLength) (encoding : ApduEncoding)
    → Fits body le encoding
    → receive (built h body le encoding).bytes ≡ meant h body le
unfolding receive length_field expected_field
receive-built h [] absent short f = refl
receive-built h [] absent extended f = refl
receive-built h [] (exact n) short f = ground (arith, f.le_fits)
receive-built h [] (exact n) extended f = ground (arith, f.le_fits)
receive-built h (b ∷ bs) le short f =
    let e : suc (length bs) % 256 ≡ suc (length bs) = omega (arith, f.body_fits) in
    rw e (short_body_reads h (b ∷ bs) le f.le_fits)
receive-built h (b ∷ bs) le extended f =
    let e : from_be16 (suc (length bs) / 256 % 256) (suc (length bs) % 256) ≡ suc (length bs) =
      omega (arith, f.body_fits) in
    rw e (extended_body_reads h (b ∷ bs) le f.le_fits)

-- For every command that `encode` builds, in either form and with or without data and Le, a card
-- that follows ISO 7816-4 receives exactly the header, the data and the Le that were given.
pub receive-encode :
    (h : ApduHeader) (body : Bytes) (le : ExpectedLength) (encoding : ApduEncoding)
    {c : CommandApdu}
    → encode h body le encoding ≡ ok c
    → receive c.bytes ≡ some (record { header = h; body = body; le = le })
receive-encode h body le encoding e =
    let (f, b) = encode_inverts h body le encoding e in
    ap (λ (x : CommandApdu). receive x.bytes) b ∙ receive-built h body le encoding f
