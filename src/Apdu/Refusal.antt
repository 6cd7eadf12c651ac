-- ===== src/Apdu/Refusal.antt =====
-- What `CommandApdu::encode` (crates/canokey-protocol/src/apdu.rs) refuses, held against a card's
-- reading of ISO 7816-4.
use libcanokey.Prelude.{
  suc, ◌%◌, ◌≡◌, refl, ◌⊎◌, inl, inr, true, ◌||◌, [], ◌∷◌, ◌++◌, some, arith, All, IsByte,
  All-append, Bool-cases, Bytes, length, leb,
}
use libcanokey.Error
use libcanokey.Error.{ok, err, invalid_argument}
use libcanokey.Apdu.{
  ExpectedLength, absent, exact, ApduEncoding, short, extended, ApduHeader, CommandApdu, encode,
  max_field, out_of_range, header_bytes, length_field, expected_field,
}
use libcanokey.Apdu.Encode.{Fits, built, encode-Fits}
use libcanokey.Apdu.Iso7816.{receive}
use libcanokey.Apdu.RoundTrip.{receive-encode}
use libcanokey.Apdu.Ranges.{IsForm, receive_range}

length_field-IsByte :
    (encoding : ApduEncoding) (le : ExpectedLength) (body : Bytes)
    → All IsByte (length_field encoding le body)
unfolding length_field
length_field-IsByte short le [] = tt
length_field-IsByte extended absent [] = tt
length_field-IsByte extended (exact n) [] = (omega arith, tt)
length_field-IsByte short le (b ∷ bs) = (omega arith, tt)
length_field-IsByte extended le (b ∷ bs) = (omega arith, (omega arith, (omega arith, tt)))

expected_field-IsByte :
    (encoding : ApduEncoding) (le : ExpectedLength) → All IsByte (expected_field encoding le)
unfolding expected_field
expected_field-IsByte short absent = tt
expected_field-IsByte extended absent = tt
expected_field-IsByte short (exact n) = (omega arith, tt)
expected_field-IsByte extended (exact n) = (omega arith, (omega arith, tt))

built-IsForm :
    (h : ApduHeader) (body : Bytes) (le : ExpectedLength) (encoding : ApduEncoding)
    → Fits body le encoding
    → IsForm encoding (built h body le encoding).bytes
unfolding length_field expected_field
built-IsForm h [] absent short f = refl
built-IsForm h [] (exact n) short f = ground arith
built-IsForm h [] absent extended f = inr refl
built-IsForm h [] (exact n) extended f = inl refl
built-IsForm h (b ∷ bs) le short f =
    let e : suc (length bs) % 256 ≡ suc (length bs) = omega (arith, f.body_fits) in rw e refl
built-IsForm h (b ∷ bs) le extended f = inl refl

-- A command in the form that a card understands as this header, this data and this Le.
pub record IsCommandFor (h : ApduHeader) (body : Bytes) (le : ExpectedLength)
    (encoding : ApduEncoding) (bytes : Bytes) : Type 0 where
  pub octets : All IsByte bytes
  pub form : IsForm encoding bytes
  pub received : receive bytes ≡ some (record { header = h; body = body; le = le })

module _ (h : ApduHeader) (body : Bytes) (le : ExpectedLength) (encoding : ApduEncoding) where
  command_Fits : (bytes : Bytes) → IsCommandFor h body le encoding bytes → Fits body le encoding
  command_Fits bytes x =
      let (b, l) =
        receive_range encoding bytes (record { header = h; body = body; le = le }) x.octets x.form
          x.received in
      record { body_fits = b; le_fits = l }

  built-IsCommandFor :
      All IsByte (header_bytes h)
      → All IsByte body
      → Fits body le encoding
      → IsCommandFor h body le encoding (built h body le encoding).bytes
  built-IsCommandFor hs bs f =
      let front = header_bytes h ++ length_field encoding le body in
      record {
        octets =
            All-append IsByte front (body ++ expected_field encoding le)
              (All-append IsByte (header_bytes h) (length_field encoding le body) hs
                (length_field-IsByte encoding le body))
              (All-append IsByte body (expected_field encoding le) bs
                (expected_field-IsByte encoding le));
        form = built-IsForm h body le encoding f;
        received = receive-encode h body le encoding (encode-Fits h body le encoding f);
      }

  -- `encode` by whether its arguments are in the ranges.
  encode_cases :
      Fits body le encoding
      ⊎ ((encode h body le encoding ≡ err (Error.new invalid_argument)) × (¬ Fits body le encoding))
  unfolding encode
  encode_cases =
      elim (Bool-cases
        (leb (max_field encoding) (length body) || out_of_range le (max_field encoding))) [
          | inl out ↦ inr (rw out refl, λ f. out_unfit out f)
          | inr within ↦ inl (record { body_fits = ground arith; le_fits = ground arith })
        ]
    where
      out_unfit :
          (leb (max_field encoding) (length body) || out_of_range le (max_field encoding)) ≡ true
          → ¬ Fits body le encoding
      out_unfit out f = ground (arith, f.body_fits, f.le_fits)

  -- For a header and data made of bytes, `encode` either gives a command in the form that a card
  -- understands, by ISO 7816-4, as this header, data and Le; or it fails with an invalid argument,
  -- and no byte string at all is such a command.
  pub encode-IsCommandFor :
      All IsByte (header_bytes h)
      → All IsByte body
      → ((c : CommandApdu) × (encode h body le encoding ≡ ok c)
          × IsCommandFor h body le encoding c.bytes)
        ⊎ ((encode h body le encoding ≡ err (Error.new invalid_argument))
            × (¬ ((bytes : Bytes) × IsCommandFor h body le encoding bytes)))
  encode-IsCommandFor hs bs = elim encode_cases [
    | inl f ↦
        inl (built h body le encoding, encode-Fits h body le encoding f, built-IsCommandFor hs bs f)
    | inr (refused, unfit) ↦ inr (refused, λ p. unfit (command_Fits p.0 p.1))
  ]
