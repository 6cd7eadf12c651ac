-- ===== src/Apdu/Tests.antt =====
-- Runs of the APDU codec, and the theorems at concrete inputs.
use libcanokey.Prelude.{◌≡◌, ◌⊎◌, ◌<◌, refl, some, [], ◌∷◌, ◌++◌, ℕ, Bytes, from_be16, arith}
use libcanokey.Error
use libcanokey.Error.{ok, err, malformed, invalid_argument}
use libcanokey.Apdu.{
  ApduHeader, CommandApdu, absent, exact, short, extended, encode, corrected, parse,
}
use libcanokey.Apdu.Iso7816.{receive, short_body}
use libcanokey.Apdu.Encode.{corrected-encode, built}
use libcanokey.Apdu.RoundTrip.{receive-encode}
use libcanokey.Apdu.Refusal.{IsCommandFor, encode-IsCommandFor}
use libcanokey.Apdu.Response.{parse_total}

abbrev header : ApduHeader
header = record { cla = 0x00; ins = 0xa4; p1 = 0x04; p2 = 0x00 }

sent :
    receive (0x00 ∷ 0xa4 ∷ 0x04 ∷ 0x00 ∷ 2 ∷ 1 ∷ 2 ∷ 0 ∷ [])
    ≡ some (record { header = header; body = 1 ∷ 2 ∷ []; le = exact 256 })
unfolding receive short_body
sent = refl

receive-encode_example :
    receive (built header (1 ∷ 2 ∷ []) (exact 256) short).bytes
    ≡ some (record { header = header; body = 1 ∷ 2 ∷ []; le = exact 256 })
unfolding encode
receive-encode_example = receive-encode header (1 ∷ 2 ∷ []) (exact 256) short refl

-- A short command cannot ask for 257 bytes, nor for none.
too_much : encode header (1 ∷ 2 ∷ []) (exact 257) short ≡ err (Error.new invalid_argument)
unfolding encode
too_much = refl

nothing_asked : encode header [] (exact 0) extended ≡ err (Error.new invalid_argument)
unfolding encode
nothing_asked = refl

encode-IsCommandFor_example :
    ((c : CommandApdu) × (encode header (1 ∷ 2 ∷ []) (exact 257) short ≡ ok c)
      × IsCommandFor header (1 ∷ 2 ∷ []) (exact 257) short c.bytes)
    ⊎ ((encode header (1 ∷ 2 ∷ []) (exact 257) short ≡ err (Error.new invalid_argument))
        × (¬ ((bytes : Bytes) × IsCommandFor header (1 ∷ 2 ∷ []) (exact 257) short bytes)))
encode-IsCommandFor_example =
    encode-IsCommandFor header (1 ∷ 2 ∷ []) (exact 257) short
      (omega arith, (omega arith, (omega arith, (omega arith, tt))))
      (omega arith, (omega arith, tt))

corrected-encode_example :
    corrected (built header (1 ∷ 2 ∷ []) absent extended) 16
    ≡ encode header (1 ∷ 2 ∷ []) (exact 16) extended
unfolding encode
corrected-encode_example = corrected-encode header (1 ∷ 2 ∷ []) absent extended 16 refl

parse_total_example :
    ((3 < 2) × (parse (7 ∷ 0x90 ∷ 0 ∷ []) ≡ err malformed))
    ⊎ ((body : Bytes) × (hi : ℕ) × (lo : ℕ) × (7 ∷ 0x90 ∷ 0 ∷ [] ≡ body ++ (hi ∷ lo ∷ []))
        × (parse (7 ∷ 0x90 ∷ 0 ∷ []) ≡ ok (record { body = body; status = from_be16 hi lo })))
parse_total_example = parse_total (7 ∷ 0x90 ∷ 0 ∷ [])
