-- ===== src/Ctap/DataTests.antt =====
-- Runs of the COSE keys and of the authenticator data at concrete inputs.
use libcanokey.Prelude.{
  ℕ, zero, suc, ◌≡◌, refl, Bool, true, ◌&&◌, [], ◌∷◌, ◌++◌, none, some, ltb, Bytes, IsByte, All,
  All-append, arith,
}
use libcanokey.Error.{ok}
use libcanokey.Ctap.Cbor.{text, map, boolean, entry, end}
use libcanokey.Ctap.Cbor.Parse.{parse_item, contains}
use libcanokey.Ctap.Cbor.Encode.{encode, head}
use libcanokey.Ctap.Cose.{CoseKey, ed25519_key, from_value, to_value}
use libcanokey.Ctap.CoseLaws.{from_value-to_value, from_value-IsAccepted, IsAccepted}
use libcanokey.Ctap.AuthData.{AuthenticatorData, parse_auth_data}
use libcanokey.Ctap.AuthDataLaws.{parse_auth_data-IsLayout, IsLayout}

abbrev zeros : ℕ → Bytes
zeros zero = []
zeros (suc n) = 0 ∷ zeros n

abbrev small_key : CoseKey
small_key = ed25519_key (zeros 32)

from_value-to_value_example : from_value (to_value small_key) ≡ ok small_key
from_value-to_value_example = from_value-to_value small_key refl

from_value-IsAccepted_example : IsAccepted (to_value small_key) small_key
from_value-IsAccepted_example =
    from_value-IsAccepted (to_value small_key) small_key (from_value-to_value small_key refl)

abbrev ascii : Bytes → Bool
ascii [] = true
ascii (b ∷ bs) = ltb b 128 && ascii bs

-- User presence and extensions {"A": true}, with the counter 5.
abbrev small_tail : Bytes
small_tail = 0x81 ∷ 0 ∷ 0 ∷ 0 ∷ 5 ∷ 0xa1 ∷ 0x61 ∷ 0x41 ∷ 0xf5 ∷ []

abbrev small_bytes : Bytes
small_bytes = zeros 32 ++ small_tail

abbrev small_data : AuthenticatorData
small_data = record {
  raw = small_bytes;
  rp_id_hash = zeros 32;
  flags = 0x81;
  sign_count = 5;
  attested_credential_data = none;
  extensions = some (map (entry (text (0x41 ∷ [])) (boolean true) end));
}

parse_small : parse_auth_data ascii small_bytes ≡ ok small_data
unfolding parse_auth_data parse_item contains encode head
parse_small = refl

zeros-All : (n : ℕ) → All IsByte (zeros n)
zeros-All zero = tt
zeros-All (suc n) = (omega arith, zeros-All n)

parse_auth_data-IsLayout_example : IsLayout ascii small_bytes small_data
parse_auth_data-IsLayout_example =
    parse_auth_data-IsLayout ascii small_bytes small_data
      (All-append IsByte (zeros 32) small_tail (zeros-All 32) (
        omega arith,
        (
          omega arith,
          (
            omega arith,
            (
              omega arith,
              (omega arith, (omega arith, (omega arith, (omega arith, (omega arith, tt))))),
            ),
          ),
        ),
      ))
      parse_small
