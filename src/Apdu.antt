-- ===== src/Apdu.antt =====
-- crates/canokey-protocol/src/apdu.rs: physical ISO 7816 command encoding and response parsing.
-- Bytes are numbers below 256 and a `SecretBytes` is its byte string; zeroizing is not modelled.
pub mod Iso7816
pub mod Encode
pub mod RoundTrip
pub mod Ranges
pub mod Refusal
pub mod Response
mod Tests
use libcanokey.Prelude.{
  ℕ, ◌+◌, ◌-◌, ◌%◌, ◌==◌, Bool, true, false, ◌||◌, List, [], ◌∷◌, ◌++◌, Option, none, some,
  get_elem?, take, drop, length, is_empty, leb, ltb, if◌then◌else◌, Bytes, be16, from_be16,
}
use libcanokey.Error
use libcanokey.Error.{Result, ok, err, ◌>>=◌, ok_or, malformed, invalid_argument}

-- `StatusWord::is_success`.
abbrev pub is_success : ℕ → Bool
is_success sw = sw == 0x9000

pub data ExpectedLength : Type 0 where
  absent : ExpectedLength
  exact : ℕ → ExpectedLength

pub data ApduEncoding : Type 0 where
  short extended : ApduEncoding

pub record ApduHeader : Type 0 where
  pub cla : ℕ
  pub ins : ℕ
  pub p1 : ℕ
  pub p2 : ℕ

pub record CommandApdu : Type 0 where
  pub bytes : Bytes
  pub header : ApduHeader
  pub data_start : ℕ
  pub data_len : ℕ
  pub encoding : ApduEncoding

abbrev pub max_field : ApduEncoding → ℕ
max_field short = 256
max_field extended = 65536

-- `matches!(le, ExpectedLength::Exact(n) if n == 0 || n > max)`.
abbrev pub out_of_range : ExpectedLength → ℕ → Bool
out_of_range absent top = false
out_of_range (exact n) top = n == 0 || ltb top n

abbrev pub header_bytes : ApduHeader → Bytes
header_bytes h = h.cla ∷ h.ins ∷ h.p1 ∷ h.p2 ∷ []

-- What stands between the header and the data: Lc, or the zero byte that announces an extended Le.
unfoldable pub length_field : ApduEncoding → ExpectedLength → Bytes → Bytes
length_field short le [] = []
length_field extended absent [] = []
length_field extended (exact n) [] = 0 ∷ []
length_field short le (b ∷ bs) = (length (b ∷ bs) % 256) ∷ []
length_field extended le (b ∷ bs) = 0 ∷ be16 (length (b ∷ bs))

unfoldable pub expected_field : ApduEncoding → ExpectedLength → Bytes
expected_field encoding absent = []
expected_field short (exact n) = (n % 256) ∷ []
expected_field extended (exact n) = be16 n

-- `CommandApdu::encode`.
unfoldable pub encode : ApduHeader → Bytes → ExpectedLength → ApduEncoding → Result CommandApdu
unfolding length_field expected_field
encode header body le encoding =
    if leb (max_field encoding) (length body) || out_of_range le (max_field encoding)
    then err (Error.new invalid_argument)
    else let front = header_bytes header ++ length_field encoding le body in
      ok (record {
        bytes = front ++ (body ++ expected_field encoding le);
        header = header;
        data_start = length front;
        data_len = length body;
        encoding = encoding;
      })

-- `CommandApdu::corrected`: the same command with another Le.
unfoldable pub corrected : CommandApdu → ℕ → Result CommandApdu
corrected c le = encode c.header (take c.data_len (drop c.data_start c.bytes)) (exact le) c.encoding

pub record ResponseApdu : Type 0 where
  pub body : Bytes
  pub status : ℕ

-- `ResponseApdu::parse`; both reads lie inside the input once it has two bytes.
unfoldable pub parse : Bytes → Result ResponseApdu
parse bytes = if ltb (length bytes) 2 then err malformed else do
  let n = length bytes
  hi ← ok_or (get_elem? bytes (n - 2)) malformed
  lo ← ok_or (get_elem? bytes (n - 1)) malformed
  ok (record { body = take (n - 2) bytes; status = from_be16 hi lo })
