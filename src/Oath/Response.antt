-- ===== src/Oath/Response.antt =====
-- crates/canokey-oath/src/execute.rs: what is read from the card: `selection`, `calculation`, `result`.
-- Every error here is the same malformed response, so a check that the source makes on a whole list
-- first may be met at the element that fails it.
use libcanokey.Prelude.{
  ℕ, ◌/◌, ◌%◌, ◌==◌, Bool, true, false, not, ◌&&◌, ◌||◌, List, [], ◌∷◌, Option, none, some, is_some,
  is_empty, leb, if◌then◌else◌, length, Bytes,
}
use libcanokey.Error.{Result, ok, err, ◌>>=◌, ◌>>◌, reject, ok_or, malformed}
use libcanokey.Oath.{
  name_from_bytes, Algorithm, algorithm_len, Selection, Format, is_truncated, Request, calculate,
  calculate_all, challenge_response_hmac, Entry, Code, truncated_code, full_code, hotp_marker,
  touch_required, Calculation, Outcome,
}
use libcanokey.Oath.Fields.{Field, fields}

-- What `selection` has seen so far.
pub record Seen : Type 0 where
  pub version : Option Bytes
  pub handle : Option Bytes
  pub challenge : Option Bytes
  pub algorithm : Option ℕ

-- `try_into` of an array.
abbrev pub sized : ℕ → Bytes → Result Bytes
sized n bytes = if length bytes == n then ok bytes else err malformed

abbrev pub only_byte : Bytes → Result ℕ
only_byte (b ∷ []) = ok b
only_byte _ = err malformed

-- The `match` of the loop of `selection`.
unfoldable pub see_field : Seen → Field → Result Seen
see_field s (tag, bytes) =
    if tag == 0x79
    then (do
      reject (is_some s.version) malformed
      v ← sized 3 bytes
      ok (record s { version = some v }))
    else if tag == 0x71
    then (do
      reject (is_some s.handle) malformed
      h ← sized 8 bytes
      ok (record s { handle = some h }))
    else if tag == 0x74
    then (do
      reject (is_some s.challenge) malformed
      c ← sized 8 bytes
      ok (record s { challenge = some c }))
    else if tag == 0x7b
    then (do
      reject (is_some s.algorithm) malformed
      a ← only_byte bytes
      ok (record s { algorithm = some a }))
    else ok s

unfoldable pub see_fields : Seen → List Field → Result Seen
see_fields s [] = ok s
see_fields s (f ∷ fs) = do s' ← see_field s f; see_fields s' fs

abbrev pub nothing_seen : Seen
nothing_seen = record { version = none; handle = none; challenge = none; algorithm = none }

abbrev pub differs : Bool → Bool → Bool
differs true b = not b
differs false b = b

-- `selection`.
unfoldable pub read_selection : Bytes → Result Selection
read_selection bytes = do
  fs ← fields bytes
  s ← see_fields nothing_seen fs
  reject (differs (is_some s.challenge) (is_some s.algorithm)) malformed
  v ← ok_or s.version malformed
  h ← ok_or s.handle malformed
  ok (record {
    version = v;
    handle = h;
    challenge = s.challenge;
    algorithm = s.algorithm;
    raw = bytes;
  })

abbrev pub high_bit : Bytes → Bool
high_bit [] = false
high_bit (b ∷ bs) = b / 128 % 2 == 1

abbrev pub full_length : Option Algorithm → ℕ → Bool
full_length none n = n == 20 || (n == 32 || n == 64)
full_length (some a) n = algorithm_len a == n

-- The `match` of `calculation`.
unfoldable pub read_code : ℕ → Bytes → Format → Option Algorithm → Bool → Result Code
read_code tag bytes format algorithm markers =
    if tag == 0x76 && (is_truncated format && (length bytes == 4 && not (high_bit bytes)))
    then ok (truncated_code bytes)
    else if tag == 0x75 && (not (is_truncated format) && full_length algorithm (length bytes))
    then ok (full_code bytes)
    else if tag == 0x77 && (markers && is_empty bytes)
    then ok hotp_marker
    else if tag == 0x7c && (markers && is_empty bytes)
    then ok touch_required
    else err malformed

-- `calculation`.
unfoldable pub read_calculation : ℕ → Bytes → Format → Option Algorithm → Bool → Result Calculation
read_calculation tag [] format algorithm markers = err malformed
read_calculation tag (digits ∷ bytes) format algorithm markers = do
  reject (not (leb 4 digits && leb digits 8)) malformed
  code ← read_code tag bytes format algorithm markers
  ok (record { name = none; digits = digits; code = code })

-- `.map_err(|_| invalid())`.
abbrev pub or_malformed {ℓ} : {A : Type ℓ} → Result A → Result A
or_malformed (ok a) = ok a
or_malformed (err e) = err malformed

abbrev pub legacy_kind : Bytes → Result (ℕ × ℕ)
legacy_kind (kind ∷ digits ∷ []) = ok (kind, digits)
legacy_kind _ = err malformed

-- The loop over pairs of the legacy list.
unfoldable pub legacy_entries : List Field → Result (List Entry)
legacy_entries [] = ok []
legacy_entries (f ∷ []) = err malformed
legacy_entries ((t, name) ∷ (u, kind) ∷ fs) = do
  reject (not (t == 0x71) || not (u == 0x75)) malformed
  k ← legacy_kind kind
  n ← or_malformed (name_from_bytes name)
  es ← legacy_entries fs
  ok (record { name = n; algorithm_type = k.0; digits = some k.1 } ∷ es)

abbrev pub listed : ℕ → Bytes → Result Entry
listed tag (kind ∷ b ∷ bs) = do
  reject (not (tag == 0x72)) malformed
  n ← or_malformed (name_from_bytes (b ∷ bs))
  ok (record { name = n; algorithm_type = kind; digits = none })
listed tag _ = err malformed

unfoldable pub modern_entries : List Field → Result (List Entry)
modern_entries [] = ok []
modern_entries ((tag, bytes) ∷ fs) = do e ← listed tag bytes; es ← modern_entries fs; ok (e ∷ es)

abbrev pub single_calculation : Format → Algorithm → List Field → Result (List Calculation)
single_calculation format algorithm ((tag, bytes) ∷ []) = do
  c ← read_calculation tag bytes format (some algorithm) false
  ok (c ∷ [])
single_calculation format algorithm _ = err malformed

unfoldable pub all_calculations : Format → List Field → Result (List Calculation)
all_calculations format [] = ok []
all_calculations format (f ∷ []) = err malformed
all_calculations format ((t, name) ∷ (tag, bytes) ∷ fs) = do
  reject (not (t == 0x71)) malformed
  c ← read_calculation tag bytes format none true
  n ← or_malformed (name_from_bytes name)
  cs ← all_calculations format fs
  ok (record c { name = some n } ∷ cs)

abbrev pub acknowledged : Bytes → Result Outcome
acknowledged bytes = if is_empty bytes then ok Outcome.unit else err malformed

-- `result`.
unfoldable pub read_result : Request → Bytes → Bool → Result Outcome
unfolding legacy_entries modern_entries all_calculations
read_result Request.list bytes legacy = do
  fs ← fields bytes
  es ← if legacy then legacy_entries fs else modern_entries fs
  ok (Outcome.entries es)
read_result (calculate name kind algorithm challenge format) bytes legacy = do
  fs ← fields bytes
  cs ← single_calculation format algorithm fs
  ok (Outcome.calculations cs)
read_result (calculate_all challenge format) bytes legacy = do
  fs ← fields bytes
  cs ← all_calculations format fs
  ok (Outcome.calculations cs)
read_result Request.get_serial bytes legacy = do s ← sized 4 bytes; ok (Outcome.serial s)
read_result (challenge_response_hmac slot challenge) bytes legacy = do
  s ← sized 20 bytes
  ok (Outcome.challenge_response s)
read_result _ bytes legacy = acknowledged bytes
