-- ===== src/Tlv.antt =====
-- crates/canokey-protocol/src/tlv.rs: bounded, definite-length BER TLV. A byte slice is a list of
-- numbers below 256; a `usize` has 64 bits. The reader keeps what it has not read yet.
pub mod Tags
pub mod Bounds
pub mod Canonical
pub mod RoundTrip
pub mod Field
pub mod Lengths
mod Tests
use libcanokey.Prelude.{
  ℕ, zero, suc, ◌+◌, ◌-◌, ◌*◌, ◌/◌, ◌%◌, ◌^◌, ◌==◌, Bool, true, false, not, ◌&&◌, ◌||◌, List, [],
  ◌∷◌, ◌++◌, Option, none, some, get_elem?, take, drop, length, is_empty, leb, ltb, if◌then◌else◌,
  Bytes,
}
use libcanokey.Error
use libcanokey.Error.{Result, ok, err, ◌>>=◌, ◌>>◌, reject, ok_or, malformed, limit_exceeded}

pub record Tag : Type 0 where
  pub value : ℕ
  pub len : ℕ

-- The `fold` of `parse_tag`, on a u32.
unfoldable pub tag_value : ℕ → Bytes → ℕ
tag_value acc [] = acc
tag_value acc (b ∷ bs) = tag_value (acc * 256 % 2 ^ 32 + b) bs

-- The `loop` of `parse_tag` at position `n`; the list is what stands from there on.
unfoldable pub tag_end : ℕ → Bytes → Result ℕ
tag_end n [] = err malformed
tag_end n (b ∷ bs) =
    if ltb 4 (n + 1)
    then err malformed
    else if b / 128 % 2 == 0
    then ok (n + 1)
    else tag_end (n + 1) bs

-- `bytes.get(1).is_none_or(|v| v & 127 == 0)`, on the list from position 1 on.
abbrev pub bad_second : Bytes → Bool
bad_second [] = true
bad_second (b ∷ bs) = b % 128 == 0

-- The number of bytes of the tag that starts with `first`.
unfoldable pub tag_size : ℕ → Bytes → Result ℕ
unfolding tag_end
tag_size first rest =
    if first % 32 == 31 then (do reject (bad_second rest) malformed; tag_end 1 rest) else ok 1

unfoldable pub parse_tag : Bytes → Result (Tag × ℕ)
unfolding tag_size
parse_tag [] = err malformed
parse_tag (first ∷ rest) = do
  reject (first == 0 || first == 0xff) malformed
  n ← tag_size first rest
  ok (record { value = tag_value 0 (take n (first ∷ rest)); len = n % 256 }, n)

-- `Tag::from_bytes`.
unfoldable pub from_bytes : Bytes → Result Tag
unfolding parse_tag
from_bytes bytes = do (tag, n) ← parse_tag bytes; reject (not (n == length bytes)) malformed; ok tag

-- `u32::to_be_bytes`.
abbrev pub be32 : ℕ → Bytes
be32 n = (n / 16777216 % 256) ∷ (n / 65536 % 256) ∷ (n / 256 % 256) ∷ (n % 256) ∷ []

-- `Tag::to_bytes`.
unfoldable pub to_bytes : Tag → Bytes
to_bytes t = drop (4 - t.len) (be32 t.value)

pub record TlvLimits : Type 0 where
  pub max_value_bytes : ℕ
  pub max_depth : ℕ

pub record Tlv : Type 0 where
  pub tag : Tag
  pub value : Bytes
  pub depth : ℕ
  pub limits : TlvLimits
  pub minimal_lengths : Bool

pub record TlvReader : Type 0 where
  pub bytes : Bytes
  pub depth : ℕ
  pub limits : TlvLimits
  pub minimal_lengths : Bool

-- `Tlv::children`.
unfoldable pub children : Tlv → Result TlvReader
children t =
    if leb t.limits.max_depth t.depth
    then err (Error.new limit_exceeded)
    else ok (record {
      bytes = t.value;
      depth = t.depth + 1;
      limits = t.limits;
      minimal_lengths = t.minimal_lengths;
    })

-- `TlvReader::new` and `TlvReader::new_ber`.
abbrev pub new : Bytes → TlvLimits → TlvReader
new bytes limits = record { bytes = bytes; depth = 1; limits = limits; minimal_lengths = true }

abbrev pub new_ber : Bytes → TlvLimits → TlvReader
new_ber bytes limits = record (new bytes limits) { minimal_lengths = false }

-- A `usize` result of `checked_mul` or `checked_add`.
abbrev pub checked : ℕ → Result ℕ
checked n = if ltb n (2 ^ 64) then ok n else err malformed

-- The `for b in encoded` loop of `next`.
unfoldable pub sum_length : ℕ → Bytes → Result ℕ
sum_length len [] = ok len
sum_length len (b ∷ bs) = do
  scaled ← checked (len * 256)
  next ← checked (scaled + b)
  sum_length next bs

-- `bytes.get(from..from + n)`.
abbrev pub get_range : Bytes → ℕ → ℕ → Option Bytes
get_range bytes from n =
    if leb (from + n) (length bytes) then some (take n (drop from bytes)) else none

abbrev pub starts_with_zero : Bytes → Bool
starts_with_zero [] = false
starts_with_zero (b ∷ bs) = b == 0

-- The long form of a length: `first` is its first byte and `offset` stands behind it.
unfoldable pub long_length : Bool → ℕ → ℕ → Bytes → Result (ℕ × ℕ)
long_length minimal first offset bytes = do
  let n = first % 128
  reject (n == 0 || ltb 4 n) malformed
  encoded ← ok_or (get_range bytes offset n) malformed
  reject (minimal && starts_with_zero encoded) malformed
  len ← sum_length 0 encoded
  reject (minimal && ltb len 128) malformed
  ok (len, offset + n)

unfoldable pub read_length : Bool → ℕ → ℕ → Bytes → Result (ℕ × ℕ)
read_length minimal first offset bytes =
    if ltb first 128 then ok (first, offset) else long_length minimal first offset bytes

-- `TlvReader::next` behind its test for the end of the input: the field and what follows it.
unfoldable pub next_field : TlvReader → Result (Tlv × Bytes)
unfolding parse_tag read_length
next_field r = do
  reject (ltb r.limits.max_depth r.depth) (Error.new limit_exceeded)
  (tag, offset) ← parse_tag r.bytes
  first ← ok_or (get_elem? r.bytes offset) malformed
  (len, start) ← read_length r.minimal_lengths first (offset + 1) r.bytes
  reject (ltb r.limits.max_value_bytes len) (Error.new limit_exceeded)
  end ← checked (start + len)
  value ← ok_or (get_range r.bytes start len) malformed
  ok (
    record {
      tag = tag;
      value = value;
      depth = r.depth;
      limits = r.limits;
      minimal_lengths = r.minimal_lengths;
    },
    drop end r.bytes,
  )

-- `TlvReader::next`: the reader afterwards, and the result.
unfoldable pub next : TlvReader → TlvReader × Result (Option Tlv)
next r = if is_empty r.bytes then (r, ok none) else elim (next_field r) [
  | err e ↦ (r, err e)
  | ok (t, rest) ↦ (record r { bytes = rest }, ok (some t))
]

pub record TlvWriter : Type 0 where
  pub bytes : Bytes
  pub limit : ℕ

-- `bytes[start..]` where `start` is the position of the first byte that is not 0, or 3.
unfoldable pub significant : Bytes → Bytes
significant [] = []
significant (b ∷ []) = b ∷ []
significant (b ∷ c ∷ bs) = if b == 0 then significant (c ∷ bs) else b ∷ c ∷ bs

-- The length octets of `TlvWriter::push`; `None` where the length is no u32.
unfoldable pub length_octets : ℕ → Option Bytes
length_octets n =
    if ltb n 128
    then some ((n % 256) ∷ [])
    else if ltb n (2 ^ 32)
    then some ((128 + length (significant (be32 n))) ∷ significant (be32 n))
    else none

-- `TlvWriter::push`: the writer afterwards, and the result.
unfoldable pub push : TlvWriter → Tag → Bytes → TlvWriter × Result (Unit {0})
unfolding length_octets
push w tag value = elim (length_octets (length value)) [
  | none ↦ (w, err (Error.new limit_exceeded))
  | some octets ↦
      let total = length w.bytes + length (to_bytes tag ++ octets) + length value in
      if leb (2 ^ 64) total || ltb w.limit total
      then (w, err (Error.new limit_exceeded))
      else (record w { bytes = w.bytes ++ ((to_bytes tag ++ octets) ++ value) }, ok tt)
]
