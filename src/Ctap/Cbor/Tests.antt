-- ===== src/Ctap/Cbor/Tests.antt =====
-- Runs of the definitions in Ctap/Cbor at concrete inputs.
use libcanokey.Prelude.{◌≡◌, refl, ◌↔◌, Bool, true, false, ◌&&◌, [], ◌∷◌, ltb, Bytes, arith}
use libcanokey.Error.{ok, ◌>>=◌}
use libcanokey.Ctap.Cbor.{
  Value, unsigned, byte_string, text, array, map, boolean, nil, cons, end, entry, count_items,
  count_entries,
}
use libcanokey.Ctap.Cbor.Encode.{max_depth, encode, head, sort, insert}
use libcanokey.Ctap.Cbor.Parse.{parse, contains}
use libcanokey.Compat.Profile.{text_eq}
use libcanokey.Ctap.Cbor.Wire.{wire, IsItem}
use libcanokey.Ctap.Cbor.Complete.{parse_iff}
use libcanokey.Ctap.Cbor.KeyOrder.{precedes}
use libcanokey.Ctap.Cbor.Canonical.{IsCanonical, encode-wire, parse-encode}
use libcanokey.Ctap.Cbor.Normal.{IsWithin, normal}
use libcanokey.Ctap.Cbor.NormalForm.{encode_iff, encode-IsCanonical}

-- A text of ASCII, which is UTF-8.
abbrev is_ascii : Bytes → Bool
is_ascii [] = true
is_ascii (b ∷ bs) = ltb b 128 && is_ascii bs

-- {1: h'07', 300: ["A", true]}
abbrev small_map : Value
small_map = map (
    entry (unsigned 1) (byte_string (7 ∷ []))
      (entry (unsigned 300) (array (cons (text (0x41 ∷ [])) (cons (boolean true) nil))) end))

abbrev small_bytes : Bytes
small_bytes = 0xa2 ∷ 0x01 ∷ 0x41 ∷ 0x07 ∷ 0x19 ∷ 0x01 ∷ 0x2c ∷ 0x82 ∷ 0x61 ∷ 0x41 ∷ 0xf5 ∷ []

-- The same entries, the longer key first.
abbrev swapped_map : Value
swapped_map = map (
    entry (unsigned 300) (array (cons (text (0x41 ∷ [])) (cons (boolean true) nil)))
      (entry (unsigned 1) (byte_string (7 ∷ [])) end))

encode_small : encode small_map ≡ ok small_bytes
unfolding encode head sort insert count_items
encode_small = refl

encode_swapped : encode swapped_map ≡ ok small_bytes
unfolding encode head sort insert count_items
encode_swapped = refl

one_encoded : encode (unsigned 1) ≡ ok (1 ∷ [])
unfolding encode head
one_encoded = refl

three_hundred_encoded : encode (unsigned 300) ≡ ok (0x19 ∷ 0x01 ∷ 0x2c ∷ [])
unfolding encode head
three_hundred_encoded = refl

new_key : contains (0x19 ∷ 0x01 ∷ 0x2c ∷ []) ((1 ∷ []) ∷ []) ≡ false
unfolding contains text_eq
new_key = refl

no_keys : contains (1 ∷ []) [] ≡ false
unfolding contains
no_keys = refl

small_map-IsItem : IsItem is_ascii max_depth small_map
unfolding count_items count_entries
small_map-IsItem = (
  omega arith,
  (omega arith, omega arith, (omega arith, (omega arith, ((omega arith, refl), (tt, tt))), tt)),
  (1 ∷ [], one_encoded, no_keys, (0x19 ∷ 0x01 ∷ 0x2c ∷ [], three_hundred_encoded, new_key, tt)),
)

small_map-IsCanonical : IsCanonical max_depth small_map
unfolding wire head precedes
small_map-IsCanonical = (tt, tt, refl, (tt, (tt, (tt, tt)), tt, tt))

parse_iff_example :
    (parse is_ascii small_bytes ≡ ok small_map)
    ↔ ((small_bytes ≡ wire small_map) × IsItem is_ascii max_depth small_map)
parse_iff_example = parse_iff is_ascii small_bytes small_map (
  omega arith,
  (
    omega arith,
    (
      omega arith,
      (
        omega arith,
        (
          omega arith,
          (
            omega arith,
            (omega arith, (omega arith, (omega arith, (omega arith, (omega arith, tt))))),
          ),
        ),
      ),
    ),
  ),
)

encode-wire_example : encode small_map ≡ ok (wire small_map)
encode-wire_example = encode-wire small_map small_map-IsCanonical

parse-encode_example : (encode small_map >>= λ bytes. parse is_ascii bytes) ≡ ok small_map
parse-encode_example = parse-encode is_ascii small_map small_map-IsCanonical small_map-IsItem

encode_iff_example :
    (encode swapped_map ≡ ok small_bytes)
    ↔ (IsWithin max_depth swapped_map × (small_bytes ≡ wire (normal max_depth swapped_map)))
encode_iff_example = encode_iff swapped_map small_bytes

encode-IsCanonical_example :
    (w : Value) × IsCanonical max_depth w × (small_bytes ≡ wire w) × (encode w ≡ ok small_bytes)
encode-IsCanonical_example = encode-IsCanonical swapped_map small_bytes encode_swapped
