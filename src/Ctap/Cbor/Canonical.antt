-- ===== src/Ctap/Cbor/Canonical.antt =====
-- `encode` of crates/canokey-ctap/src/cbor.rs on values whose maps are in canonical order.
use libcanokey.Prelude.{
  ℕ, zero, suc, ◌≡◌, refl, ◌∙◌, ap, Bool, true, false, List, [], ◌∷◌, length, Bytes,
}
use libcanokey.Error.{Result, ok, ◌>>=◌}
use libcanokey.Ctap.Cbor.{
  Value, unsigned, negative, byte_string, text, array, map, boolean, null, Items, nil, cons,
  Entries, end, entry, count_entries,
}
use libcanokey.Ctap.Cbor.Encode.{
  max_depth, Keyed, insert, sort, encode_items, encode_keys, encode_sorted, encode_by, encode_at,
  encode,
}
use libcanokey.Ctap.Cbor.KeyOrder.{precedes, key_le-precedes}
use libcanokey.Ctap.Cbor.Parse.{parse}
use libcanokey.Ctap.Cbor.Wire.{wire, wire_items, wire_entries, IsItem}
use libcanokey.Ctap.Cbor.Complete.{parse_wire}

-- The key stands before the first of the entries.
abbrev pub IsBefore : Value → Entries → Type 0
IsBefore k end = Unit
IsBefore k (entry l w es) = precedes (wire k) (wire l) ≡ true

module _ (P : Value → Type 0) where
  abbrev pub AllCanonical : Items → Type 0
  AllCanonical nil = Unit
  AllCanonical (cons v vs) = P v × AllCanonical vs

  abbrev pub IsAscending : Entries → Type 0
  IsAscending end = Unit
  IsAscending (entry k v es) = P k × P v × IsBefore k es × IsAscending es

  abbrev pub IsCanonicalBy : Value → Type 0
  IsCanonicalBy (array vs) = AllCanonical vs
  IsCanonicalBy (map es) = IsAscending es
  IsCanonicalBy _ = Unit

-- A value of at most so many levels whose maps are in the canonical order of their keys: shorter
-- encodings first, and those of one length in lexicographic order.
abbrev pub IsCanonical : ℕ → Value → Type 0
IsCanonical zero v = ⊥
IsCanonical (suc levels) v = IsCanonicalBy (IsCanonical levels) v

keyed : Entries → List Keyed
keyed end = []
keyed (entry k v es) = (wire k, v) ∷ keyed es

length-keyed : (es : Entries) → length (keyed es) ≡ count_entries es
unfolding keyed count_entries
length-keyed end = refl
length-keyed (entry k v es) = ap suc (length-keyed es)

module _ (P : Value → Type 0) (inner : Value → Result Bytes)
    (exact : (v : Value) → P v → inner v ≡ ok (wire v)) where
  encode_items-wire : (vs : Items) → AllCanonical P vs → encode_items inner vs ≡ ok (wire_items vs)
  unfolding encode_items wire
  encode_items-wire nil all = refl
  encode_items-wire (cons v vs) (good, all) = rw (exact v good, encode_items-wire vs all) refl

  encode_keys-keyed : (es : Entries) → IsAscending P es → encode_keys inner es ≡ ok (keyed es)
  unfolding encode_keys keyed
  encode_keys-keyed end up = refl
  encode_keys-keyed (entry k v es) (key_good, value_good, before, up) =
      rw (exact k key_good, encode_keys-keyed es up) refl

  sort-keyed : (es : Entries) → IsAscending P es → sort (keyed es) ≡ keyed es
  unfolding sort insert keyed
  sort-keyed end up = refl
  sort-keyed (entry k v end) up = refl
  sort-keyed (entry k v (entry l w es)) (key_good, value_good, before, up) =
      rw (sort-keyed (entry l w es) up, key_le-precedes (wire k) (wire l) ∙ before) refl

  encode_sorted-keyed :
      (es : Entries) → IsAscending P es → encode_sorted inner (keyed es) ≡ ok (wire_entries es)
  unfolding encode_sorted keyed wire
  encode_sorted-keyed end up = refl
  encode_sorted-keyed (entry k v es) (key_good, value_good, before, up) =
      rw (exact v value_good, encode_sorted-keyed es up) refl

  encode_by-wire : (v : Value) → IsCanonicalBy P v → encode_by inner v ≡ ok (wire v)
  unfolding encode_by wire
  encode_by-wire (unsigned n) u = refl
  encode_by-wire (negative n) u = refl
  encode_by-wire (byte_string b) u = refl
  encode_by-wire (text b) u = refl
  encode_by-wire (array vs) all = rw (encode_items-wire vs all) refl
  encode_by-wire (map es) up =
      rw (encode_keys-keyed es up, sort-keyed es up, encode_sorted-keyed es up, length-keyed es)
        refl
  encode_by-wire (boolean false) u = refl
  encode_by-wire (boolean true) u = refl
  encode_by-wire null u = refl

encode_at-wire : (levels : ℕ) (v : Value) → IsCanonical levels v → encode_at levels v ≡ ok (wire v)
unfolding encode_at
encode_at-wire zero v none = absurd none
encode_at-wire (suc levels) v good =
    encode_by-wire (IsCanonical levels) (encode_at levels) (encode_at-wire levels) v good

-- A value of at most 64 levels whose maps are in canonical order is encoded as its bytes in wire
-- order, without an error.
pub encode-wire : (v : Value) → IsCanonical max_depth v → encode v ≡ ok (wire v)
unfolding encode
encode-wire v good = encode_at-wire max_depth v good

-- The encoding of a value in canonical order, with arguments and texts that a message can hold, is
-- parsed back to the value.
pub parse-encode :
    (is_utf8 : Bytes → Bool) (v : Value)
    → IsCanonical max_depth v
    → IsItem is_utf8 max_depth v
    → (encode v >>= λ bytes. parse is_utf8 bytes) ≡ ok v
parse-encode is_utf8 v ordered good = rw (encode-wire v ordered) (parse_wire is_utf8 v good)
