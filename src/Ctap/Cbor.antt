-- ===== src/Ctap/Cbor.antt =====
-- crates/canokey-ctap/src/cbor.rs: the CBOR value and its accessors. A String is its UTF-8 bytes, a
-- borrowed value is the value, and an i64 is `pos n` or `negsuc n`, which is -1 - n.
pub mod Encode
pub mod Parse
pub mod Wire
pub mod Octets
pub mod Head
pub mod Loops
pub mod Sound
pub mod Complete
pub mod KeyOrder
pub mod Canonical
pub mod Normal
pub mod NormalForm
mod Tests
use libcanokey.Prelude.{
  ℕ, suc, ◌==◌, Bool, true, false, ◌&&◌, List, [], ◌∷◌, Option, none, some, ltb, if◌then◌else◌,
  Bytes,
}
use libcanokey.Compat.Firmware.{bind}
use libcanokey.Compat.Profile.{text_eq}

mutual
  pub data Value : Type 0 where
    unsigned negative : ℕ → Value
    byte_string text : Bytes → Value
    array : Items → Value
    map : Entries → Value
    boolean : Bool → Value
    null : Value

  pub data Items : Type 0 where
    nil : Items
    cons : Value → Items → Items

  pub data Entries : Type 0 where
    end : Entries
    entry : (key value : Value) → Entries → Entries

unfoldable pub count_items : Items → ℕ
count_items nil = 0
count_items (cons v vs) = suc (count_items vs)

unfoldable pub count_entries : Entries → ℕ
count_entries end = 0
count_entries (entry k v es) = suc (count_entries es)

pub data ℤ : Type 0 where
  pos negsuc : ℕ → ℤ

-- `Value::from_int`.
unfoldable pub from_int : ℤ → Value
from_int (pos n) = unsigned n
from_int (negsuc n) = negative n

abbrev pub as_map : Value → Option Entries
as_map (map es) = some es
as_map _ = none

abbrev pub as_array : Value → Option Items
as_array (array vs) = some vs
as_array _ = none

abbrev pub as_bytes : Value → Option Bytes
as_bytes (byte_string b) = some b
as_bytes _ = none

abbrev pub as_text : Value → Option Bytes
as_text (text b) = some b
as_text _ = none

abbrev pub as_uint : Value → Option ℕ
as_uint (unsigned n) = some n
as_uint _ = none

abbrev pub fits_i64 : ℕ → Bool
fits_i64 n = ltb n 9223372036854775808

-- `Value::as_int`.
unfoldable pub as_int : Value → Option ℤ
as_int (unsigned n) = if fits_i64 n then some (pos n) else none
as_int (negative n) = if fits_i64 n then some (negsuc n) else none
as_int _ = none

abbrev pub as_bool : Value → Option Bool
as_bool (boolean b) = some b
as_bool _ = none

abbrev pub is_null : Value → Bool
is_null null = true
is_null _ = false

abbrev pub bool_eq : Bool → Bool → Bool
bool_eq true b = b
bool_eq false true = false
bool_eq false false = true

-- The derived equality.
unfoldable mutual
  pub value_eq : Value → Value → Bool
  value_eq (unsigned m) (unsigned n) = m == n
  value_eq (negative m) (negative n) = m == n
  value_eq (byte_string a) (byte_string b) = text_eq a b
  value_eq (text a) (text b) = text_eq a b
  value_eq (array us) (array vs) = items_eq us vs
  value_eq (map ds) (map es) = entries_eq ds es
  value_eq (boolean a) (boolean b) = bool_eq a b
  value_eq null null = true
  value_eq _ _ = false

  pub items_eq : Items → Items → Bool
  items_eq nil nil = true
  items_eq (cons u us) (cons v vs) = value_eq u v && items_eq us vs
  items_eq _ _ = false

  pub entries_eq : Entries → Entries → Bool
  entries_eq end end = true
  entries_eq (entry k u ds) (entry l v es) = value_eq k l && (value_eq u v && entries_eq ds es)
  entries_eq _ _ = false

-- `find` by key.
unfoldable pub find_key : Value → Entries → Option Value
find_key key end = none
find_key key (entry k v es) = let rest = find_key key es in if value_eq k key then some v else rest

-- `Value::map_get`, `map_get_int` and `map_get_text`.
unfoldable pub map_get : Value → Value → Option Value
unfolding find_key
map_get v key = bind (as_map v) λ es. find_key key es

abbrev pub map_get_int : Value → ℤ → Option Value
map_get_int v key = map_get v (from_int key)

abbrev pub map_get_text : Value → Bytes → Option Value
map_get_text v key = map_get v (text key)
