-- ===== src/Ctap/Cbor/Wire.antt =====
-- The grammar of CTAP2 CBOR that `parse` of crates/canokey-ctap/src/cbor.rs is held against: the bytes
-- of an item in wire order, with the heads that the encoder writes, and when a strict reader may
-- accept them.
use libcanokey.Prelude.{
  ℕ, zero, suc, ◌<◌, ◌≡◌, Bool, true, false, List, [], ◌∷◌, ◌++◌, length, Bytes,
}
use libcanokey.Error.{ok}
use libcanokey.Ctap.Cbor.{
  Value, unsigned, negative, byte_string, text, array, map, boolean, null, Items, nil, cons,
  Entries, end, entry, count_items, count_entries,
}
use libcanokey.Ctap.Cbor.Encode.{head, encode}
use libcanokey.Ctap.Cbor.Parse.{contains}

unfoldable mutual
  pub wire : Value → Bytes
  wire (unsigned n) = head 0 n
  wire (negative n) = head 1 n
  wire (byte_string b) = head 2 (length b) ++ b
  wire (text b) = head 3 (length b) ++ b
  wire (array vs) = head 4 (count_items vs) ++ wire_items vs
  wire (map es) = head 5 (count_entries es) ++ wire_entries es
  wire (boolean false) = 0xf4 ∷ []
  wire (boolean true) = 0xf5 ∷ []
  wire null = 0xf6 ∷ []

  pub wire_items : Items → Bytes
  wire_items nil = []
  wire_items (cons v vs) = wire v ++ wire_items vs

  pub wire_entries : Entries → Bytes
  wire_entries end = []
  wire_entries (entry k v es) = wire k ++ (wire v ++ wire_entries es)

-- A number that fits a u64.
abbrev pub IsU64 : ℕ → Type 0
IsU64 n = n < 18446744073709551616

-- No key has the canonical encoding of an earlier one.
abbrev pub IsFresh : List Bytes → Entries → Type 0
IsFresh seen end = Unit
IsFresh seen (entry k v es) =
    (key : Bytes) × (encode k ≡ ok key) × (contains key seen ≡ false) × IsFresh (key ∷ seen) es

module _ (is_utf8 : Bytes → Bool) where
  module _ (P : Value → Type 0) where
    abbrev pub AllItems : Items → Type 0
    AllItems nil = Unit
    AllItems (cons v vs) = P v × AllItems vs

    abbrev pub AllEntries : Entries → Type 0
    AllEntries end = Unit
    AllEntries (entry k v es) = P k × P v × AllEntries es

    abbrev pub IsItemBy : Value → Type 0
    IsItemBy (unsigned n) = IsU64 n
    IsItemBy (negative n) = IsU64 n
    IsItemBy (byte_string b) = IsU64 (length b)
    IsItemBy (text b) = IsU64 (length b) × (is_utf8 b ≡ true)
    IsItemBy (array vs) = IsU64 (count_items vs) × AllItems vs
    IsItemBy (map es) = IsU64 (count_entries es) × AllEntries es × IsFresh [] es
    IsItemBy (boolean b) = Unit
    IsItemBy null = Unit

  -- A value of at most so many levels whose arguments fit, whose texts are UTF-8 and whose maps have
  -- no key twice.
  abbrev pub IsItem : ℕ → Value → Type 0
  IsItem zero v = ⊥
  IsItem (suc levels) v = IsItemBy (IsItem levels) v
