-- ===== src/Ctap/Cbor/Encode.antt =====
-- crates/canokey-ctap/src/cbor.rs: `encode`. The depth is counted down: `encode_at` takes the levels
-- that are left, and 64 of them are left at depth 1. What is pushed to `out` is returned.
use libcanokey.Prelude.{
  ℕ, zero, suc, ◌+◌, ◌*◌, ◌/◌, ◌%◌, ◌==◌, Bool, true, false, ◌&&◌, ◌||◌, List, [], ◌∷◌, ◌++◌, leb,
  ltb, if◌then◌else◌, length, Bytes, be16,
}
use libcanokey.Error
use libcanokey.Error.{Error, Result, ok, err, ◌>>=◌, limit_exceeded}
use libcanokey.Tlv.{be32}
use libcanokey.Ctap.Cbor.{
  Value, unsigned, negative, byte_string, text, array, map, boolean, null, Items, nil, cons,
  Entries, end, entry, count_items,
}

-- `MAX_DEPTH`.
abbrev pub max_depth : ℕ
max_depth = 64

abbrev pub limit_construction : Error
limit_construction = Error.new limit_exceeded

-- `u64::to_be_bytes`.
abbrev pub be64 : ℕ → Bytes
be64 n = be32 (n / 4294967296) ++ be32 (n % 4294967296)

-- `head`.
unfoldable pub head : ℕ → ℕ → Bytes
head major argument =
    if ltb argument 24
    then (major * 32 + argument) ∷ []
    else if leb argument 255
    then (major * 32 + 24) ∷ argument ∷ []
    else if leb argument 65535
    then (major * 32 + 25) ∷ be16 argument
    else if leb argument 4294967295
    then (major * 32 + 26) ∷ be32 argument
    else (major * 32 + 27) ∷ be64 argument

abbrev pub Keyed : Type 0
Keyed = Bytes × Value

unfoldable pub lex_le : Bytes → Bytes → Bool
lex_le [] ys = true
lex_le (x ∷ xs) [] = false
lex_le (x ∷ xs) (y ∷ ys) = ltb x y || (x == y && lex_le xs ys)

-- The comparison of `sort_by`: `a` does not stand after `b`.
abbrev pub key_le : Bytes → Bytes → Bool
key_le a b = ltb (length a) (length b) || (length a == length b && lex_le a b)

-- `sort_by`, which is stable.
unfoldable pub insert : Keyed → List Keyed → List Keyed
insert e [] = e ∷ []
insert e (f ∷ fs) = let rest = insert e fs in if key_le e.0 f.0 then e ∷ f ∷ fs else f ∷ rest

unfoldable pub sort : List Keyed → List Keyed
sort [] = []
sort (e ∷ es) = insert e (sort es)

module _ (inner : Value → Result Bytes) where
  unfoldable pub encode_items : Items → Result Bytes
  encode_items nil = ok []
  encode_items (cons v vs) = do first ← inner v; rest ← encode_items vs; ok (first ++ rest)

  unfoldable pub encode_keys : Entries → Result (List Keyed)
  encode_keys end = ok []
  encode_keys (entry k v es) = do key ← inner k; rest ← encode_keys es; ok ((key, v) ∷ rest)

  unfoldable pub encode_sorted : List Keyed → Result Bytes
  encode_sorted [] = ok []
  encode_sorted ((key, v) ∷ es) = do
    value ← inner v
    rest ← encode_sorted es
    ok (key ++ (value ++ rest))

  -- The `match` of `encode_into`.
  unfoldable pub encode_by : Value → Result Bytes
  unfolding encode_items encode_keys encode_sorted
  encode_by (unsigned n) = ok (head 0 n)
  encode_by (negative n) = ok (head 1 n)
  encode_by (byte_string b) = ok (head 2 (length b) ++ b)
  encode_by (text b) = ok (head 3 (length b) ++ b)
  encode_by (array vs) = do body ← encode_items vs; ok (head 4 (count_items vs) ++ body)
  encode_by (map es) = do
    keyed ← encode_keys es
    body ← encode_sorted (sort keyed)
    ok (head 5 (length (sort keyed)) ++ body)
  encode_by (boolean false) = ok (0xf4 ∷ [])
  encode_by (boolean true) = ok (0xf5 ∷ [])
  encode_by null = ok (0xf6 ∷ [])

-- `encode_into`.
unfoldable pub encode_at : ℕ → Value → Result Bytes
unfolding encode_by
encode_at zero v = err limit_construction
encode_at (suc levels) v = encode_by (encode_at levels) v

-- `encode`.
unfoldable pub encode : Value → Result Bytes
unfolding encode_at
encode v = encode_at max_depth v
