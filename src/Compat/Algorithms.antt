-- ===== src/Compat/Algorithms.antt =====
-- crates/canokey-compat/src/lib.rs: `Algorithm` and `AlgorithmConfig`. The map of identifiers is an
-- association list; the algorithms of a configuration are distinct, so an insert never replaces.
use libcanokey.Prelude.{
  ℕ, ◌==◌, Bool, false, ◌||◌, List, [], ◌∷◌, ◌++◌, Option, none, some, leb, ltb, if◌then◌else◌,
  length, drop, Bytes,
}
use libcanokey.Error
use libcanokey.Error.{Result, ok, err, ◌>>=◌, ◌>>◌, reject, invalid_response}

pub data Algorithm : Type 0 where
  rsa1024 rsa2048 rsa3072 rsa4096 ecc_p256 ecc_p384 ecc_p521 secp256k1 sm2 : Algorithm
  ed25519 x25519 ml_dsa65 ml_kem768 : Algorithm

-- The position of a variant, by which derived comparisons go.
abbrev pub rank : Algorithm → ℕ
rank rsa1024 = 0
rank rsa2048 = 1
rank rsa3072 = 2
rank rsa4096 = 3
rank ecc_p256 = 4
rank ecc_p384 = 5
rank ecc_p521 = 6
rank secp256k1 = 7
rank sm2 = 8
rank ed25519 = 9
rank x25519 = 10
rank ml_dsa65 = 11
rank ml_kem768 = 12

abbrev pub Ids : Type 0
Ids = List (Algorithm × ℕ)

-- `BTreeMap::get`.
unfoldable pub get_id : Algorithm → Ids → Option ℕ
get_id a [] = none
get_id a ((b, id) ∷ ids) = let rest = get_id a ids in if rank a == rank b then some id else rest

-- `ids.values().any(|old| *old == id)`.
unfoldable pub has_value : ℕ → Ids → Bool
has_value id [] = false
has_value id ((a, old) ∷ ids) = id == old || has_value id ids

pub record AlgorithmConfig : Type 0 where
  pub enabled : Bool
  pub ids : Ids
  pub raw : Bytes

abbrev pub when {ℓ} : {A : Type ℓ} → Bool → A → List A
when test a = if test then a ∷ [] else []

-- The algorithms that the bytes after the flag stand for, in order.
abbrev pub configured : ℕ → List Algorithm
configured n =
    ed25519
    ∷ rsa3072
    ∷ rsa4096
    ∷ x25519
    ∷ secp256k1
    ∷ (when (leb 8 n) ecc_p521 ++ (sm2 ∷ (when (leb 9 n) ml_dsa65 ++ when (leb 10 n) ml_kem768)))

abbrev pub is_fixed : ℕ → Bool
is_fixed id = id == 0x06 || (id == 0x07 || (id == 0x11 || id == 0x14))

-- The loop of `parse` over the algorithms and their bytes.
unfoldable pub read_ids : List Algorithm → Bytes → Ids → Result Ids
unfolding has_value
read_ids [] bytes ids = ok ids
read_ids (a ∷ as') [] ids = ok ids
read_ids (a ∷ as') (id ∷ bytes) ids = do
  reject (id == 0 || (is_fixed id || has_value id ids)) (Error.new invalid_response)
  read_ids as' bytes ((a, id) ∷ ids)

abbrev pub flag_above_one : Bytes → Bool
flag_above_one [] = false
flag_above_one (b ∷ bs) = ltb 1 b

abbrev pub flag_is_one : Bytes → Bool
flag_is_one [] = false
flag_is_one (b ∷ bs) = b == 1

-- `AlgorithmConfig::parse`.
unfoldable pub parse_config : Bytes → Result AlgorithmConfig
parse_config bytes = do
  reject (ltb (length bytes) 7 || flag_above_one bytes) (Error.new invalid_response)
  ids ← read_ids (configured (length bytes)) (drop 1 bytes) []
  ok (record { enabled = flag_is_one bytes; ids = ids; raw = bytes })

-- `AlgorithmConfig::wire_id`.
unfoldable pub config_wire_id : AlgorithmConfig → Algorithm → Option ℕ
config_wire_id c a = if c.enabled then get_id a c.ids else none
