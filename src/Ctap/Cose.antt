-- ===== src/Ctap/Cose.antt =====
-- crates/canokey-ctap/src/cose.rs: COSE keys. The identifier -1 - n is `negsuc n`, and an array of
-- fixed size is its bytes.
use libcanokey.Prelude.{
  ℕ, ◌==◌, Bool, true, false, not, ◌||◌, Option, none, some, is_none, is_some, if◌then◌else◌,
  length, Bytes,
}
use libcanokey.Error.{Result, ok, err, ◌>>=◌, ◌>>◌, reject, ok_or, malformed}
use libcanokey.Compat.Firmware.{bind}
use libcanokey.Ctap.Cbor.{
  Value, byte_string, map, end, entry, ℤ, pos, negsuc, from_int, as_map, as_bytes, as_int,
  map_get_int,
}

pub data CoseAlgorithm : Type 0 where
  es256 ed25519 ml_dsa44 ml_dsa65 ml_dsa87 ecdh_es_hkdf256 : CoseAlgorithm
  unknown : ℤ → CoseAlgorithm

-- `CoseAlgorithm::from_id`.
unfoldable pub from_id : ℤ → CoseAlgorithm
from_id (pos n) = unknown (pos n)
from_id (negsuc n) =
    if n == 6 || n == 8
    then es256
    else if n == 7 || n == 18
    then ed25519
    else if n == 47
    then ml_dsa44
    else if n == 48
    then ml_dsa65
    else if n == 49
    then ml_dsa87
    else if n == 24
    then ecdh_es_hkdf256
    else unknown (negsuc n)

-- `CoseAlgorithm::id`.
abbrev pub id : CoseAlgorithm → ℤ
id es256 = negsuc 6
id ed25519 = negsuc 7
id ml_dsa44 = negsuc 47
id ml_dsa65 = negsuc 48
id ml_dsa87 = negsuc 49
id ecdh_es_hkdf256 = negsuc 24
id (unknown n) = n

abbrev pub is_signature : CoseAlgorithm → Bool
is_signature ecdh_es_hkdf256 = false
is_signature (unknown n) = false
is_signature _ = true

pub data CoseKey : Type 0 where
  p256_key : CoseAlgorithm → (x y : Bytes) → CoseKey
  ed25519_key : Bytes → CoseKey
  ml_dsa_key : CoseAlgorithm → Bytes → CoseKey
  unknown_key : Value → CoseKey

-- `ML_DSA_44_PUBLIC_LEN` and the two others.
abbrev pub public_len : CoseAlgorithm → ℕ
public_len ml_dsa44 = 1312
public_len ml_dsa65 = 1952
public_len _ = 2592

abbrev pub int_eq : ℤ → ℤ → Bool
int_eq (pos m) (pos n) = m == n
int_eq (negsuc m) (negsuc n) = m == n
int_eq _ _ = false

-- `map_get_int(key).and_then(Value::as_int)`.
abbrev pub int_at : Value → ℤ → Result ℤ
int_at v key = ok_or (bind (map_get_int v key) as_int) malformed

abbrev pub sized_key : Bytes → Result Bytes
sized_key b = if length b == 32 then ok b else err malformed

-- `fixed_bytes`.
abbrev pub fixed_bytes : Option Value → Result Bytes
fixed_bytes v = do b ← ok_or (bind v as_bytes) malformed; sized_key b

unfoldable pub p256_from : Value → ℤ → CoseAlgorithm → Result CoseKey
p256_from v kty algorithm = do
  reject (not (int_eq kty (pos 2)) || is_some (map_get_int v (negsuc 3))) malformed
  crv ← int_at v (negsuc 0)
  x ← fixed_bytes (map_get_int v (negsuc 1))
  y ← fixed_bytes (map_get_int v (negsuc 2))
  reject (not (int_eq crv (pos 1))) malformed
  ok (p256_key algorithm x y)

unfoldable pub ed25519_from : Value → ℤ → Result CoseKey
ed25519_from v kty = do
  reject (not (int_eq kty (pos 1)) || is_some (map_get_int v (negsuc 3))) malformed
  crv ← int_at v (negsuc 0)
  x ← fixed_bytes (map_get_int v (negsuc 1))
  reject (not (int_eq crv (pos 6))) malformed
  ok (ed25519_key x)

unfoldable pub ml_dsa_from : Value → ℤ → CoseAlgorithm → Result CoseKey
ml_dsa_from v kty algorithm = do
  reject (not (int_eq kty (pos 7)) || is_some (map_get_int v (negsuc 1))) malformed
  public ← ok_or (bind (map_get_int v (negsuc 0)) as_bytes) malformed
  reject (not (length public == public_len algorithm)) malformed
  ok (ml_dsa_key algorithm public)

-- The `match` of `CoseKey::from_value`.
unfoldable pub key_from : Value → ℤ → CoseAlgorithm → Result CoseKey
unfolding p256_from ed25519_from ml_dsa_from
key_from v kty es256 = p256_from v kty es256
key_from v kty ecdh_es_hkdf256 = p256_from v kty ecdh_es_hkdf256
key_from v kty ed25519 = ed25519_from v kty
key_from v kty ml_dsa44 = ml_dsa_from v kty ml_dsa44
key_from v kty ml_dsa65 = ml_dsa_from v kty ml_dsa65
key_from v kty ml_dsa87 = ml_dsa_from v kty ml_dsa87
key_from v kty (unknown n) = ok (unknown_key v)

-- `CoseKey::from_value`.
unfoldable pub from_value : Value → Result CoseKey
unfolding key_from from_id
from_value v = do
  reject (is_none (as_map v)) malformed
  kty ← int_at v (pos 1)
  algorithm ← int_at v (pos 3)
  key_from v kty (from_id algorithm)

-- `CoseKey::algorithm`.
abbrev pub algorithm_of : CoseKey → Option CoseAlgorithm
algorithm_of (p256_key algorithm x y) = some algorithm
algorithm_of (ml_dsa_key algorithm public) = some algorithm
algorithm_of (ed25519_key x) = some ed25519
algorithm_of (unknown_key v) = none

-- `CoseKey::to_value`.
unfoldable pub to_value : CoseKey → Value
to_value (p256_key algorithm x y) = map (
    entry (from_int (pos 1)) (from_int (pos 2)) (
      entry (from_int (pos 3)) (from_int (id algorithm)) (
        entry (from_int (negsuc 0)) (from_int (pos 1)) (
          entry (from_int (negsuc 1)) (byte_string x)
            (entry (from_int (negsuc 2)) (byte_string y) end)))))
to_value (ed25519_key x) = map (
    entry (from_int (pos 1)) (from_int (pos 1)) (
      entry (from_int (pos 3)) (from_int (id ed25519)) (
        entry (from_int (negsuc 0)) (from_int (pos 6))
          (entry (from_int (negsuc 1)) (byte_string x) end))))
to_value (ml_dsa_key algorithm public) = map (
    entry (from_int (pos 1)) (from_int (pos 7)) (
      entry (from_int (pos 3)) (from_int (id algorithm))
        (entry (from_int (negsuc 0)) (byte_string public) end)))
to_value (unknown_key v) = v
