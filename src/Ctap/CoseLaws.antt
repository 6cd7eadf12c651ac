-- ===== src/Ctap/CoseLaws.antt =====
-- The keys that `CoseKey::from_value` of crates/canokey-ctap/src/cose.rs accepts.
use libcanokey.Prelude.{
  ◌==◌, ◌≡◌, inl, inr, refl, sym, ap, ◌∙◌, Bool, true, false, not, ◌||◌, Option, none, some,
  is_some, is_none, length, Bytes, arith, Bool-cases,
}
use libcanokey.Error.{ok, err, ok_or, malformed, >>=-eq-ok, reject-eq-ok, ok-injective}
use mathlib.Core.Path.{subst}
use libcanokey.Compat.Firmware.{bind}
use libcanokey.Ctap.Cbor.{
  as_bytes, Value, as_map, map_get, map_get_int, find_key, value_eq, from_int, as_int, ℤ, pos,
  negsuc,
}
use libcanokey.Ctap.Cose.{
  CoseAlgorithm, es256, ed25519, ml_dsa44, ml_dsa65, ml_dsa87, ecdh_es_hkdf256, unknown, from_id,
  CoseKey, p256_key, ed25519_key, ml_dsa_key, unknown_key, public_len, int_eq, int_at, fixed_bytes,
  sized_key, p256_from, ed25519_from, ml_dsa_from, key_from, from_value, to_value,
}

abbrev pub IsEcdsa : CoseAlgorithm → Type 0
IsEcdsa es256 = Unit
IsEcdsa ecdh_es_hkdf256 = Unit
IsEcdsa _ = ⊥

abbrev pub IsMlDsa : CoseAlgorithm → Type 0
IsMlDsa ml_dsa44 = Unit
IsMlDsa ml_dsa65 = Unit
IsMlDsa ml_dsa87 = Unit
IsMlDsa _ = ⊥

-- A key of the known types whose parts have their widths.
abbrev pub IsKnownKey : CoseKey → Type 0
IsKnownKey (p256_key algorithm x y) = IsEcdsa algorithm × (length x ≡ 32) × (length y ≡ 32)
IsKnownKey (ed25519_key x) = length x ≡ 32
IsKnownKey (ml_dsa_key algorithm public) =
    IsMlDsa algorithm × (length public ≡ public_len algorithm)
IsKnownKey (unknown_key v) = ⊥

-- What an accepted value is: the key's parts have their widths, and the label of the private part,
-- which depends on the key type, is absent. A key of an unknown algorithm is the value itself.
abbrev pub IsAccepted : Value → CoseKey → Type 0
IsAccepted v (p256_key algorithm x y) =
    IsKnownKey (p256_key algorithm x y) × (map_get_int v (negsuc 3) ≡ none)
IsAccepted v (ed25519_key x) = IsKnownKey (ed25519_key x) × (map_get_int v (negsuc 3) ≡ none)
IsAccepted v (ml_dsa_key algorithm public) =
    IsKnownKey (ml_dsa_key algorithm public) × (map_get_int v (negsuc 1) ≡ none)
IsAccepted v (unknown_key w) = v ≡ w

sized_key-eq : (b : Bytes) → length b ≡ 32 → sized_key b ≡ ok b
sized_key-eq b h = let test : (length b == 32) ≡ true = ground arith in rw test refl

-- A key of a known type is read back from its COSE map.
pub from_value-to_value : (k : CoseKey) → IsKnownKey k → from_value (to_value k) ≡ ok k
unfolding from_value to_value map_get find_key value_eq from_int as_int
from_value-to_value (p256_key es256 x y) (u, hx, hy) =
    rw (sized_key-eq x hx, sized_key-eq y hy) refl
from_value-to_value (p256_key ecdh_es_hkdf256 x y) (u, hx, hy) =
    rw (sized_key-eq x hx, sized_key-eq y hy) refl
from_value-to_value (p256_key ed25519 x y) (u, hx, hy) = absurd u
from_value-to_value (p256_key ml_dsa44 x y) (u, hx, hy) = absurd u
from_value-to_value (p256_key ml_dsa65 x y) (u, hx, hy) = absurd u
from_value-to_value (p256_key ml_dsa87 x y) (u, hx, hy) = absurd u
from_value-to_value (p256_key (unknown n) x y) (u, hx, hy) = absurd u
from_value-to_value (ed25519_key x) h = rw (sized_key-eq x h) refl
from_value-to_value (ml_dsa_key ml_dsa44 public) (u, h) =
    let test : (length public == 1312) ≡ true = ground arith in rw test refl
from_value-to_value (ml_dsa_key ml_dsa65 public) (u, h) =
    let test : (length public == 1952) ≡ true = ground arith in rw test refl
from_value-to_value (ml_dsa_key ml_dsa87 public) (u, h) =
    let test : (length public == 2592) ≡ true = ground arith in rw test refl
from_value-to_value (ml_dsa_key es256 public) (u, h) = absurd u
from_value-to_value (ml_dsa_key ecdh_es_hkdf256 public) (u, h) = absurd u
from_value-to_value (ml_dsa_key ed25519 public) (u, h) = absurd u
from_value-to_value (ml_dsa_key (unknown n) public) (u, h) = absurd u
from_value-to_value (unknown_key v) h = absurd h

sized_key-length : (b c : Bytes) → sized_key b ≡ ok c → length c ≡ 32
sized_key-length b c e = elim (Bool-cases (length b == 32)) [
  | inl is ↦ let same : b ≡ c = ok-injective (rw is at e) in sym (ap length same) ∙ ground arith
  | inr other ↦ absurd (refused (rw other at e))
]
  where
    refused : (err malformed ≡ ok c) → ⊥
    refused h = cc

fixed_bytes-length : (v : Option Value) (b : Bytes) → fixed_bytes v ≡ ok b → length b ≡ 32
fixed_bytes-length v b e =
    let (c, found, e1) = >>=-eq-ok (ok_or (bind v as_bytes) malformed) sized_key e in
    sized_key-length c b e1

no_key : (bad : Bool) (o : Option Value) → (bad || is_some o) ≡ false → o ≡ none
no_key true o h = cc
no_key false none h = refl
no_key false (some v) h = cc

p256_from-IsAccepted :
    (v : Value) (kty : ℤ) (algorithm : CoseAlgorithm) (k : CoseKey)
    → IsEcdsa algorithm
    → p256_from v kty algorithm ≡ ok k
    → IsAccepted v k
unfolding p256_from
p256_from-IsAccepted v kty algorithm k is e =
    let (typed, e1) =
      reject-eq-ok (not (int_eq kty (pos 2)) || is_some (map_get_int v (negsuc 3))) malformed _ e in
    let (crv, curve, e2) = >>=-eq-ok (int_at v (negsuc 0)) _ e1 in
    let (x, first, e3) = >>=-eq-ok (fixed_bytes (map_get_int v (negsuc 1))) _ e2 in
    let (y, second, e4) = >>=-eq-ok (fixed_bytes (map_get_int v (negsuc 2))) _ e3 in
    let (right, e5) =
      reject-eq-ok (not (int_eq crv (pos 1))) malformed (ok (p256_key algorithm x y)) e4 in
    subst (IsAccepted v) (ok-injective e5) (
      (
        is,
        fixed_bytes-length (map_get_int v (negsuc 1)) x first,
        fixed_bytes-length (map_get_int v (negsuc 2)) y second,
      ),
      no_key _ _ typed,
    )

ed25519_from-IsAccepted :
    (v : Value) (kty : ℤ) (k : CoseKey) → ed25519_from v kty ≡ ok k → IsAccepted v k
unfolding ed25519_from
ed25519_from-IsAccepted v kty k e =
    let (typed, e1) =
      reject-eq-ok (not (int_eq kty (pos 1)) || is_some (map_get_int v (negsuc 3))) malformed _ e in
    let (crv, curve, e2) = >>=-eq-ok (int_at v (negsuc 0)) _ e1 in
    let (x, first, e3) = >>=-eq-ok (fixed_bytes (map_get_int v (negsuc 1))) _ e2 in
    let (right, e5) = reject-eq-ok (not (int_eq crv (pos 6))) malformed (ok (ed25519_key x)) e3 in
    subst (IsAccepted v) (ok-injective e5)
      (fixed_bytes-length (map_get_int v (negsuc 1)) x first, no_key _ _ typed)

ml_dsa_from-IsAccepted :
    (v : Value) (kty : ℤ) (algorithm : CoseAlgorithm) (k : CoseKey)
    → IsMlDsa algorithm
    → ml_dsa_from v kty algorithm ≡ ok k
    → IsAccepted v k
unfolding ml_dsa_from
ml_dsa_from-IsAccepted v kty algorithm k is e =
    let (typed, e1) =
      reject-eq-ok (not (int_eq kty (pos 7)) || is_some (map_get_int v (negsuc 1))) malformed _ e in
    let (public, found, e2) =
      >>=-eq-ok (ok_or (bind (map_get_int v (negsuc 0)) as_bytes) malformed) _ e1 in
    let (sized, e3) =
      reject-eq-ok (not (length public == public_len algorithm)) malformed
        (ok (ml_dsa_key algorithm public)) e2 in
    subst (IsAccepted v) (ok-injective e3) ((is, ground arith), no_key _ _ typed)

-- A value that is accepted as a key of a known type has parts of their exact widths and an algorithm
-- of that type, and it has no entry under the type's label of a private key. A value of an unknown
-- algorithm is kept as it is.
pub from_value-IsAccepted : (v : Value) (k : CoseKey) → from_value v ≡ ok k → IsAccepted v k
unfolding from_value key_from
from_value-IsAccepted v k e =
    let (is_map, e1) = reject-eq-ok (is_none (as_map v)) malformed _ e in
    let (kty, typed, e2) = >>=-eq-ok (int_at v (pos 1)) _ e1 in
    let (number, named, e3) = >>=-eq-ok (int_at v (pos 3)) _ e2 in
    by_algorithm kty (from_id number) e3
  where
    by_algorithm :
        (kty : ℤ) (algorithm : CoseAlgorithm) → key_from v kty algorithm ≡ ok k → IsAccepted v k
    by_algorithm kty es256 h = p256_from-IsAccepted v kty es256 k tt h
    by_algorithm kty ecdh_es_hkdf256 h = p256_from-IsAccepted v kty ecdh_es_hkdf256 k tt h
    by_algorithm kty ed25519 h = ed25519_from-IsAccepted v kty k h
    by_algorithm kty ml_dsa44 h = ml_dsa_from-IsAccepted v kty ml_dsa44 k tt h
    by_algorithm kty ml_dsa65 h = ml_dsa_from-IsAccepted v kty ml_dsa65 k tt h
    by_algorithm kty ml_dsa87 h = ml_dsa_from-IsAccepted v kty ml_dsa87 k tt h
    by_algorithm kty (unknown n) h = subst (IsAccepted v) (ok-injective h) refl
