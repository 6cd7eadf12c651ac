-- ===== src/Compat/UniqueIds.antt =====
-- The identifiers that `AlgorithmConfig::parse` of crates/canokey-compat/src/lib.rs accepts.
use libcanokey.Prelude.{
  ℕ, ◌==◌, ◌≡◌, refl, sym, ap, ◌∙◌, inl, inr, true, false, ◌||◌, List, [], ◌∷◌, some, if◌then◌else◌,
  arith, Bytes, Bool-cases, some-injective, drop, length,
}
use mathlib.Core.Path.{subst}
use libcanokey.Error.{ok, >>=-eq-ok, reject-eq-ok, ok-injective}
use libcanokey.Compat.Algorithms.{
  Algorithm, rsa1024, rsa2048, rsa3072, rsa4096, ecc_p256, ecc_p384, ecc_p521, secp256k1, sm2,
  ed25519, x25519, ml_dsa65, ml_kem768, rank, Ids, get_id, has_value, is_fixed, read_ids,
  parse_config, AlgorithmConfig, configured,
}

pub rank-injective : (a b : Algorithm) → rank a ≡ rank b → a ≡ b
rank-injective a b e = by_rank a ∙ ap of_rank e ∙ sym (by_rank b)
  where
    of_rank : ℕ → Algorithm
    of_rank n =
        if n == 0
        then rsa1024
        else if n == 1
        then rsa2048
        else if n == 2
        then rsa3072
        else if n == 3
        then rsa4096
        else if n == 4
        then ecc_p256
        else if n == 5
        then ecc_p384
        else if n == 6
        then ecc_p521
        else if n == 7
        then secp256k1
        else if n == 8
        then sm2
        else if n == 9
        then ed25519
        else if n == 10
        then x25519
        else if n == 11
        then ml_dsa65
        else ml_kem768

    by_rank : (a : Algorithm) → a ≡ of_rank (rank a)
    by_rank rsa1024 = refl
    by_rank rsa2048 = refl
    by_rank rsa3072 = refl
    by_rank rsa4096 = refl
    by_rank ecc_p256 = refl
    by_rank ecc_p384 = refl
    by_rank ecc_p521 = refl
    by_rank secp256k1 = refl
    by_rank sm2 = refl
    by_rank ed25519 = refl
    by_rank x25519 = refl
    by_rank ml_dsa65 = refl
    by_rank ml_kem768 = refl

-- No identifier stands twice, and none is one that the profile does not configure.
abbrev pub IsUnique : Ids → Type 0
IsUnique [] = Unit
IsUnique ((a, id) ∷ ids) = (has_value id ids ≡ false) × (is_fixed id ≡ false) × IsUnique ids

pub get_id-has_value :
    (a : Algorithm) (ids : Ids) (n : ℕ) → get_id a ids ≡ some n → has_value n ids ≡ true
unfolding get_id has_value
get_id-has_value a [] n h = cc
get_id-has_value a ((b, id) ∷ ids) n h = elim (Bool-cases (rank a == rank b)) [
  | inl same ↦ ground (arith, rw same at h)
  | inr other ↦ let later = get_id-has_value a ids n (rw other at h) in ground arith
]

pub get_id-is_fixed :
    (a : Algorithm) (ids : Ids) (n : ℕ) → IsUnique ids → get_id a ids ≡ some n → is_fixed n ≡ false
unfolding get_id
get_id-is_fixed a [] n u h = cc
get_id-is_fixed a ((b, id) ∷ ids) n (fresh, free, u) h = elim (Bool-cases (rank a == rank b)) [
  | inl same ↦ let e : id ≡ n = some-injective (rw same at h) in ap is_fixed (sym e) ∙ free
  | inr other ↦ get_id-is_fixed a ids n u (rw other at h)
]

pub get_id-injective :
    (a b : Algorithm) (ids : Ids) (n : ℕ)
    → IsUnique ids
    → get_id a ids ≡ some n
    → get_id b ids ≡ some n
    → a ≡ b
unfolding get_id
get_id-injective a b [] n u h k = cc
get_id-injective a b ((c, id) ∷ ids) n (fresh, free, u) h k = elim (Bool-cases (rank a == rank c)) [
  | inl is_a ↦ elim (Bool-cases (rank b == rank c)) [
    | inl is_b ↦ rank-injective a b (ground arith)
    | inr other ↦
        let later = get_id-has_value b ids n (rw other at k) in
        let here = rw is_a at h in ground arith
  ]
  | inr not_a ↦ elim (Bool-cases (rank b == rank c)) [
    | inl is_b ↦
        let later = get_id-has_value a ids n (rw not_a at h) in
        let here = rw is_b at k in ground arith
    | inr other ↦ get_id-injective a b ids n u (rw not_a at h) (rw other at k)
  ]
]

read_ids-IsUnique :
    (as' : List Algorithm) (bytes : Bytes) (ids out : Ids)
    → IsUnique ids
    → read_ids as' bytes ids ≡ ok out
    → IsUnique out
unfolding read_ids
read_ids-IsUnique [] bytes ids out u e = ground (arith, ok-injective e)
read_ids-IsUnique (a ∷ as') [] ids out u e = ground (arith, ok-injective e)
read_ids-IsUnique (a ∷ as') (id ∷ bytes) ids out u e =
    let (test, rest) = reject-eq-ok (id == 0 || (is_fixed id || has_value id ids)) _ _ e in
    read_ids-IsUnique as' bytes ((a, id) ∷ ids) out (ground arith, ground arith, u) rest

-- A configuration that `parse` accepted.
pub parse_config-IsUnique :
    (bytes : Bytes) (c : AlgorithmConfig) → parse_config bytes ≡ ok c → IsUnique c.ids
unfolding parse_config
parse_config-IsUnique bytes c e =
    let (test, rest) = reject-eq-ok _ _ _ e in
    let (ids, read, last) =
      >>=-eq-ok (read_ids (configured (length bytes)) (drop 1 bytes) []) _ rest in
    subst (λ (d : AlgorithmConfig). IsUnique d.ids) (ok-injective last)
      (read_ids-IsUnique _ _ [] ids tt read)
