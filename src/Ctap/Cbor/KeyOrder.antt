-- ===== src/Ctap/Cbor/KeyOrder.antt =====
-- The canonical order of map keys, from RFC 8949, section 4.2.3: of two encodings the shorter one
-- stands first, and of one length the one that is first in bytewise lexicographic order.
use libcanokey.Prelude.{
  ◌==◌, ◌≡◌, refl, inl, inr, Bool, true, false, [], ◌∷◌, ltb, if◌then◌else◌, length, Bytes, arith,
  Bool-cases,
}
use libcanokey.Ctap.Cbor.Encode.{lex_le, key_le}

unfoldable pub lex_precedes : Bytes → Bytes → Bool
lex_precedes (x ∷ xs) (y ∷ ys) = let rest = lex_precedes xs ys in if x == y then rest else ltb x y
lex_precedes [] ys = true
lex_precedes (x ∷ xs) [] = false

unfoldable pub precedes : Bytes → Bytes → Bool
unfolding lex_precedes
precedes a b = if length a == length b then lex_precedes a b else ltb (length a) (length b)

lex_precedes-lex_le : (a b : Bytes) → lex_precedes a b ≡ lex_le a b
unfolding lex_precedes lex_le
lex_precedes-lex_le [] b = refl
lex_precedes-lex_le (x ∷ xs) [] = refl
lex_precedes-lex_le (x ∷ xs) (y ∷ ys) = let rest = lex_precedes-lex_le xs ys in ground arith

-- The comparison of the encoder is this order.
pub key_le-precedes : (a b : Bytes) → key_le a b ≡ precedes a b
unfolding precedes
key_le-precedes a b = let lex = lex_precedes-lex_le a b in ground arith

lex_precedes_total : (xs ys : Bytes) → lex_precedes xs ys ≡ false → lex_precedes ys xs ≡ true
unfolding lex_precedes
lex_precedes_total [] ys h = cc
lex_precedes_total (x ∷ xs) [] h = refl
lex_precedes_total (x ∷ xs) (y ∷ ys) h = elim (Bool-cases (lex_precedes xs ys)) [
  | inl less ↦ ground arith
  | inr more ↦ let back = lex_precedes_total xs ys more in ground arith
]

pub precedes_total : (a b : Bytes) → precedes a b ≡ false → precedes b a ≡ true
unfolding precedes
precedes_total a b h = elim (Bool-cases (lex_precedes a b)) [
  | inl less ↦ ground arith
  | inr more ↦ let back = lex_precedes_total a b more in ground arith
]
