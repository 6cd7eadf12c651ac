-- ===== src/Tlv/Lengths.antt =====
-- Length octets: what `TlvWriter::push` writes and `TlvReader::next` reads.
use libcanokey.Prelude.{
  ℕ, ◌+◌, ◌^◌, ◌≤◌, ◌<◌, ◌≡◌, [], ◌∷◌, ◌++◌, some, arith, Bytes, IsByte, All, length, take, drop,
  true, false, leb, length-append, drop-append_exact, take-append_exact, length-take, length-drop,
}
use libcanokey.Error.{ok}
use libcanokey.Tlv.{be32, significant, sum_length, get_range, starts_with_zero}

-- The slice that stands between two parts of an input.
pub get_range-append :
    (xs ys zs : Bytes) (from n : ℕ)
    → length xs ≡ from
    → length ys ≡ n
    → get_range (xs ++ (ys ++ zs)) from n ≡ some ys
get_range-append xs ys zs from n e f =
    rw (fits, drop-append_exact from xs (ys ++ zs) e, take-append_exact n ys zs f)
  where
    fits : leb (from + n) (length (xs ++ (ys ++ zs))) ≡ true
    fits = ground (arith, length-append xs (ys ++ zs), length-append ys zs)

-- A slice in range has its length, and stands where it was asked for.
pub get_range_inverts :
    (bytes : Bytes) (from n : ℕ) (ys : Bytes)
    → get_range bytes from n ≡ some ys
    → (from + n ≤ length bytes) × (length ys ≡ n) × (ys ≡ take n (drop from bytes))
get_range_inverts bytes from n ys h =
    ground (arith, length-take n (drop from bytes), length-drop from bytes)

pub significant_shape :
    (n : ℕ)
    → 128 ≤ n
    → n < 2 ^ 32
    → (1 ≤ length (significant (be32 n)))
      × (length (significant (be32 n)) ≤ 4)
      × (starts_with_zero (significant (be32 n)) ≡ false)
unfolding significant
significant_shape n h k = ground arith

pub sum_length-significant : (n : ℕ) → n < 2 ^ 32 → sum_length 0 (significant (be32 n)) ≡ ok n
unfolding significant sum_length
sum_length-significant n h = ground arith

-- Minimal octets are the ones that `significant` keeps.
pub significant_unique :
    (bs : Bytes) (n : ℕ)
    → All IsByte bs
    → 1 ≤ length bs
    → length bs ≤ 4
    → starts_with_zero bs ≡ false
    → sum_length 0 bs ≡ ok n
    → (significant (be32 n) ≡ bs) × (n < 2 ^ 32)
unfolding significant sum_length
significant_unique [] n b p q z s = absurd (omega arith)
significant_unique (x ∷ []) n b p q z s = ground arith
significant_unique (x ∷ y ∷ []) n b p q z s = ground arith
significant_unique (x ∷ y ∷ w ∷ []) n b p q z s = ground arith
significant_unique (x ∷ y ∷ w ∷ v ∷ []) n b p q z s = ground arith
significant_unique (x ∷ y ∷ w ∷ v ∷ u ∷ r) n b p q z s = absurd (omega arith)
