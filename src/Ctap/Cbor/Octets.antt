-- ===== src/Ctap/Cbor/Octets.antt =====
-- Numbers and their bytes: `to_be_bytes` and the loop of `read_be` in
-- crates/canokey-ctap/src/cbor.rs.
use libcanokey.Prelude.{
  ℕ, ◌+◌, ◌*◌, ◌/◌, ◌%◌, ◌<◌, ◌≡◌, refl, sym, ap, ◌∙◌, [], ◌∷◌, ◌++◌, length, take, drop, Bytes,
  IsByte, All, All-drop, All-take, be16, arith, take-append-drop, length-take, length-drop,
}
use libcanokey.Tlv.{be32}
use libcanokey.Ctap.Cbor.Encode.{be64}
use libcanokey.Ctap.Cbor.Parse.{be_value}
use libcanokey.Ctap.Cbor.Wire.{IsU64}

be_value-append :
    (acc : ℕ) (xs ys : Bytes) → be_value acc (xs ++ ys) ≡ be_value (be_value acc xs) ys
unfolding be_value
be_value-append acc [] ys = refl
be_value-append acc (x ∷ xs) ys = be_value-append (acc * 256 % 18446744073709551616 + x) xs ys

-- No bit is shifted out while eight bytes are read.
shift : (acc b : ℕ) → acc < 72057594037927936 → acc * 256 % 18446744073709551616 + b ≡ acc * 256 + b
shift acc b h = omega arith

be_value-four :
    (acc a b c d : ℕ)
    → acc < 4294967296
    → IsByte a
    → IsByte b
    → IsByte c
    → IsByte d
    → be_value acc (a ∷ b ∷ c ∷ d ∷ []) ≡ (((acc * 256 + a) * 256 + b) * 256 + c) * 256 + d
unfolding be_value
be_value-four acc a b c d h ha hb hc hd =
    rw
      (
        shift acc a (omega arith),
        shift (acc * 256 + a) b (omega arith),
        shift ((acc * 256 + a) * 256 + b) c (omega arith),
        shift (((acc * 256 + a) * 256 + b) * 256 + c) d (omega arith),
      )
      refl

pub be_value-be32 :
    (acc n : ℕ) → acc < 4294967296 → n < 4294967296 → be_value acc (be32 n) ≡ acc * 4294967296 + n
be_value-be32 acc n h k =
    be_value-four acc (n / 16777216 % 256) (n / 65536 % 256) (n / 256 % 256) (n % 256) h
      (omega arith) (omega arith) (omega arith) (omega arith)
    ∙ omega arith

pub be_value-be16 : (n : ℕ) → n < 65536 → be_value 0 (be16 n) ≡ n
unfolding be_value
be_value-be16 n h = omega arith

pub be_value-be64 : (n : ℕ) → IsU64 n → be_value 0 (be64 n) ≡ n
be_value-be64 n h =
    be_value-append 0 (be32 (n / 4294967296)) (be32 (n % 4294967296))
    ∙ ap (λ (acc : ℕ). be_value acc (be32 (n % 4294967296)))
        (be_value-be32 0 (n / 4294967296) (omega arith) (omega arith))
    ∙ be_value-be32 (0 * 4294967296 + n / 4294967296) (n % 4294967296) (omega arith) (omega arith)
    ∙ omega arith

be16-be_value : (a b : ℕ) → IsByte a → IsByte b → be16 (be_value 0 (a ∷ b ∷ [])) ≡ a ∷ b ∷ []
unfolding be_value
be16-be_value a b ha hb =
    let whole : be_value 0 (a ∷ b ∷ []) ≡ a * 256 + b = omega arith in
    let high : (a * 256 + b) / 256 % 256 ≡ a = omega arith in
    let low : (a * 256 + b) % 256 ≡ b = omega arith in ap be16 whole ∙ rw (high, low) refl

be32-digits :
    (a b c d : ℕ)
    → IsByte a
    → IsByte b
    → IsByte c
    → IsByte d
    → be32 (((a * 256 + b) * 256 + c) * 256 + d) ≡ a ∷ b ∷ c ∷ d ∷ []
be32-digits a b c d ha hb hc hd =
    let n = ((a * 256 + b) * 256 + c) * 256 + d in
    let e1 : n / 16777216 % 256 ≡ a = omega arith in
    let e2 : n / 65536 % 256 ≡ b = omega arith in
    let e3 : n / 256 % 256 ≡ c = omega arith in
    let e4 : n % 256 ≡ d = omega arith in
    ap (λ (x : ℕ). x ∷ (n / 65536 % 256) ∷ (n / 256 % 256) ∷ (n % 256) ∷ []) e1
    ∙ ap (λ (x : ℕ). a ∷ x ∷ (n / 256 % 256) ∷ (n % 256) ∷ []) e2
    ∙ ap (λ (x : ℕ). a ∷ b ∷ x ∷ (n % 256) ∷ []) e3
    ∙ ap (λ (x : ℕ). a ∷ b ∷ c ∷ x ∷ []) e4

pub be32-be_value :
    (xs : Bytes)
    → length xs ≡ 4
    → All IsByte xs
    → (be32 (be_value 0 xs) ≡ xs) × (be_value 0 xs < 4294967296)
be32-be_value (a ∷ b ∷ c ∷ d ∷ []) h (ha, (hb, (hc, (hd, u)))) =
    let whole : be_value 0 (a ∷ b ∷ c ∷ d ∷ []) ≡ ((a * 256 + b) * 256 + c) * 256 + d =
      be_value-four 0 a b c d (omega arith) ha hb hc hd ∙ omega arith in
    (ap be32 whole ∙ be32-digits a b c d ha hb hc hd, omega arith)
be32-be_value [] h k = absurd (omega arith)
be32-be_value (a ∷ []) h k = absurd (omega arith)
be32-be_value (a ∷ b ∷ []) h k = absurd (omega arith)
be32-be_value (a ∷ b ∷ c ∷ []) h k = absurd (omega arith)
be32-be_value (a ∷ b ∷ c ∷ d ∷ e ∷ xs) h k = absurd (omega arith)

be_value-tail :
    (acc : ℕ) (xs : Bytes)
    → length xs ≡ 4
    → All IsByte xs
    → acc < 4294967296
    → be_value acc xs ≡ acc * 4294967296 + be_value 0 xs
be_value-tail acc (a ∷ b ∷ c ∷ d ∷ []) h (ha, (hb, (hc, (hd, u)))) k =
    let whole = be_value-four 0 a b c d (omega arith) ha hb hc hd in
    be_value-four acc a b c d k ha hb hc hd ∙ omega arith
be_value-tail acc [] h k l = absurd (omega arith)
be_value-tail acc (a ∷ []) h k l = absurd (omega arith)
be_value-tail acc (a ∷ b ∷ []) h k l = absurd (omega arith)
be_value-tail acc (a ∷ b ∷ c ∷ []) h k l = absurd (omega arith)
be_value-tail acc (a ∷ b ∷ c ∷ d ∷ e ∷ xs) h k l = absurd (omega arith)

pub be64-be_value :
    (xs : Bytes)
    → length xs ≡ 8
    → All IsByte xs
    → (be64 (be_value 0 xs) ≡ xs) × IsU64 (be_value 0 xs)
be64-be_value xs h k =
    let (high, high_small) =
      be32-be_value (take 4 xs) (length-take 4 xs ∙ omega arith) (All-take IsByte 4 xs k) in
    let (low, low_small) =
      be32-be_value (drop 4 xs) (length-drop 4 xs ∙ omega arith) (All-drop IsByte 4 xs k) in
    let split : be_value 0 xs ≡ be_value 0 (take 4 xs) * 4294967296 + be_value 0 (drop 4 xs) =
      ap (be_value 0) (sym (take-append-drop 4 xs))
      ∙ be_value-append 0 (take 4 xs) (drop 4 xs)
      ∙ be_value-tail (be_value 0 (take 4 xs)) (drop 4 xs) (length-drop 4 xs ∙ omega arith)
          (All-drop IsByte 4 xs k) high_small in
    let upper : be_value 0 xs / 4294967296 ≡ be_value 0 (take 4 xs) = omega arith in
    let lower : be_value 0 xs % 4294967296 ≡ be_value 0 (drop 4 xs) = omega arith in
    (
      ap (λ (x : ℕ). be32 x ++ be32 (be_value 0 xs % 4294967296)) upper
          ∙ ap (λ (x : ℕ). be32 (be_value 0 (take 4 xs)) ++ be32 x) lower
          ∙ ap (λ (ys : Bytes). ys ++ be32 (be_value 0 (drop 4 xs))) high
          ∙ ap (λ (ys : Bytes). take 4 xs ++ ys) low
          ∙ take-append-drop 4 xs,
      omega arith,
    )

pub one-be_value :
    (xs : Bytes)
    → length xs ≡ 1
    → All IsByte xs
    → (be_value 0 xs ∷ [] ≡ xs) × IsByte (be_value 0 xs)
unfolding be_value
one-be_value [] h k = absurd (omega arith)
one-be_value (a ∷ []) h (b, u) = (ap (λ (x : ℕ). x ∷ []) (omega arith), omega arith)
one-be_value (a ∷ b ∷ xs) h k = absurd (omega arith)

pub two-be_value :
    (xs : Bytes)
    → length xs ≡ 2
    → All IsByte xs
    → (be16 (be_value 0 xs) ≡ xs) × (be_value 0 xs < 65536)
unfolding be_value
two-be_value [] h k = absurd (omega arith)
two-be_value (a ∷ []) h k = absurd (omega arith)
two-be_value (a ∷ b ∷ []) h (ha, (hb, u)) = (be16-be_value a b ha hb, omega arith)
two-be_value (a ∷ b ∷ c ∷ xs) h k = absurd (omega arith)
