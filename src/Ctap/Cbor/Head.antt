-- ===== src/Ctap/Cbor/Head.antt =====
-- The initial byte and the argument of an item: `head`, `read_be` and the argument of `parse_at` in
-- crates/canokey-ctap/src/cbor.rs.
use libcanokey.Prelude.{
  ℕ, ◌+◌, ◌-◌, ◌*◌, ◌/◌, ◌%◌, ◌^◌, ◌≤◌, ◌<◌, ◌==◌, ◌≡◌, refl, sym, ap, ◌∙◌, inl, inr, true, false,
  [], ◌∷◌, ◌++◌, leb, ltb, if◌then◌else◌, length, take, drop, Bytes, IsByte, All, All-drop,
  All-take, be16, arith, Bool-cases, take-append-drop, length-take, length-append,
  take-append_exact, drop-append_exact,
}
use mathlib.Core.Path.{subst}
use libcanokey.Error.{Result, ok, err, malformed, >>=-eq-ok, reject-eq-ok, ok-injective}
use libcanokey.Tlv.{be32}
use libcanokey.Ctap.Cbor.Encode.{be64, head}
use libcanokey.Ctap.Cbor.Parse.{be_value, read_be, wide_argument, parse_argument}
use libcanokey.Ctap.Cbor.Wire.{IsU64}
use libcanokey.Ctap.Cbor.Octets.{
  be_value-be32, be_value-be16, be_value-be64, be32-be_value, be64-be_value, one-be_value,
  two-be_value,
}

read_be-eq :
    (count : ℕ) (bs : Bytes) (p : ℕ × Bytes)
    → read_be count bs ≡ ok p
    → (count ≤ length bs) × (be_value 0 (take count bs) ≡ p.0) × (drop count bs ≡ p.1)
unfolding read_be
read_be-eq count bs p e = elim (Bool-cases (ltb (length bs) count)) [
  | inl short ↦ absurd (refused (rw short at e))
  | inr long ↦
      let given : ◌≡◌ {A = ℕ × Bytes} (be_value 0 (take count bs), drop count bs) p =
        ok-injective (rw long at e) in
      (ground arith, ap (λ q. q.0) given, ap (λ q. q.1) given)
]
  where
    refused : (err malformed ≡ ok p) → ⊥
    refused h = cc

-- The bytes that a long argument is read from.
wide_argument-eq :
    (count n : ℕ) (bs rest : Bytes)
    → wide_argument count bs ≡ ok (n, rest)
    → (count ≤ length bs)
      × (be_value 0 (take count bs) ≡ n)
      × (drop count bs ≡ rest)
      × (ltb n (if count == 1 then 24 else 2 ^ (8 * (count / 2))) ≡ false)
unfolding wide_argument
wide_argument-eq count n bs rest e =
    let (p, read, later) = >>=-eq-ok (read_be count bs) _ e in
    let (enough, given) =
      reject-eq-ok (ltb p.0 (if count == 1 then 24 else 2 ^ (8 * (count / 2)))) malformed (ok p)
        later in
    let p_is : p ≡ (n, rest) = ok-injective given in
    let (long, value_is, rest_is) = read_be-eq count bs p read in
    (
      long,
      value_is ∙ ap (λ q. q.0) p_is,
      rest_is ∙ ap (λ q. q.1) p_is,
      subst (λ (q : ℕ × Bytes). ltb q.0 (if count == 1 then 24 else 2 ^ (8 * (count / 2))) ≡ false)
          p_is enough,
    )

-- `read_be` of bytes that are there.
read_be-append :
    (count : ℕ) (xs rest : Bytes)
    → length xs ≡ count
    → read_be count (xs ++ rest) ≡ ok (be_value 0 xs, rest)
unfolding read_be
read_be-append count xs rest h =
    let enough : ltb (length (xs ++ rest)) count ≡ false = ground (arith, length-append xs rest) in
    let value : take count (xs ++ rest) ≡ xs = take-append_exact count xs rest h in
    let others : drop count (xs ++ rest) ≡ rest = drop-append_exact count xs rest h in
    rw (enough, value, others) refl

wide_argument-append :
    (count n : ℕ) (xs rest : Bytes)
    → length xs ≡ count
    → be_value 0 xs ≡ n
    → ltb n (if count == 1 then 24 else 2 ^ (8 * (count / 2))) ≡ false
    → wide_argument count (xs ++ rest) ≡ ok (n, rest)
unfolding wide_argument
wide_argument-append count n xs rest h v shortest =
    rw (read_be-append count xs rest h, v, shortest) refl

parse_argument-small :
    (initial n : ℕ) (rest : Bytes)
    → initial % 32 ≡ n
    → ltb n 24 ≡ true
    → parse_argument (initial % 32) rest ≡ ok (n, rest)
unfolding parse_argument
parse_argument-small initial n rest e tiny = rw (e, tiny) refl

parse_argument-wide :
    (initial k n : ℕ) (xs rest : Bytes)
    → initial % 32 ≡ 24 + k
    → k < 4
    → length xs ≡ 2 ^ k
    → be_value 0 xs ≡ n
    → ltb n (if 2 ^ k == 1 then 24 else 2 ^ (8 * (2 ^ k / 2))) ≡ false
    → parse_argument (initial % 32) (xs ++ rest) ≡ ok (n, rest)
unfolding parse_argument
parse_argument-wide initial k n xs rest e h l v s =
    let back : 24 + k - 24 ≡ k = omega arith in
    let c1 : ltb (24 + k) 24 ≡ false = ground arith in
    let c2 : leb (24 + k) 27 ≡ true = ground arith in
    rw (e, c1, c2, back) (wide_argument-append (2 ^ k) n xs rest l v s)

-- The argument of a head is read back.
pub parse_argument-head :
    (major n : ℕ) (rest : Bytes)
    → IsU64 n
    → (initial : ℕ) × (more : Bytes) × (head major n ≡ initial ∷ more)
      × (initial / 32 ≡ major)
      × (parse_argument (initial % 32) (more ++ rest) ≡ ok (n, rest))
unfolding head be_value
parse_argument-head major n rest h = elim (Bool-cases (ltb n 24)) [
  | inl tiny ↦
      let small : n < 24 = ground arith in
      (
        major * 32 + n,
        [],
        rw tiny refl,
        omega arith,
        parse_argument-small (major * 32 + n) n rest (omega arith) tiny,
      )
  | inr c1 ↦ elim (Bool-cases (leb n 255)) [
    | inl one ↦ (
      major * 32 + 24,
      n ∷ [],
      rw (c1, one) refl,
      omega arith,
      parse_argument-wide (major * 32 + 24) 0 n (n ∷ []) rest (omega arith) (omega arith) refl
          (omega arith) (ground arith),
    )
    | inr c2 ↦ elim (Bool-cases (leb n 65535)) [
      | inl two ↦ (
        major * 32 + 25,
        be16 n,
        rw (c1, c2, two) refl,
        omega arith,
        parse_argument-wide (major * 32 + 25) 1 n (be16 n) rest (omega arith) (omega arith) refl
            (be_value-be16 n (ground arith)) (ground arith),
      )
      | inr c3 ↦ elim (Bool-cases (leb n 4294967295)) [
        | inl four ↦ (
          major * 32 + 26,
          be32 n,
          rw (c1, c2, c3, four) refl,
          omega arith,
          parse_argument-wide (major * 32 + 26) 2 n (be32 n) rest (omega arith) (omega arith) refl
              (be_value-be32 0 n (omega arith) (ground arith) ∙ omega arith) (ground arith),
        )
        | inr c4 ↦ (
          major * 32 + 27,
          be64 n,
          rw (c1, c2, c3, c4) refl,
          omega arith,
          parse_argument-wide (major * 32 + 27) 3 n (be64 n) rest (omega arith) (omega arith) refl
              (be_value-be64 n h) (ground arith),
        )
      ]
    ]
  ]
]

-- The head that has these octets after its initial byte.
head-octets :
    (initial n count : ℕ) (bs rest octets : Bytes)
    → head (initial / 32) n ≡ initial ∷ octets
    → octets ≡ take count bs
    → drop count bs ≡ rest
    → initial ∷ bs ≡ head (initial / 32) n ++ rest
head-octets initial n count bs rest octets head_is octets_are rest_is =
    ap (λ (xs : Bytes). initial ∷ xs) (sym (take-append-drop count bs))
    ∙ ap (λ (xs : Bytes). initial ∷ (xs ++ drop count bs)) (sym octets_are)
    ∙ ap (λ (xs : Bytes). initial ∷ (octets ++ xs)) rest_is
    ∙ ap (λ (xs : Bytes). xs ++ rest) (sym head_is)

module _ (initial n : ℕ) (bs rest : Bytes) (k : All IsByte bs) where
  abbrev Sound : Type 0
  Sound = (initial ∷ bs ≡ head (initial / 32) n ++ rest) × IsU64 n × All IsByte rest

  taken :
      (count : ℕ)
      → count ≤ length bs
      → drop count bs ≡ rest
      → (length (take count bs) ≡ count) × All IsByte (take count bs) × All IsByte rest
  taken count long rest_is = (
    length-take count bs ∙ omega arith,
    All-take IsByte count bs k,
    subst (All IsByte) rest_is (All-drop IsByte count bs k),
  )

  sound_one : initial % 32 ≡ 24 → wide_argument 1 bs ≡ ok (n, rest) → Sound
  unfolding head
  sound_one info e =
      let (long, value_is, rest_is, shortest) = wide_argument-eq 1 n bs rest e in
      let (size, bytes, good) = taken 1 long rest_is in
      let (octets, small) = one-be_value (take 1 bs) size bytes in
      let c1 : ltb n 24 ≡ false = shortest in
      let c2 : leb n 255 ≡ true = ground arith in
      let first : initial / 32 * 32 + 24 ≡ initial = omega arith in
      (
        head-octets initial n 1 bs rest (n ∷ []) (rw (c1, c2, first) refl)
            (ap (λ (x : ℕ). x ∷ []) (sym value_is) ∙ octets) rest_is,
        omega arith,
        good,
      )

  sound_two : initial % 32 ≡ 25 → wide_argument 2 bs ≡ ok (n, rest) → Sound
  unfolding head
  sound_two info e =
      let (long, value_is, rest_is, shortest) = wide_argument-eq 2 n bs rest e in
      let (size, bytes, good) = taken 2 long rest_is in
      let (octets, small) = two-be_value (take 2 bs) size bytes in
      let c0 : 256 ≤ n = ground arith in
      let c1 : ltb n 24 ≡ false = ground arith in
      let c2 : leb n 255 ≡ false = ground arith in
      let c3 : leb n 65535 ≡ true = ground arith in
      let first : initial / 32 * 32 + 25 ≡ initial = omega arith in
      (
        head-octets initial n 2 bs rest (be16 n) (rw (c1, c2, c3, first) refl)
            (ap be16 (sym value_is) ∙ octets) rest_is,
        omega arith,
        good,
      )

  sound_four : initial % 32 ≡ 26 → wide_argument 4 bs ≡ ok (n, rest) → Sound
  unfolding head
  sound_four info e =
      let (long, value_is, rest_is, shortest) = wide_argument-eq 4 n bs rest e in
      let (size, bytes, good) = taken 4 long rest_is in
      let (octets, small) = be32-be_value (take 4 bs) size bytes in
      let c0 : 65536 ≤ n = ground arith in
      let c1 : ltb n 24 ≡ false = ground arith in
      let c2 : leb n 255 ≡ false = ground arith in
      let c3 : leb n 65535 ≡ false = ground arith in
      let c4 : leb n 4294967295 ≡ true = ground arith in
      let first : initial / 32 * 32 + 26 ≡ initial = omega arith in
      (
        head-octets initial n 4 bs rest (be32 n) (rw (c1, c2, c3, c4, first) refl)
            (ap be32 (sym value_is) ∙ octets) rest_is,
        omega arith,
        good,
      )

  sound_eight : initial % 32 ≡ 27 → wide_argument 8 bs ≡ ok (n, rest) → Sound
  unfolding head
  sound_eight info e =
      let (long, value_is, rest_is, shortest) = wide_argument-eq 8 n bs rest e in
      let (size, bytes, good) = taken 8 long rest_is in
      let (octets, small) = be64-be_value (take 8 bs) size bytes in
      let c0 : 4294967296 ≤ n = ground arith in
      let c1 : ltb n 24 ≡ false = ground arith in
      let c2 : leb n 255 ≡ false = ground arith in
      let c3 : leb n 65535 ≡ false = ground arith in
      let c4 : leb n 4294967295 ≡ false = ground arith in
      let first : initial / 32 * 32 + 27 ≡ initial = omega arith in
      (
        head-octets initial n 8 bs rest (be64 n) (rw (c1, c2, c3, c4, first) refl)
            (ap be64 (sym value_is) ∙ octets) rest_is,
        omega arith,
        good,
      )

  sound_small : initial % 32 ≡ n → bs ≡ rest → n < 24 → Sound
  unfolding head
  sound_small info same small =
      let c1 : ltb n 24 ≡ true = ground arith in
      let first : initial / 32 * 32 + n ≡ initial = omega arith in
      (
        rw (c1, first) (ap (λ (xs : Bytes). initial ∷ xs) same),
        omega arith,
        subst (All IsByte) same k,
      )

  -- An argument that is accepted has the shortest form.
  pub head-parse_argument : parse_argument (initial % 32) bs ≡ ok (n, rest) → Sound
  unfolding parse_argument
  head-parse_argument e = elim (Bool-cases (ltb (initial % 32) 24)) [
    | inl tiny ↦
        let both : ◌≡◌ {A = ℕ × Bytes} (initial % 32, bs) (n, rest) = ok-injective (rw tiny at e) in
        let info : initial % 32 ≡ n = ap (λ p. p.0) both in
        sound_small info (ap (λ p. p.1) both) (ground arith)
    | inr c1 ↦ elim (Bool-cases (leb (initial % 32) 27)) [
      | inr above ↦ absurd (refused (rw (c1, above) at e))
      | inl c2 ↦ by_width (rw (c1, c2) at e) (ground arith)
    ]
  ]
    where
      refused : (◌≡◌ {A = Result (ℕ × Bytes)} (err malformed) (ok (n, rest))) → ⊥
      refused h = cc

      at_width :
          (k : ℕ)
          → initial % 32 ≡ k
          → wide_argument (2 ^ (initial % 32 - 24)) bs ≡ ok (n, rest)
          → wide_argument (2 ^ (k - 24)) bs ≡ ok (n, rest)
      at_width k info g = subst (λ (x : ℕ). wide_argument (2 ^ (x - 24)) bs ≡ ok (n, rest)) info g

      by_width :
          wide_argument (2 ^ (initial % 32 - 24)) bs ≡ ok (n, rest)
          → (24 ≤ initial % 32) × (initial % 32 ≤ 27)
          → Sound
      by_width g (low, high) = elim (Bool-cases (initial % 32 == 24)) [
        | inl is ↦
            let info : initial % 32 ≡ 24 = ground arith in sound_one info (at_width 24 info g)
        | inr n24 ↦ elim (Bool-cases (initial % 32 == 25)) [
          | inl is ↦
              let info : initial % 32 ≡ 25 = ground arith in sound_two info (at_width 25 info g)
          | inr n25 ↦ elim (Bool-cases (initial % 32 == 26)) [
            | inl is ↦
                let info : initial % 32 ≡ 26 = ground arith in sound_four info (at_width 26 info g)
            | inr n26 ↦
                let info : initial % 32 ≡ 27 = ground arith in sound_eight info (at_width 27 info g)
          ]
        ]
      ]
