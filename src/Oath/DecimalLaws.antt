-- ===== src/Oath/DecimalLaws.antt =====
-- `Calculation::decimal` of crates/canokey-oath/src/types.rs.
use libcanokey.Prelude.{
  ℕ, zero, suc, ◌+◌, ◌-◌, ◌*◌, ◌/◌, ◌%◌, ◌^◌, ◌≤◌, ◌<◌, ◌≡◌, refl, sym, ap, ◌∙◌, true, ◌&&◌, [],
  ◌∷◌, some, leb, length, Bytes, All, arith,
}
use native.Mathlib.Nat.{
  div-add-mod, mul_assoc, mul_comm, mod-lt, mod-eq_of_lt, add-mul-mod_self_left, mod-one, pow-zero,
  pow-suc, one-le-pow,
}
use libcanokey.Oath.{truncated_code, Calculation}
use libcanokey.Oath.Decimal.{fill_digits, from_be32, decimal}

-- The number that ASCII digits write, behind the number that is read already.
abbrev pub read_decimal : ℕ → Bytes → ℕ
read_decimal acc [] = acc
read_decimal acc (c ∷ cs) = read_decimal (acc * 10 + (c - 0x30)) cs

abbrev pub IsDigit : ℕ → Type 0
IsDigit c = (0x30 ≤ c) × (c ≤ 0x39)

fill_digits-length :
    (n number : ℕ) (out : Bytes) → length (fill_digits n number out) ≡ n + length out
unfolding fill_digits
fill_digits-length zero number out = omega arith
fill_digits-length (suc n) number out =
    omega (arith, fill_digits-length n (number / 10) ((0x30 + number % 10) ∷ out))

fill_digits-IsDigit :
    (n number : ℕ) (out : Bytes) → All IsDigit out → All IsDigit (fill_digits n number out)
unfolding fill_digits
fill_digits-IsDigit zero number out h = h
fill_digits-IsDigit (suc n) number out h =
    fill_digits-IsDigit n (number / 10) ((0x30 + number % 10) ∷ out) ((omega arith, omega arith), h)

-- One more digit of a remainder.
mod_ten : (p number : ℕ) → 0 < p → number % (p * 10) ≡ (number / 10 % p) * 10 + number % 10
mod_ten p number pos =
    let q : ℕ = number / 10 / p in
    let x : ℕ = (number / 10 % p) * 10 + number % 10 in
    let tens : p * q + number / 10 % p ≡ number / 10 = div-add-mod (number / 10) p in
    let moved : p * 10 * q ≡ p * q * 10 =
      mul_assoc p 10 q ∙ ap (λ (t : ℕ). p * t) (mul_comm 10 q) ∙ sym (mul_assoc p q 10) in
    let small : number / 10 % p < p = mod-lt (number / 10) pos in
    let whole : number ≡ x + p * 10 * q = omega (arith, ap (λ (t : ℕ). t * 10) tens) in
    ap (λ (t : ℕ). t % (p * 10)) whole
    ∙ add-mul-mod_self_left x (p * 10) q
    ∙ mod-eq_of_lt (omega arith)

read_decimal-fill_digits :
    (n number acc : ℕ) (out : Bytes)
    → read_decimal acc (fill_digits n number out)
      ≡ read_decimal (acc * 10 ^ n + number % 10 ^ n) out
unfolding fill_digits
read_decimal-fill_digits zero number acc out =
    ap (λ (t : ℕ). read_decimal t out) (rw (pow-zero 10) (omega (arith, mod-one number)))
read_decimal-fill_digits (suc n) number acc out =
    let p : ℕ = 10 ^ n in
    let pos : 1 ≤ p = one-le-pow n 10 (omega arith) in
    let step : (acc * p + number / 10 % p) * 10 + (0x30 + number % 10 - 0x30)
        ≡ acc * (p * 10) + number % (p * 10) =
      omega (arith, mod_ten p number pos, mul_assoc acc p 10) in
    read_decimal-fill_digits n (number / 10) acc ((0x30 + number % 10) ∷ out)
    ∙ ap (λ (t : ℕ). read_decimal t out)
        (step ∙ ap (λ (t : ℕ). acc * t + number % t) (sym (pow-suc 10 n)))

-- A truncated code of four bytes with four to eight digits is formatted as exactly that many ASCII
-- digits, and they write the code's number modulo that power of ten, leading zeros included.
pub decimal_digits :
    (c : Calculation) (bytes : Bytes) (number : ℕ)
    → c.code ≡ truncated_code bytes
    → from_be32 bytes ≡ some number
    → 4 ≤ c.digits
    → c.digits ≤ 8
    → (out : Bytes) × (decimal c ≡ some out)
      × (length out ≡ c.digits)
      × All IsDigit out
      × (read_decimal 0 out ≡ number % 10 ^ c.digits)
unfolding decimal
decimal_digits c bytes number is_code four low high =
    let ranged : (leb 4 c.digits && leb c.digits 8) ≡ true = ground arith in
    (
      fill_digits c.digits number [],
      rw (is_code, four, ranged) refl,
      fill_digits-length c.digits number [] ∙ omega arith,
      fill_digits-IsDigit c.digits number [] tt,
      read_decimal-fill_digits c.digits number 0 [] ∙ omega arith,
    )
