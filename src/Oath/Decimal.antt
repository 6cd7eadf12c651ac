-- ===== src/Oath/Decimal.antt =====
-- crates/canokey-oath/src/types.rs: `Calculation::decimal`. The loop fills the digits from the right;
-- the list of the model is filled in the same order and stands reversed.
use libcanokey.Prelude.{
  ℕ, zero, suc, ◌+◌, ◌*◌, ◌/◌, ◌%◌, ◌&&◌, [], ◌∷◌, Option, none, some, leb, if◌then◌else◌, Bytes,
}
use libcanokey.Oath.{truncated_code, Calculation}

-- `for digit in output.iter_mut().rev()`: the digits in front of those that are there.
unfoldable pub fill_digits : ℕ → ℕ → Bytes → Bytes
fill_digits zero number out = out
fill_digits (suc n) number out = fill_digits n (number / 10) ((0x30 + number % 10) ∷ out)

-- `u32::from_be_bytes`, where there are four bytes.
abbrev pub from_be32 : Bytes → Option ℕ
from_be32 (a ∷ b ∷ c ∷ d ∷ []) = some (((a * 256 + b) * 256 + c) * 256 + d)
from_be32 _ = none

abbrev pub digits_of : ℕ → Option ℕ → Option Bytes
digits_of digits none = none
digits_of digits (some number) =
    if leb 4 digits && leb digits 8 then some (fill_digits digits number []) else none

-- `Calculation::decimal`.
unfoldable pub decimal : Calculation → Option Bytes
unfolding fill_digits
decimal c = elim c.code [ truncated_code bytes ↦ digits_of c.digits (from_be32 bytes) | _ ↦ none ]
