-- ===== src/Apdu/Iso7816.antt =====
-- An independent reading of ISO 7816-4 command framing: the seven cases of a command's body.
-- It models no code; it is what a card makes of the bytes that apdu.rs writes.
use libcanokey.Prelude.{
  ℕ, zero, suc, ◌==◌, [], ◌∷◌, Option, none, some, take, drop, length, if◌then◌else◌, Bytes,
  from_be16,
}
use libcanokey.Apdu.{ExpectedLength, absent, exact, ApduHeader}

pub record Received : Type 0 where
  pub header : ApduHeader
  pub body : Bytes
  pub le : ExpectedLength

-- An encoded Le of zero asks for the maximum.
abbrev pub or_max : ℕ → ℕ → ExpectedLength
or_max top n = if n == 0 then exact top else exact n

module _ (h : ApduHeader) where
  -- The data is cut at `n` bytes; what follows it is nothing or one encoded Le.
  abbrev pub with_le : Bytes → Bytes → (Bytes → Option ExpectedLength) → Option Received
  with_le body [] read = some (record { header = h; body = body; le = absent })
  with_le body (x ∷ xs) read = elim (read (x ∷ xs)) [
    | none ↦ none
    | some le ↦ some (record { header = h; body = body; le = le })
  ]

  abbrev pub short_le : Bytes → Option ExpectedLength
  short_le (n ∷ []) = some (or_max 256 n)
  short_le _ = none

  abbrev pub extended_le : Bytes → Option ExpectedLength
  extended_le (hi ∷ lo ∷ []) = some (or_max 65536 (from_be16 hi lo))
  extended_le _ = none

  unfoldable pub short_body : ℕ → Bytes → Option Received
  short_body n rest =
      if length (take n rest) == n then with_le (take n rest) (drop n rest) short_le else none

  unfoldable pub extended_body : ℕ → Bytes → Option Received
  extended_body n rest =
      if length (take n rest) == n then with_le (take n rest) (drop n rest) extended_le else none

  -- The body after the header. A first byte of zero with more behind it opens the extended form.
  unfoldable pub read_body : Bytes → Option Received
  read_body [] = some (record { header = h; body = []; le = absent })
  read_body (n ∷ []) = some (record { header = h; body = []; le = or_max 256 n })
  read_body (zero ∷ x ∷ []) = none
  read_body (zero ∷ hi ∷ lo ∷ []) =
      some (record { header = h; body = []; le = or_max 65536 (from_be16 hi lo) })
  read_body (zero ∷ hi ∷ lo ∷ x ∷ rest) = extended_body (from_be16 hi lo) (x ∷ rest)
  read_body (suc n ∷ x ∷ rest) = short_body (suc n) (x ∷ rest)

unfoldable pub receive : Bytes → Option Received
unfolding read_body
receive (cla ∷ ins ∷ p1 ∷ p2 ∷ rest) =
    read_body (record { cla = cla; ins = ins; p1 = p1; p2 = p2 }) rest
receive _ = none
