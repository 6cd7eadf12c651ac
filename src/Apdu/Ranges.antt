-- ===== src/Apdu/Ranges.antt =====
-- The ranges of what a card can read from a command in the short or the extended form
-- (crates/canokey-protocol/src/apdu.rs encodes both).
use libcanokey.Prelude.{
  ℕ, zero, suc, ◌<◌, ◌==◌, ◌≡◌, ◌≢◌, refl, sym, ap, ◌∙◌, ◌⊎◌, inl, inr, Bool, true, false, [], ◌∷◌,
  Option, none, some, arith, All, IsByte, All-drop, Bool-cases, Bytes, take, drop, length,
  from_be16,
}
use libcanokey.Apdu.{
  ExpectedLength, absent, ApduEncoding, short, extended, ApduHeader, max_field, out_of_range,
}
use libcanokey.Apdu.Iso7816.{
  Received, receive, read_body, short_body, extended_body, with_le, short_le, extended_le, or_max,
}

-- Whether the body of a command opens the extended form.
abbrev pub opens_extended : Bytes → Bool
opens_extended (cla ∷ ins ∷ p1 ∷ p2 ∷ zero ∷ x ∷ rest) = true
opens_extended _ = false

-- A command in a form. A header alone is a command in both forms.
abbrev pub IsForm : ApduEncoding → Bytes → Type 0
IsForm short bytes = opens_extended bytes ≡ false
IsForm extended bytes = (opens_extended bytes ≡ true) ⊎ (length bytes ≡ 4)

-- What a card received is within the ranges of a form.
none≢some : {r : Received} → ◌≢◌ {A = Option Received} none (some r)
none≢some e = cc

abbrev pub InRange : ℕ → Received → Type 0
InRange top r = (length r.body < top) × (out_of_range r.le top ≡ false)

or_max_range : (top n : ℕ) → 0 < top → n < top → out_of_range (or_max top n) top ≡ false
or_max_range top n p h = ground arith

short_le_range :
    (h : ApduHeader) (tail : Bytes) (le : ExpectedLength)
    → All IsByte tail
    → short_le h tail ≡ some le
    → out_of_range le 256 ≡ false
short_le_range h [] le b e = cc
short_le_range h (n ∷ []) le (b, bs) e =
    let found : or_max 256 n ≡ le = cc in
    ap (λ (x : ExpectedLength). out_of_range x 256) (sym found) ∙ or_max_range 256 n (omega arith) b
short_le_range h (n ∷ m ∷ rest) le b e = cc

from_be16_bound : (hi lo : ℕ) → IsByte hi → IsByte lo → from_be16 hi lo < 65536
from_be16_bound hi lo p q = omega arith

extended_le_range :
    (h : ApduHeader) (tail : Bytes) (le : ExpectedLength)
    → All IsByte tail
    → extended_le h tail ≡ some le
    → out_of_range le 65536 ≡ false
extended_le_range h [] le b e = cc
extended_le_range h (hi ∷ []) le b e = cc
extended_le_range h (hi ∷ lo ∷ []) le (b, (b', bs)) e =
    let found : or_max 65536 (from_be16 hi lo) ≡ le = cc in
    ap (λ (x : ExpectedLength). out_of_range x 65536) (sym found)
    ∙ or_max_range 65536 (from_be16 hi lo) (omega arith) (from_be16_bound hi lo b b')
extended_le_range h (hi ∷ lo ∷ x ∷ rest) le b e = cc

with_le_range :
    (h : ApduHeader) (body tail : Bytes) (read : Bytes → Option ExpectedLength) (r : Received)
    (top : ℕ)
    → ((le : ExpectedLength) → read tail ≡ some le → out_of_range le top ≡ false)
    → length body < top
    → with_le h body tail read ≡ some r
    → InRange top r
with_le_range h body [] read r top bound short_enough e =
    let found : record { header = h; body = body; le = absent } ≡ r = cc in
    rw (sym found) (short_enough, refl)
with_le_range h body (x ∷ xs) read r top bound short_enough e = go (read (x ∷ xs)) refl e
  where
    go :
        (o : Option ExpectedLength)
        → read (x ∷ xs) ≡ o
        → ◌≡◌ {A = Option Received}
            (elim o [ none ↦ none | some le ↦ some (record { header = h; body = body; le = le }) ])
            (some r)
        → InRange top r
    go none e f = cc
    go (some le) e f =
        let found : record { header = h; body = body; le = le } ≡ r = cc in
        rw (sym found) (short_enough, bound le e)

short_body_range :
    (h : ApduHeader) (n : ℕ) (rest : Bytes) (r : Received)
    → IsByte n
    → All IsByte rest
    → short_body h n rest ≡ some r
    → InRange 256 r
unfolding short_body
short_body_range h n rest r b bs e = elim (Bool-cases (length (take n rest) == n)) [
  | inl full ↦
      with_le_range h (take n rest) (drop n rest) (short_le h) r 256
        (λ le. short_le_range h (drop n rest) le (All-drop IsByte n rest bs)) (ground arith)
        (rw full at e)
  | inr cut ↦ absurd (none≢some (rw cut at e))
]

extended_body_range :
    (h : ApduHeader) (n : ℕ) (rest : Bytes) (r : Received)
    → n < 65536
    → All IsByte rest
    → extended_body h n rest ≡ some r
    → InRange 65536 r
unfolding extended_body
extended_body_range h n rest r b bs e = elim (Bool-cases (length (take n rest) == n)) [
  | inl full ↦
      with_le_range h (take n rest) (drop n rest) (extended_le h) r 65536
        (λ le. extended_le_range h (drop n rest) le (All-drop IsByte n rest bs)) (ground arith)
        (rw full at e)
  | inr cut ↦ absurd (none≢some (rw cut at e))
]

without_body_range :
    (h : ApduHeader) (le : ExpectedLength) (r : Received) (top : ℕ)
    → 0 < top
    → out_of_range le top ≡ false
    → ◌≡◌ {A = Option Received} (some (record { header = h; body = []; le = le })) (some r)
    → InRange top r
without_body_range h le r top some_room fits e =
    let found : record { header = h; body = []; le = le } ≡ r = cc in
    rw (sym found) (some_room, fits)

-- What a card reads from bytes in a form is within the form's ranges.
pub receive_range :
    (encoding : ApduEncoding) (bytes : Bytes) (r : Received)
    → All IsByte bytes
    → IsForm encoding bytes
    → receive bytes ≡ some r
    → InRange (max_field encoding) r
unfolding receive read_body
receive_range encoding [] r b f e = cc
receive_range encoding (cla ∷ []) r b f e = cc
receive_range encoding (cla ∷ ins ∷ []) r b f e = cc
receive_range encoding (cla ∷ ins ∷ p1 ∷ []) r b f e = cc
receive_range short (cla ∷ ins ∷ p1 ∷ p2 ∷ []) r b f e =
    without_body_range _ absent r 256 (omega arith) refl e
receive_range extended (cla ∷ ins ∷ p1 ∷ p2 ∷ []) r b f e =
    without_body_range _ absent r 65536 (omega arith) refl e
receive_range short (cla ∷ ins ∷ p1 ∷ p2 ∷ n ∷ []) r (_, (_, (_, (_, (b, _))))) f e =
    without_body_range _ (or_max 256 n) r 256 (omega arith) (or_max_range 256 n (omega arith) b) e
receive_range extended (cla ∷ ins ∷ p1 ∷ p2 ∷ zero ∷ []) r b (inl opens) e = cc
receive_range extended (cla ∷ ins ∷ p1 ∷ p2 ∷ suc n ∷ []) r b (inl opens) e = cc
receive_range extended (cla ∷ ins ∷ p1 ∷ p2 ∷ n ∷ []) r b (inr four) e = absurd (omega arith)
receive_range encoding (cla ∷ ins ∷ p1 ∷ p2 ∷ zero ∷ x ∷ []) r b f e = cc
receive_range short (cla ∷ ins ∷ p1 ∷ p2 ∷ zero ∷ hi ∷ lo ∷ []) r b f e = cc
receive_range extended (cla ∷ ins ∷ p1 ∷ p2 ∷ zero ∷ hi ∷ lo ∷ []) r
      (_, (_, (_, (_, (_, (b, (b', _))))))) f e =
    without_body_range _ (or_max 65536 (from_be16 hi lo)) r 65536 (omega arith)
      (or_max_range 65536 (from_be16 hi lo) (omega arith) (from_be16_bound hi lo b b')) e
receive_range short (cla ∷ ins ∷ p1 ∷ p2 ∷ zero ∷ hi ∷ lo ∷ x ∷ rest) r b f e = cc
receive_range extended (cla ∷ ins ∷ p1 ∷ p2 ∷ zero ∷ hi ∷ lo ∷ x ∷ rest) r
      (_, (_, (_, (_, (_, (b, (b', bs))))))) f e =
    extended_body_range _ (from_be16 hi lo) (x ∷ rest) r (from_be16_bound hi lo b b') bs e
receive_range short (cla ∷ ins ∷ p1 ∷ p2 ∷ suc n ∷ x ∷ rest) r (_, (_, (_, (_, (b, bs))))) f e =
    short_body_range _ (suc n) (x ∷ rest) r b bs e
receive_range extended (cla ∷ ins ∷ p1 ∷ p2 ∷ suc n ∷ x ∷ rest) r b (inl opens) e = cc
receive_range extended (cla ∷ ins ∷ p1 ∷ p2 ∷ suc n ∷ x ∷ rest) r b (inr four) e =
    absurd (omega arith)
