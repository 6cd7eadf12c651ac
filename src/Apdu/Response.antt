-- ===== src/Apdu/Response.antt =====
-- `ResponseApdu::parse` on every input.
use libcanokey.Prelude.{
  ℕ, zero, suc, ◌-◌, ◌≤◌, ◌<◌, ◌≡◌, refl, ap, ◌⊎◌, inl, inr, [], ◌∷◌, ◌++◌, some, arith, Bytes,
  length, get_elem?, from_be16, length-append, take-append_exact, ltb, lt→ltb, false, ◌∙◌, ◌+◌,
}
use native.Mathlib.Decide.{dec_lt}
use libcanokey.Error.{err, ok, malformed}
use libcanokey.Apdu.{parse}

get_elem?-append_exact :
    (n : ℕ) (xs : Bytes) (y : ℕ) (ys : Bytes)
    → length xs ≡ n
    → get_elem? (xs ++ (y ∷ ys)) n ≡ some y
get_elem?-append_exact zero [] y ys h = refl
get_elem?-append_exact zero (x ∷ xs) y ys h = absurd (omega arith)
get_elem?-append_exact (suc n) [] y ys h = absurd (omega arith)
get_elem?-append_exact (suc n) (x ∷ xs) y ys h = get_elem?-append_exact n xs y ys (omega arith)

get_elem?-append_next :
    (xs : Bytes) (y z : ℕ) → get_elem? (xs ++ (y ∷ z ∷ [])) (suc (length xs)) ≡ some z
get_elem?-append_next [] y z = refl
get_elem?-append_next (x ∷ xs) y z = get_elem?-append_next xs y z

-- A status word behind any data.
pub parse_status :
    (body : Bytes) (hi lo : ℕ)
    → parse (body ++ (hi ∷ lo ∷ [])) ≡ ok (record { body = body; status = from_be16 hi lo })
unfolding parse
parse_status body hi lo =
    let n : length (body ++ (hi ∷ lo ∷ [])) ≡ length body + 2 = length-append body (hi ∷ lo ∷ []) in
    let first : length (body ++ (hi ∷ lo ∷ [])) - 2 ≡ length body = omega (arith, n) in
    let second : length (body ++ (hi ∷ lo ∷ [])) - 1 ≡ suc (length body) = omega (arith, n) in
    let long : ltb (length (body ++ (hi ∷ lo ∷ []))) 2 ≡ false = ground (arith, n) in
    rw (
      long,
      first,
      second,
      get_elem?-append_exact (length body) body hi (lo ∷ []) refl,
      get_elem?-append_next body hi lo,
      take-append_exact (length body) body (hi ∷ lo ∷ []) refl,
    )

parse_short : (bytes : Bytes) → length bytes < 2 → parse bytes ≡ err malformed
unfolding parse
parse_short bytes h = rw (lt→ltb _ _ h)

-- A list of two bytes or more ends in two bytes.
split_status :
    (bytes : Bytes)
    → 2 ≤ length bytes
    → (body : Bytes) × (hi : ℕ) × (lo : ℕ) × (bytes ≡ body ++ (hi ∷ lo ∷ []))
split_status [] h = absurd (omega arith)
split_status (x ∷ []) h = absurd (omega arith)
split_status (x ∷ y ∷ []) h = ([], x, y, refl)
split_status (x ∷ y ∷ z ∷ zs) h =
    let (body, hi, lo, e) = split_status (y ∷ z ∷ zs) (omega arith) in
    (x ∷ body, hi, lo, ap (◌∷◌ x) e)

-- `parse` answers on every input: fewer than two bytes are malformed, and any other input is split
-- into its data and the big-endian status word of its last two bytes.
pub parse_total :
    (bytes : Bytes)
    → ((length bytes < 2) × (parse bytes ≡ err malformed))
      ⊎ ((body : Bytes) × (hi : ℕ) × (lo : ℕ) × (bytes ≡ body ++ (hi ∷ lo ∷ []))
          × (parse bytes ≡ ok (record { body = body; status = from_be16 hi lo })))
parse_total bytes = elim (dec_lt (length bytes) 2) [
  | yes h ↦ inl (h, parse_short bytes h)
  | no h ↦
      let (body, hi, lo, e) = split_status bytes (omega arith) in
      inr (body, hi, lo, e, ap parse e ∙ parse_status body hi lo)
]
