-- ===== src/Oath/FieldLaws.antt =====
-- `fields` and `field` of crates/canokey-oath/src/execute.rs.
use libcanokey.Prelude.{
  ℕ, zero, suc, ◌%◌, ◌≤◌, ◌<◌, ◌≡◌, refl, sym, ap, ◌∙◌, ◌↔◌, inl, inr, false, List, [], ◌∷◌, ◌++◌,
  ltb, length, take, drop, Bytes, IsByte, All, All-drop, arith, Bool-cases, length-append,
  length-take, take-append_exact, drop-append_exact, take-append-drop,
}
use mathlib.Core.Path.{subst}
use libcanokey.Error.{ok, err, malformed, >>=-eq-ok, ok-injective}
use libcanokey.Oath.Fields.{field, Field, read_fields, fields}

-- The bytes of a list of fields.
abbrev pub encode_fields : List Field → Bytes
encode_fields [] = []
encode_fields ((tag, bytes) ∷ fs) = field tag bytes ++ encode_fields fs

-- The one length octet is enough for the value.
abbrev pub IsSmall : Field → Type 0
IsSmall (tag, bytes) = length bytes < 256

read_fields_sound :
    (fuel : ℕ) (bytes : Bytes) (fs : List Field)
    → All IsByte bytes
    → read_fields fuel bytes ≡ ok fs
    → (bytes ≡ encode_fields fs) × All IsSmall fs
unfolding read_fields
read_fields_sound fuel [] fs b e = let same : [] ≡ fs = ok-injective e in rw (sym same) (refl, tt)
read_fields_sound zero (x ∷ bs) fs b e = cc
read_fields_sound (suc fuel) (tag ∷ []) fs b e = cc
read_fields_sound (suc fuel) (tag ∷ n ∷ rest) fs (tag_byte, (n_byte, b)) e =
    elim (Bool-cases (ltb (length rest) n)) [
      | inl short ↦ absurd (refused (rw short at e))
      | inr enough ↦
          let (later, read, whole) =
            >>=-eq-ok (read_fields fuel (drop n rest)) _ (rw enough at e) in
          let (bytes_are, small) =
            read_fields_sound fuel (drop n rest) later (All-drop IsByte n rest b) read in
          let size : length (take n rest) ≡ n = length-take n rest ∙ ground (arith, enough) in
          let octet : length (take n rest) % 256 ≡ n = omega arith in
          let fs_are : (tag, take n rest) ∷ later ≡ fs = ok-injective whole in
          subst (λ (x : List Field). (tag ∷ n ∷ rest ≡ encode_fields x) × All IsSmall x) fs_are
            (
              ap (λ (xs : Bytes). tag ∷ n ∷ xs) (sym (take-append-drop n rest))
                  ∙ ap (λ (xs : Bytes). tag ∷ n ∷ (take n rest ++ xs)) bytes_are
                  ∙ ap (λ (k : ℕ). tag ∷ k ∷ (take n rest ++ encode_fields later)) (sym octet),
              (omega arith, small),
            )
    ]
  where
    refused : (err malformed ≡ ok fs) → ⊥
    refused h = cc

read_fields_complete :
    (fuel : ℕ) (fs : List Field)
    → All IsSmall fs
    → length (encode_fields fs) ≤ fuel
    → read_fields fuel (encode_fields fs) ≡ ok fs
unfolding read_fields
read_fields_complete fuel [] s h = refl
read_fields_complete zero ((tag, bytes) ∷ fs) s h = absurd (omega arith)
read_fields_complete (suc fuel) ((tag, bytes) ∷ fs) (small, s) h =
    let octet : length bytes % 256 ≡ length bytes = omega arith in
    let enough : ltb (length (bytes ++ encode_fields fs)) (length bytes) ≡ false =
      ground (arith, length-append bytes (encode_fields fs)) in
    let value : take (length bytes) (bytes ++ encode_fields fs) ≡ bytes =
      take-append_exact (length bytes) bytes (encode_fields fs) refl in
    let rest : drop (length bytes) (bytes ++ encode_fields fs) ≡ encode_fields fs =
      drop-append_exact (length bytes) bytes (encode_fields fs) refl in
    let later : read_fields fuel (encode_fields fs) ≡ ok fs =
      read_fields_complete fuel fs s (omega (arith, length-append bytes (encode_fields fs))) in
    rw (octet, enough, value, rest, later) refl

-- On bytes, `fields` accepts an input as a list of fields exactly if it is their concatenation, each
-- a tag, one length octet and the value, and every value has fewer than 256 bytes.
pub fields_iff :
    (bytes : Bytes) (fs : List Field)
    → All IsByte bytes
    → (fields bytes ≡ ok fs) ↔ ((bytes ≡ encode_fields fs) × All IsSmall fs)
unfolding fields
fields_iff bytes fs b = (
  λ e. read_fields_sound (length bytes) bytes fs b e,
  λ (is, small).
      ap (λ (xs : Bytes). read_fields (length xs) xs) is
      ∙ read_fields_complete (length (encode_fields fs)) fs small (omega arith),
)
