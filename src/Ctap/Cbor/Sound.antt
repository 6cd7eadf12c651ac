-- ===== src/Ctap/Cbor/Sound.antt =====
-- What `parse_at` of crates/canokey-ctap/src/cbor.rs accepts.
use libcanokey.Prelude.{
  ℕ, zero, suc, ◌/◌, ◌%◌, ◌==◌, ◌<◌, ◌≡◌, refl, sym, ap, ◌∙◌, inl, inr, Bool, true, false, [], ◌∷◌,
  ◌++◌, ltb, length, take, drop, Bytes, IsByte, All, All-drop, arith, Bool-cases, take-append-drop,
  length-take,
}
use mathlib.Core.Path.{subst}
use mathlib.Core.List.{append_assoc}
use libcanokey.Error.{ok, err, malformed, ◌>>=◌, >>=-eq-ok, reject-eq-ok, ok-injective}
use libcanokey.Ctap.Cbor.{
  Value, unsigned, negative, byte_string, text, array, map, boolean, null, count_items,
  count_entries,
}
use libcanokey.Ctap.Cbor.Encode.{head}
use libcanokey.Ctap.Cbor.Parse.{
  Parsed, simple, parse_items, parse_entries, taken, parse_array, parse_map, parse_major, parse_by,
  parse_at, parse_argument,
}
use libcanokey.Ctap.Cbor.Wire.{wire, wire_items, wire_entries, IsU64, IsItemBy, IsItem}
use libcanokey.Ctap.Cbor.Head.{head-parse_argument}
use libcanokey.Ctap.Cbor.Loops.{IsSound, parse_items_sound, parse_entries_sound}

-- The six major types that have an argument.
below_six : (Q : ℕ → Type 0) → Q 0 → Q 1 → Q 2 → Q 3 → Q 4 → Q 5 → (m : ℕ) → m < 6 → Q m
below_six Q a b c d e f zero h = a
below_six Q a b c d e f (suc zero) h = b
below_six Q a b c d e f (suc (suc zero)) h = c
below_six Q a b c d e f (suc (suc (suc zero))) h = d
below_six Q a b c d e f (suc (suc (suc (suc zero)))) h = e
below_six Q a b c d e f (suc (suc (suc (suc (suc zero))))) h = f
below_six Q a b c d e f (suc (suc (suc (suc (suc (suc m)))))) h = absurd (omega arith)

module _ (is_utf8 : Bytes → Bool) where
  module _ (P : Value → Type 0) (inner : Bytes → Parsed) (sound : IsSound is_utf8 P inner) where
    -- What is behind a head: the bytes from the initial one on are the item's.
    abbrev Body : ℕ → ℕ → Bytes → Value → Bytes → Type 0
    Body major n bs v rest =
        (head major n ++ bs ≡ wire v ++ rest) × IsItemBy is_utf8 P v × All IsByte rest

    parse_array_sound :
        (n : ℕ) (bs : Bytes) (v : Value) (rest : Bytes)
        → All IsByte bs
        → IsU64 n
        → parse_array is_utf8 inner n bs ≡ ok (v, rest)
        → Body 4 n bs v rest
    unfolding parse_array wire
    parse_array_sound n bs v rest b small e =
        let (enough, e1) =
          reject-eq-ok (ltb (length bs) n) malformed
            (parse_items is_utf8 inner n bs >>= λ p. ok (array p.0, p.1)) e in
        let (p, items, e2) = >>=-eq-ok (parse_items is_utf8 inner n bs) _ e1 in
        let (bs_are, counted, all, b1) =
          parse_items_sound is_utf8 P inner sound n bs p.0 p.1 b items in
        let whole : ◌≡◌ {A = Value × Bytes} (array p.0, p.1) (v, rest) = ok-injective e2 in
        subst (λ (r : Value × Bytes). Body 4 n bs r.0 r.1) whole
          (
            ap (λ (xs : Bytes). head 4 n ++ xs) bs_are
                ∙ ap (λ (m : ℕ). head 4 m ++ (wire_items p.0 ++ p.1)) (sym counted)
                ∙ sym (append_assoc (head 4 (count_items p.0)) (wire_items p.0) p.1),
            (subst IsU64 (sym counted) small, all),
            b1,
          )

    parse_map_sound :
        (n : ℕ) (bs : Bytes) (v : Value) (rest : Bytes)
        → All IsByte bs
        → IsU64 n
        → parse_map is_utf8 inner n bs ≡ ok (v, rest)
        → Body 5 n bs v rest
    unfolding parse_map wire
    parse_map_sound n bs v rest b small e =
        let (enough, e1) =
          reject-eq-ok (ltb (length bs / 2) n) malformed
            (parse_entries is_utf8 inner n [] bs >>= λ p. ok (map p.0, p.1)) e in
        let (p, entries, e2) = >>=-eq-ok (parse_entries is_utf8 inner n [] bs) _ e1 in
        let (bs_are, counted, all, unique, b1) =
          parse_entries_sound is_utf8 P inner sound n [] bs p.0 p.1 b entries in
        let whole : ◌≡◌ {A = Value × Bytes} (map p.0, p.1) (v, rest) = ok-injective e2 in
        subst (λ (r : Value × Bytes). Body 5 n bs r.0 r.1) whole
          (
            ap (λ (xs : Bytes). head 5 n ++ xs) bs_are
                ∙ ap (λ (m : ℕ). head 5 m ++ (wire_entries p.0 ++ p.1)) (sym counted)
                ∙ sym (append_assoc (head 5 (count_entries p.0)) (wire_entries p.0) p.1),
            (subst IsU64 (sym counted) small, all, unique),
            b1,
          )

    -- The bytes that a string takes.
    taken_sound :
        (make : Bytes → Value) (good : Bytes → Bool) (n : ℕ) (bs : Bytes) (v : Value) (rest : Bytes)
        → All IsByte bs
        → taken is_utf8 inner make good n bs ≡ ok (v, rest)
        → (b : Bytes) × (make b ≡ v)
          × (good b ≡ true)
          × (length b ≡ n)
          × (bs ≡ b ++ rest)
          × All IsByte rest
    taken_sound make good n bs v rest b e = elim (Bool-cases (ltb (length bs) n)) [
      | inl short ↦ absurd (refused (rw short at e))
      | inr long ↦ elim (Bool-cases (good (take n bs))) [
        | inr bad ↦ absurd (refused (rw (long, bad) at e))
        | inl fine ↦
            let whole : ◌≡◌ {A = Value × Bytes} (make (take n bs), drop n bs) (v, rest) =
              ok-injective (rw (long, fine) at e) in
            (
              take n bs,
              ap (λ p. p.0) whole,
              fine,
              length-take n bs ∙ ground (arith, long),
              sym (take-append-drop n bs)
                  ∙ ap (λ (xs : Bytes). take n bs ++ xs) (ap (λ p. p.1) whole),
              subst (All IsByte) (ap (λ p. p.1) whole) (All-drop IsByte n bs b),
            )
      ]
    ]
      where
        refused : (◌≡◌ {A = Parsed} (err malformed) (ok (v, rest))) → ⊥
        refused h = cc

    parse_major_sound :
        (argument : ℕ) (bs : Bytes) (v : Value) (rest : Bytes)
        → All IsByte bs
        → IsU64 argument
        → (major : ℕ) → major < 6
        → parse_major is_utf8 inner major argument bs ≡ ok (v, rest)
        → Body major argument bs v rest
    unfolding parse_major wire
    parse_major_sound argument bs v rest b small =
        below_six
          (λ m. parse_major is_utf8 inner m argument bs ≡ ok (v, rest) → Body m argument bs v rest)
          (λ e. number 0 unsigned (λ n. refl) (λ n k. k) e)
          (λ e. number 1 negative (λ n. refl) (λ n k. k) e)
          (λ e. string 2 byte_string (λ xs. true) (λ xs. refl) (λ xs k g. k) e)
          (λ e. string 3 text is_utf8 (λ xs. refl) (λ xs k g. (k, g)) e)
          (parse_array_sound argument bs v rest b small)
          (parse_map_sound argument bs v rest b small)
      where
        number :
            (major : ℕ) (make : ℕ → Value)
            → ((n : ℕ) → wire (make n) ≡ head major n)
            → ((n : ℕ) → IsU64 n → IsItemBy is_utf8 P (make n))
            → ◌≡◌ {A = Parsed} (ok (make argument, bs)) (ok (v, rest))
            → Body major argument bs v rest
        number major make is good e =
            let whole : ◌≡◌ {A = Value × Bytes} (make argument, bs) (v, rest) = ok-injective e in
            subst (λ (r : Value × Bytes). Body major argument bs r.0 r.1) whole
              (ap (λ (xs : Bytes). xs ++ bs) (sym (is argument)), good argument small, b)

        string :
            (major : ℕ) (make : Bytes → Value) (test : Bytes → Bool)
            → ((xs : Bytes) → wire (make xs) ≡ head major (length xs) ++ xs)
            → ((xs : Bytes) → IsU64 (length xs) → test xs ≡ true → IsItemBy is_utf8 P (make xs))
            → taken is_utf8 inner make test argument bs ≡ ok (v, rest)
            → Body major argument bs v rest
        string major make test is good e =
            let (xs, v_is, fine, size, bs_are, b1) = taken_sound make test argument bs v rest b e in
            subst (λ (u : Value). Body major argument bs u rest) v_is
              (
                ap (λ (ys : Bytes). head major argument ++ ys) bs_are
                    ∙ sym (append_assoc (head major argument) xs rest)
                    ∙ ap (λ (n : ℕ). (head major n ++ xs) ++ rest) (sym size)
                    ∙ ap (λ (ys : Bytes). ys ++ rest) (sym (is xs)),
                good xs (subst IsU64 (sym size) small) fine,
                b1,
              )

    simple_sound :
        (initial : ℕ) (bs : Bytes) (v : Value) (rest : Bytes)
        → All IsByte bs
        → initial / 32 ≡ 7
        → simple (initial % 32) bs ≡ ok (v, rest)
        → (initial ∷ bs ≡ wire v ++ rest) × IsItemBy is_utf8 P v × All IsByte rest
    unfolding wire
    simple_sound initial bs v rest b seven e = elim (Bool-cases (initial % 32 == 20)) [
      | inl is ↦ found (boolean false) 0xf4 refl tt (ground arith) (rw is at e)
      | inr c1 ↦ elim (Bool-cases (initial % 32 == 21)) [
        | inl is ↦ found (boolean true) 0xf5 refl tt (ground arith) (rw (c1, is) at e)
        | inr c2 ↦ elim (Bool-cases (initial % 32 == 22)) [
          | inl is ↦ found null 0xf6 refl tt (ground arith) (rw (c1, c2, is) at e)
          | inr c3 ↦ absurd (refused (rw (c1, c2, c3) at e))
        ]
      ]
    ]
      where
        refused : (◌≡◌ {A = Parsed} (err malformed) (ok (v, rest))) → ⊥
        refused h = cc

        found :
            (u : Value) (octet : ℕ)
            → wire u ≡ octet ∷ []
            → IsItemBy is_utf8 P u
            → initial ≡ octet
            → ◌≡◌ {A = Parsed} (ok (u, bs)) (ok (v, rest))
            → (initial ∷ bs ≡ wire v ++ rest) × IsItemBy is_utf8 P v × All IsByte rest
        found u octet is good same h =
            let whole : ◌≡◌ {A = Value × Bytes} (u, bs) (v, rest) = ok-injective h in
            subst
              (λ (r : Value × Bytes).
                (initial ∷ bs ≡ wire r.0 ++ r.1) × IsItemBy is_utf8 P r.0 × All IsByte r.1)
              whole (ap (λ (x : ℕ). x ∷ bs) same ∙ ap (λ (xs : Bytes). xs ++ bs) (sym is), good, b)

    parse_by-IsSound : IsSound is_utf8 (IsItemBy is_utf8 P) (parse_by is_utf8 inner)
    unfolding parse_by
    parse_by-IsSound [] v rest b e = cc
    parse_by-IsSound (initial ∷ bs) v rest (byte, b) e = elim (Bool-cases (initial / 32 == 7)) [
      | inl seven ↦ simple_sound initial bs v rest b (ground arith) (rw seven at e)
      | inr c1 ↦ elim (Bool-cases (initial / 32 == 6)) [
        | inl tag ↦ absurd (refused (rw (c1, tag) at e))
        | inr c2 ↦
            let (p, argument, e1) =
              >>=-eq-ok (parse_argument (initial % 32) bs)
                (λ p. parse_major is_utf8 inner (initial / 32) p.0 p.1) (rw (c1, c2) at e) in
            let (bs_are, small, b1) = head-parse_argument initial p.0 bs p.1 b argument in
            let (whole, good, b2) =
              parse_major_sound p.0 p.1 v rest b1 small (initial / 32) (ground arith) e1 in
            (bs_are ∙ whole, good, b2)
      ]
    ]
      where
        refused : (◌≡◌ {A = Parsed} (err malformed) (ok (v, rest))) → ⊥
        refused h = cc

  pub parse_at-IsSound :
      (levels : ℕ) → IsSound is_utf8 (IsItem is_utf8 levels) (parse_at is_utf8 levels)
  unfolding parse_at
  parse_at-IsSound zero bs v rest b e = cc
  parse_at-IsSound (suc levels) bs v rest b e =
      parse_by-IsSound (IsItem is_utf8 levels) (parse_at is_utf8 levels) (parse_at-IsSound levels)
        bs v rest b e
