-- ===== src/Ctap/Cbor/Loops.antt =====
-- The loops of `parse_at` of crates/canokey-ctap/src/cbor.rs over items and entries.
use libcanokey.Prelude.{
  ℕ, zero, suc, ◌≡◌, refl, sym, ap, ◌∙◌, Bool, List, ◌∷◌, ◌++◌, Bytes, IsByte, All,
}
use mathlib.Core.Path.{subst}
use mathlib.Core.List.{append_assoc}
use libcanokey.Error.{Result, ok, err, malformed, ◌>>=◌, >>=-eq-ok, reject-eq-ok, ok-injective}
use libcanokey.Ctap.Cbor.{Value, Items, nil, cons, Entries, end, entry, count_items, count_entries}
use libcanokey.Ctap.Cbor.Encode.{encode}
use libcanokey.Ctap.Cbor.Parse.{Parsed, contains, or_limit, parse_items, parse_entries}
use libcanokey.Ctap.Cbor.Wire.{wire, wire_items, wire_entries, IsFresh, AllItems, AllEntries}

or_limit-eq-ok : (r : Result Bytes) (b : Bytes) → or_limit r ≡ ok b → r ≡ ok b
or_limit-eq-ok (ok x) b e = e
or_limit-eq-ok (err x) b e = cc

-- The bytes of a map's first entry and of the others.
wire_entries-entry :
    (k v : Value) (es : Entries) (bs after_key after_value rest : Bytes)
    → bs ≡ wire k ++ after_key
    → after_key ≡ wire v ++ after_value
    → after_value ≡ wire_entries es ++ rest
    → bs ≡ wire_entries (entry k v es) ++ rest
unfolding wire
wire_entries-entry k v es bs after_key after_value rest one two three =
    one
    ∙ ap (λ (xs : Bytes). wire k ++ xs)
        (two
          ∙ ap (λ (xs : Bytes). wire v ++ xs) three
          ∙ sym (append_assoc (wire v) (wire_entries es) rest))
    ∙ sym (append_assoc (wire k) (wire v ++ wire_entries es) rest)

module _ (is_utf8 : Bytes → Bool) where
  -- A parse that is right about what it accepts.
  abbrev pub IsSound : (Value → Type 0) → (Bytes → Parsed) → Type 0
  IsSound P inner =
      (bs : Bytes) (v : Value) (rest : Bytes)
      → All IsByte bs
      → inner bs ≡ ok (v, rest)
      → (bs ≡ wire v ++ rest) × P v × All IsByte rest

  module _ (P : Value → Type 0) (inner : Bytes → Parsed) (sound : IsSound P inner) where
    pub parse_items_sound :
        (n : ℕ) (bs : Bytes) (vs : Items) (rest : Bytes)
        → All IsByte bs
        → parse_items is_utf8 inner n bs ≡ ok (vs, rest)
        → (bs ≡ wire_items vs ++ rest)
          × (count_items vs ≡ n)
          × AllItems is_utf8 P vs
          × All IsByte rest
    unfolding parse_items wire count_items
    parse_items_sound zero bs vs rest b e =
        let whole : ◌≡◌ {A = Items × Bytes} (nil, bs) (vs, rest) = ok-injective e in
        subst
          (λ (r : Items × Bytes).
            (bs ≡ wire_items r.0 ++ r.1)
            × (count_items r.0 ≡ 0)
            × AllItems is_utf8 P r.0
            × All IsByte r.1)
          whole (refl, refl, tt, b)
    parse_items_sound (suc n) bs vs rest b e =
        let (p, first, e1) = >>=-eq-ok (inner bs) _ e in
        let (q, later, e2) = >>=-eq-ok (parse_items is_utf8 inner n p.1) _ e1 in
        let (bs_are, good, b1) = sound bs p.0 p.1 b first in
        let (more_are, counted, all, b2) = parse_items_sound n p.1 q.0 q.1 b1 later in
        let whole : ◌≡◌ {A = Items × Bytes} (cons p.0 q.0, q.1) (vs, rest) = ok-injective e2 in
        subst
          (λ (r : Items × Bytes).
            (bs ≡ wire_items r.0 ++ r.1)
            × (count_items r.0 ≡ suc n)
            × AllItems is_utf8 P r.0
            × All IsByte r.1)
          whole
          (
            bs_are
                ∙ ap (λ (xs : Bytes). wire p.0 ++ xs) more_are
                ∙ sym (append_assoc (wire p.0) (wire_items q.0) q.1),
            ap suc counted,
            (good, all),
            b2,
          )

    pub parse_entries_sound :
        (n : ℕ) (seen : List Bytes) (bs : Bytes) (es : Entries) (rest : Bytes)
        → All IsByte bs
        → parse_entries is_utf8 inner n seen bs ≡ ok (es, rest)
        → (bs ≡ wire_entries es ++ rest)
          × (count_entries es ≡ n)
          × AllEntries is_utf8 P es
          × IsFresh seen es
          × All IsByte rest
    unfolding parse_entries wire count_entries
    parse_entries_sound zero seen bs es rest b e =
        let whole : ◌≡◌ {A = Entries × Bytes} (end, bs) (es, rest) = ok-injective e in
        subst
          (λ (r : Entries × Bytes).
            (bs ≡ wire_entries r.0 ++ r.1)
            × (count_entries r.0 ≡ 0)
            × AllEntries is_utf8 P r.0
            × IsFresh seen r.0
            × All IsByte r.1)
          whole (refl, refl, tt, tt, b)
    parse_entries_sound (suc n) seen bs es rest b e =
        let (p, first, e1) = >>=-eq-ok (inner bs) _ e in
        let (key, encoded, e2) = >>=-eq-ok (or_limit (encode p.0)) _ e1 in
        let (fresh, e3) =
          reject-eq-ok (contains key seen) malformed
            (inner p.1 >>= λ q.
              parse_entries is_utf8 inner n (key ∷ seen) q.1 >>= λ r. ok (entry p.0 q.0 r.0, r.1))
            e2 in
        let (q, second, e4) = >>=-eq-ok (inner p.1) _ e3 in
        let (r, later, e5) = >>=-eq-ok (parse_entries is_utf8 inner n (key ∷ seen) q.1) _ e4 in
        let (bs_are, key_good, b1) = sound bs p.0 p.1 b first in
        let (then_are, value_good, b2) = sound p.1 q.0 q.1 b1 second in
        let (more_are, counted, all, unique, b3) =
          parse_entries_sound n (key ∷ seen) q.1 r.0 r.1 b2 later in
        let whole : ◌≡◌ {A = Entries × Bytes} (entry p.0 q.0 r.0, r.1) (es, rest) =
          ok-injective e5 in
        subst
          (λ (x : Entries × Bytes).
            (bs ≡ wire_entries x.0 ++ x.1)
            × (count_entries x.0 ≡ suc n)
            × AllEntries is_utf8 P x.0
            × IsFresh seen x.0
            × All IsByte x.1)
          whole
          (
            wire_entries-entry p.0 q.0 r.0 bs p.1 q.1 r.1 bs_are then_are more_are,
            ap suc counted,
            (key_good, value_good, all),
            (key, or_limit-eq-ok (encode p.0) key encoded, fresh, unique),
            b3,
          )
