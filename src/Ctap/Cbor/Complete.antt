-- ===== src/Ctap/Cbor/Complete.antt =====
-- What `parse` of crates/canokey-ctap/src/cbor.rs must accept.
use libcanokey.Prelude.{
  ℕ, zero, suc, ◌*◌, ◌/◌, ◌==◌, ◌≤◌, ◌<◌, ◌≡◌, ◌↔◌, refl, sym, ap, ◌∙◌, Bool, true, false, not,
  List, [], ◌∷◌, ◌++◌, ltb, length, take, drop, Bytes, is_empty, IsByte, All, arith, length-append,
  take-append_exact, drop-append_exact,
}
use mathlib.Core.Path.{subst}
use mathlib.Core.List.{append_assoc, append-nil}
use libcanokey.Error.{ok, malformed, reject, ◌>>◌, >>=-eq-ok, reject-eq-ok, ok-injective}
use libcanokey.Ctap.Cbor.{
  Value, unsigned, negative, byte_string, text, array, map, boolean, null, Items, nil, cons,
  Entries, end, entry, count_items, count_entries,
}
use libcanokey.Ctap.Cbor.Encode.{max_depth, head}
use libcanokey.Ctap.Cbor.Parse.{
  Parsed, parse_items, parse_entries, taken, parse_array, parse_map, parse_major, parse_by,
  parse_at, parse_item, parse,
}
use libcanokey.Ctap.Cbor.Wire.{
  wire, wire_items, wire_entries, IsU64, IsFresh, AllItems, AllEntries, IsItemBy, IsItem,
}
use libcanokey.Ctap.Cbor.Head.{parse_argument-head}
use libcanokey.Ctap.Cbor.Sound.{parse_at-IsSound}

head_pos : (major n : ℕ) → 1 ≤ length (head major n)
unfolding head
head_pos major n = ground arith

wire_pos : (v : Value) → 1 ≤ length (wire v)
unfolding wire
wire_pos (unsigned n) = head_pos 0 n
wire_pos (negative n) = head_pos 1 n
wire_pos (byte_string b) = omega (arith, head_pos 2 (length b), length-append (head 2 (length b)) b)
wire_pos (text b) = omega (arith, head_pos 3 (length b), length-append (head 3 (length b)) b)
wire_pos (array vs) =
    omega
      (arith, head_pos 4 (count_items vs), length-append (head 4 (count_items vs)) (wire_items vs))
wire_pos (map es) = omega (
  arith,
  head_pos 5 (count_entries es),
  length-append (head 5 (count_entries es)) (wire_entries es),
)
wire_pos (boolean false) = omega arith
wire_pos (boolean true) = omega arith
wire_pos null = omega arith

count_items_le : (vs : Items) → count_items vs ≤ length (wire_items vs)
unfolding wire count_items
count_items_le nil = omega arith
count_items_le (cons v vs) =
    omega (arith, wire_pos v, count_items_le vs, length-append (wire v) (wire_items vs))

count_entries_le : (es : Entries) → 2 * count_entries es ≤ length (wire_entries es)
unfolding wire count_entries
count_entries_le end = omega arith
count_entries_le (entry k v es) = omega (
  arith,
  wire_pos k,
  wire_pos v,
  count_entries_le es,
  length-append (wire k) (wire v ++ wire_entries es),
  length-append (wire v) (wire_entries es),
)

module _ (is_utf8 : Bytes → Bool) where
  -- A parse that accepts what it must.
  abbrev pub IsComplete : (Value → Type 0) → (Bytes → Parsed) → Type 0
  IsComplete P inner = (v : Value) (rest : Bytes) → P v → inner (wire v ++ rest) ≡ ok (v, rest)

  module _ (P : Value → Type 0) (inner : Bytes → Parsed) (complete : IsComplete P inner) where
    parse_items_complete :
        (vs : Items) (rest : Bytes)
        → AllItems is_utf8 P vs
        → parse_items is_utf8 inner (count_items vs) (wire_items vs ++ rest) ≡ ok (vs, rest)
    unfolding parse_items wire count_items
    parse_items_complete nil rest all = refl
    parse_items_complete (cons v vs) rest (good, all) =
        rw
          (
            append_assoc (wire v) (wire_items vs) rest,
            complete v (wire_items vs ++ rest) good,
            parse_items_complete vs rest all,
          )
          refl

    parse_entries_complete :
        (es : Entries) (seen : List Bytes) (rest : Bytes)
        → AllEntries is_utf8 P es
        → IsFresh seen es
        → parse_entries is_utf8 inner (count_entries es) seen (wire_entries es ++ rest)
          ≡ ok (es, rest)
    unfolding parse_entries wire count_entries
    parse_entries_complete end seen rest all fresh = refl
    parse_entries_complete (entry k v es) seen rest (key_good, value_good, all)
          (key, encoded, new, fresh) =
        rw
          (
            append_assoc (wire k) (wire v ++ wire_entries es) rest,
            append_assoc (wire v) (wire_entries es) rest,
            complete k (wire v ++ (wire_entries es ++ rest)) key_good,
            encoded,
            new,
            complete v (wire_entries es ++ rest) value_good,
            parse_entries_complete es (key ∷ seen) rest all fresh,
          )
          refl

    -- After a head, the major type decides.
    parse_by-head :
        (major n : ℕ) (bs : Bytes)
        → major < 6
        → IsU64 n
        → parse_by is_utf8 inner (head major n ++ bs) ≡ parse_major is_utf8 inner major n bs
    unfolding parse_by
    parse_by-head major n bs low small =
        let (initial, more, is, same, argument) = parse_argument-head major n bs small in
        let c1 : (major == 7) ≡ false = ground arith in
        let c2 : (major == 6) ≡ false = ground arith in rw (is, same, c1, c2, argument) refl

    taken_complete :
        (make : Bytes → Value) (test : Bytes → Bool) (b rest : Bytes)
        → test b ≡ true
        → taken is_utf8 inner make test (length b) (b ++ rest) ≡ ok (make b, rest)
    taken_complete make test b rest fine =
        let enough : ltb (length (b ++ rest)) (length b) ≡ false =
          ground (arith, length-append b rest) in
        let first : take (length b) (b ++ rest) ≡ b = take-append_exact (length b) b rest refl in
        let others : drop (length b) (b ++ rest) ≡ rest =
          drop-append_exact (length b) b rest refl in
        rw (enough, first, others, fine) refl

    -- An item that is a head and the bytes after it.
    after_head :
        (v : Value) (major n : ℕ) (body rest : Bytes)
        → wire v ≡ head major n ++ body
        → major < 6
        → IsU64 n
        → parse_major is_utf8 inner major n (body ++ rest) ≡ ok (v, rest)
        → parse_by is_utf8 inner (wire v ++ rest) ≡ ok (v, rest)
    after_head v major n body rest is low small parsed =
        ap (λ (xs : Bytes). parse_by is_utf8 inner (xs ++ rest)) is
        ∙ ap (parse_by is_utf8 inner) (append_assoc (head major n) body rest)
        ∙ parse_by-head major n (body ++ rest) low small
        ∙ parsed

    parse_array-wire :
        (vs : Items) (rest : Bytes)
        → AllItems is_utf8 P vs
        → parse_array is_utf8 inner (count_items vs) (wire_items vs ++ rest) ≡ ok (array vs, rest)
    unfolding parse_array
    parse_array-wire vs rest all =
        let enough : ltb (length (wire_items vs ++ rest)) (count_items vs) ≡ false =
          ground (arith, length-append (wire_items vs) rest, count_items_le vs) in
        rw (enough, parse_items_complete vs rest all) refl

    parse_map-wire :
        (es : Entries) (rest : Bytes)
        → AllEntries is_utf8 P es
        → IsFresh [] es
        → parse_map is_utf8 inner (count_entries es) (wire_entries es ++ rest) ≡ ok (map es, rest)
    unfolding parse_map
    parse_map-wire es rest all fresh =
        let enough : ltb (length (wire_entries es ++ rest) / 2) (count_entries es) ≡ false =
          ground (arith, length-append (wire_entries es) rest, count_entries_le es) in
        rw (enough, parse_entries_complete es [] rest all fresh) refl

    parse_by-IsComplete : IsComplete (IsItemBy is_utf8 P) (parse_by is_utf8 inner)
    unfolding wire parse_major parse_by
    parse_by-IsComplete (unsigned n) rest small = parse_by-head 0 n rest (omega arith) small
    parse_by-IsComplete (negative n) rest small = parse_by-head 1 n rest (omega arith) small
    parse_by-IsComplete (byte_string b) rest small =
        after_head (byte_string b) 2 (length b) b rest refl (omega arith) small
          (taken_complete byte_string (λ xs. true) b rest refl)
    parse_by-IsComplete (text b) rest (small, good) =
        after_head (text b) 3 (length b) b rest refl (omega arith) small
          (taken_complete text is_utf8 b rest good)
    parse_by-IsComplete (array vs) rest (small, all) =
        after_head (array vs) 4 (count_items vs) (wire_items vs) rest refl (omega arith) small
          (parse_array-wire vs rest all)
    parse_by-IsComplete (map es) rest (small, all, fresh) =
        after_head (map es) 5 (count_entries es) (wire_entries es) rest refl (omega arith) small
          (parse_map-wire es rest all fresh)
    parse_by-IsComplete (boolean false) rest u = refl
    parse_by-IsComplete (boolean true) rest u = refl
    parse_by-IsComplete null rest u = refl

  parse_at-IsComplete : (levels : ℕ) → IsComplete (IsItem is_utf8 levels) (parse_at is_utf8 levels)
  unfolding parse_at
  parse_at-IsComplete zero v rest none = absurd none
  parse_at-IsComplete (suc levels) v rest good =
      parse_by-IsComplete (IsItem is_utf8 levels) (parse_at is_utf8 levels)
        (parse_at-IsComplete levels) v rest good

  parse_sound :
      (bytes : Bytes) (v : Value)
      → All IsByte bytes
      → parse is_utf8 bytes ≡ ok v
      → (bytes ≡ wire v) × IsItem is_utf8 max_depth v
  unfolding parse parse_item
  parse_sound bytes v b e =
      let (p, read, e1) =
        >>=-eq-ok (parse_at is_utf8 max_depth bytes)
          (λ p. reject (not (is_empty p.1)) malformed >> ok p.0) e in
      let (ended, e2) = reject-eq-ok (not (is_empty p.1)) malformed (ok p.0) e1 in
      let (bytes_are, good, b1) = parse_at-IsSound is_utf8 max_depth bytes p.0 p.1 b read in
      let same : p.0 ≡ v = ok-injective e2 in
      (
        bytes_are
            ∙ ap (λ (xs : Bytes). wire p.0 ++ xs) (empty-eq p.1 ended)
            ∙ append-nil (wire p.0)
            ∙ ap wire same,
        subst (IsItem is_utf8 max_depth) same good,
      )
    where
      empty-eq : (xs : Bytes) → not (is_empty xs) ≡ false → xs ≡ []
      empty-eq [] h = refl
      empty-eq (x ∷ xs) h = cc

  pub parse_wire : (v : Value) → IsItem is_utf8 max_depth v → parse is_utf8 (wire v) ≡ ok v
  unfolding parse parse_item
  parse_wire v good =
      let read : parse_at is_utf8 max_depth (wire v) ≡ ok (v, []) =
        ap (parse_at is_utf8 max_depth) (sym (append-nil (wire v)))
        ∙ parse_at-IsComplete max_depth v [] good in
      rw read refl

  -- On bytes, `parse` accepts an input as a value exactly if the input is the value's bytes in wire
  -- order, with the shortest heads, and the value has at most 64 levels, arguments below 2 ^ 64, texts
  -- that the given test calls UTF-8 and no map with two keys of the same canonical encoding.
  pub parse_iff :
      (bytes : Bytes) (v : Value)
      → All IsByte bytes
      → (parse is_utf8 bytes ≡ ok v) ↔ ((bytes ≡ wire v) × IsItem is_utf8 max_depth v)
  parse_iff bytes v b = (
    λ e. parse_sound bytes v b e,
    λ (bytes_are, good). ap (parse is_utf8) bytes_are ∙ parse_wire v good,
  )
