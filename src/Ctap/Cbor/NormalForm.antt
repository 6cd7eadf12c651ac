-- ===== src/Ctap/Cbor/NormalForm.antt =====
-- The laws of `encode` of crates/canokey-ctap/src/cbor.rs on every value.
use libcanokey.Prelude.{
  ℕ, zero, suc, ◌≡◌, ◌↔◌, refl, sym, ap, ◌∙◌, inl, inr, true, false, List, [], ◌∷◌, length, Bytes,
  Bool-cases,
}
use mathlib.Core.Path.{subst}
use libcanokey.Error.{Result, ok, >>=-eq-ok, ok-injective}
use libcanokey.Ctap.Cbor.{
  Value, unsigned, negative, byte_string, text, array, map, boolean, null, Items, nil, cons,
  Entries, end, entry, count_items, count_entries,
}
use libcanokey.Ctap.Cbor.Encode.{
  max_depth, Keyed, key_le, insert, sort, encode_items, encode_keys, encode_sorted, encode_by,
  encode_at, encode,
}
use libcanokey.Ctap.Cbor.Wire.{wire, wire_items, wire_entries}
use libcanokey.Ctap.Cbor.Canonical.{
  IsBefore, AllCanonical, IsAscending, IsCanonicalBy, IsCanonical, encode-wire,
}
use libcanokey.Ctap.Cbor.KeyOrder.{precedes, precedes_total}
use libcanokey.Ctap.Cbor.Normal.{
  insert_entry, sort_entries, each_item, each_entry, normal_by, normal, AllIn, AllOf, WithinBy,
  IsWithin, keys, sort-keys, AllOf-sort_entries,
}

module _ (P C : Value → Type 0) (g : Value → Value) (inner : Value → Result Bytes)
    (exact : (v : Value) → P v → inner v ≡ ok (wire (g v)))
    (within : (v : Value) (bytes : Bytes) → inner v ≡ ok bytes → P v)
    (canonical : (v : Value) → P v → C (g v)) where
  abbrev key_of : Value → Bytes
  key_of k = wire (g k)

  encode_items-normal :
      (vs : Items) → AllIn P vs → encode_items inner vs ≡ ok (wire_items (each_item g vs))
  unfolding encode_items wire each_item
  encode_items-normal nil all = refl
  encode_items-normal (cons v vs) (pv, all) = rw (exact v pv, encode_items-normal vs all) refl

  encode_keys-keys : (es : Entries) → AllOf P es → encode_keys inner es ≡ ok (keys key_of es)
  unfolding encode_keys keys
  encode_keys-keys end all = refl
  encode_keys-keys (entry k v es) (pk, pv, all) = rw (exact k pk, encode_keys-keys es all) refl

  encode_sorted-keys :
      (es : Entries)
      → AllOf P es
      → encode_sorted inner (keys key_of es) ≡ ok (wire_entries (each_entry g es))
  unfolding encode_sorted keys wire each_entry
  encode_sorted-keys end all = refl
  encode_sorted-keys (entry k v es) (pk, pv, all) = rw (exact v pv, encode_sorted-keys es all) refl

  count-each_item : (vs : Items) → count_items (each_item g vs) ≡ count_items vs
  unfolding each_item count_items
  count-each_item nil = refl
  count-each_item (cons v vs) = ap suc (count-each_item vs)

  length-keys : (es : Entries) → length (keys key_of es) ≡ count_entries (each_entry g es)
  unfolding keys each_entry count_entries
  length-keys end = refl
  length-keys (entry k v es) = ap suc (length-keys es)

  encode_by-normal : (v : Value) → WithinBy P v → encode_by inner v ≡ ok (wire (normal_by g v))
  unfolding encode_by wire
  encode_by-normal (unsigned n) u = refl
  encode_by-normal (negative n) u = refl
  encode_by-normal (byte_string b) u = refl
  encode_by-normal (text b) u = refl
  encode_by-normal (array vs) all = rw (encode_items-normal vs all, count-each_item vs) refl
  encode_by-normal (map es) all =
      rw
        (
          encode_keys-keys es all,
          sort-keys key_of es,
          encode_sorted-keys (sort_entries key_of es) (AllOf-sort_entries P key_of es all),
          length-keys (sort_entries key_of es),
        )
        refl
  encode_by-normal (boolean false) u = refl
  encode_by-normal (boolean true) u = refl
  encode_by-normal null u = refl

  -- What the encoder does not refuse is within the depth.
  encode_items-AllIn : (vs : Items) (bytes : Bytes) → encode_items inner vs ≡ ok bytes → AllIn P vs
  unfolding encode_items
  encode_items-AllIn nil bytes e = tt
  encode_items-AllIn (cons v vs) bytes e =
      let (first, one, e1) = >>=-eq-ok (inner v) _ e in
      let (others, more, e2) = >>=-eq-ok (encode_items inner vs) _ e1 in
      (within v first one, encode_items-AllIn vs others more)

  abbrev KeysIn : Entries → Type 0
  KeysIn end = Unit
  KeysIn (entry k v es) = P k × KeysIn es

  abbrev ValuesIn : List Keyed → Type 0
  ValuesIn [] = Unit
  ValuesIn ((key, v) ∷ es) = P v × ValuesIn es

  encode_keys-KeysIn :
      (es : Entries) (ks : List Keyed)
      → encode_keys inner es ≡ ok ks
      → KeysIn es × (ks ≡ keys key_of es)
  unfolding encode_keys keys
  encode_keys-KeysIn end ks e = (tt, sym (ok-injective e))
  encode_keys-KeysIn (entry k v es) ks e =
      let (first, one, e1) = >>=-eq-ok (inner k) _ e in
      let (others, more, e2) = >>=-eq-ok (encode_keys inner es) _ e1 in
      let (later, others_are) = encode_keys-KeysIn es others more in
      let pk = within k first one in
      let first_is : first ≡ key_of k = ok-injective (sym one ∙ exact k pk) in
      (
        (pk, later),
        sym (ok-injective e2)
            ∙ ap (λ (b : Bytes). (b, v) ∷ others) first_is
            ∙ ap (λ (xs : List Keyed). (key_of k, v) ∷ xs) others_are,
      )

  encode_sorted-ValuesIn :
      (ks : List Keyed) (bytes : Bytes) → encode_sorted inner ks ≡ ok bytes → ValuesIn ks
  unfolding encode_sorted
  encode_sorted-ValuesIn [] bytes e = tt
  encode_sorted-ValuesIn ((key, v) ∷ ks) bytes e =
      let (first, one, e1) = >>=-eq-ok (inner v) _ e in
      let (others, more, e2) = >>=-eq-ok (encode_sorted inner ks) _ e1 in
      (within v first one, encode_sorted-ValuesIn ks others more)

  insert-ValuesIn : (e : Keyed) (ks : List Keyed) → ValuesIn (insert e ks) → P e.1 × ValuesIn ks
  unfolding insert
  insert-ValuesIn e [] (pe, all) = (pe, tt)
  insert-ValuesIn e (f ∷ ks) all = elim (Bool-cases (key_le e.0 f.0)) [
    | inl le ↦ let here = rw le at all in here
    | inr gt ↦
        let (pf, later) = rw gt at all in
        let (pe, others) = insert-ValuesIn e ks later in (pe, (pf, others))
  ]

  sort-ValuesIn : (ks : List Keyed) → ValuesIn (sort ks) → ValuesIn ks
  unfolding sort
  sort-ValuesIn [] all = tt
  sort-ValuesIn (e ∷ ks) all =
      let (pe, others) = insert-ValuesIn e (sort ks) all in (pe, sort-ValuesIn ks others)

  AllOf-both : (es : Entries) → KeysIn es → ValuesIn (keys key_of es) → AllOf P es
  unfolding keys
  AllOf-both end ks vs = tt
  AllOf-both (entry k v es) (pk, ks) (pv, vs) = (pk, pv, AllOf-both es ks vs)

  encode_by-WithinBy : (v : Value) (bytes : Bytes) → encode_by inner v ≡ ok bytes → WithinBy P v
  unfolding encode_by
  encode_by-WithinBy (unsigned n) bytes e = tt
  encode_by-WithinBy (negative n) bytes e = tt
  encode_by-WithinBy (byte_string b) bytes e = tt
  encode_by-WithinBy (text b) bytes e = tt
  encode_by-WithinBy (array vs) bytes e =
      let (body, items, e1) = >>=-eq-ok (encode_items inner vs) _ e in
      encode_items-AllIn vs body items
  encode_by-WithinBy (map es) bytes e =
      let (ks, keyed, e1) = >>=-eq-ok (encode_keys inner es) _ e in
      let (body, sorted, e2) = >>=-eq-ok (encode_sorted inner (sort ks)) _ e1 in
      let (keys_in, ks_are) = encode_keys-KeysIn es ks keyed in
      AllOf-both es keys_in
        (subst ValuesIn ks_are (sort-ValuesIn ks (encode_sorted-ValuesIn (sort ks) body sorted)))
  encode_by-WithinBy (boolean b) bytes e = tt
  encode_by-WithinBy null bytes e = tt

  -- The normal form is in canonical order.
  each_item-AllCanonical : (vs : Items) → AllIn P vs → AllCanonical C (each_item g vs)
  unfolding each_item
  each_item-AllCanonical nil all = tt
  each_item-AllCanonical (cons v vs) (pv, all) = (canonical v pv, each_item-AllCanonical vs all)

  insert_entry-IsBefore :
      (l k v : Value) (es : Entries)
      → precedes (key_of l) (key_of k) ≡ true
      → IsBefore (g l) (each_entry g es)
      → IsBefore (g l) (each_entry g (insert_entry key_of k v es))
  unfolding insert_entry each_entry
  insert_entry-IsBefore l k v end le before = le
  insert_entry-IsBefore l k v (entry m w es) le before =
      elim (Bool-cases (precedes (key_of k) (key_of m))) [
        | inl first ↦ rw first le
        | inr later ↦ rw later before
      ]

  insert_entry-IsAscending :
      (k v : Value) (es : Entries)
      → P k
      → P v
      → IsAscending C (each_entry g es)
      → IsAscending C (each_entry g (insert_entry key_of k v es))
  unfolding insert_entry each_entry
  insert_entry-IsAscending k v end pk pv up = (canonical k pk, canonical v pv, tt, tt)
  insert_entry-IsAscending k v (entry l w es) pk pv (cl, cw, before, up) =
      elim (Bool-cases (precedes (key_of k) (key_of l))) [
        | inl le ↦ rw le (canonical k pk, canonical v pv, le, (cl, cw, before, up))
        | inr gt ↦ rw gt (
          cl,
          cw,
          insert_entry-IsBefore l k v es (precedes_total (key_of k) (key_of l) gt) before,
          insert_entry-IsAscending k v es pk pv up,
        )
      ]

  sort_entries-IsAscending :
      (es : Entries) → AllOf P es → IsAscending C (each_entry g (sort_entries key_of es))
  unfolding sort_entries each_entry
  sort_entries-IsAscending end all = tt
  sort_entries-IsAscending (entry k v es) (pk, pv, all) =
      insert_entry-IsAscending k v (sort_entries key_of es) pk pv (sort_entries-IsAscending es all)

  normal_by-IsCanonicalBy : (v : Value) → WithinBy P v → IsCanonicalBy C (normal_by g v)
  normal_by-IsCanonicalBy (unsigned n) u = tt
  normal_by-IsCanonicalBy (negative n) u = tt
  normal_by-IsCanonicalBy (byte_string b) u = tt
  normal_by-IsCanonicalBy (text b) u = tt
  normal_by-IsCanonicalBy (array vs) all = each_item-AllCanonical vs all
  normal_by-IsCanonicalBy (map es) all = sort_entries-IsAscending es all
  normal_by-IsCanonicalBy (boolean b) u = tt
  normal_by-IsCanonicalBy null u = tt

abbrev Facts : ℕ → Type 0
Facts levels =
    ((v : Value) → IsWithin levels v → encode_at levels v ≡ ok (wire (normal levels v)))
    × ((v : Value) (bytes : Bytes) → encode_at levels v ≡ ok bytes → IsWithin levels v)
    × ((v : Value) → IsWithin levels v → IsCanonical levels (normal levels v))

facts : (levels : ℕ) → Facts levels
unfolding encode_at normal
facts zero = ((λ v none. absurd none), (λ v bytes e. refused v bytes e), (λ v none. absurd none))
  where
    refused : (v : Value) (bytes : Bytes) → encode_at 0 v ≡ ok bytes → ⊥
    refused v bytes e = cc
facts (suc levels) =
    let (exact, within, canonical) = facts levels in
    (
      encode_by-normal (IsWithin levels) (IsCanonical levels) (normal levels) (encode_at levels)
          exact within canonical,
      encode_by-WithinBy (IsWithin levels) (IsCanonical levels) (normal levels) (encode_at levels)
          exact within canonical,
      normal_by-IsCanonicalBy (IsWithin levels) (IsCanonical levels) (normal levels)
          (encode_at levels) exact within canonical,
    )

-- `encode` gives bytes for a value exactly if the value has at most 64 levels, and they are the bytes
-- in wire order of the value with its maps sorted by their keys' bytes, shorter ones first.
pub encode_iff :
    (v : Value) (bytes : Bytes)
    → (encode v ≡ ok bytes) ↔ (IsWithin max_depth v × (bytes ≡ wire (normal max_depth v)))
unfolding encode
encode_iff v bytes =
    let (exact, within, canonical) = facts max_depth in
    (
      λ e. let good = within v bytes e in (good, ok-injective (sym e ∙ exact v good)),
      λ (good, bytes_are). exact v good ∙ ap ok (sym bytes_are),
    )

-- What `encode` gives is in every case what it gives for a value whose maps are in canonical order,
-- and that value is encoded as its bytes in wire order.
pub encode-IsCanonical :
    (v : Value) (bytes : Bytes)
    → encode v ≡ ok bytes
    → (w : Value) × IsCanonical max_depth w × (bytes ≡ wire w) × (encode w ≡ ok bytes)
encode-IsCanonical v bytes e =
    let (exact, within, canonical) = facts max_depth in
    let (good, bytes_are) = (encode_iff v bytes).0 e in
    let ordered = canonical v good in
    (
      normal max_depth v,
      ordered,
      bytes_are,
      encode-wire (normal max_depth v) ordered ∙ ap ok (sym bytes_are),
    )
