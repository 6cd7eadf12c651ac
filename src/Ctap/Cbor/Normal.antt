-- ===== src/Ctap/Cbor/Normal.antt =====
-- `encode` of crates/canokey-ctap/src/cbor.rs on every value: it encodes the value with its maps put
-- in canonical order, which is defined here without the encoder.
use libcanokey.Prelude.{
  ℕ, zero, suc, ◌≡◌, refl, ap, ◌∙◌, inl, inr, List, [], ◌∷◌, if◌then◌else◌, Bytes, Bool-cases,
}
use libcanokey.Ctap.Cbor.{Value, array, map, Items, nil, cons, Entries, end, entry}
use libcanokey.Ctap.Cbor.Encode.{Keyed, insert, sort}
use libcanokey.Ctap.Cbor.KeyOrder.{precedes, key_le-precedes}
use libcanokey.Ctap.Cbor.Wire.{wire}

-- The entries in the order of what `f` makes of their keys.
unfoldable pub insert_entry : (Value → Bytes) → Value → Value → Entries → Entries
insert_entry f k v end = entry k v end
insert_entry f k v (entry l w es) =
    let rest = insert_entry f k v es in
    if precedes (f k) (f l) then entry k v (entry l w es) else entry l w rest

unfoldable pub sort_entries : (Value → Bytes) → Entries → Entries
unfolding insert_entry
sort_entries f end = end
sort_entries f (entry k v es) = insert_entry f k v (sort_entries f es)

unfoldable pub each_item : (Value → Value) → Items → Items
each_item g nil = nil
each_item g (cons v vs) = cons (g v) (each_item g vs)

unfoldable pub each_entry : (Value → Value) → Entries → Entries
each_entry g end = end
each_entry g (entry k v es) = entry (g k) (g v) (each_entry g es)

abbrev pub normal_by : (Value → Value) → Value → Value
normal_by g (array vs) = array (each_item g vs)
normal_by g (map es) = map (each_entry g (sort_entries (λ k. wire (g k)) es))
normal_by g v = v

-- The value with the maps of so many levels in canonical order.
unfoldable pub normal : ℕ → Value → Value
unfolding sort_entries each_item each_entry wire
normal zero v = v
normal (suc levels) v = normal_by (normal levels) v

module _ (P : Value → Type 0) where
  abbrev pub AllIn : Items → Type 0
  AllIn nil = Unit
  AllIn (cons v vs) = P v × AllIn vs

  abbrev pub AllOf : Entries → Type 0
  AllOf end = Unit
  AllOf (entry k v es) = P k × P v × AllOf es

  abbrev pub WithinBy : Value → Type 0
  WithinBy (array vs) = AllIn vs
  WithinBy (map es) = AllOf es
  WithinBy _ = Unit

-- The value has at most so many levels.
abbrev pub IsWithin : ℕ → Value → Type 0
IsWithin zero v = ⊥
IsWithin (suc levels) v = WithinBy (IsWithin levels) v

-- The pairs that the encoder sorts.
unfoldable pub keys : (Value → Bytes) → Entries → List Keyed
keys f end = []
keys f (entry k v es) = (f k, v) ∷ keys f es

insert-keys :
    (f : Value → Bytes) (k v : Value) (es : Entries)
    → insert (f k, v) (keys f es) ≡ keys f (insert_entry f k v es)
unfolding insert keys insert_entry
insert-keys f k v end = refl
insert-keys f k v (entry l w es) = elim (Bool-cases (precedes (f k) (f l))) [
  | inl le ↦ rw (key_le-precedes (f k) (f l), le) refl
  | inr gt ↦ rw (key_le-precedes (f k) (f l), gt, insert-keys f k v es) refl
]

pub sort-keys : (f : Value → Bytes) (es : Entries) → sort (keys f es) ≡ keys f (sort_entries f es)
unfolding sort keys sort_entries
sort-keys f end = refl
sort-keys f (entry k v es) =
    ap (insert (f k, v)) (sort-keys f es) ∙ insert-keys f k v (sort_entries f es)

module _ (P : Value → Type 0) (f : Value → Bytes) where
  AllOf-insert_entry :
      (k v : Value) (es : Entries) → P k → P v → AllOf P es → AllOf P (insert_entry f k v es)
  unfolding insert_entry
  AllOf-insert_entry k v end pk pv all = (pk, pv, tt)
  AllOf-insert_entry k v (entry l w es) pk pv (pl, pw, all) =
      elim (Bool-cases (precedes (f k) (f l))) [
        | inl le ↦ rw le (pk, pv, (pl, pw, all))
        | inr gt ↦ rw gt (pl, pw, AllOf-insert_entry k v es pk pv all)
      ]

  pub AllOf-sort_entries : (es : Entries) → AllOf P es → AllOf P (sort_entries f es)
  unfolding sort_entries
  AllOf-sort_entries end all = tt
  AllOf-sort_entries (entry k v es) (pk, pv, all) =
      AllOf-insert_entry k v (sort_entries f es) pk pv (AllOf-sort_entries es all)
