-- ===== src/Oath/Fields.antt =====
-- crates/canokey-oath/src/execute.rs: one-byte tag and length fields, written by `field` and read by
-- `fields`. The loop takes the number of bytes that are left as fuel.
use libcanokey.Prelude.{
  ℕ, zero, suc, ◌%◌, List, [], ◌∷◌, ltb, if◌then◌else◌, length, take, drop, Bytes,
}
use libcanokey.Error.{Result, ok, err, ◌>>=◌, malformed}

-- `field`: what it appends to the output.
abbrev pub field : ℕ → Bytes → Bytes
field tag bytes = tag ∷ (length bytes % 256) ∷ bytes

abbrev pub Field : Type 0
Field = ℕ × Bytes

unfoldable pub read_fields : ℕ → Bytes → Result (List Field)
read_fields fuel [] = ok []
read_fields zero (b ∷ bs) = err malformed
read_fields (suc fuel) (tag ∷ []) = err malformed
read_fields (suc fuel) (tag ∷ n ∷ rest) = do
  let later = read_fields fuel (drop n rest)
  if ltb (length rest) n then err malformed else (do fs ← later; ok ((tag, take n rest) ∷ fs))

-- `fields`.
unfoldable pub fields : Bytes → Result (List Field)
unfolding read_fields
fields bytes = read_fields (length bytes) bytes
