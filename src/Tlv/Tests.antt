-- ===== src/Tlv/Tests.antt =====
-- Runs of the TLV codec, and the theorems at concrete inputs.
use libcanokey.Prelude.{
  ◌≡◌, ◌⊎◌, ◌+◌, ◌≤◌, ◌<◌, ◌^◌, inr, refl, [], ◌∷◌, ◌++◌, some, none, true, suc, arith, All, IsByte,
  Bytes, length,
}
use libcanokey.Error
use libcanokey.Error.{ok, err, limit_exceeded}
use libcanokey.Tlv.{
  Tag, Tlv, TlvReader, TlvWriter, children, length_octets, tag_value, from_bytes, to_bytes, next,
  next_field, long_length, sum_length, new, TlvLimits, push,
}
use libcanokey.Tlv.Tags.{to_bytes-from_bytes}
use libcanokey.Tlv.RoundTrip.{next-push, reading, field_of}
use libcanokey.Tlv.Canonical.{next_canonical}
use libcanokey.Tlv.Bounds.{next_bounds, children-next, next_stays, push_atomic}

abbrev object_tag : Tag
object_tag = record { value = 0x5fc105; len = 3 }

read_object_tag : from_bytes (0x5f ∷ 0xc1 ∷ 0x05 ∷ []) ≡ ok object_tag
unfolding from_bytes tag_value
read_object_tag = refl

write_object_tag : to_bytes object_tag ≡ 0x5f ∷ 0xc1 ∷ 0x05 ∷ []
unfolding to_bytes
write_object_tag = refl

abbrev limits : TlvLimits
limits = record { max_value_bytes = 1024; max_depth = 16 }

read_field : (next (new (0x70 ∷ 1 ∷ 7 ∷ 0x70 ∷ 1 ∷ 8 ∷ []) limits)).0.bytes ≡ 0x70 ∷ 1 ∷ 8 ∷ []
unfolding next next_field tag_value long_length sum_length
read_field = refl

write_field :
    (push (record { bytes = []; limit = 64 }) object_tag (7 ∷ [])).0.bytes
    ≡ 0x5f ∷ 0xc1 ∷ 5 ∷ 1 ∷ 7 ∷ []
unfolding push to_bytes
write_field = refl

-- A field 70 01 07 in front of another one.
abbrev field : Tlv
field = record {
  tag = record { value = 0x70; len = 1 };
  value = 7 ∷ [];
  depth = 1;
  limits = limits;
  minimal_lengths = true;
}

abbrev input : TlvReader
input = new (0x70 ∷ 1 ∷ 7 ∷ 0x70 ∷ 0 ∷ []) limits

abbrev after_field : TlvReader
after_field = new (0x70 ∷ 0 ∷ []) limits

reads_field : next input ≡ (after_field, ok (some field))
unfolding next next_field tag_value long_length sum_length
reads_field = refl

input_bytes : All IsByte input.bytes
input_bytes = (omega arith, (omega arith, (omega arith, (omega arith, (omega arith, tt)))))

to_bytes-from_bytes_example : to_bytes object_tag ≡ 0x5f ∷ 0xc1 ∷ 0x05 ∷ []
to_bytes-from_bytes_example =
    to_bytes-from_bytes (0x5f ∷ 0xc1 ∷ 0x05 ∷ []) object_tag
      (omega arith, (omega arith, (omega arith, tt))) read_object_tag

abbrev content : Bytes
content = 7 ∷ []

abbrev empty_writer : TlvWriter
empty_writer = record { bytes = []; limit = 64 }

abbrev full_writer : TlvWriter
full_writer = record { bytes = 0x5f ∷ 0xc1 ∷ 5 ∷ 1 ∷ 7 ∷ []; limit = 64 }

writes_field : push empty_writer object_tag (7 ∷ []) ≡ (full_writer, ok tt)
unfolding push to_bytes
writes_field = refl

next-push_example :
    (encoded : Bytes) × (full_writer.bytes ≡ [] ++ encoded)
    × (next (reading 1 limits true (encoded ++ (0 ∷ [])))
        ≡ (reading 1 limits true (0 ∷ []), ok (some (field_of 1 limits true object_tag (7 ∷ [])))))
next-push_example =
    next-push 1 limits true empty_writer (0x5f ∷ 0xc1 ∷ 0x05 ∷ []) (7 ∷ []) (0 ∷ []) object_tag
      (omega arith, (omega arith, (omega arith, tt))) read_object_tag writes_field (omega arith)
      (omega arith) (omega arith)

next_canonical_example :
    (octets : Bytes) × (length_octets 1 ≡ some octets)
    × (input.bytes ≡ to_bytes field.tag ++ (octets ++ (field.value ++ after_field.bytes)))
    × (after_field ≡ record input { bytes = after_field.bytes })
next_canonical_example = next_canonical input after_field field input_bytes refl reads_field

next_bounds_example : (2 + 1 + 2 ≤ 5) × (1 ≤ 1024)
next_bounds_example = next_bounds input after_field field reads_field

children-next_example : (2 ≡ suc 1) × (2 ≤ 16) × (content ≡ content)
unfolding children
children-next_example =
    children-next input after_field
      (record { bytes = 7 ∷ []; depth = 2; limits = limits; minimal_lengths = true }) field
      reads_field refl

next_stays_example : new [] limits ≡ new [] limits
unfolding next
next_stays_example = next_stays (new [] limits) (new [] limits) (inr refl)

push_atomic_example :
    (((push empty_writer object_tag (7 ∷ [])).1 ≡ ok tt)
      × (length (push empty_writer object_tag (7 ∷ [])).0.bytes ≤ 64)
      × ((octets : Bytes) × (length_octets 1 ≡ some octets)
          × ((push empty_writer object_tag (7 ∷ [])).0 ≡ record empty_writer {
            bytes = [] ++ ((to_bytes object_tag ++ octets) ++ (7 ∷ []));
          })))
    ⊎ ((push empty_writer object_tag (7 ∷ []) ≡ (empty_writer, err (Error.new limit_exceeded)))
        × ((length_octets 1 ≡ none)
            ⊎ ((octets : Bytes) × (length_octets 1 ≡ some octets)
                × ((64 < 0 + length (to_bytes object_tag ++ octets) + 1)
                    ⊎ (2 ^ 64 ≤ 0 + length (to_bytes object_tag ++ octets) + 1)))))
push_atomic_example = push_atomic empty_writer object_tag (7 ∷ [])
