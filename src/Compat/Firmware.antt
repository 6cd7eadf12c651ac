-- ===== src/Compat/Firmware.antt =====
-- crates/canokey-compat/src/lib.rs: `FirmwareVersion`. The byte tests of the source on a suffix and on
-- numbers are made on code points: the byte of a code point above 7F passes none of them.
use libcanokey.Prelude.{
  ℕ, ◌+◌, ◌-◌, ◌*◌, ◌==◌, Bool, true, false, not, ◌&&◌, ◌||◌, List, [], ◌∷◌, Option, none, some,
  leb, ltb, if◌then◌else◌, is_empty,
}
use mathlib.Core.List.{reverse}
use libcanokey.Compat.{Version, version}

abbrev pub Text : Type 0
Text = List ℕ

pub record FirmwareVersion : Type 0 where
  pub major : ℕ
  pub minor : ℕ
  pub patch : ℕ
  pub suffix : Option Text

-- `char::is_whitespace`.
abbrev pub is_whitespace : ℕ → Bool
is_whitespace c =
    (leb 0x09 c && leb c 0x0d)
    || (c == 0x20
        || (c == 0x85
            || (c == 0xa0
                || (c == 0x1680
                    || ((leb 0x2000 c && leb c 0x200a)
                        || (c == 0x2028
                            || (c == 0x2029 || (c == 0x202f || (c == 0x205f || c == 0x3000)))))))))

abbrev pub is_digit : ℕ → Bool
is_digit c = leb 0x30 c && leb c 0x39

abbrev pub is_alphanumeric : ℕ → Bool
is_alphanumeric c = is_digit c || ((leb 0x41 c && leb c 0x5a) || (leb 0x61 c && leb c 0x7a))

unfoldable pub trim_start : Text → Text
trim_start [] = []
trim_start (c ∷ cs) = let rest = trim_start cs in if is_whitespace c then rest else c ∷ cs

-- `str::trim`.
abbrev pub trim : Text → Text
trim text = reverse (trim_start (reverse (trim_start text)))

-- `strip_prefix('v')`, or the text itself.
abbrev pub without_v : Text → Text
without_v [] = []
without_v (c ∷ cs) = if c == 0x76 then cs else c ∷ cs

abbrev pub starts_suffix : ℕ → Bool
starts_suffix c = c == 0x2d || c == 0x2b

-- `text.split_at(at)` at the first `-` or `+`, or at the end.
unfoldable pub split_suffix : Text → Text × Text
split_suffix [] = ([], [])
split_suffix (c ∷ cs) =
    if starts_suffix c then ([], c ∷ cs) else (c ∷ (split_suffix cs).0, (split_suffix cs).1)

abbrev pub all {ℓ} : {A : Type ℓ} → (A → Bool) → List A → Bool
all p [] = true
all p (x ∷ xs) = p x && all p xs

abbrev pub suffix_char : ℕ → Bool
suffix_char c = is_alphanumeric c || (c == 0x2e || (c == 0x2b || c == 0x2d))

-- The first condition that refuses a suffix, negated.
abbrev pub suffix_ok : Text → Bool
suffix_ok [] = true
suffix_ok (c ∷ []) = false
suffix_ok (c ∷ d ∷ cs) = is_alphanumeric d && all suffix_char (d ∷ cs)

abbrev pub put_first : ℕ → List Text → List Text
put_first c [] = (c ∷ []) ∷ []
put_first c (t ∷ ts) = (c ∷ t) ∷ ts

-- `split('.')`.
unfoldable pub split_dots : Text → List Text
split_dots [] = [] ∷ []
split_dots (c ∷ cs) = if c == 0x2e then [] ∷ split_dots cs else put_first c (split_dots cs)

-- `str::parse::<u16>` of digits.
unfoldable pub parse_number : ℕ → Text → Option ℕ
parse_number acc [] = some acc
parse_number acc (c ∷ cs) =
    let next = acc * 10 + (c - 0x30) in
    let rest = parse_number next cs in if ltb next 65536 then rest else none

abbrev pub number_ok : Text → Bool
number_ok n = not (is_empty n) && all is_digit n

abbrev pub bind {ℓ κ} : {A : Type ℓ} {B : Type κ} → Option A → (A → Option B) → Option B
bind none f = none
bind (some a) f = f a

abbrev pub suffix_of : Text → Option Text
suffix_of [] = none
suffix_of (c ∷ cs) = some (c ∷ cs)

abbrev pub numbers_of : Text → Text → Text → Text → Option FirmwareVersion
numbers_of a b c suffix = bind (parse_number 0 a) λ major. bind (parse_number 0 b) λ minor.
    bind (parse_number 0 c) λ patch.
      some (record { major = major; minor = minor; patch = patch; suffix = suffix_of suffix })

-- Two or three components.
abbrev pub components : List Text → Text → Option FirmwareVersion
components (a ∷ b ∷ []) suffix =
    if number_ok a && number_ok b then numbers_of a b (0x30 ∷ []) suffix else none
components (a ∷ b ∷ c ∷ []) suffix =
    if number_ok a && (number_ok b && number_ok c) then numbers_of a b c suffix else none
components _ suffix = none

-- `FirmwareVersion::parse`.
unfoldable pub parse_version : Text → Option FirmwareVersion
unfolding split_dots split_suffix parse_number
parse_version text =
    let parts = split_suffix (without_v (trim text)) in
    if suffix_ok parts.1 then components (split_dots parts.0) parts.1 else none

-- `FirmwareVersion::compatibility_base`.
unfoldable pub compatibility_base : FirmwareVersion → Version
compatibility_base f =
    if (f.major == 3 && f.minor == 1) || (f.major == 4 && f.minor == 0)
    then version 3 1 0
    else version f.major f.minor f.patch
