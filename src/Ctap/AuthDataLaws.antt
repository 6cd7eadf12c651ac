-- ===== src/Ctap/AuthDataLaws.antt =====
-- The layout that `AuthenticatorData::parse` of crates/canokey-ctap/src/authdata.rs accepts.
use libcanokey.Prelude.{
  ℕ, ◌+◌, ◌/◌, ◌%◌, ◌^◌, ◌==◌, ◌≤◌, ◌≡◌, refl, sym, ap, ◌∙◌, Bool, true, false, not, ◌&&◌, ◌||◌, [],
  ◌∷◌, ◌++◌, Option, none, some, is_some, is_empty, leb, ltb, length, take, drop, Bytes, IsByte,
  All, All-take, All-drop, be16, arith, take-append-drop, length-take, length-drop, drop-drop,
}
use mathlib.Core.Path.{subst}
use mathlib.Core.List.{append-nil, append_assoc}
use libcanokey.Error.{ok, ok_or, malformed, >>=-eq-ok, reject-eq-ok, ok_or-eq-ok, ok-injective}
use libcanokey.Tlv.{be32}
use libcanokey.Ctap.Cbor.{Value, Entries, as_map}
use libcanokey.Ctap.Cbor.Encode.{max_depth}
use libcanokey.Ctap.Cbor.Parse.{be_value, parse_item}
use libcanokey.Ctap.Cbor.Wire.{wire, IsItem}
use libcanokey.Ctap.Cbor.Sound.{parse_at-IsSound}
use libcanokey.Ctap.Cbor.Octets.{be32-be_value, two-be_value, one-be_value}
use libcanokey.Ctap.Cose.{from_value}
use libcanokey.Ctap.AuthData.{
  AttestedCredentialData, AuthenticatorData, flag_be, flag_bs, flag_at, flag_ed, all_text_keys,
  parse_attested, parse_extensions, attested_if, extensions_if, parse_sections, parse_auth_data,
}

-- A list in the three parts that two positions make.
three_parts :
    (m n k : ℕ) (xs : Bytes) → m + n ≡ k → xs ≡ take m xs ++ (take n (drop m xs) ++ drop k xs)
three_parts m n k xs h =
    sym (take-append-drop m xs)
    ∙ ap (λ (ys : Bytes). take m xs ++ ys) (sym (take-append-drop n (drop m xs)))
    ∙ ap (λ (ys : Bytes). take m xs ++ (take n (drop m xs) ++ ys)) (drop-drop n m k xs h)

four_assoc : (a b c d e : Bytes) → a ++ (b ++ (c ++ (d ++ e))) ≡ (a ++ (b ++ (c ++ d))) ++ e
four_assoc a b c d e =
    ap (λ (xs : Bytes). a ++ (b ++ xs)) (sym (append_assoc c d e))
    ∙ ap (λ (xs : Bytes). a ++ xs) (sym (append_assoc b (c ++ d) e))
    ∙ sym (append_assoc a (b ++ (c ++ d)) e)

module _ (is_utf8 : Bytes → Bool) where
  -- The bytes of a section of attested credential data, present or not.
  abbrev pub IsAttested : Option AttestedCredentialData → Bytes → Type 0
  IsAttested none section = section ≡ []
  IsAttested (some a) section =
      (key : Value) × (section
        ≡ a.aaguid ++ (be16 (length a.credential_id) ++ (a.credential_id ++ wire key)))
      × (length a.aaguid ≡ 16)
      × (1 ≤ length a.credential_id)
      × (length a.credential_id ≤ 1023)
      × IsItem is_utf8 max_depth key
      × (from_value key ≡ ok a.credential_public_key)

  -- The bytes of a section of extensions, present or not.
  abbrev pub IsExtensions : Option Value → Bytes → Type 0
  IsExtensions none section = section ≡ []
  IsExtensions (some v) section =
      (section ≡ wire v)
      × IsItem is_utf8 max_depth v
      × ((entries : Entries) × (as_map v ≡ some entries) × (all_text_keys entries ≡ true))

  parse_item_sound :
      (bs : Bytes) (v : Value) (rest : Bytes)
      → All IsByte bs
      → parse_item is_utf8 bs ≡ ok (v, rest)
      → (bs ≡ wire v ++ rest) × IsItem is_utf8 max_depth v × All IsByte rest
  unfolding parse_item
  parse_item_sound bs v rest b e = parse_at-IsSound is_utf8 max_depth bs v rest b e

  parse_attested_sound :
      (rest : Bytes) (o : Option AttestedCredentialData) (after : Bytes)
      → All IsByte rest
      → parse_attested is_utf8 rest ≡ ok (o, after)
      → (section : Bytes) × (rest ≡ section ++ after)
        × IsAttested o section
        × (is_some o ≡ true)
        × All IsByte after
  unfolding parse_attested
  parse_attested_sound rest o after b e =
      let (long, e1) = reject-eq-ok (ltb (length rest) 18) malformed _ e in
      let size = be_value 0 (take 2 (drop 16 rest)) in
      let (ranged, e2) = reject-eq-ok (not (leb 1 size && leb size 1023)) malformed _ e1 in
      let (present, e3) = reject-eq-ok (ltb (length (drop 18 rest)) size) malformed _ e2 in
      let (p, item, e4) = >>=-eq-ok (parse_item is_utf8 (drop size (drop 18 rest))) _ e3 in
      let (key, read, e5) = >>=-eq-ok (from_value p.0) _ e4 in
      let id = take size (drop 18 rest) in
      let (after_id, good, b1) =
        parse_item_sound (drop size (drop 18 rest)) p.0 p.1
          (All-drop IsByte size (drop 18 rest) (All-drop IsByte 18 rest b)) item in
      let (octets, small) =
        two-be_value (take 2 (drop 16 rest))
          (length-take 2 (drop 16 rest) ∙ ground (arith, length-drop 16 rest, long))
          (All-take IsByte 2 (drop 16 rest) (All-drop IsByte 16 rest b)) in
      let id_size : length id ≡ size = length-take size (drop 18 rest) ∙ ground (arith, present) in
      let a : AttestedCredentialData = record {
        aaguid = take 16 rest;
        credential_id = id;
        credential_public_key = key;
      } in
      let section = take 16 rest ++ (be16 (length id) ++ (id ++ wire p.0)) in
      let whole : rest ≡ section ++ p.1 =
        three_parts 16 2 18 rest refl
        ∙ ap (λ (xs : Bytes). take 16 rest ++ (xs ++ drop 18 rest))
            (sym octets ∙ ap be16 (sym id_size))
        ∙ ap (λ (xs : Bytes). take 16 rest ++ (be16 (length id) ++ xs))
            (sym (take-append-drop size (drop 18 rest)) ∙ ap (λ (xs : Bytes). id ++ xs) after_id)
        ∙ four_assoc (take 16 rest) (be16 (length id)) id (wire p.0) p.1 in
      let out : ◌≡◌ {A = Option AttestedCredentialData × Bytes} (some a, p.1) (o, after) =
        ok-injective e5 in
      subst
        (λ (r : Option AttestedCredentialData × Bytes).
          (section : Bytes) × (rest ≡ section ++ r.1)
          × IsAttested r.0 section
          × (is_some r.0 ≡ true)
          × All IsByte r.1)
        out
        (
          section,
          whole,
          (
            p.0,
            refl,
            length-take 16 rest ∙ ground (arith, long),
            ground arith,
            ground arith,
            good,
            read,
          ),
          refl,
          b1,
        )

  attested_if_sound :
      (present : Bool) (rest : Bytes) (o : Option AttestedCredentialData) (after : Bytes)
      → All IsByte rest
      → attested_if is_utf8 present rest ≡ ok (o, after)
      → (section : Bytes) × (rest ≡ section ++ after)
        × IsAttested o section
        × (is_some o ≡ present)
        × All IsByte after
  attested_if_sound true rest o after b e = parse_attested_sound rest o after b e
  attested_if_sound false rest o after b e =
      let out : ◌≡◌ {A = Option AttestedCredentialData × Bytes} (none, rest) (o, after) =
        ok-injective e in
      subst
        (λ (r : Option AttestedCredentialData × Bytes).
          (section : Bytes) × (rest ≡ section ++ r.1)
          × IsAttested r.0 section
          × (is_some r.0 ≡ false)
          × All IsByte r.1)
        out ([], refl, refl, refl, b)

  extensions_if_sound :
      (present : Bool) (rest : Bytes) (o : Option Value) (after : Bytes)
      → All IsByte rest
      → extensions_if is_utf8 present rest ≡ ok (o, after)
      → (section : Bytes) × (rest ≡ section ++ after)
        × IsExtensions o section
        × (is_some o ≡ present)
  unfolding parse_extensions
  extensions_if_sound true rest o after b e =
      let (p, item, e1) = >>=-eq-ok (parse_item is_utf8 rest) _ e in
      let (entries, found, e2) = >>=-eq-ok (ok_or (as_map p.0) malformed) _ e1 in
      let (keyed, e3) =
        reject-eq-ok (not (all_text_keys entries)) malformed (ok (some p.0, p.1)) e2 in
      let (rest_is, good, b1) = parse_item_sound rest p.0 p.1 b item in
      let out : ◌≡◌ {A = Option Value × Bytes} (some p.0, p.1) (o, after) = ok-injective e3 in
      subst
        (λ (r : Option Value × Bytes).
          (section : Bytes) × (rest ≡ section ++ r.1)
          × IsExtensions r.0 section
          × (is_some r.0 ≡ true))
        out
        (
          wire p.0,
          rest_is,
          (refl, good, (entries, ok_or-eq-ok (as_map p.0) malformed found, ground arith)),
          refl,
        )
  extensions_if_sound false rest o after b e =
      let out : ◌≡◌ {A = Option Value × Bytes} (none, rest) (o, after) = ok-injective e in
      subst
        (λ (r : Option Value × Bytes).
          (section : Bytes) × (rest ≡ section ++ r.1)
          × IsExtensions r.0 section
          × (is_some r.0 ≡ false))
        out ([], refl, refl, refl)

  -- A bit of a byte, the lowest one being bit 0.
  abbrev pub bit : ℕ → ℕ → Bool
  bit i n = n / 2 ^ i % 2 == 1

  -- What the bytes of authenticator data are.
  abbrev pub IsLayout : Bytes → AuthenticatorData → Type 0
  IsLayout bytes d =
      (attested extensions : Bytes) × (bytes
        ≡ d.rp_id_hash ++ (d.flags ∷ (be32 d.sign_count ++ (attested ++ extensions))))
      × (length d.rp_id_hash ≡ 32)
      × (d.raw ≡ bytes)
      × IsAttested d.attested_credential_data attested
      × IsExtensions d.extensions extensions
      × (is_some d.attested_credential_data ≡ bit 6 d.flags)
      × (is_some d.extensions ≡ bit 7 d.flags)
      × ((bit 4 d.flags && not (bit 3 d.flags)) ≡ false)

  no_more : (xs : Bytes) → not (is_empty xs) ≡ false → xs ≡ []
  no_more [] h = refl
  no_more (x ∷ xs) h = cc

  -- On bytes, authenticator data that is accepted is laid out in full: the hash of 32 bytes, the flags,
  -- the counter of four bytes, and the two sections, which are there exactly if bits 6 and 7 of the flags say so; the
  -- raw bytes are the input, and a backed-up credential (bit 4) is backup eligible (bit 3). The attested section holds
  -- an AAGUID of 16 bytes, a credential ID of 1 to 1023 bytes behind its length, and one strict CBOR
  -- item that is an accepted COSE key; the extensions are one strict CBOR map with text keys.
  pub parse_auth_data-IsLayout :
      (bytes : Bytes) (d : AuthenticatorData)
      → All IsByte bytes
      → parse_auth_data is_utf8 bytes ≡ ok d
      → IsLayout bytes d
  unfolding parse_auth_data parse_sections
  parse_auth_data-IsLayout bytes d b e =
      let (sized, e1) =
        reject-eq-ok (ltb (length bytes) 37 || ltb 65536 (length bytes)) malformed _ e in
      let flags = be_value 0 (take 1 (drop 32 bytes)) in
      let (eligible, e2) = reject-eq-ok (flag_bs flags && not (flag_be flags)) malformed _ e1 in
      let (p, first, e3) = >>=-eq-ok (attested_if is_utf8 (flag_at flags) (drop 37 bytes)) _ e2 in
      let (q, second, e4) = >>=-eq-ok (extensions_if is_utf8 (flag_ed flags) p.1) _ e3 in
      let (ended, e5) = reject-eq-ok (not (is_empty q.1)) malformed _ e4 in
      let (attested, rest_is, attested_good, attested_there, b1) =
        attested_if_sound (flag_at flags) (drop 37 bytes) p.0 p.1 (All-drop IsByte 37 bytes b)
          first in
      let (extensions, after_is, extensions_good, extensions_there) =
        extensions_if_sound (flag_ed flags) p.1 q.0 q.1 b1 second in
      let long : 37 ≤ length bytes = ground arith in
      let (flag_octet, flag_small) =
        one-be_value (take 1 (drop 32 bytes))
          (length-take 1 (drop 32 bytes) ∙ omega (arith, length-drop 32 bytes))
          (All-take IsByte 1 (drop 32 bytes) (All-drop IsByte 32 bytes b)) in
      let (count_octets, count_small) =
        be32-be_value (take 4 (drop 33 bytes))
          (length-take 4 (drop 33 bytes) ∙ omega (arith, length-drop 33 bytes))
          (All-take IsByte 4 (drop 33 bytes) (All-drop IsByte 33 bytes b)) in
      let whole : bytes
          ≡ take 32 bytes
            ++ (flags ∷ (be32 (be_value 0 (take 4 (drop 33 bytes))) ++ (attested ++ extensions))) =
        three_parts 32 1 33 bytes refl
        ∙ ap (λ (xs : Bytes). take 32 bytes ++ (xs ++ drop 33 bytes)) (sym flag_octet)
        ∙ ap (λ (xs : Bytes). take 32 bytes ++ (flags ∷ xs))
            (sym (take-append-drop 4 (drop 33 bytes))
              ∙ ap (λ (xs : Bytes). xs ++ drop 4 (drop 33 bytes)) (sym count_octets)
              ∙ ap (λ (xs : Bytes). be32 (be_value 0 (take 4 (drop 33 bytes))) ++ xs)
                  (drop-drop 4 33 37 bytes refl
                    ∙ rest_is
                    ∙ ap (λ (xs : Bytes). attested ++ xs)
                        (after_is
                          ∙ ap (λ (xs : Bytes). extensions ++ xs) (no_more q.1 ended)
                          ∙ append-nil extensions))) in
      subst (IsLayout bytes) (ok-injective e5) (
        attested,
        extensions,
        whole,
        length-take 32 bytes ∙ omega (arith, long),
        refl,
        attested_good,
        extensions_good,
        attested_there,
        extensions_there,
        eligible,
      )
