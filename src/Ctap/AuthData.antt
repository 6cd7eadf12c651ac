-- ===== src/Ctap/AuthData.antt =====
-- crates/canokey-ctap/src/authdata.rs: `authenticatorData`. A position is the list of the bytes from
-- it on, an array of fixed size is its bytes, and a flag is a bit of the number of the flags.
use libcanokey.Prelude.{
  ℕ, ◌/◌, ◌%◌, ◌==◌, Bool, true, not, ◌&&◌, ◌||◌, Option, none, some, is_some, is_empty, leb, ltb,
  if◌then◌else◌, length, take, drop, Bytes,
}
use libcanokey.Error.{Result, ok, ◌>>=◌, ◌>>◌, reject, ok_or, malformed}
use libcanokey.Ctap.Cbor.{Value, Entries, end, entry, as_map, as_text}
use libcanokey.Ctap.Cbor.Parse.{be_value, parse_item}
use libcanokey.Ctap.Cose.{CoseKey, from_value}

pub record AttestedCredentialData : Type 0 where
  pub aaguid : Bytes
  pub credential_id : Bytes
  pub credential_public_key : CoseKey

pub record AuthenticatorData : Type 0 where
  pub raw : Bytes
  pub rp_id_hash : Bytes
  pub flags : ℕ
  pub sign_count : ℕ
  pub attested_credential_data : Option AttestedCredentialData
  pub extensions : Option Value

-- `flags & FLAG != 0`, for the flag 2 ^ k.
abbrev pub flag_up : ℕ → Bool
flag_up flags = flags % 2 == 1

abbrev pub flag_uv : ℕ → Bool
flag_uv flags = flags / 4 % 2 == 1

abbrev pub flag_be : ℕ → Bool
flag_be flags = flags / 8 % 2 == 1

abbrev pub flag_bs : ℕ → Bool
flag_bs flags = flags / 16 % 2 == 1

abbrev pub flag_at : ℕ → Bool
flag_at flags = flags / 64 % 2 == 1

abbrev pub flag_ed : ℕ → Bool
flag_ed flags = flags / 128 % 2 == 1

-- `user_present`, `user_verified`, `backup_eligible` and `backed_up`.
abbrev pub user_present : AuthenticatorData → Bool
user_present d = flag_up d.flags

abbrev pub user_verified : AuthenticatorData → Bool
user_verified d = flag_uv d.flags

abbrev pub backup_eligible : AuthenticatorData → Bool
backup_eligible d = flag_be d.flags

abbrev pub backed_up : AuthenticatorData → Bool
backed_up d = flag_bs d.flags

abbrev pub all_text_keys : Entries → Bool
all_text_keys end = true
all_text_keys (entry k v es) = is_some (as_text k) && all_text_keys es

module _ (is_utf8 : Bytes → Bool) where
  -- The section of the attested credential data, and the bytes after it.
  unfoldable pub parse_attested : Bytes → Result (Option AttestedCredentialData × Bytes)
  unfolding be_value
  parse_attested rest = do
    reject (ltb (length rest) 18) malformed
    let id_len = be_value 0 (take 2 (drop 16 rest))
    reject (not (leb 1 id_len && leb id_len 1023)) malformed
    reject (ltb (length (drop 18 rest)) id_len) malformed
    p ← parse_item is_utf8 (drop id_len (drop 18 rest))
    key ← from_value p.0
    ok (
      some (record {
        aaguid = take 16 rest;
        credential_id = take id_len (drop 18 rest);
        credential_public_key = key;
      }),
      p.1,
    )

  -- The section of the extensions, and the bytes after it.
  unfoldable pub parse_extensions : Bytes → Result (Option Value × Bytes)
  parse_extensions rest = do
    p ← parse_item is_utf8 rest
    entries ← ok_or (as_map p.0) malformed
    reject (not (all_text_keys entries)) malformed
    ok (some p.0, p.1)

  abbrev pub attested_if : Bool → Bytes → Result (Option AttestedCredentialData × Bytes)
  attested_if present rest = if present then parse_attested rest else ok (none, rest)

  abbrev pub extensions_if : Bool → Bytes → Result (Option Value × Bytes)
  extensions_if present rest = if present then parse_extensions rest else ok (none, rest)

  -- `AuthenticatorData::parse` from the flags on.
  unfoldable pub parse_sections : Bytes → ℕ → Result AuthenticatorData
  unfolding parse_attested parse_extensions
  parse_sections bytes flags = do
    reject (flag_bs flags && not (flag_be flags)) malformed
    p ← attested_if (flag_at flags) (drop 37 bytes)
    q ← extensions_if (flag_ed flags) p.1
    reject (not (is_empty q.1)) malformed
    ok (record {
      raw = bytes;
      rp_id_hash = take 32 bytes;
      flags = flags;
      sign_count = be_value 0 (take 4 (drop 33 bytes));
      attested_credential_data = p.0;
      extensions = q.0;
    })

  -- `AuthenticatorData::parse`.
  unfoldable pub parse_auth_data : Bytes → Result AuthenticatorData
  unfolding parse_sections
  parse_auth_data bytes = do
    reject (ltb (length bytes) 37 || ltb 65536 (length bytes)) malformed
    parse_sections bytes (be_value 0 (take 1 (drop 32 bytes)))
