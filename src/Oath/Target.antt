-- ===== src/Oath/Target.antt =====
-- crates/canokey-oath/src/execute.rs: the command of a request. `|` of disjoint bits is `+`; the HMAC is
-- a parameter, from a key and a message to the 20 bytes of HMAC-SHA-1.
use libcanokey.Prelude.{
  ℕ, ◌+◌, ◌*◌, ◌%◌, ◌==◌, Bool, true, false, not, ◌&&◌, ◌||◌, [], ◌∷◌, ◌++◌, Option, none, some,
  is_some, leb, ltb, if◌then◌else◌, length, Bytes,
}
use libcanokey.Error
use libcanokey.Error.{Error, Result, ok, err, ◌>>=◌, ◌>>◌, reject, invalid_argument}
use libcanokey.Apdu.{ExpectedLength, absent, exact}
use libcanokey.Tlv.{be32}
use libcanokey.Conversation.{oath, no_continuation, LogicalCommand, new_command}
use libcanokey.Oath.{
  algorithm_wire, kind_wire, is_totp, Credential, is_truncated, default_wire, hmac_wire, Request,
  put, delete, rename, calculate, calculate_all, set_code, set_default, challenge_response_hmac,
}
use libcanokey.Oath.Fields.{field}

abbrev pub argument : Error
argument = Error.new invalid_argument

abbrev pub bit : Bool → ℕ
bit true = 1
bit false = 0

-- `command`.
unfoldable pub command : ℕ → ℕ → ℕ → Bytes → ExpectedLength → LogicalCommand
command ins p1 p2 body le =
    record (new_command (record { cla = 0; ins = ins; p1 = p1; p2 = p2 }) body le) {
      continuation = no_continuation;
    }

abbrev pub oath_aid : Bytes
oath_aid = 0xa0 ∷ 0 ∷ 0 ∷ 5 ∷ 0x27 ∷ 0x21 ∷ 1 ∷ []

-- `select`.
unfoldable pub select_oath : LogicalCommand
unfolding command
select_oath = command 0xa4 4 0 oath_aid absent

-- `paged`: the command with the continuation that pages it.
abbrev pub paged : Bool → LogicalCommand → LogicalCommand
paged legacy c = record c { continuation = oath (if legacy then 6 else 0xa5) true }

abbrev pub bad_credential : Credential → Bool
bad_credential c =
    not (leb 4 c.digits && leb c.digits 8)
    || (not (leb 1 (length c.secret) && leb (length c.secret) 64)
        || ((is_totp c.kind && not (c.initial_counter == 0))
            || (not (is_totp c.kind) && c.increasing)))

abbrev pub properties : Credential → ℕ
properties c = bit c.increasing + 2 * bit c.require_touch

abbrev pub property_field : Bool → ℕ → Bytes
property_field legacy n =
    if n == 0 then [] else if legacy then field 0x78 (n ∷ []) else 0x78 ∷ n ∷ []

abbrev pub put_data : Bool → Credential → Bytes
put_data legacy c =
    field 0x71 c.name
    ++ ((0x73
          ∷ ((length c.secret + 2) % 256)
          ∷ (kind_wire c.kind + algorithm_wire c.algorithm)
          ∷ c.digits
          ∷ c.secret)
        ++ (property_field legacy (properties c)
            ++ (if is_totp c.kind then [] else field 0x7a (be32 c.initial_counter))))

abbrev pub challenge_field : Option Bytes → Bytes
challenge_field none = []
challenge_field (some challenge) = field 0x74 challenge

-- `*kind == Kind::Totp) != challenge.is_some()`.
abbrev pub differ : Bool → Bool → Bool
differ true b = not b
differ false b = b

module _ (hmac : Bytes → Bytes → Bytes) where
  -- `target`: none for the requests that need no command of their own.
  unfoldable pub target : Request → Bool → Bool → Result (Option LogicalCommand)
  unfolding command
  target Request.select legacy slots = ok none
  target Request.validate legacy slots = ok none
  target Request.list legacy slots =
      ok (some (paged legacy (command (if legacy then 3 else 0xa1) 0 0 [] (exact 255))))
  target (put c) legacy slots = do
    reject (bad_credential c) argument
    ok (some (command 1 0 0 (put_data legacy c) absent))
  target (delete name) legacy slots = ok (some (command 2 0 0 (field 0x71 name) absent))
  target (rename old new) legacy slots =
      ok (some (command 5 0 0 (field 0x71 old ++ field 0x71 new) absent))
  target (calculate name kind algorithm challenge format) legacy slots = do
    reject (differ (is_totp kind) (is_some challenge)) argument
    ok (
        some (
          command (if legacy then 4 else 0xa2) 0 (bit (not legacy && is_truncated format))
            (field 0x71 name ++ challenge_field challenge) absent))
  target (calculate_all challenge format) legacy slots = ok (
      some (
        paged legacy (
          command (if legacy then 5 else 0xa4) 0 (bit (not legacy && is_truncated format))
            (field 0x74 challenge) (exact 255))))
  target (set_code key challenge) legacy slots = ok (
      some (
        command 3 0 0
          ((0x73 ∷ 17 ∷ 1 ∷ key) ++ (field 0x74 challenge ++ field 0x75 (hmac key challenge)))
          absent))
  target Request.clear_code legacy slots = ok (some (command 3 0 0 (field 0x73 []) absent))
  target (set_default slot append_enter name) legacy slots = ok (
      some (
        command 0x55 (if slots then default_wire slot else 0)
          (if slots then bit append_enter else 0) (field 0x71 name) absent))
  target Request.get_serial legacy slots = ok (some (command 1 0x10 0 [] absent))
  target (challenge_response_hmac slot challenge) legacy slots = do
    reject (ltb 64 (length challenge)) argument
    ok (some (command 1 (hmac_wire slot) 0 challenge absent))
