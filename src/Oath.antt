-- ===== src/Oath.antt =====
-- crates/canokey-oath/src/types.rs: the data of the OATH applet. A name, a key and an array of fixed
-- size are their bytes; `pbkdf2` is a parameter.
pub mod Target
pub mod Fields
pub mod Response
pub mod Machine
pub mod Factory
pub mod Decimal
pub mod FieldLaws
pub mod DecimalLaws
pub mod Authentication
pub mod FactoryLaws
mod Tests
use libcanokey.Prelude.{
  ℕ, ◌+◌, ◌*◌, ◌/◌, ◌%◌, ◌==◌, Bool, true, false, not, ◌&&◌, ◌||◌, List, [], ◌∷◌, Option, none,
  some, leb, ltb, if◌then◌else◌, length, Bytes,
}
use libcanokey.Error
use libcanokey.Error.{Result, ok, err, ◌>>◌, reject, invalid_argument}

-- `Name::from_bytes`.
unfoldable pub name_from_bytes : Bytes → Result Bytes
name_from_bytes bytes =
    if leb 1 (length bytes) && leb (length bytes) 64
    then ok bytes
    else err (Error.new invalid_argument)

pub data Algorithm : Type 0 where
  sha1 sha256 sha512 : Algorithm

abbrev pub algorithm_wire : Algorithm → ℕ
algorithm_wire sha1 = 1
algorithm_wire sha256 = 2
algorithm_wire sha512 = 3

abbrev pub algorithm_len : Algorithm → ℕ
algorithm_len sha1 = 20
algorithm_len sha256 = 32
algorithm_len sha512 = 64

pub data Kind : Type 0 where
  hotp totp : Kind

abbrev pub kind_wire : Kind → ℕ
kind_wire hotp = 0x10
kind_wire totp = 0x20

abbrev pub is_totp : Kind → Bool
is_totp totp = true
is_totp hotp = false

pub record Credential : Type 0 where
  pub name : Bytes
  pub kind : Kind
  pub algorithm : Algorithm
  pub digits : ℕ
  pub secret : Bytes
  pub require_touch : Bool
  pub increasing : Bool
  pub initial_counter : ℕ

-- `AccessKey::from_bytes`.
unfoldable pub key_from_bytes : Bytes → Result Bytes
key_from_bytes bytes = if length bytes == 16 then ok bytes else err (Error.new invalid_argument)

-- `AccessKey::from_password`: PBKDF2 takes the password, the salt, the rounds and the output's size.
unfoldable pub key_from_password : (Bytes → Bytes → ℕ → ℕ → Bytes) → Bytes → Bytes → Bytes
key_from_password pbkdf2 password handle = pbkdf2 password handle 1000 16

pub record Access : Type 0 where
  pub key : Bytes
  pub challenge : Bytes

pub record Selection : Type 0 where
  pub version : Bytes
  pub handle : Bytes
  pub challenge : Option Bytes
  pub algorithm : Option ℕ
  pub raw : Bytes

pub data Format : Type 0 where
  truncated full : Format

abbrev pub is_truncated : Format → Bool
is_truncated truncated = true
is_truncated full = false

pub data DefaultSlot : Type 0 where
  short_touch long_touch : DefaultSlot

abbrev pub default_wire : DefaultSlot → ℕ
default_wire short_touch = 1
default_wire long_touch = 2

pub data HmacSlot : Type 0 where
  first_slot second_slot : HmacSlot

abbrev pub hmac_wire : HmacSlot → ℕ
hmac_wire first_slot = 0x30
hmac_wire second_slot = 0x38

pub data Request : Type 0 where
  select validate list clear_code get_serial : Request
  put : Credential → Request
  delete : Bytes → Request
  rename : (old new : Bytes) → Request
  calculate : Bytes → Kind → Algorithm → Option Bytes → Format → Request
  calculate_all : Bytes → Format → Request
  set_code : (key challenge : Bytes) → Request
  set_default : DefaultSlot → (append_enter : Bool) → Bytes → Request
  challenge_response_hmac : HmacSlot → Bytes → Request

pub record Entry : Type 0 where
  pub name : Bytes
  pub algorithm_type : ℕ
  pub digits : Option ℕ

pub data Code : Type 0 where
  truncated_code full_code : Bytes → Code
  hotp_marker touch_required : Code

pub record Calculation : Type 0 where
  pub name : Option Bytes
  pub digits : ℕ
  pub code : Code

pub data Outcome : Type 0 where
  selection : Selection → Outcome
  legacy_selection : Option Bytes → Outcome
  entries : List Entry → Outcome
  calculations : List Calculation → Outcome
  serial : Bytes → Outcome
  challenge_response : Bytes → Outcome
  unit : Outcome
