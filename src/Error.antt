-- ===== src/Error.antt =====
-- crates/canokey-protocol/src/error.rs: the structured protocol failure, its classification
-- from a card status word, and `Result<T, Error>`. A status word is its 16-bit number.
pub mod Status
mod Tests
use libcanokey.Prelude.{
  ℕ, ◌/◌, ◌%◌, ◌==◌, Bool, true, false, ◌&&◌, ◌||◌, Option, none, some, is_some, if◌then◌else◌, ◌≡◌,
  ◌≢◌, refl, ◌⊎◌, inl, inr,
}

pub data ErrorKind : Type 0 where
  invalid_argument invalid_pin invalid_response protocol_violation limit_exceeded : ErrorKind
  authentication_failed device_authentication_failed pin_blocked : ErrorKind
  security_status_not_satisfied conditions_not_satisfied not_found : ErrorKind
  unsupported_device unsupported_feature unsupported_algorithm capability_unknown : ErrorKind
  unsupported_protocol_version unexpected_status_word operation_state_error : ErrorKind

pub data Phase : Type 0 where
  construction select command authentication parsing conversation : Phase

pub data SecretReference : Type 0 where
  pin puk management_key admin_pin oath_access pw1_sign pw1_other pw3 reset_code : SecretReference

pub record Error : Type 0 where
  pub kind : ErrorKind
  pub phase : Phase
  pub status_word : Option ℕ
  pub application_status : Option ℕ
  pub reference : Option SecretReference
  pub retries_remaining : Option ℕ

-- `Error::new`.
abbrev pub new : ErrorKind → Error
new kind = record {
  kind = kind;
  phase = construction;
  status_word = none;
  application_status = none;
  reference = none;
  retries_remaining = none;
}

-- `Error::at`.
abbrev pub at_phase : Error → Phase → Error
at_phase e p = record e { phase = p }

-- The references that stand for a PIN with a retry counter.
unfoldable pub is_pin_reference : Option SecretReference → Bool
is_pin_reference none = false
is_pin_reference (some pin) = true
is_pin_reference (some puk) = true
is_pin_reference (some admin_pin) = true
is_pin_reference (some pw1_sign) = true
is_pin_reference (some pw1_other) = true
is_pin_reference (some pw3) = true
is_pin_reference (some reset_code) = true
is_pin_reference (some management_key) = false
is_pin_reference (some oath_access) = false

abbrev is_select : Phase → Bool
is_select select = true
is_select _ = false

-- The `match sw.raw()` of `Error::status`, its arms in order.
unfoldable pub status_kind : ℕ → Phase → Option SecretReference → ErrorKind
unfolding is_pin_reference
status_kind sw phase reference =
    if sw == 0x6983 && is_pin_reference reference
    then pin_blocked
    else if sw == 0x6982
    then security_status_not_satisfied
    else if sw == 0x6985
    then conditions_not_satisfied
    else if (sw == 0x6a82 || sw == 0x6a88) && is_select phase
    then unsupported_device
    else if sw == 0x6a82 || sw == 0x6a88
    then not_found
    else if sw == 0x6d00 || sw == 0x6e00
    then unsupported_feature
    else if sw / 16 == 0x63c && is_some reference
    then authentication_failed
    else unexpected_status_word

-- `Error::status`; `sw & 0xfff0 == 0x63c0` of a u16 is `sw / 16 == 0x63c`.
unfoldable pub status : ℕ → Phase → Option SecretReference → Error
unfolding status_kind
status sw phase reference = record {
  kind = status_kind sw phase reference;
  phase = phase;
  status_word = some sw;
  application_status = none;
  reference = reference;
  retries_remaining =
      if is_pin_reference reference && (sw / 16 == 0x63c) then some (sw % 16) else none;
}

pub data Result {ℓ} (A : Type ℓ) : Type ℓ where
  ok : A → Result A
  err : Error → Result A

pub Result-cases {ℓ} :
    {A : Type ℓ} (r : Result A) → ((a : A) × (r ≡ ok a)) ⊎ ((e : Error) × (r ≡ err e))
Result-cases (ok a) = inl (a, refl)
Result-cases (err e) = inr (e, refl)

pub ok-injective {ℓ} : {A : Type ℓ} {x y : A} → ok x ≡ ok y → x ≡ y
ok-injective h = cc

pub err-injective {ℓ} : {A : Type ℓ} {x y : Error} → ◌≡◌ {A = Result A} (err x) (err y) → x ≡ y
err-injective h = cc

pub ok≢err {ℓ} : {A : Type ℓ} {a : A} {e : Error} → ok a ≢ err e
ok≢err h = cc

-- The `?` operator: an error ends the function.
infixl 5 ◌>>=◌
abbrev pub ◌>>=◌ {ℓ κ} :
    {Value : Type ℓ} {Next : Type κ} → Result Value → (Value → Result Next) → Result Next
err problem >>= rest = err problem
ok value >>= rest = rest value

infixl 5 ◌>>◌
abbrev pub ◌>>◌ {ℓ} : {Next : Type ℓ} → Result (Unit {0}) → Result Next → Result Next
check >> rest = check >>= λ done. rest

-- `if bad { return Err(e); }`.
abbrev pub reject : Bool → Error → Result (Unit {0})
reject true e = err e
reject false e = ok tt

-- `o.ok_or_else(|| e)`.
abbrev pub ok_or {ℓ} : {A : Type ℓ} → Option A → Error → Result A
ok_or none e = err e
ok_or (some a) e = ok a

-- Inversion of a chain that succeeded, one step at a time.
pub >>=-eq-ok {ℓ κ} :
    {Value : Type ℓ} {Next : Type κ} (first : Result Value) (rest : Value → Result Next)
    {out : Next}
    → (first >>= rest) ≡ ok out
    → (value : Value) × (first ≡ ok value) × (rest value ≡ ok out)
>>=-eq-ok (err problem) rest e = cc
>>=-eq-ok (ok value) rest e = (value, refl, e)

pub reject-eq-ok {ℓ} :
    {B : Type ℓ} (bad : Bool) (e : Error) (k : Result B) {b : B}
    → (reject bad e >> k) ≡ ok b
    → (bad ≡ false) × (k ≡ ok b)
reject-eq-ok true e k h = cc
reject-eq-ok false e k h = (refl, h)

pub ok_or-eq-ok {ℓ} :
    {A : Type ℓ} (o : Option A) (e : Error) {a : A} → ok_or o e ≡ ok a → o ≡ some a
ok_or-eq-ok none e h = cc
ok_or-eq-ok (some x) e h = cc

-- `InvalidResponse` and `LimitExceeded` as the parsers and the conversation raise them.
abbrev pub malformed : Error
malformed = at_phase (new invalid_response) parsing

abbrev pub over_limit : Error
over_limit = at_phase (new limit_exceeded) conversation

abbrev pub violation : Error
violation = at_phase (new protocol_violation) conversation
