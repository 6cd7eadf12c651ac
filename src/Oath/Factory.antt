-- ===== src/Oath/Factory.antt =====
-- crates/canokey-oath/src/execute.rs: `operation`, which builds an `Oath` machine. `hmac` is a parameter.
use libcanokey.Prelude.{
  ℕ, ◌+◌, ◌-◌, ◌==◌, Bool, true, false, not, ◌&&◌, ◌||◌, [], ◌∷◌, Option, none, some, min, is_some,
  is_none, ltb, if◌then◌else◌, length, Bytes,
}
use libcanokey.Error
use libcanokey.Error.{
  Error, Phase, ErrorKind, SecretReference, Result, ok, err, ◌>>=◌, ◌>>◌, reject, ok_or, malformed,
  at_phase, status,
}
use libcanokey.Apdu.{absent, exact}
use libcanokey.Options.{OperationOptions}
use libcanokey.Conversation.{LogicalCommand}
use libcanokey.Operation.{Operation, from_machine, validate_command}
use libcanokey.Compat.{Capability, require, is_supported}
use libcanokey.Compat.Firmware.{bind}
use libcanokey.Compat.Profile.{DeviceProfile, capability, legacy_explicit_le}
use libcanokey.Oath.{
  sha512, Access, is_truncated, short_touch, long_touch, Request, put, rename, calculate,
  calculate_all, set_code, set_default, Outcome,
}
use libcanokey.Oath.Target.{argument, command, select_oath, target}
use libcanokey.Oath.Machine.{Oath, with_le, is_select, is_validate, is_vendor}

-- The requests that need the modern dialect in any case.
abbrev pub needs_modern : Request → Bool
needs_modern Request.validate = true
needs_modern (set_code key challenge) = true
needs_modern Request.clear_code = true
needs_modern (rename old new) = true
needs_modern (put c) = elim c.algorithm [ sha512 ↦ true | _ ↦ false ]
needs_modern (calculate name kind algorithm challenge format) = elim algorithm [
  | sha512 ↦ true
  | _ ↦ false
]
needs_modern _ = false

abbrev pub needs_full : Request → Bool
needs_full (calculate name kind algorithm challenge format) = not (is_truncated format)
needs_full (calculate_all challenge format) = not (is_truncated format)
needs_full _ = false

-- A default slot that the single-slot dialect cannot express.
abbrev pub needs_slots : Request → Bool
needs_slots (set_default short_touch append_enter name) = append_enter
needs_slots (set_default long_touch append_enter name) = true
needs_slots _ = false

-- The least response for one page, of the requests that are paged.
abbrev pub page_minimum : Bool → Request → Option ℕ
page_minimum legacy Request.list = some (if legacy then 70 else 67)
page_minimum legacy (calculate_all challenge format) = some 133
page_minimum legacy _ = none

abbrev pub map_command :
    (LogicalCommand → LogicalCommand) → Option LogicalCommand → Option LogicalCommand
map_command f none = none
map_command f (some c) = some (f c)

abbrev pub require_if : Bool → DeviceProfile → Capability → Result (Unit {0})
require_if test p feature = if test then require (capability p feature) else ok tt

abbrev pub validate_some : Option LogicalCommand → OperationOptions → Result (Unit {0})
validate_some none o = ok tt
validate_some (some c) o = validate_command c o

-- The Le of a page.
abbrev pub page_target :
    Option ℕ → OperationOptions → Option LogicalCommand → Result (Option LogicalCommand)
page_target none o c = ok c
page_target (some least) o c = do
  reject (ltb o.exchange.max_response_bytes (least + 2)) (Error.new ErrorKind.limit_exceeded)
  ok (map_command (λ c. record c { le = exact (min 255 (o.exchange.max_response_bytes - 2)) }) c)

abbrev pub zeros : Bytes
zeros =
    0 ∷ 0 ∷ 0 ∷ 0 ∷ 0 ∷ 0 ∷ 0 ∷ 0 ∷ 0 ∷ 0 ∷ 0 ∷ 0 ∷ 0 ∷ 0 ∷ 0 ∷ 0 ∷ 0 ∷ 0 ∷ 0 ∷ 0 ∷ 0 ∷ 0 ∷ 0 ∷ 0
    ∷ 0 ∷ 0 ∷ 0 ∷ 0 ∷ 0 ∷ 0 ∷ 0 ∷ 0 ∷ []

abbrev pub four_bytes : Bytes → Option Bytes
four_bytes b = if length b == 4 then some b else none

module _ (hmac : Bytes → Bytes → Bytes) where
  -- `operation`.
  unfoldable pub operation :
      DeviceProfile → Request → Option Access → OperationOptions → Result (Operation Oath Outcome)
  operation p request access o = do
    require (capability p Capability.oath)
    reject
        ((is_select request && is_some access)
          || ((is_validate request && is_none access) || (is_vendor request && is_some access)))
        argument
    require_if (is_vendor request) p Capability.oath_challenge_response
    let legacy = is_supported (capability p Capability.oath_legacy).support
    let slots = is_supported (capability p Capability.oath_set_default_slots).support
    reject (not slots && needs_slots request) argument
    require_if (is_some access || needs_modern request) p Capability.oath_modern
    require_if (needs_full request) p Capability.oath_full_response
    let explicit = legacy_explicit_le p
    wanted ← target hmac request legacy slots
    paged ← page_target (page_minimum legacy request) o (map_command (with_le explicit) wanted)
    validate_command (with_le explicit select_oath) o
    validate_some paged o
    validate_some (if is_some access then some (command 0xa3 0 0 zeros absent) else none) o
    from_machine
        (record {
          request = request;
          access = access;
          target = paged;
          phase = 0;
          legacy = legacy;
          explicit_le = explicit;
          serial = bind p.info.serial four_bytes;
        })
        o
