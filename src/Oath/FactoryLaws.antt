-- ===== src/Oath/FactoryLaws.antt =====
-- What `operation` of crates/canokey-oath/src/execute.rs builds when it is given an access key.
use libcanokey.Prelude.{
  ◌≡◌, refl, true, false, not, ◌&&◌, ◌||◌, Option, none, some, is_some, is_none, arith, Bytes,
}
use mathlib.Core.Path.{subst}
use libcanokey.Error.{ok, >>=-eq-ok, reject-eq-ok, ok-injective}
use libcanokey.Apdu.{absent}
use libcanokey.Options.{OperationOptions, validate}
use libcanokey.Operation.{Operation, from_machine, validate_command}
use libcanokey.Compat.{
  Support, supported, unsupported, unknown, is_supported, Evidence, require, Capability, version,
}
use libcanokey.Compat.Firmware.{FirmwareVersion}
use libcanokey.Compat.Profile.{
  DeviceProfile, capability, range_for, firmware_range, range_of, legacy_explicit_le,
}
use libcanokey.Oath.{Access, Request, Outcome}
use libcanokey.Oath.Target.{argument, command, select_oath, target}
use libcanokey.Oath.Machine.{Oath, with_le, is_select, is_validate, is_vendor}
use libcanokey.Oath.Factory.{
  needs_full, needs_slots, page_minimum, map_command, require_if, validate_some, page_target, zeros,
  operation,
}

require-is_supported :
    (x : Support) (e : Evidence)
    → require (record { support = x; evidence = e }) ≡ ok tt
    → is_supported x ≡ true
unfolding require
require-is_supported supported e h = refl
require-is_supported unsupported e h = cc
require-is_supported unknown e h = cc

-- No firmware speaks both dialects.
modern_not_legacy :
    (p : DeviceProfile)
    → is_supported (capability p Capability.oath_modern).support ≡ true
    → is_supported (capability p Capability.oath_legacy).support ≡ false
unfolding capability range_for firmware_range
modern_not_legacy p h = by_firmware p.info.firmware h
  where
    by_firmware :
        (f : Option FirmwareVersion)
        → is_supported (range_of f (version 1 5 2) (version 3 1 0)).support ≡ true
        → is_supported (range_of f (version 1 3 0) (version 1 3 0)).support ≡ false
    by_firmware none k = refl
    by_firmware (some f) k = ground arith

-- The machine of an operation that was built with a key.
abbrev pub IsGuarded : Request → Access → Operation Oath Outcome → Type 0
IsGuarded request a op =
    (s : Oath) × (op.machine ≡ some s)
    × (s.phase ≡ 0)
    × (s.request ≡ request)
    × (s.access ≡ some a)
    × (s.legacy ≡ false)
    × (is_vendor s.request ≡ false)
    × (is_select s.request ≡ false)

-- An operation that is built with an access key has a machine in its first phase that holds the key,
-- for a request other than a selection and the vendor ones, and never in the legacy dialect.
pub operation-IsGuarded :
    (hmac : Bytes → Bytes → Bytes) (p : DeviceProfile) (request : Request) (a : Access)
    (o : OperationOptions) (op : Operation Oath Outcome)
    → operation hmac p request (some a) o ≡ ok op
    → IsGuarded request a op
unfolding operation from_machine
operation-IsGuarded hmac p request a o op e =
    let (u1, oath, e1) = >>=-eq-ok (require (capability p Capability.oath)) _ e in
    let (allowed, e2) =
      reject-eq-ok
        ((is_select request && is_some (some a))
          || ((is_validate request && is_none (some a)) || (is_vendor request && is_some (some a))))
        argument _ e1 in
    let (u2, vendor, e3) =
      >>=-eq-ok (require_if (is_vendor request) p Capability.oath_challenge_response) _ e2 in
    let (slots, e4) =
      reject-eq-ok
        (not (is_supported (capability p Capability.oath_set_default_slots).support)
          && needs_slots request)
        argument _ e3 in
    let (u3, modern, e5) = >>=-eq-ok (require (capability p Capability.oath_modern)) _ e4 in
    let (u4, full, e6) =
      >>=-eq-ok (require_if (needs_full request) p Capability.oath_full_response) _ e5 in
    let (wanted, asked, e7) =
      >>=-eq-ok
        (target hmac request (is_supported (capability p Capability.oath_legacy).support)
          (is_supported (capability p Capability.oath_set_default_slots).support))
        _ e6 in
    let (paged, page, e8) =
      >>=-eq-ok
        (page_target
          (page_minimum (is_supported (capability p Capability.oath_legacy).support) request) o
          (map_command (with_le (legacy_explicit_le p)) wanted))
        _ e7 in
    let (u5, selects, e9) =
      >>=-eq-ok (validate_command (with_le (legacy_explicit_le p) select_oath) o) _ e8 in
    let (u6, fits, e10) = >>=-eq-ok (validate_some paged o) _ e9 in
    let (u7, validates, e11) =
      >>=-eq-ok (validate_some (some (command 0xa3 0 0 zeros absent)) o) _ e10 in
    let (valid, checked, e12) = >>=-eq-ok (validate o) _ e11 in
    let speaks =
      require-is_supported (capability p Capability.oath_modern).support
        (capability p Capability.oath_modern).evidence modern in
    subst (IsGuarded request a) (ok-injective e12)
      (_, refl, refl, refl, refl, modern_not_legacy p speaks, ground arith, ground arith)
