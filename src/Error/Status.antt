-- ===== src/Error/Status.antt =====
-- Laws of `Error::status` (crates/canokey-protocol/src/error.rs).
use libcanokey.Prelude.{
  ℕ, ◌+◌, ◌/◌, ◌<◌, ◌≡◌, ◌≢◌, ◌⊎◌, ◌↔◌, true, Option, none, some, arith, is_some,
}
use libcanokey.Error.{
  Phase, SecretReference, status, is_pin_reference, authentication_failed, unsupported_device,
  pin_blocked, not_found, select, management_key, oath_access,
}

-- A PIN-like credential is any but the management key and the OATH access key.
abbrev pub IsPinLike : Option SecretReference → Type 0
IsPinLike reference =
    (reference ≢ none) × (reference ≢ some management_key) × (reference ≢ some oath_access)

-- A failure carries a retry count `n` exactly if the status word is 63Cn with n a nibble and a
-- PIN-like credential was named, any but the management key and the OATH access key.
pub status_retries :
    (sw n : ℕ) (phase : Phase) (reference : Option SecretReference)
    → ((status sw phase reference).retries_remaining ≡ some n)
      ↔ (IsPinLike reference × (sw ≡ 0x63c0 + n) × (n < 16))
unfolding status is_pin_reference
status_retries sw n phase reference = (λ h. ground arith, λ h. ground arith)

-- When a status is blamed on the device, on a credential or on a missing object, each exactly:
-- `unsupported_device` for 6A82 or 6A88 during selection, `not_found` for the same words in any
-- other phase, `pin_blocked` for 6983 on any credential but the management key and the OATH access
-- key, and `authentication_failed` for 63Cx with any credential.
pub status-kind_blame :
    (sw : ℕ) (phase : Phase) (reference : Option SecretReference)
    → (((status sw phase reference).kind ≡ unsupported_device)
        ↔ ((phase ≡ select) × ((sw ≡ 0x6a82) ⊎ (sw ≡ 0x6a88))))
      × (((status sw phase reference).kind ≡ pin_blocked) ↔ ((sw ≡ 0x6983) × IsPinLike reference))
      × (((status sw phase reference).kind ≡ authentication_failed)
          ↔ ((is_some reference ≡ true) × (sw / 16 ≡ 0x63c)))
      × (((status sw phase reference).kind ≡ not_found)
          ↔ ((phase ≢ select) × ((sw ≡ 0x6a82) ⊎ (sw ≡ 0x6a88))))
unfolding status is_pin_reference
status-kind_blame sw phase reference = (
  (λ h. ground arith, λ h. ground arith),
  (λ h. ground arith, λ h. ground arith),
  (λ h. ground arith, λ h. ground arith),
  (λ h. ground arith, λ h. ground arith),
)
