-- ===== src/Error/Tests.antt =====
-- Runs of `Error::status`, and the theorems at concrete inputs.
use libcanokey.Prelude.{◌≡◌, ◌↔◌, ◌⊎◌, ◌+◌, ◌<◌, refl, ℕ, some, none}
use libcanokey.Error.{status, authentication_failed, unsupported_device, command, select, pin}
use libcanokey.Error.Status.{IsPinLike, status_retries, status-kind_blame}

wrong_pin : (status 0x63c2 command (some pin)).kind ≡ authentication_failed
unfolding status
wrong_pin = refl

status_retries_example :
    ((status 0x63c2 command (some pin)).retries_remaining ≡ some 2)
    ↔ (IsPinLike (some pin) × (0x63c2 ≡ 0x63c0 + 2) × (2 < 16))
status_retries_example = status_retries 0x63c2 2 command (some pin)

abbrev missing : ℕ
missing = 0x6a82

status-kind_blame_example :
    ((status missing select none).kind ≡ unsupported_device)
    ↔ ((select ≡ select) × ((missing ≡ 0x6a82) ⊎ (missing ≡ 0x6a88)))
status-kind_blame_example = (status-kind_blame missing select none).0
