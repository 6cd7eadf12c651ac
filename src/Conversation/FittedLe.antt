-- ===== src/Conversation/FittedLe.antt =====
-- The Le that `ConversationState::new` (crates/canokey-protocol/src/operation.rs) asks for.
use libcanokey.Prelude.{ℕ, ◌+◌, ◌≤◌, ◌<◌, ◌⊎◌, Bool, ◌≡◌, refl, ap, arith, inl, inr}
use libcanokey.Error.{ok}
use libcanokey.Apdu.{ExpectedLength, absent, exact}
use libcanokey.Options.{OperationOptions}
use libcanokey.Conversation.{max_data, Continuation, fit_expected}

-- Le as the channel allows it: a response of so many bytes and its status word is no longer than
-- the channel's limit. It is the given one where that fits, and the most that fits elsewhere.
abbrev pub IsFitted : ExpectedLength → ExpectedLength → ℕ → Type 0
IsFitted given absent limit = given ≡ absent
IsFitted given (exact n) limit =
    (n + 2 ≤ limit)
    × ((given ≡ exact n) ⊎ ((m : ℕ) × (given ≡ exact m) × (limit < m + 2) × (n + 2 ≡ limit)))

pub fit_expected-IsFitted :
    (policy : Continuation) (correct_le : Bool) (given le : ExpectedLength) (o : OperationOptions)
    → 2 ≤ o.exchange.max_response_bytes
    → fit_expected policy correct_le given o ≡ ok le
    → IsFitted given le o.exchange.max_response_bytes
unfolding fit_expected
fit_expected-IsFitted policy correct_le given absent o v e = ground arith
fit_expected-IsFitted policy correct_le absent (exact n) o v e = cc
fit_expected-IsFitted policy correct_le (exact m) (exact n) o v e =
    let given_fits : (max_data o < m) × (n ≡ max_data o) ⊎ (n ≡ m) × (m ≤ max_data o) =
      ground arith in
    elim given_fits [
      | inl (wide, most) ↦ (omega arith, inr (m, refl, omega arith, omega arith))
      | inr (same, fits) ↦ (omega arith, inl (ap exact (omega arith)))
    ]
