-- ===== src/Ctap/Tests.antt =====
-- Runs of the CTAP envelope on concrete cards, and the theorems at concrete inputs.
use libcanokey.Prelude.{ℕ, suc, ◌≡◌, ◌≢◌, ◌↔◌, ◌⊎◌, refl, some, none, [], ◌∷◌, arith}
use libcanokey.Error.{ErrorKind, Error, Phase, Result, ok}
use libcanokey.Conversation.{LogicalCommand, ResponseData, ensure_success}
use libcanokey.Ctap.{
  CtapResponse, Request, next_request, sequence, parse_then, parse_response, into_error, msg,
  select_fido2,
}
use libcanokey.Ctap.Codes.{from_byte, byte, extension, ctap1_err_success}
use libcanokey.Ctap.CodeBytes.{from_byte_iff}
use libcanokey.Ctap.Envelope.{run, direct, run-sequence}
use libcanokey.Ctap.StatusKinds.{blame_of, into_error-from_byte}

-- A card that counts the commands and answers every one with an empty CTAP success.
abbrev counting : ℕ → LogicalCommand → ℕ × ResponseData
counting n x = (suc n, record { body = 0 ∷ []; status = 0x9000 })

abbrev select_request : Request
select_request = record { command = select_fido2; phase = Phase.select }

abbrev msg_request : Request
msg_request = record { command = msg (4 ∷ []); phase = Phase.command }

abbrev parser : ResponseData → Result CtapResponse
parser r = parse_then ok r

run-sequence_example :
    run counting next_request 3 (sequence (select_request ∷ msg_request ∷ []) parser) none 0
    ≡ direct counting parser select_request (msg_request ∷ []) 0
run-sequence_example =
    run-sequence counting parser select_request (msg_request ∷ []) 3 0 (omega arith)

two_commands :
    direct counting parser select_request (msg_request ∷ []) 0
    ≡ (2, some (ok (record { status = 0; payload = [] })))
unfolding direct parse_response ensure_success
two_commands = refl

abbrev pin_invalid : ℕ
pin_invalid = 0x31

into_error-from_byte_example :
    ((from_byte pin_invalid ≡ some ctap1_err_success)
      × (into_error pin_invalid Phase.command ≡ none))
    ⊎ ((from_byte pin_invalid ≢ some ctap1_err_success)
        × ((e : Error) × (into_error pin_invalid Phase.command ≡ some e)
            × (e.kind ≡ blame_of (from_byte pin_invalid))
            × (e.phase ≡ Phase.command)
            × (e.application_status ≡ some pin_invalid)
            × (e.status_word ≡ none)))
into_error-from_byte_example = into_error-from_byte pin_invalid Phase.command

pin_invalid_kind : blame_of (from_byte pin_invalid) ≡ ErrorKind.invalid_pin
unfolding from_byte
pin_invalid_kind = refl

from_byte_iff_example : (from_byte 0xe5 ≡ some (extension 5)) ↔ (byte (extension 5) ≡ 0xe5)
from_byte_iff_example = from_byte_iff 0xe5 (extension 5) (omega arith)
