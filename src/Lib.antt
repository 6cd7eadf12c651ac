-- ===== src/Lib.antt =====
-- Verification library for libcanokey, a host library for CanoKey security keys that performs no I/O:
-- it gives the caller command bytes and takes response bytes.
--
-- The parts, from the bottom up, with the files that model them (paths from the repository's root):
--
-- - Prelude, Prelude/Boolean, Prelude/Lists: shared names, Boolean tests on the native numbers,
--   byte strings and lemmas on lists. They model no code.
-- - Error: crates/canokey-protocol/src/error.rs. `Error`, its kinds and phases, `Error::status`
--   (`status`), and `Result<T, Error>`. Error/Status: its laws.
-- - Apdu: crates/canokey-protocol/src/apdu.rs. `CommandApdu::encode`, `corrected`,
--   `ResponseApdu::parse`. Apdu/Iso7816 is a card's reading of a command, written from the standard
--   and not from the code; Apdu/RoundTrip relates the two; Apdu/Ranges bounds what a card can read in
--   a form, and Apdu/Refusal decides by it what is refused. Apdu/Encode, Apdu/Response: the laws.
-- - Tlv: crates/canokey-protocol/src/tlv.rs. `parse_tag`, `Tag`, `TlvReader::next`,
--   `Tlv::children`, `TlvWriter::push`. Tlv/Tags, Lengths, Field: lemmas by part of a field;
--   Tlv/RoundTrip, Canonical, Bounds: the laws.
-- - Options: the limits of crates/canokey-protocol/src/operation.rs and `validate`.
-- - Conversation: `ConversationState::new` (`new`) and `ConversationState::advance` (`advance`) of
--   crates/canokey-protocol/src/operation.rs. One logical command becomes frames, and the card's
--   responses become one response. Conversation/Card is the card's side of command chaining;
--   Frames, FittedLe, ChannelFit, Chain, Responses, Reassembly: the laws.
-- - Operation: `Operation<T>` of the same file: an applet's machine and the conversation of its
--   current command, driven by `start` and `advance`. A method that takes `&mut self` returns the
--   operation afterwards and its result. The boxed machine is its state and a record of its methods,
--   a parameter of the theorems. Operation/Valid, Preserve, Lifecycle, Termination: the invariant,
--   the methods one by one, whole lives of an operation, and the exchange budget.
-- - Ndef, Ndef/Read, Ndef/Write: crates/canokey-ndef/src/lib.rs. `CapabilityMachine`,
--   `ReadMachine`, `WriteMachine` and the three factories. Ndef/Tag is a Type 4 Tag as the host sees
--   it, independent of the code, and a session of a machine with it; Ndef/Layout, Crash, ReadBack:
--   what sessions do.
-- - Ctap: crates/canokey-ctap/src/lib.rs and status.rs. The queue of requests (`Sequence`), the
--   command builders, the factories and the error of a CTAP status; Ctap/Codes: `CtapErrorCode`.
--   Ctap/StatusKinds reads the kinds of errors off the names of the codes and holds the code's table of
--   bytes against them; Ctap/Envelope, Ctap/CodeBytes: the laws.
-- - Ctap/Cbor: crates/canokey-ctap/src/cbor.rs. `Value` and its accessors; Ctap/Cbor/Encode: `encode`;
--   Ctap/Cbor/Parse: `parse`. Ctap/Cbor/Wire is the grammar that the parser is held against,
--   Ctap/Cbor/KeyOrder and Normal the canonical order of maps, apart from the code; Octets, Head,
--   Loops, Sound, Complete, Canonical, NormalForm: the laws.
-- - Compat: crates/canokey-compat/src/lib.rs. Compat/Firmware: `FirmwareVersion::parse`;
--   Compat/Algorithms: `AlgorithmConfig`; Compat/Profile: `DeviceProfile` and `capability`;
--   Compat/Keys: the algorithms of a profile and their PIV identifiers. Compat/UniqueIds,
--   WireIds, KeySupport: the laws.
-- - Oath: crates/canokey-oath/src. Oath: types.rs; Oath/Target: the command of a request; Oath/Fields,
--   Response: what the card answers; Oath/Machine: `Oath::next`; Oath/Factory: `operation`;
--   Oath/Decimal: `Calculation::decimal`. Oath/FieldLaws, DecimalLaws, Authentication, FactoryLaws:
--   the laws.
--   The machine runs in an Operation and asks Compat for what the firmware can do.
-- - Ctap/Cose, Ctap/AuthData: crates/canokey-ctap/src/cose.rs and authdata.rs, on the CBOR model.
--   Ctap/CoseLaws, AuthDataLaws: the laws.
--
-- The Tests modules run the definitions and apply the theorems at concrete inputs.
--
-- Representation. Bytes are numbers; theorems that need them below 256 say so. Arithmetic of a
-- machine width has its wrap-around or its overflow test written out: u32 tags are folded modulo
-- 2 ^ 32, a `checked_add` fails at 2 ^ 64. `max_response_bytes - 2` is only reached with options that
-- `validate` accepted. `SecretBytes` is its byte string. A firmware text is the
-- list of its characters, a CBOR text its UTF-8 bytes.
--
-- Parameters. HMAC-SHA-1 is a function of key and message and PBKDF2 one of password, salt, rounds
-- and size, arguments of the definitions of Oath that use them; no theorem assumes anything of them.
-- UTF-8 validation is an argument of `from_observations`, of `parse` and of what parses with it.
--
-- Fuel. The loop over chunks takes the number of chunks that the code computes. A session with a
-- tag takes a number of steps, as does a run with a card; a theorem that one completes names the
-- number that it needs. The loop of the OATH field reader takes the length of its input, since every
-- turn drops two bytes or more. The CBOR parser and encoder take the levels of nesting that are
-- left, of the 64 that the code allows: running out is the code's own error. No other definition
-- takes fuel: the loops of the TLV codec run over their input.
--
-- Not modelled: wiping of buffers and redacted text (no effect on results); the other applets
-- (canokey-openpgp, canokey-piv, canokey-admin), the rest of canokey-ctap (the CTAP2 commands, U2F,
-- the PIN protocols and the management commands), canokey-key; the facade in crates/canokey, which
-- re-exports; the C bindings in crates/canokey-c.
pub mod Prelude
pub mod Error
pub mod Apdu
pub mod Tlv
pub mod Options
pub mod Conversation
pub mod Operation
pub mod Ndef
pub mod Ctap
pub mod Compat
pub mod Oath
