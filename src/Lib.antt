-- ===== src/Lib.antt =====
-- The Ledger application for Vaulta (EOSIO) transactions.
--
-- The host sends a transaction as DER octet strings, in commands of at most 255 bytes each. The
-- application parses the stream as it comes in, hashes it, shows each action to the user and
-- signs the hash. The parts, with the files of the repository that they model:
--
-- - Types (src/eos_types.c): variable-length integers (Types.Varint), account names as 64-bit values
--   and their text (Types.Name), symbols and assets (Types.Symbol, Types.Asset), public keys in
--   Base58 with a checksum (Types.Key).
-- - Utils (src/eos_utils.c): the header of a DER octet string, tlvTryDecode (Utils.Tlv), ui64toa,
--   i64toa and array_hexstr (Utils.Digits), b58enc (Utils.Base58), check_canonical and
--   ecdsa_der_to_sig (Utils.Signature), the nonces of rng_rfc6979 (Utils.Nonce).
-- - Stream (src/eos_stream.c, src/eos_stream.h): the parser. Stream.Context is
--   txProcessingContext_t, with each array a list of its size and workBuffer the memory from the
--   pointer on, and initTxContext. Stream.Known has the contracts, the actions and isKnownAction.
--   Stream.Fields has the two blocks that all field handlers share, Stream.Handlers one function per
--   handler, Stream.Counts the number of arguments that an action's data has, as processActionData
--   finds it. Stream.Frames says apart from the parser which bytes are a stream of whole fields, each
--   an octet string, and which of them are content. Stream.Machine has readTxByte, the header's loop,
--   the switch on the state, processTxInternal and parseTx.
-- - Parse (src/eos_parse.c, src/eos_parse_token.c, src/eos_parse_eosio.c, src/eos_parse_unknown.c):
--   the argument of an action that the user asks to see, as a label and a text, and printArgument.
-- - App (src/config.c, src/state_neutral.h, src/main.c, src/ui_bagl.c, src/ui_nbgl.c): the
--   settings (App.Config), the actions that change no state (App.StateNeutral), preparseTransaction
--   (App.Preparse), handleSign with the globals of signing (App.Sign), the signature of a hash
--   (App.HashSigner). App.Device adds the other globals and the list of what was sent and shown,
--   and has user_action_sign_flow_ok and user_action_tx_cancel for any interface. App.Review is what
--   both interfaces write out: the actions that are skipped and the way a review goes on; App.Bagl
--   and App.Nbgl are the two interfaces, App.Bagl.Pages the statics of the steps and
--   display_next_state, App.Bagl.Flows the steps of each flow with their texts and calls,
--   App.Nbgl.Pairs the pairs of a page. App.PublicKey is handleGetPublicKey, App.Apdu the dispatch and
--   the main loop.
--
-- The parser calls the decoders of Types and Utils; handleSign runs preparseTransaction over the
-- first command, then feeds the parser, and signs when the parser has come to its last state. The
-- order of the fields is the order of the constructors of TxState.
--
-- How a run ends is a value of Outcome (Base.Runs): ok is a return, halted a failed
-- LEDGER_ASSERT, overrun a read or a write outside an array, and stuck means that a loop of the
-- model had no fuel left. A loop of the source that has no structural bound takes fuel: the
-- header's loop and the parser's loop each get one more than the bytes of the command, since a
-- round that goes on takes a byte; the loop of preparseTransaction gets one more than twice the
-- bytes of the command. The display of an action goes on over skipped actions, each of which takes
-- from what the parser has left, so that fuel above this amount is enough. The draws of a nonce and
-- the tries of a signature end by chance only, as the HMAC and the signatures turn out, and their
-- fuel has no bound. Numbers are natural numbers with the wrap-around of their C type written out
-- where it can happen.
--
-- workBuffer points into the buffer that the commands come into. When a command arrives while the
-- parser has not used up the one before, it reads the new bytes: App.Apdu.receive writes them where
-- workBuffer points before a command is handled. The signature ends the hash (CX_LAST): what it leaves
-- of the global context is the field finish of Sha256.
--
-- The SDK is not part of the repository: SHA-256 is the parameter Sha256, the HMAC is Hmac, keys and
-- signatures are Signer and KeySource, RIPEMD-160 is a function argument, and the memory of the
-- stack that C leaves undefined is an argument too. publicKeyContext and transactionContext share
-- the memory of a union: how one reads once the other was written are two functions of KeySource.
-- A screen is a value of Screen. The flow of the SDK calls the code of a step when it is come to;
-- how it goes from a step to the next and to the one before is the parameter UxFlow. Not modelled: the drawing of the
-- screens, the fixed texts of src/ui_nbgl.c, the exceptions of the SDK that app_main catches,
-- app_exit, the hash's bytes in the union, the slots in which src/ui_nbgl.c keeps the texts of the
-- pairs, and the directories desktop, fuzz and tests.
--
-- Base holds the lemmas that the parts share, and Tests the concrete runs.
pub mod Base
pub mod Types
pub mod Utils
pub mod Stream
pub mod Parse
pub mod App
pub mod Tests
