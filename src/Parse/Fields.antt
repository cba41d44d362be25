-- ===== src/Parse/Fields.antt =====
-- src/eos_parse.c: one field of an action's data as a label and a text.
pub mod Laws
use ledger_app.Base.{
  ℕ, ◌+◌, List, [], ◌∷◌, ◌++◌, leb, length, take, drop, replicate, Outcome, ok, ◌>>=◌, ◌>>◌,
  ledger_assert, read_bytes, write_bytes, le_value, sub32,
}
use ledger_app.Types.Varint.{unpack_variant32}
use ledger_app.Types.Name.{buffer_to_name_type, name_to_string}
use ledger_app.Types.Asset.{asset_to_string}
use ledger_app.Types.Key.{Platform, compressed_public_key_to_wif}
use ledger_app.Utils.Digits.{ui64toa}
use ledger_app.Stream.Context.{Argument}

-- What a field's function writes to `arg`, `*read` and `*written`.
pub record Parsed : Type 0 where
  pub arg : Argument
  pub read : ℕ
  pub written : ℕ

-- The label's array: cleared, then the name of the field. The assertion admits 32 characters.
pub new_label : List ℕ → Outcome (List ℕ)
new_label field_name = do
  ledger_assert (leb (length field_name) 32)
  write_bytes 0 field_name (replicate 32 0)

-- The data's array: cleared, then the text.
pub new_data : List ℕ → Outcome (List ℕ)
new_data text = write_bytes 0 text (replicate 128 0)

-- `printString` asserts nothing.
pub print_string : List ℕ → List ℕ → Outcome Argument
print_string text field_name = do
  label ← write_bytes 0 field_name (replicate 32 0)
  value ← new_data text
  ok (record { label = label; value = value })

-- A text under a label, for a field of `size` bytes.
abbrev pub parsed : List ℕ → List ℕ → ℕ → Outcome Parsed
parsed label text size = do
  value ← new_data text
  ok (record { arg = record { label = label; value = value }; read = size; written = length text })

pub parse_name_field : List ℕ → ℕ → List ℕ → Outcome Parsed
parse_name_field bytes in_length field_name = do
  ledger_assert (leb 8 in_length)
  label ← new_label field_name
  name ← buffer_to_name_type bytes 8
  text ← name_to_string name 127
  parsed label text 8

pub parse_public_key_field : Platform → List ℕ → ℕ → List ℕ → Outcome Parsed
parse_public_key_field platform bytes in_length field_name = do
  ledger_assert (leb 33 in_length)
  label ← new_label field_name
  (out, size) ← compressed_public_key_to_wif platform bytes 33 127
  ok (record { arg = record { label = label; value = out ++ (0 ∷ []) }; read = 33; written = size })

-- `snprintf` cuts the text to the 126 characters that its size leaves.
pub parse_uint16_field : Platform → List ℕ → ℕ → List ℕ → Outcome Parsed
parse_uint16_field platform bytes in_length field_name = do
  ledger_assert (leb 2 in_length)
  label ← new_label field_name
  value ← read_bytes 2 bytes
  parsed label (take 126 (platform.format_int (le_value value))) 2

-- The `%d` takes the uint32_t for an `int`.
pub parse_uint32_field : Platform → List ℕ → ℕ → List ℕ → Outcome Parsed
parse_uint32_field platform bytes in_length field_name = do
  ledger_assert (leb 4 in_length)
  label ← new_label field_name
  value ← read_bytes 4 bytes
  parsed label (take 126 (platform.format_int (le_value value))) 4

pub parse_uint64_field : List ℕ → ℕ → List ℕ → Outcome Parsed
parse_uint64_field bytes in_length field_name = do
  ledger_assert (leb 8 in_length)
  label ← new_label field_name
  value ← read_bytes 8 bytes
  text ← ui64toa (le_value value)
  parsed label text 8

pub parse_asset_field : List ℕ → ℕ → List ℕ → Outcome Parsed
parse_asset_field bytes in_length field_name = do
  ledger_assert (leb 16 in_length)
  label ← new_label field_name
  amount ← read_bytes 8 bytes
  symbol ← read_bytes 8 (drop 8 bytes)
  text ← asset_to_string (record { amount = le_value amount; symbol = le_value symbol })
  parsed label text 16

-- The text's length is held against the length of the field with its size.
pub parse_string_field : List ℕ → ℕ → List ℕ → Outcome Parsed
parse_string_field bytes in_length field_name = do
  label ← new_label field_name
  (field_length, read) ← unpack_variant32 bytes in_length
  ledger_assert (leb field_length 127)
  ledger_assert (leb field_length in_length)
  text ← read_bytes field_length (drop read bytes)
  parsed label text (read + field_length)

-- Two names with "@" between; `*written` does not count the "@".
pub parse_permission_field : List ℕ → ℕ → List ℕ → Outcome Parsed
parse_permission_field bytes in_length field_name = do
  account ← parse_name_field bytes in_length field_name
  let start = account.written + 1
  at ← write_bytes account.written (b'@' ∷ []) (account.arg.value)
  ledger_assert (leb 8 (sub32 in_length 8))
  name ← buffer_to_name_type (drop 8 bytes) 8
  text ← name_to_string name (sub32 128 start)
  value ← write_bytes start text at
  ok (record {
    arg = record { label = account.arg.label; value = value };
    read = 16;
    written = length text + account.written;
  })
