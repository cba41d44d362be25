-- ===== src/Parse/Fields/Laws.antt =====
-- What the functions of src/eos_parse.c show of the bytes of a field.
use ledger_app.Base.{
  ℕ, ◌+◌, ◌-◌, ◌≤◌, ◌≡◌, ◌∙◌, refl, ap, arith, List, ◌∷◌, ◌++◌, leb, length, replicate,
  length-append, drop-replicate, take-append_all, drop-append_all, length-replicate, ok,
  ledger_assert, read_bytes, write_bytes, le_value, after_ok, if_true, le→leb,
}
use ledger_app.Types.Name.{buffer_to_name_type, name_to_string}
use ledger_app.Types.Varint.Laws.{unpack_variant32_short}
use ledger_app.Types.Asset.{asset_to_string}
use ledger_app.Stream.Context.{Argument}
use ledger_app.Parse.Fields.{
  new_label, new_data, parsed, parse_name_field, parse_asset_field, parse_string_field,
}

-- An array of `n` characters with a text and zeros behind it.
abbrev pub padded : ℕ → List ℕ → List ℕ
padded n text = text ++ replicate (n - length text) 0

-- The label and the text of an argument on the screen.
abbrev pub field : List ℕ → List ℕ → Argument
field label text = record { label = padded 32 label; value = padded 128 text }

write_front :
    (m : ℕ) (text : List ℕ)
    → length text ≤ m
    → write_bytes 0 text (replicate m 0) ≡ ok (padded m text)
write_front m text fits =
    let room : 0 + length text ≤ length (replicate {A = ℕ} m 0) =
      omega (arith, length-replicate {A = ℕ} m 0, fits) in
    if_true _ _ _ (le→leb _ _ room)
    ∙ ap ok (
        ap (λ t. text ++ t)
          (drop-replicate (0 + length text) m 0 ∙ ap (λ k. replicate k 0) (omega arith)))

pub read_front :
    (n : ℕ) (bytes rest : List ℕ) → length bytes ≡ n → read_bytes n (bytes ++ rest) ≡ ok bytes
read_front n bytes rest size =
    let inside : n ≤ length (bytes ++ rest) = omega (arith, length-append bytes rest, size) in
    if_true _ _ _ (le→leb _ _ inside) ∙ ap ok (take-append_all n bytes rest size)

assert_le : (m n : ℕ) → m ≤ n → ledger_assert (leb m n) ≡ ok tt
assert_le m n h = ap ledger_assert (le→leb m n h)

new_label-padded : (name : List ℕ) → length name ≤ 32 → new_label name ≡ ok (padded 32 name)
unfolding new_label
new_label-padded name fits = after_ok _ (assert_le _ 32 fits) ∙ write_front 32 name fits

new_data-padded : (text : List ℕ) → length text ≤ 128 → new_data text ≡ ok (padded 128 text)
unfolding new_data
new_data-padded text fits = write_front 128 text fits

-- A text that fits, under a label that was written.
parsed-field :
    (label text : List ℕ) (size : ℕ)
    → length text ≤ 128
    → parsed (padded 32 label) text size
      ≡ ok (record { arg = field label text; read = size; written = length text })
parsed-field label text size fits = after_ok _ (new_data-padded text fits)

pub parse_name_field-field :
    (bytes rest label text : List ℕ) (len : ℕ)
    → length bytes ≡ 8
    → 8 ≤ len
    → length label ≤ 32
    → name_to_string (le_value bytes) 127 ≡ ok text
    → length text ≤ 128
    → parse_name_field (bytes ++ rest) len label
      ≡ ok (record { arg = field label text; read = 8; written = length text })
unfolding parse_name_field buffer_to_name_type
parse_name_field-field bytes rest label text len size inside named printed fits =
    after_ok _ (assert_le 8 len inside)
    ∙ after_ok _ (new_label-padded label named)
    ∙ after_ok _ (after_ok _ (read_front 8 bytes rest size))
    ∙ after_ok _ printed
    ∙ parsed-field label text 8 fits

pub parse_asset_field-field :
    (amount symbol rest label text : List ℕ) (len : ℕ)
    → length amount ≡ 8
    → length symbol ≡ 8
    → 16 ≤ len
    → length label ≤ 32
    → asset_to_string (record { amount = le_value amount; symbol = le_value symbol }) ≡ ok text
    → length text ≤ 128
    → parse_asset_field (amount ++ (symbol ++ rest)) len label
      ≡ ok (record { arg = field label text; read = 16; written = length text })
unfolding parse_asset_field
parse_asset_field-field amount symbol rest label text len size size' inside named printed fits =
    after_ok _ (assert_le 16 len inside)
    ∙ after_ok _ (new_label-padded label named)
    ∙ after_ok _ (read_front 8 amount (symbol ++ rest) size)
    ∙ after_ok _ (
        ap (read_bytes 8) (drop-append_all 8 amount (symbol ++ rest) size)
        ∙ read_front 8 symbol rest size')
    ∙ after_ok _ printed
    ∙ parsed-field label text 16 fits

pub parse_string_field-field :
    (text rest label : List ℕ) (len : ℕ)
    → length text ≤ 127
    → length text ≤ len
    → length label ≤ 32
    → parse_string_field (length text ∷ (text ++ rest)) len label
      ≡ ok (record { arg = field label text; read = 1 + length text; written = length text })
unfolding parse_string_field
parse_string_field-field text rest label len short inside named =
    after_ok _ (new_label-padded label named)
    ∙ after_ok _ (unpack_variant32_short (length text) len (text ++ rest) (omega arith))
    ∙ after_ok _ (assert_le _ 127 short)
    ∙ after_ok _ (assert_le _ len inside)
    ∙ after_ok _ (read_front (length text) text rest refl)
    ∙ parsed-field label text (1 + length text) (omega arith)
