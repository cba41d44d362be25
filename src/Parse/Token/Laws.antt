-- ===== src/Parse/Token/Laws.antt =====
-- What a transfer of src/eos_parse_token.c shows of the action's data.
use ledger_app.Base.{
  ℕ, ◌+◌, ◌≤◌, ◌≡◌, ◌∙◌, refl, ap, arith, List, ◌∷◌, ◌++◌, length, drop, drop-append_all, drop_more,
  codes, All, IsByte, le_value, ok, after_ok, sub32, ltb, if◌then◌else◌,
}
use ledger_app.Base.Bytes.{le_value-IsU64}
use ledger_app.Types.Name.{name_to_string}
use ledger_app.Types.Name.Laws.{text_to_name, text_to_name-name_to_string}
use ledger_app.Types.Varint.{unpack_variant32}
use ledger_app.Types.Varint.Laws.{unpack_variant32_short}
use ledger_app.Types.Asset.{asset_to_string}
use ledger_app.Stream.Counts.{process_token_transfer}
use ledger_app.Stream.Context.{Argument}
use ledger_app.Parse.Fields.{parse_name_field, parse_asset_field, parse_string_field}
use ledger_app.Parse.Fields.Laws.{
  field, parse_name_field-field, parse_asset_field-field, parse_string_field-field,
}
use ledger_app.Parse.Token.{parse_token_transfer}

-- The data of a transfer as the chain's serialisation writes it, with what the buffer has behind.
abbrev pub transfer_data : List ℕ → List ℕ → List ℕ → List ℕ → List ℕ → List ℕ → List ℕ
transfer_data from to amount symbol memo rest =
    from ++ (to ++ (amount ++ (symbol ++ (length memo ∷ (memo ++ rest)))))

-- The bytes of a name, and the text that stands for it.
pub name_field :
    (bytes : List ℕ)
    → All IsByte bytes
    → length bytes ≡ 8
    → (text : List ℕ) × (text_to_name text ≡ le_value bytes)
      × (name_to_string (le_value bytes) 127 ≡ ok text)
      × (length text ≤ 13)
name_field bytes are_bytes size =
    let (text, printed, back, short) =
      text_to_name-name_to_string (le_value bytes) 127 (le_value-IsU64 bytes are_bytes size)
        (omega arith) in
    (text, back, printed, short)

pub drop_two :
    (n m : ℕ) (xs ys rest : List ℕ)
    → length xs ≡ n
    → length ys ≡ m
    → drop (n + m) (xs ++ (ys ++ rest)) ≡ rest
drop_two n m xs ys rest size size' =
    drop_more (n + m) n m (xs ++ (ys ++ rest)) refl
    ∙ ap (drop m) (drop-append_all n xs (ys ++ rest) size)
    ∙ drop-append_all m ys rest size'

module _ (from to amount symbol memo rest : List ℕ) (arg : Argument) where
  abbrev data_of : List ℕ
  data_of = transfer_data from to amount symbol memo rest

  abbrev len : ℕ
  len = 33 + length memo

  pub transfer_from :
      (text : List ℕ)
      → length from ≡ 8
      → name_to_string (le_value from) 127 ≡ ok text
      → length text ≤ 13
      → parse_token_transfer data_of len 0 arg ≡ ok (field (codes "From") text)
  unfolding parse_token_transfer
  transfer_from text size printed short = after_ok _ (
      parse_name_field-field from _ (codes "From") text len size (omega arith) (omega arith) printed
        (omega arith))

  pub transfer_to :
      (text : List ℕ)
      → length from ≡ 8
      → length to ≡ 8
      → length memo ≤ 127
      → name_to_string (le_value to) 127 ≡ ok text
      → length text ≤ 13
      → parse_token_transfer data_of len 1 arg ≡ ok (field (codes "To") text)
  unfolding parse_token_transfer
  transfer_to text size size' memo_short printed short = after_ok _ (
      ap (λ t. parse_name_field t (sub32 len 8) (codes "To")) (drop-append_all 8 from _ size)
      ∙ parse_name_field-field to _ (codes "To") text (sub32 len 8) size' (omega arith)
          (omega arith) printed (omega arith))

  pub transfer_quantity :
      (text : List ℕ)
      → length from ≡ 8
      → length to ≡ 8
      → length amount ≡ 8
      → length symbol ≡ 8
      → length memo ≤ 127
      → asset_to_string (record { amount = le_value amount; symbol = le_value symbol }) ≡ ok text
      → length text ≤ 128
      → parse_token_transfer data_of len 2 arg ≡ ok (field (codes "Quantity") text)
  unfolding parse_token_transfer
  transfer_quantity text f t a s memo_short printed short = after_ok _ (
      ap (λ b. parse_asset_field b (sub32 len 16) (codes "Quantity")) (drop_two 8 8 from to _ f t)
      ∙ parse_asset_field-field amount symbol _ (codes "Quantity") text (sub32 len 16) a s
          (omega arith) (omega arith) printed short)

  drop_numbers :
      length from ≡ 8
      → length to ≡ 8
      → length amount ≡ 8
      → length symbol ≡ 8
      → drop 32 data_of ≡ length memo ∷ (memo ++ rest)
  drop_numbers f t a s =
      drop_more 32 16 16 data_of refl
      ∙ ap (drop 16) (drop_two 8 8 from to _ f t)
      ∙ drop_two 8 8 amount symbol _ a s

  pub transfer_count :
      length from ≡ 8
      → length to ≡ 8
      → length amount ≡ 8
      → length symbol ≡ 8
      → length memo ≤ 127
      → process_token_transfer data_of len ≡ ok (if ltb 0 (length memo) then 4 else 3)
  unfolding process_token_transfer
  transfer_count f t a s memo_short = after_ok _ (
      ap (λ b. unpack_variant32 b (sub32 len 32)) (drop_numbers f t a s)
      ∙ unpack_variant32_short (length memo) (sub32 len 32) (memo ++ rest) (omega arith))

  pub transfer_memo :
      length from ≡ 8
      → length to ≡ 8
      → length amount ≡ 8
      → length symbol ≡ 8
      → length memo ≤ 127
      → parse_token_transfer data_of len 3 arg ≡ ok (field (codes "Memo") memo)
  unfolding parse_token_transfer
  transfer_memo f t a s memo_short = after_ok _ (
      ap (λ b. parse_string_field b (sub32 len 32) (codes "Memo")) (drop_numbers f t a s)
      ∙ parse_string_field-field memo rest (codes "Memo") (sub32 len 32) memo_short (omega arith)
          (omega arith))
