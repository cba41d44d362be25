-- ===== src/Tests/Arguments.antt =====
-- The arguments of a transfer of 1.0000 EOS with a memo.
use ledger_app.Base.{
  ℕ, ◌≡◌, refl, arith, List, [], ◌∷◌, replicate, codes, le_value, ok, All, ◌+◌, ◌*◌, ◌^◌, length,
}
use ledger_app.Types.Asset.{
  asset_to_string, symbol_precision, symbol_chars, symbol_to_string, fraction_digits,
}
use ledger_app.Utils.Digits.{i64toa, ui64toa, write_digits}
use ledger_app.Types.Asset.Laws.{asset_text, asset_to_string-decimal}
use ledger_app.Utils.Digits.Laws.{IsDigit, decimal, signed_decimal}
use ledger_app.Types.Key.{Platform}
use ledger_app.Stream.Context.{Context}
use ledger_app.Parse.Token.Laws.{transfer_data}
use ledger_app.Parse.Print.Laws.{ShowsTransfer, print_argument-ShowsTransfer}
use ledger_app.Tests.Toy.{fresh}

abbrev platform : Platform
platform = record { ripemd160 = λ bytes. replicate 20 0; format_int = λ n. [] }

-- The names eosio, eosio.token and transfer.
abbrev sender : List ℕ
sender = 0 ∷ 0 ∷ 0 ∷ 0 ∷ 0 ∷ 0xEA ∷ 0x30 ∷ 0x55 ∷ []

abbrev token : List ℕ
token = 0 ∷ 0xA6 ∷ 0x82 ∷ 0x34 ∷ 3 ∷ 0xEA ∷ 0x30 ∷ 0x55 ∷ []

abbrev transfer_name : List ℕ
transfer_name = 0 ∷ 0 ∷ 0 ∷ 0x57 ∷ 0x2D ∷ 0x3C ∷ 0xCD ∷ 0xCD ∷ []

abbrev amount : List ℕ
amount = 0x10 ∷ 0x27 ∷ 0 ∷ 0 ∷ 0 ∷ 0 ∷ 0 ∷ 0 ∷ []

abbrev symbol : List ℕ
symbol = 4 ∷ 0x45 ∷ 0x4F ∷ 0x53 ∷ 0 ∷ 0 ∷ 0 ∷ 0 ∷ []

abbrev paying : Context (List ℕ)
paying = record fresh {
  contract_name = token;
  contract_action_name = transfer_name;
  action_data_buffer = transfer_data sender token amount symbol (codes "rent") (replicate 475 0);
  current_action_data_buffer_length = 37;
}

quantity_run :
    asset_to_string (record { amount = le_value amount; symbol = le_value symbol })
    ≡ ok (codes "1.0000 EOS")
unfolding asset_to_string symbol_precision symbol_chars symbol_to_string fraction_digits i64toa
    ui64toa write_digits
quantity_run = refl

print_argument-ShowsTransfer_example :
    ShowsTransfer platform paying sender token (codes "1.0000 EOS") (codes "rent")
print_argument-ShowsTransfer_example =
    print_argument-ShowsTransfer platform paying sender token amount symbol (codes "rent")
      (replicate 475 0) (codes "1.0000 EOS") refl refl refl (ground arith) (ground arith) refl refl
      refl refl (omega arith) quantity_run

asset_to_string-decimal_example :
    (whole fraction : List ℕ) × (asset_to_string
        (record { amount = 10000; symbol = le_value symbol })
      ≡ ok (asset_text whole fraction (le_value symbol)))
    × (10 ^ 4 * signed_decimal whole + decimal fraction 0 ≡ 10000)
    × (length fraction ≡ 4)
    × All IsDigit fraction
unfolding symbol_precision
asset_to_string-decimal_example =
    asset_to_string-decimal (record { amount = 10000; symbol = le_value symbol }) (omega arith)
      (omega arith)
