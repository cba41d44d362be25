-- ===== src/Tests/Numbers.antt =====
-- Numbers, names and TLV headers.
use ledger_app.Base.{ℕ, ◌≤◌, ◌<◌, ◌^◌, ◌≡◌, refl, List, [], ◌∷◌, ◌++◌, arith, length, ok, codes}
use ledger_app.Base.{All, ◌-◌}
use ledger_app.Utils.Digits.{ui64toa, i64toa}
use ledger_app.Utils.Digits.Laws.{
  IsDigit, decimal, signed_decimal, ui64toa-decimal, i64toa-signed_decimal,
}
use ledger_app.Types.Varint.{unpack_variant32}
use ledger_app.Types.Varint.Laws.{groups, unpack_variant32_total, unpack_variant32-groups}
use ledger_app.Types.Name.{name_to_string, name_digits, drop_dots}
use ledger_app.Types.Name.Laws.{text_to_name, text_to_name-name_to_string}
use ledger_app.Utils.Tlv.{tlv_try_decode, decode_length, read_length, incomplete, decoded}
use ledger_app.Utils.Tlv.Laws.{
  der_header, tlv_try_decode-der_header, tlv_try_decode_prefix, tlv_try_decode_bound,
}

total_on_five :
    (value : ℕ) × (read : ℕ) × (unpack_variant32 (0xac ∷ 2 ∷ 0 ∷ 0 ∷ 0 ∷ []) 5 ≡ ok (value, read))
    × (value < 2 ^ 32)
    × (1 ≤ read)
    × (read ≤ 5)
total_on_five = unpack_variant32_total (0xac ∷ 2 ∷ 0 ∷ 0 ∷ 0 ∷ []) 5 (omega arith)

unpack_variant32-groups_example :
    unpack_variant32 (groups 4 300 ++ (7 ∷ [])) 3 ≡ ok (300, length (groups 4 300))
unfolding groups
unpack_variant32-groups_example = unpack_variant32-groups 300 3 (7 ∷ []) (omega arith) (omega arith)

name_eosio_token : name_to_string 0x5530EA033482A600 14 ≡ ok (codes "eosio.token")
unfolding name_to_string name_digits drop_dots
name_eosio_token = refl

text_to_name-name_to_string_example :
    (s : List ℕ) × (name_to_string 0x5530EA033482A600 14 ≡ ok s)
    × (text_to_name s ≡ 0x5530EA033482A600)
    × (length s ≤ 13)
text_to_name-name_to_string_example =
    text_to_name-name_to_string 0x5530EA033482A600 14 (omega arith) (omega arith)

tlv_try_decode-der_header_example :
    tlv_try_decode (der_header 300 ++ []) (length (der_header 300)) ≡ ok (decoded 300)
tlv_try_decode-der_header_example = tlv_try_decode-der_header 300 [] (omega arith)

prefix_of_header : tlv_try_decode (der_header 300 ++ []) 3 ≡ ok incomplete
unfolding der_header
prefix_of_header = tlv_try_decode_prefix 300 3 [] (omega arith) (omega arith) (omega arith)

tlv_try_decode_bound_example : 300 < 2 ^ 24
unfolding tlv_try_decode decode_length read_length
tlv_try_decode_bound_example =
    tlv_try_decode_bound (4 ∷ 0x82 ∷ 1 ∷ 44 ∷ 0 ∷ []) 4 {n = 300} (omega arith) (omega arith) refl

ui64toa_digits :
    (t : List ℕ) × (ui64toa 1024 ≡ ok t)
    × (decimal t 0 ≡ 1024)
    × All IsDigit t
    × (1 ≤ length t)
    × (length t ≤ 20)
ui64toa_digits = ui64toa-decimal 1024 (omega arith)

-- The pattern of -5.
i64toa-signed_decimal_example :
    (t : List ℕ) × (i64toa (2 ^ 64 - 5) ≡ ok t) × (signed_decimal t ≡ 2 ^ 64 - 5) × (length t ≤ 21)
i64toa-signed_decimal_example =
    i64toa-signed_decimal (2 ^ 64 - 5) (omega arith) (λ e. absurd (omega arith))
