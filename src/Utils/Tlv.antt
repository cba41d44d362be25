-- ===== src/Utils/Tlv.antt =====
-- `tlvTryDecode` of src/eos_utils.c: the tag and the length in front of each field.
pub mod Laws
use ledger_app.Base.{
  ℕ, zero, suc, ◌+◌, ◌-◌, ◌*◌, ◌%◌, ◌^◌, List, ltb, leb, ◌==◌, if◌then◌else◌, u32, top_bit, Outcome,
  ok, ◌>>=◌, read_at,
}

-- `invalid` is `*valid = false`; `incomplete` and `decoded` return false and true with `*valid`
-- true, and only `decoded` writes `*fieldLenght`.
pub data Header : Type 0 where
  invalid incomplete : Header
  decoded : ℕ → Header

abbrev pub number_octet_string : ℕ
number_octet_string = 4

-- `nr` of `decodeTag`; its class and type are not used.
abbrev pub tag_number : ℕ → ℕ
tag_number byte = byte % 2 ^ 5

-- The `for` loop over the length bytes: `n` more, from index `i` of the buffer on.
unfoldable pub read_length : ℕ → List ℕ → ℕ → ℕ → Outcome ℕ
read_length zero buffer i acc = ok acc
read_length (suc n) buffer i acc = do
  b ← read_at buffer i
  read_length n buffer (i + 1) (u32 (acc * 2 ^ 8) + b)

-- From the first length byte on; `left` is `bufferLength` after its first decrement.
unfoldable pub decode_length : List ℕ → ℕ → ℕ → Outcome Header
decode_length buffer left byte =
    if top_bit byte
    then (let count = byte % 2 ^ 7 in
        if ltb 4 count
        then ok invalid
        else if leb left count
        then ok incomplete
        else (read_length count buffer 2 0 >>= λ n. ok (decoded n)))
    else ok (decoded byte)

unfoldable pub tlv_try_decode : List ℕ → ℕ → Outcome Header
tlv_try_decode buffer len = read_at buffer 0 >>= λ tag.
    if tag_number tag == number_octet_string
    then if ltb len 2
      then ok incomplete
      else (read_at buffer 1 >>= λ byte. decode_length buffer (len - 1) byte)
    else ok invalid
