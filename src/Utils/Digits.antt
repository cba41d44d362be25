-- ===== src/Utils/Digits.antt =====
-- `ui64toa`, `i64toa` and `array_hexstr` of src/eos_utils.c: text of numbers and bytes.
pub mod Laws
use ledger_app.Base.{
  ℕ, zero, suc, ◌+◌, ◌-◌, ◌/◌, ◌%◌, ◌^◌, List, [], ◌∷◌, ltb, ◌==◌, if◌then◌else◌, get_or, Outcome,
  ok, stuck, overrun, ◌>>=◌,
}

-- The second loop, which writes the digits from the end; the first loop has counted as many. One
-- round for each digit, and a 64-bit number has at most 20.
unfoldable pub write_digits : ℕ → ℕ → List ℕ → Outcome (List ℕ)
write_digits zero i text = stuck
write_digits (suc fuel) i text =
    let rest = write_digits fuel (i / 10) ((48 + i % 10) ∷ text) in
    if i / 10 == 0 then ok ((48 + i % 10) ∷ text) else rest

-- The characters before the terminator.
unfoldable pub ui64toa : ℕ → Outcome (List ℕ)
ui64toa i = write_digits 20 i []

-- The argument is the bit pattern of an int64_t. The negation of the least one is not an int64_t.
unfoldable pub i64toa : ℕ → Outcome (List ℕ)
i64toa i =
    if ltb i (2 ^ 63)
    then write_digits 20 i []
    else if i == 2 ^ 63
    then overrun
    else (write_digits 20 ((2 ^ 64) - i) [] >>= λ text. ok (45 ∷ text))

abbrev pub hex_digits : List ℕ
hex_digits = 48 ∷ 49 ∷ 50 ∷ 51 ∷ 52 ∷ 53 ∷ 54 ∷ 55 ∷ 56 ∷ 57 ∷ 97 ∷ 98 ∷ 99 ∷ 100 ∷ 101 ∷ 102 ∷ []

-- The characters before the terminator, two for each byte.
pub array_hexstr : List ℕ → List ℕ
array_hexstr [] = []
array_hexstr (b ∷ bytes) =
    get_or hex_digits (b / 2 ^ 4 % 2 ^ 4) 0 ∷ (get_or hex_digits (b % 2 ^ 4) 0 ∷ array_hexstr bytes)
