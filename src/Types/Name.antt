-- ===== src/Types/Name.antt =====
-- `name_t` of src/eos_types.c: an account or action name as a 64-bit number, and its text.
pub mod Laws
use ledger_app.Base.{
  ℕ, zero, suc, ◌+◌, ◌-◌, ◌/◌, ◌%◌, ◌^◌, List, [], ◌∷◌, leb, ◌==◌, if◌then◌else◌, get_or, Outcome,
  ok, ledger_assert, ◌>>=◌, ◌>>◌, read_bytes, le_value,
}
use mathlib.Core.List.{reverse}

-- `charmap`: the characters `.12345a..z`.
abbrev pub charmap : List ℕ
charmap =
    46 ∷ 49 ∷ 50 ∷ 51 ∷ 52 ∷ 53 ∷ 97 ∷ 98 ∷ 99 ∷ 100 ∷ 101 ∷ 102 ∷ 103 ∷ 104 ∷ 105 ∷ 106 ∷ 107 ∷ 108
    ∷ 109 ∷ 110 ∷ 111 ∷ 112 ∷ 113 ∷ 114 ∷ 115 ∷ 116 ∷ 117 ∷ 118 ∷ 119 ∷ 120 ∷ 121 ∷ 122 ∷ []

unfoldable pub buffer_to_name_type : List ℕ → ℕ → Outcome ℕ
buffer_to_name_type bytes size = do
  ledger_assert (leb 8 size)
  value ← read_bytes 8 bytes
  ok (le_value value)

-- The `n` last rounds of the `for` loop, which writes `str` from its end: `str[12 - i]` stands in
-- front of what the rounds before wrote. Only round 0 takes four bits.
unfoldable pub name_digits : ℕ → ℕ → List ℕ → List ℕ
name_digits zero tmp str = str
name_digits (suc n) tmp str = name_digits n (tmp / 2 ^ 5) (get_or charmap (tmp % 2 ^ 5) 0 ∷ str)

-- The `while` loop that drops the dots at the end, on the text from its last character back.
unfoldable pub drop_dots : List ℕ → List ℕ
drop_dots [] = []
drop_dots (c ∷ rest) = let fewer = drop_dots rest in if c == 46 then fewer else c ∷ rest

-- The characters that `name_to_string` puts at `out`; it returns their number and writes no
-- terminator.
unfoldable pub name_to_string : ℕ → ℕ → Outcome (List ℕ)
name_to_string value size = do
  ledger_assert (leb 13 size)
  let str = name_digits 12 (value / 2 ^ 4) (get_or charmap (value % 2 ^ 4) 0 ∷ [])
  ok (reverse (drop_dots (reverse str)))
