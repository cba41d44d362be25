-- ===== src/Types/Symbol.antt =====
-- `is_valid_symbol` and `symbol_length` of src/eos_types.c.
pub mod Laws
use ledger_app.Base.{ℕ, zero, suc, ◌/◌, ◌%◌, ◌^◌, Bool, true, false, ◌&&◌, leb, ◌==◌, if◌then◌else◌}

abbrev pub is_upper : ℕ → Bool
is_upper c = leb b'A' c && leb c b'Z'

-- The inner `do` loop, with `n` rounds left: nothing stands behind the end of the text.
unfoldable pub blank_loop : ℕ → ℕ → Bool
blank_loop zero sym = true
blank_loop (suc n) sym =
    let rest = blank_loop n (sym / 2 ^ 8) in if sym / 2 ^ 8 % 2 ^ 8 == 0 then rest else false

-- The `for` loop, with `n` rounds left; the inner loop runs up to the end of its count.
unfoldable pub valid_loop : ℕ → ℕ → Bool
valid_loop zero sym = true
valid_loop (suc n) sym =
    let rest = valid_loop n (sym / 2 ^ 8) in
    if is_upper (sym % 2 ^ 8)
    then (if sym / 2 ^ 8 % 2 ^ 8 == 0 then blank_loop (suc n) (sym / 2 ^ 8) else rest)
    else false

unfoldable pub is_valid_symbol : ℕ → Bool
is_valid_symbol sym = valid_loop 7 (sym / 2 ^ 8)

-- The `while` loop, with `n` rounds left of the eight that `length <= 7` admits.
pub length_loop : ℕ → ℕ → ℕ
length_loop zero tmp = 0
length_loop (suc n) tmp =
    let rest = suc (length_loop n (tmp / 2 ^ 8)) in if tmp % 2 ^ 8 == 0 then 0 else rest

pub symbol_length : ℕ → ℕ
symbol_length sym = length_loop 8 (sym / 2 ^ 8)
