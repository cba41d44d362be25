-- ===== src/Types/Asset.antt =====
-- Symbols and assets of src/eos_types.c, and their text.
pub mod Laws
use ledger_app.Base.{
  ℕ, zero, suc, ◌+◌, ◌-◌, ◌/◌, ◌%◌, ◌^◌, ◌∷◌, List, [], ◌++◌, ltb, leb, ◌==◌, if◌then◌else◌, length,
  Outcome, ok, overrun, ◌>>=◌, ◌>>◌, ledger_assert, Bool, ◌&&◌, not,
}
use ledger_app.Utils.Digits.{i64toa}

unfoldable pub symbol_precision : ℕ → ℕ
symbol_precision sym = sym % 2 ^ 8

-- The loop of `symbol_to_string`, with `n` rounds left.
unfoldable pub symbol_chars : ℕ → ℕ → List ℕ
symbol_chars zero sym = []
symbol_chars (suc n) sym =
    let rest = symbol_chars n (sym / 2 ^ 8) in if sym % 2 ^ 8 == 0 then [] else sym % 2 ^ 8 ∷ rest

-- The characters that `symbol_to_string` puts at `out`.
unfoldable pub symbol_to_string : ℕ → ℕ → Outcome (List ℕ)
symbol_to_string sym size = do ledger_assert (leb 8 size); ok (symbol_chars 7 (sym / 2 ^ 8))

-- `asset_t`: the amount is the bit pattern of an int64_t.
pub record Asset : Type 0 where
  pub amount : ℕ
  pub symbol : ℕ

abbrev pub is_negative : ℕ → Bool
is_negative amount = leb (2 ^ 63) amount

abbrev pub magnitude : ℕ → ℕ
magnitude amount = if is_negative amount then (2 ^ 64) - amount else amount

-- The bit pattern of `sign * n`.
abbrev pub signed : Bool → ℕ → ℕ
signed negative n = if negative && not (n == 0) then (2 ^ 64) - n else n

-- `n` digits of the fraction, the last first; `%` keeps the sign of the amount, so the digits of a
-- negative one count down from '0'.
unfoldable pub fraction_digits : ℕ → Bool → ℕ → List ℕ → List ℕ
fraction_digits zero negative change text = text
fraction_digits (suc n) negative change text =
    let digit = if negative then 48 - change % 10 else 48 + change % 10 in
    fraction_digits n negative (change / 10) (digit ∷ text)

-- `p10` is an int64_t: a power that is no int64_t is undefined, and so is a text of more than the
-- 63 characters that `tmp` holds before its last terminator.
unfoldable pub asset_to_string : Asset → Outcome (List ℕ)
asset_to_string asset =
    let precision = symbol_precision asset.symbol in
    let p10 = 10 ^ precision in
    let negative = is_negative asset.amount in
    if ltb 18 precision
    then overrun
    else (symbol_to_string asset.symbol 8 >>= λ symbol.
        i64toa (signed negative (magnitude asset.amount / p10)) >>= λ whole.
        let fraction = fraction_digits precision negative (magnitude asset.amount % p10) [] in
        let text = whole ++ (b'.' ∷ (fraction ++ (b' ' ∷ symbol))) in
        if ltb (length text) 64 then ok text else overrun)
