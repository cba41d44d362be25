-- ===== src/Types/Asset/Laws.antt =====
-- The text of an asset.
use ledger_app.Base.{
  ℕ, zero, suc, ◌+◌, ◌*◌, ◌%◌, ◌≤◌, ◌<◌, ◌≡◌, ◌∙◌, ap, ◌/◌, ◌^◌, false, not, ◌&&◌, ◌==◌, All, [],
  ◌∷◌, ◌++◌, if_true, if_false, after_ok, length-append, le→ltb, lt→ltb, List, length, ltb,
  if◌then◌else◌, arith, ok, overrun, >>=-eq-ok, then_of, else_of, Bool-cases, inl, inr,
}
use ledger_app.Utils.Digits.{i64toa}
use ledger_app.Utils.Digits.Laws.{IsDigit, decimal, signed_decimal, i64toa-signed_decimal}
use native.Mathlib.Nat.{pow-suc, div-add-mod, mod-lt, div-le_self}
use ledger_app.Types.Asset.{
  Asset, asset_to_string, symbol_precision, symbol_to_string, is_negative, magnitude, signed,
  fraction_digits, symbol_chars,
}

limited :
    (t text : List ℕ) → (if ltb (length t) 64 then ok t else overrun) ≡ ok text → length text < 64
limited t text e = ground arith

-- A text of an asset fits in the 63 characters of the local array.
pub asset_to_string_short :
    (a : Asset) (text : List ℕ) → asset_to_string a ≡ ok text → length text < 64
unfolding asset_to_string
asset_to_string_short a text e = elim (Bool-cases (ltb 18 (symbol_precision a.symbol))) [
  | inl wide ↦ absurd (cc (then_of _ _ _ wide e))
  | inr narrow ↦
      let (symbol, named, rest) =
        >>=-eq-ok (symbol_to_string a.symbol 8) _ (else_of _ _ _ narrow e) in
      let (whole, printed, end) =
        >>=-eq-ok
          (i64toa
            (signed (is_negative a.amount) (magnitude a.amount / 10 ^ symbol_precision a.symbol)))
          _ rest in
      limited _ text end
]

-- Digits that are written in front of a text, where all of the change is written.
fraction_digits-decimal :
    (n change : ℕ) (text : List ℕ)
    → change < 10 ^ n
    → All IsDigit text
    → (decimal (fraction_digits n false change text) 0 ≡ decimal text change)
      × (length (fraction_digits n false change text) ≡ n + length text)
      × All IsDigit (fraction_digits n false change text)
unfolding fraction_digits
fraction_digits-decimal zero change text h digits =
    let none_left : 0 ≡ change = omega arith in (ap (decimal text) none_left, omega arith, digits)
fraction_digits-decimal (suc n) change text h digits =
    let (value, size, all_digits) =
      fraction_digits-decimal n (change / 10) ((48 + change % 10) ∷ text)
        (omega (arith, pow-suc 10 n)) ((omega arith, omega arith), digits) in
    (value ∙ ap (decimal text) (omega arith), omega arith, all_digits)

length-symbol_chars : (n sym : ℕ) → length (symbol_chars n sym) ≤ n
unfolding symbol_chars
length-symbol_chars zero sym = omega arith
length-symbol_chars (suc n) sym = ground (arith, length-symbol_chars n (sym / 2 ^ 8))

-- An asset's text: the whole part, the fraction and the symbol.
abbrev pub asset_text : List ℕ → List ℕ → ℕ → List ℕ
asset_text whole fraction sym =
    whole ++ (b'.' ∷ (fraction ++ (b' ' ∷ symbol_chars 7 (sym / 2 ^ 8))))

pow_ten : (n : ℕ) → 1 ≤ 10 ^ n
pow_ten zero = omega arith
pow_ten (suc n) = omega (arith, pow-suc 10 n, pow_ten n)

length-asset_text :
    (whole fraction : List ℕ) (sym : ℕ)
    → length whole ≤ 21
    → length fraction ≤ 18
    → length (asset_text whole fraction sym) < 64
length-asset_text whole fraction sym w f = omega (
  arith,
  length-append whole (b'.' ∷ (fraction ++ (b' ' ∷ symbol_chars 7 (sym / 2 ^ 8)))),
  length-append fraction (b' ' ∷ symbol_chars 7 (sym / 2 ^ 8)),
  length-symbol_chars 7 (sym / 2 ^ 8),
)

-- The text of an asset with an amount that is not negative and at most 18 digits of precision: it
-- is always printed, as a whole part, a point, a fraction of exactly the digits of the precision, a
-- space and the symbol's characters, and the two parts together stand for the amount.
pub asset_to_string-decimal :
    (a : Asset)
    → a.amount < 2 ^ 63
    → symbol_precision a.symbol ≤ 18
    → (whole fraction : List ℕ) × (asset_to_string a ≡ ok (asset_text whole fraction a.symbol))
      × (10 ^ symbol_precision a.symbol * signed_decimal whole + decimal fraction 0 ≡ a.amount)
      × (length fraction ≡ symbol_precision a.symbol)
      × All IsDigit fraction
unfolding asset_to_string symbol_to_string
asset_to_string-decimal a positive precise =
    let p = symbol_precision a.symbol in
    let p10 = 10 ^ p in
    let plus : is_negative a.amount ≡ false = ground arith in
    let size : magnitude a.amount ≡ a.amount = if_false _ _ _ plus in
    let part = div-le_self a.amount p10 in
    let (whole, printed, value, short) =
      i64toa-signed_decimal (a.amount / p10) (omega arith) (omega arith) in
    let (value', count, digits) =
      fraction_digits-decimal p (a.amount % p10) [] (mod-lt a.amount (pow_ten p)) tt in
    let fraction = fraction_digits p false (a.amount % p10) [] in
    let number : signed (is_negative a.amount) (magnitude a.amount / p10) ≡ a.amount / p10 =
      if_false _ _ _ (ap (λ b. b && not (magnitude a.amount / p10 == 0)) plus)
      ∙ ap (λ m. m / p10) size in
    let change : fraction_digits p (is_negative a.amount) (magnitude a.amount % p10) [] ≡ fraction =
      ap (λ b. fraction_digits p b (magnitude a.amount % p10) []) plus
      ∙ ap (λ m. fraction_digits p false (m % p10) []) size in
    (
      whole,
      fraction,
      if_false _ _ _ (le→ltb 18 p precise)
          ∙ after_ok _ (ap i64toa number ∙ printed)
          ∙ ap
              (λ f.
                if ltb (length (asset_text whole f a.symbol)) 64
                then ok (asset_text whole f a.symbol)
                else overrun)
              change
          ∙ if_true _ _ _
              (lt→ltb _ _ (length-asset_text whole fraction a.symbol short (omega arith))),
      ap (λ w. p10 * w + decimal fraction 0) value
          ∙ ap (λ f. p10 * (a.amount / p10) + f) value'
          ∙ div-add-mod a.amount p10,
      omega arith,
      digits,
    )
