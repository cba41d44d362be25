-- ===== src/Utils/Digits/Laws.antt =====
-- The printed text of a number gives the number back.
use ledger_app.Base.{
  ℕ, zero, suc, ◌+◌, ◌-◌, ◌*◌, ◌/◌, ◌%◌, ◌^◌, ◌≤◌, ◌<◌, ◌≡◌, ◌≢◌, false, ◌∙◌, ap, List, [], ◌∷◌,
  arith, length, ok, ◌==◌, if◌then◌else◌, if_true, if_false, All, ==_of_eq, lt→ltb, le→ltb,
  after_ok, ne_zero,
}
use native.Mathlib.Nat.{pow-suc}
use native.Mathlib.Decide.{dec_lt}
use ledger_app.Utils.Digits.{write_digits, ui64toa, i64toa}

abbrev pub IsDigit : ℕ → Type 0
IsDigit c = (48 ≤ c) × (c ≤ 57)

-- The number that a text of digits stands for, behind the digits of `acc`.
abbrev pub decimal : List ℕ → ℕ → ℕ
decimal [] acc = acc
decimal (c ∷ text) acc = decimal text (acc * 10 + (c - 48))

-- A two's complement of 64 bits: a text with a sign is a negative number.
abbrev pub signed_decimal : List ℕ → ℕ
signed_decimal [] = 0
signed_decimal (c ∷ text) = if c == 45 then (2 ^ 64) - decimal text 0 else decimal (c ∷ text) 0

write_digits-decimal :
    (fuel i : ℕ) (text : List ℕ)
    → i < 10 ^ suc fuel
    → All IsDigit text
    → (t : List ℕ) × (write_digits (suc fuel) i text ≡ ok t)
      × (decimal t 0 ≡ decimal text i)
      × All IsDigit t
      × (1 ≤ length t)
      × (length t ≤ suc fuel + length text)
unfolding write_digits
write_digits-decimal zero i text h all_digits = (
  (48 + i % 10) ∷ text,
  if_true _ _ _ (==_of_eq (i / 10) 0 (omega arith)),
  ap (decimal text) (omega arith),
  ((omega arith, omega arith), all_digits),
  omega arith,
  omega arith,
)
write_digits-decimal (suc fuel) i text h all_digits = elim (dec_lt i 10) [
  | yes last ↦ (
    (48 + i % 10) ∷ text,
    if_true _ _ _ (==_of_eq (i / 10) 0 (omega arith)),
    ap (decimal text) (omega arith),
    ((omega arith, omega arith), all_digits),
    omega arith,
    omega arith,
  )
  | no more ↦
      let (t, written, value, digits, some_digit, short) =
        write_digits-decimal fuel (i / 10) ((48 + i % 10) ∷ text)
          (omega (arith, pow-suc 10 (suc fuel))) ((omega arith, omega arith), all_digits) in
      (
        t,
        if_false _ _ _ (ne_zero (i / 10) (omega arith)) ∙ written,
        value ∙ ap (decimal text) (omega arith),
        digits,
        some_digit,
        omega arith,
      )
]

-- Every 64-bit number is printed, in one to twenty digits that stand for the number.
pub ui64toa-decimal :
    (i : ℕ)
    → i < 2 ^ 64
    → (t : List ℕ) × (ui64toa i ≡ ok t)
      × (decimal t 0 ≡ i)
      × All IsDigit t
      × (1 ≤ length t)
      × (length t ≤ 20)
unfolding ui64toa
ui64toa-decimal i h =
    let (t, written, value, digits, some_digit, short) =
      write_digits-decimal 19 i [] (omega arith) tt in
    (t, written, value, digits, some_digit, omega arith)

-- A text of digits has no sign.
signed_decimal-digits : (t : List ℕ) → All IsDigit t → 1 ≤ length t → signed_decimal t ≡ decimal t 0
signed_decimal-digits [] digits h = elim h [ ]
signed_decimal-digits (c ∷ t) (digit, digits) h = ground arith

-- Every int64_t but the least is printed, as a text that stands for it.
pub i64toa-signed_decimal :
    (i : ℕ)
    → i < 2 ^ 64
    → i ≢ 2 ^ 63
    → (t : List ℕ) × (i64toa i ≡ ok t) × (signed_decimal t ≡ i) × (length t ≤ 21)
unfolding i64toa
i64toa-signed_decimal i h not_least = elim (dec_lt i (2 ^ 63)) [
  | yes positive ↦
      let (t, written, value, digits, some_digit, short) =
        write_digits-decimal 19 i [] (omega arith) tt in
      (
        t,
        if_true _ _ _ (lt→ltb i (2 ^ 63) positive) ∙ written,
        signed_decimal-digits t digits some_digit ∙ value,
        omega arith,
      )
  | no negative ↦
      let (t, written, value, digits, some_digit, short) =
        write_digits-decimal 19 ((2 ^ 64) - i) [] (omega arith) tt in
      let same : (2 ^ 64) - decimal t 0 ≡ i = omega arith in
      (
        45 ∷ t,
        if_false _ _ _ (le→ltb i (2 ^ 63) (omega arith))
            ∙ if_false _ _ _ (ne_test i (2 ^ 63) not_least)
            ∙ after_ok _ written,
        same,
        omega arith,
      )
]
  where
    ne_test : (a b : ℕ) → a ≢ b → (a == b) ≡ false
    ne_test a b q = ground arith
