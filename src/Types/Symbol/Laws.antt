-- ===== src/Types/Symbol/Laws.antt =====
-- What a valid symbol's text is.
use ledger_app.Base.{
  ℕ, zero, suc, ◌+◌, ◌*◌, ◌/◌, ◌%◌, ◌^◌, ◌≤◌, ◌<◌, ◌≡◌, ◌∙◌, refl, ap, sym, true, false, List, [],
  ◌∷◌, arith, length, ok, ◌==◌, leb→le, Bool-cases, inl, inr, then_of, else_of, and_left, and_right,
  if_false, eq_of_==, ne_zero, le_value, All, IsU64, after_ok, ledger_assert, le→leb,
}
use native.Mathlib.Nat.{pow-suc}
use ledger_app.Types.Asset.{symbol_chars, symbol_to_string, symbol_precision}
use ledger_app.Types.Symbol.{
  is_upper, blank_loop, valid_loop, is_valid_symbol, length_loop, symbol_length,
}

abbrev pub IsUpper : ℕ → Type 0
IsUpper c = (65 ≤ c) × (c ≤ 90)

blank_loop_zero : (n s : ℕ) → blank_loop (suc n) s ≡ true → s < 256 ^ suc n → s / 2 ^ 8 ≡ 0
unfolding blank_loop
blank_loop_zero zero s e h = omega arith
blank_loop_zero (suc n) s e h =
    let low = Bool-cases (s / 2 ^ 8 % 2 ^ 8 == 0) in
    elim low [
      | inl blank ↦
          let rest =
            blank_loop_zero n (s / 2 ^ 8) (then_of _ _ _ blank e)
              (omega (arith, pow-suc 256 (suc n))) in
          omega (arith, rest, eq_of_== _ _ blank)
      | inr text ↦ cc (else_of _ _ _ text e)
    ]

symbol_chars_zero : (n : ℕ) → symbol_chars n 0 ≡ []
unfolding symbol_chars
symbol_chars_zero zero = refl
symbol_chars_zero (suc n) = refl

length_loop_zero : (n : ℕ) → length_loop n 0 ≡ 0
unfolding length_loop
length_loop_zero zero = refl
length_loop_zero (suc n) = refl

-- What the three loops say of a number whose low byte is `c` and whose other bytes are `rest`.
symbol_chars_step :
    (n s : ℕ)
    → (s % 2 ^ 8 == 0) ≡ false
    → symbol_chars (suc n) s ≡ (s % 2 ^ 8) ∷ symbol_chars n (s / 2 ^ 8)
unfolding symbol_chars
symbol_chars_step n s h = if_false _ _ _ h

length_loop_step :
    (n s : ℕ) → (s % 2 ^ 8 == 0) ≡ false → length_loop (suc n) s ≡ suc (length_loop n (s / 2 ^ 8))
unfolding length_loop
length_loop_step n s h = if_false _ _ _ h

-- A text that is read off a number by the three loops.
record IsSymbolText (n s : ℕ) (text : List ℕ) : Type 0 where
  chars : symbol_chars n s ≡ text
  value : le_value text ≡ s
  upper : All IsUpper text
  count : length_loop (suc n) s ≡ length text
  some_char : 1 ≤ length text
  at_most : length text ≤ n

IsSymbolText-cons :
    (n s : ℕ) (rest : List ℕ)
    → IsUpper (s % 2 ^ 8)
    → symbol_chars n (s / 2 ^ 8) ≡ rest
    → le_value rest ≡ s / 2 ^ 8
    → All IsUpper rest
    → length_loop (suc n) (s / 2 ^ 8) ≡ length rest
    → length rest ≤ n
    → IsSymbolText (suc n) s ((s % 2 ^ 8) ∷ rest)
IsSymbolText-cons n s rest up chars value upper count short =
    let low = ne_zero (s % 2 ^ 8) (omega arith) in
    record {
      chars = symbol_chars_step n s low ∙ ap (◌∷◌ (s % 2 ^ 8)) chars;
      value = omega arith;
      upper = (up, upper);
      count = length_loop_step (suc n) s low ∙ ap suc count;
      some_char = omega arith;
      at_most = omega arith;
    }

is_upper_lem : (c : ℕ) → is_upper c ≡ true → IsUpper c
is_upper_lem c h = (leb→le 65 c (and_left _ _ h), leb→le c 90 (and_right _ _ h))

valid_loop_step :
    (n s : ℕ)
    → valid_loop (suc n) s ≡ true
    → s < 256 ^ suc n
    → ((s / 2 ^ 8 % 2 ^ 8 == 0) ≡ false
        → valid_loop n (s / 2 ^ 8) ≡ true
        → (rest : List ℕ) × IsSymbolText n (s / 2 ^ 8) rest)
    → (text : List ℕ) × IsSymbolText (suc n) s text
unfolding valid_loop
valid_loop_step n s e h longer = elim (Bool-cases (is_upper (s % 2 ^ 8))) [
  | inr other ↦ cc (else_of _ _ _ other e)
  | inl letter ↦
      let up = is_upper_lem (s % 2 ^ 8) letter in
      let e' = then_of _ _ _ letter e in
      elim (Bool-cases (s / 2 ^ 8 % 2 ^ 8 == 0)) [
        | inl last ↦
            let blank =
              blank_loop_zero n (s / 2 ^ 8) (then_of _ _ _ last e')
                (omega (arith, pow-suc 256 n)) in
            let nothing : s / 2 ^ 8 ≡ 0 = omega (arith, blank, eq_of_== _ _ last) in
            (
              (s % 2 ^ 8) ∷ [],
              IsSymbolText-cons n s [] up (ap (symbol_chars n) nothing ∙ symbol_chars_zero n)
                  (sym nothing) tt (ap (length_loop (suc n)) nothing ∙ length_loop_zero (suc n))
                  (omega arith),
            )
        | inr more ↦
            let (rest, r) = longer more (else_of _ _ _ more e') in
            (
              (s % 2 ^ 8) ∷ rest,
              IsSymbolText-cons n s rest up r.chars r.value r.upper r.count r.at_most,
            )
      ]
]

valid_loop-IsSymbolText :
    (n s : ℕ)
    → valid_loop (suc n) s ≡ true
    → s < 256 ^ suc n
    → (text : List ℕ) × IsSymbolText (suc n) s text
valid_loop-IsSymbolText zero s e h =
    valid_loop_step zero s e h (λ more e'. absurd (nothing_left more))
  where
    nothing_left : (s / 2 ^ 8 % 2 ^ 8 == 0) ≡ false → ⊥
    nothing_left more = ground arith
valid_loop-IsSymbolText (suc n) s e h =
    valid_loop_step (suc n) s e h
      λ more e'. valid_loop-IsSymbolText n (s / 2 ^ 8) e' (omega (arith, pow-suc 256 (suc n)))

-- A valid symbol's text has from one to seven capital letters, as many as `symbol_length` says, and
-- the text and the precision give the symbol back.
pub is_valid_symbol-symbol_to_string :
    (symbol size : ℕ)
    → IsU64 symbol
    → is_valid_symbol symbol ≡ true
    → 8 ≤ size
    → (text : List ℕ) × (symbol_to_string symbol size ≡ ok text)
      × (symbol_precision symbol + 256 * le_value text ≡ symbol)
      × All IsUpper text
      × (symbol_length symbol ≡ length text)
      × (1 ≤ length text)
      × (length text ≤ 7)
unfolding is_valid_symbol symbol_length symbol_precision symbol_to_string
is_valid_symbol-symbol_to_string symbol size h valid room =
    let (text, t) = valid_loop-IsSymbolText 6 (symbol / 2 ^ 8) valid (omega arith) in
    (
      text,
      after_ok _ (ap ledger_assert (le→leb 8 size room)) ∙ ap ok t.chars,
      omega (arith, t.value),
      t.upper,
      t.count,
      t.some_char,
      t.at_most,
    )
