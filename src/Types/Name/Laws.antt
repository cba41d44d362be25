-- ===== src/Types/Name/Laws.antt =====
-- The text of a name determines the name.
use ledger_app.Base.{
  ℕ, zero, suc, ◌+◌, ◌*◌, ◌/◌, ◌%◌, ◌^◌, ◌≤◌, ◌<◌, ◌-◌, ◌≡◌, refl, ap, ◌∙◌, List, [], ◌∷◌, ◌++◌, ok,
  arith, ltb, ◌==◌, if◌then◌else◌, Bool, true, ◌&&◌, Bool-cases, inl, inr, le→leb, eq_of_==,
  and_left, and_right, get_or, IsU64, length, length-append, sym,
}
use ledger_app.Types.Name.{name_to_string, name_digits, drop_dots, charmap}
use mathlib.Core.List.{reverse, reverse-cons, reverse-reverse}
use native.Mathlib.Nat.{pow-suc}
use mathlib.Core.Path.{ap₂}
use native.Mathlib.Decide.{dec_lt}

-- The value of a character in the chain's naming rule.
char_value : ℕ → ℕ
char_value c = if ltb c 49 then 0 else if ltb c 97 then c - 48 else c - 91

-- The naming rule, an independent reading of a text: twelve characters of five bits, then one of
-- four; characters that are missing count as dots.
pub name_value : ℕ → List ℕ → ℕ → ℕ
unfolding char_value
name_value zero [] acc = acc * 16
name_value zero (c ∷ s) acc = acc * 16 + char_value c
name_value (suc n) [] acc = name_value n [] (acc * 32)
name_value (suc n) (c ∷ s) acc = name_value n s (acc * 32 + char_value c)

pub text_to_name : List ℕ → ℕ
unfolding name_value
text_to_name s = name_value 12 s 0

charmap_table : ℕ → Bool
unfolding char_value
charmap_table zero = true
charmap_table (suc d) = (char_value (get_or charmap d 0) == d) && charmap_table d

charmap_table_sound :
    (n d : ℕ) → charmap_table n ≡ true → d < n → char_value (get_or charmap d 0) ≡ d
unfolding charmap_table
charmap_table_sound zero d e h = absurd (omega arith)
charmap_table_sound (suc n) d e h = elim (dec_lt d n) [
  | yes below ↦ charmap_table_sound n d (and_right _ _ e) below
  | no top ↦
      let here : d ≡ n = omega arith in
      rw here (eq_of_== (char_value (get_or charmap n 0)) n (and_left _ _ e))
]

char_value-charmap : (d : ℕ) → d < 32 → char_value (get_or charmap d 0) ≡ d
unfolding charmap_table
char_value-charmap d h = charmap_table_sound 32 d refl h

-- What follows the `n` characters that the loop writes is read after them.
name_value-name_digits :
    (n m tmp acc : ℕ) (str : List ℕ)
    → tmp < 32 ^ n
    → name_value (n + m) (name_digits n tmp str) acc ≡ name_value m str (acc * 32 ^ n + tmp)
unfolding name_digits name_value
name_value-name_digits zero m tmp acc str h =
    let none_left : tmp ≡ 0 = omega arith in
    ap₂ (λ k a. name_value k str a) (omega arith) (omega arith)
name_value-name_digits (suc n) m tmp acc str h =
    let below : tmp / 32 < 32 ^ n = omega (arith, pow-suc 32 n) in
    let c = get_or charmap (tmp % 2 ^ 5) 0 in
    ap (λ (k : ℕ). name_value k (name_digits n (tmp / 32) (c ∷ str)) acc) (omega arith)
    ∙ name_value-name_digits n (suc m) (tmp / 32) acc (c ∷ str) below
    ∙ ap (λ (a : ℕ). name_value m str a)
        (omega (
          arith,
          char_value-charmap (tmp % 32) (omega arith),
          ap (λ (t : ℕ). acc * t) (pow-suc 32 n),
        ))

name_value-snoc_dot :
    (n acc : ℕ) (s : List ℕ) → name_value n (s ++ (46 ∷ [])) acc ≡ name_value n s acc
unfolding name_value
name_value-snoc_dot zero acc [] = omega arith
name_value-snoc_dot zero acc (c ∷ s) = refl
name_value-snoc_dot (suc n) acc [] = ap (λ (a : ℕ). name_value n [] a) (omega arith)
name_value-snoc_dot (suc n) acc (c ∷ s) = name_value-snoc_dot n (acc * 32 + char_value c) s

name_value-drop_dots :
    (n acc : ℕ) (s : List ℕ)
    → name_value n (reverse (drop_dots s)) acc ≡ name_value n (reverse s) acc
unfolding drop_dots
name_value-drop_dots n acc [] = refl
name_value-drop_dots n acc (c ∷ s) = elim (Bool-cases (c == 46)) [
  | inl dot ↦
      rw (dot, eq_of_== c 46 dot, reverse-cons)
        (name_value-drop_dots n acc s ∙ sym (name_value-snoc_dot n acc (reverse s)))
  | inr other ↦ rw other
]

length-name_digits : (n tmp : ℕ) (str : List ℕ) → length (name_digits n tmp str) ≡ n + length str
unfolding name_digits
length-name_digits zero tmp str = omega arith
length-name_digits (suc n) tmp str =
    omega (arith, length-name_digits n (tmp / 32) (get_or charmap (tmp % 2 ^ 5) 0 ∷ str))

length-reverse : (s : List ℕ) → length (reverse s) ≡ length s
length-reverse [] = refl
length-reverse (c ∷ s) =
    rw reverse-cons (omega (arith, length-append (reverse s) (c ∷ []), length-reverse s))

length-drop_dots : (s : List ℕ) → length (drop_dots s) ≤ length s
unfolding drop_dots
length-drop_dots [] = omega arith
length-drop_dots (c ∷ s) = ground (arith, length-drop_dots s)

-- For a buffer of 13 characters or more `name_to_string` writes at most 13 characters, and by the
-- naming rule they stand for the very name that was given.
pub text_to_name-name_to_string :
    (v size : ℕ)
    → IsU64 v
    → 13 ≤ size
    → (s : List ℕ) × (name_to_string v size ≡ ok s) × (text_to_name s ≡ v) × (length s ≤ 13)
unfolding name_to_string text_to_name name_value
text_to_name-name_to_string v size hv hs =
    let last = get_or charmap (v % 2 ^ 4) 0 ∷ [] in
    let str = name_digits 12 (v / 2 ^ 4) last in
    (
      reverse (drop_dots (reverse str)),
      rw (le→leb 13 size hs),
      name_value-drop_dots 12 0 (reverse str)
          ∙ ap (λ s. name_value 12 s 0) (reverse-reverse str)
          ∙ name_value-name_digits 12 0 (v / 2 ^ 4) 0 last (omega arith)
          ∙ omega (arith, char_value-charmap (v % 16) (omega arith)),
      omega (
        arith,
        length-reverse (drop_dots (reverse str)),
        length-drop_dots (reverse str),
        length-reverse str,
        length-name_digits 12 (v / 2 ^ 4) last,
      ),
    )
