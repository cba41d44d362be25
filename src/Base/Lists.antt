-- ===== src/Base/Lists.antt =====
-- Lists measured and indexed by native numbers; a C array is such a list.
use Prim.Native.Nat.{ℕ, zero, suc, ◌+◌, ◌-◌, ◌≤◌, min}
use mathlib.Core.Path.{◌≡◌, refl, ap, ◌∙◌}
use mathlib.Core.List.{List, [], ◌∷◌, ◌++◌, append-nil}
use mathlib.Core.Option.{Option, none, some}
use native.Mathlib.Omega.{arith}

module _ {ℓ} {A : Type ℓ} where
  abbrev pub length : List A → ℕ
  length [] = 0
  length (x ∷ xs) = suc (length xs)

  abbrev pub get_elem? : List A → ℕ → Option A
  get_elem? [] i = none
  get_elem? (x ∷ xs) zero = some x
  get_elem? (x ∷ xs) (suc i) = get_elem? xs i

  abbrev pub get_or : List A → ℕ → A → A
  get_or [] i d = d
  get_or (x ∷ xs) zero d = x
  get_or (x ∷ xs) (suc i) d = get_or xs i d

  abbrev pub take : ℕ → List A → List A
  take zero xs = []
  take (suc n) [] = []
  take (suc n) (x ∷ xs) = x ∷ take n xs

  abbrev pub drop : ℕ → List A → List A
  drop zero xs = xs
  drop (suc n) [] = []
  drop (suc n) (x ∷ xs) = drop n xs

  abbrev pub replicate : ℕ → A → List A
  replicate zero a = []
  replicate (suc n) a = a ∷ replicate n a

  -- `memmove` into an array that has the room: `bytes` replace the elements from `i` on.
  abbrev pub splice : ℕ → List A → List A → List A
  splice i bytes xs = take i xs ++ (bytes ++ drop (i + length bytes) xs)

module _ {ℓ} {A : Type ℓ} where
  pub length-append : (xs ys : List A) → length (xs ++ ys) ≡ length xs + length ys
  length-append [] ys = omega arith
  length-append (x ∷ xs) ys = omega (arith, length-append xs ys)

  pub take-append-drop : (n : ℕ) (xs : List A) → take n xs ++ drop n xs ≡ xs
  take-append-drop zero xs = refl
  take-append-drop (suc n) [] = refl
  take-append-drop (suc n) (x ∷ xs) = ap (◌∷◌ x) (take-append-drop n xs)

  pub length-take : (n : ℕ) (xs : List A) → length (take n xs) ≡ min n (length xs)
  length-take zero xs = omega arith
  length-take (suc n) [] = omega arith
  length-take (suc n) (x ∷ xs) = omega (arith, length-take n xs)

  pub length-drop : (n : ℕ) (xs : List A) → length (drop n xs) ≡ length xs - n
  length-drop zero xs = omega arith
  length-drop (suc n) [] = omega arith
  length-drop (suc n) (x ∷ xs) = omega (arith, length-drop n xs)

  pub length-replicate : (n : ℕ) (a : A) → length (replicate n a) ≡ n
  length-replicate zero a = refl
  length-replicate (suc n) a = ap suc (length-replicate n a)

module _ {ℓ} {A : Type ℓ} where
  pub length-splice :
      (i : ℕ) (bytes xs : List A)
      → i + length bytes ≤ length xs
      → length (splice i bytes xs) ≡ length xs
  length-splice i bytes xs h = omega (
    arith,
    length-append (take i xs) (bytes ++ drop (i + length bytes) xs),
    length-append bytes (drop (i + length bytes) xs),
    length-take i xs,
    length-drop (i + length bytes) xs,
  )

  pub take-append_left : (n : ℕ) (xs ys : List A) → n ≤ length xs → take n (xs ++ ys) ≡ take n xs
  take-append_left zero xs ys h = refl
  take-append_left (suc n) [] ys h = elim h [ ]
  take-append_left (suc n) (x ∷ xs) ys h = ap (◌∷◌ x) (take-append_left n xs ys (omega arith))

  pub drop-append_left :
      (n : ℕ) (xs ys : List A) → n ≤ length xs → drop n (xs ++ ys) ≡ drop n xs ++ ys
  drop-append_left zero xs ys h = refl
  drop-append_left (suc n) [] ys h = elim h [ ]
  drop-append_left (suc n) (x ∷ xs) ys h = drop-append_left n xs ys (omega arith)

  pub take_all : (n : ℕ) (xs : List A) → length xs ≤ n → take n xs ≡ xs
  take_all zero [] h = refl
  take_all zero (x ∷ xs) h = elim h [ ]
  take_all (suc n) [] h = refl
  take_all (suc n) (x ∷ xs) h = ap (◌∷◌ x) (take_all n xs (omega arith))

  pub drop_all : (n : ℕ) (xs : List A) → length xs ≤ n → drop n xs ≡ []
  drop_all zero [] h = refl
  drop_all zero (x ∷ xs) h = elim h [ ]
  drop_all (suc n) [] h = refl
  drop_all (suc n) (x ∷ xs) h = drop_all n xs (omega arith)

  pub drop-replicate : (n m : ℕ) (a : A) → drop n (replicate m a) ≡ replicate (m - n) a
  drop-replicate zero m a = let all : m ≡ m - 0 = omega arith in ap (λ k. replicate k a) all
  drop-replicate (suc n) zero a =
      let none_left : 0 ≡ 0 - suc n = omega arith in ap (λ k. replicate k a) none_left
  drop-replicate (suc n) (suc m) a =
      let less : m - n ≡ suc m - suc n = omega arith in
      drop-replicate n m a ∙ ap (λ k. replicate k a) less

  -- Bytes that fill the array.
  pub splice_all : (bytes xs : List A) → length bytes ≡ length xs → splice 0 bytes xs ≡ bytes
  splice_all bytes xs h =
      ap (λ t. bytes ++ t) (drop_all (0 + length bytes) xs (omega arith)) ∙ append-nil bytes

  pub take-append_all : (n : ℕ) (xs ys : List A) → length xs ≡ n → take n (xs ++ ys) ≡ xs
  take-append_all n xs ys h = take-append_left n xs ys (omega arith) ∙ take_all n xs (omega arith)

  pub drop-append_all : (n : ℕ) (xs ys : List A) → length xs ≡ n → drop n (xs ++ ys) ≡ ys
  drop-append_all n xs ys h =
      drop-append_left n xs ys (omega arith) ∙ ap (λ t. t ++ ys) (drop_all n xs (omega arith))

module _ {ℓ} {A : Type ℓ} where
  pub take-append_past :
      (m n : ℕ) (xs ys : List A) → m ≡ length xs + n → take m (xs ++ ys) ≡ xs ++ take n ys
  take-append_past m n [] ys h = ap (λ k. take k ys) (let e : m ≡ n = omega arith in e)
  take-append_past zero n (x ∷ xs) ys h = absurd (omega arith)
  take-append_past (suc m) n (x ∷ xs) ys h = ap (◌∷◌ x) (take-append_past m n xs ys (omega arith))

  pub drop-append_past :
      (m n : ℕ) (xs ys : List A) → m ≡ length xs + n → drop m (xs ++ ys) ≡ drop n ys
  drop-append_past m n [] ys h = ap (λ k. drop k ys) (let e : m ≡ n = omega arith in e)
  drop-append_past zero n (x ∷ xs) ys h = absurd (omega arith)
  drop-append_past (suc m) n (x ∷ xs) ys h = drop-append_past m n xs ys (omega arith)

pub take-replicate {ℓ} :
    {A : Type ℓ} (n m : ℕ) (a : A) → n ≤ m → take n (replicate m a) ≡ replicate n a
take-replicate zero m a h = refl
take-replicate (suc n) zero a h = absurd (omega arith)
take-replicate (suc n) (suc m) a h = ap (◌∷◌ a) (take-replicate n m a (omega arith))

module _ {ℓ} {A : Type ℓ} where
  pub take_more :
      (k m n : ℕ) (xs : List A) → k ≡ m + n → take k xs ≡ take m xs ++ take n (drop m xs)
  take_more k zero n xs h = ap (λ i. take i xs) (let e : k ≡ n = omega arith in e)
  take_more zero (suc m) n xs h = absurd (omega arith)
  take_more (suc k) (suc m) zero [] h = refl
  take_more (suc k) (suc m) (suc n) [] h = refl
  take_more (suc k) (suc m) n (x ∷ xs) h = ap (◌∷◌ x) (take_more k m n xs (omega arith))

  pub drop_more : (k m n : ℕ) (xs : List A) → k ≡ m + n → drop k xs ≡ drop n (drop m xs)
  drop_more k zero n xs h = ap (λ i. drop i xs) (let e : k ≡ n = omega arith in e)
  drop_more zero (suc m) n xs h = absurd (omega arith)
  drop_more (suc k) (suc m) zero [] h = refl
  drop_more (suc k) (suc m) (suc n) [] h = refl
  drop_more (suc k) (suc m) n (x ∷ xs) h = drop_more k m n xs (omega arith)
