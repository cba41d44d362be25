-- ===== src/Utils/Nonce/Laws.antt =====
-- Which candidates `rng_rfc6979` takes, and what it gives.
use ledger_app.Base.{
  ℕ, zero, suc, ◌+◌, ◌*◌, ◌^◌, ◌≤◌, ◌<◌, ◌≡◌, ◌∙◌, refl, ap, sym, List, [], ◌∷◌, ◌++◌, true, arith,
  length, take, ok, stuck_not_ok, >>=-eq-ok, ok-injective, Bool, Bool-cases, inl, inr, ltb, lt→ltb,
  le→ltb, if_true, if_false, then_of, else_of, All, IsByte, if◌then◌else◌, read_bytes, write_bytes,
  Option, none, length-append, write_bytes_front,
}
use native.Mathlib.Nat.{pow-suc}
use native.Mathlib.Decide.{dec_lt}
use mathlib.Core.Path.{subst}
use ledger_app.Utils.Nonce.{
  Hmac, Generator, Candidate, below_somewhere, next_value, fill_loop, prepare, draw, draw_loop,
  rng_rfc6979,
}

-- The number that the bytes write, highest first.
abbrev pub be_value : List ℕ → ℕ
be_value [] = 0
be_value (b ∷ bytes) = b * 256 ^ length bytes + be_value bytes

be_value_bound : (bytes : List ℕ) → All IsByte bytes → be_value bytes < 256 ^ length bytes
be_value_bound [] h = omega arith
be_value_bound (b ∷ bytes) (h, hs) =
    grind (arith, be_value_bound bytes hs, pow-suc 256 (length bytes))

-- A first byte that is larger makes the number larger.
be_value_head :
    (a b : ℕ) (v q : List ℕ)
    → b < a
    → length v ≡ length q
    → All IsByte q
    → be_value (b ∷ q) < be_value (a ∷ v)
be_value_head a b v q h same bytes =
    let bound = be_value_bound q bytes in
    let scaled : (b + 1) * 256 ^ length q ≤ a * 256 ^ length q = grind arith in
    let power : 256 ^ length v ≡ 256 ^ length q = ap (λ n. 256 ^ n) same in
    let moved : a * 256 ^ length v ≡ a * 256 ^ length q = ap (λ p. a * p) power in
    omega (arith, moved)

below_step :
    (n a b : ℕ) (v q : List ℕ)
    → below_somewhere (suc n) (a ∷ v) (b ∷ q) ≡ (if ltb a b then ok true else below_somewhere n v q)
unfolding below_somewhere
below_step n a b v q = refl

-- Every candidate that is below the order `q` as a number is taken; `rest` is what stands in `V`
-- behind the candidate.
pub below_somewhere-lt :
    (v q rest : List ℕ)
    → length v ≡ length q
    → All IsByte q
    → be_value v < be_value q
    → below_somewhere (length q) (v ++ rest) q ≡ ok true
below_somewhere-lt [] [] rest same bytes h = absurd (omega arith)
below_somewhere-lt [] (b ∷ q) rest same bytes h = absurd (omega arith)
below_somewhere-lt (a ∷ v) [] rest same bytes h = absurd (omega arith)
below_somewhere-lt (a ∷ v) (b ∷ q) rest same (byte, bytes) h = elim (dec_lt a b) [
  | yes less ↦ below_step (length q) a b (v ++ rest) q ∙ if_true _ _ _ (lt→ltb a b less)
  | no not_less ↦
      below_step (length q) a b (v ++ rest) q
      ∙ if_false _ _ _ (le→ltb a b (omega arith))
      ∙ below_somewhere-lt v q rest (omega arith) bytes (tail_less not_less)
]
  where
    tail_less : ¬ (a < b) → be_value v < be_value q
    tail_less not_less = elim (dec_lt b a) [
      | yes more ↦ absurd (omega (arith, be_value_head a b v q more (omega arith) bytes))
      | no not_more ↦
          let same_head : a ≡ b = omega arith in
          let same_power : 256 ^ length v ≡ 256 ^ length q =
            ap (λ n. 256 ^ n) (let e : length v ≡ length q = omega arith in e) in
          let same_top : a * 256 ^ length v ≡ b * 256 ^ length q =
            ap (λ n. n * 256 ^ length v) same_head ∙ ap (λ p. b * p) same_power in
          omega (arith, same_top)
    ]

be_value_front :
    (front v q : List ℕ)
    → length v ≡ length q
    → be_value q < be_value v
    → be_value (front ++ q) < be_value (front ++ v)
be_value_front [] v q same h = h
be_value_front (x ∷ front) v q same h =
    let power : 256 ^ length (front ++ v) ≡ 256 ^ length (front ++ q) =
      ap (λ n. 256 ^ n)
        (length-append front v ∙ ap (λ n. length front + n) same ∙ sym (length-append front q)) in
    omega (arith, ap (λ p. x * p) power, be_value_front front v q same h)

below_found :
    (c d : ℕ) (front v q : List ℕ)
    → c < d
    → below_somewhere (length (front ++ (d ∷ q))) (front ++ (c ∷ v)) (front ++ (d ∷ q)) ≡ ok true
below_found c d [] v q h = below_step (length q) c d v q ∙ if_true _ _ _ (lt→ltb c d h)
below_found c d (x ∷ front) v q h =
    below_step (length (front ++ (d ∷ q))) x x (front ++ (c ∷ v)) (front ++ (d ∷ q))
    ∙ if_false _ _ _ (le→ltb x x (omega arith))
    ∙ below_found c d front v q h

-- A candidate that passes the order `q` at the first byte that differs, and has the next byte below
-- that of `q`, is larger than the order and is taken: the loop looks for a byte that is below, and
-- goes on past one that is above.
pub below_somewhere_above :
    (front v q : List ℕ) (a b c d : ℕ)
    → b < a
    → c < d
    → length v ≡ length q
    → All IsByte (d ∷ q)
    → (be_value (front ++ (b ∷ d ∷ q)) < be_value (front ++ (a ∷ c ∷ v)))
      × (below_somewhere
            (length (front ++ (b ∷ d ∷ q)))
            (front ++ (a ∷ c ∷ v))
            (front ++ (b ∷ d ∷ q))
          ≡ ok true)
below_somewhere_above front v q a b c d above below same bytes = (
  be_value_front front (a ∷ c ∷ v) (b ∷ d ∷ q) (omega arith)
      (be_value_head a b (c ∷ v) (d ∷ q) above (omega arith) bytes),
  passes front,
)
  where
    passes :
        (front : List ℕ)
        → below_somewhere
            (length (front ++ (b ∷ d ∷ q)))
            (front ++ (a ∷ c ∷ v))
            (front ++ (b ∷ d ∷ q))
          ≡ ok true
    passes [] =
        below_step (suc (length q)) a b (c ∷ v) (d ∷ q)
        ∙ if_false _ _ _ (le→ltb a b (omega arith))
        ∙ below_step (length q) c d v q
        ∙ if_true _ _ _ (lt→ltb c d below)
    passes (x ∷ front) =
        below_step (length (front ++ (b ∷ d ∷ q))) x x (front ++ (a ∷ c ∷ v)) (front ++ (b ∷ d ∷ q))
        ∙ if_false _ _ _ (le→ltb x x (omega arith))
        ∙ passes front

-- What is in `rnd` is what is in `V`.
record Filled (c : Candidate) : Type 0 where
  same_len : c.h_len ≡ 32
  same_bytes : take 32 c.rnd ≡ take 32 c.generator.value

module _ (hmac : Hmac) where
  fill_loop-Filled :
      (fuel : ℕ) (g : Generator) (rnd : List ℕ) {c : Candidate}
      → fill_loop hmac (suc (suc fuel)) 32 (record { generator = g; rnd = rnd; h_len = 32 }) ≡ ok c
      → Filled c
  unfolding fill_loop
  fill_loop-Filled fuel g rnd e =
      let (g', moved, rest) = >>=-eq-ok (next_value hmac 32 g) _ e in
      let (bytes, read, rest₁) = >>=-eq-ok (read_bytes 32 g'.value) _ rest in
      let (rnd', wrote, last) = >>=-eq-ok (write_bytes 0 bytes rnd) _ rest₁ in
      subst Filled (ok-injective last) (record {
        same_len = refl;
        same_bytes = write_bytes_front 32 bytes rnd rnd' g'.value read wrote;
      })

  draw-Filled :
      (x : Option (List ℕ)) (h1 q : List ℕ) (c : Candidate) {p : Candidate × Bool}
      → c.h_len ≡ 32
      → draw hmac x h1 q 32 c ≡ ok p
      → Filled (p.0) × (below_somewhere 32 (p.0.generator.value) q ≡ ok (p.1))
  unfolding draw
  draw-Filled x h1 q c same e =
      let (g, stepped, rest) = >>=-eq-ok (prepare hmac x c.h_len h1 c.generator) _ e in
      let (filled, fill, rest₁) =
        >>=-eq-ok (fill_loop hmac 33 32 (record c { generator = g })) _ rest in
      let (found, tested, last) = >>=-eq-ok (below_somewhere 32 filled.generator.value q) _ rest₁ in
      let start =
        ap (λ n. fill_loop hmac 33 32 (record { generator = g; rnd = c.rnd; h_len = n }))
          (sym same) in
      subst
        (λ (p : Candidate × Bool).
          Filled (p.0) × (below_somewhere 32 (p.0.generator.value) q ≡ ok (p.1)))
        (ok-injective last) (fill_loop-Filled 31 g c.rnd (start ∙ fill), tested)

  draw_loop-Filled :
      (fuel : ℕ) (x : Option (List ℕ)) (h1 q : List ℕ) (c : Candidate) {d : Candidate}
      → c.h_len ≡ 32
      → draw_loop hmac fuel x h1 q 32 c ≡ ok d
      → Filled d × (below_somewhere 32 d.generator.value q ≡ ok true)
  unfolding draw_loop
  draw_loop-Filled zero x h1 q c same e = absurd (stuck_not_ok e)
  draw_loop-Filled (suc fuel) x h1 q c {d} same e =
      let ((c', found), drew, rest) = >>=-eq-ok (draw hmac x h1 q 32 c) _ e in
      let (filled, tested) = draw-Filled x h1 q c same drew in
      elim (Bool-cases found) [
        | inl taken ↦
            subst (λ (t : Candidate). Filled t × (below_somewhere 32 t.generator.value q ≡ ok true))
              (ok-injective (then_of _ _ _ taken rest)) (filled, tested ∙ ap ok taken)
        | inr refused ↦
            draw_loop-Filled fuel none h1 q c' filled.same_len (else_of _ _ _ refused rest)
      ]

  -- A run of `rng_rfc6979` for an order of 32 bytes that returns has put the first 32 bytes of the
  -- last `V` into `rnd`, and this candidate passes the test against the order.
  pub rng_rfc6979_lem :
      (fuel : ℕ) (rnd h1 : List ℕ) (x : Option (List ℕ)) (q : List ℕ) (g : Generator)
      {rnd' : List ℕ} {g' : Generator}
      → rng_rfc6979 hmac fuel rnd h1 x q 32 g ≡ ok (rnd', g')
      → (take 32 rnd' ≡ take 32 g'.value) × (below_somewhere 32 g'.value q ≡ ok true)
  unfolding rng_rfc6979
  rng_rfc6979_lem fuel rnd h1 x q g e =
      let (c, drew, last) = >>=-eq-ok (draw_loop hmac fuel x h1 q 32 _) _ e in
      let (filled, tested) = draw_loop-Filled fuel x h1 q _ refl drew in
      subst
        (λ (p : List ℕ × Generator).
          (take 32 (p.0) ≡ take 32 (p.1.value)) × (below_somewhere 32 (p.1.value) q ≡ ok true))
        (ok-injective last) (filled.same_bytes, tested)
