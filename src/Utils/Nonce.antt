-- ===== src/Utils/Nonce.antt =====
-- `rng_rfc6979` of src/eos_utils.c: the nonce of a signature.
pub mod Laws
use ledger_app.Base.{
  ℕ, zero, suc, ◌+◌, ◌-◌, List, [], ◌∷◌, ◌++◌, Bool, true, false, ◌||◌, ltb, ◌==◌, if◌then◌else◌,
  Option, none, some, replicate, take, Outcome, ok, stuck, ◌>>=◌, read_at, read_bytes, write_bytes,
}

-- The SDK's HMAC-SHA256 of a message under a key. The SDK documents 32 bytes of output; its calls
-- take the message in parts, which stand here joined.
pub record Hmac : Type 0 where
  pub mac : List ℕ → List ℕ → List ℕ

-- The caller's arrays `K` of 32 bytes and `V` of 33, which a later call goes on with.
pub record Generator : Type 0 where
  pub key : List ℕ
  pub value : List ℕ

-- A candidate in `V`, the buffer `rnd`, and `h_len`.
pub record Candidate : Type 0 where
  pub generator : Generator
  pub rnd : List ℕ
  pub h_len : ℕ

-- `V[i] < q[i]` for some `i` among the `n` first.
unfoldable pub below_somewhere : ℕ → List ℕ → List ℕ → Outcome Bool
below_somewhere zero v q = ok false
below_somewhere (suc n) v q = read_at v 0 >>= λ a. read_at q 0 >>= λ b. elim v [
  | [] ↦ ok false
  | a' ∷ v' ↦ elim q [
    | [] ↦ ok false
    | b' ∷ q' ↦ let rest = below_somewhere n v' q' in if ltb a b then ok true else rest
  ]
]

module _ (hmac : Hmac) where
  -- V = HMAC_K(V), on the `n` first bytes.
  unfoldable pub next_value : ℕ → Generator → Outcome Generator
  next_value n g = do
    bytes ← read_bytes n g.value
    value ← write_bytes 0 (hmac.mac g.key bytes) g.value
    ok (record g { value = value })

  -- K = HMAC_K(V || flag || extra); the flag stays in `V`.
  unfoldable pub next_key : ℕ → ℕ → List ℕ → Generator → Outcome Generator
  next_key n flag extra g = do
    value ← write_bytes n (flag ∷ []) g.value
    bytes ← read_bytes (n + 1) value
    key ← write_bytes 0 (hmac.mac g.key (bytes ++ extra)) g.key
    ok (record { key = key; value = value })

  -- Steps b to g, with the private key `x` and the hash `h1`.
  unfoldable pub set_up : ℕ → List ℕ → List ℕ → Generator → Outcome Generator
  set_up n x h1 g = do
    value ← write_bytes 0 (replicate n 1) g.value
    key ← write_bytes 0 (replicate n 0) g.key
    hash ← read_bytes n h1
    g₁ ← next_key n 0 (x ++ hash) (record { key = key; value = value })
    g₂ ← next_value n g₁
    g₃ ← next_key n 1 (x ++ hash) g₂
    next_value n g₃

  -- Step h.3 after a candidate that was turned down.
  pub step_on : ℕ → Generator → Outcome Generator
  step_on n g = next_key n 0 [] g >>= next_value n

  -- The inner `while` loop, on fuel; `offset` stays 0.
  unfoldable pub fill_loop : ℕ → ℕ → Candidate → Outcome Candidate
  fill_loop zero x_len c = stuck
  fill_loop (suc fuel) x_len c =
      let n = if ltb x_len c.h_len then x_len else c.h_len in
      let rest = next_value n c.generator >>= λ g. read_bytes n g.value >>= λ bytes.
      write_bytes 0 bytes c.rnd >>= λ rnd.
      fill_loop fuel (x_len - n) (record { generator = g; rnd = rnd; h_len = n }) in
      if x_len == 0 then ok c else rest

  -- `if (x) { ... } else { ... }`; behind it `x` is NULL.
  unfoldable pub prepare : Option (List ℕ) → ℕ → List ℕ → Generator → Outcome Generator
  prepare (some key) n h1 g = set_up n key h1 g
  prepare none n h1 g = step_on n g

  -- One round of the outer loop: the candidate, and whether it is taken.
  unfoldable pub draw :
      Option (List ℕ) → List ℕ → List ℕ → ℕ → Candidate → Outcome (Candidate × Bool)
  draw x h1 q q_len c = prepare x c.h_len h1 c.generator >>= λ g.
      fill_loop (suc q_len) q_len (record c { generator = g }) >>= λ filled.
      below_somewhere q_len filled.generator.value q >>= λ found. ok (filled, found)

  -- The outer loop, on fuel: how many candidates it takes depends on the HMAC.
  unfoldable pub draw_loop :
      ℕ → Option (List ℕ) → List ℕ → List ℕ → ℕ → Candidate → Outcome Candidate
  draw_loop zero x h1 q q_len c = stuck
  draw_loop (suc fuel) x h1 q q_len c = draw x h1 q q_len c >>= λ p.
      let rest = draw_loop fuel none h1 q q_len (p.0) in if p.1 then ok (p.0) else rest

  -- The contents of `rnd`, and the generator for the next call.
  unfoldable pub rng_rfc6979 :
      ℕ → List ℕ → List ℕ → Option (List ℕ) → List ℕ → ℕ → Generator → Outcome (List ℕ × Generator)
  rng_rfc6979 fuel rnd h1 x q q_len g =
      draw_loop fuel x h1 q q_len (record { generator = g; rnd = rnd; h_len = 32 }) >>= λ c.
      ok (c.rnd, c.generator)
