-- ===== src/Utils/Signature.antt =====
-- `check_canonical` and `ecdsa_der_to_sig` of src/eos_utils.c: the form of a signature.
use ledger_app.Base.{
  ℕ, ◌+◌, ◌-◌, List, Bool, not, ◌&&◌, ltb, ◌==◌, if◌then◌else◌, drop, replicate, top_bit, Option,
  none, some, Outcome, ok, ◌>>=◌, read_at, read_bytes, write_bytes, ◌++◌,
}

-- `!(first & 0x80) && !(first == 0 && !(second & 0x80))`.
abbrev pub is_short_positive : ℕ → ℕ → Bool
is_short_positive first second = not (top_bit first) && not (first == 0 && not (top_bit second))

-- The array has the 64 bytes of `r` and `s`, so the reads that `&&` would skip change nothing.
unfoldable pub check_canonical : List ℕ → Outcome Bool
check_canonical rs = do
  r₀ ← read_at rs 0
  r₁ ← read_at rs 1
  s₀ ← read_at rs 32
  s₁ ← read_at rs 33
  ok (is_short_positive r₀ r₁ && is_short_positive s₀ s₁)

-- One integer of the DER form at `offset`: its offset without a leading zero byte, and its length.
-- The length is an `int`, so a DER length of 0 behind the zero byte makes it negative: `none`.
unfoldable pub der_integer : List ℕ → ℕ → Outcome (ℕ × Option ℕ)
der_integer der offset = do
  first ← read_at der (offset + 2)
  len ← read_at der (offset + 1)
  if first == 0
      then ok (offset + 3, if len == 0 then none else some (len - 1))
      else ok (offset + 2, some len)

-- A component of the signature, padded with zeros to 32 bytes; `none` is the return of 0.
unfoldable pub der_component : List ℕ → ℕ → Outcome (Option (List ℕ × ℕ))
der_component der offset = der_integer der offset >>= λ p. elim (p.1) [
  | none ↦ ok none
  | some len ↦
      if ltb 32 len
      then ok none
      else (read_bytes len (drop (p.0) der) >>= λ bytes.
          ok (some (replicate (32 - len) 0 ++ bytes, p.0 + len)))
]

-- The value that is returned, and the bytes of `sig`, of which a return of 0 leaves those of the
-- components that were not written.
unfoldable pub ecdsa_der_to_sig : List ℕ → List ℕ → Outcome (ℕ × List ℕ)
ecdsa_der_to_sig der sig = der_component der 2 >>= λ r. elim r [
  | none ↦ ok (0, sig)
  | some (r_bytes, offset) ↦ write_bytes 0 r_bytes sig >>= λ sig'. der_component der offset >>= λ s.
      elim s [
        | none ↦ ok (0, sig')
        | some (s_bytes, end) ↦ write_bytes 32 s_bytes sig' >>= λ sig''. ok (1, sig'')
      ]
]
