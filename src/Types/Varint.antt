-- ===== src/Types/Varint.antt =====
-- `unpack_variant32` of src/eos_types.c: an integer in groups of seven bits, lowest first.
pub mod Laws
use ledger_app.Base.{
  ℕ, ◌+◌, ◌*◌, ◌%◌, ◌^◌, bit_or, List, [], ◌∷◌, ◌&&◌, ltb, if◌then◌else◌, u32, top_bit, Outcome, ok,
  overrun,
}

-- The do-while loop. The list is the memory behind `in`, `by` the shift; the result is `*value`
-- and the number of bytes read. `v` is a uint64_t that stays below 2 ^ 32.
unfoldable pub unpack_loop : List ℕ → ℕ → ℕ → ℕ → ℕ → Outcome (ℕ × ℕ)
unpack_loop [] len i v by = overrun
unpack_loop (b ∷ rest) len i v by =
    let v' = bit_or v (b % 2 ^ 7 * 2 ^ by % 2 ^ 32) in
    let more = unpack_loop rest len (i + 1) v' (by + 7) in
    if top_bit b && (ltb (by + 7) 32 && ltb (i + 1) len) then more else ok (u32 v', i + 1)

unfoldable pub unpack_variant32 : List ℕ → ℕ → Outcome (ℕ × ℕ)
unpack_variant32 bytes len = unpack_loop bytes len 0 0 0
