-- ===== src/Utils/Base58.antt =====
-- `b58enc` of src/eos_utils.c: bytes as digits to the base 58.
use ledger_app.Base.{
  ℕ, zero, suc, ◌+◌, ◌-◌, ◌*◌, ◌/◌, ◌%◌, List, [], ◌∷◌, ◌++◌, not, ◌||◌, ltb, leb, ◌==◌,
  if◌then◌else◌, length, drop, map, replicate, codes, get_or, Outcome, ok, ◌>>=◌, read_at,
  write_bytes,
}

abbrev pub base58_alphabet : List ℕ
base58_alphabet = codes "123456789ABCDEFGHJKLMNPQRSTUVWXYZabcdefghijkmnopqrstuvwxyz"

-- `while (zcount < binsz && !bin[zcount]) ++zcount`, and the loop over `buf` with `j`.
unfoldable pub count_zeros : List ℕ → ℕ
count_zeros [] = 0
count_zeros (b ∷ bytes) = let n = count_zeros bytes in if b == 0 then suc n else 0

-- The inner loop from index `j` on, down to index 0 at most; the result is its last `j`.
unfoldable pub add_carry : ℕ → ℕ → ℕ → List ℕ → Outcome (ℕ × List ℕ)
add_carry zero high carry buf =
    if ltb high 0 || not (carry == 0)
    then (read_at buf 0 >>= λ digit.
        write_bytes 0 ((carry + 256 * digit) % 58 ∷ []) buf >>= λ buf'. ok (0, buf'))
    else ok (0, buf)
add_carry (suc j) high carry buf =
    if ltb high (suc j) || not (carry == 0)
    then (read_at buf (suc j) >>= λ digit.
        write_bytes (suc j) ((carry + 256 * digit) % 58 ∷ []) buf >>= λ buf'.
        add_carry j high ((carry + 256 * digit) / 58) buf')
    else ok (suc j, buf)

-- The outer loop over the bytes behind the leading zeros.
unfoldable pub add_bytes : ℕ → ℕ → List ℕ → List ℕ → Outcome (List ℕ)
add_bytes size high [] buf = ok buf
add_bytes size high (b ∷ bytes) buf = do
  (j, buf') ← add_carry (size - 1) high b buf
  add_bytes size j bytes buf'

-- The text and the terminator, if they fit `room` characters, and the new `*b58sz`.
pub data Encoded : Type 0 where
  fits : List ℕ → ℕ → Encoded
  too_long : ℕ → Encoded

unfoldable pub b58enc : List ℕ → ℕ → Outcome Encoded
b58enc bin room =
    let zcount = count_zeros bin in
    let size = (length bin - zcount) * 138 / 100 + 1 in
    add_bytes size (size - 1) (drop zcount bin) (replicate size 0) >>= λ buf.
    let j = count_zeros buf in
    let text =
      replicate zcount b'1' ++ map (λ digit. get_or base58_alphabet digit 0) (drop j buf) in
    if leb room (zcount + size - j)
    then ok (too_long (zcount + size - j + 1))
    else ok (fits (text ++ (0 ∷ [])) (length text + 1))
