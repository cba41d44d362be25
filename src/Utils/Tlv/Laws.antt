-- ===== src/Utils/Tlv/Laws.antt =====
-- What the TLV header decoder accepts.
use ledger_app.Base.{
  ℕ, zero, suc, ◌+◌, ◌-◌, ◌*◌, ◌/◌, ◌%◌, ◌^◌, ◌≤◌, ◌<◌, ◌≡◌, List, [], ◌∷◌, ◌++◌, arith, length,
  ltb, if◌then◌else◌, ok, read_at, All, IsByte, >>=-eq-ok, then_of, else_of, Bool-cases, inl, inr,
  u32, ◌==◌,
}
use ledger_app.Utils.Tlv.{
  invalid, incomplete, decoded, read_length, decode_length, tlv_try_decode, tag_number,
}

-- The DER header of an octet string, in the fewest bytes, for lengths below 2 ^ 24.
unfoldable pub der_header : ℕ → List ℕ
der_header n =
    if ltb n 128
    then 4 ∷ n ∷ []
    else if ltb n (2 ^ 8)
    then 4 ∷ 0x81 ∷ n ∷ []
    else if ltb n (2 ^ 16)
    then 4 ∷ 0x82 ∷ (n / 2 ^ 8) ∷ (n % 2 ^ 8) ∷ []
    else 4 ∷ 0x83 ∷ (n / 2 ^ 16) ∷ (n / 2 ^ 8 % 2 ^ 8) ∷ (n % 2 ^ 8) ∷ []

-- The header of a length below 2 ^ 24 is decoded to that length once all its bytes are in the
-- buffer, whatever follows them.
pub tlv_try_decode-der_header :
    (n : ℕ) (rest : List ℕ)
    → n < 2 ^ 24
    → tlv_try_decode (der_header n ++ rest) (length (der_header n)) ≡ ok (decoded n)
unfolding tlv_try_decode der_header decode_length read_length
tlv_try_decode-der_header n rest h = ground arith

-- With some of the bytes of the header of a length below 2 ^ 24, one at least and not all, the
-- decoder asks for more.
pub tlv_try_decode_prefix :
    (n k : ℕ) (rest : List ℕ)
    → n < 2 ^ 24
    → 1 ≤ k
    → k < length (der_header n)
    → tlv_try_decode (der_header n ++ rest) k ≡ ok incomplete
unfolding tlv_try_decode der_header decode_length read_length
tlv_try_decode_prefix n k rest h low high = ground arith

read_at-IsByte :
    (bytes : List ℕ) (i : ℕ) {b : ℕ} → All IsByte bytes → read_at bytes i ≡ ok b → b < 256
read_at-IsByte [] i h e = cc
read_at-IsByte (x ∷ bytes) zero h e = ground arith
read_at-IsByte (x ∷ bytes) (suc i) h e = read_at-IsByte bytes i h.1 e

-- One byte of the length: the value so far stays below a bound 256 times as large.
read_length_step :
    (n bound : ℕ) (buffer : List ℕ) (i acc : ℕ) {v : ℕ}
    → All IsByte buffer
    → bound * 256 ≤ 2 ^ 32
    → acc < bound
    → read_length (suc n) buffer i acc ≡ ok v
    → (acc' : ℕ) × (acc' < bound * 256) × (read_length n buffer (i + 1) acc' ≡ ok v)
unfolding read_length
read_length_step n bound buffer i acc bytes hb ha e =
    let (b, read, rest) = >>=-eq-ok (read_at buffer i) _ e in
    (u32 (acc * 2 ^ 8) + b, omega (arith, read_at-IsByte buffer i bytes read), rest)

read_length_done :
    (buffer : List ℕ) (i acc : ℕ) {v : ℕ} → read_length 0 buffer i acc ≡ ok v → acc ≡ v
unfolding read_length
read_length_done buffer i acc e = cc

read_length_bound :
    (n : ℕ) (buffer : List ℕ) {v : ℕ}
    → All IsByte buffer
    → n ≤ 3
    → read_length n buffer 2 0 ≡ ok v
    → v < 2 ^ 24
read_length_bound zero buffer bytes h e = omega (arith, read_length_done buffer 2 0 e)
read_length_bound (suc zero) buffer bytes h e =
    let (a, la, ea) = read_length_step 0 1 buffer 2 0 bytes (omega arith) (omega arith) e in
    omega (arith, read_length_done buffer 3 a ea)
read_length_bound (suc (suc zero)) buffer bytes h e =
    let (a, la, ea) = read_length_step 1 1 buffer 2 0 bytes (omega arith) (omega arith) e in
    let (b, lb, eb) = read_length_step 0 256 buffer 3 a bytes (omega arith) (omega arith) ea in
    omega (arith, read_length_done buffer 4 b eb)
read_length_bound (suc (suc (suc zero))) buffer bytes h e =
    let (a, la, ea) = read_length_step 2 1 buffer 2 0 bytes (omega arith) (omega arith) e in
    let (b, lb, eb) = read_length_step 1 256 buffer 3 a bytes (omega arith) (omega arith) ea in
    let (c, lc, ec) = read_length_step 0 65536 buffer 4 b bytes (omega arith) (omega arith) eb in
    omega (arith, read_length_done buffer 5 c ec)
read_length_bound (suc (suc (suc (suc n)))) buffer bytes h e = absurd (omega arith)

decode_length_bound :
    (buffer : List ℕ) (left byte : ℕ) {n : ℕ}
    → All IsByte buffer
    → byte < 256
    → left ≤ 4
    → decode_length buffer left byte ≡ ok (decoded n)
    → n < 2 ^ 24
unfolding decode_length
decode_length_bound buffer left byte {n} bytes hb hl e =
    ground (arith, read_length_bound (byte % 2 ^ 7) buffer {v = n} bytes)

-- From the five bytes of `tlvBuffer` no length of 2 ^ 24 or more is ever decoded: a length in four
-- bytes does not fit behind the tag and the count.
pub tlv_try_decode_bound :
    (buffer : List ℕ) (len : ℕ) {n : ℕ}
    → All IsByte buffer
    → len ≤ 5
    → tlv_try_decode buffer len ≡ ok (decoded n)
    → n < 2 ^ 24
unfolding tlv_try_decode
tlv_try_decode_bound buffer len {n} bytes hl e =
    let (tag, tag_read, tagged) = >>=-eq-ok (read_at buffer 0) _ e in
    elim (Bool-cases (tag_number tag == 4)) [
      | inl octets ↦ elim (Bool-cases (ltb len 2)) [
        | inl short ↦ absurd (not_decoded (then_of _ _ _ short (then_of _ _ _ octets tagged)))
        | inr enough ↦
            let (byte, read, rest) =
              >>=-eq-ok (read_at buffer 1) _ (else_of _ _ _ enough (then_of _ _ _ octets tagged)) in
            decode_length_bound buffer (len - 1) byte bytes (read_at-IsByte buffer 1 bytes read)
              (omega arith) rest
      ]
      | inr other ↦ absurd (not_valid (else_of _ _ _ other tagged))
    ]
  where
    not_decoded : ok incomplete ≡ ok (decoded n) → ⊥
    not_decoded p = cc

    not_valid : ok invalid ≡ ok (decoded n) → ⊥
    not_valid p = cc
