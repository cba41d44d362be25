-- ===== src/Types/Key.antt =====
-- `compressed_public_key_to_wif` and `public_key_to_wif` of src/eos_types.c.
use ledger_app.Base.{
  ℕ, ◌+◌, ◌-◌, ◌%◌, ◌∷◌, List, ◌++◌, ltb, leb, ◌==◌, if◌then◌else◌, take, replicate, codes, drop,
  Outcome, ok, ◌>>=◌, ◌>>◌, ledger_assert, read_bytes, read_at, write_bytes,
}
use ledger_app.Utils.Base58.{fits, too_long, b58enc}

-- What the application takes from the SDK for its texts: the RIPEMD-160 digest, and the text of
-- `%d` for the `int` with a 32-bit pattern.
pub record Platform : Type 0 where
  pub ripemd160 : List ℕ → List ℕ
  pub format_int : ℕ → List ℕ

-- The array `out` of `outLength` characters, with "EOS" and the text of the key and its checksum
-- in it, and the length that is returned. The result of `b58enc` itself is not looked at.
unfoldable pub compressed_public_key_to_wif : Platform → List ℕ → ℕ → ℕ → Outcome (List ℕ × ℕ)
compressed_public_key_to_wif platform key key_length out_length =
    ledger_assert (leb 33 key_length)
    >> (ledger_assert (leb 40 out_length)
        >> (read_bytes 33 key >>= λ bytes.
            let temp = bytes ++ take 4 (platform.ripemd160 bytes) in
            write_bytes 0 (codes "EOS") (replicate out_length 0) >>= λ out.
            b58enc temp (out_length - 3) >>= λ encoded. elim encoded [
              | fits text size ↦
                  ledger_assert (ltb (size + 3) out_length)
                  >> (write_bytes 3 text out >>= λ out'. ok (out', size + 3))
              | too_long size ↦ ledger_assert (ltb (size + 3) out_length) >> ok (out, size + 3)
            ]))

-- An uncompressed key: the parity of its last byte goes into the first of the compressed one.
unfoldable pub public_key_to_wif : Platform → List ℕ → ℕ → ℕ → Outcome (List ℕ × ℕ)
public_key_to_wif platform key key_length out_length = do
  ledger_assert (leb 33 key_length)
  ledger_assert (leb 40 out_length)
  last ← read_at key 64
  x ← read_bytes 32 (drop 1 key)
  compressed_public_key_to_wif platform ((if last % 2 == 0 then 2 else 3) ∷ x) 33 out_length
