-- ===== src/App/HashSigner.antt =====
-- `sign_hash_and_set_result` of src/main.c: the signature of a hash by the key of a path.
pub mod Laws
use ledger_app.Base.{
  ℕ, zero, suc, ◌+◌, ◌%◌, List, [], ◌∷◌, Bool, true, false, ◌==◌, if◌then◌else◌, bit_or, Option,
  none, some, replicate, Outcome, ok, stuck, overrun, ◌>>=◌,
}
use ledger_app.Utils.Nonce.{Hmac, Generator, rng_rfc6979}
use ledger_app.Utils.Signature.{check_canonical, ecdsa_der_to_sig}

-- What the SDK computes: the 32 bytes of the key of a path, and the signature of a hash by a key
-- with a nonce, as the memory of its DER form with whether the parity is odd.
pub record Signer : Type 0 where
  pub derive : List ℕ → List ℕ
  pub ecdsa_sign : List ℕ → List ℕ → List ℕ → List ℕ × Bool
  pub hmac : Hmac

-- SECP256K1_N
abbrev pub secp256k1_n : List ℕ
secp256k1_n =
    0xff ∷ 0xff ∷ 0xff ∷ 0xff ∷ 0xff ∷ 0xff ∷ 0xff ∷ 0xff ∷ 0xff ∷ 0xff ∷ 0xff ∷ 0xff ∷ 0xff ∷ 0xff
    ∷ 0xff ∷ 0xfe ∷ 0xba ∷ 0xae ∷ 0xdc ∷ 0xe6 ∷ 0xaf ∷ 0x48 ∷ 0xa0 ∷ 0x3b ∷ 0xbf ∷ 0xd2 ∷ 0x5e
    ∷ 0x8c ∷ 0xd0 ∷ 0x36 ∷ 0x41 ∷ 0x41 ∷ []

-- `G_io_apdu_buffer[100] |= 0x01` for an odd parity.
unfoldable pub mark_parity : List ℕ → Bool → Outcome (List ℕ)
mark_parity [] odd = overrun
mark_parity (b ∷ der) odd = ok ((if odd then bit_or b 1 else b) ∷ der)

abbrev pub parity_byte : List ℕ → ℕ
parity_byte [] = 0
parity_byte (b ∷ der) = 27 + 4 + b % 2

module _ (signer : Signer) where
  -- The loop over the tries, on fuel: how many it takes depends on the signatures. `sig` is what
  -- stands behind the reply's first byte, and `rnd` what stands at index 100 of the buffer.
  unfoldable pub sign_tries :
      ℕ → Option (List ℕ) → List ℕ → List ℕ → List ℕ → Generator → List ℕ → Outcome (List ℕ)
  sign_tries zero x key hash sig g rnd = stuck
  sign_tries (suc fuel) x key hash sig g rnd =
      rng_rfc6979 signer.hmac fuel rnd hash x secp256k1_n 32 g >>= λ drawn.
      let signed = signer.ecdsa_sign key hash (drawn.0) in
      mark_parity (signed.0) (signed.1) >>= λ der. ecdsa_der_to_sig der sig >>= λ converted.
      check_canonical (converted.1) >>= λ canonical.
      let rest = sign_tries fuel none key hash (converted.1) (drawn.1) der in
      if canonical then ok (parity_byte der ∷ converted.1) else rest

  -- The 65 bytes of the reply. `V` and `K` are not initialised, `sig` and `rnd` are what the buffer
  -- of the command holds.
  unfoldable pub sign_hash_and_set_result :
      ℕ → Generator → List ℕ → List ℕ → List ℕ → List ℕ → Outcome (List ℕ)
  sign_hash_and_set_result fuel g sig rnd path hash =
      let key = signer.derive path in sign_tries fuel (some key) key hash sig g rnd
