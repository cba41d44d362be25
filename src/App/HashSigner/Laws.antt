-- ===== src/App/HashSigner/Laws.antt =====
-- What a signature looks like.
use ledger_app.Base.{
  ℕ, zero, suc, false, bit_or, ◌+◌, ◌%◌, if◌then◌else◌, ◌≡◌, ◌∙◌, refl, ap, sym, List, [], ◌∷◌,
  true, Bool, length, Outcome, ok, stuck_not_ok, ◌>>=◌, >>=-eq-ok, ok-injective, Bool-cases, inl,
  inr, then_of, else_of, Option, none, some, write_bytes, length-write_bytes,
}
use mathlib.Core.Path.{subst}
use ledger_app.Utils.Nonce.{Generator, rng_rfc6979}
use ledger_app.Utils.Signature.{check_canonical, ecdsa_der_to_sig, der_component}
use ledger_app.App.HashSigner.{
  Signer, secp256k1_n, mark_parity, parity_byte, sign_tries, sign_hash_and_set_result,
}

-- A signature of the SDK in DER form starts with the tag of a sequence.
abbrev pub IsDer : List ℕ → Type 0
IsDer [] = ⊥
IsDer (b ∷ der) = b ≡ 0x30

-- What makes a reply of a signature of `hash` by `key`: the recovery byte that tells the parity, and
-- 64 bytes from the DER form that the chain's test accepts.
pub record IsReply (signer : Signer) (key hash reply : List ℕ) : Type 0 where
  pub nonce : List ℕ
  pub recovery : ℕ
  pub sig : List ℕ
  pub parts : reply ≡ recovery ∷ sig
  pub parity : recovery ≡ (if (signer.ecdsa_sign key hash nonce).1 then 32 else 31)
  pub der : List ℕ
  pub marked :
      mark_parity (signer.ecdsa_sign key hash nonce).0 (signer.ecdsa_sign key hash nonce).1 ≡ ok der
  pub old : List ℕ
  pub found : ℕ
  pub converted : ecdsa_der_to_sig der old ≡ ok (found, sig)
  pub size : length sig ≡ 64
  pub canonical : check_canonical sig ≡ ok true

length-ecdsa_der_to_sig :
    (der sig : List ℕ) {n : ℕ} {sig' : List ℕ}
    → ecdsa_der_to_sig der sig ≡ ok (n, sig')
    → length sig' ≡ length sig
unfolding ecdsa_der_to_sig
length-ecdsa_der_to_sig der sig {n} {sig'} e =
    let (r, ran, rest) = >>=-eq-ok (der_component der 2) _ e in first r rest
  where
    -- The value that is returned with the bytes.
    result : ℕ × List ℕ
    result = (n, sig')

    second :
        (a : List ℕ) (s : Option (List ℕ × ℕ))
        → length a ≡ length sig
        → ◌≡◌ {A = Outcome (ℕ × List ℕ)}
            (elim s [
              | none ↦ ok (0, a)
              | some (s_bytes, end) ↦ write_bytes 32 s_bytes a >>= λ b. ok (1, b)
            ])
            (ok result)
        → length (result.1) ≡ length sig
    second a none h e' = ap length (sym (ap (λ (p : ℕ × List ℕ). p.1) (ok-injective e'))) ∙ h
    second a (some (s_bytes, end)) h e' =
        let (b, wrote, last) = >>=-eq-ok (write_bytes 32 s_bytes a) _ e' in
        ap length (sym (ap (λ (p : ℕ × List ℕ). p.1) (ok-injective last)))
        ∙ length-write_bytes 32 s_bytes a wrote
        ∙ h

    first :
        (r : Option (List ℕ × ℕ))
        → ◌≡◌ {A = Outcome (ℕ × List ℕ)}
            (elim r [
              | none ↦ ok (0, sig)
              | some (r_bytes, offset) ↦ write_bytes 0 r_bytes sig >>= λ a.
                  der_component der offset >>= λ s. elim s [
                    | none ↦ ok (0, a)
                    | some (s_bytes, end) ↦ write_bytes 32 s_bytes a >>= λ b. ok (1, b)
                  ]
            ])
            (ok result)
        → length (result.1) ≡ length sig
    first none e' = ap length (sym (ap (λ (p : ℕ × List ℕ). p.1) (ok-injective e')))
    first (some (r_bytes, offset)) e' =
        let (a, wrote, rest) = >>=-eq-ok (write_bytes 0 r_bytes sig) _ e' in
        let (s, ran, rest₁) = >>=-eq-ok (der_component der offset) _ rest in
        second a s (length-write_bytes 0 r_bytes sig wrote) rest₁

-- The tag is even, so that the mark is the parity.
parity_byte-mark_parity :
    (der : List ℕ) (odd : Bool) {der' : List ℕ}
    → IsDer der
    → mark_parity der odd ≡ ok der'
    → parity_byte der' ≡ (if odd then 32 else 31)
unfolding mark_parity
parity_byte-mark_parity [] odd tag e = absurd tag
parity_byte-mark_parity (b ∷ der) true tag e =
    sym (ap parity_byte (ok-injective e)) ∙ ap (λ n. 27 + 4 + bit_or n 1 % 2) tag
parity_byte-mark_parity (b ∷ der) false tag e =
    sym (ap parity_byte (ok-injective e)) ∙ ap (λ n. 27 + 4 + n % 2) tag

module _ (signer : Signer)
    (tagged : (key hash nonce : List ℕ) → IsDer (signer.ecdsa_sign key hash nonce).0) where
  sign_tries-IsReply :
      (fuel : ℕ) (x : Option (List ℕ)) (key hash sig : List ℕ) (g : Generator) (rnd : List ℕ)
      {reply : List ℕ}
      → length sig ≡ 64
      → sign_tries signer fuel x key hash sig g rnd ≡ ok reply
      → IsReply signer key hash reply
  unfolding sign_tries
  sign_tries-IsReply zero x key hash sig g rnd size e = absurd (stuck_not_ok e)
  sign_tries-IsReply (suc fuel) x key hash sig g rnd size e =
      let (drawn, drew, e₁) =
        >>=-eq-ok (rng_rfc6979 signer.hmac fuel rnd hash x secp256k1_n 32 g) _ e in
      let signed = signer.ecdsa_sign key hash (drawn.0) in
      let (der, marked, e₂) = >>=-eq-ok (mark_parity (signed.0) (signed.1)) _ e₁ in
      let (converted, ran, e₃) = >>=-eq-ok (ecdsa_der_to_sig der sig) _ e₂ in
      let (canonical, tested, e₄) = >>=-eq-ok (check_canonical (converted.1)) _ e₃ in
      let size' = length-ecdsa_der_to_sig der sig ran ∙ size in
      elim (Bool-cases canonical) [
        | inl good ↦
            subst (IsReply signer key hash) (ok-injective (then_of _ _ _ good e₄)) (record {
              nonce = drawn.0;
              recovery = parity_byte der;
              sig = converted.1;
              parts = refl;
              parity =
                  parity_byte-mark_parity (signed.0) (signed.1) (tagged key hash (drawn.0)) marked;
              der = der;
              marked = marked;
              old = sig;
              found = converted.0;
              converted = ran;
              size = size';
              canonical = tested ∙ ap ok good;
            })
        | inr bad ↦
            sign_tries-IsReply fuel none key hash (converted.1) (drawn.1) der size'
              (else_of _ _ _ bad e₄)
      ]

  -- Where the SDK's signatures start with the tag of a DER sequence, a signing that returns gives 65
  -- bytes for a signature of the hash by the key of the path with some nonce: the recovery byte, 32
  -- if the parity of that signature is odd and 31 if not, and the 64 bytes that `ecdsa_der_to_sig`
  -- writes for the marked DER form, which `check_canonical` accepts.
  pub sign_hash_and_set_result-IsReply :
      (fuel : ℕ) (g : Generator) (sig rnd path hash : List ℕ) {reply : List ℕ}
      → length sig ≡ 64
      → sign_hash_and_set_result signer fuel g sig rnd path hash ≡ ok reply
      → IsReply signer (signer.derive path) hash reply
  unfolding sign_hash_and_set_result
  sign_hash_and_set_result-IsReply fuel g sig rnd path hash size e =
      sign_tries-IsReply fuel _ _ hash sig g rnd size e
