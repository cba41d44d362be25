-- ===== src/Tests/Replies.antt =====
-- The replies: symbols, nonces, signatures and public keys.
use ledger_app.Base.{
  ℕ, ◌+◌, ◌*◌, ◌<◌, ◌≤◌, ◌≡◌, refl, arith, true, false, List, [], ◌∷◌, ◌++◌, replicate, take, ok,
  length, le_value, All, some, Outcome,
}
use ledger_app.Types.Asset.{symbol_to_string, symbol_precision}
use ledger_app.Types.Symbol.{is_valid_symbol, symbol_length, valid_loop, blank_loop}
use ledger_app.Types.Symbol.Laws.{IsUpper, is_valid_symbol-symbol_to_string}
use ledger_app.Types.Key.{public_key_to_wif}
use ledger_app.Utils.Nonce.{
  Hmac, Generator, below_somewhere, next_value, next_key, set_up, fill_loop, prepare, draw,
  draw_loop, rng_rfc6979,
}
use ledger_app.Utils.Nonce.Laws.{
  be_value, below_somewhere-lt, below_somewhere_above, rng_rfc6979_lem,
}
use ledger_app.Utils.Signature.{ecdsa_der_to_sig, der_component, der_integer, check_canonical}
use ledger_app.Types.Key.{compressed_public_key_to_wif}
use ledger_app.Utils.Base58.{b58enc, add_bytes, add_carry, count_zeros}
use ledger_app.App.Sign.{read_path}
use ledger_app.App.Device.{Device, PublicKeyContext}
use ledger_app.App.PublicKey.{
  answer, KeySource, get_public_key_and_set_result, write_public_key, public_key_context_of,
  handle_get_public_key,
}
use ledger_app.App.PublicKey.Laws.{IsKeyReply, handle_get_public_key_reads}
use ledger_app.Tests.Toy.{fresh}
use ledger_app.App.HashSigner.{
  Signer, secp256k1_n, mark_parity, sign_tries, sign_hash_and_set_result,
}
use ledger_app.App.HashSigner.Laws.{IsReply, sign_hash_and_set_result-IsReply}

-- Two letters and the precision 4.
is_valid_symbol-symbol_to_string_example :
    (text : List ℕ) × (symbol_to_string (4 + 256 * (65 + 256 * 66)) 8 ≡ ok text)
    × (symbol_precision (4 + 256 * (65 + 256 * 66)) + 256 * le_value text
        ≡ 4 + 256 * (65 + 256 * 66))
    × All IsUpper text
    × (symbol_length (4 + 256 * (65 + 256 * 66)) ≡ length text)
    × (1 ≤ length text)
    × (length text ≤ 7)
unfolding is_valid_symbol valid_loop blank_loop
is_valid_symbol-symbol_to_string_example =
    is_valid_symbol-symbol_to_string (4 + 256 * (65 + 256 * 66)) 8 (omega arith) refl (omega arith)

below_somewhere-lt_example : below_somewhere 2 (1 ∷ 200 ∷ 9 ∷ []) (2 ∷ 0 ∷ []) ≡ ok true
below_somewhere-lt_example =
    below_somewhere-lt (1 ∷ 200 ∷ []) (2 ∷ 0 ∷ []) (9 ∷ []) refl (omega arith, (omega arith, tt))
      (omega arith)

below_somewhere_above_example :
    (be_value (1 ∷ 1 ∷ []) < be_value (2 ∷ 0 ∷ []))
    × (below_somewhere 2 (2 ∷ 0 ∷ []) (1 ∷ 1 ∷ []) ≡ ok true)
below_somewhere_above_example =
    below_somewhere_above [] [] [] 2 1 0 1 (omega arith) (omega arith) refl (omega arith, tt)

-- An HMAC that gives 32 times the same byte.
abbrev hmac : Hmac
hmac = record { mac = λ key message. replicate 32 5 }

abbrev zeros : Generator
zeros = record { key = replicate 32 0; value = replicate 33 0 }

abbrev drawn : Generator
drawn = record { key = replicate 32 5; value = replicate 32 5 ++ (1 ∷ []) }

nonce_run :
    rng_rfc6979 hmac 1
      (replicate 32 0)
      (replicate 32 9)
      (some (replicate 32 3))
      secp256k1_n
      32
      zeros
    ≡ ok (replicate 32 5, drawn)
unfolding rng_rfc6979 draw_loop draw prepare set_up next_key next_value fill_loop below_somewhere
nonce_run = refl

rng_rfc6979_lem_example :
    (take 32 (replicate 32 5) ≡ take 32 drawn.value)
    × (below_somewhere 32 drawn.value secp256k1_n ≡ ok true)
rng_rfc6979_lem_example =
    rng_rfc6979_lem hmac 1 (replicate 32 0) (replicate 32 9) (some (replicate 32 3)) secp256k1_n
      zeros nonce_run

-- A signature of two numbers of 32 bytes.
abbrev signer : Signer
signer = record {
  derive = λ path. replicate 32 3;
  ecdsa_sign = λ key hash nonce.
      (0x30 ∷ 68 ∷ 2 ∷ 32 ∷ (replicate 32 17 ++ (2 ∷ 32 ∷ replicate 32 18)), true);
  hmac = hmac;
}

abbrev sent : List ℕ
sent = 32 ∷ (replicate 32 17 ++ replicate 32 18)

signed :
    sign_hash_and_set_result signer 2 zeros
      (replicate 64 0)
      (replicate 32 0)
      (0 ∷ [])
      (replicate 32 9)
    ≡ ok sent
unfolding sign_hash_and_set_result sign_tries mark_parity ecdsa_der_to_sig der_component der_integer
    check_canonical rng_rfc6979 draw_loop draw prepare set_up next_key next_value fill_loop
    below_somewhere
signed = refl

sign_hash_and_set_result-IsReply_example : IsReply signer (replicate 32 3) (replicate 32 9) sent
sign_hash_and_set_result-IsReply_example =
    sign_hash_and_set_result-IsReply signer (λ key hash nonce. refl) 2 zeros (replicate 64 0)
      (replicate 32 0) (0 ∷ []) (replicate 32 9) refl signed

-- Keys whose text is short to compute: nearly all bytes are zero.
abbrev source : KeySource
source = record {
  platform = record { ripemd160 = λ bytes. replicate 20 0; format_int = λ n. [] };
  derive = λ path. (replicate 32 3, replicate 32 8);
  public_key = λ key. 4 ∷ replicate 64 0;
  overlay = λ k path. (2, 7 ∷ 8 ∷ []);
  underlay = λ path k. k;
}

-- The path `m / 44`.
abbrev command : List ℕ
command = 1 ∷ 0 ∷ 0 ∷ 0 ∷ 44 ∷ []

abbrev blank_key : PublicKeyContext
blank_key = record {
  public_key = replicate 65 0;
  address_text = replicate 60 0;
  chain_code = replicate 32 0;
  get_chaincode = false;
}

abbrev key_of : Outcome PublicKeyContext → PublicKeyContext
key_of (ok k) = k
key_of _ = blank_key

abbrev key : PublicKeyContext
key = key_of (public_key_context_of source (44 ∷ []) 1 blank_key)

abbrev device : Device (List ℕ)
device = record {
  app = record {
    storage = record { unknown_action_allowed = 0; verbose = 0; initialized = 1 };
    tx_processing_ctx = fresh;
    path_length = 1;
    bip32_path = 0 ∷ [];
    count_state_neutral_actions = 0;
  };
  public_key_context = blank_key;
  effective_action_index = 0;
  ux_step = 0;
  ux_step_count = 0;
  events = [];
}

abbrev key_reply : List ℕ
key_reply = get_public_key_and_set_result key

abbrev after_key : Device (List ℕ)
after_key = write_public_key source key device

key_run :
    handle_get_public_key source (λ d. d) 0 1 command device
    ≡ ok (answer 0x9000 key_reply, after_key)
unfolding handle_get_public_key read_path public_key_context_of public_key_to_wif
    compressed_public_key_to_wif b58enc add_bytes add_carry count_zeros
key_run = refl

handle_get_public_key_reads_example : IsKeyReply source 1 command key_reply
handle_get_public_key_reads_example =
    handle_get_public_key_reads source (λ d. d) 1 command device after_key (λ k. refl) key_run
