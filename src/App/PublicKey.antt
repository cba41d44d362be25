-- ===== src/App/PublicKey.antt =====
-- `handleGetPublicKey`, `get_public_key_and_set_result` and the user's answers to the address in
-- src/main.c.
pub mod Laws
use ledger_app.Base.{
  ℕ, zero, suc, ◌+◌, List, [], ◌∷◌, ◌++◌, Bool, true, false, not, ◌||◌, ◌&&◌, ltb, ◌==◌,
  if◌then◌else◌, length, take, drop, Outcome, ok, ◌>>=◌, read_at,
}
use ledger_app.Types.Key.{Platform, public_key_to_wif}
use ledger_app.App.Sign.{App, read_path}
use ledger_app.App.Device.{Device, PublicKeyContext, io_exchange_with_code}

-- What a handler leaves to its caller: a status word with the reply's bytes, or IO_ASYNCH_REPLY, by
-- which the reply is sent from the user's answer.
pub data Answer : Type 0 where
  answer : ℕ → List ℕ → Answer
  asynch : Answer

-- What the SDK computes, and how the memory of the union `tmpCtx` reads. `derive` gives the private
-- key of a path with its chain code, `public_key` the 65 bytes of `W`. `overlay` is the path that is
-- read in `transactionContext` once `publicKeyContext` was written over the path that was there;
-- where the fields lie is up to the SDK's type of a public key and to the compiler. `underlay` is the
-- public key that is read once a signing command wrote its path over it.
pub record KeySource : Type 0 where
  pub platform : Platform
  pub derive : List ℕ → List ℕ × List ℕ
  pub public_key : List ℕ → List ℕ
  pub overlay : PublicKeyContext → ℕ × List ℕ → ℕ × List ℕ
  pub underlay : ℕ × List ℕ → PublicKeyContext → PublicKeyContext

-- The characters in front of the terminator.
pub c_string : List ℕ → List ℕ
c_string [] = []
c_string (c ∷ memory) = let rest = c_string memory in if c == 0 then [] else c ∷ rest

pub get_public_key_and_set_result : PublicKeyContext → List ℕ
get_public_key_and_set_result k =
    let text = c_string k.address_text in
    65 ∷ (k.public_key ++ (length text ∷ (text ++ (if k.get_chaincode then k.chain_code else []))))

-- The key of the path: the chain code is written where it is asked for.
unfoldable pub public_key_context_of :
    KeySource → List ℕ → ℕ → PublicKeyContext → Outcome PublicKeyContext
public_key_context_of source path p2 old =
    let derived = source.derive path in
    let w = source.public_key (derived.0) in
    public_key_to_wif source.platform w 65 60 >>= λ wif. ok (record {
      public_key = w;
      address_text = wif.0;
      chain_code = if p2 == 1 then derived.1 else old.chain_code;
      get_chaincode = p2 == 1;
    })

module _ {H : Type 0} (source : KeySource) where
  -- The writes into `publicKeyContext`, and what they leave of the other context.
  unfoldable pub write_public_key : PublicKeyContext → Device H → Device H
  write_public_key k d =
      let path = source.overlay k (d.app.path_length, d.app.bip32_path) in
      record d {
        public_key_context = k;
        app = record (d.app) { path_length = path.0; bip32_path = path.1 };
      }

  -- P1_NON_CONFIRM is 0 and P1_CONFIRM is 1; P2_NO_CHAINCODE is 0 and P2_CHAINCODE is 1. `flow` is
  -- the interface's `ui_display_public_key_flow`.
  unfoldable pub handle_get_public_key :
      (Device H → Device H) → ℕ → ℕ → List ℕ → Device H → Outcome (Answer × Device H)
  handle_get_public_key flow p1 p2 buffer d = read_at buffer 0 >>= λ path_length.
      if ltb path_length 1 || ltb 10 path_length
      then ok (answer 0x6A80 [], d)
      else if not (p1 == 1) && not (p1 == 0)
      then ok (answer 0x6B00 [], d)
      else if not (p2 == 1) && not (p2 == 0)
      then ok (answer 0x6B00 [], d)
      else (read_path path_length (drop 1 buffer) >>= λ path.
          public_key_context_of source (path.0) p2 d.public_key_context >>= λ k.
          let written = write_public_key k d in
          ok (
            if p1 == 0
            then (answer 0x9000 (get_public_key_and_set_result k), written)
            else (asynch, flow written)))

  -- `done` is the interface's `ui_display_public_key_done`.
  unfoldable pub user_action_address_ok : (Bool → Device H → Device H) → Device H → Device H
  user_action_address_ok done d =
      done true
        (io_exchange_with_code 0x9000 (get_public_key_and_set_result d.public_key_context) d)

  unfoldable pub user_action_address_cancel : (Bool → Device H → Device H) → Device H → Device H
  user_action_address_cancel done d = done false (io_exchange_with_code 0x6985 [] d)
