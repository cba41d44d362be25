-- ===== src/App/Sign.antt =====
-- `handleSign` and `user_action_sign_flow_ok` of src/main.c.
pub mod Laws
pub mod Hashes
use ledger_app.Base.{
  ℕ, zero, suc, ◌+◌, ◌-◌, ◌*◌, ◌^◌, List, [], ◌∷◌, Bool, true, false, ltb, ◌==◌, ◌||◌, not,
  if◌then◌else◌, drop, Outcome, ok, ◌>>=◌, read_at, u16,
}
use ledger_app.Stream.Context.{Sha256, Context, Content, TxState, tlv_none, init_tx_context}
use ledger_app.Stream.Machine.{
  stream_fault, stream_processing, stream_action_ready, stream_confirm_processing, stream_finished,
  stream_not_allowed, parse_tx,
}
use ledger_app.App.Config.{InternalStorage, is_unknown_action_allowed, is_verbose}
use ledger_app.App.Preparse.{StackBytes, preparse_transaction}

-- The globals that signing uses. `sha256` and `dataSha256` are those of the context.
pub record App (H : Type 0) : Type 0 where
  pub storage : InternalStorage
  pub tx_processing_ctx : Context H
  pub path_length : ℕ
  pub bip32_path : List ℕ
  pub count_state_neutral_actions : ℕ

-- What is done beside the change of the globals: a status word for the host, a flow on the screen
-- with the reply left to the user, or the signature of the hash that the context holds.
pub data Reply : Type 0 where
  status_word : ℕ → Reply
  show_multiple_actions show_single_action : Reply
  sign_hash : Reply
  abort_unknown_action : Reply

abbrev pub is_tlv_none : TxState → Bool
is_tlv_none tlv_none = true
is_tlv_none _ = false

-- The loop over the path's `n` indices, four bytes each, highest first; then the buffer behind.
unfoldable pub read_path : ℕ → List ℕ → Outcome (List ℕ × List ℕ)
read_path zero buffer = ok ([], buffer)
read_path (suc n) buffer = do
  b₀ ← read_at buffer 0
  b₁ ← read_at buffer 1
  b₂ ← read_at buffer 2
  b₃ ← read_at buffer 3
  (path, rest) ← read_path n (drop 4 buffer)
  ok ((b₀ * 2 ^ 24 + b₁ * 2 ^ 16 + b₂ * 2 ^ 8 + b₃) ∷ path, rest)

abbrev pub flag : Bool → ℕ
flag b = if b then 1 else 0

module _ {H : Type 0} (sha : Sha256 H) where
  -- From the call of `parseTx` on; `return` of a status word, SWO_SUCCESS being 0x9000.
  unfoldable pub feed : App H → List ℕ → ℕ → Outcome (Reply × App H)
  feed app work_buffer data_length =
      parse_tx sha app.tx_processing_ctx work_buffer data_length >>= λ p.
      let app' = record app { tx_processing_ctx = p.1 } in
      ok (
        elim (p.0) [
          | stream_confirm_processing ↦ show_multiple_actions
          | stream_action_ready ↦ show_single_action
          | stream_finished ↦ sign_hash
          | stream_processing ↦ status_word 0x9000
          | stream_fault ↦ status_word 0x6A80
          | stream_not_allowed ↦ abort_unknown_action
        ],
        app',
      )

  -- The tests between the two cases of `p1` and the call of `parseTx`.
  unfoldable pub feed_checked : App H → ℕ → List ℕ → ℕ → Outcome (Reply × App H)
  feed_checked app p2 work_buffer data_length =
      if not (p2 == 0)
      then ok (status_word 0x6B00, app)
      else if is_tlv_none app.tx_processing_ctx.state
      then ok (status_word 0x6985, app)
      else feed app work_buffer data_length

  -- The case of P1_FIRST: the path, the count of the state-neutral actions, and a new context. The
  -- data's length is a uint16_t and wraps where the path is longer than the data.
  unfoldable pub start_transaction :
      StackBytes → Content → App H → ℕ → List ℕ → ℕ → Outcome (Reply × App H)
  start_transaction stack content app p2 work_buffer data_length =
      read_at work_buffer 0 >>= λ path_length.
      let app₁ = record app { path_length = path_length } in
      if ltb path_length 1 || ltb 10 path_length
      then ok (status_word 0x6A80, app₁)
      else (read_path path_length (drop 1 work_buffer) >>= λ p.
          let length_left = u16 (data_length + 2 ^ 16 - (1 + 4 * path_length)) in
          let verbose = flag (is_verbose app.storage) in
          preparse_transaction sha stack content (p.1) length_left verbose >>= λ count.
          let c =
            init_tx_context sha app.tx_processing_ctx.content
              (flag (is_unknown_action_allowed app.storage)) verbose in
          feed_checked
            (record app₁ {
              bip32_path = p.0;
              count_state_neutral_actions = count;
              tx_processing_ctx = c;
            })
            p2 (p.1) length_left)

  -- P1_FIRST is 0x00 and P1_MORE is 0x80.
  unfoldable pub handle_sign :
      StackBytes → Content → App H → ℕ → ℕ → List ℕ → ℕ → Outcome (Reply × App H)
  handle_sign stack content app p1 p2 work_buffer data_length =
      if p1 == 0
      then start_transaction stack content app p2 work_buffer data_length
      else if not (p1 == 0x80)
      then ok (status_word 0x6B00, app)
      else feed_checked app p2 work_buffer data_length

  -- The user's consent: the parser goes on with what is left of the command.
  unfoldable pub user_action_sign_flow_ok : App H → Outcome (Reply × App H)
  user_action_sign_flow_ok app = parse_tx sha app.tx_processing_ctx [] 0 >>= λ p.
      let app' = record app { tx_processing_ctx = p.1 } in
      ok (
        elim (p.0) [
          | stream_action_ready ↦ show_single_action
          | stream_processing ↦ status_word 0x9000
          | stream_finished ↦ sign_hash
          | stream_not_allowed ↦ abort_unknown_action
          | stream_fault ↦ status_word 0x6A80
          | stream_confirm_processing ↦ status_word 0x6A80
        ],
        app',
      )
