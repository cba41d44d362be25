-- ===== src/Stream/Machine.antt =====
-- `readTxByte`, `processTxInternal` and `parseTx` of src/eos_stream.c.
pub mod Header
pub mod Scans
pub mod Hashes
pub mod Rounds
pub mod Stops
pub mod Faults
pub mod Done
pub mod Vetted
pub mod Progress
use ledger_app.Base.{
  ℕ, zero, suc, ◌+◌, ◌-◌, true, false, not, ◌||◌, List, leb, ◌==◌, if◌then◌else◌, drop, Outcome, ok,
  stuck, ◌>>=◌, ◌>>◌, ledger_assert, read_at, write_bytes, ◌∷◌, [],
}
use ledger_app.Utils.Tlv.{invalid, incomplete, decoded, tlv_try_decode}
use ledger_app.Stream.Context.{
  Sha256, Context, TxState, is_done, tlv_none, tlv_chain_id, tlv_header_expiration,
  tlv_header_ref_block_num, tlv_header_ref_block_prefix, tlv_header_max_net_usage_words,
  tlv_header_max_cpu_usage_ms, tlv_header_delay_sec, tlv_cfa_list_size, tlv_action_list_size,
  tlv_action_account, tlv_action_name, tlv_authorization_list_size, tlv_authorization_actor,
  tlv_authorization_permission, tlv_action_data_size, tlv_action_data, tlv_tx_extension_list_size,
  tlv_context_free_data, tlv_done,
}
use ledger_app.Stream.Known.{is_known_action}
use ledger_app.Stream.Handlers.{
  process_field, process_zero_size_field, process_action_list_size_field, process_action_account,
  process_action_name, process_authorization_list_size_field, process_authorization_account,
  process_authorization_permission, process_unknown_action_data_size, process_unknown_action_data,
  process_action_data,
}

-- `parserStatus_e`.
pub data ParserStatus : Type 0 where
  stream_fault stream_processing stream_action_ready stream_confirm_processing : ParserStatus
  stream_finished stream_not_allowed : ParserStatus

-- One round of the `for` loop returns a status, or goes round again.
pub data Round (H : Type 0) : Type 0 where
  return : ParserStatus → Context H → Round H
  again : Context H → Round H

-- How the inner `while` loop ends: a fault, no more bytes, or a decoded length.
pub data Decoding (H : Type 0) : Type 0 where
  faulty : Context H → Decoding H
  starved : Context H → Decoding H
  field_found : Context H → Decoding H

module _ {H : Type 0} where
  unfoldable pub read_tx_byte : Context H → Outcome (ℕ × Context H)
  read_tx_byte c = do
    ledger_assert (leb 1 c.command_length)
    byte ← read_at c.work_buffer 0
    ok (
      byte,
      record c { work_buffer = drop 1 c.work_buffer; command_length = c.command_length - 1 },
    )

  -- `context->tlvBuffer[context->tlvBufferPos++] = readTxByte(context)`.
  unfoldable pub feed_tlv_byte : Context H → Outcome (Context H)
  feed_tlv_byte c = do
    (byte, d) ← read_tx_byte c
    buffer ← write_bytes d.tlv_buffer_pos (byte ∷ []) d.tlv_buffer
    ok (record d { tlv_buffer = buffer; tlv_buffer_pos = d.tlv_buffer_pos + 1 })

  -- The `while` loop. It takes a byte in each round, so the fuel `command_length + 1` is enough.
  unfoldable pub decode_loop : ℕ → Context H → Outcome (Decoding H)
  decode_loop zero c = stuck
  decode_loop (suc fuel) c =
      if c.command_length == 0
      then ok (starved c)
      else (feed_tlv_byte c >>= λ d. tlv_try_decode d.tlv_buffer d.tlv_buffer_pos >>= λ header.
          elim header [
            | invalid ↦ ok (faulty d)
            | decoded n ↦ ok (field_found (record d { current_field_length = n }))
            | incomplete ↦
                let rest = decode_loop fuel d in
                if d.tlv_buffer_pos == 5 then ok (faulty d) else rest
          ])

  -- What stands between the inner loop and the `switch`.
  unfoldable pub begin_field : Context H → Context H
  begin_field c = record c {
    current_field_pos = 0;
    tlv_buffer_pos = 0;
    processing_field = true;
    content = record (c.content) { no_data = if c.current_field_length == 0 then 1 else 0 };
  }

module _ {H : Type 0} (sha : Sha256 H) where
  -- The `switch` on the state: the status to return, or the context after the handler.
  unfoldable pub process_state : TxState → Context H → Outcome (Round H)
  process_state tlv_chain_id c = process_field sha c >>= λ d. ok (again d)
  process_state tlv_header_expiration c = process_field sha c >>= λ d. ok (again d)
  process_state tlv_header_ref_block_num c = process_field sha c >>= λ d. ok (again d)
  process_state tlv_header_ref_block_prefix c = process_field sha c >>= λ d. ok (again d)
  process_state tlv_header_max_cpu_usage_ms c = process_field sha c >>= λ d. ok (again d)
  process_state tlv_header_max_net_usage_words c = process_field sha c >>= λ d. ok (again d)
  process_state tlv_header_delay_sec c = process_field sha c >>= λ d. ok (again d)
  process_state tlv_cfa_list_size c = process_zero_size_field sha c >>= λ d. ok (again d)
  process_state tlv_action_list_size c = process_action_list_size_field sha c >>= λ d. ok (again d)
  process_state tlv_action_account c = process_action_account sha c >>= λ d. ok (again d)
  process_state tlv_action_name c = process_action_name sha c >>= λ d. ok (again d)
  process_state tlv_authorization_list_size c =
      process_authorization_list_size_field sha c >>= λ d. ok (again d)
  process_state tlv_authorization_actor c =
      process_authorization_account sha c >>= λ d. ok (again d)
  process_state tlv_authorization_permission c =
      process_authorization_permission sha c >>= λ d. ok (again d)
  process_state tlv_action_data_size c =
      if is_known_action c || not (c.unknown_action_allowed == 1)
      then (process_field sha c >>= λ d. ok (again d))
      else (process_unknown_action_data_size sha c >>= λ d. ok (again d))
  process_state tlv_action_data c =
      if is_known_action c
      then (process_action_data sha c >>= λ d. ok (again d))
      else if c.unknown_action_allowed == 1
      then (process_unknown_action_data sha c >>= λ d. ok (again d))
      else ok (return stream_not_allowed c)
  process_state tlv_tx_extension_list_size c = process_zero_size_field sha c >>= λ d. ok (again d)
  process_state tlv_context_free_data c = process_field sha c >>= λ d. ok (again d)
  process_state tlv_none c = ok (return stream_fault c)
  process_state tlv_done c = ok (return stream_fault c)

  -- Decode the header of the next field, and process the field.
  unfoldable pub next_field : Context H → Outcome (Round H)
  next_field c = decode_loop (suc c.command_length) c >>= λ decoding. elim decoding [
    | faulty d ↦ ok (return stream_fault d)
    | starved d ↦ ok (return stream_processing d)
    | field_found d ↦ process_state d.state (begin_field d)
  ]

  unfoldable pub round : Context H → Outcome (Round H)
  round c =
      if c.confirm_processing
      then ok (return stream_confirm_processing (record c { confirm_processing = false }))
      else if c.action_ready
      then ok (return stream_action_ready (record c { action_ready = false }))
      else if is_done c.state
      then ok (return stream_finished c)
      else if c.command_length == 0
      then ok (return stream_processing c)
      else if c.processing_field
      then process_state c.state c
      else next_field c

  -- The `for` loop of `processTxInternal`, on fuel.
  unfoldable pub process_tx_loop : ℕ → Context H → Outcome (ParserStatus × Context H)
  process_tx_loop zero c = stuck
  process_tx_loop (suc fuel) c = round c >>= λ r. elim r [
    | return status d ↦ ok (status, d)
    | again d ↦ process_tx_loop fuel d
  ]

  -- A round that goes on takes a byte of the command or returns in the next round.
  unfoldable pub process_tx_internal : Context H → Outcome (ParserStatus × Context H)
  process_tx_internal c = process_tx_loop (suc c.command_length) c

  -- Without DEBUG_APP: what is left of the last command goes first.
  unfoldable pub parse_tx : Context H → List ℕ → ℕ → Outcome (ParserStatus × Context H)
  parse_tx c buffer len =
      process_tx_internal (
        if c.command_length == 0
        then record c { work_buffer = buffer; command_length = len }
        else c)
