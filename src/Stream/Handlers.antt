-- ===== src/Stream/Handlers.antt =====
-- The field handlers of src/eos_stream.c, one function each.
pub mod Finishes
pub mod Keeps
pub mod Chunks
pub mod Split
pub mod Joins
pub mod Stops
pub mod Ready
pub mod Bounds
pub mod Names
use ledger_app.Base.{
  ℕ, ◌+◌, true, false, List, ltb, leb, ◌==◌, if◌then◌else◌, replicate, Outcome, ok, ◌>>=◌, ◌>>◌,
  ledger_assert, read_bytes, write_bytes, le_value, u32,
}
use ledger_app.Types.Varint.{unpack_variant32}
use ledger_app.Types.Name.{name_to_string}
use ledger_app.Stream.Context.{
  Sha256, Context, contract_value, action_value, next_state, tlv_action_account,
  tlv_tx_extension_list_size, tlv_authorization_actor,
}
use ledger_app.Stream.Fields.{
  take_chunk, at_end, leave_field, fits_command, fits_size_buffer, hash_action_data, chunk_length,
}
use ledger_app.Stream.Counts.{argument_count}

-- A name in an array of 14 characters that was cleared before.
unfoldable pub shown_name : ℕ → Outcome (List ℕ)
shown_name value = do s ← name_to_string value 14; write_bytes 0 s (replicate 14 0)

module _ {H : Type 0} where
  -- What the handlers do with a chunk.
  unfoldable pub store_nothing : ℕ → List ℕ → Context H → Outcome (Context H)
  store_nothing n bytes c = do fits_command n c; ok c

  unfoldable pub store_size : ℕ → List ℕ → Context H → Outcome (Context H)
  store_size n bytes c = do
    fits_command n c
    fits_size_buffer n c
    array ← write_bytes c.current_field_pos bytes c.size_buffer
    ok (record c { size_buffer = array })

  -- The write into `contractName` is checked against the size of `sizeBuffer`.
  unfoldable pub store_account : ℕ → List ℕ → Context H → Outcome (Context H)
  store_account n bytes c = do
    fits_command n c
    fits_size_buffer n c
    array ← write_bytes c.current_field_pos bytes c.contract_name
    ok (record c { contract_name = array })

  unfoldable pub store_action : ℕ → List ℕ → Context H → Outcome (Context H)
  store_action n bytes c = do
    fits_command n c
    fits_size_buffer n c
    array ← write_bytes c.current_field_pos bytes c.contract_action_name
    ok (record c { contract_action_name = array })

  unfoldable pub store_data : ℕ → List ℕ → Context H → Outcome (Context H)
  store_data n bytes c = do
    array ← write_bytes c.current_field_pos bytes c.action_data_buffer
    ok (record c { action_data_buffer = array })

  -- The value that a size field has at its end, and the buffer reset.
  unfoldable pub read_size : Context H → Outcome ℕ
  read_size c = do
    (value, read) ← unpack_variant32 c.size_buffer (u32 (c.current_field_pos + 1))
    ok value

  abbrev pub reset_size_buffer : Context H → Context H
  reset_size_buffer c = record c { size_buffer = replicate 12 0 }

  -- The local `name_t` of the two authorization handlers: zero at each call, with the bytes of
  -- this call's chunk written at the field's position.
  unfoldable pub field_name : Context H → Outcome (List ℕ)
  field_name c =
      if ltb c.current_field_pos c.current_field_length
      then (let n = chunk_length c in
          fits_command n c >>= λ _. fits_size_buffer n c >>= λ _.
          read_bytes n c.work_buffer >>= λ bytes.
          write_bytes c.current_field_pos bytes (replicate 8 0))
      else ok (replicate 8 0)

  -- `++currentActionIndex < currentActionNumber`: on to the next action, or behind the actions.
  abbrev pub next_action : Context H → Context H
  next_action c =
      let index = u32 (c.current_action_index + 1) in
      record c {
        current_action_index = index;
        state =
            if ltb index c.current_action_number
            then tlv_action_account
            else tlv_tx_extension_list_size;
      }

  -- What the handlers do once all bytes of the field are there.
  unfoldable pub finish_field : Context H → Outcome (Context H)
  finish_field c = ok (leave_field c)

  unfoldable pub finish_zero_size : Context H → Outcome (Context H)
  finish_zero_size c = do
    value ← read_size c
    ledger_assert (value == 0)
    ok (leave_field (reset_size_buffer c))

  unfoldable pub finish_action_list_size : Context H → Outcome (Context H)
  finish_action_list_size c = do
    number ← read_size c
    let d = leave_field (reset_size_buffer c)
    let confirm = if ltb 1 number then true else d.confirm_processing
    ok (record d {
      current_action_number = number;
      current_action_index = 0;
      confirm_processing = confirm;
    })

  unfoldable pub finish_action_account : Context H → Outcome (Context H)
  finish_action_account c = do
    name ← shown_name (contract_value c)
    ok (record (leave_field c) { content = record (c.content) { contract = name } })

  unfoldable pub finish_action_name : Context H → Outcome (Context H)
  finish_action_name c = do
    name ← shown_name (action_value c)
    ok (record (leave_field c) { content = record (c.content) { action = name } })

  unfoldable pub finish_authorization_list_size : Context H → Outcome (Context H)
  finish_authorization_list_size c = do
    number ← read_size c
    ok (record (leave_field (reset_size_buffer c)) {
      current_authorization_number = number;
      current_authorization_index = 0;
    })

  unfoldable pub finish_authorization_account : List ℕ → Context H → Outcome (Context H)
  finish_authorization_account name c = do
    text ← shown_name (le_value name)
    ok (record (leave_field c) { current_authorization_name = text })

  unfoldable pub finish_authorization_permission : List ℕ → Context H → Outcome (Context H)
  finish_authorization_permission name c = do
    text ← shown_name (le_value name)
    let index = u32 (c.current_authorization_index + 1)
    let last = index == c.current_authorization_number
    ok (record (reset_size_buffer c) {
      current_authorization_index = index;
      state = if last then next_state c.state else tlv_authorization_actor;
      processing_field = false;
      current_authorization_permission = text;
    })

  -- The end of a known action's data.
  unfoldable pub finish_action_data : Context H → Outcome (Context H)
  finish_action_data c = do
    count ←
        argument_count (contract_value c) (action_value c) c.action_data_buffer
          c.current_field_length c.content.argument_count
    ok (record (next_action c) {
      current_action_data_buffer_length = c.current_field_length;
      content = record (c.content) { argument_count = count };
      processing_field = false;
      action_ready = true;
    })

module _ {H : Type 0} (sha : Sha256 H) where
  unfoldable pub process_field : Context H → Outcome (Context H)
  process_field c = do d ← take_chunk sha store_nothing c; at_end finish_field d

  unfoldable pub process_zero_size_field : Context H → Outcome (Context H)
  process_zero_size_field c = do d ← take_chunk sha store_size c; at_end finish_zero_size d

  unfoldable pub process_action_list_size_field : Context H → Outcome (Context H)
  process_action_list_size_field c = do
    d ← take_chunk sha store_size c
    at_end finish_action_list_size d

  unfoldable pub process_action_account : Context H → Outcome (Context H)
  process_action_account c = do d ← take_chunk sha store_account c; at_end finish_action_account d

  unfoldable pub process_action_name : Context H → Outcome (Context H)
  process_action_name c = do d ← take_chunk sha store_action c; at_end finish_action_name d

  unfoldable pub process_authorization_list_size_field : Context H → Outcome (Context H)
  process_authorization_list_size_field c = do
    d ← take_chunk sha store_size c
    at_end finish_authorization_list_size d

  unfoldable pub process_authorization_account : Context H → Outcome (Context H)
  process_authorization_account c = do
    name ← field_name c
    d ← take_chunk sha store_nothing c
    at_end (finish_authorization_account name) d

  unfoldable pub process_authorization_permission : Context H → Outcome (Context H)
  process_authorization_permission c = do
    name ← field_name c
    d ← take_chunk sha store_nothing c
    at_end (finish_authorization_permission name) d

  -- Both hashes take the chunk.
  pub store_unknown : ℕ → List ℕ → Context H → Outcome (Context H)
  store_unknown n bytes c = do fits_command n c; ok (hash_action_data sha bytes c)

  pub process_unknown_action_data_size : Context H → Outcome (Context H)
  process_unknown_action_data_size c = do d ← take_chunk sha store_unknown c; at_end finish_field d

  -- `processUnknownAction`: the checksum of the data, and how many screens show it.
  pub process_unknown_action : Context H → Context H
  process_unknown_action c = record c {
    data_checksum = sha.digest c.data_sha256;
    content = record (c.content) { argument_count = if c.is_verbose == 1 then 3 else 1 };
  }

  pub finish_unknown_action_data : Context H → Outcome (Context H)
  finish_unknown_action_data c =
      let d = process_unknown_action c in
      ok (record (next_action d) {
        current_action_data_buffer_length = c.current_field_length;
        processing_field = false;
        action_ready = true;
        data_sha256 = sha.init;
      })

  pub process_unknown_action_data : Context H → Outcome (Context H)
  process_unknown_action_data c = do
    d ← take_chunk sha store_unknown c
    at_end finish_unknown_action_data d

  -- `sizeof(actionDataBuffer) - 1` is 511.
  unfoldable pub process_action_data : Context H → Outcome (Context H)
  process_action_data c = do
    ledger_assert (leb c.current_field_length 511)
    d ← take_chunk sha store_data c
    at_end finish_action_data d
