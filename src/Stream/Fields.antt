-- ===== src/Stream/Fields.antt =====
-- What the field handlers of src/eos_stream.c share: the hashing, and the block that takes what
-- the command holds of the current field.
pub mod Shape
pub mod Split
use ledger_app.Base.{
  ℕ, ◌+◌, ◌-◌, false, List, ltb, leb, ◌==◌, if◌then◌else◌, drop, Outcome, ok, ◌>>=◌, read_bytes,
  ledger_assert, sub32,
}
use ledger_app.Stream.Context.{Sha256, Context, next_state}

-- `length`: the rest of the field, or of the command if that is less.
abbrev pub chunk_length : {H : Type 0} → Context H → ℕ
chunk_length c =
    let left = c.current_field_length - c.current_field_pos in
    if ltb c.command_length left then c.command_length else left

-- `workBuffer += length; commandLength -= length; currentFieldPos += length`, for a `length` that
-- is at most `commandLength`.
abbrev pub advance : {H : Type 0} → ℕ → Context H → Context H
advance n c = record c {
  work_buffer = drop n c.work_buffer;
  command_length = c.command_length - n;
  current_field_pos = c.current_field_pos + n;
}

abbrev pub hash_tx_data : {H : Type 0} → Sha256 H → List ℕ → Context H → Context H
hash_tx_data sha bytes c = record c { sha256 = sha.update c.sha256 bytes }

abbrev pub hash_action_data : {H : Type 0} → Sha256 H → List ℕ → Context H → Context H
hash_action_data sha bytes c = record c { data_sha256 = sha.update c.data_sha256 bytes }

-- `if (currentFieldPos < currentFieldLength) { ... }`, the block at the head of each handler.
-- `store` is what the handler does with the bytes beside hashing them for the transaction, its
-- assertions included; the pointers have not moved when it runs.
unfoldable pub take_chunk :
    {H : Type 0}
    → Sha256 H
    → (ℕ → List ℕ → Context H → Outcome (Context H))
    → Context H
    → Outcome (Context H)
take_chunk sha store c =
    if ltb c.current_field_pos c.current_field_length
    then (let n = chunk_length c in
        read_bytes n c.work_buffer >>= λ bytes.
        store n bytes (hash_tx_data sha bytes c) >>= λ c'. ok (advance n c'))
    else ok c

-- `if (currentFieldPos == currentFieldLength) { ... }`, the block at the end of each handler.
unfoldable pub at_end :
    {H : Type 0} → (Context H → Outcome (Context H)) → Context H → Outcome (Context H)
at_end finish c = if c.current_field_pos == c.current_field_length then finish c else ok c

-- `state++; processingField = false`.
abbrev pub leave_field : {H : Type 0} → Context H → Context H
leave_field c = record c { state = next_state c.state; processing_field = false }

-- The assertion that `length` is at most `commandLength`.
abbrev pub fits_command : {H : Type 0} → ℕ → Context H → Outcome (Unit {0})
fits_command n c = ledger_assert (leb n c.command_length)

-- The assertion that `length` is at most `sizeof(sizeBuffer) - currentFieldPos`, on uint32_t.
abbrev pub fits_size_buffer : {H : Type 0} → ℕ → Context H → Outcome (Unit {0})
fits_size_buffer n c = ledger_assert (leb n (sub32 12 c.current_field_pos))
