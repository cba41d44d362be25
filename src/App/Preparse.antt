-- ===== src/App/Preparse.antt =====
-- `preparseTransaction` of src/eos_stream.c: it counts the state-neutral actions of a command.
pub mod Stops
use ledger_app.Base.{
  ℕ, zero, suc, ◌+◌, ◌*◌, List, ◌==◌, if◌then◌else◌, Outcome, ok, stuck, ◌>>=◌, read_bytes,
  write_bytes,
}
use ledger_app.Types.Name.{name_to_string}
use ledger_app.Stream.Context.{
  Sha256, Context, Content, contract_value, action_value, init_tx_context,
}
use ledger_app.Stream.Machine.{
  stream_fault, stream_processing, stream_action_ready, stream_confirm_processing, stream_finished,
  stream_not_allowed, process_tx_internal,
}
use ledger_app.App.StateNeutral.{is_state_neutral_action}

-- What the stack holds where the function's locals lie: they are not initialised.
pub record StackBytes : Type 0 where
  pub owner_bytes : List ℕ
  pub action_bytes : List ℕ

-- `contractOwner` and `contractActionName`: the name's characters, and behind them what was there.
pub local_name : List ℕ → ℕ → Outcome (List ℕ)
local_name bytes value = do text ← name_to_string value 14; write_bytes 0 text bytes

-- The count goes up by 1 for a state-neutral action, where `verbose` is 0.
pub count_action : {H : Type 0} → StackBytes → ℕ → Context H → Outcome ℕ
count_action stack verbose c = do
  owner ← local_name stack.owner_bytes (contract_value c)
  action ← local_name stack.action_bytes (action_value c)
  if verbose == 0
      then (is_state_neutral_action owner action c.content.no_data >>= λ neutral.
          ok (if neutral then 1 else 0))
      else ok 0

-- The `for` loop, on fuel. An action is counted, and the loop goes on; a status that ends the
-- parse ends it; for the two others it goes on while the command has bytes.
unfoldable pub preparse_loop :
    {H : Type 0} → Sha256 H → StackBytes → ℕ → ℕ → ℕ → Context H → Outcome ℕ
preparse_loop sha stack verbose zero count c = stuck
preparse_loop sha stack verbose (suc fuel) count c = process_tx_internal sha c >>= λ p.
    let d = p.1 in
    let rest = preparse_loop sha stack verbose fuel count d in
    let wait = if d.command_length == 0 then ok count else rest in
    elim (p.0) [
      | stream_action_ready ↦
          count_action stack verbose d >>= λ n. preparse_loop sha stack verbose fuel (count + n) d
      | stream_processing ↦ wait
      | stream_confirm_processing ↦ wait
      | stream_finished ↦ ok count
      | stream_fault ↦ ok count
      | stream_not_allowed ↦ ok count
    ]

-- The parser runs on a copy of the buffer, with unknown actions allowed. `content` is the local
-- `localContent`.
unfoldable pub preparse_transaction :
    {H : Type 0} → Sha256 H → StackBytes → Content → List ℕ → ℕ → ℕ → Outcome ℕ
preparse_transaction sha stack content work_buffer scratch_length verbose =
    read_bytes scratch_length work_buffer >>= λ scratch.
    let c = init_tx_context sha content 1 verbose in
    preparse_loop sha stack verbose (2 * scratch_length + 1) 0
      (record c { work_buffer = scratch; command_length = scratch_length })
