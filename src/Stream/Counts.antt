-- ===== src/Stream/Counts.antt =====
-- How many arguments a known action shows: the `process...` functions of src/eos_stream.c that
-- `processActionData` calls. Each is given the action data buffer and the length of the data, and
-- returns the new `argumentCount`. Lengths are uint32_t and wrap.
pub mod Auth
pub mod Stops
use ledger_app.Base.{
  ℕ, ◌+◌, List, Bool, ltb, ◌==◌, if◌then◌else◌, drop, Outcome, ok, halted, ◌>>=◌, read_at,
  read_bytes, le_value, u8, sub32,
}
use ledger_app.Types.Varint.{unpack_variant32}
use ledger_app.Stream.Known.{
  is_swapto, is_no_operation, is_transfer, is_system, delegatebw_action, undelegatebw_action,
  refund_action, voteproducer_action, buyram_action, buyram_actionbytes, sellram_action,
  update_auth_action, delete_auth_action, link_auth_action, unlink_auth_action, new_account_action,
}
use Auth.{process_eosio_update_auth, process_eosio_new_account_action}

unfoldable pub process_token_transfer : List ℕ → ℕ → Outcome ℕ
process_token_transfer buffer len = do
  (memo_length, read) ← unpack_variant32 (drop 32 buffer) (sub32 len 32)
  ok (if ltb 0 memo_length then 4 else 3)

abbrev pub process_no_operation : ℕ
process_no_operation = 1

pub process_eosio_delegate : List ℕ → Outcome ℕ
process_eosio_delegate buffer = do flag ← read_at buffer 48; ok (if flag == 0 then 4 else 5)

abbrev pub process_eosio_undelegate : ℕ
process_eosio_undelegate = 4

abbrev pub process_eosio_refund : ℕ
process_eosio_refund = 1

abbrev pub process_eosio_buy_ram : ℕ
process_eosio_buy_ram = 3

abbrev pub process_eosio_sell_ram : ℕ
process_eosio_sell_ram = 2

-- The number of producers is read with the length of the whole data, and `argumentCount` is a
-- `char`, so the sum wraps.
pub process_eosio_vote_producer : List ℕ → ℕ → Outcome ℕ
process_eosio_vote_producer buffer len = do
  proxy ← read_bytes 8 (drop 8 buffer)
  if le_value proxy == 0
      then (unpack_variant32 (drop 16 buffer) len >>= λ p. ok (u8 (1 + p.0)))
      else ok 2

abbrev pub process_eosio_delete_auth : ℕ
process_eosio_delete_auth = 2

abbrev pub process_eosio_link_auth : ℕ
process_eosio_link_auth = 4

abbrev pub process_eosio_unlink_auth : ℕ
process_eosio_unlink_auth = 3

-- The `switch` of `processActionData`; the default case asserts false.
pub process_system_action : ℕ → List ℕ → ℕ → Outcome ℕ
process_system_action action buffer len =
    if action == delegatebw_action
    then process_eosio_delegate buffer
    else if action == undelegatebw_action
    then ok process_eosio_undelegate
    else if action == refund_action
    then ok process_eosio_refund
    else if action == voteproducer_action
    then process_eosio_vote_producer buffer len
    else if action == buyram_action
    then ok process_eosio_buy_ram
    else if action == buyram_actionbytes
    then ok process_eosio_buy_ram
    else if action == sellram_action
    then ok process_eosio_sell_ram
    else if action == update_auth_action
    then process_eosio_update_auth buffer len
    else if action == delete_auth_action
    then ok process_eosio_delete_auth
    else if action == link_auth_action
    then ok process_eosio_link_auth
    else if action == unlink_auth_action
    then ok process_eosio_unlink_auth
    else if action == new_account_action
    then process_eosio_new_account_action buffer len
    else halted

-- The choice by contract and action. Where no test passes, the count `old` stays.
unfoldable pub argument_count : ℕ → ℕ → List ℕ → ℕ → ℕ → Outcome ℕ
argument_count contract action buffer len old =
    if is_swapto contract action
    then process_token_transfer buffer len
    else if is_no_operation contract action
    then ok process_no_operation
    else if is_transfer contract action
    then process_token_transfer buffer len
    else if is_system contract
    then process_system_action action buffer len
    else ok old
