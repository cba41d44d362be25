-- ===== src/Parse/Print.antt =====
-- `printArgument` of src/eos_stream.c.
pub mod Laws
use ledger_app.Base.{ℕ, List, ◌==◌, if◌then◌else◌, Outcome, ok, ◌>>=◌}
use ledger_app.Stream.Context.{Context, Argument, contract_value, action_value}
use ledger_app.Stream.Known.{
  is_swapto, is_no_operation, is_transfer, is_system, delegatebw_action, undelegatebw_action,
  refund_action, voteproducer_action, buyram_action, buyram_actionbytes, sellram_action,
  update_auth_action, delete_auth_action, link_auth_action, unlink_auth_action, new_account_action,
}
use ledger_app.Types.Key.{Platform}
use ledger_app.Parse.Token.{parse_token_transfer, parse_unknown_action}
use ledger_app.Parse.Eosio.{
  parse_delegate, parse_undelegate, parse_no_operation, parse_refund, parse_buy_ram,
  parse_buy_ram_bytes, parse_sell_ram, parse_vote_producer, parse_delete_auth, parse_link_auth,
  parse_unlink_auth,
}
use ledger_app.Parse.Authority.{parse_new_account, parse_update_auth}

-- The checksum screens, if the settings allow unknown actions.
abbrev pub print_unknown : ℕ → List ℕ → ℕ → Argument → Outcome Argument
print_unknown allowed checksum arg_num arg =
    if allowed == 1 then parse_unknown_action checksum arg_num arg else ok arg

-- The `switch` on a system contract's action.
pub print_system : Platform → ℕ → List ℕ → ℕ → ℕ → Argument → Outcome Argument → Outcome Argument
print_system platform action buffer len arg_num arg unknown =
    if action == delegatebw_action
    then parse_delegate buffer len arg_num arg
    else if action == undelegatebw_action
    then parse_undelegate buffer len arg_num arg
    else if action == refund_action
    then parse_refund buffer len arg_num arg
    else if action == buyram_action
    then parse_buy_ram buffer len arg_num arg
    else if action == buyram_actionbytes
    then parse_buy_ram_bytes platform buffer len arg_num arg
    else if action == sellram_action
    then parse_sell_ram buffer len arg_num arg
    else if action == voteproducer_action
    then parse_vote_producer platform buffer len arg_num
    else if action == update_auth_action
    then parse_update_auth platform buffer len arg_num arg
    else if action == delete_auth_action
    then parse_delete_auth buffer len arg_num arg
    else if action == link_auth_action
    then parse_link_auth buffer len arg_num arg
    else if action == unlink_auth_action
    then parse_unlink_auth buffer len arg_num arg
    else if action == new_account_action
    then parse_new_account platform buffer len arg_num arg
    else unknown

pub print_action :
    Platform → ℕ → ℕ → List ℕ → ℕ → ℕ → Argument → Outcome Argument → Outcome Argument
print_action platform contract action buffer len arg_num arg unknown =
    if is_swapto contract action
    then parse_token_transfer buffer len arg_num arg
    else if is_no_operation contract action
    then parse_no_operation len
    else if is_transfer contract action
    then parse_token_transfer buffer len arg_num arg
    else if is_system contract
    then print_system platform action buffer len arg_num arg unknown
    else unknown

-- The context with `content->arg` written anew.
pub print_argument : {H : Type 0} → Platform → ℕ → Context H → Outcome (Context H)
print_argument platform arg_num c =
    let unknown = print_unknown c.unknown_action_allowed c.data_checksum arg_num c.content.arg in
    print_action platform (contract_value c) (action_value c) c.action_data_buffer
      c.current_action_data_buffer_length arg_num c.content.arg unknown
    >>= λ arg. ok (record c { content = record (c.content) { arg = arg } })
