-- ===== src/Stream/Counts/Stops.antt =====
-- The counting of arguments uses no fuel.
use ledger_app.Base.{ℕ, List, [], ◌∷◌, ◌+◌}
use ledger_app.Base.Ends.{Ends, ends, ends_overrun, ends_ok, Ends-if}
use ledger_app.Types.Varint.{unpack_loop, unpack_variant32}
use ledger_app.Stream.Counts.{
  process_token_transfer, process_eosio_delegate, process_eosio_vote_producer,
  process_system_action, argument_count,
}
use ledger_app.Stream.Counts.Auth.{
  skip_list, process_eosio_update_auth, check_authority, process_eosio_new_account_action,
}

pub Ends-unpack_loop : (bytes : List ℕ) (len i v by : ℕ) → Ends (unpack_loop bytes len i v by)
unfolding unpack_loop
Ends-unpack_loop [] len i v by = ends_overrun
Ends-unpack_loop (b ∷ rest) len i v by =
    Ends-if _ (Ends-unpack_loop rest len (i + 1) _ (by + 7)) (ends_ok _)

pub Ends-unpack : (bytes : List ℕ) (len : ℕ) → Ends (unpack_variant32 bytes len)
unfolding unpack_variant32
Ends-unpack bytes len = Ends-unpack_loop bytes len 0 0 0

Ends-skip_list :
    (step count : ℕ) (buffer : List ℕ) (len : ℕ) → Ends (skip_list step count buffer len)
unfolding skip_list
Ends-skip_list step count buffer len = search (ends, Ends-unpack) depth 30

Ends-update_auth : (buffer : List ℕ) (len : ℕ) → Ends (process_eosio_update_auth buffer len)
unfolding process_eosio_update_auth
Ends-update_auth buffer len = search (ends, Ends-unpack, Ends-skip_list) depth 30

Ends-check_authority : (buffer : List ℕ) (len : ℕ) → Ends (check_authority buffer len)
unfolding check_authority
Ends-check_authority buffer len = search (ends, Ends-unpack) depth 40

Ends-new_account : (buffer : List ℕ) (len : ℕ) → Ends (process_eosio_new_account_action buffer len)
unfolding process_eosio_new_account_action
Ends-new_account buffer len = search (ends, Ends-check_authority) depth 40

Ends-token_transfer : (buffer : List ℕ) (len : ℕ) → Ends (process_token_transfer buffer len)
unfolding process_token_transfer
Ends-token_transfer buffer len = search (ends, Ends-unpack) depth 40

Ends-system_action :
    (action : ℕ) (buffer : List ℕ) (len : ℕ) → Ends (process_system_action action buffer len)
unfolding process_system_action process_eosio_delegate process_eosio_vote_producer
Ends-system_action action buffer len =
    search (ends, Ends-unpack, Ends-update_auth, Ends-new_account) depth 40

pub Ends-argument_count :
    (contract action : ℕ) (buffer : List ℕ) (len old : ℕ)
    → Ends (argument_count contract action buffer len old)
unfolding argument_count
Ends-argument_count contract action buffer len old =
    search (ends, Ends-token_transfer, Ends-system_action) depth 40
