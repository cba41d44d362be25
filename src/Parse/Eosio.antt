-- ===== src/Parse/Eosio.antt =====
-- src/eos_parse_eosio.c, without the two functions on whole authorities. Where no test on
-- `argNum` passes, `arg` stays.
use ledger_app.Base.{
  ℕ, ◌*◌, List, ◌++◌, not, ◌&&◌, ◌==◌, if◌then◌else◌, take, drop, codes, Outcome, ok, ◌>>=◌,
  read_bytes, le_value, sub32, u32,
}
use ledger_app.Stream.Context.{Argument}
use ledger_app.Types.Varint.{unpack_variant32}
use ledger_app.Types.Key.{Platform}
use ledger_app.Parse.Token.{shown, behind}
use ledger_app.Parse.Fields.{
  print_string, parse_name_field, parse_asset_field, parse_uint32_field, parse_uint64_field,
}

pub parse_delegate : List ℕ → ℕ → ℕ → Argument → Outcome Argument
parse_delegate buffer len arg_num arg =
    if arg_num == 0
    then shown (parse_name_field buffer len (codes "From"))
    else if arg_num == 1
    then behind 8 parse_name_field buffer len (codes "Receiver")
    else if arg_num == 2
    then behind 16 parse_asset_field buffer len (codes "NET")
    else if arg_num == 3
    then behind 32 parse_asset_field buffer len (codes "CPU")
    else if arg_num == 4
    then print_string (codes "Yes") (codes "Transfer Stake")
    else ok arg

pub parse_undelegate : List ℕ → ℕ → ℕ → Argument → Outcome Argument
parse_undelegate buffer len arg_num arg =
    if arg_num == 0
    then shown (parse_name_field buffer len (codes "From"))
    else if arg_num == 1
    then behind 8 parse_name_field buffer len (codes "Receiver")
    else if arg_num == 2
    then behind 16 parse_asset_field buffer len (codes "NET")
    else if arg_num == 3
    then behind 32 parse_asset_field buffer len (codes "CPU")
    else ok arg

pub parse_no_operation : ℕ → Outcome Argument
parse_no_operation len =
    if len == 0
    then print_string (codes "No Data") (codes "Payload")
    else print_string (codes "Unknown Data") (codes "WARNING")

pub parse_refund : List ℕ → ℕ → ℕ → Argument → Outcome Argument
parse_refund buffer len arg_num arg =
    if arg_num == 0 then shown (parse_name_field buffer len (codes "Account")) else ok arg

pub parse_buy_ram : List ℕ → ℕ → ℕ → Argument → Outcome Argument
parse_buy_ram buffer len arg_num arg =
    if arg_num == 0
    then shown (parse_name_field buffer len (codes "Payer"))
    else if arg_num == 1
    then behind 8 parse_name_field buffer len (codes "Receiver")
    else if arg_num == 2
    then behind 16 parse_asset_field buffer len (codes "Quant")
    else ok arg

pub parse_buy_ram_bytes : Platform → List ℕ → ℕ → ℕ → Argument → Outcome Argument
parse_buy_ram_bytes platform buffer len arg_num arg =
    if arg_num == 0
    then shown (parse_name_field buffer len (codes "Payer"))
    else if arg_num == 1
    then behind 8 parse_name_field buffer len (codes "Receiver")
    else if arg_num == 2
    then behind 16 (parse_uint32_field platform) buffer len (codes "Bytes")
    else ok arg

pub parse_sell_ram : List ℕ → ℕ → ℕ → Argument → Outcome Argument
parse_sell_ram buffer len arg_num arg =
    if arg_num == 0
    then shown (parse_name_field buffer len (codes "Receiver"))
    else if arg_num == 1
    then behind 8 parse_uint64_field buffer len (codes "Bytes")
    else ok arg

-- `snprintf(label, 13, "Producer #%d [%d]", ...)`: 12 characters at most.
abbrev pub producer_label : Platform → ℕ → ℕ → List ℕ
producer_label platform arg_num total = take 12 (
    codes "Producer #"
    ++ platform.format_int arg_num
    ++ codes " ["
    ++ platform.format_int total
    ++ codes "]")

-- The producers' list, from its size on.
pub parse_producer : Platform → List ℕ → ℕ → ℕ → Outcome Argument
parse_producer platform buffer len arg_num = do
  (total, read) ← unpack_variant32 buffer len
  let offset = u32 (sub32 arg_num 1 * 8)
  shown (
      parse_name_field (drop offset (drop read buffer)) (sub32 (sub32 len read) offset)
        (producer_label platform arg_num total))

pub parse_vote_producer : Platform → List ℕ → ℕ → ℕ → Outcome Argument
parse_vote_producer platform buffer len arg_num =
    if arg_num == 0
    then shown (parse_name_field buffer len (codes "Account"))
    else (read_bytes 8 (drop 8 buffer) >>= λ proxy.
        if not (le_value proxy == 0) && arg_num == 1
        then shown (parse_name_field (drop 8 buffer) 8 (codes "Proxy"))
        else parse_producer platform (drop 16 buffer) (sub32 len 16) arg_num)

pub parse_delete_auth : List ℕ → ℕ → ℕ → Argument → Outcome Argument
parse_delete_auth buffer len arg_num arg =
    if arg_num == 0
    then shown (parse_name_field buffer len (codes "Account"))
    else if arg_num == 1
    then behind 8 parse_name_field buffer len (codes "Permission")
    else ok arg

pub parse_link_auth : List ℕ → ℕ → ℕ → Argument → Outcome Argument
parse_link_auth buffer len arg_num arg =
    if arg_num == 0
    then shown (parse_name_field buffer len (codes "Account"))
    else if arg_num == 1
    then behind 8 parse_name_field buffer len (codes "Contract")
    else if arg_num == 2
    then behind 16 parse_name_field buffer len (codes "Action")
    else if arg_num == 3
    then behind 24 parse_name_field buffer len (codes "Permission")
    else ok arg

pub parse_unlink_auth : List ℕ → ℕ → ℕ → Argument → Outcome Argument
parse_unlink_auth buffer len arg_num arg =
    if arg_num == 0
    then shown (parse_name_field buffer len (codes "Account"))
    else if arg_num == 1
    then behind 8 parse_name_field buffer len (codes "Contract")
    else if arg_num == 2
    then behind 16 parse_name_field buffer len (codes "Action")
    else ok arg
