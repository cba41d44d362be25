-- ===== src/Stream/Known.antt =====
-- The contracts and actions of src/eos_stream.c, and `isKnownAction`.
use ledger_app.Base.{ℕ, Bool, true, false, ◌&&◌, ◌||◌, ◌==◌, if◌then◌else◌}
use ledger_app.Stream.Context.{Context, contract_value, action_value}

abbrev pub core_vaulta : ℕ
core_vaulta = 0x452EA06CDA8E4C00

abbrev pub eosio : ℕ
eosio = 0x5530EA0000000000

abbrev pub eosio_token : ℕ
eosio_token = 0x5530EA033482A600

abbrev pub null_vaulta : ℕ
null_vaulta = 0x9EA3106CDA8E4C00

abbrev pub token_transfer_action : ℕ
token_transfer_action = 0xCDCD3C2D57000000

abbrev pub vaulta_swapto_action : ℕ
vaulta_swapto_action = 0xC70D5CD000000000

abbrev pub delegatebw_action : ℕ
delegatebw_action = 0x4AA2A61B2A3F0000

abbrev pub undelegatebw_action : ℕ
undelegatebw_action = 0xD4D2A8A986CA8FC0

abbrev pub voteproducer_action : ℕ
voteproducer_action = 0xDD32AADE89D21570

abbrev pub buyram_action : ℕ
buyram_action = 0x3EBD734800000000

abbrev pub buyram_actionbytes : ℕ
buyram_actionbytes = 0x3EBD7348FECAB000

abbrev pub sellram_action : ℕ
sellram_action = 0xC2A31B9A40000000

abbrev pub update_auth_action : ℕ
update_auth_action = 0xD5526CA8DACB4000

abbrev pub delete_auth_action : ℕ
delete_auth_action = 0x4AA2ACA8DACB4000

abbrev pub refund_action : ℕ
refund_action = 0xBA97A9A400000000

abbrev pub link_auth_action : ℕ
link_auth_action = 0x8BA7036B2D000000

abbrev pub unlink_auth_action : ℕ
unlink_auth_action = 0xD4E2E9C0DACB4000

abbrev pub new_account_action : ℕ
new_account_action = 0x9AB864229A9E4000

abbrev pub noop_action : ℕ
noop_action = 0x9D29500000000000

abbrev pub identity_action : ℕ
identity_action = 0x72553CBB3E000000

-- The tests that `printArgument`, `isKnownAction` and `processActionData` each write out.
abbrev pub is_swapto : ℕ → ℕ → Bool
is_swapto contract action = action == vaulta_swapto_action && contract == core_vaulta

abbrev pub is_no_operation : ℕ → ℕ → Bool
is_no_operation contract action =
    (action == noop_action && contract == null_vaulta)
    || (action == identity_action && contract == 0)

abbrev pub is_transfer : ℕ → ℕ → Bool
is_transfer contract action =
    action == token_transfer_action && (contract == eosio_token || contract == core_vaulta)

abbrev pub is_system : ℕ → Bool
is_system contract = contract == eosio || contract == core_vaulta

-- The cases of the `switch` of `isKnownAction`.
unfoldable pub is_system_action : ℕ → Bool
is_system_action action =
    action == delegatebw_action
    || action == undelegatebw_action
    || action == refund_action
    || action == buyram_action
    || action == buyram_actionbytes
    || action == sellram_action
    || action == voteproducer_action
    || action == update_auth_action
    || action == delete_auth_action
    || action == link_auth_action
    || action == unlink_auth_action
    || action == new_account_action

unfoldable pub is_known_name : ℕ → ℕ → Bool
is_known_name contract action =
    if is_swapto contract action
    then true
    else if is_no_operation contract action
    then true
    else if is_transfer contract action
    then true
    else if is_system contract
    then is_system_action action
    else false

unfoldable pub is_known_action : {H : Type 0} → Context H → Bool
is_known_action c = is_known_name (contract_value c) (action_value c)
