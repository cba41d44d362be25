-- ===== src/Tests/Names.antt =====
-- The handlers of an action's names on the names of src/eos_stream.c.
use ledger_app.Base.{
  ◌>>=◌, ℕ, ◌≡◌, refl, true, List, [], ◌∷◌, ◌++◌, arith, take, le_value, ok, overrun,
}
use ledger_app.Stream.Context.{Context, next_state, contract_value, action_value}
use ledger_app.Stream.Handlers.{process_action_account, process_action_name}
use ledger_app.Stream.Handlers.Bounds.{
  IsWhole, process_action_account_long, process_action_name_long,
}
use ledger_app.Stream.Handlers.Names.{
  IsNameText, process_action_account-IsNameText, process_action_name-IsNameText,
}
use ledger_app.Stream.Fields.Split.{command}
use ledger_app.Stream.Handlers.{process_field, process_authorization_account}
use ledger_app.Stream.Handlers.Joins.{process_action_account-append}
use ledger_app.Stream.Handlers.Split.{process_field-append, process_authorization_account_lossy}
use ledger_app.Tests.Toy.{toy, fresh, toy-IsStreaming}

-- The bytes of `eosio.token`, and four more.
abbrev token_bytes : List ℕ
token_bytes = 0 ∷ 0xA6 ∷ 0x82 ∷ 0x34 ∷ 3 ∷ 0xEA ∷ 0x30 ∷ 0x55 ∷ 1 ∷ 2 ∷ 3 ∷ 4 ∷ []

abbrev at_name : ℕ → Context (List ℕ)
at_name n = record fresh {
  current_field_length = n;
  processing_field = true;
  work_buffer = token_bytes;
  command_length = 12;
}

eight-IsWhole : IsWhole (at_name 8)
eight-IsWhole = ground arith

eleven-IsWhole : IsWhole (at_name 11)
eleven-IsWhole = ground arith

process_action_account-IsNameText_example :
    (d : Context (List ℕ)) × (process_action_account toy (at_name 8) ≡ ok d)
    × (d.state ≡ next_state fresh.state)
    × (d.sha256 ≡ [] ++ take 8 token_bytes)
    × (contract_value d ≡ le_value (take 8 token_bytes))
    × IsNameText d.content.contract (le_value (take 8 token_bytes))
process_action_account-IsNameText_example =
    process_action_account-IsNameText toy (at_name 8) eight-IsWhole refl (ground arith)

process_action_name-IsNameText_example :
    (d : Context (List ℕ)) × (process_action_name toy (at_name 8) ≡ ok d)
    × (d.state ≡ next_state fresh.state)
    × (d.sha256 ≡ [] ++ take 8 token_bytes)
    × (action_value d ≡ le_value (take 8 token_bytes))
    × IsNameText d.content.action (le_value (take 8 token_bytes))
process_action_name-IsNameText_example =
    process_action_name-IsNameText toy (at_name 8) eight-IsWhole refl (ground arith)

process_action_account_long_example : process_action_account toy (at_name 11) ≡ overrun
process_action_account_long_example =
    process_action_account_long toy (at_name 11) eleven-IsWhole (omega arith) (omega arith)

long_name_overruns : process_action_name toy (at_name 11) ≡ overrun
long_name_overruns =
    process_action_name_long toy (at_name 11) eleven-IsWhole (omega arith) (omega arith)

-- A field of eight bytes.
abbrev of_eight : Context (List ℕ)
of_eight = record fresh { current_field_length = 8; processing_field = true }

abbrev three : List ℕ
three = 1 ∷ 2 ∷ 3 ∷ []

abbrev five : List ℕ
five = 4 ∷ 5 ∷ 6 ∷ 7 ∷ 8 ∷ []

process_field-append_example :
    (process_field toy (command three of_eight) >>= λ d. process_field toy (command five d))
    ≡ process_field toy (command (three ++ five) of_eight)
process_field-append_example =
    process_field-append toy of_eight three five toy-IsStreaming (omega arith)

process_authorization_account_lossy_example :
    ((d : Context (List ℕ)) × (process_authorization_account toy (command (three ++ five) of_eight)
        ≡ ok d)
      × (d.sha256 ≡ three ++ five)
      × IsNameText d.current_authorization_name (le_value (three ++ five)))
    × ((d : Context (List ℕ)) × ((process_authorization_account toy (command three of_eight)
            >>= λ first. process_authorization_account toy (command five first))
          ≡ ok d)
        × (d.sha256 ≡ three ++ five)
        × IsNameText d.current_authorization_name (le_value (0 ∷ 0 ∷ 0 ∷ five)))
process_authorization_account_lossy_example =
    process_authorization_account_lossy toy of_eight three five toy-IsStreaming (ground arith)
      (ground arith) refl refl (omega arith) refl

process_action_account-append_example :
    (process_action_account toy (command three of_eight) >>= λ d.
    process_action_account toy (command five d))
    ≡ process_action_account toy (command (three ++ five) of_eight)
process_action_account-append_example =
    process_action_account-append toy of_eight three five toy-IsStreaming (omega arith)
      (omega arith) refl
