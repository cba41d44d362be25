-- ===== src/Tests/Sessions.antt =====
-- The parser's sessions and the signing command on small inputs.
use ledger_app.Base.{ℕ, ◌≡◌, ◌≢◌, refl, stuck, true, ◌||◌, ◌==◌, List, [], ◌∷◌, ◌++◌, replicate, ok}
use ledger_app.Stream.Context.{Context, tlv_done, is_done, next_state}
use ledger_app.Stream.Known.{is_known_action, is_known_name}
use ledger_app.Stream.Machine.{
  stream_action_ready, stream_finished, parse_tx, process_tx_internal, process_tx_loop, round,
  next_field, process_state, decode_loop, feed_tlv_byte, read_tx_byte, begin_field,
}
use ledger_app.Stream.Machine.Vetted.Session
use ledger_app.Stream.Machine.Vetted.Session.{started, parse_tx_shown, parse_tx_finished}
use ledger_app.App.Preparse.{StackBytes, preparse_transaction}
use ledger_app.App.Preparse.Stops.{preparse_transaction-ne-stuck}
use ledger_app.App.Sign.{App, sign_hash, handle_sign, user_action_sign_flow_ok, feed, feed_checked}
use ledger_app.App.Sign.Laws.{
  Answered, IsGuarded, handle_sign-Answered, user_action_sign_flow_ok-Answered,
}
use ledger_app.Stream.Machine.Hashes.{HashesFields}
use ledger_app.Stream.Machine.Hashes.Sent
use ledger_app.Stream.Machine.Hashes.Sent.{begun, loaded, parse_tx-HashesFields}
use ledger_app.App.Sign.Hashes.{Extends, handle_sign-HashesFields}
use ledger_app.Tests.Toy.{toy, toy-IsStreaming, fresh, blank, context_of}
use ledger_app.Stream.Known.{is_system_action}
use ledger_app.Stream.Counts.{argument_count}
use ledger_app.Stream.Fields.{take_chunk, at_end}
use ledger_app.Types.Name.{name_to_string, name_digits, drop_dots}
use ledger_app.Types.Varint.{unpack_variant32, unpack_loop}
use ledger_app.Utils.Tlv.{tlv_try_decode, decode_length, read_length}
use ledger_app.Stream.Handlers.{
  shown_name, field_name, read_size, store_nothing, store_size, store_account, store_action,
  store_data, finish_field, finish_zero_size, finish_action_list_size, finish_action_account,
  finish_action_name, finish_authorization_list_size, finish_authorization_account,
  finish_authorization_permission, finish_action_data, process_field, process_zero_size_field,
  process_action_list_size_field, process_action_account, process_action_name,
  process_authorization_list_size_field, process_authorization_account,
  process_authorization_permission, process_action_data,
}

-- Nothing is left of the transaction: the parser is in its last state.
abbrev done_app : App (List ℕ)
done_app = record {
  storage = record { unknown_action_allowed = 0; verbose = 0; initialized = 1 };
  tx_processing_ctx = record fresh { state = tlv_done };
  path_length = 1;
  bip32_path = 0 ∷ [];
  count_state_neutral_actions = 0;
}

abbrev stack : StackBytes
stack = record { owner_bytes = replicate 14 0; action_bytes = replicate 14 0 }

done-IsGuarded : IsGuarded 0 done_app
done-IsGuarded = record { setting = refl; admitted = λ h. cc }

done_signs :
    handle_sign toy stack blank done_app 0x80 0 (0 ∷ []) 1
    ≡ ok (
      sign_hash,
      record done_app {
        tx_processing_ctx = record fresh {
          state = tlv_done;
          work_buffer = 0 ∷ [];
          command_length = 1;
        };
      },
    )
unfolding handle_sign feed_checked feed parse_tx process_tx_internal process_tx_loop round
done_signs = refl

handle_sign-Answered_example : Answered 0 sign_hash (record done_app {
  tx_processing_ctx = record fresh { state = tlv_done; work_buffer = 0 ∷ []; command_length = 1 };
})
handle_sign-Answered_example =
    handle_sign-Answered toy 0 stack blank done_app 0x80 0 (0 ∷ []) 1 done-IsGuarded done_signs

agreed_signs : user_action_sign_flow_ok toy done_app ≡ ok (sign_hash, done_app)
unfolding user_action_sign_flow_ok parse_tx process_tx_internal process_tx_loop round
agreed_signs = refl

agreed_answers : Answered 0 sign_hash done_app
agreed_answers = user_action_sign_flow_ok-Answered toy 0 done_app done-IsGuarded agreed_signs

-- Up to the data of the one action, `identity` of the contract without a name: empty fields but
-- for the sizes and the action's name.
abbrev one_action : List ℕ
one_action =
    4 ∷ 0 ∷ 4 ∷ 0 ∷ 4 ∷ 0 ∷ 4 ∷ 0 ∷ 4 ∷ 0 ∷ 4 ∷ 0 ∷ 4 ∷ 0 ∷ 4 ∷ 1 ∷ 0 ∷ 4 ∷ 1 ∷ 1 ∷ 4 ∷ 0 ∷ 4 ∷ 8
    ∷ 0 ∷ 0 ∷ 0 ∷ 0x3E ∷ 0xBB ∷ 0x3C ∷ 0x55 ∷ 0x72 ∷ 4 ∷ 1 ∷ 1 ∷ 4 ∷ 0 ∷ 4 ∷ 0 ∷ 4 ∷ 1 ∷ 0 ∷ 4 ∷ 0
    ∷ []

-- What follows the action: no extension, and an empty field.
abbrev the_end : List ℕ
the_end = 4 ∷ 1 ∷ 0 ∷ 4 ∷ 0 ∷ []

abbrev ready : Context (List ℕ)
ready = context_of (parse_tx toy fresh one_action 44)

abbrev finished : Context (List ℕ)
finished = context_of (parse_tx toy ready the_end 5)

ready_run : parse_tx toy fresh one_action 44 ≡ ok (stream_action_ready, ready)
unfolding parse_tx process_tx_internal process_tx_loop round next_field process_state decode_loop
    feed_tlv_byte read_tx_byte begin_field process_field store_nothing finish_field take_chunk
    at_end tlv_try_decode decode_length read_length next_state process_zero_size_field
    finish_zero_size store_size read_size unpack_variant32 unpack_loop
    process_action_list_size_field finish_action_list_size process_action_account store_account
    finish_action_account process_action_name store_action finish_action_name
    process_authorization_list_size_field finish_authorization_list_size
    process_authorization_account finish_authorization_account process_authorization_permission
    finish_authorization_permission process_action_data store_data finish_action_data argument_count
    shown_name name_to_string name_digits drop_dots field_name is_known_action is_known_name
    is_system_action
ready_run = refl

finished_run : parse_tx toy ready the_end 5 ≡ ok (stream_finished, finished)
unfolding parse_tx process_tx_internal process_tx_loop round next_field process_state decode_loop
    feed_tlv_byte read_tx_byte begin_field process_field store_nothing finish_field take_chunk
    at_end tlv_try_decode decode_length read_length next_state process_zero_size_field
    finish_zero_size store_size read_size unpack_variant32 unpack_loop
    process_action_list_size_field finish_action_list_size process_action_account store_account
    finish_action_account process_action_name store_action finish_action_name
    process_authorization_list_size_field finish_authorization_list_size
    process_authorization_account finish_authorization_account process_authorization_permission
    finish_authorization_permission process_action_data store_data finish_action_data argument_count
    shown_name name_to_string name_digits drop_dots field_name is_known_action is_known_name
    is_system_action
finished_run = refl

parse_tx_shown_example : (is_known_action ready || 0 == 1) ≡ true
parse_tx_shown_example = parse_tx_shown toy 0 one_action 44 (started blank 0) ready_run

finished_is_done : is_done finished.state ≡ true
finished_is_done =
    parse_tx_finished toy 0 the_end 5 (Session.fed one_action 44 (started blank 0) ready_run)
      finished_run

parse_tx-HashesFields_example : HashesFields toy finished (one_action ++ the_end)
unfolding parse_tx process_tx_internal process_tx_loop round next_field process_state decode_loop
    feed_tlv_byte read_tx_byte begin_field process_field store_nothing finish_field take_chunk
    at_end tlv_try_decode decode_length read_length next_state process_zero_size_field
    finish_zero_size store_size read_size unpack_variant32 unpack_loop
    process_action_list_size_field finish_action_list_size process_action_account store_account
    finish_action_account process_action_name store_action finish_action_name
    process_authorization_list_size_field finish_authorization_list_size
    process_authorization_account finish_authorization_account process_authorization_permission
    finish_authorization_permission process_action_data store_data finish_action_data argument_count
    shown_name name_to_string name_digits drop_dots field_name is_known_action is_known_name
    is_system_action
parse_tx-HashesFields_example =
    parse_tx-HashesFields toy toy-IsStreaming the_end 5
      (Sent.fed one_action 44 (begun blank 0 0) ready_run) finished_run

-- The command that ends the transaction.
abbrev ready_app : App (List ℕ)
ready_app = record done_app { tx_processing_ctx = ready }

ending_signs :
    handle_sign toy stack blank ready_app 0x80 0 the_end 5
    ≡ ok (sign_hash, record ready_app { tx_processing_ctx = finished })
unfolding handle_sign feed_checked feed parse_tx process_tx_internal process_tx_loop round
    next_field process_state decode_loop feed_tlv_byte read_tx_byte begin_field process_field
    store_nothing finish_field take_chunk at_end tlv_try_decode decode_length read_length next_state
    process_zero_size_field finish_zero_size store_size read_size unpack_variant32 unpack_loop
    process_action_list_size_field finish_action_list_size process_action_account store_account
    finish_action_account process_action_name store_action finish_action_name
    process_authorization_list_size_field finish_authorization_list_size
    process_authorization_account finish_authorization_account process_authorization_permission
    finish_authorization_permission process_action_data store_data finish_action_data argument_count
    shown_name name_to_string name_digits drop_dots field_name is_known_action is_known_name
    is_system_action
ending_signs = refl

handle_sign-HashesFields_example :
    (stream : List ℕ) × HashesFields toy finished stream
    × Extends toy toy-IsStreaming ready_app 0x80 ([] ++ loaded fresh one_action 44) the_end 5 stream
handle_sign-HashesFields_example =
    (handle_sign-HashesFields toy toy-IsStreaming ready_app ([] ++ loaded fresh one_action 44)
        (Sent.fed one_action 44 (begun blank 0 0) ready_run)).0
      stack blank 0x80 0 the_end 5 (record ready_app { tx_processing_ctx = finished }) ending_signs

preparse_transaction-ne-stuck_example : preparse_transaction toy stack blank one_action 44 0 ≢ stuck
preparse_transaction-ne-stuck_example =
    preparse_transaction-ne-stuck toy stack 0 blank one_action 44
