-- ===== src/Tests/Parser.antt =====
-- The parser on small streams.
use ledger_app.Base.{ℕ, ◌≡◌, ◌≢◌, refl, List, [], ◌∷◌, arith, ok, overrun, stuck}
use ledger_app.Stream.Context.{Context, next_state}
use ledger_app.Stream.Fields.{take_chunk, at_end}
use ledger_app.Stream.Fields.Shape.{IsWellFormed}
use ledger_app.Stream.Handlers.{process_field, store_nothing, finish_field}
use ledger_app.Stream.Machine.{
  stream_processing, process_state, next_field, round, process_tx_loop, process_tx_internal,
  parse_tx, decode_loop, feed_tlv_byte, read_tx_byte, begin_field,
}
use ledger_app.Stream.Machine.Faults.{IsFaulted, parse_commands, parse_commands_overrun}
use ledger_app.Stream.Machine.Stops.{parse_tx-ne-stuck, parse_tx-IsWellFormed}
use ledger_app.Utils.Tlv.{tlv_try_decode, decode_length, read_length}
use ledger_app.Tests.Toy.{toy, fresh, context_of}

fresh-IsWellFormed : IsWellFormed fresh
fresh-IsWellFormed = ground arith

-- A chain id of two bytes, and the first byte of the next header.
abbrev chain : List ℕ
chain = 4 ∷ 2 ∷ 0xaa ∷ 0xbb ∷ 4 ∷ []

chain_runs :
    parse_tx toy fresh chain 5 ≡ ok (stream_processing, context_of (parse_tx toy fresh chain 5))
unfolding parse_tx process_tx_internal process_tx_loop round next_field process_state decode_loop
    feed_tlv_byte read_tx_byte begin_field process_field store_nothing finish_field take_chunk
    at_end tlv_try_decode decode_length read_length next_state
chain_runs = refl

parse_tx-ne-stuck_example : parse_tx toy fresh chain 5 ≢ stuck
parse_tx-ne-stuck_example = parse_tx-ne-stuck toy fresh chain 5 fresh-IsWellFormed (omega arith)

parse_tx-IsWellFormed_example : IsWellFormed (context_of (parse_tx toy fresh chain 5))
parse_tx-IsWellFormed_example =
    parse_tx-IsWellFormed toy fresh chain 5 fresh-IsWellFormed (omega arith) chain_runs refl

-- A wrong tag and three more bytes in the header's buffer; three bytes of the command are left.
abbrev faulted : Context (List ℕ)
faulted = record fresh {
  tlv_buffer = 0x10 ∷ 1 ∷ 2 ∷ 3 ∷ 0 ∷ [];
  tlv_buffer_pos = 4;
  work_buffer = 1 ∷ 2 ∷ 3 ∷ [];
  command_length = 3;
}

faulted-IsFaulted : IsFaulted 0x10 (1 ∷ 2 ∷ 3 ∷ 0 ∷ []) faulted
faulted-IsFaulted = record {
  no_confirm = refl;
  no_action = refl;
  not_done = refl;
  idle = refl;
  buffer = refl;
  four = refl;
  wrong_tag = refl;
  started = omega arith;
  inside = omega arith;
}

parse_commands_overrun_example : parse_commands toy faulted ([], 0) (([], 0) ∷ []) ≡ overrun
parse_commands_overrun_example =
    parse_commands_overrun toy 0x10 (1 ∷ 2 ∷ 3 ∷ 0 ∷ []) faulted ([], 0) (([], 0) ∷ [])
      faulted-IsFaulted (omega arith) (omega arith)
