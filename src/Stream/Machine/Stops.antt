-- ===== src/Stream/Machine/Stops.antt =====
-- The parser's loops end: the fuel of the model is never used up.
use ledger_app.Base.{
  ℕ, zero, suc, ◌+◌, ◌≤◌, ◌<◌, ◌≡◌, ◌≢◌, List, arith, length, ◌==◌, if◌then◌else◌, if_both, Outcome,
  ok, stuck, ◌>>=◌, false,
}
use ledger_app.Base.Ends.{
  Ends, ends, ends_ok, Ends->>=, Ends->>=_eq, Ends-if, Ends-read_at, Ends-ne-stuck,
}
use ledger_app.Utils.Tlv.{
  Header, invalid, incomplete, decoded, read_length, decode_length, tlv_try_decode,
}
use ledger_app.Stream.Context.{
  Sha256, Context, TxState, tlv_none, tlv_cfa_list_size, tlv_action_list_size, tlv_action_account,
  tlv_action_name, tlv_authorization_list_size, tlv_authorization_actor,
  tlv_authorization_permission, tlv_action_data_size, tlv_action_data, tlv_tx_extension_list_size,
  tlv_done,
}
use ledger_app.Stream.Handlers.Stops.{
  Ends-process_field, Ends-process_zero_size_field, Ends-process_action_list_size_field,
  Ends-process_action_account, Ends-process_action_name, Ends-process_authorization_list_size_field,
  Ends-process_authorization_account, Ends-process_authorization_permission,
  Ends-process_unknown_action_data_size, Ends-process_unknown_action_data, Ends-process_action_data,
}
use ledger_app.Stream.Fields.Shape.{HasSizes, IsWellFormed}
use ledger_app.Stream.Machine.Header.{feed_tlv_byte-Fed}
use ledger_app.Stream.Machine.Rounds.{RoundOk, round_ok, refuses, process_tx_loop_ok}
use ledger_app.Stream.Machine.{
  ParserStatus, stream_fault, stream_processing, Round, return, again, Decoding, faulty, starved,
  field_found, read_tx_byte, feed_tlv_byte, decode_loop, begin_field, process_state, next_field,
  round, process_tx_loop, process_tx_internal, parse_tx,
}

Ends-read_length : (n : ℕ) (buffer : List ℕ) (i acc : ℕ) → Ends (read_length n buffer i acc)
unfolding read_length
Ends-read_length zero buffer i acc = ends_ok acc
Ends-read_length (suc n) buffer i acc =
    Ends->>= (Ends-read_at buffer i) (λ b. Ends-read_length n buffer (i + 1) _)

Ends-tlv_try_decode : (buffer : List ℕ) (len : ℕ) → Ends (tlv_try_decode buffer len)
unfolding tlv_try_decode decode_length
Ends-tlv_try_decode buffer len = search (ends, Ends-read_length) depth 30

module _ {H : Type 0} where
  Ends-feed_tlv_byte : (c : Context H) → Ends (feed_tlv_byte c)
  unfolding feed_tlv_byte read_tx_byte
  Ends-feed_tlv_byte c = search ends depth 30

  -- The inner loop: a byte of the command for each round.
  Ends-decode_loop :
      (fuel : ℕ) (c : Context H) → HasSizes c → c.command_length < fuel → Ends (decode_loop fuel c)
  unfolding decode_loop
  Ends-decode_loop zero c s h = elim h [ ]
  Ends-decode_loop (suc fuel) c s h = Ends-if _ (ends_ok _) (
      Ends->>=_eq (feed_tlv_byte c) (Ends-feed_tlv_byte c) λ d fed_ok.
        let fed = feed_tlv_byte-Fed c d s fed_ok in
        Ends->>= (Ends-tlv_try_decode d.tlv_buffer d.tlv_buffer_pos) λ header.
          after d header (Ends-decode_loop fuel d fed.fed_sizes (omega (arith, fed.fed_command))))
    where
      after :
          (d : Context H) (header : Header)
          → Ends (decode_loop fuel d)
          → Ends (elim header [
            | invalid ↦ ok (faulty d)
            | decoded n ↦ ok (field_found (record d { current_field_length = n }))
            | incomplete ↦
                let rest = decode_loop fuel d in
                if d.tlv_buffer_pos == 5 then ok (faulty d) else rest
          ])
      after d invalid rest = ends_ok _
      after d (decoded n) rest = ends_ok _
      after d incomplete rest = Ends-if _ (ends_ok _) rest

module _ {H : Type 0} where
  pub start_IsWellFormed :
      (c : Context H) (buffer : List ℕ) (len : ℕ)
      → IsWellFormed c
      → len ≤ length buffer
      → IsWellFormed (
          if c.command_length == 0
          then record c { work_buffer = buffer; command_length = len }
          else c)
  start_IsWellFormed c buffer len w h =
      if_both IsWellFormed (c.command_length == 0) (λ fresh. ground arith) (λ left. w)

module _ {H : Type 0} (sha : Sha256 H) where
  Ends-again : {m : Outcome (Context H)} → Ends m → Ends (m >>= λ d. ok (again d))
  Ends-again h = Ends->>= h (λ d. ends_ok (again d))

  Ends-process_state : (s : TxState) (c : Context H) → Ends (process_state sha s c)
  unfolding process_state
  Ends-process_state tlv_none c = ends_ok _
  Ends-process_state tlv_done c = ends_ok _
  Ends-process_state tlv_cfa_list_size c = Ends-again (Ends-process_zero_size_field sha c)
  Ends-process_state tlv_tx_extension_list_size c = Ends-again (Ends-process_zero_size_field sha c)
  Ends-process_state tlv_action_list_size c = Ends-again (Ends-process_action_list_size_field sha c)
  Ends-process_state tlv_action_account c = Ends-again (Ends-process_action_account sha c)
  Ends-process_state tlv_action_name c = Ends-again (Ends-process_action_name sha c)
  Ends-process_state tlv_authorization_list_size c =
      Ends-again (Ends-process_authorization_list_size_field sha c)
  Ends-process_state tlv_authorization_actor c =
      Ends-again (Ends-process_authorization_account sha c)
  Ends-process_state tlv_authorization_permission c =
      Ends-again (Ends-process_authorization_permission sha c)
  Ends-process_state tlv_action_data_size c =
      Ends-if _ (Ends-again (Ends-process_field sha c))
        (Ends-again (Ends-process_unknown_action_data_size sha c))
  Ends-process_state tlv_action_data c =
      Ends-if _ (Ends-again (Ends-process_action_data sha c))
        (Ends-if _ (Ends-again (Ends-process_unknown_action_data sha c)) (ends_ok _))
  Ends-process_state _ c = Ends-again (Ends-process_field sha c)

  Ends-next_field : (c : Context H) → HasSizes c → Ends (next_field sha c)
  unfolding next_field
  Ends-next_field c s = Ends->>= (Ends-decode_loop (suc c.command_length) c s (omega arith)) after
    where
      after :
          (x : Decoding H)
          → Ends (elim x [
            | faulty d ↦ ok (return stream_fault d)
            | starved d ↦ ok (return stream_processing d)
            | field_found d ↦ process_state sha d.state (begin_field d)
          ])
      after (faulty d) = ends_ok _
      after (starved d) = ends_ok _
      after (field_found d) = Ends-process_state d.state (begin_field d)

  Ends-round : (c : Context H) → HasSizes c → Ends (round sha c)
  unfolding round
  Ends-round c s =
      search (ends_ok, Ends-if, Ends-process_state c.state c, Ends-next_field c s) depth 20

  pub Ends-process_tx_loop :
      (fuel : ℕ) (c : Context H)
      → IsWellFormed c
      → c.command_length < fuel
      → Ends (process_tx_loop sha fuel c)
  unfolding process_tx_loop
  Ends-process_tx_loop zero c w h = elim h [ ]
  Ends-process_tx_loop (suc fuel) c w h = Ends->>=_eq (round sha c) (Ends-round c w.sizes) λ r ran.
      after r (round_ok sha c r w ran) (λ x v less. Ends-process_tx_loop fuel x v (omega arith))
    where
      after :
          (r : Round H)
          → RoundOk c r
          → ((x : Context H)
              → IsWellFormed x
              → x.command_length < c.command_length
              → Ends (process_tx_loop sha fuel x))
          → Ends {A = ParserStatus × Context H}
              (elim r [ return s x ↦ ok (s, x) | again x ↦ process_tx_loop sha fuel x ])
      after (return s x) ok_round ih = ends_ok _
      after (again x) ok_round ih = ih x ok_round.0 ok_round.1

  -- For a well-formed context and a buffer that holds the command, `parseTx` ends: its loops stop
  -- before the model's fuel does, whatever the bytes are.
  pub parse_tx-ne-stuck :
      (c : Context H) (buffer : List ℕ) (len : ℕ)
      → IsWellFormed c
      → len ≤ length buffer
      → parse_tx sha c buffer len ≢ stuck
  unfolding parse_tx process_tx_internal
  parse_tx-ne-stuck c buffer len w h =
      Ends-ne-stuck (Ends-process_tx_loop _ _ (start_IsWellFormed c buffer len w h) (omega arith))

  -- For a well-formed context and a buffer that holds the command, a call of `parseTx` that
  -- returns another status than STREAM_FAULT and STREAM_NOT_ALLOWED leaves a well-formed context.
  pub parse_tx-IsWellFormed :
      (c : Context H) (buffer : List ℕ) (len : ℕ) {status : ParserStatus} {d : Context H}
      → IsWellFormed c
      → len ≤ length buffer
      → parse_tx sha c buffer len ≡ ok (status, d)
      → refuses status ≡ false
      → IsWellFormed d
  unfolding parse_tx process_tx_internal
  parse_tx-IsWellFormed c buffer len w h e accepted =
      process_tx_loop_ok sha _ _ (start_IsWellFormed c buffer len w h) e accepted
