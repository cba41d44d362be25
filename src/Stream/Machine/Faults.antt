-- ===== src/Stream/Machine/Faults.antt =====
-- What the parser does when it is called again after a fault in a header.
use ledger_app.Base.{
  ℕ, zero, suc, ◌+◌, ◌-◌, ◌≤◌, ◌<◌, ◌≡◌, refl, false, List, [], ◌∷◌, ◌++◌, arith, length, take,
  drop, Outcome, ok, overrun, ◌>>=◌, splice, ◌==◌, length-drop, length-splice, le→leb, lt→leb,
  after_ok, after_overrun, if_true, if_false, ne_zero, ledger_assert, read_at_some, ap, ◌∙◌,
}
use ledger_app.Utils.Tlv.{invalid, tlv_try_decode, tag_number}
use ledger_app.Stream.Context.{Sha256, Context, is_done}
use ledger_app.Stream.Machine.{
  ParserStatus, stream_fault, return, again, read_tx_byte, feed_tlv_byte, decode_loop, next_field,
  round, process_tx_loop, process_tx_internal, parse_tx,
}

-- The parser waits for a header of which it has read a byte at least, and the first was no octet
-- string's tag; `first` and `others` are `tlvBuffer`.
pub record IsFaulted {H : Type 0} (first : ℕ) (others : List ℕ) (c : Context H) : Type 0 where
  pub no_confirm : c.confirm_processing ≡ false
  pub no_action : c.action_ready ≡ false
  pub not_done : is_done c.state ≡ false
  pub idle : c.processing_field ≡ false
  pub buffer : c.tlv_buffer ≡ first ∷ others
  pub four : length others ≡ 4
  pub wrong_tag : (tag_number first == 4) ≡ false
  pub started : 1 ≤ c.tlv_buffer_pos
  pub inside : c.command_length ≤ length c.work_buffer

tlv_wrong_tag :
    (first : ℕ) (others : List ℕ) (len : ℕ)
    → (tag_number first == 4) ≡ false
    → tlv_try_decode (first ∷ others) len ≡ ok invalid
unfolding tlv_try_decode
tlv_wrong_tag first others len h = rw h

-- A byte behind the first leaves the tag.
splice_behind :
    (pos b first : ℕ) (others : List ℕ)
    → 1 ≤ pos
    → (rest : List ℕ) × (splice pos (b ∷ []) (first ∷ others) ≡ first ∷ rest)
splice_behind zero b first others h = elim h [ ]
splice_behind (suc pos) b first others h =
    (take pos others ++ (b ∷ drop (suc pos + 1) (first ∷ others)), refl)

module _ {H : Type 0} where
  -- The context when a byte was read.
  abbrev one_read : Context H → Context H
  one_read c = record c {
    work_buffer = drop 1 c.work_buffer;
    command_length = c.command_length - 1;
  }

  read_tx_byte_some :
      (c : Context H)
      → 0 < c.command_length
      → c.command_length ≤ length c.work_buffer
      → (b : ℕ) × (read_tx_byte c ≡ ok (b, one_read c))
  unfolding read_tx_byte
  read_tx_byte_some c h inside =
      let (b, read) = read_at_some c.work_buffer (omega arith) in
      (
        b,
        after_ok _ (ap ledger_assert (le→leb 1 c.command_length h))
            ∙ after_ok (λ byte. ok (byte, one_read c)) read,
      )

  -- What `feed_tlv_byte` does where the header's buffer is full, and where it is not.
  feed_full :
      (c : Context H)
      → 0 < c.command_length
      → c.command_length ≤ length c.work_buffer
      → length c.tlv_buffer ≤ c.tlv_buffer_pos
      → feed_tlv_byte c ≡ overrun
  unfolding feed_tlv_byte
  feed_full c h inside full =
      let (b, read) = read_tx_byte_some c h inside in
      after_ok _ read
      ∙ after_overrun _
          (if_false _ _ _ (lt→leb (c.tlv_buffer_pos + 1) (length c.tlv_buffer) (omega arith)))

  feed_room :
      (c : Context H)
      → 0 < c.command_length
      → c.command_length ≤ length c.work_buffer
      → c.tlv_buffer_pos < length c.tlv_buffer
      → (b : ℕ) × (feed_tlv_byte c
          ≡ ok (record (one_read c) {
            tlv_buffer = splice c.tlv_buffer_pos (b ∷ []) c.tlv_buffer;
            tlv_buffer_pos = c.tlv_buffer_pos + 1;
          }))
  unfolding feed_tlv_byte
  feed_room c h inside room =
      let (b, read) = read_tx_byte_some c h inside in
      (
        b,
        after_ok _ read
            ∙ after_ok _
                (if_true _ _ _ (le→leb (c.tlv_buffer_pos + 1) (length c.tlv_buffer) (omega arith))),
      )

module _ {H : Type 0} (sha : Sha256 H) where
  -- A parser that waits for a header goes straight to the header's loop.
  round_waiting :
      (first : ℕ) (others : List ℕ) (c : Context H)
      → IsFaulted first others c
      → 0 < c.command_length
      → round sha c ≡ next_field sha c
  unfolding round
  round_waiting first others c f h =
      if_false _ _ _ f.no_confirm
      ∙ if_false _ _ _ f.no_action
      ∙ if_false _ _ _ f.not_done
      ∙ if_false _ _ _ (ne_zero _ h)
      ∙ if_false _ _ _ f.idle

  decode_fed :
      (c d : Context H)
      → 0 < c.command_length
      → feed_tlv_byte c ≡ ok d
      → tlv_try_decode d.tlv_buffer d.tlv_buffer_pos ≡ ok invalid
      → next_field sha c ≡ ok (return stream_fault d)
  unfolding next_field decode_loop
  decode_fed c d h fed bad =
      after_ok _ (if_false _ _ _ (ne_zero _ h) ∙ after_ok _ fed ∙ after_ok _ bad)

  decode_overrun :
      (c : Context H)
      → 0 < c.command_length
      → feed_tlv_byte c ≡ overrun
      → next_field sha c ≡ overrun
  unfolding next_field decode_loop
  decode_overrun c h fed = after_overrun _ (if_false _ _ _ (ne_zero _ h) ∙ after_overrun _ fed)

  parse_tx_left :
      (c : Context H) (buffer : List ℕ) (len : ℕ)
      → 0 < c.command_length
      → parse_tx sha c buffer len ≡ (
          round sha c >>= λ r. elim r [
            | return status d ↦ ok (status, d)
            | again d ↦ process_tx_loop sha c.command_length d
          ])
  unfolding parse_tx process_tx_internal process_tx_loop
  parse_tx_left c buffer len h = ap (process_tx_internal sha) (if_false _ _ _ (ne_zero _ h))

  -- Where a faulted parser has bytes of the command left, the next call of `parseTx` ignores its
  -- own buffer and faults again with one more byte of the header's buffer used, if that has room.
  parse_tx-IsFaulted :
      (first : ℕ) (others : List ℕ) (c : Context H) (buffer : List ℕ) (len : ℕ)
      → IsFaulted first others c
      → 0 < c.command_length
      → c.tlv_buffer_pos < 5
      → (d : Context H) × (others' : List ℕ) × (parse_tx sha c buffer len ≡ ok (stream_fault, d))
        × IsFaulted first others' d
        × (d.tlv_buffer_pos ≡ c.tlv_buffer_pos + 1)
        × (d.command_length + 1 ≡ c.command_length)
  parse_tx-IsFaulted first others c buffer len f h room =
      let size : length c.tlv_buffer ≡ 5 = omega (arith, ap length f.buffer, f.four) in
      let (b, fed) = feed_room c h f.inside (omega arith) in
      let (others', spliced) = splice_behind c.tlv_buffer_pos b first others f.started in
      let same = ap (splice c.tlv_buffer_pos (b ∷ [])) f.buffer ∙ spliced in
      let length_kept = length-splice c.tlv_buffer_pos (b ∷ []) c.tlv_buffer (omega arith) in
      let d = record (one_read c) {
        tlv_buffer = splice c.tlv_buffer_pos (b ∷ []) c.tlv_buffer;
        tlv_buffer_pos = c.tlv_buffer_pos + 1;
      } in
      let bad =
        ap (λ t. tlv_try_decode t (c.tlv_buffer_pos + 1)) same
        ∙ tlv_wrong_tag first others' (c.tlv_buffer_pos + 1) f.wrong_tag in
      (
        d,
        others',
        parse_tx_left c buffer len h
            ∙ after_ok _ (round_waiting first others c f h ∙ decode_fed c d h fed bad),
        record {
          no_confirm = f.no_confirm;
          no_action = f.no_action;
          not_done = f.not_done;
          idle = f.idle;
          buffer = same;
          four = omega (arith, ap length same);
          wrong_tag = f.wrong_tag;
          started = omega arith;
          inside = omega (arith, f.inside, length-drop 1 c.work_buffer);
        },
        refl,
        omega arith,
      )

  -- Calls of `parseTx` one after the other, each with its command.
  pub parse_commands :
      Context H → List ℕ × ℕ → List (List ℕ × ℕ) → Outcome (ParserStatus × Context H)
  parse_commands c command [] = parse_tx sha c command.0 command.1
  parse_commands c command (next ∷ more) =
      parse_tx sha c command.0 command.1 >>= λ p. parse_commands p.1 next more

  -- A parser that met a wrong tag and is called on writes behind `tlvBuffer`: with `n` bytes of
  -- room left there and more than `n` bytes of the command, that is the call number `n + 1`.
  pub parse_commands_overrun :
      (first : ℕ) (others : List ℕ) (c : Context H) (command : List ℕ × ℕ)
      (more : List (List ℕ × ℕ))
      → IsFaulted first others c
      → c.tlv_buffer_pos + length more ≡ 5
      → length more < c.command_length
      → parse_commands c command more ≡ overrun
  unfolding parse_commands
  parse_commands_overrun first others c command [] f full left =
      let size : length c.tlv_buffer ≡ 5 = omega (arith, ap length f.buffer, f.four) in
      parse_tx_left c command.0 command.1 left
      ∙ after_overrun _ (
          round_waiting first others c f left
          ∙ decode_overrun c left (feed_full c left f.inside (omega arith)))
  parse_commands_overrun first others c command (next ∷ more) f full left =
      let some_left : 0 < c.command_length = omega arith in
      let (d, others', faults, still, pos, less) =
        parse_tx-IsFaulted first others c command.0 command.1 f some_left (omega arith) in
      after_ok _ faults
      ∙ parse_commands_overrun first others' d next more still (omega arith) (omega arith)
