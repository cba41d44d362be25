-- ===== src/Stream/Machine/Header.antt =====
-- What the loop over a header's bytes keeps, and that it takes from the command.
use ledger_app.Base.{
  ℕ, zero, suc, ◌+◌, ◌<◌, ◌≡◌, refl, Bool-cases, inl, inr, [], ◌∷◌, arith, length-write_bytes,
  write_bytes, stuck_not_ok, ◌∙◌, length-drop, Outcome, ok, >>=-eq-ok, ok-injective, ◌==◌,
  if◌then◌else◌,
}
use mathlib.Core.Path.{subst}
use ledger_app.Utils.Tlv.{Header, invalid, incomplete, decoded, tlv_try_decode}
use ledger_app.Stream.Context.{Context}
use ledger_app.Stream.Fields.Shape.{HasSizes}
use ledger_app.Stream.Machine.{
  Decoding, faulty, starved, field_found, read_tx_byte, feed_tlv_byte, decode_loop,
}

-- A byte moved from the command to the header's buffer.
pub record Fed {H : Type 0} (c d : Context H) : Type 0 where
  pub fed_sizes : HasSizes d
  pub fed_pos : d.tlv_buffer_pos ≡ c.tlv_buffer_pos + 1
  pub fed_command : d.command_length + 1 ≡ c.command_length
  pub fed_field : d.processing_field ≡ c.processing_field

-- What the inner loop leaves in each of its ends.
abbrev pub DecodingOk : {H : Type 0} → Context H → Decoding H → Type 0
DecodingOk c (faulty d) = Unit
DecodingOk c (starved d) =
    HasSizes d × (d.tlv_buffer_pos < 5) × (d.processing_field ≡ c.processing_field)
DecodingOk c (field_found d) = HasSizes d × (d.command_length < c.command_length)

module _ {H : Type 0} where
  read_tx_byte_lem :
      (c : Context H) {byte : ℕ} {d : Context H}
      → HasSizes c
      → read_tx_byte c ≡ ok (byte, d)
      → HasSizes d
        × (d.tlv_buffer_pos ≡ c.tlv_buffer_pos)
        × (d.command_length + 1 ≡ c.command_length)
        × (d.processing_field ≡ c.processing_field)
  unfolding read_tx_byte
  read_tx_byte_lem c s e = ground (arith, length-drop 1 c.work_buffer)

  pub feed_tlv_byte-Fed : (c d : Context H) → HasSizes c → feed_tlv_byte c ≡ ok d → Fed c d
  unfolding feed_tlv_byte
  feed_tlv_byte-Fed c d s e =
      let ((byte, d'), read, rest) = >>=-eq-ok (read_tx_byte c) _ e in
      let (buffer, wrote, end) =
        >>=-eq-ok (write_bytes d'.tlv_buffer_pos (byte ∷ []) d'.tlv_buffer) _ rest in
      let before = read_tx_byte_lem c s read in
      let size = length-write_bytes d'.tlv_buffer_pos (byte ∷ []) d'.tlv_buffer wrote in
      subst (Fed c) (ok-injective end) (record {
        fed_sizes = record {
          command_inside = before.0.command_inside;
          tlv_size = omega (arith, before.0.tlv_size);
          size_size = before.0.size_size;
          contract_size = before.0.contract_size;
          action_size = before.0.action_size;
          data_size = before.0.data_size;
        };
        fed_pos = omega arith;
        fed_command = before.2;
        fed_field = before.3;
      })

  -- `r` decoded from `d`, which was fed from `c`, or from what follows.
  DecodingOk-Fed : (c d : Context H) (r : Decoding H) → Fed c d → DecodingOk d r → DecodingOk c r
  DecodingOk-Fed c d (faulty e) fed h = tt
  DecodingOk-Fed c d (starved e) fed h = (h.0, h.1, h.2 ∙ fed.fed_field)
  DecodingOk-Fed c d (field_found e) fed h = (h.0, omega (arith, fed.fed_command, h.1))

  abbrev after_header : ℕ → Context H → Header → Outcome (Decoding H)
  unfolding decode_loop
  after_header fuel d header = elim header [
    | invalid ↦ ok (faulty d)
    | decoded n ↦ ok (field_found (record d { current_field_length = n }))
    | incomplete ↦
        let rest = decode_loop fuel d in if d.tlv_buffer_pos == 5 then ok (faulty d) else rest
  ]

  after_header_ok :
      (fuel : ℕ) (c d : Context H) (header : Header) (r : Decoding H)
      → HasSizes d
      → Fed c d
      → c.tlv_buffer_pos < 5
      → (d.tlv_buffer_pos < 5 → decode_loop fuel d ≡ ok r → DecodingOk d r)
      → after_header fuel d header ≡ ok r
      → DecodingOk c r
  unfolding decode_loop
  after_header_ok fuel c d invalid r s fed room ih e = subst (DecodingOk c) (ok-injective e) tt
  after_header_ok fuel c d (decoded n) r s fed room ih e = subst (DecodingOk c) (ok-injective e) (
    record {
      command_inside = s.command_inside;
      tlv_size = s.tlv_size;
      size_size = s.size_size;
      contract_size = s.contract_size;
      action_size = s.action_size;
      data_size = s.data_size;
    },
    omega (arith, fed.fed_command),
  )
  after_header_ok fuel c d incomplete r s fed room ih e =
      elim (Bool-cases (d.tlv_buffer_pos == 5)) [
        | inl over ↦ subst (DecodingOk c) (ok-injective (rw over at e)) tt
        | inr more ↦
            let short : d.tlv_buffer_pos < 5 = ground (arith, fed.fed_pos) in
            DecodingOk-Fed c d r fed (ih short (rw more at e))
      ]

  pub decode_loop_ok :
      (fuel : ℕ) (c : Context H) (r : Decoding H)
      → HasSizes c
      → c.tlv_buffer_pos < 5
      → decode_loop fuel c ≡ ok r
      → DecodingOk c r
  unfolding decode_loop
  decode_loop_ok zero c r s room e = absurd (stuck_not_ok e)
  decode_loop_ok (suc fuel) c r s room e = elim (Bool-cases (c.command_length == 0)) [
    | inl empty ↦ subst (DecodingOk c) (ok-injective (rw empty at e)) (s, room, refl)
    | inr some_left ↦
        let (d, fed_ok, rest) = >>=-eq-ok (feed_tlv_byte c) _ (rw some_left at e) in
        let (header, tried, end) =
          >>=-eq-ok (tlv_try_decode d.tlv_buffer d.tlv_buffer_pos) _ rest in
        let fed = feed_tlv_byte-Fed c d s fed_ok in
        after_header_ok fuel c d header r fed.fed_sizes fed room
          (λ short h. decode_loop_ok fuel d r fed.fed_sizes short h) end
  ]
