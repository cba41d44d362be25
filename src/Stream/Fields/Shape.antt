-- ===== src/Stream/Fields/Shape.antt =====
-- What holds of the parser's context between two rounds, and what a chunk does to it.
use ledger_app.Base.{
  ℕ, ◌+◌, ◌≤◌, ◌<◌, ◌≡◌, true, List, arith, length, length-drop, Outcome, ok, ◌>>=◌, >>=-eq-ok,
  ok-injective, ◌∙◌, lt→ltb, le→ltb, le→leb, take, sym, ap,
}
use native.Mathlib.Decide.{dec_lt}
use mathlib.Core.Path.{subst}
use ledger_app.Stream.Context.{Sha256, Context}
use ledger_app.Stream.Fields.{take_chunk, chunk_length, hash_tx_data, advance}

-- The arrays have their sizes, and the command lies inside the memory that it came in.
pub record HasSizes {H : Type 0} (c : Context H) : Type 0 where
  pub command_inside : c.command_length ≤ length c.work_buffer
  pub tlv_size : length c.tlv_buffer ≡ 5
  pub size_size : length c.size_buffer ≡ 12
  pub contract_size : length c.contract_name ≡ 8
  pub action_size : length c.contract_action_name ≡ 8
  pub data_size : length c.action_data_buffer ≡ 512

-- Between two rounds a field that is being processed lacks a byte at least, and there is room for
-- a byte of a header.
pub record IsWellFormed {H : Type 0} (c : Context H) : Type 0 where
  pub sizes : HasSizes c
  pub open sizes use *
  pub tlv_room : c.tlv_buffer_pos < 5
  pub field_open : c.processing_field ≡ true → c.current_field_pos < c.current_field_length

-- What a handler's `store` leaves as it is: all but the bytes of the arrays and the hashes.
pub record SameShape {H : Type 0} (c d : Context H) : Type 0 where
  pub keeps_length : d.current_field_length ≡ c.current_field_length
  pub keeps_pos : d.current_field_pos ≡ c.current_field_pos
  pub keeps_work : d.work_buffer ≡ c.work_buffer
  pub keeps_command : d.command_length ≡ c.command_length
  pub keeps_tlv_pos : d.tlv_buffer_pos ≡ c.tlv_buffer_pos
  pub keeps_tlv : d.tlv_buffer ≡ c.tlv_buffer
  pub keeps_size : length d.size_buffer ≡ length c.size_buffer
  pub keeps_contract : length d.contract_name ≡ length c.contract_name
  pub keeps_action : length d.contract_action_name ≡ length c.contract_action_name
  pub keeps_data : length d.action_data_buffer ≡ length c.action_data_buffer

-- A chunk was taken: `n` bytes of the command, up to the end of the field or of the command.
pub record Taken {H : Type 0} (c d : Context H) : Type 0 where
  pub taken_sizes : HasSizes d
  pub taken_pos : d.current_field_pos ≤ d.current_field_length
  pub taken_tlv : d.tlv_buffer_pos ≡ c.tlv_buffer_pos
  pub taken_less : d.command_length ≤ c.command_length
  pub taken_some :
      0 < c.command_length
      → c.current_field_pos < c.current_field_length
      → d.command_length < c.command_length

pub chunk_length_bounds :
    {H : Type 0} (c : Context H)
    → c.current_field_pos ≤ c.current_field_length
    → (chunk_length c ≤ c.command_length)
      × (c.current_field_pos + chunk_length c ≤ c.current_field_length)
      × (0 < c.command_length → c.current_field_pos < c.current_field_length → 0 < chunk_length c)
chunk_length_bounds c h = ground arith

module _ {H : Type 0} (sha : Sha256 H) (store : ℕ → List ℕ → Context H → Outcome (Context H)) where
  pub take_chunk_open :
      (c : Context H)
      → c.command_length ≤ length c.work_buffer
      → c.current_field_pos < c.current_field_length
      → take_chunk sha store c ≡ (
          store
            (chunk_length c)
            (take (chunk_length c) c.work_buffer)
            (hash_tx_data sha (take (chunk_length c) c.work_buffer) c)
          >>= λ d. ok (advance (chunk_length c) d))
  unfolding take_chunk
  take_chunk_open c inside h = rw (lt→ltb _ _ h) (
      rw (
        le→leb (chunk_length c) (length c.work_buffer)
          (omega (arith, chunk_length_bounds c (omega arith)))))

  pub take_chunk_full :
      (c : Context H) → c.current_field_length ≤ c.current_field_pos → take_chunk sha store c ≡ ok c
  unfolding take_chunk
  take_chunk_full c h = rw (le→ltb _ _ h)

  advance-Taken :
      (c d : Context H)
      → HasSizes c
      → c.current_field_pos < c.current_field_length
      → SameShape c d
      → Taken c (advance (chunk_length c) d)
  advance-Taken c d sizes h shape =
      let bounds = chunk_length_bounds c (omega arith) in
      let same : length d.work_buffer ≡ length c.work_buffer = ap length shape.keeps_work in
      let tlv : length d.tlv_buffer ≡ length c.tlv_buffer = ap length shape.keeps_tlv in
      let rest = length-drop (chunk_length c) d.work_buffer in
      record {
        taken_sizes = omega arith;
        taken_pos = omega arith;
        taken_tlv = omega arith;
        taken_less = omega arith;
        taken_some = omega arith;
      }

  pub take_chunk-Taken :
      ((n : ℕ) (bytes : List ℕ) (c d : Context H) → store n bytes c ≡ ok d → SameShape c d)
      → (c d : Context H) → HasSizes c
      → c.current_field_pos ≤ c.current_field_length
      → take_chunk sha store c ≡ ok d
      → Taken c d
  take_chunk-Taken shape c d sizes hp e = elim (dec_lt c.current_field_pos c.current_field_length) [
    | yes more ↦
        let (d', stored, moved) =
          >>=-eq-ok (store (chunk_length c) _ _) _
            (sym (take_chunk_open c sizes.command_inside more) ∙ e) in
        let bytes = take (chunk_length c) c.work_buffer in
        let same = shape (chunk_length c) bytes (hash_tx_data sha bytes c) d' stored in
        subst (Taken c) (ok-injective moved) (
          advance-Taken c d' sizes more (record {
            keeps_length = same.keeps_length;
            keeps_pos = same.keeps_pos;
            keeps_work = same.keeps_work;
            keeps_command = same.keeps_command;
            keeps_tlv_pos = same.keeps_tlv_pos;
            keeps_tlv = same.keeps_tlv;
            keeps_size = same.keeps_size;
            keeps_contract = same.keeps_contract;
            keeps_action = same.keeps_action;
            keeps_data = same.keeps_data;
          }))
    | no full ↦
        let stays = ok-injective (sym (take_chunk_full c (omega arith)) ∙ e) in
        subst (Taken c) stays (record {
          taken_sizes = sizes;
          taken_pos = hp;
          taken_tlv = omega arith;
          taken_less = omega arith;
          taken_some = omega arith;
        })
  ]
