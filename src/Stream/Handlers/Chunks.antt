-- ===== src/Stream/Handlers/Chunks.antt =====
-- What each handler hashes: the bytes that it takes from the command, and no others.
pub mod Each
use ledger_app.Base.{
  ℕ, ◌+◌, ◌-◌, ◌≤◌, ◌≡◌, ◌⊎◌, inl, inr, ap, Bool, false, List, arith, length, take, drop, Outcome,
  ok, ◌>>=◌, >>=-eq-ok, ok-injective, ltb, leb, ◌==◌, Bool-cases, then_of, else_of, read_bytes,
  eq_of_==, ledger_assert, read_bytes-take, length-read_bytes, length-take, ltb→lt,
}
use mathlib.Core.Path.{subst}
use ledger_app.Stream.Context.{Sha256, Context, TxState, IsStreaming}
use ledger_app.Stream.Fields.{take_chunk, at_end, hash_tx_data, chunk_length}
use ledger_app.Stream.Fields.Shape.{chunk_length_bounds}
use ledger_app.Stream.Handlers.{
  store_nothing, store_size, store_account, store_action, store_data, store_unknown, finish_field,
  finish_zero_size, finish_action_list_size, finish_action_account, finish_action_name,
  finish_authorization_list_size, finish_authorization_account, finish_authorization_permission,
  finish_action_data, finish_unknown_action_data, process_unknown_action, field_name, process_field,
  process_zero_size_field, process_action_list_size_field, process_action_account,
  process_action_name, process_authorization_list_size_field, process_authorization_account,
  process_authorization_permission, process_unknown_action_data_size, process_unknown_action_data,
  process_action_data,
}

module _ {H : Type 0} where
  -- What the end of a field leaves: the hash and the pointers.
  abbrev moved : Context H → H × List ℕ × ℕ × ℕ × List ℕ
  moved c = (c.sha256, c.work_buffer, c.command_length, c.tlv_buffer_pos, c.tlv_buffer)

  -- What a handler's `store` leaves.
  abbrev stored : Context H → (H × List ℕ × ℕ × ℕ × List ℕ) × ℕ × ℕ × TxState × Bool
  stored c = (moved c, c.current_field_pos, c.current_field_length, c.state, c.processing_field)

  abbrev LeavesField : (ℕ → List ℕ → Context H → Outcome (Context H)) → Type 0
  LeavesField store =
      (n : ℕ) (bytes : List ℕ) (c d : Context H) → store n bytes c ≡ ok d → stored d ≡ stored c

  abbrev Closes : (Context H → Outcome (Context H)) → Type 0
  Closes finish =
      (c d : Context H) → finish c ≡ ok d → (moved d ≡ moved c) × (d.processing_field ≡ false)

  -- Where a handler leaves the field: at its end, or on the way.
  abbrev pub Onward : ℕ → Context H → Context H → Type 0
  Onward n c d =
      ((d.processing_field ≡ false) × (c.current_field_pos + n ≡ c.current_field_length))
      ⊎ ((d.processing_field ≡ c.processing_field)
          × (d.state ≡ c.state)
          × (d.current_field_pos ≡ c.current_field_pos + n)
          × (d.current_field_length ≡ c.current_field_length))

  stores_nothing : LeavesField store_nothing
  unfolding store_nothing
  stores_nothing n bytes c d e = ground arith

  stores_size : LeavesField store_size
  unfolding store_size
  stores_size n bytes c d e = ground arith

  stores_account : LeavesField store_account
  unfolding store_account
  stores_account n bytes c d e = ground arith

  stores_action : LeavesField store_action
  unfolding store_action
  stores_action n bytes c d e = ground arith

  stores_data : LeavesField store_data
  unfolding store_data
  stores_data n bytes c d e = ground arith

-- `n` bytes were taken from the command and hashed.
pub record HashesBytes {H : Type 0} (sha : Sha256 H) (c d : Context H) : Type 0 where
  pub n : ℕ
  pub in_command : n ≤ c.command_length
  pub in_buffer : n ≤ length c.work_buffer
  pub hash : d.sha256 ≡ sha.update c.sha256 (take n c.work_buffer)
  pub work : d.work_buffer ≡ drop n c.work_buffer
  pub left : d.command_length ≡ c.command_length - n
  pub tlv : d.tlv_buffer_pos ≡ c.tlv_buffer_pos
  pub header : d.tlv_buffer ≡ c.tlv_buffer
  pub onward : Onward n c d

module _ {H : Type 0} (sha : Sha256 H) (streaming : IsStreaming sha) where
  -- The chunk with the field still open.
  record Open (c d : Context H) : Type 0 where
    n : ℕ
    in_command : n ≤ c.command_length
    in_buffer : n ≤ length c.work_buffer
    kept : stored d ≡ (
      (
        sha.update c.sha256 (take n c.work_buffer),
        drop n c.work_buffer,
        c.command_length - n,
        c.tlv_buffer_pos,
        c.tlv_buffer,
      ),
      c.current_field_pos + n,
      c.current_field_length,
      c.state,
      c.processing_field,
    )

  take_chunk-Open :
      (store : ℕ → List ℕ → Context H → Outcome (Context H))
      → LeavesField store
      → (c d : Context H) → take_chunk sha store c ≡ ok d
      → Open c d
  unfolding take_chunk
  take_chunk-Open store stores c d e =
      elim (Bool-cases (ltb c.current_field_pos c.current_field_length)) [
        | inl more ↦
            let n = chunk_length c in
            let (bytes, read, rest) =
              >>=-eq-ok (read_bytes n c.work_buffer) _ (then_of _ _ _ more e) in
            let (d', wrote, end) = >>=-eq-ok (store n bytes _) _ rest in
            let same = stores n bytes (hash_tx_data sha bytes c) d' wrote in
            let taken = read_bytes-take n c.work_buffer read in
            let size = length-read_bytes n c.work_buffer read in
            let bounds = chunk_length_bounds c (omega (arith, ltb→lt)) in
            subst (Open c) (ok-injective end) (record {
              n = n;
              in_command = bounds.0;
              in_buffer = omega (arith, length-take n c.work_buffer, ap length taken);
              kept = cc (same, taken);
            })
        | inr full ↦ subst (Open c) (ok-injective (else_of _ _ _ full e)) (record {
          n = 0;
          in_command = omega arith;
          in_buffer = omega arith;
          kept =
              let hash = streaming.update-nil c.sha256 in
              let left : c.command_length - 0 ≡ c.command_length = omega arith in
              let pos : c.current_field_pos + 0 ≡ c.current_field_pos = omega arith in
              cc (hash, left, pos);
        })
      ]

  handler-HashesBytes :
      (store : ℕ → List ℕ → Context H → Outcome (Context H))
      → LeavesField store
      → (finish : Context H → Outcome (Context H)) → Closes finish
      → (c d : Context H) → (take_chunk sha store c >>= λ t. at_end finish t) ≡ ok d
      → HashesBytes sha c d
  unfolding at_end
  handler-HashesBytes store stores finish closes c d e =
      let (t, took, rest) = >>=-eq-ok (take_chunk sha store c) _ e in
      let o = take_chunk-Open store stores c t took in
      let k = o.kept in
      elim (Bool-cases (t.current_field_pos == t.current_field_length)) [
        | inl whole ↦
            let (same, closed) = closes t d (then_of _ _ _ whole rest) in
            let at : t.current_field_pos ≡ t.current_field_length = eq_of_== _ _ whole in
            record {
              n = o.n;
              in_command = o.in_command;
              in_buffer = o.in_buffer;
              hash = cc (same, k);
              work = cc (same, k);
              left = cc (same, k);
              tlv = cc (same, k);
              header = cc (same, k);
              onward = inl (closed, cc (k, at));
            }
        | inr on_the_way ↦
            let same : t ≡ d = ok-injective (else_of _ _ _ on_the_way rest) in
            record {
              n = o.n;
              in_command = o.in_command;
              in_buffer = o.in_buffer;
              hash = cc (same, k);
              work = cc (same, k);
              left = cc (same, k);
              tlv = cc (same, k);
              header = cc (same, k);
              onward = inr (cc (same, k), cc (same, k), cc (same, k), cc (same, k));
            }
      ]

  stores_unknown : LeavesField (store_unknown sha)
  unfolding store_unknown
  stores_unknown n bytes c d e =
      let (u, fits, done) = >>=-eq-ok (ledger_assert (leb n c.command_length)) _ e in
      cc (ok-injective done)
