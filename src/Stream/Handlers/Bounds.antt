-- ===== src/Stream/Handlers/Bounds.antt =====
-- What the two handlers of an action's names do with a field of any length.
use ledger_app.Base.{
  ℕ, ◌^◌, Bool, ◌≤◌, ◌<◌, ◌≡◌, ◌∙◌, ap, true, false, List, arith, length, length-take, take, leb,
  Outcome, overrun, halted, ◌>>=◌, after_ok, le→leb, ledger_assert, if◌then◌else◌,
}
use ledger_app.Stream.Context.{Sha256, Context}
use ledger_app.Stream.Fields.{take_chunk, chunk_length, hash_tx_data}
use ledger_app.Stream.Fields.Shape.{HasSizes, take_chunk_open}
use ledger_app.Stream.Handlers.{
  store_account, store_action, process_action_account, process_action_name,
}

after_failure :
    {A : Type 0} {B : Type 0} (b : Bool) {m : Outcome A} (f : A → Outcome B)
    → m ≡ (if b then overrun else halted)
    → (m >>= f) ≡ (if b then overrun else halted)
after_failure true f e = rw e
after_failure false f e = rw e

module _ {H : Type 0} where
  -- A whole field of a name in one command.
  pub record IsWhole (c : Context H) : Type 0 where
    pub whole_sizes : HasSizes c
    pub at_start : c.current_field_pos ≡ 0
    pub inside : c.current_field_length ≤ c.command_length

  pub chunk_whole :
      (c : Context H)
      → c.current_field_pos ≡ 0
      → c.current_field_length ≤ c.command_length
      → chunk_length c ≡ c.current_field_length
  chunk_whole c h inside = ground arith

  store_account_long :
      (c : Context H) (n : ℕ) (bytes : List ℕ)
      → c.current_field_pos ≡ 0
      → length c.contract_name ≡ 8
      → 8 < n
      → n < 2 ^ 32
      → n ≤ c.command_length
      → length bytes ≡ n
      → store_account n bytes c ≡ (if leb n 12 then overrun else halted)
  unfolding store_account
  store_account_long c n bytes start room long word inside size =
      after_ok _ (ap ledger_assert (le→leb n c.command_length inside)) ∙ ground arith

  store_action_long :
      (c : Context H) (n : ℕ) (bytes : List ℕ)
      → c.current_field_pos ≡ 0
      → length c.contract_action_name ≡ 8
      → 8 < n
      → n < 2 ^ 32
      → n ≤ c.command_length
      → length bytes ≡ n
      → store_action n bytes c ≡ (if leb n 12 then overrun else halted)
  unfolding store_action
  store_action_long c n bytes start room long word inside size =
      after_ok _ (ap ledger_assert (le→leb n c.command_length inside)) ∙ ground arith

module _ {H : Type 0} (sha : Sha256 H) where
  -- The block at the head of a handler whose `store` is known to fail.
  take_chunk_fails :
      (store : ℕ → List ℕ → Context H → Outcome (Context H)) (c : Context H)
      (k : Context H → Outcome (Context H))
      → IsWhole c
      → 0 < c.current_field_length
      → store c.current_field_length
          (take c.current_field_length c.work_buffer)
          (hash_tx_data sha (take c.current_field_length c.work_buffer) c)
        ≡ (if leb c.current_field_length 12 then overrun else halted)
      → (take_chunk sha store c >>= k) ≡ (if leb c.current_field_length 12 then overrun else halted)
  take_chunk_fails store c k w some_bytes e = after_failure (leb c.current_field_length 12) k (
      take_chunk_open sha store c w.whole_sizes.command_inside (omega (arith, w.at_start))
      ∙ after_failure (leb c.current_field_length 12) _ (
          ap (λ n. store n (take n c.work_buffer) (hash_tx_data sha (take n c.work_buffer) c))
            (chunk_whole c w.at_start w.inside)
          ∙ e))

  -- A field of the contract's name that is whole in the command and has 9 bytes or more, fewer than
  -- 2 ^ 32, ends the run: up to 12 bytes pass the assertion, which is against the size of another
  -- array, and are written behind the 8 bytes of the name; longer ones fail the assertion.
  pub process_action_account_long :
      (c : Context H)
      → IsWhole c
      → 8 < c.current_field_length
      → c.current_field_length < 2 ^ 32
      → process_action_account sha c ≡ (if leb c.current_field_length 12 then overrun else halted)
  unfolding process_action_account
  process_action_account_long c w long word = take_chunk_fails store_account c _ w (omega arith) (
      store_account_long (hash_tx_data sha (take c.current_field_length c.work_buffer) c)
        c.current_field_length (take c.current_field_length c.work_buffer) w.at_start
        w.whole_sizes.contract_size long word w.inside
        (omega (
          arith,
          length-take c.current_field_length c.work_buffer,
          w.inside,
          w.whole_sizes.command_inside,
        )))

  -- A field of the action's name that is whole in the command and has 9 bytes or more, fewer than
  -- 2 ^ 32, ends the run: up to 12 bytes pass the assertion, which is against the size of another
  -- array, and are written behind the 8 bytes of the name; longer ones fail the assertion.
  pub process_action_name_long :
      (c : Context H)
      → IsWhole c
      → 8 < c.current_field_length
      → c.current_field_length < 2 ^ 32
      → process_action_name sha c ≡ (if leb c.current_field_length 12 then overrun else halted)
  unfolding process_action_name
  process_action_name_long c w long word = take_chunk_fails store_action c _ w (omega arith) (
      store_action_long (hash_tx_data sha (take c.current_field_length c.work_buffer) c)
        c.current_field_length (take c.current_field_length c.work_buffer) w.at_start
        w.whole_sizes.action_size long word w.inside
        (omega (
          arith,
          length-take c.current_field_length c.work_buffer,
          w.inside,
          w.whole_sizes.command_inside,
        )))
