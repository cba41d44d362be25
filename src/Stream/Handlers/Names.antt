-- ===== src/Stream/Handlers/Names.antt =====
-- The names of an action that the user sees are those of the stream that is hashed.
use ledger_app.Base.{
  ℕ, ◌+◌, ◌-◌, ◌≤◌, ◌≡◌, ◌∙◌, refl, ap, List, arith, length, ◌++◌, replicate, take, Outcome, ok,
  ◌>>=◌, after_ok, le→leb, if_true, le_value, All, IsByte, IsU64, splice_all, drop-replicate,
  length-take, splice, sym, ledger_assert, leb, sub32, ==_of_eq, drop,
}
use ledger_app.Base.Bytes.{All-take, le_value-IsU64}
use ledger_app.Types.Name.Laws.{text_to_name, text_to_name-name_to_string}
use ledger_app.Stream.Context.{Sha256, Context, contract_value, action_value, next_state}
use ledger_app.Stream.Fields.{take_chunk, at_end, chunk_length, hash_tx_data, advance, leave_field}
use ledger_app.Stream.Fields.Shape.{take_chunk_open}
use ledger_app.Stream.Handlers.Bounds.{IsWhole, chunk_whole}
use ledger_app.Stream.Handlers.{
  shown_name, finish_action_account, finish_action_name, store_account, store_action,
  process_action_account, process_action_name,
}

-- An array of 14 characters that shows the name `v`: its text, and zeros behind.
pub IsNameText : List ℕ → ℕ → Type 0
IsNameText array v =
    (s : List ℕ) × (array ≡ s ++ replicate (14 - length s) 0)
    × (text_to_name s ≡ v)
    × (length s ≤ 13)

pub shown_name-IsNameText :
    (v : ℕ) → IsU64 v → (a : List ℕ) × (shown_name v ≡ ok a) × IsNameText a v
unfolding shown_name IsNameText
shown_name-IsNameText v h =
    let (s, printed, back, short) = text_to_name-name_to_string v 14 h (omega arith) in
    let start : 0 + length s ≡ length s = omega arith in
    let behind : drop {A = ℕ} (0 + length s) (replicate 14 0) ≡ replicate (14 - length s) 0 =
      ap (λ k. drop k (replicate 14 0)) start ∙ drop-replicate (length s) 14 0 in
    (
      s ++ replicate (14 - length s) 0,
      after_ok _ printed
          ∙ if_true _ _ _ (le→leb (0 + length s) 14 (omega arith))
          ∙ ap (λ rest. ok (s ++ rest)) behind,
      (s, refl, back, short),
    )

module _ {H : Type 0} (sha : Sha256 H) where
  store_account_whole :
      (c : Context H) (bytes : List ℕ)
      → c.current_field_pos ≡ 0
      → length c.contract_name ≡ 8
      → length bytes ≡ 8
      → 8 ≤ c.command_length
      → store_account 8 bytes c ≡ ok (record c { contract_name = bytes })
  unfolding store_account
  store_account_whole c bytes start room size in_command =
      let spliced : splice c.current_field_pos bytes c.contract_name ≡ bytes =
        ap (λ i. splice i bytes c.contract_name) start
        ∙ splice_all bytes c.contract_name (size ∙ sym room) in
      after_ok _ (ap ledger_assert (le→leb 8 c.command_length in_command))
      ∙ after_ok _ (ap (λ i. ledger_assert (leb 8 (sub32 12 i))) start)
      ∙ after_ok _ (
          if_true _ _ _
            (le→leb (c.current_field_pos + length bytes) (length c.contract_name) (omega arith)))
      ∙ ap (λ array. ok (record c { contract_name = array })) spliced

  store_action_whole :
      (c : Context H) (bytes : List ℕ)
      → c.current_field_pos ≡ 0
      → length c.contract_action_name ≡ 8
      → length bytes ≡ 8
      → 8 ≤ c.command_length
      → store_action 8 bytes c ≡ ok (record c { contract_action_name = bytes })
  unfolding store_action
  store_action_whole c bytes start room size in_command =
      let spliced : splice c.current_field_pos bytes c.contract_action_name ≡ bytes =
        ap (λ i. splice i bytes c.contract_action_name) start
        ∙ splice_all bytes c.contract_action_name (size ∙ sym room) in
      after_ok _ (ap ledger_assert (le→leb 8 c.command_length in_command))
      ∙ after_ok _ (ap (λ i. ledger_assert (leb 8 (sub32 12 i))) start)
      ∙ after_ok _ (
          if_true _ _ _ (
            le→leb (c.current_field_pos + length bytes) (length c.contract_action_name)
              (omega arith)))
      ∙ ap (λ array. ok (record c { contract_action_name = array })) spliced

  -- A whole field of eight bytes, taken by a handler whose `store` returns.
  take_whole :
      (store : ℕ → List ℕ → Context H → Outcome (Context H)) (c d : Context H)
      → IsWhole c
      → c.current_field_length ≡ 8
      → store 8 (take 8 c.work_buffer) (hash_tx_data sha (take 8 c.work_buffer) c) ≡ ok d
      → take_chunk sha store c ≡ ok (advance 8 d)
  take_whole store c d w eight e =
      let chunk : chunk_length c ≡ 8 = chunk_whole c w.at_start w.inside ∙ eight in
      take_chunk_open sha store c w.whole_sizes.command_inside (omega (arith, w.at_start))
      ∙ ap
          (λ n. store n (take n c.work_buffer) (hash_tx_data sha (take n c.work_buffer) c) >>= λ x.
            ok (advance n x))
          chunk
      ∙ after_ok _ e

  whole_bytes :
      (c : Context H) → IsWhole c → c.current_field_length ≡ 8 → length (take 8 c.work_buffer) ≡ 8
  whole_bytes c w eight =
      omega (arith, length-take 8 c.work_buffer, w.inside, w.whole_sizes.command_inside)

  whole_value :
      (c : Context H)
      → IsWhole c
      → c.current_field_length ≡ 8
      → All IsByte c.work_buffer
      → IsU64 (le_value (take 8 c.work_buffer))
  whole_value c w eight all_bytes =
      le_value-IsU64 (take 8 c.work_buffer) (All-take IsByte 8 c.work_buffer all_bytes)
        (whole_bytes c w eight)

  -- A field with the contract's name, eight bytes that are whole in the command: the handler
  -- returns, goes on to the next field, hashes the eight bytes, keeps them as the contract's value,
  -- and the text that the user is shown encodes to that value.
  pub process_action_account-IsNameText :
      (c : Context H)
      → IsWhole c
      → c.current_field_length ≡ 8
      → All IsByte c.work_buffer
      → (d : Context H) × (process_action_account sha c ≡ ok d)
        × (d.state ≡ next_state c.state)
        × (d.sha256 ≡ sha.update c.sha256 (take 8 c.work_buffer))
        × (contract_value d ≡ le_value (take 8 c.work_buffer))
        × IsNameText d.content.contract (le_value (take 8 c.work_buffer))
  unfolding process_action_account finish_action_account at_end
  process_action_account-IsNameText c w eight all_bytes =
      let bytes = take 8 c.work_buffer in
      let stored = record (hash_tx_data sha bytes c) { contract_name = bytes } in
      let (text, shown, is_text) =
        shown_name-IsNameText (le_value bytes) (whole_value c w eight all_bytes) in
      let e =
        store_account_whole (hash_tx_data sha bytes c) bytes w.at_start w.whole_sizes.contract_size
          (whole_bytes c w eight) (omega (arith, w.inside)) in
      (
        record (leave_field (advance 8 stored)) {
          content = record (c.content) { contract = text };
        },
        after_ok _ (take_whole store_account c stored w eight e)
            ∙ if_true _ _ _ (
                ==_of_eq (c.current_field_pos + 8) c.current_field_length
                  (omega (arith, w.at_start)))
            ∙ after_ok _ shown,
        refl,
        refl,
        refl,
        is_text,
      )

  -- A field with the action's name, eight bytes that are whole in the command: the handler
  -- returns, goes on to the next field, hashes the eight bytes, keeps them as the action's value,
  -- and the text that the user is shown encodes to that value.
  pub process_action_name-IsNameText :
      (c : Context H)
      → IsWhole c
      → c.current_field_length ≡ 8
      → All IsByte c.work_buffer
      → (d : Context H) × (process_action_name sha c ≡ ok d)
        × (d.state ≡ next_state c.state)
        × (d.sha256 ≡ sha.update c.sha256 (take 8 c.work_buffer))
        × (action_value d ≡ le_value (take 8 c.work_buffer))
        × IsNameText d.content.action (le_value (take 8 c.work_buffer))
  unfolding process_action_name finish_action_name at_end
  process_action_name-IsNameText c w eight all_bytes =
      let bytes = take 8 c.work_buffer in
      let stored = record (hash_tx_data sha bytes c) { contract_action_name = bytes } in
      let (text, shown, is_text) =
        shown_name-IsNameText (le_value bytes) (whole_value c w eight all_bytes) in
      let e =
        store_action_whole (hash_tx_data sha bytes c) bytes w.at_start w.whole_sizes.action_size
          (whole_bytes c w eight) (omega (arith, w.inside)) in
      (
        record (leave_field (advance 8 stored)) { content = record (c.content) { action = text } },
        after_ok _ (take_whole store_action c stored w eight e)
            ∙ if_true _ _ _ (
                ==_of_eq (c.current_field_pos + 8) c.current_field_length
                  (omega (arith, w.at_start)))
            ∙ after_ok _ shown,
        refl,
        refl,
        refl,
        is_text,
      )
