-- ===== src/Stream/Handlers/Split.antt =====
-- Fields that come in two commands, for the handlers that keep no local.
use ledger_app.Base.{
  ℕ, ◌+◌, ◌≤◌, ◌<◌, ◌≡◌, ◌∙◌, refl, ap, true, false, arith, List, [], ◌++◌, length, length-append,
  length-take, take, drop, take_all, take-replicate, ok, ◌>>=◌, after_ok, le→leb, ledger_assert,
  splice, if_true, if_false, sub32, replicate, lt→ltb, drop_all, splice_all, ◌==◌, append-nil, All,
  IsByte, le_value, length-replicate,
}
use ledger_app.Base.Bytes.{All-append, zeros-IsByte, le_value-IsU64}
use ledger_app.Stream.Context.{Sha256, Context, IsStreaming}
use ledger_app.Stream.Fields.{at_end, chunk_length, advance, hash_tx_data, leave_field}
use ledger_app.Stream.Fields.Split.{
  command, take_chunk_one, take_chunk-split, chunk_length_first, chunk_length_both, advance_joined,
}
use ledger_app.Stream.Fields.Shape.{chunk_length_bounds}
use ledger_app.Stream.Handlers.Names.{IsNameText, shown_name-IsNameText}
use ledger_app.Stream.Handlers.{
  store_nothing, process_field, finish_field, field_name, process_authorization_account,
  finish_authorization_account,
}

store_nothing_ok :
    {H : Type 0} (n : ℕ) (bytes : List ℕ) (c : Context H)
    → n ≤ c.command_length
    → store_nothing n bytes c ≡ ok c
unfolding store_nothing
store_nothing_ok n bytes c h = after_ok _ (ap ledger_assert (le→leb n c.command_length h))

-- A field that `processField` takes, and of which the first of two commands has not all bytes, is
-- processed by the two commands as by one with the bytes of both: with the same hash, the same
-- state, and the same rest of the command.
pub process_field-append :
    {H : Type 0} (sha : Sha256 H) (c : Context H) (xs ys : List ℕ)
    → IsStreaming sha
    → c.current_field_pos + length xs < c.current_field_length
    → (process_field sha (command xs c) >>= λ d. process_field sha (command ys d))
      ≡ process_field sha (command (xs ++ ys) c)
unfolding process_field
process_field-append sha c xs ys streaming inside =
    take_chunk-split sha store_nothing store_nothing_ok finish_field c xs ys streaming inside

-- The last bytes of a name, written behind zeros.
splice_zeros :
    (i : ℕ) (xs ys : List ℕ)
    → i ≡ length xs
    → length xs + length ys ≡ 8
    → splice i ys (replicate 8 0) ≡ replicate (length xs) 0 ++ ys
splice_zeros i xs ys start all =
    let zeros : List ℕ = replicate 8 0 in
    let front : take i zeros ≡ replicate (length xs) 0 =
      ap (λ k. take k zeros) start ∙ take-replicate (length xs) 8 0 (omega arith) in
    let behind : drop (i + length ys) zeros ≡ [] = drop_all (i + length ys) zeros (omega arith) in
    ap (λ t. t ++ (ys ++ drop (i + length ys) zeros)) front
    ∙ ap (λ t. replicate (length xs) 0 ++ (ys ++ t)) behind
    ∙ ap (λ t. replicate (length xs) 0 ++ t) (append-nil ys)

-- The local name that a chunk of `n` bytes gives.
field_name_ok :
    {H : Type 0} (c : Context H) (n : ℕ)
    → chunk_length c ≡ n
    → c.command_length ≤ length c.work_buffer
    → c.current_field_pos < c.current_field_length
    → c.current_field_length ≤ 8
    → field_name c ≡ ok (splice c.current_field_pos (take n c.work_buffer) (replicate 8 0))
unfolding field_name
field_name_ok c n same inside open_ short =
    let (in_command, in_field, _) = chunk_length_bounds c (omega arith) in
    let taken : length (take (chunk_length c) c.work_buffer) ≡ chunk_length c =
      length-take (chunk_length c) c.work_buffer ∙ omega (arith, in_command) in
    if_true _ _ _ (lt→ltb _ _ open_)
    ∙ after_ok _ (ap ledger_assert (le→leb _ _ in_command))
    ∙ after_ok _ (
        ap ledger_assert
          (le→leb (chunk_length c) (sub32 12 c.current_field_pos) (omega (arith, in_field))))
    ∙ after_ok _
        (if_true _ _ _ (le→leb (chunk_length c) (length c.work_buffer) (omega (arith, in_command))))
    ∙ if_true _ _ _ (
        le→leb (c.current_field_pos + length (take (chunk_length c) c.work_buffer)) 8
          (omega (arith, in_field, taken)))
    ∙ ap (λ k. ok (splice c.current_field_pos (take k c.work_buffer) (replicate 8 0))) same

module _ {H : Type 0} (sha : Sha256 H) where
  account_step :
      (c : Context H) (n : ℕ)
      → chunk_length c ≡ n
      → c.command_length ≤ length c.work_buffer
      → c.current_field_pos < c.current_field_length
      → c.current_field_length ≤ 8
      → process_authorization_account sha c
        ≡ at_end
            (finish_authorization_account
              (splice c.current_field_pos (take n c.work_buffer) (replicate 8 0)))
            (advance n (hash_tx_data sha (take n c.work_buffer) c))
  unfolding process_authorization_account
  account_step c n same inside open_ short =
      after_ok _ (field_name_ok c n same inside open_ short)
      ∙ after_ok _ (take_chunk_one sha store_nothing store_nothing_ok c n same inside open_)

  -- The context behind the first command, and the one behind both.
  abbrev gone : List ℕ → Context H → Context H
  gone xs c = advance (length xs) (hash_tx_data sha xs (command xs c))

  abbrev joined : List ℕ → List ℕ → Context H → Context H
  joined xs ys c =
      let m = length xs + length ys in
      advance m (hash_tx_data sha (take m (xs ++ ys)) (command (xs ++ ys) c))

  account_first :
      (c : Context H) (xs : List ℕ)
      → c.current_field_pos + length xs < c.current_field_length
      → c.current_field_length ≤ 8
      → process_authorization_account sha (command xs c) ≡ ok (gone xs c)
  unfolding at_end
  account_first c xs inside short =
      let not_yet : (c.current_field_pos + length xs == c.current_field_length) ≡ false =
        ground arith in
      account_step (command xs c) (length xs) (chunk_length_first c xs inside) (omega arith)
        (omega arith) short
      ∙ if_false _ _ _ not_yet
      ∙ ap (λ bytes. ok (advance (length xs) (hash_tx_data sha bytes (command xs c))))
          (take_all (length xs) xs (omega arith))

  last_chunk :
      (c : Context H) (xs ys : List ℕ)
      → c.current_field_pos ≡ 0
      → c.current_field_length ≡ 8
      → length xs + length ys ≡ 8
      → chunk_length (command ys (gone xs c)) ≡ length ys
  last_chunk c xs ys start eight all = ground arith

  account_last :
      (c : Context H) (xs ys : List ℕ)
      → IsStreaming sha
      → c.current_field_pos ≡ 0
      → c.current_field_length ≡ 8
      → length xs < 8
      → length xs + length ys ≡ 8
      → process_authorization_account sha (command ys (gone xs c))
        ≡ finish_authorization_account (replicate (length xs) 0 ++ ys) (joined xs ys c)
  unfolding at_end
  account_last c xs ys streaming start eight some_left all =
      let i = c.current_field_pos + length xs in
      let ended : (i + length ys == c.current_field_length) ≡ true = ground arith in
      account_step (command ys (gone xs c)) (length ys) (last_chunk c xs ys start eight all)
        (omega arith) (omega arith) (omega arith)
      ∙ if_true _ _ _ ended
      ∙ ap (finish_authorization_account (splice i (take (length ys) ys) (replicate 8 0)))
          (advance_joined sha c xs ys (length ys) (length xs + length ys) streaming refl)
      ∙ ap (λ bytes. finish_authorization_account (splice i bytes (replicate 8 0)) (joined xs ys c))
          (take_all (length ys) ys (omega arith))
      ∙ ap (λ name. finish_authorization_account name (joined xs ys c))
          (splice_zeros i xs ys (omega arith) all)

  account_whole :
      (c : Context H) (xs ys : List ℕ)
      → c.current_field_pos ≡ 0
      → c.current_field_length ≡ 8
      → length xs < 8
      → length xs + length ys ≡ 8
      → process_authorization_account sha (command (xs ++ ys) c)
        ≡ finish_authorization_account (xs ++ ys) (joined xs ys c)
  unfolding at_end
  account_whole c xs ys start eight some_left all =
      let m = length xs + length ys in
      let both : length (xs ++ ys) ≡ m = length-append xs ys in
      let ended : (c.current_field_pos + m == c.current_field_length) ≡ true = ground arith in
      account_step (command (xs ++ ys) c) m
        (chunk_length_both c (gone xs c) xs ys refl refl (omega arith)
          ∙ ap (λ k. length xs + k) (last_chunk c xs ys start eight all))
        (omega arith) (omega arith) (omega arith)
      ∙ if_true _ _ _ ended
      ∙ ap
          (λ bytes.
            finish_authorization_account (splice c.current_field_pos bytes (replicate 8 0))
              (joined xs ys c))
          (take_all m (xs ++ ys) (omega (arith, both)))
      ∙ ap
          (λ k. finish_authorization_account (splice k (xs ++ ys) (replicate 8 0)) (joined xs ys c))
          start
      ∙ ap (λ name. finish_authorization_account name (joined xs ys c))
          (splice_all (xs ++ ys) (replicate 8 0) (both ∙ all))

  -- What is done with a whole account: its text is stored.
  account_shown :
      (name : List ℕ) (c : Context H)
      → All IsByte name
      → length name ≡ 8
      → (d : Context H) × (finish_authorization_account name c ≡ ok d)
        × (d.sha256 ≡ c.sha256)
        × IsNameText d.current_authorization_name (le_value name)
  unfolding finish_authorization_account
  account_shown name c all_bytes eight =
      let (text, shown, is_text) =
        shown_name-IsNameText (le_value name) (le_value-IsU64 name all_bytes eight) in
      (
        record (leave_field c) { current_authorization_name = text },
        after_ok _ shown,
        refl,
        is_text,
      )

  -- The eight bytes of an authorization's account that come in two commands, the first of which has
  -- not all of them: both ways return, and the hash has all bytes in both. With all bytes in one
  -- command the text that is stored for the screen encodes to the account; with two commands it
  -- encodes to the account with zeros for the bytes of the first command.
  pub process_authorization_account_lossy :
      (c : Context H) (xs ys : List ℕ)
      → IsStreaming sha
      → All IsByte xs
      → All IsByte ys
      → c.current_field_pos ≡ 0
      → c.current_field_length ≡ 8
      → length xs < 8
      → length xs + length ys ≡ 8
      → ((d : Context H) × (process_authorization_account sha (command (xs ++ ys) c) ≡ ok d)
          × (d.sha256 ≡ sha.update c.sha256 (xs ++ ys))
          × IsNameText d.current_authorization_name (le_value (xs ++ ys)))
        × ((d : Context H) × ((process_authorization_account sha (command xs c) >>= λ first.
                process_authorization_account sha (command ys first))
              ≡ ok d)
            × (d.sha256 ≡ sha.update c.sha256 (xs ++ ys))
            × IsNameText d.current_authorization_name (le_value (replicate (length xs) 0 ++ ys)))
  process_authorization_account_lossy c xs ys streaming bytes_x bytes_y start eight some_left all =
      let zeros : List ℕ = replicate (length xs) 0 in
      let both : length (xs ++ ys) ≡ 8 = length-append xs ys ∙ all in
      let hashed : (joined xs ys c).sha256 ≡ sha.update c.sha256 (xs ++ ys) =
        ap (sha.update c.sha256)
          (take_all (length xs + length ys) (xs ++ ys) (omega (arith, length-append xs ys))) in
      let (d, whole, same, text) =
        account_shown (xs ++ ys) (joined xs ys c) (All-append IsByte xs ys bytes_x bytes_y) both in
      let (e, parts, kept, lossy) =
        account_shown (zeros ++ ys) (joined xs ys c)
          (All-append IsByte zeros ys (zeros-IsByte (length xs)) bytes_y)
          (length-append zeros ys
            ∙ ap (λ k. k + length ys) (length-replicate (length xs) 0)
            ∙ all) in
      (
        (d, account_whole c xs ys start eight some_left all ∙ whole, same ∙ hashed, text),
        (
          e,
          after_ok (λ x. process_authorization_account sha (command ys x))
                (account_first c xs (omega arith) (omega arith))
              ∙ account_last c xs ys streaming start eight some_left all
              ∙ parts,
          kept ∙ hashed,
          lossy,
        ),
      )
