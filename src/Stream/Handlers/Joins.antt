-- ===== src/Stream/Handlers/Joins.antt =====
-- A contract's name that comes in two commands.
use ledger_app.Base.{
  ℕ, zero, suc, ◌+◌, ◌-◌, ◌≤◌, ◌<◌, ◌≡◌, ◌∙◌, refl, ap, sym, false, arith, List, [], ◌∷◌, ◌++◌,
  length, length-append, length-take, take, drop, take_all, drop_all, take-append_all,
  take-append_past, drop-append_past, ok, ◌>>=◌, after_ok, le→leb, ledger_assert, splice,
  length-splice, if_true, if_false, sub32, ◌==◌, append_assoc,
}
use ledger_app.Stream.Context.{Sha256, Context, IsStreaming}
use ledger_app.Stream.Fields.{take_chunk, at_end, chunk_length, advance, hash_tx_data}
use ledger_app.Stream.Fields.Shape.{take_chunk_open, chunk_length_bounds}
use ledger_app.Stream.Fields.Split.{command, chunk_length_first, chunk_length_both}
use ledger_app.Stream.Handlers.{store_account, process_action_account, finish_action_account}

drop-drop : {A : Type 0} (k n m : ℕ) (xs : List A) → k ≡ m + n → drop n (drop m xs) ≡ drop k xs
drop-drop k n zero xs h = ap (λ i. drop i xs) (let e : n ≡ k = omega arith in e)
drop-drop k n (suc m) [] h = drop_all n [] (omega arith) ∙ sym (drop_all k [] (omega arith))
drop-drop zero n (suc m) (x ∷ xs) h = absurd (omega arith)
drop-drop (suc k) n (suc m) (x ∷ xs) h = drop-drop k n m xs (omega arith)

-- Two writes, one behind the other, are one write.
splice-splice :
    (p : ℕ) (xs ys array : List ℕ)
    → p + length xs + length ys ≤ length array
    → splice (p + length xs) ys (splice p xs array) ≡ splice p (xs ++ ys) array
splice-splice p xs ys array room =
    let rest = drop (p + length xs) array in
    let front : length (take p array) ≡ p = length-take p array ∙ omega arith in
    let first : take (p + length xs) (splice p xs array) ≡ take p array ++ xs =
      take-append_past (p + length xs) (length xs) (take p array) (xs ++ rest)
        (omega (arith, front))
      ∙ ap (λ t. take p array ++ t) (take-append_all (length xs) xs rest refl) in
    let behind : drop (p + length xs + length ys) (splice p xs array)
        ≡ drop (p + length (xs ++ ys)) array =
      drop-append_past (p + length xs + length ys) (length xs + length ys) (take p array)
        (xs ++ rest) (omega (arith, front))
      ∙ drop-append_past (length xs + length ys) (length ys) xs rest refl
      ∙ drop-drop (p + length (xs ++ ys)) (length ys) (p + length xs) array
          (omega (arith, length-append xs ys)) in
    ap (λ t. t ++ (ys ++ drop (p + length xs + length ys) (splice p xs array))) first
    ∙ ap (λ t. (take p array ++ xs) ++ (ys ++ t)) behind
    ∙ append_assoc (take p array) xs (ys ++ drop (p + length (xs ++ ys)) array)
    ∙ ap (λ t. take p array ++ t) (sym (append_assoc xs ys (drop (p + length (xs ++ ys)) array)))

module _ {H : Type 0} where
  abbrev put : List ℕ → Context H → Context H
  put bytes c = record c { contract_name = splice c.current_field_pos bytes c.contract_name }

  store_account_ok :
      (n : ℕ) (bytes : List ℕ) (c : Context H)
      → n ≤ c.command_length
      → length bytes ≡ n
      → c.current_field_pos + n ≤ 8
      → length c.contract_name ≡ 8
      → store_account n bytes c ≡ ok (put bytes c)
  unfolding store_account
  store_account_ok n bytes c in_command size in_name room =
      after_ok _ (ap ledger_assert (le→leb n c.command_length in_command))
      ∙ after_ok _ (ap ledger_assert (le→leb n (sub32 12 c.current_field_pos) (omega arith)))
      ∙ after_ok _ (
          if_true _ _ _
            (le→leb (c.current_field_pos + length bytes) (length c.contract_name) (omega arith)))

  advance-put :
      (sha : Sha256 H) (c : Context H) (xs ys : List ℕ) (n m : ℕ)
      → IsStreaming sha
      → m ≡ length xs + n
      → n ≤ length ys
      → c.current_field_pos + m ≤ 8
      → length c.contract_name ≡ 8
      → advance n (
          put (take n ys) (
            hash_tx_data sha
              (take n ys)
              (command ys (advance (length xs) (put xs (hash_tx_data sha xs (command xs c)))))))
        ≡ advance m
            (put (take m (xs ++ ys)) (hash_tx_data sha (take m (xs ++ ys)) (command (xs ++ ys) c)))
  advance-put sha c xs ys n m streaming joined some_left in_name room =
      let p = c.current_field_pos in
      let bytes : take m (xs ++ ys) ≡ xs ++ take n ys = take-append_past m n xs ys joined in
      let hash : sha.update (sha.update c.sha256 xs) (take n ys)
          ≡ sha.update c.sha256 (take m (xs ++ ys)) =
        streaming.update-append c.sha256 xs (take n ys) ∙ ap (sha.update c.sha256) (sym bytes) in
      let size : length (take n ys) ≡ n = length-take n ys ∙ omega arith in
      let name : splice (p + length xs) (take n ys) (splice p xs c.contract_name)
          ≡ splice p (take m (xs ++ ys)) c.contract_name =
        splice-splice p xs (take n ys) c.contract_name (omega (arith, size))
        ∙ ap (λ t. splice p t c.contract_name) (sym bytes) in
      let work : drop n ys ≡ drop m (xs ++ ys) = sym (drop-append_past m n xs ys joined) in
      let left : length ys - n ≡ length (xs ++ ys) - m =
        let e = length-append xs ys in omega arith in
      let pos : p + length xs + n ≡ p + m = omega arith in cc (hash, name, work, left, pos)

module _ {H : Type 0} (sha : Sha256 H) where
  take_account :
      (c : Context H) (n : ℕ)
      → chunk_length c ≡ n
      → c.command_length ≤ length c.work_buffer
      → c.current_field_pos < c.current_field_length
      → c.current_field_length ≤ 8
      → length c.contract_name ≡ 8
      → take_chunk sha store_account c
        ≡ ok (advance n (put (take n c.work_buffer) (hash_tx_data sha (take n c.work_buffer) c)))
  take_account c n same inside open_ short room =
      let (in_command, in_field, _) = chunk_length_bounds c (omega arith) in
      let size : length (take (chunk_length c) c.work_buffer) ≡ chunk_length c =
        length-take (chunk_length c) c.work_buffer ∙ omega (arith, in_command) in
      take_chunk_open sha store_account c inside open_
      ∙ after_ok _ (
          store_account_ok (chunk_length c) (take (chunk_length c) c.work_buffer)
            (hash_tx_data sha (take (chunk_length c) c.work_buffer) c) in_command size
            (omega (arith, in_field)) room)
      ∙ ap
          (λ k.
            ok (advance k (put (take k c.work_buffer) (hash_tx_data sha (take k c.work_buffer) c))))
          same

  -- The name of a contract, of at most eight bytes, of which the first of two commands has not all,
  -- is processed by the two commands as by one with the bytes of both: the same name is kept and
  -- shown, with the same hash and the same rest of the command.
  pub process_action_account-append :
      (c : Context H) (xs ys : List ℕ)
      → IsStreaming sha
      → c.current_field_pos + length xs < c.current_field_length
      → c.current_field_length ≤ 8
      → length c.contract_name ≡ 8
      → (process_action_account sha (command xs c) >>= λ d.
          process_action_account sha (command ys d))
        ≡ process_action_account sha (command (xs ++ ys) c)
  unfolding process_action_account at_end
  process_action_account-append c xs ys streaming inside short room =
      let d : Context H = advance (length xs) (put xs (hash_tx_data sha xs (command xs c))) in
      let n = chunk_length (command ys d) in
      let m = length xs + n in
      let wide : length (splice c.current_field_pos xs c.contract_name) ≡ 8 =
        length-splice c.current_field_pos xs c.contract_name (omega arith) ∙ room in
      let first : take_chunk sha store_account (command xs c) ≡ ok d =
        take_account (command xs c) (length xs) (chunk_length_first c xs inside) (omega arith)
          (omega arith) short room
        ∙ ap (λ bytes. ok (advance (length xs) (put bytes (hash_tx_data sha bytes (command xs c)))))
            (take_all (length xs) xs (omega arith)) in
      let not_yet : (d.current_field_pos == d.current_field_length) ≡ false = ground arith in
      let first_ends : process_action_account sha (command xs c) ≡ ok d =
        after_ok (at_end finish_action_account) first ∙ if_false _ _ _ not_yet in
      let second =
        take_account (command ys d) n refl (omega arith) (omega arith) (omega arith) wide in
      let whole =
        take_account (command (xs ++ ys) c) m (chunk_length_both c d xs ys refl refl inside)
          (omega arith) (omega arith) short room in
      let (in_command, in_field, _) = chunk_length_bounds (command ys d) (omega arith) in
      after_ok (λ e. process_action_account sha (command ys e)) first_ends
      ∙ after_ok (at_end finish_action_account) second
      ∙ ap (at_end finish_action_account)
          (advance-put sha c xs ys n m streaming refl in_command (omega (arith, in_field)) room)
      ∙ sym (after_ok (at_end finish_action_account) whole)
