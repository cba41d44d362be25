-- ===== src/Stream/Fields/Split.antt =====
-- A field that comes in two commands.
use ledger_app.Base.{
  ℕ, ◌+◌, ◌-◌, ◌≤◌, ◌<◌, ◌≡◌, ◌∙◌, refl, ap, sym, false, arith, List, ◌++◌, length, length-append,
  take, drop, take_all, take-append_past, drop-append_past, Outcome, ok, ◌>>=◌, ◌==◌, if_false,
  after_ok,
}
use ledger_app.Stream.Context.{Sha256, Context, IsStreaming}
use ledger_app.Stream.Fields.{take_chunk, at_end, chunk_length, advance, hash_tx_data}
use ledger_app.Stream.Fields.Shape.{take_chunk_open, chunk_length_bounds}

-- The context with the bytes of a command.
abbrev pub command : {H : Type 0} → List ℕ → Context H → Context H
command bytes c = record c { work_buffer = bytes; command_length = length bytes }

module _ {H : Type 0} where
  -- The first command ends inside the field: its chunk is the whole command.
  pub chunk_length_first :
      (c : Context H) (xs : List ℕ)
      → c.current_field_pos + length xs < c.current_field_length
      → chunk_length (command xs c) ≡ length xs
  chunk_length_first c xs inside = ground arith

  pub chunk_length_both :
      (c d : Context H) (xs ys : List ℕ)
      → d.current_field_length ≡ c.current_field_length
      → d.current_field_pos ≡ c.current_field_pos + length xs
      → c.current_field_pos + length xs < c.current_field_length
      → chunk_length (command (xs ++ ys) c) ≡ length xs + chunk_length (command ys d)
  chunk_length_both c d xs ys same_length same_pos inside =
      let joined = length-append xs ys in ground arith

  -- What the two chunks leave is what one chunk of the joined bytes leaves.
  pub advance_joined :
      (sha : Sha256 H) (c : Context H) (xs ys : List ℕ) (n m : ℕ)
      → IsStreaming sha
      → m ≡ length xs + n
      → advance n (
          hash_tx_data sha
            (take n ys)
            (command ys (advance (length xs) (hash_tx_data sha xs (command xs c)))))
        ≡ advance m (hash_tx_data sha (take m (xs ++ ys)) (command (xs ++ ys) c))
  advance_joined sha c xs ys n m streaming joined =
      let hash : sha.update (sha.update c.sha256 xs) (take n ys)
          ≡ sha.update c.sha256 (take m (xs ++ ys)) =
        streaming.update-append c.sha256 xs (take n ys)
        ∙ ap (sha.update c.sha256) (sym (take-append_past m n xs ys joined)) in
      let work : drop n ys ≡ drop m (xs ++ ys) = sym (drop-append_past m n xs ys joined) in
      let left : length ys - n ≡ length (xs ++ ys) - m =
        let e = length-append xs ys in omega arith in
      let pos : c.current_field_pos + length xs + n ≡ c.current_field_pos + m = omega arith in
      cc (hash, work, left, pos)

module _ {H : Type 0} (sha : Sha256 H) (store : ℕ → List ℕ → Context H → Outcome (Context H))
    (stores : (n : ℕ) (bytes : List ℕ) (c : Context H)
      → n ≤ c.command_length
      → store n bytes c ≡ ok c) where
  pub take_chunk_one :
      (c : Context H) (n : ℕ)
      → chunk_length c ≡ n
      → c.command_length ≤ length c.work_buffer
      → c.current_field_pos < c.current_field_length
      → take_chunk sha store c ≡ ok (advance n (hash_tx_data sha (take n c.work_buffer) c))
  take_chunk_one c n same inside open_ =
      take_chunk_open sha store c inside open_
      ∙ after_ok _ (stores _ _ _ (chunk_length_bounds c (omega arith)).0)
      ∙ ap (λ k. ok (advance k (hash_tx_data sha (take k c.work_buffer) c))) same

  -- A field whose bytes come in two commands, the first of which ends inside it, is taken and ended
  -- as it is when they come in one.
  pub take_chunk-split :
      (finish : Context H → Outcome (Context H)) (c : Context H) (xs ys : List ℕ)
      → IsStreaming sha
      → c.current_field_pos + length xs < c.current_field_length
      → (take_chunk sha store (command xs c) >>= at_end finish >>= λ d.
          take_chunk sha store (command ys d) >>= at_end finish)
        ≡ (take_chunk sha store (command (xs ++ ys) c) >>= at_end finish)
  unfolding at_end
  take_chunk-split finish c xs ys streaming inside =
      let d = advance (length xs) (hash_tx_data sha xs (command xs c)) in
      let n = chunk_length (command ys d) in
      let first : take_chunk sha store (command xs c) ≡ ok d =
        take_chunk_one (command xs c) (length xs) (chunk_length_first c xs inside) (omega arith)
          (omega arith)
        ∙ ap (λ bytes. ok (advance (length xs) (hash_tx_data sha bytes (command xs c))))
            (take_all (length xs) xs (omega arith)) in
      let second = take_chunk_one (command ys d) n refl (omega arith) (omega arith) in
      let whole =
        take_chunk_one (command (xs ++ ys) c) (length xs + n)
          (chunk_length_both c d xs ys refl refl inside) (omega arith) (omega arith) in
      let not_yet : (d.current_field_pos == d.current_field_length) ≡ false = ground arith in
      let first_ends : (take_chunk sha store (command xs c) >>= at_end finish) ≡ ok d =
        after_ok (at_end finish) first ∙ if_false _ _ _ not_yet in
      after_ok (λ e. take_chunk sha store (command ys e) >>= at_end finish) first_ends
      ∙ after_ok (at_end finish) second
      ∙ ap (at_end finish) (advance_joined sha c xs ys n (length xs + n) streaming refl)
      ∙ sym (after_ok (at_end finish) whole)
