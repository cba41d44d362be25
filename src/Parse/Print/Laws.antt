-- ===== src/Parse/Print/Laws.antt =====
-- What `printArgument` of src/eos_stream.c shows of the data of an action.
use ledger_app.Base.{
  ℕ, ◌+◌, ◌≤◌, ◌≡◌, ◌∙◌, ap, true, false, ◌||◌, if◌then◌else◌, Bool-cases, inl, inr, List, length,
  codes, All, IsByte, le_value, Outcome, ok, after_ok, if_true, if_false, arith, ltb, Bool,
  and_left, eq_of_==, sym,
}
use ledger_app.Types.Name.Laws.{text_to_name}
use ledger_app.Types.Asset.{asset_to_string}
use ledger_app.Types.Asset.Laws.{asset_to_string_short}
use ledger_app.Types.Key.{Platform}
use ledger_app.Stream.Context.{Context, Argument, contract_value, action_value}
use ledger_app.Stream.Known.{is_swapto, is_no_operation, is_transfer, token_transfer_action}
use ledger_app.Stream.Counts.{argument_count, process_token_transfer}
use ledger_app.Parse.Fields.Laws.{field}
use ledger_app.Parse.Token.{parse_token_transfer}
use ledger_app.Parse.Token.Laws.{
  transfer_data, name_field, transfer_from, transfer_to, transfer_quantity, transfer_memo,
  transfer_count,
}
use ledger_app.Parse.Print.{print_action, print_argument}

-- The context with an argument on the screen.
abbrev pub showing : {H : Type 0} → Context H → Argument → Context H
showing c arg = record c { content = record (c.content) { arg = arg } }

-- The arguments of a transfer: names whose texts stand for the bytes, the quantity and the memo.
pub record ShowsTransfer {H : Type 0} (platform : Platform) (c : Context H)
    (from to quantity memo : List ℕ) : Type 0 where
  pub count :
      argument_count
        (contract_value c)
        (action_value c)
        c.action_data_buffer
        c.current_action_data_buffer_length
        c.content.argument_count
      ≡ ok (if ltb 0 (length memo) then 4 else 3)
  pub from_text : List ℕ
  pub from_name : text_to_name from_text ≡ le_value from
  pub from_shown : print_argument platform 0 c ≡ ok (showing c (field (codes "From") from_text))
  pub to_text : List ℕ
  pub to_name : text_to_name to_text ≡ le_value to
  pub to_shown : print_argument platform 1 c ≡ ok (showing c (field (codes "To") to_text))
  pub quantity_shown :
      print_argument platform 2 c ≡ ok (showing c (field (codes "Quantity") quantity))
  pub memo_shown : print_argument platform 3 c ≡ ok (showing c (field (codes "Memo") memo))

-- A contract and an action that are a transfer.
abbrev pub transfers : ℕ → ℕ → Bool
transfers contract action = is_swapto contract action || is_transfer contract action

-- The action of a transfer is none of those without arguments.
transfer_operates :
    (contract action : ℕ)
    → is_transfer contract action ≡ true
    → is_no_operation contract action ≡ false
transfer_operates contract action transfer =
    let same : action ≡ token_transfer_action = eq_of_== _ _ (and_left _ _ transfer) in
    ap (is_no_operation contract) same

-- A choice that a transfer makes.
transfer_choice {ℓ} :
    {A : Type ℓ} (contract action : ℕ) (x y z : A)
    → transfers contract action ≡ true
    → (if is_swapto contract action
        then x
        else if is_no_operation contract action
        then y
        else if is_transfer contract action
        then x
        else z)
      ≡ x
transfer_choice contract action x y z transfer = elim (Bool-cases (is_swapto contract action)) [
  | inl swap ↦ if_true _ _ _ swap
  | inr no_swap ↦
      let moved : is_transfer contract action ≡ true =
        sym (ap (λ b. b || is_transfer contract action) no_swap) ∙ transfer in
      if_false _ _ _ no_swap
      ∙ if_false _ _ _ (transfer_operates contract action moved)
      ∙ if_true _ _ _ moved
]

module _ {H : Type 0} (platform : Platform) (c : Context H) where
  -- A transfer goes to its own function.
  print_transfer :
      (arg_num : ℕ) (arg : Argument)
      → transfers (contract_value c) (action_value c) ≡ true
      → parse_token_transfer c.action_data_buffer c.current_action_data_buffer_length arg_num
          c.content.arg
        ≡ ok arg
      → print_argument platform arg_num c ≡ ok (showing c arg)
  unfolding print_argument print_action
  print_transfer arg_num arg transfer parsed =
      after_ok _ (transfer_choice (contract_value c) (action_value c) _ _ _ transfer ∙ parsed)

  count_transfer :
      (n : ℕ)
      → transfers (contract_value c) (action_value c) ≡ true
      → process_token_transfer c.action_data_buffer c.current_action_data_buffer_length ≡ ok n
      → argument_count
          (contract_value c)
          (action_value c)
          c.action_data_buffer
          c.current_action_data_buffer_length
          c.content.argument_count
        ≡ ok n
  unfolding argument_count
  count_transfer n transfer counted =
      transfer_choice (contract_value c) (action_value c) _ _ _ transfer ∙ counted

  -- For the action of a transfer, with data of two names, an amount, a symbol and a memo of at most
  -- 127 characters behind its length, and an amount and symbol that have a text: there are four
  -- arguments, or three where the memo is empty; printed in turn, they are two names under "From"
  -- and "To" whose texts stand for exactly the names of the data, the text of the quantity, and the
  -- memo itself; nothing else of the context changes.
  pub print_argument-ShowsTransfer :
      (from to amount symbol memo rest quantity : List ℕ)
      → transfers (contract_value c) (action_value c) ≡ true
      → c.action_data_buffer ≡ transfer_data from to amount symbol memo rest
      → c.current_action_data_buffer_length ≡ 33 + length memo
      → All IsByte from
      → All IsByte to
      → length from ≡ 8
      → length to ≡ 8
      → length amount ≡ 8
      → length symbol ≡ 8
      → length memo ≤ 127
      → asset_to_string (record { amount = le_value amount; symbol = le_value symbol })
        ≡ ok quantity
      → ShowsTransfer platform c from to quantity memo
  print_argument-ShowsTransfer from to amount symbol memo rest quantity transfer buffer size
        from_bytes to_bytes f t a s short printed =
      let arg = c.content.arg in
      let (from_text, from_name, from_run, from_short) = name_field from from_bytes f in
      let (to_text, to_name, to_run, to_short) = name_field to to_bytes t in
      let fits = asset_to_string_short _ quantity printed in
      record {
        count = count_transfer _ transfer (
            on_data process_token_transfer
              (transfer_count from to amount symbol memo rest arg f t a s short));
        from_text = from_text;
        from_name = from_name;
        from_shown = print_transfer 0 _ transfer (
            on_data (λ b n. parse_token_transfer b n 0 arg)
              (transfer_from from to amount symbol memo rest arg from_text f from_run from_short));
        to_text = to_text;
        to_name = to_name;
        to_shown = print_transfer 1 _ transfer (
            on_data (λ b n. parse_token_transfer b n 1 arg)
              (transfer_to from to amount symbol memo rest arg to_text f t short to_run to_short));
        quantity_shown = print_transfer 2 _ transfer (
            on_data (λ b n. parse_token_transfer b n 2 arg)
              (transfer_quantity from to amount symbol memo rest arg quantity f t a s short printed
                (omega arith)));
        memo_shown = print_transfer 3 _ transfer (
            on_data (λ b n. parse_token_transfer b n 3 arg)
              (transfer_memo from to amount symbol memo rest arg f t a s short));
      }
    where
      on_data :
          {A : Type 0} (run : List ℕ → ℕ → Outcome A) {x : A}
          → run (transfer_data from to amount symbol memo rest) (33 + length memo) ≡ ok x
          → run c.action_data_buffer c.current_action_data_buffer_length ≡ ok x
      on_data run e =
          ap (λ b. run b c.current_action_data_buffer_length) buffer
          ∙ ap (run (transfer_data from to amount symbol memo rest)) size
          ∙ e
