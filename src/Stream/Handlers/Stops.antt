-- ===== src/Stream/Handlers/Stops.antt =====
-- The field handlers use no fuel.
use ledger_app.Base.{ℕ, List, Outcome, ◌>>=◌}
use ledger_app.Base.Ends.{Ends, ends, Ends->>=, Ends-assert}
use ledger_app.Types.Name.{name_to_string}
use ledger_app.Stream.Context.{Sha256, Context}
use ledger_app.Stream.Fields.{take_chunk, at_end}
use ledger_app.Stream.Counts.Stops.{Ends-unpack, Ends-argument_count}
use ledger_app.Stream.Handlers.{
  shown_name, field_name, read_size, store_nothing, store_size, store_account, store_action,
  store_data, store_unknown, finish_field, finish_zero_size, finish_action_list_size,
  finish_action_account, finish_action_name, finish_authorization_list_size,
  finish_authorization_account, finish_authorization_permission, finish_action_data,
  finish_unknown_action_data, process_field, process_zero_size_field,
  process_action_list_size_field, process_action_account, process_action_name,
  process_authorization_list_size_field, process_authorization_account,
  process_authorization_permission, process_unknown_action_data_size, process_unknown_action_data,
  process_action_data,
}

Ends-name_to_string : (value size : ℕ) → Ends (name_to_string value size)
unfolding name_to_string
Ends-name_to_string value size = search ends

Ends-shown_name : (value : ℕ) → Ends (shown_name value)
unfolding shown_name
Ends-shown_name value = search (ends, Ends-name_to_string)

module _ {H : Type 0} where
  Ends-field_name : (c : Context H) → Ends (field_name c)
  unfolding field_name
  Ends-field_name c = search ends depth 20

  Ends-read_size : (c : Context H) → Ends (read_size c)
  unfolding read_size
  Ends-read_size c = search (ends, Ends-unpack)

module _ {H : Type 0} (sha : Sha256 H) where
  Ends-handler :
      (store : ℕ → List ℕ → Context H → Outcome (Context H))
      (finish : Context H → Outcome (Context H))
      → ((n : ℕ) (bytes : List ℕ) (c : Context H) → Ends (store n bytes c))
      → ((c : Context H) → Ends (finish c))
      → (c : Context H) → Ends (take_chunk sha store c >>= at_end finish)
  unfolding take_chunk at_end
  Ends-handler store finish stores finishes c = search (ends, stores, finishes) depth 20

  pub Ends-process_field : (c : Context H) → Ends (process_field sha c)
  unfolding process_field store_nothing finish_field
  Ends-process_field = Ends-handler _ _ (λ n b c. search ends) (λ c. search ends)

  pub Ends-process_zero_size_field : (c : Context H) → Ends (process_zero_size_field sha c)
  unfolding process_zero_size_field store_size finish_zero_size
  Ends-process_zero_size_field =
      Ends-handler _ _ (λ n b c. search ends depth 20) (λ c. search (ends, Ends-read_size) depth 20)

  pub Ends-process_action_list_size_field :
      (c : Context H) → Ends (process_action_list_size_field sha c)
  unfolding process_action_list_size_field store_size finish_action_list_size
  Ends-process_action_list_size_field =
      Ends-handler _ _ (λ n b c. search ends depth 20) (λ c. search (ends, Ends-read_size) depth 20)

  pub Ends-process_action_account : (c : Context H) → Ends (process_action_account sha c)
  unfolding process_action_account store_account finish_action_account
  Ends-process_action_account =
      Ends-handler _ _ (λ n b c. search ends depth 20)
        (λ c. search (ends, Ends-shown_name) depth 20)

  pub Ends-process_action_name : (c : Context H) → Ends (process_action_name sha c)
  unfolding process_action_name store_action finish_action_name
  Ends-process_action_name =
      Ends-handler _ _ (λ n b c. search ends depth 20)
        (λ c. search (ends, Ends-shown_name) depth 20)

  pub Ends-process_authorization_list_size_field :
      (c : Context H) → Ends (process_authorization_list_size_field sha c)
  unfolding process_authorization_list_size_field store_size finish_authorization_list_size
  Ends-process_authorization_list_size_field =
      Ends-handler _ _ (λ n b c. search ends depth 20) (λ c. search (ends, Ends-read_size) depth 20)

  pub Ends-process_authorization_account :
      (c : Context H) → Ends (process_authorization_account sha c)
  unfolding process_authorization_account store_nothing finish_authorization_account
  Ends-process_authorization_account c = Ends->>= (Ends-field_name c) λ name.
      Ends-handler _ _ (λ n b c. search ends) (λ c. search (ends, Ends-shown_name) depth 20) c

  pub Ends-process_authorization_permission :
      (c : Context H) → Ends (process_authorization_permission sha c)
  unfolding process_authorization_permission store_nothing finish_authorization_permission
  Ends-process_authorization_permission c = Ends->>= (Ends-field_name c) λ name.
      Ends-handler _ _ (λ n b c. search ends) (λ c. search (ends, Ends-shown_name) depth 20) c

  pub Ends-process_unknown_action_data_size :
      (c : Context H) → Ends (process_unknown_action_data_size sha c)
  unfolding process_unknown_action_data_size store_unknown finish_field
  Ends-process_unknown_action_data_size = Ends-handler _ _ (λ n b c. search ends) (λ c. search ends)

  pub Ends-process_unknown_action_data : (c : Context H) → Ends (process_unknown_action_data sha c)
  unfolding process_unknown_action_data store_unknown finish_unknown_action_data
  Ends-process_unknown_action_data = Ends-handler _ _ (λ n b c. search ends) (λ c. search ends)

  pub Ends-process_action_data : (c : Context H) → Ends (process_action_data sha c)
  unfolding process_action_data store_data finish_action_data
  Ends-process_action_data c = Ends->>= (Ends-assert _) λ u.
      Ends-handler _ _ (λ n b c. search ends depth 20)
        (λ c. search (ends, Ends-argument_count) depth 20) c
