-- ===== src/Stream/Handlers/Chunks/Each.antt =====
-- Every handler of a field hashes the bytes that it takes.
use ledger_app.Base.{◌≡◌, arith, ok, >>=-eq-ok, leb, ledger_assert}
use ledger_app.Stream.Context.{Sha256, Context, IsStreaming}
use ledger_app.Stream.Handlers.{
  store_nothing, store_size, store_account, store_action, store_data, store_unknown, finish_field,
  finish_zero_size, finish_action_list_size, finish_action_account, finish_action_name,
  finish_authorization_list_size, finish_authorization_account, finish_authorization_permission,
  finish_action_data, finish_unknown_action_data, process_unknown_action, field_name, process_field,
  process_zero_size_field, process_action_list_size_field, process_action_account,
  process_action_name, process_authorization_list_size_field, process_authorization_account,
  process_authorization_permission, process_unknown_action_data_size, process_unknown_action_data,
  process_action_data,
}
use ledger_app.Stream.Handlers.Chunks.{
  HashesBytes, handler-HashesBytes, stores_nothing, stores_size, stores_account, stores_action,
  stores_data, stores_unknown,
}

module _ {H : Type 0} (sha : Sha256 H) (streaming : IsStreaming sha) where
  pub process_field-HashesBytes :
      (c d : Context H) → process_field sha c ≡ ok d → HashesBytes sha c d
  unfolding process_field finish_field
  process_field-HashesBytes c d e =
      handler-HashesBytes sha streaming store_nothing stores_nothing finish_field
        (λ t u h. ground arith) c d e

  pub process_zero_size_field-HashesBytes :
      (c d : Context H) → process_zero_size_field sha c ≡ ok d → HashesBytes sha c d
  unfolding process_zero_size_field finish_zero_size
  process_zero_size_field-HashesBytes c d e =
      handler-HashesBytes sha streaming store_size stores_size finish_zero_size
        (λ t u h. ground arith) c d e

  pub process_action_list_size_field-HashesBytes :
      (c d : Context H) → process_action_list_size_field sha c ≡ ok d → HashesBytes sha c d
  unfolding process_action_list_size_field finish_action_list_size
  process_action_list_size_field-HashesBytes c d e =
      handler-HashesBytes sha streaming store_size stores_size finish_action_list_size
        (λ t u h. ground arith) c d e

  pub process_action_account-HashesBytes :
      (c d : Context H) → process_action_account sha c ≡ ok d → HashesBytes sha c d
  unfolding process_action_account finish_action_account
  process_action_account-HashesBytes c d e =
      handler-HashesBytes sha streaming store_account stores_account finish_action_account
        (λ t u h. ground arith) c d e

  pub process_action_name-HashesBytes :
      (c d : Context H) → process_action_name sha c ≡ ok d → HashesBytes sha c d
  unfolding process_action_name finish_action_name
  process_action_name-HashesBytes c d e =
      handler-HashesBytes sha streaming store_action stores_action finish_action_name
        (λ t u h. ground arith) c d e

  pub process_authorization_list_size_field-HashesBytes :
      (c d : Context H) → process_authorization_list_size_field sha c ≡ ok d → HashesBytes sha c d
  unfolding process_authorization_list_size_field finish_authorization_list_size
  process_authorization_list_size_field-HashesBytes c d e =
      handler-HashesBytes sha streaming store_size stores_size finish_authorization_list_size
        (λ t u h. ground arith) c d e

  pub process_authorization_account-HashesBytes :
      (c d : Context H) → process_authorization_account sha c ≡ ok d → HashesBytes sha c d
  unfolding process_authorization_account finish_authorization_account
  process_authorization_account-HashesBytes c d e =
      let (name, gathered, rest) = >>=-eq-ok (field_name c) _ e in
      handler-HashesBytes sha streaming store_nothing stores_nothing
        (finish_authorization_account name) (λ t u h. ground arith) c d rest

  pub process_authorization_permission-HashesBytes :
      (c d : Context H) → process_authorization_permission sha c ≡ ok d → HashesBytes sha c d
  unfolding process_authorization_permission finish_authorization_permission
  process_authorization_permission-HashesBytes c d e =
      let (name, gathered, rest) = >>=-eq-ok (field_name c) _ e in
      handler-HashesBytes sha streaming store_nothing stores_nothing
        (finish_authorization_permission name) (λ t u h. ground arith) c d rest

  pub process_unknown_action_data_size-HashesBytes :
      (c d : Context H) → process_unknown_action_data_size sha c ≡ ok d → HashesBytes sha c d
  unfolding process_unknown_action_data_size finish_field
  process_unknown_action_data_size-HashesBytes c d e =
      handler-HashesBytes sha streaming (store_unknown sha) (stores_unknown sha streaming)
        finish_field (λ t u h. ground arith) c d e

  pub process_unknown_action_data-HashesBytes :
      (c d : Context H) → process_unknown_action_data sha c ≡ ok d → HashesBytes sha c d
  unfolding process_unknown_action_data finish_unknown_action_data process_unknown_action
  process_unknown_action_data-HashesBytes c d e =
      handler-HashesBytes sha streaming (store_unknown sha) (stores_unknown sha streaming)
        (finish_unknown_action_data sha) (λ t u h. ground arith) c d e

  pub process_action_data-HashesBytes :
      (c d : Context H) → process_action_data sha c ≡ ok d → HashesBytes sha c d
  unfolding process_action_data finish_action_data
  process_action_data-HashesBytes c d e =
      let (u, fits, rest) = >>=-eq-ok (ledger_assert (leb c.current_field_length 511)) _ e in
      handler-HashesBytes sha streaming store_data stores_data finish_action_data
        (λ t u h. ground arith) c d rest
