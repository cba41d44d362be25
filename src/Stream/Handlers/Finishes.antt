-- ===== src/Stream/Handlers/Finishes.antt =====
-- What the stores and the ends of the handlers keep of the context.
use ledger_app.Base.{ℕ, ◌≡◌, false, List, arith, length-splice, ok}
use ledger_app.Stream.Context.{Context}
use ledger_app.Stream.Fields.Shape.{HasSizes, SameShape}
use ledger_app.Stream.Handlers.{
  store_nothing, store_size, store_account, store_action, store_data, finish_field,
  finish_zero_size, finish_action_list_size, finish_action_account, finish_action_name,
  finish_authorization_list_size, finish_authorization_account, finish_authorization_permission,
  finish_action_data,
}

module _ {H : Type 0} where
  pub store_nothing-SameShape :
      (n : ℕ) (bytes : List ℕ) (c d : Context H) → store_nothing n bytes c ≡ ok d → SameShape c d
  unfolding store_nothing
  store_nothing-SameShape n bytes c d e = ground arith

  pub store_size-SameShape :
      (n : ℕ) (bytes : List ℕ) (c d : Context H) → store_size n bytes c ≡ ok d → SameShape c d
  unfolding store_size
  store_size-SameShape n bytes c d e =
      ground (arith, length-splice c.current_field_pos bytes c.size_buffer)

  pub store_account-SameShape :
      (n : ℕ) (bytes : List ℕ) (c d : Context H) → store_account n bytes c ≡ ok d → SameShape c d
  unfolding store_account
  store_account-SameShape n bytes c d e =
      ground (arith, length-splice c.current_field_pos bytes c.contract_name)

  pub store_action-SameShape :
      (n : ℕ) (bytes : List ℕ) (c d : Context H) → store_action n bytes c ≡ ok d → SameShape c d
  unfolding store_action
  store_action-SameShape n bytes c d e =
      ground (arith, length-splice c.current_field_pos bytes c.contract_action_name)

  pub store_data-SameShape :
      (n : ℕ) (bytes : List ℕ) (c d : Context H) → store_data n bytes c ≡ ok d → SameShape c d
  unfolding store_data
  store_data-SameShape n bytes c d e =
      ground (arith, length-splice c.current_field_pos bytes c.action_data_buffer)

  -- The end of a field closes it, and leaves the command and the sizes as they are.
  pub record Finished (c d : Context H) : Type 0 where
    pub closed : d.processing_field ≡ false
    pub same_command : d.command_length ≡ c.command_length
    pub same_tlv : d.tlv_buffer_pos ≡ c.tlv_buffer_pos
    pub finished_sizes : HasSizes d

  pub finish_field-Finished : (c d : Context H) → HasSizes c → finish_field c ≡ ok d → Finished c d
  unfolding finish_field
  finish_field-Finished c d s e = ground arith

  pub finish_zero_size-Finished :
      (c d : Context H) → HasSizes c → finish_zero_size c ≡ ok d → Finished c d
  unfolding finish_zero_size
  finish_zero_size-Finished c d s e = ground arith

  pub finish_action_list_size-Finished :
      (c d : Context H) → HasSizes c → finish_action_list_size c ≡ ok d → Finished c d
  unfolding finish_action_list_size
  finish_action_list_size-Finished c d s e = ground arith

  pub finish_action_account-Finished :
      (c d : Context H) → HasSizes c → finish_action_account c ≡ ok d → Finished c d
  unfolding finish_action_account
  finish_action_account-Finished c d s e = ground arith

  pub finish_action_name-Finished :
      (c d : Context H) → HasSizes c → finish_action_name c ≡ ok d → Finished c d
  unfolding finish_action_name
  finish_action_name-Finished c d s e = ground arith

  pub finish_authorization_list_size-Finished :
      (c d : Context H) → HasSizes c → finish_authorization_list_size c ≡ ok d → Finished c d
  unfolding finish_authorization_list_size
  finish_authorization_list_size-Finished c d s e = ground arith

  pub finish_authorization_account-Finished :
      (name : List ℕ) (c d : Context H)
      → HasSizes c
      → finish_authorization_account name c ≡ ok d
      → Finished c d
  unfolding finish_authorization_account
  finish_authorization_account-Finished name c d s e = ground arith

  pub finish_authorization_permission-Finished :
      (name : List ℕ) (c d : Context H)
      → HasSizes c
      → finish_authorization_permission name c ≡ ok d
      → Finished c d
  unfolding finish_authorization_permission
  finish_authorization_permission-Finished name c d s e = ground arith

  pub finish_action_data-Finished :
      (c d : Context H) → HasSizes c → finish_action_data c ≡ ok d → Finished c d
  unfolding finish_action_data
  finish_action_data-Finished c d s e = ground arith
