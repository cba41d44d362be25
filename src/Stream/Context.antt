-- ===== src/Stream/Context.antt =====
-- The parser's state: `txProcessingContext_t` and `txProcessingContent_t` of src/eos_stream.h, and
-- `initTxContext`.
use ledger_app.Base.{ℕ, Bool, true, false, List, [], ◌++◌, ◌≡◌, replicate, le_value}

-- `txProcessingState_e`.
pub data TxState : Type 0 where
  tlv_none tlv_chain_id tlv_header_expiration tlv_header_ref_block_num : TxState
  tlv_header_ref_block_prefix tlv_header_max_net_usage_words : TxState
  tlv_header_max_cpu_usage_ms tlv_header_delay_sec tlv_cfa_list_size : TxState
  tlv_action_list_size tlv_action_account tlv_action_name : TxState
  tlv_authorization_list_size tlv_authorization_actor tlv_authorization_permission : TxState
  tlv_action_data_size tlv_action_data tlv_tx_extension_list_size : TxState
  tlv_context_free_data tlv_done : TxState

-- `state++`. The parser returns before it steps on from the last state.
unfoldable pub next_state : TxState → TxState
next_state tlv_none = tlv_chain_id
next_state tlv_chain_id = tlv_header_expiration
next_state tlv_header_expiration = tlv_header_ref_block_num
next_state tlv_header_ref_block_num = tlv_header_ref_block_prefix
next_state tlv_header_ref_block_prefix = tlv_header_max_net_usage_words
next_state tlv_header_max_net_usage_words = tlv_header_max_cpu_usage_ms
next_state tlv_header_max_cpu_usage_ms = tlv_header_delay_sec
next_state tlv_header_delay_sec = tlv_cfa_list_size
next_state tlv_cfa_list_size = tlv_action_list_size
next_state tlv_action_list_size = tlv_action_account
next_state tlv_action_account = tlv_action_name
next_state tlv_action_name = tlv_authorization_list_size
next_state tlv_authorization_list_size = tlv_authorization_actor
next_state tlv_authorization_actor = tlv_authorization_permission
next_state tlv_authorization_permission = tlv_action_data_size
next_state tlv_action_data_size = tlv_action_data
next_state tlv_action_data = tlv_tx_extension_list_size
next_state tlv_tx_extension_list_size = tlv_context_free_data
next_state tlv_context_free_data = tlv_done
next_state tlv_done = tlv_done

abbrev pub is_done : TxState → Bool
is_done tlv_done = true
is_done _ = false

-- The SDK's SHA-256: `init` is `cx_sha256_init`, `update` is `cx_hash_no_throw` with no flag, which
-- takes bytes in, `digest` is the output of `cx_hash_no_throw` with CX_LAST, and `finish` is what
-- that call leaves of the state. The calls are
-- documented to fail only on a malformed context or output buffer, which the code never passes.
pub record Sha256 (H : Type 0) : Type 0 where
  pub init : H
  pub update : H → List ℕ → H
  pub digest : H → List ℕ
  pub finish : H → H

-- Streaming: two updates are one with the bytes joined, and no byte changes nothing.
pub record IsStreaming {H : Type 0} (sha : Sha256 H) : Type 0 where
  pub update-nil : (h : H) → sha.update h [] ≡ h
  pub update-append :
      (h : H) (xs ys : List ℕ) → sha.update (sha.update h xs) ys ≡ sha.update h (xs ++ ys)

-- `actionArgument_t`: two arrays of 32 and 128 characters.
pub record Argument : Type 0 where
  pub label : List ℕ
  pub value : List ℕ

-- `argumentCount` is a `char`, which is unsigned on the devices' ARM.
pub record Content : Type 0 where
  pub no_data : ℕ
  pub argument_count : ℕ
  pub contract : List ℕ
  pub action : List ℕ
  pub arg : Argument

-- Arrays are lists of their length. The two names are kept as the eight bytes of a `name_t`, since
-- the fields are written byte by byte. `work_buffer` is the memory from the pointer on.
pub record Context (H : Type 0) : Type 0 where
  pub state : TxState
  pub action_ready : Bool
  pub confirm_processing : Bool
  pub sha256 : H
  pub data_sha256 : H
  pub current_field_length : ℕ
  pub current_field_pos : ℕ
  pub current_authorization_index : ℕ
  pub current_authorization_number : ℕ
  pub current_authorization_name : List ℕ
  pub current_authorization_permission : List ℕ
  pub current_action_index : ℕ
  pub current_action_number : ℕ
  pub current_action_data_buffer_length : ℕ
  pub processing_field : Bool
  pub tlv_buffer : List ℕ
  pub tlv_buffer_pos : ℕ
  pub work_buffer : List ℕ
  pub command_length : ℕ
  pub contract_name : List ℕ
  pub contract_action_name : List ℕ
  pub size_buffer : List ℕ
  pub action_data_buffer : List ℕ
  pub unknown_action_allowed : ℕ
  pub is_verbose : ℕ
  pub data_checksum : List ℕ
  pub content : Content

module _ {H : Type 0} where
  -- The `name_t` values of the two names.
  abbrev pub contract_value : Context H → ℕ
  contract_value c = le_value c.contract_name

  abbrev pub action_value : Context H → ℕ
  action_value c = le_value c.contract_action_name

  -- `initTxContext`; of the content only `noData` is reset.
  abbrev pub init_tx_context : Sha256 H → Content → ℕ → ℕ → Context H
  init_tx_context sha content allow_unknown_action verbose_setting = record {
    state = tlv_chain_id;
    action_ready = false;
    confirm_processing = false;
    sha256 = sha.init;
    data_sha256 = sha.init;
    current_field_length = 0;
    current_field_pos = 0;
    current_authorization_index = 0;
    current_authorization_number = 0;
    current_authorization_name = replicate 14 0;
    current_authorization_permission = replicate 14 0;
    current_action_index = 0;
    current_action_number = 0;
    current_action_data_buffer_length = 0;
    processing_field = false;
    tlv_buffer = replicate 5 0;
    tlv_buffer_pos = 0;
    work_buffer = [];
    command_length = 0;
    contract_name = replicate 8 0;
    contract_action_name = replicate 8 0;
    size_buffer = replicate 12 0;
    action_data_buffer = replicate 512 0;
    unknown_action_allowed = allow_unknown_action;
    is_verbose = verbose_setting;
    data_checksum = replicate 32 0;
    content = record content { no_data = 0 };
  }
