-- ===== src/Tests/Reviews.antt =====
-- The reviews on small transactions.
use ledger_app.Base.{
  ℕ, ◌≡◌, ◌≢◌, refl, arith, stuck, true, false, List, [], ◌∷◌, ◌++◌, replicate, ok, codes,
}
use ledger_app.Base.Ends.{Ends, ends_ok}
use ledger_app.Stream.Context.{Context, Content, tlv_tx_extension_list_size, tlv_done}
use ledger_app.Stream.Fields.Shape.{IsWellFormed}
use ledger_app.Stream.Machine.Progress.{left_over}
use ledger_app.App.StateNeutral.{equals_literal, lower_text, is_state_neutral_action}
use ledger_app.App.StateNeutral.Laws.{IsNeutral, is_state_neutral_action-IsNeutral}
use ledger_app.App.Sign.{App}
use ledger_app.App.Device.{Device, SignHash, screen, action_flow}
use ledger_app.App.Review.{skips_review, name_identity, review_loop}
use ledger_app.App.Bagl
use ledger_app.App.Bagl.Laws.{
  ui_display_single_action_sign_flow-ne-stuck, ui_display_single_action_sign_flow_verbose,
}
use ledger_app.App.Nbgl
use ledger_app.App.Nbgl.Laws.{ui_display_single_action_sign_flow_stops}
use ledger_app.Tests.Toy.{toy, fresh, blank}

abbrev reply : List ℕ
reply = replicate 65 7

abbrev pub sign : SignHash
sign path hash = ok reply

-- The action `identity` of the contract without a name, with no data.
abbrev identity : Content
identity = record blank { no_data = 1; action = codes "identity" ++ replicate 6 0 }

-- The parser has the one action ready, and the end of the transaction is in the command.
abbrev ready : Context (List ℕ)
ready = record fresh {
  state = tlv_tx_extension_list_size;
  current_action_index = 1;
  current_action_number = 1;
  work_buffer = 4 ∷ 1 ∷ 0 ∷ 4 ∷ 0 ∷ [];
  command_length = 5;
  content = identity;
}

abbrev finished : Context (List ℕ)
finished = record ready {
  state = tlv_done;
  sha256 = 0 ∷ [];
  tlv_buffer = 4 ∷ 0 ∷ 0 ∷ 0 ∷ 0 ∷ [];
  size_buffer = replicate 12 0;
  work_buffer = [];
  command_length = 0;
}

abbrev app_with : Context (List ℕ) → App (List ℕ)
app_with c = record {
  storage = record { unknown_action_allowed = 0; verbose = 0; initialized = 1 };
  tx_processing_ctx = c;
  path_length = 1;
  bip32_path = 0 ∷ [];
  count_state_neutral_actions = 1;
}

abbrev pub device_with : Context (List ℕ) → Device (List ℕ)
device_with c = record {
  app = app_with c;
  public_key_context = record {
    public_key = replicate 65 0;
    address_text = replicate 60 0;
    chain_code = replicate 32 0;
    get_chaincode = false;
  };
  effective_action_index = 1;
  ux_step = 0;
  ux_step_count = 0;
  events = [];
}

sign-Ends : (path hash : List ℕ) → Ends (sign path hash)
sign-Ends path hash = ends_ok reply

ready-IsWellFormed : IsWellFormed ready
ready-IsWellFormed = ground arith

ready_skips : skips_review (device_with ready) ≡ ok true
unfolding skips_review is_state_neutral_action lower_text equals_literal
ready_skips = refl

is_state_neutral_action-IsNeutral_example : IsNeutral identity.contract identity.action 1
unfolding is_state_neutral_action lower_text equals_literal
is_state_neutral_action-IsNeutral_example =
    is_state_neutral_action-IsNeutral identity.contract identity.action 1 refl

ui_display_single_action_sign_flow-ne-stuck_example :
    Bagl.ui_display_single_action_sign_flow toy sign 50 (device_with ready) ≢ stuck
ui_display_single_action_sign_flow-ne-stuck_example =
    ui_display_single_action_sign_flow-ne-stuck toy sign 50 (device_with ready) sign-Ends
      ready-IsWellFormed (ground arith)

ui_display_single_action_sign_flow_stops_example :
    Nbgl.ui_display_single_action_sign_flow toy sign 50 (device_with ready) ≢ stuck
ui_display_single_action_sign_flow_stops_example =
    ui_display_single_action_sign_flow_stops toy sign 50 (device_with ready) sign-Ends
      ready-IsWellFormed (ground arith)

-- The action in a verbose session.
abbrev loud : Context (List ℕ)
loud = record ready { is_verbose = 1 }

abbrev loud_shown : Device (List ℕ)
loud_shown =
    record (device_with
      (record loud { content = record identity { contract = codes "null" ++ replicate 10 0 } })) {
        effective_action_index = 2;
        events =
            screen
              (action_flow true (Bagl.title (device_with loud)) (Bagl.is_last (device_with loud)))
            ∷ [];
      }

loud_run : Bagl.ui_display_single_action_sign_flow toy sign 1 (device_with loud) ≡ ok loud_shown
unfolding Bagl.ui_display_single_action_sign_flow review_loop skips_review Bagl.show_action
    Bagl.reset_steps name_identity equals_literal Bagl.title Bagl.is_last
loud_run = refl

ui_display_single_action_sign_flow_verbose_example :
    (loud_shown.events
      ≡ screen (action_flow true (Bagl.title (device_with loud)) (Bagl.is_last (device_with loud)))
        ∷ [])
    × (loud_shown.app.tx_processing_ctx.state ≡ ready.state)
    × (loud_shown.app.tx_processing_ctx.sha256 ≡ ready.sha256)
    × (left_over loud_shown.app.tx_processing_ctx ≡ left_over loud)
    × (loud_shown.app.bip32_path ≡ 0 ∷ [])
ui_display_single_action_sign_flow_verbose_example =
    ui_display_single_action_sign_flow_verbose toy sign 0 (device_with loud) refl loud_run
