-- ===== src/App/Nbgl.antt =====
-- src/ui_nbgl.c: the interface with pages that are touched.
pub mod Laws
pub mod Pairs
use ledger_app.Base.{
  ℕ, zero, suc, ◌+◌, ◌-◌, List, [], ◌∷◌, Bool, true, false, not, ◌&&◌, ◌||◌, ◌==◌, ltb,
  if◌then◌else◌, Outcome, ok, stuck, ◌>>=◌, u8,
}
use ledger_app.Stream.Context.{Sha256, Context}
use ledger_app.Stream.Machine.{
  ParserStatus, stream_fault, stream_processing, stream_action_ready, stream_confirm_processing,
  stream_finished, stream_not_allowed,
}
use ledger_app.App.Config.{toogle_unknown_action_allowed, toogle_verbose_config}
use ledger_app.App.Review.{name_identity, review_loop, begin_review}
use ledger_app.App.Device.{
  Device, Screen, idle, aborted, address, review, streaming_start, streaming_continue,
  streaming_finish, address_verified, address_rejected, signed, rejected, Notices, SignHash, show,
  effective_actions, consent, user_action_tx_cancel,
}

module _ {H : Type 0} where
  unfoldable pub ui_idle : Device H → Device H
  ui_idle d = show idle d

  unfoldable pub ui_abort_unknown_action : Device H → Device H
  ui_abort_unknown_action d = show aborted d

  unfoldable pub ui_display_public_key_flow : Device H → Device H
  ui_display_public_key_flow d = show address d

  unfoldable pub ui_display_public_key_done : Bool → Device H → Device H
  ui_display_public_key_done validated d =
      show (if validated then address_verified else address_rejected) d

  -- `controlsCallback`: the token of a switch, less the offset, 0 for the unknown actions and 1 for
  -- the verbose mode. Any other changes nothing.
  pub controls_callback : ℕ → Device H → Device H
  controls_callback switch_index d =
      if switch_index == 0
      then record d {
        app = record (d.app) { storage = toogle_unknown_action_allowed d.app.storage };
      }
      else if switch_index == 1
      then record d { app = record (d.app) { storage = toogle_verbose_config d.app.storage } }
      else d

  unfoldable pub ui_display_action_sign_done : ParserStatus → Bool → Device H → Device H
  ui_display_action_sign_done stream_finished validated d =
      if validated
      then (if ltb 0 (effective_actions d) then show signed d else d)
      else show rejected d
  ui_display_action_sign_done _ validated d = d

  abbrev pub notices : Notices H
  notices = record {
    ui_idle = ui_idle;
    ui_abort_unknown_action = ui_abort_unknown_action;
    ui_display_action_sign_done = ui_display_action_sign_done;
  }

  -- `authorizationPairsOffset`
  abbrev pub authorization_pairs : Device H → ℕ
  authorization_pairs d = if d.app.tx_processing_ctx.is_verbose == 0 then 0 else 2

  -- One page for the whole transaction, or the next of a sequence; the counts are bytes.
  unfoldable pub show_review : Device H → Device H
  show_review d =
      let c = d.app.tx_processing_ctx in
      let pairs = c.content.argument_count + authorization_pairs d in
      if c.current_action_number == 1 || (effective_actions d == 1 && c.is_verbose == 0)
      then show (review (u8 (pairs + 2))) d
      else show (streaming_continue (u8 (pairs + 3))) d

  unfoldable pub show_action : Device H → Outcome (Device H)
  show_action d = name_identity d >>= λ named.
      ok (record (show_review named) { effective_action_index = d.effective_action_index + 1 })

module _ {H : Type 0} (sha : Sha256 H) (sign : SignHash) where
  unfoldable pub ui_display_single_action_sign_flow : ℕ → Device H → Outcome (Device H)
  ui_display_single_action_sign_flow = review_loop sha sign notices (λ d. d) show_action

  unfoldable pub user_action_sign_flow_ok : ℕ → Device H → Outcome (Device H)
  user_action_sign_flow_ok fuel d =
      consent sha sign notices (ui_display_single_action_sign_flow fuel) d

  -- The choice on a page for the whole transaction, or on the start and the end of a sequence.
  pub review_choice_single : ℕ → Bool → Device H → Outcome (Device H)
  review_choice_single fuel confirm d =
      if confirm
      then user_action_sign_flow_ok fuel d
      else ok (user_action_tx_cancel sha sign notices d)

  -- The choice on a page of a sequence: behind the last action stands the page to sign.
  pub review_choice_multi : ℕ → Bool → Device H → Outcome (Device H)
  review_choice_multi fuel confirm d =
      let c = d.app.tx_processing_ctx in
      if confirm
      then (if c.current_action_index == c.current_action_number
          then ok (show streaming_finish d)
          else user_action_sign_flow_ok fuel d)
      else ok (user_action_tx_cancel sha sign notices d)

  unfoldable pub ui_display_multiple_action_sign_flow : ℕ → Device H → Outcome (Device H)
  ui_display_multiple_action_sign_flow =
      begin_review sha sign notices (λ d. d) show_action
        (λ d. show (streaming_start d.app.tx_processing_ctx.current_action_number) d)
