-- ===== src/App/Bagl.antt =====
-- src/ui_bagl.c: the interface with steps that two buttons go through.
pub mod Laws
pub mod Pages
pub mod Flows
use ledger_app.Base.{
  ℕ, zero, suc, ◌+◌, ◌-◌, List, [], ◌∷◌, ◌++◌, Bool, true, false, not, ◌||◌, ◌==◌, ltb,
  if◌then◌else◌, codes, Outcome, ok, stuck, ◌>>=◌, write_bytes,
}
use ledger_app.Stream.Context.{Sha256, Context}
use ledger_app.Stream.Machine.{ParserStatus}
use ledger_app.App.Review.{name_identity, review_loop, begin_review}
use ledger_app.App.Config.{toogle_unknown_action_allowed, toogle_verbose_config}
use ledger_app.App.Device.{
  Device, Screen, idle, aborted, address, settings, actions_flow, action_flow, Title, transaction,
  action_number, Notices, SignHash, show, effective_actions, consent,
}

module _ {H : Type 0} where
  unfoldable pub ui_idle : Device H → Device H
  ui_idle d = show idle d

  unfoldable pub ui_abort_unknown_action : Device H → Device H
  ui_abort_unknown_action d = show aborted d

  unfoldable pub ui_display_public_key_flow : Device H → Device H
  ui_display_public_key_flow d = show address d

  unfoldable pub ui_display_public_key_done : Bool → Device H → Device H
  ui_display_public_key_done validated d = ui_idle d

  unfoldable pub ui_display_action_sign_done : ParserStatus → Bool → Device H → Device H
  ui_display_action_sign_done status validated d = ui_idle d

  pub display_settings_flow : Device H → Device H
  display_settings_flow d = show settings d

  pub switch_settings_contract_data : Device H → Device H
  switch_settings_contract_data d =
      let app = record (d.app) { storage = toogle_unknown_action_allowed d.app.storage } in
      display_settings_flow (record d { app = app })

  pub switch_settings_verbose_config : Device H → Device H
  switch_settings_verbose_config d =
      let app = record (d.app) { storage = toogle_verbose_config d.app.storage } in
      display_settings_flow (record d { app = app })

  abbrev pub notices : Notices H
  notices = record {
    ui_idle = ui_idle;
    ui_abort_unknown_action = ui_abort_unknown_action;
    ui_display_action_sign_done = ui_display_action_sign_done;
  }

  -- `confirmLabel`.
  unfoldable pub title : Device H → Title
  title d =
      if ltb 1 (effective_actions d) then action_number d.effective_action_index else transaction

  -- Whether the last step asks to sign, and not to accept and go on.
  unfoldable pub is_last : Device H → Bool
  is_last d =
      let c = d.app.tx_processing_ctx in
      c.current_action_index == c.current_action_number
      || d.effective_action_index == effective_actions d

  -- The review of an action that is not skipped.
  unfoldable pub show_action : Device H → Outcome (Device H)
  show_action d = name_identity d >>= λ named.
      let shown =
        show (action_flow (d.app.tx_processing_ctx.is_verbose == 1) (title d) (is_last d)) named in
      ok (record shown { effective_action_index = d.effective_action_index + 1 })

  -- The start of `ui_display_single_action_sign_flow`.
  unfoldable pub reset_steps : Device H → Device H
  reset_steps d = record d {
    ux_step = 0;
    ux_step_count = d.app.tx_processing_ctx.content.argument_count;
  }

module _ {H : Type 0} (sha : Sha256 H) (sign : SignHash) where
  unfoldable pub ui_display_single_action_sign_flow : ℕ → Device H → Outcome (Device H)
  ui_display_single_action_sign_flow = review_loop sha sign notices reset_steps show_action

  -- The consent of the user, who pressed both buttons on the step for it.
  unfoldable pub user_action_sign_flow_ok : ℕ → Device H → Outcome (Device H)
  user_action_sign_flow_ok fuel d =
      consent sha sign notices (ui_display_single_action_sign_flow fuel) d

  unfoldable pub ui_display_multiple_action_sign_flow : ℕ → Device H → Outcome (Device H)
  ui_display_multiple_action_sign_flow =
      begin_review sha sign notices reset_steps show_action
        (λ d. show (actions_flow (effective_actions d)) d)
