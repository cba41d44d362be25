-- ===== src/App/Bagl/Flows.antt =====
-- The steps and the flows of src/ui_bagl.c, in the words of the SDK's macros.
pub mod Walk
pub mod Presses
pub mod Backs
pub mod Pager
pub mod Tours
pub mod Browsing
use ledger_app.Base.{ℕ, Bool, List, [], ◌∷◌, codes, if◌then◌else◌}
use ledger_app.App.Bagl.Pages.{StepState, left_border, variable, right_border}

-- The layouts: lines in bold or not, and a picture.
pub data Layout : Type 0 where
  nn bn bnn bnnn pb pnn pbb bnnn_paging : Layout

pub data Icon : Type 0 where
  icon_coggle icon_dashboard_x icon_back_x icon_eye icon_validate_14 icon_crossmark : Icon
  icon_certificate : Icon

-- What stands on a step: a picture, a text, or what a variable holds when the step is shown.
pub data Part : Type 0 where
  icon : Icon → Part
  text : List ℕ → Part
  app_version confirm_label small_confirm_label action_counter confirm_text1 confirm_text2 : Part
  address contract action authorization_name authorization_permission arg_label arg_data : Part

-- The call that a press of both buttons makes.
pub data Callback : Type 0 where
  display_settings_flow os_sched_exit switch_settings_contract_data : Callback
  switch_settings_verbose_config ui_idle user_action_address_ok user_action_address_cancel :
      Callback
  user_action_sign_flow_ok user_action_tx_cancel : Callback

-- UX_STEP_NOCB, UX_STEP_CB, UX_STEP_INIT and UX_STEP_NOCB_INIT; the last two call
-- `display_next_state` with their state when the flow comes to them.
pub data Step : Type 0 where
  step_nocb : Layout → List Part → Step
  step_cb : Layout → Callback → List Part → Step
  step_init : StepState → Step
  step_nocb_init : Layout → StepState → List Part → Step

abbrev pub ux_idle_ready_step : Step
ux_idle_ready_step = step_nocb nn (text (codes "Application") ∷ text (codes "is ready") ∷ [])

abbrev pub ux_display_version_step : Step
ux_display_version_step = step_nocb bn (text (codes "Version") ∷ app_version ∷ [])

abbrev pub ux_settings_step : Step
ux_settings_step =
    step_cb pb display_settings_flow (icon icon_coggle ∷ text (codes "Settings") ∷ [])

abbrev pub ux_quit_step : Step
ux_quit_step = step_cb pb os_sched_exit (icon icon_dashboard_x ∷ text (codes "Quit") ∷ [])

abbrev pub ux_idle_flow : List Step
ux_idle_flow = ux_idle_ready_step ∷ ux_display_version_step ∷ ux_settings_step ∷ ux_quit_step ∷ []

abbrev pub ux_abort_warning_step : Step
ux_abort_warning_step =
    step_nocb bnn
      (text (codes "Aborting") ∷ text (codes "Detected") ∷ text (codes "Unknown Trx") ∷ [])

abbrev pub ux_abort_flow : List Step
ux_abort_flow =
    ux_abort_warning_step ∷ ux_display_version_step ∷ ux_display_version_step ∷ ux_quit_step ∷ []

abbrev pub ux_settings_flow_1_step : Step
ux_settings_flow_1_step = step_cb bnnn switch_settings_contract_data (
    text (codes "Contract data")
    ∷ text (codes "Unknown Action")
    ∷ text (codes "in transactions")
    ∷ confirm_label
    ∷ [])

abbrev pub ux_settings_flow_2_step : Step
ux_settings_flow_2_step = step_cb bnnn switch_settings_verbose_config (
    text (codes "Verbose")
    ∷ text (codes "Show Details")
    ∷ text (codes "in transactions")
    ∷ small_confirm_label
    ∷ [])

abbrev pub ux_settings_flow_3_step : Step
ux_settings_flow_3_step = step_cb pb ui_idle (icon icon_back_x ∷ text (codes "Back") ∷ [])

abbrev pub ux_settings_flow : List Step
ux_settings_flow = ux_settings_flow_1_step ∷ ux_settings_flow_2_step ∷ ux_settings_flow_3_step ∷ []

abbrev pub ux_display_public_flow_1_step : Step
ux_display_public_flow_1_step =
    step_nocb pnn (icon icon_eye ∷ text (codes "Verify") ∷ text (codes "Public Key") ∷ [])

abbrev pub ux_display_public_flow_2_step : Step
ux_display_public_flow_2_step = step_nocb bnnn_paging (text (codes "Public Key") ∷ address ∷ [])

abbrev pub ux_display_public_flow_3_step : Step
ux_display_public_flow_3_step =
    step_cb pb user_action_address_ok (icon icon_validate_14 ∷ text (codes "Approve") ∷ [])

abbrev pub ux_display_public_flow_4_step : Step
ux_display_public_flow_4_step =
    step_cb pb user_action_address_cancel (icon icon_crossmark ∷ text (codes "Reject") ∷ [])

abbrev pub ux_display_public_flow : List Step
ux_display_public_flow =
    ux_display_public_flow_1_step ∷ ux_display_public_flow_2_step ∷ ux_display_public_flow_3_step
    ∷ ux_display_public_flow_4_step ∷ []

abbrev pub ux_single_action_sign_flow_1_step : Step
ux_single_action_sign_flow_1_step =
    step_nocb pnn (icon icon_certificate ∷ text (codes "Review") ∷ confirm_label ∷ [])

abbrev pub ux_single_action_sign_flow_2_step : Step
ux_single_action_sign_flow_2_step = step_nocb bn (text (codes "Contract") ∷ contract ∷ [])

abbrev pub ux_single_action_sign_flow_3_step : Step
ux_single_action_sign_flow_3_step = step_nocb bn (text (codes "Action") ∷ action ∷ [])

abbrev pub ux_authorization_flow_1_step : Step
ux_authorization_flow_1_step = step_nocb bn (text (codes "Authorization") ∷ authorization_name ∷ [])

abbrev pub ux_authorization_flow_2_step : Step
ux_authorization_flow_2_step =
    step_nocb bn (text (codes "Permission") ∷ authorization_permission ∷ [])

abbrev pub ux_init_left_border : Step
ux_init_left_border = step_init left_border

abbrev pub ux_single_action_sign_flow_variable_step : Step
ux_single_action_sign_flow_variable_step =
    step_nocb_init bnnn_paging variable (arg_label ∷ arg_data ∷ [])

abbrev pub ux_init_right_border : Step
ux_init_right_border = step_init right_border

abbrev pub ux_single_action_sign_flow_7_step : Step
ux_single_action_sign_flow_7_step =
    step_cb pbb user_action_sign_flow_ok
      (icon icon_validate_14 ∷ confirm_text1 ∷ confirm_text2 ∷ [])

abbrev pub ux_single_action_sign_flow_8_step : Step
ux_single_action_sign_flow_8_step =
    step_cb pbb user_action_tx_cancel
      (icon icon_crossmark ∷ text (codes "Cancel") ∷ text (codes "signature") ∷ [])

pub ux_single_action_sign_flow : List Step
ux_single_action_sign_flow =
    ux_single_action_sign_flow_1_step ∷ ux_single_action_sign_flow_2_step
    ∷ ux_single_action_sign_flow_3_step ∷ ux_init_left_border
    ∷ ux_single_action_sign_flow_variable_step ∷ ux_init_right_border
    ∷ ux_single_action_sign_flow_7_step ∷ ux_single_action_sign_flow_8_step ∷ []

pub ux_verbose_single_action_flow : List Step
ux_verbose_single_action_flow =
    ux_single_action_sign_flow_1_step ∷ ux_single_action_sign_flow_2_step
    ∷ ux_single_action_sign_flow_3_step ∷ ux_authorization_flow_1_step
    ∷ ux_authorization_flow_2_step ∷ ux_init_left_border ∷ ux_single_action_sign_flow_variable_step
    ∷ ux_init_right_border ∷ ux_single_action_sign_flow_7_step ∷ ux_single_action_sign_flow_8_step
    ∷ []

-- The flow that `ux_flow_init` gets for the review of an action.
pub review_flow : Bool → List Step
review_flow verbose = if verbose then ux_verbose_single_action_flow else ux_single_action_sign_flow

abbrev pub ux_multiple_action_sign_flow_1_step : Step
ux_multiple_action_sign_flow_1_step =
    step_nocb pnn (icon icon_certificate ∷ text (codes "Review") ∷ text (codes "Transaction") ∷ [])

abbrev pub ux_multiple_action_sign_flow_2_step : Step
ux_multiple_action_sign_flow_2_step = step_nocb bn (text (codes "With") ∷ action_counter ∷ [])

abbrev pub ux_multiple_action_sign_flow_3_step : Step
ux_multiple_action_sign_flow_3_step =
    step_cb pbb user_action_sign_flow_ok
      (icon icon_validate_14 ∷ text (codes "Continue") ∷ text (codes "review") ∷ [])

abbrev pub ux_multiple_action_sign_flow_4_step : Step
ux_multiple_action_sign_flow_4_step =
    step_cb pbb user_action_tx_cancel
      (icon icon_crossmark ∷ text (codes "Cancel") ∷ text (codes "review") ∷ [])

abbrev pub ux_multiple_action_sign_flow : List Step
ux_multiple_action_sign_flow =
    ux_multiple_action_sign_flow_1_step ∷ ux_multiple_action_sign_flow_2_step
    ∷ ux_multiple_action_sign_flow_3_step ∷ ux_multiple_action_sign_flow_4_step ∷ []
