-- ===== src/App/Bagl/Flows/Tours.antt =====
-- What the review of an action in src/ui_bagl.c shows from its first step to its last one.
use ledger_app.Base.{ℕ, zero, suc, ◌+◌, Bool, if◌then◌else◌, List, [], ◌∷◌, ◌++◌, some}
use ledger_app.App.Bagl.Flows.{
  ux_single_action_sign_flow_1_step, ux_single_action_sign_flow_2_step,
  ux_single_action_sign_flow_3_step, ux_authorization_flow_1_step, ux_authorization_flow_2_step,
  ux_single_action_sign_flow_variable_step, ux_single_action_sign_flow_7_step,
  ux_single_action_sign_flow_8_step,
}
use ledger_app.App.Bagl.Flows.Walk.{Visit, on_step, on_argument}

-- The visits of so many arguments from one on, the same step each.
unfoldable pub arguments : ℕ → ℕ → List Visit
arguments first zero = []
arguments first (suc n) =
    on_argument ux_single_action_sign_flow_variable_step (some first) ∷ arguments (first + 1) n

-- The review of an action with so many arguments.
unfoldable pub review_visits : Bool → ℕ → List Visit
review_visits verbose count =
    on_step ux_single_action_sign_flow_1_step
    ∷ on_step ux_single_action_sign_flow_2_step
    ∷ on_step ux_single_action_sign_flow_3_step
    ∷ ((if verbose
          then on_step ux_authorization_flow_1_step ∷ on_step ux_authorization_flow_2_step ∷ []
          else [])
        ++ (arguments 0 count
            ++ (on_step ux_single_action_sign_flow_7_step
                ∷ on_step ux_single_action_sign_flow_8_step
                ∷ [])))
