-- ===== src/App/Bagl/Pages.antt =====
-- The steps of an action's arguments in src/ui_bagl.c.
use ledger_app.Base.{ℕ, ◌+◌, ◌-◌, ltb, ◌==◌, if◌then◌else◌}

-- The three states that `display_next_state` is called with, and `ux_flow_next`, `ux_flow_prev`.
pub data StepState : Type 0 where
  left_border variable right_border : StepState

pub data Move : Type 0 where
  forward back stay : Move

-- `ux_step` and `ux_step_count`.
pub record Steps : Type 0 where
  pub ux_step : ℕ
  pub ux_step_count : ℕ

-- The statics after the call, and the move that it asks the flow for. The state of the variable
-- step prints the argument `ux_step - 1`.
unfoldable pub display_next_state : StepState → Steps → Steps × Move
display_next_state left_border s =
    if s.ux_step == 0
    then (record s { ux_step = 1 }, forward)
    else if s.ux_step == 1
    then (record s { ux_step = s.ux_step - 1 }, back)
    else (record s { ux_step = s.ux_step - 1 }, forward)
display_next_state variable s = (s, stay)
display_next_state right_border s =
    if ltb s.ux_step s.ux_step_count
    then (record s { ux_step = s.ux_step + 1 }, back)
    else if s.ux_step == s.ux_step_count
    then (record s { ux_step = s.ux_step + 1 }, forward)
    else (record s { ux_step = s.ux_step_count }, back)
