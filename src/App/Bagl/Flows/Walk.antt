-- ===== src/App/Bagl/Flows/Walk.antt =====
-- How the flows of src/ui_bagl.c are gone through with the two buttons.
use ledger_app.Base.{
  ℕ, zero, suc, ◌+◌, ◌<◌, ◌≡◌, List, [], ◌∷◌, Option, none, some, length, get_elem?, u8, Outcome,
  ok, stuck, ◌>>=◌,
}
use ledger_app.App.Bagl.Pages.{
  StepState, left_border, variable, right_border, Move, forward, back, stay, Steps,
  display_next_state,
}
use ledger_app.App.Bagl.Flows.{Step, step_nocb, step_cb, step_init, step_nocb_init}

-- `ux_flow_next` and `ux_flow_prev` of the SDK: the place in a flow of so many steps that they go
-- to from a place.
pub record UxFlow : Type 0 where
  pub ux_flow_next : ℕ → ℕ → ℕ
  pub ux_flow_prev : ℕ → ℕ → ℕ

-- Inside a flow they go to the step behind and to the step in front; at the ends they stay.
pub record IsUxFlow (ux : UxFlow) : Type 0 where
  pub next-inside : (count i : ℕ) → i + 1 < count → ux.ux_flow_next count i ≡ i + 1
  pub prev-inside : (count i : ℕ) → i + 1 < count → ux.ux_flow_prev count (i + 1) ≡ i
  pub next-last : (count i : ℕ) → i + 1 ≡ count → ux.ux_flow_next count i ≡ i
  pub prev-first : (count : ℕ) → ux.ux_flow_prev count 0 ≡ 0

-- The place in the flow, the statics, and the argument that was printed last.
pub record Standing : Type 0 where
  pub place : ℕ
  pub statics : Steps
  pub printed : Option ℕ

-- What the user sees: a step, or the variable step with the argument that was printed last.
pub data Visit : Type 0 where
  on_step : Step → Visit
  on_argument : Step → Option ℕ → Visit

pub data Button : Type 0 where
  left_button right_button : Button

-- The call of `printArgument` in `display_next_state`; its parameter is a byte.
unfoldable pub print_step : StepState → Steps → Option ℕ → Option ℕ
print_step left_border s printed = printed
print_step variable s printed = some (u8 (s.ux_step + 255))
print_step right_border s printed = printed

module _ (ux : UxFlow) (flow : List Step) where
  unfoldable pub go : Move → ℕ → ℕ
  go forward i = ux.ux_flow_next (length flow) i
  go back i = ux.ux_flow_prev (length flow) i
  go stay i = i

  -- The flow comes to a step: `display_next_state` is called where the step has it, and a border
  -- goes on to another step. The fuel is for the borders that follow one another.
  unfoldable pub arrive : ℕ → Standing → Outcome (Standing × Visit)
  arrive zero v = stuck
  arrive (suc fuel) v = elim (get_elem? flow v.place) [
    | none ↦ stuck
    | some step ↦ elim step [
      | step_nocb layout parts ↦ ok (v, on_step (step_nocb layout parts))
      | step_cb layout callback parts ↦ ok (v, on_step (step_cb layout callback parts))
      | step_nocb_init layout state parts ↦
          let printed = print_step state v.statics v.printed in
          ok (
            record v { statics = (display_next_state state v.statics).0; printed = printed },
            on_argument (step_nocb_init layout state parts) printed,
          )
      | step_init state ↦
          let next = display_next_state state v.statics in
          arrive fuel (record v {
            place = go (next.1) v.place;
            statics = next.0;
            printed = print_step state v.statics v.printed;
          })
    ]
  ]

  -- A press of the right button.
  unfoldable pub press_next : Standing → Outcome (Standing × Visit)
  press_next v = arrive 2 (record v { place = ux.ux_flow_next (length flow) v.place })

  -- What the user sees with so many presses of the right button.
  unfoldable pub walk : ℕ → Standing → Outcome (List Visit)
  walk zero v = ok []
  walk (suc presses) v = press_next v >>= λ p. walk presses (p.0) >>= λ visits. ok (p.1 ∷ visits)

  -- `ux_flow_init(0, flow, NULL)` with the statics for so many arguments, then the presses.
  unfoldable pub tour : ℕ → ℕ → Outcome (List Visit)
  tour count presses =
      arrive 2 (record {
        place = 0;
        statics = record { ux_step = 0; ux_step_count = count };
        printed = none;
      })
      >>= λ p. walk presses (p.0) >>= λ visits. ok (p.1 ∷ visits)

  -- A press of the left button.
  unfoldable pub press_prev : Standing → Outcome (Standing × Visit)
  press_prev v = arrive 2 (record v { place = ux.ux_flow_prev (length flow) v.place })

  unfoldable pub press : Button → Standing → Outcome (Standing × Visit)
  press left_button v = press_prev v
  press right_button v = press_next v

  -- What the user sees with these presses.
  unfoldable pub browse : List Button → Standing → Outcome (List Visit)
  browse [] v = ok []
  browse (b ∷ buttons) v = press b v >>= λ p. browse buttons (p.0) >>= λ visits. ok (p.1 ∷ visits)

  -- `ux_flow_init(0, flow, NULL)` with the statics for so many arguments, then the presses of
  -- either button.
  unfoldable pub visit_all : ℕ → List Button → Outcome (List Visit)
  visit_all count buttons =
      arrive 2 (record {
        place = 0;
        statics = record { ux_step = 0; ux_step_count = count };
        printed = none;
      })
      >>= λ p. browse buttons (p.0) >>= λ visits. ok (p.1 ∷ visits)
