-- ===== src/App/Bagl/Flows/Backs.antt =====
-- What one press of the left button does in a flow of src/ui_bagl.c with arguments.
use ledger_app.Base.{
  ℕ, suc, ◌+◌, ◌<◌, ◌≡◌, ◌∙◌, refl, ap, sym, arith, List, Option, some, length, get_elem?, u8, ok,
}
use ledger_app.App.Bagl.Pages.{left_border, right_border, forward, back, Steps, display_next_state}
use ledger_app.App.Bagl.Flows.{Step, ux_single_action_sign_flow_variable_step}
use ledger_app.App.Bagl.Flows.Walk.{
  UxFlow, IsUxFlow, on_step, on_argument, print_step, go, arrive, press_prev,
}
use ledger_app.App.Bagl.Flows.Presses.{
  IsPlain, ArgumentsAt, on, arrive_plain, arrive_variable, arrive_border,
}

module _ (ux : UxFlow) (inside : IsUxFlow ux) (flow : List Step) where
  pub back_plain :
      (from place : ℕ) (statics : Steps) (printed : Option ℕ) (s : Step)
      → from ≡ place + 1
      → place + 1 < length flow
      → get_elem? flow place ≡ some s
      → IsPlain s
      → press_prev ux flow (record { place = from; statics = statics; printed = printed })
        ≡ ok (record { place = place; statics = statics; printed = printed }, on_step s)
  unfolding press_prev
  back_plain from place statics printed s there fits at plain =
      let prev =
        ap (ux.ux_flow_prev (length flow)) there ∙ inside.prev-inside (length flow) place fits in
      ap (λ p. arrive ux flow 2 (record { place = p; statics = statics; printed = printed })) prev
      ∙ arrive_plain ux inside flow 1 _ s at plain

  -- At the start a press comes to the same step again.
  pub prev_stays :
      (statics : Steps) (printed : Option ℕ) (s : Step)
      → get_elem? flow 0 ≡ some s
      → IsPlain s
      → press_prev ux flow (record { place = 0; statics = statics; printed = printed })
        ≡ ok (record { place = 0; statics = statics; printed = printed }, on_step s)
  unfolding press_prev
  prev_stays statics printed s at plain =
      let prev = inside.prev-first (length flow) in
      ap (λ p. arrive ux flow 2 (record { place = p; statics = statics; printed = printed })) prev
      ∙ arrive_plain ux inside flow 1 _ s at plain

  module _ (n : ℕ) (here : ArgumentsAt ux inside flow n) where
    -- From the first argument to the step in front.
    pub back_first :
        (m count : ℕ) (printed : Option ℕ) (s : Step)
        → m + 1 ≡ n
        → get_elem? flow m ≡ some s
        → IsPlain s
        → press_prev ux flow (on ux inside flow (n + 1) 1 count printed)
          ≡ ok (on ux inside flow m 0 count printed, on_step s)
    unfolding press_prev go display_next_state print_step
    back_first m count printed s e at plain =
        let prev = inside.prev-inside (length flow) n (omega (arith, here.fits)) in
        let on_border : ux.ux_flow_prev (length flow) n ≡ m =
          ap (ux.ux_flow_prev (length flow)) (sym e)
          ∙ inside.prev-inside (length flow) m (omega (arith, here.fits)) in
        ap (λ p. arrive ux flow 2 (on ux inside flow p 1 count printed)) prev
        ∙ arrive_border ux inside flow 1 n 1 count printed left_border
            (record { ux_step = 0; ux_step_count = count }) back here.at_left refl refl
        ∙ ap (λ p. arrive ux flow 1 (on ux inside flow p 0 count printed)) on_border
        ∙ arrive_plain ux inside flow 0 _ s at plain

    -- From an argument to the one before.
    pub back_argument :
        (i count : ℕ) (printed : Option ℕ)
        → i + 1 < count
        → count < 256
        → press_prev ux flow (on ux inside flow (n + 1) (suc i + 1) count printed)
          ≡ ok (
            on ux inside flow (n + 1) (i + 1) count (some i),
            on_argument ux_single_action_sign_flow_variable_step (some i),
          )
    unfolding press_prev go display_next_state print_step
    back_argument i count printed less small =
        let prev = inside.prev-inside (length flow) n (omega (arith, here.fits)) in
        let on_border = inside.next-inside (length flow) n (omega (arith, here.fits)) in
        let index : u8 ((i + 1) + 255) ≡ i = omega arith in
        ap (λ p. arrive ux flow 2 (on ux inside flow p (suc i + 1) count printed)) prev
        ∙ arrive_border ux inside flow 1 n (suc i + 1) count printed left_border
            (record { ux_step = i + 1; ux_step_count = count }) forward here.at_left (ground arith)
            refl
        ∙ ap (λ p. arrive ux flow 1 (on ux inside flow p (i + 1) count printed)) on_border
        ∙ arrive_variable ux inside flow 0 (n + 1) (i + 1) count printed here.at_variable
        ∙ ap
            (λ j. ok (
              on ux inside flow (n + 1) (i + 1) count (some j),
              on_argument ux_single_action_sign_flow_variable_step (some j),
            ))
            index

    -- From the consent to the last argument.
    pub back_last :
        (i count place : ℕ) (printed : Option ℕ)
        → place ≡ n + 3
        → i + 1 ≡ count
        → count < 256
        → press_prev ux flow (on ux inside flow place (count + 1) count printed)
          ≡ ok (
            on ux inside flow (n + 1) (i + 1) count (some i),
            on_argument ux_single_action_sign_flow_variable_step (some i),
          )
    unfolding press_prev go display_next_state print_step
    back_last i count place printed there last small =
        let prev : ux.ux_flow_prev (length flow) place ≡ n + 2 =
          ap (ux.ux_flow_prev (length flow)) {y = (n + 2) + 1} (omega (arith, there))
          ∙ inside.prev-inside (length flow) (n + 2) (omega (arith, here.fits)) in
        let on_border : ux.ux_flow_prev (length flow) (n + 2) ≡ n + 1 =
          ap (ux.ux_flow_prev (length flow)) {y = (n + 1) + 1} (omega arith)
          ∙ inside.prev-inside (length flow) (n + 1) (omega (arith, here.fits)) in
        let index : u8 ((i + 1) + 255) ≡ i = omega arith in
        ap (λ p. arrive ux flow 2 (on ux inside flow p (count + 1) count printed)) prev
        ∙ arrive_border ux inside flow 1 (n + 2) (count + 1) count printed right_border
            (record { ux_step = count; ux_step_count = count }) back here.at_right (ground arith)
            refl
        ∙ ap (λ p. arrive ux flow 1 (on ux inside flow p count count printed)) on_border
        ∙ ap (λ step. arrive ux flow 1 (on ux inside flow (n + 1) step count printed)) (sym last)
        ∙ arrive_variable ux inside flow 0 (n + 1) (i + 1) count printed here.at_variable
        ∙ ap
            (λ j. ok (
              on ux inside flow (n + 1) (i + 1) count (some j),
              on_argument ux_single_action_sign_flow_variable_step (some j),
            ))
            index
