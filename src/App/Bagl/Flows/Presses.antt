-- ===== src/App/Bagl/Flows/Presses.antt =====
-- What one press of the right button does in a flow of src/ui_bagl.c with arguments.
use ledger_app.Base.{
  ℕ, suc, ◌+◌, ◌<◌, ◌≡◌, ◌∙◌, refl, ap, arith, List, ◌∷◌, Option, some, length, get_elem?, u8, ok,
}
use ledger_app.App.Bagl.Pages.{
  StepState, left_border, right_border, Move, forward, back, Steps, display_next_state,
}
use ledger_app.App.Bagl.Flows.{
  Step, step_nocb, step_cb, step_init, step_nocb_init, ux_init_left_border,
  ux_single_action_sign_flow_variable_step, ux_init_right_border, ux_single_action_sign_flow_7_step,
  ux_single_action_sign_flow_8_step,
}
use ledger_app.App.Bagl.Flows.Walk.{
  UxFlow, IsUxFlow, Standing, Visit, on_step, on_argument, print_step, go, arrive, press_next, walk,
}

-- A step that `display_next_state` is not called on.
abbrev pub IsPlain : Step → Type 0
IsPlain (step_nocb layout parts) = Unit
IsPlain (step_cb layout callback parts) = Unit
IsPlain (step_init state) = ⊥
IsPlain (step_nocb_init layout state parts) = ⊥

module _ (ux : UxFlow) (inside : IsUxFlow ux) (flow : List Step) where
  pub arrive_plain :
      (fuel : ℕ) (v : Standing) (s : Step)
      → get_elem? flow v.place ≡ some s
      → IsPlain s
      → arrive ux flow (suc fuel) v ≡ ok (v, on_step s)
  unfolding arrive
  arrive_plain fuel v (step_nocb layout parts) e plain = rw (arrive, e)
  arrive_plain fuel v (step_cb layout callback parts) e plain = rw (arrive, e)
  arrive_plain fuel v (step_init state) e plain = absurd plain
  arrive_plain fuel v (step_nocb_init layout state parts) e plain = absurd plain

  -- A press that comes to a step without a call of its own.
  pub press_plain :
      (place : ℕ) (statics : Steps) (printed : Option ℕ) (s : Step)
      → place + 1 < length flow
      → get_elem? flow (place + 1) ≡ some s
      → IsPlain s
      → press_next ux flow (record { place = place; statics = statics; printed = printed })
        ≡ ok (record { place = place + 1; statics = statics; printed = printed }, on_step s)
  unfolding press_next
  press_plain place statics printed s fits at plain =
      let next = inside.next-inside (length flow) place fits in
      ap (λ p. arrive ux flow 2 (record { place = p; statics = statics; printed = printed })) next
      ∙ arrive_plain 1 _ s at plain

  -- At the end a press comes to the same step again.
  pub next_stays :
      (place : ℕ) (statics : Steps) (printed : Option ℕ) (s : Step)
      → place + 1 ≡ length flow
      → get_elem? flow place ≡ some s
      → IsPlain s
      → press_next ux flow (record { place = place; statics = statics; printed = printed })
        ≡ ok (record { place = place; statics = statics; printed = printed }, on_step s)
  unfolding press_next
  next_stays place statics printed s last at plain =
      let next = inside.next-last (length flow) place last in
      ap (λ p. arrive ux flow 2 (record { place = p; statics = statics; printed = printed })) next
      ∙ arrive_plain 1 _ s at plain

  pub walk_next :
      (m k : ℕ) (v w : Standing) (x : Visit) {xs : List Visit}
      → m ≡ suc k
      → press_next ux flow v ≡ ok (w, x)
      → walk ux flow k w ≡ ok xs
      → walk ux flow m v ≡ ok (x ∷ xs)
  unfolding walk
  walk_next m k v w x count pressed walked = ap (λ n. walk ux flow n v) count ∙ rw (pressed, walked)

  -- Where the arguments begin, the borders on either side, and the two last steps.
  pub record ArgumentsAt (n : ℕ) : Type 0 where
    pub fits : n + 4 < length flow
    pub at_left : get_elem? flow n ≡ some ux_init_left_border
    pub at_variable : get_elem? flow (n + 1) ≡ some ux_single_action_sign_flow_variable_step
    pub at_right : get_elem? flow (n + 2) ≡ some ux_init_right_border
    pub at_approve : get_elem? flow (n + 3) ≡ some ux_single_action_sign_flow_7_step
    pub at_cancel : get_elem? flow (n + 4) ≡ some ux_single_action_sign_flow_8_step

  abbrev pub on : ℕ → ℕ → ℕ → Option ℕ → Standing
  on place step count printed = record {
    place = place;
    statics = record { ux_step = step; ux_step_count = count };
    printed = printed;
  }

  pub arrive_variable :
      (fuel n step count : ℕ) (printed : Option ℕ)
      → get_elem? flow n ≡ some ux_single_action_sign_flow_variable_step
      → arrive ux flow (suc fuel) (on n step count printed)
        ≡ ok (
          on n step count (some (u8 (step + 255))),
          on_argument ux_single_action_sign_flow_variable_step (some (u8 (step + 255))),
        )
  unfolding arrive display_next_state print_step
  arrive_variable fuel n step count printed e = rw (arrive, e)

  -- A border: the flow goes on as `display_next_state` says.
  pub arrive_border :
      (fuel n step count : ℕ) (printed : Option ℕ) (state : StepState) (statics : Steps)
      (move : Move)
      → get_elem? flow n ≡ some (step_init state)
      → display_next_state state (record { ux_step = step; ux_step_count = count })
        ≡ (statics, move)
      → print_step state (record { ux_step = step; ux_step_count = count }) printed ≡ printed
      → arrive ux flow (suc fuel) (on n step count printed)
        ≡ arrive ux flow fuel
            (record { place = go ux flow move n; statics = statics; printed = printed })
  unfolding arrive
  arrive_border fuel n step count printed state statics move e moved kept =
      rw (arrive, e, moved, kept)

  module _ (n : ℕ) (here : ArgumentsAt n) where
    -- From the step in front of the arguments to the first one.
    pub press_first :
        (m count : ℕ) (printed : Option ℕ)
        → m + 1 ≡ n
        → press_next ux flow (on m 0 count printed)
          ≡ ok (
            on (n + 1) 1 count (some 0),
            on_argument ux_single_action_sign_flow_variable_step (some 0),
          )
    unfolding press_next go display_next_state print_step
    press_first m count printed e =
        let next : ux.ux_flow_next (length flow) m ≡ n =
          inside.next-inside (length flow) m (omega (arith, here.fits)) ∙ e in
        let on_border = inside.next-inside (length flow) n (omega (arith, here.fits)) in
        ap (λ p. arrive ux flow 2 (on p 0 count printed)) next
        ∙ arrive_border 1 n 0 count printed left_border _ forward here.at_left refl refl
        ∙ ap (λ p. arrive ux flow 1 (on p 1 count printed)) on_border
        ∙ arrive_variable 0 (n + 1) 1 count printed here.at_variable

    -- From an argument to the next one.
    pub press_argument :
        (step count : ℕ) (printed : Option ℕ)
        → step < count
        → count < 256
        → press_next ux flow (on (n + 1) step count printed)
          ≡ ok (
            on (n + 1) (step + 1) count (some step),
            on_argument ux_single_action_sign_flow_variable_step (some step),
          )
    unfolding press_next go display_next_state print_step
    press_argument step count printed less small =
        let next : ux.ux_flow_next (length flow) (n + 1) ≡ n + 2 =
          inside.next-inside (length flow) (n + 1) (omega (arith, here.fits)) ∙ omega arith in
        let prev : ux.ux_flow_prev (length flow) (n + 2) ≡ n + 1 =
          ap (ux.ux_flow_prev (length flow)) (omega arith)
          ∙ inside.prev-inside (length flow) (n + 1) (omega (arith, here.fits)) in
        let index : u8 ((step + 1) + 255) ≡ step = omega arith in
        ap (λ p. arrive ux flow 2 (on p step count printed)) next
        ∙ arrive_border 1 (n + 2) step count printed right_border
            (record { ux_step = step + 1; ux_step_count = count }) back here.at_right (ground arith)
            refl
        ∙ ap (λ p. arrive ux flow 1 (on p (step + 1) count printed)) prev
        ∙ arrive_variable 0 (n + 1) (step + 1) count printed here.at_variable
        ∙ ap
            (λ i. ok (
              on (n + 1) (step + 1) count (some i),
              on_argument ux_single_action_sign_flow_variable_step (some i),
            ))
            index

    -- From the last argument to the consent.
    pub press_last :
        (count : ℕ) (printed : Option ℕ)
        → press_next ux flow (on (n + 1) count count printed)
          ≡ ok (on (n + 3) (count + 1) count printed, on_step ux_single_action_sign_flow_7_step)
    unfolding press_next go display_next_state print_step
    press_last count printed =
        let next : ux.ux_flow_next (length flow) (n + 1) ≡ n + 2 =
          inside.next-inside (length flow) (n + 1) (omega (arith, here.fits)) ∙ omega arith in
        let on_border : ux.ux_flow_next (length flow) (n + 2) ≡ n + 3 =
          inside.next-inside (length flow) (n + 2) (omega (arith, here.fits)) ∙ omega arith in
        ap (λ p. arrive ux flow 2 (on p count count printed)) next
        ∙ arrive_border 1 (n + 2) count count printed right_border
            (record { ux_step = count + 1; ux_step_count = count }) forward here.at_right
            (ground arith) refl
        ∙ ap (λ p. arrive ux flow 1 (on p (count + 1) count printed)) on_border
        ∙ arrive_plain 0 _ ux_single_action_sign_flow_7_step here.at_approve tt
