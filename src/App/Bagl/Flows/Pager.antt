-- ===== src/App/Bagl/Flows/Pager.antt =====
-- A flow of src/ui_bagl.c with arguments, under presses of either button.
use ledger_app.Base.{
  ℕ, zero, suc, ◌+◌, ◌-◌, ◌≤◌, ◌<◌, ◌≡◌, ◌∙◌, refl, ap, sym, arith, ltb, if◌then◌else◌, List, [],
  ◌∷◌, Option, some, length, get_elem?, Outcome, ok, map, if_true, lt→ltb, inl, inr, ◌⊎◌,
  Bool-cases,
}
use mathlib.Core.Path.{subst}
use ledger_app.App.Bagl.Flows.{
  Step, ux_single_action_sign_flow_variable_step, ux_single_action_sign_flow_7_step,
  ux_single_action_sign_flow_8_step,
}
use ledger_app.App.Bagl.Flows.Presses.{
  IsPlain, ArgumentsAt, on, press_plain, press_first, press_argument, press_last, next_stays,
}
use ledger_app.App.Bagl.Flows.Backs.{back_plain, back_first, back_argument, back_last, prev_stays}
use ledger_app.App.Bagl.Flows.Walk.{
  UxFlow, IsUxFlow, Button, left_button, right_button, Standing, Visit, on_step, on_argument,
  press_next, press_prev, press, browse,
}

lt_or_eq : (a b : ℕ) → a ≤ b → (a < b) ⊎ (a ≡ b)
lt_or_eq a b h = elim (Bool-cases (ltb a b)) [
  | inl less ↦ inl (ground arith)
  | inr not_less ↦ inr (ground arith)
]

-- A pager: the right button goes to the next page, if there is one, and the left one to the page
-- before.
pub turn : ℕ → Button → ℕ → ℕ
turn last left_button k = k - 1
turn last right_button k = if ltb k last then k + 1 else k

-- The pages that the presses come to.
pub turns : ℕ → List Button → ℕ → List ℕ
turns last [] k = []
turns last (b ∷ buttons) k = let next = turn last b k in next ∷ turns last buttons next

-- A flow with `n` steps in front of the arguments' borders, and what its pages are to show.
module _ (ux : UxFlow) (inside : IsUxFlow ux) (flow : List Step) (n count : ℕ)
    (here : ArgumentsAt ux inside flow n) (book : List Visit) where
  pub record IsBook : Type 0 where
    pub front : 1 ≤ n
    pub some_arg : 1 ≤ count
    pub small : count < 256
    pub size : length flow ≡ n + 5
    pub in_front :
        (k : ℕ)
        → k < n
        → (s : Step) × (get_elem? flow k ≡ some s)
          × IsPlain s
          × (get_elem? book k ≡ some (on_step s))
    pub argument :
        (k i : ℕ)
        → k ≡ n + i
        → i < count
        → get_elem? book k ≡ some (on_argument ux_single_action_sign_flow_variable_step (some i))
    pub approve :
        (k : ℕ)
        → k ≡ n + count
        → get_elem? book k ≡ some (on_step ux_single_action_sign_flow_7_step)
    pub cancel :
        (k : ℕ)
        → k ≡ n + count + 1
        → get_elem? book k ≡ some (on_step ux_single_action_sign_flow_8_step)

  -- Where the flow is on a page, and its statics.
  pub data OnPage : ℕ → Standing → Type 0 where
    before : {k : ℕ} (printed : Option ℕ) → k < n → OnPage k (on ux inside flow k 0 count printed)
    on_arg :
        {k : ℕ} (i : ℕ) (printed : Option ℕ)
        → k ≡ n + i
        → i < count
        → OnPage k (on ux inside flow (n + 1) (i + 1) count printed)
    on_approve :
        {k : ℕ} (place : ℕ) (printed : Option ℕ)
        → place ≡ n + 3
        → k ≡ n + count
        → OnPage k (on ux inside flow place (count + 1) count printed)
    on_cancel :
        {k : ℕ} (place : ℕ) (printed : Option ℕ)
        → place ≡ n + 4
        → k ≡ n + count + 1
        → OnPage k (on ux inside flow place (count + 1) count printed)

  -- A press that comes to a page.
  pub Comes : ℕ → Outcome (Standing × Visit) → Type 0
  Comes k pressed =
      (w : Standing) × (x : Visit) × (pressed ≡ ok (w, x))
      × OnPage k w
      × (get_elem? book k ≡ some x)

  module _ (b : IsBook) where
    next_page :
        (k : ℕ) (pressed : Outcome (Standing × Visit))
        → k < n + count + 1
        → Comes (k + 1) pressed
        → Comes (turn (n + count + 1) right_button k) pressed
    unfolding turn
    next_page k pressed less c =
        subst (λ j. Comes j pressed) (sym (if_true _ _ _ (lt→ltb k (n + count + 1) less))) c

    right_before :
        (k : ℕ) (printed : Option ℕ)
        → k < n
        → Comes (k + 1) (press_next ux flow (on ux inside flow k 0 count printed))
    unfolding Comes
    right_before k printed less = elim (lt_or_eq (k + 1) n (omega arith)) [
      | inl inner ↦
          let (s, at, plain, shown) = b.in_front (k + 1) inner in
          (
            on ux inside flow (k + 1) 0 count printed,
            on_step s,
            press_plain ux inside flow k _ printed s (omega (arith, b.size)) at plain,
            before printed inner,
            shown,
          )
      | inr border ↦ (
        on ux inside flow (n + 1) 1 count (some 0),
        on_argument ux_single_action_sign_flow_variable_step (some 0),
        press_first ux inside flow n here k count printed border,
        on_arg 0 (some 0) (omega arith) (omega (arith, b.some_arg)),
        b.argument (k + 1) 0 (omega arith) (omega (arith, b.some_arg)),
      )
    ]

    right_arg :
        (k i : ℕ) (printed : Option ℕ)
        → k ≡ n + i
        → i < count
        → Comes (k + 1) (press_next ux flow (on ux inside flow (n + 1) (i + 1) count printed))
    unfolding Comes
    right_arg k i printed e less = elim (lt_or_eq (i + 1) count (omega arith)) [
      | inl inner ↦ (
        on ux inside flow (n + 1) ((i + 1) + 1) count (some (i + 1)),
        on_argument ux_single_action_sign_flow_variable_step (some (i + 1)),
        press_argument ux inside flow n here (i + 1) count printed inner b.small,
        on_arg (i + 1) (some (i + 1)) (omega arith) inner,
        b.argument (k + 1) (i + 1) (omega arith) inner,
      )
      | inr last ↦ (
        on ux inside flow (n + 3) (count + 1) count printed,
        on_step ux_single_action_sign_flow_7_step,
        ap (λ step. press_next ux flow (on ux inside flow (n + 1) step count printed)) last
            ∙ press_last ux inside flow n here count printed,
        on_approve (n + 3) printed refl (omega arith),
        b.approve (k + 1) (omega arith),
      )
    ]

    at_step :
        (place m : ℕ) (s : Step)
        → place ≡ m
        → get_elem? flow m ≡ some s
        → get_elem? flow place ≡ some s
    at_step place m s e at = ap (get_elem? flow) e ∙ at

    right_approve :
        (k place : ℕ) (printed : Option ℕ)
        → place ≡ n + 3
        → k ≡ n + count
        → Comes (k + 1) (press_next ux flow (on ux inside flow place (count + 1) count printed))
    unfolding Comes
    right_approve k place printed e f = (
      on ux inside flow (place + 1) (count + 1) count printed,
      on_step ux_single_action_sign_flow_8_step,
      press_plain ux inside flow place _ printed ux_single_action_sign_flow_8_step
          (omega (arith, b.size)) (at_step (place + 1) (n + 4) _ (omega arith) here.at_cancel) tt,
      on_cancel (place + 1) printed (omega arith) (omega arith),
      b.cancel (k + 1) (omega arith),
    )

    -- The last page stays.
    right_cancel :
        (k place : ℕ) (printed : Option ℕ)
        → place ≡ n + 4
        → k ≡ n + count + 1
        → Comes
            (turn (n + count + 1) right_button k)
            (press_next ux flow (on ux inside flow place (count + 1) count printed))
    unfolding Comes turn
    right_cancel k place printed e f =
        let last : (if ltb k (n + count + 1) then k + 1 else k) ≡ k = ground arith in
        subst
          (λ j. Comes j (press_next ux flow (on ux inside flow place (count + 1) count printed)))
          (sym last)
          (
            on ux inside flow place (count + 1) count printed,
            on_step ux_single_action_sign_flow_8_step,
            next_stays ux inside flow place _ printed ux_single_action_sign_flow_8_step
                (omega (arith, b.size)) (at_step place (n + 4) _ e here.at_cancel) tt,
            on_cancel place printed e f,
            b.cancel k f,
          )

    press_right-Comes :
        (k : ℕ) (v : Standing)
        → OnPage k v
        → Comes (turn (n + count + 1) right_button k) (press ux flow right_button v)
    unfolding press
    press_right-Comes k v (before printed less) =
        next_page k _ (omega arith) (right_before k printed less)
    press_right-Comes k v (on_arg i printed e less) =
        next_page k _ (omega arith) (right_arg k i printed e less)
    press_right-Comes k v (on_approve place printed e f) =
        next_page k _ (omega arith) (right_approve k place printed e f)
    press_right-Comes k v (on_cancel place printed e f) = right_cancel k place printed e f

    press_left-Comes : (k : ℕ) (v : Standing) → OnPage k v → Comes (k - 1) (press_prev ux flow v)
    unfolding Comes
    press_left-Comes zero v (before printed less) =
        let (s, at, plain, shown) = b.in_front 0 less in
        (v, on_step s, prev_stays ux inside flow _ printed s at plain, before printed less, shown)
    press_left-Comes (suc k) v (before printed less) =
        let (s, at, plain, shown) = b.in_front (suc k - 1) (omega arith) in
        (
          on ux inside flow (suc k - 1) 0 count printed,
          on_step s,
          back_plain ux inside flow (suc k) (suc k - 1) _ printed s (omega arith)
              (omega (arith, b.size)) at plain,
          before printed (omega arith),
          shown,
        )
    press_left-Comes k v (on_arg zero printed e less) =
        let (s, at, plain, shown) = b.in_front (k - 1) (omega (arith, b.front)) in
        (
          on ux inside flow (k - 1) 0 count printed,
          on_step s,
          back_first ux inside flow n here (k - 1) count printed s (omega (arith, b.front)) at
              plain,
          before printed (omega (arith, b.front)),
          shown,
        )
    press_left-Comes k v (on_arg (suc i) printed e less) = (
      on ux inside flow (n + 1) (i + 1) count (some i),
      on_argument ux_single_action_sign_flow_variable_step (some i),
      back_argument ux inside flow n here i count printed (omega arith) b.small,
      on_arg i (some i) (omega arith) (omega arith),
      b.argument (k - 1) i (omega arith) (omega arith),
    )
    press_left-Comes k v (on_approve place printed e f) =
        let i = count - 1 in
        (
          on ux inside flow (n + 1) (i + 1) count (some i),
          on_argument ux_single_action_sign_flow_variable_step (some i),
          back_last ux inside flow n here i count place printed e (omega (arith, b.some_arg))
              b.small,
          on_arg i (some i) (omega (arith, b.some_arg)) (omega (arith, b.some_arg)),
          b.argument (k - 1) i (omega (arith, b.some_arg)) (omega (arith, b.some_arg)),
        )
    press_left-Comes k v (on_cancel place printed e f) = (
      on ux inside flow (n + 3) (count + 1) count printed,
      on_step ux_single_action_sign_flow_7_step,
      back_plain ux inside flow place (n + 3) _ printed ux_single_action_sign_flow_7_step
          (omega arith) (omega (arith, b.size)) here.at_approve tt,
      on_approve (n + 3) printed refl (omega arith),
      b.approve (k - 1) (omega arith),
    )

    press-Comes :
        (button : Button) (k : ℕ) (v : Standing)
        → OnPage k v
        → Comes (turn (n + count + 1) button k) (press ux flow button v)
    unfolding press turn
    press-Comes left_button k v at = press_left-Comes k v at
    press-Comes right_button k v at = press_right-Comes k v at

    -- The visits are those of the pages that the presses come to.
    pub browse-turns :
        (buttons : List Button) (k : ℕ) (v : Standing)
        → OnPage k v
        → (visits : List Visit) × (browse ux flow buttons v ≡ ok visits)
          × (map some visits ≡ map (get_elem? book) (turns (n + count + 1) buttons k))
    unfolding browse turns Comes
    browse-turns [] k v at = ([], refl, refl)
    browse-turns (button ∷ buttons) k v at =
        let (w, x, pressed, next, shown) = press-Comes button k v at in
        let (visits, browsed, same) = browse-turns buttons (turn (n + count + 1) button k) w next in
        (x ∷ visits, rw (pressed, browsed) refl, rw (shown, same) refl)
