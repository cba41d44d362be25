-- ===== src/App/Bagl/Flows/Browsing.antt =====
-- The review of an action in src/ui_bagl.c, gone through with both buttons.
use ledger_app.Base.{
  ℕ, ◌+◌, ◌≡◌, Bool, if◌then◌else◌, List, [], ◌∷◌, ◌++◌, some, get_elem?, ok, map,
}
use ledger_app.App.Bagl.Flows.{
  Step, review_flow, ux_single_action_sign_flow_7_step, ux_single_action_sign_flow_8_step,
}
use ledger_app.App.Bagl.Flows.Presses.{IsPlain}
use ledger_app.App.Bagl.Flows.Tours.{arguments, review_visits}
use ledger_app.App.Bagl.Flows.Walk.{UxFlow, IsUxFlow, Button, Visit, on_step, visit_all}
use ledger_app.App.Bagl.Flows.Pager.{turns}

-- The visits of the arguments and of the two last steps.
abbrev last_visits : ℕ → List Visit
last_visits count =
    arguments 0 count
    ++ (on_step ux_single_action_sign_flow_7_step ∷ on_step ux_single_action_sign_flow_8_step ∷ [])

abbrev FrontAt : List Step → List Visit → ℕ → Type 0
FrontAt flow book k =
    (s : Step) × (get_elem? flow k ≡ some s) × IsPlain s × (get_elem? book k ≡ some (on_step s))

module _ (ux : UxFlow) (inside : IsUxFlow ux) where
  abbrev Browses : Bool → ℕ → List Button → Type 0
  Browses verbose count buttons =
      (visits : List Visit) × (visit_all ux (review_flow verbose) count buttons ≡ ok visits)
      × (map some visits
          ≡ map (get_elem? (review_visits verbose count))
              (0 ∷ turns (count + (if verbose then 6 else 4)) buttons 0))
