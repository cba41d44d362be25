-- ===== src/App/Nbgl/Laws.antt =====
-- The review of actions in src/ui_nbgl.c.
use ledger_app.Base.{ℕ, ◌<◌, ◌≢◌, refl, List, stuck}
use ledger_app.Base.Ends.{Ends, ends_ok, Ends->>=, Ends-ne-stuck}
use ledger_app.Stream.Context.{Sha256}
use ledger_app.Stream.Fields.Shape.{IsWellFormed}
use ledger_app.Stream.Machine.Progress.{left_over}
use ledger_app.App.Device.{Device, SignHash}
use ledger_app.App.Review.Stops.{Ends-review_loop, Ends-name_identity}
use ledger_app.App.Nbgl.{notices, show_action, ui_display_single_action_sign_flow}

module _ {H : Type 0} where
  Ends-show_action : (d : Device H) → Ends (show_action d)
  unfolding show_action
  Ends-show_action d = Ends->>= (Ends-name_identity d) (λ named. ends_ok _)

module _ {H : Type 0} (sha : Sha256 H) (sign : SignHash) where
  -- Where signing ends, the display of an action ends too, with more fuel than the parser has left
  -- to do, whatever actions follow.
  pub ui_display_single_action_sign_flow_stops :
      (fuel : ℕ) (d : Device H)
      → ((path hash : List ℕ) → Ends (sign path hash))
      → IsWellFormed d.app.tx_processing_ctx
      → left_over d.app.tx_processing_ctx < fuel
      → ui_display_single_action_sign_flow sha sign fuel d ≢ stuck
  unfolding ui_display_single_action_sign_flow
  ui_display_single_action_sign_flow_stops fuel d signs w enough = Ends-ne-stuck (
      Ends-review_loop sha sign notices signs (λ x. x) show_action (λ x. refl) Ends-show_action fuel
        d w enough)
