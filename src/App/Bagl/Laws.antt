-- ===== src/App/Bagl/Laws.antt =====
-- The review of actions in src/ui_bagl.c.
use ledger_app.Base.{
  ℕ, suc, ◌<◌, ◌≡◌, ◌≢◌, ◌∙◌, refl, ap, true, false, ◌==◌, List, ◌∷◌, ok, stuck, >>=-eq-ok,
  ok-injective, after_ok, if_false, sym,
}
use ledger_app.Base.Ends.{Ends, ends_ok, Ends->>=, Ends-ne-stuck}
use ledger_app.Stream.Context.{Sha256}
use ledger_app.Stream.Fields.Shape.{IsWellFormed}
use ledger_app.Stream.Machine.Progress.{left_over}
use ledger_app.App.Device.{Device, SignHash, screen, action_flow}
use ledger_app.App.Review.{skips_review, name_identity, review_loop}
use ledger_app.App.Review.Renames.{name_identity-OnlyRenamed}
use ledger_app.App.Review.Stops.{Ends-review_loop, Ends-name_identity}
use ledger_app.App.Bagl.{
  notices, title, is_last, show_action, reset_steps, ui_display_single_action_sign_flow,
}

module _ {H : Type 0} where
  Ends-show_action : (d : Device H) → Ends (show_action d)
  unfolding show_action
  Ends-show_action d = Ends->>= (Ends-name_identity d) (λ named. ends_ok _)

  reset_steps_app : (d : Device H) → (reset_steps d).app ≡ d.app
  unfolding reset_steps
  reset_steps_app d = refl

module _ {H : Type 0} (sha : Sha256 H) (sign : SignHash) where
  -- Where signing ends, the display of an action ends too, with more fuel than the parser has left
  -- to do, whatever actions follow.
  pub ui_display_single_action_sign_flow-ne-stuck :
      (fuel : ℕ) (d : Device H)
      → ((path hash : List ℕ) → Ends (sign path hash))
      → IsWellFormed d.app.tx_processing_ctx
      → left_over d.app.tx_processing_ctx < fuel
      → ui_display_single_action_sign_flow sha sign fuel d ≢ stuck
  unfolding ui_display_single_action_sign_flow
  ui_display_single_action_sign_flow-ne-stuck fuel d signs w enough = Ends-ne-stuck (
      Ends-review_loop sha sign notices signs reset_steps show_action reset_steps_app
        Ends-show_action fuel d w enough)

  -- With the verbose setting on, a display that returns is the review of the action at hand: one
  -- screen with the authorization, and the parser, its hash and the path stay as they are.
  pub ui_display_single_action_sign_flow_verbose :
      (fuel : ℕ) (d : Device H) {d' : Device H}
      → d.app.tx_processing_ctx.is_verbose ≡ 1
      → ui_display_single_action_sign_flow sha sign (suc fuel) d ≡ ok d'
      → (d'.events ≡ screen (action_flow true (title d) (is_last d)) ∷ d.events)
        × (d'.app.tx_processing_ctx.state ≡ d.app.tx_processing_ctx.state)
        × (d'.app.tx_processing_ctx.sha256 ≡ d.app.tx_processing_ctx.sha256)
        × (left_over d'.app.tx_processing_ctx ≡ left_over d.app.tx_processing_ctx)
        × (d'.app.bip32_path ≡ d.app.bip32_path)
  unfolding ui_display_single_action_sign_flow review_loop skips_review show_action reset_steps
      title is_last
  ui_display_single_action_sign_flow_verbose fuel d {d'} verbose e =
      let c = d.app.tx_processing_ctx in
      let loud : (c.is_verbose == 0) ≡ false = ap (λ n. n == 0) verbose in
      let asked : (c.is_verbose == 1) ≡ true = ap (λ n. n == 1) verbose in
      let begun = sym (after_ok _ (if_false _ _ _ loud)) ∙ e in
      let (named, renamed, last) = >>=-eq-ok (name_identity (reset_steps d)) _ begun in
      let kept = name_identity-OnlyRenamed (reset_steps d) renamed in
      let same = sym (ok-injective last) in
      (
        ap (λ (x : Device H). x.events) same
            ∙ ap (λ b. screen (action_flow b (title d) (is_last d)) ∷ named.events) asked
            ∙ ap (◌∷◌ (screen (action_flow true (title d) (is_last d)))) kept.same_events,
        ap (λ (x : Device H). x.app.tx_processing_ctx.state) same ∙ kept.same_state,
        ap (λ (x : Device H). x.app.tx_processing_ctx.sha256) same ∙ kept.same_hash,
        ap (λ (x : Device H). left_over x.app.tx_processing_ctx) same ∙ kept.same_left,
        ap (λ (x : Device H). x.app.bip32_path) same ∙ kept.same_path,
      )
