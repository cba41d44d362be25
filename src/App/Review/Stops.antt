-- ===== src/App/Review/Stops.antt =====
-- A review ends: each skipped action takes from what is left of the command.
use ledger_app.Base.{
  ℕ, zero, suc, ◌<◌, ◌≡◌, refl, ap, sym, List, [], arith, Outcome, ok, >>=-eq-ok, ok-injective,
  ◌==◌, if◌then◌else◌, if_both, eq_of_==,
}
use mathlib.Core.Path.{subst}
use ledger_app.Base.Ends.{Ends, ends, ends_ok, Ends->>=, Ends->>=_eq, Ends-if}
use ledger_app.Stream.Context.{Sha256, Context}
use ledger_app.Stream.Fields.Shape.{IsWellFormed}
use ledger_app.Stream.Machine.{
  ParserStatus, stream_fault, stream_processing, stream_action_ready, stream_confirm_processing,
  stream_finished, stream_not_allowed, parse_tx, process_tx_internal,
}
use ledger_app.Stream.Machine.Rounds.{process_tx_loop_ok}
use ledger_app.Stream.Machine.Stops.{Ends-process_tx_loop, start_IsWellFormed}
use ledger_app.Stream.Machine.Progress.{left_over, process_tx_loop-GoesOn}
use ledger_app.App.Preparse.Stops.{Ends-is_state_neutral_action, Ends-equals_literal}
use ledger_app.App.Sign.{
  App, Reply, status_word, show_multiple_actions, show_single_action, sign_hash,
  abort_unknown_action, user_action_sign_flow_ok,
}
use ledger_app.App.Device.{Device, Notices, SignHash, consent, answer_consent, sign_device}
use ledger_app.App.Review.{skips_review, name_identity, review_loop}

module _ {H : Type 0} where
  Ends-skips_review : (d : Device H) → Ends (skips_review d)
  unfolding skips_review
  Ends-skips_review d = search (ends, Ends-is_state_neutral_action) depth 10

  pub Ends-name_identity : (d : Device H) → Ends (name_identity d)
  unfolding name_identity
  Ends-name_identity d = search (ends, Ends-equals_literal) depth 20

  -- The context that a parse with no new bytes begins with.
  abbrev resumed : Context H → Context H
  resumed c = if c.command_length == 0 then record c { work_buffer = []; command_length = 0 } else c

  left_over-resumed : (c : Context H) → left_over (resumed c) ≡ left_over c
  left_over-resumed c =
      if_both (λ (x : Context H). left_over x ≡ left_over c) (c.command_length == 0)
        (λ empty. let none_left = eq_of_== c.command_length 0 empty in omega (arith, none_left))
        (λ some_left. refl)

module _ {H : Type 0} (sha : Sha256 H) where
  Ends-parse_more : (c : Context H) → IsWellFormed c → Ends (parse_tx sha c [] 0)
  unfolding parse_tx process_tx_internal
  Ends-parse_more c w =
      Ends-process_tx_loop sha _ _ (start_IsWellFormed c [] 0 w (omega arith)) (omega arith)

  parse_more_ready :
      (c d : Context H)
      → IsWellFormed c
      → parse_tx sha c [] 0 ≡ ok (stream_action_ready, d)
      → IsWellFormed d × (left_over d < left_over c)
  unfolding parse_tx process_tx_internal
  parse_more_ready c d w e =
      let begun = start_IsWellFormed c [] 0 w (omega arith) in
      let less : left_over d < left_over (resumed c) = process_tx_loop-GoesOn sha _ _ begun e in
      (process_tx_loop_ok sha _ _ begun e refl, omega (arith, left_over-resumed c))

  -- The consent parses on: it ends, and an action that it comes to leaves less to do.
  Ends-user_action_sign_flow_ok :
      (app : App H) → IsWellFormed app.tx_processing_ctx → Ends (user_action_sign_flow_ok sha app)
  unfolding user_action_sign_flow_ok
  Ends-user_action_sign_flow_ok app w =
      Ends->>= (Ends-parse_more app.tx_processing_ctx w) (λ p. ends_ok _)

  pub user_action_sign_flow_ok_ready :
      (app : App H) {app' : App H}
      → IsWellFormed app.tx_processing_ctx
      → user_action_sign_flow_ok sha app ≡ ok (show_single_action, app')
      → IsWellFormed app'.tx_processing_ctx
        × (left_over app'.tx_processing_ctx < left_over app.tx_processing_ctx)
  unfolding user_action_sign_flow_ok
  user_action_sign_flow_ok_ready app {app'} w e =
      let ((s, d), ran, rest) = >>=-eq-ok (parse_tx sha app.tx_processing_ctx [] 0) _ e in
      after s d (ok-injective rest) ran
    where
      after :
          (s : ParserStatus) (d : Context H)
          → ◌≡◌ {A = Reply × App H}
              (
                elim s [
                  | stream_action_ready ↦ show_single_action
                  | stream_processing ↦ status_word 0x9000
                  | stream_finished ↦ sign_hash
                  | stream_not_allowed ↦ abort_unknown_action
                  | stream_fault ↦ status_word 0x6A80
                  | stream_confirm_processing ↦ status_word 0x6A80
                ],
                record app { tx_processing_ctx = d },
              )
              (show_single_action, app')
          → parse_tx sha app.tx_processing_ctx [] 0 ≡ ok (s, d)
          → IsWellFormed app'.tx_processing_ctx
            × (left_over app'.tx_processing_ctx < left_over app.tx_processing_ctx)
      after stream_action_ready d q ran =
          let same : d ≡ app'.tx_processing_ctx =
            ap (λ (p : Reply × App H). p.1.tx_processing_ctx) q in
          subst
            (λ (c : Context H). IsWellFormed c × (left_over c < left_over app.tx_processing_ctx))
            same (parse_more_ready app.tx_processing_ctx d w ran)
      after stream_processing d q ran = cc
      after stream_finished d q ran = cc
      after stream_not_allowed d q ran = cc
      after stream_fault d q ran = cc
      after stream_confirm_processing d q ran = cc

module _ {H : Type 0} (sha : Sha256 H) (sign : SignHash) (ui : Notices H)
    (signs : (path hash : List ℕ) → Ends (sign path hash)) where
  Ends-consent :
      (display : Device H → Outcome (Device H)) (d : Device H)
      → IsWellFormed d.app.tx_processing_ctx
      → ((e : Device H)
          → IsWellFormed e.app.tx_processing_ctx
          → left_over e.app.tx_processing_ctx < left_over d.app.tx_processing_ctx
          → Ends (display e))
      → Ends (consent sha sign ui display d)
  unfolding consent answer_consent sign_device
  Ends-consent display d w goes_on =
      Ends->>=_eq (user_action_sign_flow_ok sha d.app) (Ends-user_action_sign_flow_ok sha d.app w)
        λ p ran. after (p.0) (p.1) ran
    where
      after :
          (r : Reply) (app' : App H)
          → user_action_sign_flow_ok sha d.app ≡ ok (r, app')
          → Ends (answer_consent sha sign ui display r (record d { app = app' }))
      after show_single_action app' ran =
          let next = user_action_sign_flow_ok_ready sha d.app w ran in
          goes_on (record d { app = app' }) (next.0) (next.1)
      after show_multiple_actions app' ran = ends_ok _
      after sign_hash app' ran =
          Ends->>= (Ends->>= (signs _ _) (λ reply. ends_ok _)) (λ p. ends_ok _)
      after abort_unknown_action app' ran = ends_ok _
      after (status_word code) app' ran = ends_ok _

  module _ (prepare : Device H → Device H) (show_action : Device H → Outcome (Device H))
      (same_app : (d : Device H) → (prepare d).app ≡ d.app)
      (shows : (d : Device H) → Ends (show_action d)) where
    -- With more fuel than the parser has left to do, the display of an action ends.
    pub Ends-review_loop :
        (fuel : ℕ) (d : Device H)
        → IsWellFormed d.app.tx_processing_ctx
        → left_over d.app.tx_processing_ctx < fuel
        → Ends (review_loop sha sign ui prepare show_action fuel d)
    unfolding review_loop
    Ends-review_loop zero d w h = elim h [ ]
    Ends-review_loop (suc fuel) d w h =
        let kept = same_app d in
        Ends->>= (Ends-skips_review (prepare d)) λ skips.
          Ends-if skips
            (Ends-consent (review_loop sha sign ui prepare show_action fuel) (prepare d)
              (subst (λ (a : App H). IsWellFormed a.tx_processing_ctx) (sym kept) w)
              (λ e v less. Ends-review_loop fuel e v (smaller less)))
            (shows (prepare d))
      where
        smaller : {n : ℕ} → n < left_over (prepare d).app.tx_processing_ctx → n < fuel
        smaller less =
            let kept : left_over (prepare d).app.tx_processing_ctx
                ≡ left_over d.app.tx_processing_ctx =
              ap (λ (a : App H). left_over a.tx_processing_ctx) (same_app d) in
            omega arith
