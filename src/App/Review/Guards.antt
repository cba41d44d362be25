-- ===== src/App/Review/Guards.antt =====
-- A review keeps the guard: no action is ready but one that is known or admitted by the setting.
use ledger_app.Base.{
  ℕ, zero, suc, ◌∙◌, List, [], ◌≡◌, ap, sym, true, Bool, Bool-cases, inl, inr, Outcome, ok,
  stuck_not_ok, >>=-eq-ok, ok-injective, then_of, else_of, if_both, ltb, ◌==◌,
}
use mathlib.Core.Path.{subst}
use ledger_app.Stream.Context.{Sha256, Context}
use ledger_app.Stream.Known.{is_known_action}
use ledger_app.Stream.Machine.{ParserStatus, stream_finished, stream_processing}
use ledger_app.Stream.Machine.Vetted.{IsVetted}
use ledger_app.App.Sign.{
  App, Reply, status_word, show_multiple_actions, show_single_action, sign_hash,
  abort_unknown_action, user_action_sign_flow_ok,
}
use ledger_app.App.Sign.Laws.{IsGuarded, user_action_sign_flow_ok-Answered}
use ledger_app.App.Device.{
  Device, Notices, SignHash, consent, answer_consent, sign_device, effective_actions,
  io_exchange_with_code,
}
use ledger_app.App.Review.{skips_review, name_identity, review_loop, begin_review}
use ledger_app.App.Review.Renames.{name_identity-OnlyRenamed}

-- A screen without a review leaves the globals of signing alone.
pub record IsNotice {H : Type 0} (ui : Notices H) : Type 0 where
  pub idle : (d : Device H) → (ui.ui_idle d).app ≡ d.app
  pub abort : (d : Device H) → (ui.ui_abort_unknown_action d).app ≡ d.app
  pub done :
      (s : ParserStatus) (validated : Bool) (d : Device H)
      → (ui.ui_display_action_sign_done s validated d).app ≡ d.app

module _ {H : Type 0} where
  -- What may be done to a device.
  abbrev pub Keeps : (Device H → Outcome (Device H)) → Type 0
  Keeps f =
      (allow : ℕ) (d d' : Device H) → IsGuarded allow d.app → f d ≡ ok d' → IsGuarded allow d'.app

  pub same_app-IsGuarded :
      (allow : ℕ) (d d' : Device H)
      → d'.app ≡ d.app
      → IsGuarded allow d.app
      → IsGuarded allow d'.app
  same_app-IsGuarded allow d d' same g = subst (λ (a : App H). IsGuarded allow a) (sym same) g

  content-IsGuarded :
      (allow : ℕ) (c d : Context H)
      → ◌≡◌ {A = Context H} (record d { content = c.content }) c
      → IsVetted allow c
      → IsVetted allow d
  unfolding is_known_action
  content-IsGuarded allow c d same g =
      let moved = subst (λ (x : Context H). IsVetted allow x) (sym same) g in
      record { setting = moved.setting; admitted = moved.admitted }

  pub name_identity-IsGuarded : Keeps name_identity
  name_identity-IsGuarded allow d d' g e =
      content-IsGuarded allow d.app.tx_processing_ctx d'.app.tx_processing_ctx
        (name_identity-OnlyRenamed d e).same_but_content g

  -- The hash does not count.
  pub signed-IsGuarded :
      (allow : ℕ) (sha : Sha256 H) (sign : SignHash) (d : Device H) (p : List ℕ × Device H)
      → IsGuarded allow d.app
      → sign_device sha sign d ≡ ok p
      → IsGuarded allow (p.1).app
  unfolding sign_device is_known_action
  signed-IsGuarded allow sha sign d p g e =
      let (reply, signed, last) = >>=-eq-ok (sign _ _) _ e in
      subst (λ (x : List ℕ × Device H). IsGuarded allow (x.1).app) (ok-injective last)
        (record { setting = g.setting; admitted = g.admitted })

module _ {H : Type 0} (sha : Sha256 H) (sign : SignHash) (ui : Notices H)
    (notice : IsNotice ui) where
  answer_consent-IsGuarded :
      (display : Device H → Outcome (Device H)) (reply : Reply)
      → Keeps display
      → Keeps (answer_consent sha sign ui display reply)
  unfolding answer_consent
  answer_consent-IsGuarded display show_single_action keeps allow d d' g e = keeps allow d d' g e
  answer_consent-IsGuarded display show_multiple_actions keeps allow d d' g e =
      subst (λ (x : Device H). IsGuarded allow x.app) (ok-injective e) g
  answer_consent-IsGuarded display sign_hash keeps allow d d' g e =
      let (p, signed, last) = >>=-eq-ok (sign_device sha sign d) _ e in
      let same = ap (λ (x : Device H). x.app) (sym (ok-injective last)) in
      same_app-IsGuarded allow (p.1) d'
        (same ∙ notice.done stream_finished true (io_exchange_with_code 0x9000 (p.0) (p.1)))
        (signed-IsGuarded allow sha sign d p g signed)
  answer_consent-IsGuarded display abort_unknown_action keeps allow d d' g e =
      let same = ap (λ (x : Device H). x.app) (sym (ok-injective e)) in
      same_app-IsGuarded allow d d' (same ∙ notice.abort (io_exchange_with_code 0x6987 [] d)) g
  answer_consent-IsGuarded display (status_word code) keeps allow d d' g e =
      let sent = io_exchange_with_code code [] d in
      subst (λ (x : Device H). IsGuarded allow x.app) (ok-injective e)
        (if_both (λ (x : Device H). IsGuarded allow x.app) (code == 0x9000)
          (λ more.
            same_app-IsGuarded allow d (ui.ui_display_action_sign_done stream_processing true sent)
              (notice.done stream_processing true sent) g)
          (λ fault. same_app-IsGuarded allow d (ui.ui_idle sent) (notice.idle sent) g))

  pub consent-IsGuarded :
      (display : Device H → Outcome (Device H))
      → Keeps display
      → Keeps (consent sha sign ui display)
  unfolding consent
  consent-IsGuarded display keeps allow d d' g e =
      let ((reply, app), ran, rest) = >>=-eq-ok (user_action_sign_flow_ok sha d.app) _ e in
      answer_consent-IsGuarded display reply keeps allow (record d { app = app }) d'
        (user_action_sign_flow_ok-Answered sha allow d.app g ran).guarded rest

  module _ (prepare : Device H → Device H) (show_action : Device H → Outcome (Device H))
      (same_app : (d : Device H) → (prepare d).app ≡ d.app) (shows : Keeps show_action) where
    pub review_loop-IsGuarded :
        (fuel : ℕ) → Keeps (review_loop sha sign ui prepare show_action fuel)
    unfolding review_loop
    review_loop-IsGuarded zero allow d d' g e = absurd (stuck_not_ok e)
    review_loop-IsGuarded (suc fuel) allow d d' g e =
        let prepared = same_app-IsGuarded allow d (prepare d) (same_app d) g in
        let (skips, tested, rest) = >>=-eq-ok (skips_review (prepare d)) _ e in
        elim (Bool-cases skips) [
          | inl skip ↦
              consent-IsGuarded (review_loop sha sign ui prepare show_action fuel)
                (review_loop-IsGuarded fuel) allow (prepare d) d' prepared (then_of _ _ _ skip rest)
          | inr review ↦ shows allow (prepare d) d' prepared (else_of _ _ _ review rest)
        ]

    pub begin_review-IsGuarded :
        (show_start : Device H → Device H) (fuel : ℕ)
        → ((d : Device H) → (show_start d).app ≡ d.app)
        → Keeps (begin_review sha sign ui prepare show_action show_start fuel)
    unfolding begin_review
    begin_review-IsGuarded show_start fuel starts allow d d' g e =
        let first : Device H = record d { effective_action_index = 1 } in
        elim (Bool-cases (ltb 1 (effective_actions first))) [
          | inl several ↦
              subst (λ (x : Device H). IsGuarded allow x.app)
                (ok-injective (then_of _ _ _ several e))
                (same_app-IsGuarded allow first (show_start first) (starts first) g)
          | inr few ↦
              let (x, consented, rest) =
                >>=-eq-ok
                  (consent sha sign ui (review_loop sha sign ui prepare show_action fuel) first) _
                  (else_of _ _ _ few e) in
              review_loop-IsGuarded fuel allow x d'
                (consent-IsGuarded (review_loop sha sign ui prepare show_action fuel)
                  (review_loop-IsGuarded fuel) allow first x g consented)
                rest
        ]
