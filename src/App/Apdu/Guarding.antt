-- ===== src/App/Apdu/Guarding.antt =====
-- What main.c relies on of an interface, and that the two interfaces give it.
use ledger_app.Base.{
  ℕ, ◌≡◌, refl, ap, sym, Bool, true, false, if_both, >>=-eq-ok, ok-injective, ◌∙◌, ltb,
}
use ledger_app.Stream.Context.{Sha256}
use ledger_app.Stream.Machine.{
  ParserStatus, stream_fault, stream_processing, stream_action_ready, stream_confirm_processing,
  stream_finished, stream_not_allowed,
}
use ledger_app.App.Device.{Device, SignHash, effective_actions}
use ledger_app.App.Review.{name_identity}
use ledger_app.App.Review.Guards.{
  IsNotice, Keeps, same_app-IsGuarded, name_identity-IsGuarded, review_loop-IsGuarded,
  begin_review-IsGuarded,
}
use ledger_app.App.Bagl
use ledger_app.App.Nbgl
use ledger_app.App.Apdu.{Interface, Build, have_bagl, have_nbgl, bagl, nbgl, interface}

pub record IsGuarding {H : Type 0} (ui : Interface H) : Type 0 where
  pub notice : IsNotice ui.notices
  pub key_flow : (d : Device H) → (ui.public_key_flow d).app ≡ d.app
  pub key_done : (validated : Bool) (d : Device H) → (ui.public_key_done validated d).app ≡ d.app
  pub single : (fuel : ℕ) → Keeps (ui.display_single fuel)
  pub multiple : (fuel : ℕ) → Keeps (ui.display_multiple fuel)

module _ {H : Type 0} where
  bagl-IsNotice : IsNotice {H = H} Bagl.notices
  unfolding Bagl.ui_idle Bagl.ui_abort_unknown_action Bagl.ui_display_action_sign_done
  bagl-IsNotice = record { idle = λ d. refl; abort = λ d. refl; done = λ s v d. refl }

  bagl_shows : Keeps (Bagl.show_action {H = H})
  unfolding Bagl.show_action
  bagl_shows allow d d' g e =
      let (named, renamed, last) = >>=-eq-ok (name_identity d) _ e in
      same_app-IsGuarded allow named d' (ap (λ (x : Device H). x.app) (sym (ok-injective last)))
        (name_identity-IsGuarded allow d named g renamed)

  bagl_reset : (d : Device H) → (Bagl.reset_steps d).app ≡ d.app
  unfolding Bagl.reset_steps
  bagl_reset d = refl

  done_app :
      (s : ParserStatus) (validated : Bool) (d : Device H)
      → (Nbgl.ui_display_action_sign_done s validated d).app ≡ d.app
  unfolding Nbgl.ui_display_action_sign_done
  done_app stream_finished true d =
      if_both (λ (x : Device H). x.app ≡ d.app) (ltb 0 (effective_actions d)) (λ some. refl)
        (λ none. refl)
  done_app stream_finished false d = refl
  done_app stream_fault v d = refl
  done_app stream_processing v d = refl
  done_app stream_action_ready v d = refl
  done_app stream_confirm_processing v d = refl
  done_app stream_not_allowed v d = refl

  nbgl-IsNotice : IsNotice {H = H} Nbgl.notices
  unfolding Nbgl.ui_idle Nbgl.ui_abort_unknown_action
  nbgl-IsNotice = record { idle = λ d. refl; abort = λ d. refl; done = done_app }

  show_review_app : (d : Device H) → (Nbgl.show_review d).app ≡ d.app
  unfolding Nbgl.show_review
  show_review_app d = if_both (λ (x : Device H). x.app ≡ d.app) _ (λ one. refl) (λ next. refl)

  nbgl_shows : Keeps (Nbgl.show_action {H = H})
  unfolding Nbgl.show_action
  nbgl_shows allow d d' g e =
      let (named, renamed, last) = >>=-eq-ok (name_identity d) _ e in
      same_app-IsGuarded allow named d'
        (ap (λ (x : Device H). x.app) (sym (ok-injective last)) ∙ show_review_app named)
        (name_identity-IsGuarded allow d named g renamed)

module _ {H : Type 0} (sha : Sha256 H) (sign : SignHash) where
  bagl-IsGuarding : IsGuarding (bagl sha sign)
  unfolding Bagl.ui_display_public_key_flow Bagl.ui_display_public_key_done Bagl.ui_idle
      Bagl.ui_display_single_action_sign_flow Bagl.ui_display_multiple_action_sign_flow
  bagl-IsGuarding = record {
    notice = bagl-IsNotice;
    key_flow = λ d. refl;
    key_done = λ validated d. refl;
    single = λ fuel.
        review_loop-IsGuarded sha sign Bagl.notices bagl-IsNotice Bagl.reset_steps Bagl.show_action
          bagl_reset bagl_shows fuel;
    multiple = λ fuel.
        begin_review-IsGuarded sha sign Bagl.notices bagl-IsNotice Bagl.reset_steps Bagl.show_action
          bagl_reset bagl_shows _ fuel (λ d. refl);
  }

  nbgl-IsGuarding : IsGuarding (nbgl sha sign)
  unfolding Nbgl.ui_display_public_key_flow Nbgl.ui_display_public_key_done
      Nbgl.ui_display_single_action_sign_flow Nbgl.ui_display_multiple_action_sign_flow
  nbgl-IsGuarding = record {
    notice = nbgl-IsNotice;
    key_flow = λ d. refl;
    key_done = λ validated d. refl;
    single = λ fuel.
        review_loop-IsGuarded sha sign Nbgl.notices nbgl-IsNotice (λ d. d) Nbgl.show_action
          (λ d. refl) nbgl_shows fuel;
    multiple = λ fuel.
        begin_review-IsGuarded sha sign Nbgl.notices nbgl-IsNotice (λ d. d) Nbgl.show_action
          (λ d. refl) nbgl_shows _ fuel (λ d. refl);
  }

  pub interface-IsGuarding : (build : Build) → IsGuarding (interface sha sign build)
  unfolding interface
  interface-IsGuarding have_bagl = bagl-IsGuarding
  interface-IsGuarding have_nbgl = nbgl-IsGuarding
