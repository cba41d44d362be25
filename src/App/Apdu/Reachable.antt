-- ===== src/App/Apdu/Reachable.antt =====
-- The states that the application comes to, whatever the host sends and the user presses.
use ledger_app.Base.{
  ℕ, sym, if◌then◌else◌, if_true, if_false, ◌≡◌, refl, true, false, ◌==◌, Bool-cases, inl, inr,
  then_of, else_of, List, [], ok, >>=-eq-ok, ok-injective,
}
use mathlib.Core.Path.{subst}
use ledger_app.Stream.Context.{Sha256, Content}
use ledger_app.Stream.Machine.{stream_finished}
use ledger_app.App.Config.{config_init, toogle_unknown_action_allowed, toogle_verbose_config}
use ledger_app.App.Preparse.{StackBytes}
use ledger_app.App.Sign.{App, Reply, handle_sign, user_action_sign_flow_ok}
use ledger_app.App.Sign.Laws.{
  IsGuarded, Answered, in_effect, handle_sign-Answered, user_action_sign_flow_ok-Answered,
}
use ledger_app.App.Device.{Device, SignHash, consent, user_action_tx_cancel, io_exchange_with_code}
use ledger_app.App.Review.Guards.{same_app-IsGuarded, consent-IsGuarded}
use ledger_app.App.PublicKey.{
  Answer, answer, asynch, KeySource, user_action_address_ok, user_action_address_cancel,
  get_public_key_and_set_result,
}
use ledger_app.App.Apdu.{
  Interface, Build, interface, Version, handle_apdu, send, receive, app_round, app_start,
}
use ledger_app.App.Apdu.Guarding.{IsGuarding, interface-IsGuarding}
use ledger_app.App.Apdu.Commands.{command_setting, handle_apdu-IsGuarded}
use ledger_app.Stream.Known.{is_known_action}

module _ {H : Type 0} (sha : Sha256 H) (sign : SignHash) (ui : Interface H) (fuel : ℕ)
    (source : KeySource) (version : Version) where
  -- The setting in effect behind a round: a round without a command leaves it.
  abbrev pub round_setting : ℕ → App H → ℕ → List ℕ → ℕ
  round_setting allow app rx buffer = if rx == 0 then allow else command_setting allow app buffer

  -- The states with the setting in effect: that of the parser at the start, and then the stored one
  -- from each command on that begins a transaction. The application starts with no action ready. The
  -- host sends commands of any bytes, also while a review is shown; the user agrees, cancels, answers
  -- to an address and switches the settings, in any order; the memory that `workBuffer` points into
  -- may be written at any time. What stood in the stack and in the parser's content is arbitrary at
  -- each command.
  pub data Reachable : ℕ → Device H → Type 0 where
    started :
        (d : Device H)
        → d.app.tx_processing_ctx.action_ready ≡ false
        → Reachable d.app.tx_processing_ctx.unknown_action_allowed (app_start ui d)
    commanded :
        {allow : ℕ} {d e : Device H} (stack : StackBytes) (content : Content) (rx : ℕ)
        (buffer : List ℕ)
        → Reachable allow d
        → app_round sha sign ui fuel source version stack content rx buffer d ≡ ok e
        → Reachable (round_setting allow d.app rx buffer) e
    written :
        {allow : ℕ} {d : Device H} (buffer : List ℕ)
        → Reachable allow d
        → Reachable allow (receive buffer d)
    agreed :
        {allow : ℕ} {d e : Device H}
        → Reachable allow d
        → consent sha sign ui.notices (ui.display_single fuel) d ≡ ok e
        → Reachable allow e
    cancelled :
        {allow : ℕ} {d : Device H}
        → Reachable allow d
        → Reachable allow (user_action_tx_cancel sha sign ui.notices d)
    address_agreed :
        {allow : ℕ} {d : Device H}
        → Reachable allow d
        → Reachable allow (user_action_address_ok source ui.public_key_done d)
    address_cancelled :
        {allow : ℕ} {d : Device H}
        → Reachable allow d
        → Reachable allow (user_action_address_cancel source ui.public_key_done d)
    unknown_switched :
        {allow : ℕ} {d : Device H}
        → Reachable allow d
        → Reachable allow (record d {
          app = record (d.app) { storage = toogle_unknown_action_allowed d.app.storage };
        })
    verbose_switched :
        {allow : ℕ} {d : Device H}
        → Reachable allow d
        → Reachable allow
            (record d { app = record (d.app) { storage = toogle_verbose_config d.app.storage } })

  module _ (guarding : IsGuarding ui) where
    send-IsGuarded :
        (allow : ℕ) (a : Answer) (d : Device H)
        → IsGuarded allow d.app
        → IsGuarded allow (send a d).app
    unfolding send
    send-IsGuarded allow (answer code reply) d g = g
    send-IsGuarded allow asynch d g = g

    started-IsGuarded :
        (d : Device H)
        → d.app.tx_processing_ctx.action_ready ≡ false
        → IsGuarded d.app.tx_processing_ctx.unknown_action_allowed (app_start ui d).app
    unfolding app_start
    started-IsGuarded d none_ready =
        let configured : Device H = record d {
          app = record (d.app) { storage = config_init d.app.storage };
        } in
        same_app-IsGuarded d.app.tx_processing_ctx.unknown_action_allowed configured
          (ui.notices.ui_idle configured) (guarding.notice.idle configured)
          (record { setting = refl; admitted = λ h. cc })

    receive-IsGuarded :
        (allow : ℕ) (buffer : List ℕ) (d : Device H)
        → IsGuarded allow d.app
        → IsGuarded allow (receive buffer d).app
    unfolding receive is_known_action
    receive-IsGuarded allow buffer d g = record { setting = g.setting; admitted = g.admitted }

    app_round-IsGuarded :
        (allow : ℕ) (stack : StackBytes) (content : Content) (rx : ℕ) (buffer : List ℕ)
        (d e : Device H)
        → IsGuarded allow d.app
        → app_round sha sign ui fuel source version stack content rx buffer d ≡ ok e
        → IsGuarded (round_setting allow d.app rx buffer) e.app
    unfolding app_round receive
    app_round-IsGuarded allow stack content rx buffer d e g ran =
        let received = receive-IsGuarded allow buffer d g in
        elim (Bool-cases (rx == 0)) [
          | inl no_command ↦
              subst (λ n. IsGuarded n e.app) (sym (if_true _ _ _ no_command))
                (subst (λ (x : Device H). IsGuarded allow x.app)
                  (ok-injective (then_of _ _ _ no_command ran))
                  (send-IsGuarded allow (answer 0x6982 []) (receive buffer d) received))
          | inr some_command ↦
              let (p, handled, last) =
                >>=-eq-ok
                  (handle_apdu sha sign ui fuel source version stack content buffer
                    (receive buffer d))
                  _ (else_of _ _ _ some_command ran) in
              subst (λ n. IsGuarded n e.app) (sym (if_false _ _ _ some_command))
                (subst (λ (x : Device H). IsGuarded (command_setting allow d.app buffer) x.app)
                  (ok-injective last)
                  (send-IsGuarded (command_setting allow d.app buffer) (p.0) (p.1) (
                    handle_apdu-IsGuarded sha sign ui guarding fuel source version stack content
                      allow buffer (receive buffer d) p received handled)))
        ]

    Reachable-IsGuarded : {allow : ℕ} {d : Device H} → Reachable allow d → IsGuarded allow d.app
    unfolding user_action_tx_cancel user_action_address_ok user_action_address_cancel
    Reachable-IsGuarded (started d none_ready) = started-IsGuarded d none_ready
    Reachable-IsGuarded (commanded {allow} {d} {e} stack content rx buffer before ran) =
        app_round-IsGuarded allow stack content rx buffer d e (Reachable-IsGuarded before) ran
    Reachable-IsGuarded (written {allow} {d} buffer before) =
        receive-IsGuarded allow buffer d (Reachable-IsGuarded before)
    Reachable-IsGuarded (agreed {allow} {d} {e} before ran) =
        consent-IsGuarded sha sign ui.notices guarding.notice (ui.display_single fuel)
          (guarding.single fuel) allow d e (Reachable-IsGuarded before) ran
    Reachable-IsGuarded (cancelled {allow} {d} before) =
        let sent = io_exchange_with_code 0x6985 [] d in
        same_app-IsGuarded allow d
          (ui.notices.ui_display_action_sign_done stream_finished false sent)
          (guarding.notice.done stream_finished false sent) (Reachable-IsGuarded before)
    Reachable-IsGuarded (address_agreed {allow} {d} before) =
        let sent =
          io_exchange_with_code 0x9000 (get_public_key_and_set_result d.public_key_context) d in
        same_app-IsGuarded allow d (ui.public_key_done true sent) (guarding.key_done true sent)
          (Reachable-IsGuarded before)
    Reachable-IsGuarded (address_cancelled {allow} {d} before) =
        let sent = io_exchange_with_code 0x6985 [] d in
        same_app-IsGuarded allow d (ui.public_key_done false sent) (guarding.key_done false sent)
          (Reachable-IsGuarded before)
    Reachable-IsGuarded (unknown_switched before) =
        let g = Reachable-IsGuarded before in record { setting = g.setting; admitted = g.admitted }
    Reachable-IsGuarded (verbose_switched before) =
        let g = Reachable-IsGuarded before in record { setting = g.setting; admitted = g.admitted }

module _ {H : Type 0} (sha : Sha256 H) (sign : SignHash) (build : Build) (fuel : ℕ)
    (source : KeySource) (version : Version) where
  -- In every state that the application comes to with a setting in effect, in either build,
  -- `handleSign` and the user's consent sign only if the parser is in its last state, and show only
  -- an action that is known or that the setting in effect behind the command admits: the stored one
  -- if the command begins a transaction, and else, as for the consent, the one of the beginning of
  -- the transaction, whatever the user has switched since.
  pub Reachable-Answered :
      {allow : ℕ} {d : Device H}
      → Reachable sha sign (interface sha sign build) fuel source version allow d
      → ((stack : StackBytes) (content : Content) (p1 p2 : ℕ) (buffer : List ℕ) (len : ℕ)
            (reply : Reply) (app : App H)
          → handle_sign sha stack content d.app p1 p2 buffer len ≡ ok (reply, app)
          → Answered (in_effect allow d.app p1 buffer) reply app)
        × ((reply : Reply) (app : App H)
            → user_action_sign_flow_ok sha d.app ≡ ok (reply, app)
            → Answered allow reply app)
  Reachable-Answered {allow} {d} reached =
      let g =
        Reachable-IsGuarded sha sign (interface sha sign build) fuel source version
          (interface-IsGuarding sha sign build) reached in
      (
        λ stack content p1 p2 buffer len reply app ran.
            handle_sign-Answered sha allow stack content d.app p1 p2 buffer len g ran,
        λ reply app ran. user_action_sign_flow_ok-Answered sha allow d.app g ran,
      )
