-- ===== src/Tests/Reach.antt =====
-- The steps of an action's arguments, and the states that the application comes to.
use ledger_app.Base.{
  ℕ, ◌≡◌, ◌+◌, ◌-◌, refl, ltb, if◌then◌else◌, List, [], ◌∷◌, replicate, Outcome, ok, halted,
  overrun, stuck,
}
use ledger_app.Stream.Context.{Content}
use ledger_app.Stream.Machine.{parse_tx, process_tx_internal, process_tx_loop, round}
use ledger_app.App.Device.{Device}
use ledger_app.App.Bagl.Flows.Walk.{UxFlow, Button, left_button, right_button}
use ledger_app.App.Preparse.{StackBytes, preparse_transaction, preparse_loop}
use ledger_app.App.Config.{
  config_init, toogle_unknown_action_allowed, is_unknown_action_allowed, is_verbose,
}
use ledger_app.App.Sign.{
  App, Reply, handle_sign, start_transaction, read_path, feed, feed_checked,
  user_action_sign_flow_ok,
}
use ledger_app.App.Sign.Laws.{Answered, in_effect}
use ledger_app.App.PublicKey.{KeySource}
use ledger_app.App.Nbgl.{ui_idle}
use ledger_app.App.Apdu.{
  Version, have_nbgl, interface, app_start, app_round, receive, handle_apdu, sign_command,
  answer_sign, send,
}
use ledger_app.App.Apdu.Reachable.{
  started, commanded, unknown_switched, Reachable, Reachable-Answered,
}
use ledger_app.Tests.Toy.{toy, fresh, blank}
use ledger_app.Tests.Reviews.{sign, device_with}

-- A flow that stays at its ends.
abbrev ux : UxFlow
ux = record {
  ux_flow_next = λ count i. if ltb (i + 1) count then i + 1 else i;
  ux_flow_prev = λ count i. i - 1;
}

-- To the step that cancels, and back to the first argument.
abbrev there_and_back : List Button
there_and_back =
    right_button ∷ right_button ∷ right_button ∷ right_button ∷ right_button ∷ right_button
    ∷ right_button ∷ left_button ∷ left_button ∷ left_button ∷ []

abbrev source : KeySource
source = record {
  platform = record { ripemd160 = λ bytes. replicate 20 0; format_int = λ n. [] };
  derive = λ path. (replicate 32 3, replicate 32 8);
  public_key = λ key. 4 ∷ replicate 64 0;
  overlay = λ k path. path;
  underlay = λ path k. k;
}

abbrev version : Version
version = record { major = 1; minor = 0; patch = 0 }

-- The application has started, and the user has admitted the unknown actions.
abbrev switched : Device (List ℕ)
switched =
    let begun = app_start (interface toy sign have_nbgl) (device_with fresh) in
    record begun {
      app = record (begun.app) { storage = toogle_unknown_action_allowed begun.app.storage };
    }

-- INS_SIGN with P1_FIRST: a path of one element, and no data yet.
abbrev begin_command : List ℕ
begin_command = 0xD4 ∷ 4 ∷ 0 ∷ 0 ∷ 5 ∷ 1 ∷ 0 ∷ 0 ∷ 0 ∷ 0 ∷ []

abbrev device_of : Outcome (Device (List ℕ)) → Device (List ℕ)
device_of (ok d) = d
device_of halted = switched
device_of overrun = switched
device_of stuck = switched

abbrev stack : StackBytes
stack = record { owner_bytes = replicate 14 0; action_bytes = replicate 14 0 }

abbrev begun : Device (List ℕ)
begun = device_of (
    app_round toy sign (interface toy sign have_nbgl) 50 source version stack blank 10 begin_command
      switched)

begun_run :
    app_round toy sign
      (interface toy sign have_nbgl)
      50
      source
      version
      stack
      blank
      10
      begin_command
      switched
    ≡ ok begun
unfolding app_round receive handle_apdu sign_command answer_sign interface handle_sign
    start_transaction read_path feed_checked feed preparse_transaction preparse_loop parse_tx
    process_tx_internal process_tx_loop round app_start config_init toogle_unknown_action_allowed
    send is_unknown_action_allowed is_verbose
begun_run = refl

-- The transaction began with the setting on; the user has switched it off since.
abbrev switched_back : Device (List ℕ)
switched_back = record begun {
  app = record (begun.app) { storage = toogle_unknown_action_allowed begun.app.storage };
}

switched_back_reached :
    Reachable toy sign (interface toy sign have_nbgl) 50 source version 1 switched_back
unfolding app_start config_init toogle_unknown_action_allowed is_unknown_action_allowed interface
    ui_idle
switched_back_reached = unknown_switched (
    commanded stack blank 10 begin_command (unknown_switched (started (device_with fresh) refl))
      begun_run)

Reachable-Answered_example :
    ((stack : StackBytes) (content : Content) (p1 p2 : ℕ) (buffer : List ℕ) (len : ℕ) (r : Reply)
        (app : App (List ℕ))
      → handle_sign toy stack content switched_back.app p1 p2 buffer len ≡ ok (r, app)
      → Answered (in_effect 1 switched_back.app p1 buffer) r app)
    × ((r : Reply) (app : App (List ℕ))
        → user_action_sign_flow_ok toy switched_back.app ≡ ok (r, app)
        → Answered 1 r app)
Reachable-Answered_example =
    Reachable-Answered toy sign have_nbgl 50 source version switched_back_reached
