-- ===== src/App/Device.antt =====
-- The application as main.c and the two user interfaces share it: the globals, what was sent and
-- shown, and `user_action_sign_flow_ok` with `user_action_tx_cancel` of src/main.c.
use ledger_app.Base.{
  ℕ, ◌+◌, ◌-◌, ◌%◌, ◌^◌, List, [], ◌∷◌, Bool, true, false, ◌==◌, if◌then◌else◌, Outcome, ok, ◌>>=◌,
  u8, take,
}
use ledger_app.Stream.Context.{Sha256}
use ledger_app.Stream.Machine.{ParserStatus, stream_processing, stream_finished}
use ledger_app.App.Sign.{
  App, Reply, status_word, show_multiple_actions, show_single_action, sign_hash,
  abort_unknown_action, user_action_sign_flow_ok,
}

-- What is on the title of a review.
pub data Title : Type 0 where
  transaction : Title
  action_number : ℕ → Title

-- What the user is shown. The first constructors are of both interfaces.
pub data Screen : Type 0 where
  idle aborted address settings : Screen
  -- src/ui_bagl.c: the number of actions; the review of an action, with whether the authorization
  -- is on it, its title, and whether it asks to sign.
  actions_flow : ℕ → Screen
  action_flow : Bool → Title → Bool → Screen
  -- src/ui_nbgl.c: the review of a whole transaction and of one action in a sequence, with the
  -- number of its pairs; the start and the end of the sequence; the outcome.
  review : ℕ → Screen
  streaming_start : ℕ → Screen
  streaming_continue : ℕ → Screen
  streaming_finish : Screen
  address_verified address_rejected signed rejected : Screen

-- A reply to the host, with its status word, or a new screen.
pub data Event : Type 0 where
  exchange : ℕ → List ℕ → Event
  screen : Screen → Event

-- `publicKeyContext_t`; the address is the text with its terminator.
pub record PublicKeyContext : Type 0 where
  pub public_key : List ℕ
  pub address_text : List ℕ
  pub chain_code : List ℕ
  pub get_chaincode : Bool

-- The globals and statics, and the events so far, the last one first. `ux_step` and `ux_step_count`
-- are those of src/ui_bagl.c. The two contexts of `tmpCtx` share their memory: see `App.PublicKey`.
pub record Device (H : Type 0) : Type 0 where
  pub app : App H
  pub public_key_context : PublicKeyContext
  pub effective_action_index : ℕ
  pub ux_step : ℕ
  pub ux_step_count : ℕ
  pub events : List Event

module _ {H : Type 0} where
  abbrev pub emit : Event → Device H → Device H
  emit e d = record d { events = e ∷ d.events }

  abbrev pub show : Screen → Device H → Device H
  show s d = emit (screen s) d

  abbrev pub io_exchange_with_code : ℕ → List ℕ → Device H → Device H
  io_exchange_with_code code reply d = emit (exchange code reply) d

  -- The local `effectiveActions` of the interfaces: a difference of unsigned numbers, cut to a byte.
  abbrev pub effective_actions : Device H → ℕ
  effective_actions d = u8 (
      d.app.tx_processing_ctx.current_action_number
      + 2 ^ 32
      - d.app.count_state_neutral_actions % 2 ^ 32)

-- What main.c calls of an interface where no review is begun.
pub record Notices (H : Type 0) : Type 0 where
  pub ui_idle : Device H → Device H
  pub ui_abort_unknown_action : Device H → Device H
  pub ui_display_action_sign_done : ParserStatus → Bool → Device H → Device H

-- `sign_hash_and_set_result` as its callers see it: the path, the hash, and the reply's bytes.
abbrev pub SignHash : Type 0
SignHash = List ℕ → List ℕ → Outcome (List ℕ)

module _ {H : Type 0} (sha : Sha256 H) (sign : SignHash) where
  -- The reply's bytes, and the globals with the hash finalised by CX_LAST.
  unfoldable pub sign_device : Device H → Outcome (List ℕ × Device H)
  sign_device d =
      let c = d.app.tx_processing_ctx in
      sign (take d.app.path_length d.app.bip32_path) (sha.digest c.sha256) >>= λ reply. ok (
        reply,
        record d {
          app = record (d.app) { tx_processing_ctx = record c { sha256 = sha.finish c.sha256 } };
        },
      )

  -- What `user_action_sign_flow_ok` does after the parse; `display` is the interface's review of an
  -- action. The parse never gives `show_multiple_actions`.
  unfoldable pub answer_consent :
      Notices H → (Device H → Outcome (Device H)) → Reply → Device H → Outcome (Device H)
  answer_consent ui display show_single_action d = display d
  answer_consent ui display show_multiple_actions d = ok d
  answer_consent ui display sign_hash d = sign_device d >>= λ p. ok (
      ui.ui_display_action_sign_done stream_finished true
        (io_exchange_with_code 0x9000 (p.0) (p.1)))
  answer_consent ui display abort_unknown_action d =
      ok (ui.ui_abort_unknown_action (io_exchange_with_code 0x6987 [] d))
  answer_consent ui display (status_word code) d = ok (
      if code == 0x9000
      then ui.ui_display_action_sign_done stream_processing true (io_exchange_with_code code [] d)
      else ui.ui_idle (io_exchange_with_code code [] d))

  unfoldable pub consent :
      Notices H → (Device H → Outcome (Device H)) → Device H → Outcome (Device H)
  consent ui display d = user_action_sign_flow_ok sha d.app >>= λ p.
      answer_consent ui display (p.0) (record d { app = p.1 })

  unfoldable pub user_action_tx_cancel : Notices H → Device H → Device H
  user_action_tx_cancel ui d =
      ui.ui_display_action_sign_done stream_finished false (io_exchange_with_code 0x6985 [] d)
