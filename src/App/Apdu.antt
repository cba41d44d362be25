-- ===== src/App/Apdu.antt =====
-- `handleApdu`, `handleGetAppConfiguration` and the loop of `app_main` in src/main.c.
pub mod Guarding
pub mod Commands
pub mod Reachable
use ledger_app.Base.{
  ℕ, List, [], ◌∷◌, Bool, not, ◌==◌, if◌then◌else◌, ◌-◌, length, drop, Outcome, ok, ◌>>=◌, read_at,
}
use ledger_app.Stream.Context.{Sha256, Content}
use ledger_app.App.Config.{is_unknown_action_allowed, is_verbose, config_init}
use ledger_app.App.Preparse.{StackBytes}
use ledger_app.App.Sign.{
  Reply, status_word, show_multiple_actions, show_single_action, sign_hash, abort_unknown_action,
  handle_sign, flag,
}
use ledger_app.App.Device.{Device, Notices, SignHash, sign_device, io_exchange_with_code}
use ledger_app.App.PublicKey.{Answer, answer, asynch, KeySource, handle_get_public_key}
use ledger_app.App.Bagl
use ledger_app.App.Nbgl

-- What main.c calls of an interface; the fuel is that of the displays.
pub record Interface (H : Type 0) : Type 0 where
  pub notices : Notices H
  pub public_key_flow : Device H → Device H
  pub public_key_done : Bool → Device H → Device H
  pub display_single : ℕ → Device H → Outcome (Device H)
  pub display_multiple : ℕ → Device H → Outcome (Device H)

-- MAJOR_VERSION, MINOR_VERSION and PATCH_VERSION of the build.
pub record Version : Type 0 where
  pub major : ℕ
  pub minor : ℕ
  pub patch : ℕ

pub handle_get_app_configuration : {H : Type 0} → Version → Device H → List ℕ
handle_get_app_configuration v d =
    flag (is_unknown_action_allowed d.app.storage)
    ∷ (flag (is_verbose d.app.storage) ∷ (v.major ∷ (v.minor ∷ (v.patch ∷ []))))

-- The reply of a round, which `io_exchange` sends at the start of the next one; with
-- IO_ASYNCH_REPLY it sends nothing.
unfoldable pub send : {H : Type 0} → Answer → Device H → Device H
send (answer code reply) d = io_exchange_with_code code reply d
send asynch d = d

-- A command comes into the array that `workBuffer` points into, so that the bytes that the parser
-- has left are those of the new command at their place. Both lists end with the array, and the
-- difference of their lengths is the place of the pointer.
unfoldable pub receive : {H : Type 0} → List ℕ → Device H → Device H
receive buffer d =
    let c = d.app.tx_processing_ctx in
    let memory = drop (length buffer - length c.work_buffer) buffer in
    record d { app = record (d.app) { tx_processing_ctx = record c { work_buffer = memory } } }

-- What stands in front of the loop.
unfoldable pub app_start : {H : Type 0} → Interface H → Device H → Device H
app_start ui d =
    ui.notices.ui_idle (record d { app = record (d.app) { storage = config_init d.app.storage } })

pub data Build : Type 0 where
  have_bagl have_nbgl : Build

module _ {H : Type 0} (sha : Sha256 H) (sign : SignHash) where
  abbrev pub bagl : Interface H
  bagl = record {
    notices = Bagl.notices;
    public_key_flow = Bagl.ui_display_public_key_flow;
    public_key_done = Bagl.ui_display_public_key_done;
    display_single = Bagl.ui_display_single_action_sign_flow sha sign;
    display_multiple = Bagl.ui_display_multiple_action_sign_flow sha sign;
  }

  abbrev pub nbgl : Interface H
  nbgl = record {
    notices = Nbgl.notices;
    public_key_flow = Nbgl.ui_display_public_key_flow;
    public_key_done = Nbgl.ui_display_public_key_done;
    display_single = Nbgl.ui_display_single_action_sign_flow sha sign;
    display_multiple = Nbgl.ui_display_multiple_action_sign_flow sha sign;
  }

  -- HAVE_BAGL and HAVE_NBGL of the build.
  unfoldable pub interface : Build → Interface H
  interface have_bagl = bagl
  interface have_nbgl = nbgl

  module _ (ui : Interface H) (fuel : ℕ) (source : KeySource) (version : Version)
      (stack : StackBytes) (content : Content) where
    -- The `switch` at the end of `handleSign`.
    unfoldable pub answer_sign : Reply → Device H → Outcome (Answer × Device H)
    answer_sign show_multiple_actions d = ui.display_multiple fuel d >>= λ e. ok (asynch, e)
    answer_sign show_single_action d = ui.display_single fuel d >>= λ e. ok (asynch, e)
    answer_sign sign_hash d = sign_device sha sign d >>= λ p. ok (answer 0x9000 (p.0), p.1)
    answer_sign abort_unknown_action d = ok (answer 0x6987 [], ui.notices.ui_abort_unknown_action d)
    answer_sign (status_word code) d = ok (answer code [], d)

    unfoldable pub sign_command : ℕ → ℕ → List ℕ → ℕ → Device H → Outcome (Answer × Device H)
    sign_command p1 p2 buffer len d = handle_sign sha stack content d.app p1 p2 buffer len >>= λ p.
        let seen = d.public_key_context in
        answer_sign (p.0) (record d {
          app = p.1;
          public_key_context =
              if p1 == 0 then source.underlay (p.1.path_length, p.1.bip32_path) seen else seen;
        })

    -- CLA is 0xD4; INS_GET_PUBLIC_KEY is 2, INS_SIGN 4 and INS_GET_APP_CONFIGURATION 6.
    unfoldable pub handle_apdu : List ℕ → Device H → Outcome (Answer × Device H)
    handle_apdu buffer d = do
      cla ← read_at buffer 0
      ins ← read_at buffer 1
      p1 ← read_at buffer 2
      p2 ← read_at buffer 3
      lc ← read_at buffer 4
      if not (cla == 0xD4)
          then ok (answer 0x6E00 [], d)
          else if ins == 2
          then handle_get_public_key source ui.public_key_flow p1 p2 (drop 5 buffer) d
          else if ins == 4
          then sign_command p1 p2 (drop 5 buffer) lc d
          else if ins == 6
          then ok (answer 0x9000 (handle_get_app_configuration version d), d)
          else ok (answer 0x6D00 [], d)

    -- One round of the loop of `app_main`, for a command of `rx` bytes; `buffer` is the whole of
    -- G_io_apdu_buffer with the command at its start. A failed
    -- assertion ends the application.
    unfoldable pub app_round : ℕ → List ℕ → Device H → Outcome (Device H)
    app_round rx buffer d =
        if rx == 0
        then ok (send (answer 0x6982 []) (receive buffer d))
        else (handle_apdu buffer (receive buffer d) >>= λ p. ok (send (p.0) (p.1)))
