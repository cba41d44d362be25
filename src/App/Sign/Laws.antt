-- ===== src/App/Sign/Laws.antt =====
-- When the signing command signs, and which actions it shows.
use ledger_app.Base.{
  ℕ, ap, ◌+◌, ◌*◌, ◌-◌, ◌^◌, ◌≡◌, refl, true, not, List, [], Outcome, ok, >>=-eq-ok, ok-injective,
  ◌==◌, ◌||◌, ◌&&◌, Bool, false, get_elem?, none, some, eq_of_==, if◌then◌else◌, ◌∷◌, zero, suc,
  ltb, Bool-cases, inl, inr, then_of, else_of, read_at, drop, u16,
}
use mathlib.Core.Path.{subst, sym}
use ledger_app.Stream.Context.{Sha256, Context, Content, is_done}
use ledger_app.Stream.Known.{is_known_action}
use ledger_app.Stream.Machine.{
  ParserStatus, stream_fault, stream_processing, stream_action_ready, stream_confirm_processing,
  stream_finished, stream_not_allowed, parse_tx,
}
use ledger_app.Stream.Machine.Vetted.{IsVetted, Meant, admits}
use ledger_app.Stream.Machine.Vetted.Session.{parse_tx-Meant}
use ledger_app.App.Config.{is_verbose, is_unknown_action_allowed}
use ledger_app.App.Preparse.{StackBytes, preparse_transaction}
use ledger_app.App.Sign.{
  App, Reply, status_word, show_multiple_actions, show_single_action, sign_hash,
  abort_unknown_action, is_tlv_none, read_path, flag, feed, feed_checked, start_transaction,
  handle_sign, user_action_sign_flow_ok,
}

-- The byte at an index, 0 behind the end.
abbrev pub byte_at : List ℕ → ℕ → ℕ
byte_at buffer i = elim (get_elem? buffer i) [ none ↦ 0 | some b ↦ b ]

-- A command begins a transaction if it is a first one with a path of one to ten indices.
abbrev pub begins : ℕ → List ℕ → Bool
begins p1 buffer = let n = byte_at buffer 0 in (p1 == 0) && not (ltb n 1 || ltb 10 n)

pub read_at-byte_at :
    (buffer : List ℕ) (i : ℕ) {b : ℕ} → read_at buffer i ≡ ok b → byte_at buffer i ≡ b
read_at-byte_at [] i e = cc
read_at-byte_at (x ∷ buffer) zero e = ok-injective e
read_at-byte_at (x ∷ buffer) (suc i) e = read_at-byte_at buffer i e

module _ {H : Type 0} where
  -- The parser holds the setting `allow`, and the action that it has ready is known, or the setting
  -- admits it.
  abbrev pub IsGuarded : ℕ → App H → Type 0
  IsGuarded allow app = IsVetted allow app.tx_processing_ctx

  -- The setting in effect behind a command: the stored one where a transaction begins, and else the
  -- one in effect before.
  abbrev pub in_effect : ℕ → App H → ℕ → List ℕ → ℕ
  in_effect allow app p1 buffer =
      if begins p1 buffer then flag (is_unknown_action_allowed app.storage) else allow

  -- What a reply says of the globals that come with it.
  pub record Answered (allow : ℕ) (reply : Reply) (app : App H) : Type 0 where
    pub guarded : IsGuarded allow app
    pub signs : reply ≡ sign_hash → is_done app.tx_processing_ctx.state ≡ true
    pub shows : reply ≡ show_single_action → admits allow app.tx_processing_ctx ≡ true

  abbrev AnsweredPair : ℕ → Reply × App H → Type 0
  AnsweredPair allow p = Answered allow (p.0) (p.1)

  Answered-word :
      (allow n : ℕ) (app : App H) → IsGuarded allow app → Answered allow (status_word n) app
  Answered-word allow n app g = record { guarded = g; signs = λ h. cc; shows = λ h. cc }

module _ {H : Type 0} (sha : Sha256 H) where
  -- The globals with the context that the parser left.
  abbrev with_context : App H → Context H → App H
  with_context app d = record app { tx_processing_ctx = d }

  Answered-Meant :
      (allow : ℕ) (app : App H) (reply : Reply) (s : ParserStatus) (d : Context H)
      → (reply ≡ sign_hash → s ≡ stream_finished)
      → (reply ≡ show_single_action → s ≡ stream_action_ready)
      → Meant allow s d
      → Answered allow reply (with_context app d)
  Answered-Meant allow app reply s d finished ready m = record {
    guarded = m.vetted;
    signs = λ e. m.finished (finished e);
    shows = λ e. m.shown (ready e);
  }

  feed-Answered :
      (allow : ℕ) (app : App H) (buffer : List ℕ) (len : ℕ) {reply : Reply} {app' : App H}
      → IsGuarded allow app
      → feed sha app buffer len ≡ ok (reply, app')
      → Answered allow reply app'
  unfolding feed
  feed-Answered allow app buffer len g e =
      let ((s, d), ran, rest) = >>=-eq-ok (parse_tx sha app.tx_processing_ctx buffer len) _ e in
      subst (AnsweredPair allow) (ok-injective rest)
        (after s d (parse_tx-Meant sha allow app.tx_processing_ctx buffer len g ran))
    where
      after :
          (s : ParserStatus) (d : Context H)
          → Meant allow s d
          → Answered allow
              (elim s [
                | stream_confirm_processing ↦ show_multiple_actions
                | stream_action_ready ↦ show_single_action
                | stream_finished ↦ sign_hash
                | stream_processing ↦ status_word 0x9000
                | stream_fault ↦ status_word 0x6A80
                | stream_not_allowed ↦ abort_unknown_action
              ])
              (with_context app d)
      after stream_fault d m = Answered-Meant allow app _ _ d (λ h. cc) (λ h. cc) m
      after stream_processing d m = Answered-Meant allow app _ _ d (λ h. cc) (λ h. cc) m
      after stream_action_ready d m = Answered-Meant allow app _ _ d (λ h. cc) (λ h. refl) m
      after stream_confirm_processing d m = Answered-Meant allow app _ _ d (λ h. cc) (λ h. cc) m
      after stream_finished d m = Answered-Meant allow app _ _ d (λ h. refl) (λ h. cc) m
      after stream_not_allowed d m = Answered-Meant allow app _ _ d (λ h. cc) (λ h. cc) m

  -- A status word with the globals as they were.
  word-Answered :
      (allow n : ℕ) (app : App H) {reply : Reply} {app' : App H}
      → IsGuarded allow app
      → ◌≡◌ {A = Outcome (Reply × App H)} (ok (status_word n, app)) (ok (reply, app'))
      → Answered allow reply app'
  word-Answered allow n app g e =
      subst (AnsweredPair allow) (ok-injective e) (Answered-word allow n app g)

  feed_checked-Answered :
      (allow : ℕ) (app : App H) (p2 : ℕ) (buffer : List ℕ) (len : ℕ) {reply : Reply} {app' : App H}
      → IsGuarded allow app
      → feed_checked sha app p2 buffer len ≡ ok (reply, app')
      → Answered allow reply app'
  unfolding feed_checked
  feed_checked-Answered allow app p2 buffer len g e = elim (Bool-cases (not (p2 == 0))) [
    | inl wrong ↦ word-Answered allow 0x6B00 app g (then_of _ _ _ wrong e)
    | inr right ↦
        let e₁ = else_of _ _ _ right e in
        elim (Bool-cases (is_tlv_none app.tx_processing_ctx.state)) [
          | inl none_begun ↦ word-Answered allow 0x6985 app g (then_of _ _ _ none_begun e₁)
          | inr begun ↦ feed-Answered allow app buffer len g (else_of _ _ _ begun e₁)
        ]
  ]

  first_in_effect :
      (allow n : ℕ) (app : App H) (buffer : List ℕ) (b : Bool)
      → byte_at buffer 0 ≡ n
      → (ltb n 1 || ltb 10 n) ≡ b
      → in_effect allow app 0 buffer
        ≡ (if b then allow else flag (is_unknown_action_allowed app.storage))
  first_in_effect allow n app buffer true same e = rw (same, e) refl
  first_in_effect allow n app buffer false same e = rw (same, e) refl

  start_transaction-Answered :
      (allow : ℕ) (stack : StackBytes) (content : Content) (app : App H) (p2 : ℕ) (buffer : List ℕ)
      (len : ℕ) {reply : Reply} {app' : App H}
      → IsGuarded allow app
      → start_transaction sha stack content app p2 buffer len ≡ ok (reply, app')
      → Answered (in_effect allow app 0 buffer) reply app'
  unfolding start_transaction is_known_action
  start_transaction-Answered allow stack content app p2 buffer len {reply} {app'} g e =
      let (path_length, read, rest) = >>=-eq-ok (read_at buffer 0) _ e in
      elim (Bool-cases (ltb path_length 1 || ltb 10 path_length)) [
        | inl outside ↦
            subst (λ n. Answered n reply app')
              (sym (
                first_in_effect allow path_length app buffer true (read_at-byte_at buffer 0 read)
                  outside))
              (word-Answered allow 0x6A80 (record app { path_length = path_length }) g
                (then_of _ _ _ outside rest))
        | inr inside ↦
            let (p, path, rest₁) =
              >>=-eq-ok (read_path path_length (drop 1 buffer)) _ (else_of _ _ _ inside rest) in
            let (count, counted, rest₂) =
              >>=-eq-ok
                (preparse_transaction sha stack content (p.1)
                  (u16 (len + 2 ^ 16 - (1 + 4 * path_length))) (flag (is_verbose app.storage)))
                _ rest₁ in
            subst (λ n. Answered n reply app')
              (sym (
                first_in_effect allow path_length app buffer false (read_at-byte_at buffer 0 read)
                  inside))
              (feed_checked-Answered (flag (is_unknown_action_allowed app.storage)) _ p2 (p.1) _
                (record { setting = refl; admitted = λ h. cc }) rest₂)
      ]

  -- Let a setting be in effect: the parser holds it, and has no action ready but one that is known
  -- or admitted by it. A run of `handleSign` that returns leaves it so with the setting in effect
  -- behind the command, which is the stored one if the command is a first one with a path of one to
  -- ten indices, and else the one before; the run signs only if the parser is in its last state, and
  -- shows only an action that is known or admitted by the setting in effect behind the command.
  pub handle_sign-Answered :
      (allow : ℕ) (stack : StackBytes) (content : Content) (app : App H) (p1 p2 : ℕ)
      (buffer : List ℕ) (len : ℕ) {reply : Reply} {app' : App H}
      → IsGuarded allow app
      → handle_sign sha stack content app p1 p2 buffer len ≡ ok (reply, app')
      → Answered (in_effect allow app p1 buffer) reply app'
  unfolding handle_sign
  handle_sign-Answered allow stack content app p1 p2 buffer len {reply} {app'} g e =
      elim (Bool-cases (p1 == 0)) [
        | inl first ↦
            subst (λ n. Answered (in_effect allow app n buffer) reply app')
              (sym (eq_of_== p1 0 first))
              (start_transaction-Answered allow stack content app p2 buffer len g
                (then_of _ _ _ first e))
        | inr later ↦
            let e₁ = else_of _ _ _ later e in
            let kept : in_effect allow app p1 buffer ≡ allow =
              ap
                (λ b.
                  if b && not (ltb (byte_at buffer 0) 1 || ltb 10 (byte_at buffer 0))
                  then flag (is_unknown_action_allowed app.storage)
                  else allow)
                later in
            subst (λ n. Answered n reply app') (sym kept)
              (elim (Bool-cases (not (p1 == 0x80))) [
                | inl wrong ↦ word-Answered allow 0x6B00 app g (then_of _ _ _ wrong e₁)
                | inr more ↦ feed_checked-Answered allow app p2 buffer len g (else_of _ _ _ more e₁)
              ])
      ]

  -- Where the parser has no action ready but one that is known or admitted by the setting, a parse
  -- that goes on once the user agreed to a flow and returns leaves it so; it signs only if the
  -- parser is in its last state, and shows only an action that is known or admitted.
  pub user_action_sign_flow_ok-Answered :
      (allow : ℕ) (app : App H) {reply : Reply} {app' : App H}
      → IsGuarded allow app
      → user_action_sign_flow_ok sha app ≡ ok (reply, app')
      → Answered allow reply app'
  unfolding user_action_sign_flow_ok
  user_action_sign_flow_ok-Answered allow app g e =
      let ((s, d), ran, rest) = >>=-eq-ok (parse_tx sha app.tx_processing_ctx [] 0) _ e in
      subst (AnsweredPair allow) (ok-injective rest)
        (after s d (parse_tx-Meant sha allow app.tx_processing_ctx [] 0 g ran))
    where
      after :
          (s : ParserStatus) (d : Context H)
          → Meant allow s d
          → Answered allow
              (elim s [
                | stream_action_ready ↦ show_single_action
                | stream_processing ↦ status_word 0x9000
                | stream_finished ↦ sign_hash
                | stream_not_allowed ↦ abort_unknown_action
                | stream_fault ↦ status_word 0x6A80
                | stream_confirm_processing ↦ status_word 0x6A80
              ])
              (with_context app d)
      after stream_fault d m = Answered-Meant allow app _ _ d (λ h. cc) (λ h. cc) m
      after stream_processing d m = Answered-Meant allow app _ _ d (λ h. cc) (λ h. cc) m
      after stream_action_ready d m = Answered-Meant allow app _ _ d (λ h. cc) (λ h. refl) m
      after stream_confirm_processing d m = Answered-Meant allow app _ _ d (λ h. cc) (λ h. cc) m
      after stream_finished d m = Answered-Meant allow app _ _ d (λ h. refl) (λ h. cc) m
      after stream_not_allowed d m = Answered-Meant allow app _ _ d (λ h. cc) (λ h. cc) m
