-- ===== src/Stream/Machine/Vetted/Session.antt =====
-- What a session of the parser says of the action that it has ready.
use ledger_app.Base.{
  ℕ, zero, suc, ◌≡◌, refl, true, List, Outcome, ok, >>=-eq-ok, ok-injective, ◌==◌, ◌||◌, if_both,
  stuck_not_ok,
}
use mathlib.Core.Path.{subst}
use ledger_app.Stream.Context.{Sha256, Context, Content, is_done, init_tx_context}
use ledger_app.Stream.Known.{is_known_action}
use ledger_app.Stream.Machine.{
  ParserStatus, stream_action_ready, stream_finished, Round, return, again, round, process_tx_loop,
  process_tx_internal, parse_tx,
}
use ledger_app.Stream.Machine.Vetted.{IsVetted, Meant, MeantRound}
use ledger_app.Stream.Machine.Vetted.Rounds.{round-MeantRound}

module _ {H : Type 0} (sha : Sha256 H) (allow : ℕ) where
  process_tx_loop-Meant :
      (fuel : ℕ) (c : Context H) {s : ParserStatus} {d : Context H}
      → IsVetted allow c
      → process_tx_loop sha fuel c ≡ ok (s, d)
      → Meant allow s d
  unfolding process_tx_loop
  process_tx_loop-Meant zero c v e = absurd (stuck_not_ok e)
  process_tx_loop-Meant (suc fuel) c {s} {d} v e =
      let (r, ran, rest) = >>=-eq-ok (round sha c) _ e in
      after r (round-MeantRound sha allow c r v ran) (λ x w f. process_tx_loop-Meant fuel x w f)
        rest
    where
      after :
          (r : Round H)
          → MeantRound allow r
          → ((x : Context H)
              → IsVetted allow x
              → process_tx_loop sha fuel x ≡ ok (s, d)
              → Meant allow s d)
          → ◌≡◌ {A = Outcome (ParserStatus × Context H)}
              (elim r [ return t x ↦ ok (t, x) | again x ↦ process_tx_loop sha fuel x ])
              (ok (s, d))
          → Meant allow s d
      after (return t x) h ih e' =
          let same = ok-injective e' in
          subst (λ (p : ParserStatus × Context H). Meant allow (p.0) (p.1)) same h
      after (again x) h ih e' = ih x h e'

  pub parse_tx-Meant :
      (c : Context H) (buffer : List ℕ) (len : ℕ) {s : ParserStatus} {d : Context H}
      → IsVetted allow c
      → parse_tx sha c buffer len ≡ ok (s, d)
      → Meant allow s d
  unfolding parse_tx process_tx_internal is_known_action
  parse_tx-Meant c buffer len v e =
      process_tx_loop-Meant _ _
        (if_both (IsVetted allow) (c.command_length == 0)
          (λ fresh. record { setting = v.setting; admitted = v.admitted }) (λ left. v))
        e

  -- The contexts that a session of the parser goes through: initialised with the setting, then
  -- any commands, whatever their bytes, going on after every status.
  pub data Session : Context H → Type 0 where
    started :
        (content : Content) (verbose : ℕ) → Session (init_tx_context sha content allow verbose)
    fed :
        {c d : Context H} {s : ParserStatus} (buffer : List ℕ) (len : ℕ)
        → Session c
        → parse_tx sha c buffer len ≡ ok (s, d)
        → Session d

  Session-IsVetted : {c : Context H} → Session c → IsVetted allow c
  Session-IsVetted (started content verbose) = record { setting = refl; admitted = λ h. cc }
  Session-IsVetted (fed buffer len before e) =
      (parse_tx-Meant _ buffer len (Session-IsVetted before) e).vetted

  -- Whenever in a session `parseTx` has an action ready for the user, the action is known or the
  -- session began with unknown actions allowed.
  pub parse_tx_shown :
      {c d : Context H} (buffer : List ℕ) (len : ℕ)
      → Session c
      → parse_tx sha c buffer len ≡ ok (stream_action_ready, d)
      → (is_known_action d || allow == 1) ≡ true
  parse_tx_shown buffer len session e =
      (parse_tx-Meant _ buffer len (Session-IsVetted session) e).shown refl

  -- Whenever in a session `parseTx` calls the transaction finished, the parser has come to its last
  -- state.
  pub parse_tx_finished :
      {c d : Context H} (buffer : List ℕ) (len : ℕ)
      → Session c
      → parse_tx sha c buffer len ≡ ok (stream_finished, d)
      → is_done d.state ≡ true
  parse_tx_finished buffer len session e =
      (parse_tx-Meant _ buffer len (Session-IsVetted session) e).finished refl
