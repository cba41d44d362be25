-- ===== src/App/Sign/Hashes.antt =====
-- Of which bytes the hash is that the signing command signs.
use ledger_app.Base.{
  ℕ, ◌+◌, ◌*◌, ◌-◌, ◌^◌, ◌≡◌, ◌⊎◌, refl, sym, not, List, [], ◌++◌, Outcome, ok, >>=-eq-ok,
  ok-injective, ◌==◌, ◌||◌, ltb, Bool-cases, inl, inr, then_of, else_of, arith, eq_of_==, read_at,
  drop, take, u16,
}
use mathlib.Core.Path.{subst}
use ledger_app.Stream.Context.{Sha256, IsStreaming, Context, Content}
use ledger_app.Stream.Machine.{
  ParserStatus, stream_fault, stream_processing, stream_action_ready, stream_confirm_processing,
  stream_finished, stream_not_allowed, parse_tx,
}
use ledger_app.Stream.Machine.Hashes.{HashesFields}
use ledger_app.Stream.Machine.Hashes.Sent.{Sent, begun, loaded, parse_tx-HashesFields}
use ledger_app.App.Config.{is_unknown_action_allowed, is_verbose}
use ledger_app.App.Preparse.{StackBytes, preparse_transaction}
use ledger_app.App.Sign.{
  App, Reply, status_word, show_multiple_actions, show_single_action, sign_hash,
  abort_unknown_action, is_tlv_none, read_path, flag, feed, feed_checked, start_transaction,
  handle_sign, user_action_sign_flow_ok,
}

module _ {H : Type 0} (sha : Sha256 H) (streaming : IsStreaming sha) where
  -- What the reply that signs says of the stream.
  abbrev IsSigned : List ℕ → Reply × App H → Type 0
  IsSigned stream p = p.0 ≡ sign_hash → HashesFields sha (p.1).tx_processing_ctx stream

  feed-IsSigned :
      (app : App H) (stream buffer : List ℕ) (len : ℕ) (p : Reply × App H)
      → Sent sha app.tx_processing_ctx stream
      → feed sha app buffer len ≡ ok p
      → IsSigned (stream ++ loaded app.tx_processing_ctx buffer len) p
  unfolding feed
  feed-IsSigned app stream buffer len p sent e =
      let ((s, d), ran, rest) = >>=-eq-ok (parse_tx sha app.tx_processing_ctx buffer len) _ e in
      let all = stream ++ loaded app.tx_processing_ctx buffer len in
      subst (IsSigned all) (ok-injective rest) (
        after s d (λ done.
          parse_tx-HashesFields sha streaming buffer len sent
            (subst (λ t. parse_tx sha app.tx_processing_ctx buffer len ≡ ok (t, d)) done ran)))
    where
      after :
          (s : ParserStatus) (d : Context H) {all : List ℕ}
          → (s ≡ stream_finished → HashesFields sha d all)
          → IsSigned all (
            elim s [
              | stream_confirm_processing ↦ show_multiple_actions
              | stream_action_ready ↦ show_single_action
              | stream_finished ↦ sign_hash
              | stream_processing ↦ status_word 0x9000
              | stream_fault ↦ status_word 0x6A80
              | stream_not_allowed ↦ abort_unknown_action
            ],
            record app { tx_processing_ctx = d },
          )
      after stream_finished d done e' = done refl
      after stream_fault d done e' = cc
      after stream_processing d done e' = cc
      after stream_action_ready d done e' = cc
      after stream_confirm_processing d done e' = cc
      after stream_not_allowed d done e' = cc

  feed_checked-IsSigned :
      (app : App H) (p2 : ℕ) (stream buffer : List ℕ) (len : ℕ) (p : Reply × App H)
      → Sent sha app.tx_processing_ctx stream
      → feed_checked sha app p2 buffer len ≡ ok p
      → IsSigned (stream ++ loaded app.tx_processing_ctx buffer len) p
  unfolding feed_checked
  feed_checked-IsSigned app p2 stream buffer len p sent e = elim (Bool-cases (not (p2 == 0))) [
    | inl wrong ↦ word app (then_of _ _ _ wrong e)
    | inr right ↦
        let e₁ = else_of _ _ _ right e in
        elim (Bool-cases (is_tlv_none app.tx_processing_ctx.state)) [
          | inl none_begun ↦ word app (then_of _ _ _ none_begun e₁)
          | inr going ↦ feed-IsSigned app stream buffer len p sent (else_of _ _ _ going e₁)
        ]
  ]
    where
      word : {all : List ℕ} {n : ℕ} (x : App H) → ok (status_word n, x) ≡ ok p → IsSigned all p
      word {all} x e' = subst (IsSigned all) (ok-injective e') (λ q. cc)

  -- What the parser gets with a command: the first one begins a stream with the data behind the
  -- path. A later one adds its data if nothing is left of the command before, and else nothing: the
  -- session's stream has the bytes that are left, as they stand in the memory.
  abbrev pub Extends : App H → ℕ → List ℕ → List ℕ → ℕ → List ℕ → Type 0
  Extends app p1 stream buffer len stream' =
      ((p1 ≡ 0)
        × ((path_length : ℕ) × (path data_behind : List ℕ) × (read_at buffer 0 ≡ ok path_length)
            × (read_path path_length (drop 1 buffer) ≡ ok (path, data_behind))
            × (stream' ≡ take (u16 (len + 2 ^ 16 - (1 + 4 * path_length))) data_behind)))
      ⊎ ((p1 ≡ 0x80) × (stream' ≡ stream ++ loaded app.tx_processing_ctx buffer len))

  -- A status word is no signature.
  word_signs :
      {n : ℕ} {x y : App H}
      → ◌≡◌ {A = Outcome (Reply × App H)} (ok (status_word n, x)) (ok (sign_hash, y))
      → ⊥
  word_signs e = cc (ok-injective e)

  start_transaction-HashesFields :
      (stack : StackBytes) (content : Content) (app : App H) (p2 : ℕ) (stream buffer : List ℕ)
      (len : ℕ) {app' : App H}
      → start_transaction sha stack content app p2 buffer len ≡ ok (sign_hash, app')
      → (stream' : List ℕ) × HashesFields sha app'.tx_processing_ctx stream'
        × Extends app 0 stream buffer len stream'
  unfolding start_transaction
  start_transaction-HashesFields stack content app p2 stream buffer len e =
      let (path_length, read, rest) = >>=-eq-ok (read_at buffer 0) _ e in
      elim (Bool-cases (ltb path_length 1 || ltb 10 path_length)) [
        | inl outside ↦ absurd (word_signs (then_of _ _ _ outside rest))
        | inr inside ↦
            let (p, path, rest₁) =
              >>=-eq-ok (read_path path_length (drop 1 buffer)) _ (else_of _ _ _ inside rest) in
            let left = u16 (len + 2 ^ 16 - (1 + 4 * path_length)) in
            let (count, counted, rest₂) =
              >>=-eq-ok
                (preparse_transaction sha stack content (p.1) left (flag (is_verbose app.storage)))
                _ rest₁ in
            (
              take left (p.1),
              feed_checked-IsSigned _ p2 [] (p.1) left _
                  (begun app.tx_processing_ctx.content
                    (flag (is_unknown_action_allowed app.storage)) (flag (is_verbose app.storage)))
                  rest₂ refl,
              inl (refl, (path_length, p.0, p.1, read, path, refl)),
            )
      ]

  command-HashesFields :
      (app : App H) (stream : List ℕ)
      → Sent sha app.tx_processing_ctx stream
      → (stack : StackBytes) (content : Content) (p1 p2 : ℕ) (buffer : List ℕ) (len : ℕ)
        (app' : App H)
      → handle_sign sha stack content app p1 p2 buffer len ≡ ok (sign_hash, app')
      → (stream' : List ℕ) × HashesFields sha app'.tx_processing_ctx stream'
        × Extends app p1 stream buffer len stream'
  unfolding handle_sign
  command-HashesFields app stream sent stack content p1 p2 buffer len app' e =
      elim (Bool-cases (p1 == 0)) [
        | inl first ↦
            subst
              (λ n.
                (stream' : List ℕ) × HashesFields sha app'.tx_processing_ctx stream'
                × Extends app n stream buffer len stream')
              (sym (eq_of_== p1 0 first))
              (start_transaction-HashesFields stack content app p2 stream buffer len
                (then_of _ _ _ first e))
        | inr later ↦
            let e₁ = else_of _ _ _ later e in
            elim (Bool-cases (not (p1 == 0x80))) [
              | inl wrong ↦ absurd (word_signs (then_of _ _ _ wrong e₁))
              | inr more ↦ (
                stream ++ loaded app.tx_processing_ctx buffer len,
                feed_checked-IsSigned app p2 stream buffer len (sign_hash, app') sent
                    (else_of _ _ _ more e₁) refl,
                inr (ground arith, refl),
              )
            ]
      ]

  consent-HashesFields :
      (app : App H) (stream : List ℕ)
      → Sent sha app.tx_processing_ctx stream
      → (app' : App H) → user_action_sign_flow_ok sha app ≡ ok (sign_hash, app')
      → HashesFields sha app'.tx_processing_ctx (stream ++ loaded app.tx_processing_ctx [] 0)
  unfolding user_action_sign_flow_ok
  consent-HashesFields app stream sent app' e =
      let ((s, d), ran, rest) = >>=-eq-ok (parse_tx sha app.tx_processing_ctx [] 0) _ e in
      let all = stream ++ loaded app.tx_processing_ctx [] 0 in
      subst (IsSigned all) (ok-injective rest)
        (after s d (λ done.
          parse_tx-HashesFields sha streaming [] 0 sent
            (subst (λ t. parse_tx sha app.tx_processing_ctx [] 0 ≡ ok (t, d)) done ran)))
        refl
    where
      after :
          (s : ParserStatus) (d : Context H) {all : List ℕ}
          → (s ≡ stream_finished → HashesFields sha d all)
          → IsSigned all (
            elim s [
              | stream_action_ready ↦ show_single_action
              | stream_processing ↦ status_word 0x9000
              | stream_finished ↦ sign_hash
              | stream_not_allowed ↦ abort_unknown_action
              | stream_fault ↦ status_word 0x6A80
              | stream_confirm_processing ↦ status_word 0x6A80
            ],
            record app { tx_processing_ctx = d },
          )
      after stream_finished d done e' = done refl
      after stream_fault d done e' = cc
      after stream_processing d done e' = cc
      after stream_action_ready d done e' = cc
      after stream_confirm_processing d done e' = cc
      after stream_not_allowed d done e' = cc

  -- In a session with the parser, which a signature ends since it finalises the hash, the signing
  -- command answers with the signature of the hash only where the bytes that the parser has consumed
  -- are whole fields, and the hash is that of the bytes of all the fields and nothing else. The bytes
  -- are those of the data behind the path of a first command; for a later command, those of the
  -- session's stream with the command's data, where nothing was left of the command before, and else
  -- those of the session's stream alone. The latter holds where the user's consent to an action leads
  -- to the signature, which adds no data.
  pub handle_sign-HashesFields :
      (app : App H) (stream : List ℕ)
      → Sent sha app.tx_processing_ctx stream
      → ((stack : StackBytes) (content : Content) (p1 p2 : ℕ) (buffer : List ℕ) (len : ℕ)
            (app' : App H)
          → handle_sign sha stack content app p1 p2 buffer len ≡ ok (sign_hash, app')
          → (stream' : List ℕ) × HashesFields sha app'.tx_processing_ctx stream'
            × Extends app p1 stream buffer len stream')
        × ((app' : App H)
            → user_action_sign_flow_ok sha app ≡ ok (sign_hash, app')
            → HashesFields sha app'.tx_processing_ctx (stream ++ loaded app.tx_processing_ctx [] 0))
  handle_sign-HashesFields app stream sent =
      (command-HashesFields app stream sent, consent-HashesFields app stream sent)
