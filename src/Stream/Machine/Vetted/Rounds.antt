-- ===== src/Stream/Machine/Vetted/Rounds.antt =====
-- What each round of the parser says of the action it has ready.
use ledger_app.Base.{
  ℕ, suc, ◌≡◌, ◌≢◌, ◌∙◌, refl, ap, true, false, not, Bool, Outcome, ok, ◌>>=◌, >>=-eq-ok,
  ok-injective, ◌==◌, Bool-cases, inl, inr, then_of, else_of, ◌||◌, if◌then◌else◌,
}
use mathlib.Core.Path.{subst, sym}
use ledger_app.Stream.Context.{
  Sha256, Context, TxState, is_done, tlv_none, tlv_cfa_list_size, tlv_action_list_size,
  tlv_action_account, tlv_action_name, tlv_authorization_list_size, tlv_authorization_actor,
  tlv_authorization_permission, tlv_action_data_size, tlv_action_data, tlv_tx_extension_list_size,
  tlv_done,
}
use ledger_app.Stream.Known.{is_known_action}
use ledger_app.Stream.Handlers.Ready.{
  flags, origin, process_field-flags, process_zero_size_field-flags,
  process_action_list_size_field-flags, process_action_account-flags, process_action_name-flags,
  process_authorization_list_size_field-flags, process_authorization_account-flags,
  process_authorization_permission-flags, process_unknown_action_data_size-flags,
  process_unknown_action_data-origin, process_action_data-origin,
}
use ledger_app.Stream.Machine.{
  ParserStatus, stream_fault, stream_processing, stream_action_ready, stream_confirm_processing,
  stream_finished, stream_not_allowed, Round, return, again, Decoding, faulty, starved, field_found,
  decode_loop, begin_field, process_state, next_field, round,
}
use ledger_app.Stream.Machine.Vetted.{
  admits, IsVetted, MeantRound, SameFlags, IsVetted-flags, IsVetted-origin, Meant-other,
  decode_loop-SameFlags,
}

module _ {H : Type 0} (sha : Sha256 H) (allow : ℕ) where
  -- A handler that makes no action ready, in a round that began with none ready.
  quiet_round :
      (c : Context H) (m : Outcome (Context H)) (r : Round H)
      → c.action_ready ≡ false
      → c.unknown_action_allowed ≡ allow
      → ((d : Context H) → m ≡ ok d → flags d ≡ flags c)
      → (m >>= λ d. ok (again d)) ≡ ok r
      → MeantRound allow r
  quiet_round c m r idle kept quiet e =
      let (d, ran, went_on) = >>=-eq-ok m _ e in
      subst (MeantRound allow) (ok-injective went_on)
        (IsVetted-flags allow c d idle kept (quiet d ran))

  ready_round :
      (c : Context H) (m : Outcome (Context H)) (r : Round H)
      → c.unknown_action_allowed ≡ allow
      → admits allow c ≡ true
      → ((d : Context H) → m ≡ ok d → origin d ≡ origin c)
      → (m >>= λ d. ok (again d)) ≡ ok r
      → MeantRound allow r
  ready_round c m r kept known same e =
      let (d, ran, went_on) = >>=-eq-ok m _ e in
      subst (MeantRound allow) (ok-injective went_on)
        (IsVetted-origin allow c d kept known (same d ran))

  refused :
      (s : ParserStatus) (c : Context H) (r : Round H)
      → s ≢ stream_action_ready
      → s ≢ stream_finished
      → c.action_ready ≡ false
      → c.unknown_action_allowed ≡ allow
      → ok (return s c) ≡ ok r
      → MeantRound allow r
  refused s c r p q idle kept e =
      subst (MeantRound allow) (ok-injective e)
        (Meant-other allow s c p q (IsVetted-flags allow c c idle kept refl))

  process_state-MeantRound :
      (s : TxState) (c : Context H) (r : Round H)
      → c.action_ready ≡ false
      → c.unknown_action_allowed ≡ allow
      → process_state sha s c ≡ ok r
      → MeantRound allow r
  unfolding process_state
  process_state-MeantRound tlv_none c r i k e = refused stream_fault c r (λ h. cc) (λ h. cc) i k e
  process_state-MeantRound tlv_done c r i k e = refused stream_fault c r (λ h. cc) (λ h. cc) i k e
  process_state-MeantRound tlv_cfa_list_size c r i k e =
      quiet_round c _ r i k (process_zero_size_field-flags sha c) e
  process_state-MeantRound tlv_tx_extension_list_size c r i k e =
      quiet_round c _ r i k (process_zero_size_field-flags sha c) e
  process_state-MeantRound tlv_action_list_size c r i k e =
      quiet_round c _ r i k (process_action_list_size_field-flags sha c) e
  process_state-MeantRound tlv_action_account c r i k e =
      quiet_round c _ r i k (process_action_account-flags sha c) e
  process_state-MeantRound tlv_action_name c r i k e =
      quiet_round c _ r i k (process_action_name-flags sha c) e
  process_state-MeantRound tlv_authorization_list_size c r i k e =
      quiet_round c _ r i k (process_authorization_list_size_field-flags sha c) e
  process_state-MeantRound tlv_authorization_actor c r i k e =
      quiet_round c _ r i k (process_authorization_account-flags sha c) e
  process_state-MeantRound tlv_authorization_permission c r i k e =
      quiet_round c _ r i k (process_authorization_permission-flags sha c) e
  process_state-MeantRound tlv_action_data_size c r i k e =
      elim (Bool-cases (is_known_action c || not (c.unknown_action_allowed == 1))) [
        | inl known ↦ quiet_round c _ r i k (process_field-flags sha c) (then_of _ _ _ known e)
        | inr unknown ↦
            quiet_round c _ r i k (process_unknown_action_data_size-flags sha c)
              (else_of _ _ _ unknown e)
      ]
  process_state-MeantRound tlv_action_data c r i k e = elim (Bool-cases (is_known_action c)) [
    | inl known ↦
        ready_round c _ r k (rw known) (process_action_data-origin sha c) (then_of _ _ _ known e)
    | inr unknown ↦
        let e' = else_of _ _ _ unknown e in
        elim (Bool-cases (c.unknown_action_allowed == 1)) [
          | inl open_setting ↦
              ready_round c _ r k
                (ap (λ n. is_known_action c || n == 1) (sym k) ∙ rw (unknown, open_setting))
                (process_unknown_action_data-origin sha c) (then_of _ _ _ open_setting e')
          | inr shut_setting ↦
              refused stream_not_allowed c r (λ h. cc) (λ h. cc) i k (else_of _ _ _ shut_setting e')
        ]
  ]
  process_state-MeantRound _ c r i k e = quiet_round c _ r i k (process_field-flags sha c) e

  next_field-MeantRound :
      (c : Context H) (r : Round H)
      → c.action_ready ≡ false
      → c.unknown_action_allowed ≡ allow
      → next_field sha c ≡ ok r
      → MeantRound allow r
  unfolding next_field begin_field
  next_field-MeantRound c r i k e =
      let (decoding, ran, rest) = >>=-eq-ok (decode_loop (suc c.command_length) c) _ e in
      after decoding (decode_loop-SameFlags (suc c.command_length) c decoding ran) rest
    where
      after :
          (x : Decoding H)
          → SameFlags c x
          → elim x [
            | faulty d ↦ ok (return stream_fault d)
            | starved d ↦ ok (return stream_processing d)
            | field_found d ↦ process_state sha d.state (begin_field d)
          ]
            ≡ ok r
          → MeantRound allow r
      after (faulty d) h e' =
          refused stream_fault d r (λ q. cc) (λ q. cc) (ap (λ (p : Bool × ℕ). p.0) h ∙ i)
            (ap (λ (p : Bool × ℕ). p.1) h ∙ k) e'
      after (starved d) h e' =
          refused stream_processing d r (λ q. cc) (λ q. cc) (ap (λ (p : Bool × ℕ). p.0) h ∙ i)
            (ap (λ (p : Bool × ℕ). p.1) h ∙ k) e'
      after (field_found d) h e' =
          process_state-MeantRound d.state (begin_field d) r (ap (λ (p : Bool × ℕ). p.0) h ∙ i)
            (ap (λ (p : Bool × ℕ). p.1) h ∙ k) e'

  pub round-MeantRound :
      (c : Context H) (r : Round H) → IsVetted allow c → round sha c ≡ ok r → MeantRound allow r
  unfolding round is_known_action
  round-MeantRound c r v e = elim (Bool-cases c.confirm_processing) [
    | inl confirm ↦ subst (MeantRound allow) (ok-injective (then_of _ _ _ confirm e)) (
        Meant-other allow stream_confirm_processing (record c { confirm_processing = false })
          (λ h. cc) (λ h. cc) (record { setting = v.setting; admitted = v.admitted }))
    | inr no_confirm ↦
        let e₁ = else_of _ _ _ no_confirm e in
        elim (Bool-cases c.action_ready) [
          | inl ready ↦ subst (MeantRound allow) (ok-injective (then_of _ _ _ ready e₁)) (record {
            vetted = record { setting = v.setting; admitted = λ h. cc };
            shown = λ h. v.admitted ready;
            finished = λ h. cc;
          })
          | inr idle ↦ working idle (else_of _ _ _ idle e₁)
        ]
  ]
    where
      working :
          c.action_ready ≡ false
          → (if is_done c.state
              then ok (return stream_finished c)
              else if c.command_length == 0
              then ok (return stream_processing c)
              else if c.processing_field
              then process_state sha c.state c
              else next_field sha c)
            ≡ ok r
          → MeantRound allow r
      working idle e₂ = elim (Bool-cases (is_done c.state)) [
        | inl done ↦
            subst (MeantRound allow) (ok-injective (then_of _ _ _ done e₂))
              (record { vetted = v; shown = λ h. cc; finished = λ h. done })
        | inr more ↦
            let e₃ = else_of _ _ _ more e₂ in
            elim (Bool-cases (c.command_length == 0)) [
              | inl empty ↦
                  refused stream_processing c r (λ h. cc) (λ h. cc) idle v.setting
                    (then_of _ _ _ empty e₃)
              | inr bytes ↦
                  let e₄ = else_of _ _ _ bytes e₃ in
                  elim (Bool-cases c.processing_field) [
                    | inl field ↦
                        process_state-MeantRound c.state c r idle v.setting (then_of _ _ _ field e₄)
                    | inr header ↦
                        next_field-MeantRound c r idle v.setting (else_of _ _ _ header e₄)
                  ]
            ]
      ]
