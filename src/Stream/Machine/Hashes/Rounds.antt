-- ===== src/Stream/Machine/Hashes/Rounds.antt =====
-- What each round of the parser hashes.
use ledger_app.Base.{
  ℕ, suc, ◌≡◌, ◌≢◌, inl, inr, Bool-cases, true, false, not, ◌||◌, List, Outcome, ok, ◌>>=◌,
  >>=-eq-ok, ok-injective, ◌==◌, if◌then◌else◌, then_of, else_of,
}
use mathlib.Core.Path.{subst}
use ledger_app.Stream.Context.{
  Sha256, IsStreaming, Context, TxState, is_done, tlv_none, tlv_cfa_list_size, tlv_action_list_size,
  tlv_action_account, tlv_action_name, tlv_authorization_list_size, tlv_authorization_actor,
  tlv_authorization_permission, tlv_action_data_size, tlv_action_data, tlv_tx_extension_list_size,
  tlv_done,
}
use ledger_app.Stream.Known.{is_known_action}
use ledger_app.Stream.Handlers.Chunks.{HashesBytes}
use ledger_app.Stream.Handlers.Chunks.Each.{
  process_field-HashesBytes, process_zero_size_field-HashesBytes,
  process_action_list_size_field-HashesBytes, process_action_account-HashesBytes,
  process_action_name-HashesBytes, process_authorization_list_size_field-HashesBytes,
  process_authorization_account-HashesBytes, process_authorization_permission-HashesBytes,
  process_unknown_action_data_size-HashesBytes, process_unknown_action_data-HashesBytes,
  process_action_data-HashesBytes,
}
use ledger_app.Stream.Machine.{
  ParserStatus, stream_fault, stream_processing, stream_action_ready, stream_confirm_processing,
  stream_finished, stream_not_allowed, Round, return, again, Decoding, faulty, starved, field_found,
  decode_loop, begin_field, process_state, next_field, round,
}
use ledger_app.Stream.Machine.Scans.{ScannedTo, decode_loop-ScannedTo}
use ledger_app.Stream.Machine.Hashes.{Received, Between, Inside, set_flags}
use ledger_app.Stream.Machine.Hashes.Steps.{chunk-Received, scan-Received, begin_field-Received}

-- A status, and where the parser stands with it.
pub record ReceivedStatus {H : Type 0} (sha : Sha256 H) (stream : List ℕ) (s : ParserStatus)
    (c : Context H) : Type 0 where
  pub received : Received sha c stream
  pub finished : s ≡ stream_finished → is_done c.state ≡ true

abbrev pub ReceivedRound : {H : Type 0} → Sha256 H → List ℕ → Round H → Type 0
ReceivedRound sha stream (return s c) = ReceivedStatus sha stream s c
ReceivedRound sha stream (again c) = Received sha c stream

module _ {H : Type 0} (sha : Sha256 H) (streaming : IsStreaming sha) (stream : List ℕ) where
  chunk_round :
      (c : Context H) (m : Outcome (Context H)) (x : Round H) (r : Received sha c stream)
      → Inside c r.consumed r.hashed
      → ((d : Context H) → m ≡ ok d → HashesBytes sha c d)
      → (m >>= λ d. ok (again d)) ≡ ok x
      → ReceivedRound sha stream x
  chunk_round c m x r i chunk e =
      let (d, ran, went_on) = >>=-eq-ok m _ e in
      subst (ReceivedRound sha stream) (ok-injective went_on)
        (chunk-Received sha streaming c d stream r i (chunk d ran))

  unfinished :
      (s : ParserStatus) (c : Context H) (x : Round H)
      → Received sha c stream
      → s ≢ stream_finished
      → ok (return s c) ≡ ok x
      → ReceivedRound sha stream x
  unfinished s c x r p e =
      subst (ReceivedRound sha stream) (ok-injective e)
        (record { received = r; finished = λ h. absurd (p h) })

  process_state-ReceivedRound :
      (s : TxState) (c : Context H) (x : Round H) (r : Received sha c stream)
      → Inside c r.consumed r.hashed
      → process_state sha s c ≡ ok x
      → ReceivedRound sha stream x
  unfolding process_state
  process_state-ReceivedRound tlv_none c x r i e = unfinished stream_fault c x r (λ h. cc) e
  process_state-ReceivedRound tlv_done c x r i e = unfinished stream_fault c x r (λ h. cc) e
  process_state-ReceivedRound tlv_cfa_list_size c x r i e =
      chunk_round c _ x r i (process_zero_size_field-HashesBytes sha streaming c) e
  process_state-ReceivedRound tlv_tx_extension_list_size c x r i e =
      chunk_round c _ x r i (process_zero_size_field-HashesBytes sha streaming c) e
  process_state-ReceivedRound tlv_action_list_size c x r i e =
      chunk_round c _ x r i (process_action_list_size_field-HashesBytes sha streaming c) e
  process_state-ReceivedRound tlv_action_account c x r i e =
      chunk_round c _ x r i (process_action_account-HashesBytes sha streaming c) e
  process_state-ReceivedRound tlv_action_name c x r i e =
      chunk_round c _ x r i (process_action_name-HashesBytes sha streaming c) e
  process_state-ReceivedRound tlv_authorization_list_size c x r i e =
      chunk_round c _ x r i (process_authorization_list_size_field-HashesBytes sha streaming c) e
  process_state-ReceivedRound tlv_authorization_actor c x r i e =
      chunk_round c _ x r i (process_authorization_account-HashesBytes sha streaming c) e
  process_state-ReceivedRound tlv_authorization_permission c x r i e =
      chunk_round c _ x r i (process_authorization_permission-HashesBytes sha streaming c) e
  process_state-ReceivedRound tlv_action_data_size c x r i e =
      elim (Bool-cases (is_known_action c || not (c.unknown_action_allowed == 1))) [
        | inl known ↦
            chunk_round c _ x r i (process_field-HashesBytes sha streaming c)
              (then_of _ _ _ known e)
        | inr unknown ↦
            chunk_round c _ x r i (process_unknown_action_data_size-HashesBytes sha streaming c)
              (else_of _ _ _ unknown e)
      ]
  process_state-ReceivedRound tlv_action_data c x r i e = elim (Bool-cases (is_known_action c)) [
    | inl known ↦
        chunk_round c _ x r i (process_action_data-HashesBytes sha streaming c)
          (then_of _ _ _ known e)
    | inr unknown ↦
        let e' = else_of _ _ _ unknown e in
        elim (Bool-cases (c.unknown_action_allowed == 1)) [
          | inl open_setting ↦
              chunk_round c _ x r i (process_unknown_action_data-HashesBytes sha streaming c)
                (then_of _ _ _ open_setting e')
          | inr shut_setting ↦
              unfinished stream_not_allowed c x r (λ h. cc) (else_of _ _ _ shut_setting e')
        ]
  ]
  process_state-ReceivedRound _ c x r i e =
      chunk_round c _ x r i (process_field-HashesBytes sha streaming c) e

  next_field-ReceivedRound :
      (c : Context H) (x : Round H) (r : Received sha c stream)
      → Between c r.consumed r.hashed
      → is_done c.state ≡ false
      → next_field sha c ≡ ok x
      → ReceivedRound sha stream x
  unfolding next_field
  next_field-ReceivedRound c x r b going e =
      let (decoding, ran, rest) = >>=-eq-ok (decode_loop (suc c.command_length) c) _ e in
      after decoding (decode_loop-ScannedTo (suc c.command_length) c decoding b.unread r.size ran)
        rest
    where
      after :
          (y : Decoding H)
          → ScannedTo c y
          → elim y [
            | faulty d ↦ ok (return stream_fault d)
            | starved d ↦ ok (return stream_processing d)
            | field_found d ↦ process_state sha d.state (begin_field d)
          ]
            ≡ ok x
          → ReceivedRound sha stream x
      after (faulty d) h e' =
          unfinished stream_fault d x (scan-Received sha streaming c d stream r b going h.0 h.1)
            (λ q. cc) e'
      after (starved d) h e' =
          unfinished stream_processing d x
            (scan-Received sha streaming c d stream r b going h.0 h.1) (λ q. cc) e'
      after (field_found d) h e' =
          let (t, i) = begin_field-Received sha streaming c d stream r b going h.0 h.1 in
          process_state-ReceivedRound d.state (begin_field d) x t i e'

  -- A round with bytes left and a field or a header to go on with.
  working_round :
      (c : Context H) (x : Round H) (r : Received sha c stream)
      → is_done c.state ≡ false
      → (if c.processing_field then process_state sha c.state c else next_field sha c) ≡ ok x
      → ReceivedRound sha stream x
  working_round c x r going e = elim r.place [
    | inl b ↦ next_field-ReceivedRound c x r b going (else_of _ _ _ b.closed e)
    | inr i ↦ process_state-ReceivedRound c.state c x r i (then_of _ _ _ i.working e)
  ]

  finish_status :
      (s : ParserStatus) (c : Context H) (x : Round H)
      → Received sha c stream
      → is_done c.state ≡ true
      → ok (return s c) ≡ ok x
      → ReceivedRound sha stream x
  finish_status s c x r done e =
      subst (ReceivedRound sha stream) (ok-injective e)
        (record { received = r; finished = λ h. done })

  pub round-ReceivedRound :
      (c : Context H) (x : Round H)
      → Received sha c stream
      → round sha c ≡ ok x
      → ReceivedRound sha stream x
  unfolding round
  round-ReceivedRound c x r e = elim (Bool-cases c.confirm_processing) [
    | inl confirm ↦
        unfinished stream_confirm_processing (record c { confirm_processing = false }) x
          (set_flags sha c c.action_ready false stream r) (λ h. cc) (then_of _ _ _ confirm e)
    | inr no_confirm ↦
        let e₁ = else_of _ _ _ no_confirm e in
        elim (Bool-cases c.action_ready) [
          | inl ready ↦
              unfinished stream_action_ready (record c { action_ready = false }) x
                (set_flags sha c false c.confirm_processing stream r) (λ h. cc)
                (then_of _ _ _ ready e₁)
          | inr idle ↦
              let e₂ = else_of _ _ _ idle e₁ in
              elim (Bool-cases (is_done c.state)) [
                | inl done ↦ finish_status stream_finished c x r done (then_of _ _ _ done e₂)
                | inr more ↦
                    let e₃ = else_of _ _ _ more e₂ in
                    elim (Bool-cases (c.command_length == 0)) [
                      | inl empty ↦
                          unfinished stream_processing c x r (λ h. cc) (then_of _ _ _ empty e₃)
                      | inr bytes ↦ working_round c x r more (else_of _ _ _ bytes e₃)
                    ]
              ]
        ]
  ]
