-- ===== src/Stream/Machine/Rounds.antt =====
-- What a round of the parser's loop keeps, and that it takes from the command.
use ledger_app.Base.{
  ℕ, zero, suc, ◌<◌, ◌≡◌, refl, true, false, Bool, Bool-cases, inl, inr, arith, stuck_not_ok,
  Outcome, ok, ◌>>=◌, >>=-eq-ok, ok-injective, ◌==◌, ◌||◌, not, then_of, else_of, if◌then◌else◌,
}
use mathlib.Core.Path.{subst}
use ledger_app.Stream.Context.{
  Sha256, Context, TxState, is_done, tlv_none, tlv_cfa_list_size, tlv_action_list_size,
  tlv_action_account, tlv_action_name, tlv_authorization_list_size, tlv_authorization_actor,
  tlv_authorization_permission, tlv_action_data_size, tlv_action_data, tlv_tx_extension_list_size,
  tlv_done,
}
use ledger_app.Stream.Known.{is_known_action}
use ledger_app.Stream.Fields.Shape.{HasSizes, IsWellFormed}
use ledger_app.Stream.Handlers.{
  process_field, process_zero_size_field, process_action_list_size_field, process_action_account,
  process_action_name, process_authorization_list_size_field, process_authorization_account,
  process_authorization_permission, process_unknown_action_data_size, process_unknown_action_data,
  process_action_data,
}
use ledger_app.Stream.Handlers.Keeps.{
  Advanced, IsReady, process_field-Advanced, process_zero_size_field-Advanced,
  process_action_list_size_field-Advanced, process_action_account-Advanced,
  process_action_name-Advanced, process_authorization_list_size_field-Advanced,
  process_authorization_account-Advanced, process_authorization_permission-Advanced,
  process_unknown_action_data_size-Advanced, process_unknown_action_data-Advanced,
  process_action_data-Advanced,
}
use ledger_app.Stream.Machine.{
  ParserStatus, stream_fault, stream_processing, stream_finished, stream_not_allowed, Round, return,
  again, Decoding, faulty, starved, field_found, decode_loop, begin_field, process_state,
  next_field, round, process_tx_loop,
}
use ledger_app.Stream.Machine.Header.{DecodingOk, decode_loop_ok}

-- The two statuses by which the parser turns a transaction down.
abbrev pub refuses : ParserStatus → Bool
refuses stream_fault = true
refuses stream_not_allowed = true
refuses _ = false

-- What a round gives: a status other than a refusal with a well-formed context, or a well-formed
-- context and a shorter command.
abbrev pub RoundOk : {H : Type 0} → Context H → Round H → Type 0
RoundOk c (return status d) = refuses status ≡ false → IsWellFormed d
RoundOk c (again d) = IsWellFormed d × (d.command_length < c.command_length)

-- The same of one handler, which may also find the command empty.
abbrev HandledOk : {H : Type 0} → Context H → Round H → Type 0
HandledOk c (return status d) = refuses status ≡ true
HandledOk c (again d) = Advanced c d

module _ {H : Type 0} where
  begin_field-IsReady : (d : Context H) → HasSizes d → IsReady (begin_field d)
  unfolding begin_field
  begin_field-IsReady d s = ground arith

  begin_field_less :
      (d e : Context H) {n : ℕ}
      → Advanced (begin_field d) e
      → d.command_length < n
      → e.command_length < n
  unfolding begin_field
  begin_field_less d e adv h = omega (arith, adv.no_more)

  IsWellFormed-IsReady : (c : Context H) → IsWellFormed c → c.processing_field ≡ true → IsReady c
  IsWellFormed-IsReady c w busy = record {
    ready_sizes = w.sizes;
    ready_room = w.tlv_room;
    ready_pos = omega (arith, w.field_open busy);
  }

module _ {H : Type 0} (sha : Sha256 H) where
  handled :
      (handler : Context H → Outcome (Context H))
      → ((c d : Context H) → IsReady c → handler c ≡ ok d → Advanced c d)
      → (c : Context H) (r : Round H) → IsReady c
      → (handler c >>= λ d. ok (again d)) ≡ ok r
      → HandledOk c r
  handled handler advances c r ready e =
      let (d, ran, end) = >>=-eq-ok (handler c) (λ d. ok (again d)) e in
      subst (HandledOk c) (ok-injective end) (advances c d ready ran)

  process_state_ok :
      (s : TxState) (c : Context H) (r : Round H)
      → IsReady c
      → process_state sha s c ≡ ok r
      → HandledOk c r
  unfolding process_state
  process_state_ok tlv_none c r ready e = subst (HandledOk c) (ok-injective e) refl
  process_state_ok tlv_done c r ready e = subst (HandledOk c) (ok-injective e) refl
  process_state_ok tlv_cfa_list_size c r ready e =
      handled (process_zero_size_field sha) (process_zero_size_field-Advanced sha) c r ready e
  process_state_ok tlv_tx_extension_list_size c r ready e =
      handled (process_zero_size_field sha) (process_zero_size_field-Advanced sha) c r ready e
  process_state_ok tlv_action_list_size c r ready e =
      handled (process_action_list_size_field sha) (process_action_list_size_field-Advanced sha) c r
        ready e
  process_state_ok tlv_action_account c r ready e =
      handled (process_action_account sha) (process_action_account-Advanced sha) c r ready e
  process_state_ok tlv_action_name c r ready e =
      handled (process_action_name sha) (process_action_name-Advanced sha) c r ready e
  process_state_ok tlv_authorization_list_size c r ready e =
      handled (process_authorization_list_size_field sha)
        (process_authorization_list_size_field-Advanced sha) c r ready e
  process_state_ok tlv_authorization_actor c r ready e =
      handled (process_authorization_account sha) (process_authorization_account-Advanced sha) c r
        ready e
  process_state_ok tlv_authorization_permission c r ready e =
      handled (process_authorization_permission sha) (process_authorization_permission-Advanced sha)
        c r ready e
  process_state_ok tlv_action_data_size c r ready e =
      elim (Bool-cases (is_known_action c || not (c.unknown_action_allowed == 1))) [
        | inl known ↦
            handled (process_field sha) (process_field-Advanced sha) c r ready (rw known at e)
        | inr unknown ↦
            handled (process_unknown_action_data_size sha)
              (process_unknown_action_data_size-Advanced sha) c r ready (rw unknown at e)
      ]
  process_state_ok tlv_action_data c r ready e = elim (Bool-cases (is_known_action c)) [
    | inl known ↦
        handled (process_action_data sha) (process_action_data-Advanced sha) c r ready
          (rw known at e)
    | inr unknown ↦ elim (Bool-cases (c.unknown_action_allowed == 1)) [
      | inl allowed ↦
          handled (process_unknown_action_data sha) (process_unknown_action_data-Advanced sha) c r
            ready (rw (unknown, allowed) at e)
      | inr refused ↦ subst (HandledOk c) (ok-injective (rw (unknown, refused) at e)) refl
    ]
  ]
  process_state_ok _ c r ready e =
      handled (process_field sha) (process_field-Advanced sha) c r ready e

  -- A handler that ran with a byte left, or behind a header, makes a round.
  RoundOk-HandledOk :
      (c d : Context H) (r : Round H)
      → ((e : Context H) → Advanced d e → e.command_length < c.command_length)
      → HandledOk d r
      → RoundOk c r
  RoundOk-HandledOk c d (return status e) less h = λ accepted. absurd (true_not_false h accepted)
    where
      true_not_false : {b : Bool} → b ≡ true → b ≡ false → ⊥
      true_not_false p q = cc
  RoundOk-HandledOk c d (again e) less h = (h.well, less e h)

  next_field_ok :
      (c : Context H) (r : Round H)
      → IsWellFormed c
      → c.processing_field ≡ false
      → next_field sha c ≡ ok r
      → RoundOk c r
  unfolding next_field
  next_field_ok c r w idle e =
      let (decoding, decoded_ok, end) = >>=-eq-ok (decode_loop (suc c.command_length) c) _ e in
      after decoding
        (decode_loop_ok (suc c.command_length) c decoding w.sizes w.tlv_room decoded_ok) end
    where
      go_on : Decoding H → Outcome (Round H)
      go_on decoding = elim decoding [
        | faulty d ↦ ok (return stream_fault d)
        | starved d ↦ ok (return stream_processing d)
        | field_found d ↦ process_state sha d.state (begin_field d)
      ]

      after : (x : Decoding H) → DecodingOk c x → go_on x ≡ ok r → RoundOk c r
      after (faulty d) h p = subst (RoundOk c) (ok-injective p) (λ q. cc)
      after (starved d) h p = subst (RoundOk c) (ok-injective p) (λ q. record {
        sizes = h.0;
        tlv_room = h.1;
        field_open = λ on. absurd (not_both (idle_still h.2) on);
      })
        where
          idle_still : {b : Bool} → b ≡ c.processing_field → b ≡ false
          idle_still p = cc

          not_both : {b : Bool} → b ≡ false → b ≡ true → ⊥
          not_both p q = cc
      after (field_found d) h p =
          RoundOk-HandledOk c (begin_field d) r (λ x adv. begin_field_less d x adv h.1)
            (process_state_ok d.state (begin_field d) r (begin_field-IsReady d h.0) p)

  -- The rest of the round, after the two flags.
  round_open_ok :
      (c : Context H) (r : Round H)
      → IsWellFormed c
      → (if is_done c.state
          then ok (return stream_finished c)
          else if c.command_length == 0
          then ok (return stream_processing c)
          else if c.processing_field
          then process_state sha c.state c
          else next_field sha c)
        ≡ ok r
      → RoundOk c r
  round_open_ok c r w e = elim (Bool-cases (is_done c.state)) [
    | inl done ↦ subst (RoundOk c) (ok-injective (then_of _ _ _ done e)) (λ q. w)
    | inr undone ↦ elim (Bool-cases (c.command_length == 0)) [
      | inl empty ↦
          subst (RoundOk c) (ok-injective (then_of _ _ _ empty (else_of _ _ _ undone e))) (λ q. w)
      | inr left ↦ elim (Bool-cases c.processing_field) [
        | inl busy ↦
            let some_left : 0 < c.command_length = ground arith in
            RoundOk-HandledOk c c r (λ x adv. adv.takes some_left (w.field_open busy))
              (process_state_ok c.state c r (IsWellFormed-IsReady c w busy)
                (then_of _ _ _ busy (else_of _ _ _ left (else_of _ _ _ undone e))))
        | inr idle ↦
            next_field_ok c r w idle
              (else_of _ _ _ idle (else_of _ _ _ left (else_of _ _ _ undone e)))
      ]
    ]
  ]

  pub round_ok : (c : Context H) (r : Round H) → IsWellFormed c → round sha c ≡ ok r → RoundOk c r
  unfolding round
  round_ok c r w e = elim (Bool-cases c.confirm_processing) [
    | inl confirm ↦ subst (RoundOk c) (ok-injective (then_of _ _ _ confirm e)) (λ q. ground arith)
    | inr quiet ↦ elim (Bool-cases c.action_ready) [
      | inl ready ↦
          subst (RoundOk c) (ok-injective (then_of _ _ _ ready (else_of _ _ _ quiet e)))
            (λ q. ground arith)
      | inr unready ↦ round_open_ok c r w (else_of _ _ _ unready (else_of _ _ _ quiet e))
    ]
  ]

  pub process_tx_loop_ok :
      (fuel : ℕ) (c : Context H) {status : ParserStatus} {d : Context H}
      → IsWellFormed c
      → process_tx_loop sha fuel c ≡ ok (status, d)
      → refuses status ≡ false
      → IsWellFormed d
  unfolding process_tx_loop
  process_tx_loop_ok zero c w e q = absurd (stuck_not_ok e)
  process_tx_loop_ok (suc fuel) c {status} {d} w e q =
      let (r, ran, end) = >>=-eq-ok (round sha c) _ e in
      after r (round_ok c r w ran) (λ x v p. process_tx_loop_ok fuel x v p q) end
    where
      go_on : Round H → Outcome (ParserStatus × Context H)
      go_on r = elim r [ return s x ↦ ok (s, x) | again x ↦ process_tx_loop sha fuel x ]

      after :
          (r : Round H)
          → RoundOk c r
          → ((x : Context H)
              → IsWellFormed x
              → process_tx_loop sha fuel x ≡ ok (status, d)
              → IsWellFormed d)
          → go_on r ≡ ok (status, d)
          → IsWellFormed d
      after (return s x) h ih p =
          let e₁ : s ≡ status = cc in let e₂ : x ≡ d = cc in subst IsWellFormed e₂ (h (rw e₁ q))
      after (again x) h ih p = ih x h.0 p
