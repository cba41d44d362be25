-- ===== src/Stream/Machine/Progress.antt =====
-- That a caller which goes on after each status comes to an end.
use ledger_app.Base.{
  ℕ, zero, suc, ◌+◌, ◌*◌, ◌≤◌, ◌<◌, ◌≡◌, ap, true, false, not, Bool, Outcome, ok, ◌>>=◌, >>=-eq-ok,
  ok-injective, arith, ◌==◌, Bool-cases, inl, inr, then_of, else_of, ◌||◌, stuck_not_ok,
  if◌then◌else◌, eq_of_==,
}
use mathlib.Core.Path.{subst}
use ledger_app.Utils.Tlv.{Header, invalid, incomplete, decoded, tlv_try_decode}
use ledger_app.Stream.Context.{
  Sha256, Context, TxState, is_done, tlv_none, tlv_action_data_size, tlv_action_data, tlv_done,
}
use ledger_app.Stream.Known.{is_known_action}
use ledger_app.Stream.Fields.Shape.{IsWellFormed}
use ledger_app.Stream.Machine.Rounds.{RoundOk, round_ok}
use ledger_app.Stream.Machine.{
  ParserStatus, stream_fault, stream_processing, stream_action_ready, stream_confirm_processing,
  stream_finished, stream_not_allowed, Round, return, again, Decoding, faulty, starved, field_found,
  feed_tlv_byte, decode_loop, begin_field, process_state, next_field, round, process_tx_loop,
}

abbrev one_if : Bool → ℕ
one_if true = 1
one_if false = 0

one_if_bound : (b : Bool) → one_if b ≤ 1
one_if_bound true = omega arith
one_if_bound false = omega arith

-- What is left to do with a command: two for each byte, and one for each status that waits.
abbrev pub left_over : {H : Type 0} → Context H → ℕ
left_over c = 2 * c.command_length + one_if c.confirm_processing + one_if c.action_ready

-- A status that asks to go on comes with less left over, or with the command used up.
abbrev pub GoesOn : {H : Type 0} → ℕ → ParserStatus → Context H → Type 0
GoesOn n stream_action_ready d = left_over d < n
GoesOn n stream_confirm_processing d = left_over d < n
GoesOn n stream_processing d = d.command_length ≡ 0
GoesOn n stream_finished d = Unit
GoesOn n stream_fault d = Unit
GoesOn n stream_not_allowed d = Unit

abbrev GoesOnRound : {H : Type 0} → ℕ → Round H → Type 0
GoesOnRound n (return s d) = GoesOn n s d
GoesOnRound n (again d) = Unit

abbrev UsedUp : {H : Type 0} → Decoding H → Type 0
UsedUp (faulty d) = Unit
UsedUp (starved d) = d.command_length ≡ 0
UsedUp (field_found d) = Unit

module _ {H : Type 0} where
  GoesOn-more : (n m : ℕ) (s : ParserStatus) (d : Context H) → n ≤ m → GoesOn n s d → GoesOn m s d
  GoesOn-more n m stream_action_ready d h g = omega (arith, g)
  GoesOn-more n m stream_confirm_processing d h g = omega (arith, g)
  GoesOn-more n m stream_processing d h g = g
  GoesOn-more n m stream_finished d h g = tt
  GoesOn-more n m stream_fault d h g = tt
  GoesOn-more n m stream_not_allowed d h g = tt

  decode_loop-UsedUp :
      (fuel : ℕ) (c : Context H) (r : Decoding H) → decode_loop fuel c ≡ ok r → UsedUp r
  unfolding decode_loop
  decode_loop-UsedUp zero c r e = absurd (stuck_not_ok e)
  decode_loop-UsedUp (suc fuel) c r e = elim (Bool-cases (c.command_length == 0)) [
    | inl empty ↦ subst UsedUp (ok-injective (then_of _ _ _ empty e)) (eq_of_== _ _ empty)
    | inr some_left ↦
        let (d, fed, decoded_d) = >>=-eq-ok (feed_tlv_byte c) _ (else_of _ _ _ some_left e) in
        let (header, tried, rest) =
          >>=-eq-ok (tlv_try_decode d.tlv_buffer d.tlv_buffer_pos) _ decoded_d in
        after d header rest (decode_loop-UsedUp fuel d r)
  ]
    where
      after :
          (d : Context H) (header : Header)
          → elim header [
            | invalid ↦ ok (faulty d)
            | decoded n ↦ ok (field_found (record d { current_field_length = n }))
            | incomplete ↦
                let rest = decode_loop fuel d in
                if d.tlv_buffer_pos == 5 then ok (faulty d) else rest
          ]
            ≡ ok r
          → (decode_loop fuel d ≡ ok r → UsedUp r)
          → UsedUp r
      after d invalid e ih = subst UsedUp (ok-injective e) tt
      after d (decoded n) e ih = subst UsedUp (ok-injective e) tt
      after d incomplete e ih = elim (Bool-cases (d.tlv_buffer_pos == 5)) [
        | inl full ↦ subst UsedUp (ok-injective (then_of _ _ _ full e)) tt
        | inr room ↦ ih (else_of _ _ _ room e)
      ]

module _ {H : Type 0} (sha : Sha256 H) (n : ℕ) where
  handler_goes_on :
      (m : Outcome (Context H)) (r : Round H) → (m >>= λ d. ok (again d)) ≡ ok r → GoesOnRound n r
  handler_goes_on m r e =
      let (d, ran, went_on) = >>=-eq-ok m _ e in subst (GoesOnRound n) (ok-injective went_on) tt

  process_state-GoesOnRound :
      (s : TxState) (c : Context H) (r : Round H) → process_state sha s c ≡ ok r → GoesOnRound n r
  unfolding process_state
  process_state-GoesOnRound tlv_none c r e = subst (GoesOnRound n) (ok-injective e) tt
  process_state-GoesOnRound tlv_done c r e = subst (GoesOnRound n) (ok-injective e) tt
  process_state-GoesOnRound tlv_action_data_size c r e =
      elim (Bool-cases (is_known_action c || not (c.unknown_action_allowed == 1))) [
        | inl known ↦ handler_goes_on _ r (then_of _ _ _ known e)
        | inr unknown ↦ handler_goes_on _ r (else_of _ _ _ unknown e)
      ]
  process_state-GoesOnRound tlv_action_data c r e = elim (Bool-cases (is_known_action c)) [
    | inl known ↦ handler_goes_on _ r (then_of _ _ _ known e)
    | inr unknown ↦
        let e' = else_of _ _ _ unknown e in
        elim (Bool-cases (c.unknown_action_allowed == 1)) [
          | inl admitted ↦ handler_goes_on _ r (then_of _ _ _ admitted e')
          | inr shut ↦ subst (GoesOnRound n) (ok-injective (else_of _ _ _ shut e')) tt
        ]
  ]
  process_state-GoesOnRound _ c r e = handler_goes_on _ r e

  next_field-GoesOnRound : (c : Context H) (r : Round H) → next_field sha c ≡ ok r → GoesOnRound n r
  unfolding next_field
  next_field-GoesOnRound c r e =
      let (decoding, ran, rest) = >>=-eq-ok (decode_loop (suc c.command_length) c) _ e in
      after decoding (decode_loop-UsedUp (suc c.command_length) c decoding ran) rest
    where
      after :
          (x : Decoding H)
          → UsedUp x
          → elim x [
            | faulty d ↦ ok (return stream_fault d)
            | starved d ↦ ok (return stream_processing d)
            | field_found d ↦ process_state sha d.state (begin_field d)
          ]
            ≡ ok r
          → GoesOnRound n r
      after (faulty d) h e' = subst (GoesOnRound n) (ok-injective e') tt
      after (starved d) h e' = subst (GoesOnRound n) (ok-injective e') h
      after (field_found d) h e' = process_state-GoesOnRound d.state (begin_field d) r e'

module _ {H : Type 0} (sha : Sha256 H) where
  round-GoesOnRound :
      (c : Context H) (r : Round H) → round sha c ≡ ok r → GoesOnRound (left_over c) r
  unfolding round
  round-GoesOnRound c r e = elim (Bool-cases c.confirm_processing) [
    | inl confirm ↦
        subst (GoesOnRound (left_over c)) (ok-injective (then_of _ _ _ confirm e))
          (let one : one_if c.confirm_processing ≡ 1 = ap one_if confirm in omega arith)
    | inr no_confirm ↦
        let e₁ = else_of _ _ _ no_confirm e in
        elim (Bool-cases c.action_ready) [
          | inl ready ↦
              subst (GoesOnRound (left_over c)) (ok-injective (then_of _ _ _ ready e₁))
                (let one : one_if c.action_ready ≡ 1 = ap one_if ready in omega arith)
          | inr idle ↦ working (else_of _ _ _ idle e₁)
        ]
  ]
    where
      working :
          (if is_done c.state
              then ok (return stream_finished c)
              else if c.command_length == 0
              then ok (return stream_processing c)
              else if c.processing_field
              then process_state sha c.state c
              else next_field sha c)
            ≡ ok r
          → GoesOnRound (left_over c) r
      working e₂ = elim (Bool-cases (is_done c.state)) [
        | inl done ↦ subst (GoesOnRound (left_over c)) (ok-injective (then_of _ _ _ done e₂)) tt
        | inr more ↦
            let e₃ = else_of _ _ _ more e₂ in
            elim (Bool-cases (c.command_length == 0)) [
              | inl empty ↦
                  subst (GoesOnRound (left_over c)) (ok-injective (then_of _ _ _ empty e₃))
                    (eq_of_== _ _ empty)
              | inr bytes ↦
                  let e₄ = else_of _ _ _ bytes e₃ in
                  elim (Bool-cases c.processing_field) [
                    | inl field ↦
                        process_state-GoesOnRound sha _ c.state c r (then_of _ _ _ field e₄)
                    | inr header ↦ next_field-GoesOnRound sha _ c r (else_of _ _ _ header e₄)
                  ]
            ]
      ]

  pub process_tx_loop-GoesOn :
      (fuel : ℕ) (c : Context H) {s : ParserStatus} {d : Context H}
      → IsWellFormed c
      → process_tx_loop sha fuel c ≡ ok (s, d)
      → GoesOn (left_over c) s d
  unfolding process_tx_loop
  process_tx_loop-GoesOn zero c w e = absurd (stuck_not_ok e)
  process_tx_loop-GoesOn (suc fuel) c {s} {d} w e =
      let (r, ran, rest) = >>=-eq-ok (round sha c) _ e in
      after r (round-GoesOnRound c r ran) (round_ok sha c r w ran)
        (λ x v f. process_tx_loop-GoesOn fuel x v f) rest
    where
      after :
          (r : Round H)
          → GoesOnRound (left_over c) r
          → RoundOk c r
          → ((x : Context H)
              → IsWellFormed x
              → process_tx_loop sha fuel x ≡ ok (s, d)
              → GoesOn (left_over x) s d)
          → ◌≡◌ {A = Outcome (ParserStatus × Context H)}
              (elim r [ return t x ↦ ok (t, x) | again x ↦ process_tx_loop sha fuel x ])
              (ok (s, d))
          → GoesOn (left_over c) s d
      after (return t x) g k ih e' =
          subst (λ (p : ParserStatus × Context H). GoesOn (left_over c) (p.0) (p.1))
            (ok-injective e') g
      after (again x) g k ih e' =
          let waits : one_if x.confirm_processing + one_if x.action_ready ≤ 2 =
            omega (arith, one_if_bound x.confirm_processing, one_if_bound x.action_ready) in
          GoesOn-more (left_over x) (left_over c) s d (omega (arith, k.1)) (ih x (k.0) e')
