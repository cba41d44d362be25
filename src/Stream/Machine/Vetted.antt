-- ===== src/Stream/Machine/Vetted.antt =====
-- Which actions the parser lets the user see, and when it calls a transaction finished.
pub mod Rounds
pub mod Session
use ledger_app.Base.{
  ℕ, zero, suc, ◌≡◌, ◌≢◌, ◌∙◌, refl, ap, true, false, not, Bool, List, Outcome, ok, ◌>>=◌,
  >>=-eq-ok, ok-injective, arith, ◌==◌, Bool-cases, inl, inr, then_of, else_of, ◌||◌, if_both,
  stuck_not_ok, if◌then◌else◌,
}
use mathlib.Core.Path.{subst, sym}
use ledger_app.Utils.Tlv.{Header, invalid, incomplete, decoded, tlv_try_decode}
use ledger_app.Stream.Context.{
  Sha256, Context, Content, TxState, is_done, init_tx_context, tlv_none, tlv_cfa_list_size,
  tlv_action_list_size, tlv_action_account, tlv_action_name, tlv_authorization_list_size,
  tlv_authorization_actor, tlv_authorization_permission, tlv_action_data_size, tlv_action_data,
  tlv_tx_extension_list_size, tlv_done,
}
use ledger_app.Stream.Known.{is_known_action}
use ledger_app.Stream.Handlers.Ready.{
  flags, origin, process_field-flags, process_zero_size_field-flags,
  process_action_list_size_field-flags, process_action_account-flags, process_action_name-flags,
  process_authorization_list_size_field-flags, process_authorization_account-flags,
  process_authorization_permission-flags, process_unknown_action_data_size-flags,
  process_unknown_action_data-origin, process_action_data-origin,
}
use ledger_app.Stream.Machine.{
  ParserStatus, stream_fault, stream_processing, stream_action_ready, stream_confirm_processing,
  stream_finished, stream_not_allowed, Round, return, again, Decoding, faulty, starved, field_found,
  read_tx_byte, feed_tlv_byte, decode_loop, begin_field, process_state, next_field, round,
  process_tx_loop, process_tx_internal, parse_tx,
}

-- The action is known, or the setting `allow` admits unknown ones.
abbrev pub admits : {H : Type 0} → ℕ → Context H → Bool
admits allow c = is_known_action c || allow == 1

-- The context holds the setting, and the action that it has ready is admitted.
pub record IsVetted {H : Type 0} (allow : ℕ) (c : Context H) : Type 0 where
  pub setting : c.unknown_action_allowed ≡ allow
  pub admitted : c.action_ready ≡ true → admits allow c ≡ true

-- What a status says of the context that comes with it.
pub record Meant {H : Type 0} (allow : ℕ) (s : ParserStatus) (d : Context H) : Type 0 where
  pub vetted : IsVetted allow d
  pub shown : s ≡ stream_action_ready → admits allow d ≡ true
  pub finished : s ≡ stream_finished → is_done d.state ≡ true

abbrev pub MeantRound : {H : Type 0} → ℕ → Round H → Type 0
MeantRound allow (return s d) = Meant allow s d
MeantRound allow (again d) = IsVetted allow d

abbrev pub SameFlags : {H : Type 0} → Context H → Decoding H → Type 0
SameFlags c (faulty d) = flags d ≡ flags c
SameFlags c (starved d) = flags d ≡ flags c
SameFlags c (field_found d) = flags d ≡ flags c

module _ {H : Type 0} where
  admits-origin :
      (allow : ℕ) (c d : Context H) → origin d ≡ origin c → admits allow d ≡ admits allow c
  unfolding is_known_action
  admits-origin allow c d e = cc

  pub IsVetted-flags :
      (allow : ℕ) (c d : Context H)
      → c.action_ready ≡ false
      → c.unknown_action_allowed ≡ allow
      → flags d ≡ flags c
      → IsVetted allow d
  IsVetted-flags allow c d idle kept e = record { setting = cc; admitted = λ ready. cc }

  pub IsVetted-origin :
      (allow : ℕ) (c d : Context H)
      → c.unknown_action_allowed ≡ allow
      → admits allow c ≡ true
      → origin d ≡ origin c
      → IsVetted allow d
  IsVetted-origin allow c d kept known e = record {
    setting = cc;
    admitted = λ ready. admits-origin allow c d e ∙ known;
  }

  -- A status that is neither of the two that say something.
  pub Meant-other :
      (allow : ℕ) (s : ParserStatus) (d : Context H)
      → s ≢ stream_action_ready
      → s ≢ stream_finished
      → IsVetted allow d
      → Meant allow s d
  Meant-other allow s d not_ready not_finished v = record {
    vetted = v;
    shown = λ e. absurd (not_ready e);
    finished = λ e. absurd (not_finished e);
  }

  feed_tlv_byte-flags : (c d : Context H) → feed_tlv_byte c ≡ ok d → flags d ≡ flags c
  unfolding feed_tlv_byte read_tx_byte
  feed_tlv_byte-flags c d e = ground arith

  SameFlags-flags :
      (c d : Context H) (r : Decoding H) → flags d ≡ flags c → SameFlags d r → SameFlags c r
  SameFlags-flags c d (faulty x) e h = h ∙ e
  SameFlags-flags c d (starved x) e h = h ∙ e
  SameFlags-flags c d (field_found x) e h = h ∙ e

  pub decode_loop-SameFlags :
      (fuel : ℕ) (c : Context H) (r : Decoding H) → decode_loop fuel c ≡ ok r → SameFlags c r
  unfolding decode_loop
  decode_loop-SameFlags zero c r e = absurd (stuck_not_ok e)
  decode_loop-SameFlags (suc fuel) c r e = elim (Bool-cases (c.command_length == 0)) [
    | inl empty ↦ subst (SameFlags c) (ok-injective (then_of _ _ _ empty e)) refl
    | inr some_left ↦
        let (d, fed, decoded_d) = >>=-eq-ok (feed_tlv_byte c) _ (else_of _ _ _ some_left e) in
        let (header, tried, rest) =
          >>=-eq-ok (tlv_try_decode d.tlv_buffer d.tlv_buffer_pos) _ decoded_d in
        SameFlags-flags c d r (feed_tlv_byte-flags c d fed)
          (after d header rest (decode_loop-SameFlags fuel d r))
  ]
    where
      after :
          (d : Context H) (header : Header)
          → elim header [
            | invalid ↦ ok (faulty d)
            | decoded n ↦ ok (field_found (record d { current_field_length = n }))
            | incomplete ↦
                let rest = decode_loop fuel d in
                if d.tlv_buffer_pos == 5 then ok (faulty d) else rest
          ]
            ≡ ok r
          → (decode_loop fuel d ≡ ok r → SameFlags d r)
          → SameFlags d r
      after d invalid e ih = subst (SameFlags d) (ok-injective e) refl
      after d (decoded n) e ih = subst (SameFlags d) (ok-injective e) refl
      after d incomplete e ih = elim (Bool-cases (d.tlv_buffer_pos == 5)) [
        | inl full ↦ subst (SameFlags d) (ok-injective (then_of _ _ _ full e)) refl
        | inr room ↦ ih (else_of _ _ _ room e)
      ]
