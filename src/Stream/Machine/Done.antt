-- ===== src/Stream/Machine/Done.antt =====
-- The parser in its last state.
use ledger_app.Base.{
  ℕ, ◌≡◌, ◌∙◌, true, false, List, ◌==◌, if◌then◌else◌, if_both, if_true, if_false, ok, after_ok,
}
use ledger_app.Stream.Context.{Sha256, Context, is_done}
use ledger_app.Stream.Machine.{
  stream_finished, round, process_tx_loop, process_tx_internal, parse_tx,
}

-- Nothing waits, and the state is the last one.
pub record IsAtEnd {H : Type 0} (c : Context H) : Type 0 where
  pub no_confirm : c.confirm_processing ≡ false
  pub no_action : c.action_ready ≡ false
  pub last : is_done c.state ≡ true

-- The context that a call begins with.
abbrev pub loaded : {H : Type 0} → Context H → List ℕ → ℕ → Context H
loaded c buffer len =
    if c.command_length == 0 then record c { work_buffer = buffer; command_length = len } else c

-- In its last state the parser calls the transaction finished, again and again.
pub parse_tx-IsAtEnd :
    {H : Type 0} (sha : Sha256 H) (c : Context H) (buffer : List ℕ) (len : ℕ)
    → IsAtEnd c
    → (parse_tx sha c buffer len ≡ ok (stream_finished, loaded c buffer len))
      × IsAtEnd (loaded c buffer len)
unfolding parse_tx process_tx_internal process_tx_loop round
parse_tx-IsAtEnd sha c buffer len h =
    let kept : IsAtEnd (loaded c buffer len) =
      if_both IsAtEnd (c.command_length == 0)
        (λ empty. record { no_confirm = h.no_confirm; no_action = h.no_action; last = h.last })
        (λ some_left. h) in
    (
      after_ok _ (
          if_false _ _ _ kept.no_confirm ∙ if_false _ _ _ kept.no_action ∙ if_true _ _ _ kept.last),
      kept,
    )
