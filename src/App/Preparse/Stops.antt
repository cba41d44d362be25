-- ===== src/App/Preparse/Stops.antt =====
-- The count of the state-neutral actions comes to an end.
use ledger_app.Base.{
  ℕ, zero, suc, ◌+◌, ◌*◌, ◌<◌, ◌≡◌, ◌≢◌, List, [], ◌∷◌, arith, length, true, false, ok, stuck,
  ◌>>=◌, ◌==◌, if◌then◌else◌, if_both, read_bytes, length-read_bytes, Bool, refl, ==_of_eq,
}
use ledger_app.Base.Ends.{
  Ends, ends, ends_ok, Ends->>=, Ends->>=_eq, Ends-if, Ends-ne-stuck, Ends-read_bytes, ends_overrun,
}
use ledger_app.Types.Name.{name_to_string}
use ledger_app.Stream.Context.{Sha256, Context, Content, init_tx_context}
use ledger_app.Stream.Fields.Shape.{IsWellFormed}
use ledger_app.Stream.Machine.{
  ParserStatus, stream_fault, stream_processing, stream_action_ready, stream_confirm_processing,
  stream_finished, stream_not_allowed, process_tx_internal,
}
use ledger_app.Stream.Machine.Rounds.{refuses, process_tx_loop_ok}
use ledger_app.Stream.Machine.Stops.{Ends-process_tx_loop}
use ledger_app.Stream.Machine.Progress.{left_over, GoesOn, process_tx_loop-GoesOn}
use ledger_app.App.StateNeutral.{equals_literal, lower_text, is_state_neutral_action}
use ledger_app.App.Preparse.{
  StackBytes, local_name, count_action, preparse_loop, preparse_transaction,
}

Ends-name_to_string : (v size : ℕ) → Ends (name_to_string v size)
unfolding name_to_string
Ends-name_to_string v size = search ends depth 10

pub Ends-equals_literal : (memory literal : List ℕ) → Ends (equals_literal memory literal)
unfolding equals_literal
Ends-equals_literal [] literal = ends_overrun
Ends-equals_literal (c ∷ memory) [] = ends_ok _
Ends-equals_literal (c ∷ memory) (l ∷ literal) =
    Ends-if _ (Ends-equals_literal memory literal) (ends_ok _)

Ends-lower_text : (n : ℕ) (memory : List ℕ) → Ends (lower_text n memory)
unfolding lower_text
Ends-lower_text zero memory = ends_ok _
Ends-lower_text (suc n) [] = ends_overrun
Ends-lower_text (suc n) (c ∷ memory) =
    Ends-if _ (ends_ok _) (Ends->>= (Ends-lower_text n memory) (λ text. ends_ok _))

pub Ends-is_state_neutral_action :
    (contract action : List ℕ) (no_data : ℕ)
    → Ends (is_state_neutral_action contract action no_data)
unfolding is_state_neutral_action
Ends-is_state_neutral_action contract action no_data =
    search (ends, Ends-equals_literal, Ends-lower_text) depth 30

Ends-local_name : (bytes : List ℕ) (v : ℕ) → Ends (local_name bytes v)
unfolding local_name
Ends-local_name bytes v = search (ends, Ends-name_to_string) depth 20

Ends-count_action :
    {H : Type 0} (stack : StackBytes) (verbose : ℕ) (c : Context H)
    → Ends (count_action stack verbose c)
unfolding count_action
Ends-count_action stack verbose c =
    search (ends, Ends-local_name, Ends-is_state_neutral_action) depth 30

module _ {H : Type 0} (sha : Sha256 H) (stack : StackBytes) (verbose : ℕ) where
  Ends-preparse_loop :
      (fuel count : ℕ) (c : Context H)
      → IsWellFormed c
      → left_over c < fuel
      → Ends (preparse_loop sha stack verbose fuel count c)
  unfolding preparse_loop process_tx_internal
  Ends-preparse_loop zero count c w h = elim h [ ]
  Ends-preparse_loop (suc fuel) count c w h =
      Ends->>=_eq (process_tx_internal sha c)
        (Ends-process_tx_loop sha (suc c.command_length) c w (omega arith))
        λ p ran.
          after (p.0) (p.1) (process_tx_loop_ok sha (suc c.command_length) c w ran)
            (process_tx_loop-GoesOn sha (suc c.command_length) c w ran)
            (λ k d v less. Ends-preparse_loop fuel k d v (omega arith))
    where
      after :
          (s : ParserStatus) (d : Context H)
          → (refuses s ≡ false → IsWellFormed d)
          → GoesOn (left_over c) s d
          → ((k : ℕ) (x : Context H)
              → IsWellFormed x
              → left_over x < left_over c
              → Ends (preparse_loop sha stack verbose fuel k x))
          → Ends (elim s [
            | stream_action_ready ↦ count_action stack verbose d >>= λ n.
                preparse_loop sha stack verbose fuel (count + n) d
            | stream_processing ↦
                if d.command_length == 0
                then ok count
                else preparse_loop sha stack verbose fuel count d
            | stream_confirm_processing ↦
                if d.command_length == 0
                then ok count
                else preparse_loop sha stack verbose fuel count d
            | stream_finished ↦ ok count
            | stream_fault ↦ ok count
            | stream_not_allowed ↦ ok count
          ])
      after stream_action_ready d keeps less ih =
          Ends->>= (Ends-count_action stack verbose d) (λ n. ih (count + n) d (keeps refl) less)
      after stream_processing d keeps used ih =
          if_both Ends (d.command_length == 0) (λ empty. ends_ok _)
            (λ some_left. absurd (both_ways (==_of_eq d.command_length 0 used) some_left))
        where
          both_ways : {b : Bool} → b ≡ true → b ≡ false → ⊥
          both_ways p q = cc
      after stream_confirm_processing d keeps less ih =
          Ends-if _ (ends_ok _) (ih count d (keeps refl) less)
      after stream_finished d keeps less ih = ends_ok _
      after stream_fault d keeps less ih = ends_ok _
      after stream_not_allowed d keeps less ih = ends_ok _

  -- `preparseTransaction` ends, whatever the bytes of the command are: neither its loop nor the
  -- parser's stops for want of the model's fuel.
  pub preparse_transaction-ne-stuck :
      (content : Content) (work_buffer : List ℕ) (scratch_length : ℕ)
      → preparse_transaction sha stack content work_buffer scratch_length verbose ≢ stuck
  unfolding preparse_transaction
  preparse_transaction-ne-stuck content work_buffer scratch_length = Ends-ne-stuck (
      Ends->>=_eq (read_bytes scratch_length work_buffer)
        (Ends-read_bytes scratch_length work_buffer)
        λ scratch read.
          Ends-preparse_loop (2 * scratch_length + 1) 0 _
            (begins scratch (length-read_bytes scratch_length work_buffer read)) (omega arith))
    where
      begins :
          (scratch : List ℕ)
          → length scratch ≡ scratch_length
          → IsWellFormed (record (init_tx_context sha content 1 verbose) {
            work_buffer = scratch;
            command_length = scratch_length;
          })
      begins scratch e = ground arith
