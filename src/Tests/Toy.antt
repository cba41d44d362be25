-- ===== src/Tests/Toy.antt =====
-- A stand-in for the SDK's hash: the bytes themselves, cut to 32.
use ledger_app.Base.{
  ℕ, List, [], ◌++◌, take, replicate, append-nil, append_assoc, Outcome, ok, halted, overrun, stuck,
}
use ledger_app.Stream.Machine.{ParserStatus}
use ledger_app.Stream.Context.{Sha256, Context, Content, IsStreaming, init_tx_context}

abbrev pub toy : Sha256 (List ℕ)
toy = record {
  init = [];
  update = λ h xs. h ++ xs;
  digest = λ h. take 32 (h ++ replicate 32 0);
  finish = λ h. [];
}

pub toy-IsStreaming : IsStreaming toy
toy-IsStreaming = record {
  update-nil = append-nil;
  update-append = λ h xs ys. append_assoc h xs ys;
}

abbrev pub blank : Content
blank = record {
  no_data = 0;
  argument_count = 0;
  contract = replicate 14 0;
  action = replicate 14 0;
  arg = record { label = replicate 32 0; value = replicate 128 0 };
}

abbrev pub fresh : Context (List ℕ)
fresh = init_tx_context toy blank 0 0

-- The context that a run leaves.
abbrev pub context_of : Outcome (ParserStatus × Context (List ℕ)) → Context (List ℕ)
context_of (ok p) = p.1
context_of halted = fresh
context_of overrun = fresh
context_of stuck = fresh
