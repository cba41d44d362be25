-- ===== src/Stream/Machine/Hashes/Sent.antt =====
-- What a session of the parser has hashed of the stream.
use ledger_app.Base.{
  ℕ, zero, suc, ◌≡◌, ◌∙◌, refl, ap, sym, Bool-cases, inl, inr, true, List, [], ◌++◌, take,
  append-nil, Outcome, ok, >>=-eq-ok, ok-injective, ◌==◌, eq_of_==, if◌then◌else◌, stuck_not_ok,
}
use mathlib.Core.Path.{subst}
use ledger_app.Stream.Context.{Sha256, IsStreaming, Context, Content, is_done, init_tx_context}
use ledger_app.Stream.Frames.{no_field}
use ledger_app.Stream.Machine.{
  ParserStatus, stream_finished, Round, return, again, round, process_tx_loop, process_tx_internal,
  parse_tx,
}
use ledger_app.Stream.Machine.Hashes.{Received, HashesFields, load_command, overwrite}
use ledger_app.Stream.Machine.Hashes.Rounds.{ReceivedStatus, ReceivedRound, round-ReceivedRound}

-- What a call of `parseTx` adds to the stream: its buffer, or nothing when bytes of the last command
-- are left.
abbrev pub loaded : {H : Type 0} → Context H → List ℕ → ℕ → List ℕ
loaded c buffer len = if c.command_length == 0 then take len buffer else []

-- The contexts of a session with the stream that the parser gets: initialised, then any commands,
-- whatever their bytes, going on after every status. Where the memory that `workBuffer` points into
-- is written anew, as by a command that comes while bytes are left, those bytes change.
pub data Sent {H : Type 0} (sha : Sha256 H) : Context H → List ℕ → Type 0 where
  begun :
      (content : Content) (allow verbose : ℕ)
      → Sent sha (init_tx_context sha content allow verbose) []
  fed :
      {c d : Context H} {stream : List ℕ} {s : ParserStatus} (buffer : List ℕ) (len : ℕ)
      → Sent sha c stream
      → parse_tx sha c buffer len ≡ ok (s, d)
      → Sent sha d (stream ++ loaded c buffer len)
  overwritten :
      {c : Context H} (taken memory : List ℕ)
      → Sent sha c (taken ++ take c.command_length c.work_buffer)
      → Sent sha (record c { work_buffer = memory }) (taken ++ take c.command_length memory)

module _ {H : Type 0} (sha : Sha256 H) (streaming : IsStreaming sha) where
  process_tx_loop-ReceivedStatus :
      (fuel : ℕ) (c : Context H) (stream : List ℕ) {s : ParserStatus} {d : Context H}
      → Received sha c stream
      → process_tx_loop sha fuel c ≡ ok (s, d)
      → ReceivedStatus sha stream s d
  unfolding process_tx_loop
  process_tx_loop-ReceivedStatus zero c stream r e = absurd (stuck_not_ok e)
  process_tx_loop-ReceivedStatus (suc fuel) c stream {s} {d} r e =
      let (x, ran, rest) = >>=-eq-ok (round sha c) _ e in
      after x (round-ReceivedRound sha streaming stream c x r ran)
        (λ y w f. process_tx_loop-ReceivedStatus fuel y stream w f) rest
    where
      after :
          (x : Round H)
          → ReceivedRound sha stream x
          → ((y : Context H)
              → Received sha y stream
              → process_tx_loop sha fuel y ≡ ok (s, d)
              → ReceivedStatus sha stream s d)
          → ◌≡◌ {A = Outcome (ParserStatus × Context H)}
              (elim x [ return t y ↦ ok (t, y) | again y ↦ process_tx_loop sha fuel y ])
              (ok (s, d))
          → ReceivedStatus sha stream s d
      after (return t y) h ih e' =
          subst (λ (p : ParserStatus × Context H). ReceivedStatus sha stream (p.0) (p.1))
            (ok-injective e') h
      after (again y) h ih e' = ih y h e'

  parse_tx-ReceivedStatus :
      (c : Context H) (stream buffer : List ℕ) (len : ℕ) {s : ParserStatus} {d : Context H}
      → Received sha c stream
      → parse_tx sha c buffer len ≡ ok (s, d)
      → ReceivedStatus sha (stream ++ loaded c buffer len) s d
  unfolding parse_tx process_tx_internal
  parse_tx-ReceivedStatus c stream buffer len {s} {d} r e =
      process_tx_loop-ReceivedStatus _ _ (stream ++ loaded c buffer len) ready e
    where
      ready :
          Received sha
            (if c.command_length == 0
              then record c { work_buffer = buffer; command_length = len }
              else c)
            (stream ++ loaded c buffer len)
      ready = elim (Bool-cases (c.command_length == 0)) [
        | inl empty ↦
            subst
              (λ b.
                Received sha
                  (if b then record c { work_buffer = buffer; command_length = len } else c)
                  (stream ++ (if b then take len buffer else [])))
              (sym empty) (load_command sha c buffer len stream (eq_of_== _ _ empty) r)
        | inr left ↦
            subst
              (λ b.
                Received sha
                  (if b then record c { work_buffer = buffer; command_length = len } else c)
                  (stream ++ (if b then take len buffer else [])))
              (sym left) (subst (Received sha c) (sym (append-nil stream)) r)
      ]

  begun-Received :
      (content : Content) (allow verbose : ℕ)
      → Received sha (init_tx_context sha content allow verbose) []
  begun-Received content allow verbose = record {
    consumed = [];
    hashed = [];
    arrived = refl;
    hash = sym (streaming.update-nil sha.init);
    size = refl;
    place = inl (record {
      whole = [];
      fields = no_field;
      unread = tt;
      split = refl;
      closed = refl;
      ended = λ h. refl;
    });
  }

  Sent-Received : {c : Context H} {stream : List ℕ} → Sent sha c stream → Received sha c stream
  Sent-Received (begun content allow verbose) = begun-Received content allow verbose
  Sent-Received (fed {c} {stream = stream} buffer len before e) =
      (parse_tx-ReceivedStatus c stream buffer len (Sent-Received before) e).received
  Sent-Received (overwritten {c} taken memory before) =
      overwrite sha c memory taken (Sent-Received before)

  -- Between fields nothing is hashed but the whole fields.
  done-HashesFields :
      (c : Context H) (stream : List ℕ)
      → is_done c.state ≡ true
      → Received sha c stream
      → HashesFields sha c stream
  done-HashesFields c stream done r = elim r.place [
    | inl b ↦ record {
      consumed = b.whole;
      content = r.hashed;
      fields = b.fields;
      arrived =
          r.arrived
          ∙ ap (λ t. t ++ take c.command_length c.work_buffer)
              (b.split ∙ ap (λ t. b.whole ++ t) (b.ended done) ∙ append-nil b.whole);
      hash = r.hash;
    }
    | inr i ↦ absurd (cc (i.going, done))
  ]

  -- When a session of `parseTx` calls, with commands cut in any way and any bytes in them, comes to
  -- a finished stream, the bytes that the parser has consumed of what it got are whole
  -- fields, each an octet string's header and as many bytes as it says, and `sha256` has taken in
  -- the bytes of all the fields in order, once each, and no header and nothing else.
  pub parse_tx-HashesFields :
      {c d : Context H} {stream : List ℕ} (buffer : List ℕ) (len : ℕ)
      → Sent sha c stream
      → parse_tx sha c buffer len ≡ ok (stream_finished, d)
      → HashesFields sha d (stream ++ loaded c buffer len)
  parse_tx-HashesFields {c} {d} {stream} buffer len session e =
      let r = parse_tx-ReceivedStatus c stream buffer len (Sent-Received session) e in
      done-HashesFields d (stream ++ loaded c buffer len) (r.finished refl) r.received
