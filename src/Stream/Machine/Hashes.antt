-- ===== src/Stream/Machine/Hashes.antt =====
-- Where the parser stands in the stream that the host sends, and what it has hashed of it.
pub mod Steps
pub mod Rounds
pub mod Sent
use ledger_app.Base.{
  ℕ, ◌+◌, ◌-◌, ◌≤◌, ◌≡◌, ◌∙◌, ◌⊎◌, inl, inr, refl, ap, sym, Bool, true, false, List, [], ◌∷◌, ◌++◌,
  append_assoc, append-nil, arith, length, length-append, length-take, take, drop, take_more,
}
use mathlib.Core.Path.{subst}
use mathlib.Core.List.{append_cancel_right}
use ledger_app.Stream.Context.{Sha256, IsStreaming, Context, TxState, is_done}
use ledger_app.Stream.Handlers.Chunks.{Onward, HashesBytes}
use ledger_app.Stream.Frames.{IsHeader, IsOpen, Fields, no_field, next_field}
use ledger_app.Stream.Machine.{begin_field}
use ledger_app.Stream.Machine.Scans.{started, others, Scanned}

-- Behind `whole` fields, with the start of a header.
pub record Between {H : Type 0} (c : Context H) (consumed hashed : List ℕ) : Type 0 where
  pub whole : List ℕ
  pub fields : Fields whole hashed
  pub unread : IsOpen (started c)
  pub split : consumed ≡ whole ++ started c
  pub closed : c.processing_field ≡ false
  pub ended : is_done c.state ≡ true → started c ≡ []

-- Behind `whole` fields, the next header and `part` of its field.
pub record Inside {H : Type 0} (c : Context H) (consumed hashed : List ℕ) : Type 0 where
  pub whole : List ℕ
  pub content : List ℕ
  pub header : List ℕ
  pub part : List ℕ
  pub fields : Fields whole content
  pub announced : IsHeader header c.current_field_length
  pub at : length part ≡ c.current_field_pos
  pub split : consumed ≡ whole ++ (header ++ part)
  pub hashes : hashed ≡ content ++ part
  pub fresh : c.tlv_buffer_pos ≡ 0
  pub working : c.processing_field ≡ true
  pub going : is_done c.state ≡ false

-- The stream is what the parser has consumed and what is left of the command.
pub record Received {H : Type 0} (sha : Sha256 H) (c : Context H) (stream : List ℕ) : Type 0 where
  pub consumed : List ℕ
  pub hashed : List ℕ
  pub arrived : stream ≡ consumed ++ take c.command_length c.work_buffer
  pub hash : c.sha256 ≡ sha.update sha.init hashed
  pub size : length c.tlv_buffer ≡ 5
  pub place : Between c consumed hashed ⊎ Inside c consumed hashed

-- The bytes that the parser has consumed are whole fields, and it has hashed the bytes of the
-- fields in order, all of them and nothing else.
pub record HashesFields {H : Type 0} (sha : Sha256 H) (c : Context H) (stream : List ℕ)
    : Type 0 where
  pub consumed : List ℕ
  pub content : List ℕ
  pub fields : Fields consumed content
  pub arrived : stream ≡ consumed ++ take c.command_length c.work_buffer
  pub hash : c.sha256 ≡ sha.update sha.init content

-- `n` bytes of the command go to what is consumed.
pub consume :
    (consumed buffer rest : List ℕ) (len len' n : ℕ)
    → n ≤ len
    → len' ≡ len - n
    → rest ≡ drop n buffer
    → consumed ++ take len buffer ≡ (consumed ++ take n buffer) ++ take len' rest
consume consumed buffer rest len len' n fits left work =
    ap (λ t. consumed ++ t) (take_more len n len' buffer (omega arith))
    ∙ sym (append_assoc consumed (take n buffer) (take len' (drop n buffer)))
    ∙ ap (λ t. (consumed ++ take n buffer) ++ take len' t) (sym work)

module _ {H : Type 0} where
  -- All that the place depends on.
  abbrev standing : Context H → TxState × Bool × ℕ × ℕ × ℕ × List ℕ
  standing c = (
    c.state, c.processing_field, c.current_field_pos, c.current_field_length, c.tlv_buffer_pos,
    c.tlv_buffer,
  )

  carry :
      (c d : Context H) {consumed hashed : List ℕ}
      → standing d ≡ standing c
      → Between c consumed hashed ⊎ Inside c consumed hashed
      → Between d consumed hashed ⊎ Inside d consumed hashed
  carry c d e (inl b) =
      let same : started d ≡ started c = cc e in
      inl (record {
        whole = b.whole;
        fields = b.fields;
        unread = subst IsOpen (sym same) b.unread;
        split = b.split ∙ ap (λ t. b.whole ++ t) (sym same);
        closed = cc (e, b.closed);
        ended = λ done. same ∙ b.ended (cc (e, done));
      })
  carry c d e (inr i) =
      let len : d.current_field_length ≡ c.current_field_length = cc e in
      inr (record {
        whole = i.whole;
        content = i.content;
        header = i.header;
        part = i.part;
        fields = i.fields;
        announced = subst (IsHeader i.header) (sym len) i.announced;
        at = cc (e, i.at);
        split = i.split;
        hashes = i.hashes;
        fresh = cc (e, i.fresh);
        working = cc (e, i.working);
        going = cc (e, i.going);
      })

module _ {H : Type 0} (sha : Sha256 H) where
  -- The flags that the parser returns a status for do not count.
  pub set_flags :
      (c : Context H) (ready confirm : Bool) (stream : List ℕ)
      → Received sha c stream
      → Received sha (record c { action_ready = ready; confirm_processing = confirm }) stream
  set_flags c ready confirm stream r = record {
    consumed = r.consumed;
    hashed = r.hashed;
    arrived = r.arrived;
    hash = r.hash;
    size = r.size;
    place = carry c _ refl r.place;
  }

  -- Other bytes where some are left of the command.
  pub overwrite :
      (c : Context H) (memory taken : List ℕ)
      → Received sha c (taken ++ take c.command_length c.work_buffer)
      → Received sha (record c { work_buffer = memory }) (taken ++ take c.command_length memory)
  overwrite c memory taken r =
      let same : taken ≡ r.consumed =
        append_cancel_right taken r.consumed (take c.command_length c.work_buffer) r.arrived in
      record {
        consumed = r.consumed;
        hashed = r.hashed;
        arrived = ap (λ t. t ++ take c.command_length memory) same;
        hash = r.hash;
        size = r.size;
        place = carry c _ refl r.place;
      }

  -- A command that the parser gets behind the one that it has used up.
  pub load_command :
      (c : Context H) (buffer : List ℕ) (len : ℕ) (stream : List ℕ)
      → c.command_length ≡ 0
      → Received sha c stream
      → Received sha
          (record c { work_buffer = buffer; command_length = len })
          (stream ++ take len buffer)
  load_command c buffer len stream empty r = record {
    consumed = r.consumed;
    hashed = r.hashed;
    arrived =
        ap (λ t. t ++ take len buffer)
          (r.arrived ∙ ap (λ n. r.consumed ++ take n c.work_buffer) empty ∙ append-nil r.consumed);
    hash = r.hash;
    size = r.size;
    place = carry c _ refl r.place;
  }
