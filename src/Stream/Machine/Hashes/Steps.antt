-- ===== src/Stream/Machine/Hashes/Steps.antt =====
-- What a handler and the loop over a header make of the place in the stream.
use ledger_app.Base.{
  ℕ, ◌+◌, ◌≡◌, ◌∙◌, ◌⊎◌, inl, inr, refl, ap, sym, false, List, [], ◌++◌, append_assoc, append-nil,
  arith, length, length-append, length-take, take,
}
use mathlib.Core.Path.{subst}
use ledger_app.Stream.Context.{Sha256, IsStreaming, Context, is_done}
use ledger_app.Stream.Handlers.Chunks.{Onward, HashesBytes}
use ledger_app.Stream.Frames.{IsHeader, IsOpen, Fields, next_field}
use ledger_app.Stream.Machine.{begin_field}
use ledger_app.Stream.Machine.Scans.{started, Scanned}
use ledger_app.Stream.Machine.Hashes.{Received, Between, Inside, consume}

module _ {H : Type 0} (sha : Sha256 H) (streaming : IsStreaming sha) where
  whole_part :
      (whole header part more : List ℕ)
      → (whole ++ (header ++ part)) ++ more ≡ whole ++ (header ++ (part ++ more))
  whole_part whole header part more =
      append_assoc whole (header ++ part) more
      ∙ ap (λ t. whole ++ t) (append_assoc header part more)

  -- Where a handler leaves the field.
  chunk_place :
      (c d : Context H) {consumed hashed : List ℕ} (i : Inside c consumed hashed)
      (k : HashesBytes sha c d)
      → Onward k.n c d
      → Between d (consumed ++ take k.n c.work_buffer) (hashed ++ take k.n c.work_buffer)
        ⊎ Inside d (consumed ++ take k.n c.work_buffer) (hashed ++ take k.n c.work_buffer)
  chunk_place c d {consumed} {hashed} i k on =
      let more = take k.n c.work_buffer in
      let size : length (i.part ++ more) ≡ c.current_field_pos + k.n =
        omega
          (arith, length-append i.part more, length-take k.n c.work_buffer, i.at, k.in_buffer) in
      let split : consumed ++ more ≡ i.whole ++ (i.header ++ (i.part ++ more)) =
        ap (λ t. t ++ more) i.split ∙ whole_part i.whole i.header i.part more in
      let hashes : hashed ++ more ≡ i.content ++ (i.part ++ more) =
        ap (λ t. t ++ more) i.hashes ∙ append_assoc i.content i.part more in
      let empty : started d ≡ [] = ap (λ n. take n d.tlv_buffer) (k.tlv ∙ i.fresh) in
      elim on [
        | inl (closed, at) ↦ inl (record {
          whole = i.whole ++ (i.header ++ (i.part ++ more));
          fields = subst (Fields _) (sym hashes) (
              next_field i.header (i.part ++ more) i.fields
                (subst (IsHeader i.header) (sym (size ∙ at)) i.announced));
          unread = subst IsOpen (sym empty) tt;
          split =
              let whole = i.whole ++ (i.header ++ (i.part ++ more)) in
              split ∙ sym (append-nil whole) ∙ ap (λ t. whole ++ t) (sym empty);
          closed = closed;
          ended = λ done. empty;
        })
        | inr (going, state, pos, len) ↦ inr (record {
          whole = i.whole;
          content = i.content;
          header = i.header;
          part = i.part ++ more;
          fields = i.fields;
          announced = subst (IsHeader i.header) (sym len) i.announced;
          at = size ∙ sym pos;
          split = split;
          hashes = hashes;
          fresh = k.tlv ∙ i.fresh;
          working = going ∙ i.working;
          going = ap is_done state ∙ i.going;
        })
      ]

  pub chunk-Received :
      (c d : Context H) (stream : List ℕ) (r : Received sha c stream)
      → Inside c r.consumed r.hashed
      → HashesBytes sha c d
      → Received sha d stream
  chunk-Received c d stream r i k = record {
    consumed = r.consumed ++ take k.n c.work_buffer;
    hashed = r.hashed ++ take k.n c.work_buffer;
    arrived =
        r.arrived
        ∙ consume r.consumed c.work_buffer d.work_buffer c.command_length d.command_length k.n
            k.in_command k.left k.work;
    hash =
        k.hash
        ∙ ap (λ h. sha.update h (take k.n c.work_buffer)) r.hash
        ∙ streaming.update-append sha.init r.hashed (take k.n c.work_buffer);
    size = ap length k.header ∙ r.size;
    place = chunk_place c d i k k.onward;
  }

  scan_split :
      (c d : Context H) {consumed hashed : List ℕ} (b : Between c consumed hashed) (s : Scanned c d)
      → consumed ++ take s.n c.work_buffer ≡ b.whole ++ started d
  scan_split c d b s =
      ap (λ t. t ++ take s.n c.work_buffer) b.split
      ∙ append_assoc b.whole (started c) (take s.n c.work_buffer)
      ∙ ap (λ t. b.whole ++ t) (sym s.header)

  scan_hash : (c d : Context H) (h : H) → Scanned c d → c.sha256 ≡ h → d.sha256 ≡ h
  scan_hash c d h s e = cc (s.same, e)

  -- A header that is still open.
  pub scan-Received :
      (c d : Context H) (stream : List ℕ) (r : Received sha c stream)
      → Between c r.consumed r.hashed
      → is_done c.state ≡ false
      → Scanned c d
      → IsOpen (started d)
      → Received sha d stream
  scan-Received c d stream r b going s unread = record {
    consumed = r.consumed ++ take s.n c.work_buffer;
    hashed = r.hashed;
    arrived =
        r.arrived
        ∙ consume r.consumed c.work_buffer d.work_buffer c.command_length d.command_length s.n
            s.in_command s.left s.work;
    hash = scan_hash c d _ s r.hash;
    size = s.size ∙ r.size;
    place = inl (record {
      whole = b.whole;
      fields = b.fields;
      unread = unread;
      split = scan_split c d b s;
      closed = cc (s.same, b.closed);
      ended = λ done. cc (s.same, going, done);
    });
  }

  -- A whole header: the context that goes to the handler of its field.
  pub begin_field-Received :
      (c d : Context H) (stream : List ℕ) (r : Received sha c stream)
      → Between c r.consumed r.hashed
      → is_done c.state ≡ false
      → Scanned c d
      → IsHeader (started d) d.current_field_length
      → (t : Received sha (begin_field d) stream) × Inside (begin_field d) t.consumed t.hashed
  unfolding begin_field
  begin_field-Received c d stream r b going s announced =
      let inside : Inside (begin_field d) (r.consumed ++ take s.n c.work_buffer) r.hashed = record {
        whole = b.whole;
        content = r.hashed;
        header = started d;
        part = [];
        fields = b.fields;
        announced = announced;
        at = refl;
        split = scan_split c d b s ∙ ap (λ t. b.whole ++ t) (sym (append-nil (started d)));
        hashes = sym (append-nil r.hashed);
        fresh = refl;
        working = refl;
        going = cc (s.same, going);
      } in
      (
        record {
          consumed = r.consumed ++ take s.n c.work_buffer;
          hashed = r.hashed;
          arrived =
              r.arrived
              ∙ consume r.consumed c.work_buffer d.work_buffer c.command_length d.command_length s.n
                  s.in_command s.left s.work;
          hash = scan_hash c d _ s r.hash;
          size = s.size ∙ r.size;
          place = inr inside;
        },
        inside,
      )
