-- ===== src/Stream/Machine/Scans.antt =====
-- What the loop over a header's bytes reads.
use ledger_app.Base.{
  ℕ, zero, suc, ◌+◌, ◌-◌, ◌≤◌, ◌≡◌, ◌∙◌, refl, ap, sym, Bool, Bool-cases, inl, inr, List, [], ◌∷◌,
  ◌++◌, append_assoc, append-nil, arith, length, length-take, length-append, take, drop,
  take-append_all, read_at, write_bytes, write_bytes-splice, splice, ledger_assert, leb,
  stuck_not_ok, Outcome, ok, >>=-eq-ok, ok-injective, ◌==◌, if◌then◌else◌, then_of, else_of,
  take_more, drop_more, length-drop,
}
use mathlib.Core.Path.{subst}
use ledger_app.Utils.Tlv.{Header, invalid, incomplete, decoded, tlv_try_decode}
use ledger_app.Stream.Context.{Context, TxState}
use ledger_app.Stream.Frames.{IsHeader, IsOpen}
use ledger_app.Stream.Frames.Headers.{Says, tlv_try_decode-Says}
use ledger_app.Stream.Machine.{
  Decoding, faulty, starved, field_found, read_tx_byte, feed_tlv_byte, decode_loop,
}

module _ {H : Type 0} where
  -- The bytes of the header so far.
  abbrev pub started : Context H → List ℕ
  started c = take c.tlv_buffer_pos c.tlv_buffer

  abbrev pub others : Context H → H × Bool × TxState
  others c = (c.sha256, c.processing_field, c.state)

-- `n` bytes of the command went to the header, and nothing else was done.
pub record Scanned {H : Type 0} (c d : Context H) : Type 0 where
  pub n : ℕ
  pub in_command : n ≤ c.command_length
  pub in_buffer : n ≤ length c.work_buffer
  pub same : others d ≡ others c
  pub work : d.work_buffer ≡ drop n c.work_buffer
  pub left : d.command_length ≡ c.command_length - n
  pub header : started d ≡ started c ++ take n c.work_buffer
  pub size : length d.tlv_buffer ≡ length c.tlv_buffer

-- The byte that was fed.
record FedByte {H : Type 0} (c d : Context H) : Type 0 where
  byte : ℕ
  behind : List ℕ
  split : c.work_buffer ≡ byte ∷ behind
  some_left : 1 ≤ c.command_length
  room : c.tlv_buffer_pos + 1 ≤ length c.tlv_buffer
  same : others d ≡ others c
  work : d.work_buffer ≡ behind
  left : d.command_length ≡ c.command_length - 1
  pos : d.tlv_buffer_pos ≡ c.tlv_buffer_pos + 1
  buffer : d.tlv_buffer ≡ (started c ++ (byte ∷ [])) ++ drop (c.tlv_buffer_pos + 1) c.tlv_buffer

read_first : (bytes : List ℕ) {b : ℕ} → read_at bytes 0 ≡ ok b → bytes ≡ b ∷ drop 1 bytes
read_first [] e = cc
read_first (x ∷ bytes) e = cc (ok-injective e)

module _ {H : Type 0} where
  feed_tlv_byte-FedByte : (c d : Context H) → feed_tlv_byte c ≡ ok d → FedByte c d
  unfolding feed_tlv_byte read_tx_byte
  feed_tlv_byte-FedByte c d e =
      let ((byte, c'), read, rest) = >>=-eq-ok (read_tx_byte c) _ e in
      let (u, some_left, rest₁) = >>=-eq-ok (ledger_assert (leb 1 c.command_length)) _ read in
      let (b, first, got) = >>=-eq-ok (read_at c.work_buffer 0) _ rest₁ in
      let (buffer, wrote, end) =
        >>=-eq-ok (write_bytes c'.tlv_buffer_pos (byte ∷ []) c'.tlv_buffer) _ rest in
      let pair = ok-injective got in
      let done = ok-injective end in
      let array = write_bytes-splice c'.tlv_buffer_pos (byte ∷ []) c'.tlv_buffer wrote in
      let fits : c'.tlv_buffer_pos + 1 ≤ length c'.tlv_buffer = ground arith in
      let header : ◌≡◌ {A = ℕ × List ℕ} (c'.tlv_buffer_pos, c'.tlv_buffer)
          (c.tlv_buffer_pos, c.tlv_buffer) =
        cc pair in
      let value : b ≡ byte = cc pair in
      record {
        byte = byte;
        behind = drop 1 c.work_buffer;
        split = read_first c.work_buffer (first ∙ ap ok value);
        some_left = ground arith;
        room = subst (λ (h : ℕ × List ℕ). h.0 + 1 ≤ length (h.1)) header fits;
        same = cc (pair, done);
        work = cc (pair, done);
        left = cc (pair, done);
        pos = cc (pair, done);
        buffer =
            let stored : d.tlv_buffer ≡ buffer = cc done in
            stored
            ∙ sym array
            ∙ ap (λ (h : ℕ × List ℕ). splice (h.0) (byte ∷ []) (h.1)) header
            ∙ sym (append_assoc (started c) (byte ∷ []) (drop (c.tlv_buffer_pos + 1) c.tlv_buffer));
      }

  -- Scans one behind the other.
  both_scans : {c d x : Context H} → Scanned c d → Scanned d x → Scanned c x
  both_scans {c} {d} {x} a b = record {
    n = a.n + b.n;
    in_command = omega (arith, a.in_command, b.in_command, a.left);
    in_buffer =
        omega (arith, a.in_buffer, b.in_buffer, ap length a.work, length-drop a.n c.work_buffer);
    same = b.same ∙ a.same;
    work = b.work ∙ ap (drop b.n) a.work ∙ sym (drop_more (a.n + b.n) a.n b.n c.work_buffer refl);
    left = omega (arith, a.left, b.left);
    header =
        b.header
        ∙ ap (λ t. started d ++ take b.n t) a.work
        ∙ ap (λ t. t ++ take b.n (drop a.n c.work_buffer)) a.header
        ∙ append_assoc (started c) (take a.n c.work_buffer) (take b.n (drop a.n c.work_buffer))
        ∙ ap (λ t. started c ++ t) (sym (take_more (a.n + b.n) a.n b.n c.work_buffer refl));
    size = b.size ∙ a.size;
  }

  no_scan : (c : Context H) → Scanned c c
  no_scan c = record {
    n = 0;
    in_command = omega arith;
    in_buffer = omega arith;
    same = refl;
    work = refl;
    left = omega arith;
    header = sym (append-nil (started c));
    size = refl;
  }

  started_length : (c d : Context H) → FedByte c d → length (started c) ≡ c.tlv_buffer_pos
  started_length c d f = omega (arith, length-take c.tlv_buffer_pos c.tlv_buffer, f.room)

  fed_header : (c d : Context H) (f : FedByte c d) → started d ≡ started c ++ (f.byte ∷ [])
  fed_header c d f =
      ap (λ n. take n d.tlv_buffer) f.pos
      ∙ ap (take (c.tlv_buffer_pos + 1)) f.buffer
      ∙ take-append_all _ _ _
          (omega (arith, length-append (started c) (f.byte ∷ []), started_length c d f))

  FedByte-Scanned : (c d : Context H) → FedByte c d → Scanned c d
  FedByte-Scanned c d f = record {
    n = 1;
    in_command = f.some_left;
    in_buffer = omega (arith, ap length f.split);
    same = f.same;
    work = f.work ∙ ap (drop 1) (sym f.split);
    left = f.left;
    header = fed_header c d f ∙ ap (λ t. started c ++ take 1 t) (sym f.split);
    size =
        ap length f.buffer
        ∙ omega (
          arith,
          length-append (started c ++ (f.byte ∷ [])) (drop (c.tlv_buffer_pos + 1) c.tlv_buffer),
          length-append (started c) (f.byte ∷ []),
          length-drop (c.tlv_buffer_pos + 1) c.tlv_buffer,
          started_length c d f,
          f.room,
        );
  }

  -- What the decoder says of the header with the byte that was fed.
  fed_Says :
      (c d : Context H) (header : Header)
      → IsOpen (started c)
      → length c.tlv_buffer ≡ 5
      → FedByte c d
      → tlv_try_decode d.tlv_buffer d.tlv_buffer_pos ≡ ok header
      → Says (started d) header
  fed_Says c d header o size f e =
      let at = started_length c d f in
      subst (λ t. Says t header) (sym (fed_header c d f))
        (tlv_try_decode-Says (started c) f.byte (drop (c.tlv_buffer_pos + 1) c.tlv_buffer) header o
          (omega (arith, at, size, f.room))
          (ap (λ t. tlv_try_decode t (length (started c) + 1)) (sym f.buffer)
            ∙ ap (tlv_try_decode d.tlv_buffer) (omega (arith, at, f.pos))
            ∙ e))

  -- How the loop leaves the header: open, or whole with the length of its field.
  abbrev pub ScannedTo : Context H → Decoding H → Type 0
  ScannedTo c (faulty d) = Scanned c d × IsOpen (started d)
  ScannedTo c (starved d) = Scanned c d × IsOpen (started d)
  ScannedTo c (field_found d) = Scanned c d × IsHeader (started d) d.current_field_length

  further : (c d : Context H) (x : Decoding H) → Scanned c d → ScannedTo d x → ScannedTo c x
  further c d (faulty t) a b = (both_scans a b.0, b.1)
  further c d (starved t) a b = (both_scans a b.0, b.1)
  further c d (field_found t) a b = (both_scans a b.0, b.1)

  found_Scanned :
      (c d : Context H) (n : ℕ) → Scanned c d → Scanned c (record d { current_field_length = n })
  found_Scanned c d n a = record {
    n = a.n;
    in_command = a.in_command;
    in_buffer = a.in_buffer;
    same = a.same;
    work = a.work;
    left = a.left;
    header = a.header;
    size = a.size;
  }

  pub decode_loop-ScannedTo :
      (fuel : ℕ) (c : Context H) (x : Decoding H)
      → IsOpen (started c)
      → length c.tlv_buffer ≡ 5
      → decode_loop fuel c ≡ ok x
      → ScannedTo c x
  unfolding decode_loop
  decode_loop-ScannedTo zero c x o size e = absurd (stuck_not_ok e)
  decode_loop-ScannedTo (suc fuel) c x o size e = elim (Bool-cases (c.command_length == 0)) [
    | inl empty ↦ subst (ScannedTo c) (ok-injective (then_of _ _ _ empty e)) (no_scan c, o)
    | inr bytes ↦
        let (d, fed, rest) = >>=-eq-ok (feed_tlv_byte c) _ (else_of _ _ _ bytes e) in
        let (header, tried, end) =
          >>=-eq-ok (tlv_try_decode d.tlv_buffer d.tlv_buffer_pos) _ rest in
        let f = feed_tlv_byte-FedByte c d fed in
        after d f header (fed_Says c d header o size f tried)
          (λ unread h.
            decode_loop-ScannedTo fuel d x unread ((FedByte-Scanned c d f).size ∙ size) h)
          end
  ]
    where
      after :
          (d : Context H)
          → FedByte c d
          → (header : Header) → Says (started d) header
          → (IsOpen (started d) → decode_loop fuel d ≡ ok x → ScannedTo d x)
          → ◌≡◌ {A = Outcome (Decoding H)}
              (elim header [
                | invalid ↦ ok (faulty d)
                | decoded n ↦ ok (field_found (record d { current_field_length = n }))
                | incomplete ↦
                    let rest = decode_loop fuel d in
                    if d.tlv_buffer_pos == 5 then ok (faulty d) else rest
              ])
              (ok x)
          → ScannedTo c x
      after d f invalid says ih e' =
          subst (ScannedTo c) (ok-injective e') (FedByte-Scanned c d f, says)
      after d f (decoded n) says ih e' =
          subst (ScannedTo c) (ok-injective e') (found_Scanned c d n (FedByte-Scanned c d f), says)
      after d f incomplete says ih e' = elim (Bool-cases (d.tlv_buffer_pos == 5)) [
        | inl full ↦
            subst (ScannedTo c) (ok-injective (then_of _ _ _ full e')) (FedByte-Scanned c d f, says)
        | inr room ↦ further c d x (FedByte-Scanned c d f) (ih says (else_of _ _ _ room e'))
      ]
