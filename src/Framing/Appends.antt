-- ===== src/Framing/Appends.antt =====
-- To a stream that takes everything, the framer only ever appends.
use darkbio_wire_rs.Common.{
  ℕ, ◌+◌, ◌≡◌, refl, ap, sym, ◌∙◌, List, [], ◌∷◌, ◌++◌, length, take, append-nil, append_assoc, ltb,
  ◌==◌, Bool-cases, inl, inr, none, some, arith,
}
use darkbio_wire_rs.Common.Slices.{slice?, write_at}
use darkbio_wire_rs.Error.{frame_encoding_failed}
use darkbio_wire_rs.Error.Moves.{
  IsOrder, Moves, then-Moves, pure-Moves, or_fail-Moves, or_panic-keeps, if-Moves,
}
use darkbio_wire_rs.Io.{Env}
use darkbio_wire_rs.Io.Laws.{Sink}
use darkbio_wire_rs.Framing.{
  Framing, Range, write_flushed, send_reset, send_frame, send_packet, decode_frame, frame_blob,
  decode_range, next_packet, limit,
}
use darkbio_wire_rs.Framing.Keeps.{next_frame-keeps}

-- One list of bytes continues another.
abbrev pub Continues : List ℕ → List ℕ → Type 0
Continues before after = (more : List ℕ) × (after ≡ before ++ more)

pub Continues-refl : (xs : List ℕ) → Continues xs xs
Continues-refl xs = ([], sym (append-nil xs))

pub Continues-trans : (xs ys zs : List ℕ) → Continues xs ys → Continues ys zs → Continues xs zs
Continues-trans xs ys zs p q = (p.0 ++ q.0, q.1 ∙ ap (λ l. l ++ q.0) p.1 ∙ append_assoc xs p.0 q.0)

module _ {R W : Type 0} where
  abbrev SameWriter : Framing R W → Framing R W → Type 0
  SameWriter st st' = st'.writer ≡ st.writer

  SameWriter-IsOrder : IsOrder SameWriter
  SameWriter-IsOrder = record { same = λ s. refl; chain = λ s t u p q. q ∙ p }

module _ {R W : Type 0} (env : Env R W) where
  decode_frame-Moves : (frame : List ℕ) → Moves SameWriter (decode_frame env frame)
  unfolding decode_frame
  decode_frame-Moves frame = record { moves = λ st. ground arith }

  frame_blob-Moves : (frame : Range) → Moves SameWriter (frame_blob env frame)
  unfolding frame_blob
  frame_blob-Moves frame = record {
    moves =
        λ st. or_panic-keeps SameWriter-IsOrder (slice? st.reader_buffer frame.start frame.end) st;
  }

  decode_range-Moves : (frame : Range) → Moves SameWriter (decode_range env frame)
  unfolding decode_range
  decode_range-Moves frame =
      if-Moves (frame.start == frame.end) (pure-Moves SameWriter-IsOrder none) (
        then-Moves SameWriter-IsOrder (frame_blob-Moves frame) (λ bytes.
          then-Moves SameWriter-IsOrder (decode_frame-Moves bytes)
            (λ size. pure-Moves SameWriter-IsOrder (some size))))

  -- Reading a packet leaves the writer alone, however it ends.
  pub next_packet-SameWriter : (fuel : ℕ) → Moves SameWriter (next_packet env fuel)
  unfolding next_packet
  next_packet-SameWriter fuel =
      then-Moves SameWriter-IsOrder
        (record { moves = λ st. ap (λ o. o.0) (next_frame-keeps env fuel st) }) decode_range-Moves

  module _ (sink : Sink env.writer) where
    abbrev pub written : Framing R W → List ℕ
    written st = sink.written st.writer

    abbrev pub Appends : Framing R W → Framing R W → Type 0
    Appends st st' = Continues (written st) (written st')

    pub Appends-IsOrder : IsOrder Appends
    Appends-IsOrder = record {
      same = λ st. Continues-refl (written st);
      chain = λ s t u. Continues-trans (written s) (written t) (written u);
    }

    pub next_packet-Appends : (fuel : ℕ) → Moves Appends (next_packet env fuel)
    next_packet-Appends fuel = record {
      moves = λ st. (
        [],
        ap sink.written ((next_packet-SameWriter fuel).moves st) ∙ sym (append-nil (written st)),
      );
    }

    write_flushed-appends :
        (bytes : List ℕ) (st : Framing R W)
        → written (write_flushed env bytes st).1 ≡ written st ++ bytes
    unfolding write_flushed
    write_flushed-appends bytes st =
        let (taken, appended) = sink.takes st.writer bytes in
        let (flushed, kept) = sink.flushes (env.writer.write_all st.writer bytes).1 in
        rw (write_flushed, taken, flushed) (kept ∙ appended)

    pub send_reset-Appends : Moves Appends (send_reset env)
    unfolding send_reset
    send_reset-Appends = record {
      moves = λ st. (0 ∷ 0 ∷ [], write_flushed-appends (0 ∷ 0 ∷ []) st);
    }

    send_frame-Appends : (size : ℕ) → Moves Appends (send_frame env size)
    unfolding send_frame
    send_frame-Appends size = record {
      moves = λ st.
          let buf = write_at st.encobs_buffer size (0 ∷ []) in
          let bytes = take (size + 1) buf in
          elim (Bool-cases (ltb size (length st.encobs_buffer))) [
            | inl e ↦ rw e (bytes, write_flushed-appends bytes (record st { encobs_buffer = buf }))
            | inr e ↦ rw e (Continues-refl (written st))
          ];
    }

    -- Sending a packet appends to what was written, however it ends.
    pub send_packet-Appends : (packet : List ℕ) → Moves Appends (send_packet env packet)
    unfolding send_packet
    send_packet-Appends packet = record {
      moves = λ st.
          let coded = env.cobs.encode packet st.encobs_buffer in
          elim (Bool-cases (ltb (limit env) (env.cobs.encode_buffer (length packet)))) [
            | inl e ↦ rw e (Continues-refl (written st))
            | inr e ↦ rw e (
                (then-Moves Appends-IsOrder
                    (or_fail-Moves Appends-IsOrder frame_encoding_failed coded.0)
                    send_frame-Appends).moves
                  (record st { encobs_buffer = coded.1 }))
          ];
    }
