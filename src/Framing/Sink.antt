-- ===== src/Framing/Sink.antt =====
-- Packets that are written to a stream which takes everything.
use darkbio_wire_rs.Common.{ℕ, ◌≤◌, ◌≡◌, refl, ap, ◌∙◌, List, [], ◌∷◌, ◌++◌, length, subst, sym}
use darkbio_wire_rs.Error.{Outcome, ok}
use darkbio_wire_rs.Io.{Env}
use darkbio_wire_rs.Io.Laws.{Sink, Script, CobsLaws}
use darkbio_wire_rs.Framing.{Framing, write_flushed, send_reset, send_packet}
use darkbio_wire_rs.Framing.Inv.{IsValid, rest}
use darkbio_wire_rs.Framing.Send.{
  length-encoded_buffer, packet_wire, encoded_buffer, send_packet-writes,
}

module _ {R W : Type 0} (env : Env R W) (sink : Sink env.writer) where
  -- The bytes are behind what was written before, and the framer is valid.
  pub record Writes (bytes : List ℕ) (before : W) (p : Outcome (Unit {0}) × Framing R W)
      : Type 0 where
    pub done : p.0 ≡ ok tt
    pub written : sink.written p.1.writer ≡ sink.written before ++ bytes
    pub valid : IsValid env.frame_limit p.1

  pub write_flushed-Writes :
      (bytes : List ℕ) (st : Framing R W)
      → IsValid env.frame_limit st
      → Writes bytes st.writer (write_flushed env bytes st)
  unfolding write_flushed
  write_flushed-Writes bytes st v =
      let (taken, appended) = sink.takes st.writer bytes in
      let (flushed, kept) = sink.flushes (env.writer.write_all st.writer bytes).1 in
      record {
        done = rw (write_flushed, taken, flushed);
        written = rw (write_flushed, taken, flushed) (kept ∙ appended);
        valid =
            rw (write_flushed, taken, flushed)
              (record {
                offset_le = v.offset_le;
                search_le = v.search_le;
                filled_le = v.filled_le;
                sized = v.sized;
                searched = v.searched;
                decobs_sized = v.decobs_sized;
                encobs_sized = v.encobs_sized;
              });
      }

  pub send_reset-Writes :
      (st : Framing R W)
      → IsValid env.frame_limit st
      → Writes (0 ∷ 0 ∷ []) st.writer (send_reset env st)
  unfolding send_reset
  send_reset-Writes st v = write_flushed-Writes (0 ∷ 0 ∷ []) st v

  write_flushed-keeps_rest :
      (script : Script env.reader) (bytes : List ℕ) (st : Framing R W)
      → rest env script (write_flushed env bytes st).1 ≡ rest env script st
  unfolding write_flushed
  write_flushed-keeps_rest script bytes st =
      let (taken, appended) = sink.takes st.writer bytes in
      let (flushed, kept) = sink.flushes (env.writer.write_all st.writer bytes).1 in
      rw (write_flushed, taken, flushed) refl

  pub send_reset-keeps_rest :
      (script : Script env.reader) (st : Framing R W)
      → rest env script (send_reset env st).1 ≡ rest env script st
  unfolding send_reset
  send_reset-keeps_rest script st = write_flushed-keeps_rest script (0 ∷ 0 ∷ []) st

  module _ (cobs : CobsLaws env.cobs) where
    -- It leaves what is still to read alone.
    pub send_packet-keeps_rest :
        (script : Script env.reader) (packet : List ℕ) (st : Framing R W)
        → IsValid env.frame_limit st
        → env.cobs.encode_buffer (length packet) ≤ env.frame_limit
        → rest env script (send_packet env packet st).1 ≡ rest env script st
    send_packet-keeps_rest script packet st v h =
        ap (λ p. rest env script p.1) (send_packet-writes env cobs packet st v h)
        ∙ write_flushed-keeps_rest script (packet_wire env packet st.encobs_buffer)
            (record st { encobs_buffer = encoded_buffer env packet st.encobs_buffer })

    -- A packet whose frame fits is written behind what was written before.
    pub send_packet-Writes :
        (packet : List ℕ) (st : Framing R W)
        → IsValid env.frame_limit st
        → env.cobs.encode_buffer (length packet) ≤ env.frame_limit
        → Writes (packet_wire env packet st.encobs_buffer) st.writer (send_packet env packet st)
    send_packet-Writes packet st v h =
        subst (Writes (packet_wire env packet st.encobs_buffer) st.writer)
          (sym (send_packet-writes env cobs packet st v h))
          (write_flushed-Writes (packet_wire env packet st.encobs_buffer)
            (record st { encobs_buffer = encoded_buffer env packet st.encobs_buffer })
            (record {
              offset_le = v.offset_le;
              search_le = v.search_le;
              filled_le = v.filled_le;
              sized = v.sized;
              searched = v.searched;
              decobs_sized = v.decobs_sized;
              encobs_sized = length-encoded_buffer env cobs packet st v h;
            }))
