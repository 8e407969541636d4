-- ===== src/Framing/Arrive.antt =====
-- What `next_packet` makes of the next frame of a stream: a packet, or the reset of an empty frame.
use darkbio_wire_rs.Common.{
  ℕ, ◌≤◌, ◌≡◌, ap, ◌∙◌, none, some, Option, List, [], ◌∷◌, ◌++◌, map, length, length-take, arith,
}
use darkbio_wire_rs.Common.Slices.{slice?, front-slice?}
use darkbio_wire_rs.Error.{Outcome, ok}
use darkbio_wire_rs.Io.{Env}
use darkbio_wire_rs.Io.Laws.{Event, byte, MemchrLaws, Script, CobsLaws}
use darkbio_wire_rs.Framing.{Framing, next_packet}
use darkbio_wire_rs.Framing.Spec.{read_frame, read_frame-delimiter}
use darkbio_wire_rs.Framing.Inv.{IsValid, rest}
use darkbio_wire_rs.Framing.Read.{IsEnough}
use darkbio_wire_rs.Framing.Packet.{packet_of, next_packet-Takes}
use darkbio_wire_rs.Framing.Send.{packet_wire}
use darkbio_wire_rs.Framing.RoundTrip.{packet-IsFrame, next_packet-Yields}
use darkbio_wire_rs.Framing.Appends.{next_packet-SameWriter}

module _ {R W : Type 0} (env : Env R W) (cobs : CobsLaws env.cobs) (script : Script env.reader)
    (laws : MemchrLaws env.memchr) where
  -- The packet is in front of the decoding buffer.
  pub record Arrives (packet : List ℕ) (es : List Event) (before : Framing R W)
      (p : Outcome (Option ℕ) × Framing R W) : Type 0 where
    pub received : p.0 ≡ ok (some (length packet))
    pub bytes : slice? p.1.decobs_buffer 0 (length packet) ≡ some packet
    pub left_over : rest env script p.1 ≡ es
    pub valid : IsValid env.frame_limit p.1
    pub same_writer : p.1.writer ≡ before.writer

  pub next_packet-Arrives :
      (fuel : ℕ) (packet buf : List ℕ) (es : List Event) (st : Framing R W)
      → env.cobs.encode_buffer (length packet) ≤ env.frame_limit
      → env.cobs.encode_buffer (length packet) ≤ length buf
      → IsValid env.frame_limit st
      → IsEnough env script fuel (rest env script st)
      → rest env script st ≡ map byte (packet_wire env packet buf) ++ es
      → Arrives packet es st (next_packet env fuel st)
  next_packet-Arrives fuel packet buf es st fits coded v enough next =
      let frame = packet-IsFrame env cobs packet buf st.decobs_buffer fits coded v.decobs_sized in
      let y = next_packet-Yields env cobs script laws fuel packet buf st es frame v enough next in
      let out = (next_packet env fuel st).1.decobs_buffer in
      let size : length packet ≤ length out =
        omega (arith, ap length y.content, length-take (length packet) out) in
      record {
        received = y.received;
        bytes = front-slice? packet out y.content size;
        left_over = y.left_over;
        valid = y.valid;
        same_writer = (next_packet-SameWriter env fuel).moves st;
      }

  -- An empty frame.
  pub record Resets (es : List Event) (before : Framing R W) (p : Outcome (Option ℕ) × Framing R W)
      : Type 0 where
    pub received : p.0 ≡ ok none
    pub left_over : rest env script p.1 ≡ es
    pub valid : IsValid env.frame_limit p.1
    pub same_writer : p.1.writer ≡ before.writer

  pub next_packet-Resets :
      (fuel : ℕ) (es : List Event) (st : Framing R W)
      → IsValid env.frame_limit st
      → IsEnough env script fuel (rest env script st)
      → rest env script st ≡ byte 0 ∷ es
      → Resets es st (next_packet env fuel st)
  next_packet-Resets fuel es st v enough next =
      let takes = next_packet-Takes env script cobs laws fuel st v enough in
      let result =
        ap (read_frame env.frame_limit (some [])) next
        ∙ read_frame-delimiter env.frame_limit [] es in
      record {
        received =
            ap (λ q. q.0) takes.taken ∙ ap (λ r. (packet_of env r.0 st.decobs_buffer).0) result;
        left_over = takes.left_over ∙ ap (λ r. r.1) result;
        valid = takes.valid;
        same_writer = (next_packet-SameWriter env fuel).moves st;
      }
