-- ===== src/Exchange/Travel.antt =====
-- A packet on its way from one framer to another.
use darkbio_wire_rs.Common.{
  ℕ, ◌≤◌, ◌≡◌, ap, sym, ◌∙◌, some, List, [], ◌∷◌, ◌++◌, map, length, length-take, arith, map-append,
  append_assoc,
}
use darkbio_wire_rs.Common.Slices.{slice?, front-slice?}
use darkbio_wire_rs.Error.{ok}
use darkbio_wire_rs.Io.{Env}
use darkbio_wire_rs.Io.Laws.{Event, byte, MemchrLaws, Script, CobsLaws, Sink}
use darkbio_wire_rs.Framing.{Framing, send_packet, next_packet}
use darkbio_wire_rs.Framing.Appends.{Continues}
use darkbio_wire_rs.Framing.Inv.{IsValid, rest}
use darkbio_wire_rs.Framing.Read.{IsEnough}
use darkbio_wire_rs.Framing.Send.{packet_wire}
use darkbio_wire_rs.Framing.Sink.{send_packet-Writes}
use darkbio_wire_rs.Framing.RoundTrip.{send_packet-next_packet}

pub append_cancel : {A : Type 0} (xs ys zs : List A) → xs ++ ys ≡ xs ++ zs → ys ≡ zs
append_cancel [] ys zs e = e
append_cancel (x ∷ xs) ys zs e = append_cancel xs ys zs cc

-- Bytes in two parts, in front of a stream.
pub split_bytes :
    (xs ys : List ℕ) (es : List Event)
    → map byte (xs ++ ys) ++ es ≡ map byte xs ++ (map byte ys ++ es)
split_bytes xs ys es =
    ap (λ l. l ++ es) (map-append byte xs ys) ∙ append_assoc (map byte xs) (map byte ys) es

-- The bytes of a side in two parts: those of its first call, and those of the others.
pub split_wrote :
    (before first last bytes : List ℕ) (p : Continues before first) (q : Continues first last)
    → last ≡ before ++ bytes
    → bytes ≡ p.0 ++ q.0
split_wrote before first last bytes p q e =
    append_cancel before bytes (p.0 ++ q.0)
      (sym e ∙ (q.1 ∙ ap (λ l. l ++ q.0) p.1 ∙ append_assoc before p.0 q.0))

module _ {R W : Type 0} (env : Env R W) (cobs : CobsLaws env.cobs) (script : Script env.reader)
    (laws : MemchrLaws env.memchr) (sink : Sink env.writer) where
  -- The packet is written, read back, and lies in front of the reader's buffer.
  pub record Travels (packet : List ℕ) (es : List Event) (fuel : ℕ) (from to : Framing R W)
      : Type 0 where
    pub sent : (send_packet env packet from).0 ≡ ok tt
    pub sent_valid : IsValid env.frame_limit (send_packet env packet from).1
    pub received : (next_packet env fuel to).0 ≡ ok (some (length packet))
    pub bytes : slice? (next_packet env fuel to).1.decobs_buffer 0 (length packet) ≡ some packet
    pub left_over : rest env script (next_packet env fuel to).1 ≡ es
    pub received_valid : IsValid env.frame_limit (next_packet env fuel to).1

  pub send_packet-Travels :
      (fuel : ℕ) (packet bytes : List ℕ) (es : List Event) (from to : Framing R W)
      → env.cobs.encode_buffer (length packet) ≤ env.frame_limit
      → IsValid env.frame_limit from
      → IsValid env.frame_limit to
      → sink.written (send_packet env packet from).1.writer ≡ sink.written from.writer ++ bytes
      → IsEnough env script fuel (rest env script to)
      → rest env script to ≡ map byte bytes ++ es
      → Travels packet es fuel from to
  send_packet-Travels fuel packet bytes es from to fits v w written enough next =
      let sent = send_packet-Writes env sink cobs packet from v fits in
      let same : bytes ≡ packet_wire env packet from.encobs_buffer =
        append_cancel (sink.written from.writer) bytes (packet_wire env packet from.encobs_buffer)
          (sym written ∙ sent.written) in
      let yields =
        (send_packet-next_packet env cobs script laws fuel packet from to es fits v w enough
          (next ∙ ap (λ bs. map byte bs ++ es) same)).1 in
      let buf = (next_packet env fuel to).1.decobs_buffer in
      let size : length packet ≤ length buf =
        omega (arith, ap length yields.content, length-take (length packet) buf) in
      record {
        sent = sent.done;
        sent_valid = sent.valid;
        received = yields.received;
        bytes = front-slice? packet buf yields.content size;
        left_over = yields.left_over;
        received_valid = yields.valid;
      }
