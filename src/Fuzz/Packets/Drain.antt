-- ===== src/Fuzz/Packets/Drain.antt =====
-- The loop of next_packet.rs collects the packets of a stream.
use darkbio_wire_rs.Common.{
  ℕ, zero, suc, ◌≤◌, ◌<◌, ◌≡◌, refl, ap, ◌∙◌, some, List, [], ◌∷◌, ◌++◌, map, length, length-take,
  replicate, length-replicate, length-append, map-append, All, arith,
}
use darkbio_wire_rs.Common.Slices.{front-slice?}
use darkbio_wire_rs.Error.{ok, err, terminated}
use darkbio_wire_rs.Io.{Env}
use darkbio_wire_rs.Io.Laws.{Event, byte, MemchrLaws, Script, CobsLaws}
use darkbio_wire_rs.Framing.{Framing, next_packet, next_packet_blob, packet_blob}
use darkbio_wire_rs.Framing.Spec.{read_frame, read_frame-nil}
use darkbio_wire_rs.Framing.Inv.{IsValid, rest}
use darkbio_wire_rs.Framing.Read.{IsEnough, IsEnough-mono}
use darkbio_wire_rs.Framing.Packet.{packet_of, next_packet-Takes}
use darkbio_wire_rs.Framing.Send.{packet_wire}
use darkbio_wire_rs.Framing.RoundTrip.{Yields, packet-IsFrame, next_packet-Yields}
use darkbio_wire_rs.Fuzz.Packets.{after_call, drain_packets}

module _ {R W : Type 0} (env : Env R W) (cobs : CobsLaws env.cobs) (script : Script env.reader)
    (laws : MemchrLaws env.memchr) (fuel : ℕ) where
  -- The buffer that a packet is coded in.
  abbrev pub scratch : List ℕ → List ℕ
  scratch packet = replicate (env.cobs.encode_buffer (length packet)) 0

  -- The stream of some packets.
  abbrev pub wires : List (List ℕ) → List ℕ
  wires [] = []
  wires (p ∷ ps) = packet_wire env p (scratch p) ++ wires ps

  abbrev pub Fits : List ℕ → Type 0
  Fits p = env.cobs.encode_buffer (length p) ≤ env.frame_limit

  blob-ends :
      (st : Framing R W)
      → IsValid env.frame_limit st
      → IsEnough env script fuel (rest env script st)
      → rest env script st ≡ []
      → (next_packet_blob env fuel st).0 ≡ err terminated
  unfolding next_packet_blob
  blob-ends st v enough e =
      let takes = next_packet-Takes env script cobs laws fuel st v enough in
      let result =
        ap (read_frame env.frame_limit (some [])) e ∙ read_frame-nil env.frame_limit (some []) in
      let ends : (next_packet env fuel st).0 ≡ err terminated =
        (ap (λ q. q.0) takes.taken ∙ ap (λ r. (packet_of env r.0 st.decobs_buffer).0) result) in
      rw ends refl

  -- What a call that yields a packet returns, and the state that it leaves.
  blob-Yields :
      (packet : List ℕ) (es : List Event) (st : Framing R W)
      → Yields env cobs script laws packet es (next_packet env fuel st)
      → next_packet_blob env fuel st ≡ (ok (some packet), (next_packet env fuel st).1)
  unfolding next_packet_blob packet_blob
  blob-Yields packet es st y =
      let buf = (next_packet env fuel st).1.decobs_buffer in
      let size : length packet ≤ length buf =
        omega (arith, ap length y.content, length-take (length packet) buf) in
      rw (y.received, front-slice? packet buf y.content size)

  -- Reading a stream of packets that fit to its end gives exactly the packets, in order and
  -- unchanged, whatever the portions of the stream, and then stops at its end: no call fails,
  -- panics or runs out of fuel. Two passes for each byte of the stream are enough, and one call
  -- more than there are packets.
  pub drain_packets-wires :
      (ps : List (List ℕ)) (calls : ℕ) (st : Framing R W)
      → All Fits ps
      → length ps < calls
      → IsValid env.frame_limit st
      → IsEnough env script fuel (rest env script st)
      → rest env script st ≡ map byte (wires ps)
      → drain_packets env fuel calls st ≡ (ps, ok tt)
  unfolding drain_packets after_call
  drain_packets-wires ps zero st fits n v enough e = absurd (omega arith)
  drain_packets-wires [] (suc calls) st fits n v enough e = rw (blob-ends st v enough e) refl
  drain_packets-wires (p ∷ ps) (suc calls) st fits n v enough e =
      let wire = packet_wire env p (scratch p) in
      let es = map byte (wires ps) in
      let now : rest env script st ≡ map byte wire ++ es = e ∙ map-append byte wire (wires ps) in
      let frame =
        packet-IsFrame env cobs p (scratch p) st.decobs_buffer fits.0
          (omega (arith, length-replicate {A = ℕ} (env.cobs.encode_buffer (length p)) 0))
          v.decobs_sized in
      let y = next_packet-Yields env cobs script laws fuel p (scratch p) st es frame v enough now in
      let st' = (next_packet env fuel st).1 in
      let ih =
        drain_packets-wires ps calls st' fits.1 (omega arith) y.valid
          (IsEnough-mono env script fuel (rest env script st) (rest env script st')
            (rw (y.left_over, now) (omega (arith, length-append (map byte wire) es))) enough)
          y.left_over in
      rw (blob-Yields p es st y, ih)
