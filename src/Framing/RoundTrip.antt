-- ===== src/Framing/RoundTrip.antt =====
-- A packet that was sent is read back by the peer.
use darkbio_wire_rs.Common.{
  ℕ, ◌≤◌, ◌<◌, ◌≡◌, refl, subst, ap, ◌∙◌, some, Option, List, [], ◌∷◌, ◌++◌, map, length, take,
  length-take, append_assoc, map-append, arith,
}
use darkbio_wire_rs.Error.{value, Outcome, ok}
use darkbio_wire_rs.Io.{Env}
use darkbio_wire_rs.Io.Laws.{Event, byte, NoZero, MemchrLaws, Script, CobsLaws}
use darkbio_wire_rs.Framing.{Framing, write_flushed, send_packet, next_packet}
use darkbio_wire_rs.Framing.Spec.{read_frame, read_frame-collects, read_frame-delimiter}
use darkbio_wire_rs.Framing.Inv.{IsValid, rest}
use darkbio_wire_rs.Framing.Read.{IsEnough}
use darkbio_wire_rs.Framing.Packet.{decoded, packet_of, Takes, next_packet-Takes}
use darkbio_wire_rs.Framing.Send.{packet_frame, packet_wire, encoded_buffer, send_packet-writes}

module _ {R W : Type 0} (env : Env R W) (cobs : CobsLaws env.cobs) where
  -- The frame of a packet that fits: not empty, without a zero, and decoded to the packet.
  pub record IsFrame (packet buf out : List ℕ) : Type 0 where
    pub pos : 0 < length (packet_frame env packet buf)
    pub fits : length (packet_frame env packet buf) ≤ env.frame_limit
    pub clean : NoZero (packet_frame env packet buf)
    pub size : (env.cobs.decode_nonzero (packet_frame env packet buf) out).0 ≡ value (length packet)
    pub content :
        take (length packet) (env.cobs.decode_nonzero (packet_frame env packet buf) out).1 ≡ packet

  pub packet-IsFrame :
      (packet buf out : List ℕ)
      → env.cobs.encode_buffer (length packet) ≤ env.frame_limit
      → env.cobs.encode_buffer (length packet) ≤ length buf
      → length out ≡ env.frame_limit
      → IsFrame packet buf out
  packet-IsFrame packet buf out h b o =
      let (n, e, pos, fits, z) = cobs.encodes packet buf (omega arith) in
      let (size, content) =
        cobs.decodes packet buf out n e (omega (arith, cobs.grows (length packet))) in
      let m : length (take n (env.cobs.encode packet buf).1) ≡ n =
        (omega
          (arith, length-take n (env.cobs.encode packet buf).1, cobs.length_encoded packet buf)) in
      record {
        pos = rw e (omega (arith, m, pos));
        fits = rw e (omega (arith, m));
        clean = rw e z;
        size = rw e size;
        content = rw e content;
      }

  packet_of_nonempty :
      (f buf : List ℕ)
      → 0 < length f
      → packet_of env (ok f) buf
        ≡ (decoded (env.cobs.decode_nonzero f buf).0, (env.cobs.decode_nonzero f buf).1)
  packet_of_nonempty [] buf h = absurd (omega arith)
  packet_of_nonempty (b ∷ f) buf h = refl

  module _ (script : Script env.reader) (laws : MemchrLaws env.memchr) where
    read_frame-wire :
        (packet buf out : List ℕ) (es : List Event)
        → IsFrame packet buf out
        → read_frame env.frame_limit (some []) (map byte (packet_wire env packet buf) ++ es)
          ≡ (ok (packet_frame env packet buf), es)
    read_frame-wire packet buf out es h =
        let frame = packet_frame env packet buf in
        ap (read_frame env.frame_limit (some []))
          (rw (map-append byte frame (0 ∷ []), append_assoc (map byte frame) (byte 0 ∷ []) es) refl)
        ∙ read_frame-collects env.frame_limit frame [] (byte 0 ∷ es) h.clean (omega (arith, h.fits))
        ∙ read_frame-delimiter env.frame_limit frame es

    -- What a call of `next_packet` yields: a packet, in front of the decoding buffer.
    pub record Yields (packet : List ℕ) (es : List Event) (p : Outcome (Option ℕ) × Framing R W)
        : Type 0 where
      pub received : p.0 ≡ ok (some (length packet))
      pub content : take (length packet) p.1.decobs_buffer ≡ packet
      pub left_over : rest env script p.1 ≡ es
      pub valid : IsValid env.frame_limit p.1

    Takes-Yields :
        (packet buf out : List ℕ) (writer : W) (es : List Event)
        (p : Outcome (Option ℕ) × Framing R W)
        → IsFrame packet buf out
        → Takes env script cobs out writer (ok (packet_frame env packet buf), es) p
        → Yields packet es p
    Takes-Yields packet buf out writer es p h t =
        let e : (p.0, p.1.decobs_buffer) ≡ (
          decoded (env.cobs.decode_nonzero (packet_frame env packet buf) out).0,
          (env.cobs.decode_nonzero (packet_frame env packet buf) out).1,
        ) =
          (t.taken ∙ packet_of_nonempty (packet_frame env packet buf) out h.pos) in
        record {
          received = ap (λ q. q.0) e ∙ ap decoded h.size;
          content = ap (λ q. take (length packet) q.1) e ∙ h.content;
          left_over = t.left_over;
          valid = t.valid;
        }

    -- A frame of a packet, next in the stream, is read as that packet.
    pub next_packet-Yields :
        (fuel : ℕ) (packet buf : List ℕ) (to : Framing R W) (es : List Event)
        → IsFrame packet buf to.decobs_buffer
        → IsValid env.frame_limit to
        → IsEnough env script fuel (rest env script to)
        → rest env script to ≡ map byte (packet_wire env packet buf) ++ es
        → Yields packet es (next_packet env fuel to)
    next_packet-Yields fuel packet buf to es frame w enough e =
        Takes-Yields packet buf to.decobs_buffer to.writer es (next_packet env fuel to) frame (
          subst (λ t. Takes env script cobs to.decobs_buffer to.writer t (next_packet env fuel to))
            (ap (read_frame env.frame_limit (some [])) e
              ∙ read_frame-wire packet buf to.decobs_buffer es frame)
            (next_packet-Takes env script cobs laws fuel to w enough))

    -- A packet whose frame fits is written by one call of `write_all` and `flush`; and a framer in
    -- whose stream the bytes of that call come next reads it back: its size, and its bytes at the
    -- front of `decobs_buffer`, with the stream behind it left over and the state valid. The two
    -- framers are any two valid ones, and the stream comes in any portions.
    pub send_packet-next_packet :
        (fuel : ℕ) (packet : List ℕ) (from to : Framing R W) (es : List Event)
        → env.cobs.encode_buffer (length packet) ≤ env.frame_limit
        → IsValid env.frame_limit from
        → IsValid env.frame_limit to
        → IsEnough env script fuel (rest env script to)
        → rest env script to ≡ map byte (packet_wire env packet from.encobs_buffer) ++ es
        → (send_packet env packet from
            ≡ write_flushed env
                (packet_wire env packet from.encobs_buffer)
                (record from { encobs_buffer = encoded_buffer env packet from.encobs_buffer }))
          × Yields packet es (next_packet env fuel to)
    send_packet-next_packet fuel packet from to es h v w enough e =
        let frame =
          packet-IsFrame packet from.encobs_buffer to.decobs_buffer h
            (omega (arith, v.encobs_sized)) w.decobs_sized in
        (
          send_packet-writes env cobs packet from v h,
          next_packet-Yields fuel packet from.encobs_buffer to es frame w enough e,
        )
