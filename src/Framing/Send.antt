-- ===== src/Framing/Send.antt =====
-- `send_packet` and `send_frame`: what is written, and that the peer reads it back.
use darkbio_wire_rs.Common.{
  ◌∙◌, ℕ, ◌+◌, ◌≤◌, ◌<◌, ◌≡◌, refl, List, [], ◌∷◌, ◌++◌, length, take, String, arith, lt→ltb,
  le→ltb,
}
use darkbio_wire_rs.Common.Slices.{length-write_at, write_at, take-write_at}
use darkbio_wire_rs.Error.{Result, value, error, frame_too_large, err}
use darkbio_wire_rs.Io.{Env}
use darkbio_wire_rs.Io.Laws.{CobsLaws}
use darkbio_wire_rs.Framing.{Framing, write_flushed, send_frame, send_packet}
use darkbio_wire_rs.Framing.Inv.{IsValid}

-- The size that the coder returned.
abbrev size_or_zero : Result String ℕ → ℕ
size_or_zero (value n) = n
size_or_zero (error e) = 0

module _ {R W : Type 0} (env : Env R W) where
  -- The frame of a packet, coded in a buffer.
  abbrev pub packet_frame : List ℕ → List ℕ → List ℕ
  packet_frame packet buf =
      take (size_or_zero (env.cobs.encode packet buf).0) (env.cobs.encode packet buf).1

  -- What is written of a packet: its frame and a delimiter.
  abbrev pub packet_wire : List ℕ → List ℕ → List ℕ
  packet_wire packet buf = packet_frame packet buf ++ (0 ∷ [])

  -- The buffer behind it.
  abbrev pub encoded_buffer : List ℕ → List ℕ → List ℕ
  encoded_buffer packet buf =
      write_at (env.cobs.encode packet buf).1 (size_or_zero (env.cobs.encode packet buf).0) (0 ∷ [])

  -- `send_frame` writes the first bytes of the buffer and a delimiter, in one call.
  send_frame-writes :
      (size : ℕ) (st : Framing R W)
      → size < length st.encobs_buffer
      → send_frame env size st
        ≡ write_flushed env
            (take size st.encobs_buffer ++ (0 ∷ []))
            (record st { encobs_buffer = write_at st.encobs_buffer size (0 ∷ []) })
  unfolding send_frame
  send_frame-writes size st h = rw (
    lt→ltb size (length st.encobs_buffer) h,
    take-write_at st.encobs_buffer size (size + 1) (0 ∷ []) (omega arith) refl,
  )

  -- A packet whose frame would exceed the limit is refused, and nothing is changed or written.
  pub send_packet-refuses :
      (packet : List ℕ) (st : Framing R W)
      → env.frame_limit < env.cobs.encode_buffer (length packet)
      → send_packet env packet st
        ≡ (err (frame_too_large (env.cobs.encode_buffer (length packet))), st)
  unfolding send_packet
  send_packet-refuses packet st h =
      rw (lt→ltb env.frame_limit (env.cobs.encode_buffer (length packet)) h)

  -- Any other is coded and written in one call.
  pub send_packet-writes :
      (cobs : CobsLaws env.cobs) (packet : List ℕ) (st : Framing R W)
      → IsValid env.frame_limit st
      → env.cobs.encode_buffer (length packet) ≤ env.frame_limit
      → send_packet env packet st
        ≡ write_flushed env
            (packet_wire packet st.encobs_buffer)
            (record st { encobs_buffer = encoded_buffer packet st.encobs_buffer })
  unfolding send_packet
  send_packet-writes cobs packet st v h =
      let (n, e, pos, fits, z) =
        cobs.encodes packet st.encobs_buffer (omega (arith, v.encobs_sized)) in
      rw (le→ltb env.frame_limit (env.cobs.encode_buffer (length packet)) h, e)
        (send_frame-writes n
          (record st { encobs_buffer = (env.cobs.encode packet st.encobs_buffer).1 })
          (omega (arith, cobs.length_encoded packet st.encobs_buffer, v.encobs_sized)))

  pub length-encoded_buffer :
      (cobs : CobsLaws env.cobs) (packet : List ℕ) (st : Framing R W)
      → IsValid env.frame_limit st
      → env.cobs.encode_buffer (length packet) ≤ env.frame_limit
      → length (encoded_buffer packet st.encobs_buffer) ≡ env.frame_limit + 1
  length-encoded_buffer cobs packet st v h =
      let buf = st.encobs_buffer in
      let (n, e, pos, fits, z) = cobs.encodes packet buf (omega (arith, v.encobs_sized)) in
      let whole = cobs.length_encoded packet buf in
      rw e (
        length-write_at (env.cobs.encode packet buf).1 n (0 ∷ [])
          (omega (arith, whole, v.encobs_sized))
        ∙ whole
        ∙ v.encobs_sized)
