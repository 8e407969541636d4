-- ===== src/Framing/Transport.antt =====
-- The errors of sending a packet.
use darkbio_wire_rs.Common.{arith, ℕ, List, length, inl, inr}
use darkbio_wire_rs.Error.{
  IoError, frame_too_large, frame_encoding_failed, send_failed, Result, value, error, Outcome, ok,
  err, panic, exhausted, Result-cases, or_fail,
}
use native.Mathlib.Decide.{dec_lt}
use darkbio_wire_rs.Io.{Env}
use darkbio_wire_rs.Io.Laws.{CobsLaws}
use darkbio_wire_rs.Framing.Inv.{IsValid}
use darkbio_wire_rs.Framing.Send.{
  packet_wire, encoded_buffer, send_packet-refuses, send_packet-writes,
}
use darkbio_wire_rs.Framing.{Framing, write_flushed, send_packet}

-- Sending ends well, or with an error of framing or of the stream.
abbrev pub IsTransport : Outcome (Unit {0}) → Type 0
IsTransport (ok _) = Unit
IsTransport (err (frame_too_large _)) = Unit
IsTransport (err (frame_encoding_failed _)) = Unit
IsTransport (err (send_failed _)) = Unit
IsTransport (err _) = ⊥
IsTransport panic = ⊥
IsTransport exhausted = ⊥

module _ {R W : Type 0} (env : Env R W) where
  flushed-IsTransport :
      (r : Result IoError (Unit {0})) (st : Framing R W) → IsTransport (or_fail send_failed r st).0
  flushed-IsTransport (value u) st = tt
  flushed-IsTransport (error e) st = tt

  write_flushed-IsTransport :
      (bytes : List ℕ) (st : Framing R W) → IsTransport (write_flushed env bytes st).0
  unfolding write_flushed
  write_flushed-IsTransport bytes st =
      elim (Result-cases (env.writer.write_all st.writer bytes).0) [
        | inl (u, e) ↦
            rw (write_flushed, e)
              (flushed-IsTransport (env.writer.flush (env.writer.write_all st.writer bytes).1).0
                (record st {
                  writer = (env.writer.flush (env.writer.write_all st.writer bytes).1).1;
                }))
        | inr (x, e) ↦ rw (write_flushed, e) tt
      ]

  pub send_packet-IsTransport :
      (cobs : CobsLaws env.cobs) (packet : List ℕ) (st : Framing R W)
      → IsValid env.frame_limit st
      → IsTransport (send_packet env packet st).0
  send_packet-IsTransport cobs packet st v =
      elim (dec_lt env.frame_limit (env.cobs.encode_buffer (length packet))) [
        | yes big ↦ rw (send_packet-refuses env packet st big) tt
        | no fits ↦ rw (send_packet-writes env cobs packet st v (omega arith)) (
            write_flushed-IsTransport (packet_wire env packet st.encobs_buffer)
              (record st { encobs_buffer = encoded_buffer env packet st.encobs_buffer }))
      ]
