-- ===== src/Exchange/Rounds.antt =====
-- What a round of the Ark's loop writes, and how the loop goes on behind it.
use darkbio_wire_rs.Common.{
  ℕ, suc, arith, length-append, ◌≤◌, ◌≡◌, refl, ap, subst, List, [], ◌∷◌, map, length,
}
use darkbio_wire_rs.Error.{Outcome}
use darkbio_wire_rs.Io.{Env}
use darkbio_wire_rs.Io.Laws.{Event, byte, Sink}
use darkbio_wire_rs.Crypto.{Message, Crypto}
use darkbio_wire_rs.Attestation.{Attester}
use darkbio_wire_rs.Framing.Send.{packet_wire}
use darkbio_wire_rs.Framing.Appends.{Continues, Continues-refl}
use darkbio_wire_rs.Host.Honest.{Sent, stream_of}
use darkbio_wire_rs.Ark
use darkbio_wire_rs.Ark.Appends.{order}
use darkbio_wire_rs.Ark.{ArkSide, Turn, returned, again, resume, message_turn}
use darkbio_wire_rs.Exchange.Answers.{state_of}

resume-state : {T S : Type 0} (t : Turn T S) → (resume (λ s. (Outcome.panic, s)) t).1 ≡ state_of t
unfolding resume
resume-state (returned r s) = refl
resume-state (again s) = refl

module _ {R W A : Type 0} (env : Env R W) (c : Crypto) (attester : Attester A)
    (sink : Sink env.writer) {M : Type 0} (message : Message M) where
  -- A round of the Ark's loop only ever appends to what was written.
  pub turn-Continues :
      (fuel rounds : ℕ) (a : ArkSide R W A c)
      → Continues (sink.written a.framing.writer) (
          sink.written
            (state_of (message_turn env c attester message fuel rounds a)).framing.writer)
  turn-Continues fuel rounds a =
      subst
        (λ (b : ArkSide R W A c).
          Continues (sink.written a.framing.writer) (sink.written b.framing.writer))
        (resume-state (message_turn env c attester message fuel rounds a))
        ((Ark.Writes.turn-Moves env c attester sink message (λ s. (Outcome.panic, s))
            (record { moves = (order env c attester sink).same }) fuel rounds).moves
          a)

  -- So does what follows it.
  pub resume-Continues :
      (fuel rounds : ℕ) (t : Turn M (ArkSide R W A c))
      → Continues (sink.written (state_of t).framing.writer) (
          sink.written
            (resume (Ark.next_message env c attester message fuel rounds) t).1.framing.writer)
  unfolding resume
  resume-Continues fuel rounds (returned r b) = Continues-refl (sink.written b.framing.writer)
  resume-Continues fuel rounds (again b) =
      (Ark.Writes.next_message-Appends env c attester sink message fuel rounds).moves b

module _ {R W A : Type 0} (env : Env R W) (c : Crypto) (attester : Attester A) {M : Type 0}
    (message : Message M) where
  -- A call that begins with a handshake goes on with the next round.
  pub next_message-goes_on :
      (fuel rounds : ℕ) (a : ArkSide R W A c)
      → message_turn env c attester message fuel (suc rounds) a
        ≡ again (state_of (message_turn env c attester message fuel (suc rounds) a))
      → Ark.next_message env c attester message fuel (suc rounds) a
        ≡ Ark.next_message env c attester message fuel rounds
            (state_of (message_turn env c attester message fuel (suc rounds) a))
  unfolding Ark.next_message resume
  next_message-goes_on fuel rounds a e =
      ap (resume (Ark.next_message env c attester message fuel rounds)) e

module _ {R W : Type 0} (env : Env R W) (c : Crypto) where
  pub length-stream_of :
      (stale : List (Sent env c)) (es : List Event) → length es ≤ length (stream_of env c stale es)
  length-stream_of [] es = omega arith
  length-stream_of ((packet, buf) ∷ stale) es =
      let wire = map byte (packet_wire env packet buf) in
      omega (arith, length-stream_of stale es, length-append wire (stream_of env c stale es))
