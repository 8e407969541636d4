-- ===== src/Ark/Writes.antt =====
-- What the Ark writes within a session: it only ever appends.
use darkbio_wire_rs.Common.{ℕ, zero, suc, Option, none, some, Option-cases, inl, inr, List}
use darkbio_wire_rs.Common.Slices.{slice?}
use darkbio_wire_rs.Error.{
  Outcome, ok, err, panic, exhausted, encryption_failed, terminated, recv_failed, Op,
}
use darkbio_wire_rs.Error.Moves.{Moves, then-Moves}
use darkbio_wire_rs.Io.{Env}
use darkbio_wire_rs.Io.Laws.{Sink}
use darkbio_wire_rs.Crypto.{Message, Crypto}
use darkbio_wire_rs.Attestation.{Attester}
use darkbio_wire_rs.Session.{Session, seal, open_packet}
use darkbio_wire_rs.Framing.{Framing, next_packet, send_packet}
use darkbio_wire_rs.Framing.Appends.{next_packet-Appends, send_packet-Appends}
use darkbio_wire_rs.Ark.{
  ArkSide, resume, on_framing, handshake, after_handshake, after_open, serve, after_packet,
  message_turn, next_message, send_message, seal_with, deliver, guard_session, guard_transport,
}
use darkbio_wire_rs.Host.Send.{with_scratch}
use darkbio_wire_rs.Ark.Appends.{ArkAppends, order, on_framing-Moves, handshake-Appends}

module _ {R W A : Type 0} (env : Env R W) (c : Crypto) (attester : Attester A)
    (sink : Sink env.writer) where
  abbrev Grows : {T : Type 0} → (ArkSide R W A c → Outcome T × ArkSide R W A c) → Type 0
  Grows m = Moves (ArkAppends env c attester sink) m

  guard_session-Moves : {T : Type 0} (r : Outcome T) → Grows (guard_session env c attester r)
  unfolding guard_session
  guard_session-Moves (err (encryption_failed e)) = record {
    moves = λ a. (order env c attester sink).same a;
  }
  guard_session-Moves r = record { moves = λ a. (order env c attester sink).same a }

  guard_transport-Moves : {T : Type 0} (r : Outcome T) → Grows (guard_transport env c attester r)
  unfolding guard_transport
  guard_transport-Moves (err e) = record { moves = λ a. (order env c attester sink).same a }
  guard_transport-Moves r = record { moves = λ a. (order env c attester sink).same a }

  -- A call of the framer, with its guard.
  guarded-Moves :
      {T : Type 0} (m : Framing R W → Outcome T × Framing R W)
      → Grows (on_framing env c attester m)
      → Grows (λ a.
        guard_transport env c attester
          (on_framing env c attester m a).0
          (on_framing env c attester m a).1)
  guarded-Moves m grows = record {
    moves = λ a.
        let p = on_framing env c attester m a in
        let q = guard_transport env c attester p.0 p.1 in
        (order env c attester sink).chain a p.1 q.1 (grows.moves a)
          ((guard_transport-Moves p.0).moves p.1);
  }

  module _ {M : Type 0} (message : Message M) where
    -- What follows a round: the next one, or a result.
    module _ (next : Op (ArkSide R W A c) M) (growing : Grows next) where
      after_handshake-Appends :
          (r : Outcome (Session c)) → Grows (λ a. resume next (after_handshake env c attester r a))
      unfolding after_handshake resume
      after_handshake-Appends (ok s) = record {
        moves = λ a. growing.moves (record a { session = some s });
      }
      after_handshake-Appends (err terminated) = record {
        moves = λ a. (order env c attester sink).same a;
      }
      after_handshake-Appends (err (recv_failed e)) = record {
        moves = λ a. (order env c attester sink).same a;
      }
      after_handshake-Appends panic = record { moves = λ a. (order env c attester sink).same a }
      after_handshake-Appends exhausted = record { moves = λ a. (order env c attester sink).same a }
      after_handshake-Appends (err e) = growing

      after_open-Moves : (r : Outcome M) → Grows (λ a. resume next (after_open env c attester r a))
      unfolding after_open resume
      after_open-Moves (err (encryption_failed e)) = record {
        moves = λ a. growing.moves (record a { session = none });
      }
      after_open-Moves r = record { moves = λ a. (order env c attester sink).same a }

      serve-Moves :
          (size : ℕ) (o : Option (Session c))
          → Grows (λ a. resume next (serve env c attester message size o a))
      unfolding serve resume
      serve-Moves size none = growing
      serve-Moves size (some s) = record {
        moves = λ a. elim (Option-cases (slice? a.framing.decobs_buffer 0 size)) [
          | inl e ↦ rw (serve, e) ((order env c attester sink).same a)
          | inr (bytes, e) ↦
              let p = open_packet c message bytes s in
              rw (serve, e) ((after_open-Moves p.0).moves (record a { session = some p.1 }))
        ];
      }

      after_packet-Moves :
          (fuel rounds : ℕ) (r : Outcome (Option ℕ))
          → Grows (λ a. resume next (after_packet env c attester message fuel rounds r a))
      unfolding after_packet resume
      after_packet-Moves fuel rounds (ok none) = record {
        moves = λ a.
            let p = handshake env c attester fuel rounds (record a { session = none }) in
            (order env c attester sink).chain a p.1
              (resume next (after_handshake env c attester p.0 p.1)).1
              ((handshake-Appends env c attester sink fuel rounds).moves
                (record a { session = none }))
              ((after_handshake-Appends p.0).moves p.1);
      }
      after_packet-Moves fuel rounds (ok (some size)) = record {
        moves = λ a. (serve-Moves size a.session).moves a;
      }
      after_packet-Moves fuel rounds (err terminated) = record {
        moves = λ a. (order env c attester sink).same a;
      }
      after_packet-Moves fuel rounds (err (recv_failed e)) = record {
        moves = λ a. (order env c attester sink).same a;
      }
      after_packet-Moves fuel rounds panic = record {
        moves = λ a. (order env c attester sink).same a;
      }
      after_packet-Moves fuel rounds exhausted = record {
        moves = λ a. (order env c attester sink).same a;
      }
      after_packet-Moves fuel rounds (err e) = record {
        moves = λ a. growing.moves (record a { session = none });
      }

      pub turn-Moves :
          (fuel rounds : ℕ)
          → Grows (λ a. resume next (message_turn env c attester message fuel rounds a))
      unfolding message_turn
      turn-Moves fuel rounds = record {
        moves = λ a.
            let p = on_framing env c attester (next_packet env fuel) a in
            (order env c attester sink).chain a p.1
              (resume next (after_packet env c attester message fuel rounds p.0 p.1)).1
              ((on_framing-Moves env c attester sink (next_packet-Appends env sink fuel)).moves a)
              ((after_packet-Moves fuel rounds p.0).moves p.1);
      }

    pub next_message-Appends :
        (fuel rounds : ℕ) → Grows (next_message env c attester message fuel rounds)
    unfolding next_message
    next_message-Appends fuel zero = record { moves = λ a. (order env c attester sink).same a }
    next_message-Appends fuel (suc rounds) =
        turn-Moves (next_message env c attester message fuel rounds)
          (next_message-Appends fuel rounds) fuel (suc rounds)

    module _ (limit : ℕ) where
      seal_with-Moves :
          (msg : M) (o : Option (Session c)) → Grows (seal_with env c attester limit message msg o)
      unfolding seal_with
      seal_with-Moves msg none = record { moves = λ a. (order env c attester sink).same a }
      seal_with-Moves msg (some s) = record {
        moves = λ a.
            let p = seal c limit message msg (s, a.framing.encode_buffer) in
            let framing : Framing R W = with_scratch p.1.1 a.framing in
            (guard_session-Moves p.0).moves (record a { framing = framing; session = some p.1.0 });
      }

      deliver-Moves : (blob : List ℕ) → Grows (deliver env c attester blob)
      unfolding deliver
      deliver-Moves blob =
          guarded-Moves (send_packet env blob)
            (on_framing-Moves env c attester sink (send_packet-Appends env sink blob))

      pub send_message-Appends : (msg : M) → Grows (send_message env c attester limit message msg)
      unfolding send_message
      send_message-Appends msg = record {
        moves = λ a.
            (then-Moves (order env c attester sink) (seal_with-Moves msg a.session)
                deliver-Moves).moves
              a;
      }
