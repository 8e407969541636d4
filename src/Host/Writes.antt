-- ===== src/Host/Writes.antt =====
-- What the host writes within a session: it only ever appends.
use darkbio_wire_rs.Common.{ℕ, Option, none, some, Option-cases, inl, inr, List}
use darkbio_wire_rs.Common.Slices.{slice?}
use darkbio_wire_rs.Error.{Outcome, err, encryption_failed}
use darkbio_wire_rs.Error.Moves.{Moves, then-Moves}
use darkbio_wire_rs.Io.{Env}
use darkbio_wire_rs.Io.Laws.{Sink}
use darkbio_wire_rs.Crypto.{Message, Crypto}
use darkbio_wire_rs.Session.{Session, seal, open_packet}
use darkbio_wire_rs.Framing.{Framing, next_packet, send_packet}
use darkbio_wire_rs.Framing.Appends.{next_packet-Appends, send_packet-Appends}
use darkbio_wire_rs.Host.{
  HostSide, on_framing, next_message, receive, open_with, send_message, seal_with, deliver,
  guard_session, guard_transport,
}
use darkbio_wire_rs.Host.Send.{with_scratch}
use darkbio_wire_rs.Host.Appends.{HostAppends, order, on_framing-Moves}

module _ {R W : Type 0} (env : Env R W) (c : Crypto) (sink : Sink env.writer) where
  abbrev Grows : {T : Type 0} → (HostSide R W c → Outcome T × HostSide R W c) → Type 0
  Grows m = Moves (HostAppends env c sink) m

  guard_session-Moves : {T : Type 0} (r : Outcome T) → Grows (guard_session env c r)
  unfolding guard_session
  guard_session-Moves (err (encryption_failed e)) = record {
    moves = λ h. (order env c sink).same h;
  }
  guard_session-Moves r = record { moves = λ h. (order env c sink).same h }

  guard_transport-Moves : {T : Type 0} (r : Outcome T) → Grows (guard_transport env c r)
  unfolding guard_transport
  guard_transport-Moves (err e) = record { moves = λ h. (order env c sink).same h }
  guard_transport-Moves r = record { moves = λ h. (order env c sink).same h }

  -- A call of the framer, with its guard.
  guarded-Moves :
      {T : Type 0} (m : Framing R W → Outcome T × Framing R W)
      → Grows (on_framing env c m)
      → Grows (λ h. guard_transport env c (on_framing env c m h).0 (on_framing env c m h).1)
  guarded-Moves m grows = record {
    moves = λ h.
        let p = on_framing env c m h in
        let q = guard_transport env c p.0 p.1 in
        (order env c sink).chain h p.1 q.1 (grows.moves h) ((guard_transport-Moves p.0).moves p.1);
  }

  module _ {M : Type 0} (message : Message M) where
    open_with-Moves : (size : ℕ) (o : Option (Session c)) → Grows (open_with env c message size o)
    unfolding open_with
    open_with-Moves size none = record { moves = λ h. (order env c sink).same h }
    open_with-Moves size (some s) = record {
      moves = λ h. elim (Option-cases (slice? h.framing.decobs_buffer 0 size)) [
        | inl e ↦ rw (open_with, e) ((order env c sink).same h)
        | inr (bytes, e) ↦
            let p = open_packet c message bytes s in
            rw (open_with, e) ((guard_session-Moves p.0).moves (record h { session = some p.1 }))
      ];
    }

    receive-Moves : (o : Option ℕ) → Grows (receive env c message o)
    unfolding receive
    receive-Moves none = record { moves = λ h. (order env c sink).same h }
    receive-Moves (some size) = record { moves = λ h. (open_with-Moves size h.session).moves h }

    pub next_message-Appends : (fuel : ℕ) → Grows (next_message env c message fuel)
    unfolding next_message
    next_message-Appends fuel =
        then-Moves (order env c sink)
          (guarded-Moves (next_packet env fuel)
            (on_framing-Moves env c sink (next_packet-Appends env sink fuel)))
          receive-Moves

    module _ (limit : ℕ) where
      seal_with-Moves :
          (msg : M) (o : Option (Session c)) → Grows (seal_with env c limit message msg o)
      unfolding seal_with
      seal_with-Moves msg none = record { moves = λ h. (order env c sink).same h }
      seal_with-Moves msg (some s) = record {
        moves = λ h.
            let p = seal c limit message msg (s, h.framing.encode_buffer) in
            let framing : Framing R W = with_scratch p.1.1 h.framing in
            (guard_session-Moves p.0).moves (record h { framing = framing; session = some p.1.0 });
      }

      deliver-Moves : (blob : List ℕ) → Grows (deliver env c limit blob)
      unfolding deliver
      deliver-Moves blob =
          guarded-Moves (send_packet env blob)
            (on_framing-Moves env c sink (send_packet-Appends env sink blob))

      pub send_message-Appends : (msg : M) → Grows (send_message env c limit message msg)
      unfolding send_message
      send_message-Appends msg = record {
        moves = λ h.
            (then-Moves (order env c sink) (seal_with-Moves msg h.session) deliver-Moves).moves h;
      }
