-- ===== src/Host/Kept.antt =====
-- Calls of the host keep its framer valid, and take from the stream only.
use darkbio_wire_rs.Common.{ℕ, Option-cases, inl, inr, Option, none, some, List}
use darkbio_wire_rs.Error.{encryption_failed, Outcome, ok, err, panic, exhausted}
use darkbio_wire_rs.Error.Moves.{IsOrder, Moves, then-Moves}
use darkbio_wire_rs.Error.Total.{Finishes}
use darkbio_wire_rs.Io.{Env}
use darkbio_wire_rs.Io.Laws.{MemchrLaws, Script, CobsLaws}
use darkbio_wire_rs.Crypto.{Message, Crypto}
use darkbio_wire_rs.Attestation.{Verifier}
use darkbio_wire_rs.Session.{Session, seal, open_packet}
use darkbio_wire_rs.Framing.{Framing, send_packet, next_packet}
use darkbio_wire_rs.Framing.Live.{Live, Fuelled, send_packet-Live, next_packet-Live}
use darkbio_wire_rs.Common.Slices.{slice?}
use darkbio_wire_rs.Host.Ends.{handshake-Finishes}
use darkbio_wire_rs.Host.{
  HostSide, send_message, seal_with, deliver, guard_session, guard_transport, next_message, receive,
  open_with, handshake,
}
use darkbio_wire_rs.Host.Send.{with_scratch, with_scratch-IsValid}
use darkbio_wire_rs.Host.Ends.{handshake-Finishes}

module _ {R W : Type 0} (env : Env R W) (c : Crypto) (script : Script env.reader)
    (cobs : CobsLaws env.cobs) (k : ℕ) where
  abbrev pub Survives : HostSide R W c → HostSide R W c → Type 0
  Survives h h' = Live env script k h.framing → Live env script k h'.framing

  order : IsOrder Survives
  order = record { same = λ h l. l; chain = λ h i j p q l. q (p l) }

  guard_session-Survives :
      {T : Type 0} (r : Outcome T) (h : HostSide R W c) → Survives h (guard_session env c r h).1
  unfolding guard_session
  guard_session-Survives (err (encryption_failed e)) h l = l
  guard_session-Survives r h l = l

  guard_transport-Survives :
      {T : Type 0} (r : Outcome T) (h : HostSide R W c) → Survives h (guard_transport env c r h).1
  unfolding guard_transport
  guard_transport-Survives (err e) h l = l
  guard_transport-Survives (ok x) h l = l
  guard_transport-Survives panic h l = l
  guard_transport-Survives exhausted h l = l

  guarded-Moves : {T : Type 0} (r : Outcome T) → Moves Survives (guard_transport env c r)
  guarded-Moves r = record { moves = guard_transport-Survives r }

  module _ {M : Type 0} (message : Message M) (limit : ℕ) where
    deliver-Moves : (blob : List ℕ) → Moves Survives (deliver env c limit blob)
    unfolding deliver
    deliver-Moves blob = record {
      moves = λ h l.
          let p = send_packet env blob h.framing in
          guard_transport-Survives p.0 (record h { framing = p.1 })
            (send_packet-Live env script cobs k blob h.framing l);
    }

    seal_with-Moves :
        (msg : M) (o : Option (Session c)) → Moves Survives (seal_with env c limit message msg o)
    unfolding seal_with
    seal_with-Moves msg none = record { moves = λ h l. l }
    seal_with-Moves msg (some s) = record {
      moves = λ h l.
          let p = seal c limit message msg (s, h.framing.encode_buffer) in
          let framing : Framing R W = with_scratch p.1.1 h.framing in
          guard_session-Survives p.0 (record h { framing = framing; session = some p.1.0 })
            (record {
              valid = with_scratch-IsValid env.frame_limit p.1.1 h.framing l.valid;
              coming = l.coming;
            });
    }

    pub send_message-Survives : (msg : M) → Moves Survives (send_message env c limit message msg)
    unfolding send_message
    send_message-Survives msg = record {
      moves = λ h. (then-Moves order (seal_with-Moves msg h.session) deliver-Moves).moves h;
    }

  module _ {M : Type 0} (message : Message M) where
    open_with-Moves :
        (size : ℕ) (o : Option (Session c)) → Moves Survives (open_with env c message size o)
    unfolding open_with
    open_with-Moves size none = record { moves = λ h l. l }
    open_with-Moves size (some s) = record {
      moves = λ h l. elim (Option-cases (slice? h.framing.decobs_buffer 0 size)) [
        | inl e ↦ rw (open_with, e) l
        | inr (bytes, e) ↦
            let p = open_packet c message bytes s in
            rw (open_with, e) (guard_session-Survives p.0 (record h { session = some p.1 }) l)
      ];
    }

    receive-Moves : (o : Option ℕ) → Moves Survives (receive env c message o)
    unfolding receive
    receive-Moves none = record { moves = λ h l. l }
    receive-Moves (some size) = record { moves = λ h. (open_with-Moves size h.session).moves h }

    module _ (laws : MemchrLaws env.memchr) where
      pub next_message-Survives :
          (fuel : ℕ) → Fuelled env script fuel k → Moves Survives (next_message env c message fuel)
      unfolding next_message
      next_message-Survives fuel enough = record {
        moves = λ h l.
            let p = next_packet env fuel h.framing in
            (then-Moves order (guarded-Moves p.0) receive-Moves).moves (record h { framing = p.1 })
              (next_packet-Live env script cobs laws fuel k h.framing enough l);
      }

  module _ (laws : MemchrLaws env.memchr) {Info : Type 0}
      (verifier : Verifier c.VerifyingKey Info) where
    returned-Live :
        (r : Outcome Info) (h : HostSide R W c)
        → Finishes (λ h'. Live env script k h'.framing) (λ info. Unit {0}) r h
        → Live env script k h.framing
    returned-Live (ok info) h f = f.1
    returned-Live (err e) h f = f
    returned-Live panic h f = absurd f
    returned-Live exhausted h f = absurd f

    pub handshake-Survives :
        (fuel : ℕ) → Fuelled env script fuel k → Moves Survives (handshake env c fuel verifier)
    handshake-Survives fuel enough = record {
      moves = λ h l.
          let p = handshake env c fuel verifier h in
          returned-Live p.0 p.1
            (handshake-Finishes env c script cobs laws k fuel verifier h enough l);
    }
