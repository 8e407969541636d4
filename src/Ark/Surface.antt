-- ===== src/Ark/Surface.antt =====
-- What the Ark's loop lets through to its caller.
use darkbio_wire_rs.Common.{
  ℕ, zero, suc, ◌≡◌, refl, Option, none, some, List, Option-cases, inl, inr,
}
use darkbio_wire_rs.Common.Slices.{slice?}
use darkbio_wire_rs.Error.{
  packet_decoding_failed, recv_failed, terminated, encryption_failed, Outcome, ok, err, panic,
  exhausted,
}
use darkbio_wire_rs.Io.{Env}
use darkbio_wire_rs.Crypto.{Message, Crypto}
use darkbio_wire_rs.Attestation.{Attester}
use darkbio_wire_rs.Session.{Session, open_packet}
use darkbio_wire_rs.Session.Open.{CanEnd, open_packet-CanEnd}
use darkbio_wire_rs.Framing.{next_packet}
use darkbio_wire_rs.Ark.{
  ArkSide, Turn, returned, again, resume, handshake, after_handshake, after_open, serve,
  after_packet, message_turn, next_message, drop_session, on_framing,
}

module _ {R W A : Type 0} (env : Env R W) (c : Crypto) (attester : Attester A) {M : Type 0}
    (message : Message M) where
  -- The result of opening a packet in a session, which goes on.
  pub record Opens (r : Outcome M) (a : ArkSide R W A c) : Type 0 where
    pub before : Session c
    pub packet : List ℕ
    pub opened : (open_packet c message packet before).0 ≡ r
    pub session : a.session ≡ some (open_packet c message packet before).1

  abbrev pub Surfaces : Outcome M → ArkSide R W A c → Type 0
  Surfaces (ok m) a = Opens (ok m) a
  Surfaces (err (packet_decoding_failed e)) a = Opens (err (packet_decoding_failed e)) a
  Surfaces (err (recv_failed _)) a = Unit
  Surfaces (err terminated) a = Unit
  Surfaces (err _) a = ⊥
  Surfaces panic a = Unit
  Surfaces exhausted a = Unit

  abbrev TurnSurfaces : Turn M (ArkSide R W A c) → Type 0
  TurnSurfaces (returned r a) = Surfaces r a
  TurnSurfaces (again a) = Unit

  after_handshake-Surfaces :
      (r : Outcome (Session c)) (a : ArkSide R W A c)
      → TurnSurfaces (after_handshake env c attester r a)
  unfolding after_handshake
  after_handshake-Surfaces (ok s) a = tt
  after_handshake-Surfaces (err terminated) a = tt
  after_handshake-Surfaces (err (recv_failed e)) a = tt
  after_handshake-Surfaces (err e) a = tt
  after_handshake-Surfaces panic a = tt
  after_handshake-Surfaces exhausted a = tt

  after_open-Surfaces :
      (r : Outcome M) (a : ArkSide R W A c)
      → CanEnd r
      → Opens r a
      → TurnSurfaces (after_open env c attester r a)
  unfolding after_open
  after_open-Surfaces (ok m) a h o = o
  after_open-Surfaces (err (packet_decoding_failed e)) a h o = o
  after_open-Surfaces (err (encryption_failed e)) a h o = tt
  after_open-Surfaces r a h o = absurd h

  serve-Surfaces :
      (size : ℕ) (session : Option (Session c)) (a : ArkSide R W A c)
      → TurnSurfaces (serve env c attester message size session a)
  unfolding serve
  serve-Surfaces size none a = tt
  serve-Surfaces size (some s) a = elim (Option-cases (slice? a.framing.decobs_buffer 0 size)) [
    | inl e ↦ rw (TurnSurfaces, serve, e) tt
    | inr (packet, e) ↦
        rw (TurnSurfaces, serve, e)
          (after_open-Surfaces (open_packet c message packet s).0
            (record a { session = some (open_packet c message packet s).1 })
            (open_packet-CanEnd c message packet s)
            (record { before = s; packet = packet; opened = refl; session = refl }))
  ]

  after_packet-Surfaces :
      (fuel rounds : ℕ) (r : Outcome (Option ℕ)) (a : ArkSide R W A c)
      → TurnSurfaces (after_packet env c attester message fuel rounds r a)
  unfolding after_packet
  after_packet-Surfaces fuel rounds (ok none) a =
      let p = handshake env c attester fuel rounds (drop_session env c attester a) in
      after_handshake-Surfaces p.0 p.1
  after_packet-Surfaces fuel rounds (ok (some size)) a = serve-Surfaces size a.session a
  after_packet-Surfaces fuel rounds (err terminated) a = tt
  after_packet-Surfaces fuel rounds (err (recv_failed e)) a = tt
  after_packet-Surfaces fuel rounds (err e) a = tt
  after_packet-Surfaces fuel rounds panic a = tt
  after_packet-Surfaces fuel rounds exhausted a = tt

  resume-Surfaces :
      (next : ArkSide R W A c → Outcome M × ArkSide R W A c) (t : Turn M (ArkSide R W A c))
      → TurnSurfaces t
      → ((a : ArkSide R W A c) → Surfaces (next a).0 (next a).1)
      → Surfaces (resume next t).0 (resume next t).1
  unfolding resume
  resume-Surfaces next (returned r a) h n = h
  resume-Surfaces next (again a) h n = n a

  -- All that the Ark's loop returns is: a message that an established session opened from a packet;
  -- a packet that was opened but does not decode, in both cases with the session going on from
  -- there; the end of the stream, or a failure of it. No other error surfaces, whatever the stream,
  -- the peer and the handshakes do.
  pub next_message-Surfaces :
      (fuel rounds : ℕ) (a : ArkSide R W A c)
      → Surfaces
          (next_message env c attester message fuel rounds a).0
          (next_message env c attester message fuel rounds a).1
  unfolding next_message message_turn
  next_message-Surfaces fuel zero a = tt
  next_message-Surfaces fuel (suc rounds) a =
      let p = on_framing env c attester (next_packet env fuel) a in
      resume-Surfaces (next_message env c attester message fuel rounds)
        (message_turn env c attester message fuel (suc rounds) a)
        (after_packet-Surfaces fuel (suc rounds) p.0 p.1) (next_message-Surfaces fuel rounds)
