-- ===== src/Ark/Loop.antt =====
-- The loop of the Ark comes to an end.
use darkbio_wire_rs.Common.{ℕ, zero, suc, ◌≤◌, ◌<◌, Option, none, some, length, arith}
use darkbio_wire_rs.Common.Slices.{slice, slice?-in}
use darkbio_wire_rs.Error.{
  recv_failed, terminated, frame_decoding_failed, packet_decoding_failed, encryption_failed,
  Outcome, ok, err, panic, exhausted,
}
use darkbio_wire_rs.Error.Total.{Finishes}
use darkbio_wire_rs.Io.{Env}
use darkbio_wire_rs.Io.Laws.{MemchrLaws, Script, CobsLaws}
use darkbio_wire_rs.Crypto.{Message, Crypto}
use darkbio_wire_rs.Attestation.{Attester}
use darkbio_wire_rs.Session.{Session, open_packet}
use darkbio_wire_rs.Session.Open.{CanEnd, open_packet-CanEnd}
use darkbio_wire_rs.Framing.{next_packet}
use darkbio_wire_rs.Framing.Inv.{IsValid, rest}
use darkbio_wire_rs.Framing.Live.{Fuelled, PacketEnds, next_packet-PacketEnds}
use darkbio_wire_rs.Ark.{
  ArkSide, Turn, returned, again, resume, on_framing, drop_session, handshake, after_handshake,
  after_open, serve, after_packet, message_turn, next_message,
}
use darkbio_wire_rs.Ark.Total.{Alive}
use darkbio_wire_rs.Ark.Ends.{handshake-Settles}

-- An operation that returns.
abbrev pub Returns : {T : Type 0} → Outcome T → Type 0
Returns (ok _) = Unit
Returns (err _) = Unit
Returns panic = ⊥
Returns exhausted = ⊥

module _ {R W A : Type 0} (env : Env R W) (c : Crypto) (attester : Attester A)
    (script : Script env.reader) (cobs : CobsLaws env.cobs) (laws : MemchrLaws env.memchr)
    {M : Type 0} (message : Message M) where
  -- Fewer than `k` events to come.
  abbrev Fewer : ℕ → ArkSide R W A c → Type 0
  Fewer k a = IsValid env.frame_limit a.framing × (length (rest env script a.framing) < k)

  -- A round returns, or goes on with fewer events.
  abbrev TurnEnds : ℕ → Turn M (ArkSide R W A c) → Type 0
  TurnEnds k (returned r a) = Returns r × Alive env c attester script cobs laws k a
  TurnEnds k (again a) = Fewer k a

  Fewer-Alive :
      (k : ℕ) (a : ArkSide R W A c) → Fewer k a → Alive env c attester script cobs laws k a
  Fewer-Alive k a (v, l) = record { valid = v; coming = omega arith }

  after_handshake-TurnEnds :
      (k : ℕ) (r : Outcome (Session c)) (a : ArkSide R W A c)
      → Returns r
      → Fewer k a
      → TurnEnds k (after_handshake env c attester r a)
  unfolding after_handshake
  after_handshake-TurnEnds k (ok s) a h (v, l) = (v, l)
  after_handshake-TurnEnds k (err terminated) a h f = (tt, Fewer-Alive k a f)
  after_handshake-TurnEnds k (err (recv_failed e)) a h f = (tt, Fewer-Alive k a f)
  after_handshake-TurnEnds k panic a h f = absurd h
  after_handshake-TurnEnds k exhausted a h f = absurd h
  after_handshake-TurnEnds k (err e) a h f = f

  after_open-TurnEnds :
      (k : ℕ) (r : Outcome M) (a : ArkSide R W A c)
      → CanEnd r
      → Fewer k a
      → TurnEnds k (after_open env c attester r a)
  unfolding after_open
  after_open-TurnEnds k (ok m) a h f = (tt, Fewer-Alive k a f)
  after_open-TurnEnds k (err (packet_decoding_failed e)) a h f = (tt, Fewer-Alive k a f)
  after_open-TurnEnds k (err (encryption_failed e)) a h f = f
  after_open-TurnEnds k r a h f = absurd h

  serve-TurnEnds :
      (k size : ℕ) (session : Option (Session c)) (a : ArkSide R W A c)
      → size ≤ env.frame_limit
      → Fewer k a
      → TurnEnds k (serve env c attester message size session a)
  unfolding serve
  serve-TurnEnds k size none a h f = f
  serve-TurnEnds k size (some s) a h f =
      let packet = slice a.framing.decobs_buffer 0 size in
      let fits : size ≤ length a.framing.decobs_buffer = omega (arith, f.0.decobs_sized) in
      rw (TurnEnds, serve, slice?-in a.framing.decobs_buffer 0 size (omega arith) fits)
        (after_open-TurnEnds k (open_packet c message packet s).0
          (record a { session = some (open_packet c message packet s).1 })
          (open_packet-CanEnd c message packet s) f)

  finished :
      (k : ℕ) (r : Outcome (Session c)) (a : ArkSide R W A c)
      → Finishes (Alive env c attester script cobs laws k) (λ s. Unit {0}) r a
      → Returns r × Alive env c attester script cobs laws k a
  finished k (ok s) a e = (tt, e.1)
  finished k (err x) a e = (tt, e)
  finished k panic a e = absurd e
  finished k exhausted a e = absurd e

  after_packet-TurnEnds :
      (fuel rounds k : ℕ) (r : Outcome (Option ℕ)) (a : ArkSide R W A c)
      → Fuelled env script fuel k
      → k ≤ rounds
      → IsValid env.frame_limit a.framing
      → PacketEnds env script k r (length (rest env script a.framing))
      → TurnEnds k (after_packet env c attester message fuel rounds r a)
  unfolding after_packet
  after_packet-TurnEnds fuel rounds k (ok none) a enough h v t =
      let j = length (rest env script a.framing) in
      let p = handshake env c attester fuel rounds (drop_session env c attester a) in
      let (returns, alive) = finished j p.0 p.1 (
        (handshake-Settles env c attester script cobs laws fuel rounds j
            (omega (arith, enough.0), omega (arith, enough.1)) (omega arith)).finishes
          (drop_session env c attester a) (record { valid = v; coming = omega arith })) in
      after_handshake-TurnEnds k p.0 p.1 returns (alive.valid, omega (arith, alive.coming))
  after_packet-TurnEnds fuel rounds k (ok (some size)) a enough h v t =
      serve-TurnEnds k size a.session a t.0 (v, t.1)
  after_packet-TurnEnds fuel rounds k (err terminated) a enough h v t =
      (tt, record { valid = v; coming = t })
  after_packet-TurnEnds fuel rounds k (err (recv_failed e)) a enough h v t =
      (tt, Fewer-Alive k a (v, t))
  after_packet-TurnEnds fuel rounds k (err (frame_decoding_failed e)) a enough h v t = (v, t)
  after_packet-TurnEnds fuel rounds k r a enough h v t = absurd t

  -- The loop returns, with a valid framer and at most `k` events left.
  abbrev pub LoopEnds : ℕ → Outcome M × ArkSide R W A c → Type 0
  LoopEnds k p = Returns p.0 × Alive env c attester script cobs laws k p.1

  resume-LoopEnds :
      (k : ℕ) (next : ArkSide R W A c → Outcome M × ArkSide R W A c) (t : Turn M (ArkSide R W A c))
      → TurnEnds k t
      → ((a : ArkSide R W A c) → Fewer k a → LoopEnds k (next a))
      → LoopEnds k (resume next t)
  unfolding resume
  resume-LoopEnds k next (returned r a) h n = h
  resume-LoopEnds k next (again a) h n = n a h

  -- The Ark's loop always returns a message or an error: with `k` events to come on its stream,
  -- `k + 1` rounds are enough, and 2 k + 1 passes for each call of the framer; nothing panics,
  -- whatever the peer sends, and the framer is valid afterwards with at most `k` events left.
  pub next_message-LoopEnds :
      (fuel rounds k : ℕ) (a : ArkSide R W A c)
      → Fuelled env script fuel k
      → k < rounds
      → Alive env c attester script cobs laws k a
      → LoopEnds k (next_message env c attester message fuel rounds a)
  unfolding next_message message_turn
  next_message-LoopEnds fuel zero k a enough h e = absurd (omega arith)
  next_message-LoopEnds fuel (suc rounds) k a enough h e =
      let p = on_framing env c attester (next_packet env fuel) a in
      let (v, t) = next_packet-PacketEnds env script cobs laws fuel k a.framing enough e in
      resume-LoopEnds k (next_message env c attester message fuel rounds)
        (message_turn env c attester message fuel (suc rounds) a)
        (after_packet-TurnEnds fuel (suc rounds) k p.0 p.1 enough (omega arith) v t)
        (λ a' f.
          let j = length (rest env script a'.framing) in
          let (returns, alive) =
            next_message-LoopEnds fuel rounds j a'
              (omega (arith, enough.0), omega (arith, enough.1)) (omega (arith, f.1))
              (record { valid = f.0; coming = omega arith }) in
          (returns, record { valid = alive.valid; coming = omega (arith, alive.coming, f.1) }))
