-- ===== src/Ark/Tail.antt =====
-- The handshake of the Ark from where it has sent its hello, and what its loop makes of it.
use darkbio_wire_rs.Common.{ℕ, suc, ◌≡◌, refl, Option, none, some}
use darkbio_wire_rs.Error.{ok, Op, ◌>>=◌}
use darkbio_wire_rs.Io.{Env}
use darkbio_wire_rs.Crypto.{Message, Crypto}
use darkbio_wire_rs.Attestation.{Attester}
use darkbio_wire_rs.Session.{Session}
use darkbio_wire_rs.Framing
use darkbio_wire_rs.Ark.{
  ArkSide, Greeting, on_framing, drop_session, greet, accept, handshake, after_handshake,
  after_packet, message_turn,
}

module _ {R W A : Type 0} (env : Env R W) (c : Crypto) (attester : Attester A) where
  -- The ack, or a new handshake.
  abbrev pub conclude : ℕ → ℕ → Greeting c → Option ℕ → Op (ArkSide R W A c) (Session c)
  conclude fuel rounds g found = elim found [
    | none ↦ handshake env c attester fuel rounds
    | some size ↦ accept env c attester g size
  ]

  -- The next packet, and what is made of it.
  abbrev pub await_ack : ℕ → ℕ → Greeting c → Op (ArkSide R W A c) (Session c)
  await_ack fuel rounds g =
      on_framing env c attester (Framing.next_packet env fuel) >>= conclude fuel rounds g

  pub handshake-awaits :
      (fuel rounds : ℕ) (g : Greeting c) (a a' : ArkSide R W A c)
      → greet env c attester fuel (suc rounds) a ≡ (ok g, a')
      → handshake env c attester fuel (suc rounds) a ≡ await_ack fuel rounds g a'
  unfolding handshake
  handshake-awaits fuel rounds g a a' greeted = rw greeted refl

  pub await_ack-ends :
      (fuel rounds size : ℕ) (g : Greeting c) (s : Session c) (a a' : ArkSide R W A c)
      → (Framing.next_packet env fuel a.framing).0 ≡ ok (some size)
      → accept env c attester g size
          (record a { framing = (Framing.next_packet env fuel a.framing).1 })
        ≡ (ok s, a')
      → await_ack fuel rounds g a ≡ (ok s, a')
  await_ack-ends fuel rounds size g s a a' received accepted = rw (received, accepted) refl

  -- An empty frame drops the session and makes a handshake.
  pub message_turn-resets :
      {M : Type 0} (message : Message M) (fuel rounds : ℕ) (a : ArkSide R W A c)
      → (Framing.next_packet env fuel a.framing).0 ≡ ok none
      → message_turn env c attester message fuel rounds a ≡ (
          let p = handshake env c attester fuel rounds (
            drop_session env c attester
              (record a { framing = (Framing.next_packet env fuel a.framing).1 })) in
          after_handshake env c attester p.0 p.1)
  unfolding message_turn after_packet
  message_turn-resets message fuel rounds a received = rw received refl
