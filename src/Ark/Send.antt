-- ===== src/Ark/Send.antt =====
-- The Ark within a session: a message that seals is delivered.
use darkbio_wire_rs.Common.{ℕ, ◌≡◌, some, List}
use darkbio_wire_rs.Error.{ok}
use darkbio_wire_rs.Io.{Env}
use darkbio_wire_rs.Crypto.{Message, Crypto}
use darkbio_wire_rs.Attestation.{Attester}
use darkbio_wire_rs.Session.{Session, seal}
use darkbio_wire_rs.Framing.{send_packet}
use darkbio_wire_rs.Host.Send.{with_scratch}
use darkbio_wire_rs.Ark.{ArkSide, send_message, seal_with, deliver, guard_session, guard_transport}

module _ {R W A : Type 0} (env : Env R W) (c : Crypto) (attester : Attester A) {M : Type 0}
    (message : Message M) (limit : ℕ) where
  pub send_message-delivers :
      (packet : List ℕ) (msg : M) (s : Session c) (a : ArkSide R W A c)
      → a.session ≡ some s
      → (seal c limit message msg (s, a.framing.encode_buffer)).0 ≡ ok packet
      → (send_packet env packet
          (with_scratch (seal c limit message msg (s, a.framing.encode_buffer)).1.1 a.framing)).0
        ≡ ok tt
      → send_message env c attester limit message msg a ≡ (
        ok tt,
        record a {
          framing =
              (send_packet env packet (
                with_scratch
                  (seal c limit message msg (s, a.framing.encode_buffer)).1.1
                  a.framing)).1;
          session = some (seal c limit message msg (s, a.framing.encode_buffer)).1.0;
        },
      )
  unfolding send_message seal_with deliver guard_session guard_transport
  send_message-delivers packet msg s a session sealed sent = rw (session, sealed, sent)
