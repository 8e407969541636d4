-- ===== src/Ark/Serve.antt =====
-- The Ark within a session: a packet that opens is returned at once.
use darkbio_wire_rs.Common.{ℕ, suc, ◌≡◌, some, List}
use darkbio_wire_rs.Common.Slices.{slice?}
use darkbio_wire_rs.Error.{ok}
use darkbio_wire_rs.Io.{Env}
use darkbio_wire_rs.Crypto.{Message, Crypto}
use darkbio_wire_rs.Attestation.{Attester}
use darkbio_wire_rs.Session.{Session, open_packet}
use darkbio_wire_rs.Framing.{next_packet}
use darkbio_wire_rs.Ark.{
  ArkSide, resume, next_message, message_turn, after_packet, serve, after_open,
}

module _ {R W A : Type 0} (env : Env R W) (c : Crypto) (attester : Attester A) {M : Type 0}
    (message : Message M) where
  pub next_message-opens :
      (fuel rounds size : ℕ) (packet : List ℕ) (msg : M) (s : Session c) (a : ArkSide R W A c)
      → a.session ≡ some s
      → (next_packet env fuel a.framing).0 ≡ ok (some size)
      → slice? (next_packet env fuel a.framing).1.decobs_buffer 0 size ≡ some packet
      → (open_packet c message packet s).0 ≡ ok msg
      → next_message env c attester message fuel (suc rounds) a ≡ (
        ok msg,
        record a {
          framing = (next_packet env fuel a.framing).1;
          session = some (open_packet c message packet s).1;
        },
      )
  unfolding resume next_message message_turn after_packet serve after_open
  next_message-opens fuel rounds size packet msg s a session received bytes opened =
      rw (received, session, serve, bytes, opened)
