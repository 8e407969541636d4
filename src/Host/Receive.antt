-- ===== src/Host/Receive.antt =====
-- The host within a session: a packet that opens is returned.
use darkbio_wire_rs.Common.{ℕ, ◌≡◌, some, List}
use darkbio_wire_rs.Common.Slices.{slice?}
use darkbio_wire_rs.Error.{ok}
use darkbio_wire_rs.Io.{Env}
use darkbio_wire_rs.Crypto.{Message, Crypto}
use darkbio_wire_rs.Session.{Session, open_packet}
use darkbio_wire_rs.Framing.{next_packet}
use darkbio_wire_rs.Host.{
  HostSide, next_message, receive, open_with, guard_session, guard_transport,
}

module _ {R W : Type 0} (env : Env R W) (c : Crypto) {M : Type 0} (message : Message M) where
  pub next_message-opens :
      (fuel size : ℕ) (packet : List ℕ) (msg : M) (s : Session c) (h : HostSide R W c)
      → h.session ≡ some s
      → (next_packet env fuel h.framing).0 ≡ ok (some size)
      → slice? (next_packet env fuel h.framing).1.decobs_buffer 0 size ≡ some packet
      → (open_packet c message packet s).0 ≡ ok msg
      → next_message env c message fuel h ≡ (
        ok msg,
        record h {
          framing = (next_packet env fuel h.framing).1;
          session = some (open_packet c message packet s).1;
        },
      )
  unfolding next_message receive open_with guard_session guard_transport
  next_message-opens fuel size packet msg s h session received bytes opened =
      rw (received, session, open_with, bytes, opened)
