-- ===== src/Host/Send.antt =====
-- The host within a session: a message that seals is delivered.
use darkbio_wire_rs.Framing.Alike.{Alike}
use darkbio_wire_rs.Io.Laws.{Script}
use darkbio_wire_rs.Common.{ap, ℕ, ◌≡◌, some, List}
use darkbio_wire_rs.Error.{ok}
use darkbio_wire_rs.Io.{Env}
use darkbio_wire_rs.Crypto.{Message, Crypto}
use darkbio_wire_rs.Session.{Session, seal}
use darkbio_wire_rs.Framing.{Framing, send_packet}
use darkbio_wire_rs.Framing.Inv.{IsValid}
use darkbio_wire_rs.Host.{
  HostSide, send_message, seal_with, deliver, guard_session, guard_transport,
}

-- The framer with the scratch buffer that sealing left.
abbrev pub with_scratch : {R W : Type 0} → List ℕ → Framing R W → Framing R W
with_scratch scratch st = record st { encode_buffer = scratch }

-- The scratch buffer plays no part in the invariant.
pub with_scratch-IsValid :
    {R W : Type 0} (limit : ℕ) (scratch : List ℕ) (st : Framing R W)
    → IsValid limit st
    → IsValid limit (with_scratch scratch st)
with_scratch-IsValid limit scratch st v = record {
  offset_le = v.offset_le;
  search_le = v.search_le;
  filled_le = v.filled_le;
  sized = v.sized;
  searched = v.searched;
  decobs_sized = v.decobs_sized;
  encobs_sized = v.encobs_sized;
}

module _ {R W : Type 0} (env : Env R W) (c : Crypto) {M : Type 0} (message : Message M)
    (limit : ℕ) where
  pub send_message-delivers :
      (packet : List ℕ) (msg : M) (s : Session c) (h : HostSide R W c)
      → h.session ≡ some s
      → (seal c limit message msg (s, h.framing.encode_buffer)).0 ≡ ok packet
      → (send_packet env packet
          (with_scratch (seal c limit message msg (s, h.framing.encode_buffer)).1.1 h.framing)).0
        ≡ ok tt
      → send_message env c limit message msg h ≡ (
        ok tt,
        record h {
          framing =
              (send_packet env packet (
                with_scratch
                  (seal c limit message msg (s, h.framing.encode_buffer)).1.1
                  h.framing)).1;
          session = some (seal c limit message msg (s, h.framing.encode_buffer)).1.0;
        },
      )
  unfolding send_message seal_with deliver guard_session guard_transport
  send_message-delivers packet msg s h session sealed sent = rw (session, sealed, sent)

module _ {R W : Type 0} (env : Env R W) (script : Script env.reader) (k : ℕ) where
  pub with_scratch-Alike :
      (scratch : List ℕ) (st st' : Framing R W)
      → Alike env script k st st'
      → Alike env script k (with_scratch scratch st) (with_scratch scratch st')
  with_scratch-Alike scratch st st' x = record {
    live = record {
      valid = with_scratch-IsValid env.frame_limit scratch st x.live.valid;
      coming = x.live.coming;
    };
    live' = record {
      valid = with_scratch-IsValid env.frame_limit scratch st' x.live'.valid;
      coming = x.live'.coming;
    };
    same_rest = x.same_rest;
    same_outside = ap (λ o. (o.0, o.1, o.2, scratch)) x.same_outside;
  }
