-- ===== src/Exchange/ArkJoins.antt =====
-- The Ark joins the session: it opens the host's ack.
use darkbio_wire_rs.Common.{ℕ, ◌≤◌, ◌≡◌, refl, subst, sym, List, ◌++◌, map, length}
use darkbio_wire_rs.Error.{Outcome, ok}
use darkbio_wire_rs.Io.{Env}
use darkbio_wire_rs.Io.Laws.{Event, byte, MemchrLaws, Script, CobsLaws}
use darkbio_wire_rs.Limits.{crypto_domain_wire, crypto_domain_wire_host_to_ark}
use darkbio_wire_rs.Crypto.{Crypto}
use darkbio_wire_rs.Crypto.Honest.{Honest, HasRoom}
use darkbio_wire_rs.Attestation.{Attester}
use darkbio_wire_rs.Session.{Session}
use darkbio_wire_rs.Session.Laws.{Secure}
use darkbio_wire_rs.Framing
use darkbio_wire_rs.Framing.{Framing}
use darkbio_wire_rs.Framing.Inv.{IsValid, rest}
use darkbio_wire_rs.Framing.Read.{IsEnough}
use darkbio_wire_rs.Framing.Send.{packet_wire}
use darkbio_wire_rs.Framing.Arrive.{next_packet-Arrives}
use darkbio_wire_rs.Host.Tail.{HostKeys}
use darkbio_wire_rs.Ark.{ArkSide}
use darkbio_wire_rs.Ark.Tail.{await_ack, await_ack-ends}
use darkbio_wire_rs.Ark.Honest.{accept-ends}
use darkbio_wire_rs.Exchange.Transcript.{
  ark_secret, ark_greeting, to_host, to_ark, host_message, host_auth, host_ack,
}

module _ {R W A : Type 0} (env : Env R W) {c : Crypto} (attester : Attester A) (secure : Secure c)
    (honest : Honest secure) {n : ℕ} (room : HasRoom env c n) (cobs : CobsLaws env.cobs)
    (script : Script env.reader) (laws : MemchrLaws env.memchr) (keys : HostKeys c)
    (signer : c.SigningKey) (cwt : List ℕ) (ark_rng host_rng : c.Rng) where
  -- The Ark has a session, and has written nothing.
  pub record Acknowledged (es : List Event) (a : ArkSide R W A c)
      (p : Outcome (Session c) × ArkSide R W A c) : Type 0 where
    pub done :
        p.0
        ≡ ok (record {
          sender = (to_host secure honest keys signer cwt ark_rng host_rng).sender;
          receiver = (to_ark secure honest keys signer cwt ark_rng host_rng).receiver;
        })
    pub same_writer : p.1.framing.writer ≡ a.framing.writer
    pub valid : IsValid env.frame_limit p.1.framing
    pub left_over : rest env script p.1.framing ≡ es

  pub await_ack-Acknowledged :
      (fuel rounds : ℕ) (buf : List ℕ) (es : List Event) (a : ArkSide R W A c)
      → a.signer ≡ signer
      → env.cobs.encode_buffer (length (host_ack secure honest keys signer cwt ark_rng host_rng))
        ≤ length buf
      → IsValid env.frame_limit a.framing
      → IsEnough env script fuel (rest env script a.framing)
      → rest env script a.framing
        ≡ map byte (packet_wire env (host_ack secure honest keys signer cwt ark_rng host_rng) buf)
          ++ es
      → Acknowledged es a (
          await_ack env c attester fuel rounds
            (ark_greeting secure honest keys signer cwt ark_rng host_rng)
            a)
  await_ack-Acknowledged fuel rounds buf es a same coded v enough next =
      let secret = ark_secret secure honest keys signer cwt ark_rng host_rng in
      let pk = c.public_key secret in
      let h2a = honest.contexts secret crypto_domain_wire_host_to_ark host_rng in
      let rng = (c.new_sender pk crypto_domain_wire_host_to_ark host_rng).1 in
      let message = host_message secure honest keys signer cwt ark_rng host_rng in
      let auth = host_auth secure honest keys signer cwt ark_rng host_rng in
      let ack = honest.host_ack message auth keys.signer secret crypto_domain_wire rng in
      let fits =
        room.ack_fits message auth keys.signer pk crypto_domain_wire rng ack.0 h2a.3 ack.1 in
      let r =
        next_packet-Arrives env cobs script laws fuel ack.0 buf es a.framing fits coded v enough
          next in
      let a' : ArkSide R W A c = record a {
        framing = (Framing.next_packet env fuel a.framing).1;
      } in
      let g = ark_greeting secure honest keys signer cwt ark_rng host_rng in
      let ends =
        await_ack-ends env c attester fuel rounds (length ack.0) g
          (record { sender = g.sender; receiver = h2a.4 }) a a' r.received
          (accept-ends env c attester g (length ack.0) a' ack.0 message h2a.4 r.bytes
            (rw same ack.2) h2a.3 h2a.5) in
      subst (Acknowledged es a) (sym ends) (record {
        done = refl;
        same_writer = r.same_writer;
        valid = r.valid;
        left_over = r.left_over;
      })
