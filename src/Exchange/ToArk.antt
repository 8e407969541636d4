-- ===== src/Exchange/ToArk.antt =====
-- A message from the host to the Ark.
use darkbio_wire_rs.Common.{ℕ, suc, ◌≤◌, ◌≡◌, refl, ap, sym, subst₂, ◌∙◌, List, ◌++◌, map, length}
use darkbio_wire_rs.Error.{Outcome, ok}
use darkbio_wire_rs.Io.{Env}
use darkbio_wire_rs.Io.Laws.{Event, byte, MemchrLaws, Script, CobsLaws, Sink}
use darkbio_wire_rs.Limits.{framed}
use darkbio_wire_rs.Crypto.{Message, Crypto}
use darkbio_wire_rs.Attestation.{Attester}
use darkbio_wire_rs.Session.{seal, open_packet}
use darkbio_wire_rs.Session.Laws.{Secure, Codec}
use darkbio_wire_rs.Session.RoundTrip.{seal-open_packet}
use darkbio_wire_rs.Framing.Inv.{rest}
use darkbio_wire_rs.Framing.Read.{IsEnough}
use darkbio_wire_rs.Host.{HostSide, send_message}
use darkbio_wire_rs.Host.Send.{with_scratch, with_scratch-IsValid, send_message-delivers}
use darkbio_wire_rs.Ark.{ArkSide, next_message}
use darkbio_wire_rs.Ark.Serve.{next_message-opens}
use darkbio_wire_rs.Exchange.{IsLinked}
use darkbio_wire_rs.Framing.Sink.{send_packet-Writes, send_packet-keeps_rest}
use darkbio_wire_rs.Framing.{Framing}
use darkbio_wire_rs.Framing.Appends.{next_packet-SameWriter}
use darkbio_wire_rs.Exchange.Travel.{send_packet-Travels}

module _ {R W A : Type 0} (env : Env R W) {c : Crypto} (attester : Attester A) (secure : Secure c)
    {M : Type 0} (message : Message M) (codec : Codec message) (limit : ℕ)
    (cobs : CobsLaws env.cobs) (script : Script env.reader) (laws : MemchrLaws env.memchr)
    (sink : Sink env.writer) where
  -- The message was sent and received, the sides are linked again, and the Ark's stream goes on.
  pub record Exchanged (k n : ℕ) (msg : M) (es : List Event) (from to : Framing R W)
      (sent : Outcome (Unit {0}) × HostSide R W c) (got : Outcome M × ArkSide R W A c)
      : Type 0 where
    pub delivered : sent.0 ≡ ok tt
    pub received : got.0 ≡ ok msg
    pub linked : IsLinked env secure k n sent.1 got.1
    pub left_over : rest env script got.1.framing ≡ es
    pub unread : rest env script sent.1.framing ≡ rest env script from
    pub unwritten : got.1.framing.writer ≡ to.writer

  -- In a linked session, a message of the host within the limit, whose frame fits, is sent without
  -- an error; and the Ark, if the bytes that were written come next in its stream, in any portions,
  -- returns that message. The two sides are linked again, with one message to the Ark less to come,
  -- and the rest of the Ark's stream is left over; the host has read nothing and the Ark written
  -- nothing.
  pub host_to_ark :
      (k n fuel rounds : ℕ) (msg : M) (bytes : List ℕ) (es : List Event) (h : HostSide R W c)
      (a : ArkSide R W A c)
      → message.encoded_len msg ≤ limit
      → framed env.cobs.encode_buffer (message.encoded_len msg) ≤ env.frame_limit
      → IsLinked env secure (suc k) n h a
      → sink.written (send_message env c limit message msg h).1.framing.writer
        ≡ sink.written h.framing.writer ++ bytes
      → IsEnough env script fuel (rest env script a.framing)
      → rest env script a.framing ≡ map byte bytes ++ es
      → Exchanged k n msg es h.framing a.framing
          (send_message env c limit message msg h)
          (next_message env c attester message fuel (suc rounds) a)
  host_to_ark k n fuel rounds msg bytes es h a small fits link written enough next =
      let scratch = h.framing.encode_buffer in
      let sealed = seal c limit message msg (link.host, scratch) in
      let carried =
        seal-open_packet c secure message codec limit k msg link.host link.ark scratch small
          link.to_ark in
      let from = with_scratch sealed.1.1 h.framing in
      let valid = with_scratch-IsValid env.frame_limit sealed.1.1 h.framing link.host_valid in
      let fits' : env.cobs.encode_buffer (length carried.packet) ≤ env.frame_limit =
        rw carried.size fits in
      let sends =
        send_message-delivers env c message limit carried.packet msg link.host h link.host_session
          carried.sealed (send_packet-Writes env sink cobs carried.packet from valid fits').done in
      let travels =
        send_packet-Travels env cobs script laws sink fuel carried.packet bytes es from a.framing
          fits' valid link.ark_valid
          (ap (λ p. sink.written p.1.framing.writer) (sym sends) ∙ written) enough next in
      let gets =
        next_message-opens env c attester message fuel rounds (length carried.packet) carried.packet
          msg link.ark a link.ark_session travels.received travels.bytes carried.opened in
      subst₂ (Exchanged k n msg es h.framing a.framing) (sym sends) (sym gets) (record {
        delivered = refl;
        received = refl;
        linked = record {
          host = sealed.1.0;
          ark = (open_packet c message carried.packet link.ark).1;
          host_session = refl;
          ark_session = refl;
          to_ark = carried.paired;
          to_host =
              subst₂ (secure.Paired n) (sym carried.to_kept) (sym carried.from_kept) link.to_host;
          host_valid = travels.sent_valid;
          ark_valid = travels.received_valid;
        };
        left_over = travels.left_over;
        unread = send_packet-keeps_rest env sink cobs script carried.packet from valid fits';
        unwritten = (next_packet-SameWriter env fuel).moves a.framing;
      })
