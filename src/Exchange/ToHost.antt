-- ===== src/Exchange/ToHost.antt =====
-- A message from the Ark to the host.
use darkbio_wire_rs.Common.{ℕ, suc, ◌≤◌, ◌≡◌, refl, ap, sym, subst₂, ◌∙◌, List, ◌++◌, map, length}
use darkbio_wire_rs.Error.{Outcome, ok}
use darkbio_wire_rs.Io.{Env}
use darkbio_wire_rs.Io.Laws.{Event, byte, MemchrLaws, Script, CobsLaws, Sink}
use darkbio_wire_rs.Limits.{framed}
use darkbio_wire_rs.Crypto.{Message, Crypto}
use darkbio_wire_rs.Attestation.{Attester}
use darkbio_wire_rs.Session.{seal, open_packet}
use darkbio_wire_rs.Session.Laws.{Secure, Codec}
use darkbio_wire_rs.Session.RoundTrip.{seal-open_packet}
use darkbio_wire_rs.Framing.Inv.{rest}
use darkbio_wire_rs.Framing.Read.{IsEnough}
use darkbio_wire_rs.Host.{HostSide, next_message}
use darkbio_wire_rs.Host.Send.{with_scratch, with_scratch-IsValid}
use darkbio_wire_rs.Host.Receive.{next_message-opens}
use darkbio_wire_rs.Ark.{ArkSide, send_message}
use darkbio_wire_rs.Ark.Send.{send_message-delivers}
use darkbio_wire_rs.Exchange.{IsLinked}
use darkbio_wire_rs.Framing.Sink.{send_packet-Writes, send_packet-keeps_rest}
use darkbio_wire_rs.Framing.{Framing}
use darkbio_wire_rs.Framing.Appends.{next_packet-SameWriter}
use darkbio_wire_rs.Exchange.Travel.{send_packet-Travels}

module _ {R W A : Type 0} (env : Env R W) {c : Crypto} (attester : Attester A) (secure : Secure c)
    {M : Type 0} (message : Message M) (codec : Codec message) (limit : ℕ)
    (cobs : CobsLaws env.cobs) (script : Script env.reader) (laws : MemchrLaws env.memchr)
    (sink : Sink env.writer) where
  -- The message was sent and received, the sides are linked again, and the host's stream goes on.
  pub record Answered (k n : ℕ) (msg : M) (es : List Event) (from to : Framing R W)
      (sent : Outcome (Unit {0}) × ArkSide R W A c) (got : Outcome M × HostSide R W c)
      : Type 0 where
    pub delivered : sent.0 ≡ ok tt
    pub received : got.0 ≡ ok msg
    pub linked : IsLinked env secure k n got.1 sent.1
    pub left_over : rest env script got.1.framing ≡ es
    pub unread : rest env script sent.1.framing ≡ rest env script from
    pub unwritten : got.1.framing.writer ≡ to.writer

  -- In a linked session, a message of the Ark within the limit, whose frame fits, is sent without an
  -- error; and the host, if the bytes that were written come next in its stream, in any portions,
  -- returns that message. The two sides are linked again, with one message to the host less to come,
  -- and the rest of the host's stream is left over; the Ark has read nothing and the host written
  -- nothing.
  pub ark_to_host :
      (k n fuel : ℕ) (msg : M) (bytes : List ℕ) (es : List Event) (h : HostSide R W c)
      (a : ArkSide R W A c)
      → message.encoded_len msg ≤ limit
      → framed env.cobs.encode_buffer (message.encoded_len msg) ≤ env.frame_limit
      → IsLinked env secure k (suc n) h a
      → sink.written (send_message env c attester limit message msg a).1.framing.writer
        ≡ sink.written a.framing.writer ++ bytes
      → IsEnough env script fuel (rest env script h.framing)
      → rest env script h.framing ≡ map byte bytes ++ es
      → Answered k n msg es a.framing h.framing
          (send_message env c attester limit message msg a)
          (next_message env c message fuel h)
  ark_to_host k n fuel msg bytes es h a small fits link written enough next =
      let scratch = a.framing.encode_buffer in
      let sealed = seal c limit message msg (link.ark, scratch) in
      let carried =
        seal-open_packet c secure message codec limit n msg link.ark link.host scratch small
          link.to_host in
      let from = with_scratch sealed.1.1 a.framing in
      let valid = with_scratch-IsValid env.frame_limit sealed.1.1 a.framing link.ark_valid in
      let fits' : env.cobs.encode_buffer (length carried.packet) ≤ env.frame_limit =
        rw carried.size fits in
      let sends =
        send_message-delivers env c attester message limit carried.packet msg link.ark a
          link.ark_session carried.sealed
          (send_packet-Writes env sink cobs carried.packet from valid fits').done in
      let travels =
        send_packet-Travels env cobs script laws sink fuel carried.packet bytes es from h.framing
          fits' valid link.host_valid
          (ap (λ p. sink.written p.1.framing.writer) (sym sends) ∙ written) enough next in
      let gets =
        next_message-opens env c message fuel (length carried.packet) carried.packet msg link.host h
          link.host_session travels.received travels.bytes carried.opened in
      subst₂ (Answered k n msg es a.framing h.framing) (sym sends) (sym gets) (record {
        delivered = refl;
        received = refl;
        linked = record {
          host = (open_packet c message carried.packet link.host).1;
          ark = sealed.1.0;
          host_session = refl;
          ark_session = refl;
          to_ark =
              subst₂ (secure.Paired k) (sym carried.to_kept) (sym carried.from_kept) link.to_ark;
          to_host = carried.paired;
          host_valid = travels.received_valid;
          ark_valid = travels.sent_valid;
        };
        left_over = travels.left_over;
        unread = send_packet-keeps_rest env sink cobs script carried.packet from valid fits';
        unwritten = (next_packet-SameWriter env fuel).moves h.framing;
      })
