-- ===== src/Ark/Honest.antt =====
-- The steps of the Ark's handshake with a host that answers.
use darkbio_wire_rs.Common.{
  ℕ, zero, suc, ◌≤◌, ◌<◌, ◌≡◌, refl, ◌∙◌, some, List, ◌++◌, map, length, replicate, eq→==, arith,
}
use darkbio_wire_rs.Common.Slices.{slice?}
use darkbio_wire_rs.Error.{value, Outcome, ok}
use darkbio_wire_rs.Io.{Env}
use darkbio_wire_rs.Io.Laws.{Event, byte, MemchrLaws, Script, CobsLaws}
use darkbio_wire_rs.Limits.{
  crypto_domain_wire, crypto_domain_wire_ark_to_host, crypto_domain_wire_host_to_ark,
}
use darkbio_wire_rs.Handshake.{HostHello, HostAck}
use darkbio_wire_rs.Crypto.{Crypto}
use darkbio_wire_rs.Attestation.{Attester, into_bytes}
use darkbio_wire_rs.Framing
use darkbio_wire_rs.Framing.{Framing}
use darkbio_wire_rs.Framing.Inv.{IsValid, rest}
use darkbio_wire_rs.Framing.Read.{IsEnough, IsEnough-mono}
use darkbio_wire_rs.Framing.Send.{packet_wire}
use darkbio_wire_rs.Framing.Arrive.{next_packet-Arrives, next_packet-Resets}
use darkbio_wire_rs.Ark.{ArkSide, Greeting, read_hello, sized_h2a, greet, accept}

module _ {R W A : Type 0} (env : Env R W) (c : Crypto) (attester : Attester A) where
  module _ (cobs : CobsLaws env.cobs) (script : Script env.reader)
      (laws : MemchrLaws env.memchr) where
    -- The packet was found, and nothing but the framer moved.
    pub record Finds (packet : List ℕ) (es : List Event) (a : ArkSide R W A c)
        (p : Outcome ℕ × ArkSide R W A c) : Type 0 where
      pub found : p ≡ (ok (length packet), record a { framing = p.1.framing })
      pub bytes : slice? p.1.framing.decobs_buffer 0 (length packet) ≡ some packet
      pub left_over : rest env script p.1.framing ≡ es
      pub valid : IsValid env.frame_limit p.1.framing
      pub same_writer : p.1.framing.writer ≡ a.framing.writer

    -- The hello is read behind empty frames.
    pub read_hello-Finds :
        (fuel more k : ℕ) (packet buf : List ℕ) (es : List Event) (a : ArkSide R W A c)
        → k < more
        → env.cobs.encode_buffer (length packet) ≤ env.frame_limit
        → env.cobs.encode_buffer (length packet) ≤ length buf
        → IsValid env.frame_limit a.framing
        → IsEnough env script fuel (rest env script a.framing)
        → rest env script a.framing
          ≡ replicate k (byte 0) ++ (map byte (packet_wire env packet buf) ++ es)
        → Finds packet es a (read_hello env c attester fuel more a)
    unfolding read_hello
    read_hello-Finds fuel zero k packet buf es a few fits coded v enough next = absurd (omega arith)
    read_hello-Finds fuel (suc more) zero packet buf es a few fits coded v enough next =
        let r =
          next_packet-Arrives env cobs script laws fuel packet buf es a.framing fits coded v enough
            next in
        rw r.received (record {
          found = refl;
          bytes = r.bytes;
          left_over = r.left_over;
          valid = r.valid;
          same_writer = r.same_writer;
        })
    read_hello-Finds fuel (suc more) (suc k) packet buf es a few fits coded v enough next =
        let later = replicate k (byte 0) ++ (map byte (packet_wire env packet buf) ++ es) in
        let r = next_packet-Resets env cobs script laws fuel later a.framing v enough next in
        let st = (Framing.next_packet env fuel a.framing).1 in
        let ih =
          read_hello-Finds fuel more k packet buf es (record a { framing = st }) (omega arith) fits
            coded r.valid
            (IsEnough-mono env script fuel (rest env script a.framing) (rest env script st)
              (rw (r.left_over, next) (omega arith)) enough)
            r.left_over in
        rw r.received (record {
          found = ih.found;
          bytes = ih.bytes;
          left_over = ih.left_over;
          valid = ih.valid;
          same_writer = ih.same_writer ∙ r.same_writer;
        })

  -- The Ark once its hello is sent.
  pub greet-ends :
      (fuel more size : ℕ) (a a1 : ArkSide R W A c) (bytes encap hello : List ℕ)
      (m : HostHello c.VerifyingKey c.PublicKey) (sender : c.Sender)
      → let secret = (c.generate_secret a1.rng).0 in
        let made =
          c.new_sender m.host_crypto crypto_domain_wire_ark_to_host (c.generate_secret a1.rng).1 in
        let sealed =
          c.seal_ark_hello
            (record {
              ark_attest = into_bytes (attester.attest a1.attester).0;
              ark_crypto = c.public_key secret;
              a2h_encap = encap;
            })
            (record { host_signer = m.host_signer; host_crypto = m.host_crypto })
            a1.signer
            m.host_crypto
            crypto_domain_wire
            made.1 in
        (read_hello env c attester fuel more a ≡ (ok size, a1))
        → slice? a1.framing.decobs_buffer 0 size ≡ some bytes
        → c.decode_host_hello bytes ≡ value m
        → made.0 ≡ value (sender, encap)
        → sealed.0 ≡ value hello
        → (Framing.send_packet env hello a1.framing).0 ≡ ok tt
        → greet env c attester fuel more a ≡ (
          ok (record { host_hello = m; ark_crypto_key = secret; sender = sender }),
          record a1 {
            framing = (Framing.send_packet env hello a1.framing).1;
            attester = (attester.attest a1.attester).1;
            rng = sealed.1;
          },
        )
  unfolding greet
  greet-ends fuel more size a a1 bytes encap hello m sender read b decoded sending sealed sent =
      rw (read, b, decoded, sending, sealed, sent) refl

  pub accept-ends :
      (g : Greeting c) (size : ℕ) (a : ArkSide R W A c) (bytes : List ℕ)
      (ack : HostAck c.VerifyingKey c.PublicKey) (receiver : c.Receiver)
      → slice? a.framing.decobs_buffer 0 size ≡ some bytes
      → c.open_host_ack bytes
          (record {
            ark_signer = c.verifying_key a.signer;
            ark_crypto = c.public_key g.ark_crypto_key;
          })
          g.ark_crypto_key
          g.host_hello.host_signer
          crypto_domain_wire
        ≡ value ack
      → length ack.h2a_encap ≡ c.encap_key_size
      → c.new_receiver g.ark_crypto_key ack.h2a_encap crypto_domain_wire_host_to_ark
        ≡ value receiver
      → accept env c attester g size a ≡ (ok (record { sender = g.sender; receiver = receiver }), a)
  unfolding accept
  accept-ends g size a bytes ack receiver b opened sized receiving =
      rw (b, opened, sized_h2a, eq→== (length ack.h2a_encap) c.encap_key_size sized, receiving) refl
