-- ===== src/Exchange/ArkGreets.antt =====
-- The Ark answers the host's hello.
use darkbio_wire_rs.Common.{
  ℕ, ◌≤◌, ◌<◌, ◌≡◌, refl, ap, ◌∙◌, List, ◌++◌, map, length, replicate, arith,
}
use darkbio_wire_rs.Error.{value, ok}
use darkbio_wire_rs.Io.{Env}
use darkbio_wire_rs.Io.Laws.{Event, byte, MemchrLaws, Script, CobsLaws, Sink}
use darkbio_wire_rs.Limits.{crypto_domain_wire, crypto_domain_wire_ark_to_host}
use darkbio_wire_rs.Crypto.{Crypto}
use darkbio_wire_rs.Crypto.Honest.{Honest, HasRoom}
use darkbio_wire_rs.Attestation.{Attester, into_bytes}
use darkbio_wire_rs.Session.Laws.{Secure}
use darkbio_wire_rs.Framing.Inv.{IsValid, rest}
use darkbio_wire_rs.Framing.Read.{IsEnough}
use darkbio_wire_rs.Framing.Send.{packet_wire}
use darkbio_wire_rs.Framing.Sink.{send_packet-Writes, send_packet-keeps_rest}
use darkbio_wire_rs.Host.Tail.{HostKeys, shown}
use darkbio_wire_rs.Ark.{ArkSide, Greeting, read_hello, greet}
use darkbio_wire_rs.Ark.Honest.{read_hello-Finds, greet-ends}
use darkbio_wire_rs.Exchange.Transcript.{ark_hello, ark_message, ark_greeting}

module _ {R W A : Type 0} (env : Env R W) {c : Crypto} (attester : Attester A) (secure : Secure c)
    (honest : Honest secure) {n : ℕ} (room : HasRoom env c n) (cobs : CobsLaws env.cobs)
    (script : Script env.reader) (laws : MemchrLaws env.memchr) (sink : Sink env.writer)
    (keys : HostKeys c) (host_rng : c.Rng) where
  -- What the Ark presents.
  abbrev pub presented : ArkSide R W A c → List ℕ
  presented a = (attester.attest a.attester).0.cwt

  -- The hello that it seals, whatever the host draws later.
  abbrev pub answer : ArkSide R W A c → List ℕ
  answer a = ark_hello secure honest keys a.signer (presented a) a.rng host_rng

  -- What it holds of the first two messages.
  abbrev pub greeting : ArkSide R W A c → Greeting c
  greeting a = ark_greeting secure honest keys a.signer (presented a) a.rng host_rng

  pub record Greets (fuel more : ℕ) (es : List Event) (a : ArkSide R W A c) : Type 0 where
    pub after : ArkSide R W A c
    pub greeted : greet env c attester fuel more a ≡ (ok (greeting a), after)
    pub scratch : List ℕ
    pub coded : env.cobs.encode_buffer (length (answer a)) ≤ length scratch
    pub written :
        sink.written after.framing.writer
        ≡ sink.written a.framing.writer ++ packet_wire env (answer a) scratch
    pub valid : IsValid env.frame_limit after.framing
    pub left_over : rest env script after.framing ≡ es
    pub same_signer : after.signer ≡ a.signer

  pub greet-Greets :
      (fuel more k : ℕ) (hello buf : List ℕ) (es : List Event) (a : ArkSide R W A c)
      → c.encode_host_hello (record {
        host_signer = c.verifying_key keys.signer;
        host_crypto = c.public_key keys.secret;
      })
        ≡ value hello
      → c.decode_host_hello hello
        ≡ value (record {
          host_signer = c.verifying_key keys.signer;
          host_crypto = c.public_key keys.secret;
        })
      → length (presented a) ≤ n
      → k < more
      → env.cobs.encode_buffer (length hello) ≤ length buf
      → IsValid env.frame_limit a.framing
      → IsEnough env script fuel (rest env script a.framing)
      → rest env script a.framing
        ≡ replicate k (byte 0) ++ (map byte (packet_wire env hello buf) ++ es)
      → Greets fuel more es a
  unfolding into_bytes
  greet-Greets fuel more k hello buf es a encoded decoded short few coded v enough next =
      let pk = c.public_key keys.secret in
      let rng = (c.generate_secret a.rng).1 in
      let a2h = honest.contexts keys.secret crypto_domain_wire_ark_to_host rng in
      let rng' = (c.new_sender pk crypto_domain_wire_ark_to_host rng).1 in
      let m = ark_message secure honest keys a.signer (presented a) a.rng host_rng in
      let sealed = honest.ark_hello m (shown c keys) a.signer keys.secret crypto_domain_wire rng' in
      let hello_fits =
        room.hello_fits (record { host_signer = c.verifying_key keys.signer; host_crypto = pk })
          hello encoded in
      let found =
        read_hello-Finds env c attester cobs script laws fuel more k hello buf es a few hello_fits
          coded v enough next in
      let st = (read_hello env c attester fuel more a).1.framing in
      let fits =
        room.ark_hello_fits m (shown c keys) a.signer pk crypto_domain_wire rng' sealed.0 short
          a2h.3 sealed.2 in
      let sent = send_packet-Writes env sink cobs sealed.0 st found.valid fits in
      record {
        after = _;
        greeted =
            greet-ends env c attester fuel more (length hello) a (record a { framing = st }) hello
              a2h.1 sealed.0
              (record { host_signer = c.verifying_key keys.signer; host_crypto = pk }) a2h.0
              found.found found.bytes decoded a2h.2 sealed.2 sent.done;
        scratch = st.encobs_buffer;
        coded = omega (arith, found.valid.encobs_sized);
        written =
            sent.written
            ∙ ap (λ w. sink.written w ++ packet_wire env sealed.0 st.encobs_buffer)
                found.same_writer;
        valid = sent.valid;
        left_over =
            send_packet-keeps_rest env sink cobs script sealed.0 st found.valid fits
            ∙ found.left_over;
        same_signer = refl;
      }
