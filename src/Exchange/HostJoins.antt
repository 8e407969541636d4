-- ===== src/Exchange/HostJoins.antt =====
-- The host joins the session: behind stale packets it finds the Ark's hello, and acknowledges it.
use darkbio_wire_rs.Common.{
  ℕ, ◌≤◌, ◌≡◌, refl, ap, sym, subst, ◌∙◌, true, some, List, ◌++◌, map, length, arith,
}
use darkbio_wire_rs.Error.{Outcome, value, ok}
use darkbio_wire_rs.Io.{Env}
use darkbio_wire_rs.Io.Laws.{Event, byte, MemchrLaws, Script, CobsLaws, Sink}
use darkbio_wire_rs.Limits.{
  crypto_domain_wire, crypto_domain_wire_ark_to_host, crypto_domain_wire_host_to_ark,
}
use darkbio_wire_rs.Crypto.{Crypto}
use darkbio_wire_rs.Crypto.Honest.{Honest, HasRoom}
use darkbio_wire_rs.Attestation
use darkbio_wire_rs.Attestation.{Attestation, Verifier}
use darkbio_wire_rs.Session.Laws.{Secure}
use darkbio_wire_rs.Framing.Inv.{IsValid, rest}
use darkbio_wire_rs.Framing.Read.{IsEnough}
use darkbio_wire_rs.Framing.Send.{packet_wire}
use darkbio_wire_rs.Framing.Sink.{send_packet-Writes, send_packet-keeps_rest}
use darkbio_wire_rs.Host.{HostSide, Greeting, skip_stale, max_stale_frames, is_for}
use darkbio_wire_rs.Host.Tail.{HostKeys, shown, conclude, conclude-ends}
use darkbio_wire_rs.Host.Honest.{
  Sent, AllStale, stream_of, skip_stale-Finds, read_ark_hello-accepts, establish-ends,
}
use darkbio_wire_rs.Exchange.Transcript.{
  ark_secret, ark_hello, ark_message, to_host, to_ark, host_message, host_auth, host_ack,
}

module _ {R W : Type 0} (env : Env R W) {c : Crypto} (secure : Secure c) (honest : Honest secure)
    {n : ℕ} (room : HasRoom env c n) (cobs : CobsLaws env.cobs) (script : Script env.reader)
    (laws : MemchrLaws env.memchr) (sink : Sink env.writer) {Info : Type 0} where
  module _ (keys : HostKeys c) (signer : c.SigningKey) (cwt : List ℕ) (ark_rng : c.Rng) where
    -- The host has a session with the Ark, and has written its ack.
    pub record Joins (info : Info) (es : List Event) (h : HostSide R W c)
        (p : Outcome Info × HostSide R W c) : Type 0 where
      pub done : p.0 ≡ ok info
      pub session :
          p.1.session
          ≡ some (record {
            sender = (to_ark secure honest keys signer cwt ark_rng h.rng).sender;
            receiver = (to_host secure honest keys signer cwt ark_rng h.rng).receiver;
          })
      pub scratch : List ℕ
      pub coded :
          env.cobs.encode_buffer (length (host_ack secure honest keys signer cwt ark_rng h.rng))
          ≤ length scratch
      pub written :
          sink.written p.1.framing.writer
          ≡ sink.written h.framing.writer
            ++ packet_wire env (host_ack secure honest keys signer cwt ark_rng h.rng) scratch
      pub valid : IsValid env.frame_limit p.1.framing
      pub left_over : rest env script p.1.framing ≡ es

    pub conclude-Joins :
        (fuel : ℕ) (verifier : Verifier c.VerifyingKey Info) (info : Info)
        (stale : List (Sent env c)) (buf : List ℕ) (es : List Event) (h : HostSide R W c)
        → length cwt ≤ n
        → Attestation.new c cwt ≡ ok (record { cwt = cwt })
        → verifier.verify (record { cwt = cwt }) ≡ value (c.verifying_key signer, info)
        → length stale ≤ max_stale_frames
        → AllStale env c (c.fingerprint (c.public_key keys.secret)) stale
        → env.cobs.encode_buffer (length (ark_hello secure honest keys signer cwt ark_rng h.rng))
          ≤ length buf
        → IsValid env.frame_limit h.framing
        → IsEnough env script fuel (rest env script h.framing)
        → rest env script h.framing
          ≡ stream_of env c stale (
              map byte (packet_wire env (ark_hello secure honest keys signer cwt ark_rng h.rng) buf)
              ++ es)
        → Joins info es h (conclude env c fuel verifier keys h)
    conclude-Joins fuel verifier info stale buf es h short shaped trusted few old coded v enough
          next =
        let pk = c.public_key keys.secret in
        let m = ark_message secure honest keys signer cwt ark_rng h.rng in
        let hello =
          honest.ark_hello m (shown c keys) signer keys.secret crypto_domain_wire
            (c.new_sender pk crypto_domain_wire_ark_to_host (c.generate_secret ark_rng).1).1 in
        let a2h =
          honest.contexts keys.secret crypto_domain_wire_ark_to_host
            (c.generate_secret ark_rng).1 in
        let ark_pk = c.public_key (ark_secret secure honest keys signer cwt ark_rng h.rng) in
        let h2a =
          honest.contexts (ark_secret secure honest keys signer cwt ark_rng h.rng)
            crypto_domain_wire_host_to_ark h.rng in
        let rng = (c.new_sender ark_pk crypto_domain_wire_host_to_ark h.rng).1 in
        let message = host_message secure honest keys signer cwt ark_rng h.rng in
        let auth = host_auth secure honest keys signer cwt ark_rng h.rng in
        let ack =
          honest.host_ack message auth keys.signer
            (ark_secret secure honest keys signer cwt ark_rng h.rng) crypto_domain_wire rng in
        let fp = c.fingerprint pk in
        let mine : is_for env c fp (c.recipient hello.0) ≡ true =
          rw hello.3 (honest.fingerprint_self fp) in
        let p = skip_stale env c fuel fp max_stale_frames h in
        let found =
          skip_stale-Finds env c cobs script laws fuel max_stale_frames fp stale hello.0 buf es h
            few old
            (room.ark_hello_fits m (shown c keys) signer pk crypto_domain_wire
              (c.new_sender pk crypto_domain_wire_ark_to_host (c.generate_secret ark_rng).1).1
              hello.0 short a2h.3 hello.2)
            coded mine v enough next in
        let h1 : HostSide R W c = record h { framing = p.1.framing } in
        let g : Greeting c Info = record {
          ark_identity = c.verifying_key signer;
          info = info;
          ark_hello = m;
        } in
        let fits =
          room.ack_fits message auth keys.signer ark_pk crypto_domain_wire rng ack.0 h2a.3 ack.1 in
        let sent = send_packet-Writes env sink cobs ack.0 p.1.framing found.valid fits in
        let accepted =
          read_ark_hello-accepts env c verifier (shown c keys) keys.secret (length hello.0) h1
            hello.0 hello.1 m (record { cwt = cwt }) (c.verifying_key signer) info found.bytes
            hello.4 hello.5 shaped trusted hello.6 in
        let joined =
          establish-ends env c keys.signer keys.secret g h1 a2h.4 h2a.0 h2a.1 ack.0 a2h.3 a2h.5
            h2a.2 ack.1 sent.done in
        let ends =
          conclude-ends env c fuel verifier keys (length hello.0) g
            (record { sender = h2a.0; receiver = a2h.4 }) h h1 _ found.found accepted joined in
        subst (Joins info es h) (sym ends) (record {
          done = refl;
          session = refl;
          scratch = p.1.framing.encobs_buffer;
          coded = omega (arith, found.valid.encobs_sized);
          written =
              sent.written
              ∙ ap (λ w. sink.written w ++ packet_wire env ack.0 p.1.framing.encobs_buffer)
                  found.same_writer;
          valid = sent.valid;
          left_over =
              send_packet-keeps_rest env sink cobs script ack.0 p.1.framing found.valid fits
              ∙ found.left_over;
        })
