-- ===== src/Exchange/Starts.antt =====
-- The host's handshake up to where it reads, and what it writes in all.
use darkbio_wire_rs.Common.{ℕ, ◌≡◌, ap, sym, ◌∙◌, List, ◌∷◌, ◌++◌, append_assoc}
use darkbio_wire_rs.Io.{Env}
use darkbio_wire_rs.Io.Laws.{Script, CobsLaws, Sink}
use darkbio_wire_rs.Handshake.{HostHello}
use darkbio_wire_rs.Crypto.{Crypto}
use darkbio_wire_rs.Crypto.Honest.{Honest, HasRoom}
use darkbio_wire_rs.Attestation.{Verifier}
use darkbio_wire_rs.Session.Laws.{Secure}
use darkbio_wire_rs.Framing.Inv.{IsValid}
use darkbio_wire_rs.Framing.Send.{packet_wire}
use darkbio_wire_rs.Host.{HostSide, handshake}
use darkbio_wire_rs.Host.Tail.{draw_keys, conclude}
use darkbio_wire_rs.Host.Opening.{waiting, IsOpened, handshake-IsOpened}
use darkbio_wire_rs.Host.Appends.{conclude-Appends}
use darkbio_wire_rs.Exchange.Travel.{append_cancel}

module _ {R W : Type 0} (env : Env R W) {c : Crypto} (secure : Secure c) (honest : Honest secure)
    {n : ℕ} (room : HasRoom env c n) (cobs : CobsLaws env.cobs) (script : Script env.reader)
    (sink : Sink env.writer) {Info : Type 0} (fuel : ℕ) (verifier : Verifier c.VerifyingKey Info)
    (h : HostSide R W c) where
  abbrev pub hello_message : HostHello c.VerifyingKey c.PublicKey
  hello_message = record {
    host_signer = c.verifying_key (draw_keys c h.rng).signer;
    host_crypto = c.public_key (draw_keys c h.rng).secret;
  }

  abbrev pub hello : List ℕ
  hello = (honest.hello hello_message).0

  -- The host, once its hello is sent.
  abbrev pub greeted_host : HostSide R W c
  greeted_host = waiting env c hello h

  -- All that it writes begins with the reset and the hello.
  pub record Starts (to_ark : List ℕ) : Type 0 where
    pub opened : IsOpened env c cobs script sink fuel verifier hello h
    pub more : List ℕ
    pub grew :
        sink.written
          (conclude env c fuel verifier (draw_keys c h.rng) greeted_host).1.framing.writer
        ≡ sink.written greeted_host.framing.writer ++ more
    pub says : to_ark ≡ 0 ∷ 0 ∷ (packet_wire env hello opened.scratch ++ more)

  pub handshake-Starts :
      (to_ark : List ℕ)
      → IsValid env.frame_limit h.framing
      → sink.written (handshake env c fuel verifier h).1.framing.writer
        ≡ sink.written h.framing.writer ++ to_ark
      → Starts to_ark
  handshake-Starts to_ark v wrote =
      let fits = room.hello_fits hello_message hello (honest.hello hello_message).1 in
      let opened =
        handshake-IsOpened env c cobs script sink fuel verifier hello h
          (honest.hello hello_message).1 fits v in
      let (more, grew) =
        (conclude-Appends env c sink fuel verifier (draw_keys c h.rng)).moves greeted_host in
      let before = sink.written h.framing.writer in
      let wire = packet_wire env hello opened.scratch in
      record {
        opened = opened;
        more = more;
        grew = grew;
        says = append_cancel before to_ark (0 ∷ 0 ∷ (wire ++ more)) (
            sym wrote
            ∙ ap (λ q. sink.written q.1.framing.writer) opened.goes_on
            ∙ grew
            ∙ ap (λ l. l ++ more) opened.written
            ∙ append_assoc before (0 ∷ 0 ∷ wire) more);
      }
