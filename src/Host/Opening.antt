-- ===== src/Host/Opening.antt =====
-- The host's handshake up to where it starts to read: the reset and its hello.
use darkbio_wire_rs.Common.{
  ℕ, ◌≤◌, ◌≡◌, refl, ap, ◌∙◌, none, List, [], ◌∷◌, ◌++◌, length, append_assoc, arith,
}
use darkbio_wire_rs.Error.{value}
use darkbio_wire_rs.Io.{Env}
use darkbio_wire_rs.Io.Laws.{Script, CobsLaws, Sink}
use darkbio_wire_rs.Crypto.{Crypto}
use darkbio_wire_rs.Attestation.{Verifier}
use darkbio_wire_rs.Framing.{Framing, send_reset, send_packet}
use darkbio_wire_rs.Framing.Inv.{IsValid, rest}
use darkbio_wire_rs.Framing.Send.{packet_wire}
use darkbio_wire_rs.Framing.Sink.{
  send_reset-Writes, send_reset-keeps_rest, send_packet-Writes, send_packet-keeps_rest,
}
use darkbio_wire_rs.Host.{HostSide, handshake, negotiate}
use darkbio_wire_rs.Host.Tail.{draw_keys, rng_after_keys, shown, conclude}

module _ {R W : Type 0} (env : Env R W) (c : Crypto) where
  -- The framer once the host's hello is sent.
  abbrev pub greeted : List ℕ → Framing R W → Framing R W
  greeted hello st = (send_packet env hello (send_reset env st).1).1

  -- The host that waits for the Ark's hello.
  abbrev pub waiting : List ℕ → HostSide R W c → HostSide R W c
  waiting hello h = record h {
    framing = greeted hello h.framing;
    session = none;
    rng = rng_after_keys c h.rng;
  }

  module _ (cobs : CobsLaws env.cobs) (script : Script env.reader) (sink : Sink env.writer)
      {Info : Type 0} (fuel : ℕ) (verifier : Verifier c.VerifyingKey Info) where
    -- The handshake goes on from there, and what was written is the reset and the hello.
    pub record IsOpened (hello : List ℕ) (h : HostSide R W c) : Type 0 where
      pub goes_on :
          handshake env c fuel verifier h
          ≡ conclude env c fuel verifier (draw_keys c h.rng) (waiting hello h)
      pub scratch : List ℕ
      pub coded : env.cobs.encode_buffer (length hello) ≤ length scratch
      pub written :
          sink.written (greeted hello h.framing).writer
          ≡ sink.written h.framing.writer ++ (0 ∷ 0 ∷ packet_wire env hello scratch)
      pub valid : IsValid env.frame_limit (greeted hello h.framing)
      pub same_rest : rest env script (greeted hello h.framing) ≡ rest env script h.framing

    pub handshake-IsOpened :
        (hello : List ℕ) (h : HostSide R W c)
        → c.encode_host_hello (record {
          host_signer = (shown c (draw_keys c h.rng)).host_signer;
          host_crypto = (shown c (draw_keys c h.rng)).host_crypto;
        })
          ≡ value hello
        → env.cobs.encode_buffer (length hello) ≤ env.frame_limit
        → IsValid env.frame_limit h.framing
        → IsOpened hello h
    unfolding handshake negotiate
    handshake-IsOpened hello h encoded fits v =
        let reset = send_reset-Writes env sink h.framing v in
        let st = (send_reset env h.framing).1 in
        let sent = send_packet-Writes env sink cobs hello st reset.valid fits in
        record {
          goes_on = rw (reset.done, encoded, sent.done) refl;
          scratch = st.encobs_buffer;
          coded = omega (arith, reset.valid.encobs_sized);
          written =
              sent.written
              ∙ ap (λ l. l ++ packet_wire env hello st.encobs_buffer) reset.written
              ∙ append_assoc (sink.written h.framing.writer) (0 ∷ 0 ∷ [])
                  (packet_wire env hello st.encobs_buffer);
          valid = sent.valid;
          same_rest =
              send_packet-keeps_rest env sink cobs script hello st reset.valid fits
              ∙ send_reset-keeps_rest env sink script h.framing;
        }
