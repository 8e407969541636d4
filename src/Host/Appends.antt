-- ===== src/Host/Appends.antt =====
-- What the host writes while it waits for the Ark's hello and answers it.
use darkbio_wire_rs.Common.{ℕ, zero, suc, List, length, ◌==◌, Bool-cases, inl, inr}
use darkbio_wire_rs.Common.Slices.{slice?}
use darkbio_wire_rs.Error.{Op, handshake_failed}
use darkbio_wire_rs.Error.Moves.{
  IsOrder, Moves, keep-Moves, pure-Moves, fail-Moves, or_fail-Moves, or_panic-keeps, then-Moves,
  if-Moves, choose-Moves,
}
use darkbio_wire_rs.Io.{Env}
use darkbio_wire_rs.Io.Laws.{Sink}
use darkbio_wire_rs.Limits.{
  crypto_domain_wire, crypto_domain_wire_ark_to_host, crypto_domain_wire_host_to_ark,
}
use darkbio_wire_rs.Handshake.{ArkHelloAuth}
use darkbio_wire_rs.Crypto.{Crypto}
use darkbio_wire_rs.Attestation
use darkbio_wire_rs.Attestation.{Verifier}
use darkbio_wire_rs.Framing.{Framing}
use darkbio_wire_rs.Framing.Appends.{
  Appends, Appends-IsOrder, next_packet-Appends, send_packet-Appends, send_reset-Appends,
}
use darkbio_wire_rs.Host.{
  HostSide, Greeting, handshake_error, max_stale_frames, on_framing, draw, packet, is_for,
  or_default, sized_a2h, skip_stale, read_ark_hello, establish, negotiate, handshake, drop_session,
}
use darkbio_wire_rs.Host.Tail.{HostKeys, shown, conclude}

module _ {R W : Type 0} (env : Env R W) (c : Crypto) (sink : Sink env.writer) where
  abbrev pub HostAppends : HostSide R W c → HostSide R W c → Type 0
  HostAppends h h' = Appends env sink h.framing h'.framing

  pub order : IsOrder HostAppends
  order = record {
    same = λ h. (Appends-IsOrder env sink).same h.framing;
    chain = λ h i j. (Appends-IsOrder env sink).chain h.framing i.framing j.framing;
  }

  pub on_framing-Moves :
      {A : Type 0} {m : Op (Framing R W) A}
      → Moves (Appends env sink) m
      → Moves HostAppends (on_framing env c m)
  on_framing-Moves p = record { moves = λ h. p.moves h.framing }

  draw-Moves : {A : Type 0} (f : c.Rng → A × c.Rng) → Moves HostAppends (draw env c f)
  draw-Moves f = record { moves = λ h. order.same h }

  packet-Moves : (size : ℕ) → Moves HostAppends (packet env c size)
  packet-Moves size = record {
    moves = λ h. or_panic-keeps order (slice? h.framing.decobs_buffer 0 size) h;
  }

  sized-Moves : (encap : List ℕ) → Moves HostAppends (sized_a2h env c encap)
  sized-Moves encap = elim (Bool-cases (length encap == c.encap_key_size)) [
    | inl t ↦ record { moves = λ h. rw (sized_a2h, t) (order.same h) }
    | inr f ↦ record { moves = λ h. rw (sized_a2h, f) (order.same h) }
  ]

  skip_stale-Moves :
      (fuel : ℕ) (fp : c.Fingerprint) (more : ℕ) → Moves HostAppends (skip_stale env c fuel fp more)
  unfolding skip_stale
  skip_stale-Moves fuel fp zero =
      then-Moves order (on_framing-Moves (next_packet-Appends env sink fuel)) (λ found.
        then-Moves order (packet-Moves (or_default env c found)) (λ bytes.
          if-Moves (is_for env c fp (c.recipient bytes)) (pure-Moves order (or_default env c found))
            (fail-Moves order (handshake_failed "too many stale frames before ark hello"))))
  skip_stale-Moves fuel fp (suc more) =
      then-Moves order (on_framing-Moves (next_packet-Appends env sink fuel)) (λ found.
        then-Moves order (packet-Moves (or_default env c found)) (λ bytes.
          choose-Moves (is_for env c fp (c.recipient bytes))
            (pure-Moves order (or_default env c found)) (skip_stale-Moves fuel fp more)))

  module _ {Info : Type 0} where
    read_ark_hello-Moves :
        (verifier : Verifier c.VerifyingKey Info) (auth : ArkHelloAuth c.VerifyingKey c.PublicKey)
        (sk : c.SecretKey) (size : ℕ)
        → Moves HostAppends (read_ark_hello env c verifier auth sk size)
    unfolding read_ark_hello
    read_ark_hello-Moves verifier auth sk size = then-Moves order (packet-Moves size) (λ bytes.
        then-Moves order
          (or_fail-Moves order (handshake_error "failed to decrypt ark hello: ")
            (c.decrypt_ark_hello bytes auth sk crypto_domain_wire))
          (λ sign1.
            then-Moves order
              (or_fail-Moves order (handshake_error "invalid ark hello payload: ")
                (c.peek_ark_hello sign1))
              (λ unverified.
                then-Moves order (keep-Moves order (Attestation.new c unverified.ark_attest))
                  (λ attestation.
                    then-Moves order
                      (or_fail-Moves order handshake_failed (verifier.verify attestation))
                      (λ accepted.
                        then-Moves order
                          (or_fail-Moves order (handshake_error "ark hello signature invalid: ")
                            (c.verify_ark_hello sign1 auth accepted.0 crypto_domain_wire))
                          (λ hello. pure-Moves order (record {
                            ark_identity = accepted.0;
                            info = accepted.1;
                            ark_hello = hello;
                          })))))))

    establish-Moves :
        (signer : c.SigningKey) (sk : c.SecretKey) (g : Greeting c Info)
        → Moves HostAppends (establish env c signer sk g)
    unfolding establish
    establish-Moves signer sk g = then-Moves order (sized-Moves g.ark_hello.a2h_encap) (λ enc.
        then-Moves order
          (or_fail-Moves order (handshake_error "host receiver setup failed: ")
            (c.new_receiver sk enc crypto_domain_wire_ark_to_host))
          (λ receiver.
            then-Moves order
              (draw-Moves (c.new_sender g.ark_hello.ark_crypto crypto_domain_wire_host_to_ark))
              (λ made.
                then-Moves order
                  (or_fail-Moves order (handshake_error "host sender setup failed: ") made)
                  (λ pair.
                    then-Moves order
                      (draw-Moves (
                        c.seal_host_ack (record { h2a_encap = pair.1 })
                          (record {
                            ark_signer = g.ark_identity;
                            ark_crypto = g.ark_hello.ark_crypto;
                          })
                          signer g.ark_hello.ark_crypto crypto_domain_wire))
                      (λ sealed.
                        then-Moves order
                          (or_fail-Moves order (handshake_error "failed to seal host ack: ") sealed)
                          (λ ack.
                            then-Moves order (on_framing-Moves (send_packet-Appends env sink ack))
                              (λ u.
                                pure-Moves order
                                  (record { sender = pair.0; receiver = receiver }))))))))

    -- It only appends to what it wrote before, however it ends.
    pub conclude-Appends :
        (fuel : ℕ) (verifier : Verifier c.VerifyingKey Info) (keys : HostKeys c)
        → Moves HostAppends (conclude env c fuel verifier keys)
    conclude-Appends fuel verifier keys =
        then-Moves order
          (skip_stale-Moves fuel (c.fingerprint (c.public_key keys.secret)) max_stale_frames)
          (λ size.
            then-Moves order (read_ark_hello-Moves verifier (shown c keys) keys.secret size)
              (λ greeting.
                then-Moves order (establish-Moves keys.signer keys.secret greeting)
                  (λ session. record { moves = λ h. order.same h })))

    pub handshake-Appends :
        (fuel : ℕ) (verifier : Verifier c.VerifyingKey Info)
        → Moves HostAppends (handshake env c fuel verifier)
    unfolding handshake negotiate
    handshake-Appends fuel verifier = record {
      moves = λ h.
          (then-Moves order (on_framing-Moves (send_reset-Appends env sink)) (λ u.
              then-Moves order (draw-Moves c.generate_signer) (λ signer.
                then-Moves order (draw-Moves c.generate_secret) (λ secret.
                  let keys : HostKeys c = record { signer = signer; secret = secret } in
                  then-Moves order
                    (or_fail-Moves order (handshake_error "failed to encode host hello: ") (
                      c.encode_host_hello (record {
                        host_signer = c.verifying_key signer;
                        host_crypto = c.public_key secret;
                      })))
                    (λ hello.
                      then-Moves order (on_framing-Moves (send_packet-Appends env sink hello))
                        (λ u. conclude-Appends fuel verifier keys)))))).moves
            (drop_session env c h);
    }
