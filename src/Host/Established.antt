-- ===== src/Host/Established.antt =====
-- The session that a handshake of the host makes.
use darkbio_wire_rs.Common.{
  ℕ, zero, suc, ◌≡◌, refl, subst, ◌∙◌, List, length, Bool, true, false, inl, inr, ==→eq, Bool-cases,
  ◌==◌,
}
use darkbio_wire_rs.Error.{handshake_failed, value, ok, Op}
use darkbio_wire_rs.Io.{Env}
use darkbio_wire_rs.Limits.{
  crypto_domain_wire, crypto_domain_wire_ark_to_host, crypto_domain_wire_host_to_ark,
}
use darkbio_wire_rs.Crypto.{Crypto}
use darkbio_wire_rs.Attestation.{Verifier}
use darkbio_wire_rs.Session.{Session}
use darkbio_wire_rs.Framing
use darkbio_wire_rs.Framing.{Framing}
use darkbio_wire_rs.Host.{
  HostSide, Greeting, max_stale_frames, handshake_error, is_for, or_default, sized_a2h,
  drop_session, negotiate, handshake, skip_stale, establish,
}
use darkbio_wire_rs.Error.Runs.{
  then-Achieves, or_fail-Achieves, pure-Achieves, fail-Achieves, if-Achieves,
}
use darkbio_wire_rs.Host.Runs.{
  Runs, on_framing-Runs, draw-Runs, packet-Runs, ConcludesAt, Concludes, then-Concludes,
  keep-Concludes,
}
use darkbio_wire_rs.Host.Authentic.{IsAccepted, read_ark_hello-IsAccepted}

module _ {R W : Type 0} (env : Env R W) (c : Crypto) where
  -- The session's receiver is of the encapsulated key in the Ark's hello, and the key of its sender
  -- was sealed to the Ark, with the Ark's identity and key, and delivered.
  pub record IsEstablished {Info : Type 0} (signer : c.SigningKey) (sk : c.SecretKey)
      (g : Greeting c Info) (s : Session c) : Type 0 where
    pub sized : length g.ark_hello.a2h_encap ≡ c.encap_key_size
    pub receiving :
        c.new_receiver sk g.ark_hello.a2h_encap crypto_domain_wire_ark_to_host ≡ value s.receiver
    pub rng : c.Rng
    pub encap : List ℕ
    pub sending :
        (c.new_sender g.ark_hello.ark_crypto crypto_domain_wire_host_to_ark rng).0
        ≡ value (s.sender, encap)
    pub ack_rng : c.Rng
    pub ack : List ℕ
    pub acked :
        (c.seal_host_ack
          (record { h2a_encap = encap })
          (record { ark_signer = g.ark_identity; ark_crypto = g.ark_hello.ark_crypto })
          signer
          g.ark_hello.ark_crypto
          crypto_domain_wire
          ack_rng).0
        ≡ value ack
    pub framing : Framing R W
    pub delivered : (Framing.send_packet env ack framing).0 ≡ ok tt

  sized-Runs :
      (encap : List ℕ)
      → Runs (λ e. (e ≡ encap) × (length encap ≡ c.encap_key_size)) (sized_a2h env c encap)
  sized-Runs encap = elim (Bool-cases (length encap == c.encap_key_size)) [
    | inl t ↦ record {
      ends = λ h e. rw (sized_a2h, t) ((refl, ==→eq (length encap) c.encap_key_size t), e);
    }
    | inr f ↦ record { ends = λ h e. rw (sized_a2h, f) e }
  ]

  elim-Runs :
      {A : Type 0} {Q : A → Type 0} {m k : Op (HostSide R W c) A} (b : Bool)
      → Runs Q m
      → Runs Q k
      → Runs Q (elim b [ true ↦ m | false ↦ k ])
  elim-Runs true p q = p
  elim-Runs false p q = q

  skip_stale-Runs :
      (fuel : ℕ) (fp : c.Fingerprint) (more : ℕ)
      → Runs (λ size. Unit {0}) (skip_stale env c fuel fp more)
  unfolding skip_stale
  skip_stale-Runs fuel fp zero =
      then-Achieves (on_framing-Runs env (Framing.next_packet env fuel)) (λ found f.
        then-Achieves (packet-Runs env (or_default env c found)) (λ bytes u.
          if-Achieves (is_for env c fp (c.recipient bytes))
            (pure-Achieves (or_default env c found) tt)
            (fail-Achieves (handshake_failed "too many stale frames before ark hello"))))
  skip_stale-Runs fuel fp (suc more) =
      then-Achieves (on_framing-Runs env (Framing.next_packet env fuel)) (λ found f.
        then-Achieves (packet-Runs env (or_default env c found)) (λ bytes u.
          elim-Runs (is_for env c fp (c.recipient bytes))
            (pure-Achieves (or_default env c found) tt) (skip_stale-Runs fuel fp more)))

  establish-IsEstablished :
      {Info : Type 0} (signer : c.SigningKey) (sk : c.SecretKey) (g : Greeting c Info)
      → Runs (IsEstablished signer sk g) (establish env c signer sk g)
  unfolding establish
  establish-IsEstablished signer sk g =
      then-Achieves (sized-Runs g.ark_hello.a2h_encap) (λ enc sized.
        then-Achieves
          (or_fail-Achieves (handshake_error "host receiver setup failed: ")
            (c.new_receiver sk enc crypto_domain_wire_ark_to_host))
          (λ receiver receiving.
            then-Achieves
              (draw-Runs env (c.new_sender g.ark_hello.ark_crypto crypto_domain_wire_host_to_ark))
              (λ made drawn.
                then-Achieves (or_fail-Achieves (handshake_error "host sender setup failed: ") made)
                  (λ pair sending.
                    then-Achieves
                      (draw-Runs env (
                        c.seal_host_ack (record { h2a_encap = pair.1 })
                          (record {
                            ark_signer = g.ark_identity;
                            ark_crypto = g.ark_hello.ark_crypto;
                          })
                          signer g.ark_hello.ark_crypto crypto_domain_wire))
                      (λ sealed drawn'.
                        then-Achieves
                          (or_fail-Achieves (handshake_error "failed to seal host ack: ") sealed)
                          (λ ack acked.
                            then-Achieves (on_framing-Runs env (Framing.send_packet env ack))
                              (λ u delivered.
                                pure-Achieves (record { sender = pair.0; receiver = receiver })
                                  (record {
                                    sized = sized.1;
                                    receiving =
                                        subst
                                          (λ e.
                                            c.new_receiver sk e crypto_domain_wire_ark_to_host
                                            ≡ value receiver)
                                          sized.0 receiving;
                                    rng = drawn.0;
                                    encap = pair.1;
                                    sending = drawn.1 ∙ sending;
                                    ack_rng = drawn'.0;
                                    ack = ack;
                                    acked = drawn'.1 ∙ acked;
                                    framing = delivered.0;
                                    delivered = delivered.1;
                                  }))))))))

  -- A session, and the keys of the host that it was made with, drawn afresh.
  pub record Establishes {Info : Type 0} (verifier : Verifier c.VerifyingKey Info) (info : Info)
      (s : Session c) : Type 0 where
    pub signer : c.SigningKey
    pub secret : c.SecretKey
    pub signer_rng : c.Rng
    pub secret_rng : c.Rng
    pub signer_drawn : (c.generate_signer signer_rng).0 ≡ signer
    pub secret_drawn : (c.generate_secret secret_rng).0 ≡ secret
    pub greeting : Greeting c Info
    pub same_info : greeting.info ≡ info
    pub accepted :
        IsAccepted env c verifier
          (record { host_signer = c.verifying_key signer; host_crypto = c.public_key secret })
          secret
          greeting
    pub established : IsEstablished signer secret greeting s

  negotiate-Concludes :
      {Info : Type 0} (fuel : ℕ) (verifier : Verifier c.VerifyingKey Info)
      → Concludes env (Establishes verifier) (negotiate env c fuel verifier)
  unfolding negotiate
  negotiate-Concludes fuel verifier =
      then-Concludes env (on_framing-Runs env (Framing.send_reset env)) (λ u reset.
        then-Concludes env (draw-Runs env c.generate_signer) (λ signer drawn.
          then-Concludes env (draw-Runs env c.generate_secret) (λ secret drawn'.
            then-Concludes env
              (or_fail-Achieves (handshake_error "failed to encode host hello: ") (
                c.encode_host_hello (record {
                  host_signer = c.verifying_key signer;
                  host_crypto = c.public_key secret;
                })))
              (λ hello encoded.
                then-Concludes env (on_framing-Runs env (Framing.send_packet env hello)) (λ u sent.
                  then-Concludes env
                    (skip_stale-Runs fuel (c.fingerprint (c.public_key secret)) max_stale_frames)
                    (λ size u.
                      then-Concludes env
                        (read_ark_hello-IsAccepted env c verifier
                          (record {
                            host_signer = c.verifying_key signer;
                            host_crypto = c.public_key secret;
                          })
                          secret size)
                        (λ greeting accepted.
                          then-Concludes env (establish-IsEstablished signer secret greeting)
                            (λ session established.
                              keep-Concludes env greeting.info session (record {
                                signer = signer;
                                secret = secret;
                                signer_rng = drawn.0;
                                secret_rng = drawn'.0;
                                signer_drawn = drawn.1;
                                secret_drawn = drawn'.1;
                                greeting = greeting;
                                same_info = refl;
                                accepted = accepted;
                                established = established;
                              })))))))))

  -- A handshake of the host that succeeds leaves a session. Its keys were drawn afresh; the Ark's
  -- hello was encrypted to them, the verifier accepted the attestation in it, and the hello's
  -- signature, over the host's keys, is of the identity that the verifier gave; the receiver is of
  -- the encapsulated key in that hello, of the right size, and the sender's key was sealed to the
  -- Ark and delivered. The information returned is the verifier's. A handshake that ends in any
  -- other way leaves no session, whatever session was there before.
  pub handshake-Establishes :
      {Info : Type 0} (fuel : ℕ) (verifier : Verifier c.VerifyingKey Info) (h : HostSide R W c)
      → ConcludesAt env
          (Establishes verifier)
          (handshake env c fuel verifier h).0
          (handshake env c fuel verifier h).1
  unfolding handshake
  handshake-Establishes fuel verifier h =
      (negotiate-Concludes fuel verifier).concludes (drop_session env c h) refl
