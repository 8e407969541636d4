-- ===== src/Host/Alike.antt =====
-- Two hosts whose readers have the same stream to come make the same handshake of it.
use darkbio_wire_rs.Common.{ℕ, zero, suc, ◌≡◌, refl, ap, List, length, ◌==◌, Bool-cases, inl, inr}
use darkbio_wire_rs.Common.Slices.{slice?}
use darkbio_wire_rs.Error.{Op, handshake_failed, ok, pure, ◌>>◌}
use darkbio_wire_rs.Error.Agrees.{
  Agrees, keep-Agrees, pure-Agrees, fail-Agrees, or_fail-Agrees, or_panic-Same, then-Agrees,
  if-Agrees, choose-Agrees,
}
use darkbio_wire_rs.Io.{Env}
use darkbio_wire_rs.Io.Laws.{MemchrLaws, Script, CobsLaws}
use darkbio_wire_rs.Limits.{
  crypto_domain_wire, crypto_domain_wire_ark_to_host, crypto_domain_wire_host_to_ark,
}
use darkbio_wire_rs.Handshake.{ArkHelloAuth}
use darkbio_wire_rs.Crypto.{Crypto}
use darkbio_wire_rs.Attestation
use darkbio_wire_rs.Attestation.{Verifier}
use darkbio_wire_rs.Session.{Session}
use darkbio_wire_rs.Framing
use darkbio_wire_rs.Framing.{Framing}
use darkbio_wire_rs.Framing.Live.{Fuelled}
use darkbio_wire_rs.Framing.Alike.{Alike, next_packet-Agrees, send_packet-Agrees, send_reset-Agrees}
use darkbio_wire_rs.Host.{
  HostSide, Greeting, handshake_error, max_stale_frames, on_framing, draw, packet, is_for,
  or_default, sized_a2h, skip_stale, read_ark_hello, establish, negotiate, handshake, keep_session,
  drop_session,
}

module _ {R W : Type 0} (env : Env R W) (c : Crypto) (script : Script env.reader) (k : ℕ) where
  -- The same session and randomness, and framers that are alike.
  pub record HostAlike (h h' : HostSide R W c) : Type 0 where
    pub framing : Alike env script k h.framing h'.framing
    pub same_session : h.session ≡ h'.session
    pub same_rng : h.rng ≡ h'.rng

  abbrev pub AgreesAll : {T : Type 0} → Op (HostSide R W c) T → Type 0
  AgreesAll m = Agrees HostAlike m

  pub on_framing-Agrees :
      {A : Type 0} {m : Op (Framing R W) A}
      → Agrees (Alike env script k) m
      → AgreesAll (on_framing env c m)
  on_framing-Agrees p = record {
    agrees = λ h h' x.
        let q = p.agrees h.framing h'.framing x.framing in
        record {
          same_result = q.same_result;
          alike = record {
            framing = q.alike;
            same_session = x.same_session;
            same_rng = x.same_rng;
          };
        };
  }

  draw-Agrees : {A : Type 0} (f : c.Rng → A × c.Rng) → AgreesAll (draw env c f)
  draw-Agrees f = record {
    agrees = λ h h' x. record {
      same_result = ap (λ r. ok (f r).0) x.same_rng;
      alike = record {
        framing = x.framing;
        same_session = x.same_session;
        same_rng = ap (λ r. (f r).1) x.same_rng;
      };
    };
  }

  packet-Agrees : (size : ℕ) → AgreesAll (packet env c size)
  packet-Agrees size = record {
    agrees = λ h h' x.
        or_panic-Same (slice? h.framing.decobs_buffer 0 size)
          (slice? h'.framing.decobs_buffer 0 size) h h'
          (ap (λ o. slice? o.1 0 size) x.framing.same_outside) x;
  }

  sized-Agrees : (encap : List ℕ) → AgreesAll (sized_a2h env c encap)
  sized-Agrees encap = elim (Bool-cases (length encap == c.encap_key_size)) [
    | inl t ↦ record {
      agrees = λ h h' x. rw (sized_a2h, t) (record { same_result = refl; alike = x });
    }
    | inr f ↦ record {
      agrees = λ h h' x. rw (sized_a2h, f) (record { same_result = refl; alike = x });
    }
  ]

  kept-Agrees :
      {A : Type 0} (session : Session c) (a : A) → AgreesAll (keep_session env c session >> pure a)
  kept-Agrees session a = record {
    agrees = λ h h' x. record {
      same_result = refl;
      alike = record { framing = x.framing; same_session = refl; same_rng = x.same_rng };
    };
  }

  reset-Agrees : AgreesAll (on_framing env c (Framing.send_reset env))
  reset-Agrees = on_framing-Agrees (send_reset-Agrees env script k)

  module _ (cobs : CobsLaws env.cobs) (laws : MemchrLaws env.memchr) (fuel : ℕ)
      (enough : Fuelled env script fuel k) where
    skip_stale-Agrees : (fp : c.Fingerprint) (more : ℕ) → AgreesAll (skip_stale env c fuel fp more)
    unfolding skip_stale
    skip_stale-Agrees fp zero =
        then-Agrees (on_framing-Agrees (next_packet-Agrees env script k cobs laws fuel enough))
          (λ found. then-Agrees (packet-Agrees (or_default env c found)) (λ bytes.
            if-Agrees (is_for env c fp (c.recipient bytes)) (pure-Agrees (or_default env c found))
              (fail-Agrees (handshake_failed "too many stale frames before ark hello"))))
    skip_stale-Agrees fp (suc more) =
        then-Agrees (on_framing-Agrees (next_packet-Agrees env script k cobs laws fuel enough))
          (λ found. then-Agrees (packet-Agrees (or_default env c found)) (λ bytes.
            choose-Agrees (is_for env c fp (c.recipient bytes))
              (pure-Agrees (or_default env c found)) (skip_stale-Agrees fp more)))

    module _ {Info : Type 0} where
      read_ark_hello-Agrees :
          (verifier : Verifier c.VerifyingKey Info) (auth : ArkHelloAuth c.VerifyingKey c.PublicKey)
          (sk : c.SecretKey) (size : ℕ)
          → AgreesAll (read_ark_hello env c verifier auth sk size)
      unfolding read_ark_hello
      read_ark_hello-Agrees verifier auth sk size = then-Agrees (packet-Agrees size) (λ bytes.
          then-Agrees
            (or_fail-Agrees (handshake_error "failed to decrypt ark hello: ")
              (c.decrypt_ark_hello bytes auth sk crypto_domain_wire))
            (λ sign1.
              then-Agrees
                (or_fail-Agrees (handshake_error "invalid ark hello payload: ")
                  (c.peek_ark_hello sign1))
                (λ unverified.
                  then-Agrees (keep-Agrees (Attestation.new c unverified.ark_attest))
                    (λ attestation.
                      then-Agrees (or_fail-Agrees handshake_failed (verifier.verify attestation))
                        (λ accepted.
                          then-Agrees
                            (or_fail-Agrees (handshake_error "ark hello signature invalid: ")
                              (c.verify_ark_hello sign1 auth accepted.0 crypto_domain_wire))
                            (λ hello. pure-Agrees (record {
                              ark_identity = accepted.0;
                              info = accepted.1;
                              ark_hello = hello;
                            })))))))

      establish-Agrees :
          (signer : c.SigningKey) (sk : c.SecretKey) (g : Greeting c Info)
          → AgreesAll (establish env c signer sk g)
      unfolding establish
      establish-Agrees signer sk g = then-Agrees (sized-Agrees g.ark_hello.a2h_encap) (λ enc.
          then-Agrees
            (or_fail-Agrees (handshake_error "host receiver setup failed: ")
              (c.new_receiver sk enc crypto_domain_wire_ark_to_host))
            (λ receiver.
              then-Agrees
                (draw-Agrees (c.new_sender g.ark_hello.ark_crypto crypto_domain_wire_host_to_ark))
                (λ made.
                  then-Agrees (or_fail-Agrees (handshake_error "host sender setup failed: ") made)
                    (λ pair.
                      then-Agrees
                        (draw-Agrees (
                          c.seal_host_ack (record { h2a_encap = pair.1 })
                            (record {
                              ark_signer = g.ark_identity;
                              ark_crypto = g.ark_hello.ark_crypto;
                            })
                            signer g.ark_hello.ark_crypto crypto_domain_wire))
                        (λ sealed.
                          then-Agrees
                            (or_fail-Agrees (handshake_error "failed to seal host ack: ") sealed)
                            (λ ack.
                              then-Agrees
                                (on_framing-Agrees (send_packet-Agrees env script k cobs ack))
                                (λ u.
                                  pure-Agrees
                                    (record { sender = pair.0; receiver = receiver }))))))))

      negotiate-Agrees :
          (verifier : Verifier c.VerifyingKey Info) → AgreesAll (negotiate env c fuel verifier)
      unfolding negotiate
      negotiate-Agrees verifier = then-Agrees reset-Agrees (λ u.
          then-Agrees (draw-Agrees c.generate_signer) (λ signer.
            then-Agrees (draw-Agrees c.generate_secret) (λ secret.
              let auth : ArkHelloAuth c.VerifyingKey c.PublicKey = record {
                host_signer = c.verifying_key signer;
                host_crypto = c.public_key secret;
              } in
              then-Agrees
                (or_fail-Agrees (handshake_error "failed to encode host hello: ") (
                  c.encode_host_hello (record {
                    host_signer = c.verifying_key signer;
                    host_crypto = c.public_key secret;
                  })))
                (λ hello.
                  then-Agrees (on_framing-Agrees (send_packet-Agrees env script k cobs hello)) (λ u.
                    then-Agrees
                      (skip_stale-Agrees (c.fingerprint (c.public_key secret)) max_stale_frames)
                      (λ size.
                        then-Agrees (read_ark_hello-Agrees verifier auth secret size) (λ greeting.
                          then-Agrees (establish-Agrees signer secret greeting)
                            (λ session. kept-Agrees session greeting.info))))))))

      pub handshake-Agrees :
          (verifier : Verifier c.VerifyingKey Info) → AgreesAll (handshake env c fuel verifier)
      unfolding handshake
      handshake-Agrees verifier = record {
        agrees = λ h h' x.
            (negotiate-Agrees verifier).agrees (drop_session env c h) (drop_session env c h')
              (record { framing = x.framing; same_session = refl; same_rng = x.same_rng });
      }
