-- ===== src/Ark/Alike.antt =====
-- Two Arks whose readers have the same stream to come make the same handshake of it.
use darkbio_wire_rs.Common.{
  ℕ, zero, suc, ◌≡◌, refl, ap, none, some, List, length, ◌==◌, Bool-cases, inl, inr,
}
use darkbio_wire_rs.Common.Slices.{slice?}
use darkbio_wire_rs.Error.{Op, Outcome, ok}
use darkbio_wire_rs.Error.Agrees.{
  Agrees, pure-Agrees, or_fail-Agrees, or_panic-Same, then-Agrees, elim-Agrees,
}
use darkbio_wire_rs.Io.{Env}
use darkbio_wire_rs.Io.Laws.{MemchrLaws, Script, CobsLaws}
use darkbio_wire_rs.Limits.{
  crypto_domain_wire, crypto_domain_wire_ark_to_host, crypto_domain_wire_host_to_ark,
}
use darkbio_wire_rs.Crypto.{Crypto}
use darkbio_wire_rs.Attestation.{Attester, into_bytes}
use darkbio_wire_rs.Framing.{Framing}
use darkbio_wire_rs.Framing.Live.{Fuelled}
use darkbio_wire_rs.Framing.Alike.{Alike, next_packet-Agrees, send_packet-Agrees}
use darkbio_wire_rs.Host.{handshake_error}
use darkbio_wire_rs.Ark.Tail.{conclude}
use darkbio_wire_rs.Ark.{
  ArkSide, Greeting, on_framing, draw, attest, packet, sized_h2a, read_hello, greet, accept,
  handshake,
}

module _ {R W A : Type 0} (env : Env R W) (c : Crypto) (attester : Attester A)
    (script : Script env.reader) (k : ℕ) where
  -- The same keys, session and randomness, and framers that are alike.
  pub record ArkAlike (a a' : ArkSide R W A c) : Type 0 where
    pub framing : Alike env script k a.framing a'.framing
    pub same_signer : a.signer ≡ a'.signer
    pub same_attester : a.attester ≡ a'.attester
    pub same_session : a.session ≡ a'.session
    pub same_rng : a.rng ≡ a'.rng

  abbrev pub AgreesAll : {T : Type 0} → Op (ArkSide R W A c) T → Type 0
  AgreesAll m = Agrees ArkAlike m

  pub on_framing-Agrees :
      {T : Type 0} {m : Op (Framing R W) T}
      → Agrees (Alike env script k) m
      → AgreesAll (on_framing env c attester m)
  on_framing-Agrees p = record {
    agrees = λ a a' x.
        let q = p.agrees a.framing a'.framing x.framing in
        record {
          same_result = q.same_result;
          alike = record {
            framing = q.alike;
            same_signer = x.same_signer;
            same_attester = x.same_attester;
            same_session = x.same_session;
            same_rng = x.same_rng;
          };
        };
  }

  draw-Agrees : {T : Type 0} (f : c.Rng → T × c.Rng) → AgreesAll (draw env c attester f)
  draw-Agrees f = record {
    agrees = λ a a' x. record {
      same_result = ap (λ r. ok (f r).0) x.same_rng;
      alike = record {
        framing = x.framing;
        same_signer = x.same_signer;
        same_attester = x.same_attester;
        same_session = x.same_session;
        same_rng = ap (λ r. (f r).1) x.same_rng;
      };
    };
  }

  attest-Agrees : AgreesAll (attest env c attester)
  attest-Agrees = record {
    agrees = λ a a' x. record {
      same_result = ap (λ s. ok (attester.attest s).0) x.same_attester;
      alike = record {
        framing = x.framing;
        same_signer = x.same_signer;
        same_attester = ap (λ s. (attester.attest s).1) x.same_attester;
        same_session = x.same_session;
        same_rng = x.same_rng;
      };
    };
  }

  signer-Agrees : AgreesAll (λ a. (Outcome.ok a.signer, a))
  signer-Agrees = record {
    agrees = λ a a' x. record { same_result = ap ok x.same_signer; alike = x };
  }

  packet-Agrees : (size : ℕ) → AgreesAll (packet env c attester size)
  packet-Agrees size = record {
    agrees = λ a a' x.
        or_panic-Same (slice? a.framing.decobs_buffer 0 size)
          (slice? a'.framing.decobs_buffer 0 size) a a'
          (ap (λ o. slice? o.1 0 size) x.framing.same_outside) x;
  }

  sized-Agrees : (encap : List ℕ) → AgreesAll (sized_h2a env c attester encap)
  sized-Agrees encap = elim (Bool-cases (length encap == c.encap_key_size)) [
    | inl t ↦ record {
      agrees = λ a a' x. rw (sized_h2a, t) (record { same_result = refl; alike = x });
    }
    | inr f ↦ record {
      agrees = λ a a' x. rw (sized_h2a, f) (record { same_result = refl; alike = x });
    }
  ]

  accept-Agrees : (g : Greeting c) (size : ℕ) → AgreesAll (accept env c attester g size)
  unfolding accept
  accept-Agrees g size = then-Agrees (packet-Agrees size) (λ bytes.
      then-Agrees signer-Agrees (λ signer.
        then-Agrees
          (or_fail-Agrees (handshake_error "invalid host ack: ") (
            c.open_host_ack bytes
              (record {
                ark_signer = c.verifying_key signer;
                ark_crypto = c.public_key g.ark_crypto_key;
              })
              g.ark_crypto_key g.host_hello.host_signer crypto_domain_wire))
          (λ ack. then-Agrees (sized-Agrees ack.h2a_encap) (λ enc.
            then-Agrees
              (or_fail-Agrees (handshake_error "ark receiver setup failed: ")
                (c.new_receiver g.ark_crypto_key enc crypto_domain_wire_host_to_ark))
              (λ receiver. pure-Agrees (record { sender = g.sender; receiver = receiver }))))))

  module _ (cobs : CobsLaws env.cobs) (laws : MemchrLaws env.memchr) (fuel : ℕ)
      (enough : Fuelled env script fuel k) where
    read_hello-Agrees : (more : ℕ) → AgreesAll (read_hello env c attester fuel more)
    unfolding read_hello
    read_hello-Agrees zero = record { agrees = λ a a' x. record { same_result = refl; alike = x } }
    read_hello-Agrees (suc more) = record {
      agrees =
          (then-Agrees
            {k = λ found. elim found [
              | none ↦ read_hello env c attester fuel more
              | some size ↦ (λ a. (Outcome.ok size, a))
            ]}
            (on_framing-Agrees (next_packet-Agrees env script k cobs laws fuel enough))
            (λ found.
              elim-Agrees found (read_hello-Agrees more) (λ size. pure-Agrees size))).agrees;
    }

    greet-Agrees : (more : ℕ) → AgreesAll (greet env c attester fuel more)
    unfolding greet
    greet-Agrees more = then-Agrees (read_hello-Agrees more) (λ size.
        then-Agrees (packet-Agrees size) (λ bytes.
          then-Agrees
            (or_fail-Agrees (handshake_error "invalid host hello: ") (c.decode_host_hello bytes))
            (λ host_hello. then-Agrees (draw-Agrees c.generate_secret) (λ secret.
              then-Agrees
                (draw-Agrees (c.new_sender host_hello.host_crypto crypto_domain_wire_ark_to_host))
                (λ made.
                  then-Agrees (or_fail-Agrees (handshake_error "ark sender setup failed: ") made)
                    (λ pair. then-Agrees attest-Agrees (λ attestation.
                      then-Agrees signer-Agrees (λ signer.
                        then-Agrees
                          (draw-Agrees (
                            c.seal_ark_hello
                              (record {
                                ark_attest = into_bytes attestation;
                                ark_crypto = c.public_key secret;
                                a2h_encap = pair.1;
                              })
                              (record {
                                host_signer = host_hello.host_signer;
                                host_crypto = host_hello.host_crypto;
                              })
                              signer host_hello.host_crypto crypto_domain_wire))
                          (λ sealed.
                            then-Agrees
                              (or_fail-Agrees (handshake_error "failed to seal ark hello: ") sealed)
                              (λ hello.
                                then-Agrees
                                  (on_framing-Agrees (send_packet-Agrees env script k cobs hello))
                                  (λ u. pure-Agrees (record {
                                    host_hello = host_hello;
                                    ark_crypto_key = secret;
                                    sender = pair.0;
                                  }))))))))))))

    pub handshake-Agrees : (rounds : ℕ) → AgreesAll (handshake env c attester fuel rounds)
    unfolding handshake
    handshake-Agrees zero = record { agrees = λ a a' x. record { same_result = refl; alike = x } }
    handshake-Agrees (suc rounds) = record {
      agrees =
          (then-Agrees (greet-Agrees (suc rounds)) (λ g.
            then-Agrees {k = conclude env c attester fuel rounds g}
              (on_framing-Agrees (next_packet-Agrees env script k cobs laws fuel enough))
              (λ found.
                elim-Agrees found (handshake-Agrees rounds)
                  (λ size. accept-Agrees g size)))).agrees;
    }
