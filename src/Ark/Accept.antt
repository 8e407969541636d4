-- ===== src/Ark/Accept.antt =====
-- What a handshake of the Ark has checked when it succeeds.
use darkbio_wire_rs.Common.{ℕ, zero, suc, ◌≡◌, refl, subst, ◌∙◌, none, some, List, length}
use darkbio_wire_rs.Error.{value, ok}
use darkbio_wire_rs.Error.Runs.{
  Ends, then-Achieves, or_fail-Achieves, pure-Achieves, elim-Achieves, weaken-Achieves,
}
use darkbio_wire_rs.Io.{Env}
use darkbio_wire_rs.Limits.{
  crypto_domain_wire, crypto_domain_wire_ark_to_host, crypto_domain_wire_host_to_ark,
}
use darkbio_wire_rs.Handshake.{HostAck}
use darkbio_wire_rs.Crypto.{Crypto}
use darkbio_wire_rs.Attestation.{into_bytes, Attester}
use darkbio_wire_rs.Session.{Session}
use darkbio_wire_rs.Framing
use darkbio_wire_rs.Framing.{Framing}
use darkbio_wire_rs.Host.{handshake_error}
use darkbio_wire_rs.Ark.Runs.{
  Signs, Runs, on_framing-Runs, draw-Runs, attest-Runs, signer-Runs, packet-Runs, sized-Runs,
  read_hello-Runs,
}
use darkbio_wire_rs.Ark.{ArkSide, Greeting, greet, accept, handshake}

module _ {R W A : Type 0} (env : Env R W) (c : Crypto) (attester : Attester A)
    (key : c.SigningKey) where
  -- The host's hello and the Ark's answer to it, sealed by the identity key with a fresh key and the
  -- key of the sender, and delivered.
  pub record IsGreeted (g : Greeting c) : Type 0 where
    pub packet : List ℕ
    pub decoded : c.decode_host_hello packet ≡ value g.host_hello
    pub secret_rng : c.Rng
    pub secret_drawn : (c.generate_secret secret_rng).0 ≡ g.ark_crypto_key
    pub rng : c.Rng
    pub encap : List ℕ
    pub sending :
        (c.new_sender g.host_hello.host_crypto crypto_domain_wire_ark_to_host rng).0
        ≡ value (g.sender, encap)
    pub source : A
    pub hello_rng : c.Rng
    pub hello : List ℕ
    pub sealed :
        (c.seal_ark_hello
          (record {
            ark_attest = into_bytes (attester.attest source).0;
            ark_crypto = c.public_key g.ark_crypto_key;
            a2h_encap = encap;
          })
          (record {
            host_signer = g.host_hello.host_signer;
            host_crypto = g.host_hello.host_crypto;
          })
          key
          g.host_hello.host_crypto
          crypto_domain_wire
          hello_rng).0
        ≡ value hello
    pub framing : Framing R W
    pub delivered : (Framing.send_packet env hello framing).0 ≡ ok tt

  greet-IsGreeted :
      (fuel more : ℕ) → Runs env c attester key IsGreeted (greet env c attester fuel more)
  unfolding greet
  greet-IsGreeted fuel more =
      then-Achieves (read_hello-Runs env c attester key fuel more) (λ size u.
        then-Achieves (packet-Runs env c attester key size) (λ bytes u'.
          then-Achieves
            (or_fail-Achieves (handshake_error "invalid host hello: ") (c.decode_host_hello bytes))
            (λ host_hello decoded.
              then-Achieves (draw-Runs env c attester key c.generate_secret) (λ secret drawn.
                then-Achieves
                  (draw-Runs env c attester key
                    (c.new_sender host_hello.host_crypto crypto_domain_wire_ark_to_host))
                  (λ made sender.
                    then-Achieves
                      (or_fail-Achieves (handshake_error "ark sender setup failed: ") made)
                      (λ pair sending.
                        then-Achieves (attest-Runs env c attester key) (λ attestation attested.
                          then-Achieves (signer-Runs env c attester key) (λ signer same.
                            then-Achieves
                              (draw-Runs env c attester key (
                                c.seal_ark_hello
                                  (record {
                                    ark_attest = into_bytes attestation;
                                    ark_crypto = c.public_key secret;
                                    a2h_encap = pair.1;
                                  })
                                  (record {
                                    host_signer = host_hello.host_signer;
                                    host_crypto = host_hello.host_crypto;
                                  })
                                  signer host_hello.host_crypto crypto_domain_wire))
                              (λ sealed box.
                                then-Achieves
                                  (or_fail-Achieves (handshake_error "failed to seal ark hello: ")
                                    sealed)
                                  (λ hello done.
                                    then-Achieves
                                      (on_framing-Runs env c attester key
                                        (Framing.send_packet env hello))
                                      (λ u'' delivered.
                                        pure-Achieves
                                          (record {
                                            host_hello = host_hello;
                                            ark_crypto_key = secret;
                                            sender = pair.0;
                                          })
                                          (record {
                                            packet = bytes;
                                            decoded = decoded;
                                            secret_rng = drawn.0;
                                            secret_drawn = drawn.1;
                                            rng = sender.0;
                                            encap = pair.1;
                                            sending = sender.1 ∙ sending;
                                            source = attested.0;
                                            hello_rng = box.0;
                                            hello = hello;
                                            sealed = rw (attested.1, ← same) (box.1 ∙ done);
                                            framing = delivered.0;
                                            delivered = delivered.1;
                                          }))))))))))))

  -- The host's ack was signed by the key of its hello and sealed to the Ark's fresh key, and the
  -- session's receiver is of the encapsulated key in it.
  pub record IsAcknowledged (g : Greeting c) (s : Session c) : Type 0 where
    pub packet : List ℕ
    pub ack : HostAck c.VerifyingKey c.PublicKey
    pub opened :
        c.open_host_ack packet
          (record { ark_signer = c.verifying_key key; ark_crypto = c.public_key g.ark_crypto_key })
          g.ark_crypto_key
          g.host_hello.host_signer
          crypto_domain_wire
        ≡ value ack
    pub sized : length ack.h2a_encap ≡ c.encap_key_size
    pub receiving :
        c.new_receiver g.ark_crypto_key ack.h2a_encap crypto_domain_wire_host_to_ark
        ≡ value s.receiver
    pub same_sender : s.sender ≡ g.sender

  accept-IsAcknowledged :
      (g : Greeting c) (size : ℕ)
      → Runs env c attester key (IsAcknowledged g) (accept env c attester g size)
  unfolding accept
  accept-IsAcknowledged g size = then-Achieves (packet-Runs env c attester key size) (λ bytes u.
      then-Achieves (signer-Runs env c attester key) (λ signer same.
        then-Achieves
          (or_fail-Achieves (handshake_error "invalid host ack: ") (
            c.open_host_ack bytes
              (record {
                ark_signer = c.verifying_key signer;
                ark_crypto = c.public_key g.ark_crypto_key;
              })
              g.ark_crypto_key g.host_hello.host_signer crypto_domain_wire))
          (λ ack opened. then-Achieves (sized-Runs env c attester key ack.h2a_encap) (λ enc sized.
            then-Achieves
              (or_fail-Achieves (handshake_error "ark receiver setup failed: ")
                (c.new_receiver g.ark_crypto_key enc crypto_domain_wire_host_to_ark))
              (λ receiver receiving.
                pure-Achieves (record { sender = g.sender; receiver = receiver })
                  (record {
                    packet = bytes;
                    ack = ack;
                    opened = rw (← same) opened;
                    sized = sized.1;
                    receiving =
                        subst
                          (λ e.
                            c.new_receiver g.ark_crypto_key e crypto_domain_wire_host_to_ark
                            ≡ value receiver)
                          sized.0 receiving;
                    same_sender = refl;
                  }))))))

  -- Both halves of a handshake.
  pub record Acknowledges (s : Session c) : Type 0 where
    pub greeting : Greeting c
    pub greeted : IsGreeted greeting
    pub acknowledged : IsAcknowledged greeting s

  handshake-Runs :
      (fuel rounds : ℕ)
      → Runs env c attester key Acknowledges (handshake env c attester fuel rounds)
  unfolding handshake
  handshake-Runs fuel zero = record { ends = λ a e. e }
  handshake-Runs fuel (suc rounds) = record {
    ends =
        (then-Achieves (greet-IsGreeted fuel (suc rounds)) (λ g greeted.
          then-Achieves
            {k = λ found. elim found [
              | none ↦ handshake env c attester fuel rounds
              | some size ↦ accept env c attester g size
            ]}
            (on_framing-Runs env c attester key (Framing.next_packet env fuel))
            (λ found f. elim-Achieves found (handshake-Runs fuel rounds) (λ size.
              weaken-Achieves
                (λ s acknowledged. record {
                  greeting = g;
                  greeted = greeted;
                  acknowledged = acknowledged;
                })
                (accept-IsAcknowledged g size))))).ends;
  }

  -- A handshake of the Ark that succeeds has read a hello of the host, answered it with a fresh key
  -- and an attestation of the attester, sealed with the Ark's identity key, and opened an ack to
  -- that fresh key which the signer of that same hello signed over the Ark's identity and fresh
  -- key. The session's receiver is of the encapsulated key in the ack, of the right size, and its
  -- sender is the one whose key was in the answer. Keys are the Ark's own whatever resets came
  -- before, and its identity key is unchanged however the handshake ends.
  pub handshake-Acknowledges :
      (fuel rounds : ℕ) (a : ArkSide R W A c)
      → a.signer ≡ key
      → Ends
          (Signs env c attester key)
          Acknowledges
          (handshake env c attester fuel rounds a).0
          (handshake env c attester fuel rounds a).1
  handshake-Acknowledges fuel rounds a e = (handshake-Runs fuel rounds).ends a e
