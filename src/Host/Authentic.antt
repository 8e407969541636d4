-- ===== src/Host/Authentic.antt =====
-- What a handshake of the host has checked when it succeeds.
use darkbio_wire_rs.Common.{ℕ, ◌≡◌, List}
use darkbio_wire_rs.Error.{handshake_failed, value, ok}
use darkbio_wire_rs.Io.{Env}
use darkbio_wire_rs.Limits.{crypto_domain_wire}
use darkbio_wire_rs.Handshake.{ArkHello, ArkHelloAuth}
use darkbio_wire_rs.Crypto.{Crypto}
use darkbio_wire_rs.Attestation
use darkbio_wire_rs.Attestation.{Attestation, Verifier}
use darkbio_wire_rs.Host.{Greeting, handshake_error, read_ark_hello}
use darkbio_wire_rs.Error.Runs.{then-Achieves, or_fail-Achieves, pure-Achieves, result-Achieves}
use darkbio_wire_rs.Host.Runs.{Runs, packet-Runs}

module _ {R W : Type 0} (env : Env R W) (c : Crypto) {Info : Type 0}
    (verifier : Verifier c.VerifyingKey Info) where
  -- The verifier accepted the attestation of a hello that was encrypted to the host's key, and the
  -- hello's signature, which covers the host's keys, is of the identity that the verifier gave.
  pub record IsAccepted (auth : ArkHelloAuth c.VerifyingKey c.PublicKey) (sk : c.SecretKey)
      (g : Greeting c Info) : Type 0 where
    pub packet : List ℕ
    pub sign1 : List ℕ
    pub attestation : Attestation
    pub unverified : ArkHello c.VerifyingKey c.PublicKey
    pub decrypted : c.decrypt_ark_hello packet auth sk crypto_domain_wire ≡ value sign1
    pub peeked : c.peek_ark_hello sign1 ≡ value unverified
    pub attested : Attestation.new c unverified.ark_attest ≡ ok attestation
    pub accepted : verifier.verify attestation ≡ value (g.ark_identity, g.info)
    pub signed : c.verify_ark_hello sign1 auth g.ark_identity crypto_domain_wire ≡ value g.ark_hello

  pub read_ark_hello-IsAccepted :
      (auth : ArkHelloAuth c.VerifyingKey c.PublicKey) (sk : c.SecretKey) (size : ℕ)
      → Runs (IsAccepted auth sk) (read_ark_hello env c verifier auth sk size)
  unfolding read_ark_hello
  read_ark_hello-IsAccepted auth sk size = then-Achieves (packet-Runs env size) (λ bytes u.
      then-Achieves
        (or_fail-Achieves (handshake_error "failed to decrypt ark hello: ")
          (c.decrypt_ark_hello bytes auth sk crypto_domain_wire))
        (λ sign1 decrypted.
          then-Achieves
            (or_fail-Achieves (handshake_error "invalid ark hello payload: ")
              (c.peek_ark_hello sign1))
            (λ unverified peeked.
              then-Achieves (result-Achieves (Attestation.new c unverified.ark_attest))
                (λ attestation attested.
                  then-Achieves (or_fail-Achieves handshake_failed (verifier.verify attestation))
                    (λ found accepted.
                      then-Achieves
                        (or_fail-Achieves (handshake_error "ark hello signature invalid: ")
                          (c.verify_ark_hello sign1 auth found.0 crypto_domain_wire))
                        (λ hello signed.
                          pure-Achieves
                            (record { ark_identity = found.0; info = found.1; ark_hello = hello })
                            (record {
                              packet = bytes;
                              sign1 = sign1;
                              attestation = attestation;
                              unverified = unverified;
                              decrypted = decrypted;
                              peeked = peeked;
                              attested = attested;
                              accepted = accepted;
                              signed = signed;
                            })))))))
