-- ===== src/Host/Ends.antt =====
-- The operations of the host return.
use darkbio_wire_rs.Common.{ℕ, ◌≤◌, List, Bool-cases, inl, inr, ◌&&◌}
use darkbio_wire_rs.Error.{handshake_failed}
use darkbio_wire_rs.Error.Total.{Finishes, then-Total, or_fail-Total, pure-Total}
use darkbio_wire_rs.Io.{Env}
use darkbio_wire_rs.Io.Laws.{MemchrLaws, Script, CobsLaws}
use darkbio_wire_rs.Limits.{
  crypto_domain_wire, crypto_domain_wire_ark_to_host, crypto_domain_wire_host_to_ark,
}
use darkbio_wire_rs.Handshake.{ArkHelloAuth}
use darkbio_wire_rs.Crypto.{Crypto}
use darkbio_wire_rs.Attestation
use darkbio_wire_rs.Attestation.{Verifier, is_err}
use darkbio_wire_rs.Session.{Session}
use darkbio_wire_rs.Framing.Live.{Fuelled}
use darkbio_wire_rs.Host.{
  HostSide, Greeting, max_stale_frames, handshake_error, wrapped, keep_session, drop_session,
  read_ark_hello, establish, negotiate, handshake,
}
use darkbio_wire_rs.Host.Total.{
  Alive, Settles, draw-Settles, packet-Settles, sized-Settles, send-Settles, reset-Settles,
  skip_stale-Total,
}

module _ {R W : Type 0} (env : Env R W) (c : Crypto) (script : Script env.reader)
    (cobs : CobsLaws env.cobs) (laws : MemchrLaws env.memchr) (k : ℕ) where
  wrapped-Settles :
      (cwt : List ℕ) → Settles env c script cobs laws k (wrapped env c (Attestation.new c cwt))
  unfolding Attestation.new
  wrapped-Settles cwt =
      elim (Bool-cases (is_err (c.peek_hardware cwt) && is_err (c.peek_emulator cwt))) [
        | inl t ↦ record { finishes = λ h e. rw t e }
        | inr f ↦ record { finishes = λ h e. rw f (tt, e) }
      ]

  read_ark_hello-Settles :
      {Info : Type 0} (verifier : Verifier c.VerifyingKey Info)
      (auth : ArkHelloAuth c.VerifyingKey c.PublicKey) (sk : c.SecretKey) (size : ℕ)
      → size ≤ env.frame_limit
      → Settles env c script cobs laws k (read_ark_hello env c verifier auth sk size)
  unfolding read_ark_hello
  read_ark_hello-Settles verifier auth sk size fits =
      then-Total (packet-Settles env c script cobs laws k size fits) (λ bytes u.
        then-Total
          (or_fail-Total (handshake_error "failed to decrypt ark hello: ")
            (c.decrypt_ark_hello bytes auth sk crypto_domain_wire))
          (λ sign1 u.
            then-Total
              (or_fail-Total (handshake_error "invalid ark hello payload: ")
                (c.peek_ark_hello sign1))
              (λ unverified u. then-Total (wrapped-Settles unverified.ark_attest) (λ attestation u.
                then-Total (or_fail-Total handshake_failed (verifier.verify attestation))
                  (λ found u.
                    then-Total
                      (or_fail-Total (handshake_error "ark hello signature invalid: ")
                        (c.verify_ark_hello sign1 auth found.0 crypto_domain_wire))
                      (λ hello u.
                        pure-Total
                          (record { ark_identity = found.0; info = found.1; ark_hello = hello })
                          tt))))))

  establish-Settles :
      {Info : Type 0} (signer : c.SigningKey) (sk : c.SecretKey) (g : Greeting c Info)
      → Settles env c script cobs laws k (establish env c signer sk g)
  unfolding establish
  establish-Settles signer sk g =
      then-Total (sized-Settles env c script cobs laws k g.ark_hello.a2h_encap) (λ enc u.
        then-Total
          (or_fail-Total (handshake_error "host receiver setup failed: ")
            (c.new_receiver sk enc crypto_domain_wire_ark_to_host))
          (λ receiver u.
            then-Total
              (draw-Settles env c script cobs laws k
                (c.new_sender g.ark_hello.ark_crypto crypto_domain_wire_host_to_ark))
              (λ made u.
                then-Total (or_fail-Total (handshake_error "host sender setup failed: ") made)
                  (λ pair u.
                    then-Total
                      (draw-Settles env c script cobs laws k (
                        c.seal_host_ack (record { h2a_encap = pair.1 })
                          (record {
                            ark_signer = g.ark_identity;
                            ark_crypto = g.ark_hello.ark_crypto;
                          })
                          signer g.ark_hello.ark_crypto crypto_domain_wire))
                      (λ sealed u.
                        then-Total
                          (or_fail-Total (handshake_error "failed to seal host ack: ") sealed)
                          (λ ack u. then-Total (send-Settles env c script cobs laws k ack) (λ u u'.
                            pure-Total (record { sender = pair.0; receiver = receiver }) tt)))))))

  keep-Settles : (s : Session c) → Settles env c script cobs laws k (keep_session env c s)
  keep-Settles s = record { finishes = λ h e. (tt, e) }

  negotiate-Settles :
      {Info : Type 0} (fuel : ℕ) (verifier : Verifier c.VerifyingKey Info)
      → Fuelled env script fuel k
      → Settles env c script cobs laws k (negotiate env c fuel verifier)
  unfolding negotiate
  negotiate-Settles fuel verifier enough =
      then-Total (reset-Settles env c script cobs laws k) (λ u u'.
        then-Total (draw-Settles env c script cobs laws k c.generate_signer) (λ signer u.
          then-Total (draw-Settles env c script cobs laws k c.generate_secret) (λ secret u.
            then-Total
              (or_fail-Total (handshake_error "failed to encode host hello: ") (
                c.encode_host_hello (record {
                  host_signer = c.verifying_key signer;
                  host_crypto = c.public_key secret;
                })))
              (λ hello u. then-Total (send-Settles env c script cobs laws k hello) (λ u u'.
                then-Total
                  (skip_stale-Total env c script cobs laws k fuel enough
                    (c.fingerprint (c.public_key secret)) max_stale_frames)
                  (λ size fits.
                    then-Total
                      (read_ark_hello-Settles verifier
                        (record {
                          host_signer = c.verifying_key signer;
                          host_crypto = c.public_key secret;
                        })
                        secret size fits)
                      (λ greeting u.
                        then-Total (establish-Settles signer secret greeting) (λ session u.
                          then-Total (keep-Settles session)
                            (λ u u'. pure-Total greeting.info tt)))))))))

  -- A handshake of the host always returns, with its information or an error: with `k` events to
  -- come on its stream, 2 k + 1 passes for each call of the framer are enough, nothing panics
  -- whatever the peer sends, and the framer is valid afterwards with at most `k` events left.
  pub handshake-Finishes :
      {Info : Type 0} (fuel : ℕ) (verifier : Verifier c.VerifyingKey Info) (h : HostSide R W c)
      → Fuelled env script fuel k
      → Alive env c script cobs laws k h
      → Finishes
          (Alive env c script cobs laws k)
          (λ info. Unit {0})
          (handshake env c fuel verifier h).0
          (handshake env c fuel verifier h).1
  unfolding handshake
  handshake-Finishes fuel verifier h enough alive =
      (negotiate-Settles fuel verifier enough).finishes (drop_session env c h) alive
