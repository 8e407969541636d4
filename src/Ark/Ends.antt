-- ===== src/Ark/Ends.antt =====
-- The Ark's handshake and its loop come to an end.
use darkbio_wire_rs.Common.{ℕ, zero, suc, ◌≤◌, ◌<◌, Option, none, some, arith}
use darkbio_wire_rs.Error.{Op}
use darkbio_wire_rs.Error.Total.{then-Total, or_fail-Total, pure-Total}
use darkbio_wire_rs.Io.{Env}
use darkbio_wire_rs.Io.Laws.{MemchrLaws, Script, CobsLaws}
use darkbio_wire_rs.Limits.{
  crypto_domain_wire, crypto_domain_wire_ark_to_host, crypto_domain_wire_host_to_ark,
}
use darkbio_wire_rs.Crypto.{Crypto}
use darkbio_wire_rs.Attestation.{into_bytes, Attester}
use darkbio_wire_rs.Session.{Session}
use darkbio_wire_rs.Framing.Live.{Fuelled}
use darkbio_wire_rs.Host.{handshake_error}
use darkbio_wire_rs.Ark.{ArkSide, Greeting, greet, accept, handshake}
use darkbio_wire_rs.Ark.Total.{
  Sized, Settles, draw-Settles, attest-Settles, signer-Settles, packet-Settles, sized-Settles,
  send-Settles, packet-Total, read_hello-Total,
}

module _ {R W A : Type 0} (env : Env R W) (c : Crypto) (attester : Attester A)
    (script : Script env.reader) (cobs : CobsLaws env.cobs) (laws : MemchrLaws env.memchr) where
  greet-Settles :
      (fuel more k : ℕ)
      → Fuelled env script fuel k
      → k < more
      → Settles env c attester script cobs laws k (greet env c attester fuel more)
  unfolding greet
  greet-Settles fuel more k enough h =
      then-Total (read_hello-Total env c attester script cobs laws fuel more k enough h)
        (λ size fits.
          then-Total (packet-Settles env c attester script cobs laws k size fits) (λ bytes u.
            then-Total
              (or_fail-Total (handshake_error "invalid host hello: ") (c.decode_host_hello bytes))
              (λ host_hello u.
                then-Total (draw-Settles env c attester script cobs laws k c.generate_secret)
                  (λ secret u.
                    then-Total
                      (draw-Settles env c attester script cobs laws k
                        (c.new_sender host_hello.host_crypto crypto_domain_wire_ark_to_host))
                      (λ made u.
                        then-Total
                          (or_fail-Total (handshake_error "ark sender setup failed: ") made)
                          (λ pair u.
                            then-Total (attest-Settles env c attester script cobs laws k)
                              (λ attestation u.
                                then-Total (signer-Settles env c attester script cobs laws k)
                                  (λ signer u.
                                    then-Total
                                      (draw-Settles env c attester script cobs laws k (
                                        c.seal_ark_hello
                                          (record {
                                            ark_attest = into_bytes attestation;
                                            ark_crypto = c.public_key secret;
                                            a2h_encap = pair.1;
                                          })
                                          (record {
                                            host_signer = host_hello.host_signer;
                                            host_crypto = host_hello.host_crypto;
                                          })
                                          signer host_hello.host_crypto crypto_domain_wire))
                                      (λ sealed u.
                                        then-Total
                                          (or_fail-Total
                                            (handshake_error "failed to seal ark hello: ") sealed)
                                          (λ hello u.
                                            then-Total
                                              (send-Settles env c attester script cobs laws k hello)
                                              (λ u u'.
                                                pure-Total
                                                  (record {
                                                    host_hello = host_hello;
                                                    ark_crypto_key = secret;
                                                    sender = pair.0;
                                                  })
                                                  tt)))))))))))

  accept-Settles :
      (k : ℕ) (g : Greeting c) (size : ℕ)
      → size ≤ env.frame_limit
      → Settles env c attester script cobs laws k (accept env c attester g size)
  unfolding accept
  accept-Settles k g size fits =
      then-Total (packet-Settles env c attester script cobs laws k size fits) (λ bytes u.
        then-Total (signer-Settles env c attester script cobs laws k) (λ signer u.
          then-Total
            (or_fail-Total (handshake_error "invalid host ack: ") (
              c.open_host_ack bytes
                (record {
                  ark_signer = c.verifying_key signer;
                  ark_crypto = c.public_key g.ark_crypto_key;
                })
                g.ark_crypto_key g.host_hello.host_signer crypto_domain_wire))
            (λ ack u.
              then-Total (sized-Settles env c attester script cobs laws k ack.h2a_encap) (λ enc u.
                then-Total
                  (or_fail-Total (handshake_error "ark receiver setup failed: ")
                    (c.new_receiver g.ark_crypto_key enc crypto_domain_wire_host_to_ark))
                  (λ receiver u.
                    pure-Total (record { sender = g.sender; receiver = receiver }) tt)))))

  -- What follows the second packet of a handshake.
  abbrev acked : ℕ → ℕ → Greeting c → Option ℕ → Op (ArkSide R W A c) (Session c)
  acked fuel rounds g found = elim found [
    | none ↦ handshake env c attester fuel rounds
    | some size ↦ accept env c attester g size
  ]

  pub handshake-Settles :
      (fuel rounds k : ℕ)
      → Fuelled env script fuel k
      → k < rounds
      → Settles env c attester script cobs laws k (handshake env c attester fuel rounds)
  unfolding handshake
  handshake-Settles fuel zero k enough h = absurd (omega arith)
  handshake-Settles fuel (suc rounds) k enough h = record {
    finishes =
        (then-Total (greet-Settles fuel (suc rounds) k enough h) (λ g u.
          packet-Total env c attester script cobs laws fuel k (λ s. Unit {0}) (acked fuel rounds g)
            enough
            (λ j found.
              elim found
                as (λ o.
                  j < k
                  → Sized env c attester script cobs laws o
                  → Settles env c attester script cobs laws j (acked fuel rounds g o)) [
                    | none ↦ λ l s.
                        handshake-Settles fuel rounds j
                          (omega (arith, enough.0), omega (arith, enough.1)) (omega arith)
                    | some size ↦ λ l s. accept-Settles j g size s
                  ]))).finishes;
  }
