-- ===== src/Ark/Moves.antt =====
-- How a handshake of the Ark moves its side, by how its calls of the framer and its draws do.
use darkbio_wire_rs.Common.{ℕ, zero, suc, none, some, List, length, ◌==◌, Bool-cases, inl, inr}
use darkbio_wire_rs.Common.Slices.{slice?}
use darkbio_wire_rs.Error.{Outcome}
use darkbio_wire_rs.Error.Moves.{
  IsOrder, Moves, pure-Moves, or_fail-Moves, or_panic-keeps, then-Moves, elim-Moves,
}
use darkbio_wire_rs.Io.{Env}
use darkbio_wire_rs.Limits.{
  crypto_domain_wire, crypto_domain_wire_ark_to_host, crypto_domain_wire_host_to_ark,
}
use darkbio_wire_rs.Crypto.{Crypto}
use darkbio_wire_rs.Attestation.{Attester, into_bytes}
use darkbio_wire_rs.Framing
use darkbio_wire_rs.Framing.{Framing}
use darkbio_wire_rs.Host.{handshake_error}
use darkbio_wire_rs.Ark.Tail.{conclude, await_ack}
use darkbio_wire_rs.Ark.{
  ArkSide, Greeting, on_framing, draw, attest, packet, sized_h2a, read_hello, greet, accept,
  handshake,
}

-- An order that the parts of a handshake keep: its calls of the framer, and its draws.
pub record Steps {R W A : Type 0} (env : Env R W) (c : Crypto) (attester : Attester A)
    (T : ArkSide R W A c → ArkSide R W A c → Type 0) : Type 1 where
  pub order : IsOrder T
  pub reads : (fuel : ℕ) → Moves T (on_framing env c attester (Framing.next_packet env fuel))
  pub sends : (p : List ℕ) → Moves T (on_framing env c attester (Framing.send_packet env p))
  pub draws : {X : Type 0} (f : c.Rng → X × c.Rng) → Moves T (draw env c attester f)
  pub attests : Moves T (attest env c attester)

module _ {R W A : Type 0} (env : Env R W) (c : Crypto) (attester : Attester A)
    {T : ArkSide R W A c → ArkSide R W A c → Type 0} (steps : Steps env c attester T) where
  packet-Moves : (size : ℕ) → Moves T (packet env c attester size)
  packet-Moves size = record {
    moves = λ a. or_panic-keeps steps.order (slice? a.framing.decobs_buffer 0 size) a;
  }

  signer-Moves : Moves T (λ a. (Outcome.ok a.signer, a))
  signer-Moves = record { moves = λ a. steps.order.same a }

  sized-Moves : (encap : List ℕ) → Moves T (sized_h2a env c attester encap)
  sized-Moves encap = elim (Bool-cases (length encap == c.encap_key_size)) [
    | inl t ↦ record { moves = λ a. rw (sized_h2a, t) (steps.order.same a) }
    | inr f ↦ record { moves = λ a. rw (sized_h2a, f) (steps.order.same a) }
  ]

  read_hello-Moves : (fuel more : ℕ) → Moves T (read_hello env c attester fuel more)
  unfolding read_hello
  read_hello-Moves fuel zero = record { moves = λ a. steps.order.same a }
  read_hello-Moves fuel (suc more) = record {
    moves =
        (then-Moves steps.order
          {k = λ found. elim found [
            | none ↦ read_hello env c attester fuel more
            | some size ↦ (λ a. (Outcome.ok size, a))
          ]}
          (steps.reads fuel)
          (λ found.
            elim-Moves found (read_hello-Moves fuel more)
              (λ size. pure-Moves steps.order size))).moves;
  }

  greet-Moves : (fuel more : ℕ) → Moves T (greet env c attester fuel more)
  unfolding greet
  greet-Moves fuel more = then-Moves steps.order (read_hello-Moves fuel more) (λ size.
      then-Moves steps.order (packet-Moves size) (λ bytes.
        then-Moves steps.order
          (or_fail-Moves steps.order (handshake_error "invalid host hello: ")
            (c.decode_host_hello bytes))
          (λ host_hello. then-Moves steps.order (steps.draws c.generate_secret) (λ secret.
            then-Moves steps.order
              (steps.draws (c.new_sender host_hello.host_crypto crypto_domain_wire_ark_to_host))
              (λ made.
                then-Moves steps.order
                  (or_fail-Moves steps.order (handshake_error "ark sender setup failed: ") made)
                  (λ pair. then-Moves steps.order steps.attests (λ attestation.
                    then-Moves steps.order signer-Moves (λ signer.
                      then-Moves steps.order
                        (steps.draws (
                          c.seal_ark_hello
                            (record {
                              ark_attest = into_bytes attestation;
                              ark_crypto = c.public_key secret;
                              a2h_encap = pair.1;
                            })
                            (record {
                              host_signer = host_hello.host_signer;
                              host_crypto = host_hello.host_crypto;
                            })
                            signer host_hello.host_crypto crypto_domain_wire))
                        (λ sealed.
                          then-Moves steps.order
                            (or_fail-Moves steps.order
                              (handshake_error "failed to seal ark hello: ") sealed)
                            (λ hello. then-Moves steps.order (steps.sends hello) (λ u.
                              pure-Moves steps.order (record {
                                host_hello = host_hello;
                                ark_crypto_key = secret;
                                sender = pair.0;
                              }))))))))))))

  accept-Moves : (g : Greeting c) (size : ℕ) → Moves T (accept env c attester g size)
  unfolding accept
  accept-Moves g size = then-Moves steps.order (packet-Moves size) (λ bytes.
      then-Moves steps.order signer-Moves (λ signer.
        then-Moves steps.order
          (or_fail-Moves steps.order (handshake_error "invalid host ack: ") (
            c.open_host_ack bytes
              (record {
                ark_signer = c.verifying_key signer;
                ark_crypto = c.public_key g.ark_crypto_key;
              })
              g.ark_crypto_key g.host_hello.host_signer crypto_domain_wire))
          (λ ack. then-Moves steps.order (sized-Moves ack.h2a_encap) (λ enc.
            then-Moves steps.order
              (or_fail-Moves steps.order (handshake_error "ark receiver setup failed: ")
                (c.new_receiver g.ark_crypto_key enc crypto_domain_wire_host_to_ark))
              (λ receiver.
                pure-Moves steps.order (record { sender = g.sender; receiver = receiver }))))))

  pub handshake-Moves : (fuel rounds : ℕ) → Moves T (handshake env c attester fuel rounds)
  unfolding handshake
  handshake-Moves fuel zero = record { moves = λ a. steps.order.same a }
  handshake-Moves fuel (suc rounds) = record {
    moves =
        (then-Moves steps.order (greet-Moves fuel (suc rounds)) (λ g.
          then-Moves steps.order {k = conclude env c attester fuel rounds g} (steps.reads fuel)
            (λ found.
              elim-Moves found (handshake-Moves fuel rounds) (λ size. accept-Moves g size)))).moves;
  }

  pub await_ack-Moves :
      (fuel rounds : ℕ) (g : Greeting c) → Moves T (await_ack env c attester fuel rounds g)
  await_ack-Moves fuel rounds g =
      then-Moves steps.order {k = conclude env c attester fuel rounds g} (steps.reads fuel)
        (λ found. elim-Moves found (handshake-Moves fuel rounds) (λ size. accept-Moves g size))
