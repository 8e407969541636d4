-- ===== src/Crypto/Honest.antt =====
-- What the handshake (src/side_host.rs, src/side_ark.rs) relies on from the crypto crates between
-- two honest sides: what one seals the other opens, and the contexts of one encapsulated key pair.
use darkbio_wire_rs.Common.{ℕ, ◌≤◌, ◌≡◌, List, length, true, String}
use darkbio_wire_rs.Error.{value}
use darkbio_wire_rs.Io.{Env}
use darkbio_wire_rs.Handshake.{HostHello, ArkHello, ArkHelloAuth, HostAck, HostAckAuth}
use darkbio_wire_rs.Crypto.{Crypto}
use darkbio_wire_rs.Session.Laws.{Secure}

pub record Honest {c : Crypto} (secure : Secure c) : Type 0 where
  -- how many messages a fresh pair of contexts carries
  pub capacity : ℕ
  pub fingerprint_self : (fp : c.Fingerprint) → c.same_fingerprint fp fp ≡ true
  pub hello :
      (m : HostHello c.VerifyingKey c.PublicKey)
      → (bytes : List ℕ) × (c.encode_host_hello m ≡ value bytes)
        × (c.decode_host_hello bytes ≡ value m)
  -- the sender to a public key, and the receiver that its secret key makes of the encapsulated key
  pub contexts :
      (sk : c.SecretKey) (domain : String) (rng : c.Rng)
      → (sender : c.Sender) × (encap : List ℕ) × ((c.new_sender (c.public_key sk) domain rng).0
          ≡ value (sender, encap))
        × (length encap ≡ c.encap_key_size)
        × (receiver : c.Receiver) × (c.new_receiver sk encap domain ≡ value receiver)
        × secure.Paired capacity sender receiver
  pub ark_hello :
      (m : ArkHello c.VerifyingKey c.PublicKey) (auth : ArkHelloAuth c.VerifyingKey c.PublicKey)
      (key : c.SigningKey) (sk : c.SecretKey) (domain : String) (rng : c.Rng)
      → (bytes : List ℕ) × (sign1 : List ℕ) × ((c.seal_ark_hello m auth key
            (c.public_key sk)
            domain
            rng).0
          ≡ value bytes)
        × (c.recipient bytes ≡ value (c.fingerprint (c.public_key sk)))
        × (c.decrypt_ark_hello bytes auth sk domain ≡ value sign1)
        × (c.peek_ark_hello sign1 ≡ value m)
        × (c.verify_ark_hello sign1 auth (c.verifying_key key) domain ≡ value m)
  pub host_ack :
      (m : HostAck c.VerifyingKey c.PublicKey) (auth : HostAckAuth c.VerifyingKey c.PublicKey)
      (key : c.SigningKey) (sk : c.SecretKey) (domain : String) (rng : c.Rng)
      → (bytes : List ℕ) × ((c.seal_host_ack m auth key (c.public_key sk) domain rng).0
          ≡ value bytes)
        × (c.open_host_ack bytes auth sk (c.verifying_key key) domain ≡ value m)

-- The messages of a handshake fit a frame, with an attestation of at most that size.
pub record HasRoom {R W : Type 0} (env : Env R W) (c : Crypto) (attestation_limit : ℕ)
    : Type 0 where
  pub hello_fits :
      (m : HostHello c.VerifyingKey c.PublicKey) (bytes : List ℕ)
      → c.encode_host_hello m ≡ value bytes
      → env.cobs.encode_buffer (length bytes) ≤ env.frame_limit
  pub ark_hello_fits :
      (m : ArkHello c.VerifyingKey c.PublicKey) (auth : ArkHelloAuth c.VerifyingKey c.PublicKey)
      (key : c.SigningKey) (pk : c.PublicKey) (domain : String) (rng : c.Rng) (bytes : List ℕ)
      → length m.ark_attest ≤ attestation_limit
      → length m.a2h_encap ≡ c.encap_key_size
      → (c.seal_ark_hello m auth key pk domain rng).0 ≡ value bytes
      → env.cobs.encode_buffer (length bytes) ≤ env.frame_limit
  pub ack_fits :
      (m : HostAck c.VerifyingKey c.PublicKey) (auth : HostAckAuth c.VerifyingKey c.PublicKey)
      (key : c.SigningKey) (pk : c.PublicKey) (domain : String) (rng : c.Rng) (bytes : List ℕ)
      → length m.h2a_encap ≡ c.encap_key_size
      → (c.seal_host_ack m auth key pk domain rng).0 ≡ value bytes
      → env.cobs.encode_buffer (length bytes) ≤ env.frame_limit
