-- ===== src/Exchange/Transcript.antt =====
-- What two honest sides say to each other in a handshake, from their keys and random states.
use darkbio_wire_rs.Common.{ℕ, List}
use darkbio_wire_rs.Limits.{
  crypto_domain_wire, crypto_domain_wire_ark_to_host, crypto_domain_wire_host_to_ark,
}
use darkbio_wire_rs.Handshake.{ArkHello, HostAck, HostAckAuth}
use darkbio_wire_rs.Crypto.{Crypto}
use darkbio_wire_rs.Crypto.Honest.{Honest}
use darkbio_wire_rs.Session.Laws.{Secure}
use darkbio_wire_rs.Host.Tail.{HostKeys, shown}
use darkbio_wire_rs.Ark.{Greeting}

-- The contexts of one direction, and the encapsulated key between them.
pub record Contexts (c : Crypto) : Type 0 where
  pub sender : c.Sender
  pub encap : List ℕ
  pub receiver : c.Receiver

module _ {c : Crypto} (secure : Secure c) (honest : Honest secure) (keys : HostKeys c)
    (signer : c.SigningKey) (cwt : List ℕ) (ark_rng host_rng : c.Rng) where
  -- The Ark's ephemeral key, drawn first.
  abbrev pub ark_secret : c.SecretKey
  ark_secret = (c.generate_secret ark_rng).0

  abbrev ark_rng' : c.Rng
  ark_rng' = (c.generate_secret ark_rng).1

  -- The Ark's sender and the host's receiver.
  abbrev pub to_host : Contexts c
  to_host =
      let k = honest.contexts keys.secret crypto_domain_wire_ark_to_host ark_rng' in
      record { sender = k.0; encap = k.1; receiver = k.4 }

  -- The host's sender and the Ark's receiver.
  abbrev pub to_ark : Contexts c
  to_ark =
      let k = honest.contexts ark_secret crypto_domain_wire_host_to_ark host_rng in
      record { sender = k.0; encap = k.1; receiver = k.4 }

  abbrev pub ark_message : ArkHello c.VerifyingKey c.PublicKey
  ark_message = record {
    ark_attest = cwt;
    ark_crypto = c.public_key ark_secret;
    a2h_encap = to_host.encap;
  }

  -- The Ark's hello, sealed.
  abbrev pub ark_hello : List ℕ
  ark_hello =
      (honest.ark_hello ark_message (shown c keys) signer keys.secret crypto_domain_wire
        (c.new_sender (c.public_key keys.secret) crypto_domain_wire_ark_to_host ark_rng').1).0

  abbrev pub host_message : HostAck c.VerifyingKey c.PublicKey
  host_message = record { h2a_encap = to_ark.encap }

  abbrev pub host_auth : HostAckAuth c.VerifyingKey c.PublicKey
  host_auth = record { ark_signer = c.verifying_key signer; ark_crypto = c.public_key ark_secret }

  -- The host's ack, sealed.
  abbrev pub host_ack : List ℕ
  host_ack =
      (honest.host_ack host_message host_auth keys.signer ark_secret crypto_domain_wire
        (c.new_sender (c.public_key ark_secret) crypto_domain_wire_host_to_ark host_rng).1).0

  -- What the Ark holds of the first two messages.
  abbrev pub ark_greeting : Greeting c
  ark_greeting = record {
    host_hello = record {
      host_signer = c.verifying_key keys.signer;
      host_crypto = c.public_key keys.secret;
    };
    ark_crypto_key = ark_secret;
    sender = to_host.sender;
  }
