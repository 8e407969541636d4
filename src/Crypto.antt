-- ===== src/Crypto.antt =====
-- What the wire takes from the crates darkbio_crypto (xDSA, xHPKE, COSE, CBOR, CWT), darkbio_trust
-- and prost. None of it is under the repository: it is an argument of the model.
-- Errors are the texts that the wire shows. What draws on randomness takes and returns the
-- generator's state.
pub mod Honest
use darkbio_wire_rs.Common.{ℕ, List, Option, Bool, String}
use darkbio_wire_rs.Error.{Result}
use darkbio_wire_rs.Handshake.{HostHello, ArkHello, ArkHelloAuth, HostAck, HostAckAuth}

-- A protobuf message type: `prost::Message`.
pub record Message (M : Type 0) : Type 0 where
  pub encoded_len : M → ℕ
  -- appends to the buffer
  pub encode : M → List ℕ → Result String (Unit {0}) × List ℕ
  pub decode : List ℕ → Result String M

pub record Crypto : Type 1 where
  pub Rng : Type 0
  -- `xdsa::SecretKey`, `xdsa::PublicKey`
  pub SigningKey : Type 0
  pub VerifyingKey : Type 0
  pub generate_signer : Rng → SigningKey × Rng
  pub verifying_key : SigningKey → VerifyingKey
  -- `xhpke::SecretKey`, `xhpke::PublicKey`
  pub SecretKey : Type 0
  pub PublicKey : Type 0
  pub generate_secret : Rng → SecretKey × Rng
  pub public_key : SecretKey → PublicKey
  pub Fingerprint : Type 0
  pub fingerprint : PublicKey → Fingerprint
  pub same_fingerprint : Fingerprint → Fingerprint → Bool
  -- `xhpke::Sender`, `xhpke::Receiver`: the contexts of one direction
  pub Sender : Type 0
  pub Receiver : Type 0
  pub encap_key_size : ℕ
  pub new_sender : PublicKey → String → Rng → Result String (Sender × List ℕ) × Rng
  pub new_receiver : SecretKey → List ℕ → String → Result String Receiver
  pub seal : Sender → List ℕ → List ℕ → Result String (List ℕ) × Sender
  pub open_sealed : Receiver → List ℕ → List ℕ → Result String (List ℕ) × Receiver
  -- `cbor::encode` and `cbor::decode` of the host's hello
  pub encode_host_hello : HostHello VerifyingKey PublicKey → Result String (List ℕ)
  pub decode_host_hello : List ℕ → Result String (HostHello VerifyingKey PublicKey)
  -- `cose::seal`, and `cose::recipient`, `decrypt`, `peek`, `verify`, of the Ark's hello
  pub seal_ark_hello :
      ArkHello VerifyingKey PublicKey
      → ArkHelloAuth VerifyingKey PublicKey
      → SigningKey
      → PublicKey
      → String
      → Rng
      → Result String (List ℕ) × Rng
  pub recipient : List ℕ → Result String Fingerprint
  pub decrypt_ark_hello :
      List ℕ → ArkHelloAuth VerifyingKey PublicKey → SecretKey → String → Result String (List ℕ)
  pub peek_ark_hello : List ℕ → Result String (ArkHello VerifyingKey PublicKey)
  pub verify_ark_hello :
      List ℕ
      → ArkHelloAuth VerifyingKey PublicKey
      → VerifyingKey
      → String
      → Result String (ArkHello VerifyingKey PublicKey)
  -- `cose::seal` and `cose::open` of the host's ack
  pub seal_host_ack :
      HostAck VerifyingKey PublicKey
      → HostAckAuth VerifyingKey PublicKey
      → SigningKey
      → PublicKey
      → String
      → Rng
      → Result String (List ℕ) × Rng
  pub open_host_ack :
      List ℕ
      → HostAckAuth VerifyingKey PublicKey
      → SecretKey
      → VerifyingKey
      → String
      → Result String (HostAck VerifyingKey PublicKey)
  -- `cwt::peek` at the two shapes of a device attestation, and `trust::device::verify`
  pub HardwareClaims : Type 0
  pub EmulatorClaims : Type 0
  pub peek_hardware : List ℕ → Result String HardwareClaims
  pub peek_emulator : List ℕ → Result String EmulatorClaims
  pub Device : Type 0
  pub device_signer : Device → VerifyingKey
  pub verify_device :
      List ℕ → List VerifyingKey → List VerifyingKey → Option ℕ → Result String Device
