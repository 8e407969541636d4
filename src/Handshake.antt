-- ===== src/Handshake.antt =====
-- src/handshake.rs: the messages of the handshake. `V` and `P` are the public keys of xDSA and
-- xHPKE. The derived CBOR codec is part of the crypto interface.
use darkbio_wire_rs.Common.{ℕ, List}

module _ (V P : Type 0) where
  pub record HostHello : Type 0 where
    pub host_signer : V
    pub host_crypto : P

  pub record ArkHello : Type 0 where
    pub ark_attest : List ℕ
    pub ark_crypto : P
    pub a2h_encap : List ℕ

  pub record ArkHelloAuth : Type 0 where
    pub host_signer : V
    pub host_crypto : P

  pub record HostAck : Type 0 where
    pub h2a_encap : List ℕ

  pub record HostAckAuth : Type 0 where
    pub ark_signer : V
    pub ark_crypto : P
