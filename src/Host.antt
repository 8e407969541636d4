-- ===== src/Host.antt =====
-- src/side_host.rs: the host side of the wire.
pub mod Send
pub mod Receive
pub mod Runs
pub mod Authentic
pub mod Established
pub mod Sends
pub mod Total
pub mod Ends
pub mod Receives
pub mod Tail
pub mod Appends
pub mod Honest
pub mod Opening
pub mod Kept
pub mod History
pub mod Tracks
pub mod Alike
pub mod Calls
pub mod Portions
pub mod Writes
pub mod Stale
use Prim.Native.String.{◌++◌ as append_text}
use darkbio_wire_rs.Common.{
  ℕ, zero, suc, Option, none, some, List, length, Bool, true, false, String, ◌==◌, if◌then◌else◌,
}
use darkbio_wire_rs.Common.Slices.{slice?}
use darkbio_wire_rs.Error.{
  Error, frame_decoding_failed, empty_input, handshake_failed, encryption_failed, Result, value,
  error, Outcome, ok, err, panic, Op, pure, fail, or_fail, or_panic, ◌>>=◌, ◌>>◌,
}
use darkbio_wire_rs.Io.{Env}
use darkbio_wire_rs.Limits.{
  crypto_domain_wire, crypto_domain_wire_ark_to_host, crypto_domain_wire_host_to_ark,
}
use darkbio_wire_rs.Handshake.{ArkHello, ArkHelloAuth}
use darkbio_wire_rs.Crypto.{Message, Crypto}
use darkbio_wire_rs.Attestation
use darkbio_wire_rs.Attestation.{Attestation, Verifier}
use darkbio_wire_rs.Session.{Session, seal, open_packet}
use darkbio_wire_rs.Framing
use darkbio_wire_rs.Framing.{Framing}

-- MAX_STALE_FRAMES.
abbrev pub max_stale_frames : ℕ
max_stale_frames = 32

-- `struct HostSide`, with the state of the randomness that it draws on.
pub record HostSide (R W : Type 0) (c : Crypto) : Type 0 where
  pub framing : Framing R W
  pub session : Option (Session c)
  pub rng : c.Rng

-- `map_err(|err| Error::HandshakeFailed(format!("…: {}", err)))`.
abbrev pub handshake_error : String → String → Error
handshake_error text e = handshake_failed (append_text text e)

-- `try_into` to an array of the size of an encapsulated key.
abbrev pub sized_encap : ℕ → List ℕ → Option (List ℕ)
sized_encap size encap = if length encap == size then some encap else none

-- What the host keeps of message 2.
pub record Greeting (c : Crypto) (Info : Type 0) : Type 0 where
  pub ark_identity : c.VerifyingKey
  pub info : Info
  pub ark_hello : ArkHello c.VerifyingKey c.PublicKey

module _ {R W : Type 0} (env : Env R W) (c : Crypto) where
  -- `HostSide::new`.
  unfoldable pub new : R → W → c.Rng → HostSide R W c
  new reader writer rng = record {
    framing = Framing.new env reader writer;
    session = none;
    rng = rng;
  }

  -- An operation of the framer, on the whole side.
  abbrev pub on_framing : {A : Type 0} → Op (Framing R W) A → Op (HostSide R W c) A
  on_framing m h = let (r, f) = m h.framing in (r, record h { framing = f })

  -- A draw of randomness.
  abbrev pub draw : {A : Type 0} → (c.Rng → A × c.Rng) → Op (HostSide R W c) A
  draw f h = let (a, rng) = f h.rng in (ok a, record h { rng = rng })

  abbrev pub drop_session : HostSide R W c → HostSide R W c
  drop_session h = record h { session = none }

  abbrev pub keep_session : Session c → Op (HostSide R W c) (Unit {0})
  keep_session session h = (ok tt, record h { session = some session })

  -- `&self.framing.decobs_buffer[..size]`.
  abbrev pub packet : ℕ → Op (HostSide R W c) (List ℕ)
  packet size h = or_panic (slice? h.framing.decobs_buffer 0 size) h

  -- `recipient.is_ok_and(|fp| fp == host_xhpke_fp)`.
  abbrev pub is_for : c.Fingerprint → Result String c.Fingerprint → Bool
  is_for fp (value fp') = c.same_fingerprint fp' fp
  is_for fp (error e) = false

  -- `unwrap_or_default`.
  abbrev pub or_default : Option ℕ → ℕ
  or_default none = 0
  or_default (some size) = size

  -- The loop that skips stale frames; the number counts down how many more it may skip.
  unfoldable pub skip_stale : ℕ → c.Fingerprint → ℕ → Op (HostSide R W c) ℕ
  skip_stale fuel fp zero = do
    found ← on_framing (Framing.next_packet env fuel)
    bytes ← packet (or_default found)
    if is_for fp (c.recipient bytes)
        then pure (or_default found)
        else fail (handshake_failed "too many stale frames before ark hello")
  skip_stale fuel fp (suc more) = do
    found ← on_framing (Framing.next_packet env fuel)
    bytes ← packet (or_default found)
    elim (is_for fp (c.recipient bytes)) [
      | true ↦ pure (or_default found)
      | false ↦ skip_stale fuel fp more
    ]

  abbrev pub sized_a2h : List ℕ → Op (HostSide R W c) (List ℕ)
  sized_a2h encap h = elim (sized_encap c.encap_key_size encap) [
    | none ↦ (err (handshake_failed "invalid a2h_encap size"), h)
    | some encap' ↦ (ok encap', h)
  ]

  abbrev pub wrapped : Outcome Attestation → Op (HostSide R W c) Attestation
  wrapped r h = (r, h)

  -- Steps 2a to 2d: open and authenticate the Ark's hello.
  unfoldable pub read_ark_hello :
      {Info : Type 0}
      → Verifier c.VerifyingKey Info
      → ArkHelloAuth c.VerifyingKey c.PublicKey
      → c.SecretKey
      → ℕ
      → Op (HostSide R W c) (Greeting c Info)
  read_ark_hello verifier auth host_xhpke_sk size = do
    bytes ← packet size
    sign1 ←
        or_fail (handshake_error "failed to decrypt ark hello: ")
          (c.decrypt_ark_hello bytes auth host_xhpke_sk crypto_domain_wire)
    unverified ← or_fail (handshake_error "invalid ark hello payload: ") (c.peek_ark_hello sign1)
    attestation ← wrapped (Attestation.new c unverified.ark_attest)
    accepted ← or_fail handshake_failed (verifier.verify attestation)
    ark_hello ←
        or_fail (handshake_error "ark hello signature invalid: ")
          (c.verify_ark_hello sign1 auth accepted.0 crypto_domain_wire)
    pure (record { ark_identity = accepted.0; info = accepted.1; ark_hello = ark_hello })

  -- Message 3, and the session.
  unfoldable pub establish :
      {Info : Type 0}
      → c.SigningKey
      → c.SecretKey
      → Greeting c Info
      → Op (HostSide R W c) (Session c)
  establish host_xdsa_sk host_xhpke_sk greeting = do
    enc_a2h ← sized_a2h greeting.ark_hello.a2h_encap
    receiver ←
        or_fail (handshake_error "host receiver setup failed: ")
          (c.new_receiver host_xhpke_sk enc_a2h crypto_domain_wire_ark_to_host)
    made ← draw (c.new_sender greeting.ark_hello.ark_crypto crypto_domain_wire_host_to_ark)
    pair ← or_fail (handshake_error "host sender setup failed: ") made
    sealed ← draw (
        c.seal_host_ack (record { h2a_encap = pair.1 })
          (record {
            ark_signer = greeting.ark_identity;
            ark_crypto = greeting.ark_hello.ark_crypto;
          })
          host_xdsa_sk greeting.ark_hello.ark_crypto crypto_domain_wire)
    ack ← or_fail (handshake_error "failed to seal host ack: ") sealed
    on_framing (Framing.send_packet env ack)
    pure (record { sender = pair.0; receiver = receiver })

  -- `HostSide::handshake` behind its first line.
  unfoldable pub negotiate :
      {Info : Type 0} → ℕ → Verifier c.VerifyingKey Info → Op (HostSide R W c) Info
  negotiate fuel verifier = do
    on_framing (Framing.send_reset env)
    host_xdsa_sk ← draw c.generate_signer
    host_xhpke_sk ← draw c.generate_secret
    let host_signer = c.verifying_key host_xdsa_sk
    let host_crypto = c.public_key host_xhpke_sk
    hello ←
        or_fail (handshake_error "failed to encode host hello: ")
          (c.encode_host_hello (record { host_signer = host_signer; host_crypto = host_crypto }))
    on_framing (Framing.send_packet env hello)
    size ← skip_stale fuel (c.fingerprint host_crypto) max_stale_frames
    greeting ←
        read_ark_hello verifier (record { host_signer = host_signer; host_crypto = host_crypto })
          host_xhpke_sk size
    session ← establish host_xdsa_sk host_xhpke_sk greeting
    keep_session session
    pure greeting.info

  -- `HostSide::handshake`.
  unfoldable pub handshake :
      {Info : Type 0} → ℕ → Verifier c.VerifyingKey Info → Op (HostSide R W c) Info
  handshake fuel verifier h = negotiate fuel verifier (drop_session h)

  -- The arms of the `match` on a call of the session: a broken context drops it.
  unfoldable pub guard_session :
      {A : Type 0} → Outcome A → HostSide R W c → Outcome A × HostSide R W c
  guard_session (err (encryption_failed e)) h = (err (encryption_failed e), drop_session h)
  guard_session r h = (r, h)

  -- Any error drops the session.
  unfoldable pub guard_transport :
      {A : Type 0} → Outcome A → HostSide R W c → Outcome A × HostSide R W c
  guard_transport (err e) h = (err e, drop_session h)
  guard_transport r h = (r, h)

  abbrev pub no_session : Error
  no_session = encryption_failed "no active session"

  -- `session.open(&self.framing.decobs_buffer[..size])`, without a session an error.
  unfoldable pub open_with :
      {M : Type 0} → Message M → ℕ → Option (Session c) → Op (HostSide R W c) M
  open_with message size none h = (err no_session, h)
  open_with message size (some session) h = elim (slice? h.framing.decobs_buffer 0 size) [
    | none ↦ (panic, h)
    | some bytes ↦
        let (r, session') = open_packet c message bytes session in
        guard_session r (record h { session = some session' })
  ]

  -- The arms of the `match` on the next packet.
  unfoldable pub receive : {M : Type 0} → Message M → Option ℕ → Op (HostSide R W c) M
  receive message none h = (err (frame_decoding_failed empty_input), h)
  receive message (some size) h = open_with message size h.session h

  -- `HostSide::next_message`.
  unfoldable pub next_message : {M : Type 0} → Message M → ℕ → Op (HostSide R W c) M
  next_message message fuel h =
      let (r, h') = on_framing (Framing.next_packet env fuel) h in
      (guard_transport r >>= receive message) h'

  -- `message_limit` is MAX_MESSAGE_SIZE.
  module _ (message_limit : ℕ) where
    -- `self.framing.send_packet(&blob)`.
    unfoldable pub deliver : List ℕ → Op (HostSide R W c) (Unit {0})
    deliver blob h =
        let (r, h') = on_framing (Framing.send_packet env blob) h in guard_transport r h'

    -- `session.seal(&req, &mut self.framing.encode_buffer)`, without a session an error.
    unfoldable pub seal_with :
        {M : Type 0} → Message M → M → Option (Session c) → Op (HostSide R W c) (List ℕ)
    seal_with message msg none h = (err no_session, h)
    seal_with message msg (some session) h =
        let (r, (session', scratch)) =
          seal c message_limit message msg (session, h.framing.encode_buffer) in
        let framing : Framing R W = record (h.framing) { encode_buffer = scratch } in
        guard_session r (record h { framing = framing; session = some session' })

    -- `HostSide::send_message`.
    unfoldable pub send_message : {M : Type 0} → Message M → M → Op (HostSide R W c) (Unit {0})
    send_message message msg h = (seal_with message msg h.session >>= deliver) h

  -- The helpers for tests and benchmarks.
  pub next_packet_blob : ℕ → Op (HostSide R W c) (Option (List ℕ))
  next_packet_blob fuel = on_framing (Framing.next_packet_blob env fuel)

  pub send_packet_blob : List ℕ → Op (HostSide R W c) (Unit {0})
  send_packet_blob bytes = on_framing (Framing.send_packet env bytes)

  pub next_frame_blob : ℕ → Op (HostSide R W c) (List ℕ)
  next_frame_blob fuel = on_framing (Framing.next_frame_blob env fuel)

  pub send_frame_blob : List ℕ → Op (HostSide R W c) (Unit {0})
  send_frame_blob frame = on_framing (Framing.send_frame_blob env frame)
