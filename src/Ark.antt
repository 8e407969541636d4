-- ===== src/Ark.antt =====
-- src/side_ark.rs: the Ark side of the wire.
pub mod Serve
pub mod Surface
pub mod Runs
pub mod Accept
pub mod Total
pub mod Ends
pub mod Loop
pub mod Sends
pub mod Send
pub mod Moves
pub mod Appends
pub mod Honest
pub mod Tail
pub mod Alike
pub mod Calls
pub mod Portions
pub mod Writes
pub mod Kept
pub mod Resets
pub mod Tracks
pub mod History
use darkbio_wire_rs.Common.{ℕ, zero, suc, Option, none, some, List}
use darkbio_wire_rs.Common.Slices.{slice?}
use darkbio_wire_rs.Error.{
  recv_failed, terminated, handshake_failed, encryption_failed, Outcome, ok, err, panic, exhausted,
  Op, pure, or_fail, or_panic, ◌>>=◌, ◌>>◌,
}
use darkbio_wire_rs.Io.{Env}
use darkbio_wire_rs.Limits.{
  crypto_domain_wire, crypto_domain_wire_ark_to_host, crypto_domain_wire_host_to_ark,
}
use darkbio_wire_rs.Handshake.{HostHello}
use darkbio_wire_rs.Crypto.{Message, Crypto}
use darkbio_wire_rs.Attestation.{Attestation, into_bytes, Attester}
use darkbio_wire_rs.Session.{Session, seal, open_packet}
use darkbio_wire_rs.Framing
use darkbio_wire_rs.Framing.{Framing}
use darkbio_wire_rs.Host.{handshake_error, sized_encap}

-- `struct ArkSide`, with the state of the randomness that it draws on.
pub record ArkSide (R W A : Type 0) (c : Crypto) : Type 0 where
  pub framing : Framing R W
  pub signer : c.SigningKey
  pub attester : A
  pub session : Option (Session c)
  pub rng : c.Rng

-- How a round of a loop of the Ark ends.
pub data Turn (T S : Type 0) : Type 0 where
  returned : Outcome T → S → Turn T S
  again : S → Turn T S

-- Returns, or makes the next round.
unfoldable pub resume : {T S : Type 0} → Op S T → Turn T S → Outcome T × S
resume next (returned r s) = (r, s)
resume next (again s) = next s

-- What the Ark holds of the first two messages.
pub record Greeting (c : Crypto) : Type 0 where
  pub host_hello : HostHello c.VerifyingKey c.PublicKey
  pub ark_crypto_key : c.SecretKey
  pub sender : c.Sender

module _ {R W A : Type 0} (env : Env R W) (c : Crypto) (attester : Attester A) where
  -- `ArkSide::new`.
  unfoldable pub new : R → W → c.SigningKey → A → c.Rng → ArkSide R W A c
  new reader writer signer source rng = record {
    framing = Framing.new env reader writer;
    signer = signer;
    attester = source;
    session = none;
    rng = rng;
  }

  -- An operation of the framer, on the whole side.
  abbrev pub on_framing : {T : Type 0} → Op (Framing R W) T → Op (ArkSide R W A c) T
  on_framing m a = let (r, f) = m a.framing in (r, record a { framing = f })

  -- A draw of randomness.
  abbrev pub draw : {T : Type 0} → (c.Rng → T × c.Rng) → Op (ArkSide R W A c) T
  draw f a = let (t, rng) = f a.rng in (ok t, record a { rng = rng })

  -- `self.attester.attest()`.
  abbrev pub attest : Op (ArkSide R W A c) Attestation
  attest a =
      let (attestation, source) = attester.attest a.attester in
      (ok attestation, record a { attester = source })

  abbrev pub drop_session : ArkSide R W A c → ArkSide R W A c
  drop_session a = record a { session = none }

  -- `&self.framing.decobs_buffer[..size]`.
  abbrev pub packet : ℕ → Op (ArkSide R W A c) (List ℕ)
  packet size a = or_panic (slice? a.framing.decobs_buffer 0 size) a

  abbrev pub sized_h2a : List ℕ → Op (ArkSide R W A c) (List ℕ)
  sized_h2a encap a = elim (sized_encap c.encap_key_size encap) [
    | none ↦ (err (handshake_failed "invalid h2a_encap size"), a)
    | some encap' ↦ (ok encap', a)
  ]

  -- Message 1, behind any trailing empty frames.
  unfoldable pub read_hello : ℕ → ℕ → Op (ArkSide R W A c) ℕ
  read_hello fuel zero a = (exhausted, a)
  read_hello fuel (suc more) a =
      (on_framing (Framing.next_packet env fuel) >>= λ found. elim found [
        | none ↦ read_hello fuel more
        | some size ↦ pure size
      ])
        a

  -- Messages 1 and 2.
  unfoldable pub greet : ℕ → ℕ → Op (ArkSide R W A c) (Greeting c)
  greet fuel more = do
    size ← read_hello fuel more
    bytes ← packet size
    host_hello ← or_fail (handshake_error "invalid host hello: ") (c.decode_host_hello bytes)
    ark_crypto_key ← draw c.generate_secret
    made ← draw (c.new_sender host_hello.host_crypto crypto_domain_wire_ark_to_host)
    pair ← or_fail (handshake_error "ark sender setup failed: ") made
    attestation ← attest
    signer ← (λ a. (ok a.signer, a))
    sealed ← draw (
        c.seal_ark_hello
          (record {
            ark_attest = into_bytes attestation;
            ark_crypto = c.public_key ark_crypto_key;
            a2h_encap = pair.1;
          })
          (record { host_signer = host_hello.host_signer; host_crypto = host_hello.host_crypto })
          signer host_hello.host_crypto crypto_domain_wire)
    ark_hello ← or_fail (handshake_error "failed to seal ark hello: ") sealed
    on_framing (Framing.send_packet env ark_hello)
    pure (record { host_hello = host_hello; ark_crypto_key = ark_crypto_key; sender = pair.0 })

  -- Message 3, in a packet of that size.
  unfoldable pub accept : Greeting c → ℕ → Op (ArkSide R W A c) (Session c)
  accept greeting size = do
    bytes ← packet size
    signer ← (λ a. (ok a.signer, a))
    host_ack ← or_fail (handshake_error "invalid host ack: ") (
        c.open_host_ack bytes
          (record {
            ark_signer = c.verifying_key signer;
            ark_crypto = c.public_key greeting.ark_crypto_key;
          })
          greeting.ark_crypto_key greeting.host_hello.host_signer crypto_domain_wire)
    enc_h2a ← sized_h2a host_ack.h2a_encap
    receiver ←
        or_fail (handshake_error "ark receiver setup failed: ")
          (c.new_receiver greeting.ark_crypto_key enc_h2a crypto_domain_wire_host_to_ark)
    pure (record { sender = greeting.sender; receiver = receiver })

  -- `ArkSide::handshake`. A round more for each reset in place of the host's ack.
  unfoldable pub handshake : ℕ → ℕ → Op (ArkSide R W A c) (Session c)
  handshake fuel zero a = (exhausted, a)
  handshake fuel (suc rounds) a =
      (greet fuel (suc rounds) >>= λ greeting.
      on_framing (Framing.next_packet env fuel) >>= λ found. elim found [
        | none ↦ handshake fuel rounds
        | some size ↦ accept greeting size
      ])
        a

  -- The arms of the `match` on a handshake.
  unfoldable pub after_handshake :
      {M : Type 0} → Outcome (Session c) → ArkSide R W A c → Turn M (ArkSide R W A c)
  after_handshake (ok session) a = again (record a { session = some session })
  after_handshake (err terminated) a = returned (err terminated) a
  after_handshake (err (recv_failed e)) a = returned (err (recv_failed e)) a
  after_handshake (err e) a = again a
  after_handshake panic a = returned panic a
  after_handshake exhausted a = returned exhausted a

  -- The arms of the `match` on an opened message.
  unfoldable pub after_open : {M : Type 0} → Outcome M → ArkSide R W A c → Turn M (ArkSide R W A c)
  after_open (err (encryption_failed e)) a = again (drop_session a)
  after_open r a = returned r a

  -- A packet of that size, in the session if there is one.
  unfoldable pub serve :
      {M : Type 0} → Message M → ℕ → Option (Session c) → ArkSide R W A c → Turn M (ArkSide R W A c)
  serve message size none a = again a
  serve message size (some session) a = elim (slice? a.framing.decobs_buffer 0 size) [
    | none ↦ returned panic a
    | some bytes ↦
        let (r, session') = open_packet c message bytes session in
        after_open r (record a { session = some session' })
  ]

  -- The arms of the `match` on the next packet.
  unfoldable pub after_packet :
      {M : Type 0}
      → Message M
      → ℕ
      → ℕ
      → Outcome (Option ℕ)
      → ArkSide R W A c
      → Turn M (ArkSide R W A c)
  after_packet message fuel rounds (ok none) a =
      let (r, a') = handshake fuel rounds (drop_session a) in after_handshake r a'
  after_packet message fuel rounds (ok (some size)) a = serve message size a.session a
  after_packet message fuel rounds (err terminated) a = returned (err terminated) a
  after_packet message fuel rounds (err (recv_failed e)) a = returned (err (recv_failed e)) a
  after_packet message fuel rounds (err e) a = again (drop_session a)
  after_packet message fuel rounds panic a = returned panic a
  after_packet message fuel rounds exhausted a = returned exhausted a

  -- One round of the loop of `next_message`.
  unfoldable pub message_turn :
      {M : Type 0} → Message M → ℕ → ℕ → ArkSide R W A c → Turn M (ArkSide R W A c)
  message_turn message fuel rounds a =
      let (r, a') = on_framing (Framing.next_packet env fuel) a in
      after_packet message fuel rounds r a'

  -- `ArkSide::next_message`. `fuel` is for each call of the framer, and `rounds` bounds the rounds
  -- of this loop and of those of the handshake.
  unfoldable pub next_message : {M : Type 0} → Message M → ℕ → ℕ → Op (ArkSide R W A c) M
  next_message message fuel zero a = (exhausted, a)
  next_message message fuel (suc rounds) a =
      resume (next_message message fuel rounds) (message_turn message fuel (suc rounds) a)

  -- The arms of the `match` on a sealed message: a broken context drops the session.
  unfoldable pub guard_session :
      {T : Type 0} → Outcome T → ArkSide R W A c → Outcome T × ArkSide R W A c
  guard_session (err (encryption_failed e)) a = (err (encryption_failed e), drop_session a)
  guard_session r a = (r, a)

  -- Any error drops the session.
  unfoldable pub guard_transport :
      {T : Type 0} → Outcome T → ArkSide R W A c → Outcome T × ArkSide R W A c
  guard_transport (err e) a = (err e, drop_session a)
  guard_transport r a = (r, a)

  -- `self.framing.send_packet(&blob)`.
  unfoldable pub deliver : List ℕ → Op (ArkSide R W A c) (Unit {0})
  deliver blob a = let (r, a') = on_framing (Framing.send_packet env blob) a in guard_transport r a'

  -- `message_limit` is MAX_MESSAGE_SIZE.
  module _ (message_limit : ℕ) {M : Type 0} (message : Message M) where
    -- `session.seal(&res, &mut self.framing.encode_buffer)`, without a session an error.
    unfoldable pub seal_with : M → Option (Session c) → Op (ArkSide R W A c) (List ℕ)
    seal_with msg none a = (err (encryption_failed "no active session"), a)
    seal_with msg (some session) a =
        let (r, (session', scratch)) =
          seal c message_limit message msg (session, a.framing.encode_buffer) in
        let framing : Framing R W = record (a.framing) { encode_buffer = scratch } in
        guard_session r (record a { framing = framing; session = some session' })

    -- `ArkSide::send_message`.
    unfoldable pub send_message : M → Op (ArkSide R W A c) (Unit {0})
    send_message msg a = (seal_with msg a.session >>= deliver) a
