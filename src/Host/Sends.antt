-- ===== src/Host/Sends.antt =====
-- What `send_message` of the host leaves behind on each branch.
use darkbio_wire_rs.Common.{
  ℕ, ◌≤◌, ◌<◌, ◌⊎◌, ◌≡◌, refl, ap, ap₂, subst, sym, ◌∙◌, inl, inr, Option-cases, Option, none, some,
  List,
}
use darkbio_wire_rs.Error.{
  Error, packet_too_large, packet_encoding_failed, encryption_failed, Outcome, ok, err, panic,
  exhausted, and_then,
}
use darkbio_wire_rs.Io.{Env}
use darkbio_wire_rs.Io.Laws.{CobsLaws}
use darkbio_wire_rs.Framing.Inv.{IsValid}
use darkbio_wire_rs.Crypto.{Message, Crypto}
use darkbio_wire_rs.Session.{Session, seal}
use darkbio_wire_rs.Session.Seal.{SealEnds, seal-SealEnds}
use darkbio_wire_rs.Framing.{Framing, send_packet}
use darkbio_wire_rs.Framing.Transport.{IsTransport, send_packet-IsTransport}
use darkbio_wire_rs.Host.{
  HostSide, send_message, seal_with, deliver, guard_session, guard_transport, no_session,
}
use darkbio_wire_rs.Host.Send.{with_scratch, with_scratch-IsValid}

module _ {R W : Type 0} (env : Env R W) (c : Crypto) {M : Type 0} (message : Message M) (limit : ℕ)
    (msg : M) (h : HostSide R W c) where
  -- The message was sealed in the session, the packet sent, and the session goes on.
  pub record IsSent (h' : HostSide R W c) : Type 0 where
    pub session : Session c
    pub packet : List ℕ
    pub within : message.encoded_len msg ≤ limit
    pub was_active : h.session ≡ some session
    pub sealed : (seal c limit message msg (session, h.framing.encode_buffer)).0 ≡ ok packet
    pub is_active :
        h'.session ≡ some (seal c limit message msg (session, h.framing.encode_buffer)).1.0
    pub sent :
        send_packet env packet
          (with_scratch (seal c limit message msg (session, h.framing.encode_buffer)).1.1 h.framing)
        ≡ (ok tt, h'.framing)

  -- A message within the limit did not get through: the active session failed to seal it with that
  -- error, or its packet failed to be sent with it.
  pub record IsLost (x : Error) : Type 0 where
    pub session : Session c
    pub within : message.encoded_len msg ≤ limit
    pub was_active : h.session ≡ some session
    pub cause :
        ((seal c limit message msg (session, h.framing.encode_buffer)).0 ≡ err x)
        ⊎ ((packet : List ℕ) × ((seal c limit message msg (session, h.framing.encode_buffer)).0
              ≡ ok packet)
            × ((send_packet env packet (
                  with_scratch
                    (seal c limit message msg (session, h.framing.encode_buffer)).1.1
                    h.framing)).0
                ≡ err x))

  abbrev pub Leaves : Outcome (Unit {0}) → HostSide R W c → Type 0
  Leaves (ok _) h' = IsSent h'
  Leaves (err (packet_too_large n)) h' = (n ≡ message.encoded_len msg) × (limit < n) × (h' ≡ h)
  Leaves (err (packet_encoding_failed x)) h' =
      (h'.session ≡ h.session) × IsLost (packet_encoding_failed x)
  Leaves (err x) h' =
      (h'.session ≡ none) × (((h.session ≡ none) × (x ≡ no_session env c)) ⊎ IsLost x)
  Leaves panic h' = ⊥
  Leaves exhausted h' = ⊥

  module _ (s : Session c) (active : h.session ≡ some s) where
    -- The side with a session and a scratch buffer.
    abbrev with_session : Session c → List ℕ → HostSide R W c
    with_session s' scratch =
        let framing : Framing R W = with_scratch scratch h.framing in
        record h { framing = framing; session = some s' }

    -- The side after sealing.
    abbrev after_seal : HostSide R W c
    after_seal =
        let p = seal c limit message msg (s, h.framing.encode_buffer) in with_session p.1.0 p.1.1

    delivered-Leaves :
        (packet : List ℕ) (p : Outcome (Unit {0}) × Framing R W)
        → message.encoded_len msg ≤ limit
        → (seal c limit message msg (s, h.framing.encode_buffer)).0 ≡ ok packet
        → send_packet env packet
            (with_scratch (seal c limit message msg (s, h.framing.encode_buffer)).1.1 h.framing)
          ≡ p
        → IsTransport p.0
        → let q = guard_transport env c p.0 (record after_seal { framing = p.1 }) in Leaves q.0 q.1
    unfolding guard_transport
    delivered-Leaves packet (ok u, f) within sealed sent t = record {
      session = s;
      packet = packet;
      within = within;
      was_active = active;
      sealed = sealed;
      is_active = refl;
      sent = sent;
    }
    delivered-Leaves packet (err (packet_too_large _), f) within sealed sent t = absurd t
    delivered-Leaves packet (err (packet_encoding_failed _), f) within sealed sent t = absurd t
    delivered-Leaves packet (panic, f) within sealed sent t = absurd t
    delivered-Leaves packet (exhausted, f) within sealed sent t = absurd t
    delivered-Leaves packet (err x, f) within sealed sent t = (
      refl,
      inr (record {
        session = s;
        within = within;
        was_active = active;
        cause = inr (packet, sealed, ap (λ q. q.0) sent);
      }),
    )

    unchanged :
        (s' : Session c) (scratch : List ℕ)
        → s' ≡ s
        → scratch ≡ h.framing.encode_buffer
        → with_session s' scratch ≡ h
    unchanged s' scratch e e' =
        ap₂ with_session e e' ∙ ap (λ o. record h { session = o }) (sym active)

    sealed-Leaves :
        (cobs : CobsLaws env.cobs) (v : IsValid env.frame_limit h.framing) (r : Outcome (List ℕ))
        → (seal c limit message msg (s, h.framing.encode_buffer)).0 ≡ r
        → SealEnds c limit message msg s h.framing.encode_buffer r
            (seal c limit message msg (s, h.framing.encode_buffer)).1.0
            (seal c limit message msg (s, h.framing.encode_buffer)).1.1
        → let q = and_then (deliver env c limit) (guard_session env c r after_seal) in
          Leaves q.0 q.1
    unfolding guard_session deliver
    sealed-Leaves cobs v (ok packet) e t =
        let st =
          with_scratch (seal c limit message msg (s, h.framing.encode_buffer)).1.1 h.framing in
        delivered-Leaves packet (send_packet env packet st) t e refl (
          send_packet-IsTransport env cobs packet st (
            with_scratch-IsValid env.frame_limit
              (seal c limit message msg (s, h.framing.encode_buffer)).1.1 h.framing v))
    sealed-Leaves cobs v (err (packet_too_large n)) e (size, big, same, scratch) =
        (size, big, unchanged _ _ same scratch)
    sealed-Leaves cobs v (err (packet_encoding_failed x)) e t = (
      ap some t.1 ∙ sym active,
      record { session = s; within = t.0; was_active = active; cause = inl e },
    )
    sealed-Leaves cobs v (err (encryption_failed x)) e t =
        (refl, inr (record { session = s; within = t; was_active = active; cause = inl e }))
    sealed-Leaves cobs v r e t = absurd t

  -- What is left if the session is that one.
  From : Option (Session c) → Type 0
  From o =
      let q = and_then (deliver env c limit) (seal_with env c limit message msg o h) in
      Leaves q.0 q.1

  -- Sending a message with a valid framer, on every branch. After success the message is within the
  -- limit, it was sealed in the active session, the packet was sent, and the session goes on from
  -- there. A refusal for the size states the size, which is above the limit, and changes nothing at
  -- all. In an active session nothing else refuses a message above the limit and nothing lets it
  -- through: every other error, and success, is of a message within it. One that does not encode
  -- leaves the session. Any other error is that no session was active, or that of sealing or of
  -- sending the packet, and there is no session afterwards. Nothing panics.
  pub send_message-Leaves :
      (cobs : CobsLaws env.cobs)
      → IsValid env.frame_limit h.framing
      → Leaves (send_message env c limit message msg h).0 (send_message env c limit message msg h).1
  unfolding send_message seal_with From
  send_message-Leaves cobs v = elim (Option-cases h.session) [
    | inl e ↦ subst From (sym e) (e, inl (e, refl))
    | inr (s, e) ↦ subst From (sym e) (
        sealed-Leaves s e cobs v (seal c limit message msg (s, h.framing.encode_buffer)).0 refl
          (seal-SealEnds c limit message msg s h.framing.encode_buffer))
  ]
