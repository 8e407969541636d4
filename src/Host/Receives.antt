-- ===== src/Host/Receives.antt =====
-- What `next_message` of the host returns and leaves behind on each branch.
use darkbio_wire_rs.Common.{
  ℕ, ◌≤◌, ◌≡◌, refl, sym, subst, ◌⊎◌, inl, inr, Option, none, some, Option-cases, List, length,
  arith,
}
use darkbio_wire_rs.Common.Slices.{slice, slice?, slice?-in}
use darkbio_wire_rs.Error.{
  Error, packet_decoding_failed, frame_decoding_failed, empty_input, recv_failed, terminated,
  encryption_failed, Outcome, ok, err, and_then,
}
use darkbio_wire_rs.Io.{Env}
use darkbio_wire_rs.Io.Laws.{MemchrLaws, Script, CobsLaws}
use darkbio_wire_rs.Crypto.{Message, Crypto}
use darkbio_wire_rs.Session.{Session, open_packet}
use darkbio_wire_rs.Session.Open.{CanEnd, open_packet-CanEnd}
use darkbio_wire_rs.Framing.{Framing, next_packet}
use darkbio_wire_rs.Framing.Inv.{IsValid, rest}
use darkbio_wire_rs.Framing.Live.{Live, Fuelled, PacketEnds, next_packet-PacketEnds}
use darkbio_wire_rs.Host.{
  HostSide, next_message, receive, open_with, guard_session, guard_transport, no_session,
}

module _ {R W : Type 0} (env : Env R W) (c : Crypto) (script : Script env.reader)
    (cobs : CobsLaws env.cobs) (laws : MemchrLaws env.memchr) {M : Type 0} (message : Message M)
    (h : HostSide R W c) where
  -- What a call of the framer returned, and left.
  abbrev pub Read : Type 0
  Read = Outcome (Option ℕ) × Framing R W

  -- The packet that was read was opened in the active session with that result.
  pub record Opens (read : Read) (r : Outcome M) : Type 0 where
    pub session : Session c
    pub packet : List ℕ
    pub size : ℕ
    pub arrived : read.0 ≡ ok (some size)
    pub bytes : slice? read.1.decobs_buffer 0 size ≡ some packet
    pub was_active : h.session ≡ some session
    pub opened : (open_packet c message packet session).0 ≡ r

  -- And the session goes on.
  pub record GoesOn (read : Read) (r : Outcome M) (h' : HostSide R W c) : Type 0 where
    pub opens : Opens read r
    pub is_active : h'.session ≡ some (open_packet c message opens.packet opens.session).1

  -- A packet was read, and no session was active.
  abbrev pub FindsNone : Read → Error → Type 0
  FindsNone read x =
      (size : ℕ) × (read.0 ≡ ok (some size)) × (h.session ≡ none) × (x ≡ no_session env c)

  abbrev pub Receives : Read → Outcome M → HostSide R W c → Type 0
  Receives read (ok m) h' = GoesOn read (ok m) h'
  Receives read (err (packet_decoding_failed e)) h' =
      GoesOn read (err (packet_decoding_failed e)) h'
  Receives read (err (frame_decoding_failed e)) h' =
      ((read.0 ≡ ok none) × (e ≡ empty_input) × (h'.session ≡ h.session))
      ⊎ ((read.0 ≡ err (frame_decoding_failed e)) × (h'.session ≡ none))
  Receives read (err (recv_failed x)) h' = (read.0 ≡ err (recv_failed x)) × (h'.session ≡ none)
  Receives read (err terminated) h' = (read.0 ≡ err terminated) × (h'.session ≡ none)
  Receives read (err (encryption_failed x)) h' =
      (h'.session ≡ none)
      × (FindsNone read (encryption_failed x) ⊎ Opens read (err (encryption_failed x)))
  Receives read _ h' = ⊥

  guarded-Receives :
      (read : Read) (r : Outcome M) (h' : HostSide R W c)
      → CanEnd r
      → (o : Opens read r) → h'.session ≡ some (open_packet c message o.packet o.session).1
      → Receives read (guard_session env c r h').0 (guard_session env c r h').1
  unfolding guard_session
  guarded-Receives read (ok m) h' t o e = record { opens = o; is_active = e }
  guarded-Receives read (err (packet_decoding_failed x)) h' t o e = record {
    opens = o;
    is_active = e;
  }
  guarded-Receives read (err (encryption_failed x)) h' t o e = (refl, inr o)
  guarded-Receives read r h' t o e = absurd t

  -- The side with what the framer left.
  abbrev with_framing : Framing R W → HostSide R W c
  with_framing st = record h { framing = st }

  From : ℕ → Framing R W → Option (Session c) → Type 0
  From size st o =
      let q = open_with env c message size o (with_framing st) in
      Receives (ok (some size), st) q.0 q.1

  opened-Receives :
      (size : ℕ) (st : Framing R W) → size ≤ length st.decobs_buffer → From size st h.session
  unfolding From open_with
  opened-Receives size st fits = elim (Option-cases h.session) [
    | inl e ↦ subst (From size st) (sym e) (e, inl (size, refl, e, refl))
    | inr (s, e) ↦
        let packet = slice st.decobs_buffer 0 size in
        let bytes = slice?-in st.decobs_buffer 0 size (omega arith) fits in
        subst (From size st) (sym e) (
          rw (Receives, open_with, bytes)
            (guarded-Receives (ok (some size), st) (open_packet c message packet s).0
              (record h { framing = st; session = some (open_packet c message packet s).1 })
              (open_packet-CanEnd c message packet s)
              (record {
                session = s;
                packet = packet;
                size = size;
                arrived = refl;
                bytes = bytes;
                was_active = e;
                opened = refl;
              })
              refl))
  ]

  received-Receives :
      (k n : ℕ) (r : Outcome (Option ℕ)) (st : Framing R W)
      → IsValid env.frame_limit st
      → PacketEnds env script k r n
      → let q = and_then (receive env c message) (guard_transport env c r (with_framing st)) in
        Receives (r, st) q.0 q.1
  unfolding receive guard_transport From
  received-Receives k n (ok none) st v t = inl (refl, refl, refl)
  received-Receives k n (ok (some size)) st v t =
      opened-Receives size st (omega (arith, t.0, v.decobs_sized))
  received-Receives k n (err terminated) st v t = (refl, refl)
  received-Receives k n (err (recv_failed e)) st v t = (refl, refl)
  received-Receives k n (err (frame_decoding_failed e)) st v t = inr (refl, refl)
  received-Receives k n r st v t = absurd t

  -- Receiving a message, on every branch, with what the framer read. It returns a message or an
  -- undecodable one only as the packet that was read opened in the active session, which goes on
  -- from there. An empty frame is reported as one that does not decode, and keeps the session. A
  -- frame that does not decode, a failure and the end of the stream are returned as the framer
  -- returned them, and there is no session afterwards; nor after a packet that the active session
  -- failed to decrypt, or that came without a session. There is no other error, no panic, and the
  -- fuel is enough.
  pub next_message-Receives :
      (fuel k : ℕ)
      → Fuelled env script fuel k
      → Live env script k h.framing
      → Receives
          (next_packet env fuel h.framing)
          (next_message env c message fuel h).0
          (next_message env c message fuel h).1
  unfolding next_message
  next_message-Receives fuel k enough live =
      let p = next_packet env fuel h.framing in
      let (v, t) = next_packet-PacketEnds env script cobs laws fuel k h.framing enough live in
      received-Receives k (length (rest env script p.1)) p.0 p.1 v t
