-- ===== src/Ark/Tracks.antt =====
-- Any calls of the Ark keep its session in step with what the calls returned since the last one
-- that took a reset.
use darkbio_wire_rs.Common.{
  ℕ, zero, suc, ◌≡◌, refl, sym, subst, ap₂, ◌∙◌, Option, none, some, Option-cases, inl, inr, List,
  [], ◌∷◌, Bool,
}
use darkbio_wire_rs.Common.Slices.{slice?}
use darkbio_wire_rs.Error.{
  packet_decoding_failed, recv_failed, terminated, encryption_failed, Outcome, ok, err, panic,
  exhausted, Op,
}
use darkbio_wire_rs.Error.Runs.{Ends}
use darkbio_wire_rs.Io.{Env}
use darkbio_wire_rs.Crypto.{Message, Crypto}
use darkbio_wire_rs.Attestation.{Attester}
use darkbio_wire_rs.Session.{Session, open_packet}
use darkbio_wire_rs.Session.Open.{CanEnd, open_packet-CanEnd}
use darkbio_wire_rs.Session.Uses.{
  sealed_all, opened, opened-sender, opened-receiver, opened-result, opened_all, results,
}
use darkbio_wire_rs.Framing.{next_packet}
use darkbio_wire_rs.Host.History.{Log, fresh, note_got}
use darkbio_wire_rs.Ark.Resets.{later, took, since, since-fresh, resets}
use darkbio_wire_rs.Ark.{
  ArkSide, resume, on_framing, drop_session, handshake, after_handshake, after_open, serve,
  after_packet, message_turn, next_message,
}
use darkbio_wire_rs.Ark.Runs.{Signs}
use darkbio_wire_rs.Ark.Accept.{Acknowledges, handshake-Acknowledges}
use darkbio_wire_rs.Ark.Kept.{handshake-keeps_session}

module _ {R W A : Type 0} (env : Env R W) (c : Crypto) (attester : Attester A) (key : c.SigningKey)
    (limit : ℕ) {M : Type 0} (message : Message M) where
  -- A session that a handshake with the identity key made, and what the log says went through it
  -- since: all of the messages, and the results of all of the packets.
  pub record Since (log : Log M) (s : Session c) : Type 0 where
    pub start : Session c
    pub made : Acknowledges env c attester key start
    pub packets : List (List ℕ)
    pub sender_moved : s.sender ≡ (sealed_all c limit message log.sent start).sender
    pub receiver_moved : s.receiver ≡ (opened_all c message packets start).receiver
    pub same_results : results c message packets start ≡ log.got

  abbrev pub Tracks : Option (Session c) → Log M → Type 0
  Tracks none log = Unit
  Tracks (some s) log = Since log s

  -- The identity key is that key, and the session is as the log says.
  pub record Holds (a : ArkSide R W A c) (log : Log M) : Type 0 where
    pub signs : a.signer ≡ key
    pub tracks : Tracks a.session log

  -- So it is after a call, whose result is in the log, which is cleared when the call took a reset.
  abbrev pub HoldsAfter : Log M → Bool → Outcome M × ArkSide R W A c → Type 0
  HoldsAfter log taken p = Holds p.1 (note_got p.0 (since taken log))

  dropped-Holds :
      (a : ArkSide R W A c) (log : Log M) → a.signer ≡ key → a.session ≡ none → Holds a log
  dropped-Holds a log e n = record { signs = e; tracks = subst (λ o. Tracks o log) (sym n) tt }

  fresh-Since : (s : Session c) → Acknowledges env c attester key s → Since fresh s
  unfolding sealed_all opened_all results
  fresh-Since s made = record {
    start = s;
    made = made;
    packets = [];
    sender_moved = refl;
    receiver_moved = refl;
    same_results = refl;
  }

  opened-Since :
      (packet : List ℕ) (r : Outcome M) (log : Log M) (s : Session c)
      → (open_packet c message packet s).0 ≡ r
      → Since log s
      → Since (record log { got = r ∷ log.got }) (opened c message packet s)
  unfolding opened_all results
  opened-Since packet r log s e t =
      let before = opened_all c message t.packets t.start in
      record {
        start = t.start;
        made = t.made;
        packets = packet ∷ t.packets;
        sender_moved = opened-sender c message packet s ∙ t.sender_moved;
        receiver_moved = opened-receiver c message packet s before t.receiver_moved;
        same_results =
            ap₂ (λ x xs. x ∷ xs)
              (sym (opened-result c message packet s before t.receiver_moved) ∙ e) t.same_results;
      }

  module _ (next : Op (ArkSide R W A c) M) (taken : ArkSide R W A c → Bool)
      (held : (a : ArkSide R W A c) (log : Log M)
        → Holds a log
        → HoldsAfter log (taken a) (next a)) where
    held_fresh :
        (a : ArkSide R W A c) → Holds a fresh → Holds (next a).1 (note_got (next a).0 fresh)
    held_fresh a x =
        subst (λ log. Holds (next a).1 (note_got (next a).0 log)) (since-fresh (taken a))
          (held a fresh x)

    -- After a reset the log starts anew.
    after_handshake-Holds :
        (r : Outcome (Session c)) (a : ArkSide R W A c)
        → Ends (Signs env c attester key) (Acknowledges env c attester key) r a
        → a.session ≡ none
        → let p = resume next (after_handshake env c attester r a) in Holds p.1 (note_got p.0 fresh)
    unfolding after_handshake resume note_got
    after_handshake-Holds (ok s) a x n =
        held_fresh (record a { session = some s })
          (record { signs = x.1; tracks = fresh-Since s x.0 })
    after_handshake-Holds (err terminated) a x n = dropped-Holds a fresh x n
    after_handshake-Holds (err (recv_failed e)) a x n = dropped-Holds a fresh x n
    after_handshake-Holds panic a x n = dropped-Holds a fresh x n
    after_handshake-Holds exhausted a x n = dropped-Holds a fresh x n
    after_handshake-Holds (err e) a x n = held_fresh a (dropped-Holds a fresh x n)

    after_open-Holds :
        (packet : List ℕ) (s : Session c) (r : Outcome M) (a : ArkSide R W A c) (log : Log M)
        → a.signer ≡ key
        → a.session ≡ some (opened c message packet s)
        → (open_packet c message packet s).0 ≡ r
        → Since log s
        → CanEnd r
        → HoldsAfter log
            (later taken (after_open env c attester r a))
            (resume next (after_open env c attester r a))
    unfolding after_open resume later since note_got
    after_open-Holds packet s (ok m) a log e o q t u = record {
      signs = e;
      tracks =
          subst (λ x. Tracks x (record log { got = ok m ∷ log.got })) (sym o)
            (opened-Since packet (ok m) log s q t);
    }
    after_open-Holds packet s (err (packet_decoding_failed x)) a log e o q t u = record {
      signs = e;
      tracks =
          subst (λ y. Tracks y (record log { got = err (packet_decoding_failed x) ∷ log.got }))
            (sym o) (opened-Since packet (err (packet_decoding_failed x)) log s q t);
    }
    after_open-Holds packet s (err (encryption_failed x)) a log e o q t u =
        held (drop_session env c attester a) log (record { signs = e; tracks = tt })
    after_open-Holds packet s r a log e o q t u = absurd u

    serve-Holds :
        (size : ℕ) (o : Option (Session c)) (a : ArkSide R W A c) (log : Log M)
        → a.signer ≡ key
        → a.session ≡ o
        → Tracks o log
        → HoldsAfter log
            (later taken (serve env c attester message size o a))
            (resume next (serve env c attester message size o a))
    unfolding serve resume later since note_got
    serve-Holds size none a log e n t = held a log (dropped-Holds a log e n)
    serve-Holds size (some s) a log e o t =
        elim (Option-cases (slice? a.framing.decobs_buffer 0 size)) [
          | inl none_left ↦
              rw (serve, none_left)
                (record { signs = e; tracks = subst (λ x. Tracks x log) (sym o) t })
          | inr (bytes, found) ↦
              let p = open_packet c message bytes s in
              rw (serve, found)
                (after_open-Holds bytes s p.0 (record a { session = some p.1 }) log e refl refl t
                  (open_packet-CanEnd c message bytes s))
        ]

    after_packet-Holds :
        (fuel rounds : ℕ) (r : Outcome (Option ℕ)) (a : ArkSide R W A c) (log : Log M)
        → Holds a log
        → HoldsAfter log
            (took r (later taken (after_packet env c attester message fuel rounds r a)))
            (resume next (after_packet env c attester message fuel rounds r a))
    unfolding after_packet resume later took since note_got
    after_packet-Holds fuel rounds (ok none) a log x =
        let d = drop_session env c attester a in
        let p = handshake env c attester fuel rounds d in
        after_handshake-Holds p.0 p.1
          (handshake-Acknowledges env c attester key fuel rounds d x.signs)
          ((handshake-keeps_session env c attester fuel rounds).moves d)
    after_packet-Holds fuel rounds (ok (some size)) a log x =
        serve-Holds size a.session a log x.signs refl x.tracks
    after_packet-Holds fuel rounds (err terminated) a log x = x
    after_packet-Holds fuel rounds (err (recv_failed e)) a log x = x
    after_packet-Holds fuel rounds panic a log x = x
    after_packet-Holds fuel rounds exhausted a log x = x
    after_packet-Holds fuel rounds (err e) a log x =
        held (drop_session env c attester a) log (record { signs = x.signs; tracks = tt })

  -- A call of the loop.
  pub next_message-Holds :
      (fuel rounds : ℕ) (a : ArkSide R W A c) (log : Log M)
      → Holds a log
      → HoldsAfter log
          (resets env c attester message fuel rounds a)
          (next_message env c attester message fuel rounds a)
  unfolding next_message message_turn resets since note_got
  next_message-Holds fuel zero a log x = x
  next_message-Holds fuel (suc rounds) a log x =
      let p = on_framing env c attester (next_packet env fuel) a in
      after_packet-Holds (next_message env c attester message fuel rounds)
        (resets env c attester message fuel rounds) (next_message-Holds fuel rounds) fuel
        (suc rounds) p.0 p.1 log (record { signs = x.signs; tracks = x.tracks })
