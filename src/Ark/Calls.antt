-- ===== src/Ark/Calls.antt =====
-- Two Arks whose readers have the same stream to come give the same answers to the same calls.
use darkbio_wire_rs.Common.{
  ℕ, zero, suc, ◌≡◌, refl, ap, sym, subst, ◌∙◌, Option, none, some, Option-cases, inl, inr,
}
use darkbio_wire_rs.Common.Slices.{slice?}
use darkbio_wire_rs.Error.{
  Outcome, ok, err, panic, exhausted, encryption_failed, terminated, recv_failed, Op,
}
use darkbio_wire_rs.Error.Agrees.{Same}
use darkbio_wire_rs.Io.{Env}
use darkbio_wire_rs.Io.Laws.{MemchrLaws, Script, CobsLaws}
use darkbio_wire_rs.Crypto.{Message, Crypto}
use darkbio_wire_rs.Attestation.{Attester}
use darkbio_wire_rs.Session.{Session, open_packet}
use darkbio_wire_rs.Framing
use darkbio_wire_rs.Framing.{Framing}
use darkbio_wire_rs.Framing.Live.{Fuelled}
use darkbio_wire_rs.Framing.Alike.{next_packet-Agrees}
use darkbio_wire_rs.Ark.{
  ArkSide, resume, on_framing, drop_session, handshake, after_handshake, after_open, serve,
  after_packet, message_turn, next_message,
}
use darkbio_wire_rs.Ark.Alike.{ArkAlike, AgreesAll, on_framing-Agrees, handshake-Agrees}

module _ {R W A : Type 0} (env : Env R W) (c : Crypto) (attester : Attester A)
    (script : Script env.reader) (k : ℕ) where
  abbrev Pair : ArkSide R W A c → ArkSide R W A c → Type 0
  Pair = ArkAlike env c attester script k

  abbrev pub Both :
      {T : Type 0} → Outcome T × ArkSide R W A c → Outcome T × ArkSide R W A c → Type 0
  Both p q = Same Pair p q

  pub with_session-Alike :
      (o : Option (Session c)) (a a' : ArkSide R W A c)
      → Pair a a'
      → Pair (record a { session = o }) (record a' { session = o })
  with_session-Alike o a a' x = record {
    framing = x.framing;
    same_signer = x.same_signer;
    same_attester = x.same_attester;
    same_session = refl;
    same_rng = x.same_rng;
  }

  pub returned-Both :
      {T : Type 0} (r : Outcome T) (a a' : ArkSide R W A c) → Pair a a' → Both (r, a) (r, a')
  returned-Both r a a' x = record { same_result = refl; alike = x }

  -- What follows a round: the next one, or a result.
  module _ {M : Type 0} (next : Op (ArkSide R W A c) M)
      (agreed : AgreesAll env c attester script k next) where
    after_handshake-Both :
        (r : Outcome (Session c)) (a a' : ArkSide R W A c)
        → Pair a a'
        → Both
            (resume next (after_handshake env c attester r a))
            (resume next (after_handshake env c attester r a'))
    unfolding after_handshake resume
    after_handshake-Both (ok s) a a' x =
        agreed.agrees (record a { session = some s }) (record a' { session = some s })
          (with_session-Alike (some s) a a' x)
    after_handshake-Both (err terminated) a a' x = returned-Both (err terminated) a a' x
    after_handshake-Both (err (recv_failed e)) a a' x = returned-Both (err (recv_failed e)) a a' x
    after_handshake-Both panic a a' x = returned-Both panic a a' x
    after_handshake-Both exhausted a a' x = returned-Both exhausted a a' x
    after_handshake-Both (err e) a a' x = agreed.agrees a a' x

    after_open-Both :
        (r : Outcome M) (a a' : ArkSide R W A c)
        → Pair a a'
        → Both
            (resume next (after_open env c attester r a))
            (resume next (after_open env c attester r a'))
    unfolding after_open resume
    after_open-Both (err (encryption_failed e)) a a' x =
        agreed.agrees (drop_session env c attester a) (drop_session env c attester a')
          (with_session-Alike none a a' x)
    after_open-Both r a a' x = returned-Both r a a' x

    module _ (message : Message M) where
      serve-Both :
          (size : ℕ) (o : Option (Session c)) (a a' : ArkSide R W A c)
          → Pair a a'
          → Both
              (resume next (serve env c attester message size o a))
              (resume next (serve env c attester message size o a'))
      unfolding serve resume
      serve-Both size none a a' x = agreed.agrees a a' x
      serve-Both size (some s) a a' x =
          let same : slice? a.framing.decobs_buffer 0 size
              ≡ slice? a'.framing.decobs_buffer 0 size =
            ap (λ o. slice? o.1 0 size) x.framing.same_outside in
          elim (Option-cases (slice? a.framing.decobs_buffer 0 size)) [
            | inl e ↦ rw (serve, e, sym same ∙ e) (returned-Both panic a a' x)
            | inr (bytes, e) ↦
                let p = open_packet c message bytes s in
                rw (serve, e, sym same ∙ e)
                  (after_open-Both p.0 (record a { session = some p.1 })
                    (record a' { session = some p.1 }) (with_session-Alike (some p.1) a a' x))
          ]

      module _ (cobs : CobsLaws env.cobs) (laws : MemchrLaws env.memchr) (fuel : ℕ)
          (enough : Fuelled env script fuel k) (rounds : ℕ) where
        after_packet-Both :
            (r : Outcome (Option ℕ)) (a a' : ArkSide R W A c)
            → Pair a a'
            → Both
                (resume next (after_packet env c attester message fuel rounds r a))
                (resume next (after_packet env c attester message fuel rounds r a'))
        unfolding after_packet resume
        after_packet-Both (ok none) a a' x =
            let d = drop_session env c attester a in
            let d' = drop_session env c attester a' in
            let y =
              (handshake-Agrees env c attester script k cobs laws fuel enough rounds).agrees d d'
                (with_session-Alike none a a' x) in
            let p = handshake env c attester fuel rounds d in
            let q = handshake env c attester fuel rounds d' in
            subst
              (λ r.
                Both (resume next (after_handshake env c attester p.0 p.1))
                  (resume next (after_handshake env c attester r q.1)))
              y.same_result (after_handshake-Both p.0 p.1 q.1 y.alike)
        after_packet-Both (ok (some size)) a a' x =
            subst
              (λ o.
                Both (resume next (serve env c attester message size a.session a))
                  (resume next (serve env c attester message size o a')))
              x.same_session (serve-Both size a.session a a' x)
        after_packet-Both (err terminated) a a' x = returned-Both (err terminated) a a' x
        after_packet-Both (err (recv_failed e)) a a' x = returned-Both (err (recv_failed e)) a a' x
        after_packet-Both panic a a' x = returned-Both panic a a' x
        after_packet-Both exhausted a a' x = returned-Both exhausted a a' x
        after_packet-Both (err e) a a' x =
            agreed.agrees (drop_session env c attester a) (drop_session env c attester a')
              (with_session-Alike none a a' x)

        turn-Both :
            (a a' : ArkSide R W A c)
            → Pair a a'
            → Both
                (resume next (message_turn env c attester message fuel rounds a))
                (resume next (message_turn env c attester message fuel rounds a'))
        unfolding message_turn
        turn-Both a a' x =
            let read =
              on_framing-Agrees env c attester script k
                (next_packet-Agrees env script k cobs laws fuel enough) in
            let y = read.agrees a a' x in
            let p = on_framing env c attester (Framing.next_packet env fuel) a in
            let q = on_framing env c attester (Framing.next_packet env fuel) a' in
            subst
              (λ r.
                Both (resume next (after_packet env c attester message fuel rounds p.0 p.1))
                  (resume next (after_packet env c attester message fuel rounds r q.1)))
              y.same_result (after_packet-Both p.0 p.1 q.1 y.alike)

  pub next_message-Agrees :
      {M : Type 0} (message : Message M) (cobs : CobsLaws env.cobs) (laws : MemchrLaws env.memchr)
      (fuel : ℕ) (enough : Fuelled env script fuel k) (rounds : ℕ)
      → AgreesAll env c attester script k (next_message env c attester message fuel rounds)
  unfolding next_message
  next_message-Agrees message cobs laws fuel enough zero = record {
    agrees = returned-Both exhausted;
  }
  next_message-Agrees message cobs laws fuel enough (suc rounds) = record {
    agrees =
        turn-Both (next_message env c attester message fuel rounds)
          (next_message-Agrees message cobs laws fuel enough rounds) message cobs laws fuel enough
          (suc rounds);
  }
