-- ===== src/Host/Calls.antt =====
-- Two hosts whose readers have the same stream to come give the same answers to the same calls.
use darkbio_wire_rs.Common.{
  ℕ, ◌≡◌, refl, ap, sym, subst, ◌∙◌, Option, none, some, Option-cases, inl, inr, List,
}
use darkbio_wire_rs.Common.Slices.{slice?}
use darkbio_wire_rs.Error.{Outcome, ok, err, panic, exhausted, encryption_failed, Op}
use darkbio_wire_rs.Error.Agrees.{Same, Agrees, and_then-Same, then-Agrees}
use darkbio_wire_rs.Io.{Env}
use darkbio_wire_rs.Io.Laws.{MemchrLaws, Script, CobsLaws}
use darkbio_wire_rs.Crypto.{Message, Crypto}
use darkbio_wire_rs.Session.{Session, seal, open_packet}
use darkbio_wire_rs.Framing
use darkbio_wire_rs.Framing.{Framing}
use darkbio_wire_rs.Framing.Live.{Fuelled}
use darkbio_wire_rs.Framing.Alike.{Alike, next_packet-Agrees, send_packet-Agrees}
use darkbio_wire_rs.Host.{
  HostSide, on_framing, send_message, seal_with, deliver, guard_session, guard_transport,
  next_message, receive, open_with,
}
use darkbio_wire_rs.Host.Send.{with_scratch, with_scratch-Alike}
use darkbio_wire_rs.Host.Alike.{HostAlike, AgreesAll, on_framing-Agrees}

module _ {R W : Type 0} (env : Env R W) (c : Crypto) (script : Script env.reader) (k : ℕ) where
  abbrev Both : {T : Type 0} → Outcome T × HostSide R W c → Outcome T × HostSide R W c → Type 0
  Both p q = Same (HostAlike env c script k) p q

  dropped :
      (h h' : HostSide R W c)
      → HostAlike env c script k h h'
      → HostAlike env c script k (record h { session = none }) (record h' { session = none })
  dropped h h' x = record { framing = x.framing; same_session = refl; same_rng = x.same_rng }

  guard_session-Both :
      {T : Type 0} (r : Outcome T) (h h' : HostSide R W c)
      → HostAlike env c script k h h'
      → Both (guard_session env c r h) (guard_session env c r h')
  unfolding guard_session
  guard_session-Both (err (encryption_failed e)) h h' x = record {
    same_result = refl;
    alike = dropped h h' x;
  }
  guard_session-Both r h h' x = record { same_result = refl; alike = x }

  guard_transport-Both :
      {T : Type 0} (r : Outcome T) (h h' : HostSide R W c)
      → HostAlike env c script k h h'
      → Both (guard_transport env c r h) (guard_transport env c r h')
  unfolding guard_transport
  guard_transport-Both (err e) h h' x = record { same_result = refl; alike = dropped h h' x }
  guard_transport-Both (ok a) h h' x = record { same_result = refl; alike = x }
  guard_transport-Both panic h h' x = record { same_result = refl; alike = x }
  guard_transport-Both exhausted h h' x = record { same_result = refl; alike = x }

  -- A call of the framer, with its guard.
  guarded-Agrees :
      {T : Type 0} (m : Op (Framing R W) T)
      → Agrees (Alike env script k) m
      → AgreesAll env c script k
          (λ h. guard_transport env c (on_framing env c m h).0 (on_framing env c m h).1)
  guarded-Agrees m p = record {
    agrees = λ h h' x.
        let a = on_framing env c m h in
        let b = on_framing env c m h' in
        let y = (on_framing-Agrees env c script k p).agrees h h' x in
        subst (λ r. Both (guard_transport env c a.0 a.1) (guard_transport env c r b.1))
          y.same_result (guard_transport-Both a.0 a.1 b.1 y.alike);
  }

  module _ {M : Type 0} (message : Message M) where
    open_with-Both :
        (size : ℕ) (o : Option (Session c))
        → AgreesAll env c script k (open_with env c message size o)
    unfolding open_with
    open_with-Both size none = record {
      agrees = λ h h' x. record { same_result = refl; alike = x };
    }
    open_with-Both size (some s) = record {
      agrees = λ h h' x.
          let same : slice? h.framing.decobs_buffer 0 size
              ≡ slice? h'.framing.decobs_buffer 0 size =
            ap (λ o. slice? o.1 0 size) x.framing.same_outside in
          elim (Option-cases (slice? h.framing.decobs_buffer 0 size)) [
            | inl e ↦ rw (open_with, e, sym same ∙ e) (record { same_result = refl; alike = x })
            | inr (bytes, e) ↦
                let p = open_packet c message bytes s in
                rw (open_with, e, sym same ∙ e)
                  (guard_session-Both p.0 (record h { session = some p.1 })
                    (record h' { session = some p.1 })
                    (record { framing = x.framing; same_session = refl; same_rng = x.same_rng }))
          ];
    }

    receive-Agrees : (o : Option ℕ) → AgreesAll env c script k (receive env c message o)
    unfolding receive
    receive-Agrees none = record { agrees = λ h h' x. record { same_result = refl; alike = x } }
    receive-Agrees (some size) = record {
      agrees = λ h h' x.
          subst
            (λ o.
              Both (open_with env c message size h.session h) (open_with env c message size o h'))
            x.same_session ((open_with-Both size h.session).agrees h h' x);
    }

    pub next_message-Agrees :
        (cobs : CobsLaws env.cobs) (laws : MemchrLaws env.memchr) (fuel : ℕ)
        → Fuelled env script fuel k
        → AgreesAll env c script k (next_message env c message fuel)
    unfolding next_message
    next_message-Agrees cobs laws fuel enough =
        then-Agrees
          (guarded-Agrees (Framing.next_packet env fuel)
            (next_packet-Agrees env script k cobs laws fuel enough))
          receive-Agrees

    module _ (limit : ℕ) (cobs : CobsLaws env.cobs) where
      -- The side with what sealing left.
      abbrev put : Outcome (List ℕ) × (Session c × List ℕ) → HostSide R W c → HostSide R W c
      put p h =
          let framing : Framing R W = with_scratch p.1.1 h.framing in
          record h { framing = framing; session = some p.1.0 }

      seal_with-Both :
          (msg : M) (o : Option (Session c))
          → AgreesAll env c script k (seal_with env c limit message msg o)
      unfolding seal_with
      seal_with-Both msg none = record {
        agrees = λ h h' x. record { same_result = refl; alike = x };
      }
      seal_with-Both msg (some s) = record {
        agrees = λ h h' x.
            let p = seal c limit message msg (s, h.framing.encode_buffer) in
            subst
              (λ buf.
                let q = seal c limit message msg (s, buf) in
                Both (guard_session env c p.0 (put p h)) (guard_session env c q.0 (put q h')))
              (ap (λ o. o.3) x.framing.same_outside)
              (guard_session-Both p.0 (put p h) (put p h') (record {
                framing = with_scratch-Alike env script k p.1.1 h.framing h'.framing x.framing;
                same_session = refl;
                same_rng = x.same_rng;
              }));
      }

      deliver-Agrees : (blob : List ℕ) → AgreesAll env c script k (deliver env c limit blob)
      unfolding deliver
      deliver-Agrees blob =
          guarded-Agrees (Framing.send_packet env blob) (send_packet-Agrees env script k cobs blob)

      pub send_message-Agrees :
          (msg : M) → AgreesAll env c script k (send_message env c limit message msg)
      unfolding send_message
      send_message-Agrees msg = record {
        agrees = λ h h' x.
            and_then-Same (deliver env c limit) (seal_with env c limit message msg h.session h)
              (seal_with env c limit message msg h'.session h')
              (subst
                (λ o.
                  Both (seal_with env c limit message msg h.session h)
                    (seal_with env c limit message msg o h'))
                x.same_session ((seal_with-Both msg h.session).agrees h h' x))
              deliver-Agrees;
      }
