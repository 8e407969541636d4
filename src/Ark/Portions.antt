-- ===== src/Ark/Portions.antt =====
-- The portions in which the reader returns the stream do not matter to the Ark.
use darkbio_wire_rs.Common.{ℕ, ◌≡◌, refl, ap, ap₂, subst, Option, none, some, List, [], ◌∷◌}
use darkbio_wire_rs.Error.{Outcome, ok, err, panic, exhausted, encryption_failed}
use darkbio_wire_rs.Error.Agrees.{and_then-Same}
use darkbio_wire_rs.Io.{Env}
use darkbio_wire_rs.Io.Laws.{MemchrLaws, Script, CobsLaws}
use darkbio_wire_rs.Crypto.{Message, Crypto}
use darkbio_wire_rs.Attestation.{Attester}
use darkbio_wire_rs.Session.{Session, seal}
use darkbio_wire_rs.Framing
use darkbio_wire_rs.Framing.{Framing}
use darkbio_wire_rs.Framing.Live.{Fuelled}
use darkbio_wire_rs.Framing.Alike.{send_packet-Agrees}
use darkbio_wire_rs.Host.Send.{with_scratch, with_scratch-Alike}
use darkbio_wire_rs.Ark.{
  ArkSide, on_framing, next_message, send_message, seal_with, deliver, guard_session,
  guard_transport,
}
use darkbio_wire_rs.Ark.Alike.{ArkAlike, AgreesAll, on_framing-Agrees}
use darkbio_wire_rs.Ark.Calls.{Both, with_session-Alike, returned-Both, next_message-Agrees}

-- A call of the Ark, and what it returns.
pub data Use (M : Type 0) : Type 0 where
  send : M → Use M
  fetch : Use M

pub data Reply (M : Type 0) : Type 0 where
  delivered : Outcome (Unit {0}) → Reply M
  fetched : Outcome M → Reply M

module _ {R W A : Type 0} (env : Env R W) (c : Crypto) (attester : Attester A) where
  module _ (script : Script env.reader) (k : ℕ) (cobs : CobsLaws env.cobs) where
    abbrev Pair : ArkSide R W A c → ArkSide R W A c → Type 0
    Pair = ArkAlike env c attester script k

    abbrev Agree : {T : Type 0} → Outcome T × ArkSide R W A c → Outcome T × ArkSide R W A c → Type 0
    Agree p q = Both env c attester script k p q

    guard_session-Both :
        {T : Type 0} (r : Outcome T) (a a' : ArkSide R W A c)
        → Pair a a'
        → Agree (guard_session env c attester r a) (guard_session env c attester r a')
    unfolding guard_session
    guard_session-Both (err (encryption_failed e)) a a' x = record {
      same_result = refl;
      alike = with_session-Alike env c attester script k none a a' x;
    }
    guard_session-Both r a a' x = returned-Both env c attester script k r a a' x

    guard_transport-Both :
        {T : Type 0} (r : Outcome T) (a a' : ArkSide R W A c)
        → Pair a a'
        → Agree (guard_transport env c attester r a) (guard_transport env c attester r a')
    unfolding guard_transport
    guard_transport-Both (err e) a a' x = record {
      same_result = refl;
      alike = with_session-Alike env c attester script k none a a' x;
    }
    guard_transport-Both (ok t) a a' x = returned-Both env c attester script k (ok t) a a' x
    guard_transport-Both panic a a' x = returned-Both env c attester script k panic a a' x
    guard_transport-Both exhausted a a' x = returned-Both env c attester script k exhausted a a' x

    deliver-Agrees :
        (blob : List ℕ) → AgreesAll env c attester script k (deliver env c attester blob)
    unfolding deliver
    deliver-Agrees blob = record {
      agrees = λ a a' x.
          let p = on_framing env c attester (Framing.send_packet env blob) a in
          let q = on_framing env c attester (Framing.send_packet env blob) a' in
          let y =
            (on_framing-Agrees env c attester script k
                (send_packet-Agrees env script k cobs blob)).agrees
              a a' x in
          subst
            (λ r.
              Agree (guard_transport env c attester p.0 p.1) (guard_transport env c attester r q.1))
            y.same_result (guard_transport-Both p.0 p.1 q.1 y.alike);
    }

    module _ (limit : ℕ) {M : Type 0} (message : Message M) where
      -- The side with what sealing left.
      abbrev put : Outcome (List ℕ) × (Session c × List ℕ) → ArkSide R W A c → ArkSide R W A c
      put p a =
          let framing : Framing R W = with_scratch p.1.1 a.framing in
          record a { framing = framing; session = some p.1.0 }

      seal_with-Agrees :
          (msg : M) (o : Option (Session c))
          → AgreesAll env c attester script k (seal_with env c attester limit message msg o)
      unfolding seal_with
      seal_with-Agrees msg none = record {
        agrees = λ a a' x. record { same_result = refl; alike = x };
      }
      seal_with-Agrees msg (some s) = record {
        agrees = λ a a' x.
            let p = seal c limit message msg (s, a.framing.encode_buffer) in
            subst
              (λ buf.
                let q = seal c limit message msg (s, buf) in
                Agree (guard_session env c attester p.0 (put p a))
                  (guard_session env c attester q.0 (put q a')))
              (ap (λ o. o.3) x.framing.same_outside)
              (guard_session-Both p.0 (put p a) (put p a') (record {
                framing = with_scratch-Alike env script k p.1.1 a.framing a'.framing x.framing;
                same_signer = x.same_signer;
                same_attester = x.same_attester;
                same_session = refl;
                same_rng = x.same_rng;
              }));
      }

      send_message-Agrees :
          (msg : M)
          → AgreesAll env c attester script k (send_message env c attester limit message msg)
      unfolding send_message
      send_message-Agrees msg = record {
        agrees = λ a a' x.
            let sealed = seal_with env c attester limit message msg in
            and_then-Same (deliver env c attester) (sealed a.session a) (sealed a'.session a')
              (subst (λ o. Agree (sealed a.session a) (sealed o a')) x.same_session
                ((seal_with-Agrees msg a.session).agrees a a' x))
              deliver-Agrees;
      }

  module _ (limit : ℕ) {M : Type 0} (message : Message M) (fuel rounds : ℕ) where
    unfoldable pub reply : Use M → ArkSide R W A c → Reply M × ArkSide R W A c
    reply (send msg) a =
        let (r, a') = send_message env c attester limit message msg a in (delivered r, a')
    reply fetch a =
        let (r, a') = next_message env c attester message fuel rounds a in (fetched r, a')

    -- The replies to some calls, and the side afterwards.
    unfoldable pub replies : List (Use M) → ArkSide R W A c → List (Reply M) × ArkSide R W A c
    replies [] a = ([], a)
    replies (u ∷ us) a =
        let (x, a') = reply u a in let (rest, a'') = replies us a' in (x ∷ rest, a'')

    module _ (script : Script env.reader) (cobs : CobsLaws env.cobs) (laws : MemchrLaws env.memchr)
        (k : ℕ) (enough : Fuelled env script fuel k) where
      -- The same replies, and sides that are alike.
      pub record Matches {T : Type 0} (p q : T × ArkSide R W A c) : Type 0 where
        pub same_replies : p.0 ≡ q.0
        pub alike : ArkAlike env c attester script k p.1 q.1

      reply-Matches :
          (u : Use M) (a a' : ArkSide R W A c)
          → ArkAlike env c attester script k a a'
          → Matches (reply u a) (reply u a')
      unfolding reply
      reply-Matches (send msg) a a' x =
          let y = (send_message-Agrees script k cobs limit message msg).agrees a a' x in
          record { same_replies = ap delivered y.same_result; alike = y.alike }
      reply-Matches fetch a a' x =
          let y =
            (next_message-Agrees env c attester script k message cobs laws fuel enough
                rounds).agrees
              a a' x in
          record { same_replies = ap fetched y.same_result; alike = y.alike }

      -- Two Arks with the same keys, session, randomness, writer and packet buffers, and with the
      -- same stream to come, of at most `k` events but in portions and with received bytes of their
      -- own, give the same replies to any sequence of messages sent and messages fetched, errors and
      -- the handshakes within included. They have written the same, and are alike again, to the same
      -- stream left.
      pub replies-Matches :
          (us : List (Use M)) (a a' : ArkSide R W A c)
          → ArkAlike env c attester script k a a'
          → Matches (replies us a) (replies us a')
      unfolding replies
      replies-Matches [] a a' x = record { same_replies = refl; alike = x }
      replies-Matches (u ∷ us) a a' x =
          let first = reply-Matches u a a' x in
          let next = replies-Matches us (reply u a).1 (reply u a').1 first.alike in
          record {
            same_replies = ap₂ (λ r rest. r ∷ rest) first.same_replies next.same_replies;
            alike = next.alike;
          }
