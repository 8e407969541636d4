-- ===== src/Ark/Kept.antt =====
-- Sending a message of the Ark keeps its framer valid and its identity key.
use darkbio_wire_rs.Common.{ℕ, ◌≡◌, refl, ◌∙◌, Option, none, some, List}
use darkbio_wire_rs.Error.{encryption_failed, Outcome, err}
use darkbio_wire_rs.Error.Moves.{IsOrder, Moves, then-Moves}
use darkbio_wire_rs.Io.{Env}
use darkbio_wire_rs.Io.Laws.{Script, CobsLaws}
use darkbio_wire_rs.Crypto.{Message, Crypto}
use darkbio_wire_rs.Attestation.{Attester}
use darkbio_wire_rs.Session.{Session, seal}
use darkbio_wire_rs.Framing.{Framing, send_packet}
use darkbio_wire_rs.Framing.Live.{Live, send_packet-Live}
use darkbio_wire_rs.Host.Send.{with_scratch, with_scratch-IsValid}
use darkbio_wire_rs.Ark.Moves.{handshake-Moves}
use darkbio_wire_rs.Ark.{
  ArkSide, handshake, send_message, seal_with, deliver, guard_session, guard_transport,
}

module _ {R W A : Type 0} (env : Env R W) (c : Crypto) (attester : Attester A) where
  abbrev SameSession : ArkSide R W A c → ArkSide R W A c → Type 0
  SameSession a a' = a'.session ≡ a.session

  -- A handshake leaves the session to its caller, however it ends.
  pub handshake-keeps_session :
      (fuel rounds : ℕ) → Moves SameSession (handshake env c attester fuel rounds)
  handshake-keeps_session = handshake-Moves env c attester (record {
    order = record { same = λ a. refl; chain = λ a b d p q. q ∙ p };
    reads = λ fuel. record { moves = λ a. refl };
    sends = λ p. record { moves = λ a. refl };
    draws = λ f. record { moves = λ a. refl };
    attests = record { moves = λ a. refl };
  })

  module _ (script : Script env.reader) (cobs : CobsLaws env.cobs) (k : ℕ) where
    abbrev pub Survives : ArkSide R W A c → ArkSide R W A c → Type 0
    Survives a a' =
        (Live env script k a.framing → Live env script k a'.framing) × (a'.signer ≡ a.signer)

    order : IsOrder Survives
    order = record {
      same = λ a. (λ l. l, refl);
      chain = λ a b d p q. (λ l. q.0 (p.0 l), q.1 ∙ p.1);
    }

    guard_session-Survives :
        {T : Type 0} (r : Outcome T) (a : ArkSide R W A c)
        → Survives a (guard_session env c attester r a).1
    unfolding guard_session
    guard_session-Survives (err (encryption_failed e)) a = (λ l. l, refl)
    guard_session-Survives r a = (λ l. l, refl)

    guard_transport-Survives :
        {T : Type 0} (r : Outcome T) (a : ArkSide R W A c)
        → Survives a (guard_transport env c attester r a).1
    unfolding guard_transport
    guard_transport-Survives (err e) a = (λ l. l, refl)
    guard_transport-Survives r a = (λ l. l, refl)

    deliver-Moves : (blob : List ℕ) → Moves Survives (deliver env c attester blob)
    unfolding deliver
    deliver-Moves blob = record {
      moves = λ a.
          let p = send_packet env blob a.framing in
          let b : ArkSide R W A c = record a { framing = p.1 } in
          order.chain a b (guard_transport env c attester p.0 b).1
            (λ l. send_packet-Live env script cobs k blob a.framing l, refl)
            (guard_transport-Survives p.0 b);
    }

    module _ {M : Type 0} (message : Message M) (limit : ℕ) where
      seal_with-Moves :
          (msg : M) (o : Option (Session c))
          → Moves Survives (seal_with env c attester limit message msg o)
      unfolding seal_with
      seal_with-Moves msg none = record { moves = λ a. (λ l. l, refl) }
      seal_with-Moves msg (some s) = record {
        moves = λ a.
            let p = seal c limit message msg (s, a.framing.encode_buffer) in
            let framing : Framing R W = with_scratch p.1.1 a.framing in
            let b : ArkSide R W A c = record a { framing = framing; session = some p.1.0 } in
            order.chain a b (guard_session env c attester p.0 b).1
              (
                λ l. record {
                  valid = with_scratch-IsValid env.frame_limit p.1.1 a.framing l.valid;
                  coming = l.coming;
                },
                refl,
              )
              (guard_session-Survives p.0 b);
      }

      pub send_message-Survives :
          (msg : M) → Moves Survives (send_message env c attester limit message msg)
      unfolding send_message
      send_message-Survives msg = record {
        moves = λ a. (then-Moves order (seal_with-Moves msg a.session) deliver-Moves).moves a;
      }
