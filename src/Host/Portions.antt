-- ===== src/Host/Portions.antt =====
-- The portions in which the reader returns the stream do not matter to the host.
use darkbio_wire_rs.Common.{ℕ, ◌≡◌, refl, ap, ap₂, List, [], ◌∷◌}
use darkbio_wire_rs.Error.{Outcome}
use darkbio_wire_rs.Io.{Env}
use darkbio_wire_rs.Io.Laws.{MemchrLaws, Script, CobsLaws}
use darkbio_wire_rs.Crypto.{Message, Crypto}
use darkbio_wire_rs.Attestation.{Verifier}
use darkbio_wire_rs.Framing.Live.{Fuelled}
use darkbio_wire_rs.Host.{HostSide, handshake, send_message, next_message}
use darkbio_wire_rs.Host.History.{Use, connect, send, fetch}
use darkbio_wire_rs.Host.Alike.{HostAlike, handshake-Agrees}
use darkbio_wire_rs.Host.Calls.{send_message-Agrees, next_message-Agrees}

-- What a call of the host returns.
pub data Answer (Info M : Type 0) : Type 0 where
  connected : Outcome Info → Answer Info M
  delivered : Outcome (Unit {0}) → Answer Info M
  fetched : Outcome M → Answer Info M

module _ {R W : Type 0} (env : Env R W) (c : Crypto) {Info : Type 0}
    (verifier : Verifier c.VerifyingKey Info) (limit : ℕ) {M : Type 0} (message : Message M)
    (fuel : ℕ) where
  unfoldable pub answer : Use M → HostSide R W c → Answer Info M × HostSide R W c
  answer connect h = let (r, h') = handshake env c fuel verifier h in (connected r, h')
  answer (send msg) h = let (r, h') = send_message env c limit message msg h in (delivered r, h')
  answer fetch h = let (r, h') = next_message env c message fuel h in (fetched r, h')

  -- The answers to some calls, and the side afterwards.
  unfoldable pub answers : List (Use M) → HostSide R W c → List (Answer Info M) × HostSide R W c
  answers [] h = ([], h)
  answers (u ∷ us) h =
      let (a, h') = answer u h in let (rest, h'') = answers us h' in (a ∷ rest, h'')

  module _ (script : Script env.reader) (cobs : CobsLaws env.cobs) (laws : MemchrLaws env.memchr)
      (k : ℕ) (enough : Fuelled env script fuel k) where
    -- The same answers, and sides that are alike.
    pub record Matches {T : Type 0} (p q : T × HostSide R W c) : Type 0 where
      pub same_answers : p.0 ≡ q.0
      pub alike : HostAlike env c script k p.1 q.1

    answer-Matches :
        (u : Use M) (h h' : HostSide R W c)
        → HostAlike env c script k h h'
        → Matches (answer u h) (answer u h')
    unfolding answer
    answer-Matches connect h h' x =
        let y = (handshake-Agrees env c script k cobs laws fuel enough verifier).agrees h h' x in
        record { same_answers = ap connected y.same_result; alike = y.alike }
    answer-Matches (send msg) h h' x =
        let y = (send_message-Agrees env c script k message limit cobs msg).agrees h h' x in
        record { same_answers = ap delivered y.same_result; alike = y.alike }
    answer-Matches fetch h h' x =
        let y = (next_message-Agrees env c script k message cobs laws fuel enough).agrees h h' x in
        record { same_answers = ap fetched y.same_result; alike = y.alike }

    -- Two hosts with the same session, randomness, writer and packet buffers, and with the same
    -- stream to come, of at most `k` events but in portions and with received bytes of their own,
    -- give the same answers to any sequence of handshakes, messages sent and messages fetched,
    -- errors included. They have written the same, and are alike again, to the same stream left.
    pub answers-Matches :
        (us : List (Use M)) (h h' : HostSide R W c)
        → HostAlike env c script k h h'
        → Matches (answers us h) (answers us h')
    unfolding answers
    answers-Matches [] h h' x = record { same_answers = refl; alike = x }
    answers-Matches (u ∷ us) h h' x =
        let first = answer-Matches u h h' x in
        let next = answers-Matches us (answer u h).1 (answer u h').1 first.alike in
        record {
          same_answers = ap₂ (λ a rest. a ∷ rest) first.same_answers next.same_answers;
          alike = next.alike;
        }
