-- ===== src/Exchange/Answers.antt =====
-- A round of the Ark's loop that a reset and the host's hello begin.
use darkbio_wire_rs.Common.{
  ℕ, suc, ◌≤◌, ◌<◌, ◌≡◌, refl, ap, sym, ◌∙◌, List, ◌∷◌, ◌++◌, map, length, append_assoc, arith,
}
use darkbio_wire_rs.Error.{Outcome, value, ok, err, terminated, recv_failed, panic, exhausted}
use darkbio_wire_rs.Io.{Env}
use darkbio_wire_rs.Io.Laws.{Event, byte, MemchrLaws, Script, CobsLaws, Sink}
use darkbio_wire_rs.Crypto.{Message, Crypto}
use darkbio_wire_rs.Crypto.Honest.{Honest, HasRoom}
use darkbio_wire_rs.Attestation.{Attester}
use darkbio_wire_rs.Session.{Session}
use darkbio_wire_rs.Session.Laws.{Secure}
use darkbio_wire_rs.Framing.{next_packet}
use darkbio_wire_rs.Framing.Inv.{IsValid, rest}
use darkbio_wire_rs.Framing.Read.{IsEnough, IsEnough-mono}
use darkbio_wire_rs.Framing.Send.{packet_wire}
use darkbio_wire_rs.Framing.Arrive.{next_packet-Resets}
use darkbio_wire_rs.Host.Tail.{HostKeys}
use darkbio_wire_rs.Ark.{
  ArkSide, Greeting, Turn, returned, again, message_turn, after_handshake, drop_session,
}
use darkbio_wire_rs.Ark.Tail.{await_ack, handshake-awaits, message_turn-resets}
use darkbio_wire_rs.Ark.Appends.{await_ack-Appends}
use darkbio_wire_rs.Exchange.Travel.{append_cancel}
use darkbio_wire_rs.Exchange.Transcript.{ark_greeting, ark_hello}
use darkbio_wire_rs.Exchange.ArkGreets.{greet-Greets}

-- The state that a round of a loop leaves.
abbrev pub state_of : {T S : Type 0} → Turn T S → S
state_of (returned r s) = s
state_of (again s) = s

module _ {R W A : Type 0} (env : Env R W) (c : Crypto) (attester : Attester A) (M : Type 0) where
  after_handshake-framing :
      (r : Outcome (Session c)) (a : ArkSide R W A c)
      → (state_of {T = M} (after_handshake env c attester r a)).framing ≡ a.framing
  unfolding after_handshake
  after_handshake-framing (ok s) a = refl
  after_handshake-framing (err terminated) a = refl
  after_handshake-framing (err (recv_failed e)) a = refl
  after_handshake-framing (err e) a = refl
  after_handshake-framing panic a = refl
  after_handshake-framing exhausted a = refl

module _ {R W A : Type 0} (env : Env R W) {c : Crypto} (attester : Attester A) (secure : Secure c)
    (honest : Honest secure) {n : ℕ} (room : HasRoom env c n) (cobs : CobsLaws env.cobs)
    (script : Script env.reader) (laws : MemchrLaws env.memchr) (sink : Sink env.writer)
    {M : Type 0} (message : Message M) (keys : HostKeys c) (host_rng : c.Rng) (fuel rounds : ℕ)
    (a : ArkSide R W A c) where
  abbrev pub greeting : Greeting c
  greeting =
      ark_greeting secure honest keys a.signer (attester.attest a.attester).0.cwt a.rng host_rng

  abbrev pub answer : List ℕ
  answer = ark_hello secure honest keys a.signer (attester.attest a.attester).0.cwt a.rng host_rng

  -- All that the round writes begins with the Ark's hello; behind it the Ark waits for the ack.
  pub record Answers (to_host : List ℕ) (es : List Event) : Type 0 where
    pub after : ArkSide R W A c
    pub turn :
        message_turn env c attester message fuel (suc rounds) a
        ≡ after_handshake env c attester
            (await_ack env c attester fuel rounds greeting after).0
            (await_ack env c attester fuel rounds greeting after).1
    pub scratch : List ℕ
    pub coded : env.cobs.encode_buffer (length answer) ≤ length scratch
    pub more : List ℕ
    pub grew :
        sink.written (await_ack env c attester fuel rounds greeting after).1.framing.writer
        ≡ sink.written after.framing.writer ++ more
    pub says : to_host ≡ packet_wire env answer scratch ++ more
    pub valid : IsValid env.frame_limit after.framing
    pub left_over : rest env script after.framing ≡ es
    pub same_signer : after.signer ≡ a.signer

  pub message_turn-Answers :
      (hello buf to_host : List ℕ) (es : List Event)
      → 0 < rounds
      → c.encode_host_hello (greeting.host_hello) ≡ value hello
      → c.decode_host_hello hello ≡ value (greeting.host_hello)
      → length (attester.attest a.attester).0.cwt ≤ n
      → env.cobs.encode_buffer (length hello) ≤ length buf
      → IsValid env.frame_limit a.framing
      → IsEnough env script fuel (rest env script a.framing)
      → rest env script a.framing ≡ byte 0 ∷ byte 0 ∷ (map byte (packet_wire env hello buf) ++ es)
      → sink.written
          (state_of (message_turn env c attester message fuel (suc rounds) a)).framing.writer
        ≡ sink.written a.framing.writer ++ to_host
      → Answers to_host es
  message_turn-Answers hello buf to_host es more encoded decoded short coded v enough next wrote =
      let later = map byte (packet_wire env hello buf) ++ es in
      let reset =
        next_packet-Resets env cobs script laws fuel (byte 0 ∷ later) a.framing v enough next in
      let st = (next_packet env fuel a.framing).1 in
      let a0 = drop_session env c attester (record a { framing = st }) in
      let greets =
        greet-Greets env attester secure honest room cobs script laws sink keys host_rng fuel
          (suc rounds) 1 hello buf es a0 encoded decoded short (omega arith) coded reset.valid
          (IsEnough-mono env script fuel (rest env script a.framing) (rest env script st)
            (rw (reset.left_over, next) (omega arith)) enough)
          reset.left_over in
      let q = await_ack env c attester fuel rounds greeting greets.after in
      let turn =
        message_turn-resets env c attester message fuel (suc rounds) a reset.received
        ∙ ap (λ q. after_handshake env c attester q.0 q.1)
            (handshake-awaits env c attester fuel rounds greeting a0 greets.after greets.greeted) in
      let (behind, grew) =
        (await_ack-Appends env c attester sink fuel rounds greeting).moves greets.after in
      let before = sink.written a.framing.writer in
      let wire = packet_wire env answer greets.scratch in
      record {
        after = greets.after;
        turn = turn;
        scratch = greets.scratch;
        coded = greets.coded;
        more = behind;
        grew = grew;
        says = append_cancel before to_host (wire ++ behind) (
            sym wrote
            ∙ ap (λ (t : Turn M (ArkSide R W A c)). sink.written (state_of t).framing.writer) turn
            ∙ ap (λ f. sink.written f.writer) (after_handshake-framing env c attester M q.0 q.1)
            ∙ grew
            ∙ ap (λ l. l ++ behind)
                (greets.written ∙ ap (λ w. sink.written w ++ wire) reset.same_writer)
            ∙ append_assoc before wire behind);
        valid = greets.valid;
        left_over = greets.left_over;
        same_signer = greets.same_signer;
      }
