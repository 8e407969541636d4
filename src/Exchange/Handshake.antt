-- ===== src/Exchange/Handshake.antt =====
-- The handshake of the two sides with each other.
use darkbio_wire_rs.Common.{
  ℕ, suc, ◌≤◌, ◌<◌, ◌≡◌, refl, ap, sym, subst, subst₂, ◌∙◌, List, [], ◌∷◌, ◌++◌, map, length,
  length-append, append-nil, arith,
}
use darkbio_wire_rs.Error.{Outcome, value, ok}
use darkbio_wire_rs.Io.{Env}
use darkbio_wire_rs.Io.Laws.{Event, byte, MemchrLaws, Script, CobsLaws, Sink}
use darkbio_wire_rs.Limits.{crypto_domain_wire_ark_to_host, crypto_domain_wire_host_to_ark}
use darkbio_wire_rs.Crypto.{Message, Crypto}
use darkbio_wire_rs.Crypto.Honest.{Honest, HasRoom}
use darkbio_wire_rs.Attestation
use darkbio_wire_rs.Attestation.{Attestation, Attester, Verifier}
use darkbio_wire_rs.Session.Laws.{Secure}
use darkbio_wire_rs.Framing.Inv.{IsValid, rest}
use darkbio_wire_rs.Framing.Read.{IsEnough, IsEnough-mono}
use darkbio_wire_rs.Framing.Send.{packet_wire}
use darkbio_wire_rs.Host
use darkbio_wire_rs.Host.{HostSide, max_stale_frames}
use darkbio_wire_rs.Host.Tail.{draw_keys}
use darkbio_wire_rs.Host.Honest.{Sent, AllStale, stream_of}
use darkbio_wire_rs.Ark.{ArkSide, Turn, again, message_turn, after_handshake}
use darkbio_wire_rs.Ark.Tail.{await_ack}
use darkbio_wire_rs.Exchange.{IsLinked}
use darkbio_wire_rs.Exchange.Travel.{append_cancel, split_bytes}
use darkbio_wire_rs.Exchange.HostJoins.{conclude-Joins}
use darkbio_wire_rs.Exchange.Starts.{hello_message, greeted_host, handshake-Starts}
use darkbio_wire_rs.Exchange.Answers.{state_of, message_turn-Answers}
use darkbio_wire_rs.Exchange.Transcript.{ark_greeting, ark_hello, host_ack, ark_secret}
use darkbio_wire_rs.Exchange.ArkJoins.{await_ack-Acknowledged}

module _ {R W A : Type 0} (env : Env R W) {c : Crypto} (attester : Attester A) (secure : Secure c)
    (honest : Honest secure) {n : ℕ} (room : HasRoom env c n) (cobs : CobsLaws env.cobs)
    (script : Script env.reader) (laws : MemchrLaws env.memchr) (sink : Sink env.writer)
    {Info M : Type 0} (message : Message M) where
  -- Both sides have come to the same session, and have used up the handshake.
  pub record Agree (info : Info) (es_h es_a : List Event) (p : Outcome Info × HostSide R W c)
      (t : Turn M (ArkSide R W A c)) : Type 0 where
    pub done : p.0 ≡ ok info
    pub goes_on : t ≡ again (state_of t)
    pub linked : IsLinked env secure honest.capacity honest.capacity p.1 (state_of t)
    pub host_left_over : rest env script p.1.framing ≡ es_h
    pub ark_left_over : rest env script (state_of t).framing ≡ es_a

  -- If a host and an Ark make a handshake with each other, both end it well, in the same session.
  -- That is, if what the host writes in its handshake comes next in the Ark's stream, and what the
  -- Ark writes in the round of its loop that the reset begins comes next in the host's stream, behind
  -- at most 32 stale packets that are not for the host's fresh key; the two sides may be in any state
  -- with valid framers, old sessions included, the verifier accepts the Ark's attestation with the
  -- Ark's own key, and the messages of the handshake fit a frame. Then the host returns the verifier's
  -- information, the Ark goes on to serve, each one's sender is in step with the other's receiver, and
  -- what comes behind the handshake on the two streams is left over.
  pub handshake-Agree :
      (fuel rounds : ℕ) (verifier : Verifier c.VerifyingKey Info) (info : Info)
      (stale : List (Sent env c)) (to_ark to_host : List ℕ) (es_h es_a : List Event)
      (h : HostSide R W c) (a : ArkSide R W A c)
      → 0 < rounds
      → length (attester.attest a.attester).0.cwt ≤ n
      → Attestation.new c (attester.attest a.attester).0.cwt ≡ ok (attester.attest a.attester).0
      → verifier.verify (attester.attest a.attester).0 ≡ value (c.verifying_key a.signer, info)
      → length stale ≤ max_stale_frames
      → AllStale env c (c.fingerprint (c.public_key (draw_keys c h.rng).secret)) stale
      → IsValid env.frame_limit h.framing
      → IsValid env.frame_limit a.framing
      → sink.written (Host.handshake env c fuel verifier h).1.framing.writer
        ≡ sink.written h.framing.writer ++ to_ark
      → sink.written
          (state_of (message_turn env c attester message fuel (suc rounds) a)).framing.writer
        ≡ sink.written a.framing.writer ++ to_host
      → rest env script h.framing ≡ stream_of env c stale (map byte to_host ++ es_h)
      → rest env script a.framing ≡ map byte to_ark ++ es_a
      → IsEnough env script fuel (rest env script h.framing)
      → IsEnough env script fuel (rest env script a.framing)
      → Agree info es_h es_a
          (Host.handshake env c fuel verifier h)
          (message_turn env c attester message fuel (suc rounds) a)
  unfolding after_handshake
  handshake-Agree fuel rounds verifier info stale to_ark to_host es_h es_a h a more short shaped
        trusted few old hv av wrote_h wrote_a next_h next_a enough_h enough_a =
      let keys = draw_keys c h.rng in
      let cwt = (attester.attest a.attester).0.cwt in
      let starts =
        handshake-Starts env secure honest room cobs script sink fuel verifier h to_ark hv
          wrote_h in
      let h1 = greeted_host env secure honest room cobs script sink fuel verifier h in
      let m = hello_message env secure honest room cobs script sink fuel verifier h in
      let wire = packet_wire env (honest.hello m).0 starts.opened.scratch in
      let later = map byte starts.more ++ es_a in
      let first : rest env script a.framing ≡ byte 0 ∷ byte 0 ∷ (map byte wire ++ later) =
        (next_a
          ∙ ap (λ bs. map byte bs ++ es_a) starts.says
          ∙ ap (λ es. byte 0 ∷ byte 0 ∷ es) (split_bytes wire starts.more es_a)) in
      let answers =
        message_turn-Answers env attester secure honest room cobs script laws sink message keys
          h1.rng fuel rounds a (honest.hello m).0 starts.opened.scratch to_host later more
          (honest.hello m).1 (honest.hello m).2 short starts.opened.coded av enough_a first
          wrote_a in
      let answer =
        packet_wire env (ark_hello secure honest keys a.signer cwt a.rng h1.rng) answers.scratch in
      let joins =
        conclude-Joins env secure honest room cobs script laws sink keys a.signer cwt a.rng fuel
          verifier info stale answers.scratch (map byte answers.more ++ es_h) h1 short shaped
          trusted few old answers.coded starts.opened.valid
          (subst (IsEnough env script fuel) (sym starts.opened.same_rest) enough_h)
          (starts.opened.same_rest
            ∙ next_h
            ∙ ap (stream_of env c stale) (
                ap (λ bs. map byte bs ++ es_h) answers.says
                ∙ split_bytes answer answers.more es_h)) in
      let ack =
        packet_wire env (host_ack secure honest keys a.signer cwt a.rng h1.rng) joins.scratch in
      let acks : starts.more ≡ ack =
        append_cancel (sink.written h1.framing.writer) starts.more ack
          (sym starts.grew ∙ joins.written) in
      let acked =
        await_ack-Acknowledged env attester secure honest room cobs script laws keys a.signer cwt
          a.rng h1.rng fuel rounds joins.scratch es_a answers.after answers.same_signer joins.coded
          answers.valid
          (IsEnough-mono env script fuel (rest env script a.framing)
            (rest env script answers.after.framing)
            (rw (answers.left_over, first) (omega (arith, length-append (map byte wire) later)))
            enough_a)
          (answers.left_over ∙ ap (λ bs. map byte bs ++ es_a) acks) in
      let q =
        await_ack env c attester fuel rounds
          (ark_greeting secure honest keys a.signer cwt a.rng h1.rng) answers.after in
      let silent : answers.more ≡ [] =
        append_cancel (sink.written answers.after.framing.writer) answers.more [] (
          sym answers.grew
          ∙ ap sink.written acked.same_writer
          ∙ sym (append-nil (sink.written answers.after.framing.writer))) in
      subst₂ (Agree info es_h es_a) (sym starts.opened.goes_on)
        (sym (
          answers.turn
          ∙ ap (λ r. let t : Turn M (ArkSide R W A c) = after_handshake env c attester r q.1 in t)
              acked.done))
        (record {
          done = joins.done;
          goes_on = refl;
          linked = record {
            host = _;
            ark = _;
            host_session = joins.session;
            ark_session = refl;
            to_ark =
                (honest.contexts (ark_secret secure honest keys a.signer cwt a.rng h1.rng)
                  crypto_domain_wire_host_to_ark h1.rng).6;
            to_host =
                (honest.contexts keys.secret crypto_domain_wire_ark_to_host
                  (c.generate_secret a.rng).1).6;
            host_valid = joins.valid;
            ark_valid = acked.valid;
          };
          host_left_over = joins.left_over ∙ ap (λ bs. map byte bs ++ es_h) silent;
          ark_left_over = acked.left_over;
        })
