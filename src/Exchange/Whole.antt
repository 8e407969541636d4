-- ===== src/Exchange/Whole.antt =====
-- A whole session of the two sides: the handshake, and a conversation.
use darkbio_wire_rs.Common.{
  ℕ, suc, subst₂, arith, length-append, ◌≤◌, ◌≡◌, ap, ap₂, sym, subst, ◌∙◌, List, ◌∷◌, ◌++◌, map,
  length,
}
use darkbio_wire_rs.Error.{Outcome, value, ok}
use darkbio_wire_rs.Io.{Env}
use darkbio_wire_rs.Io.Laws.{Event, byte, MemchrLaws, Script, CobsLaws, Sink}
use darkbio_wire_rs.Limits.{framed}
use darkbio_wire_rs.Crypto.{Message, Crypto}
use darkbio_wire_rs.Crypto.Honest.{Honest, HasRoom}
use darkbio_wire_rs.Attestation
use darkbio_wire_rs.Attestation.{Attester, Verifier}
use darkbio_wire_rs.Session.Laws.{Secure, Codec}
use darkbio_wire_rs.Framing.Inv.{IsValid, rest}
use darkbio_wire_rs.Framing.Read.{IsEnough, IsEnough-mono}
use darkbio_wire_rs.Host
use darkbio_wire_rs.Host.{HostSide, max_stale_frames}
use darkbio_wire_rs.Host.Tail.{draw_keys}
use darkbio_wire_rs.Host.Honest.{Sent, AllStale, stream_of}
use darkbio_wire_rs.Ark
use darkbio_wire_rs.Ark.{ArkSide, Turn, returned, again, resume, message_turn}
use darkbio_wire_rs.Exchange.{IsLinked}
use darkbio_wire_rs.Exchange.Answers.{state_of}
use darkbio_wire_rs.Exchange.Rounds.{next_message-goes_on, length-stream_of}
use darkbio_wire_rs.Exchange.Parts.{session-Splits}
use darkbio_wire_rs.Exchange.Handshake.{handshake-Agree}
use darkbio_wire_rs.Exchange.Talk.{
  Talk, to_ark, ark_budget, host_budget, host_calls, ark_calls, host_results, ark_results, AllFit,
}
use darkbio_wire_rs.Exchange.Conversation.{converse, asks-Converses, ark_after}

module _ {R W A : Type 0} (env : Env R W) {c : Crypto} (attester : Attester A) (secure : Secure c)
    (honest : Honest secure) {size : ℕ} (fits : HasRoom env c size) {Info : Type 0}
    (verifier : Verifier c.VerifyingKey Info) {M : Type 0} (message : Message M)
    (codec : Codec message) (limit : ℕ)
    (room : (n : ℕ) → n ≤ limit → framed env.cobs.encode_buffer n ≤ env.frame_limit)
    (cobs : CobsLaws env.cobs) (script : Script env.reader) (laws : MemchrLaws env.memchr)
    (sink : Sink env.writer) (fuel rounds : ℕ) where
  abbrev host_wrote : HostSide R W c → List ℕ
  host_wrote h = sink.written h.framing.writer

  -- The Ark behind the handshake.
  abbrev joined : ArkSide R W A c → ArkSide R W A c
  joined a = state_of (message_turn env c attester message fuel (suc (suc rounds)) a)

  abbrev wrote : ArkSide R W A c → List ℕ
  wrote b = sink.written b.framing.writer

  abbrev host_session :
      List (Talk M) → HostSide R W c → List (Host.Portions.Answer Info M) × HostSide R W c
  host_session ts =
      Host.Portions.answers env c verifier limit message fuel (Host.History.connect ∷ host_calls ts)

  abbrev ark_session :
      List (Talk M) → ArkSide R W A c → List (Ark.Portions.Reply M) × ArkSide R W A c
  ark_session ts =
      Ark.Portions.replies env c attester limit message fuel (suc (suc rounds)) (ark_calls ts)

  abbrev later :
      List (Talk M) → Outcome M × ArkSide R W A c → List (Ark.Portions.Reply M) × ArkSide R W A c
  later =
      ark_after env attester secure verifier message codec limit room cobs script laws sink fuel
        (suc rounds)

  -- Both sides have got the results, those of the handshake first, and the session goes on.
  pub record Concludes (info : Info) (ts : List (Talk M)) (k n : ℕ) (es_h es_a : List Event)
      (p : List (Host.Portions.Answer Info M) × HostSide R W c)
      (q : List (Ark.Portions.Reply M) × ArkSide R W A c) : Type 0 where
    pub host_returned : p.0 ≡ Host.Portions.connected (ok info) ∷ host_results ts
    pub ark_returned : q.0 ≡ ark_results ts
    pub linked : IsLinked env secure k n p.1 q.1
    pub host_left_over : rest env script p.1.framing ≡ es_h
    pub ark_left_over : rest env script q.1.framing ≡ es_a

  -- A host and an Ark hold a whole session: the host makes a handshake and the calls of a
  -- conversation that begins with a message to the Ark, the Ark makes the calls of that conversation
  -- alone, the first of which makes the handshake as well. What each side writes in all comes next in
  -- the other's stream, in any portions, at the host behind at most 32 stale packets that are not for
  -- its fresh key. The two may be in any state with valid framers, old sessions included; the verifier
  -- accepts the Ark's attestation with the Ark's own key; the messages of the handshake, and every
  -- message within the limit, fit a frame; the messages of the conversation are within the limit, and
  -- no more than a fresh session carries. Then the host's handshake returns the verifier's
  -- information, and every message is sent without an error and returned to the other side as it is,
  -- in order; the two sides are in one session, in step, and what comes behind it on the two streams
  -- is left over.
  pub session-Concludes :
      (m : M) (ts : List (Talk M)) (k n : ℕ) (info : Info) (stale : List (Sent env c))
      (into_ark into_host : List ℕ) (es_h es_a : List Event) (h : HostSide R W c)
      (a : ArkSide R W A c)
      → AllFit message limit (to_ark m ∷ ts)
      → honest.capacity ≡ ark_budget (to_ark m ∷ ts) k
      → honest.capacity ≡ host_budget (to_ark m ∷ ts) n
      → length (attester.attest a.attester).0.cwt ≤ size
      → Attestation.new c (attester.attest a.attester).0.cwt ≡ ok (attester.attest a.attester).0
      → verifier.verify (attester.attest a.attester).0 ≡ value (c.verifying_key a.signer, info)
      → length stale ≤ max_stale_frames
      → AllStale env c (c.fingerprint (c.public_key (draw_keys c h.rng).secret)) stale
      → IsValid env.frame_limit h.framing
      → IsValid env.frame_limit a.framing
      → host_wrote (host_session (to_ark m ∷ ts) h).1 ≡ host_wrote h ++ into_ark
      → wrote (ark_session (to_ark m ∷ ts) a).1 ≡ wrote a ++ into_host
      → rest env script h.framing ≡ stream_of env c stale (map byte into_host ++ es_h)
      → rest env script a.framing ≡ map byte into_ark ++ es_a
      → IsEnough env script fuel (rest env script h.framing)
      → IsEnough env script fuel (rest env script a.framing)
      → Concludes info
          (to_ark m ∷ ts)
          k
          n
          es_h
          es_a
          (host_session (to_ark m ∷ ts) h)
          (ark_session (to_ark m ∷ ts) a)
  unfolding host_calls ark_calls ark_results Ark.next_message Host.Portions.answers
      Host.Portions.answer Ark.Portions.replies Ark.Portions.reply
  session-Concludes m ts k n info stale into_ark into_host es_h es_a h a fit to_ark_left
        to_host_left short shaped trusted few old hv av wrote_h wrote_a next_h next_a enough_h
        enough_a =
      let p = Host.handshake env c fuel verifier h in
      let a' = joined a in
      let x =
        session-Splits env c attester verifier message limit script sink fuel rounds m ts stale
          into_ark into_host es_h es_a h a wrote_h wrote_a next_h next_a in
      let later_h = map byte x.ark_others.0 ++ es_h in
      let later_a = map byte x.host_others.0 ++ es_a in
      let agree =
        handshake-Agree env attester secure honest fits cobs script laws sink message fuel
          (suc rounds) verifier info stale x.host_first.0 x.ark_first.0 later_h later_a h a
          (omega arith) short shaped trusted few old hv av x.host_first.1 x.ark_first.1 x.coming_h
          x.coming_a enough_h enough_a in
      let e = next_message-goes_on env c attester message fuel (suc rounds) a agree.goes_on in
      let y =
        asks-Converses env attester secure verifier message codec limit room cobs script laws sink
          fuel (suc rounds) rounds m ts k n x.host_others.0 x.ark_others.0 es_h es_a p.1 a'
          (converse env attester secure verifier message codec limit room cobs script laws sink fuel
            (suc rounds) ts)
          fit (subst₂ (λ i j. IsLinked env secure i j p.1 a') to_ark_left to_host_left agree.linked)
          x.host_others.1 (ap (λ r. wrote (later ts r).1) (sym e) ∙ x.ark_others.1)
          (IsEnough-mono env script fuel (rest env script h.framing) (rest env script p.1.framing)
            (rw (agree.host_left_over, x.coming_h)
              (omega (
                arith,
                length-stream_of env c stale (map byte x.ark_first.0 ++ later_h),
                length-append (map byte x.ark_first.0) later_h,
              )))
            enough_h)
          (IsEnough-mono env script fuel (rest env script a.framing) (rest env script a'.framing)
            (rw (agree.ark_left_over, x.coming_a)
              (omega (arith, length-append (map byte x.host_first.0) later_a)))
            enough_a)
          agree.host_left_over agree.ark_left_over in
      subst
        (λ r.
          Concludes info (to_ark m ∷ ts) k n es_h es_a (host_session (to_ark m ∷ ts) h)
            (later ts r))
        (sym e)
        (record {
          host_returned = ap₂ (λ r rs. Host.Portions.connected r ∷ rs) agree.done y.host_returned;
          ark_returned = y.ark_returned;
          linked = y.linked;
          host_left_over = y.host_left_over;
          ark_left_over = y.ark_left_over;
        })
