-- ===== src/Exchange/Parts.antt =====
-- What the two sides write in a whole session, in the parts of the handshake and of the talk.
use darkbio_wire_rs.Common.{ℕ, suc, ◌≡◌, ap, ◌∙◌, List, ◌∷◌, ◌++◌, map}
use darkbio_wire_rs.Io.{Env}
use darkbio_wire_rs.Io.Laws.{Event, byte, Script, Sink}
use darkbio_wire_rs.Crypto.{Message, Crypto}
use darkbio_wire_rs.Attestation.{Attester, Verifier}
use darkbio_wire_rs.Framing.Inv.{rest}
use darkbio_wire_rs.Framing.Appends.{Continues, Continues-trans}
use darkbio_wire_rs.Host
use darkbio_wire_rs.Host.{HostSide, max_stale_frames}
use darkbio_wire_rs.Host.Appends.{handshake-Appends}
use darkbio_wire_rs.Host.Honest.{Sent, stream_of}
use darkbio_wire_rs.Ark
use darkbio_wire_rs.Ark.{ArkSide, Turn, returned, again, resume, message_turn}
use darkbio_wire_rs.Exchange.Travel.{split_bytes}
use darkbio_wire_rs.Exchange.Answers.{state_of}
use darkbio_wire_rs.Exchange.Rounds.{turn-Continues, resume-Continues}
use darkbio_wire_rs.Exchange.Talk.{Talk, to_ark, host_calls, ark_calls}
use darkbio_wire_rs.Exchange.Runs.{host_run-Continues, ark_run-Continues}
use darkbio_wire_rs.Exchange.Travel.{split_wrote}

module _ {R W A : Type 0} (env : Env R W) (c : Crypto) (attester : Attester A) {Info : Type 0}
    (verifier : Verifier c.VerifyingKey Info) {M : Type 0} (message : Message M) (limit : ℕ)
    (script : Script env.reader) (sink : Sink env.writer) (fuel rounds : ℕ) where
  abbrev pub host_wrote : HostSide R W c → List ℕ
  host_wrote h = sink.written h.framing.writer

  -- The Ark behind the handshake.
  abbrev pub joined : ArkSide R W A c → ArkSide R W A c
  joined a = state_of (message_turn env c attester message fuel (suc (suc rounds)) a)

  abbrev pub wrote : ArkSide R W A c → List ℕ
  wrote b = sink.written b.framing.writer

  abbrev pub host_session :
      List (Talk M) → HostSide R W c → List (Host.Portions.Answer Info M) × HostSide R W c
  host_session ts =
      Host.Portions.answers env c verifier limit message fuel (Host.History.connect ∷ host_calls ts)

  abbrev pub ark_session :
      List (Talk M) → ArkSide R W A c → List (Ark.Portions.Reply M) × ArkSide R W A c
  ark_session ts =
      Ark.Portions.replies env c attester limit message fuel (suc (suc rounds)) (ark_calls ts)

  -- What each side writes in a session in two parts, and where the other side gets it: that of the
  -- handshake, and that of the conversation.
  pub record Splits (m : M) (ts : List (Talk M)) (stale : List (Sent env c))
      (es_h es_a : List Event) (h : HostSide R W c) (a : ArkSide R W A c) : Type 0 where
    pub host_first : Continues (host_wrote h) (host_wrote (Host.handshake env c fuel verifier h).1)
    pub host_others :
        Continues
          (host_wrote (Host.handshake env c fuel verifier h).1)
          (host_wrote (host_session (to_ark m ∷ ts) h).1)
    pub ark_first : Continues (wrote a) (wrote (joined a))
    pub ark_others : Continues (wrote (joined a)) (wrote (ark_session (to_ark m ∷ ts) a).1)
    pub coming_h :
        rest env script h.framing
        ≡ stream_of env c stale (map byte ark_first.0 ++ (map byte ark_others.0 ++ es_h))
    pub coming_a :
        rest env script a.framing ≡ map byte host_first.0 ++ (map byte host_others.0 ++ es_a)

  pub session-Splits :
      (m : M) (ts : List (Talk M)) (stale : List (Sent env c)) (into_ark into_host : List ℕ)
      (es_h es_a : List Event) (h : HostSide R W c) (a : ArkSide R W A c)
      → host_wrote (host_session (to_ark m ∷ ts) h).1 ≡ host_wrote h ++ into_ark
      → wrote (ark_session (to_ark m ∷ ts) a).1 ≡ wrote a ++ into_host
      → rest env script h.framing ≡ stream_of env c stale (map byte into_host ++ es_h)
      → rest env script a.framing ≡ map byte into_ark ++ es_a
      → Splits m ts stale es_h es_a h a
  unfolding host_calls ark_calls Ark.next_message Host.Portions.answers Host.Portions.answer
      Ark.Portions.replies Ark.Portions.reply
  session-Splits m ts stale into_ark into_host es_h es_a h a wrote_h wrote_a next_h next_a =
      let p = Host.handshake env c fuel verifier h in
      let a1 = (Ark.next_message env c attester message fuel (suc (suc rounds)) a).1 in
      let host_end = (host_session (to_ark m ∷ ts) h).1 in
      let ark_end = (ark_session (to_ark m ∷ ts) a).1 in
      let host_first = (handshake-Appends env c sink fuel verifier).moves h in
      let host_others =
        host_run-Continues env c attester verifier message limit sink fuel (suc rounds)
          (to_ark m ∷ ts) p.1 in
      let ark_first = turn-Continues env c attester sink message fuel (suc (suc rounds)) a in
      let ark_others =
        Continues-trans (wrote (joined a)) (wrote a1) (wrote ark_end)
          (resume-Continues env c attester sink message fuel (suc rounds)
            (message_turn env c attester message fuel (suc (suc rounds)) a))
          (ark_run-Continues env c attester verifier message limit sink fuel (suc rounds) ts a1) in
      let host_parts =
        split_wrote (host_wrote h) (host_wrote p.1) (host_wrote host_end) into_ark host_first
          host_others wrote_h in
      let ark_parts =
        split_wrote (wrote a) (wrote (joined a)) (wrote ark_end) into_host ark_first ark_others
          wrote_a in
      record {
        host_first = host_first;
        host_others = host_others;
        ark_first = ark_first;
        ark_others = ark_others;
        coming_h =
            next_h
            ∙ ap (λ bs. stream_of env c stale (map byte bs ++ es_h)) ark_parts
            ∙ ap (stream_of env c stale) (split_bytes ark_first.0 ark_others.0 es_h);
        coming_a =
            next_a
            ∙ ap (λ bs. map byte bs ++ es_a) host_parts
            ∙ split_bytes host_first.0 host_others.0 es_a;
      }
