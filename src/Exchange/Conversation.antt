-- ===== src/Exchange/Conversation.antt =====
-- A conversation of the two sides in one session: messages both ways, in any order.
use darkbio_wire_rs.Common.{
  ℕ, suc, ◌≤◌, ◌≡◌, refl, ap, ap₂, sym, subst, ◌∙◌, List, [], ◌∷◌, ◌++◌, map, length-append, arith,
  append-nil,
}
use darkbio_wire_rs.Error.{Outcome}
use darkbio_wire_rs.Io.{Env}
use darkbio_wire_rs.Io.Laws.{Event, byte, MemchrLaws, Script, CobsLaws, Sink}
use darkbio_wire_rs.Limits.{framed}
use darkbio_wire_rs.Crypto.{Message, Crypto}
use darkbio_wire_rs.Attestation.{Attester, Verifier}
use darkbio_wire_rs.Session.Laws.{Secure, Codec}
use darkbio_wire_rs.Framing.Inv.{rest}
use darkbio_wire_rs.Framing.Read.{IsEnough, IsEnough-mono}
use darkbio_wire_rs.Host
use darkbio_wire_rs.Host.{HostSide}
use darkbio_wire_rs.Ark
use darkbio_wire_rs.Ark.{ArkSide}
use darkbio_wire_rs.Exchange.{IsLinked}
use darkbio_wire_rs.Exchange.Travel.{append_cancel, split_bytes, split_wrote}
use darkbio_wire_rs.Exchange.Runs.{host_run-Continues, ark_run-Continues}
use darkbio_wire_rs.Exchange.Talk.{
  Talk, to_ark, to_host, ark_budget, host_budget, host_calls, ark_calls, host_results, ark_results,
  AllFit,
}
use darkbio_wire_rs.Exchange.ToArk.{host_to_ark}
use darkbio_wire_rs.Exchange.ToHost.{ark_to_host}

module _ {R W A : Type 0} (env : Env R W) {c : Crypto} (attester : Attester A) (secure : Secure c)
    {Info : Type 0} (verifier : Verifier c.VerifyingKey Info) {M : Type 0} (message : Message M)
    (codec : Codec message) (limit : ℕ)
    (room : (n : ℕ) → n ≤ limit → framed env.cobs.encode_buffer n ≤ env.frame_limit)
    (cobs : CobsLaws env.cobs) (script : Script env.reader) (laws : MemchrLaws env.memchr)
    (sink : Sink env.writer) (fuel rounds : ℕ) where
  abbrev host_run :
      List (Talk M) → HostSide R W c → List (Host.Portions.Answer Info M) × HostSide R W c
  host_run ts = Host.Portions.answers env c verifier limit message fuel (host_calls ts)

  abbrev ark_run : List (Talk M) → ArkSide R W A c → List (Ark.Portions.Reply M) × ArkSide R W A c
  ark_run ts = Ark.Portions.replies env c attester limit message fuel (suc rounds) (ark_calls ts)

  abbrev host_wrote : HostSide R W c → List ℕ
  host_wrote h = sink.written h.framing.writer

  abbrev ark_wrote : ArkSide R W A c → List ℕ
  ark_wrote a = sink.written a.framing.writer

  -- Both sides have got the results, the session goes on, and the streams go on.
  pub record Converses (ts : List (Talk M)) (k n : ℕ) (es_h es_a : List Event)
      (p : List (Host.Portions.Answer Info M) × HostSide R W c)
      (q : List (Ark.Portions.Reply M) × ArkSide R W A c) : Type 0 where
    pub host_returned : p.0 ≡ host_results ts
    pub ark_returned : q.0 ≡ ark_results ts
    pub linked : IsLinked env secure k n p.1 q.1
    pub host_left_over : rest env script p.1.framing ≡ es_h
    pub ark_left_over : rest env script q.1.framing ≡ es_a

  -- The fuel is enough for what comes behind some bytes.
  pub later-IsEnough :
      (bytes : List ℕ) (es later : List Event)
      → es ≡ map byte bytes ++ later
      → IsEnough env script fuel es
      → IsEnough env script fuel later
  later-IsEnough bytes es later e enough =
      IsEnough-mono env script fuel es later
        (rw e (omega (arith, length-append (map byte bytes) later))) enough

  -- The conversation goes on like that from any two linked sides.
  abbrev pub GoesOn : List (Talk M) → Type 0
  GoesOn ts =
      (k n : ℕ) (into_ark into_host : List ℕ) (es_h es_a : List Event) (h : HostSide R W c)
      (a : ArkSide R W A c)
      → AllFit message limit ts
      → IsLinked env secure (ark_budget ts k) (host_budget ts n) h a
      → host_wrote (host_run ts h).1 ≡ host_wrote h ++ into_ark
      → ark_wrote (ark_run ts a).1 ≡ ark_wrote a ++ into_host
      → IsEnough env script fuel (rest env script h.framing)
      → IsEnough env script fuel (rest env script a.framing)
      → rest env script h.framing ≡ map byte into_host ++ es_h
      → rest env script a.framing ≡ map byte into_ark ++ es_a
      → Converses ts k n es_h es_a (host_run ts h) (ark_run ts a)

  -- The Ark's further calls, after one that returned a message.
  abbrev pub ark_after :
      List (Talk M) → Outcome M × ArkSide R W A c → List (Ark.Portions.Reply M) × ArkSide R W A c
  ark_after ts q = (Ark.Portions.fetched q.0 ∷ (ark_run ts q.1).0, (ark_run ts q.1).1)

  -- A message to the Ark, in a call with rounds of its own, and the conversation behind it.
  pub asks-Converses :
      (r : ℕ) (m : M) (ts : List (Talk M)) (k n : ℕ) (into_ark into_host : List ℕ)
      (es_h es_a : List Event) (h : HostSide R W c) (a : ArkSide R W A c)
      → GoesOn ts
      → AllFit message limit (to_ark m ∷ ts)
      → IsLinked env secure (ark_budget (to_ark m ∷ ts) k) (host_budget (to_ark m ∷ ts) n) h a
      → host_wrote (host_run (to_ark m ∷ ts) h).1 ≡ host_wrote h ++ into_ark
      → ark_wrote (ark_after ts (Ark.next_message env c attester message fuel (suc r) a)).1
        ≡ ark_wrote a ++ into_host
      → IsEnough env script fuel (rest env script h.framing)
      → IsEnough env script fuel (rest env script a.framing)
      → rest env script h.framing ≡ map byte into_host ++ es_h
      → rest env script a.framing ≡ map byte into_ark ++ es_a
      → Converses
          (to_ark m ∷ ts)
          k
          n
          es_h
          es_a
          (host_run (to_ark m ∷ ts) h)
          (ark_after ts (Ark.next_message env c attester message fuel (suc r) a))
  unfolding host_calls ark_calls host_results ark_results ark_budget host_budget
      Host.Portions.answers Host.Portions.answer Ark.Portions.replies Ark.Portions.reply
  asks-Converses r m ts k n into_ark into_host es_h es_a h a continued (small, fit) link wrote_h
        wrote_a fuel_h fuel_a next_h next_a =
      let p = Host.send_message env c limit message m h in
      let q = Ark.next_message env c attester message fuel (suc r) a in
      let first = (Host.Writes.send_message-Appends env c sink message limit m).moves h in
      let others =
        host_run-Continues env c attester verifier message limit sink fuel rounds ts p.1 in
      let parts =
        split_wrote (host_wrote h) (host_wrote p.1) (host_wrote (host_run ts p.1).1) into_ark first
          others wrote_h in
      let later = map byte others.0 ++ es_a in
      let coming =
        next_a ∙ ap (λ bs. map byte bs ++ es_a) parts ∙ split_bytes first.0 others.0 es_a in
      let x =
        host_to_ark env attester secure message codec limit cobs script laws sink (ark_budget ts k)
          (host_budget ts n) fuel r m first.0 later h a small (room (message.encoded_len m) small)
          link first.1 fuel_a coming in
      let y =
        continued k n others.0 into_host es_h es_a p.1 q.1 fit x.linked others.1
          (wrote_a ∙ ap (λ w. sink.written w ++ into_host) (sym x.unwritten))
          (subst (IsEnough env script fuel) (sym x.unread) fuel_h)
          (subst (IsEnough env script fuel) (sym x.left_over)
            (later-IsEnough first.0 (rest env script a.framing) later coming fuel_a))
          (x.unread ∙ next_h) x.left_over in
      record {
        host_returned = ap₂ (λ r rs. Host.Portions.delivered r ∷ rs) x.delivered y.host_returned;
        ark_returned = ap₂ (λ r rs. Ark.Portions.fetched r ∷ rs) x.received y.ark_returned;
        linked = y.linked;
        host_left_over = y.host_left_over;
        ark_left_over = y.ark_left_over;
      }

  -- In a linked session, with as many messages left as the conversation takes, the two sides make
  -- the calls of a conversation, in which each message is within the limit, and of a limit within
  -- which every message fits a frame. If the bytes that each side writes in all come next in the
  -- other's stream, in any portions, then every message is sent without an error and returned to the
  -- other side as it is, in order. The two sides are linked again, and what comes behind the
  -- conversation on the two streams is left over.
  pub converse :
      (ts : List (Talk M)) (k n : ℕ) (into_ark into_host : List ℕ) (es_h es_a : List Event)
      (h : HostSide R W c) (a : ArkSide R W A c)
      → AllFit message limit ts
      → IsLinked env secure (ark_budget ts k) (host_budget ts n) h a
      → host_wrote (host_run ts h).1 ≡ host_wrote h ++ into_ark
      → ark_wrote (ark_run ts a).1 ≡ ark_wrote a ++ into_host
      → IsEnough env script fuel (rest env script h.framing)
      → IsEnough env script fuel (rest env script a.framing)
      → rest env script h.framing ≡ map byte into_host ++ es_h
      → rest env script a.framing ≡ map byte into_ark ++ es_a
      → Converses ts k n es_h es_a (host_run ts h) (ark_run ts a)
  unfolding host_calls ark_calls host_results ark_results ark_budget host_budget
      Host.Portions.answers Host.Portions.answer Ark.Portions.replies Ark.Portions.reply
  converse [] k n into_ark into_host es_h es_a h a fit link wrote_h wrote_a fuel_h fuel_a next_h
        next_a =
      record {
        host_returned = refl;
        ark_returned = refl;
        linked = link;
        host_left_over =
            next_h
            ∙ ap (λ bs. map byte bs ++ es_h)
                (append_cancel (ark_wrote a) into_host []
                  (sym wrote_a ∙ sym (append-nil (ark_wrote a))));
        ark_left_over =
            next_a
            ∙ ap (λ bs. map byte bs ++ es_a)
                (append_cancel (host_wrote h) into_ark []
                  (sym wrote_h ∙ sym (append-nil (host_wrote h))));
      }
  converse (to_ark m ∷ ts) k n into_ark into_host es_h es_a h a fit link wrote_h wrote_a fuel_h
        fuel_a next_h next_a =
      asks-Converses rounds m ts k n into_ark into_host es_h es_a h a (converse ts) fit link wrote_h
        wrote_a fuel_h fuel_a next_h next_a
  converse (to_host m ∷ ts) k n into_ark into_host es_h es_a h a (small, fit) link wrote_h wrote_a
        fuel_h fuel_a next_h next_a =
      let p = Host.next_message env c message fuel h in
      let q = Ark.send_message env c attester limit message m a in
      let first = (Ark.Writes.send_message-Appends env c attester sink message limit m).moves a in
      let others =
        ark_run-Continues env c attester verifier message limit sink fuel rounds ts q.1 in
      let parts =
        split_wrote (ark_wrote a) (ark_wrote q.1) (ark_wrote (ark_run ts q.1).1) into_host first
          others wrote_a in
      let later = map byte others.0 ++ es_h in
      let coming =
        next_h ∙ ap (λ bs. map byte bs ++ es_h) parts ∙ split_bytes first.0 others.0 es_h in
      let x =
        ark_to_host env attester secure message codec limit cobs script laws sink (ark_budget ts k)
          (host_budget ts n) fuel m first.0 later h a small (room (message.encoded_len m) small)
          link first.1 fuel_h coming in
      let y =
        converse ts k n into_ark others.0 es_h es_a p.1 q.1 fit x.linked
          (wrote_h ∙ ap (λ w. sink.written w ++ into_ark) (sym x.unwritten)) others.1
          (subst (IsEnough env script fuel) (sym x.left_over)
            (later-IsEnough first.0 (rest env script h.framing) later coming fuel_h))
          (subst (IsEnough env script fuel) (sym x.unread) fuel_a) x.left_over
          (x.unread ∙ next_a) in
      record {
        host_returned = ap₂ (λ r rs. Host.Portions.fetched r ∷ rs) x.received y.host_returned;
        ark_returned = ap₂ (λ r rs. Ark.Portions.delivered r ∷ rs) x.delivered y.ark_returned;
        linked = y.linked;
        host_left_over = y.host_left_over;
        ark_left_over = y.ark_left_over;
      }
