-- ===== src/Exchange/Runs.antt =====
-- What the two sides write in the calls of a conversation: they only ever append.
use darkbio_wire_rs.Common.{ℕ, suc, List, [], ◌∷◌}
use darkbio_wire_rs.Io.{Env}
use darkbio_wire_rs.Io.Laws.{Sink}
use darkbio_wire_rs.Crypto.{Message, Crypto}
use darkbio_wire_rs.Attestation.{Attester, Verifier}
use darkbio_wire_rs.Framing.Appends.{Continues, Continues-refl, Continues-trans}
use darkbio_wire_rs.Host
use darkbio_wire_rs.Host.{HostSide}
use darkbio_wire_rs.Ark
use darkbio_wire_rs.Ark.{ArkSide}
use darkbio_wire_rs.Exchange.Talk.{Talk, to_ark, to_host, host_calls, ark_calls}

module _ {R W A : Type 0} (env : Env R W) (c : Crypto) (attester : Attester A) {Info : Type 0}
    (verifier : Verifier c.VerifyingKey Info) {M : Type 0} (message : Message M) (limit : ℕ)
    (sink : Sink env.writer) (fuel rounds : ℕ) where
  abbrev pub host_run :
      List (Talk M) → HostSide R W c → List (Host.Portions.Answer Info M) × HostSide R W c
  host_run ts = Host.Portions.answers env c verifier limit message fuel (host_calls ts)

  abbrev pub ark_run :
      List (Talk M) → ArkSide R W A c → List (Ark.Portions.Reply M) × ArkSide R W A c
  ark_run ts = Ark.Portions.replies env c attester limit message fuel (suc rounds) (ark_calls ts)

  abbrev pub host_wrote : HostSide R W c → List ℕ
  host_wrote h = sink.written h.framing.writer

  abbrev pub ark_wrote : ArkSide R W A c → List ℕ
  ark_wrote a = sink.written a.framing.writer

  pub host_run-Continues :
      (ts : List (Talk M)) (h : HostSide R W c)
      → Continues (host_wrote h) (host_wrote (host_run ts h).1)
  unfolding host_calls Host.Portions.answers Host.Portions.answer
  host_run-Continues [] h = Continues-refl (host_wrote h)
  host_run-Continues (to_ark m ∷ ts) h =
      let h' = (Host.send_message env c limit message m h).1 in
      Continues-trans (host_wrote h) (host_wrote h') (host_wrote (host_run ts h').1)
        ((Host.Writes.send_message-Appends env c sink message limit m).moves h)
        (host_run-Continues ts h')
  host_run-Continues (to_host m ∷ ts) h =
      let h' = (Host.next_message env c message fuel h).1 in
      Continues-trans (host_wrote h) (host_wrote h') (host_wrote (host_run ts h').1)
        ((Host.Writes.next_message-Appends env c sink message fuel).moves h)
        (host_run-Continues ts h')

  pub ark_run-Continues :
      (ts : List (Talk M)) (a : ArkSide R W A c)
      → Continues (ark_wrote a) (ark_wrote (ark_run ts a).1)
  unfolding ark_calls Ark.Portions.replies Ark.Portions.reply
  ark_run-Continues [] a = Continues-refl (ark_wrote a)
  ark_run-Continues (to_ark m ∷ ts) a =
      let a' = (Ark.next_message env c attester message fuel (suc rounds) a).1 in
      Continues-trans (ark_wrote a) (ark_wrote a') (ark_wrote (ark_run ts a').1)
        ((Ark.Writes.next_message-Appends env c attester sink message fuel (suc rounds)).moves a)
        (ark_run-Continues ts a')
  ark_run-Continues (to_host m ∷ ts) a =
      let a' = (Ark.send_message env c attester limit message m a).1 in
      Continues-trans (ark_wrote a) (ark_wrote a') (ark_wrote (ark_run ts a').1)
        ((Ark.Writes.send_message-Appends env c attester sink message limit m).moves a)
        (ark_run-Continues ts a')
