-- ===== src/Ark/History.antt =====
-- A run of calls of the Ark, and what passed through its session since the last reset.
use darkbio_wire_rs.Common.{ℕ, ◌<◌, ◌≡◌, sym, subst, ◌∙◌, Option, none, List, [], ◌∷◌}
use darkbio_wire_rs.Error.{
  packet_too_large, packet_encoding_failed, Outcome, ok, err, panic, exhausted,
}
use darkbio_wire_rs.Io.{Env}
use darkbio_wire_rs.Io.Laws.{MemchrLaws, Script, CobsLaws}
use darkbio_wire_rs.Crypto.{Message, Crypto}
use darkbio_wire_rs.Attestation.{Attester}
use darkbio_wire_rs.Session.{Session}
use darkbio_wire_rs.Session.Uses.{sealed, sealed-receiver, sealed-sender, sealed_all}
use darkbio_wire_rs.Framing.Live.{Live, Fuelled}
use darkbio_wire_rs.Host.History.{Log, fresh, note_sent, note_got}
use darkbio_wire_rs.Ark.{ArkSide, send_message, next_message}
use darkbio_wire_rs.Ark.Portions.{Use, send, fetch}
use darkbio_wire_rs.Ark.Sends.{Remains, send_message-Remains}
use darkbio_wire_rs.Ark.Loop.{next_message-LoopEnds}
use darkbio_wire_rs.Ark.Kept.{send_message-Survives}
use darkbio_wire_rs.Ark.Resets.{since, resets}
use darkbio_wire_rs.Ark.Tracks.{Since, Tracks, Holds, next_message-Holds}

module _ {R W A : Type 0} (env : Env R W) (c : Crypto) (attester : Attester A) (limit : ℕ)
    {M : Type 0} (message : Message M) (fuel rounds : ℕ) where
  -- The call and its result in the log, which a call that took a reset clears.
  unfoldable pub step : Use M → ArkSide R W A c × Log M → ArkSide R W A c × Log M
  step (send msg) (a, log) =
      let (r, a') = send_message env c attester limit message msg a in (a', note_sent msg r log)
  step fetch (a, log) =
      let (r, a') = next_message env c attester message fuel rounds a in
      (a', note_got r (since (resets env c attester message fuel rounds a) log))

  unfoldable pub run : List (Use M) → ArkSide R W A c × Log M → ArkSide R W A c × Log M
  run [] x = x
  run (u ∷ us) x = run us (step u x)

  module _ (key : c.SigningKey) where
    abbrev ArkTracks : Option (Session c) → Log M → Type 0
    ArkTracks = Tracks env c attester key limit message

    sealed-Since :
        (msg : M) (scratch : List ℕ) (log : Log M) (s : Session c)
        → Since env c attester key limit message log s
        → Since env c attester key limit message
            (record log { sent = msg ∷ log.sent })
            (sealed c limit message msg scratch s)
    unfolding sealed_all
    sealed-Since msg scratch log s t = record {
      start = t.start;
      made = t.made;
      packets = t.packets;
      sender_moved =
          sealed-sender c limit message msg scratch [] s
            (sealed_all c limit message log.sent t.start) t.sender_moved;
      receiver_moved = sealed-receiver c limit message msg scratch s ∙ t.receiver_moved;
      same_results = t.same_results;
    }

    sent-Tracks :
        (msg : M) (r : Outcome (Unit {0})) (a a' : ArkSide R W A c) (log : Log M)
        → Remains env c attester message limit msg a r a'
        → ArkTracks a.session log
        → ArkTracks a'.session (note_sent msg r log)
    unfolding note_sent
    sent-Tracks msg (ok u) a a' log l t =
        subst (λ o. ArkTracks o (record log { sent = msg ∷ log.sent })) (sym l.is_active)
          (sealed-Since msg a.framing.encode_buffer log l.session
            (subst (λ o. ArkTracks o log) l.was_active t))
    sent-Tracks msg (err (packet_too_large n)) a a' log l t =
        subst (λ b. ArkTracks b.session log) (sym l.2) t
    sent-Tracks msg (err (packet_encoding_failed x)) a a' log l t =
        subst (λ o. ArkTracks o log) (sym l.0) t
    sent-Tracks msg panic a a' log l t = absurd l
    sent-Tracks msg exhausted a a' log l t = absurd l
    sent-Tracks msg (err x) a a' log l t = subst (λ o. ArkTracks o log) (sym l.0) tt

    module _ (script : Script env.reader) (cobs : CobsLaws env.cobs) (laws : MemchrLaws env.memchr)
        (k : ℕ) (enough : Fuelled env script fuel k) (more : k < rounds) where
      -- The framer goes on, with the identity key and the session as the log says.
      pub record Follows (x : ArkSide R W A c × Log M) : Type 0 where
        pub live : Live env script k x.0.framing
        pub holds : Holds env c attester key limit message x.0 x.1

      step-Follows :
          (u : Use M) (a : ArkSide R W A c) (log : Log M)
          → Follows (a, log)
          → Follows (step u (a, log))
      unfolding step
      step-Follows (send msg) a log x =
          let p = send_message env c attester limit message msg a in
          let kept =
            (send_message-Survives env c attester script cobs k message limit msg).moves a in
          record {
            live = kept.0 x.live;
            holds = record {
              signs = kept.1 ∙ x.holds.signs;
              tracks =
                  sent-Tracks msg p.0 a p.1 log
                    (send_message-Remains env c attester message limit msg a cobs x.live.valid)
                    x.holds.tracks;
            };
          }
      step-Follows fetch a log x = record {
        live =
            (next_message-LoopEnds env c attester script cobs laws message fuel rounds k a enough
              more x.live).1;
        holds = next_message-Holds env c attester key limit message fuel rounds a log x.holds;
      }

      run-moves : (us : List (Use M)) (x : ArkSide R W A c × Log M) → Follows x → Follows (run us x)
      unfolding run
      run-moves [] x held = held
      run-moves (u ∷ us) (a, log) held = run-moves us (step u (a, log)) (step-Follows u a log held)

      -- Any messages sent and fetched by an Ark, in any order, from a state without a session and
      -- with a valid framer, at `k` events to come and with enough fuel and rounds: afterwards the
      -- framer is valid, the identity key is the same, and there is no session, or one that a
      -- handshake with that key made: it has read a hello, answered it, and opened the ack of the
      -- signer of that hello. Since the last fetch that took a reset, and with the result of that
      -- fetch, the sender is the first one advanced by exactly the messages sent without an error,
      -- and the receiver the first one advanced by packets whose results are exactly the messages
      -- and decode failures that the calls returned, each once and in that order.
      pub run-Follows :
          (us : List (Use M)) (a : ArkSide R W A c)
          → a.signer ≡ key
          → Live env script k a.framing
          → a.session ≡ none
          → Follows (run us (a, fresh))
      run-Follows us a same live e =
          run-moves us (a, fresh)
            (record {
              live = live;
              holds = record { signs = same; tracks = subst (λ o. ArkTracks o fresh) (sym e) tt };
            })
