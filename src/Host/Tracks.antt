-- ===== src/Host/Tracks.antt =====
-- Any calls of the host keep its session in step with what the calls returned.
use darkbio_wire_rs.Common.{
  ℕ, ◌≡◌, refl, sym, subst, ap, ap₂, ◌∙◌, inl, inr, Option, none, some, List, [], ◌∷◌,
}
use darkbio_wire_rs.Error.{
  packet_too_large, packet_encoding_failed, packet_decoding_failed, frame_decoding_failed,
  recv_failed, terminated, encryption_failed, Outcome, ok, err, panic, exhausted,
}
use darkbio_wire_rs.Io.{Env}
use darkbio_wire_rs.Io.Laws.{MemchrLaws, Script, CobsLaws}
use darkbio_wire_rs.Crypto.{Message, Crypto}
use darkbio_wire_rs.Attestation.{Verifier}
use darkbio_wire_rs.Session.{Session, open_packet}
use darkbio_wire_rs.Session.Uses.{
  sealed, sealed-receiver, sealed-sender, sealed_all, opened, opened-sender, opened-receiver,
  opened-result, opened_all, results,
}
use darkbio_wire_rs.Framing.{Framing, next_packet}
use darkbio_wire_rs.Framing.Live.{Live, Fuelled}
use darkbio_wire_rs.Host.{HostSide, send_message, next_message, handshake}
use darkbio_wire_rs.Host.Runs.{ConcludesAt}
use darkbio_wire_rs.Host.Established.{Establishes, handshake-Establishes}
use darkbio_wire_rs.Host.Sends.{Leaves, send_message-Leaves}
use darkbio_wire_rs.Host.Receives.{GoesOn, Receives, next_message-Receives}
use darkbio_wire_rs.Host.Kept.{send_message-Survives, next_message-Survives, handshake-Survives}
use darkbio_wire_rs.Host.History.{
  Use, connect, send, fetch, Log, fresh, note_sent, note_got, step, run, Since, Tracks,
}

module _ {R W : Type 0} (env : Env R W) (c : Crypto) {Info : Type 0}
    (verifier : Verifier c.VerifyingKey Info) (limit : ℕ) {M : Type 0} (message : Message M) where
  abbrev HostTracks : Option (Session c) → Log M → Type 0
  HostTracks = Tracks env c verifier limit message

  abbrev HostSince : Log M → Session c → Type 0
  HostSince = Since env c verifier limit message

  from_none : (o : Option (Session c)) (log : Log M) → o ≡ none → HostTracks o log
  from_none o log e = subst (λ o'. HostTracks o' log) (sym e) tt

  connected-Tracks :
      (r : Outcome Info) (h : HostSide R W c)
      → ConcludesAt env (Establishes env c verifier) r h
      → HostTracks h.session fresh
  unfolding sealed_all opened_all results
  connected-Tracks (ok info) h (s, e, made) =
      subst (λ o. HostTracks o fresh) (sym e)
        (record {
          info = info;
          start = s;
          established = made;
          packets = [];
          sender_moved = refl;
          receiver_moved = refl;
          same_results = refl;
        })
  connected-Tracks (err x) h e = from_none h.session fresh e
  connected-Tracks panic h e = from_none h.session fresh e
  connected-Tracks exhausted h e = from_none h.session fresh e

  sent-Since :
      (msg : M) (scratch : List ℕ) (log : Log M) (s : Session c)
      → HostSince log s
      → HostSince (record log { sent = msg ∷ log.sent }) (sealed c limit message msg scratch s)
  unfolding sealed_all
  sent-Since msg scratch log s t = record {
    info = t.info;
    start = t.start;
    established = t.established;
    packets = t.packets;
    sender_moved =
        sealed-sender c limit message msg scratch [] s (sealed_all c limit message log.sent t.start)
          t.sender_moved;
    receiver_moved = sealed-receiver c limit message msg scratch s ∙ t.receiver_moved;
    same_results = t.same_results;
  }

  got-Since :
      (packet : List ℕ) (r : Outcome M) (log : Log M) (s : Session c)
      → (open_packet c message packet s).0 ≡ r
      → HostSince log s
      → HostSince (record log { got = r ∷ log.got }) (opened c message packet s)
  unfolding opened_all results
  got-Since packet r log s e t = record {
    info = t.info;
    start = t.start;
    established = t.established;
    packets = packet ∷ t.packets;
    sender_moved = opened-sender c message packet s ∙ t.sender_moved;
    receiver_moved =
        opened-receiver c message packet s (opened_all c message t.packets t.start)
          t.receiver_moved;
    same_results =
        ap₂ (λ x xs. x ∷ xs)
          (sym (
              opened-result c message packet s (opened_all c message t.packets t.start)
                t.receiver_moved)
            ∙ e)
          t.same_results;
  }

  kept-Tracks :
      (h h' : HostSide R W c) (log : Log M)
      → h'.session ≡ h.session
      → HostTracks h.session log
      → HostTracks h'.session log
  kept-Tracks h h' log e t = subst (λ o. HostTracks o log) (sym e) t

  active-Since :
      (h : HostSide R W c) (log : Log M) (s : Session c)
      → h.session ≡ some s
      → HostTracks h.session log
      → HostSince log s
  active-Since h log s e t = subst (λ o. HostTracks o log) e t

  sent-Tracks :
      (msg : M) (r : Outcome (Unit {0})) (h h' : HostSide R W c) (log : Log M)
      → Leaves env c message limit msg h r h'
      → HostTracks h.session log
      → HostTracks h'.session (note_sent msg r log)
  unfolding note_sent
  sent-Tracks msg (ok u) h h' log l t =
      subst (λ o. HostTracks o (record log { sent = msg ∷ log.sent })) (sym l.is_active)
        (sent-Since msg h.framing.encode_buffer log l.session
          (active-Since h log l.session l.was_active t))
  sent-Tracks msg (err (packet_too_large n)) h h' log l t =
      kept-Tracks h h' log (ap (λ x. x.session) l.2) t
  sent-Tracks msg (err (packet_encoding_failed x)) h h' log l t = kept-Tracks h h' log l.0 t
  sent-Tracks msg panic h h' log l t = absurd l
  sent-Tracks msg exhausted h h' log l t = absurd l
  sent-Tracks msg (err x) h h' log l t = from_none h'.session log l.0

  module _ (fuel : ℕ) (script : Script env.reader) (cobs : CobsLaws env.cobs)
      (laws : MemchrLaws env.memchr) (k : ℕ) (enough : Fuelled env script fuel k) where
    abbrev after : Use M → HostSide R W c × Log M → HostSide R W c × Log M
    after = step env c verifier limit message fuel

    abbrev after_all : List (Use M) → HostSide R W c × Log M → HostSide R W c × Log M
    after_all = run env c verifier limit message fuel

    GoesOn-Tracks :
        (read : Outcome (Option ℕ) × Framing R W) (r : Outcome M) (h h' : HostSide R W c)
        (log : Log M)
        → GoesOn env c script cobs laws message h read r h'
        → HostTracks h.session log
        → HostTracks h'.session (record log { got = r ∷ log.got })
    GoesOn-Tracks read r h h' log l t =
        subst (λ o. HostTracks o (record log { got = r ∷ log.got })) (sym l.is_active)
          (got-Since l.opens.packet r log l.opens.session l.opens.opened
            (active-Since h log l.opens.session l.opens.was_active t))

    got-Tracks :
        (read : Outcome (Option ℕ) × Framing R W) (r : Outcome M) (h h' : HostSide R W c)
        (log : Log M)
        → Receives env c script cobs laws message h read r h'
        → HostTracks h.session log
        → HostTracks h'.session (note_got r log)
    unfolding note_got
    got-Tracks read (ok msg) h h' log l t = GoesOn-Tracks read (ok msg) h h' log l t
    got-Tracks read (err (packet_decoding_failed e)) h h' log l t =
        GoesOn-Tracks read (err (packet_decoding_failed e)) h h' log l t
    got-Tracks read (err (frame_decoding_failed e)) h h' log (inr n) t =
        from_none h'.session log n.1
    got-Tracks read (err (frame_decoding_failed e)) h h' log (inl (x, y, same)) t =
        kept-Tracks h h' log same t
    got-Tracks read (err (recv_failed x)) h h' log l t = from_none h'.session log l.1
    got-Tracks read (err terminated) h h' log l t = from_none h'.session log l.1
    got-Tracks read (err (encryption_failed x)) h h' log l t = from_none h'.session log l.0
    got-Tracks read r h h' log l t = absurd l

    -- The framer goes on, and the session is as the log says.
    pub record Keeps (x : HostSide R W c × Log M) : Type 0 where
      pub live : Live env script k x.0.framing
      pub tracks : HostTracks x.0.session x.1

    step-Keeps :
        (u : Use M) (h : HostSide R W c) (log : Log M) → Keeps (h, log) → Keeps (after u (h, log))
    unfolding step
    step-Keeps connect h log x = record {
      live = (handshake-Survives env c script cobs k laws verifier fuel enough).moves h x.live;
      tracks =
          let p = handshake env c fuel verifier h in
          connected-Tracks p.0 p.1 (handshake-Establishes env c fuel verifier h);
    }
    step-Keeps (send msg) h log x = record {
      live = (send_message-Survives env c script cobs k message limit msg).moves h x.live;
      tracks =
          let p = send_message env c limit message msg h in
          sent-Tracks msg p.0 h p.1 log
            (send_message-Leaves env c message limit msg h cobs x.live.valid) x.tracks;
    }
    step-Keeps fetch h log x = record {
      live = (next_message-Survives env c script cobs k message laws fuel enough).moves h x.live;
      tracks =
          let p = next_message env c message fuel h in
          got-Tracks (next_packet env fuel h.framing) p.0 h p.1 log
            (next_message-Receives env c script cobs laws message h fuel k enough x.live) x.tracks;
    }

    run-Keeps : (us : List (Use M)) (x : HostSide R W c × Log M) → Keeps x → Keeps (after_all us x)
    unfolding run
    run-Keeps [] x held = held
    run-Keeps (u ∷ us) (h, log) held = run-Keeps us (after u (h, log)) (step-Keeps u h log held)

    -- Any calls of the host, in any order, from a state without a session and with a valid framer, at
    -- `k` events to come: afterwards the framer is valid again, and there is no session, or one that
    -- a handshake established, with the messages sent since sealed in it and the results returned
    -- since opened in it, each exactly once and in that order: its sender is the first one advanced
    -- by the messages whose call returned without an error, and its receiver the first one advanced
    -- by packets whose results are those that the calls returned.
    pub run-Tracks :
        (us : List (Use M)) (h : HostSide R W c)
        → Live env script k h.framing
        → h.session ≡ none
        → Keeps (after_all us (h, fresh))
    run-Tracks us h live e =
        run-Keeps us (h, fresh) (record { live = live; tracks = from_none h.session fresh e })
