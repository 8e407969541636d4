-- ===== src/Host/Stale.antt =====
-- The host's handshake behind more stale packets than it skips.
use darkbio_wire_rs.Common.{
  ℕ, zero, suc, ◌≤◌, ◌≡◌, refl, sym, subst, ◌∙◌, none, some, List, [], ◌∷◌, map, length,
  length-append, false, arith,
}
use darkbio_wire_rs.Common.Slices.{slice?}
use darkbio_wire_rs.Error.{Outcome, value, ok, err, handshake_failed, Error, and_then}
use darkbio_wire_rs.Io.{Env}
use darkbio_wire_rs.Io.Laws.{Event, byte, MemchrLaws, Script, CobsLaws, Sink}
use darkbio_wire_rs.Crypto.{Crypto}
use darkbio_wire_rs.Attestation.{Verifier}
use darkbio_wire_rs.Framing
use darkbio_wire_rs.Framing.{Framing}
use darkbio_wire_rs.Framing.Inv.{IsValid, rest}
use darkbio_wire_rs.Framing.Read.{IsEnough, IsEnough-mono}
use darkbio_wire_rs.Framing.Send.{packet_wire}
use darkbio_wire_rs.Framing.Arrive.{next_packet-Arrives}
use darkbio_wire_rs.Host.{HostSide, is_for, skip_stale, handshake, max_stale_frames}
use darkbio_wire_rs.Host.Tail.{draw_keys, shown, settle}
use darkbio_wire_rs.Host.Honest.{Sent, AllStale, stream_of, skip_stale-skips}
use darkbio_wire_rs.Host.Opening.{waiting, handshake-IsOpened}
use darkbio_wire_rs.Host.Runs.{ConcludesAt}
use darkbio_wire_rs.Host.Established.{Establishes, handshake-Establishes}

abbrev pub too_many : Error
too_many = handshake_failed "too many stale frames before ark hello"

module _ {R W : Type 0} (env : Env R W) (c : Crypto) where
  skip_stale-stops :
      (fuel : ℕ) (fp : c.Fingerprint) (packet : List ℕ) (h : HostSide R W c)
      → (Framing.next_packet env fuel h.framing).0 ≡ ok (some (length packet))
      → slice? (Framing.next_packet env fuel h.framing).1.decobs_buffer 0 (length packet)
        ≡ some packet
      → is_for env c fp (c.recipient packet) ≡ false
      → skip_stale env c fuel fp 0 h
        ≡ (err too_many, record h { framing = (Framing.next_packet env fuel h.framing).1 })
  unfolding skip_stale
  skip_stale-stops fuel fp packet h received bytes other = rw (received, bytes, other)

  module _ (script : Script env.reader) where
    -- The search ends with that error, behind the packets.
    pub record GivesUp {T : Type 0} (es : List Event) (p : Outcome T × HostSide R W c)
        : Type 0 where
      pub failed : p.0 ≡ err too_many
      pub left_over : rest env script p.1.framing ≡ es
      pub valid : IsValid env.frame_limit p.1.framing

    module _ (cobs : CobsLaws env.cobs) (laws : MemchrLaws env.memchr) (fuel : ℕ) where
      skip_stale-GivesUp :
          (more : ℕ) (fp : c.Fingerprint) (stale : List (Sent env c)) (es : List Event)
          (h : HostSide R W c)
          → length stale ≡ suc more
          → AllStale env c fp stale
          → IsValid env.frame_limit h.framing
          → IsEnough env script fuel (rest env script h.framing)
          → rest env script h.framing ≡ stream_of env c stale es
          → GivesUp es (skip_stale env c fuel fp more h)
      skip_stale-GivesUp more fp [] es h many old v enough next = absurd (omega arith)
      skip_stale-GivesUp zero fp ((p, b) ∷ []) es h many old v enough next =
          let a =
            next_packet-Arrives env cobs script laws fuel p b es h.framing old.0.0 old.0.1 v enough
              next in
          subst (GivesUp es) (sym (skip_stale-stops fuel fp p h a.received a.bytes old.0.2))
            (record { failed = refl; left_over = a.left_over; valid = a.valid })
      skip_stale-GivesUp zero fp (s ∷ (t ∷ ss)) es h many old v enough next = absurd (omega arith)
      skip_stale-GivesUp (suc more) fp ((p, b) ∷ ss) es h many old v enough next =
          let later = stream_of env c ss es in
          let a =
            next_packet-Arrives env cobs script laws fuel p b later h.framing old.0.0 old.0.1 v
              enough next in
          let st = (Framing.next_packet env fuel h.framing).1 in
          subst (GivesUp es)
            (sym (skip_stale-skips env c fuel more fp p h a.received a.bytes old.0.2))
            (skip_stale-GivesUp more fp ss es (record h { framing = st }) (omega arith) old.1
              a.valid
              (IsEnough-mono env script fuel (rest env script h.framing) (rest env script st)
                (rw (a.left_over, next)
                  (omega (arith, length-append (map byte (packet_wire env p b)) later)))
                enough)
              a.left_over)

      module _ (sink : Sink env.writer) {Info : Type 0}
          (verifier : Verifier c.VerifyingKey Info) where
        failed-GivesUp :
            {T U : Type 0} (k : T → HostSide R W c → Outcome U × HostSide R W c) (es : List Event)
            (p : Outcome T × HostSide R W c)
            → GivesUp es p
            → GivesUp es (and_then k p)
        failed-GivesUp k es p g =
            subst (λ r. GivesUp es (and_then k (r, p.1))) (sym g.failed)
              (record { failed = refl; left_over = g.left_over; valid = g.valid })

        no_session_left :
            (p : Outcome Info × HostSide R W c)
            → p.0 ≡ err too_many
            → ConcludesAt env (Establishes env c verifier) p.0 p.1
            → p.1.session ≡ none
        no_session_left p e x = subst (λ r. ConcludesAt env (Establishes env c verifier) r p.1) e x

        -- A handshake of the host in whose way are 33 packets that are not for its fresh key, one
        -- more than it skips, fails with that error, whatever comes behind them: it leaves no
        -- session, and the next call reads what comes behind them. Its hello is encoded and fits a
        -- frame, and the framer is valid, then and afterwards.
        pub handshake-GivesUp :
            (hello : List ℕ) (stale : List (Sent env c)) (es : List Event) (h : HostSide R W c)
            → c.encode_host_hello (record {
              host_signer = (shown c (draw_keys c h.rng)).host_signer;
              host_crypto = (shown c (draw_keys c h.rng)).host_crypto;
            })
              ≡ value hello
            → env.cobs.encode_buffer (length hello) ≤ env.frame_limit
            → length stale ≡ suc max_stale_frames
            → AllStale env c (c.fingerprint (c.public_key (draw_keys c h.rng).secret)) stale
            → IsValid env.frame_limit h.framing
            → IsEnough env script fuel (rest env script h.framing)
            → rest env script h.framing ≡ stream_of env c stale es
            → GivesUp es (handshake env c fuel verifier h)
              × ((handshake env c fuel verifier h).1.session ≡ none)
        handshake-GivesUp hello stale es h encoded fits many old v enough next =
            let opened =
              handshake-IsOpened env c cobs script sink fuel verifier hello h encoded fits v in
            let fp = c.fingerprint (c.public_key (draw_keys c h.rng).secret) in
            let w = waiting env c hello h in
            let found =
              skip_stale-GivesUp max_stale_frames fp stale es w many old opened.valid
                (subst (IsEnough env script fuel) (sym opened.same_rest) enough)
                (opened.same_rest ∙ next) in
            let gives = subst (GivesUp es) (sym opened.goes_on) (
              failed-GivesUp (settle env c fuel verifier (draw_keys c h.rng)) es
                (skip_stale env c fuel fp max_stale_frames w) found) in
            (
              gives,
              no_session_left (handshake env c fuel verifier h) gives.failed
                  (handshake-Establishes env c fuel verifier h),
            )
