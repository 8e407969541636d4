-- ===== src/Host/Total.antt =====
-- The host's handshake comes to an end.
use darkbio_wire_rs.Common.{
  ℕ, zero, suc, ◌≤◌, Option, none, some, List, [], ◌∷◌, length, arith, Bool-cases, inl, inr, ◌==◌,
}
use darkbio_wire_rs.Common.Slices.{slice?-in}
use darkbio_wire_rs.Error.{
  handshake_failed, recv_failed, terminated, frame_decoding_failed, Outcome, ok, err, panic,
  exhausted, Op,
}
use darkbio_wire_rs.Error.Total.{
  Finishes, Total, then-Total, pure-Total, fail-Total, if-Total, elim-Total,
}
use darkbio_wire_rs.Io.{Env}
use darkbio_wire_rs.Io.Laws.{MemchrLaws, Script, CobsLaws}
use darkbio_wire_rs.Crypto.{Crypto}
use darkbio_wire_rs.Framing.{Framing, next_packet, send_packet, send_reset, write_flushed}
use darkbio_wire_rs.Framing.Inv.{IsValid, rest}
use darkbio_wire_rs.Framing.Live.{
  Live, Fuelled, PacketEnds, next_packet-PacketEnds, SendEnds, send_packet-SendEnds,
  write_flushed-SendEnds,
}
use darkbio_wire_rs.Host.{
  HostSide, on_framing, draw, packet, is_for, or_default, sized_a2h, skip_stale,
}

module _ {R W : Type 0} (env : Env R W) (c : Crypto) (script : Script env.reader)
    (cobs : CobsLaws env.cobs) (laws : MemchrLaws env.memchr) (k : ℕ) where
  -- At most `k` events to come.
  abbrev pub Alive : HostSide R W c → Type 0
  Alive h = Live env script k h.framing

  abbrev pub Settles : {T : Type 0} → Op (HostSide R W c) T → Type 0
  Settles m = Total Alive (λ t. Unit {0}) m

  pub draw-Settles : {T : Type 0} (f : c.Rng → T × c.Rng) → Settles (draw env c f)
  draw-Settles f = record { finishes = λ h e. (tt, e) }

  pub packet-Settles : (size : ℕ) → size ≤ env.frame_limit → Settles (packet env c size)
  packet-Settles size fits = record {
    finishes = λ h e.
        rw
          (slice?-in h.framing.decobs_buffer 0 size (omega arith)
            (omega (arith, e.valid.decobs_sized)))
          (tt, e);
  }

  pub sized-Settles : (encap : List ℕ) → Settles (sized_a2h env c encap)
  sized-Settles encap = elim (Bool-cases (length encap == c.encap_key_size)) [
    | inl t ↦ record { finishes = λ h e. rw (sized_a2h, t) (tt, e) }
    | inr f ↦ record { finishes = λ h e. rw (sized_a2h, f) e }
  ]

  sent-Finishes :
      (r : Outcome (Unit {0})) (st : Framing R W) (h : HostSide R W c)
      → SendEnds env script k r st
      → Finishes Alive (λ t. Unit {0}) r (record h { framing = st })
  sent-Finishes (ok u) st h e = (tt, e)
  sent-Finishes (err x) st h e = e
  sent-Finishes panic st h e = e
  sent-Finishes exhausted st h e = e

  pub send-Settles : (bytes : List ℕ) → Settles (on_framing env c (send_packet env bytes))
  send-Settles bytes = record {
    finishes = λ h e.
        let p = send_packet env bytes h.framing in
        sent-Finishes p.0 p.1 h (send_packet-SendEnds env script cobs k bytes h.framing e);
  }

  pub reset-Settles : Settles (on_framing env c (send_reset env))
  unfolding send_reset
  reset-Settles = record {
    finishes = λ h e.
        let p = write_flushed env (0 ∷ 0 ∷ []) h.framing in
        sent-Finishes p.0 p.1 h (write_flushed-SendEnds env script k (0 ∷ 0 ∷ []) h.framing e);
  }

  -- A packet that was found lies in the buffer.
  abbrev pub Sized : Option ℕ → Type 0
  Sized found = or_default env c found ≤ env.frame_limit

  received-Finishes :
      (r : Outcome (Option ℕ)) (st : Framing R W) (h : HostSide R W c)
      → IsValid env.frame_limit st
      → PacketEnds env script k r (length (rest env script st))
      → Finishes Alive Sized r (record h { framing = st })
  received-Finishes (ok none) st h v t = (omega arith, record { valid = v; coming = omega arith })
  received-Finishes (ok (some size)) st h v t =
      (t.0, record { valid = v; coming = omega (arith, t.1) })
  received-Finishes (err terminated) st h v t = record { valid = v; coming = t }
  received-Finishes (err (recv_failed e)) st h v t = record { valid = v; coming = omega arith }
  received-Finishes (err (frame_decoding_failed e)) st h v t = record {
    valid = v;
    coming = omega arith;
  }
  received-Finishes r st h v t = absurd t

  module _ (fuel : ℕ) (enough : Fuelled env script fuel k) where
    pub received-Total : Total Alive Sized (on_framing env c (next_packet env fuel))
    received-Total = record {
      finishes = λ h e.
          let p = next_packet env fuel h.framing in
          let (v, t) = next_packet-PacketEnds env script cobs laws fuel k h.framing enough e in
          received-Finishes p.0 p.1 h v t;
    }

    pub skip_stale-Total :
        (fp : c.Fingerprint) (more : ℕ)
        → Total Alive (λ size. size ≤ env.frame_limit) (skip_stale env c fuel fp more)
    unfolding skip_stale
    skip_stale-Total fp zero = then-Total received-Total (λ found fits.
        then-Total (packet-Settles (or_default env c found) fits) (λ bytes u.
          if-Total (is_for env c fp (c.recipient bytes)) (pure-Total (or_default env c found) fits)
            (fail-Total (handshake_failed "too many stale frames before ark hello"))))
    skip_stale-Total fp (suc more) = then-Total received-Total (λ found fits.
        then-Total (packet-Settles (or_default env c found) fits) (λ bytes u.
          elim-Total (is_for env c fp (c.recipient bytes))
            (pure-Total (or_default env c found) fits) (skip_stale-Total fp more)))
