-- ===== src/Framing/Live.antt =====
-- Reading a packet always comes to an end, and uses up a part of the stream.
use darkbio_wire_rs.Common.{
  ℕ, ◌+◌, ◌*◌, ◌≤◌, ◌<◌, ◌≡◌, refl, ap, sym, subst₂, Option, none, some, List, [], ◌∷◌, length,
  arith, inl, inr,
}
use darkbio_wire_rs.Error.{
  IoError, send_failed, or_fail, Result-cases, CobsDecodeError, recv_failed, terminated,
  frame_decoding_failed, Result, value, error, Outcome, ok, err, panic, exhausted,
}
use darkbio_wire_rs.Io.{Env, usize_mod}
use darkbio_wire_rs.Io.Laws.{Event, MemchrLaws, Script, CobsLaws}
use native.Mathlib.Decide.{dec_lt}
use darkbio_wire_rs.Framing.{Framing, next_packet, send_packet, write_flushed}
use darkbio_wire_rs.Framing.Send.{
  packet_wire, encoded_buffer, length-encoded_buffer, send_packet-refuses, send_packet-writes,
}
use darkbio_wire_rs.Framing.Spec.{read_frame}
use darkbio_wire_rs.Framing.Spec.Ends.{FrameEnds, fresh-FrameEnds}
use darkbio_wire_rs.Framing.Inv.{IsValid, rest}
use darkbio_wire_rs.Framing.Packet.{decoded, packet_of, next_packet-Takes}

module _ {R W : Type 0} (env : Env R W) (script : Script env.reader) where
  -- A valid state with at most `k` events to come.
  pub record Live (k : ℕ) (st : Framing R W) : Type 0 where
    pub valid : IsValid env.frame_limit st
    pub coming : length (rest env script st) ≤ k

  -- Enough fuel for one call at `k` events to come.
  abbrev pub Fuelled : ℕ → ℕ → Type 0
  Fuelled fuel k = (2 * k < fuel) × (env.frame_limit + 1 + k < usize_mod)

  -- A packet lies in the buffer, and takes an event at least; so does a frame that does not decode,
  -- and a failure of the stream. The end of the stream may take none.
  abbrev pub PacketEnds : ℕ → Outcome (Option ℕ) → ℕ → Type 0
  PacketEnds k (ok none) n = n < k
  PacketEnds k (ok (some size)) n = (size ≤ env.frame_limit) × (n < k)
  PacketEnds k (err terminated) n = n ≤ k
  PacketEnds k (err (recv_failed _)) n = n < k
  PacketEnds k (err (frame_decoding_failed _)) n = n < k
  PacketEnds k _ n = ⊥

  module _ (cobs : CobsLaws env.cobs) (laws : MemchrLaws env.memchr) where
    decoded-PacketEnds :
        (k n : ℕ) (r : Result CobsDecodeError ℕ)
        → ((size : ℕ) → r ≡ value size → size ≤ env.frame_limit)
        → n < k
        → PacketEnds k (decoded r) n
    decoded-PacketEnds k n (value size) h l = (h size refl, l)
    decoded-PacketEnds k n (error e) h l = l

    packet_of-PacketEnds :
        (k : ℕ) (r : Outcome (List ℕ)) (es : List Event) (buf : List ℕ)
        → length buf ≡ env.frame_limit
        → FrameEnds k r es
        → PacketEnds k (packet_of env r buf).0 (length es)
    packet_of-PacketEnds k (ok []) es buf b t = t
    packet_of-PacketEnds k (ok (x ∷ f)) es buf b t =
        decoded-PacketEnds k (length es) (env.cobs.decode_nonzero (x ∷ f) buf).0
          (λ size e. omega (arith, cobs.decode_fits (x ∷ f) buf size e, b)) t
    packet_of-PacketEnds k (err terminated) es buf b t = t
    packet_of-PacketEnds k (err (recv_failed e)) es buf b t = t
    packet_of-PacketEnds k r es buf b t = absurd t

    PacketEnds-mono :
        (m k n : ℕ) (r : Outcome (Option ℕ)) → m ≤ k → PacketEnds m r n → PacketEnds k r n
    PacketEnds-mono m k n (ok none) h t = omega arith
    PacketEnds-mono m k n (ok (some size)) h t = (t.0, omega (arith, t.1))
    PacketEnds-mono m k n (err terminated) h t = omega arith
    PacketEnds-mono m k n (err (recv_failed _)) h t = omega arith
    PacketEnds-mono m k n (err (frame_decoding_failed _)) h t = omega arith
    PacketEnds-mono m k n r h t = t

    pub next_packet-PacketEnds :
        (fuel k : ℕ) (st : Framing R W)
        → Fuelled fuel k
        → Live k st
        → IsValid env.frame_limit (next_packet env fuel st).1
          × PacketEnds k
              (next_packet env fuel st).0
              (length (rest env script (next_packet env fuel st).1))
    next_packet-PacketEnds fuel k st enough live =
        let events = rest env script st in
        let result = read_frame env.frame_limit (some []) events in
        let takes = next_packet-Takes env script cobs laws fuel st live.valid (record {
          fuelled = omega (arith, enough.0, live.coming);
          small = omega (arith, enough.1, live.coming);
        }) in
        (
          takes.valid,
          PacketEnds-mono (length events) k (length (rest env script (next_packet env fuel st).1))
              (next_packet env fuel st).0 live.coming
              (subst₂ (λ r n. PacketEnds (length events) r n) (sym (ap (λ q. q.0) takes.taken))
                (sym (ap length takes.left_over))
                (packet_of-PacketEnds (length events) result.0 result.1 st.decobs_buffer
                  live.valid.decobs_sized (fresh-FrameEnds env.frame_limit events))),
        )

    PacketEnds-bounds : (k n : ℕ) (r : Outcome (Option ℕ)) → PacketEnds k r n → n ≤ k
    PacketEnds-bounds k n (ok none) t = omega arith
    PacketEnds-bounds k n (ok (some size)) t = omega (arith, t.1)
    PacketEnds-bounds k n (err terminated) t = t
    PacketEnds-bounds k n (err (recv_failed e)) t = omega arith
    PacketEnds-bounds k n (err (frame_decoding_failed e)) t = omega arith
    PacketEnds-bounds k n r t = absurd t

    pub next_packet-Live :
        (fuel k : ℕ) (st : Framing R W)
        → Fuelled fuel k
        → Live k st
        → Live k (next_packet env fuel st).1
    next_packet-Live fuel k st enough live =
        let p = next_packet env fuel st in
        let (v, t) = next_packet-PacketEnds fuel k st enough live in
        record { valid = v; coming = PacketEnds-bounds k (length (rest env script p.1)) p.0 t }

  -- Sending a packet takes nothing from the stream, and does not panic.
  abbrev pub SendEnds : ℕ → Outcome (Unit {0}) → Framing R W → Type 0
  SendEnds k (ok _) st = Live k st
  SendEnds k (err _) st = Live k st
  SendEnds k panic st = ⊥
  SendEnds k exhausted st = ⊥

  flushed-SendEnds :
      (k : ℕ) (r : Result IoError (Unit {0})) (st : Framing R W)
      → Live k st
      → SendEnds k (or_fail send_failed r st).0 (or_fail send_failed r st).1
  flushed-SendEnds k (value u) st live = live
  flushed-SendEnds k (error e) st live = live

  with_writer-Live :
      (k : ℕ) (w : W) (st : Framing R W) → Live k st → Live k (record st { writer = w })
  with_writer-Live k w st live = record {
    valid = record {
      offset_le = live.valid.offset_le;
      search_le = live.valid.search_le;
      filled_le = live.valid.filled_le;
      sized = live.valid.sized;
      searched = live.valid.searched;
      decobs_sized = live.valid.decobs_sized;
      encobs_sized = live.valid.encobs_sized;
    };
    coming = live.coming;
  }

  pub write_flushed-SendEnds :
      (k : ℕ) (bytes : List ℕ) (st : Framing R W)
      → Live k st
      → SendEnds k (write_flushed env bytes st).0 (write_flushed env bytes st).1
  unfolding write_flushed
  write_flushed-SendEnds k bytes st live =
      elim (Result-cases (env.writer.write_all st.writer bytes).0) [
        | inl (u, e) ↦
            let flushed = env.writer.flush (env.writer.write_all st.writer bytes).1 in
            rw (SendEnds, write_flushed, e)
              (flushed-SendEnds k flushed.0 (record st { writer = flushed.1 })
                (with_writer-Live k flushed.1 st live))
        | inr (x, e) ↦
            rw (SendEnds, write_flushed, e)
              (with_writer-Live k (env.writer.write_all st.writer bytes).1 st live)
      ]

  -- The state whose buffer a packet was coded in.
  pub coded-Live :
      (cobs : CobsLaws env.cobs) (k : ℕ) (packet : List ℕ) (st : Framing R W)
      → env.cobs.encode_buffer (length packet) ≤ env.frame_limit
      → Live k st
      → Live k (record st { encobs_buffer = encoded_buffer env packet st.encobs_buffer })
  coded-Live cobs k packet st fits live = record {
    valid = record {
      offset_le = live.valid.offset_le;
      search_le = live.valid.search_le;
      filled_le = live.valid.filled_le;
      sized = live.valid.sized;
      searched = live.valid.searched;
      decobs_sized = live.valid.decobs_sized;
      encobs_sized = length-encoded_buffer env cobs packet st live.valid fits;
    };
    coming = live.coming;
  }

  pub send_packet-SendEnds :
      (cobs : CobsLaws env.cobs) (k : ℕ) (packet : List ℕ) (st : Framing R W)
      → Live k st
      → SendEnds k (send_packet env packet st).0 (send_packet env packet st).1
  send_packet-SendEnds cobs k packet st live =
      elim (dec_lt env.frame_limit (env.cobs.encode_buffer (length packet))) [
        | yes big ↦ rw (send_packet-refuses env packet st big) live
        | no fits ↦ rw (send_packet-writes env cobs packet st live.valid (omega arith)) (
            write_flushed-SendEnds k (packet_wire env packet st.encobs_buffer)
              (record st { encobs_buffer = encoded_buffer env packet st.encobs_buffer })
              (coded-Live cobs k packet st (omega arith) live))
      ]

  sent-Live : (k : ℕ) (r : Outcome (Unit {0})) (st : Framing R W) → SendEnds k r st → Live k st
  sent-Live k (ok u) st e = e
  sent-Live k (err x) st e = e
  sent-Live k panic st e = absurd e
  sent-Live k exhausted st e = absurd e

  pub send_packet-Live :
      (cobs : CobsLaws env.cobs) (k : ℕ) (packet : List ℕ) (st : Framing R W)
      → Live k st
      → Live k (send_packet env packet st).1
  send_packet-Live cobs k packet st live =
      let p = send_packet env packet st in
      sent-Live k p.0 p.1 (send_packet-SendEnds cobs k packet st live)

  pub write_flushed-Live :
      (k : ℕ) (bytes : List ℕ) (st : Framing R W)
      → Live k st
      → Live k (write_flushed env bytes st).1
  write_flushed-Live k bytes st live =
      let p = write_flushed env bytes st in
      sent-Live k p.0 p.1 (write_flushed-SendEnds k bytes st live)
