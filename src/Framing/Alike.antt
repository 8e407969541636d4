-- ===== src/Framing/Alike.antt =====
-- Two framers whose readers have the same stream to come, in portions of their own.
use darkbio_wire_rs.Common.{
  ℕ, ◌≡◌, refl, ap, ap₂, sym, ◌∙◌, some, List, [], ◌∷◌, length, arith, inl, inr,
}
use darkbio_wire_rs.Error.{
  IoError, Result, Result-cases, value, error, send_failed, Outcome, ok, err, panic, exhausted,
  or_fail, and_then,
}
use darkbio_wire_rs.Error.Agrees.{Same, Agrees}
use native.Mathlib.Decide.{dec_lt}
use darkbio_wire_rs.Io.{Env}
use darkbio_wire_rs.Io.Laws.{MemchrLaws, Script, CobsLaws}
use darkbio_wire_rs.Framing.{
  Framing, Range, next_frame, next_packet, decode_range, decode_frame, frame_blob, send_packet,
  send_reset, write_flushed,
}
use darkbio_wire_rs.Framing.Inv.{rest}
use darkbio_wire_rs.Framing.Spec.{read_frame}
use darkbio_wire_rs.Framing.Keeps.{outside, next_frame-keeps}
use darkbio_wire_rs.Framing.Packet.{packet_of, Takes, next_packet-Takes}
use darkbio_wire_rs.Framing.Send.{
  packet_wire, encoded_buffer, send_packet-refuses, send_packet-writes,
}
use darkbio_wire_rs.Framing.Live.{Live, Fuelled, next_packet-Live, write_flushed-Live, coded-Live}

module _ {R W : Type 0} (env : Env R W) where
  -- The buffers of what is sent.
  abbrev outgoing : Framing R W → List ℕ × List ℕ
  outgoing st = (st.encobs_buffer, st.encode_buffer)

  decode_range-keeps :
      (range : Range) (st : Framing R W) → outgoing (decode_range env range st).1 ≡ outgoing st
  unfolding decode_range decode_frame frame_blob
  decode_range-keeps range st = ground arith

  continued-keeps :
      (p : Outcome Range × Framing R W) → outgoing (and_then (decode_range env) p).1 ≡ outgoing p.1
  continued-keeps (ok range, st) = decode_range-keeps range st
  continued-keeps (err e, st) = refl
  continued-keeps (panic, st) = refl
  continued-keeps (exhausted, st) = refl

  next_packet-keeps :
      (fuel : ℕ) (st : Framing R W) → outgoing (next_packet env fuel st).1 ≡ outgoing st
  unfolding next_packet
  next_packet-keeps fuel st =
      continued-keeps (next_frame env fuel st) ∙ ap (λ o. (o.2, o.3)) (next_frame-keeps env fuel st)

  -- How a write ends, and what it leaves of the writer.
  outcome_of : Result IoError (Unit {0}) → Outcome (Unit {0})
  outcome_of (value u) = ok u
  outcome_of (error e) = err (send_failed e)

  written : List ℕ → W → Outcome (Unit {0}) × W
  written bytes w =
      let (taken, w') = env.writer.write_all w bytes in
      elim taken [
        | error e ↦ (err (send_failed e), w')
        | value _ ↦ let (flushed, w'') = env.writer.flush w' in (outcome_of flushed, w'')
      ]

  flushed-written :
      (r : Result IoError (Unit {0})) (st : Framing R W)
      → or_fail send_failed r st ≡ (outcome_of r, st)
  unfolding outcome_of
  flushed-written (value u) st = refl
  flushed-written (error e) st = refl

  write_flushed-written :
      (bytes : List ℕ) (st : Framing R W)
      → write_flushed env bytes st
        ≡ ((written bytes st.writer).0, record st { writer = (written bytes st.writer).1 })
  unfolding write_flushed written
  write_flushed-written bytes st = elim (Result-cases (env.writer.write_all st.writer bytes).0) [
    | inl (u, e) ↦
        let flushed = env.writer.flush (env.writer.write_all st.writer bytes).1 in
        rw (write_flushed, written, e)
          (flushed-written flushed.0 (record st { writer = flushed.1 }))
    | inr (x, e) ↦ rw (write_flushed, written, e) refl
  ]

  module _ (script : Script env.reader) (k : ℕ) where
    -- The same stream to come, of at most `k` events, the same writer and the same buffers, but for
    -- the reader's.
    pub record Alike (st st' : Framing R W) : Type 0 where
      pub live : Live env script k st
      pub live' : Live env script k st'
      pub same_rest : rest env script st ≡ rest env script st'
      pub same_outside : outside st ≡ outside st'

    write_flushed-Alike :
        (bytes bytes' : List ℕ) (st st' : Framing R W)
        → bytes ≡ bytes'
        → Alike st st'
        → Same Alike (write_flushed env bytes st) (write_flushed env bytes' st')
    write_flushed-Alike bytes bytes' st st' e x =
        let q = ap₂ written e (ap (λ o. o.0) x.same_outside) in
        let l = write_flushed-written bytes st in
        let l' = write_flushed-written bytes' st' in
        record {
          same_result = ap (λ p. p.0) l ∙ ap (λ p. p.0) q ∙ sym (ap (λ p. p.0) l');
          alike = record {
            live = write_flushed-Live env script k bytes st x.live;
            live' = write_flushed-Live env script k bytes' st' x.live';
            same_rest =
                ap (λ p. rest env script p.1) l
                ∙ x.same_rest
                ∙ sym (ap (λ p. rest env script p.1) l');
            same_outside =
                ap (λ p. outside p.1) l
                ∙ ap₂ (λ o w. (w, o.1, o.2, o.3)) x.same_outside (ap (λ p. p.1) q)
                ∙ sym (ap (λ p. outside p.1) l');
          };
        }

    pub send_reset-Agrees : Agrees Alike (send_reset env)
    unfolding send_reset
    send_reset-Agrees = record {
      agrees = λ st st' x. write_flushed-Alike (0 ∷ 0 ∷ []) (0 ∷ 0 ∷ []) st st' refl x;
    }

    pub send_packet-Agrees :
        (cobs : CobsLaws env.cobs) (packet : List ℕ) → Agrees Alike (send_packet env packet)
    send_packet-Agrees cobs packet = record {
      agrees = λ st st' x. elim (dec_lt env.frame_limit (env.cobs.encode_buffer (length packet))) [
        | yes big ↦
            rw (send_packet-refuses env packet st big, send_packet-refuses env packet st' big)
              (record { same_result = refl; alike = x })
        | no fits ↦
            let encobs : st.encobs_buffer ≡ st'.encobs_buffer = ap (λ o. o.2) x.same_outside in
            rw
              (
                send_packet-writes env cobs packet st x.live.valid (omega arith),
                send_packet-writes env cobs packet st' x.live'.valid (omega arith),
              )
              (write_flushed-Alike (packet_wire env packet st.encobs_buffer)
                (packet_wire env packet st'.encobs_buffer)
                (record st { encobs_buffer = encoded_buffer env packet st.encobs_buffer })
                (record st' { encobs_buffer = encoded_buffer env packet st'.encobs_buffer })
                (ap (packet_wire env packet) encobs)
                (record {
                  live = coded-Live env script cobs k packet st (omega arith) x.live;
                  live' = coded-Live env script cobs k packet st' (omega arith) x.live';
                  same_rest = x.same_rest;
                  same_outside =
                      ap (λ o. (o.0, o.1, encoded_buffer env packet o.2, o.3)) x.same_outside;
                }))
      ];
    }

    module _ (cobs : CobsLaws env.cobs) (laws : MemchrLaws env.memchr) (fuel : ℕ)
        (enough : Fuelled env script fuel k) where
      -- What the call makes of the next frame, whose frame was read from that stream.
      abbrev TakesFrom : Framing R W → Type 0
      TakesFrom st =
          Takes env script cobs st.decobs_buffer st.writer
            (read_frame env.frame_limit (some []) (rest env script st)) (next_packet env fuel st)

      Live-TakesFrom : (st : Framing R W) → Live env script k st → TakesFrom st
      Live-TakesFrom st live = next_packet-Takes env script cobs laws fuel st live.valid (record {
        fuelled = omega (arith, enough.0, live.coming);
        small = omega (arith, enough.1, live.coming);
      })

      pub next_packet-Agrees : Agrees Alike (next_packet env fuel)
      next_packet-Agrees = record {
        agrees = λ st st' x.
            let t = Live-TakesFrom st x.live in
            let t' = Live-TakesFrom st' x.live' in
            let frames = ap (read_frame env.frame_limit (some [])) x.same_rest in
            let taken =
              t.taken
              ∙ ap₂ (λ f b. packet_of env f.0 b) frames (ap (λ o. o.1) x.same_outside)
              ∙ sym t'.taken in
            let outer =
              next_packet-keeps fuel st
              ∙ ap (λ o. (o.2, o.3)) x.same_outside
              ∙ sym (next_packet-keeps fuel st') in
            let writer = t.writer_kept ∙ ap (λ o. o.0) x.same_outside ∙ sym t'.writer_kept in
            record {
              same_result = ap (λ p. p.0) taken;
              alike = record {
                live = next_packet-Live env script cobs laws fuel k st enough x.live;
                live' = next_packet-Live env script cobs laws fuel k st' enough x.live';
                same_rest = t.left_over ∙ ap (λ f. f.1) frames ∙ sym t'.left_over;
                same_outside =
                    ap₂ (λ w (o : List ℕ × List ℕ × List ℕ). (w, o.0, o.1, o.2)) writer
                      (ap₂ (λ d (o : List ℕ × List ℕ). (d, o.0, o.1)) (ap (λ p. p.1) taken) outer);
              };
            };
      }
