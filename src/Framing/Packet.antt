-- ===== src/Framing/Packet.antt =====
-- `next_packet`: a reset for an empty frame, and the decoded packet for any other.
use darkbio_wire_rs.Common.{
  ℕ, suc, ◌≤◌, ◌≡◌, refl, sym, subst, subst₂, ap, ◌∙◌, none, some, Option, List, [], ◌∷◌, length,
  arith, eq→==, ne→==,
}
use darkbio_wire_rs.Common.Slices.{length-slice}
use darkbio_wire_rs.Error.{
  CobsDecodeError, Result, value, error, frame_decoding_failed, Outcome, ok, err, panic, exhausted,
  and_then,
}
use darkbio_wire_rs.Io.{Env}
use darkbio_wire_rs.Io.Laws.{Event, MemchrLaws, Script, CobsLaws}
use darkbio_wire_rs.Framing.{Framing, Range, decode_frame, decode_range, next_frame, next_packet}
use darkbio_wire_rs.Framing.Spec.{read_frame}
use darkbio_wire_rs.Framing.Inv.{IsValid, frame_bytes, rest, InBuffer}
use darkbio_wire_rs.Framing.Refine.{Answers}
use darkbio_wire_rs.Framing.Read.{IsEnough, next_frame-enough, frame_blob-eq}
use darkbio_wire_rs.Framing.Keeps.{outside, next_frame-keeps}

-- The size that a decoder returned, as a packet.
abbrev pub decoded : Result CobsDecodeError ℕ → Outcome (Option ℕ)
decoded (value size) = ok (some size)
decoded (error e) = err (frame_decoding_failed e)

decoded-value : (r : Result CobsDecodeError ℕ) (n : ℕ) → decoded r ≡ ok (some n) → r ≡ value n
decoded-value (value m) n e = cc
decoded-value (error x) n e = cc

module _ {R W : Type 0} (env : Env R W) where
  -- What `next_packet` makes of a frame, with the buffer of the decoded packet.
  abbrev pub packet_of : Outcome (List ℕ) → List ℕ → Outcome (Option ℕ) × List ℕ
  packet_of (ok []) buf = (ok none, buf)
  packet_of (ok (b ∷ f)) buf =
      let (size, buf') = env.cobs.decode_nonzero (b ∷ f) buf in (decoded size, buf')
  packet_of (err e) buf = (err e, buf)
  packet_of panic buf = (panic, buf)
  packet_of exhausted buf = (exhausted, buf)

  decode_frame-eq :
      (f : List ℕ) (st : Framing R W)
      → and_then (λ size s. (ok (some size), s)) (decode_frame env f st) ≡ (
        decoded (env.cobs.decode_nonzero f st.decobs_buffer).0,
        record st { decobs_buffer = (env.cobs.decode_nonzero f st.decobs_buffer).1 },
      )
  unfolding decode_frame
  decode_frame-eq f st = ground arith

  decode_range-eq :
      (script : Script env.reader) (range : Range) (st : Framing R W) (f : List ℕ)
      → InBuffer env script (ok range) st
      → frame_bytes st range ≡ f
      → decode_range env range st ≡ (
        (packet_of (ok f) st.decobs_buffer).0,
        record st { decobs_buffer = (packet_of (ok f) st.decobs_buffer).1 },
      )
  unfolding decode_range
  decode_range-eq script range st [] (h, k, b, z) e =
      let n : length (frame_bytes st range) ≡ 0 = ap length e in
      rw (
        eq→== range.start range.end
          (omega (arith, n, length-slice st.reader_buffer range.start range.end h k)))
  decode_range-eq script range st (x ∷ f) (h, k, b, z) e =
      let n : length (frame_bytes st range) ≡ suc (length f) = ap length e in
      rw
        (
          ne→== range.start range.end
              (omega (arith, n, length-slice st.reader_buffer range.start range.end h k)),
          frame_blob-eq env script range st (h, k, b, z),
          e,
        )
        (decode_frame-eq (x ∷ f) st)

module _ {R W : Type 0} (env : Env R W) (script : Script env.reader)
    (cobs : CobsLaws env.cobs) where
  length-packet_of :
      (r : Outcome (List ℕ)) (buf : List ℕ) → length (packet_of env r buf).1 ≡ length buf
  length-packet_of (ok []) buf = refl
  length-packet_of (ok (b ∷ f)) buf = cobs.length_decoded (b ∷ f) buf
  length-packet_of (err e) buf = refl
  length-packet_of panic buf = refl
  length-packet_of exhausted buf = refl

  -- A call of `next_packet` that makes of a frame what `packet_of` says, and keeps the writer.
  pub record Takes (buf : List ℕ) (writer : W) (result : Outcome (List ℕ) × List Event)
      (p : Outcome (Option ℕ) × Framing R W) : Type 0 where
    pub valid : IsValid env.frame_limit p.1
    pub taken : (p.0, p.1.decobs_buffer) ≡ packet_of env result.0 buf
    pub left_over : rest env script p.1 ≡ result.1
    pub writer_kept : p.1.writer ≡ writer

  decobs-IsValid :
      (st : Framing R W) (r : Outcome (List ℕ))
      → IsValid env.frame_limit st
      → IsValid env.frame_limit (record st { decobs_buffer = (packet_of env r st.decobs_buffer).1 })
  decobs-IsValid st r v = record {
    offset_le = v.offset_le;
    search_le = v.search_le;
    filled_le = v.filled_le;
    sized = v.sized;
    searched = v.searched;
    decobs_sized = length-packet_of r st.decobs_buffer ∙ v.decobs_sized;
    encobs_sized = v.encobs_sized;
  }

  failed-Takes :
      (result : Outcome (List ℕ) × List Event) (x : Outcome (Option ℕ)) (st : Framing R W)
      → IsValid env.frame_limit st
      → packet_of env result.0 st.decobs_buffer ≡ (x, st.decobs_buffer)
      → rest env script st ≡ result.1
      → Takes st.decobs_buffer st.writer result (x, st)
  failed-Takes result x st v e r = record {
    valid = v;
    taken = sym e;
    left_over = r;
    writer_kept = refl;
  }

  decode_range-Takes :
      (result : Outcome (List ℕ) × List Event) (p : Outcome Range × Framing R W)
      → Answers env script result p
      → Takes p.1.decobs_buffer p.1.writer result (and_then (decode_range env) p)
  decode_range-Takes result (ok range, st) (v, b, e) =
      subst (Takes st.decobs_buffer st.writer result)
        (sym (decode_range-eq env script range st (frame_bytes st range) b refl))
        (record {
          valid = decobs-IsValid st (ok (frame_bytes st range)) v;
          taken = ap (λ q. packet_of env q.0 st.decobs_buffer) e;
          left_over = ap (λ q. q.1) e;
          writer_kept = refl;
        })
  decode_range-Takes result (err x, st) (v, b, e) =
      failed-Takes result (err x) st v (sym (ap (λ q. packet_of env q.0 st.decobs_buffer) e))
        (ap (λ q. q.1) e)
  decode_range-Takes result (panic, st) (v, b, e) =
      failed-Takes result (panic) st v (sym (ap (λ q. packet_of env q.0 st.decobs_buffer) e))
        (ap (λ q. q.1) e)
  decode_range-Takes result (exhausted, st) (v, b, e) =
      failed-Takes result (exhausted) st v (sym (ap (λ q. packet_of env q.0 st.decobs_buffer) e))
        (ap (λ q. q.1) e)

  -- `next_packet` of a valid state gives `None` for an empty frame, which is a reset, and else
  -- what COBS decodes from the next frame of the specification, a failure of it included, with the
  -- decoded bytes in `decobs_buffer`. Errors of the stream are passed on. The stream left over is
  -- the specification's, the state stays valid, and nothing is written. It does not panic, and two
  -- passes for each event are enough fuel.
  pub next_packet-Takes :
      (laws : MemchrLaws env.memchr) (fuel : ℕ) (st : Framing R W)
      → IsValid env.frame_limit st
      → IsEnough env script fuel (rest env script st)
      → Takes st.decobs_buffer st.writer
          (read_frame env.frame_limit (some []) (rest env script st))
          (next_packet env fuel st)
  unfolding next_packet
  next_packet-Takes laws fuel st v h =
      let result = read_frame env.frame_limit (some []) (rest env script st) in
      let p = next_frame env fuel st in
      let kept : outside p.1 ≡ outside st = next_frame-keeps env fuel st in
      subst₂ (λ buf w. Takes buf w result (next_packet env fuel st)) (ap (λ o. o.1) kept)
        (ap (λ o. o.0) kept)
        (decode_range-Takes result p (next_frame-enough env script laws fuel st v h))

-- A packet never exceeds the buffer that it is in.
pub packet_of-size :
    {R W : Type 0} (env : Env R W) (cobs : CobsLaws env.cobs) (r : Outcome (List ℕ)) (buf : List ℕ)
    (n : ℕ)
    → (packet_of env r buf).0 ≡ ok (some n)
    → n ≤ length buf
packet_of-size env cobs (ok []) buf n e = cc
packet_of-size env cobs (ok (b ∷ f)) buf n e =
    cobs.decode_fits (b ∷ f) buf n (decoded-value (env.cobs.decode_nonzero (b ∷ f) buf).0 n e)
packet_of-size env cobs (err x) buf n e = cc
packet_of-size env cobs panic buf n e = cc
packet_of-size env cobs exhausted buf n e = cc
