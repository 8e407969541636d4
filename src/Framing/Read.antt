-- ===== src/Framing/Read.antt =====
-- The readers built on `next_frame`: `next_frame_blob` and `next_packet`.
use darkbio_wire_rs.Common.{
  ℕ, ◌+◌, ◌*◌, ◌≤◌, ◌<◌, ◌≡◌, sym, subst, some, List, [], map, length, length-append, arith,
}
use darkbio_wire_rs.Common.Slices.{slice?-in}
use darkbio_wire_rs.Error.{Outcome, ok, err, panic, exhausted, and_then}
use darkbio_wire_rs.Io.{Env, usize_mod}
use darkbio_wire_rs.Io.Laws.{Event, byte, MemchrLaws, Script}
use darkbio_wire_rs.Framing.{Framing, Range, frame_blob, next_frame, next_frame_blob}
use darkbio_wire_rs.Framing.Spec.{read_frame}
use darkbio_wire_rs.Framing.Inv.{IsValid, pending, frame_bytes, rest, InBuffer}
use darkbio_wire_rs.Framing.Refine.{Answers, next_frame-Answers}

module _ {R W : Type 0} (env : Env R W) (script : Script env.reader) where
  -- Fuel for one call, and room for the count of discarded bytes.
  pub record IsEnough (fuel : ℕ) (events : List Event) : Type 0 where
    pub fuelled : 2 * length events < fuel
    pub small : env.frame_limit + 1 + length events < usize_mod

  pub IsEnough-mono :
      (fuel : ℕ) (es es' : List Event)
      → length es' ≤ length es
      → IsEnough fuel es
      → IsEnough fuel es'
  IsEnough-mono fuel es es' h k = record {
    fuelled = omega (arith, k.fuelled);
    small = omega (arith, k.small);
  }

  length-rest : (st : Framing R W) → length (script.events st.reader) ≤ length (rest env script st)
  length-rest st = omega (arith, length-append (map byte (pending st)) (script.events st.reader))

  pub next_frame-enough :
      (laws : MemchrLaws env.memchr) (fuel : ℕ) (st : Framing R W)
      → IsValid env.frame_limit st
      → IsEnough fuel (rest env script st)
      → Answers env script
          (read_frame env.frame_limit (some []) (rest env script st))
          (next_frame env fuel st)
  next_frame-enough laws fuel st v h =
      next_frame-Answers env script laws fuel st v
        (omega (arith, v.filled_le, h.small, length-rest st))
        (omega (arith, h.fuelled, length-rest st))

  -- A frame as the specification gives it, in a valid state.
  abbrev pub Reads : Outcome (List ℕ) × List Event → Outcome (List ℕ) × Framing R W → Type 0
  Reads result (r, st) = IsValid env.frame_limit st × ((r, rest env script st) ≡ result)

  pub frame_blob-eq :
      (range : Range) (st : Framing R W)
      → InBuffer env script (ok range) st
      → frame_blob env range st ≡ (ok (frame_bytes st range), st)
  unfolding frame_blob
  frame_blob-eq range st (h, k, _, _) = rw (slice?-in st.reader_buffer range.start range.end h k)

  frame_blob-Reads :
      (result : Outcome (List ℕ) × List Event) (p : Outcome Range × Framing R W)
      → Answers env script result p
      → Reads result (and_then (frame_blob env) p)
  frame_blob-Reads result (ok range, st) (v, b, e) =
      subst (Reads result) (sym (frame_blob-eq range st b)) (v, e)
  frame_blob-Reads result (err x, st) (v, b, e) = (v, e)
  frame_blob-Reads result (panic, st) (v, b, e) = (v, e)
  frame_blob-Reads result (exhausted, st) (v, b, e) = (v, e)

  -- `next_frame_blob` returns the bytes of the frame that the specification gives.
  pub next_frame_blob-Reads :
      (laws : MemchrLaws env.memchr) (fuel : ℕ) (st : Framing R W)
      → IsValid env.frame_limit st
      → IsEnough fuel (rest env script st)
      → Reads
          (read_frame env.frame_limit (some []) (rest env script st))
          (next_frame_blob env fuel st)
  unfolding next_frame_blob
  next_frame_blob-Reads laws fuel st v h =
      frame_blob-Reads _ (next_frame env fuel st) (next_frame-enough laws fuel st v h)
