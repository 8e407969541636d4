-- ===== src/Framing/Refine.antt =====
-- `next_frame` returns what the specification of the stream says, however the stream is cut into
-- portions.
use darkbio_wire_rs.Common.{
  ℕ, zero, suc, ◌+◌, ◌*◌, ◌-◌, ◌≤◌, ◌<◌, ◌≡◌, refl, sym, ap, ◌∙◌, none, some, Option, List, [], ◌∷◌,
  ◌++◌, map, length, take, take-drop_at, append_assoc, map-append, arith, lt→ltb, All-append, ◌≢◌,
  subst,
}
use darkbio_wire_rs.Common.Slices.{
  slice, slice?-in, slice_self, slice-append, length-slice, take-slice, drop-slice,
}
use darkbio_wire_rs.Error.{Outcome}
use darkbio_wire_rs.Io.{Env}
use darkbio_wire_rs.Io.Laws.{Event, byte, NoZero, MemchrLaws, Script}
use darkbio_wire_rs.Framing.{
  Framing, Range, Pass, returned, again, resume, take_frame, act_on, refill, frame_pass, frame_loop,
  next_frame,
}
use darkbio_wire_rs.Framing.Spec.{
  read_frame, read_frame-collects, read_frame-skips, read_frame-delimiter, read_frame-resync,
}
use darkbio_wire_rs.Framing.Inv.{
  IsValid, pending, rest, IsBounded, left, answer, InBuffer, specified, Meets,
}
use darkbio_wire_rs.Framing.Room.{refill-Meets}

module _ {R W : Type 0} (env : Env R W) (script : Script env.reader) where
  Meets-mono :
      {b b' : ℕ} (result : Outcome (List ℕ) × List Event) (pass : Pass (Framing R W))
      → b ≤ b'
      → Meets env script b result pass
      → Meets env script b' result pass
  Meets-mono result (returned r st) h m = m
  Meets-mono {b} {b'} result (again d st) h (v, bd, l, e) = (v, bd, omega arith, e)

  consumed : Framing R W → ℕ → Framing R W
  consumed st end = record st { reader_offset = end + 1; reader_search = end + 1 }

  -- The delimiter at `end` cuts the pending bytes into a frame and what follows it.
  record Cuts (st : Framing R W) (end : ℕ) : Type 0 where
    start_le : st.reader_offset ≤ end
    end_lt : end < st.reader_filled
    clean : NoZero (slice st.reader_buffer st.reader_offset end)
    cut :
        pending st
        ≡ slice st.reader_buffer st.reader_offset end
          ++ (0 ∷ slice st.reader_buffer (end + 1) st.reader_filled)

  found-Cuts :
      (laws : MemchrLaws env.memchr) (st : Framing R W) (i : ℕ)
      → IsValid env.frame_limit st
      → env.memchr 0 (slice st.reader_buffer st.reader_search st.reader_filled) ≡ some i
      → Cuts st (st.reader_search + i)
  found-Cuts laws st i v e =
      let buf = st.reader_buffer in
      let window = slice buf st.reader_search st.reader_filled in
      let (inside, hit, before) = laws.found 0 window i e in
      let n : length window ≡ st.reader_filled - st.reader_search =
        (length-slice buf st.reader_search st.reader_filled v.search_le
          (omega (arith, v.filled_le, v.sized))) in
      let front : slice buf st.reader_offset (st.reader_search + i)
          ≡ slice buf st.reader_offset st.reader_search ++ take i window =
        (rw (take-slice buf st.reader_search st.reader_filled i (omega (arith, n, inside))) (
          sym (
            slice-append buf st.reader_offset st.reader_search (st.reader_search + i) v.offset_le
              (omega arith)))) in
      let next : st.reader_search + suc i ≡ st.reader_search + i + 1 = omega arith in
      record {
        start_le = omega (arith, v.offset_le);
        end_lt = omega (arith, n, inside);
        clean = rw front (All-append (λ b. b ≢ 0) _ _ v.searched before);
        cut =
            sym (
              slice-append buf st.reader_offset st.reader_search st.reader_filled v.offset_le
                v.search_le)
            ∙ ap (λ l. slice buf st.reader_offset st.reader_search ++ l)
                (take-drop_at window i 0 hit)
            ∙ rw (front, append_assoc, drop-slice, next);
      }

  -- A pass consumes a frame and its delimiter.
  rest-cut :
      (st : Framing R W) (end : ℕ)
      → Cuts st end
      → rest env script st
        ≡ map byte (slice st.reader_buffer st.reader_offset end)
          ++ (byte 0 ∷ rest env script (consumed st end))
  unfolding consumed
  rest-cut st end c = rw (c.cut, map-append, append_assoc)

  consumed-IsValid :
      (st : Framing R W) (end : ℕ)
      → IsValid env.frame_limit st
      → Cuts st end
      → IsValid env.frame_limit (consumed st end)
  unfolding consumed
  consumed-IsValid st end v c = record {
    offset_le = omega arith;
    search_le = omega (arith, c.end_lt);
    filled_le = v.filled_le;
    sized = v.sized;
    searched = rw slice_self tt;
    decobs_sized = v.decobs_sized;
    encobs_sized = v.encobs_sized;
  }

  take_frame-Meets :
      (d : ℕ) (st : Framing R W) (end : ℕ)
      → IsValid env.frame_limit st
      → IsBounded env script d st
      → Cuts st end
      → Meets env script
          (left env script d st)
          (specified env script d st)
          (take_frame env d end st)
  unfolding take_frame consumed
  take_frame-Meets zero st end v b c =
      let frame = slice st.reader_buffer st.reader_offset end in
      let n : length frame ≡ end - st.reader_offset =
        (length-slice st.reader_buffer st.reader_offset end c.start_le
          (omega (arith, c.end_lt, v.filled_le, v.sized))) in
      (
        consumed-IsValid st end v c,
        (
          c.start_le,
          omega (arith, c.end_lt, v.filled_le, v.sized),
          omega (arith, c.end_lt, v.filled_le),
          c.clean,
        ),
        sym (
            ap (read_frame env.frame_limit (some [])) (rest-cut st end c)
            ∙ read_frame-collects env.frame_limit frame [] _ c.clean
                (omega (arith, n, c.end_lt, v.filled_le))
            ∙ read_frame-delimiter env.frame_limit frame _),
      )
  take_frame-Meets (suc d) st end v b c = rw (lt→ltb 0 (suc d) (omega arith)) (
    consumed-IsValid st end v c,
    omega (arith, b),
    omega arith,
    sym (
        ap (read_frame env.frame_limit none) (rest-cut st end c)
        ∙ read_frame-skips env.frame_limit (slice st.reader_buffer st.reader_offset end) _ c.clean
        ∙ read_frame-resync env.frame_limit _),
  )

  act_on-Meets :
      (laws : MemchrLaws env.memchr) (d : ℕ) (st : Framing R W) (found : Option ℕ)
      → IsValid env.frame_limit st
      → IsBounded env script d st
      → env.memchr 0 (slice st.reader_buffer st.reader_search st.reader_filled) ≡ found
      → Meets env script (left env script d st) (specified env script d st) (act_on env d st found)
  unfolding act_on
  act_on-Meets laws d st (some i) v b e =
      take_frame-Meets d st (st.reader_search + i) v b (found-Cuts laws st i v e)
  act_on-Meets laws d st none v b e =
      Meets-mono (specified env script d st) (refill env d st) (omega arith) (
        refill-Meets env script d st v
          (subst NoZero
            (slice-append st.reader_buffer st.reader_offset st.reader_search st.reader_filled
              v.offset_le v.search_le)
            (All-append (λ b. b ≢ 0) _ _ v.searched (laws.missing 0 _ e)))
          b)

  frame_pass-Meets :
      (laws : MemchrLaws env.memchr) (d : ℕ) (st : Framing R W)
      → IsValid env.frame_limit st
      → IsBounded env script d st
      → Meets env script (left env script d st) (specified env script d st) (frame_pass env d st)
  unfolding frame_pass
  frame_pass-Meets laws d st v b =
      rw
        (
          slice?-in st.reader_buffer st.reader_search st.reader_filled v.search_le
              (omega (arith, v.filled_le, v.sized)),
          frame_pass,
        )
        (act_on-Meets laws d st _ v b refl)

  -- A call that ends: the state is valid, a returned range is in the buffer, and the answer is
  -- the specification's.
  abbrev pub Answers : Outcome (List ℕ) × List Event → Outcome Range × Framing R W → Type 0
  Answers result (r, st) =
      IsValid env.frame_limit st × InBuffer env script r st × (answer env script r st ≡ result)

  resume-Answers :
      {b : ℕ} (result : Outcome (List ℕ) × List Event)
      (next : ℕ → Framing R W → Outcome Range × Framing R W) (pass : Pass (Framing R W))
      → Meets env script b result pass
      → ((d : ℕ) (st : Framing R W)
          → IsValid env.frame_limit st
          → IsBounded env script d st
          → left env script d st < b
          → Answers (specified env script d st) (next d st))
      → Answers result (resume next pass)
  unfolding resume
  resume-Answers result next (returned r st) m k = m
  resume-Answers result next (again d st) (v, b, l, e) k =
      subst (λ t. Answers t (next d st)) e (k d st v b l)

  frame_loop-Answers :
      (laws : MemchrLaws env.memchr) (fuel d : ℕ) (st : Framing R W)
      → IsValid env.frame_limit st
      → IsBounded env script d st
      → left env script d st < fuel
      → Answers (specified env script d st) (frame_loop env fuel d st)
  unfolding frame_loop
  frame_loop-Answers laws zero d st v b l = absurd (omega arith)
  frame_loop-Answers laws (suc fuel) d st v b l =
      resume-Answers (specified env script d st) (frame_loop env fuel) (frame_pass env d st)
        (frame_pass-Meets laws d st v b)
        (λ d' st' v' b' l'. frame_loop-Answers laws fuel d' st' v' b' (omega arith))

  -- `next_frame` of a valid state answers as the specification does on the pending bytes and the
  -- rest of the stream, whatever the portions in which `read` returns it: the same frame, end or
  -- failure, and the same stream left over. The state stays valid, a returned range lies in the
  -- buffer and holds no zero and at most `limit` bytes. Two passes for each event of the stream
  -- are enough fuel, and no pass panics. The stream has fewer than 2^64 events to come.
  pub next_frame-Answers :
      (laws : MemchrLaws env.memchr) (fuel : ℕ) (st : Framing R W)
      → IsValid env.frame_limit st
      → IsBounded env script 0 st
      → 2 * length (script.events st.reader) < fuel
      → Answers (read_frame env.frame_limit (some []) (rest env script st)) (next_frame env fuel st)
  unfolding next_frame
  next_frame-Answers laws fuel st v b l = frame_loop-Answers laws fuel 0 st v b (omega arith)
