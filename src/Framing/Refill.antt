-- ===== src/Framing/Refill.antt =====
-- The second half of a pass of `next_frame`: no delimiter was found, so room is made and more
-- bytes are read.
use darkbio_wire_rs.Common.{
  ℕ, zero, suc, ◌+◌, ◌*◌, ◌-◌, ◌≤◌, ◌<◌, ◌≡◌, refl, sym, ap, ◌∙◌, none, some, List, [], ◌∷◌, ◌++◌,
  map, length, length-append, length-map, append_assoc, append-nil, map-append, arith, le→ltb,
}
use darkbio_wire_rs.Common.Slices.{
  slice, slice-append, slice-write_at, slice-write_at_self, length-write_at, write_at, length-slice,
}
use darkbio_wire_rs.Error.{IoError, Result, value, error, err, recv_failed, terminated}
use darkbio_wire_rs.Io.{Env}
use darkbio_wire_rs.Io.Laws.{Event, byte, broken, NoZero, Script, Delivers}
use darkbio_wire_rs.Framing.{Framing, ingest, read_more}
use darkbio_wire_rs.Framing.Spec.{
  Collected, unread, read_frame, read_frame-collects, read_frame-skips, read_frame-nil,
  read_frame-broken,
}
use darkbio_wire_rs.Framing.Inv.{
  IsValid, pending, mode, rest, IsBounded, discarding-le, specified, Meets,
}

-- What is collected when the pending bytes hold no delimiter.
abbrev held : ℕ → List ℕ → Collected
held zero p = some p
held (suc _) p = none

read_frame-held :
    (limit d : ℕ) (p : List ℕ) (es : List Event)
    → NoZero p
    → length p ≤ limit
    → read_frame limit (mode d) (map byte p ++ es) ≡ read_frame limit (held d p) es
read_frame-held limit zero p es z h = read_frame-collects limit p [] es z (omega arith)
read_frame-held limit (suc d) p es z h = read_frame-skips limit p es z

unread-held : (d : ℕ) (p : List ℕ) → (0 < d → p ≡ []) → unread (held d p) ≡ map byte p
unread-held zero p h = refl
unread-held (suc d) p h = ap (map byte) (sym (h (omega arith)))

module _ {R W : Type 0} (env : Env R W) (script : Script env.reader) where
  -- The state in which `read` is called: the pending bytes have no delimiter and leave room, and
  -- in discard mode there are none.
  pub record IsReady (discard : ℕ) (st : Framing R W) : Type 0 where
    pub valid : IsValid env.frame_limit st
    pub room : st.reader_filled ≤ env.frame_limit
    pub clean : NoZero (pending st)
    pub dropped : 0 < discard → pending st ≡ []
    pub bounded : IsBounded env script discard st

  pending-ingest :
      (st : Framing R W) (ys : List ℕ)
      → IsValid env.frame_limit st
      → slice
          (write_at st.reader_buffer st.reader_filled ys)
          st.reader_offset
          (st.reader_filled + length ys)
        ≡ pending st ++ ys
  pending-ingest st ys v =
      let h : st.reader_offset ≤ st.reader_filled = omega (arith, v.offset_le, v.search_le) in
      let k : st.reader_filled ≤ length st.reader_buffer = omega (arith, v.filled_le, v.sized) in
      rw (
        ← slice-append (write_at st.reader_buffer st.reader_filled ys) st.reader_offset
            st.reader_filled (st.reader_filled + length ys) h (omega arith),
        slice-write_at_self st.reader_buffer st.reader_filled ys k,
        slice-write_at st.reader_buffer st.reader_offset st.reader_filled st.reader_filled ys h
            (omega arith) k,
      )

  -- Reading bytes moves them from the stream to the buffer.
  rest-ingest :
      (d : ℕ) (st : Framing R W) (ys : List ℕ) (r : R)
      → IsValid env.frame_limit st
      → script.events st.reader ≡ map byte ys ++ script.events r
      → map byte (
            slice
              (write_at st.reader_buffer st.reader_filled ys)
              st.reader_offset
              (st.reader_filled + length ys))
          ++ script.events r
        ≡ rest env script st
  rest-ingest d st ys r v e = rw (pending-ingest st ys v, map-append, append_assoc, e)

  reader-IsValid :
      (st : Framing R W) (r : R)
      → IsValid env.frame_limit st
      → IsValid env.frame_limit (record st { reader = r })
  reader-IsValid st r v = record {
    offset_le = v.offset_le;
    search_le = v.search_le;
    filled_le = v.filled_le;
    sized = v.sized;
    searched = v.searched;
    decobs_sized = v.decobs_sized;
    encobs_sized = v.encobs_sized;
  }

  pub length-pending :
      (st : Framing R W)
      → IsValid env.frame_limit st
      → length (pending st) ≡ st.reader_filled - st.reader_offset
  length-pending st v =
      length-slice st.reader_buffer st.reader_offset st.reader_filled
        (omega (arith, v.offset_le, v.search_le)) (omega (arith, v.filled_le, v.sized))

  -- A ready state answers for its pending bytes as for a frame begun.
  rest-held :
      (d : ℕ) (st : Framing R W) (es : List Event)
      → IsReady d st
      → read_frame env.frame_limit (mode d) (map byte (pending st) ++ es)
        ≡ read_frame env.frame_limit (held d (pending st)) es
  rest-held d st es h =
      read_frame-held env.frame_limit d (pending st) es h.clean
        (omega (arith, length-pending st h.valid, h.room))

  ingest-IsValid :
      (st : Framing R W) (ys : List ℕ) (r : R)
      → IsValid env.frame_limit st
      → st.reader_filled + length ys ≤ env.frame_limit + 1
      → IsValid env.frame_limit (record st {
        reader = r;
        reader_buffer = write_at st.reader_buffer st.reader_filled ys;
        reader_filled = st.reader_filled + length ys;
      })
  ingest-IsValid st ys r v h = record {
    offset_le = v.offset_le;
    search_le = omega (arith, v.search_le);
    filled_le = h;
    sized = length-write_at st.reader_buffer st.reader_filled ys (omega (arith, v.sized)) ∙ v.sized;
    searched =
        rw
          (slice-write_at st.reader_buffer st.reader_offset st.reader_search st.reader_filled ys
            v.offset_le v.search_le (omega (arith, v.filled_le, v.sized)))
          v.searched;
    decobs_sized = v.decobs_sized;
    encobs_sized = v.encobs_sized;
  }

  ingest-Meets :
      (d : ℕ) (st : Framing R W) (res : Result IoError (List ℕ) × R)
      → IsReady d st
      → Delivers script.events
          (length st.reader_buffer - st.reader_filled)
          (script.events st.reader)
          res
      → Meets env script
          (2 * length (script.events st.reader))
          (specified env script d st)
          (ingest env d st res)
  unfolding ingest
  ingest-Meets d st (error e, r) h got = (
    reader-IsValid st r h.valid,
    tt,
    sym (
        ap (λ es. read_frame env.frame_limit (mode d) (map byte (pending st) ++ es)) got
        ∙ rest-held d st (broken e ∷ script.events r) h
        ∙ read_frame-broken env.frame_limit (held d (pending st)) e (script.events r)
        ∙ ap (λ l. (err (recv_failed e), l ++ script.events r))
            (unread-held d (pending st) h.dropped)),
  )
  ingest-Meets d st (value [], r) h got = (
    reader-IsValid st r h.valid,
    tt,
    sym (
        ap (λ es. read_frame env.frame_limit (mode d) (map byte (pending st) ++ es)) got.0
        ∙ rest-held d st [] h
        ∙ read_frame-nil env.frame_limit (held d (pending st))
        ∙ ap (λ l. (err terminated, l))
            (unread-held d (pending st) h.dropped
              ∙ sym (append-nil (map byte (pending st)))
              ∙ ap (λ es. map byte (pending st) ++ es) (sym got.1))),
  )
  ingest-Meets d st (value (b ∷ bs), r) h (fits, e) =
      let n : length (script.events st.reader) ≡ suc (length bs + length (script.events r)) =
        (rw e (omega (arith, length-append (map byte bs) (script.events r), length-map byte bs))) in
      (
        ingest-IsValid st (b ∷ bs) r h.valid (omega (arith, h.valid.sized, h.room)),
        omega (arith, n, h.bounded),
        omega (arith, n, discarding-le d),
        ap (read_frame env.frame_limit (mode d)) (rest-ingest d st (b ∷ bs) r h.valid e),
      )

  -- With room in the buffer the call of `read` is right.
  pub read_more-Meets :
      (d : ℕ) (st : Framing R W)
      → IsReady d st
      → Meets env script
          (2 * length (script.events st.reader))
          (specified env script d st)
          (read_more env d st)
  unfolding read_more
  read_more-Meets d st h =
      rw (le→ltb (length st.reader_buffer) st.reader_filled (omega (arith, h.valid.sized, h.room)))
        (ingest-Meets d st (env.reader.read st.reader (length st.reader_buffer - st.reader_filled))
          h
          (script.delivers st.reader (length st.reader_buffer - st.reader_filled)
            (omega (arith, h.valid.sized, h.room))))
