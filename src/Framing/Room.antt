-- ===== src/Framing/Room.antt =====
-- How `next_frame` makes room in its buffer when no delimiter was found: it compacts the pending
-- bytes, or drops those of a frame that is too long.
use native.Mathlib.Decide.{dec_lt, ℕ_discrete}
use darkbio_wire_rs.Common.{
  ℕ, zero, suc, ◌+◌, ◌*◌, ◌-◌, ◌≤◌, ◌<◌, ◌≡◌, refl, sym, subst₂, ◌∙◌, none, some, List, [], length,
  arith, lt→ltb, le→ltb, eq→==, ne→==,
}
use darkbio_wire_rs.Common.Slices.{
  slice?-in, slice_self, slice-write_at_self, length-write_at, write_at,
}
use darkbio_wire_rs.Error.{Outcome}
use darkbio_wire_rs.Io.{Env, add_size}
use darkbio_wire_rs.Io.Laws.{Event, NoZero, Script}
use darkbio_wire_rs.Framing.{Framing, clear, compact, make_room, drop_full, refill, read_more}
use darkbio_wire_rs.Framing.Spec.{read_frame, read_frame-skips, read_frame-overflows}
use darkbio_wire_rs.Framing.Inv.{IsValid, pending, mode, rest, IsBounded, specified, Meets}
use darkbio_wire_rs.Framing.Refill.{IsReady, length-pending, read_more-Meets}

mode_pos : (d : ℕ) → 0 < d → mode d ≡ none
mode_pos zero h = absurd (omega arith)
mode_pos (suc d) h = refl

module _ {R W : Type 0} (env : Env R W) (script : Script env.reader) where
  -- Preparing a read keeps the answer of the specification.
  record Prepares (events : List Event) (result : Outcome (List ℕ) × List Event) (d' : ℕ)
      (st' : Framing R W) : Type 0 where
    valid : IsValid env.frame_limit st'
    clean : NoZero (pending st')
    offset : st'.reader_offset ≡ 0
    dropped : 0 < d' → st'.reader_filled ≡ 0
    bounded : IsBounded env script d' st'
    unread_events : script.events st'.reader ≡ events
    answers : specified env script d' st' ≡ result

  pending-clear : (st : Framing R W) → pending (clear st) ≡ []
  unfolding clear
  pending-clear st = slice_self st.reader_buffer 0

  clear-IsValid :
      (st : Framing R W) → IsValid env.frame_limit st → IsValid env.frame_limit (clear st)
  unfolding clear
  clear-IsValid st v = record {
    offset_le = omega arith;
    search_le = omega arith;
    filled_le = omega arith;
    sized = v.sized;
    searched = rw slice_self tt;
    decobs_sized = v.decobs_sized;
    encobs_sized = v.encobs_sized;
  }

  -- Dropping the pending bytes in discard mode, or on entering it.
  clear-Prepares :
      (d : ℕ) (st : Framing R W) (n : ℕ)
      → IsValid env.frame_limit st
      → IsBounded env script d st
      → n ≡ st.reader_filled
      → 0 < d + n
      → read_frame env.frame_limit none (script.events st.reader)
        ≡ read_frame env.frame_limit (mode d) (rest env script st)
      → Prepares (script.events st.reader) (specified env script d st) (add_size d n) (clear st)
  unfolding clear
  clear-Prepares d st n v b e pos same = record {
    valid = clear-IsValid st v;
    clean = rw slice_self tt;
    offset = refl;
    dropped = λ _. refl;
    bounded = omega (arith, b, e);
    unread_events = refl;
    answers = rw (mode_pos (add_size d n) (omega (arith, b, e)), slice_self) same;
  }

  -- The pending bytes at the start of the buffer.
  compacted : Framing R W → Framing R W
  compacted st = record st {
    reader_buffer = write_at st.reader_buffer 0 (pending st);
    reader_filled = st.reader_filled - st.reader_offset;
    reader_offset = 0;
    reader_search = st.reader_filled - st.reader_offset;
  }

  compact-eq :
      (st : Framing R W) → IsValid env.frame_limit st → compact env st ≡ some (compacted st)
  unfolding compact compacted
  compact-eq st v = rw (
    slice?-in st.reader_buffer st.reader_offset st.reader_filled
        (omega (arith, v.offset_le, v.search_le)) (omega (arith, v.filled_le, v.sized)),
    compact,
  )

  pending-compacted :
      (st : Framing R W) → IsValid env.frame_limit st → pending (compacted st) ≡ pending st
  unfolding compacted
  pending-compacted st v =
      let e : st.reader_filled - st.reader_offset ≡ 0 + length (pending st) =
        (omega (arith, length-pending env script st v)) in
      rw (e, slice-write_at_self st.reader_buffer 0 (pending st) (omega arith))

  compacted-IsValid :
      (st : Framing R W)
      → IsValid env.frame_limit st
      → NoZero (pending st)
      → IsValid env.frame_limit (compacted st)
  unfolding compacted
  compacted-IsValid st v z = record {
    offset_le = omega arith;
    search_le = omega arith;
    filled_le = omega (arith, v.filled_le);
    sized =
        length-write_at st.reader_buffer 0 (pending st)
          (omega (arith, length-pending env script st v, v.filled_le, v.sized))
        ∙ v.sized;
    searched = rw (pending-compacted st v) z;
    decobs_sized = v.decobs_sized;
    encobs_sized = v.encobs_sized;
  }

  searched-IsValid :
      (st : Framing R W)
      → IsValid env.frame_limit st
      → NoZero (pending st)
      → IsValid env.frame_limit (record st { reader_search = st.reader_filled })
  searched-IsValid st v z = record {
    offset_le = omega (arith, v.offset_le, v.search_le);
    search_le = omega arith;
    filled_le = v.filled_le;
    sized = v.sized;
    searched = z;
    decobs_sized = v.decobs_sized;
    encobs_sized = v.encobs_sized;
  }

  compacted-Prepares :
      (st : Framing R W)
      → IsValid env.frame_limit st
      → NoZero (pending st)
      → IsBounded env script 0 st
      → Prepares (script.events st.reader) (specified env script 0 st) 0 (compacted st)
  unfolding compacted
  compacted-Prepares st v z b = record {
    valid = compacted-IsValid st v z;
    clean = rw (pending-compacted st v) z;
    offset = refl;
    dropped = λ h. absurd (omega arith);
    bounded = omega (arith, b);
    unread_events = refl;
    answers = rw (pending-compacted st v);
  }

  -- Without a delimiter in the pending bytes, room is made and the answer is kept.
  make_room-Prepares :
      (d : ℕ) (st : Framing R W)
      → IsValid env.frame_limit st
      → NoZero (pending st)
      → IsBounded env script d st
      → (d' : ℕ) × (st' : Framing R W) × (make_room env d st ≡ some (d', st'))
        × Prepares (script.events st.reader) (specified env script d st) d' st'
  unfolding make_room
  make_room-Prepares zero st v z b =
      let searched : Framing R W = record st { reader_search = st.reader_filled } in
      elim (dec_lt 0 st.reader_offset) [
        | yes h ↦ (
          0,
          compacted searched,
          rw (lt→ltb 0 st.reader_offset h, compact-eq searched (searched-IsValid st v z)),
          compacted-Prepares searched (searched-IsValid st v z) z b,
        )
        | no h ↦ (
          0,
          searched,
          rw (le→ltb 0 st.reader_offset (omega arith)),
          record {
            valid = searched-IsValid st v z;
            clean = z;
            offset = omega arith;
            dropped = λ h. absurd (omega arith);
            bounded = b;
            unread_events = refl;
            answers = refl;
          },
        )
      ]
  make_room-Prepares (suc d) st v z b =
      let searched : Framing R W = record st { reader_search = st.reader_filled } in
      (
        add_size (suc d) st.reader_filled,
        clear searched,
        rw (ne→== (suc d) 0 (omega arith)),
        clear-Prepares (suc d) searched st.reader_filled (searched-IsValid st v z) b refl
            (omega arith)
            (sym (read_frame-skips env.frame_limit (pending st) (script.events st.reader) z)),
      )

  Prepares-IsReady :
      {events : List Event} {result : Outcome (List ℕ) × List Event} (d : ℕ) (st : Framing R W)
      → Prepares events result d st
      → st.reader_filled ≤ env.frame_limit
      → IsReady env script d st
  Prepares-IsReady d st h k = record {
    valid = h.valid;
    room = k;
    clean = h.clean;
    dropped = λ p. rw (h.offset, h.dropped p, slice_self);
    bounded = h.bounded;
  }

  ready-Meets :
      (events : List Event) (result : Outcome (List ℕ) × List Event) (d : ℕ) (st : Framing R W)
      → Prepares events result d st
      → st.reader_filled ≤ env.frame_limit
      → Meets env script (2 * length events) result (read_more env d st)
  ready-Meets events result d st h k =
      subst₂ (λ es r. Meets env script (2 * length es) r (read_more env d st)) h.unread_events
        h.answers (read_more-Meets env script d st (Prepares-IsReady d st h k))

  -- A full buffer holds the start of a frame that is too long.
  full-overflows :
      {events : List Event} {result : Outcome (List ℕ) × List Event} (d : ℕ) (st : Framing R W)
      → Prepares events result d st
      → st.reader_filled ≡ env.frame_limit + 1
      → read_frame env.frame_limit none (script.events st.reader) ≡ specified env script d st
  full-overflows zero st h e = sym (
      read_frame-overflows env.frame_limit (pending st) [] (script.events st.reader) h.clean
        (omega arith) (omega (arith, length-pending env script st h.valid, h.offset)))
  full-overflows (suc d) st h e = absurd (omega (arith, h.dropped (omega arith)))

  full-Prepares :
      (events : List Event) (result : Outcome (List ℕ) × List Event) (d : ℕ) (st : Framing R W)
      → Prepares events result d st
      → st.reader_filled ≡ env.frame_limit + 1
      → Prepares events result (add_size d (env.frame_limit + 1)) (clear st)
  full-Prepares events result d st h e =
      subst₂ (λ es r. Prepares es r (add_size d (env.frame_limit + 1)) (clear st)) h.unread_events
        h.answers
        (clear-Prepares d st (env.frame_limit + 1) h.valid h.bounded (sym e) (omega arith)
          (full-overflows d st h e))

  -- After `drop_full` the call of `read` is right.
  filled-Meets :
      (events : List Event) (result : Outcome (List ℕ) × List Event) (d : ℕ) (st : Framing R W)
      → Prepares events result d st
      → let (d', st') = drop_full env d st in
        Meets env script (2 * length events) result (read_more env d' st')
  unfolding drop_full clear
  filled-Meets events result d st h = elim (ℕ_discrete st.reader_filled (env.frame_limit + 1)) [
    | yes e ↦ rw (eq→== st.reader_filled (env.frame_limit + 1) e) (
        ready-Meets events result (add_size d (env.frame_limit + 1)) (clear st)
          (full-Prepares events result d st h e) (omega arith))
    | no ne ↦
        rw (ne→== st.reader_filled (env.frame_limit + 1) ne)
          (ready-Meets events result d st h (omega (arith, h.valid.filled_le)))
  ]

  -- The half of a pass that follows a search without delimiter agrees with the specification.
  pub refill-Meets :
      (d : ℕ) (st : Framing R W)
      → IsValid env.frame_limit st
      → NoZero (pending st)
      → IsBounded env script d st
      → Meets env script
          (2 * length (script.events st.reader))
          (specified env script d st)
          (refill env d st)
  unfolding refill
  refill-Meets d st v z b =
      let (d', st', e, h) = make_room-Prepares d st v z b in
      rw (e, refill) (filled-Meets (script.events st.reader) (specified env script d st) d' st' h)
