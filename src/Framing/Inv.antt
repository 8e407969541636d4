-- ===== src/Framing/Inv.antt =====
-- The representation invariant of `Framing`, and the unconsumed data that it stands for.
use darkbio_wire_rs.Common.{
  ℕ, zero, suc, ◌+◌, ◌≤◌, ◌<◌, ◌≡◌, none, some, List, [], ◌++◌, map, length, arith,
  length-replicate, ◌*◌,
}
use darkbio_wire_rs.Common.Slices.{slice, slice_self}
use darkbio_wire_rs.Error.{Outcome, ok, err, panic, exhausted}
use darkbio_wire_rs.Io.{Env, usize_mod}
use darkbio_wire_rs.Io.Laws.{Event, byte, NoZero, Script}
use darkbio_wire_rs.Framing.{Framing, Range, Pass, returned, again, new}
use darkbio_wire_rs.Framing.Spec.{Collected, read_frame}

module _ {R W : Type 0} where
  -- The received bytes that are not consumed yet.
  abbrev pub pending : Framing R W → List ℕ
  pending st = slice st.reader_buffer st.reader_offset st.reader_filled

  -- The bytes of a range of the reader's buffer.
  abbrev pub frame_bytes : Framing R W → Range → List ℕ
  frame_bytes st range = slice st.reader_buffer range.start range.end

-- The positions are in order and in the buffer, what was searched holds no delimiter, and the
-- buffers keep their sizes.
pub record IsValid {R W : Type 0} (limit : ℕ) (st : Framing R W) : Type 0 where
  pub offset_le : st.reader_offset ≤ st.reader_search
  pub search_le : st.reader_search ≤ st.reader_filled
  pub filled_le : st.reader_filled ≤ limit + 1
  pub sized : length st.reader_buffer ≡ limit + 1
  pub searched : NoZero (slice st.reader_buffer st.reader_offset st.reader_search)
  pub decobs_sized : length st.decobs_buffer ≡ limit
  pub encobs_sized : length st.encobs_buffer ≡ limit + 1

-- A new framer is valid and has nothing pending.
pub new-IsValid :
    {R W : Type 0} (env : Env R W) (reader : R) (writer : W)
    → IsValid env.frame_limit (new env reader writer) × (pending (new env reader writer) ≡ [])
unfolding new
new-IsValid env reader writer = (
  record {
    offset_le = omega arith;
    search_le = omega arith;
    filled_le = omega arith;
    sized = length-replicate (env.frame_limit + 1) 0;
    searched = rw slice_self tt;
    decobs_sized = length-replicate env.frame_limit 0;
    encobs_sized = length-replicate (env.frame_limit + 1) 0;
  },
  slice_self _ 0,
)

-- In discard mode the frame being read is already too long.
abbrev pub mode : ℕ → Collected
mode zero = some []
mode (suc _) = none

abbrev pub discarding : ℕ → ℕ
discarding zero = 0
discarding (suc _) = 1

pub discarding-le : (d : ℕ) → discarding d ≤ 1
discarding-le zero = omega arith
discarding-le (suc d) = omega arith

module _ {R W : Type 0} (env : Env R W) (script : Script env.reader) where
  -- All that the framer has still to read: its pending bytes, then the stream.
  abbrev pub rest : Framing R W → List Event
  rest st = map byte (pending st) ++ script.events st.reader

  -- The count of discarded bytes cannot wrap: fewer than 2^64 bytes are left to come.
  abbrev pub IsBounded : ℕ → Framing R W → Type 0
  IsBounded discard st = discard + st.reader_filled + length (script.events st.reader) < usize_mod

  -- It falls in every pass: a pass reads something, or leaves discard mode.
  abbrev pub left : ℕ → Framing R W → ℕ
  left discard st = 2 * length (script.events st.reader) + discarding discard

  -- A result as the specification gives it, with the stream behind it.
  abbrev pub answer : Outcome Range → Framing R W → Outcome (List ℕ) × List Event
  answer (ok range) st = (ok (frame_bytes st range), rest st)
  answer (err e) st = (err e, rest st)
  answer panic st = (panic, rest st)
  answer exhausted st = (exhausted, rest st)

  -- A returned range lies in the buffer and has a frame's size.
  abbrev pub InBuffer : Outcome Range → Framing R W → Type 0
  InBuffer (ok range) st =
      (range.start ≤ range.end)
      × (range.end ≤ length st.reader_buffer)
      × (range.end ≤ range.start + env.frame_limit)
      × NoZero (frame_bytes st range)
  InBuffer _ st = Unit

  -- What the specification returns from a state of the loop.
  abbrev pub specified : ℕ → Framing R W → Outcome (List ℕ) × List Event
  specified discard st = read_frame env.frame_limit (mode discard) (rest st)

  -- A pass agrees with the specification: it returns its answer, or leaves its answer to come
  -- and less than `bound` to do.
  abbrev pub Meets : ℕ → Outcome (List ℕ) × List Event → Pass (Framing R W) → Type 0
  Meets bound result (returned r st) =
      IsValid env.frame_limit st × InBuffer r st × (answer r st ≡ result)
  Meets bound result (again d st) =
      IsValid env.frame_limit st × IsBounded d st × (left d st < bound) × (specified d st ≡ result)
