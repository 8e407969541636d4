-- ===== src/Fuzz.antt =====
-- fuzz/fuzz_targets/next_frame.rs: a reader that hands out its data in chosen portions, and the
-- loop that collects the frames of the wire.
pub mod Portions
pub mod Frames
pub mod Packets
mod Tests
use darkbio_wire_rs.Common.{
  ℕ, zero, suc, ◌+◌, ◌-◌, ◌%◌, min, max, List, [], ◌∷◌, ◌++◌, length, get_elem?, replicate, leb,
  Option, none, some, if◌then◌else◌,
}
use darkbio_wire_rs.Common.Slices.{slice}
use darkbio_wire_rs.Error.{
  IoError, Result, value, error, Outcome, ok, err, panic, exhausted, terminated,
}
use darkbio_wire_rs.Io.{Reader, Env}
use darkbio_wire_rs.Framing.{Framing, next_frame_blob}

-- `struct ChunkedReader`.
pub record ChunkedReader : Type 0 where
  pub bytes : List ℕ
  pub pos : ℕ
  pub chunks : List ℕ
  pub chunk_idx : ℕ

-- `self.chunks[i]`, at an index in range.
abbrev pub get_or : List ℕ → ℕ → ℕ → ℕ
get_or xs i d = elim (get_elem? xs i) [ none ↦ d | some x ↦ x ]

-- The chunk size of a call with room for `cap` bytes, and the index of the next.
unfoldable pub next_chunk : ChunkedReader → ℕ → ℕ × ℕ
next_chunk r cap = elim r.chunks [
  | [] ↦ (cap, r.chunk_idx)
  | c ∷ cs ↦ (max (get_or (c ∷ cs) (r.chunk_idx % length (c ∷ cs)) 0) 1, r.chunk_idx + 1)
]

-- `impl Read for ChunkedReader`.
unfoldable pub read : ChunkedReader → ℕ → Result IoError (List ℕ) × ChunkedReader
read r cap =
    if leb (length r.bytes) r.pos
    then (value [], r)
    else (let (chunk_size, chunk_idx) = next_chunk r cap in
        let to_read = min (min chunk_size (length r.bytes - r.pos)) cap in
        (
          value (slice r.bytes r.pos (r.pos + to_read)),
          record r { pos = r.pos + to_read; chunk_idx = chunk_idx },
        ))

unfoldable pub chunked : Reader ChunkedReader
chunked = record { read = read }

-- The stream of some frames, each behind it a delimiter.
unfoldable pub wire_data : List (List ℕ) → List ℕ
wire_data [] = []
wire_data (f ∷ fs) = f ++ (0 ∷ wire_data fs)

-- The frames that are expected: those within the limit.
unfoldable pub expected : ℕ → List (List ℕ) → List (List ℕ)
expected limit [] = []
expected limit (f ∷ fs) =
    let rest = expected limit fs in if leb (length f) limit then f ∷ rest else rest

-- The frames of the fuzzer: of the given sizes, and all of bytes 1.
pub frames_of : List ℕ → List (List ℕ)
frames_of [] = []
frames_of (s ∷ sizes) = replicate s 1 ∷ frames_of sizes

module _ {R W : Type 0} (env : Env R W) (fuel : ℕ) where
  -- What the loop does after a call: it keeps a frame, stops at the end of the stream, and passes
  -- over other errors.
  pub after_frame :
      (Framing R W → List (List ℕ) × Outcome (Unit {0}))
      → Outcome (List ℕ)
      → Framing R W
      → List (List ℕ) × Outcome (Unit {0})
  after_frame next (ok frame) st = let (frames, done) = next st in (frame ∷ frames, done)
  after_frame next (err terminated) st = ([], ok tt)
  after_frame next (err e) st = next st
  after_frame next panic st = ([], panic)
  after_frame next exhausted st = ([], exhausted)

  -- The loop of the fuzz target, for at most that many calls: the frames, and how it stopped.
  pub drain : ℕ → Framing R W → List (List ℕ) × Outcome (Unit {0})
  drain zero st = ([], exhausted)
  drain (suc calls) st =
      let (r, st') = next_frame_blob env fuel st in after_frame (drain calls) r st'
