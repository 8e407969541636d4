-- ===== src/Framing.antt =====
-- src/framing.rs: zero delimited, COBS encoded frames over a raw byte stream.
pub mod Spec
pub mod Inv
pub mod Refill
pub mod Room
pub mod Refine
pub mod Read
pub mod Keeps
pub mod Packet
pub mod Send
pub mod RoundTrip
pub mod Failure
pub mod Sink
pub mod Appends
pub mod Arrive
pub mod Transport
pub mod Live
pub mod Alike
pub mod Tests
use darkbio_wire_rs.Common.{
  ℕ, zero, suc, ◌+◌, ◌-◌, min, Option, none, some, List, [], ◌∷◌, length, take, replicate, ltb,
  ◌==◌, leb, if◌then◌else◌, Bool, true, false,
}
use darkbio_wire_rs.Common.Slices.{slice, slice?, write_at}
use darkbio_wire_rs.Error.{
  IoError, Error, frame_too_large, frame_encoding_failed, frame_decoding_failed, send_failed,
  recv_failed, terminated, Result, value, error, Outcome, ok, err, panic, exhausted, Op, ◌>>=◌,
  ◌>>◌, pure, or_fail, or_panic,
}
use darkbio_wire_rs.Io.{Reader, Writer, Cobs, Env, add_size}

-- `struct Framing`.
pub record Framing (R W : Type 0) : Type 0 where
  pub reader : R
  pub writer : W
  pub reader_buffer : List ℕ
  pub reader_filled : ℕ
  pub reader_offset : ℕ
  pub reader_search : ℕ
  pub decobs_buffer : List ℕ
  pub encobs_buffer : List ℕ
  pub encode_buffer : List ℕ

-- `Range<usize>`.
pub record Range : Type 0 where
  pub start : ℕ
  pub end : ℕ

-- How one pass of the loop of `next_frame` ends: it returns, or goes on with the count of
-- discarded bytes.
pub data Pass (S : Type 0) : Type 0 where
  returned : Outcome Range → S → Pass S
  again : ℕ → S → Pass S

module _ {R W : Type 0} where
  -- The reader's state once everything received is dropped.
  unfoldable pub clear : Framing R W → Framing R W
  clear st = record st { reader_filled = 0; reader_offset = 0; reader_search = 0 }

-- Returns, or makes the next pass.
unfoldable pub resume : {S : Type 0} → (ℕ → Op S Range) → Pass S → Outcome Range × S
resume next (returned r st) = (r, st)
resume next (again discard st) = next discard st

module _ {R W : Type 0} (env : Env R W) where
  abbrev pub limit : ℕ
  limit = env.frame_limit

  -- `Framing::new`.
  unfoldable pub new : R → W → Framing R W
  new reader writer = record {
    reader = reader;
    writer = writer;
    reader_buffer = replicate (limit + 1) 0;
    reader_filled = 0;
    reader_offset = 0;
    reader_search = 0;
    decobs_buffer = replicate limit 0;
    encobs_buffer = replicate (limit + 1) 0;
    encode_buffer = replicate limit 0;
  }

  -- `self.writer.write_all(bytes)?; self.writer.flush()`, with `map_err(Error::SendFailed)`.
  unfoldable pub write_flushed : List ℕ → Op (Framing R W) (Unit {0})
  write_flushed bytes st =
      let (written, w) = env.writer.write_all st.writer bytes in
      elim written [
        | error e ↦ (err (send_failed e), record st { writer = w })
        | value _ ↦
            let (flushed, w') = env.writer.flush w in
            or_fail send_failed flushed (record st { writer = w' })
      ]

  unfoldable pub send_reset : Op (Framing R W) (Unit {0})
  send_reset = write_flushed (0 ∷ 0 ∷ [])

  -- The delimiter is found at `end`: consume the frame, and return it or, in discard mode, drop it.
  unfoldable pub take_frame : ℕ → ℕ → Framing R W → Pass (Framing R W)
  take_frame discard end st =
      let st' = record st { reader_offset = end + 1; reader_search = end + 1 } in
      if ltb 0 discard
      then again 0 st'
      else returned (ok (record { start = st.reader_offset; end = end })) st'

  -- `copy_within(offset..filled, 0)` and the three positions after it; `none` is a range panic.
  unfoldable pub compact : Framing R W → Option (Framing R W)
  compact st = elim (slice? st.reader_buffer st.reader_offset st.reader_filled) [
    | none ↦ none
    | some rest ↦ some (record st {
      reader_buffer = write_at st.reader_buffer 0 rest;
      reader_filled = st.reader_filled - st.reader_offset;
      reader_offset = 0;
      reader_search = st.reader_filled - st.reader_offset;
    })
  ]

  -- No delimiter: mark the data as searched, then compact it or, in discard mode, drop it.
  unfoldable pub make_room : ℕ → Framing R W → Option (ℕ × Framing R W)
  make_room discard st =
      let searched = record st { reader_search = st.reader_filled } in
      if discard == 0
      then (if ltb 0 st.reader_offset
          then elim (compact searched) [ none ↦ none | some st' ↦ some (0, st') ]
          else some (0, searched))
      else some (add_size discard st.reader_filled, clear searched)

  -- A full buffer without delimiter exceeds the frame size: drop it and enter discard mode.
  unfoldable pub drop_full : ℕ → Framing R W → ℕ × Framing R W
  drop_full discard st =
      if st.reader_filled == limit + 1
      then (add_size discard (limit + 1), clear st)
      else (discard, st)

  -- The three arms of the `match` on what `read` returned.
  unfoldable pub ingest : ℕ → Framing R W → Result IoError (List ℕ) × R → Pass (Framing R W)
  ingest discard st (error e, r) = returned (err (recv_failed e)) (record st { reader = r })
  ingest discard st (value [], r) = returned (err terminated) (record st { reader = r })
  ingest discard st (value (b ∷ bs), r) = again discard (record st {
    reader = r;
    reader_buffer = write_at st.reader_buffer st.reader_filled (b ∷ bs);
    reader_filled = st.reader_filled + length (b ∷ bs);
  })

  -- `self.reader.read(&mut self.reader_buffer[self.reader_filled..])`.
  unfoldable pub read_more : ℕ → Framing R W → Pass (Framing R W)
  read_more discard st =
      if ltb (length st.reader_buffer) st.reader_filled
      then returned panic st
      else ingest discard st
          (env.reader.read st.reader (length st.reader_buffer - st.reader_filled))

  -- What follows a search without delimiter.
  unfoldable pub refill : ℕ → Framing R W → Pass (Framing R W)
  refill discard st = elim (make_room discard st) [
    | none ↦ returned panic st
    | some (d, st') ↦ let (d', st'') = drop_full d st' in read_more d' st''
  ]

  -- The `if let` on what `memchr` found in the data not searched yet.
  unfoldable pub act_on : ℕ → Framing R W → Option ℕ → Pass (Framing R W)
  act_on discard st (some found) = take_frame discard (st.reader_search + found) st
  act_on discard st none = refill discard st

  -- One pass of the loop.
  unfoldable pub frame_pass : ℕ → Framing R W → Pass (Framing R W)
  frame_pass discard st = elim (slice? st.reader_buffer st.reader_search st.reader_filled) [
    | none ↦ returned panic st
    | some window ↦ act_on discard st (env.memchr 0 window)
  ]

  unfoldable pub frame_loop : ℕ → ℕ → Op (Framing R W) Range
  frame_loop zero discard st = (exhausted, st)
  frame_loop (suc fuel) discard st = resume (frame_loop fuel) (frame_pass discard st)

  -- `next_frame`. The fuel bounds the passes of its loop.
  unfoldable pub next_frame : ℕ → Op (Framing R W) Range
  next_frame fuel = frame_loop fuel 0

  -- `cobs::decode_nonzero(frame, &mut self.decobs_buffer)`.
  unfoldable pub decode_frame : List ℕ → Op (Framing R W) ℕ
  decode_frame frame st =
      let (size, buf) = env.cobs.decode_nonzero frame st.decobs_buffer in
      or_fail frame_decoding_failed size (record st { decobs_buffer = buf })

  -- `&self.reader_buffer[frame.start..frame.end]`.
  unfoldable pub frame_blob : Range → Op (Framing R W) (List ℕ)
  frame_blob frame st = or_panic (slice? st.reader_buffer frame.start frame.end) st

  -- What `next_packet` does with the frame that it read.
  unfoldable pub decode_range : Range → Op (Framing R W) (Option ℕ)
  decode_range frame =
      if frame.start == frame.end
      then pure none
      else do bytes ← frame_blob frame; size ← decode_frame bytes; pure (some size)

  unfoldable pub next_packet : ℕ → Op (Framing R W) (Option ℕ)
  next_packet fuel = next_frame fuel >>= decode_range

  -- `send_frame`: the delimiter goes into the slot behind the frame.
  unfoldable pub send_frame : ℕ → Op (Framing R W) (Unit {0})
  send_frame size st =
      if ltb size (length st.encobs_buffer)
      then (let buf = write_at st.encobs_buffer size (0 ∷ []) in
          write_flushed (take (size + 1) buf) (record st { encobs_buffer = buf }))
      else (panic, st)

  unfoldable pub send_packet : List ℕ → Op (Framing R W) (Unit {0})
  send_packet packet st =
      let len = env.cobs.encode_buffer (length packet) in
      if ltb limit len
      then (err (frame_too_large len), st)
      else (let (size, buf) = env.cobs.encode packet st.encobs_buffer in
          (or_fail frame_encoding_failed size >>= send_frame) (record st { encobs_buffer = buf }))

  -- The helpers for tests and benchmarks.
  unfoldable pub packet_blob : Option ℕ → Op (Framing R W) (Option (List ℕ))
  packet_blob none st = (ok none, st)
  packet_blob (some size) st =
      (or_panic (slice? st.decobs_buffer 0 size) >>= λ bytes. pure (some bytes)) st

  unfoldable pub next_packet_blob : ℕ → Op (Framing R W) (Option (List ℕ))
  next_packet_blob fuel = next_packet fuel >>= packet_blob

  pub next_frame_blob : ℕ → Op (Framing R W) (List ℕ)
  next_frame_blob fuel = next_frame fuel >>= frame_blob

  pub send_frame_blob : List ℕ → Op (Framing R W) (Unit {0})
  send_frame_blob frame st =
      let len = min (length st.encobs_buffer) (length frame) in
      send_frame (length frame)
        (record st { encobs_buffer = write_at st.encobs_buffer 0 (take len frame) })
