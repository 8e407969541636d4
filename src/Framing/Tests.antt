-- ===== src/Framing/Tests.antt =====
-- The framer in the concrete world, and its theorems at concrete inputs.
use darkbio_wire_rs.Common.{ℕ, ◌≡◌, refl, some, List, [], ◌∷◌, arith, replicate}
use darkbio_wire_rs.Common.Slices.{slice, slice?, write_at}
use darkbio_wire_rs.Error.{Outcome, ok, err, terminated}
use darkbio_wire_rs.Io.{Reader, Env}
use darkbio_wire_rs.Io.Laws.{Event, byte, broken}
use darkbio_wire_rs.Framing.{
  Framing, next_frame, next_frame_blob, send_packet, frame_loop, frame_pass, resume, act_on,
  take_frame, refill, make_room, compact, drop_full, clear, read_more, ingest, frame_blob,
  next_packet, write_flushed,
}
use darkbio_wire_rs.Framing.Spec.{read_frame}
use darkbio_wire_rs.Framing.Inv.{IsValid, rest}
use darkbio_wire_rs.Framing.Refine.{Answers, next_frame-Answers}
use darkbio_wire_rs.Framing.Packet.{Takes, next_packet-Takes}
use darkbio_wire_rs.Framing.Send.{packet_wire, encoded_buffer}
use darkbio_wire_rs.Framing.RoundTrip.{Yields, send_packet-next_packet}
use darkbio_wire_rs.Framing.Failure.{FailsThenReads, fails_then_resumes, fails_then_takes_tail}
use darkbio_wire_rs.Tests.Replay.{replay, replay_script}
use darkbio_wire_rs.Fuzz.{ChunkedReader, chunked, read, next_chunk}
use darkbio_wire_rs.Fuzz.Portions.{chunked_script}
use darkbio_wire_rs.Tests.World.{index, index-MemchrLaws, recorder}
use darkbio_wire_rs.Tests.Codec.{shifting, shifting-CobsLaws}

-- A wire whose frames have at most four bytes, over a reader.
abbrev pub wire : {R : Type 0} → Reader R → Env R (List ℕ)
wire reader = record {
  reader = reader;
  writer = recorder;
  memchr = index;
  cobs = shifting;
  frame_limit = 4;
}

abbrev pub env : Env ChunkedReader (List ℕ)
env = wire chunked

-- A framer that has read nothing yet.
abbrev pub fresh : {R : Type 0} → R → Framing R (List ℕ)
fresh reader = record {
  reader = reader;
  writer = [];
  reader_buffer = replicate 5 0;
  reader_filled = 0;
  reader_offset = 0;
  reader_search = 0;
  decobs_buffer = replicate 4 0;
  encobs_buffer = replicate 5 0;
  encode_buffer = replicate 4 0;
}

abbrev pub reading : List ℕ → List ℕ → Framing ChunkedReader (List ℕ)
reading bytes chunks = fresh (record { bytes = bytes; pos = 0; chunks = chunks; chunk_idx = 0 })

-- A frame too long, and one that fits.
abbrev long_then_short : List ℕ
long_then_short = 1 ∷ 2 ∷ 3 ∷ 4 ∷ 5 ∷ 6 ∷ 0 ∷ 7 ∷ 8 ∷ 0 ∷ []

-- Calls that run.
frame_of : Framing ChunkedReader (List ℕ) → Outcome (List ℕ)
unfolding next_frame_blob next_frame frame_loop frame_pass resume act_on take_frame refill make_room
    compact drop_full clear read_more ingest frame_blob slice slice? write_at chunked read
    next_chunk
frame_of st = (next_frame_blob env 30 st).0

discards : frame_of (reading long_then_short (2 ∷ 3 ∷ [])) ≡ ok (7 ∷ 8 ∷ [])
unfolding frame_of
discards = refl

ends : frame_of (reading (1 ∷ 2 ∷ []) []) ≡ err terminated
unfolding frame_of
ends = refl

empty_frame : frame_of (reading (0 ∷ 1 ∷ 0 ∷ []) (1 ∷ [])) ≡ ok []
unfolding frame_of
empty_frame = refl

pub fresh-IsValid : {R : Type 0} (reader : R) → IsValid 4 (fresh reader)
unfolding slice
fresh-IsValid reader = record {
  offset_le = omega arith;
  search_le = omega arith;
  filled_le = omega arith;
  sized = refl;
  searched = tt;
  decobs_sized = refl;
  encobs_sized = refl;
}

pub reading-IsValid : (bytes chunks : List ℕ) → IsValid 4 (reading bytes chunks)
reading-IsValid bytes chunks =
    fresh-IsValid (record { bytes = bytes; pos = 0; chunks = chunks; chunk_idx = 0 })

next_frame-Answers_example :
    Answers env chunked_script
      (read_frame 4 (some []) (rest env chunked_script (reading long_then_short (2 ∷ 3 ∷ []))))
      (next_frame env 30 (reading long_then_short (2 ∷ 3 ∷ [])))
unfolding chunked_script
next_frame-Answers_example =
    next_frame-Answers env chunked_script index-MemchrLaws 30 (reading long_then_short (2 ∷ 3 ∷ []))
      (reading-IsValid long_then_short (2 ∷ 3 ∷ [])) (omega arith) (omega arith)

next_packet-Takes_example :
    Takes env chunked_script shifting-CobsLaws
      (replicate 4 0)
      []
      (read_frame 4 (some []) (rest env chunked_script (reading (1 ∷ 2 ∷ 3 ∷ 0 ∷ []) [])))
      (next_packet env 30 (reading (1 ∷ 2 ∷ 3 ∷ 0 ∷ []) []))
unfolding chunked_script slice
next_packet-Takes_example =
    next_packet-Takes env chunked_script shifting-CobsLaws index-MemchrLaws 30
      (reading (1 ∷ 2 ∷ 3 ∷ 0 ∷ []) []) (reading-IsValid (1 ∷ 2 ∷ 3 ∷ 0 ∷ []) []) (omega arith)

-- The packet of two bytes, and the start of another frame behind it.
abbrev sent : List ℕ
sent = 1 ∷ 6 ∷ 8 ∷ 0 ∷ 1 ∷ []

send_packet-next_packet_example :
    (send_packet env (5 ∷ 7 ∷ []) (reading [] [])
      ≡ write_flushed env (packet_wire env (5 ∷ 7 ∷ []) (replicate 5 0)) (record (reading [] []) {
        encobs_buffer = encoded_buffer env (5 ∷ 7 ∷ []) (replicate 5 0);
      }))
    × Yields env shifting-CobsLaws chunked_script index-MemchrLaws
        (5 ∷ 7 ∷ [])
        (byte 1 ∷ [])
        (next_packet env 30 (reading sent (2 ∷ [])))
unfolding chunked_script slice write_at
send_packet-next_packet_example =
    send_packet-next_packet env shifting-CobsLaws chunked_script index-MemchrLaws 30 (5 ∷ 7 ∷ [])
      (reading [] []) (reading sent (2 ∷ [])) (byte 1 ∷ []) (omega arith) (reading-IsValid [] [])
      (reading-IsValid sent (2 ∷ [])) (omega arith) refl

-- A frame broken off by a timeout after one byte.
abbrev paused : List Event
paused = byte 1 ∷ broken "timed out" ∷ byte 2 ∷ byte 0 ∷ byte 3 ∷ []

fails_then_resumes_example :
    FailsThenReads
      (wire replay)
      replay_script
      index-MemchrLaws
      30
      "timed out"
      (1 ∷ 2 ∷ [])
      (byte 3 ∷ [])
      (fresh paused)
unfolding slice
fails_then_resumes_example =
    fails_then_resumes (wire replay) replay_script index-MemchrLaws 30 (1 ∷ []) (2 ∷ []) "timed out"
      (byte 3 ∷ []) (fresh paused) (omega arith) (omega arith) (omega arith) (fresh-IsValid paused)
      (omega arith) refl

-- A frame of seven bytes, broken off after the fifth.
abbrev cut_long : List Event
cut_long =
    byte 1 ∷ byte 1 ∷ byte 1 ∷ byte 1 ∷ byte 1 ∷ broken "timed out" ∷ byte 8 ∷ byte 9 ∷ byte 0 ∷ []

fails_then_takes_tail_example :
    FailsThenReads
      (wire replay)
      replay_script
      index-MemchrLaws
      30
      "timed out"
      (8 ∷ 9 ∷ [])
      []
      (fresh cut_long)
unfolding slice
fails_then_takes_tail_example =
    fails_then_takes_tail (wire replay) replay_script index-MemchrLaws 30 (1 ∷ 1 ∷ 1 ∷ 1 ∷ 1 ∷ [])
      (8 ∷ 9 ∷ []) "timed out" [] (fresh cut_long) (omega arith) (omega arith) (omega arith)
      (omega arith) (fresh-IsValid cut_long) (omega arith) refl
