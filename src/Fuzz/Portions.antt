-- ===== src/Fuzz/Portions.antt =====
-- The chunked reader is a reader of a finite stream, whatever its chunk sizes.
use native.Mathlib.Decide.{dec_le}
use darkbio_wire_rs.Common.{
  ℕ, ◌+◌, ◌-◌, ◌≤◌, ◌<◌, ◌≡◌, refl, sym, ap, ◌∙◌, min, List, [], ◌∷◌, ◌++◌, map, length, drop,
  drop_all, map-append, arith, le→leb, lt→leb,
}
use darkbio_wire_rs.Common.Slices.{slice, length-slice, slice-append-drop}
use darkbio_wire_rs.Error.{value}
use darkbio_wire_rs.Io.Laws.{Event, byte, Script, Delivers}
use darkbio_wire_rs.Fuzz.{ChunkedReader, next_chunk, read, chunked}

-- What the reader has still to give.
abbrev pub chunked_events : ChunkedReader → List Event
chunked_events r = map byte (drop r.pos r.bytes)

next_chunk_pos : (r : ChunkedReader) (cap : ℕ) → 0 < cap → 0 < (next_chunk r cap).0
unfolding next_chunk
next_chunk_pos r cap h = ground arith

-- A portion taken off the front, not empty and with the rest behind it.
portion-Delivers :
    (cap : ℕ) (es : List Event) (xs : List ℕ) (r : ChunkedReader)
    → 0 < length xs
    → length xs ≤ cap
    → es ≡ map byte xs ++ chunked_events r
    → Delivers chunked_events cap es (value xs, r)
portion-Delivers cap es [] r h k e = absurd (omega arith)
portion-Delivers cap es (x ∷ xs) r h k e = (k, e)

-- How many bytes a call hands out.
abbrev to_read : ChunkedReader → ℕ → ℕ
to_read r cap = min (min (next_chunk r cap).0 (length r.bytes - r.pos)) cap

portion-length :
    (r : ChunkedReader) (cap : ℕ)
    → ¬ (length r.bytes ≤ r.pos)
    → length (slice r.bytes r.pos (r.pos + to_read r cap)) ≡ to_read r cap
portion-length r cap more =
    length-slice r.bytes r.pos (r.pos + to_read r cap) (omega arith) (omega arith) ∙ omega arith

portion-front :
    (r : ChunkedReader) (cap : ℕ)
    → map byte (drop r.pos r.bytes)
      ≡ map byte (slice r.bytes r.pos (r.pos + to_read r cap))
        ++ map byte (drop (r.pos + to_read r cap) r.bytes)
portion-front r cap =
    ap (map byte) (sym (slice-append-drop r.bytes r.pos (to_read r cap))) ∙ map-append byte _ _

pub read-Delivers :
    (r : ChunkedReader) (cap : ℕ)
    → 0 < cap
    → Delivers chunked_events cap (chunked_events r) (read r cap)
unfolding read
read-Delivers r cap h = elim (dec_le (length r.bytes) r.pos) [
  | yes done ↦
      rw (le→leb (length r.bytes) r.pos done)
        (let e : drop r.pos r.bytes ≡ [] = drop_all r.pos r.bytes done in rw e (refl, refl))
  | no more ↦ rw (lt→leb (length r.bytes) r.pos (omega arith)) (
      portion-Delivers cap (chunked_events r) _ _
        (omega (arith, portion-length r cap more, next_chunk_pos r cap h))
        (omega (arith, portion-length r cap more)) (portion-front r cap))
]

unfoldable pub chunked_script : Script chunked
unfolding chunked
chunked_script = record { events = chunked_events; delivers = read-Delivers }
