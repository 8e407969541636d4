-- ===== src/Fuzz/Packets.antt =====
-- fuzz/fuzz_targets/next_packet.rs, and the choice of sizes of both fuzz targets.
pub mod Drain
mod Tests
use darkbio_wire_rs.Common.{
  ℕ, zero, suc, ◌+◌, ◌%◌, List, [], ◌∷◌, ◌++◌, map, length, take, replicate, leb, Option, none,
  some, if◌then◌else◌,
}
use darkbio_wire_rs.Error.{Result, value, error, Outcome, ok, err, panic, exhausted, terminated}
use darkbio_wire_rs.Io.{Cobs, Env}
use darkbio_wire_rs.Framing.{Framing, next_packet_blob}

-- `take_while` with the running total of the sizes on the wire, a delimiter behind each.
unfoldable pub take_total : (ℕ → ℕ) → ℕ → ℕ → List ℕ → List ℕ
take_total on_wire max_total total [] = []
take_total on_wire max_total total (s ∷ sizes) =
    let total' = total + (on_wire s + 1) in
    let rest = take_total on_wire max_total total' sizes in
    if leb total' max_total then s ∷ rest else []

-- The frame sizes of next_frame.rs.
unfoldable pub frame_sizes : ℕ → ℕ → List ℕ → List ℕ
frame_sizes max_frame max_total sizes =
    take_total (λ s. s) max_total 0 (map (λ s. s % (max_frame + 1)) sizes)

module _ (cobs : Cobs) where
  -- The packet sizes of next_packet.rs.
  unfoldable pub packet_sizes : ℕ → ℕ → List ℕ → List ℕ
  packet_sizes max_packet max_total sizes =
      take_total cobs.encode_buffer max_total 0 (map (λ s. s % (max_packet + 1)) sizes)

  -- One coded packet with its delimiter; `unwrap` panics on an error.
  unfoldable pub coded : ℕ → Option (List ℕ)
  coded s =
      let (size, encoded) = cobs.encode (replicate s 1) (replicate (cobs.encode_buffer s) 0) in
      elim size [ error e ↦ none | value len ↦ some (take len encoded ++ (0 ∷ [])) ]

  abbrev append : Option (List ℕ) → Option (List ℕ) → Option (List ℕ)
  append none _ = none
  append (some xs) none = none
  append (some xs) (some ys) = some (xs ++ ys)

  -- The stream of the packets.
  unfoldable pub packet_data : List ℕ → Option (List ℕ)
  packet_data [] = some []
  packet_data (s ∷ sizes) = append (coded s) (packet_data sizes)

  -- The sizes whose coding fits a frame.
  unfoldable pub expected_sizes : ℕ → List ℕ → List ℕ
  expected_sizes limit [] = []
  expected_sizes limit (s ∷ sizes) =
      let rest = expected_sizes limit sizes in
      if leb (cobs.encode_buffer s) limit then s ∷ rest else rest

module _ {R W : Type 0} (env : Env R W) (fuel : ℕ) where
  -- What the loop does after a call: it passes over resets and errors, keeps a packet, and stops
  -- at the end of the stream.
  unfoldable pub after_call :
      (Framing R W → List (List ℕ) × Outcome (Unit {0}))
      → Outcome (Option (List ℕ))
      → Framing R W
      → List (List ℕ) × Outcome (Unit {0})
  after_call next (ok none) st = next st
  after_call next (ok (some packet)) st = let (packets, done) = next st in (packet ∷ packets, done)
  after_call next (err terminated) st = ([], ok tt)
  after_call next (err e) st = next st
  after_call next panic st = ([], panic)
  after_call next exhausted st = ([], exhausted)

  -- The loop, for at most that many calls: the packets, and how it stopped.
  unfoldable pub drain_packets : ℕ → Framing R W → List (List ℕ) × Outcome (Unit {0})
  drain_packets zero st = ([], exhausted)
  drain_packets (suc calls) st =
      let (r, st') = next_packet_blob env fuel st in after_call (drain_packets calls) r st'
