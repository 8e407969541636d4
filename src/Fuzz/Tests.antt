-- ===== src/Fuzz/Tests.antt =====
-- The fuzz target's loop at a concrete stream.
use darkbio_wire_rs.Common.{ℕ, ◌≡◌, refl, List, [], ◌∷◌, arith}
use darkbio_wire_rs.Common.Slices.{slice}
use darkbio_wire_rs.Error.{ok}
use darkbio_wire_rs.Framing.Tests.{env, reading, reading-IsValid}
use darkbio_wire_rs.Fuzz.{wire_data, expected, drain, frames_of}
use darkbio_wire_rs.Fuzz.Portions.{chunked_script}
use darkbio_wire_rs.Fuzz.Frames.{drain-expected}
use darkbio_wire_rs.Tests.World.{index-MemchrLaws}

-- Sizes about the limit of four.
abbrev frames : List (List ℕ)
frames = (1 ∷ 1 ∷ []) ∷ (1 ∷ 1 ∷ 1 ∷ 1 ∷ []) ∷ (1 ∷ 1 ∷ 1 ∷ 1 ∷ 1 ∷ []) ∷ [] ∷ (1 ∷ []) ∷ []

frames_of-sizes : frames_of (2 ∷ 4 ∷ 5 ∷ 0 ∷ 1 ∷ []) ≡ frames
unfolding frames_of
frames_of-sizes = refl

expected-frames : expected 4 frames ≡ (1 ∷ 1 ∷ []) ∷ (1 ∷ 1 ∷ 1 ∷ 1 ∷ []) ∷ [] ∷ (1 ∷ []) ∷ []
unfolding expected
expected-frames = refl

drain-expected_example :
    drain env 100 6 (reading (wire_data frames) (3 ∷ 1 ∷ [])) ≡ (expected 4 frames, ok tt)
unfolding chunked_script wire_data slice
drain-expected_example =
    drain-expected env chunked_script index-MemchrLaws 100 frames 6
      (reading (wire_data frames) (3 ∷ 1 ∷ [])) (omega arith) (omega arith) (omega arith)
      (reading-IsValid (wire_data frames) (3 ∷ 1 ∷ [])) refl
