-- ===== src/Fuzz/Packets/Tests.antt =====
-- The loop of next_packet.rs at concrete streams.
use darkbio_wire_rs.Common.{arith, ℕ, List, ◌≡◌, refl, [], ◌∷◌, some}
use darkbio_wire_rs.Common.Slices.{slice, slice?, write_at}
use darkbio_wire_rs.Error.{ok}
use darkbio_wire_rs.Framing
use darkbio_wire_rs.Framing.Tests.{env, reading, reading-IsValid}
use darkbio_wire_rs.Fuzz.{chunked, read, next_chunk}
use darkbio_wire_rs.Fuzz.Packets.{
  take_total, frame_sizes, packet_sizes, coded, packet_data, expected_sizes, after_call,
  drain_packets,
}
use darkbio_wire_rs.Fuzz.Packets.Drain.{drain_packets-wires}
use darkbio_wire_rs.Fuzz.Portions.{chunked_script}
use darkbio_wire_rs.Tests.Codec.{shifting, shifting-CobsLaws}
use darkbio_wire_rs.Tests.World.{index-MemchrLaws}

sizes_chosen : frame_sizes 9 12 (3 ∷ 14 ∷ 8 ∷ []) ≡ 3 ∷ 4 ∷ []
unfolding frame_sizes take_total
sizes_chosen = refl

packets_chosen : packet_sizes shifting 9 12 (3 ∷ 14 ∷ 8 ∷ []) ≡ 3 ∷ 4 ∷ []
unfolding packet_sizes take_total
packets_chosen = refl

packets_coded : packet_data shifting (2 ∷ 0 ∷ []) ≡ some (1 ∷ 2 ∷ 2 ∷ 0 ∷ 1 ∷ 0 ∷ [])
unfolding packet_data coded write_at
packets_coded = refl

packets_expected : expected_sizes shifting 4 (2 ∷ 5 ∷ 0 ∷ []) ≡ 2 ∷ 0 ∷ []
unfolding expected_sizes
packets_expected = refl

-- A packet, a frame too long, a reset, and an empty packet.
packets_drained :
    drain_packets env 100 9
      (reading (1 ∷ 2 ∷ 2 ∷ 0 ∷ 1 ∷ 2 ∷ 2 ∷ 2 ∷ 2 ∷ 2 ∷ 0 ∷ 0 ∷ 1 ∷ 0 ∷ []) (3 ∷ []))
    ≡ ((1 ∷ 1 ∷ []) ∷ [] ∷ [], ok tt)
unfolding drain_packets after_call Framing.next_packet_blob Framing.packet_blob Framing.resume
    Framing.clear Framing.take_frame Framing.compact Framing.make_room Framing.drop_full
    Framing.ingest Framing.read_more Framing.refill Framing.act_on Framing.frame_pass
    Framing.frame_loop Framing.next_frame Framing.decode_frame Framing.frame_blob
    Framing.decode_range Framing.next_packet slice slice? write_at chunked read next_chunk
packets_drained = refl

-- The stream of two packets.
abbrev two : List (List ℕ)
two = (1 ∷ 1 ∷ []) ∷ [] ∷ []

drain_packets-wires_example :
    drain_packets env 100 3 (reading (1 ∷ 2 ∷ 2 ∷ 0 ∷ 1 ∷ 0 ∷ []) (3 ∷ [])) ≡ (two, ok tt)
unfolding chunked_script slice write_at
drain_packets-wires_example =
    drain_packets-wires env shifting-CobsLaws chunked_script index-MemchrLaws 100 two 3
      (reading (1 ∷ 2 ∷ 2 ∷ 0 ∷ 1 ∷ 0 ∷ []) (3 ∷ [])) (omega arith, (omega arith, tt)) (omega arith)
      (reading-IsValid (1 ∷ 2 ∷ 2 ∷ 0 ∷ 1 ∷ 0 ∷ []) (3 ∷ [])) (omega arith) refl
