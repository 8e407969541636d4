-- ===== src/Exchange/Calls.antt =====
-- Runs of calls of one side, in the concrete world.
use darkbio_wire_rs.Common.{ℕ, arith, ◌≡◌, refl, List, [], ◌∷◌}
use darkbio_wire_rs.Common.Slices.{slice, slice?, write_at}
use darkbio_wire_rs.Error.{ok}
use darkbio_wire_rs.Attestation
use darkbio_wire_rs.Attestation.{Attestation, pinned, fixed, into_bytes}
use darkbio_wire_rs.Session.{open_packet, seal, seal_scratch}
use darkbio_wire_rs.Framing
use darkbio_wire_rs.Host
use darkbio_wire_rs.Host.{HostSide}
use darkbio_wire_rs.Host.History.{connect, send, fetch, fresh, step, run, note_sent, note_got}
use darkbio_wire_rs.Host.Portions.{Matches, answers, answers-Matches}
use darkbio_wire_rs.Ark
use darkbio_wire_rs.Ark.Portions
use darkbio_wire_rs.Ark.History
use darkbio_wire_rs.Ark.Resets
use darkbio_wire_rs.Ark.{ArkSide}
use darkbio_wire_rs.Ark.Portions.{replies, replies-Matches}
use darkbio_wire_rs.Ark.History.{Follows, run-Follows}
use darkbio_wire_rs.Host.Tracks.{Keeps, run-Tracks}
use darkbio_wire_rs.Framing.Inv.{new-IsValid}
use darkbio_wire_rs.Fuzz.Portions.{chunked_script}
use darkbio_wire_rs.Tests.World.{index-MemchrLaws}
use darkbio_wire_rs.Tests.Codec.{shifting-CobsLaws}
use darkbio_wire_rs.Exchange.World.{env, stream}
use darkbio_wire_rs.Fuzz.{ChunkedReader, chunked, read, next_chunk}
use darkbio_wire_rs.Tests.Cipher.{plain, bytes}

abbrev incoming : List ℕ
incoming =
    1 ∷ 2 ∷ 6 ∷ 1 ∷ 2 ∷ 4 ∷ 3 ∷ 2 ∷ 5 ∷ 6 ∷ 0 ∷ 1 ∷ 6 ∷ 5 ∷ 5 ∷ 5 ∷ 5 ∷ 5 ∷ 5 ∷ 5 ∷ 5 ∷ 5 ∷ 5 ∷ 5
    ∷ 5 ∷ 5 ∷ 5 ∷ 5 ∷ 5 ∷ 0 ∷ []

-- A host that has no session yet.
abbrev idle : HostSide ChunkedReader (List ℕ) plain
idle = Host.new env plain (stream incoming) [] 0

uses_log :
    (run env plain (pinned 5) 2 bytes 100 (connect ∷ send (5 ∷ []) ∷ fetch ∷ []) (idle, fresh)).1
    ≡ record { sent = (5 ∷ []) ∷ []; got = ok (5 ∷ []) ∷ [] }
unfolding run step note_sent note_got Host.handshake Host.negotiate Host.skip_stale
    Host.read_ark_hello Host.establish Attestation.new pinned Framing.resume Framing.clear
    Framing.take_frame Framing.compact Framing.make_room Framing.drop_full Framing.ingest
    Framing.read_more Framing.refill Framing.act_on Framing.frame_pass Framing.frame_loop
    Framing.next_frame Framing.decode_frame Framing.frame_blob Framing.decode_range
    Framing.next_packet Framing.send_reset Framing.send_packet Framing.send_frame
    Framing.write_flushed Framing.new slice slice? write_at chunked read next_chunk Host.new
    Host.send_message Host.seal_with Host.deliver Host.guard_session Host.guard_transport seal
    seal_scratch Host.next_message Host.receive Host.open_with open_packet
uses_log = refl

run-Tracks_example :
    Keeps env plain
      (pinned 5)
      2
      bytes
      100
      chunked_script
      shifting-CobsLaws
      index-MemchrLaws
      31
      (omega arith, omega arith)
      (run env plain (pinned 5) 2 bytes 100 (connect ∷ send (5 ∷ []) ∷ fetch ∷ []) (idle, fresh))
unfolding chunked_script Framing.new Host.new slice
run-Tracks_example =
    run-Tracks env plain (pinned 5) 2 bytes 100 chunked_script shifting-CobsLaws index-MemchrLaws 31
      (omega arith, omega arith) (connect ∷ send (5 ∷ []) ∷ fetch ∷ []) idle
      (record { valid = (new-IsValid env (stream incoming) []).0; coming = omega arith }) refl

-- The same host on a reader that returns other portions.
abbrev other : HostSide ChunkedReader (List ℕ) plain
other =
    Host.new env plain (record { bytes = incoming; pos = 0; chunks = 1 ∷ 5 ∷ []; chunk_idx = 1 }) []
      0

answers-Matches_example :
    Matches env plain
      (pinned 5)
      2
      bytes
      100
      chunked_script
      shifting-CobsLaws
      index-MemchrLaws
      31
      (omega arith, omega arith)
      (answers env plain (pinned 5) 2 bytes 100 (connect ∷ send (5 ∷ []) ∷ fetch ∷ []) idle)
      (answers env plain (pinned 5) 2 bytes 100 (connect ∷ send (5 ∷ []) ∷ fetch ∷ []) other)
unfolding chunked_script Framing.new Host.new slice
answers-Matches_example =
    answers-Matches env plain (pinned 5) 2 bytes 100 chunked_script shifting-CobsLaws
      index-MemchrLaws 31 (omega arith, omega arith) (connect ∷ send (5 ∷ []) ∷ fetch ∷ []) idle
      other
      (record {
        framing = record {
          live = record {
            valid = (new-IsValid env idle.framing.reader []).0;
            coming = omega arith;
          };
          live' = record {
            valid = (new-IsValid env other.framing.reader []).0;
            coming = omega arith;
          };
          same_rest = refl;
          same_outside = refl;
        };
        same_session = refl;
        same_rng = refl;
      })

-- For the Ark: a reset, the host's hello, its ack to the Ark's key 0, and a message.
abbrev asked : List ℕ
asked =
    0 ∷ 1 ∷ 1 ∷ 2 ∷ 0 ∷ 1 ∷ 1 ∷ 1 ∷ 6 ∷ 1 ∷ 1 ∷ 8 ∷ 0 ∷ 1 ∷ 6 ∷ 8 ∷ 8 ∷ 8 ∷ 8 ∷ 8 ∷ 8 ∷ 8 ∷ 8 ∷ 8
    ∷ 8 ∷ 8 ∷ 8 ∷ 8 ∷ 8 ∷ 8 ∷ 8 ∷ 0 ∷ []

-- An Ark that has no session yet, on readers that return other portions.
abbrev first_ark : ArkSide ChunkedReader (List ℕ) Attestation plain
first_ark = Ark.new env plain fixed (stream asked) [] 5 (record { cwt = 5 ∷ [] }) 0

abbrev other_ark : ArkSide ChunkedReader (List ℕ) Attestation plain
other_ark =
    Ark.new env plain fixed (record { bytes = asked; pos = 0; chunks = 1 ∷ 5 ∷ []; chunk_idx = 1 })
      [] 5 (record { cwt = 5 ∷ [] }) 0

replies-Matches_example :
    Ark.Portions.Matches env plain fixed 2 bytes 100 40 chunked_script shifting-CobsLaws
      index-MemchrLaws 33
      (omega arith, omega arith)
      (replies env plain fixed 2 bytes 100 40
        (Ark.Portions.fetch ∷ Ark.Portions.send (5 ∷ []) ∷ [])
        first_ark)
      (replies env plain fixed 2 bytes 100 40
        (Ark.Portions.fetch ∷ Ark.Portions.send (5 ∷ []) ∷ [])
        other_ark)
unfolding chunked_script Framing.new Ark.new slice
replies-Matches_example =
    replies-Matches env plain fixed 2 bytes 100 40 chunked_script shifting-CobsLaws index-MemchrLaws
      33 (omega arith, omega arith) (Ark.Portions.fetch ∷ Ark.Portions.send (5 ∷ []) ∷ []) first_ark
      other_ark
      (record {
        framing = record {
          live = record {
            valid = (new-IsValid env first_ark.framing.reader []).0;
            coming = omega arith;
          };
          live' = record {
            valid = (new-IsValid env other_ark.framing.reader []).0;
            coming = omega arith;
          };
          same_rest = refl;
          same_outside = refl;
        };
        same_signer = refl;
        same_attester = refl;
        same_session = refl;
        same_rng = refl;
      })

first_reply : (Ark.next_message env plain fixed bytes 100 40 first_ark).0 ≡ ok (5 ∷ [])
unfolding Ark.new Ark.next_message Ark.message_turn Ark.after_packet Ark.serve Ark.after_open
    Ark.after_handshake Ark.handshake Ark.accept Ark.greet Ark.read_hello Ark.resume fixed
    open_packet into_bytes Attestation.new Framing.resume Framing.clear Framing.take_frame
    Framing.compact Framing.make_room Framing.drop_full Framing.ingest Framing.read_more
    Framing.refill Framing.act_on Framing.frame_pass Framing.frame_loop Framing.next_frame
    Framing.decode_frame Framing.frame_blob Framing.decode_range Framing.next_packet
    Framing.send_reset Framing.send_packet Framing.send_frame Framing.write_flushed Framing.new
    slice slice? write_at chunked read next_chunk
first_reply = refl

ark_uses_log :
    (Ark.History.run env plain fixed 2 bytes 100 40
      (Ark.Portions.fetch ∷ Ark.Portions.send (5 ∷ []) ∷ [])
      (first_ark, fresh)).1
    ≡ record { sent = (5 ∷ []) ∷ []; got = ok (5 ∷ []) ∷ [] }
unfolding Ark.new Ark.next_message Ark.message_turn Ark.after_packet Ark.serve Ark.after_open
    Ark.after_handshake Ark.handshake Ark.accept Ark.greet Ark.read_hello Ark.resume fixed
    open_packet into_bytes Attestation.new Framing.resume Framing.clear Framing.take_frame
    Framing.compact Framing.make_room Framing.drop_full Framing.ingest Framing.read_more
    Framing.refill Framing.act_on Framing.frame_pass Framing.frame_loop Framing.next_frame
    Framing.decode_frame Framing.frame_blob Framing.decode_range Framing.next_packet
    Framing.send_reset Framing.send_packet Framing.send_frame Framing.write_flushed Framing.new
    slice slice? write_at chunked read next_chunk Ark.send_message Ark.seal_with Ark.deliver
    Ark.guard_session Ark.guard_transport seal seal_scratch Ark.History.run Ark.History.step
    Ark.Resets.resets Ark.Resets.later Ark.Resets.took Ark.Resets.since note_sent note_got
ark_uses_log = refl

run-Follows_example :
    Follows env plain fixed 2 bytes 100 40 5 chunked_script shifting-CobsLaws index-MemchrLaws 33
      (omega arith, omega arith)
      (omega arith)
      (Ark.History.run env plain fixed 2 bytes 100 40
        (Ark.Portions.fetch ∷ Ark.Portions.send (5 ∷ []) ∷ Ark.Portions.fetch ∷ [])
        (first_ark, fresh))
unfolding chunked_script Framing.new Ark.new slice
run-Follows_example =
    run-Follows env plain fixed 2 bytes 100 40 5 chunked_script shifting-CobsLaws index-MemchrLaws
      33 (omega arith, omega arith) (omega arith)
      (Ark.Portions.fetch ∷ Ark.Portions.send (5 ∷ []) ∷ Ark.Portions.fetch ∷ []) first_ark refl
      (record { valid = (new-IsValid env first_ark.framing.reader []).0; coming = omega arith })
      refl
