-- ===== src/Exchange/Sides.antt =====
-- The theorems on single operations of the two sides, in the concrete world.
use darkbio_wire_rs.Common.{arith, ℕ, ◌≡◌, ◌++◌, refl, List, [], ◌∷◌}
use darkbio_wire_rs.Common.Slices.{slice, slice?, write_at}
use darkbio_wire_rs.Error.{ok}
use darkbio_wire_rs.Attestation
use darkbio_wire_rs.Session.{open_packet}
use darkbio_wire_rs.Error.Runs.{Ends}
use darkbio_wire_rs.Attestation.{fixed, pinned, into_bytes}
use darkbio_wire_rs.Framing
use darkbio_wire_rs.Host
use darkbio_wire_rs.Host.{HostSide}
use darkbio_wire_rs.Host.Runs.{ConcludesAt}
use darkbio_wire_rs.Host.Established.{Establishes, handshake-Establishes}
use darkbio_wire_rs.Host.Sends.{Leaves, send_message-Leaves}
use darkbio_wire_rs.Ark
use darkbio_wire_rs.Ark.{ArkSide}
use darkbio_wire_rs.Ark.Runs.{Signs}
use darkbio_wire_rs.Ark.Accept.{Acknowledges, handshake-Acknowledges}
use darkbio_wire_rs.Ark.Surface.{Surfaces, next_message-Surfaces}
use darkbio_wire_rs.Ark.Loop.{LoopEnds, next_message-LoopEnds}
use darkbio_wire_rs.Framing.Inv.{new-IsValid}
use darkbio_wire_rs.Fuzz.Portions.{chunked_script}
use darkbio_wire_rs.Tests.World.{index-MemchrLaws}
use darkbio_wire_rs.Tests.Codec.{shifting-CobsLaws}
use darkbio_wire_rs.Error.Total.{Finishes}
use darkbio_wire_rs.Host.Total.{Alive}
use darkbio_wire_rs.Host.Ends.{handshake-Finishes}
use darkbio_wire_rs.Host.Receives.{Receives, next_message-Receives}
use darkbio_wire_rs.Ark.Sends.{Remains, send_message-Remains}
use darkbio_wire_rs.Exchange.World.{env, host, ark, stream}
use darkbio_wire_rs.Fuzz.{chunked, read, next_chunk}
use darkbio_wire_rs.Tests.Cipher.{plain, bytes}

-- The Ark's hello to the host key 1, coded: signed by 5 over the host's keys 0 and 1, with the
-- Ark's key 3, an encapsulated key, and an attestation that names 5.
abbrev hello : List ℕ
hello = 1 ∷ 2 ∷ 6 ∷ 1 ∷ 2 ∷ 4 ∷ 3 ∷ 2 ∷ 5 ∷ 6 ∷ 0 ∷ []

-- The whole handshake of the host runs, and returns the attestation.
host_handshake :
    (Host.handshake env plain 100 (pinned 5) (host hello)).0 ≡ ok (record { cwt = 5 ∷ [] })
unfolding Host.handshake Host.negotiate Host.skip_stale Host.read_ark_hello Host.establish
    Attestation.new pinned Framing.resume Framing.clear Framing.take_frame Framing.compact
    Framing.make_room Framing.drop_full Framing.ingest Framing.read_more Framing.refill
    Framing.act_on Framing.frame_pass Framing.frame_loop Framing.next_frame Framing.decode_frame
    Framing.frame_blob Framing.decode_range Framing.next_packet Framing.send_reset
    Framing.send_packet Framing.send_frame Framing.write_flushed Framing.new slice slice? write_at
    chunked read next_chunk
host_handshake = refl

handshake-Establishes_example :
    ConcludesAt env
      (Establishes env plain (pinned 5))
      (Host.handshake env plain 100 (pinned 5) (host hello)).0
      (Host.handshake env plain 100 (pinned 5) (host hello)).1
handshake-Establishes_example = handshake-Establishes env plain 100 (pinned 5) (host hello)

handshake-Finishes_example :
    Finishes
      (Alive env plain chunked_script shifting-CobsLaws index-MemchrLaws 11)
      (λ info. Unit {0})
      (Host.handshake env plain 100 (pinned 5) (host hello)).0
      (Host.handshake env plain 100 (pinned 5) (host hello)).1
unfolding chunked_script Framing.new slice
handshake-Finishes_example =
    handshake-Finishes env plain chunked_script shifting-CobsLaws index-MemchrLaws 11 100 (pinned 5)
      (host hello) (omega arith, omega arith)
      (record { valid = (new-IsValid env (stream hello) []).0; coming = omega arith })

-- A message to the host, coded.
abbrev message : List ℕ
message =
    1 ∷ 6 ∷ 10 ∷ 10 ∷ 10 ∷ 10 ∷ 10 ∷ 10 ∷ 10 ∷ 10 ∷ 10 ∷ 10 ∷ 10 ∷ 10 ∷ 10 ∷ 10 ∷ 10 ∷ 10 ∷ 0 ∷ []

next_message-Receives_example :
    Receives env plain chunked_script shifting-CobsLaws index-MemchrLaws bytes
      (host message)
      (Framing.next_packet env 100 (host message).framing)
      (Host.next_message env plain bytes 100 (host message)).0
      (Host.next_message env plain bytes 100 (host message)).1
unfolding chunked_script Framing.new slice
next_message-Receives_example =
    next_message-Receives env plain chunked_script shifting-CobsLaws index-MemchrLaws bytes
      (host message) 100 19 (omega arith, omega arith)
      (record { valid = (new-IsValid env (stream message) []).0; coming = omega arith })

send_message-Leaves_example :
    Leaves env plain bytes 2
      (5 ∷ [])
      (host [])
      (Host.send_message env plain 2 bytes (5 ∷ []) (host [])).0
      (Host.send_message env plain 2 bytes (5 ∷ []) (host [])).1
send_message-Leaves_example =
    send_message-Leaves env plain bytes 2 (5 ∷ []) (host []) shifting-CobsLaws
      (new-IsValid env (stream []) []).0

-- The host's hello and its ack to the Ark's key 0.
abbrev answers : List ℕ
answers = 1 ∷ 1 ∷ 2 ∷ 0 ∷ 1 ∷ 1 ∷ 1 ∷ 6 ∷ 1 ∷ 1 ∷ 8 ∷ 0 ∷ []

handshake-Acknowledges_example :
    Ends
      (Signs env plain fixed 5)
      (Acknowledges env plain fixed 5)
      (Ark.handshake env plain fixed 100 2 (ark answers)).0
      (Ark.handshake env plain fixed 100 2 (ark answers)).1
handshake-Acknowledges_example = handshake-Acknowledges env plain fixed 5 100 2 (ark answers) refl

-- Two resets, the handshake, and a message in the new session.
abbrev served : List ℕ
served =
    0
    ∷ 0
    ∷ (answers ++ (1 ∷ 6 ∷ 8 ∷ 8 ∷ 8 ∷ 8 ∷ 8 ∷ 8 ∷ 8 ∷ 8 ∷ 8 ∷ 8 ∷ 8 ∷ 8 ∷ 8 ∷ 8 ∷ 8 ∷ 8 ∷ 0 ∷ []))

-- The Ark drops its session, makes the new one, and serves the message.
ark_serves : (Ark.next_message env plain fixed bytes 100 6 (ark served)).0 ≡ ok (5 ∷ [])
unfolding Ark.resume Ark.read_hello Ark.greet Ark.accept Ark.handshake Ark.after_handshake
    Ark.after_open Ark.serve Ark.after_packet Ark.message_turn Ark.next_message open_packet
    into_bytes fixed Framing.resume Framing.clear Framing.take_frame Framing.compact
    Framing.make_room Framing.drop_full Framing.ingest Framing.read_more Framing.refill
    Framing.act_on Framing.frame_pass Framing.frame_loop Framing.next_frame Framing.decode_frame
    Framing.frame_blob Framing.decode_range Framing.next_packet Framing.send_reset
    Framing.send_packet Framing.send_frame Framing.write_flushed Framing.new slice slice? write_at
    chunked read next_chunk
ark_serves = refl

next_message-Surfaces_example :
    Surfaces env plain fixed bytes
      (Ark.next_message env plain fixed bytes 100 6 (ark served)).0
      (Ark.next_message env plain fixed bytes 100 6 (ark served)).1
next_message-Surfaces_example = next_message-Surfaces env plain fixed bytes 100 6 (ark served)

next_message-LoopEnds_example :
    LoopEnds env plain fixed chunked_script shifting-CobsLaws index-MemchrLaws bytes 33
      (Ark.next_message env plain fixed bytes 100 34 (ark served))
unfolding chunked_script Framing.new slice
next_message-LoopEnds_example =
    next_message-LoopEnds env plain fixed chunked_script shifting-CobsLaws index-MemchrLaws bytes
      100 34 33 (ark served) (omega arith, omega arith) (omega arith)
      (record { valid = (new-IsValid env (stream served) []).0; coming = omega arith })

send_message-Remains_example :
    Remains env plain fixed bytes 2
      (5 ∷ [])
      (ark [])
      (Ark.send_message env plain fixed 2 bytes (5 ∷ []) (ark [])).0
      (Ark.send_message env plain fixed 2 bytes (5 ∷ []) (ark [])).1
send_message-Remains_example =
    send_message-Remains env plain fixed bytes 2 (5 ∷ []) (ark []) shifting-CobsLaws
      (new-IsValid env (stream []) []).0
