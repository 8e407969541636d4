-- ===== src/Exchange/Agreed.antt =====
-- The handshake of the two sides in the concrete world, with a stale packet in the host's way.
use darkbio_wire_rs.Common.{ℕ, zero, suc, none, ◌≡◌, refl, List, [], ◌∷◌, ◌++◌, replicate, arith}
use darkbio_wire_rs.Common.Slices.{slice, slice?, write_at}
use darkbio_wire_rs.Io.Laws.{byte}
use darkbio_wire_rs.Attestation
use darkbio_wire_rs.Attestation.{Attestation, fixed, pinned, into_bytes}
use darkbio_wire_rs.Framing
use darkbio_wire_rs.Framing.{Framing}
use darkbio_wire_rs.Framing.Inv.{new-IsValid}
use darkbio_wire_rs.Host
use darkbio_wire_rs.Host.Honest.{Sent, AllStale}
use darkbio_wire_rs.Host.Stale.{GivesUp, handshake-GivesUp}
use darkbio_wire_rs.Ark
use darkbio_wire_rs.Exchange.World.{env, stream, host, ark}
use darkbio_wire_rs.Exchange.Handshake.{Agree, handshake-Agree}
use darkbio_wire_rs.Fuzz.{chunked, read, next_chunk}
use darkbio_wire_rs.Fuzz.Portions.{chunked_script}
use darkbio_wire_rs.Tests.World.{index-MemchrLaws, recorder_sink}
use darkbio_wire_rs.Tests.Codec.{shifting-CobsLaws}
use darkbio_wire_rs.Tests.Cipher.{plain, plain_secure, bytes}
use darkbio_wire_rs.Tests.Honest.{plain_honest, plain_room}

-- The reset, the hello and the ack of the host.
abbrev pub host_says : List ℕ
host_says = 0 ∷ 0 ∷ 1 ∷ 1 ∷ 2 ∷ 0 ∷ 1 ∷ 1 ∷ 1 ∷ 6 ∷ 1 ∷ 1 ∷ 3 ∷ 0 ∷ []

-- The Ark's hello.
abbrev pub ark_says : List ℕ
ark_says = 1 ∷ 2 ∷ 6 ∷ 1 ∷ 2 ∷ 1 ∷ 3 ∷ 2 ∷ 2 ∷ 6 ∷ 0 ∷ []

-- A packet for the key 9, coded.
abbrev pub unread : List (Sent env plain)
unread = (9 ∷ [], replicate 21 0) ∷ []

abbrev host_hears : List ℕ
host_hears = 1 ∷ 10 ∷ 0 ∷ (ark_says ++ (7 ∷ []))

-- The Ark hears the host, and a number more.
abbrev ark_hears : List ℕ
ark_hears = host_says ++ (8 ∷ [])

handshake-Agree_example :
    Agree env fixed plain_secure plain_honest plain_room shifting-CobsLaws chunked_script
      index-MemchrLaws recorder_sink bytes
      (record { cwt = 5 ∷ [] })
      (byte 7 ∷ [])
      (byte 8 ∷ [])
      (Host.handshake env plain 100 (pinned 5) (host host_hears))
      (Ark.message_turn env plain fixed bytes 100 2 (ark ark_hears))
unfolding Host.handshake Host.negotiate Host.skip_stale Host.read_ark_hello Host.establish
    Ark.read_hello Ark.greet Ark.accept Ark.handshake Ark.after_handshake Ark.after_packet
    Ark.message_turn into_bytes fixed Attestation.new pinned Framing.resume Framing.clear
    Framing.take_frame Framing.compact Framing.make_room Framing.drop_full Framing.ingest
    Framing.read_more Framing.refill Framing.act_on Framing.frame_pass Framing.frame_loop
    Framing.next_frame Framing.decode_frame Framing.frame_blob Framing.decode_range
    Framing.next_packet Framing.send_reset Framing.send_packet Framing.send_frame
    Framing.write_flushed Framing.new slice slice? write_at chunked read next_chunk chunked_script
handshake-Agree_example =
    handshake-Agree env fixed plain_secure plain_honest plain_room shifting-CobsLaws chunked_script
      index-MemchrLaws recorder_sink bytes 100 1 (pinned 5) (record { cwt = 5 ∷ [] }) unread
      host_says ark_says (byte 7 ∷ []) (byte 8 ∷ []) (host host_hears) (ark ark_hears) (omega arith)
      (omega arith) refl refl (omega arith) ((omega arith, omega arith, refl), tt)
      (new-IsValid env (stream host_hears) []).0 (new-IsValid env (stream ark_hears) []).0 refl refl
      refl refl (omega arith) (omega arith)

-- More stale packets than the host skips, and a number more.
abbrev stale_bytes : ℕ → List ℕ
stale_bytes zero = 7 ∷ []
stale_bytes (suc n) = 1 ∷ 10 ∷ 0 ∷ stale_bytes n

abbrev stale_packets : ℕ → List (Sent env plain)
stale_packets zero = []
stale_packets (suc n) = (9 ∷ [], replicate 21 0) ∷ stale_packets n

stale_packets-AllStale : (n : ℕ) → AllStale env plain 1 (stale_packets n)
stale_packets-AllStale zero = tt
stale_packets-AllStale (suc n) = ((omega arith, omega arith, refl), stale_packets-AllStale n)

handshake-GivesUp_example :
    GivesUp env plain chunked_script
      (byte 7 ∷ [])
      (Host.handshake env plain 300 (pinned 5) (host (stale_bytes 33)))
    × ((Host.handshake env plain 300 (pinned 5) (host (stale_bytes 33))).1.session ≡ none)
unfolding chunked_script Framing.new slice write_at
handshake-GivesUp_example =
    handshake-GivesUp env plain chunked_script shifting-CobsLaws index-MemchrLaws 300 recorder_sink
      (pinned 5) (0 ∷ 1 ∷ []) (stale_packets 33) (byte 7 ∷ []) (host (stale_bytes 33)) refl
      (omega arith) refl (stale_packets-AllStale 33)
      (new-IsValid env (stream (stale_bytes 33)) []).0
      (record { fuelled = omega arith; small = omega arith }) refl
