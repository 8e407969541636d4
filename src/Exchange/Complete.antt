-- ===== src/Exchange/Complete.antt =====
-- A whole session, in the concrete world, with a stale packet in the host's way.
use darkbio_wire_rs.Common.{ℕ, refl, List, [], ◌∷◌, ◌++◌, arith}
use darkbio_wire_rs.Common.Slices.{slice, slice?, write_at}
use darkbio_wire_rs.Io.Laws.{byte}
use darkbio_wire_rs.Attestation
use darkbio_wire_rs.Attestation.{fixed, pinned, into_bytes}
use darkbio_wire_rs.Session.{seal, seal_scratch, open_packet}
use darkbio_wire_rs.Framing
use darkbio_wire_rs.Framing.Inv.{new-IsValid}
use darkbio_wire_rs.Host
use darkbio_wire_rs.Ark
use darkbio_wire_rs.Exchange.World.{env, stream, host, ark}
use darkbio_wire_rs.Exchange.Tests.{tail_of}
use darkbio_wire_rs.Exchange.Agreed.{host_says, ark_says, unread}
use darkbio_wire_rs.Exchange.Dialogue.{talk}
use darkbio_wire_rs.Exchange.Talk.{
  to_ark, to_host, ark_budget, host_budget, host_calls, ark_calls, host_results, ark_results,
}
use darkbio_wire_rs.Exchange.Whole.{Concludes, session-Concludes}
use darkbio_wire_rs.Fuzz.{chunked, read, next_chunk}
use darkbio_wire_rs.Fuzz.Portions.{chunked_script}
use darkbio_wire_rs.Tests.World.{index-MemchrLaws, recorder_sink}
use darkbio_wire_rs.Tests.Codec.{shifting-CobsLaws}
use darkbio_wire_rs.Tests.Cipher.{plain, plain_secure, bytes, bytes_codec}
use darkbio_wire_rs.Tests.Honest.{plain_honest, plain_room}

-- The handshake and two messages of the host.
abbrev asked : List ℕ
asked = host_says ++ (1 ∷ 6 ∷ (tail_of 3 ++ (1 ∷ 4 ∷ tail_of 4)))

-- The handshake and a message of the Ark.
abbrev replied : List ℕ
replied = ark_says ++ (1 ∷ 6 ∷ tail_of 2)

abbrev host_stream : List ℕ
host_stream = 1 ∷ 10 ∷ 0 ∷ (replied ++ (7 ∷ []))

abbrev ark_stream : List ℕ
ark_stream = asked ++ (8 ∷ [])

session-Concludes_example :
    Concludes env fixed plain_secure plain_honest plain_room
      (pinned 5)
      bytes
      bytes_codec
      2
      (λ n h. omega arith)
      shifting-CobsLaws
      chunked_script
      index-MemchrLaws
      recorder_sink
      200
      1
      (record { cwt = 5 ∷ [] })
      talk
      2
      3
      (byte 7 ∷ [])
      (byte 8 ∷ [])
      (Host.Portions.answers env plain
        (pinned 5)
        2
        bytes
        200
        (Host.History.connect ∷ host_calls talk)
        (host host_stream))
      (Ark.Portions.replies env plain fixed 2 bytes 200 3 (ark_calls talk) (ark ark_stream))
unfolding host_calls ark_calls ark_budget host_budget host_results ark_results Host.Portions.answers
    Host.Portions.answer Ark.Portions.replies Ark.Portions.reply chunked_script Host.handshake
    Host.negotiate Host.skip_stale Host.read_ark_hello Host.establish Ark.read_hello Ark.greet
    Ark.accept Ark.handshake Ark.after_handshake into_bytes fixed Attestation.new pinned
    Ark.next_message Ark.message_turn Ark.after_packet Ark.serve Ark.after_open Ark.resume
    Ark.send_message Ark.seal_with Ark.deliver Ark.guard_session Ark.guard_transport Framing.resume
    Framing.clear Framing.take_frame Framing.compact Framing.make_room Framing.drop_full
    Framing.ingest Framing.read_more Framing.refill Framing.act_on Framing.frame_pass
    Framing.frame_loop Framing.next_frame Framing.decode_frame Framing.frame_blob
    Framing.decode_range Framing.next_packet Framing.send_reset Framing.send_packet
    Framing.send_frame Framing.write_flushed Framing.new slice slice? write_at chunked read
    next_chunk Host.send_message Host.seal_with Host.deliver Host.guard_session Host.guard_transport
    seal seal_scratch Host.next_message Host.receive Host.open_with open_packet
session-Concludes_example =
    session-Concludes env fixed plain_secure plain_honest plain_room (pinned 5) bytes bytes_codec 2
      (λ n h. omega arith) shifting-CobsLaws chunked_script index-MemchrLaws recorder_sink 200 1
      (5 ∷ []) (to_host (5 ∷ []) ∷ to_ark (3 ∷ []) ∷ []) 2 3 (record { cwt = 5 ∷ [] }) unread asked
      replied (byte 7 ∷ []) (byte 8 ∷ []) (host host_stream) (ark ark_stream)
      (omega arith, (omega arith, (omega arith, tt))) refl refl (omega arith) refl refl
      (omega arith) ((omega arith, omega arith, refl), tt)
      (new-IsValid env (stream host_stream) []).0 (new-IsValid env (stream ark_stream) []).0 refl
      refl refl refl (record { fuelled = omega arith; small = omega arith })
      (record { fuelled = omega arith; small = omega arith })
