-- ===== src/Exchange/Dialogue.antt =====
-- A conversation, in the concrete world.
use darkbio_wire_rs.Common.{ℕ, refl, List, [], ◌∷◌, ◌++◌, arith}
use darkbio_wire_rs.Common.Slices.{write_at, slice, slice?}
use darkbio_wire_rs.Io.Laws.{byte}
use darkbio_wire_rs.Attestation.{fixed, pinned}
use darkbio_wire_rs.Session.{seal, seal_scratch, open_packet}
use darkbio_wire_rs.Framing
use darkbio_wire_rs.Framing.{Framing}
use darkbio_wire_rs.Host
use darkbio_wire_rs.Ark
use darkbio_wire_rs.Exchange.World.{env, host, ark}
use darkbio_wire_rs.Exchange.Tests.{linked, tail_of}
use darkbio_wire_rs.Exchange.Talk.{
  Talk, to_ark, to_host, ark_budget, host_budget, host_calls, ark_calls, host_results, ark_results,
}
use darkbio_wire_rs.Exchange.Conversation.{Converses, converse}
use darkbio_wire_rs.Fuzz.{chunked, read, next_chunk}
use darkbio_wire_rs.Fuzz.Portions.{chunked_script}
use darkbio_wire_rs.Tests.World.{index-MemchrLaws, recorder_sink}
use darkbio_wire_rs.Tests.Codec.{shifting-CobsLaws}
use darkbio_wire_rs.Tests.Cipher.{plain, plain_secure, bytes, bytes_codec}

-- The Ark has two messages to get and the host one.
abbrev pub talk : List (Talk (List ℕ))
talk = to_ark (5 ∷ []) ∷ to_host (5 ∷ []) ∷ to_ark (3 ∷ []) ∷ []

abbrev asked : List ℕ
asked = 1 ∷ 6 ∷ (tail_of 8 ++ (1 ∷ 4 ∷ tail_of 9))

abbrev replied : List ℕ
replied = 1 ∷ 6 ∷ tail_of 10

converse_example :
    Converses env fixed plain_secure
      (pinned 5)
      bytes
      bytes_codec
      2
      (λ n h. omega arith)
      shifting-CobsLaws
      chunked_script
      index-MemchrLaws
      recorder_sink
      100
      1
      talk
      3
      4
      (byte 1 ∷ [])
      (byte 1 ∷ [])
      (Host.Portions.answers env plain
        (pinned 5)
        2
        bytes
        100
        (host_calls talk)
        (host (replied ++ (1 ∷ []))))
      (Ark.Portions.replies env plain fixed 2 bytes 100 2
        (ark_calls talk)
        (ark (asked ++ (1 ∷ []))))
unfolding host_calls ark_calls ark_budget host_budget host_results ark_results Host.Portions.answers
    Host.Portions.answer Ark.Portions.replies Ark.Portions.reply chunked_script Ark.next_message
    Ark.message_turn Ark.after_packet Ark.serve Ark.after_open Ark.resume Ark.send_message
    Ark.seal_with Ark.deliver Ark.guard_session Ark.guard_transport Framing.resume Framing.clear
    Framing.take_frame Framing.compact Framing.make_room Framing.drop_full Framing.ingest
    Framing.read_more Framing.refill Framing.act_on Framing.frame_pass Framing.frame_loop
    Framing.next_frame Framing.decode_frame Framing.frame_blob Framing.decode_range
    Framing.next_packet Framing.send_packet Framing.send_frame Framing.write_flushed Framing.new
    slice slice? write_at chunked read next_chunk Host.send_message Host.seal_with Host.deliver
    Host.guard_session Host.guard_transport seal seal_scratch Host.next_message Host.receive
    Host.open_with open_packet
converse_example =
    converse env fixed plain_secure (pinned 5) bytes bytes_codec 2 (λ n h. omega arith)
      shifting-CobsLaws chunked_script index-MemchrLaws recorder_sink 100 1 talk 3 4 asked replied
      (byte 1 ∷ []) (byte 1 ∷ []) (host (replied ++ (1 ∷ []))) (ark (asked ++ (1 ∷ [])))
      (omega arith, (omega arith, (omega arith, tt)))
      (linked 5 5 (replied ++ (1 ∷ [])) (asked ++ (1 ∷ []))) refl refl
      (record { fuelled = omega arith; small = omega arith })
      (record { fuelled = omega arith; small = omega arith }) refl refl
