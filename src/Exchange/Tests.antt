-- ===== src/Exchange/Tests.antt =====
-- The two sides in the concrete world.
use darkbio_wire_rs.Common.{ℕ, refl, List, [], ◌∷◌, ◌++◌, arith}
use darkbio_wire_rs.Common.Slices.{write_at, slice}
use darkbio_wire_rs.Io.Laws.{byte}
use darkbio_wire_rs.Attestation.{fixed}
use darkbio_wire_rs.Session.{seal, seal_scratch}
use darkbio_wire_rs.Framing
use darkbio_wire_rs.Framing.{Framing, write_flushed, send_frame, send_packet}
use darkbio_wire_rs.Framing.Inv.{new-IsValid}
use darkbio_wire_rs.Host
use darkbio_wire_rs.Host.{HostSide}
use darkbio_wire_rs.Ark
use darkbio_wire_rs.Ark.{ArkSide}
use darkbio_wire_rs.Exchange.{IsLinked}
use darkbio_wire_rs.Exchange.ToArk.{Exchanged, host_to_ark}
use darkbio_wire_rs.Exchange.ToHost.{Answered, ark_to_host}
use darkbio_wire_rs.Exchange.World.{env, stream, host, ark}
use darkbio_wire_rs.Fuzz.Portions.{chunked_script}
use darkbio_wire_rs.Tests.World.{index-MemchrLaws, recorder_sink}
use darkbio_wire_rs.Tests.Codec.{shifting-CobsLaws}
use darkbio_wire_rs.Tests.Cipher.{plain, plain_secure, bytes, bytes_codec}

pub linked : (k n : ℕ) (xs ys : List ℕ) → IsLinked env plain_secure k n (host xs) (ark ys)
linked k n xs ys = record {
  host = record { sender = (7, 0); receiver = (9, 0) };
  ark = record { sender = (9, 0); receiver = (7, 0) };
  host_session = refl;
  ark_session = refl;
  to_ark = refl;
  to_host = refl;
  host_valid = (new-IsValid env (stream xs) []).0;
  ark_valid = (new-IsValid env (stream ys) []).0;
}

-- A frame of the test codec: it starts with a 1, and shows each byte plus one.
abbrev pub tail_of : ℕ → List ℕ
tail_of b = b ∷ b ∷ b ∷ b ∷ b ∷ b ∷ b ∷ b ∷ b ∷ b ∷ b ∷ b ∷ b ∷ b ∷ b ∷ b ∷ 0 ∷ []

host_to_ark_example :
    Exchanged env fixed plain_secure bytes bytes_codec 2 shifting-CobsLaws chunked_script
      index-MemchrLaws recorder_sink 3 4
      (5 ∷ [])
      (byte 1 ∷ [])
      (host []).framing
      (ark (1 ∷ 6 ∷ (tail_of 8 ++ (1 ∷ [])))).framing
      (Host.send_message env plain 2 bytes (5 ∷ []) (host []))
      (Ark.next_message env plain fixed bytes 100 1 (ark (1 ∷ 6 ∷ (tail_of 8 ++ (1 ∷ [])))))
unfolding chunked_script Framing.new Host.send_message Host.seal_with Host.deliver
    Host.guard_session Host.guard_transport seal seal_scratch send_packet send_frame write_flushed
    write_at slice
host_to_ark_example =
    host_to_ark env fixed plain_secure bytes bytes_codec 2 shifting-CobsLaws chunked_script
      index-MemchrLaws recorder_sink 3 4 100 0 (5 ∷ []) (1 ∷ 6 ∷ tail_of 8) (byte 1 ∷ []) (host [])
      (ark (1 ∷ 6 ∷ (tail_of 8 ++ (1 ∷ [])))) (omega arith) (omega arith)
      (linked 4 4 [] (1 ∷ 6 ∷ (tail_of 8 ++ (1 ∷ [])))) refl (omega arith) refl

ark_to_host_example :
    Answered env fixed plain_secure bytes bytes_codec 2 shifting-CobsLaws chunked_script
      index-MemchrLaws recorder_sink 4 3
      (5 ∷ [])
      (byte 1 ∷ [])
      (ark []).framing
      (host (1 ∷ 6 ∷ (tail_of 10 ++ (1 ∷ [])))).framing
      (Ark.send_message env plain fixed 2 bytes (5 ∷ []) (ark []))
      (Host.next_message env plain bytes 100 (host (1 ∷ 6 ∷ (tail_of 10 ++ (1 ∷ [])))))
unfolding chunked_script Framing.new Ark.send_message Ark.seal_with Ark.deliver Ark.guard_session
    Ark.guard_transport seal seal_scratch send_packet send_frame write_flushed write_at slice
ark_to_host_example =
    ark_to_host env fixed plain_secure bytes bytes_codec 2 shifting-CobsLaws chunked_script
      index-MemchrLaws recorder_sink 4 3 100 (5 ∷ []) (1 ∷ 6 ∷ tail_of 10) (byte 1 ∷ [])
      (host (1 ∷ 6 ∷ (tail_of 10 ++ (1 ∷ [])))) (ark []) (omega arith) (omega arith)
      (linked 4 4 (1 ∷ 6 ∷ (tail_of 10 ++ (1 ∷ []))) []) refl (omega arith) refl
