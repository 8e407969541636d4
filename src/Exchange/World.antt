-- ===== src/Exchange/World.antt =====
-- The two sides in a concrete world.
use darkbio_wire_rs.Common.{ℕ, some, List, [], ◌∷◌}
use darkbio_wire_rs.Io.{Env}
use darkbio_wire_rs.Attestation.{Attestation}
use darkbio_wire_rs.Framing
use darkbio_wire_rs.Framing.{Framing, write_flushed, send_frame, send_packet}
use darkbio_wire_rs.Host.{HostSide}
use darkbio_wire_rs.Ark.{ArkSide}
use darkbio_wire_rs.Fuzz.{ChunkedReader, chunked}
use darkbio_wire_rs.Tests.World.{index, recorder}
use darkbio_wire_rs.Tests.Codec.{shifting}
use darkbio_wire_rs.Tests.Cipher.{plain}

-- Frames of at most 20 bytes.
abbrev pub env : Env ChunkedReader (List ℕ)
env = record {
  reader = chunked;
  writer = recorder;
  memchr = index;
  cobs = shifting;
  frame_limit = 20;
}

-- A stream in portions of three bytes.
abbrev pub stream : List ℕ → ChunkedReader
stream xs = record { bytes = xs; pos = 0; chunks = 3 ∷ []; chunk_idx = 0 }

abbrev pub host : List ℕ → HostSide ChunkedReader (List ℕ) plain
host xs = record {
  framing = Framing.new env (stream xs) [];
  session = some (record { sender = (7, 0); receiver = (9, 0) });
  rng = 0;
}

abbrev pub ark : List ℕ → ArkSide ChunkedReader (List ℕ) Attestation plain
ark xs = record {
  framing = Framing.new env (stream xs) [];
  signer = 5;
  attester = record { cwt = 5 ∷ [] };
  session = some (record { sender = (9, 0); receiver = (7, 0) });
  rng = 0;
}
