-- ===== src/Limits.antt =====
-- The constants of src/lib.rs: the frame limit, the message limit that follows from it, and the
-- domain separators.
pub mod Bounds
mod Tests
use darkbio_wire_rs.Common.{ℕ, zero, suc, ◌+◌, ◌*◌, Option, none, some, String, ltb, if◌then◌else◌}

-- MAX_FRAME_SIZE.
abbrev pub max_frame_size : ℕ
max_frame_size = 2 * 1024 * 1024

-- Session::SEAL_OVERHEAD.
abbrev pub seal_overhead : ℕ
seal_overhead = 16

-- The size of the frame of a sealed message.
abbrev pub framed : (ℕ → ℕ) → ℕ → ℕ
framed encode_buffer size = encode_buffer (size + seal_overhead)

-- The loop of MAX_MESSAGE_SIZE, counting `size` down. Below 0 it would wrap, which the compiler
-- refuses in a constant: `none`.
pub shrink : (ℕ → ℕ) → ℕ → ℕ → Option ℕ
shrink encode_buffer limit zero = if ltb limit (framed encode_buffer 0) then none else some 0
shrink encode_buffer limit (suc size) =
    let rest = shrink encode_buffer limit size in
    if ltb limit (framed encode_buffer (suc size)) then rest else some (suc size)

-- MAX_MESSAGE_SIZE, for a size function of COBS and a frame limit.
pub max_message_size : (ℕ → ℕ) → ℕ → Option ℕ
max_message_size encode_buffer limit = shrink encode_buffer limit limit

abbrev pub crypto_domain_wire : String
crypto_domain_wire = "wire-v1"

abbrev pub crypto_domain_wire_ark_to_host : String
crypto_domain_wire_ark_to_host = "wire-v1:ark-to-host"

abbrev pub crypto_domain_wire_host_to_ark : String
crypto_domain_wire_host_to_ark = "wire-v1:host-to-ark"
