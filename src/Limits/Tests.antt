-- ===== src/Limits/Tests.antt =====
-- The message limit at a concrete size function.
use darkbio_wire_rs.Common.{ℕ, ◌+◌, ◌/◌, ◌≤◌, ◌<◌, ◌≡◌, refl, some, arith}
use darkbio_wire_rs.Limits.{framed, max_message_size, shrink, max_frame_size}
use darkbio_wire_rs.Limits.Bounds.{max_message_size-exact}

-- A byte for each 254 bytes begun, and one for an empty packet.
abbrev cobs_size : ℕ → ℕ
cobs_size n = n + n / 254 + 1

limit_300 : max_message_size cobs_size 300 ≡ some 282
unfolding max_message_size shrink
limit_300 = refl

max_message_size-exact_example :
    (m : ℕ) × (max_message_size cobs_size max_frame_size ≡ some m)
    × (framed cobs_size m ≤ max_frame_size)
    × ((n : ℕ) → m < n → max_frame_size < framed cobs_size n)
max_message_size-exact_example =
    max_message_size-exact cobs_size max_frame_size (omega arith) (λ n. omega arith)
