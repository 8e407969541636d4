-- ===== src/Limits/Bounds.antt =====
-- MAX_MESSAGE_SIZE is the largest size whose sealed and framed message fits a frame.
use darkbio_wire_rs.Common.{ℕ, zero, suc, ◌+◌, ◌≤◌, ◌<◌, ◌≡◌, some, arith, lt→ltb, le→ltb}
use native.Mathlib.Decide.{dec_lt}
use darkbio_wire_rs.Limits.{framed, seal_overhead, shrink, max_message_size}

module _ (encode_buffer : ℕ → ℕ) (limit : ℕ) where
  -- The loop ends at the first size, going down, that fits.
  shrink-exact :
      (size : ℕ)
      → framed encode_buffer 0 ≤ limit
      → (m : ℕ) × (shrink encode_buffer limit size ≡ some m)
        × (m ≤ size)
        × (framed encode_buffer m ≤ limit)
        × ((n : ℕ) → m < n → n ≤ size → limit < framed encode_buffer n)
  unfolding shrink
  shrink-exact zero h = (
    0,
    rw (le→ltb limit (framed encode_buffer 0) h),
    omega arith,
    h,
    λ n p q. absurd (omega arith),
  )
  shrink-exact (suc size) h = elim (dec_lt limit (framed encode_buffer (suc size))) [
    | yes big ↦
        let (m, e, le, fits, above) = shrink-exact size h in
        (
          m,
          rw (lt→ltb limit (framed encode_buffer (suc size)) big, shrink) e,
          omega arith,
          fits,
          λ n p q. elim (dec_lt size n) [
            | yes top ↦ let t : n ≡ suc size = omega arith in rw t big
            | no low ↦ above n p (omega arith)
          ],
        )
    | no fits ↦ (
      suc size,
      rw (le→ltb limit (framed encode_buffer (suc size)) (omega arith)),
      omega arith,
      omega arith,
      λ n p q. absurd (omega arith),
    )
  ]

  -- The constant exists if an empty message fits a frame. A message of that size fits a frame,
  -- sealed and framed, and none of a larger size does, for a COBS size function that never
  -- shrinks its input.
  pub max_message_size-exact :
      framed encode_buffer 0 ≤ limit
      → ((n : ℕ) → n ≤ encode_buffer n)
      → (m : ℕ) × (max_message_size encode_buffer limit ≡ some m)
        × (framed encode_buffer m ≤ limit)
        × ((n : ℕ) → m < n → limit < framed encode_buffer n)
  unfolding max_message_size
  max_message_size-exact h grows =
      let (m, e, le, fits, above) = shrink-exact limit h in
      (
        m,
        e,
        fits,
        λ n p. elim (dec_lt limit n) [
          | yes big ↦ omega (arith, grows (n + seal_overhead))
          | no small ↦ above n p (omega arith)
        ],
      )
