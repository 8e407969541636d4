-- ===== src/Common/Slices.antt =====
-- Ranges of a buffer: `buf[a..b]`, a write at a range's start, and a copy within the buffer.
use Prim.Native.Nat.{ℕ, ◌+◌, ◌-◌, ◌≤◌}
use mathlib.Core.Path.{◌≡◌, refl, ap, ◌∙◌}
use mathlib.Core.Bool.{◌&&◌}
use mathlib.Core.Option.{Option, none, some}
use mathlib.Core.List.{List, [], ◌++◌, append_assoc}
use native.Mathlib.Omega.{arith}
use darkbio_wire_rs.Common.Tests.{leb, if◌then◌else◌, le→leb}
use darkbio_wire_rs.Common.Lists.{
  length, take, drop, length-append, length-take, length-drop, take-append_le, drop-append_le,
  drop-drop, take-drop-split, take-take_le, drop-take, take-append_eq, drop-append_eq, take_all,
  take-append-drop,
}

module _ {ℓ} {A : Type ℓ} where
  -- The elements of a range that lies in the buffer.
  unfoldable pub slice : List A → ℕ → ℕ → List A
  slice xs a b = take (b - a) (drop a xs)

  -- `&buf[a..b]`; `none` is the panic on a range out of order or out of bounds.
  unfoldable pub slice? : List A → ℕ → ℕ → Option (List A)
  slice? xs a b = if leb a b && leb b (length xs) then some (slice xs a b) else none

  -- The buffer after `ys` was written at `a`, for a write that fits.
  unfoldable pub write_at : List A → ℕ → List A → List A
  write_at xs a ys = take a xs ++ (ys ++ drop (a + length ys) xs)

  pub slice?-in :
      (xs : List A) (a b : ℕ) → a ≤ b → b ≤ length xs → slice? xs a b ≡ some (slice xs a b)
  unfolding slice?
  slice?-in xs a b h k = rw (le→leb a b h, le→leb b (length xs) k)

  -- The front of a buffer.
  pub front-slice? :
      (xs buf : List A)
      → take (length xs) buf ≡ xs
      → length xs ≤ length buf
      → slice? buf 0 (length xs) ≡ some xs
  unfolding slice
  front-slice? xs buf e h =
      let whole : length xs - 0 ≡ length xs = omega arith in
      slice?-in buf 0 (length xs) (omega arith) h ∙ ap some (rw whole e)

  pub length-slice : (xs : List A) (a b : ℕ) → a ≤ b → b ≤ length xs → length (slice xs a b) ≡ b - a
  unfolding slice
  length-slice xs a b h k = omega (arith, length-take (b - a) (drop a xs), length-drop a xs)

  pub slice_self : (xs : List A) (a : ℕ) → slice xs a a ≡ []
  unfolding slice
  slice_self xs a = let e : a - a ≡ 0 = omega arith in rw e

  -- Two ranges that meet make up one.
  pub slice-append :
      (xs : List A) (a b c : ℕ) → a ≤ b → b ≤ c → slice xs a b ++ slice xs b c ≡ slice xs a c
  unfolding slice
  slice-append xs a b c h k =
      let meets : drop b xs ≡ drop (b - a) (drop a xs) =
        (let e : a + (b - a) ≡ b = omega arith in rw (drop-drop a (b - a) xs, e)) in
      let e : (b - a) + (c - b) ≡ c - a = omega arith in
      rw (meets, take-drop-split (b - a) (c - b) (drop a xs), e)

  -- A range of a range.
  pub take-slice :
      (xs : List A) (a b n : ℕ) → a + n ≤ b → take n (slice xs a b) ≡ slice xs a (a + n)
  unfolding slice
  take-slice xs a b n h =
      let e : a + n - a ≡ n = omega arith in rw e (take-take_le n (b - a) (drop a xs) (omega arith))

  pub drop-slice : (xs : List A) (a b n : ℕ) → drop n (slice xs a b) ≡ slice xs (a + n) b
  unfolding slice
  drop-slice xs a b n =
      let e : b - a - n ≡ b - (a + n) = omega arith in
      rw (drop-take n (b - a) (drop a xs), drop-drop a n xs, e)

  -- A front part and what follows it.
  pub slice-append-drop :
      (xs : List A) (a n : ℕ) → slice xs a (a + n) ++ drop (a + n) xs ≡ drop a xs
  unfolding slice
  slice-append-drop xs a n =
      let e : a + n - a ≡ n = omega arith in
      rw (e, ← drop-drop a n xs, take-append-drop n (drop a xs))

  -- A range up to the end.
  pub slice_to_end : (xs : List A) (a b : ℕ) → a ≤ b → length xs ≤ b → slice xs a b ≡ drop a xs
  unfolding slice
  slice_to_end xs a b h k = take_all (b - a) (drop a xs) (omega (arith, length-drop a xs))

  pub length-write_at :
      (xs : List A) (a : ℕ) (ys : List A)
      → a + length ys ≤ length xs
      → length (write_at xs a ys) ≡ length xs
  unfolding write_at
  length-write_at xs a ys h = omega (
    arith,
    length-append (take a xs) (ys ++ drop (a + length ys) xs),
    length-append ys (drop (a + length ys) xs),
    length-take a xs,
    length-drop (a + length ys) xs,
  )

  -- A range that ends where the write begins is not changed.
  pub slice-write_at :
      (xs : List A) (a b c : ℕ) (ys : List A)
      → a ≤ b
      → b ≤ c
      → c ≤ length xs
      → slice (write_at xs c ys) a b ≡ slice xs a b
  unfolding slice write_at
  slice-write_at xs a b c ys h k l = rw (
    drop-append_le a (take c xs) _ (omega (arith, length-take c xs)),
    drop-take a c xs,
    take-append_le (b - a) (take (c - a) (drop a xs)) _
        (omega (arith, length-take (c - a) (drop a xs), length-drop a xs)),
    take-take_le (b - a) (c - a) (drop a xs) (omega arith),
  )

  -- What was written is read back.
  pub slice-write_at_self :
      (xs : List A) (a : ℕ) (ys : List A)
      → a ≤ length xs
      → slice (write_at xs a ys) a (a + length ys) ≡ ys
  unfolding slice write_at
  slice-write_at_self xs a ys h =
      let e : a + length ys - a ≡ length ys = omega arith in
      rw (
        e,
        drop-append_eq a (take a xs) _ (omega (arith, length-take a xs)),
        take-append_eq (length ys) ys _ refl,
      )

  -- The buffer up to the end of what was written.
  pub take-write_at :
      (xs : List A) (a n : ℕ) (ys : List A)
      → a ≤ length xs
      → n ≡ a + length ys
      → take n (write_at xs a ys) ≡ take a xs ++ ys
  unfolding write_at
  take-write_at xs a n ys h e = rw (← append_assoc (take a xs) ys (drop (a + length ys) xs)) (
      take-append_eq n (take a xs ++ ys) _
        (omega (arith, length-append (take a xs) ys, length-take a xs)))
