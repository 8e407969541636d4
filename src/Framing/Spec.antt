-- ===== src/Framing/Spec.antt =====
-- What the framer promises of a stream, without buffers: frames end at zeros, a frame longer than
-- the limit is dropped, and what a failure of the stream finds unfinished is kept, unless it is
-- part of a frame that is already too long.
pub mod Ends
use darkbio_wire_rs.Common.{
  ℕ, zero, suc, ◌+◌, ◌≤◌, ◌<◌, ◌≡◌, refl, ap, ◌∙◌, Option, none, some, List, [], ◌∷◌, ◌++◌, map,
  length, length-append, append_assoc, append-nil, arith, ltb, lt→ltb, le→ltb, if◌then◌else◌,
}
use native.Mathlib.Decide.{dec_lt}
use darkbio_wire_rs.Error.{IoError, recv_failed, terminated, Outcome, ok, err}
use darkbio_wire_rs.Io.Laws.{Event, byte, broken, NoZero}

-- The bytes of the frame being collected; `none` once it is too long.
abbrev pub Collected : Type 0
Collected = Option (List ℕ)

abbrev pub unread : Collected → List Event
unread none = []
unread (some acc) = map byte acc

module _ (limit : ℕ) where
  pub collect : Collected → ℕ → Collected
  collect none b = none
  collect (some acc) b = if ltb (length acc) limit then some (acc ++ (b ∷ [])) else none

  -- The next frame of the stream, and the stream behind it.
  pub read_frame : Collected → List Event → Outcome (List ℕ) × List Event
  read_frame c [] = (err terminated, unread c)
  read_frame c (broken e ∷ es) = (err (recv_failed e), unread c ++ es)
  read_frame none (byte zero ∷ es) = read_frame (some []) es
  read_frame (some acc) (byte zero ∷ es) = (ok acc, es)
  read_frame c (byte (suc b) ∷ es) = read_frame (collect c (suc b)) es

  pub read_frame-nil : (c : Collected) → read_frame c [] ≡ (err terminated, unread c)
  unfolding read_frame
  read_frame-nil none = refl
  read_frame-nil (some acc) = refl

  pub read_frame-broken :
      (c : Collected) (e : IoError) (es : List Event)
      → read_frame c (broken e ∷ es) ≡ (err (recv_failed e), unread c ++ es)
  unfolding read_frame
  read_frame-broken none e es = refl
  read_frame-broken (some acc) e es = refl

  pub read_frame-delimiter :
      (acc : List ℕ) (es : List Event) → read_frame (some acc) (byte 0 ∷ es) ≡ (ok acc, es)
  unfolding read_frame
  read_frame-delimiter acc es = refl

  pub read_frame-resync :
      (es : List Event) → read_frame none (byte 0 ∷ es) ≡ read_frame (some []) es
  unfolding read_frame
  read_frame-resync es = refl

  collect_fits :
      (acc : List ℕ) (b : ℕ) → length acc < limit → collect (some acc) b ≡ some (acc ++ (b ∷ []))
  unfolding collect
  collect_fits acc b h = rw (lt→ltb (length acc) limit h)

  collect_overflows : (acc : List ℕ) (b : ℕ) → limit ≤ length acc → collect (some acc) b ≡ none
  unfolding collect
  collect_overflows acc b h = rw (le→ltb (length acc) limit h)

  -- Bytes without a zero are collected, as long as they fit.
  pub read_frame-collects :
      (p acc : List ℕ) (es : List Event)
      → NoZero p
      → length acc + length p ≤ limit
      → read_frame (some acc) (map byte p ++ es) ≡ read_frame (some (acc ++ p)) es
  unfolding read_frame
  read_frame-collects [] acc es z h = rw (append-nil acc)
  read_frame-collects (zero ∷ p) acc es z h = absurd (z.0 refl)
  read_frame-collects (suc b ∷ p) acc es z h =
      ap (λ c. read_frame c (map byte p ++ es)) (collect_fits acc (suc b) (omega arith))
      ∙ read_frame-collects p (acc ++ (suc b ∷ [])) es z.1
          (omega (arith, length-append acc (suc b ∷ [])))
      ∙ ap (λ l. read_frame (some l) es) (append_assoc acc (suc b ∷ []) p)

  -- Within a frame that is too long they are dropped.
  pub read_frame-skips :
      (p : List ℕ) (es : List Event)
      → NoZero p
      → read_frame none (map byte p ++ es) ≡ read_frame none es
  unfolding read_frame collect
  read_frame-skips [] es z = refl
  read_frame-skips (zero ∷ p) es z = absurd (z.0 refl)
  read_frame-skips (suc b ∷ p) es z = read_frame-skips p es z.1

  -- More of them than fit make the frame too long.
  pub read_frame-overflows :
      (p acc : List ℕ) (es : List Event)
      → NoZero p
      → length acc ≤ limit
      → limit < length acc + length p
      → read_frame (some acc) (map byte p ++ es) ≡ read_frame none es
  unfolding read_frame
  read_frame-overflows [] acc es z k h = absurd (omega arith)
  read_frame-overflows (zero ∷ p) acc es z k h = absurd (z.0 refl)
  read_frame-overflows (suc b ∷ p) acc es z k h = elim (dec_lt (length acc) limit) [
    | yes fits ↦
        ap (λ c. read_frame c (map byte p ++ es)) (collect_fits acc (suc b) fits)
        ∙ read_frame-overflows p (acc ++ (suc b ∷ [])) es z.1
            (omega (arith, length-append acc (suc b ∷ [])))
            (omega (arith, length-append acc (suc b ∷ [])))
    | no full ↦
        ap (λ c. read_frame c (map byte p ++ es)) (collect_overflows acc (suc b) (omega arith))
        ∙ read_frame-skips p es z.1
  ]
