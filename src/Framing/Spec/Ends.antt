-- ===== src/Framing/Spec/Ends.antt =====
-- Reading a frame of a stream uses up a part of it.
use darkbio_wire_rs.Common.{
  ℕ, zero, suc, ◌+◌, ◌≤◌, ◌<◌, none, some, List, [], ◌∷◌, ◌++◌, map, length, length-append,
  length-map, arith, ltb, Bool-cases, inl, inr,
}
use darkbio_wire_rs.Error.{recv_failed, terminated, Outcome, ok, err}
use darkbio_wire_rs.Io.Laws.{Event, byte, broken}
use darkbio_wire_rs.Framing.Spec.{Collected, unread, collect, read_frame}

-- Of `n` events fewer are left, unless the stream ended.
abbrev pub FrameEnds : ℕ → Outcome (List ℕ) → List Event → Type 0
FrameEnds n (ok _) es = length es < n
FrameEnds n (err terminated) es = length es ≤ n
FrameEnds n (err (recv_failed _)) es = length es < n
FrameEnds n _ es = ⊥

FrameEnds-mono :
    (m n : ℕ) (r : Outcome (List ℕ)) (es : List Event) → m ≤ n → FrameEnds m r es → FrameEnds n r es
FrameEnds-mono m n (ok f) es h t = omega arith
FrameEnds-mono m n (err terminated) es h t = omega arith
FrameEnds-mono m n (err (recv_failed e)) es h t = omega arith
FrameEnds-mono m n r es h t = t

module _ (limit : ℕ) where
  collect-unread :
      (c : Collected) (b : ℕ) → length (unread (collect limit c b)) ≤ length (unread c) + 1
  unfolding collect
  collect-unread none b = omega arith
  collect-unread (some acc) b = elim (Bool-cases (ltb (length acc) limit)) [
    | inl t ↦ rw t (
        omega (
          arith,
          length-map byte (acc ++ (b ∷ [])),
          length-map byte acc,
          length-append acc (b ∷ []),
        ))
    | inr f ↦ rw f (omega arith)
  ]

  read_frame-FrameEnds :
      (c : Collected) (es : List Event)
      → FrameEnds
          (length (unread c) + length es)
          (read_frame limit c es).0
          (read_frame limit c es).1
  unfolding read_frame collect
  read_frame-FrameEnds none [] = omega arith
  read_frame-FrameEnds (some acc) [] = omega arith
  read_frame-FrameEnds none (broken e ∷ es) = omega arith
  read_frame-FrameEnds (some acc) (broken e ∷ es) = omega (arith, length-append (map byte acc) es)
  read_frame-FrameEnds none (byte zero ∷ es) =
      FrameEnds-mono (0 + length es) (0 + suc (length es)) (read_frame limit (some []) es).0
        (read_frame limit (some []) es).1 (omega arith) (read_frame-FrameEnds (some []) es)
  read_frame-FrameEnds (some acc) (byte zero ∷ es) = omega arith
  read_frame-FrameEnds none (byte (suc b) ∷ es) =
      FrameEnds-mono (0 + length es) (0 + suc (length es)) (read_frame limit none es).0
        (read_frame limit none es).1 (omega arith) (read_frame-FrameEnds none es)
  read_frame-FrameEnds (some acc) (byte (suc b) ∷ es) =
      let c = collect limit (some acc) (suc b) in
      FrameEnds-mono (length (unread c) + length es) (length (unread (some acc)) + suc (length es))
        (read_frame limit c es).0 (read_frame limit c es).1
        (omega (arith, collect-unread (some acc) (suc b))) (read_frame-FrameEnds c es)

  pub fresh-FrameEnds :
      (es : List Event)
      → FrameEnds (length es) (read_frame limit (some []) es).0 (read_frame limit (some []) es).1
  fresh-FrameEnds es =
      FrameEnds-mono (0 + length es) (length es) (read_frame limit (some []) es).0
        (read_frame limit (some []) es).1 (omega arith) (read_frame-FrameEnds (some []) es)
