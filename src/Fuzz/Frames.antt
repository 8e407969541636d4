-- ===== src/Fuzz/Frames.antt =====
-- What the fuzz target asserts: the frames collected are exactly those within the limit, in order.
use native.Mathlib.Decide.{dec_le}
use darkbio_wire_rs.Common.{
  ℕ, zero, suc, ◌+◌, ◌≤◌, ◌<◌, ◌≡◌, subst, sym, ap, ◌∙◌, some, List, [], ◌∷◌, ◌++◌, map, length,
  length-append, length-map, map-append, arith, leb, le→leb, lt→leb, All, if◌then◌else◌,
}
use darkbio_wire_rs.Error.{Outcome, ok, err, terminated}
use darkbio_wire_rs.Io.{Env}
use darkbio_wire_rs.Io.Laws.{Event, byte, NoZero, MemchrLaws, Script}
use darkbio_wire_rs.Framing.{Framing, next_frame_blob}
use darkbio_wire_rs.Framing.Spec.{
  read_frame, read_frame-nil, read_frame-collects, read_frame-overflows, read_frame-delimiter,
  read_frame-resync,
}
use darkbio_wire_rs.Framing.Inv.{IsValid, rest}
use darkbio_wire_rs.Framing.Read.{IsEnough, Reads, next_frame_blob-Reads}
use darkbio_wire_rs.Fuzz.{wire_data, expected, after_frame, drain}

-- The stream of some frames, as events.
abbrev pub frame_events : List (List ℕ) → List Event
frame_events fs = map byte (wire_data fs)

module _ (limit : ℕ) where
  -- What reading a frame of such a stream gives: the first that is within the limit.
  abbrev first_of : List (List ℕ) → Outcome (List ℕ) × List Event
  first_of [] = (err terminated, [])
  first_of (f ∷ fs) = if leb (length f) limit then (ok f, frame_events fs) else first_of fs

  events-cons :
      (f : List ℕ) (fs : List (List ℕ))
      → frame_events (f ∷ fs) ≡ map byte f ++ (byte 0 ∷ frame_events fs)
  unfolding wire_data
  events-cons f fs = map-append byte f (0 ∷ wire_data fs)

  read_frame-first :
      (fs : List (List ℕ))
      → All NoZero fs
      → read_frame limit (some []) (frame_events fs) ≡ first_of fs
  unfolding wire_data
  read_frame-first [] z = read_frame-nil limit (some [])
  read_frame-first (f ∷ fs) z = elim (dec_le (length f) limit) [
    | yes fits ↦ rw (le→leb (length f) limit fits) (
        ap (read_frame limit (some [])) (events-cons f fs)
        ∙ read_frame-collects limit f [] _ z.0 (omega arith)
        ∙ read_frame-delimiter limit f _)
    | no long ↦ rw (lt→leb (length f) limit (omega arith)) (
        ap (read_frame limit (some [])) (events-cons f fs)
        ∙ read_frame-overflows limit f [] _ z.0 (omega arith) (omega arith)
        ∙ read_frame-resync limit _
        ∙ read_frame-first fs z.1)
  ]

module _ {R W : Type 0} (env : Env R W) (script : Script env.reader) (laws : MemchrLaws env.memchr)
    (fuel : ℕ) where
  abbrev HasFuel : List (List ℕ) → Type 0
  HasFuel fs = IsEnough env script fuel (frame_events fs)

  HasFuel-tail : (f : List ℕ) (fs : List (List ℕ)) → HasFuel (f ∷ fs) → HasFuel fs
  unfolding wire_data
  HasFuel-tail f fs h =
      let n : length (frame_events (f ∷ fs)) ≡ length f + suc (length (frame_events fs)) =
        (omega (
          arith,
          length-map byte (f ++ (0 ∷ wire_data fs)),
          length-append f (0 ∷ wire_data fs),
          length-map byte (wire_data fs),
        )) in
      record { fuelled = omega (arith, n, h.fuelled); small = omega (arith, n, h.small) }

  blob-first :
      (fs : List (List ℕ)) (st : Framing R W)
      → All NoZero fs
      → HasFuel fs
      → IsValid env.frame_limit st
      → rest env script st ≡ frame_events fs
      → Reads env script (first_of env.frame_limit fs) (next_frame_blob env fuel st)
  blob-first fs st z h v e =
      subst (λ t. Reads env script t (next_frame_blob env fuel st))
        (ap (read_frame env.frame_limit (some [])) e ∙ read_frame-first env.frame_limit fs z)
        (next_frame_blob-Reads env script laws fuel st v
          (subst (IsEnough env script fuel) (sym e) h))

  -- What is collected from a call on, if the call gave the first frame of the stream.
  after_frame-expected :
      (fs : List (List ℕ)) (calls : ℕ) (p : Outcome (List ℕ) × Framing R W)
      → All NoZero fs
      → HasFuel fs
      → length fs ≤ calls
      → Reads env script (first_of env.frame_limit fs) p
      → after_frame env fuel (drain env fuel calls) p.0 p.1 ≡ (expected env.frame_limit fs, ok tt)
  unfolding after_frame expected drain
  after_frame-expected [] calls p z h c r = let e : p.0 ≡ err terminated = ap (λ q. q.0) r.1 in rw e
  after_frame-expected (f ∷ fs) zero p z h c r = absurd (omega arith)
  after_frame-expected (f ∷ fs) (suc calls) p z h c r = elim (dec_le (length f) env.frame_limit) [
    | yes fits ↦
        let fewer : length fs ≤ calls = omega arith in
        let r' : (p.0, rest env script p.1) ≡ (ok f, frame_events fs) =
          (r.1 ∙ rw (le→leb (length f) env.frame_limit fits)) in
        let e : p.0 ≡ ok f = ap (λ q. q.0) r' in
        let ih =
          after_frame-expected fs calls (next_frame_blob env fuel p.1) z.1 (HasFuel-tail f fs h)
            fewer (blob-first fs p.1 z.1 (HasFuel-tail f fs h) r.0 (ap (λ q. q.1) r')) in
        rw (e, le→leb (length f) env.frame_limit fits, ih, drain)
    | no long ↦
        let r' : (p.0, rest env script p.1) ≡ first_of env.frame_limit fs =
          (r.1 ∙ rw (lt→leb (length f) env.frame_limit (omega arith))) in
        rw (lt→leb (length f) env.frame_limit (omega arith))
          (after_frame-expected fs (suc calls) p z.1 (HasFuel-tail f fs h) (omega arith) (r.0, r'))
  ]

  -- Reading a stream of frames without zeros to its end gives exactly the frames of at most
  -- `limit` bytes, in order and unchanged, whatever the portions, and then stops at the end: no
  -- call fails, panics or runs out of fuel. Two passes for each byte of the stream are enough, and
  -- one call more than there are frames.
  pub drain-expected :
      (fs : List (List ℕ)) (calls : ℕ) (st : Framing R W)
      → All NoZero fs
      → HasFuel fs
      → length fs < calls
      → IsValid env.frame_limit st
      → rest env script st ≡ frame_events fs
      → drain env fuel calls st ≡ (expected env.frame_limit fs, ok tt)
  unfolding drain
  drain-expected fs zero st z h c v e = absurd (omega arith)
  drain-expected fs (suc calls) st z h c v e =
      after_frame-expected fs calls (next_frame_blob env fuel st) z h (omega arith)
        (blob-first fs st z h v e)
