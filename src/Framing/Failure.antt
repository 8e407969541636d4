-- ===== src/Framing/Failure.antt =====
-- A failure of the stream, such as a timeout, within a frame.
use darkbio_wire_rs.Common.{
  ℕ, ◌+◌, ◌≤◌, ◌<◌, ◌≡◌, refl, subst, ap, ◌∙◌, none, some, List, [], ◌∷◌, ◌++◌, map, length,
  append_assoc, map-append, All-append, ◌≢◌, length-append, arith,
}
use darkbio_wire_rs.Error.{IoError, recv_failed, ok, err}
use darkbio_wire_rs.Io.{Env}
use darkbio_wire_rs.Io.Laws.{Event, byte, broken, NoZero, MemchrLaws, Script}
use darkbio_wire_rs.Framing.{Framing, next_frame_blob}
use darkbio_wire_rs.Framing.Spec.{
  read_frame, read_frame-collects, read_frame-overflows, read_frame-broken, read_frame-delimiter,
}
use darkbio_wire_rs.Framing.Inv.{IsValid, rest}
use darkbio_wire_rs.Framing.Read.{IsEnough, IsEnough-mono, Reads, next_frame_blob-Reads}

module _ {R W : Type 0} (env : Env R W) (script : Script env.reader) (laws : MemchrLaws env.memchr)
    (fuel : ℕ) where
  -- Two calls in a row, on a stream whose frame `p ++ q` is broken off between its two parts.
  abbrev pub broken_frame : List ℕ → IoError → List ℕ → List Event → List Event
  broken_frame p e q es = map byte p ++ (broken e ∷ (map byte q ++ (byte 0 ∷ es)))

  second_call :
      (frame : List ℕ) (es : List Event) (st : Framing R W)
      → NoZero frame
      → length frame ≤ env.frame_limit
      → IsValid env.frame_limit st
      → IsEnough env script fuel (rest env script st)
      → rest env script st ≡ map byte frame ++ (byte 0 ∷ es)
      → Reads env script (ok frame, es) (next_frame_blob env fuel st)
  second_call frame es st z h v enough e =
      subst (λ t. Reads env script t (next_frame_blob env fuel st))
        (ap (read_frame env.frame_limit (some [])) e
          ∙ read_frame-collects env.frame_limit frame [] (byte 0 ∷ es) z (omega arith)
          ∙ read_frame-delimiter env.frame_limit frame es)
        (next_frame_blob-Reads env script laws fuel st v enough)

  -- The two calls: the failure, then a frame.
  abbrev pub FailsThenReads : IoError → List ℕ → List Event → Framing R W → Type 0
  FailsThenReads e frame es st =
      ((next_frame_blob env fuel st).0 ≡ err (recv_failed e))
      × Reads env script (ok frame, es) (next_frame_blob env fuel (next_frame_blob env fuel st).1)

  fails_then_reads :
      (e : IoError) (frame : List ℕ) (es later : List Event) (st : Framing R W)
      → NoZero frame
      → length frame ≤ env.frame_limit
      → IsValid env.frame_limit st
      → IsEnough env script fuel (rest env script st)
      → later ≡ map byte frame ++ (byte 0 ∷ es)
      → length later ≤ length (rest env script st)
      → read_frame env.frame_limit (some []) (rest env script st) ≡ (err (recv_failed e), later)
      → FailsThenReads e frame es st
  fails_then_reads e frame es later st z h v enough split shorter first =
      let (v', r) = next_frame_blob-Reads env script laws fuel st v enough in
      let st' = (next_frame_blob env fuel st).1 in
      let now : rest env script st' ≡ later = ap (λ q. q.1) (r ∙ first) in
      (
        ap (λ q. q.0) (r ∙ first),
        second_call frame es st' z h v'
            (IsEnough-mono env script fuel (rest env script st) (rest env script st')
              (rw now shorter) enough)
            (now ∙ split),
      )

  -- A failure of the stream within a frame that fits is returned, and loses nothing: the next call
  -- returns the whole frame.
  pub fails_then_resumes :
      (p q : List ℕ) (e : IoError) (es : List Event) (st : Framing R W)
      → NoZero p
      → NoZero q
      → length p + length q ≤ env.frame_limit
      → IsValid env.frame_limit st
      → IsEnough env script fuel (rest env script st)
      → rest env script st ≡ broken_frame p e q es
      → FailsThenReads e (p ++ q) es st
  fails_then_resumes p q e es st zp zq h v enough now =
      let tail = map byte q ++ (byte 0 ∷ es) in
      fails_then_reads e (p ++ q) es (map byte p ++ tail) st (All-append (λ b. b ≢ 0) p q zp zq)
        (omega (arith, length-append p q)) v enough
        (rw (map-append byte p q, append_assoc (map byte p) (map byte q) (byte 0 ∷ es)))
        (rw now (
          omega
            (arith, length-append (map byte p) tail, length-append (map byte p) (broken e ∷ tail))))
        (ap (read_frame env.frame_limit (some [])) now
          ∙ read_frame-collects env.frame_limit p [] (broken e ∷ tail) zp (omega arith)
          ∙ read_frame-broken env.frame_limit (some p) e tail)

  -- A failure of the stream within a frame that is too long, and whose rest fits a frame, ends the
  -- discarding: the next call returns that rest as a frame.
  pub fails_then_takes_tail :
      (p q : List ℕ) (e : IoError) (es : List Event) (st : Framing R W)
      → NoZero p
      → NoZero q
      → env.frame_limit < length p
      → length q ≤ env.frame_limit
      → IsValid env.frame_limit st
      → IsEnough env script fuel (rest env script st)
      → rest env script st ≡ broken_frame p e q es
      → FailsThenReads e q es st
  fails_then_takes_tail p q e es st zp zq h k v enough now =
      let tail = map byte q ++ (byte 0 ∷ es) in
      fails_then_reads e q es tail st zq k v enough refl
        (rw now (omega (arith, length-append (map byte p) (broken e ∷ tail))))
        (ap (read_frame env.frame_limit (some [])) now
          ∙ read_frame-overflows env.frame_limit p [] (broken e ∷ tail) zp (omega arith)
              (omega arith)
          ∙ read_frame-broken env.frame_limit none e tail)
