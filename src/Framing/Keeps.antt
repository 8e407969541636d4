-- ===== src/Framing/Keeps.antt =====
-- Reading a frame leaves the writer and the other buffers alone.
use darkbio_wire_rs.Common.{
  ℕ, zero, suc, ◌≡◌, refl, ◌∙◌, Option, none, some, List, [], ◌∷◌, length, arith, ltb, Bool-cases,
  Option-cases, inl, inr, lt→ltb,
}
use darkbio_wire_rs.Common.Slices.{slice?}
use darkbio_wire_rs.Error.{IoError, Result, value, error, Outcome}
use darkbio_wire_rs.Io.{Env}
use darkbio_wire_rs.Framing.{
  Framing, Range, Pass, returned, again, resume, clear, take_frame, compact, make_room, drop_full,
  ingest, read_more, refill, act_on, frame_pass, frame_loop, next_frame,
}

module _ {R W : Type 0} where
  -- All but the reader and its buffer.
  abbrev pub outside : Framing R W → W × List ℕ × List ℕ × List ℕ
  outside st = (st.writer, st.decobs_buffer, st.encobs_buffer, st.encode_buffer)

  abbrev Keeps : Framing R W → Pass (Framing R W) → Type 0
  Keeps st (returned r st') = outside st' ≡ outside st
  Keeps st (again d st') = outside st' ≡ outside st

  Keeps-trans :
      (st st' : Framing R W) (pass : Pass (Framing R W))
      → outside st' ≡ outside st
      → Keeps st' pass
      → Keeps st pass
  Keeps-trans st st' (returned r s) e k = k ∙ e
  Keeps-trans st st' (again d s) e k = k ∙ e

  resume-Keeps :
      (st : Framing R W) (next : ℕ → Framing R W → Outcome Range × Framing R W)
      (pass : Pass (Framing R W))
      → ((d : ℕ) (s : Framing R W) → outside (next d s).1 ≡ outside s)
      → Keeps st pass
      → outside (resume next pass).1 ≡ outside st
  unfolding resume
  resume-Keeps st next (returned r s) k e = e
  resume-Keeps st next (again d s) k e = k d s ∙ e

module _ {R W : Type 0} (env : Env R W) where
  ingest-Keeps :
      (d : ℕ) (st : Framing R W) (res : Result IoError (List ℕ) × R)
      → Keeps st (ingest env d st res)
  unfolding ingest
  ingest-Keeps d st (error e, r) = refl
  ingest-Keeps d st (value [], r) = refl
  ingest-Keeps d st (value (b ∷ bs), r) = refl

  read_more-Keeps : (d : ℕ) (st : Framing R W) → Keeps st (read_more env d st)
  unfolding read_more
  read_more-Keeps d st = elim (Bool-cases (ltb (length st.reader_buffer) st.reader_filled)) [
    | inl e ↦ rw e refl
    | inr e ↦ rw e (ingest-Keeps d st _)
  ]

  drop_full-keeps : (d : ℕ) (st : Framing R W) → outside (drop_full env d st).1 ≡ outside st
  unfolding drop_full clear
  drop_full-keeps d st = ground arith

  compact-keeps :
      (st : Framing R W) (st' : Framing R W) → compact env st ≡ some st' → outside st' ≡ outside st
  unfolding compact
  compact-keeps st st' e = ground arith

  make_room-keeps :
      (d d' : ℕ) (st st' : Framing R W)
      → make_room env d st ≡ some (d', st')
      → outside st' ≡ outside st
  unfolding make_room clear
  make_room-keeps d d' st st' e =
      ground (arith, compact-keeps (record st { reader_search = st.reader_filled }) st')

  refill-Keeps : (d : ℕ) (st : Framing R W) → Keeps st (refill env d st)
  unfolding refill
  refill-Keeps d st = elim (Option-cases (make_room env d st)) [
    | inl e ↦ rw (e, refill) refl
    | inr ((d', st'), e) ↦
        rw (e, refill)
          (Keeps-trans st (drop_full env d' st').1 _
            (drop_full-keeps d' st' ∙ make_room-keeps d d' st st' e)
            (read_more-Keeps (drop_full env d' st').0 (drop_full env d' st').1))
  ]

  act_on-Keeps : (d : ℕ) (st : Framing R W) (found : Option ℕ) → Keeps st (act_on env d st found)
  unfolding act_on take_frame
  act_on-Keeps zero st (some i) = refl
  act_on-Keeps (suc d) st (some i) = rw (lt→ltb 0 (suc d) (omega arith)) refl
  act_on-Keeps d st none = refill-Keeps d st

  frame_pass-Keeps : (d : ℕ) (st : Framing R W) → Keeps st (frame_pass env d st)
  unfolding frame_pass
  frame_pass-Keeps d st =
      elim (Option-cases (slice? st.reader_buffer st.reader_search st.reader_filled)) [
        | inl e ↦ rw (e, frame_pass) refl
        | inr (window, e) ↦ rw (e, frame_pass) (act_on-Keeps d st (env.memchr 0 window))
      ]

  frame_loop-keeps :
      (fuel d : ℕ) (st : Framing R W) → outside (frame_loop env fuel d st).1 ≡ outside st
  unfolding frame_loop
  frame_loop-keeps zero d st = refl
  frame_loop-keeps (suc fuel) d st =
      resume-Keeps st (frame_loop env fuel) (frame_pass env d st) (frame_loop-keeps fuel)
        (frame_pass-Keeps d st)

  pub next_frame-keeps :
      (fuel : ℕ) (st : Framing R W) → outside (next_frame env fuel st).1 ≡ outside st
  unfolding next_frame
  next_frame-keeps fuel st = frame_loop-keeps fuel 0 st
