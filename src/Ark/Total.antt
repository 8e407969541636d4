-- ===== src/Ark/Total.antt =====
-- The Ark's single steps come to an end.
use darkbio_wire_rs.Common.{
  ℕ, zero, suc, ◌≤◌, ◌<◌, Option, none, some, List, length, arith, Bool-cases, inl, inr, ◌==◌,
}
use darkbio_wire_rs.Common.Slices.{slice?-in}
use darkbio_wire_rs.Error.{
  recv_failed, terminated, frame_decoding_failed, Outcome, ok, err, panic, exhausted, Op, and_then,
  ◌>>=◌,
}
use darkbio_wire_rs.Error.Total.{Finishes, Total, mono-Finishes, pure-Total}
use darkbio_wire_rs.Io.{Env}
use darkbio_wire_rs.Io.Laws.{MemchrLaws, Script, CobsLaws}
use darkbio_wire_rs.Crypto.{Crypto}
use darkbio_wire_rs.Attestation.{Attester}
use darkbio_wire_rs.Framing.{Framing, next_packet, send_packet}
use darkbio_wire_rs.Framing.Inv.{IsValid, rest}
use darkbio_wire_rs.Framing.Live.{
  Live, Fuelled, PacketEnds, next_packet-PacketEnds, SendEnds, send_packet-SendEnds,
}
use darkbio_wire_rs.Ark.{ArkSide, on_framing, draw, attest, packet, sized_h2a, read_hello}

module _ {R W A : Type 0} (env : Env R W) (c : Crypto) (attester : Attester A)
    (script : Script env.reader) (cobs : CobsLaws env.cobs) (laws : MemchrLaws env.memchr) where
  -- At most `k` events to come.
  abbrev pub Alive : ℕ → ArkSide R W A c → Type 0
  Alive k a = Live env script k a.framing

  abbrev pub Sized : Option ℕ → Type 0
  Sized none = Unit
  Sized (some size) = size ≤ env.frame_limit

  abbrev pub Settles : ℕ → {T : Type 0} → Op (ArkSide R W A c) T → Type 0
  Settles k m = Total (Alive k) (λ t. Unit {0}) m

  pub draw-Settles :
      (k : ℕ) {T : Type 0} (f : c.Rng → T × c.Rng) → Settles k (draw env c attester f)
  draw-Settles k f = record { finishes = λ a e. (tt, e) }

  pub attest-Settles : (k : ℕ) → Settles k (attest env c attester)
  attest-Settles k = record { finishes = λ a e. (tt, e) }

  pub signer-Settles : (k : ℕ) → Settles k (λ a. (ok a.signer, a))
  signer-Settles k = record { finishes = λ a e. (tt, e) }

  pub packet-Settles :
      (k size : ℕ) → size ≤ env.frame_limit → Settles k (packet env c attester size)
  packet-Settles k size h = record {
    finishes = λ a e.
        rw
          (slice?-in a.framing.decobs_buffer 0 size (omega arith)
            (omega (arith, e.valid.decobs_sized)))
          (tt, e);
  }

  pub sized-Settles : (k : ℕ) (encap : List ℕ) → Settles k (sized_h2a env c attester encap)
  sized-Settles k encap = elim (Bool-cases (length encap == c.encap_key_size)) [
    | inl t ↦ record { finishes = λ a e. rw (sized_h2a, t) (tt, e) }
    | inr f ↦ record { finishes = λ a e. rw (sized_h2a, f) e }
  ]

  sent-Finishes :
      (k : ℕ) (r : Outcome (Unit {0})) (st : Framing R W) (a : ArkSide R W A c)
      → SendEnds env script k r st
      → Finishes (Alive k) (λ t. Unit {0}) r (record a { framing = st })
  sent-Finishes k (ok u) st a e = (tt, e)
  sent-Finishes k (err x) st a e = e
  sent-Finishes k panic st a e = e
  sent-Finishes k exhausted st a e = e

  pub send-Settles :
      (k : ℕ) (bytes : List ℕ) → Settles k (on_framing env c attester (send_packet env bytes))
  send-Settles k bytes = record {
    finishes = λ a e.
        let p = send_packet env bytes a.framing in
        sent-Finishes k p.0 p.1 a (send_packet-SendEnds env script cobs k bytes a.framing e);
  }

  pub Alive-mono : (j k : ℕ) (a : ArkSide R W A c) → j ≤ k → Alive j a → Alive k a
  Alive-mono j k a h e = record { valid = e.valid; coming = omega (arith, e.coming) }

  -- What follows a packet: a side with fewer events to come, or an error.
  packet-Finishes :
      (k : ℕ) {T : Type 0} (P : T → Type 0) (f : Option ℕ → Op (ArkSide R W A c) T)
      (r : Outcome (Option ℕ)) (st : Framing R W) (a : ArkSide R W A c)
      → IsValid env.frame_limit st
      → PacketEnds env script k r (length (rest env script st))
      → ((j : ℕ) (found : Option ℕ) → j < k → Sized found → Total (Alive j) P (f found))
      → let p = and_then f (r, record a { framing = st }) in Finishes (Alive k) P p.0 p.1
  packet-Finishes k P f (ok none) st a v t next =
      let j = length (rest env script st) in
      let a' : ArkSide R W A c = record a { framing = st } in
      let p = f none a' in
      mono-Finishes P (Alive j) (Alive k) p.0 p.1 (Alive-mono j k p.1 (omega arith))
        ((next j none t tt).finishes a' (record { valid = v; coming = omega arith }))
  packet-Finishes k P f (ok (some size)) st a v t next =
      let j = length (rest env script st) in
      let a' : ArkSide R W A c = record a { framing = st } in
      let p = f (some size) a' in
      mono-Finishes P (Alive j) (Alive k) p.0 p.1 (Alive-mono j k p.1 (omega (arith, t.1)))
        ((next j (some size) t.1 t.0).finishes a' (record { valid = v; coming = omega arith }))
  packet-Finishes k P f (err terminated) st a v t next = record { valid = v; coming = t }
  packet-Finishes k P f (err (recv_failed _)) st a v t next = record {
    valid = v;
    coming = omega arith;
  }
  packet-Finishes k P f (err (frame_decoding_failed _)) st a v t next = record {
    valid = v;
    coming = omega arith;
  }
  packet-Finishes k P f r st a v t next = absurd t

  pub packet-Total :
      (fuel k : ℕ) {T : Type 0} (P : T → Type 0) (f : Option ℕ → Op (ArkSide R W A c) T)
      → Fuelled env script fuel k
      → ((j : ℕ) (found : Option ℕ) → j < k → Sized found → Total (Alive j) P (f found))
      → Total (Alive k) P (on_framing env c attester (next_packet env fuel) >>= f)
  packet-Total fuel k P f enough next = record {
    finishes = λ a e.
        let p = next_packet env fuel a.framing in
        let (v, t) = next_packet-PacketEnds env script cobs laws fuel k a.framing enough e in
        packet-Finishes k P f p.0 p.1 a v t next;
  }

  pub read_hello-Total :
      (fuel more k : ℕ)
      → Fuelled env script fuel k
      → k < more
      → Total (Alive k) (λ size. size ≤ env.frame_limit) (read_hello env c attester fuel more)
  unfolding read_hello
  read_hello-Total fuel zero k enough h = absurd (omega arith)
  read_hello-Total fuel (suc more) k enough h = record {
    finishes =
        (packet-Total fuel k (λ size. size ≤ env.frame_limit)
          (λ found. elim found [
            | none ↦ read_hello env c attester fuel more
            | some size ↦ λ a. (ok size, a)
          ])
          enough
          (λ j found.
            elim found
              as (λ o.
                j < k
                → Sized o
                → Total (Alive j) (λ size. size ≤ env.frame_limit)
                    (elim o [
                      | none ↦ read_hello env c attester fuel more
                      | some size ↦ λ a. (ok size, a)
                    ])) [
                      | none ↦ λ l s.
                          read_hello-Total fuel more j
                            (omega (arith, enough.0), omega (arith, enough.1)) (omega arith)
                      | some size ↦ λ l s. pure-Total size s
                    ])).finishes;
  }
