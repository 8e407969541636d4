-- ===== src/Session/Seal.antt =====
-- How sealing a message can end.
use darkbio_wire_rs.Common.{
  ℕ, ◌≤◌, ◌<◌, ◌≡◌, refl, String, List, [], ltb, ltb→lt, ltb→le, Bool-cases, inl, inr,
}
use darkbio_wire_rs.Error.{
  packet_too_large, packet_encoding_failed, encryption_failed, Result, value, error, Outcome, ok,
  err, and_then, or_fail,
}
use darkbio_wire_rs.Crypto.{Message, Crypto}
use darkbio_wire_rs.Session.{Session, seal, seal_scratch}

module _ (c : Crypto) (limit : ℕ) {M : Type 0} (message : Message M) (msg : M) (s : Session c)
    (scratch : List ℕ) where
  -- A message too long changes nothing, one that does not encode not the session; it is not too
  -- long if it ends in any other way.
  abbrev pub SealEnds : Outcome (List ℕ) → Session c → List ℕ → Type 0
  SealEnds (ok _) s' scratch' = message.encoded_len msg ≤ limit
  SealEnds (err (packet_too_large n)) s' scratch' =
      (n ≡ message.encoded_len msg) × (limit < n) × (s' ≡ s) × (scratch' ≡ scratch)
  SealEnds (err (packet_encoding_failed _)) s' scratch' =
      (message.encoded_len msg ≤ limit) × (s' ≡ s)
  SealEnds (err (encryption_failed _)) s' scratch' = message.encoded_len msg ≤ limit
  SealEnds _ s' scratch' = ⊥

  sealed-SealEnds :
      (r : Result String (List ℕ)) (p : Session c × List ℕ)
      → message.encoded_len msg ≤ limit
      → SealEnds
          (or_fail encryption_failed r p).0
          (or_fail encryption_failed r p).1.0
          (or_fail encryption_failed r p).1.1
  sealed-SealEnds (value packet) p fits = fits
  sealed-SealEnds (error e) p fits = fits

  seal_scratch-SealEnds :
      (p : Session c × List ℕ)
      → message.encoded_len msg ≤ limit
      → SealEnds
          (seal_scratch c limit message p).0
          (seal_scratch c limit message p).1.0
          (seal_scratch c limit message p).1.1
  unfolding seal_scratch
  seal_scratch-SealEnds p fits =
      sealed-SealEnds (c.seal p.0.sender p.1 []).0
        (record (p.0) { sender = (c.seal p.0.sender p.1 []).1 }, p.1) fits

  encoded-SealEnds :
      (r : Result String (Unit {0})) (scratch' : List ℕ)
      → message.encoded_len msg ≤ limit
      → let p =
          and_then
            (λ u. seal_scratch c limit message)
            (or_fail packet_encoding_failed r (s, scratch')) in
        SealEnds p.0 p.1.0 p.1.1
  encoded-SealEnds (value u) scratch' fits = seal_scratch-SealEnds (s, scratch') fits
  encoded-SealEnds (error e) scratch' fits = (fits, refl)

  pub seal-SealEnds :
      SealEnds
        (seal c limit message msg (s, scratch)).0
        (seal c limit message msg (s, scratch)).1.0
        (seal c limit message msg (s, scratch)).1.1
  unfolding seal
  seal-SealEnds = elim (Bool-cases (ltb limit (message.encoded_len msg))) [
    | inl t ↦ rw (SealEnds, t) (refl, ltb→lt limit (message.encoded_len msg) t, refl, refl)
    | inr f ↦
        rw (SealEnds, f)
          (encoded-SealEnds (message.encode msg []).0 (message.encode msg []).1
            (ltb→le limit (message.encoded_len msg) f))
  ]
