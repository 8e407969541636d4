-- ===== src/Session/Uses.antt =====
-- A session as it is used: the one direction does not touch the other.
use darkbio_wire_rs.Common.{
  ℕ, ◌≡◌, refl, sym, ap, ◌∙◌, String, List, [], ◌∷◌, ltb, Bool-cases, inl, inr,
}
use darkbio_wire_rs.Error.{
  Error, packet_encoding_failed, packet_decoding_failed, encryption_failed, Result, value, error,
  Outcome, and_then, or_fail,
}
use darkbio_wire_rs.Crypto.{Message, Crypto}
use darkbio_wire_rs.Session.{Session, seal, seal_scratch, open_packet}

or_fail-keeps : {S E A : Type 0} (f : E → Error) (r : Result E A) (x : S) → (or_fail f r x).1 ≡ x
or_fail-keeps f (value a) x = refl
or_fail-keeps f (error e) x = refl

or_fail-result :
    {S E A : Type 0} (f : E → Error) (r : Result E A) (x y : S)
    → (or_fail f r x).0 ≡ (or_fail f r y).0
or_fail-result f (value a) x y = refl
or_fail-result f (error e) x y = refl

module _ (c : Crypto) (limit : ℕ) {M : Type 0} (message : Message M) where
  -- A session as a function of what other code returned.
  after_encoding : Result String (Unit {0}) → List ℕ → Session c → Session c
  after_encoding r blob s =
      (and_then (λ u. seal_scratch c limit message)
        (or_fail packet_encoding_failed r (s, blob))).1.0

  after_encoding-receiver :
      (r : Result String (Unit {0})) (blob : List ℕ) (s : Session c)
      → (after_encoding r blob s).receiver ≡ s.receiver
  unfolding after_encoding seal_scratch
  after_encoding-receiver (value u) blob s =
      ap (λ (q : Session c × List ℕ). q.0.receiver)
        (or_fail-keeps encryption_failed (c.seal s.sender blob []).0
          (record s { sender = (c.seal s.sender blob []).1 }, blob))
  after_encoding-receiver (error e) blob s = refl

  after_encoding-sender :
      (r : Result String (Unit {0})) (blob : List ℕ) (s t : Session c)
      → s.sender ≡ t.sender
      → (after_encoding r blob s).sender ≡ (after_encoding r blob t).sender
  unfolding after_encoding seal_scratch
  after_encoding-sender (value u) blob s t same =
      ap (λ (q : Session c × List ℕ). q.0.sender)
        (or_fail-keeps encryption_failed (c.seal s.sender blob []).0
          (record s { sender = (c.seal s.sender blob []).1 }, blob))
      ∙ ap (λ x. (c.seal x blob []).1) same
      ∙ sym (
          ap (λ (q : Session c × List ℕ). q.0.sender)
            (or_fail-keeps encryption_failed (c.seal t.sender blob []).0
              (record t { sender = (c.seal t.sender blob []).1 }, blob)))
  after_encoding-sender (error e) blob s t same = same

  -- The session after a message was sealed.
  abbrev pub sealed : M → List ℕ → Session c → Session c
  sealed msg scratch s = (seal c limit message msg (s, scratch)).1.0

  pub sealed-receiver :
      (msg : M) (scratch : List ℕ) (s : Session c) → (sealed msg scratch s).receiver ≡ s.receiver
  unfolding seal after_encoding
  sealed-receiver msg scratch s = elim (Bool-cases (ltb limit (message.encoded_len msg))) [
    | inl b ↦ rw (sealed, b) refl
    | inr b ↦
        rw (sealed, b)
          (after_encoding-receiver (message.encode msg []).0 (message.encode msg []).1 s)
  ]

  -- The sender is a function of the sender before, whatever the scratch buffer holds.
  pub sealed-sender :
      (msg : M) (scratch scratch' : List ℕ) (s t : Session c)
      → s.sender ≡ t.sender
      → (sealed msg scratch s).sender ≡ (sealed msg scratch' t).sender
  unfolding seal after_encoding
  sealed-sender msg scratch scratch' s t same =
      elim (Bool-cases (ltb limit (message.encoded_len msg))) [
        | inl b ↦ rw (sealed, b) same
        | inr b ↦
            rw (sealed, b)
              (after_encoding-sender (message.encode msg []).0 (message.encode msg []).1 s t same)
      ]

  -- The session after messages were sealed, the latest first.
  unfoldable pub sealed_all : List M → Session c → Session c
  sealed_all [] s = s
  sealed_all (m ∷ ms) s = sealed m [] (sealed_all ms s)

module _ (c : Crypto) {M : Type 0} (message : Message M) where
  after_opening : Result String (List ℕ) → Session c → Outcome M × Session c
  after_opening r = λ s.
      and_then (λ blob. or_fail packet_decoding_failed (message.decode blob))
        (or_fail encryption_failed r s)

  after_opening-keeps : (r : Result String (List ℕ)) (s : Session c) → (after_opening r s).1 ≡ s
  unfolding after_opening
  after_opening-keeps (value blob) s = or_fail-keeps packet_decoding_failed (message.decode blob) s
  after_opening-keeps (error e) s = refl

  -- The session after a packet was opened.
  abbrev pub opened : List ℕ → Session c → Session c
  opened packet s = (open_packet c message packet s).1

  pub opened-sender : (packet : List ℕ) (s : Session c) → (opened packet s).sender ≡ s.sender
  unfolding open_packet after_opening
  opened-sender packet s =
      ap (λ t. t.sender)
        (after_opening-keeps (c.open_sealed s.receiver packet []).0
          (record s { receiver = (c.open_sealed s.receiver packet []).1 }))

  -- The receiver and the result are functions of the receiver before.
  pub opened-receiver :
      (packet : List ℕ) (s t : Session c)
      → s.receiver ≡ t.receiver
      → (opened packet s).receiver ≡ (opened packet t).receiver
  unfolding open_packet after_opening
  opened-receiver packet s t same =
      ap (λ x. x.receiver)
        (after_opening-keeps (c.open_sealed s.receiver packet []).0
          (record s { receiver = (c.open_sealed s.receiver packet []).1 }))
      ∙ ap (λ x. (c.open_sealed x packet []).1) same
      ∙ sym (
          ap (λ x. x.receiver)
            (after_opening-keeps (c.open_sealed t.receiver packet []).0
              (record t { receiver = (c.open_sealed t.receiver packet []).1 })))

  after_opening-result :
      (r : Result String (List ℕ)) (s t : Session c) → (after_opening r s).0 ≡ (after_opening r t).0
  unfolding after_opening
  after_opening-result (value blob) s t =
      or_fail-result packet_decoding_failed (message.decode blob) s t
  after_opening-result (error e) s t = refl

  pub opened-result :
      (packet : List ℕ) (s t : Session c)
      → s.receiver ≡ t.receiver
      → (open_packet c message packet s).0 ≡ (open_packet c message packet t).0
  unfolding open_packet after_opening
  opened-result packet s t same =
      ap
        (λ x.
          (after_opening (c.open_sealed x packet []).0
            (record s { receiver = (c.open_sealed x packet []).1 })).0)
        same
      ∙ after_opening-result (c.open_sealed t.receiver packet []).0
          (record s { receiver = (c.open_sealed t.receiver packet []).1 })
          (record t { receiver = (c.open_sealed t.receiver packet []).1 })

  -- The session after packets were opened, the latest first, and the results.
  unfoldable pub opened_all : List (List ℕ) → Session c → Session c
  opened_all [] s = s
  opened_all (p ∷ ps) s = opened p (opened_all ps s)

  unfoldable pub results : List (List ℕ) → Session c → List (Outcome M)
  results [] s = []
  results (p ∷ ps) s = (open_packet c message p (opened_all ps s)).0 ∷ results ps s
