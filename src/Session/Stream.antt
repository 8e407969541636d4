-- ===== src/Session/Stream.antt =====
-- A sequence of messages through a session.
use darkbio_wire_rs.Common.{
  ℕ, zero, suc, ◌≤◌, ◌≡◌, refl, ap, List, [], ◌∷◌, length, map, arith, ltb, lt→ltb, le→ltb,
  if◌then◌else◌,
}
use native.Mathlib.Decide.{dec_lt}
use darkbio_wire_rs.Error.{Outcome, ok, err, panic, exhausted}
use darkbio_wire_rs.Crypto.{Message, Crypto}
use darkbio_wire_rs.Session.{Session, seal, open_packet}
use darkbio_wire_rs.Session.Laws.{Secure, Codec}
use darkbio_wire_rs.Session.RoundTrip.{seal-open_packet, seal-refuses}

module _ (c : Crypto) (limit : ℕ) {M : Type 0} (message : Message M) where
  -- A packet goes out, an error passes the message over.
  abbrev pub after_seal :
      (Session c × List ℕ → List (List ℕ)) → Outcome (List ℕ) × (Session c × List ℕ) → List (List ℕ)
  after_seal next (ok packet, s) = packet ∷ next s
  after_seal next (err e, s) = next s
  after_seal next (panic, s) = []
  after_seal next (exhausted, s) = []

  -- The packets of messages sealed one after the other.
  unfoldable pub seal_all : List M → Session c × List ℕ → List (List ℕ)
  seal_all [] s = []
  seal_all (m ∷ ms) s = after_seal (seal_all ms) (seal c limit message m s)

  -- Packets opened one after the other.
  unfoldable pub open_all : List (List ℕ) → Session c → List (Outcome M)
  open_all [] s = []
  open_all (p ∷ ps) s = let (r, s') = open_packet c message p s in r ∷ open_all ps s'

  -- The messages within the limit.
  unfoldable pub within : List M → List M
  within [] = []
  within (m ∷ ms) =
      let rest = within ms in if ltb limit (message.encoded_len m) then rest else m ∷ rest

  after_seal-ok :
      (next : Session c × List ℕ → List (List ℕ)) (p : Outcome (List ℕ) × (Session c × List ℕ))
      (packet : List ℕ)
      → p.0 ≡ ok packet
      → after_seal next p ≡ packet ∷ next p.1
  after_seal-ok next (ok q, s) packet e = cc
  after_seal-ok next (err x, s) packet e = cc
  after_seal-ok next (panic, s) packet e = cc
  after_seal-ok next (exhausted, s) packet e = cc

  module _ (secure : Secure c) (codec : Codec message) where
    -- The packets of a sequence of messages, opened in order by the peer's session, give exactly
    -- the messages within the limit, in order: one that is refused does not put the sessions out
    -- of step. The contexts have as many messages left as the sequence is long.
    pub open_all-seal_all :
        (ms : List M) (n : ℕ) (from to : Session c) (scratch : List ℕ)
        → length ms ≤ n
        → secure.Paired n from.sender to.receiver
        → open_all (seal_all ms (from, scratch)) to ≡ map ok (within ms)
    unfolding open_all seal_all within
    open_all-seal_all [] n from to scratch h p = refl
    open_all-seal_all (m ∷ ms) zero from to scratch h p = absurd (omega arith)
    open_all-seal_all (m ∷ ms) (suc n) from to scratch h p =
        elim (dec_lt limit (message.encoded_len m)) [
          | yes long ↦
              rw
                (
                  seal-refuses c secure message codec limit m from scratch long,
                  lt→ltb limit (message.encoded_len m) long,
                )
                (open_all-seal_all ms (suc n) from to scratch (omega arith) p)
          | no fits ↦
              let carried =
                seal-open_packet c secure message codec limit n m from to scratch (omega arith) p in
              let s = (seal c limit message m (from, scratch)).1 in
              let ih =
                open_all-seal_all ms n s.0 (open_packet c message carried.packet to).1 s.1
                  (omega arith) carried.paired in
              rw
                (
                  after_seal-ok (seal_all ms) (seal c limit message m (from, scratch))
                      carried.packet carried.sealed,
                  le→ltb limit (message.encoded_len m) (omega arith),
                  open_all,
                  carried.opened,
                )
                (ap (λ l. ok m ∷ l) ih)
        ]
