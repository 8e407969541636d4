-- ===== src/Session/Laws.antt =====
-- What the session (src/session.rs) relies on from HPKE and from prost.
use darkbio_wire_rs.Common.{ℕ, suc, ◌+◌, ◌≡◌, List, [], length}
use darkbio_wire_rs.Error.{value}
use darkbio_wire_rs.Limits.{seal_overhead}
use darkbio_wire_rs.Crypto.{Message, Crypto}

-- A sender and a receiver of one direction, in step. What one seals the other opens, and they
-- are in step again. The sequence number of a context is bounded: `Paired n` leaves n messages.
pub record Secure (c : Crypto) : Type 1 where
  pub Paired : ℕ → c.Sender → c.Receiver → Type 0
  pub opens :
      (n : ℕ) (s : c.Sender) (r : c.Receiver) (blob : List ℕ)
      → Paired (suc n) s r
      → (sealed : List ℕ) × ((c.seal s blob []).0 ≡ value sealed)
        × (length sealed ≡ length blob + seal_overhead)
        × ((c.open_sealed r sealed []).0 ≡ value blob)
        × Paired n (c.seal s blob []).1 (c.open_sealed r sealed []).1

-- Encoding appends as many bytes as `encoded_len` says, and decoding undoes it.
pub record Codec {M : Type 0} (message : Message M) : Type 0 where
  pub encodes :
      (m : M)
      → (bytes : List ℕ) × (message.encode m [] ≡ (value tt, bytes))
        × (length bytes ≡ message.encoded_len m)
        × (message.decode bytes ≡ value m)
