-- ===== src/Session/RoundTrip.antt =====
-- A sealed message is opened by the peer's session.
use darkbio_wire_rs.Common.{ℕ, suc, ◌+◌, ◌≤◌, ◌<◌, ◌≡◌, List, length, arith, le→ltb, lt→ltb}
use darkbio_wire_rs.Error.{packet_too_large, Outcome, ok, err}
use darkbio_wire_rs.Limits.{seal_overhead}
use darkbio_wire_rs.Crypto.{Message, Crypto}
use darkbio_wire_rs.Session.{Session, seal, seal_scratch, open_packet}
use darkbio_wire_rs.Session.Laws.{Secure, Codec}

module _ (c : Crypto) (secure : Secure c) {M : Type 0} (message : Message M) where
  -- What sealing gives, in a session, and a session that opens the packet as `msg`. The two are in
  -- step afterwards, and the directions that were not used are as before.
  pub record Carries (n : ℕ) (msg : M) (from to : Session c)
      (p : Outcome (List ℕ) × (Session c × List ℕ)) : Type 0 where
    pub packet : List ℕ
    pub sealed : p.0 ≡ ok packet
    pub size : length packet ≡ message.encoded_len msg + seal_overhead
    pub opened : (open_packet c message packet to).0 ≡ ok msg
    pub paired : secure.Paired n p.1.0.sender (open_packet c message packet to).1.receiver
    pub from_kept : p.1.0.receiver ≡ from.receiver
    pub to_kept : (open_packet c message packet to).1.sender ≡ to.sender

  module _ (codec : Codec message) (limit : ℕ) where
    -- A message within the limit is sealed, to a packet 16 bytes longer than its encoding, which
    -- the peer's session opens as that message; the contexts stay in step.
    pub seal-open_packet :
        (n : ℕ) (msg : M) (from to : Session c) (scratch : List ℕ)
        → message.encoded_len msg ≤ limit
        → secure.Paired (suc n) from.sender to.receiver
        → Carries n msg from to (seal c limit message msg (from, scratch))
    unfolding seal seal_scratch open_packet
    seal-open_packet n msg from to scratch h paired =
        let (bytes, encoded, len, decoded) = codec.encodes msg in
        let (sealed, s, size, o, paired') = secure.opens n from.sender to.receiver bytes paired in
        record {
          packet = sealed;
          sealed = rw (le→ltb limit (message.encoded_len msg) h, encoded, s);
          size = omega (arith, size, len);
          opened = rw (o, decoded);
          paired = rw (le→ltb limit (message.encoded_len msg) h, encoded, s, o, decoded) paired';
          from_kept = rw (le→ltb limit (message.encoded_len msg) h, encoded, s);
          to_kept = rw (o, decoded);
        }

    -- A longer message is refused, and the session and the scratch buffer are as before.
    pub seal-refuses :
        (msg : M) (from : Session c) (scratch : List ℕ)
        → limit < message.encoded_len msg
        → seal c limit message msg (from, scratch)
          ≡ (err (packet_too_large (message.encoded_len msg)), (from, scratch))
    unfolding seal
    seal-refuses msg from scratch h = rw (lt→ltb limit (message.encoded_len msg) h)
