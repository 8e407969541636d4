-- ===== src/Session.antt =====
-- src/session.rs: an established session, and the sealing of protobuf messages through it.
pub mod Laws
pub mod RoundTrip
pub mod Stream
pub mod Open
pub mod Seal
pub mod Uses
mod Tests
use darkbio_wire_rs.Common.{ℕ, List, [], ltb, if◌then◌else◌}
use darkbio_wire_rs.Error.{
  packet_too_large, packet_encoding_failed, packet_decoding_failed, encryption_failed, err, Op,
  or_fail, ◌>>=◌,
}
use darkbio_wire_rs.Crypto.{Message, Crypto}

-- `struct Session`.
pub record Session (c : Crypto) : Type 0 where
  pub sender : c.Sender
  pub receiver : c.Receiver

-- `message_limit` is MAX_MESSAGE_SIZE.
module _ (c : Crypto) (message_limit : ℕ) {M : Type 0} (message : Message M) where
  -- Seals what was encoded to the scratch buffer.
  unfoldable pub seal_scratch : Op (Session c × List ℕ) (List ℕ)
  seal_scratch (session, scratch) =
      let (sealed, sender) = c.seal session.sender scratch [] in
      or_fail encryption_failed sealed (record session { sender = sender }, scratch)

  -- `Session::seal`, on the session and the scratch buffer.
  unfoldable pub seal : M → Op (Session c × List ℕ) (List ℕ)
  seal msg (session, scratch) =
      let len = message.encoded_len msg in
      if ltb message_limit len
      then (err (packet_too_large len), (session, scratch))
      else (let (encoded, scratch') = message.encode msg [] in
          (or_fail packet_encoding_failed encoded >>= λ _. seal_scratch) (session, scratch'))

module _ (c : Crypto) {M : Type 0} (message : Message M) where
  -- `Session::open`.
  unfoldable pub open_packet : List ℕ → Op (Session c) M
  open_packet packet session =
      let (opened, receiver) = c.open_sealed session.receiver packet [] in
      (or_fail encryption_failed opened >>= λ blob.
      or_fail packet_decoding_failed (message.decode blob))
        (record session { receiver = receiver })
