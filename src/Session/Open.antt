-- ===== src/Session/Open.antt =====
-- How opening a packet can end.
use darkbio_wire_rs.Common.{ℕ, String, List, []}
use darkbio_wire_rs.Error.{
  packet_decoding_failed, encryption_failed, Result, value, error, Outcome, ok, err, and_then,
  or_fail,
}
use darkbio_wire_rs.Crypto.{Message, Crypto}
use darkbio_wire_rs.Session.{Session, open_packet}

-- Decryption fails, or the message does not decode, or all went well.
abbrev pub CanEnd : {M : Type 0} → Outcome M → Type 0
CanEnd (ok _) = Unit
CanEnd (err (packet_decoding_failed _)) = Unit
CanEnd (err (encryption_failed _)) = Unit
CanEnd _ = ⊥

module _ (c : Crypto) {M : Type 0} (message : Message M) where
  decoded-CanEnd :
      (r : Result String M) (s : Session c) → CanEnd (or_fail packet_decoding_failed r s).0
  decoded-CanEnd (value m) s = tt
  decoded-CanEnd (error e) s = tt

  opened-CanEnd :
      (r : Result String (List ℕ)) (s : Session c)
      → CanEnd
          (and_then
            (λ blob. or_fail packet_decoding_failed (message.decode blob))
            (or_fail encryption_failed r s)).0
  opened-CanEnd (value blob) s = decoded-CanEnd (message.decode blob) s
  opened-CanEnd (error e) s = tt

  pub open_packet-CanEnd :
      (packet : List ℕ) (s : Session c) → CanEnd (open_packet c message packet s).0
  unfolding open_packet
  open_packet-CanEnd packet s =
      opened-CanEnd (c.open_sealed s.receiver packet []).0
        (record s { receiver = (c.open_sealed s.receiver packet []).1 })
