-- ===== src/Host/History.antt =====
-- A run of calls of the host, and what passed through its session since the last handshake.
use darkbio_wire_rs.Common.{ℕ, ◌≡◌, Option, none, some, List, [], ◌∷◌}
use darkbio_wire_rs.Error.{packet_decoding_failed, Outcome, ok, err}
use darkbio_wire_rs.Io.{Env}
use darkbio_wire_rs.Crypto.{Message, Crypto}
use darkbio_wire_rs.Attestation.{Verifier}
use darkbio_wire_rs.Session.{Session}
use darkbio_wire_rs.Session.Uses.{sealed_all, opened_all, results}
use darkbio_wire_rs.Host.{HostSide, send_message, next_message, handshake}
use darkbio_wire_rs.Host.Established.{Establishes}

-- A call of the host.
pub data Use (M : Type 0) : Type 0 where
  connect : Use M
  send : M → Use M
  fetch : Use M

-- The messages that were sent, and the results of the packets that were opened, since the last
-- handshake, the latest first.
pub record Log (M : Type 0) : Type 0 where
  pub sent : List M
  pub got : List (Outcome M)

abbrev pub fresh : {M : Type 0} → Log M
fresh = record { sent = []; got = [] }

-- A message counts as sent when the call returned without an error.
unfoldable pub note_sent : {M : Type 0} → M → Outcome (Unit {0}) → Log M → Log M
note_sent msg (ok _) log = record log { sent = msg ∷ log.sent }
note_sent msg _ log = log

-- A packet counts as opened when the call returned its message, or that it has none.
unfoldable pub note_got : {M : Type 0} → Outcome M → Log M → Log M
note_got (ok msg) log = record log { got = ok msg ∷ log.got }
note_got (err (packet_decoding_failed e)) log = record log {
  got = err (packet_decoding_failed e) ∷ log.got;
}
note_got _ log = log

module _ {R W : Type 0} (env : Env R W) (c : Crypto) {Info : Type 0}
    (verifier : Verifier c.VerifyingKey Info) (limit : ℕ) {M : Type 0} (message : Message M) where
  -- A session that a handshake established, and what the log says went through it since.
  pub record Since (log : Log M) (s : Session c) : Type 0 where
    pub info : Info
    pub start : Session c
    pub established : Establishes env c verifier info start
    pub packets : List (List ℕ)
    pub sender_moved : s.sender ≡ (sealed_all c limit message log.sent start).sender
    pub receiver_moved : s.receiver ≡ (opened_all c message packets start).receiver
    pub same_results : results c message packets start ≡ log.got

  abbrev pub Tracks : Option (Session c) → Log M → Type 0
  Tracks none log = Unit
  Tracks (some s) log = Since log s

  module _ (fuel : ℕ) where
    unfoldable pub step : Use M → HostSide R W c × Log M → HostSide R W c × Log M
    step connect (h, log) = ((handshake env c fuel verifier h).1, fresh)
    step (send msg) (h, log) =
        let (r, h') = send_message env c limit message msg h in (h', note_sent msg r log)
    step fetch (h, log) = let (r, h') = next_message env c message fuel h in (h', note_got r log)

    unfoldable pub run : List (Use M) → HostSide R W c × Log M → HostSide R W c × Log M
    run [] x = x
    run (u ∷ us) x = run us (step u x)
