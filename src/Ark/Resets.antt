-- ===== src/Ark/Resets.antt =====
-- src/side_ark.rs: whether a call of `next_message` took a reset, and what the log is then.
use darkbio_wire_rs.Common.{ℕ, zero, suc, Bool, true, false, ◌≡◌, refl, Option, none}
use darkbio_wire_rs.Error.{Outcome, ok}
use darkbio_wire_rs.Io.{Env}
use darkbio_wire_rs.Crypto.{Message, Crypto}
use darkbio_wire_rs.Attestation.{Attester}
use darkbio_wire_rs.Framing.{next_packet}
use darkbio_wire_rs.Host.History.{Log, fresh}
use darkbio_wire_rs.Ark.{ArkSide, Turn, returned, again, on_framing, message_turn}

-- In a later round, when there is one.
unfoldable pub later : {T S : Type 0} → (S → Bool) → Turn T S → Bool
later taken (returned r s) = false
later taken (again s) = taken s

-- In this round, when the framer returned an empty frame.
unfoldable pub took : Outcome (Option ℕ) → Bool → Bool
took (ok none) rest = true
took _ rest = rest

-- A log is cleared by a call that took a reset.
unfoldable pub since : {M : Type 0} → Bool → Log M → Log M
since true log = fresh
since false log = log

pub since-fresh : {M : Type 0} → (b : Bool) → since {M = M} b fresh ≡ fresh
unfolding since
since-fresh true = refl
since-fresh false = refl

module _ {R W A : Type 0} (env : Env R W) (c : Crypto) (attester : Attester A) {M : Type 0}
    (message : Message M) (fuel : ℕ) where
  -- One of the rounds of the call reads an empty frame in place of a message.
  unfoldable pub resets : ℕ → ArkSide R W A c → Bool
  resets zero a = false
  resets (suc rounds) a =
      took (on_framing env c attester (next_packet env fuel) a).0
        (later (resets rounds) (message_turn env c attester message fuel (suc rounds) a))
