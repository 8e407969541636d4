-- ===== src/Exchange.antt =====
-- src/side_host.rs and src/side_ark.rs together: the two sides of one session.
pub mod Travel
pub mod ToArk
pub mod ToHost
pub mod World
pub mod Transcript
pub mod HostJoins
pub mod ArkGreets
pub mod ArkJoins
pub mod Starts
pub mod Answers
pub mod Handshake
pub mod Talk
pub mod Runs
pub mod Conversation
pub mod Rounds
pub mod Parts
pub mod Whole
mod Tests
mod Sides
mod Calls
mod Dialogue
mod Complete
mod Agreed
use darkbio_wire_rs.Common.{ℕ, ◌≡◌, some}
use darkbio_wire_rs.Io.{Env}
use darkbio_wire_rs.Crypto.{Crypto}
use darkbio_wire_rs.Session.{Session}
use darkbio_wire_rs.Session.Laws.{Secure}
use darkbio_wire_rs.Framing.Inv.{IsValid}
use darkbio_wire_rs.Host.{HostSide}
use darkbio_wire_rs.Ark.{ArkSide}

-- Both sides have a session, in step, with `k` messages left to the Ark and `n` to the host, and
-- valid framers.
pub record IsLinked {R W A : Type 0} (env : Env R W) {c : Crypto} (secure : Secure c) (k n : ℕ)
    (h : HostSide R W c) (a : ArkSide R W A c) : Type 0 where
  pub host : Session c
  pub ark : Session c
  pub host_session : h.session ≡ some host
  pub ark_session : a.session ≡ some ark
  pub to_ark : secure.Paired k host.sender ark.receiver
  pub to_host : secure.Paired n ark.sender host.receiver
  pub host_valid : IsValid env.frame_limit h.framing
  pub ark_valid : IsValid env.frame_limit a.framing
