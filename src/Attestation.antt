-- ===== src/Attestation.antt =====
-- `Attestation` and the traits `Attester` (src/side_ark.rs) and `Verifier` (src/side_host.rs), with
-- their implementations.
use darkbio_wire_rs.Common.{ℕ, List, some, Bool, true, false, ◌&&◌, String, if◌then◌else◌}
use darkbio_wire_rs.Error.{invalid_attestation, Result, value, error, Outcome, ok, err}
use darkbio_wire_rs.Crypto.{Crypto}

-- `struct Attestation(Vec<u8>)`.
pub record Attestation : Type 0 where
  pub cwt : List ℕ

abbrev pub is_err : {E A : Type 0} → Result E A → Bool
is_err (value _) = false
is_err (error _) = true

-- `Attestation::new`.
unfoldable pub new : (c : Crypto) → List ℕ → Outcome Attestation
new c cwt =
    if is_err (c.peek_hardware cwt) && is_err (c.peek_emulator cwt)
    then err invalid_attestation
    else ok (record { cwt = cwt })

pub as_bytes : Attestation → List ℕ
as_bytes a = a.cwt

unfoldable pub into_bytes : Attestation → List ℕ
into_bytes a = a.cwt

-- `trait Attester`: `A` is the implementing type, which `attest` may change.
pub record Attester (A : Type 0) : Type 0 where
  pub attest : A → Attestation × A

-- `impl Attester for Attestation`.
unfoldable pub fixed : Attester Attestation
fixed = record { attest = λ a. (a, a) }

-- `trait Verifier`, with its associated type `Info`.
pub record Verifier (V Info : Type 0) : Type 0 where
  pub verify : Attestation → Result String (V × Info)

-- `impl Verifier for xdsa::PublicKey`.
unfoldable pub pinned : {V : Type 0} → V → Verifier V Attestation
pinned key = record { verify = λ a. value (key, a) }

-- `struct Roots`.
pub record Roots (V : Type 0) : Type 0 where
  pub hardware : List V
  pub emulator : List V

module _ (c : Crypto) where
  -- What `verify` returns of a device.
  abbrev accepted : Result String c.Device → Result String (c.VerifyingKey × c.Device)
  accepted (error e) = error e
  accepted (value device) = value (c.device_signer device, device)

  abbrev at_time :
      Roots c.VerifyingKey
      → Attestation
      → Result String ℕ
      → Result String (c.VerifyingKey × c.Device)
  at_time roots a (error e) = error e
  at_time roots a (value now) =
      accepted (c.verify_device (as_bytes a) roots.hardware roots.emulator (some now))

  -- `impl Verifier for Roots`. `now` is the system's time since the epoch, in seconds.
  pub rooted : Result String ℕ → Roots c.VerifyingKey → Verifier c.VerifyingKey c.Device
  unfolding as_bytes
  rooted now roots = record { verify = λ a. at_time roots a now }
