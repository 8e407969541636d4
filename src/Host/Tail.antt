-- ===== src/Host/Tail.antt =====
-- The handshake of the host from where it starts to read.
use darkbio_wire_rs.Common.{ℕ, ◌≡◌, refl, some}
use darkbio_wire_rs.Error.{ok, Op, pure, ◌>>=◌, ◌>>◌}
use darkbio_wire_rs.Io.{Env}
use darkbio_wire_rs.Handshake.{ArkHelloAuth}
use darkbio_wire_rs.Crypto.{Crypto}
use darkbio_wire_rs.Attestation.{Verifier}
use darkbio_wire_rs.Session.{Session}
use darkbio_wire_rs.Host.{
  HostSide, Greeting, max_stale_frames, skip_stale, read_ark_hello, establish, keep_session,
}

-- The host's keys, drawn afresh.
pub record HostKeys (c : Crypto) : Type 0 where
  pub signer : c.SigningKey
  pub secret : c.SecretKey

module _ (c : Crypto) where
  abbrev pub draw_keys : c.Rng → HostKeys c
  draw_keys rng = record {
    signer = (c.generate_signer rng).0;
    secret = (c.generate_secret (c.generate_signer rng).1).0;
  }

  abbrev pub rng_after_keys : c.Rng → c.Rng
  rng_after_keys rng = (c.generate_secret (c.generate_signer rng).1).1

  -- The keys that the host shows, which the Ark's hello is bound to.
  abbrev pub shown : HostKeys c → ArkHelloAuth c.VerifyingKey c.PublicKey
  shown keys = record {
    host_signer = c.verifying_key keys.signer;
    host_crypto = c.public_key keys.secret;
  }

module _ {R W : Type 0} (env : Env R W) (c : Crypto) {Info : Type 0} (fuel : ℕ)
    (verifier : Verifier c.VerifyingKey Info) where
  -- What follows the search for the Ark's hello.
  abbrev pub settle : HostKeys c → ℕ → Op (HostSide R W c) Info
  settle keys size = do
    greeting ← read_ark_hello env c verifier (shown c keys) keys.secret size
    session ← establish env c keys.signer keys.secret greeting
    keep_session env c session
    pure greeting.info

  -- What follows the host's hello.
  abbrev pub conclude : HostKeys c → Op (HostSide R W c) Info
  conclude keys = do
    size ← skip_stale env c fuel (c.fingerprint (c.public_key keys.secret)) max_stale_frames
    settle keys size

  -- Its steps put together.
  pub conclude-ends :
      (keys : HostKeys c) (size : ℕ) (greeting : Greeting c Info) (session : Session c)
      (h h1 h2 : HostSide R W c)
      → skip_stale env c fuel (c.fingerprint (c.public_key keys.secret)) max_stale_frames h
        ≡ (ok size, h1)
      → read_ark_hello env c verifier (shown c keys) keys.secret size h1 ≡ (ok greeting, h1)
      → establish env c keys.signer keys.secret greeting h1 ≡ (ok session, h2)
      → conclude keys h ≡ (ok greeting.info, record h2 { session = some session })
  conclude-ends keys size greeting session h h1 h2 found accepted joined =
      rw (found, accepted, joined) refl
