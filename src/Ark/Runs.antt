-- ===== src/Ark/Runs.antt =====
-- What the Ark's single steps achieve; its identity key stays the same.
use darkbio_wire_rs.Common.{
  ℕ, zero, suc, ◌≡◌, refl, none, some, List, length, inl, inr, ==→eq, Bool-cases, ◌==◌,
}
use darkbio_wire_rs.Common.Slices.{slice?}
use darkbio_wire_rs.Error.{ok, Op}
use darkbio_wire_rs.Error.Runs.{
  Achieves, then-Achieves, pure-Achieves, any-Ends, elim-Achieves, or_panic-Ends, weaken-Ends,
}
use darkbio_wire_rs.Io.{Env}
use darkbio_wire_rs.Crypto.{Crypto}
use darkbio_wire_rs.Attestation.{Attester}
use darkbio_wire_rs.Framing
use darkbio_wire_rs.Framing.{Framing}
use darkbio_wire_rs.Ark.{ArkSide, on_framing, draw, attest, packet, sized_h2a, read_hello}

module _ {R W A : Type 0} (env : Env R W) (c : Crypto) (attester : Attester A)
    (key : c.SigningKey) where
  -- The side's identity key.
  abbrev pub Signs : ArkSide R W A c → Type 0
  Signs a = a.signer ≡ key

  abbrev pub Runs : {T : Type 0} → (T → Type 0) → Op (ArkSide R W A c) T → Type 0
  Runs Q m = Achieves Signs Q m

  pub on_framing-Runs :
      {T : Type 0} (m : Op (Framing R W) T)
      → Runs (λ t. (f : Framing R W) × ((m f).0 ≡ ok t)) (on_framing env c attester m)
  on_framing-Runs m = record {
    ends = λ a e.
        let a' : ArkSide R W A c = record a { framing = (m a.framing).1 } in
        weaken-Ends Signs (m a.framing).0 a' (λ t q. (a.framing, q))
          (any-Ends Signs (m a.framing).0 a' e);
  }

  pub draw-Runs :
      {T : Type 0} (f : c.Rng → T × c.Rng)
      → Runs (λ t. (rng : c.Rng) × ((f rng).0 ≡ t)) (draw env c attester f)
  draw-Runs f = record { ends = λ a e. ((a.rng, refl), e) }

  pub attest-Runs : Runs (λ t. (s : A) × ((attester.attest s).0 ≡ t)) (attest env c attester)
  attest-Runs = record { ends = λ a e. ((a.attester, refl), e) }

  pub signer-Runs : Runs (λ k. k ≡ key) (λ a. (ok a.signer, a))
  signer-Runs = record { ends = λ a e. (e, e) }

  pub packet-Runs : (size : ℕ) → Runs (λ bytes. Unit {0}) (packet env c attester size)
  packet-Runs size = record {
    ends = λ a e. or_panic-Ends Signs (slice? a.framing.decobs_buffer 0 size) a e;
  }

  pub sized-Runs :
      (encap : List ℕ)
      → Runs (λ e. (e ≡ encap) × (length encap ≡ c.encap_key_size)) (sized_h2a env c attester encap)
  sized-Runs encap = elim (Bool-cases (length encap == c.encap_key_size)) [
    | inl t ↦ record {
      ends = λ h e. rw (sized_h2a, t) ((refl, ==→eq (length encap) c.encap_key_size t), e);
    }
    | inr f ↦ record { ends = λ h e. rw (sized_h2a, f) e }
  ]

  pub read_hello-Runs :
      (fuel more : ℕ) → Runs (λ size. Unit {0}) (read_hello env c attester fuel more)
  unfolding read_hello
  read_hello-Runs fuel zero = record { ends = λ a e. e }
  read_hello-Runs fuel (suc more) = record {
    ends =
        (then-Achieves
          {k = λ found. elim found [
            | none ↦ read_hello env c attester fuel more
            | some size ↦ λ a. (ok size, a)
          ]}
          (on_framing-Runs (Framing.next_packet env fuel))
          (λ found f.
            elim-Achieves found (read_hello-Runs fuel more) (λ size. pure-Achieves size tt))).ends;
  }
