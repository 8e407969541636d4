-- ===== src/Tests/Honest.antt =====
-- The stand-in for the crypto crates between two honest sides.
use darkbio_wire_rs.Common.{
  ℕ, ◌≡◌, refl, List, [], ◌∷◌, ◌++◌, length, take-append_eq, drop-append_eq, length-append, eq→==,
  arith, ◌==◌, true, String,
}
use darkbio_wire_rs.Error.{Result, value}
use darkbio_wire_rs.Handshake.{ArkHello, ArkHelloAuth}
use darkbio_wire_rs.Crypto.Honest.{Honest, HasRoom}
use darkbio_wire_rs.Exchange.World.{env}
use darkbio_wire_rs.Tests.Cipher.{plain, plain_secure}

pub self : (k : ℕ) → (k == k) ≡ true
self k = eq→== k k refl

-- The signed part of the Ark's hello.
abbrev pub signed : ArkHello ℕ ℕ → ArkHelloAuth ℕ ℕ → ℕ → List ℕ
signed m auth key =
    key
    ∷ auth.host_signer
    ∷ auth.host_crypto
    ∷ m.ark_crypto
    ∷ length m.a2h_encap
    ∷ (m.a2h_encap ++ m.ark_attest)

pub peek-signed :
    (m : ArkHello ℕ ℕ) (auth : ArkHelloAuth ℕ ℕ) (key : ℕ)
    → plain.peek_ark_hello (signed m auth key) ≡ value m
peek-signed m auth key =
    rw
      (
        take-append_eq (length m.a2h_encap) m.a2h_encap m.ark_attest refl,
        drop-append_eq (length m.a2h_encap) m.a2h_encap m.ark_attest refl,
      )
      refl

abbrev pub plain_honest : Honest plain_secure
plain_honest = record {
  capacity = 4;
  fingerprint_self = self;
  hello = λ m. (m.host_signer ∷ m.host_crypto ∷ [], refl, refl);
  contexts =
      λ sk domain rng. ((rng, 0), sk ∷ rng ∷ [], refl, refl, (rng, 0), rw (self sk) refl, refl);
  ark_hello = λ m auth key sk domain rng. (
    sk ∷ signed m auth key,
    signed m auth key,
    refl,
    refl,
    rw (self sk) refl,
    peek-signed m auth key,
    rw (self key, self auth.host_signer, self auth.host_crypto) (peek-signed m auth key),
  );
  host_ack = λ m auth key sk domain rng. (
    sk ∷ key ∷ auth.ark_signer ∷ auth.ark_crypto ∷ m.h2a_encap,
    refl,
    rw (self sk, self key, self auth.ark_signer, self auth.ark_crypto) refl,
  );
}

value_inj : (a b : List ℕ) → ◌≡◌ {A = Result String (List ℕ)} (value a) (value b) → a ≡ b
value_inj a b e = cc

pub plain_room : HasRoom env plain 11
plain_room = record {
  hello_fits =
      λ m bytes e. rw (← value_inj (m.host_signer ∷ m.host_crypto ∷ []) bytes e) (omega arith);
  ark_hello_fits = λ m auth key pk domain rng bytes short sized e.
      rw (← value_inj (pk ∷ signed m auth key) bytes e)
        (omega (arith, length-append m.a2h_encap m.ark_attest));
  ack_fits = λ m auth key pk domain rng bytes sized e.
      rw (← value_inj (pk ∷ key ∷ auth.ark_signer ∷ auth.ark_crypto ∷ m.h2a_encap) bytes e)
        (omega arith);
}
