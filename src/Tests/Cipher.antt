-- ===== src/Tests/Cipher.antt =====
-- A stand-in for the crypto crates, without secrets: keys are numbers, a public key is its secret
-- key, envelopes name who may open them and who made them, and a sealed message carries 16 bytes
-- that name its context and its place in it. And a message type that is its own encoding.
use darkbio_wire_rs.Common.{
  ap, sym, subst, eq→==, ℕ, suc, ◌+◌, ◌-◌, ◌≡◌, refl, List, [], ◌∷◌, ◌++◌, length, take, drop,
  replicate, get_elem?, none, some, Bool, true, false, ◌&&◌, String, ◌==◌, if◌then◌else◌,
  length-append, take-append_eq, arith,
}
use darkbio_wire_rs.Error.{Result, value, error}
use darkbio_wire_rs.Handshake.{HostHello, ArkHello, ArkHelloAuth, HostAck, HostAckAuth}
use darkbio_wire_rs.Crypto.{Message, Crypto}
use darkbio_wire_rs.Session.Laws.{Secure, Codec}

abbrev Hello : Type 0
Hello = ArkHello ℕ ℕ

abbrev Auth : Type 0
Auth = ArkHelloAuth ℕ ℕ

abbrev is_at : List ℕ → ℕ → ℕ → Bool
is_at xs i b = elim (get_elem? xs i) [ none ↦ false | some x ↦ x == b ]

abbrev seal : ℕ × ℕ → List ℕ → List ℕ → Result String (List ℕ) × (ℕ × ℕ)
seal (key, place) blob aad = (value (blob ++ replicate 16 (key + place)), (key, suc place))

abbrev open_sealed : ℕ × ℕ → List ℕ → List ℕ → Result String (List ℕ) × (ℕ × ℕ)
open_sealed (key, place) sealed aad =
    if is_at sealed (length sealed - 16) (key + place)
    then (value (take (length sealed - 16) sealed), (key, suc place))
    else (error "not authentic", (key, place))

abbrev new_receiver : ℕ → List ℕ → String → Result String (ℕ × ℕ)
new_receiver sk (pk ∷ key ∷ []) info = if sk == pk then value (key, 0) else error "wrong key"
new_receiver sk _ info = error "malformed"

abbrev decode_host_hello : List ℕ → Result String (HostHello ℕ ℕ)
decode_host_hello (signer ∷ crypto ∷ []) =
    value (record { host_signer = signer; host_crypto = crypto })
decode_host_hello _ = error "malformed"

abbrev recipient : List ℕ → Result String ℕ
recipient [] = error "malformed"
recipient (pk ∷ _) = value pk

abbrev decrypt_ark_hello : List ℕ → Auth → ℕ → String → Result String (List ℕ)
decrypt_ark_hello [] auth sk info = error "malformed"
decrypt_ark_hello (pk ∷ sign1) auth sk info = if pk == sk then value sign1 else error "wrong key"

abbrev peek_ark_hello : List ℕ → Result String Hello
peek_ark_hello (signer ∷ host_signer ∷ host_crypto ∷ ark_crypto ∷ size ∷ rest) =
    value
      (record { ark_attest = drop size rest; ark_crypto = ark_crypto; a2h_encap = take size rest })
peek_ark_hello _ = error "malformed"

abbrev verify_ark_hello : List ℕ → Auth → ℕ → String → Result String Hello
verify_ark_hello (signer ∷ host_signer ∷ host_crypto ∷ rest) auth key info =
    if signer == key && (host_signer == auth.host_signer && host_crypto == auth.host_crypto)
    then peek_ark_hello (signer ∷ host_signer ∷ host_crypto ∷ rest)
    else error "not authentic"
verify_ark_hello _ auth key info = error "malformed"

abbrev open_host_ack : List ℕ → HostAckAuth ℕ ℕ → ℕ → ℕ → String → Result String (HostAck ℕ ℕ)
open_host_ack (pk ∷ signer ∷ ark_signer ∷ ark_crypto ∷ encap) auth sk key info =
    if pk == sk
      && (signer == key && (ark_signer == auth.ark_signer && ark_crypto == auth.ark_crypto))
    then value (record { h2a_encap = encap })
    else error "not authentic"
open_host_ack _ auth sk key info = error "malformed"

abbrev peek_claims : List ℕ → Result String ℕ
peek_claims [] = error "malformed"
peek_claims (key ∷ _) = value key

abbrev pub plain : Crypto
plain = record {
  Rng = ℕ;
  SigningKey = ℕ;
  VerifyingKey = ℕ;
  generate_signer = λ n. (n, suc n);
  verifying_key = λ k. k;
  SecretKey = ℕ;
  PublicKey = ℕ;
  generate_secret = λ n. (n, suc n);
  public_key = λ k. k;
  Fingerprint = ℕ;
  fingerprint = λ k. k;
  same_fingerprint = λ a b. a == b;
  Sender = ℕ × ℕ;
  Receiver = ℕ × ℕ;
  encap_key_size = 2;
  new_sender = λ pk info n. (value ((n, 0), pk ∷ n ∷ []), suc n);
  new_receiver = new_receiver;
  seal = seal;
  open_sealed = open_sealed;
  encode_host_hello = λ h. value (h.host_signer ∷ h.host_crypto ∷ []);
  decode_host_hello = decode_host_hello;
  seal_ark_hello = λ hello auth key pk info n. (
    value (
        pk
        ∷ key
        ∷ auth.host_signer
        ∷ auth.host_crypto
        ∷ hello.ark_crypto
        ∷ length hello.a2h_encap
        ∷ (hello.a2h_encap ++ hello.ark_attest)),
    n,
  );
  recipient = recipient;
  decrypt_ark_hello = decrypt_ark_hello;
  peek_ark_hello = peek_ark_hello;
  verify_ark_hello = verify_ark_hello;
  seal_host_ack = λ ack auth key pk info n.
      (value (pk ∷ key ∷ auth.ark_signer ∷ auth.ark_crypto ∷ ack.h2a_encap), n);
  open_host_ack = open_host_ack;
  HardwareClaims = ℕ;
  EmulatorClaims = ℕ;
  peek_hardware = peek_claims;
  peek_emulator = λ cwt. error "not an emulator";
  Device = ℕ;
  device_signer = λ k. k;
  verify_device = λ cwt hardware emulator now. peek_claims cwt;
}

abbrev pub bytes : Message (List ℕ)
bytes = record {
  encoded_len = length;
  encode = λ m buf. (value tt, buf ++ m);
  decode = λ blob. value blob;
}

abbrev pub bytes_codec : Codec bytes
bytes_codec = record { encodes = λ m. (m, refl, refl, refl) }

tagged : (blob : List ℕ) (k : ℕ) → is_at (blob ++ replicate 16 k) (length blob) k ≡ true
tagged [] k = eq→== k k refl
tagged (b ∷ blob) k = tagged blob k

pub sealed-opens :
    (key place : ℕ) (blob : List ℕ)
    → open_sealed (key, place) (blob ++ replicate 16 (key + place)) []
      ≡ (value blob, (key, suc place))
sealed-opens key place blob =
    let tag = replicate 16 (key + place) in
    let size : length (blob ++ tag) - 16 ≡ length blob = omega (arith, length-append blob tag) in
    rw (size, tagged blob (key + place), take-append_eq (length blob) blob tag refl)

abbrev pub plain_secure : Secure plain
plain_secure = record {
  Paired = λ n s r. s ≡ r;
  opens = λ n s r blob e.
      let tag = replicate 16 (s.0 + s.1) in
      let opened = sealed-opens s.0 s.1 blob in
      (
        blob ++ tag,
        refl,
        omega (arith, length-append blob tag),
        subst (λ t. (open_sealed t (blob ++ tag) []).0 ≡ value blob) e (ap (λ p. p.0) opened),
        subst (λ t. (s.0, suc s.1) ≡ (open_sealed t (blob ++ tag) []).1) e
            (sym (ap (λ p. p.1) opened)),
      );
}
