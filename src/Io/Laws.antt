-- ===== src/Io/Laws.antt =====
-- What the documentation of `Read`, memchr and COBS promises.
use darkbio_wire_rs.Common.{
  ℕ, ◌≤◌, ◌<◌, ◌≡◌, ◌≢◌, Option, none, some, List, [], ◌∷◌, ◌++◌, map, length, get_elem?, take, All,
}
use darkbio_wire_rs.Error.{IoError, Result, value, error}
use darkbio_wire_rs.Io.{Reader, Writer, Cobs}

abbrev pub NoZero : List ℕ → Type 0
NoZero xs = All (λ b. b ≢ 0) xs

-- `memchr` returns the first position of the byte.
pub record MemchrLaws (memchr : ℕ → List ℕ → Option ℕ) : Type 0 where
  pub found :
      (x : ℕ) (xs : List ℕ) (i : ℕ)
      → memchr x xs ≡ some i
      → (i < length xs) × (get_elem? xs i ≡ some x) × All (λ b. b ≢ x) (take i xs)
  pub missing : (x : ℕ) (xs : List ℕ) → memchr x xs ≡ none → All (λ b. b ≢ x) xs

-- What a stream has still to give: bytes, and failures of a call of `read` between them.
pub data Event : Type 0 where
  byte : ℕ → Event
  broken : IoError → Event

-- One call of `read` with room for `cap` bytes takes what it returns from the front of the events.
-- It returns some bytes, at most `cap` and in whatever portions, or a failure, or the end.
abbrev pub Delivers :
    {R : Type 0} → (R → List Event) → ℕ → List Event → Result IoError (List ℕ) × R → Type 0
Delivers events cap es (value [], r) = (es ≡ []) × (events r ≡ [])
Delivers events cap es (value (b ∷ bs), r) =
    (length (b ∷ bs) ≤ cap) × (es ≡ map byte (b ∷ bs) ++ events r)
Delivers events cap es (error e, r) = es ≡ broken e ∷ events r

-- A reader of a finite stream. How the stream is cut into portions is not restricted.
pub record Script {R : Type 0} (reader : Reader R) : Type 0 where
  pub events : R → List Event
  pub delivers : (r : R) (cap : ℕ) → 0 < cap → Delivers events cap (events r) (reader.read r cap)

-- COBS: an encoding holds no zero, fits the size computed beforehand, and decodes to the packet;
-- the coder works in the buffer that it is given.
pub record CobsLaws (cobs : Cobs) : Type 0 where
  pub length_encoded : (p buf : List ℕ) → length (cobs.encode p buf).1 ≡ length buf
  pub length_decoded : (f buf : List ℕ) → length (cobs.decode_nonzero f buf).1 ≡ length buf
  pub encodes :
      (p buf : List ℕ)
      → cobs.encode_buffer (length p) ≤ length buf
      → (n : ℕ) × ((cobs.encode p buf).0 ≡ value n)
        × (0 < n)
        × (n ≤ cobs.encode_buffer (length p))
        × NoZero (take n (cobs.encode p buf).1)
  pub encode_fits : (p buf : List ℕ) (n : ℕ) → (cobs.encode p buf).0 ≡ value n → n ≤ length buf
  pub decode_fits :
      (f buf : List ℕ) (n : ℕ) → (cobs.decode_nonzero f buf).0 ≡ value n → n ≤ length buf
  pub decodes :
      (p buf out : List ℕ) (n : ℕ)
      → (cobs.encode p buf).0 ≡ value n
      → length p ≤ length out
      → ((cobs.decode_nonzero (take n (cobs.encode p buf).1) out).0 ≡ value (length p))
        × (take (length p) (cobs.decode_nonzero (take n (cobs.encode p buf).1) out).1 ≡ p)
  pub grows : (n : ℕ) → n ≤ cobs.encode_buffer n

-- A writer that takes everything: `write_all` appends its bytes, `flush` has nothing to add.
pub record Sink {W : Type 0} (writer : Writer W) : Type 0 where
  pub written : W → List ℕ
  pub takes :
      (w : W) (bytes : List ℕ)
      → ((writer.write_all w bytes).0 ≡ value tt)
        × (written (writer.write_all w bytes).1 ≡ written w ++ bytes)
  pub flushes : (w : W) → ((writer.flush w).0 ≡ value tt) × (written (writer.flush w).1 ≡ written w)
