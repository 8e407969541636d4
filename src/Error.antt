-- ===== src/Error.antt =====
-- `Error` of src/lib.rs, and how an operation of the crate ends.
-- Errors of other crates and of `std::io` are only passed on or shown: their text stands for them.
pub mod Runs
pub mod Total
pub mod Moves
pub mod Agrees
use darkbio_wire_rs.Common.{◌≡◌, refl, ◌⊎◌, inl, inr, ℕ, String, Option, none, some}

abbrev pub IoError : Type 0
IoError = String

-- `cobs::DecodeError`: the one variant that the source names, and all others.
pub data CobsDecodeError : Type 0 where
  empty_input : CobsDecodeError
  other_decode : String → CobsDecodeError

pub data Error : Type 0 where
  packet_too_large : ℕ → Error
  packet_encoding_failed : String → Error
  packet_decoding_failed : String → Error
  frame_too_large : ℕ → Error
  frame_encoding_failed : String → Error
  frame_decoding_failed : CobsDecodeError → Error
  send_failed : IoError → Error
  recv_failed : IoError → Error
  terminated : Error
  invalid_attestation : Error
  handshake_failed : String → Error
  encryption_failed : String → Error

-- The result of a call into other code.
pub data Result (E A : Type 0) : Type 0 where
  value : A → Result E A
  error : E → Result E A

pub Result-cases :
    {E A : Type 0} (r : Result E A) → ((a : A) × (r ≡ value a)) ⊎ ((e : E) × (r ≡ error e))
Result-cases (value a) = inl (a, refl)
Result-cases (error e) = inr (e, refl)

-- How an operation ends: with the two cases of its `Result`, by a panic (a range out of bounds),
-- or, of the model alone, with its fuel used up.
pub data Outcome (A : Type 0) : Type 0 where
  ok : A → Outcome A
  err : Error → Outcome A
  panic : Outcome A
  exhausted : Outcome A

-- An operation on a mutable state. What was changed before an error stays changed.
abbrev pub Op : Type 0 → Type 0 → Type 0
Op S A = S → Outcome A × S

abbrev pub pure : {S A : Type 0} → A → Op S A
pure a s = (ok a, s)

abbrev pub fail : {S A : Type 0} → Error → Op S A
fail e s = (err e, s)

-- `?` on a result of other code, with its `map_err`.
abbrev pub or_fail : {S E A : Type 0} → (E → Error) → Result E A → Op S A
or_fail f (value a) s = (ok a, s)
or_fail f (error e) s = (err (f e), s)

-- A range of a buffer, which panics if it is out of bounds.
abbrev pub or_panic : {S A : Type 0} → Option A → Op S A
or_panic none s = (panic, s)
or_panic (some a) s = (ok a, s)

-- What follows an operation: nothing, unless it went well.
abbrev pub and_then : {S A B : Type 0} → (A → Op S B) → Outcome A × S → Outcome B × S
and_then f (ok a, s) = f a s
and_then f (err e, s) = (err e, s)
and_then f (panic, s) = (panic, s)
and_then f (exhausted, s) = (exhausted, s)

infixl 5 ◌>>=◌ ◌>>◌
abbrev pub ◌>>=◌ : {S A B : Type 0} → Op S A → (A → Op S B) → Op S B
◌>>=◌ m f s = and_then f (m s)

abbrev pub ◌>>◌ : {S B : Type 0} → Op S (Unit {0}) → Op S B → Op S B
m >> k = m >>= λ _. k
