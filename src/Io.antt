-- ===== src/Io.antt =====
-- What the wire takes from outside: the byte streams it is given (`std::io::Read` and `Write`),
-- and the crates darkbio_cobs and memchr. All are arguments of the model; what is known of them
-- is stated by the records of Io/Laws.antt.
pub mod Laws
use darkbio_wire_rs.Common.{ℕ, ◌+◌, ◌%◌, ◌^◌, String, Option, List}
use darkbio_wire_rs.Error.{IoError, CobsDecodeError, Result}

-- `read(&mut buf)` is given the length of `buf` and returns the bytes that it put at its start;
-- `Ok(0)` is the empty list.
pub record Reader (R : Type 0) : Type 0 where
  pub read : R → ℕ → Result IoError (List ℕ) × R

pub record Writer (W : Type 0) : Type 0 where
  pub write_all : W → List ℕ → Result IoError (Unit {0}) × W
  pub flush : W → Result IoError (Unit {0}) × W

-- `encode` and `decode_nonzero` take the input and the output buffer, and return the number of
-- bytes written to the buffer's start beside the buffer afterwards.
pub record Cobs : Type 0 where
  pub encode_buffer : ℕ → ℕ
  pub encode : List ℕ → List ℕ → Result String ℕ × List ℕ
  pub decode_nonzero : List ℕ → List ℕ → Result CobsDecodeError ℕ × List ℕ

-- `frame_limit` is MAX_FRAME_SIZE; the theorems hold for every limit.
pub record Env (R W : Type 0) : Type 0 where
  pub reader : Reader R
  pub writer : Writer W
  pub memchr : ℕ → List ℕ → Option ℕ
  pub cobs : Cobs
  pub frame_limit : ℕ

-- `usize` addition.
abbrev pub usize_mod : ℕ
usize_mod = 2 ^ 64

abbrev pub add_size : ℕ → ℕ → ℕ
add_size a b = (a + b) % usize_mod
