-- ===== src/Tests.antt =====
-- Tests of the definitions, and the theorems at concrete inputs.
pub mod World
pub mod Codec
pub mod Replay
pub mod Cipher
pub mod Honest
