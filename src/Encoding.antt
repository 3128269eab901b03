-- ===== src/Encoding.antt =====
-- lib/encoding: integers, byte strings and arrays of int64 as bytes.
pub mod Fixed
pub mod Varint
pub mod Delta
pub mod Array
pub mod Sequence
mod Examples
