-- ===== src/Mergeset.antt =====
-- lib/mergeset: sorted sets of byte strings, the index of the storage.
pub mod Bytes
pub mod Block
pub mod Codec
pub mod Merge
pub mod Header
pub mod Parts
pub mod Search
pub mod Metaindex
mod Examples
