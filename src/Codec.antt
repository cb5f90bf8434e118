-- ===== src/Codec.antt =====
-- Encodings: variable-length integers, unaligned integers in memory, and write batches.
pub mod VarInt
pub mod Memory
pub mod Batch
mod Examples
