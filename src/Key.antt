-- ===== src/Key.antt =====
-- crates/engine/src/key: operation types, the trailer, internal keys and the buffers that hold them.
pub mod Comparator
pub mod InternalKey
pub mod Buffers
mod Examples
