-- ===== src/SkipList.antt =====
-- crates/engine/src/memtable/skip_list.rs. Each atomic load reads the last store, and a
-- compare-and-swap succeeds exactly when the slot holds the expected pointer. SkipList.Concurrent
-- lets many threads insert at once; the other modules follow one thread.
pub mod Node
pub mod Level
pub mod Search
pub mod Insert
pub mod Concurrent
pub mod Iter
pub mod Chain
pub mod Invariant
pub mod Walk
pub mod Found
pub mod Iteration
mod Examples
