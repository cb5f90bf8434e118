-- ===== src/Arena/Concurrent/Invariant.antt =====
-- What holds of an arena (crates/mem/src/arena.rs) between any two accesses of many requests.
use victory_db.Base.{
  ℕ, ◌+◌, ◌*◌, ◌%◌, ◌^◌, ◌≤◌, ◌<◌, ◌≡◌, ◌≢◌, ◌⊎◌, Option, none, some, Bool, true, false, All,
  length,
}
use victory_db.Arena.{Arena, ArenaPolicy, Layout, arena_full, system}
use victory_db.Arena.Laws.{bump_of, ChunkFits}
use victory_db.Arena.Concurrent.{
  AllocPc, loading, locking, relooking, growing, adding, pushing, reading, rereading, publishing,
  checking, rechecking, exchanging, counting, allotted, gave_up, Requests,
}

-- A layout whose alignment is a power of two that no addition to a bump wraps at.
pub record LayoutFits (p : ArenaPolicy) (k : ℕ) (l : Layout) : Type 0 where
  pub power : l.align ≡ 2 ^ k
  pub small : k ≤ 63
  pub no_wrap : p.block_size + 2 ^ k ≤ 2 ^ 64

-- The request holds the mutex.
abbrev pub holds_lock : AllocPc → Bool
holds_lock loading = false
holds_lock locking = false
holds_lock relooking = true
holds_lock growing = true
holds_lock adding = true
holds_lock pushing = true
holds_lock (reading i) = false
holds_lock (rereading i) = true
holds_lock (publishing i) = true
holds_lock (checking i bump) = false
holds_lock (rechecking bump) = true
holds_lock (exchanging i bump aligned next) = false
holds_lock (counting i offset) = false
holds_lock (allotted i offset) = false
holds_lock (gave_up e) = false

-- The chunk and the offset that a request has got.
abbrev pub region : AllocPc → Option (ℕ × ℕ)
region loading = none
region locking = none
region relooking = none
region growing = none
region adding = none
region pushing = none
region (reading i) = none
region (rereading i) = none
region (publishing i) = none
region (checking i bump) = none
region (rechecking bump) = none
region (exchanging i bump aligned next) = none
region (counting i offset) = some (i, offset)
region (allotted i offset) = some (i, offset)
region (gave_up e) = none

-- The chunks have the size of a block and are not overrun; the bytes counted are those of the
-- chunks, or more, and within the capacity.
pub record IsShared (p : ArenaPolicy) (a : Arena) : Type 0 where
  pub policy : a.policy ≡ p
  pub from_system : a.allocator ≡ system
  pub chunks_fit : All (ChunkFits p.block_size) a.chunks
  pub current : a.current < length a.chunks
  pub counted : p.block_size * length a.chunks ≤ a.allocated_bytes
  pub within : a.allocated_bytes ≤ p.cap

-- A region of the size of the layout at an aligned offset, handed out in its chunk.
abbrev pub Owns : ℕ → Layout → Arena → ℕ → ℕ → Type 0
Owns k l a i offset = (offset % 2 ^ k ≡ 0) × (offset + l.size ≤ bump_of a.chunks i)

-- What a request knows.
abbrev pub PcOk : ArenaPolicy → ℕ → Layout → Arena → AllocPc → Type 0
PcOk p k l a loading = Unit {0}
PcOk p k l a locking = Unit {0}
PcOk p k l a relooking = Unit {0}
PcOk p k l a growing = Unit {0}
PcOk p k l a adding = a.allocated_bytes + p.block_size ≤ p.cap
PcOk p k l a pushing = p.block_size * length a.chunks + p.block_size ≤ a.allocated_bytes
PcOk p k l a (reading i) = i < length a.chunks
PcOk p k l a (rereading i) = i < length a.chunks
PcOk p k l a (publishing i) = i < length a.chunks
PcOk p k l a (checking i bump) = (i < length a.chunks) × (bump ≤ p.block_size)
PcOk p k l a (rechecking bump) = Unit {0}
PcOk p k l a (exchanging i bump aligned next) =
    (i < length a.chunks)
    × (bump ≤ aligned)
    × (aligned % 2 ^ k ≡ 0)
    × (next ≡ aligned + l.size)
    × (next ≤ p.block_size)
PcOk p k l a (counting i offset) = Owns k l a i offset
PcOk p k l a (allotted i offset) = Owns k l a i offset
PcOk p k l a (gave_up e) = (e ≡ arena_full) × (p.cap < a.allocated_bytes + p.block_size)

-- Two regions of a chunk do not overlap.
abbrev pub Apart : (offset size offset' size' : ℕ) → Type 0
Apart offset size offset' size' = (offset + size ≤ offset') ⊎ (offset' + size' ≤ offset)

pub record Holds (p : ArenaPolicy) (ks : ℕ → ℕ) (layouts : ℕ → Layout) (s : Requests) : Type 0 where
  pub shared : IsShared p s.arena
  pub alone : (x : ℕ) → holds_lock (s.pcs x) ≡ true → s.lock ≡ some x
  pub knows : (x : ℕ) → PcOk p (ks x) (layouts x) s.arena (s.pcs x)
  pub apart :
      (x y i offset offset' : ℕ)
      → x ≢ y
      → region (s.pcs x) ≡ some (i, offset)
      → region (s.pcs y) ≡ some (i, offset')
      → Apart offset (layouts x).size offset' (layouts y).size
