-- ===== src/Arena/Concurrent.antt =====
-- `alloc_raw_fallback` of crates/mem/src/arena.rs by many threads at once, one access to shared
-- memory at a time, with `try_new_chunk` under the mutex of the chunks. A request is named by a
-- number; a thread that allocates again is another number. A thread that waits for the mutex stays
-- where it is.
pub mod Invariant
pub mod Steps
pub mod Reached
pub mod Interleaved
mod Examples
use victory_db.Base.{
  ℕ, ◌+◌, ◌≡◌, List, [], ◌∷◌, ◌++◌, Option, none, some, Bool, true, false, not, ◌&&◌, length,
  get_elem?, set, ltb, ◌==◌, if◌then◌else◌, u64,
}
use victory_db.Base.Run.{Run, ok, fault, ◌>>=◌}
use victory_db.Arena.{
  Chunk, allocate, Arena, Layout, get_chunk, alignment_check, ArenaError, arena_full,
}

-- Where a request is. From `relooking` to `publishing` it holds the mutex.
pub data AllocPc : Type 0 where
  loading locking relooking growing adding pushing : AllocPc
  reading rereading publishing : (chunk : ℕ) → AllocPc
  checking : (chunk bump : ℕ) → AllocPc
  rechecking : (bump : ℕ) → AllocPc
  exchanging : (chunk bump aligned next : ℕ) → AllocPc
  counting allotted : (chunk offset : ℕ) → AllocPc
  gave_up : ArenaError → AllocPc

abbrev pub Mutex : Type 0
Mutex = Option ℕ

-- A chunk by the pointer that a thread has loaded.
unfoldable pub chunk_of : Arena → ℕ → Run Chunk
chunk_of a i = elim (get_elem? a.chunks i) [ none ↦ fault | some c ↦ ok c ]

module _ (x : ℕ) (layout : Layout) where
  -- The exchange of the bump: whether it found the expected one.
  unfoldable pub exchange_bump :
      Bool → Arena → Mutex → ℕ → ℕ → ℕ → ℕ → Chunk → Arena × Mutex × AllocPc
  exchange_bump spurious a lock i bump aligned next c =
      if not spurious && (c.bump == bump)
      then (
        record a { chunks = set a.chunks i (record c { bump = next }) },
        lock,
        counting i aligned,
      )
      else (a, lock, loading)

  -- One access of the request. The weak compare-and-swap may fail where it need not, if `spurious`.
  unfoldable pub alloc_step : Bool → Arena → Mutex → AllocPc → Run (Arena × Mutex × AllocPc)
  alloc_step spurious a lock loading = ok (a, lock, reading a.current)
  alloc_step spurious a lock (reading i) = chunk_of a i >>= λ c. ok (a, lock, checking i c.bump)
  alloc_step spurious a lock (checking i bump) = get_chunk a >>= λ c. ok (
    a,
    lock,
    elim (alignment_check c bump layout) [
      | none ↦ locking
      | some (aligned, next) ↦ exchanging i bump aligned next
    ],
  )
  alloc_step spurious a lock (exchanging i bump aligned next) =
      chunk_of a i >>= λ c. ok (exchange_bump spurious a lock i bump aligned next c)
  alloc_step spurious a lock (counting i offset) =
      ok (record a { memory_used = u64 (a.memory_used + layout.size) }, lock, allotted i offset)
  alloc_step spurious a lock (allotted i offset) = ok (a, lock, allotted i offset)
  alloc_step spurious a none locking = ok (a, some x, relooking)
  alloc_step spurious a (some holder) locking = ok (a, some holder, locking)
  alloc_step spurious a lock relooking = ok (a, lock, rereading a.current)
  alloc_step spurious a lock (rereading i) = chunk_of a i >>= λ c. ok (a, lock, rechecking c.bump)
  alloc_step spurious a lock (rechecking bump) = get_chunk a >>= λ c.
      ok (elim (alignment_check c bump layout) [
        | some _ ↦ (a, none, loading)
        | none ↦ (a, lock, growing)
      ])
  alloc_step spurious a lock growing =
      if ltb a.policy.cap (u64 (a.allocated_bytes + a.policy.block_size))
      then ok (a, none, gave_up arena_full)
      else ok (a, lock, adding)
  alloc_step spurious a lock adding =
      ok (
        record a { allocated_bytes = u64 (a.allocated_bytes + a.policy.block_size) },
        lock,
        pushing,
      )
  alloc_step spurious a lock pushing = allocate a.allocator a.policy.block_size >>= λ chunk.
      ok (record a { chunks = a.chunks ++ (chunk ∷ []) }, lock, publishing (length a.chunks))
  alloc_step spurious a lock (publishing i) = ok (record a { current = i }, none, loading)
  alloc_step spurious a lock (gave_up e) = ok (a, lock, gave_up e)

abbrev pub update_pc : (ℕ → AllocPc) → ℕ → AllocPc → ℕ → AllocPc
update_pc pcs x pc y = if y == x then pc else pcs y

pub record Requests : Type 0 where
  pub arena : Arena
  pub lock : Mutex
  pub pcs : ℕ → AllocPc

-- Some request makes its next access.
pub data Step (layouts : ℕ → Layout) (s : Requests) : Requests → Type 0 where
  access :
      (x : ℕ) (spurious : Bool) (a : Arena) (lock : Mutex) (pc : AllocPc)
      → alloc_step x (layouts x) spurious s.arena s.lock (s.pcs x) ≡ ok (a, lock, pc)
      → Step layouts s (record { arena = a; lock = lock; pcs = update_pc s.pcs x pc })

abbrev pub start : Arena → Requests
start a = record { arena = a; lock = none; pcs = λ x. loading }

pub data Reach (layouts : ℕ → Layout) (s : Requests) : Requests → Type 0 where
  started : Reach layouts s s
  later : {t u : Requests} → Reach layouts s t → Step layouts t u → Reach layouts s u
