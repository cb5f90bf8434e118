-- ===== src/Arena.antt =====
-- crates/mem/src/{arena, allocator}.rs: a bump allocator over chunks of one size.
-- A pointer into the arena is the index of a chunk and an offset in it. The arena is used by one
-- thread here: each atomic operation reads what the last one wrote, and a weak compare-and-swap
-- fails spuriously as often as the argument `fails` says. Arena.Concurrent is many threads.
pub mod Align
pub mod Laws
pub mod Steps
pub mod Allocation
pub mod Regions
pub mod Concurrent
mod Examples
use victory_db.Base.{
  ℕ, zero, suc, ◌+◌, ◌-◌, ◌*◌, ◌/◌, ◌%◌, ◌^◌, ◌≡◌, List, [], ◌∷◌, ◌++◌, Option, none, some, length,
  get_elem?, set, ltb, ◌==◌, if◌then◌else◌, bit_and, u64,
}
use victory_db.Base.Run.{Run, ok, panic, fault, out_of_fuel, ◌>>=◌}

abbrev kb : ℕ
kb = 1000

abbrev mb : ℕ
mb = kb

pub data ArenaSize : Type 0 where
  custom : ℕ → ℕ → ArenaSize
  default small medium large : ArenaSize

pub record ArenaPolicy : Type 0 where
  pub block_size : ℕ
  pub cap : ℕ

-- `ArenaSize::to_policy`
unfoldable pub to_policy : ArenaSize → ArenaPolicy
to_policy (custom block cap) = record { block_size = block; cap = cap }
to_policy default = record { block_size = 4 * mb; cap = 64 * mb }
to_policy small = record { block_size = 2 * mb; cap = 16 * mb }
to_policy medium = record { block_size = 4 * mb; cap = 32 * mb }
to_policy large = record { block_size = 8 * mb; cap = 64 * mb }

pub data ArenaError : Type 0 where
  allocation_error : ℕ → ArenaError
  overflow chunk_double_check_failed arena_full : ArenaError

-- A chunk: the length of its memory and how much of it is handed out.
pub record Chunk : Type 0 where
  pub size : ℕ
  pub bump : ℕ

pub data Allocator : Type 0 where
  system numa huge_page mmap test : Allocator

-- `Allocator::allocate` and `Chunk::new`; all but the system allocator are unimplemented.
unfoldable pub allocate : Allocator → ℕ → Run Chunk
allocate system size = ok (record { size = size; bump = 0 })
allocate numa size = panic
allocate huge_page size = panic
allocate mmap size = panic
allocate test size = panic

pub record Arena : Type 0 where
  pub current : ℕ
  pub chunks : List Chunk
  pub allocated_bytes : ℕ
  pub memory_used : ℕ
  pub allocator : Allocator
  pub policy : ArenaPolicy

-- `Arena::new`; the capacity of the vector of chunks, a division by the block size, can panic too.
unfoldable pub new : ArenaPolicy → Allocator → Run Arena
unfolding allocate
new policy allocator = if ltb policy.cap policy.block_size then panic else (do
  chunk ← allocate allocator policy.block_size
  (if policy.block_size == 0
      then panic
      else ok (record {
        current = 0;
        chunks = chunk ∷ [];
        allocated_bytes = policy.block_size;
        memory_used = 0;
        allocator = allocator;
        policy = policy;
      })))

pub record Layout : Type 0 where
  pub size : ℕ
  pub align : ℕ

-- `get_chunk`: a pointer to no chunk would be dangling.
unfoldable pub get_chunk : Arena → Run Chunk
get_chunk a = elim (get_elem? a.chunks a.current) [ none ↦ fault | some c ↦ ok c ]

-- `(bump + (align - 1)) & !(align - 1)` on 64 bits
unfoldable pub align_up : ℕ → ℕ → ℕ
align_up bump align = bit_and (u64 (bump + (align - 1))) (2 ^ 64 - 1 - (align - 1))

-- `alignment_check` against a chunk: the aligned offset and the offset behind it. `none` is
-- `Err(Overflow)`, of `checked_add` or of the chunk.
unfoldable pub alignment_check : Chunk → ℕ → Layout → Option (ℕ × ℕ)
unfolding align_up
alignment_check c bump layout =
    let aligned = align_up bump layout.align in
    let next = aligned + layout.size in
    if ltb next (2 ^ 64) then (if ltb c.size next then none else some (aligned, next)) else none

-- `Result<(), ArenaError>` with the arena that the call leaves behind
pub data Grown : Type 0 where
  grown : Arena → Grown
  refused : ArenaError → Arena → Grown

-- The part of `try_new_chunk` behind the second check.
unfoldable pub push_chunk : Arena → Run Grown
unfolding allocate
push_chunk a =
    if ltb a.policy.cap (u64 (a.allocated_bytes + a.policy.block_size))
    then ok (refused arena_full a)
    else (do
      chunk ← allocate a.allocator a.policy.block_size
      ok (
          grown (record a {
            current = length a.chunks;
            chunks = a.chunks ++ (chunk ∷ []);
            allocated_bytes = u64 (a.allocated_bytes + a.policy.block_size);
          })))

unfoldable pub try_new_chunk : Arena → Layout → Run Grown
unfolding get_chunk alignment_check push_chunk
try_new_chunk a layout = do
  c ← get_chunk a
  elim (alignment_check c c.bump layout) [ some _ ↦ ok (grown a) | none ↦ push_chunk a ]

-- The successful compare-and-swap: the bump moves, and the use is counted (without the padding).
unfoldable pub take_region : Arena → Chunk → ℕ → Layout → Arena
take_region a c next layout = record a {
  chunks = set a.chunks a.current (record c { bump = next });
  memory_used = u64 (a.memory_used + layout.size);
}

pub data Allocated : Type 0 where
  at : (chunk offset : ℕ) → Arena → Allocated
  failed : ArenaError → Arena → Allocated

-- `alloc_raw_fallback`
unfoldable pub alloc_raw_fallback : ℕ → ℕ → Arena → Layout → Run Allocated
unfolding get_chunk alignment_check try_new_chunk take_region
alloc_raw_fallback zero fails a layout = out_of_fuel
alloc_raw_fallback (suc fuel) fails a layout = do
  c ← get_chunk a
  elim (alignment_check c c.bump layout) [
    | none ↦ try_new_chunk a layout >>= elim [
      | refused e a' ↦ ok (failed e a')
      | grown a' ↦ alloc_raw_fallback fuel fails a' layout
    ]
    | some (aligned, next) ↦ elim fails [
      | zero ↦ ok (at a.current aligned (take_region a c next layout))
      | suc left ↦ alloc_raw_fallback fuel left a layout
    ]
  ]

-- `alloc_raw` is the same loop with a panic in place of the error.
unfoldable pub or_panic : Allocated → Run (ℕ × ℕ × Arena)
or_panic (at chunk offset a) = ok (chunk, offset, a)
or_panic (failed e a) = panic

unfoldable pub alloc_raw : ℕ → ℕ → Arena → Layout → Run (ℕ × ℕ × Arena)
unfolding or_panic
alloc_raw fuel fails a layout = alloc_raw_fallback fuel fails a layout >>= or_panic

-- `blocks_used`, `max_bytes`, `number_of_blocks`, `memory_used`
unfoldable pub blocks_used : Arena → ℕ
blocks_used a = a.allocated_bytes / a.policy.block_size

unfoldable pub max_bytes : Arena → ℕ
max_bytes a = a.policy.cap

unfoldable pub number_of_blocks : Arena → ℕ
number_of_blocks a = a.policy.cap / a.policy.block_size

unfoldable pub memory_used : Arena → ℕ
memory_used a = a.memory_used

-- `get_current_init_slice`: what of the current chunk is handed out, as its length
unfoldable pub get_current_init_slice : Arena → Run ℕ
unfolding get_chunk
get_current_init_slice a = do c ← get_chunk a; ok c.bump
