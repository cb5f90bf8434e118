-- ===== src/Arena/Laws.antt =====
-- Well-formed arenas (crates/mem/src/arena.rs), and what granting or refusing a region means.
use victory_db.Base.{
  ℕ, zero, suc, ◌+◌, ◌*◌, ◌%◌, ◌^◌, ◌≤◌, ◌<◌, ◌≡◌, refl, List, [], ◌∷◌, ◌++◌, All, length, set,
  get_elem?, some, arith,
}
use victory_db.Base.Run.{Run, ok}
use victory_db.Arena.{Chunk, system, Arena, Layout, arena_full, ArenaError, Allocated, at, failed}

-- How much of a chunk is handed out; nothing of a chunk that is not there.
abbrev pub bump_of : List Chunk → ℕ → ℕ
bump_of [] i = 0
bump_of (c ∷ cs) zero = c.bump
bump_of (c ∷ cs) (suc i) = bump_of cs i

abbrev pub ChunkFits : ℕ → Chunk → Type 0
ChunkFits block c = (c.size ≡ block) × (c.bump ≤ block)

-- The current chunk is the last, all chunks have the size of a block and are not overrun, and the
-- count of bytes is that of the chunks and within the capacity.
pub record IsArena (a : Arena) : Type 0 where
  pub some_block : 0 < a.policy.block_size
  pub no_wrap : a.policy.cap + a.policy.block_size < 2 ^ 64
  pub last : a.current + 1 ≡ length a.chunks
  pub counted : a.allocated_bytes ≡ a.policy.block_size * length a.chunks
  pub within : a.allocated_bytes ≤ a.policy.cap
  pub chunks_fit : All (ChunkFits a.policy.block_size) a.chunks
  pub from_system : a.allocator ≡ system

-- A layout whose alignment is a power of two that no addition to a bump of this arena wraps at.
pub record IsLayout (a : Arena) (k : ℕ) (l : Layout) : Type 0 where
  pub power : l.align ≡ 2 ^ k
  pub small : k ≤ 63
  pub no_wrap : a.policy.block_size + 2 ^ k ≤ 2 ^ 64

pub chunk_at :
    (block : ℕ) (cs : List Chunk) (i : ℕ)
    → All (ChunkFits block) cs
    → i < length cs
    → (c : Chunk) × (get_elem? cs i ≡ some c) × ChunkFits block c × (bump_of cs i ≡ c.bump)
chunk_at block [] i fits h = absurd (omega arith)
chunk_at block (c ∷ cs) zero fits h = (c, refl, fits.0, refl)
chunk_at block (c ∷ cs) (suc i) fits h = chunk_at block cs i fits.1 (omega arith)

pub All-set :
    (block : ℕ) (cs : List Chunk) (i : ℕ) (c : Chunk)
    → All (ChunkFits block) cs
    → ChunkFits block c
    → All (ChunkFits block) (set cs i c)
All-set block [] i c fits new = tt
All-set block (d ∷ ds) zero c fits new = (new, fits.1)
All-set block (d ∷ ds) (suc i) c fits new = (fits.0, All-set block ds i c fits.1 new)

pub bump_of-set :
    (cs : List Chunk) (i : ℕ) (c : Chunk) → i < length cs → bump_of (set cs i c) i ≡ c.bump
bump_of-set [] i c h = absurd (omega arith)
bump_of-set (d ∷ ds) zero c h = refl
bump_of-set (d ∷ ds) (suc i) c h = bump_of-set ds i c (omega arith)

pub bump_of-set_mono :
    (cs : List Chunk) (i : ℕ) (c : Chunk)
    → bump_of cs i ≤ c.bump
    → (j : ℕ) → bump_of cs j ≤ bump_of (set cs i c) j
bump_of-set_mono [] i c h j = omega arith
bump_of-set_mono (d ∷ ds) zero c h zero = h
bump_of-set_mono (d ∷ ds) zero c h (suc j) = omega arith
bump_of-set_mono (d ∷ ds) (suc i) c h zero = omega arith
bump_of-set_mono (d ∷ ds) (suc i) c h (suc j) = bump_of-set_mono ds i c h j

pub bump_of-push :
    (cs : List Chunk) (size : ℕ) (j : ℕ)
    → bump_of (cs ++ (record { size = size; bump = 0 } ∷ [])) j ≡ bump_of cs j
bump_of-push [] size zero = refl
bump_of-push [] size (suc j) = refl
bump_of-push (c ∷ cs) size zero = refl
bump_of-push (c ∷ cs) size (suc j) = bump_of-push cs size j

pub bump_of_past : (cs : List Chunk) → bump_of cs (length cs) ≡ 0
bump_of_past [] = refl
bump_of_past (c ∷ cs) = bump_of_past cs

-- No allocation gives back what was handed out before.
abbrev pub Keeps : Arena → Arena → Type 0
Keeps a a' = (j : ℕ) → bump_of a.chunks j ≤ bump_of a'.chunks j

-- The region of `layout` at an offset of a chunk: aligned, inside the chunk, not handed out in `a`,
-- and handed out in `a'`.
pub record Granted (a : Arena) (k : ℕ) (layout : Layout) (chunk offset : ℕ) (a' : Arena)
    : Type 0 where
  pub valid : IsArena a'
  pub policy : a'.policy ≡ a.policy
  pub keeps : Keeps a a'
  pub multiple : offset % 2 ^ k ≡ 0
  pub inside : offset + layout.size ≤ a.policy.block_size
  pub fresh : bump_of a.chunks chunk ≤ offset
  pub taken : bump_of a'.chunks chunk ≡ offset + layout.size

-- A refusal: another chunk would exceed the capacity, and unless the layout is larger than a chunk,
-- the arena is unchanged and its current chunk in use.
pub record Refused (a : Arena) (layout : Layout) (e : ArenaError) (a' : Arena) : Type 0 where
  pub valid : IsArena a'
  pub policy : a'.policy ≡ a.policy
  pub reason : e ≡ arena_full
  pub keeps : Keeps a a'
  pub exhausted : a.policy.cap < a'.allocated_bytes + a.policy.block_size
  pub unchanged : layout.size ≤ a.policy.block_size → a' ≡ a
  pub used : layout.size ≤ a.policy.block_size → 0 < bump_of a.chunks a.current

pub data Returns (a : Arena) (k : ℕ) (layout : Layout) : Run Allocated → Type 0 where
  granted :
      (chunk offset : ℕ) (a' : Arena)
      → Granted a k layout chunk offset a'
      → Returns a k layout (ok (at chunk offset a'))
  refusal :
      (e : ArenaError) (a' : Arena) → Refused a layout e a' → Returns a k layout (ok (failed e a'))
