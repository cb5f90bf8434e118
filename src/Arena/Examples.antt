-- ===== src/Arena/Examples.antt =====
-- The arena of crates/mem/src/arena.rs at work.
use victory_db.Base.{ℕ, ◌+◌, ◌<◌, ◌≡◌, refl, List, [], ◌∷◌, arith}
use victory_db.Base.Run.{ok}
use victory_db.Arena.{
  Chunk, Arena, ArenaPolicy, system, Layout, new, alloc_raw_fallback, failed, arena_full,
}
use victory_db.Arena.Laws.{IsArena, IsLayout, Returns}
use victory_db.Arena.Allocation.{alloc_raw_fallback-Returns}
use victory_db.Arena.Regions.{
  alloc_raw_fallback-large, alloc_all-regions, alloc_all, Requests, AllCases,
}

abbrev policy : ArenaPolicy
policy = record { block_size = 64; cap = 128 }

abbrev chunk : Chunk
chunk = record { bump = 60; size = 64 }

abbrev arena : Arena
arena = record {
  allocator = system;
  chunks = chunk ∷ [];
  current = 0;
  policy = policy;
  allocated_bytes = 64;
  memory_used = 60;
}

abbrev small : Layout
small = record { size = 24; align = 8 }

abbrev large : Layout
large = record { size = 100; align = 8 }

arena-IsArena : IsArena arena
arena-IsArena = record {
  some_block = omega arith;
  no_wrap = omega arith;
  last = refl;
  counted = refl;
  within = omega arith;
  chunks_fit = ((refl, omega arith), tt);
  from_system = refl;
}

small-IsLayout : IsLayout arena 3 small
small-IsLayout = record { power = refl; small = omega arith; no_wrap = omega arith }

large-IsLayout : IsLayout arena 3 large
large-IsLayout = record { power = refl; small = omega arith; no_wrap = omega arith }

-- Twenty-four bytes do not fit behind sixty, so the second chunk is needed.
alloc_raw_fallback-Returns_example : Returns arena 3 small (alloc_raw_fallback 70 2 arena small)
alloc_raw_fallback-Returns_example =
    alloc_raw_fallback-Returns 70 2 arena 3 small arena-IsArena small-IsLayout (omega arith)

alloc_raw_fallback-large_example :
    (a' : Arena) × (alloc_raw_fallback 70 2 arena large ≡ ok (failed arena_full a'))
    × (128 < a'.allocated_bytes + 64)
alloc_raw_fallback-large_example =
    alloc_raw_fallback-large 70 2 arena 3 large arena-IsArena large-IsLayout (omega arith)
      (omega arith)

abbrev requests : List (ℕ × Layout)
requests = (0, small) ∷ (2, small) ∷ (1, small) ∷ []

requests-fit : Requests 200 policy requests
requests-fit = (
  (3, refl, omega arith, omega arith, omega arith),
  (
    (3, refl, omega arith, omega arith, omega arith),
    ((3, refl, omega arith, omega arith, omega arith), tt),
  ),
)

alloc_all-regions_example :
    (a : Arena) × (new policy system ≡ ok a) × AllCases (alloc_all 200 a [] requests)
alloc_all-regions_example =
    alloc_all-regions policy 200 requests (omega arith) (omega arith) (omega arith) requests-fit
