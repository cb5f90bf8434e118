-- ===== src/Arena/Concurrent/Interleaved.antt =====
-- What many threads get from one new arena (crates/mem/src/arena.rs), however their accesses
-- interleave.
use victory_db.Base.{
  ℕ, zero, suc, ◌+◌, ◌*◌, ◌%◌, ◌^◌, ◌≤◌, ◌<◌, ◌≡◌, ◌≢◌, sym, ap, subst, ◌∙◌, some, true, Bool, List,
  [], ◌∷◌, All, length, arith,
}
use victory_db.Base.Run.{ok, ok_inj}
use victory_db.Arena.{Chunk, Arena, ArenaPolicy, Layout, ArenaError, arena_full, new, system}
use victory_db.Arena.Laws.{bump_of, ChunkFits, IsArena}
use victory_db.Arena.Regions.{new-IsArena}
use victory_db.Arena.Concurrent.{AllocPc, gave_up, alloc_step, Mutex, Requests, start, Reach}
use victory_db.Arena.Concurrent.Invariant.{LayoutFits, holds_lock, region, PcOk, Apart, Holds}
use victory_db.Arena.Concurrent.Reached.{Owns-region, request-Next, Reach-Holds}

-- The regions that requests have got are aligned, inside a chunk of the arena, and apart from each
-- other; a request is refused where another chunk would exceed the capacity; one request at most
-- holds the mutex, and the chunks and the count of bytes are within the capacity.
pub record IsApart (p : ArenaPolicy) (ks : ℕ → ℕ) (layouts : ℕ → Layout) (s : Requests)
    : Type 0 where
  pub aligned : (x i offset : ℕ) → region (s.pcs x) ≡ some (i, offset) → offset % 2 ^ ks x ≡ 0
  pub handed_out :
      (x i offset : ℕ)
      → region (s.pcs x) ≡ some (i, offset)
      → offset + (layouts x).size ≤ bump_of s.arena.chunks i
  pub inside : (i : ℕ) → bump_of s.arena.chunks i ≤ p.block_size
  pub apart :
      (x y i offset offset' : ℕ)
      → x ≢ y
      → region (s.pcs x) ≡ some (i, offset)
      → region (s.pcs y) ≡ some (i, offset')
      → Apart offset (layouts x).size offset' (layouts y).size
  pub refused :
      (x : ℕ) (e : ArenaError)
      → s.pcs x ≡ gave_up e
      → (e ≡ arena_full) × (p.cap < s.arena.allocated_bytes + p.block_size)
  pub alone : (x : ℕ) → holds_lock (s.pcs x) ≡ true → s.lock ≡ some x
  pub counted : p.block_size * length s.arena.chunks ≤ s.arena.allocated_bytes
  pub within : s.arena.allocated_bytes ≤ p.cap

bump_of-inside :
    (block : ℕ) (cs : List Chunk) (i : ℕ) → All (ChunkFits block) cs → bump_of cs i ≤ block
bump_of-inside block [] i fits = omega arith
bump_of-inside block (c ∷ cs) zero fits = fits.0.1
bump_of-inside block (c ∷ cs) (suc i) fits = bump_of-inside block cs i fits.1

Holds-IsApart :
    (p : ArenaPolicy) (ks : ℕ → ℕ) (layouts : ℕ → Layout) (s : Requests)
    → Holds p ks layouts s
    → IsApart p ks layouts s
Holds-IsApart p ks layouts s is = record {
  aligned = λ x i o e. (Owns-region p (ks x) (layouts x) s.arena (s.pcs x) i o e (is.knows x)).0;
  handed_out = λ x i o e. (Owns-region p (ks x) (layouts x) s.arena (s.pcs x) i o e (is.knows x)).1;
  inside = λ i. bump_of-inside p.block_size s.arena.chunks i is.shared.chunks_fit;
  apart = is.apart;
  refused = λ x e at. subst (PcOk p (ks x) (layouts x) s.arena) at (is.knows x);
  alone = is.alone;
  counted = is.shared.counted;
  within = is.shared.within;
}

-- A new arena, before any request has made an access.
start-Holds :
    (p : ArenaPolicy) (ks : ℕ → ℕ) (layouts : ℕ → Layout) (a : Arena)
    → IsArena a
    → a.policy ≡ p
    → Holds p ks layouts (start a)
start-Holds p ks layouts a is same =
    let block : a.policy.block_size ≡ p.block_size = ap (λ (q : ArenaPolicy). q.block_size) same in
    record {
      shared = record {
        policy = same;
        from_system = is.from_system;
        chunks_fit =
            subst (λ (q : ArenaPolicy). All (ChunkFits q.block_size) a.chunks) same is.chunks_fit;
        current = let last = is.last in omega arith;
        counted =
            subst (λ (b : ℕ). b * length a.chunks ≤ a.allocated_bytes) block
              (omega (arith, is.counted));
        within = subst (λ (q : ArenaPolicy). a.allocated_bytes ≤ q.cap) same is.within;
      };
      alone = λ x e. absurd (cc);
      knows = λ x. tt;
      apart = λ x y i o o' d e f. absurd (cc);
    }

module _ (p : ArenaPolicy) (pos : 0 < p.block_size) (enough : p.block_size ≤ p.cap)
    (room : p.cap + p.block_size < 2 ^ 64) (ks : ℕ → ℕ) (layouts : ℕ → Layout)
    (lay : (x : ℕ) → LayoutFits p (ks x) (layouts x)) (a : Arena) (made : new p system ≡ ok a)
    (s : Requests) (reach : Reach layouts (start a) s) where
  holds : Holds p ks layouts s
  holds =
      let (a0, eq, is, same, unused) = new-IsArena p pos enough room in
      Reach-Holds p pos room ks layouts lay (start a) s
        (subst (λ (b : Arena). Holds p ks layouts (start b)) (ok_inj a0 a (sym eq ∙ made))
          (start-Holds p ks layouts a0 is same))
        reach

  -- From a new arena of the system's allocator, whose block size is positive and at most the
  -- capacity and does not wrap with it, for requests whose alignment is a power of two up to 2 ^ 63
  -- that does not wrap with the block size, and after any interleaving of the requests' accesses:
  -- the regions that requests have got are aligned, inside their chunks, and no two overlap; a
  -- request was refused as the arena was full only where another chunk would exceed the capacity;
  -- one request at most is past the mutex; and the chunks and the count of bytes are within the
  -- capacity.
  pub alloc_step-IsApart : IsApart p ks layouts s
  alloc_step-IsApart = Holds-IsApart p ks layouts s holds

  -- In such an arena, after any interleaving of the requests' accesses, the next access of every
  -- request returns, whether or not a weak compare-and-swap fails where it need not: no chunk
  -- pointer dangles, and the allocator does not panic.
  pub alloc_step-returns :
      (x : ℕ) (spurious : Bool)
      → (a' : Arena) × (lock : Mutex) × (pc : AllocPc) × (alloc_step x
            (layouts x)
            spurious
            s.arena
            s.lock
            (s.pcs x)
          ≡ ok (a', lock, pc))
  alloc_step-returns x spurious =
      let next = request-Next p pos room ks layouts lay s holds x spurious in
      (next.arena, next.mutex, next.at, next.runs)
