-- ===== src/Arena/Concurrent/Steps.antt =====
-- Every access of a request (crates/mem/src/arena.rs) returns, and keeps what holds.
use victory_db.Base.{
  ℕ, ◌+◌, ◌*◌, ◌%◌, ◌^◌, ◌≤◌, ◌<◌, ◌≡◌, ◌≢◌, refl, sym, ap, subst, ◌∙◌, ◌⊎◌, inl, inr, none, some,
  Bool, true, false, not, ◌&&◌, [], ◌∷◌, ◌++◌, All-append, length, length-append, length-set, set,
  get_elem?, ltb, ◌==◌, u64, arith, Bool-cases, Option-cases,
}
use victory_db.Base.Run.{ok}
use native.Mathlib.Nat.{mod-eq_of_lt}
use victory_db.Arena.{
  Chunk, Arena, ArenaPolicy, Layout, arena_full, allocate, get_chunk, align_up, alignment_check,
}
use victory_db.Arena.Align.{align_up_bounds}
use victory_db.Arena.Laws.{
  bump_of, ChunkFits, chunk_at, All-set, bump_of-set, bump_of-set_mono, bump_of-push,
}
use victory_db.Arena.Concurrent.{
  AllocPc, loading, locking, relooking, growing, adding, pushing, reading, rereading, publishing,
  checking, rechecking, exchanging, counting, allotted, gave_up, Mutex, chunk_of, alloc_step,
  exchange_bump,
}
use victory_db.Arena.Concurrent.Invariant.{LayoutFits, holds_lock, region, IsShared, PcOk}

-- The access returns; what it changes and what it leaves alone.
pub record Next (p : ArenaPolicy) (k : ℕ) (l : Layout) (x : ℕ) (spurious : Bool) (a : Arena)
    (lock : Mutex) (pc : AllocPc) : Type 0 where
  pub arena : Arena
  pub mutex : Mutex
  pub at : AllocPc
  pub runs : alloc_step x l spurious a lock pc ≡ ok (arena, mutex, at)
  pub shared : IsShared p arena
  pub knows : PcOk p k l arena at
  pub longer : length a.chunks ≤ length arena.chunks
  pub bytes : a.allocated_bytes ≤ arena.allocated_bytes
  pub keeps : (j : ℕ) → bump_of a.chunks j ≤ bump_of arena.chunks j
  pub frozen :
      holds_lock pc ≡ false
      → (arena.allocated_bytes ≡ a.allocated_bytes) × (length arena.chunks ≡ length a.chunks)
  pub holds : holds_lock at ≡ true → mutex ≡ some x
  pub others : (y : ℕ) → y ≢ x → lock ≡ some y → mutex ≡ some y
  pub regions :
      (region at ≡ region pc)
      ⊎ ((i : ℕ) × (offset : ℕ) × (region at ≡ some (i, offset))
          × (bump_of a.chunks i ≤ offset)
          × (offset + l.size ≤ bump_of arena.chunks i))

request_inj : (x y : ℕ) → ◌≡◌ {A = Mutex} (some x) (some y) → x ≡ y
request_inj x y e = cc

-- What a passed check says.
check_passed :
    (c : Chunk) (bump : ℕ) (l : Layout) (aligned next : ℕ)
    → alignment_check c bump l ≡ some (aligned, next)
    → (aligned ≡ align_up bump l.align) × (next ≡ aligned + l.size) × (next ≤ c.size)
unfolding alignment_check
check_passed c bump l aligned next h = ground arith

module _ (p : ArenaPolicy) (pos : 0 < p.block_size) (room : p.cap + p.block_size < 2 ^ 64) (k : ℕ)
    (l : Layout) (lay : LayoutFits p k l) (x : ℕ) (spurious : Bool) (a : Arena) (lock : Mutex)
    (is : IsShared p a) where
  abbrev Goes : AllocPc → Type 0
  Goes pc = Next p k l x spurious a lock pc

  -- A chunk that a thread has a pointer to.
  chunk_there :
      (i : ℕ)
      → i < length a.chunks
      → (c : Chunk) × (get_elem? a.chunks i ≡ some c)
        × (chunk_of a i ≡ ok c)
        × ChunkFits p.block_size c
        × (bump_of a.chunks i ≡ c.bump)
  unfolding chunk_of
  chunk_there i h =
      let (c, e, fits, b) = chunk_at p.block_size a.chunks i is.chunks_fit h in
      (c, e, ground (arith, e), fits, b)

  current_there : (c : Chunk) × (get_chunk a ≡ ok c) × ChunkFits p.block_size c
  unfolding get_chunk
  current_there =
      let (c, e, fits, b) = chunk_at p.block_size a.chunks a.current is.chunks_fit is.current in
      (c, ground (arith, e), fits)

  -- A step that changes the state of the request only, or releases the mutex.
  stays :
      (pc at : AllocPc) (mutex : Mutex)
      → alloc_step x l spurious a lock pc ≡ ok (a, mutex, at)
      → PcOk p k l a at
      → (holds_lock at ≡ true → mutex ≡ some x)
      → ((y : ℕ) → y ≢ x → lock ≡ some y → mutex ≡ some y)
      → region at ≡ region pc
      → Goes pc
  stays pc at mutex runs knows holds others same = record {
    arena = a;
    mutex = mutex;
    at = at;
    runs = runs;
    shared = is;
    knows = knows;
    longer = omega arith;
    bytes = omega (arith);
    keeps = λ j. omega arith;
    frozen = λ e. (refl, refl);
    holds = holds;
    others = others;
    regions = inl same;
  }

  -- Nothing changes hands.
  same_lock :
      (pc at : AllocPc)
      → alloc_step x l spurious a lock pc ≡ ok (a, lock, at)
      → PcOk p k l a at
      → (holds_lock at ≡ true → lock ≡ some x)
      → region at ≡ region pc
      → Goes pc
  same_lock pc at runs knows holds same = stays pc at lock runs knows holds (λ y d e. e) same

  -- The holder releases the mutex.
  releases :
      (pc at : AllocPc)
      → lock ≡ some x
      → alloc_step x l spurious a lock pc ≡ ok (a, none, at)
      → PcOk p k l a at
      → holds_lock at ≡ false
      → region at ≡ region pc
      → Goes pc
  releases pc at mine runs knows free same =
      stays pc at none runs knows (λ e. absurd (cc (e, free)))
        (λ y d e. absurd (d (request_inj y x (sym e ∙ mine)))) same

  checking-Next : (i bump : ℕ) → PcOk p k l a (checking i bump) → Goes (checking i bump)
  unfolding alloc_step
  checking-Next i bump (there, low) =
      let (c, got, fits) = current_there in
      elim (Option-cases (alignment_check c bump l)) [
        | inl full ↦
            same_lock (checking i bump) locking (rw (got, full) refl) tt (λ e. absurd (cc)) refl
        | inr ((aligned, next), passed) ↦
            let (e, n, inside) = check_passed c bump l aligned next passed in
            let (least, most, multiple) =
              align_up_bounds bump k (omega (arith, lay.small)) (omega (arith, lay.no_wrap, low)) in
            let e' : aligned ≡ align_up bump (2 ^ k) = e ∙ ap (align_up bump) lay.power in
            same_lock (checking i bump) (exchanging i bump aligned next) (rw (got, passed) refl)
              (
                there,
                omega arith,
                ap (λ (t : ℕ). t % 2 ^ k) e' ∙ multiple,
                n,
                omega (arith, fits.0),
              )
              (λ e. absurd (cc)) refl
      ]

  rechecking-Next : (bump : ℕ) → lock ≡ some x → Goes (rechecking bump)
  unfolding alloc_step
  rechecking-Next bump mine =
      let (c, got, fits) = current_there in
      elim (Option-cases (alignment_check c bump l)) [
        | inl full ↦ same_lock (rechecking bump) growing (rw (got, full) refl) tt (λ e. mine) refl
        | inr (r, passed) ↦
            releases (rechecking bump) loading mine (rw (got, passed) refl) tt refl refl
      ]

  exchanging-Next :
      (i bump aligned next : ℕ)
      → PcOk p k l a (exchanging i bump aligned next)
      → Goes (exchanging i bump aligned next)
  unfolding alloc_step exchange_bump
  exchanging-Next i bump aligned next (there, low, multiple, n, inside) =
      let (c, e, got, fits, b) = chunk_there i there in
      elim (Bool-cases (not spurious && (c.bump == bump))) [
        | inr miss ↦
            same_lock (exchanging i bump aligned next) loading (rw (got, miss) refl) tt
              (λ e. absurd (cc)) refl
        | inl hit ↦
            let same : c.bump ≡ bump = ground (arith, hit) in
            let c' : Chunk = record c { bump = next } in
            let taken = bump_of-set a.chunks i c' there in
            record {
              arena = record a { chunks = set a.chunks i c' };
              mutex = lock;
              at = counting i aligned;
              runs = rw (got, hit) refl;
              shared = record {
                policy = is.policy;
                from_system = is.from_system;
                chunks_fit = All-set p.block_size a.chunks i c' is.chunks_fit (fits.0, inside);
                current = let now = is.current in omega (arith, length-set a.chunks i c');
                counted =
                    subst (λ (m : ℕ). p.block_size * m ≤ a.allocated_bytes)
                      (sym (length-set a.chunks i c')) is.counted;
                within = is.within;
              };
              knows = (multiple, omega (arith, taken));
              longer = omega (arith, length-set a.chunks i c');
              bytes = omega arith;
              keeps = bump_of-set_mono a.chunks i c' (omega arith);
              frozen = λ f. (refl, length-set a.chunks i c');
              holds = λ f. absurd (cc);
              others = λ y d f. f;
              regions = inr (i, aligned, refl, omega (arith, b, same), omega (arith, taken));
            }
      ]

  locking-Next : Goes locking
  unfolding alloc_step
  locking-Next = elim (Option-cases lock) [
    | inl free ↦
        stays locking relooking (some x) (rw free refl) tt (λ e. refl)
          (λ y d e. absurd (cc (free, e))) refl
    | inr (holder, taken) ↦ same_lock locking locking (rw taken refl) tt (λ e. absurd (cc)) refl
  ]

  block : a.policy.block_size ≡ p.block_size
  block = ap (λ (q : ArenaPolicy). q.block_size) is.policy

  capacity : a.policy.cap ≡ p.cap
  capacity = ap (λ (q : ArenaPolicy). q.cap) is.policy

  -- The count of bytes does not wrap.
  in_range : u64 (a.allocated_bytes + a.policy.block_size) ≡ a.allocated_bytes + p.block_size
  in_range =
      let low = is.within in
      mod-eq_of_lt {n = a.allocated_bytes + a.policy.block_size} {m = 2 ^ 64} (omega (arith, block))
      ∙ ap (λ (b : ℕ). a.allocated_bytes + b) block

  growing-Next : lock ≡ some x → Goes growing
  unfolding alloc_step
  growing-Next mine =
      elim (Bool-cases (ltb a.policy.cap (u64 (a.allocated_bytes + a.policy.block_size)))) [
        | inl full ↦
            releases growing (gave_up arena_full) mine (rw (full) refl)
              (refl, ground (arith, full, in_range, capacity)) refl refl
        | inr fine ↦
            same_lock growing adding (rw (fine) refl) (ground (arith, fine, in_range, capacity))
              (λ e. mine) refl
      ]

  adding-Next : lock ≡ some x → PcOk p k l a adding → Goes adding
  unfolding alloc_step
  adding-Next mine fine = record {
    arena = record a { allocated_bytes = u64 (a.allocated_bytes + a.policy.block_size) };
    mutex = lock;
    at = pushing;
    runs = refl;
    shared = record {
      policy = is.policy;
      from_system = is.from_system;
      chunks_fit = is.chunks_fit;
      current = is.current;
      counted = let c = is.counted in omega (arith, in_range);
      within = omega (arith, in_range);
    };
    knows = let c = is.counted in omega (arith, in_range);
    longer = omega arith;
    bytes = omega (arith, in_range);
    keeps = λ j. omega arith;
    frozen = λ e. absurd (cc);
    holds = λ e. mine;
    others = λ y d e. e;
    regions = inl refl;
  }

  pushing-Next : lock ≡ some x → PcOk p k l a pushing → Goes pushing
  unfolding alloc_step allocate
  pushing-Next mine counted =
      let chunk : Chunk = record { size = a.policy.block_size; bump = 0 } in
      let longer : length (a.chunks ++ (chunk ∷ [])) ≡ length a.chunks + 1 =
        length-append a.chunks (chunk ∷ []) in
      record {
        arena = record a { chunks = a.chunks ++ (chunk ∷ []) };
        mutex = lock;
        at = publishing (length a.chunks);
        runs = rw (is.from_system) refl;
        shared = record {
          policy = is.policy;
          from_system = is.from_system;
          chunks_fit =
              All-append (ChunkFits p.block_size) a.chunks (chunk ∷ []) is.chunks_fit
                ((block, omega arith), tt);
          current = let now = is.current in omega (arith, longer);
          counted =
              subst (λ (m : ℕ). p.block_size * m ≤ a.allocated_bytes) (sym longer)
                (omega (arith, counted));
          within = is.within;
        };
        knows = omega (arith, longer);
        longer = omega (arith, longer);
        bytes = omega arith;
        keeps = λ j. omega (arith, bump_of-push a.chunks a.policy.block_size j);
        frozen = λ e. absurd (cc);
        holds = λ e. mine;
        others = λ y d e. e;
        regions = inl refl;
      }

  publishing-Next : (i : ℕ) → lock ≡ some x → i < length a.chunks → Goes (publishing i)
  unfolding alloc_step
  publishing-Next i mine there = record {
    arena = record a { current = i };
    mutex = none;
    at = loading;
    runs = refl;
    shared = record {
      policy = is.policy;
      from_system = is.from_system;
      chunks_fit = is.chunks_fit;
      current = there;
      counted = is.counted;
      within = is.within;
    };
    knows = tt;
    longer = omega arith;
    bytes = omega (arith);
    keeps = λ j. omega arith;
    frozen = λ e. absurd (cc);
    holds = λ e. absurd (cc);
    others = λ y d e. absurd (d (request_inj y x (sym e ∙ mine)));
    regions = inl refl;
  }

  -- The access of a request, wherever it is.
  pub pc-Next : (pc : AllocPc) → (holds_lock pc ≡ true → lock ≡ some x) → PcOk p k l a pc → Goes pc
  unfolding alloc_step
  pc-Next loading mine knows =
      same_lock loading (reading a.current) refl is.current (λ e. absurd (cc)) refl
  pc-Next (reading i) mine knows =
      let (c, e, got, fits, b) = chunk_there i knows in
      same_lock (reading i) (checking i c.bump) (rw got refl) (knows, fits.1) (λ e. absurd (cc))
        refl
  pc-Next (checking i bump) mine knows = checking-Next i bump knows
  pc-Next (exchanging i bump aligned next) mine knows = exchanging-Next i bump aligned next knows
  pc-Next (counting i offset) mine knows = record {
    arena = record a { memory_used = u64 (a.memory_used + l.size) };
    mutex = lock;
    at = allotted i offset;
    runs = refl;
    shared = record {
      policy = is.policy;
      from_system = is.from_system;
      chunks_fit = is.chunks_fit;
      current = is.current;
      counted = is.counted;
      within = is.within;
    };
    knows = knows;
    longer = omega arith;
    bytes = omega (arith);
    keeps = λ j. omega arith;
    frozen = λ e. (refl, refl);
    holds = λ e. absurd (cc);
    others = λ y d e. e;
    regions = inl refl;
  }
  pc-Next (allotted i offset) mine knows =
      same_lock (allotted i offset) (allotted i offset) refl knows (λ e. absurd (cc)) refl
  pc-Next locking mine knows = locking-Next
  pc-Next relooking mine knows =
      same_lock relooking (rereading a.current) refl is.current (λ e. mine refl) refl
  pc-Next (rereading i) mine knows =
      let (c, e, got, fits, b) = chunk_there i knows in
      same_lock (rereading i) (rechecking c.bump) (rw got refl) tt (λ e. mine refl) refl
  pc-Next (rechecking bump) mine knows = rechecking-Next bump (mine refl)
  pc-Next growing mine knows = growing-Next (mine refl)
  pc-Next adding mine knows = adding-Next (mine refl) knows
  pc-Next pushing mine knows = pushing-Next (mine refl) knows
  pc-Next (publishing i) mine knows = publishing-Next i (mine refl) knows
  pc-Next (gave_up e) mine knows =
      same_lock (gave_up e) (gave_up e) refl knows (λ f. absurd (cc)) refl
