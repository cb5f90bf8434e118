-- ===== src/Arena/Steps.antt =====
-- One round of `alloc_raw_fallback` of crates/mem/src/arena.rs: what the alignment check, the
-- taking of a region and a new chunk do to a well-formed arena.
use victory_db.Base.{
  ℕ, suc, ◌+◌, ◌*◌, ◌%◌, ◌^◌, ◌≤◌, ◌<◌, ◌≡◌, refl, sym, ap, ap₂, ◌≢◌, ◌∙◌, [], ◌∷◌, ◌++◌,
  All-append, length, length-append, length-set, get_elem?, none, some, true, false, arith, ltb,
  u64,
}
use victory_db.Base.Run.{ok}
use victory_db.Arena.{
  Chunk, allocate, Arena, Layout, get_chunk, align_up, alignment_check, grown, refused, arena_full,
  ArenaError, push_chunk, take_region, at, failed, alloc_raw_fallback,
}
use victory_db.Arena.Align.{align_up_bounds, align_up-zero}
use victory_db.Arena.Laws.{
  bump_of, ChunkFits, IsArena, IsLayout, chunk_at, All-set, bump_of-set, bump_of-set_mono,
  bump_of-push, bump_of_past, Keeps, Granted, Refused,
}
use native.Mathlib.Nat.{mod-eq_of_lt}
use native.Mathlib.Decide.{dec_lt}

module _ (fuel fails : ℕ) (a : Arena) (l : Layout) (c : Chunk) (got : get_chunk a ≡ ok c) where
  pub loop_refused :
      (e : ArenaError) (a' : Arena)
      → alignment_check c c.bump l ≡ none
      → push_chunk a ≡ ok (refused e a')
      → alloc_raw_fallback (suc fuel) fails a l ≡ ok (failed e a')
  unfolding alloc_raw_fallback
  loop_refused e a' h p = ground arith

  pub loop_grown :
      (a' : Arena)
      → alignment_check c c.bump l ≡ none
      → push_chunk a ≡ ok (grown a')
      → alloc_raw_fallback (suc fuel) fails a l ≡ alloc_raw_fallback fuel fails a' l
  unfolding alloc_raw_fallback
  loop_grown a' h p = ground arith

  pub loop_retry :
      (aligned next left : ℕ)
      → alignment_check c c.bump l ≡ some (aligned, next)
      → fails ≡ suc left
      → alloc_raw_fallback (suc fuel) fails a l ≡ alloc_raw_fallback fuel left a l
  unfolding alloc_raw_fallback
  loop_retry aligned next left h e = ground arith

  pub loop_taken :
      (aligned next : ℕ)
      → alignment_check c c.bump l ≡ some (aligned, next)
      → fails ≡ 0
      → alloc_raw_fallback (suc fuel) fails a l ≡ ok (at a.current aligned (take_region a c next l))
  unfolding alloc_raw_fallback
  loop_taken aligned next h e = ground arith

-- What a passed alignment check says.
check_passed :
    (c : Chunk) (l : Layout) (aligned next : ℕ)
    → alignment_check c c.bump l ≡ some (aligned, next)
    → (aligned ≡ align_up c.bump l.align) × (next ≡ aligned + l.size) × (next ≤ c.size)
unfolding alignment_check
check_passed c l aligned next h = ground arith

-- In a chunk that is not used a layout that is not larger than the chunk passes.
check_fresh :
    (c : Chunk) (k : ℕ) (l : Layout)
    → l.align ≡ 2 ^ k
    → k ≤ 63
    → c.bump ≡ 0
    → l.size ≤ c.size
    → c.size < 2 ^ 64
    → alignment_check c c.bump l ≢ none
unfolding alignment_check
check_fresh c k l e small zero_bump fits h =
    let start : align_up c.bump l.align ≡ 0 = ap₂ align_up zero_bump e ∙ align_up-zero k small in
    ground arith

module _ (a : Arena) (is : IsArena a) (k : ℕ) (l : Layout) (lay : IsLayout a k l) where
  pub current_chunk :
      (c : Chunk) × (get_chunk a ≡ ok c)
      × (get_elem? a.chunks a.current ≡ some c)
      × ChunkFits a.policy.block_size c
      × (bump_of a.chunks a.current ≡ c.bump)
  unfolding get_chunk
  current_chunk =
      let (c, e, fits, b) =
        chunk_at a.policy.block_size a.chunks a.current is.chunks_fit (omega (arith, is.last)) in
      (c, ground arith, e, fits, b)

  module _ (c : Chunk) (fits : ChunkFits a.policy.block_size c)
      (b : bump_of a.chunks a.current ≡ c.bump) where
    pub take_region-Granted :
        (aligned next : ℕ)
        → alignment_check c c.bump l ≡ some (aligned, next)
        → Granted a k l a.current aligned (take_region a c next l)
    unfolding take_region
    take_region-Granted aligned next h =
        let (e, n, inside) = check_passed c l aligned next h in
        let (low, high, multiple) =
          align_up_bounds c.bump k (omega (arith, lay.small))
            (omega (arith, lay.no_wrap, fits.1)) in
        let e' : aligned ≡ align_up c.bump (2 ^ k) = e ∙ ap (align_up c.bump) lay.power in
        let c' : Chunk = record c { bump = next } in
        record {
          valid = record {
            some_block = is.some_block;
            no_wrap = is.no_wrap;
            last = is.last ∙ sym (length-set a.chunks a.current c');
            counted =
                is.counted
                ∙ ap (λ (t : ℕ). a.policy.block_size * t) (sym (length-set a.chunks a.current c'));
            within = is.within;
            chunks_fit =
                All-set a.policy.block_size a.chunks a.current c' is.chunks_fit
                  (fits.0, omega (arith, fits.0));
            from_system = is.from_system;
          };
          policy = refl;
          keeps = bump_of-set_mono a.chunks a.current c' (omega arith);
          multiple = ap (λ (t : ℕ). t % 2 ^ k) e' ∙ multiple;
          inside = omega (arith, fits.0);
          fresh = omega arith;
          taken = bump_of-set a.chunks a.current c' (omega (arith, is.last)) ∙ n;
        }

    pub push_chunk-full :
        alignment_check c c.bump l ≡ none
        → ltb a.policy.cap (u64 (a.allocated_bytes + a.policy.block_size)) ≡ true
        → (push_chunk a ≡ ok (refused arena_full a)) × Refused a l arena_full a
    unfolding push_chunk
    push_chunk-full h full = (
      ground arith,
      record {
        valid = is;
        policy = refl;
        reason = refl;
        keeps = λ j. omega arith;
        exhausted = ground (
          arith,
          is.within,
          is.no_wrap,
          mod-eq_of_lt {n = a.allocated_bytes + a.policy.block_size} {m = 2 ^ 64}
              (omega (arith, is.within, is.no_wrap)),
        );
        unchanged = λ small. refl;
        used = λ small. elim (dec_lt 0 (bump_of a.chunks a.current)) [
          | yes used ↦ used
          | no unused ↦ absurd (
              check_fresh c k l lay.power lay.small (omega arith) (omega (arith, fits.0))
                (omega (arith, fits.0, is.no_wrap)) h)
        ];
      },
    )

  abbrev fresh_chunk : Chunk
  fresh_chunk = record { size = a.policy.block_size; bump = 0 }

  abbrev pub pushed : Arena
  pushed = record a {
    current = length a.chunks;
    chunks = a.chunks ++ (fresh_chunk ∷ []);
    allocated_bytes = a.allocated_bytes + a.policy.block_size;
  }

  pub push_chunk-grown :
      ltb a.policy.cap (u64 (a.allocated_bytes + a.policy.block_size)) ≡ false
      → (push_chunk a ≡ ok (grown pushed))
        × IsArena pushed
        × Keeps a pushed
        × (bump_of pushed.chunks pushed.current ≡ 0)
        × (pushed.allocated_bytes ≤ a.policy.cap)
  unfolding push_chunk allocate
  push_chunk-grown room =
      let sum : u64 (a.allocated_bytes + a.policy.block_size)
          ≡ a.allocated_bytes + a.policy.block_size =
        mod-eq_of_lt (omega (arith, is.within, is.no_wrap)) in
      (
        ground (arith, sum, is.from_system),
        record {
          some_block = is.some_block;
          no_wrap = is.no_wrap;
          last = omega (arith, length-append a.chunks (fresh_chunk ∷ []));
          counted = omega (
            arith,
            is.counted,
            ap (λ (t : ℕ). a.policy.block_size * t) (length-append a.chunks (fresh_chunk ∷ [])),
          );
          within = ground arith;
          chunks_fit =
              All-append (ChunkFits a.policy.block_size) a.chunks _ is.chunks_fit
                ((refl, omega arith), tt);
          from_system = is.from_system;
        },
        λ j. omega (arith, bump_of-push a.chunks a.policy.block_size j),
        bump_of-push a.chunks a.policy.block_size (length a.chunks) ∙ bump_of_past a.chunks,
        ground arith,
      )
