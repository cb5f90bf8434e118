-- ===== src/Arena/Allocation.antt =====
-- The loop of `alloc_raw_fallback` of crates/mem/src/arena.rs.
use victory_db.Base.{
  ℕ, zero, suc, ◌+◌, ◌-◌, ◌≤◌, ◌<◌, ◌≡◌, refl, ap, ◌∙◌, Option-cases, Bool-cases, inl, inr, arith,
  ltb, u64,
}
use victory_db.Base.Run.{Run}
use victory_db.Arena.{
  Arena, ArenaPolicy, Layout, alignment_check, arena_full, ArenaError, Allocated,
  alloc_raw_fallback,
}
use victory_db.Arena.Laws.{
  bump_of, IsArena, IsLayout, Keeps, Granted, Refused, Returns, granted, refusal,
}
use native.Mathlib.Decide.{dec_lt}
use victory_db.Arena.Steps.{
  take_region-Granted, push_chunk-full, loop_refused, loop_grown, loop_retry, loop_taken,
  current_chunk, pushed, push_chunk-grown,
}

-- What is granted by, or refused in, the arena with one more chunk.
later-Granted :
    {a b : Arena} {k : ℕ} {l : Layout} {chunk offset : ℕ} {a' : Arena}
    → Keeps a b
    → b.policy ≡ a.policy
    → Granted b k l chunk offset a'
    → Granted a k l chunk offset a'
later-Granted {a} {b} {chunk} keeps same g = record {
  valid = g.valid;
  policy = g.policy ∙ same;
  keeps = λ j. omega (arith, keeps j, g.keeps j);
  multiple = g.multiple;
  inside = omega (arith, g.inside, ap (λ (p : ArenaPolicy). p.block_size) same);
  fresh = omega (arith, keeps chunk, g.fresh);
  taken = g.taken;
}

later-Refused :
    {a b : Arena} {l : Layout} {e : ArenaError} {a' : Arena}
    → Keeps a b
    → b.policy ≡ a.policy
    → bump_of b.chunks b.current ≡ 0
    → Refused b l e a'
    → Refused a l e a'
later-Refused {a} {b} {l} keeps same unused r = record {
  valid = r.valid;
  policy = r.policy ∙ same;
  reason = r.reason;
  keeps = λ j. omega (arith, keeps j, r.keeps j);
  exhausted = omega (
    arith,
    r.exhausted,
    ap (λ (p : ArenaPolicy). p.block_size) same,
    ap (λ (p : ArenaPolicy). p.cap) same,
  );
  unchanged = λ small. absurd (impossible small);
  used = λ small. absurd (impossible small);
}
  where
    impossible : l.size ≤ a.policy.block_size → ⊥
    impossible small =
        omega (arith, unused, r.used (omega (arith, ap (λ (p : ArenaPolicy). p.block_size) same)))

later-Returns :
    {a b : Arena} {k : ℕ} {l : Layout} {r : Run Allocated}
    → Keeps a b
    → b.policy ≡ a.policy
    → bump_of b.chunks b.current ≡ 0
    → Returns b k l r
    → Returns a k l r
later-Returns keeps same unused (granted chunk offset a' g) =
    granted chunk offset a' (later-Granted keeps same g)
later-Returns keeps same unused (refusal e a' r) = refusal e a' (later-Refused keeps same unused r)

-- On a well-formed arena, for an alignment that is a power of two up to 2 ^ 63 whose sum with the
-- block size is at most 2 ^ 64, and with more fuel than spurious failures and bytes left below the
-- capacity, `alloc_raw_fallback` returns: it grants a region of a chunk that is aligned, inside the
-- chunk and not handed out before, or refuses because another chunk would exceed the capacity.
pub alloc_raw_fallback-Returns :
    (fuel fails : ℕ) (a : Arena) (k : ℕ) (l : Layout)
    → IsArena a
    → IsLayout a k l
    → fails + (a.policy.cap - a.allocated_bytes) < fuel
    → Returns a k l (alloc_raw_fallback fuel fails a l)
alloc_raw_fallback-Returns zero fails a k l is lay enough = absurd (omega arith)
alloc_raw_fallback-Returns (suc fuel) fails a k l is lay enough =
    let (c, got, e, fits, b) = current_chunk a is k l lay in
    elim (Option-cases (alignment_check c c.bump l)) [
      | inr ((aligned, next), passed) ↦ elim (dec_lt 0 fails) [
        | yes some_fail ↦
            rw (loop_retry fuel fails a l c got aligned next (fails - 1) passed (omega arith))
              (alloc_raw_fallback-Returns fuel (fails - 1) a k l is lay (omega arith))
        | no none_fail ↦
            rw (loop_taken fuel fails a l c got aligned next passed (omega arith))
              (granted _ _ _ (take_region-Granted a is k l lay c fits b aligned next passed))
      ]
      | inl missed ↦
          elim (Bool-cases (ltb a.policy.cap (u64 (a.allocated_bytes + a.policy.block_size)))) [
            | inl full ↦
                let (p, r) = push_chunk-full a is k l lay c fits b missed full in
                rw (loop_refused fuel fails a l c got arena_full a missed p)
                  (refusal arena_full a r)
            | inr room ↦
                let (p, is', keeps, unused, within) = push_chunk-grown a is k l lay room in
                rw (loop_grown fuel fails a l c got (pushed a is k l lay) missed p) (
                  later-Returns keeps refl unused (
                    alloc_raw_fallback-Returns fuel fails (pushed a is k l lay) k l is'
                      (record { power = lay.power; small = lay.small; no_wrap = lay.no_wrap })
                      (omega (arith, is.some_block, within))))
          ]
    ]
