-- ===== src/Arena/Regions.antt =====
-- Whole runs of the arena of crates/mem/src/arena.rs: creation, many allocations, an oversized one.
use victory_db.Base.{
  ℕ, zero, suc, ◌+◌, ◌-◌, ◌^◌, ◌≤◌, ◌<◌, ◌≡◌, ◌⊎◌, inl, inr, refl, sym, ap, subst, ◌∙◌, List, [],
  ◌∷◌, All, arith,
}
use native.Mathlib.Decide.{dec_lt}
use victory_db.Base.Run.{Run, ok, panic, ◌>>=◌}
use victory_db.Arena.{
  Arena, ArenaPolicy, ArenaError, Layout, system, new, Allocated, failed, arena_full,
  alloc_raw_fallback, alloc_raw, or_panic,
}
use victory_db.Arena.Laws.{
  bump_of, IsArena, IsLayout, Keeps, Granted, Refused, Returns, granted, refusal,
}
use victory_db.Arena.Allocation.{alloc_raw_fallback-Returns}

-- `Arena::new` with the system allocator and a block size that is not zero, not above the capacity
-- and in sum with it below 2 ^ 64 succeeds, with a well-formed arena of one chunk of which nothing
-- is handed out.
pub new-IsArena :
    (p : ArenaPolicy)
    → 0 < p.block_size
    → p.block_size ≤ p.cap
    → p.cap + p.block_size < 2 ^ 64
    → (a : Arena) × (new p system ≡ ok a)
      × IsArena a
      × (a.policy ≡ p)
      × ((j : ℕ) → bump_of a.chunks j ≡ 0)
unfolding new
new-IsArena p pos le h = (
  record {
    current = 0;
    chunks = record { size = p.block_size; bump = 0 } ∷ [];
    allocated_bytes = p.block_size;
    memory_used = 0;
    allocator = system;
    policy = p;
  },
  ground arith,
  record {
    some_block = pos;
    no_wrap = h;
    last = omega arith;
    counted = omega arith;
    within = le;
    chunks_fit = ((refl, omega arith), tt);
    from_system = refl;
  },
  refl,
  elim [ zero ↦ refl | suc j ↦ refl ],
)

Refused-of_large :
    {a : Arena} {k : ℕ} {l : Layout} {r : Run Allocated}
    → a.policy.block_size < l.size
    → Returns a k l r
    → (e : ArenaError) × (a' : Arena) × (r ≡ ok (failed e a')) × Refused a l e a'
Refused-of_large large (granted chunk offset a' g) = absurd (omega (arith, g.inside))
Refused-of_large large (refusal e a' r) = (e, a', refl, r)

-- On a well-formed arena and with fuel and alignment as for every allocation (more fuel than spurious
-- failures and bytes left below the capacity, a power of two up to 2 ^ 63 whose sum with the block
-- size is at most 2 ^ 64), a layout that is larger than a block is refused, but only after every
-- further block that the capacity allows has been allocated.
pub alloc_raw_fallback-large :
    (fuel fails : ℕ) (a : Arena) (k : ℕ) (l : Layout)
    → IsArena a
    → IsLayout a k l
    → fails + (a.policy.cap - a.allocated_bytes) < fuel
    → a.policy.block_size < l.size
    → (a' : Arena) × (alloc_raw_fallback fuel fails a l ≡ ok (failed arena_full a'))
      × (a.policy.cap < a'.allocated_bytes + a.policy.block_size)
alloc_raw_fallback-large fuel fails a k l is lay enough large =
    let (e, a', eq, r) =
      Refused-of_large large (alloc_raw_fallback-Returns fuel fails a k l is lay enough) in
    (a', eq ∙ ap (λ t. ok (failed t a')) r.reason, r.exhausted)

-- A region of memory: a chunk, an offset and a size.
pub record Region : Type 0 where
  pub chunk : ℕ
  pub offset : ℕ
  pub size : ℕ

abbrev pub Disjoint : Region → Region → Type 0
Disjoint r s = r.chunk ≡ s.chunk → (r.offset + r.size ≤ s.offset) ⊎ (s.offset + s.size ≤ r.offset)

abbrev pub PairwiseDisjoint : List Region → Type 0
PairwiseDisjoint [] = Unit {0}
PairwiseDisjoint (r ∷ rs) = All (Disjoint r) rs × PairwiseDisjoint rs

-- Allocations one after the other by `alloc_raw`, each with its own spurious failures; the newest
-- region comes first.
unfoldable pub alloc_all : ℕ → Arena → List Region → List (ℕ × Layout) → Run (List Region × Arena)
alloc_all fuel a regions [] = ok (regions, a)
alloc_all fuel a regions ((fails, l) ∷ rest) = do
  (chunk, offset, a') ← alloc_raw fuel fails a l
  let r : Region = record { chunk = chunk; offset = offset; size = l.size }
  alloc_all fuel a' (r ∷ regions) rest

-- A region that `a` has handed out.
abbrev pub IsTaken : Arena → Region → Type 0
IsTaken a r = r.offset + r.size ≤ bump_of a.chunks r.chunk

Keeps-All : (a b : Arena) (rs : List Region) → Keeps a b → All (IsTaken a) rs → All (IsTaken b) rs
Keeps-All a b [] keeps h = tt
Keeps-All a b (r ∷ rs) keeps h = (omega (arith, keeps r.chunk, h.0), Keeps-All a b rs keeps h.1)

fresh-All :
    (a : Arena) (r : Region) (rs : List Region)
    → bump_of a.chunks r.chunk ≤ r.offset
    → All (IsTaken a) rs
    → All (Disjoint r) rs
fresh-All a r [] h t = tt
fresh-All a r (s ∷ rs) h t =
    (λ same. inr (omega (arith, t.0, ap (bump_of a.chunks) same)), fresh-All a r rs h t.1)

-- The layout is larger than a block, or a further block would exceed the capacity.
abbrev pub HasNoRoom : Arena → ℕ → Type 0
HasNoRoom a size =
    (a.policy.block_size < size) ⊎ (a.policy.cap < a.allocated_bytes + a.policy.block_size)

Refused-HasNoRoom :
    {a a' : Arena} {l : Layout} {e : ArenaError} → Refused a l e a' → HasNoRoom a l.size
Refused-HasNoRoom {a} {a'} {l} r = elim (dec_lt a.policy.block_size l.size) [
  | yes large ↦ inl large
  | no fits ↦
      let same = ap (λ (b : Arena). b.allocated_bytes) (r.unchanged (omega arith)) in
      let exhausted = r.exhausted in inr (omega arith)
]

-- What `alloc_raw` does: it panics where there is no room, or returns a granted region.
abbrev pub RawCases : Arena → ℕ → Layout → Run (ℕ × ℕ × Arena) → Type 0
RawCases a k l r =
    ((r ≡ panic) × HasNoRoom a l.size)
    ⊎ ((c : ℕ) × (o : ℕ) × (a' : Arena) × (r ≡ ok (c, o, a')) × Granted a k l c o a')

Returns-RawCases :
    {a : Arena} {k : ℕ} {l : Layout} {x : Run Allocated}
    → Returns a k l x
    → RawCases a k l (x >>= or_panic)
unfolding or_panic
Returns-RawCases (granted c o a' g) = inr (c, o, a', refl, g)
Returns-RawCases (refusal e a' r) = inl (refl, Refused-HasNoRoom r)

pub alloc_raw-RawCases :
    (fuel fails : ℕ) (a : Arena) (k : ℕ) (l : Layout)
    → IsArena a
    → IsLayout a k l
    → fails + (a.policy.cap - a.allocated_bytes) < fuel
    → RawCases a k l (alloc_raw fuel fails a l)
unfolding alloc_raw
alloc_raw-RawCases fuel fails a k l is lay enough =
    Returns-RawCases (alloc_raw_fallback-Returns fuel fails a k l is lay enough)

-- Requests that fit the arena's policy, with enough fuel for each.
abbrev pub Requests : ℕ → ArenaPolicy → List (ℕ × Layout) → Type 0
Requests fuel p [] = Unit {0}
Requests fuel p ((fails, l) ∷ rest) =
    ((k : ℕ) × (l.align ≡ 2 ^ k)
      × (k ≤ 63)
      × (p.block_size + 2 ^ k ≤ 2 ^ 64)
      × (fails + p.cap < fuel))
    × Requests fuel p rest

-- A run that panicked, or that left disjoint regions of a well-formed arena.
abbrev pub AllCases : Run (List Region × Arena) → Type 0
AllCases r =
    (r ≡ panic)
    ⊎ ((rs : List Region) × (a' : Arena) × (r ≡ ok (rs, a'))
        × IsArena a'
        × All (IsTaken a') rs
        × PairwiseDisjoint rs)

alloc_all-AllCases :
    (reqs : List (ℕ × Layout)) (fuel : ℕ) (a : Arena) (rs : List Region)
    → IsArena a
    → Requests fuel a.policy reqs
    → All (IsTaken a) rs
    → PairwiseDisjoint rs
    → AllCases (alloc_all fuel a rs reqs)
unfolding alloc_all
alloc_all-AllCases [] fuel a rs is ok_reqs taken apart = inr (rs, a, refl, is, taken, apart)
alloc_all-AllCases ((fails, l) ∷ rest) fuel a rs is ((k, e, small, wrap, enough), more) taken
      apart =
    elim (alloc_raw-RawCases fuel fails a k l is
      (record { power = e; small = small; no_wrap = wrap }) (omega arith)) [
        | inl (p, full) ↦ inl (rw p)
        | inr (c, o, a', eq, g) ↦
            let r : Region = record { chunk = c; offset = o; size = l.size } in
            rw eq (
              alloc_all-AllCases rest fuel a' (r ∷ rs) g.valid
                (subst (λ p. Requests fuel p rest) (sym g.policy) more)
                (omega (arith, g.taken), Keeps-All a a' rs g.keeps taken)
                (fresh-All a r rs g.fresh taken, apart))
      ]

-- From a new arena, any run of allocations by `alloc_raw` either panics or returns regions that lie
-- in the handed-out parts of the arena's chunks and of which no two overlap. It neither faults nor
-- runs out of fuel, if each request's alignment is a power of two up to 2 ^ 63 whose sum with the
-- block size is at most 2 ^ 64, and the fuel exceeds its spurious failures plus the capacity.
pub alloc_all-regions :
    (p : ArenaPolicy) (fuel : ℕ) (reqs : List (ℕ × Layout))
    → 0 < p.block_size
    → p.block_size ≤ p.cap
    → p.cap + p.block_size < 2 ^ 64
    → Requests fuel p reqs
    → (a : Arena) × (new p system ≡ ok a) × AllCases (alloc_all fuel a [] reqs)
alloc_all-regions p fuel reqs pos le h fit =
    let (a, e, is, same, unused) = new-IsArena p pos le h in
    (
      a,
      e,
      alloc_all-AllCases reqs fuel a [] is (subst (λ q. Requests fuel q reqs) (sym same) fit) tt tt,
    )
