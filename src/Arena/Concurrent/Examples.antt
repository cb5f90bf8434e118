-- ===== src/Arena/Concurrent/Examples.antt =====
-- Three requests to an arena of two chunks (crates/mem/src/arena.rs) at once.
use victory_db.Base.{ℕ, zero, suc, ◌≡◌, refl, false, List, [], ◌∷◌, arith}
use victory_db.Base.Run.{Run, ok, panic, fault, out_of_fuel}
use victory_db.Arena.{
  Arena, ArenaPolicy, Layout, new, system, allocate, get_chunk, align_up, alignment_check,
  arena_full,
}
use victory_db.Arena.Concurrent.{
  AllocPc, allotted, gave_up, Mutex, chunk_of, exchange_bump, alloc_step, update_pc, Requests,
  access, start, Reach, started, later,
}
use victory_db.Arena.Concurrent.Invariant.{LayoutFits}
use victory_db.Arena.Concurrent.Interleaved.{IsApart, alloc_step-IsApart, alloc_step-returns}

abbrev policy : ArenaPolicy
policy = record { block_size = 100; cap = 250 }

-- Sixty bytes each: no chunk has room for two.
abbrev layouts : ℕ → Layout
layouts x = record { size = 60; align = 8 }

abbrev arena : Arena
arena = record {
  current = 0;
  chunks = record { size = 100; bump = 0 } ∷ [];
  allocated_bytes = 100;
  memory_used = 0;
  allocator = system;
  policy = policy;
}

abbrev after_access : Requests → ℕ → Run (Arena × Mutex × AllocPc) → Requests
after_access s x (ok (a, lock, pc)) = record { arena = a; lock = lock; pcs = update_pc s.pcs x pc }
after_access s x panic = s
after_access s x fault = s
after_access s x out_of_fuel = s

-- The accesses of the requests in this order.
run : List ℕ → Requests → Requests
run [] s = s
run (x ∷ xs) s = run xs (after_access s x (alloc_step x (layouts x) false s.arena s.lock (s.pcs x)))

after_access-Reach :
    (s t : Requests) (x : ℕ) (r : Run (Arena × Mutex × AllocPc))
    → Reach layouts s t
    → alloc_step x (layouts x) false t.arena t.lock (t.pcs x) ≡ r
    → Reach layouts s (after_access t x r)
after_access-Reach s t x (ok (a, lock, pc)) reach e = later reach (access x false a lock pc e)
after_access-Reach s t x panic reach e = reach
after_access-Reach s t x fault reach e = reach
after_access-Reach s t x out_of_fuel reach e = reach

run-Reach : (order : List ℕ) (s t : Requests) → Reach layouts s t → Reach layouts s (run order t)
unfolding run
run-Reach [] s t reach = reach
run-Reach (x ∷ xs) s t reach =
    let r = alloc_step x (layouts x) false t.arena t.lock (t.pcs x) in
    run-Reach xs s (after_access t x r) (after_access-Reach s t x r reach refl)

abbrev turns : ℕ → List ℕ
turns zero = []
turns (suc n) = 1 ∷ 2 ∷ 3 ∷ turns n

abbrev served : Requests
served = run (turns 30) (start arena)

-- The first two get a chunk each, and the third is refused.
all_served :
    (served.pcs 1 ≡ allotted 0 0)
    × (served.pcs 2 ≡ allotted 1 0)
    × (served.pcs 3 ≡ gave_up arena_full)
unfolding run alloc_step chunk_of exchange_bump get_chunk align_up alignment_check allocate
all_served = (refl, refl, refl)

layouts-LayoutFits : (x : ℕ) → LayoutFits policy 3 (layouts x)
layouts-LayoutFits x = record { power = refl; small = omega arith; no_wrap = omega arith }

arena-new : new policy system ≡ ok arena
unfolding new allocate
arena-new = refl

alloc_step-IsApart_example : IsApart policy (λ x. 3) layouts served
alloc_step-IsApart_example =
    alloc_step-IsApart policy (omega arith) (omega arith) (omega arith) (λ x. 3) layouts
      layouts-LayoutFits arena arena-new served
      (run-Reach (turns 30) (start arena) (start arena) started)

alloc_step-returns_example :
    (a : Arena) × (lock : Mutex) × (pc : AllocPc) × (alloc_step 3
        (layouts 3)
        false
        served.arena
        served.lock
        (served.pcs 3)
      ≡ ok (a, lock, pc))
alloc_step-returns_example =
    alloc_step-returns policy (omega arith) (omega arith) (omega arith) (λ x. 3) layouts
      layouts-LayoutFits arena arena-new served
      (run-Reach (turns 30) (start arena) (start arena) started) 3 false
