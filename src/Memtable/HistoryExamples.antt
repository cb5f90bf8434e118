-- ===== src/Memtable/HistoryExamples.antt =====
-- Writes to a memtable of crates/engine/src/memtable/memtable.rs and lookups after them.
use victory_db.Base.{◌≤◌, ◌<◌, ℕ, zero, suc, ◌+◌, ◌*◌, ◌≡◌, refl, ◌⊎◌, [], ◌∷◌, Bytes, arith}
use victory_db.Base.Run.{ok, panic, ◌>>=◌}
use victory_db.Arena.{Arena, ArenaPolicy, system}
use victory_db.Key.Comparator.{internal_comparator}
use victory_db.Key.InternalKey.{put, delete, max_op, internal_key}
use victory_db.Key.Comparator.Laws.{HasTrailer, internal-IsLawful}
use victory_db.SkipList.Search as Sl
use victory_db.SkipList.Iteration.{new-IsSkipList}
use victory_db.Memtable.Creation.{empty_memtable}
use victory_db.SkipList.Node.{Ptr}
use victory_db.Memtable.{MemtableInner, memtable_new, get}
use victory_db.Memtable.Writes.{Write, IsWrite, Answered}
use victory_db.Memtable.Regions.{IsAddressing, IsUntouched, IsLaidOut}
use victory_db.SkipList.Insert.Stored.{extent}
use victory_db.Arena.Laws.{bump_of}
use victory_db.Memtable.Insertion.{Holds, insert_write, InsertCases, insert_direct-InsertCases}
use victory_db.Memtable.History.{write_all, RanOut, new-KeepsFree, get-write_all}

abbrev policy : ArenaPolicy
policy = record { block_size = 256; cap = 1024 }

abbrev address : ℕ → ℕ → Ptr
address chunk offset = 4096 + chunk * 256 + offset

policy-IsAddressing : IsAddressing 256 address
policy-IsAddressing = record {
  not_null = λ chunk offset e. omega arith;
  apart = λ c o c' o' l l' e. (omega arith, omega arith);
}

abbrev user_key : Bytes
user_key = 1 ∷ []

abbrev first : Write
first = record { user_key = user_key; seq_no = 3; op_type = put; bytes = 9 ∷ [] }

abbrev second : Write
second = record { user_key = user_key; seq_no = 7; op_type = delete; bytes = [] }

first-IsWrite : IsWrite first
first-IsWrite = record {
  seq_fits = omega arith;
  stored = λ e. cc;
  short = omega arith;
  brief = omega arith;
}

second-IsWrite : IsWrite second
second-IsWrite = record {
  seq_fits = omega arith;
  stored = λ e. cc;
  short = omega arith;
  brief = omega arith;
}

abbrev arena : Arena
arena = record {
  current = 0;
  chunks = record { size = 256; bump = 72 } ∷ [];
  allocated_bytes = 256;
  memory_used = 72;
  allocator = system;
  policy = policy;
}

-- A memtable that nothing is written to, its head at the start of the first chunk.
abbrev fresh : MemtableInner
fresh = empty_memtable address 2000 0 1 arena 4096

fresh-IsUntouched : IsUntouched address arena fresh.skiplist.heap
fresh-IsUntouched zero offset l m = new-KeepsFree 4096 (address 0 offset) (λ e. omega arith) refl
fresh-IsUntouched (suc chunk) offset l m =
    new-KeepsFree 4096 (address (suc chunk) offset) (λ e. omega arith) refl

-- The head is the only node, at the start of the first chunk.
fresh-only :
    (chunk offset : ℕ)
    → 0 < extent (fresh.skiplist.heap (address chunk offset))
    → (chunk ≡ 0) × (offset ≡ 0)
unfolding Sl.new
fresh-only zero offset there = (refl, ground (arith, there))
fresh-only (suc chunk) offset there = ground (arith, there)

fresh-handed_out :
    (c o : ℕ)
    → c ≡ 0
    → o ≡ 0
    → o + extent (fresh.skiplist.heap (address c o)) ≤ bump_of arena.chunks c
unfolding Sl.new
fresh-handed_out c o e f = rw (e, f) (omega arith)

fresh-IsLaidOut : IsLaidOut address arena fresh.skiplist.heap
unfolding Sl.new
fresh-IsLaidOut = record {
  somewhere = λ p there. (0, 0, omega arith, ground (arith, there));
  handed_out =
      λ c o inside there. let (c0, o0) = fresh-only c o there in fresh-handed_out c o c0 o0;
  separate =
      λ c o o' l inside there there'. let (c0, o0) = fresh-only c o' there' in absurd (omega arith);
}

fresh-Holds : Holds address fresh (λ level. []) []
unfolding Sl.new
fresh-Holds = record {
  arena = record {
    some_block = omega arith;
    no_wrap = omega arith;
    last = omega arith;
    counted = omega arith;
    within = omega arith;
    chunks_fit = ((refl, omega arith), tt);
    from_system = refl;
  };
  untouched = fresh-IsUntouched;
  laid_out = fresh-IsLaidOut;
  list = new-IsSkipList internal_comparator HasTrailer internal-IsLawful 4096 (λ e. omega arith);
  counted = refl;
  records = record { only = λ e m. absurd m; all = λ w m. absurd m };
  writes = tt;
}

insert_direct-InsertCases_example :
    InsertCases address 2000 3 fresh
      (λ level. [])
      []
      first
      policy-IsAddressing
      fresh-Holds
      first-IsWrite
      (insert_write address 2000 3 fresh first)
insert_direct-InsertCases_example =
    insert_direct-InsertCases address 2000 3 fresh (λ level. []) [] first policy-IsAddressing
      fresh-Holds first-IsWrite (omega arith) (omega arith) (omega arith) (omega arith)

-- A lookup between the two writes of the key.
get-write_all_example :
    (((memtable_new address 2000 0 1 policy system >>= λ m.
    write_all address 2000 (λ i. 3) m (second ∷ first ∷ []))
        ≡ panic)
      × ((m : MemtableInner) × (memtable_new address 2000 0 1 policy system ≡ ok m)
          × RanOut address 2000 (λ i. 3) policy m (second ∷ first ∷ [])))
    ⊎ ((m : MemtableInner) × ((memtable_new address 2000 0 1 policy system >>= λ m.
            write_all address 2000 (λ i. 3) m (second ∷ first ∷ []))
          ≡ ok m)
        × IsLaidOut address m.arena m.skiplist.heap
        × Answered
            (second ∷ first ∷ [])
            user_key
            5
            (get internal_comparator 2000 m (internal_key user_key 5 max_op)))
get-write_all_example =
    get-write_all address 2000 0 policy policy-IsAddressing (λ i. 3) 1 (second ∷ first ∷ [])
      user_key 5 (omega arith) (omega arith) (omega arith) (omega arith) (λ i. omega arith)
      (second-IsWrite, (first-IsWrite, tt)) (omega arith) (omega arith) (omega arith)
