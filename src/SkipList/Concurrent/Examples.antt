-- ===== src/SkipList/Concurrent/Examples.antt =====
-- Two insertions into a new list (crates/engine/src/memtable/skip_list.rs) whose accesses interleave.
use victory_db.Base.{
  ℕ, zero, suc, ◌≡◌, refl, Option, none, some, false, List, [], ◌∷◌, ◌++◌, arith, ◌==◌,
  if◌then◌else◌, cmp, inl, ◌<◌,
}
use victory_db.Base.Run.{ok}
use victory_db.Key.Comparator.{default_comparator, default_compare}
use victory_db.Key.Comparator.Laws.{AnyKey, default-IsLawful}
use victory_db.SkipList.Node.{
  Ptr, max_head_height, deref, load_next, store_next, alloc_node, get_key_bytes, slot_address,
}
use victory_db.SkipList.Level.{
  generate_random_level, next_seed, lower_height, trailing_zeros, seed_generator,
}
use victory_db.SkipList.Search.{SkipList, TraversalCtx, new, node_less, first_ctx}
use victory_db.SkipList.Insert.{compare_exchange, link_successor, next_height}
use victory_db.SkipList.Concurrent.{
  Task, before, finding, found, with_level, Pc, done, insert_step, place_step, System, start, Reach,
}
use victory_db.SkipList.Concurrent.Schedule.{step_of, schedule, schedule-Reach}
use victory_db.SkipList.Concurrent.Searched.{insert_step-Covers}
use victory_db.SkipList.Concurrent.Readers.{Covers}
use victory_db.SkipList.Concurrent.Invariant.{IsBehind}
use victory_db.SkipList.Concurrent.Reached.{Fits}
use victory_db.SkipList.Concurrent.History.{IsHistory}
use victory_db.SkipList.Concurrent.Interleaved.{
  IsSharedList, insert_step-returns, insert_step-IsHistory, insert_step-finishes,
}
use victory_db.SkipList.Concurrent.Alone.{Alone, search-Cut-Alone}
use victory_db.SkipList.Invariant.{Cut}
use victory_db.SkipList.Examples.{two_nodes, lists, two_nodes-IsSkipList}

-- The insertion of 300 uses `insert_with`, the others `insert`.
abbrev tasks : Ptr → Task
tasks x = record {
  key = (if x == 200 then 5 else (if x == 250 then 1 else 3)) ∷ [];
  value = [];
  with_closure = x == 300;
}

abbrev turns : ℕ → List Ptr
turns zero = []
turns (suc n) = 200 ∷ 300 ∷ turns n

abbrev or_start : Option System → System
or_start none = start (new 100)
or_start (some s) = s

-- Both have searched, and neither is linked.
abbrev contended : System
contended = or_start (schedule default_comparator tasks (turns 7) (start (new 100)))

-- One has lost the exchange on the base level to the other, and both are done.
abbrev finished : System
finished = or_start (schedule default_comparator tasks (turns 13) contended)

contended-Reach : Reach default_comparator tasks (start (new 100)) contended
unfolding schedule step_of insert_step place_step next_height generate_random_level next_seed
    trailing_zeros lower_height seed_generator slot_address alloc_node load_next deref node_less
    get_key_bytes default_compare cmp compare_exchange link_successor store_next new
contended-Reach = schedule-Reach default_comparator tasks (turns 7) (start (new 100)) contended refl

finished-Reach : Reach default_comparator tasks contended finished
unfolding schedule step_of insert_step place_step next_height generate_random_level next_seed
    trailing_zeros lower_height seed_generator slot_address alloc_node load_next deref node_less
    get_key_bytes default_compare cmp compare_exchange link_successor store_next new
finished-Reach = schedule-Reach default_comparator tasks (turns 13) contended finished refl

both_done : (finished.pcs 200 ≡ done 1) × (finished.pcs 300 ≡ done 1)
unfolding schedule step_of insert_step place_step next_height generate_random_level next_seed
    trailing_zeros lower_height seed_generator slot_address alloc_node load_next deref node_less
    get_key_bytes default_compare cmp compare_exchange link_successor store_next new
both_done = (refl, refl)

tasks-Fits : (x : Ptr) → Fits AnyKey (tasks x)
tasks-Fits x = record { valid = tt; short = omega arith; small = omega arith }

insert_step-returns_example :
    (list : SkipList) × (pc : Pc) × (insert_step default_comparator 200
        (tasks 200)
        contended.list
        (contended.pcs 200)
      ≡ ok (list, pc))
unfolding schedule step_of insert_step place_step next_height generate_random_level next_seed
    trailing_zeros lower_height seed_generator slot_address alloc_node load_next deref node_less
    get_key_bytes default_compare cmp compare_exchange link_successor store_next new
insert_step-returns_example =
    insert_step-returns default_comparator AnyKey default-IsLawful tasks tasks-Fits 100
      (λ e. omega arith) contended contended-Reach 200 (λ e. omega arith) (inl refl)

insert_step-IsHistory_example :
    (lists nodes : ℕ → List Ptr) × (history more : List Ptr) × IsSharedList default_comparator tasks
      contended lists
    × IsHistory default_comparator tasks contended (lists 0) history
    × IsSharedList default_comparator tasks finished nodes
    × IsHistory default_comparator tasks finished (nodes 0) (more ++ history)
insert_step-IsHistory_example =
    insert_step-IsHistory default_comparator AnyKey default-IsLawful tasks tasks-Fits 100
      (λ e. omega arith) contended contended-Reach finished finished-Reach

insert_step-finishes_example :
    (u : SkipList) × (height : ℕ) × Alone default_comparator 200
      (tasks 200)
      contended.list
      (contended.pcs 200)
      u
      (done height)
unfolding schedule step_of insert_step place_step next_height generate_random_level next_seed
    trailing_zeros lower_height seed_generator slot_address alloc_node load_next deref node_less
    get_key_bytes default_compare cmp compare_exchange link_successor store_next new
insert_step-finishes_example =
    insert_step-finishes default_comparator AnyKey default-IsLawful tasks tasks-Fits 100
      (λ e. omega arith) contended contended-Reach 200 (λ e. omega arith) (λ e. absurd (cc))

abbrev task : Task
task = record { key = 3 ∷ []; value = []; with_closure = false }

-- A search for 3 between 1 and 5.
search-Cut-Alone_example :
    (t : TraversalCtx) × Alone default_comparator 400 task two_nodes
      (finding before)
      two_nodes
      (found before t)
    × ((level : ℕ)
        → level < max_head_height
        → Cut default_comparator two_nodes.heap
            (3 ∷ [])
            100
            (lists level)
            (t.predecessors level)
            (t.successors level))
search-Cut-Alone_example =
    search-Cut-Alone default_comparator AnyKey default-IsLawful 400 task two_nodes lists before
      two_nodes-IsSkipList tt

abbrev only : ℕ → List Ptr
only zero = []
only (suc n) = 300 ∷ only n

-- One is done before the search for 1 begins, and another one goes on during the search.
abbrev inserted : System
inserted = or_start (schedule default_comparator tasks (only 9) (start (new 100)))

abbrev searched : System
searched = or_start (
    schedule default_comparator tasks
      (250 ∷ 200 ∷ 250 ∷ 200 ∷ 250 ∷ 250 ∷ 200 ∷ 250 ∷ 200 ∷ 250 ∷ []) inserted)

inserted-Reach : Reach default_comparator tasks (start (new 100)) inserted
unfolding schedule step_of insert_step place_step next_height generate_random_level next_seed
    trailing_zeros lower_height seed_generator slot_address alloc_node load_next deref node_less
    get_key_bytes default_compare cmp compare_exchange link_successor store_next new
inserted-Reach = schedule-Reach default_comparator tasks (only 9) (start (new 100)) inserted refl

searched-Reach : Reach default_comparator tasks inserted searched
unfolding schedule step_of insert_step place_step next_height generate_random_level next_seed
    trailing_zeros lower_height seed_generator slot_address alloc_node load_next deref node_less
    get_key_bytes default_compare cmp compare_exchange link_successor store_next new
searched-Reach =
    schedule-Reach default_comparator tasks
      (250 ∷ 200 ∷ 250 ∷ 200 ∷ 250 ∷ 250 ∷ 200 ∷ 250 ∷ 200 ∷ 250 ∷ []) inserted searched refl

abbrev in_front : TraversalCtx
in_front = with_level (first_ctx default_comparator 100) 0 100 300

insert_step-Covers_example :
    (lists nodes : ℕ → List Ptr) × IsSharedList default_comparator tasks inserted lists
    × IsSharedList default_comparator tasks searched nodes
    × IsBehind default_comparator 100 (tasks 250).key searched.list.heap nodes 0 300
    × Covers default_comparator (tasks 250).key (lists 0) searched.list.heap nodes 300
unfolding schedule step_of insert_step place_step next_height generate_random_level next_seed
    trailing_zeros lower_height seed_generator slot_address alloc_node load_next deref node_less
    get_key_bytes default_compare cmp compare_exchange link_successor store_next new
insert_step-Covers_example =
    insert_step-Covers default_comparator AnyKey default-IsLawful tasks tasks-Fits 100 inserted
      searched 250 in_front (λ e. omega arith) inserted-Reach searched-Reach refl refl
