-- ===== src/Memtable/Examples.antt =====
-- The memtable of crates/engine/src/memtable/memtable.rs at work.
use victory_db.Base.{
  ◌+◌, ◌*◌, ℕ, zero, suc, ◌≤◌, ◌<◌, ◌≡◌, ◌≢◌, refl, inl, inr, none, some, false, List, [], ◌∷◌,
  ◌++◌, Bytes, arith, length, cmp, to_be, ◌==◌, if◌then◌else◌,
}
use victory_db.Base.Run.{ok, ◌>>=◌}
use victory_db.Arena.{Arena, ArenaPolicy, system}
use victory_db.Key.Comparator.{internal_comparator, internal_compare, internal_order}
use victory_db.Key.Comparator.Laws.{HasTrailer, internal-IsLawful}
use victory_db.Key.InternalKey.{
  put, delete, max_op, internal_key, encode_trailer, pack_trailer, op_code,
}
use victory_db.SkipList.Node.{Ptr, null, Heap, max_head_height, load_next, deref}
use victory_db.SkipList.Search.{SkipList}
use victory_db.SkipList.Chain.{Chain, Has}
use victory_db.SkipList.Invariant.{IsSkipList, Sorted, AllLess, contents, key_of}
use victory_db.SkipList.Iteration.{NotLess}
use victory_db.Memtable.{MemtableInner, get}
use victory_db.Memtable.Versions.{Answer, IsEntry}
use victory_db.Memtable.Get.{get-Answer}
use victory_db.Memtable.Iterator.{iter, seek_to_first, iterator_seek, drain}
use victory_db.Memtable.Scan.{drain-seek}

abbrev user_key : Bytes
user_key = 1 ∷ []

abbrev newer : Bytes
newer = internal_key user_key 7 put

abbrev older : Bytes
older = internal_key user_key 3 delete

abbrev heap : Heap
heap p =
    if p == 100
    then some (record {
      height = 8;
      key = [];
      value = [];
      next = λ level. if level == 0 then 200 else null;
    })
    else (if p == 200
        then some (record { height = 1; key = newer; value = 9 ∷ []; next = λ level. 300 })
        else (if p == 300
            then some (record { height = 1; key = older; value = []; next = λ level. null })
            else none))

abbrev list : SkipList
list = record { heap = heap; head = 100; seed = 1; entries = 2; max_level = 1 }

abbrev lists : ℕ → List Ptr
lists zero = 200 ∷ 300 ∷ []
lists (suc level) = []

abbrev arena : Arena
arena = record {
  current = 0;
  chunks = record { size = 1000; bump = 200 } ∷ [];
  allocated_bytes = 1000;
  memory_used = 200;
  allocator = system;
  policy = record { block_size = 1000; cap = 8000 };
}

abbrev memtable : MemtableInner
memtable = record {
  id = 1;
  highest_seqno = 0;
  size = 0;
  requested_rotation = false;
  lifecycle = 1;
  arena = arena;
  skiplist = list;
}

list-chains : (level : ℕ) → level < max_head_height → Chain heap level 100 (lists level)
unfolding load_next deref
list-chains zero l = (refl, λ e. omega arith, (refl, λ e. omega arith, refl))
list-chains (suc level) l = ground arith

list-Sorted : (level : ℕ) → Sorted internal_comparator heap (lists level)
unfolding internal_compare internal_order cmp encode_trailer pack_trailer op_code to_be
list-Sorted zero = ((refl, tt), (tt, tt))
list-Sorted (suc level) = tt

list-nested : (level : ℕ) (p : Ptr) → Has p (lists (suc level)) → Has p (lists level)
list-nested zero p there = absurd there
list-nested (suc level) p there = absurd there

list-valid : (p : Ptr) → Has p (lists 0) → HasTrailer (key_of heap p)
unfolding encode_trailer to_be
list-valid p (inl e) = rw e (omega arith)
list-valid p (inr (inl e)) = rw e (omega arith)
list-valid p (inr (inr there)) = absurd there

list-empty : (level : ℕ) → 1 ≤ level → lists level ≡ []
list-empty zero l = absurd (omega arith)
list-empty (suc level) l = refl

list-sizes : (level : ℕ) → length (lists level) ≤ 2
list-sizes zero = omega arith
list-sizes (suc level) = omega arith

list-IsSkipList : IsSkipList internal_comparator HasTrailer list lists
list-IsSkipList = record {
  chains = list-chains;
  sorted = list-Sorted;
  nested = list-nested;
  valid = list-valid;
  empty = list-empty;
  top = omega arith;
  sizes = list-sizes;
}

put_stored : put ≢ max_op
put_stored e = cc

delete_stored : delete ≢ max_op
delete_stored e = cc

list-entries : (p : Ptr) → Has p (lists 0) → IsEntry (key_of heap p)
list-entries p (inl e) =
    rw e (user_key, 7, put, record { is = refl; seq_fits = omega arith; stored = put_stored })
list-entries p (inr (inl e)) =
    rw e (user_key, 3, delete, record { is = refl; seq_fits = omega arith; stored = delete_stored })
list-entries p (inr (inr there)) = absurd there

-- A lookup at 5 sees the deletion at 3 only.
get-Answer_example :
    Answer heap
      (lists 0)
      user_key
      5
      (get internal_comparator 3 memtable (internal_key user_key 5 max_op))
get-Answer_example =
    get-Answer 3 memtable lists user_key 5 (omega arith)
      (record { list = list-IsSkipList; entries = list-entries }) (omega arith)

lookup-HasTrailer : HasTrailer (internal_key user_key 5 max_op)
unfolding encode_trailer to_be
lookup-HasTrailer = omega arith

drain-seek_example :
    ((iter list >>= λ it. seek_to_first it >>= drain 3) ≡ ok (contents heap (lists 0)))
    × ((before : List Ptr) × (after : List Ptr) × (lists 0 ≡ before ++ after)
        × AllLess internal_comparator heap (internal_key user_key 5 max_op) before
        × NotLess internal_comparator HasTrailer internal-IsLawful heap
            (internal_key user_key 5 max_op)
            after
        × ((iter list >>= λ it.
              iterator_seek internal_comparator 3 it (internal_key user_key 5 max_op) >>= drain 3)
            ≡ ok (contents heap after)))
drain-seek_example =
    drain-seek internal_comparator HasTrailer internal-IsLawful 3 list lists
      (internal_key user_key 5 max_op) list-IsSkipList lookup-HasTrailer (omega arith)

abbrev policy : ArenaPolicy
policy = record { block_size = 256; cap = 1024 }

abbrev address : ℕ → ℕ → Ptr
address chunk offset = 4096 + chunk * 256 + offset
