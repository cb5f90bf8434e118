-- ===== src/SkipList/Iter.antt =====
-- Iteration (crates/engine/src/memtable/skip_list.rs): an iterator is the pointer it stands at.
use victory_db.Base.{
  ℕ, zero, suc, Option, none, some, Bool, true, false, not, List, [], ◌∷◌, Bytes, cmp, ◌==◌,
  if◌then◌else◌,
}
use victory_db.Base.Run.{Run, ok, out_of_fuel, ◌>>=◌}
use victory_db.Key.Comparator.{Comparator}
use victory_db.SkipList.Node.{Ptr, null, Heap, load_next, get_key_bytes}
use victory_db.SkipList.Search.{SkipList, search}
use Prim.Native.Nat.{Ordering}

-- `SkipList::first_node`, and `SkipList::iter`
unfoldable pub first_node : SkipList → Run Ptr
first_node s = load_next s.heap s.head 0

-- `Iterator::next` of `Iter`: the node, and where the iterator stands then.
unfoldable pub iter_next : Heap → Ptr → Run (Option (Ptr × Ptr))
iter_next h item =
    if item == null then ok none else (load_next h item 0 >>= λ next. ok (some (item, next)))

-- `for node in iter`
unfoldable pub collect : ℕ → Heap → Ptr → Run (List Ptr)
collect zero h item = out_of_fuel
collect (suc fuel) h item =
    iter_next h item
    >>= elim [ none ↦ ok [] | some (node, next) ↦ collect fuel h next >>= λ rest. ok (node ∷ rest) ]

-- `SkipList::seek`
unfoldable pub seek : Comparator → ℕ → SkipList → Bytes → Run Ptr
seek c fuel s key = do
  t ← search c fuel s key
  elim t.searched_node [ some node ↦ ok node | none ↦ ok (t.successors 0) ]

pub data Bound : Type 0 where
  included excluded : Bytes → Bound
  unbounded : Bound

-- `SkipList::range`: both kinds of start seek to the key.
unfoldable pub range_start : Comparator → ℕ → SkipList → Bound → Run Ptr
range_start c fuel s (excluded k) = seek c fuel s k
range_start c fuel s (included k) = seek c fuel s k
range_start c fuel s unbounded = first_node s

abbrev is_gt : Ordering → Bool
is_gt Ordering.gt = true
is_gt Ordering.eq = false
is_gt Ordering.lt = false

-- Slices are compared by their bytes here, whatever the list's comparator.
unfoldable pub past_end : Bound → Bytes → Bool
past_end (excluded bound) key = not (is_gt (cmp bound key))
past_end (included bound) key = is_gt (cmp key bound)
past_end unbounded key = false

-- `Iterator::next` of `RangeIter`
unfoldable pub range_next : Heap → Bound → Ptr → Run (Option (Ptr × Ptr))
range_next h end_bound node =
    if node == null
    then ok none
    else (get_key_bytes h node >>= λ key.
        if past_end end_bound key
        then ok none
        else (load_next h node 0 >>= λ next. ok (some (node, next))))

unfoldable pub range_collect : ℕ → Heap → Bound → Ptr → Run (List Ptr)
range_collect zero h end_bound node = out_of_fuel
range_collect (suc fuel) h end_bound node = range_next h end_bound node >>= elim [
  | none ↦ ok []
  | some (n, next) ↦ range_collect fuel h end_bound next >>= λ rest. ok (n ∷ rest)
]
