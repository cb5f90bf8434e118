-- ===== src/Memtable/Iterator.antt =====
-- `MemtableIterator` of crates/engine/src/memtable/memtable.rs.
use victory_db.Base.{
  ℕ, zero, suc, Option, none, some, Bool, true, false, List, [], ◌∷◌, Bytes, ◌==◌, if◌then◌else◌,
}
use victory_db.Base.Run.{Run, ok, panic, out_of_fuel, ◌>>=◌}
use victory_db.Key.Comparator.{Comparator}
use victory_db.Key.InternalKey.{InternalKeyRef, internal_key_ref}
use victory_db.SkipList.Node.{Ptr, null, load_next, get_key_bytes, get_value_bytes}
use victory_db.SkipList.Search.{SkipList, search_node}

pub record MemtableIterator : Type 0 where
  pub list : SkipList
  pub item : Ptr
  pub current : Option Ptr

-- `NonNull::new`
abbrev pub non_null : Ptr → Option Ptr
non_null p = if p == null then none else some p

-- `MemtableInner::iter`
unfoldable pub iter : SkipList → Run MemtableIterator
iter s = do item ← load_next s.heap s.head 0; ok (record { list = s; item = item; current = none })

-- `MemtableInner::iter_from`
unfoldable pub iter_from : Comparator → ℕ → SkipList → Bytes → Run MemtableIterator
iter_from c fuel s key = do
  item ← search_node c fuel s key
  ok (record { list = s; item = item; current = none })

-- `MemtableIterator::internal_key`; a key too short for a trailer panics.
unfoldable pub iterator_internal_key : MemtableIterator → Run (Option InternalKeyRef)
iterator_internal_key it = elim it.current [
  | none ↦ ok none
  | some curr ↦ get_key_bytes it.list.heap curr >>= λ key. elim (internal_key_ref key) [
    | none ↦ panic
    | some k ↦ ok (some k)
  ]
]

unfoldable pub valid : MemtableIterator → Bool
valid it = elim it.current [ none ↦ false | some curr ↦ true ]

unfoldable pub seek_to_first : MemtableIterator → Run MemtableIterator
seek_to_first it = do
  item ← load_next it.list.heap it.list.head 0
  ok (record it { item = item; current = non_null item })

unfoldable pub iterator_seek : Comparator → ℕ → MemtableIterator → Bytes → Run MemtableIterator
iterator_seek c fuel it key = do
  item ← search_node c fuel it.list key
  ok (record it { item = item; current = non_null item })

unfoldable pub iterator_next : MemtableIterator → Run MemtableIterator
iterator_next it = elim it.current [
  | none ↦ ok (record it { current = none })
  | some curr ↦ load_next it.list.heap curr 0 >>= λ q. ok (record it { current = non_null q })
]

-- `key` and `value` unwrap the current node.
unfoldable pub iterator_key : MemtableIterator → Run Bytes
iterator_key it = elim it.current [ none ↦ panic | some curr ↦ get_key_bytes it.list.heap curr ]

unfoldable pub iterator_value : MemtableIterator → Run Bytes
iterator_value it = elim it.current [ none ↦ panic | some curr ↦ get_value_bytes it.list.heap curr ]

-- A caller's loop: while the iterator is valid, take its entry and go on.
unfoldable pub drain : ℕ → MemtableIterator → Run (List (Bytes × Bytes))
drain zero it = out_of_fuel
drain (suc fuel) it =
    if valid it
    then (do
      key ← iterator_key it
      value ← iterator_value it
      it' ← iterator_next it
      rest ← drain fuel it'
      ok ((key, value) ∷ rest))
    else ok []
