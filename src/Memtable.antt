-- ===== src/Memtable.antt =====
-- crates/engine/src/memtable/memtable.rs: the memtable around the skip list and its arena.
-- Where the system puts the chunks of an arena is an argument: `address chunk offset` is the address
-- of an offset in a chunk. The arena and the skip list run on the same fuel.
pub mod Returns
pub mod Versions
pub mod Get
pub mod Iterator
pub mod Scan
pub mod Creation
pub mod Writes
pub mod Regions
pub mod Insertion
pub mod Seen
pub mod History
mod Examples
mod HistoryExamples
mod Flow
use victory_db.Base.{
  ℕ, zero, suc, ◌+◌, ◌≡◌, refl, Option, none, some, Bool, true, false, ◌++◌, [], Bytes, length, cmp,
  u16, u32, ◌==◌, if◌then◌else◌,
}
use victory_db.Base.Run.{Run, ok, panic, fault, ◌>>=◌}
use victory_db.Arena.{Arena, ArenaPolicy, Allocator, Layout, alloc_raw}
use victory_db.Arena as Chunks
use victory_db.Key.Comparator.{Comparator}
use victory_db.Key.InternalKey.{
  OperationType, put, delete, max_op, op_from, InternalKeyRef, internal_key_ref, encode_trailer,
}
use victory_db.SkipList.Node.{
  Ptr, null, Heap, max_head_height, node_size, load_next, get_key_bytes, get_value_bytes,
}
use victory_db.SkipList.Search.{SkipList, TraversalCtx, search, search_node}
use victory_db.SkipList.Search as Sl
use victory_db.SkipList.Insert.{next_height, insert, insert_with}
use Prim.Native.Nat.{Ordering}

pub data MemReturn : Type 0 where
  not_found merge deleted : MemReturn
  value : Bytes → MemReturn

pub data MemLifeCycle : Type 0 where
  active freezing frozen flushing flushed : MemLifeCycle

-- `MemLifeCycle::from(u8)`
unfoldable pub life_cycle_from : ℕ → Run MemLifeCycle
life_cycle_from n =
    if n == 1
    then ok active
    else (if n == 2
        then ok freezing
        else (if n == 3
            then ok frozen
            else (if n == 4 then ok flushing else (if n == 5 then ok flushed else panic))))

pub record MemtableInner : Type 0 where
  pub id : ℕ
  pub highest_seqno : ℕ
  pub size : ℕ
  pub requested_rotation : Bool
  pub lifecycle : ℕ
  pub arena : Arena
  pub skiplist : SkipList

abbrev pub node_layout : ℕ → ℕ → ℕ → Layout
node_layout height key_len value_len = record {
  size = node_size height key_len value_len;
  align = 8;
}

module _ (address : ℕ → ℕ → Ptr) (fuel fails : ℕ) where
  -- `arena.alloc_raw` of a node's layout, as an address
  unfoldable pub place_node : Arena → ℕ → ℕ → ℕ → Run (Ptr × Arena)
  place_node arena height key_len value_len = do
    (chunk, offset, arena') ← alloc_raw fuel fails arena (node_layout height key_len value_len)
    ok (address chunk offset, arena')

  -- `MemtableInner::new`
  unfoldable pub memtable_new : ℕ → ArenaPolicy → Allocator → Run MemtableInner
  memtable_new id policy allocator = do
    arena ← Chunks.new policy allocator
    (head, arena') ← place_node arena max_head_height 0 0
    ok (record {
      id = id;
      highest_seqno = 0;
      size = 0;
      requested_rotation = false;
      lifecycle = 1;
      arena = arena';
      skiplist = Sl.new head;
    })

  -- `MemtableInner::insert`: what `SkipList::insert` does first is done here as well, since the arena
  -- is asked for a node of the height that it draws.
  unfoldable pub memtable_insert : Comparator → MemtableInner → Bytes → Bytes → Run MemtableInner
  memtable_insert c m key bytes = do
    t ← search c fuel m.skiplist key
    elim t.searched_node [
      | some found ↦ ok m
      | none ↦
          let (height, drawn) = next_height m.skiplist in
          place_node m.arena height (u16 (length key)) (u32 (length bytes)) >>= λ (place, arena').
          insert c fuel m.skiplist key bytes place >>= λ (node, s').
          ok (record m { arena = arena'; skiplist = s' })
    ]

  -- `MemtableInner::insert_direct`: user key and trailer are written into the node.
  unfoldable pub insert_direct :
      Comparator → MemtableInner → Bytes → ℕ → OperationType → Bytes → Run MemtableInner
  insert_direct c m user_key seq_no op_type bytes = do
    let (height, drawn) = next_height m.skiplist
    (place, arena') ← place_node m.arena height (u16 (length user_key + 8)) (u32 (length bytes))
    (node, s') ←
        insert_with c fuel m.skiplist (user_key ++ encode_trailer seq_no op_type) bytes place
    ok (record m { arena = arena'; skiplist = s' })

module _ (c : Comparator) (fuel : ℕ) where
  -- `MemtableInner::first_ge`: the key and the value of the first node that is not less.
  unfoldable pub first_ge : MemtableInner → Bytes → Run (Option (Bytes × Bytes))
  first_ge m key = do
    t ← search c fuel m.skiplist key
    (if t.successors 0 == null
        then ok none
        else (get_key_bytes m.skiplist.heap (t.successors 0) >>= λ skip_key.
            get_value_bytes m.skiplist.heap (t.successors 0) >>= λ v. ok (some (skip_key, v))))

abbrev pub same_bytes : Bytes → Bytes → Bool
same_bytes a b = elim (cmp a b) [ Ordering.lt ↦ false | Ordering.eq ↦ true | Ordering.gt ↦ false ]

-- The result for an entry of the operation; that of a lookup only is unreachable.
unfoldable pub mem_return : OperationType → Bytes → Run MemReturn
mem_return put v = ok (value v)
mem_return delete v = ok deleted
mem_return OperationType.merge v = ok merge
mem_return max_op v = panic

-- What `get` makes of the entry that it found; a key too short for a trailer panics, and so does an
-- unknown operation.
unfoldable pub entry_return : Bytes → Bytes → Bytes → Run MemReturn
entry_return key skip_key v = elim (internal_key_ref skip_key) [
  | none ↦ panic
  | some sk ↦ elim (internal_key_ref key) [
    | none ↦ panic
    | some lookup ↦
        if same_bytes sk.user_key lookup.user_key
        then elim (op_from sk.op) [ none ↦ panic | some op ↦ mem_return op v ]
        else ok not_found
  ]
]

-- `Memtable::get`
unfoldable pub get : Comparator → ℕ → MemtableInner → Bytes → Run MemReturn
get c fuel m key = do
  found ← first_ge c fuel m key
  elim found [ none ↦ ok not_found | some (skip_key, v) ↦ entry_return key skip_key v ]
