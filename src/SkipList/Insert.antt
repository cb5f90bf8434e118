-- ===== src/SkipList/Insert.antt =====
-- Insertion (crates/engine/src/memtable/skip_list.rs). `place` is the address that the arena gave
-- for the node.
pub mod Stored
pub mod Splice
pub mod Links
pub mod Entries
pub mod Linking
pub mod Prepared
pub mod Refinement
mod Examples
use victory_db.Base.{ℕ, zero, suc, ◌+◌, ◌-◌, Option, none, some, Bytes, u64, ◌==◌, if◌then◌else◌}
use victory_db.Base.Run.{Run, ok, out_of_fuel, ◌>>=◌}
use victory_db.Key.Comparator.{Comparator}
use victory_db.SkipList.Node.{Ptr, null, Heap, load_next, store_next, alloc_node}
use victory_db.SkipList.Level.{generate_random_level}
use victory_db.SkipList.Search.{SkipList, TraversalCtx, search}

-- `compare_exchange` on a slot: whether it held the expected pointer, and the heap afterwards.
unfoldable pub compare_exchange : Heap → Ptr → ℕ → Ptr → Ptr → Run (Option Heap)
compare_exchange h p level expected new = do
  current ← load_next h p level
  (if current == expected then (store_next h p level new >>= λ h'. ok (some h')) else ok none)

-- `if !succ.is_null() { node.next(level).store(succ) }`
unfoldable pub link_successor : Heap → Ptr → ℕ → Ptr → Run Heap
link_successor h node level succ = if succ == null then ok h else store_next h node level succ

-- The node was linked, or the search found one with the key.
pub data Linked : Type 0 where
  linked : Heap → TraversalCtx → Linked
  already : Ptr → Heap → Linked

module _ (c : Comparator) (fuel : ℕ) (s : SkipList) (key : Bytes) (node : Ptr) where
  -- `self.search(key)` on the list with another heap
  unfoldable pub search_again : Heap → Run TraversalCtx
  search_again h = search c fuel (record s { heap = h }) key

  -- The loop at the base level.
  unfoldable pub link_base : ℕ → Heap → TraversalCtx → Run Linked
  link_base zero h t = out_of_fuel
  link_base (suc rounds) h t = link_successor h node 0 (t.successors 0) >>= λ h1.
      compare_exchange h1 (t.predecessors 0) 0 (t.successors 0) node >>= elim [
        | some h2 ↦ ok (linked h2 t)
        | none ↦ search_again h1 >>= λ t'. elim t'.searched_node [
          | some found ↦ ok (already found h1)
          | none ↦ link_base rounds h1 t'
        ]
      ]

  -- The inner loop at a level above.
  unfoldable pub link_level : ℕ → ℕ → Heap → TraversalCtx → Run (Heap × TraversalCtx)
  link_level zero level h t = out_of_fuel
  link_level (suc rounds) level h t = link_successor h node level (t.successors level) >>= λ h1.
      compare_exchange h1 (t.predecessors level) level (t.successors level) node >>= elim [
        | some h2 ↦ ok (h2, t)
        | none ↦ search_again h1 >>= λ t'. link_level rounds level h1 t'
      ]

  -- `for level in 1..height`, with `left` levels to go
  unfoldable pub link_levels : ℕ → ℕ → ℕ → Heap → TraversalCtx → Run Heap
  link_levels rounds zero level h t = ok h
  link_levels rounds (suc left) level h t =
      link_level rounds level h t >>= λ (h', t'). link_levels rounds left (level + 1) h' t'

  -- The part of both insertions behind the allocation: the new node, or the one that was there.
  unfoldable pub link_node : ℕ → ℕ → Heap → TraversalCtx → Run (Ptr × SkipList)
  link_node rounds height h t = link_base rounds h t >>= elim [
    | already found h' ↦ ok (found, record s { heap = h' })
    | linked h' t' ↦
        link_levels rounds (height - 1) 1 h' t' >>= λ h2. ok (node, record s { heap = h2 })
  ]

-- One more entry, and the height of the new node.
unfoldable pub next_height : SkipList → ℕ × SkipList
next_height s =
    let (seed, max_level, height) = generate_random_level s.head s.seed s.max_level in
    (height, record s { entries = u64 (s.entries + 1); seed = seed; max_level = max_level })

-- `SkipList::insert`
unfoldable pub insert : Comparator → ℕ → SkipList → Bytes → Bytes → Ptr → Run (Ptr × SkipList)
insert c fuel s key value place = do
  t ← search c fuel s key
  elim t.searched_node [
    | some found ↦ ok (found, s)
    | none ↦
        let (height, s') = next_height s in
        alloc_node s'.heap place height key value >>= λ h.
        link_node c fuel s' key place fuel height h t
  ]

-- `SkipList::insert_with`, for a closure that writes `key` into the node: it is allocated before
-- the search.
unfoldable pub insert_with : Comparator → ℕ → SkipList → Bytes → Bytes → Ptr → Run (Ptr × SkipList)
insert_with c fuel s key value place =
    let (height, s') = next_height s in
    alloc_node s'.heap place height key value >>= λ h.
    search c fuel (record s' { heap = h }) key >>= λ t. elim t.searched_node [
      | some found ↦ ok (found, record s' { heap = h })
      | none ↦ link_node c fuel s' key place fuel height h t
    ]
