-- ===== src/SkipList/Search.antt =====
-- `SkipList` and its search (crates/engine/src/memtable/skip_list.rs).
use victory_db.Base.{
  ℕ, zero, suc, Option, none, some, Bool, true, false, [], Bytes, ◌==◌, if◌then◌else◌,
}
use victory_db.Base.Run.{Run, ok, panic, out_of_fuel, ◌>>=◌}
use victory_db.Key.Comparator.{Comparator, is_less}
use victory_db.SkipList.Node.{Ptr, null, max_head_height, Heap, load_next, set_level, get_key_bytes}
use victory_db.SkipList.Level.{seed_generator}

pub record TraversalCtx : Type 0 where
  pub searched_node : Option Ptr
  pub predecessors : ℕ → Ptr
  pub successors : ℕ → Ptr

pub record SkipList : Type 0 where
  pub heap : Heap
  pub head : Ptr
  pub seed : ℕ
  pub entries : ℕ
  pub max_level : ℕ

-- `SkipList::new`, with the sentinel at the address that the arena gave.
unfoldable pub new : Ptr → SkipList
new head = record {
  heap = λ p.
      if p == head
      then some (record { height = max_head_height; key = []; value = []; next = λ level. null })
      else none;
  head = head;
  seed = seed_generator 1;
  entries = 0;
  max_level = 1;
}

-- The first level from the top on which the head has a successor, plus one.
unfoldable pub start_level : Heap → Ptr → ℕ → Run ℕ
start_level h head zero = ok 0
start_level h head (suc level) =
    load_next h head level >>= λ p. if p == null then start_level h head level else ok (suc level)

module _ (c : Comparator) where
  -- `comparator.compare(node_key, key)` is `Less`
  unfoldable pub node_less : Heap → Ptr → Bytes → Run Bool
  node_less h p key = do
    node_key ← get_key_bytes h p
    elim (c.compare node_key key) [ none ↦ panic | some o ↦ ok (is_less (some o)) ]

  -- The inner loop: to the right while the current node is less than the key.
  unfoldable pub walk : ℕ → Heap → ℕ → Bytes → Ptr → Ptr → Run (Ptr × Ptr)
  walk zero h level key pred curr = out_of_fuel
  walk (suc fuel) h level key pred curr =
      if curr == null
      then ok (pred, curr)
      else (node_less h curr key >>= elim [
        | false ↦ ok (pred, curr)
        | true ↦ load_next h curr level >>= λ next. walk fuel h level key curr next
      ])

  -- The outer loop, from `level` down.
  unfoldable pub search_levels :
      ℕ → Heap → Bytes → (level : ℕ) → Ptr → TraversalCtx → Run TraversalCtx
  search_levels fuel h key zero pred t = ok t
  search_levels fuel h key (suc level) pred t = load_next h pred level >>= λ first.
      walk fuel h level key pred first >>= λ (p, q). search_levels fuel h key level p (record t {
        predecessors = set_level t.predecessors level p;
        successors = set_level t.successors level q;
      })

  abbrev pub first_ctx : Ptr → TraversalCtx
  first_ctx head = record {
    searched_node = none;
    predecessors = λ level. head;
    successors = λ level. null;
  }

  -- `SkipList::search`
  unfoldable pub search : ℕ → SkipList → Bytes → Run TraversalCtx
  search fuel s key = do
    level ← start_level s.heap s.head s.max_level
    search_levels fuel s.heap key level s.head (first_ctx s.head)

  -- `SkipList::search_node`
  unfoldable pub search_node : ℕ → SkipList → Bytes → Run Ptr
  search_node fuel s key = do t ← search fuel s key; ok (t.successors 0)
