-- ===== src/SkipList/Concurrent.antt =====
-- `insert` and `insert_with` of crates/engine/src/memtable/skip_list.rs by many threads at once,
-- one access to shared memory at a time. An insertion is named by the address that the arena gives
-- for its node. Drawing the height and filling the node is one step: no other thread sees the node
-- before it is linked, and the order of the draws shows in the heights only.
pub mod Invariant
pub mod Evolve
pub mod Reading
pub mod Searching
pub mod Placing
pub mod Storing
pub mod Splitting
pub mod Splicing
pub mod Exchanging
pub mod Reached
pub mod History
pub mod Interleaved
pub mod Searched
pub mod Schedule
pub mod Readers
pub mod Unsearched
pub mod Covering
pub mod Alone
pub mod Landing
pub mod Rounds
pub mod Finishing
mod Examples
use victory_db.Base.{
  ℕ, zero, suc, ◌+◌, ◌≡◌, ◌≢◌, ◌⊎◌, Option, none, some, Bool, true, false, Bytes, ltb, ◌==◌,
  if◌then◌else◌,
}
use victory_db.Base.Run.{Run, ok, ◌>>=◌}
use victory_db.Key.Comparator.{Comparator}
use victory_db.SkipList.Node.{Ptr, null, load_next, set_level, alloc_node}
use victory_db.SkipList.Search.{SkipList, TraversalCtx, node_less, first_ctx}
use victory_db.SkipList.Insert.{compare_exchange, link_successor, next_height}

-- What is inserted, and whether by `insert_with`, which allocates before it searches.
pub record Task : Type 0 where
  pub key : Bytes
  pub value : Bytes
  pub with_closure : Bool

-- What a search is for: the first one of `insert`, or the links of a node from a level on.
pub data Goal : Type 0 where
  before : Goal
  linking : (height level : ℕ) → Goal

-- Where an insertion is. `descending` looks for the level to start on, `row` is in front of a level,
-- and `walking` at a node of one.
pub data Pc : Type 0 where
  starting : Pc
  finding : Goal → Pc
  descending : Goal → ℕ → Pc
  row : Goal → ℕ → Ptr → TraversalCtx → Pc
  walking : Goal → ℕ → Ptr → Ptr → TraversalCtx → Pc
  placing : TraversalCtx → Pc
  storing exchanging : (height level : ℕ) → TraversalCtx → Pc
  done : ℕ → Pc

-- The search is over. It leaves `searched_node` as `first_ctx` sets it, unset, so the returns of the
-- source that test it are not taken, and goes on to what it is for.
abbrev pub found : Goal → TraversalCtx → Pc
found before t = placing t
found (linking height level) t = storing height level t

-- The level is linked.
abbrev pub advance : ℕ → ℕ → TraversalCtx → Pc
advance height level t =
    if ltb (level + 1) height then storing height (level + 1) t else done height

-- The two nodes around the key on a level
abbrev pub with_level : TraversalCtx → ℕ → Ptr → Ptr → TraversalCtx
with_level t level pred succ = record t {
  predecessors = set_level t.predecessors level pred;
  successors = set_level t.successors level succ;
}

module _ (c : Comparator) (x : Ptr) (task : Task) where
  -- The height is drawn and the node made.
  unfoldable pub place_step : SkipList → (ℕ → Pc) → Run (SkipList × Pc)
  place_step s next =
      let (height, s') = next_height s in
      alloc_node s'.heap x height task.key task.value >>= λ h.
      ok (record s' { heap = h }, next height)

  unfoldable pub insert_step : SkipList → Pc → Run (SkipList × Pc)
  insert_step s starting =
      if task.with_closure
      then place_step s (λ height. finding (linking height 0))
      else ok (s, finding before)
  insert_step s (finding g) = ok (s, descending g s.max_level)
  insert_step s (descending g zero) = ok (s, row g 0 s.head (first_ctx c s.head))
  insert_step s (descending g (suc level)) = load_next s.heap s.head level >>= λ p.
      ok (
        s,
        (if p == null then descending g level else row g (suc level) s.head (first_ctx c s.head)),
      )
  insert_step s (row g zero pred t) = ok (s, found g t)
  insert_step s (row g (suc level) pred t) =
      load_next s.heap pred level >>= λ curr. ok (s, walking g level pred curr t)
  insert_step s (walking g level pred curr t) =
      if curr == null
      then ok (s, row g level pred (with_level t level pred curr))
      else (node_less c s.heap curr task.key >>= elim [
        | false ↦ ok (s, row g level pred (with_level t level pred curr))
        | true ↦ load_next s.heap curr level >>= λ next. ok (s, walking g level curr next t)
      ])
  insert_step s (placing t) = place_step s (λ height. storing height 0 t)
  insert_step s (storing height level t) =
      link_successor s.heap x level (t.successors level) >>= λ h.
      ok (record s { heap = h }, exchanging height level t)
  insert_step s (exchanging height level t) =
      compare_exchange s.heap (t.predecessors level) level (t.successors level) x >>= elim [
        | some h ↦ ok (record s { heap = h }, advance height level t)
        | none ↦ ok (s, finding (linking height level))
      ]
  insert_step s (done height) = ok (s, done height)

-- The next step asks the arena for the node.
abbrev pub places : Task → Pc → Bool
places task starting = task.with_closure
places task (placing t) = true
places task pc = false

abbrev pub update_pc : (Ptr → Pc) → Ptr → Pc → Ptr → Pc
update_pc pcs x pc y = if y == x then pc else pcs y

pub record System : Type 0 where
  pub list : SkipList
  pub pcs : Ptr → Pc

-- The insertion of some node goes on. The arena gives an address, not null, that holds no node.
pub data Step (c : Comparator) (tasks : Ptr → Task) (s : System) : System → Type 0 where
  access :
      (x : Ptr) (list : SkipList) (pc : Pc)
      → x ≢ null
      → (places (tasks x) (s.pcs x) ≡ false) ⊎ (s.list.heap x ≡ none)
      → insert_step c x (tasks x) s.list (s.pcs x) ≡ ok (list, pc)
      → Step c tasks s (record { list = list; pcs = update_pc s.pcs x pc })

abbrev pub start : SkipList → System
start list = record { list = list; pcs = λ x. starting }

pub data Reach (c : Comparator) (tasks : Ptr → Task) (s : System) : System → Type 0 where
  started : Reach c tasks s s
  later : {t u : System} → Reach c tasks s t → Step c tasks t u → Reach c tasks s u
