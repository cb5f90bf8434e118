-- ===== src/SkipList/Concurrent/Invariant.antt =====
-- What holds of a skip list (crates/engine/src/memtable/skip_list.rs) between any two accesses of
-- many insertions: of its levels, and of what each insertion has read and linked so far.
use victory_db.Base.{
  ℕ, zero, suc, ◌≤◌, ◌<◌, ◌≡◌, ◌≢◌, ◌⊎◌, Option, none, some, true, false, List, Bytes, All,
}
use victory_db.Base.Run.{ok}
use victory_db.Key.Comparator.{Comparator, less}
use victory_db.SkipList.Node.{Ptr, null, Heap, load_next, max_head_height}
use victory_db.SkipList.Search.{TraversalCtx}
use victory_db.SkipList.Chain.{Chain, Has}
use victory_db.SkipList.Invariant.{key_of, value_of, Sorted}
use victory_db.SkipList.Concurrent.{
  Task, Goal, before, linking, Pc, starting, finding, descending, row, walking, placing, storing,
  exchanging, done, System,
}

abbrev pub goal_linked : Goal → ℕ
goal_linked before = 0
goal_linked (linking height level) = level

abbrev pub goal_height : Goal → Option ℕ
goal_height before = none
goal_height (linking height level) = some height

-- The number of levels on which the node of an insertion is linked.
abbrev pub levels_linked : Pc → ℕ
levels_linked starting = 0
levels_linked (finding g) = goal_linked g
levels_linked (descending g level) = goal_linked g
levels_linked (row g level pred t) = goal_linked g
levels_linked (walking g level pred curr t) = goal_linked g
levels_linked (placing t) = 0
levels_linked (storing height level t) = level
levels_linked (exchanging height level t) = level
levels_linked (done height) = height

-- The height of the node, once there is one.
abbrev pub height_of : Pc → Option ℕ
height_of starting = none
height_of (finding g) = goal_height g
height_of (descending g level) = goal_height g
height_of (row g level pred t) = goal_height g
height_of (walking g level pred curr t) = goal_height g
height_of (placing t) = none
height_of (storing height level t) = some height
height_of (exchanging height level t) = some height
height_of (done height) = some height

-- The levels of a list at one moment.
pub record Levels (c : Comparator) (Valid : Bytes → Type 0) (head : Ptr) (h : Heap)
    (lists : ℕ → List Ptr) : Type 0 where
  pub chains : (j : ℕ) → j < max_head_height → Chain h j head (lists j)
  pub sorted : (j : ℕ) → Sorted c h (lists j)
  pub valid : (j : ℕ) → All (λ p. Valid (key_of h p)) (lists j)
  pub nested : (j : ℕ) (p : Ptr) → Has p (lists (suc j)) → Has p (lists j)

module _ (c : Comparator) (head : Ptr) (key : Bytes) (h : Heap) (lists : ℕ → List Ptr) where
  -- The head, or a node of the level that is less than the key.
  abbrev pub IsBefore : ℕ → Ptr → Type 0
  IsBefore j p = (p ≡ head) ⊎ (Has p (lists j) × (less c (key_of h p) key ≡ true))

  -- Null, or a node of the level that is not less than the key.
  abbrev pub IsBehind : ℕ → Ptr → Type 0
  IsBehind j q = (q ≡ null) ⊎ (Has q (lists j) × (less c (key_of h q) key ≡ false))

  -- What a search has found.
  abbrev pub IsAround : TraversalCtx → Type 0
  IsAround t = (j : ℕ) → IsBefore j (t.predecessors j) × IsBehind j (t.successors j)

  abbrev pub GoalOk : Goal → Type 0
  GoalOk before = Unit {0}
  GoalOk (linking height level) = level < height

  -- Where a level may be entered.
  abbrev pub RowOk : ℕ → Ptr → Type 0
  RowOk zero p = Unit {0}
  RowOk (suc j) p = IsBefore j p

  -- What an insertion of `key` by the node `x` knows.
  abbrev pub PcOk : Ptr → Pc → Type 0
  PcOk x starting = Unit {0}
  PcOk x (finding g) = GoalOk g
  PcOk x (descending g level) = GoalOk g × (level ≤ max_head_height)
  PcOk x (row g level pred t) = GoalOk g × (level ≤ max_head_height) × RowOk level pred × IsAround t
  PcOk x (walking g level pred curr t) =
      GoalOk g
      × (level < max_head_height)
      × IsBefore level pred
      × ((curr ≡ null) ⊎ Has curr (lists level))
      × IsAround t
  PcOk x (placing t) = IsAround t
  PcOk x (storing height level t) = (level < height) × IsAround t
  PcOk x (exchanging height level t) =
      (level < height)
      × IsAround t
      × ((t.successors level ≡ null) ⊎ (load_next h x level ≡ ok (t.successors level)))
  PcOk x (done height) = Unit {0}

-- The node of an insertion, linked on `linked` of its levels. The slots above point behind the key.
pub record Own (c : Comparator) (head : Ptr) (task : Task) (h : Heap) (lists : ℕ → List Ptr)
    (x : Ptr) (linked height : ℕ) : Type 0 where
  pub not_null : x ≢ null
  pub not_head : x ≢ head
  pub key_there : key_of h x ≡ task.key
  pub value_there : value_of h x ≡ task.value
  pub low : 1 ≤ height
  pub high : height ≤ max_head_height
  pub slots :
      (j : ℕ)
      → linked ≤ j
      → j < height
      → (q : Ptr) × (load_next h x j ≡ ok q) × IsBehind c head task.key h lists j q

-- The insertion `task` by the node `x`, where it is at `pc`.
pub record Thread (c : Comparator) (head : Ptr) (task : Task) (h : Heap) (lists : ℕ → List Ptr)
    (x : Ptr) (pc : Pc) : Type 0 where
  pub within : (j : ℕ) → j < levels_linked pc → Has x (lists j)
  pub without : (j : ℕ) → levels_linked pc ≤ j → Has x (lists j) → ⊥
  pub own :
      (height : ℕ)
      → height_of pc ≡ some height
      → Own c head task h lists x (levels_linked pc) height
  pub knows : PcOk c head task.key h lists x pc

-- The system with the nodes `lists j` on each level.
pub record Holds (c : Comparator) (Valid : Bytes → Type 0) (tasks : Ptr → Task) (head : Ptr)
    (s : System) (lists : ℕ → List Ptr) : Type 0 where
  pub root : s.list.head ≡ head
  pub top : s.list.max_level ≤ max_head_height
  pub levels : Levels c Valid head s.list.heap lists
  pub tall : (x : Ptr) (height : ℕ) → height_of (s.pcs x) ≡ some height → height ≤ s.list.max_level
  pub threads : (x : Ptr) → Thread c head (tasks x) s.list.heap lists x (s.pcs x)
