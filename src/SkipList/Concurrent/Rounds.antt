-- ===== src/SkipList/Concurrent/Rounds.antt =====
-- One level of an insertion that nothing comes between (crates/engine/src/memtable/skip_list.rs):
-- the loop around an exchange makes at most two rounds.
use victory_db.Base.{
  ℕ, ◌≤◌, ◌≡◌, ◌≢◌, refl, sym, subst, ◌∙◌, ◌⊎◌, inl, inr, Option, none, some, false, List, Bytes,
  arith, ◌==◌, Bool-cases,
}
use victory_db.Base.Run.{ok, ok_inj, bind-ok}
use victory_db.Key.Comparator.{Comparator, IsLawful}
use victory_db.SkipList.Node.{Ptr, null, Heap, load_next, max_head_height}
use victory_db.SkipList.Search.{SkipList, TraversalCtx}
use victory_db.SkipList.Chain.{Has}
use victory_db.SkipList.Insert.{compare_exchange, link_successor}
use victory_db.SkipList.Insert.Stored.{store_next-Stored, compare_exchange-Stored}
use victory_db.SkipList.Concurrent.{
  Task, linking, Pc, finding, storing, exchanging, advance, insert_step, places,
}
use victory_db.SkipList.Concurrent.Invariant.{Levels, Thread, height_of}
use victory_db.SkipList.Concurrent.Reading.{Next}
use victory_db.SkipList.Concurrent.Reached.{Fits, pc-Next}
use victory_db.SkipList.Concurrent.Alone.{Alone, rest, more, Alone-trans}
use victory_db.SkipList.Concurrent.Landing.{search-finds}

-- A list on which an insertion of `task` by `x` is at `pc`.
pub record Sound (c : Comparator) (Valid : Bytes → Type 0) (head : Ptr) (task : Task) (x : Ptr)
    (s : SkipList) (pc : Pc) : Type 0 where
  pub lists : ℕ → List Ptr
  pub root : s.head ≡ head
  pub top : s.max_level ≤ max_head_height
  pub levels : Levels c Valid head s.heap lists
  pub thread : Thread c head task s.heap lists x pc
  pub tall : (height : ℕ) → height_of pc ≡ some height → height ≤ s.max_level

module _ (c : Comparator) (Valid : Bytes → Type 0) (law : IsLawful c Valid) (tasks : Ptr → Task)
    (fits : (x : Ptr) → Fits Valid (tasks x)) (head : Ptr) (x : Ptr) (not_null : x ≢ null) where
  abbrev At : SkipList → Pc → Type 0
  At s pc = Sound c Valid head (tasks x) x s pc

  abbrev Guard : SkipList → Pc → Type 0
  Guard s pc = (places (tasks x) pc ≡ false) ⊎ (s.heap x ≡ none)

  abbrev Runs : SkipList → Pc → SkipList → Pc → Type 0
  Runs s pc t at = Alone c x (tasks x) s pc t at

  pub access-Next :
      (s : SkipList) (pc : Pc) (is : At s pc)
      → Guard s pc
      → Next c Valid head (tasks x) x s is.lists pc
  access-Next s pc is guard =
      pc-Next c Valid law tasks fits head s is.lists is.root is.top is.levels x pc is.thread
        not_null guard

  Next-Sound :
      (s : SkipList) (pc : Pc) (is : At s pc)
      → (next : Next c Valid head (tasks x) x s is.lists pc) → At next.list next.at
  Next-Sound s pc is next = record {
    lists = next.nodes;
    root = next.root;
    top = next.top;
    levels = next.levels;
    thread = next.thread;
    tall = λ height e.
        let grown = next.grown in
        elim (next.tall height e) [
          | inl old ↦ let low = is.tall height old in omega arith
          | inr low ↦ low
        ];
  }

  pub Sound-step :
      (s t : SkipList) (pc at : Pc)
      → At s pc
      → Guard s pc
      → insert_step c x (tasks x) s pc ≡ ok (t, at)
      → At t at
  Sound-step s t pc at is guard e =
      let next = access-Next s pc is guard in
      subst (λ (y : SkipList × Pc). At y.0 y.1)
        (ok_inj (next.list, next.at) (t, at) (sym next.runs ∙ e)) (Next-Sound s pc is next)

  pub Sound-Alone : (s t : SkipList) (pc at : Pc) → At s pc → Runs s pc t at → At t at
  Sound-Alone s t pc at is rest = is
  Sound-Alone s t pc at is (more {t = b} {at = q} guard e steps) =
      Sound-Alone b t q at (Sound-step s b pc q is guard e) steps

  abbrev with_heap : SkipList → Heap → SkipList
  with_heap s h = record s { heap = h }

  -- The store leaves the slot of the predecessor.
  store :
      (s : SkipList) (height k : ℕ) (t : TraversalCtx)
      → At s (storing height k t)
      → (h : Heap) × (link_successor s.heap x k (t.successors k) ≡ ok h)
        × (load_next h (t.predecessors k) k ≡ load_next s.heap (t.predecessors k) k)
  unfolding link_successor
  store s height k t is = elim (Bool-cases (t.successors k == null)) [
    | inl end ↦ (s.heap, rw (end) refl, refl)
    | inr node ↦
        let own = is.thread.own height refl in
        let (low, around) = is.thread.knows in
        let (q, load, behind) = own.slots k (omega arith) low in
        let (h, eq, stored) = store_next-Stored s.heap x k q (t.successors k) load in
        (
          h,
          rw (node) eq,
          stored.other (t.predecessors k) k (
              inl (elim (around k).0 [
                | inl e ↦ λ same. own.not_head (sym same ∙ e)
                | inr (there, less) ↦ λ same.
                    is.thread.without k (omega arith)
                      (subst (λ (p : Ptr). Has p (is.lists k)) same there)
              ])),
        )
  ]

  abbrev LevelDone : SkipList → Pc → ℕ → ℕ → Type 0
  LevelDone s pc height k = (u : SkipList) × (t : TraversalCtx) × Runs s pc u (advance height k t)

  -- Between neighbours the first exchange succeeds.
  link_neighbours :
      (s : SkipList) (height k : ℕ) (t : TraversalCtx)
      → At s (storing height k t)
      → load_next s.heap (t.predecessors k) k ≡ ok (t.successors k)
      → LevelDone s (storing height k t) height k
  unfolding insert_step
  link_neighbours s height k t is near =
      let (h, eq, same) = store s height k t is in
      let (h', hits, stored) =
        compare_exchange-Stored h (t.predecessors k) k (t.successors k) x (same ∙ near) in
      let stores : insert_step c x (tasks x) s (storing height k t)
          ≡ ok (with_heap s h, exchanging height k t) =
        rw eq refl in
      let exchanges : insert_step c x (tasks x) (with_heap s h) (exchanging height k t)
          ≡ ok (with_heap s h', advance height k t) =
        rw hits refl in
      (with_heap s h', t, more (inl refl) stores (more (inl refl) exchanges rest))

  -- After an exchange that failed the search finds neighbours.
  after_exchange :
      (s : SkipList) (height k : ℕ) (t : TraversalCtx)
      → At s (exchanging height k t)
      → (r : Option Heap) → compare_exchange s.heap (t.predecessors k) k (t.successors k) x ≡ ok r
      → LevelDone s (exchanging height k t) height k
  unfolding insert_step
  after_exchange s height k t is (some h) e = (with_heap s h, t, more (inl refl) (rw e refl) rest)
  after_exchange s height k t is none e =
      let runs : insert_step c x (tasks x) s (exchanging height k t)
          ≡ ok (s, finding (linking height k)) =
        rw e refl in
      let again =
        Sound-step s s (exchanging height k t) (finding (linking height k)) is (inl refl) runs in
      let (t', finds, near) =
        search-finds c Valid law head (tasks x) (fits x).valid x s again.lists again.root again.top
          again.levels (linking height k) in
      let now = Sound-Alone s s (finding (linking height k)) (storing height k t') again finds in
      let low = now.tall height refl in
      let inside = now.thread.knows.0 in
      let (u, t2, links) = link_neighbours s height k t' now (near k (omega arith)) in
      (
        u,
        t2,
        more (inl refl) runs (
            Alone-trans c x (tasks x) s s u (finding (linking height k)) (storing height k t')
              (advance height k t2) finds links),
      )

  pub exchange_level :
      (s : SkipList) (height k : ℕ) (t : TraversalCtx)
      → At s (exchanging height k t)
      → LevelDone s (exchanging height k t) height k
  unfolding insert_step
  exchange_level s height k t is =
      let next = access-Next s (exchanging height k t) is (inl refl) in
      let (r, exchanged, e) =
        bind-ok (compare_exchange s.heap (t.predecessors k) k (t.successors k) x)
          (λ (r : Option Heap). elim r [
            | some h ↦ ok (with_heap s h, advance height k t)
            | none ↦ ok (s, finding (linking height k))
          ])
          (next.list, next.at) next.runs in
      after_exchange s height k t is r exchanged

  pub level_linked :
      (s : SkipList) (height k : ℕ) (t : TraversalCtx)
      → At s (storing height k t)
      → LevelDone s (storing height k t) height k
  unfolding insert_step
  level_linked s height k t is =
      let (h, eq, same) = store s height k t is in
      let runs : insert_step c x (tasks x) s (storing height k t)
          ≡ ok (with_heap s h, exchanging height k t) =
        rw eq refl in
      let stored =
        Sound-step s (with_heap s h) (storing height k t) (exchanging height k t) is (inl refl)
          runs in
      let (u, t', ends) = exchange_level (with_heap s h) height k t stored in
      (u, t', more (inl refl) runs ends)
