-- ===== src/SkipList/Concurrent/Searched.antt =====
-- What a search (crates/engine/src/memtable/skip_list.rs) returns when insertions interleave with it.
use victory_db.Base.{ℕ, ◌≤◌, ◌≡◌, ◌≢◌, sym, subst, ◌∙◌, List, [], Bytes, arith}
use victory_db.Base.Run.{ok_inj}
use native.Mathlib.Decide.{ℕ_discrete}
use victory_db.Key.Comparator.{Comparator, IsLawful}
use victory_db.SkipList.Node.{Ptr, null}
use victory_db.SkipList.Search.{SkipList, TraversalCtx, new}
use victory_db.SkipList.Chain.{Has}
use victory_db.SkipList.Concurrent.{
  Task, Pc, starting, placing, update_pc, System, Step, access, start, Reach, started, later,
}
use victory_db.SkipList.Concurrent.Invariant.{Holds, IsBehind, PcOk}
use victory_db.SkipList.Concurrent.Reached.{
  Fits, pc_here, pc_other, pc-Next, Next-Holds, start-Holds,
}
use victory_db.SkipList.Concurrent.Readers.{Covers, SeenOk, SeenOk-grows}
use victory_db.SkipList.Concurrent.Covering.{insert_step-Seen}
use victory_db.SkipList.Concurrent.Interleaved.{IsSharedList, Holds-IsSharedList}

-- A system in which the insertion of `x` has covered `seen`.
record Trail (c : Comparator) (Valid : Bytes → Type 0) (tasks : Ptr → Task) (head x : Ptr)
    (seen : List Ptr) (s : System) : Type 0 where
  lists : ℕ → List Ptr
  holds : Holds c Valid tasks head s lists
  some_level : 1 ≤ s.list.max_level
  all : (n : Ptr) → Has n seen → Has n (lists 0)
  covered : SeenOk c (tasks x).key seen s.list.heap lists (s.pcs x)

module _ (c : Comparator) (Valid : Bytes → Type 0) (law : IsLawful c Valid) (tasks : Ptr → Task)
    (fits : (x : Ptr) → Fits Valid (tasks x)) (head : Ptr) where
  Step-Trail :
      (x : Ptr) (seen : List Ptr) (s u : System)
      → Trail c Valid tasks head x seen s
      → Step c tasks s u
      → Trail c Valid tasks head x seen u
  Step-Trail x seen s u trail (access y list pc ne fresh e) =
      let is = trail.holds in
      let next =
        pc-Next c Valid law tasks fits head s.list trail.lists is.root is.top is.levels y (s.pcs y)
          (is.threads y) ne fresh in
      let same : ◌≡◌ {A = SkipList × Pc} (next.list, next.at) (list, pc) =
        ok_inj (next.list, next.at) (list, pc) (sym next.runs ∙ e) in
      let moves = next.moves in
      let at_next : SeenOk c (tasks x).key seen s.list.heap trail.lists
          (update_pc s.pcs y next.at x) =
        elim (ℕ_discrete x y) [
          | no d ↦
              subst (SeenOk c (tasks x).key seen s.list.heap trail.lists)
                (sym (pc_other s.pcs y next.at x d)) trail.covered
          | yes here ↦
              subst
                (λ (z : Ptr).
                  SeenOk c (tasks x).key seen s.list.heap trail.lists (update_pc s.pcs y next.at z))
                (sym here)
                (subst (SeenOk c (tasks x).key seen s.list.heap trail.lists)
                  (sym (pc_here s.pcs y next.at))
                  (subst (λ (z : Ptr). SeenOk c (tasks z).key seen s.list.heap trail.lists next.at)
                    (sym here)
                    (insert_step-Seen c Valid law head (tasks y) (fits y).valid y s.list trail.lists
                      is.root trail.some_level is.levels seen trail.all (s.pcs y)
                      (next.list, next.at) (is.threads y).knows
                      (subst
                        (λ (z : Ptr). SeenOk c (tasks z).key seen s.list.heap trail.lists (s.pcs z))
                        here trail.covered)
                      next.runs)))
        ] in
      subst
        (λ (r : SkipList × Pc).
          Trail c Valid tasks head x seen (record { list = r.0; pcs = update_pc s.pcs y r.1 }))
        same
        (record {
          lists = next.nodes;
          holds = Next-Holds c Valid law tasks fits head s trail.lists y is next;
          some_level = let low = trail.some_level in let grown = next.grown in omega arith;
          all = λ n there. moves.grows 0 n (trail.all n there);
          covered =
              SeenOk-grows c (tasks x).key seen s.list.heap next.list.heap trail.lists next.nodes
                trail.all moves.listed moves.grows (update_pc s.pcs y next.at x) at_next;
        })

  Reach-Trail :
      (x : Ptr) (seen : List Ptr) (s u : System)
      → Trail c Valid tasks head x seen s
      → Reach c tasks s u
      → Trail c Valid tasks head x seen u
  Reach-Trail x seen s u trail started = trail
  Reach-Trail x seen s u trail (later {t = b} r step) =
      Step-Trail x seen b u (Reach-Trail x seen s b trail r) step

  start-Trail : (x : Ptr) → head ≢ null → Trail c Valid tasks head x [] (start (new head))
  unfolding new
  start-Trail x ne = record {
    lists = λ j. [];
    holds = start-Holds c Valid law tasks fits head ne;
    some_level = omega arith;
    all = λ n there. absurd there;
    covered = tt;
  }

  -- Under a lawful comparator, for valid keys of less than 2^16 bytes and values of less than 2^32
  -- bytes, on a new list whose sentinel is not at the null address: a search by `insert` that
  -- begins at `s`, after any interleaving of the accesses of the insertions, and has ended at `u`,
  -- after any further one, returns at the base level a node that is not less than the key, or null
  -- where none was there, and misses nothing: where a node that was linked when the search began is
  -- not less than the key, the search returns a node of the list, which is not above that node.
  pub insert_step-Covers :
      (s u : System) (x : Ptr) (t : TraversalCtx)
      → head ≢ null
      → Reach c tasks (start (new head)) s
      → Reach c tasks s u
      → s.pcs x ≡ starting
      → u.pcs x ≡ placing t
      → (lists nodes : ℕ → List Ptr) × IsSharedList c tasks s lists
        × IsSharedList c tasks u nodes
        × IsBehind c head (tasks x).key u.list.heap nodes 0 (t.successors 0)
        × Covers c (tasks x).key (lists 0) u.list.heap nodes (t.successors 0)
  insert_step-Covers s u x t ne reach further begins ends =
      let first = Reach-Trail x [] (start (new head)) s (start-Trail x ne) reach in
      let trail =
        Reach-Trail x (first.lists 0) s u
          (record {
            lists = first.lists;
            holds = first.holds;
            some_level = first.some_level;
            all = λ n there. there;
            covered =
                subst (SeenOk c (tasks x).key (first.lists 0) s.list.heap first.lists) (sym begins)
                  tt;
          })
          further in
      let is = trail.holds in
      (
        first.lists,
        trail.lists,
        Holds-IsSharedList c Valid tasks head s first.lists first.holds,
        Holds-IsSharedList c Valid tasks head u trail.lists is,
        (subst (λ (pc : Pc). PcOk c head (tasks x).key u.list.heap trail.lists x pc) ends
            (is.threads x).knows 0).1,
        subst (SeenOk c (tasks x).key (first.lists 0) u.list.heap trail.lists) ends trail.covered,
      )
