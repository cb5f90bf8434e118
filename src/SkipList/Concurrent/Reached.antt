-- ===== src/SkipList/Concurrent/Reached.antt =====
-- Insertions of many threads (crates/engine/src/memtable/skip_list.rs), from a new list on: no access
-- goes wrong, and every access keeps the list.
use victory_db.Base.{
  ℕ, ◌^◌, ◌≤◌, ◌<◌, ◌≡◌, ◌≢◌, refl, sym, ap, subst, ◌∙◌, ◌⊎◌, inl, inr, none, false, List, [],
  Bytes, length, arith, Bool-cases,
}
use native.Mathlib.Decide.{ℕ_discrete}
use victory_db.Key.Comparator.{Comparator, IsLawful}
use victory_db.SkipList.Node.{Ptr, null, deref, load_next, max_head_height}
use victory_db.SkipList.Search.{SkipList, new}
use victory_db.SkipList.Concurrent.{
  Task, Pc, starting, finding, descending, row, walking, placing, storing, exchanging, done, before,
  insert_step, places, update_pc, System, start,
}
use victory_db.SkipList.Concurrent.Invariant.{Levels, Thread, Holds, height_of}
use victory_db.SkipList.Concurrent.Evolve.{Thread-Moves}
use victory_db.SkipList.Concurrent.Reading.{Next}
use victory_db.SkipList.Concurrent.Searching.{
  quiet, finding-Next, descending-Next, row-Next, walking-Next,
}
use victory_db.SkipList.Concurrent.Placing.{starting-Next, placing-Next}
use victory_db.SkipList.Concurrent.Storing.{storing-Next}
use victory_db.SkipList.Concurrent.Exchanging.{exchanging-Next}

-- What may be inserted: a valid key, and lengths that the node's fields hold.
pub record Fits (Valid : Bytes → Type 0) (task : Task) : Type 0 where
  pub valid : Valid task.key
  pub short : length task.key < 2 ^ 16
  pub small : length task.value < 2 ^ 32

module _ (pcs : Ptr → Pc) (x : Ptr) (pc : Pc) where
  pub pc_here : update_pc pcs x pc x ≡ pc
  pc_here = ground arith

  pub pc_other : (y : Ptr) → y ≢ x → update_pc pcs x pc y ≡ pcs y
  pc_other y d = ground arith

module _ (c : Comparator) (Valid : Bytes → Type 0) (law : IsLawful c Valid) (tasks : Ptr → Task)
    (fits : (x : Ptr) → Fits Valid (tasks x)) (head : Ptr) where
  module _ (s : SkipList) (lists : ℕ → List Ptr) (root : s.head ≡ head)
      (top : s.max_level ≤ max_head_height) (levels : Levels c Valid head s.heap lists) where
    -- The next access of an insertion returns, and keeps what holds.
    pub pc-Next :
        (x : Ptr) (pc : Pc)
        → Thread c head (tasks x) s.heap lists x pc
        → x ≢ null
        → (places (tasks x) pc ≡ false) ⊎ (s.heap x ≡ none)
        → Next c Valid head (tasks x) x s lists pc
    unfolding insert_step
    pc-Next x starting at ne fresh = elim (Bool-cases (tasks x).with_closure) [
      | inl first_node ↦
          starting-Next c Valid head (tasks x) (fits x).short (fits x).small x ne s lists root top
            levels (elim fresh [ inl not_now ↦ absurd (cc) | inr free ↦ free ]) at first_node
      | inr first_search ↦
          quiet c Valid law head (tasks x) (fits x).valid x s lists root top levels starting
            (finding before) at (rw first_search refl) refl refl tt
    ]
    pc-Next x (finding g) at ne fresh =
        finding-Next c Valid law head (tasks x) (fits x).valid x s lists root top levels g at
    pc-Next x (descending g level) at ne fresh =
        descending-Next c Valid law head (tasks x) (fits x).valid x s lists root top levels g level
          at
    pc-Next x (row g level pred t) at ne fresh =
        row-Next c Valid law head (tasks x) (fits x).valid x s lists root top levels g level pred t
          at
    pc-Next x (walking g level pred curr t) at ne fresh =
        walking-Next c Valid law head (tasks x) (fits x).valid x s lists root top levels g level
          pred curr t at
    pc-Next x (placing t) at ne fresh =
        placing-Next c Valid head (tasks x) (fits x).short (fits x).small x ne s lists root top
          levels (elim fresh [ inl not_now ↦ absurd (cc) | inr free ↦ free ]) t at
    pc-Next x (storing height level t) at ne fresh =
        storing-Next c Valid law head (tasks x) (fits x).valid x s lists root top levels height
          level t at
    pc-Next x (exchanging height level t) at ne fresh =
        exchanging-Next c Valid law head (tasks x) (fits x).valid x s lists root top levels height
          level t at
    pc-Next x (done height) at ne fresh =
        quiet c Valid law head (tasks x) (fits x).valid x s lists root top levels (done height)
          (done height) at refl refl refl tt

  pub Next-Holds :
      (s : System) (lists : ℕ → List Ptr) (x : Ptr)
      → Holds c Valid tasks head s lists
      → (next : Next c Valid head (tasks x) x s.list lists (s.pcs x))
      → Holds c Valid tasks head
          (record { list = next.list; pcs = update_pc s.pcs x next.at })
          next.nodes
  Next-Holds s lists x is next = record {
    root = next.root;
    top = next.top;
    levels = next.levels;
    tall = λ y height e.
        let more = next.grown in
        elim (ℕ_discrete y x) [
          | yes here ↦
              elim (next.tall height (
                sym (ap height_of (ap (update_pc s.pcs x next.at) here ∙ pc_here s.pcs x next.at))
                ∙ e)) [
                  | inl old ↦ let low = is.tall x height old in omega arith
                  | inr new_height ↦ new_height
                ]
          | no d ↦
              let low = is.tall y height (sym (ap height_of (pc_other s.pcs x next.at y d)) ∙ e) in
              omega arith
        ];
    threads = λ y. elim (ℕ_discrete y x) [
      | yes e ↦
          subst
            (λ (z : Ptr).
              Thread c head (tasks z) next.list.heap next.nodes z (update_pc s.pcs x next.at z))
            (sym e)
            (subst (Thread c head (tasks x) next.list.heap next.nodes x)
              (sym (pc_here s.pcs x next.at)) next.thread)
      | no d ↦
          subst (Thread c head (tasks y) next.list.heap next.nodes y)
            (sym (pc_other s.pcs x next.at y d))
            (Thread-Moves c head (tasks y) s.list.heap next.list.heap lists next.nodes x y (s.pcs y)
              next.moves d (is.threads y))
    ];
  }

  pub start-Holds : head ≢ null → Holds c Valid tasks head (start (new head)) (λ j. [])
  unfolding new load_next deref
  start-Holds ne = record {
    root = refl;
    top = omega arith;
    levels = record {
      chains = λ j low. ground arith;
      sorted = λ j. tt;
      valid = λ j. tt;
      nested = λ j p there. absurd there;
    };
    tall = λ x height e. absurd (cc);
    threads = λ x. record {
      within = λ j l. absurd (omega (arith, l));
      without = λ j l there. there;
      own = λ height e. absurd (cc);
      knows = tt;
    };
  }
