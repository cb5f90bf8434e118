-- ===== src/SkipList/Concurrent/Searching.antt =====
-- The search of an insertion (crates/engine/src/memtable/skip_list.rs) between the stores of others.
use victory_db.Base.{
  ℕ, zero, suc, ◌≤◌, ◌≡◌, refl, sym, ap, subst, ◌∙◌, inl, inr, false, List, Bytes, arith, ltb, ◌==◌,
  Bool-cases,
}
use victory_db.Base.Run.{ok}
use victory_db.Key.Comparator.{Comparator, less, IsLawful}
use victory_db.SkipList.Node.{Ptr, null, max_head_height}
use victory_db.SkipList.Search.{SkipList, TraversalCtx, first_ctx}
use victory_db.SkipList.Chain.{Has, All-Has}
use victory_db.SkipList.Invariant.{key_of}
use victory_db.SkipList.Walk.{node_less-ok}
use victory_db.SkipList.Concurrent.{
  Task, Goal, before, linking, Pc, finding, descending, row, walking, placing, storing, with_level,
  insert_step,
}
use victory_db.SkipList.Concurrent.Invariant.{
  levels_linked, height_of, Levels, IsBehind, IsAround, RowOk, PcOk, Own, Thread,
}
use victory_db.SkipList.Concurrent.Evolve.{Moves-refl}
use victory_db.SkipList.Concurrent.Reading.{
  Next, listed-Follows, IsBefore-Follows, RowOk-below, with_level-IsAround,
}

module _ (c : Comparator) (Valid : Bytes → Type 0) (law : IsLawful c Valid) (head : Ptr)
    (task : Task) (key_valid : Valid task.key) (x : Ptr) (s : SkipList) (lists : ℕ → List Ptr)
    (root : s.head ≡ head) (top : s.max_level ≤ max_head_height)
    (levels : Levels c Valid head s.heap lists) where
  abbrev At : Pc → Type 0
  At pc = Thread c head task s.heap lists x pc

  abbrev Goes : Pc → Type 0
  Goes pc = Next c Valid head task x s lists pc

  -- A step that writes nothing leads to what is true already.
  pub quiet :
      (pc pc' : Pc)
      → At pc
      → insert_step c x task s pc ≡ ok (s, pc')
      → levels_linked pc' ≡ levels_linked pc
      → height_of pc' ≡ height_of pc
      → PcOk c head task.key s.heap lists x pc'
      → Goes pc
  quiet pc pc' is runs same tall knows = record {
    list = s;
    at = pc';
    nodes = lists;
    runs = runs;
    root = root;
    top = top;
    levels = levels;
    moves = Moves-refl head x s.heap lists;
    thread = record {
      within = λ j l. is.within j (omega (arith, same));
      without = λ j l. is.without j (omega (arith, same));
      own = λ height e.
          subst (λ (n : ℕ). Own c head task s.heap lists x n height) (sym same)
            (is.own height (sym tall ∙ e));
      knows = knows;
    };
    grown = omega arith;
    tall = λ height e. inl (sym tall ∙ e);
    refines = inl (ap (λ (n : ℕ). ltb 0 n) same, refl);
  }

  first_ctx-IsAround : IsAround c head task.key s.heap lists (first_ctx c s.head)
  first_ctx-IsAround = λ j. (inl root, inl refl)

  head-RowOk : (level : ℕ) → RowOk c head task.key s.heap lists level s.head
  head-RowOk zero = tt
  head-RowOk (suc level) = inl root

  pub finding-Next : (g : Goal) → At (finding g) → Goes (finding g)
  unfolding insert_step
  finding-Next g is = quiet (finding g) (descending g s.max_level) is refl refl refl (is.knows, top)

  pub descending-Next : (g : Goal) (level : ℕ) → At (descending g level) → Goes (descending g level)
  unfolding insert_step
  descending-Next g zero is =
      quiet (descending g 0) (row g 0 s.head (first_ctx c s.head)) is refl refl refl
        (is.knows.0, omega arith, tt, first_ctx-IsAround)
  descending-Next g (suc level) is =
      let (goal, low) = is.knows in
      let (q, load, next) =
        IsBefore-Follows c Valid head s.heap lists levels task.key level s.head (omega (arith, low))
          (inl root) in
      elim (Bool-cases (q == null)) [
        | inl empty ↦
            quiet (descending g (suc level)) (descending g level) is (rw (load, empty) refl) refl
              refl (goal, omega (arith, low))
        | inr full ↦
            quiet (descending g (suc level)) (row g (suc level) s.head (first_ctx c s.head)) is
              (rw (load, full) refl) refl refl (goal, low, inl root, first_ctx-IsAround)
      ]

  pub row-Next :
      (g : Goal) (level : ℕ) (pred : Ptr) (t : TraversalCtx)
      → At (row g level pred t)
      → Goes (row g level pred t)
  unfolding insert_step
  row-Next before zero pred t is =
      quiet (row before 0 pred t) (placing t) is refl refl refl is.knows.3
  row-Next (linking height level) zero pred t is =
      quiet (row (linking height level) 0 pred t) (storing height level t) is refl refl refl
        (is.knows.0, is.knows.3)
  row-Next g (suc level) pred t is =
      let (goal, low, entry, around) = is.knows in
      let (q, load, next) =
        IsBefore-Follows c Valid head s.heap lists levels task.key level pred (omega (arith, low))
          entry in
      quiet (row g (suc level) pred t) (walking g level pred q t) is (rw load refl) refl refl
        (goal, omega (arith, low), entry, next, around)

  -- The level ends in front of `curr`.
  stop :
      (g : Goal) (level : ℕ) (pred curr : Ptr) (t : TraversalCtx)
      → At (walking g level pred curr t)
      → IsBehind c head task.key s.heap lists level curr
      → insert_step c x task s (walking g level pred curr t)
        ≡ ok (s, row g level pred (with_level t level pred curr))
      → Goes (walking g level pred curr t)
  stop g level pred curr t is behind runs =
      let (goal, low, at, next, around) = is.knows in
      quiet (walking g level pred curr t) (row g level pred (with_level t level pred curr)) is runs
        refl refl
        (
          goal,
          omega (arith, low),
          RowOk-below c Valid head s.heap lists levels task.key level pred at,
          with_level-IsAround c head task.key s.heap lists t level pred curr around at behind,
        )

  walking_node-Next :
      (g : Goal) (level : ℕ) (pred curr : Ptr) (t : TraversalCtx)
      → At (walking g level pred curr t)
      → (curr == null) ≡ false
      → Has curr (lists level)
      → Goes (walking g level pred curr t)
  unfolding insert_step
  walking_node-Next g level pred curr t is node there =
      let (goal, low, at, next, around) = is.knows in
      let (q, load, follows) =
        listed-Follows c Valid head s.heap lists levels level curr low there in
      let test =
        node_less-ok c Valid law task.key key_valid s.heap level curr q load
          (All-Has (λ p. Valid (key_of s.heap p)) (lists level) (levels.valid level) curr there) in
      elim (Bool-cases (less c (key_of s.heap curr) task.key)) [
        | inl smaller ↦
            quiet (walking g level pred curr t) (walking g level curr q t) is
              (rw (node, test, smaller, load) refl) refl refl
              (goal, low, inr (there, smaller), follows, around)
        | inr larger ↦
            stop g level pred curr t is (inr (there, larger)) (rw (node, test, larger) refl)
      ]

  pub walking-Next :
      (g : Goal) (level : ℕ) (pred curr : Ptr) (t : TraversalCtx)
      → At (walking g level pred curr t)
      → Goes (walking g level pred curr t)
  unfolding insert_step
  walking-Next g level pred curr t is = elim (Bool-cases (curr == null)) [
    | inl end ↦ stop g level pred curr t is (inl (ground (arith, end))) (rw (end) refl)
    | inr node ↦
        walking_node-Next g level pred curr t is node
          (elim is.knows.3 [ inl e ↦ absurd (ground (arith, node, e)) | inr there ↦ there ])
  ]
