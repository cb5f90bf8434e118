-- ===== src/SkipList/Concurrent/Finishing.antt =====
-- An insertion that nothing comes between (crates/engine/src/memtable/skip_list.rs) ends, wherever
-- it is and whatever the others have left undone.
use victory_db.Base.{
  ℕ, zero, suc, ◌+◌, ◌≤◌, ◌≡◌, ◌≢◌, refl, sym, ap, subst, ◌∙◌, inl, inr, none, Bool, Bytes, arith,
  ltb, Bool-cases, if◌then◌else◌,
}
use victory_db.Base.Run.{ok, bind-ok}
use victory_db.Key.Comparator.{Comparator, IsLawful}
use victory_db.SkipList.Node.{Ptr, null, Heap, alloc_node}
use victory_db.SkipList.Search.{SkipList, TraversalCtx}
use victory_db.SkipList.Insert.{next_height}
use victory_db.SkipList.Concurrent.{
  Task, Goal, before, linking, Pc, starting, finding, descending, row, walking, placing, storing,
  exchanging, done, found, advance, insert_step, place_step,
}
use victory_db.SkipList.Concurrent.Invariant.{height_of, goal_height}
use victory_db.SkipList.Concurrent.Reached.{Fits}
use victory_db.SkipList.Concurrent.Alone.{Alone, rest, more, Alone-trans}
use victory_db.SkipList.Concurrent.Rounds.{
  Sound, access-Next, Sound-step, Sound-Alone, exchange_level, level_linked,
}
use victory_db.SkipList.Concurrent.Landing.{
  search-finds, row-Lands, descending-Lands, walking-Lands,
}

module _ (c : Comparator) (Valid : Bytes → Type 0) (law : IsLawful c Valid) (tasks : Ptr → Task)
    (fits : (x : Ptr) → Fits Valid (tasks x)) (head : Ptr) (x : Ptr) (not_null : x ≢ null) where
  abbrev At : SkipList → Pc → Type 0
  At s pc = Sound c Valid head (tasks x) x s pc

  abbrev Runs : SkipList → Pc → SkipList → Pc → Type 0
  Runs s pc t at = Alone c x (tasks x) s pc t at

  abbrev with_heap : SkipList → Heap → SkipList
  with_heap s h = record s { heap = h }

  abbrev LevelDone : SkipList → Pc → ℕ → ℕ → Type 0
  LevelDone s pc height k = (u : SkipList) × (t : TraversalCtx) × Runs s pc u (advance height k t)

  abbrev pub Finishes : SkipList → Pc → Type 0
  Finishes s pc = (u : SkipList) × (height : ℕ) × Runs s pc u (done height)

  continue : (s t : SkipList) (pc at : Pc) → Runs s pc t at → Finishes t at → Finishes s pc
  continue s t pc at steps (u, height, ends) =
      (u, height, Alone-trans c x (tasks x) s t u pc at (done height) steps ends)

  -- A level that is done is followed by the next, or was the last.
  after_level :
      (s : SkipList) (pc : Pc) (height k : ℕ)
      → At s pc
      → LevelDone s pc height k
      → ((u : SkipList) (t : TraversalCtx)
          → At u (storing height (k + 1) t)
          → Finishes u (storing height (k + 1) t))
      → Finishes s pc
  after_level s pc height k is (u, t, steps) next = elim (Bool-cases (ltb (k + 1) height)) [
    | inl further ↦
        let to_next : Runs s pc u (storing height (k + 1) t) =
          subst (λ (at : Pc). Runs s pc u at)
            (ap (λ (b : Bool). if b then storing height (k + 1) t else done height) further)
            steps in
        continue s u pc (storing height (k + 1) t) to_next (
          next u t (
            Sound-Alone c Valid law tasks fits head x not_null s u pc (storing height (k + 1) t) is
              to_next))
    | inr all ↦ (
      u,
      height,
      subst (λ (at : Pc). Runs s pc u at)
          (ap (λ (b : Bool). if b then storing height (k + 1) t else done height) all) steps,
    )
  ]

  links_all :
      (left : ℕ) (s : SkipList) (height k : ℕ) (t : TraversalCtx)
      → height ≤ k + left
      → At s (storing height k t)
      → Finishes s (storing height k t)
  links_all zero s height k t enough is = let low = is.thread.knows.0 in absurd (omega arith)
  links_all (suc left) s height k t enough is =
      after_level s (storing height k t) height k is
        (level_linked c Valid law tasks fits head x not_null s height k t is)
        (λ u t' is'. links_all left u height (k + 1) t' (omega arith) is')

  storing-Finishes :
      (s : SkipList) (height k : ℕ) (t : TraversalCtx)
      → At s (storing height k t)
      → Finishes s (storing height k t)
  storing-Finishes s height k t is = links_all height s height k t (omega arith) is

  placing-Finishes :
      (s : SkipList) (t : TraversalCtx)
      → At s (placing t)
      → s.heap x ≡ none
      → Finishes s (placing t)
  unfolding insert_step place_step
  placing-Finishes s t is free =
      let next = access-Next c Valid law tasks fits head x not_null s (placing t) is (inr free) in
      let height = (next_height s).0 in
      let s' = (next_height s).1 in
      let (h, made, e) =
        bind-ok (alloc_node s'.heap x height (tasks x).key (tasks x).value)
          (λ (h : Heap). ok (with_heap s' h, storing height 0 t)) (next.list, next.at) next.runs in
      let runs : insert_step c x (tasks x) s (placing t) ≡ ok (with_heap s' h, storing height 0 t) =
        rw made refl in
      let stored =
        Sound-step c Valid law tasks fits head x not_null s (with_heap s' h) (placing t)
          (storing height 0 t) is (inr free) runs in
      continue s (with_heap s' h) (placing t) (storing height 0 t) (more (inr free) runs rest)
        (storing-Finishes (with_heap s' h) height 0 t stored)

  found-Finishes :
      (s : SkipList) (g : Goal) (t : TraversalCtx)
      → At s (found g t)
      → (goal_height g ≡ none → s.heap x ≡ none)
      → Finishes s (found g t)
  found-Finishes s before t is free = placing-Finishes s t is (free refl)
  found-Finishes s (linking height k) t is free = storing-Finishes s height k t is

  -- A search that lands is followed by the rest.
  lands-Finishes :
      (s : SkipList) (pc : Pc) (g : Goal)
      → At s pc
      → (goal_height g ≡ none → s.heap x ≡ none)
      → (t : TraversalCtx) × Runs s pc s (found g t)
      → Finishes s pc
  lands-Finishes s pc g is free (t, steps) = continue s s pc (found g t) steps (
      found-Finishes s g t
        (Sound-Alone c Valid law tasks fits head x not_null s s pc (found g t) is steps) free)

  finding-Finishes :
      (s : SkipList) (g : Goal)
      → At s (finding g)
      → (goal_height g ≡ none → s.heap x ≡ none)
      → Finishes s (finding g)
  finding-Finishes s g is free =
      let (t, steps, near) =
        search-finds c Valid law head (tasks x) (fits x).valid x s is.lists is.root is.top is.levels
          g in
      lands-Finishes s (finding g) g is free (t, steps)

  starting-Finishes : (s : SkipList) → At s starting → s.heap x ≡ none → Finishes s starting
  unfolding insert_step place_step
  starting-Finishes s is free = elim (Bool-cases (tasks x).with_closure) [
    | inr searches ↦
        let runs : insert_step c x (tasks x) s starting ≡ ok (s, finding before) =
          rw searches refl in
        continue s s starting (finding before) (more (inr free) runs rest) (
          finding-Finishes s before
            (Sound-step c Valid law tasks fits head x not_null s s starting (finding before) is
              (inr free) runs)
            (λ e. free))
    | inl makes ↦
        let next = access-Next c Valid law tasks fits head x not_null s starting is (inr free) in
        let height = (next_height s).0 in
        let s' = (next_height s).1 in
        let (h, made, e) =
          bind-ok (alloc_node s'.heap x height (tasks x).key (tasks x).value)
            (λ (h : Heap). ok (with_heap s' h, finding (linking height 0))) (next.list, next.at)
            (sym (rw makes refl) ∙ next.runs) in
        let runs : insert_step c x (tasks x) s starting
            ≡ ok (with_heap s' h, finding (linking height 0)) =
          rw (makes, made) refl in
        continue s (with_heap s' h) starting (finding (linking height 0))
          (more (inr free) runs rest)
          (finding-Finishes (with_heap s' h) (linking height 0)
            (Sound-step c Valid law tasks fits head x not_null s (with_heap s' h) starting
              (finding (linking height 0)) is (inr free) runs)
            (λ e. absurd (cc)))
  ]

  pub pc-Finishes :
      (s : SkipList) (pc : Pc) → At s pc → (height_of pc ≡ none → s.heap x ≡ none) → Finishes s pc
  pc-Finishes s starting is free = starting-Finishes s is (free refl)
  pc-Finishes s (finding g) is free = finding-Finishes s g is free
  pc-Finishes s (descending g level) is free = lands-Finishes s (descending g level) g is free (
      descending-Lands c Valid law head (tasks x) (fits x).valid x s is.lists is.root is.top
        is.levels g level is.thread.knows.1)
  pc-Finishes s (row g level pred t) is free = lands-Finishes s (row g level pred t) g is free (
      row-Lands c Valid law head (tasks x) (fits x).valid x s is.lists is.root is.top is.levels g
        level pred t is.thread.knows.1 is.thread.knows.2)
  pc-Finishes s (walking g level pred curr t) is free =
      let (goal, low, at, next, around) = is.thread.knows in
      lands-Finishes s (walking g level pred curr t) g is free (
        walking-Lands c Valid law head (tasks x) (fits x).valid x s is.lists is.root is.top
          is.levels g level low t pred curr at next)
  pc-Finishes s (placing t) is free = placing-Finishes s t is (free refl)
  pc-Finishes s (storing height k t) is free = storing-Finishes s height k t is
  pc-Finishes s (exchanging height k t) is free =
      after_level s (exchanging height k t) height k is
        (exchange_level c Valid law tasks fits head x not_null s height k t is)
        (λ u t' is'. storing-Finishes u height (k + 1) t' is')
  pc-Finishes s (done height) is free = (s, height, rest)
