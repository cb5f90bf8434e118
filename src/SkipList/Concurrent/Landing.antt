-- ===== src/SkipList/Concurrent/Landing.antt =====
-- The search of an insertion that nothing comes between (crates/engine/src/memtable/skip_list.rs)
-- ends, from wherever it is, and a new one finds neighbours on every level in use.
use victory_db.Base.{
  ℕ, zero, suc, ◌+◌, ◌≤◌, ◌<◌, ◌≡◌, ◌≢◌, refl, sym, subst, ◌∙◌, ◌⊎◌, inl, inr, true, false, List,
  [], ◌∷◌, Bytes, length, arith, ◌==◌, Bool-cases,
}
use victory_db.Base.Run.{ok, ok_inj}
use native.Mathlib.Decide.{dec_lt, ℕ_discrete}
use victory_db.Key.Comparator.{Comparator, less, IsLawful}
use victory_db.SkipList.Node.{Ptr, null, load_next, max_head_height}
use victory_db.SkipList.Search.{SkipList, TraversalCtx, search, first_ctx}
use victory_db.SkipList.Chain.{
  Chain, Has, load-first, Chain-after, last, Has-split, Has-append_right, All-Has,
}
use victory_db.SkipList.Invariant.{key_of, Cut}
use victory_db.SkipList.Walk.{start_level-ok, node_less-ok}
use victory_db.SkipList.Found
use victory_db.SkipList.Concurrent.{
  Task, Goal, Pc, finding, descending, row, walking, found, with_level, insert_step,
}
use victory_db.SkipList.Concurrent.Invariant.{Levels, IsBefore, RowOk}
use victory_db.SkipList.Concurrent.Reading.{listed-Follows, RowOk-below}
use victory_db.SkipList.Concurrent.Alone.{
  Alone, more, Alone-trans, search-Alone, search_levels-Alone, start_level-Alone,
}

total : (ℕ → List Ptr) → ℕ → ℕ
total lists zero = 0
total lists (suc n) = length (lists n) + total lists n

length-total : (lists : ℕ → List Ptr) (n j : ℕ) → j < n → length (lists j) ≤ total lists n
unfolding total
length-total lists zero j l = absurd (omega arith)
length-total lists (suc n) j l = elim (ℕ_discrete j n) [
  | yes e ↦
      subst (λ (i : ℕ). length (lists i) ≤ length (lists n) + total lists n) (sym e) (omega arith)
  | no d ↦ let below = length-total lists n j (omega arith) in omega arith
]

module _ (c : Comparator) (Valid : Bytes → Type 0) (law : IsLawful c Valid) (head : Ptr)
    (task : Task) (key_valid : Valid task.key) (x : Ptr) (s : SkipList) (lists : ℕ → List Ptr)
    (root : s.head ≡ head) (top : s.max_level ≤ max_head_height)
    (levels : Levels c Valid head s.heap lists) (g : Goal) where
  fuel : ℕ
  fuel = suc (total lists max_head_height)

  search_Levels : Found.Levels c Valid law task.key key_valid s.heap head lists fuel
  unfolding fuel
  search_Levels = record {
    chains = levels.chains;
    sorted = levels.sorted;
    nested = levels.nested;
    valid = levels.valid;
    sizes = λ j l. let small = length-total lists max_head_height j l in omega arith;
  }

  abbrev Lands : Pc → Type 0
  Lands pc = (t : TraversalCtx) × Alone c x task s pc s (found g t)

  pub row-Lands :
      (level : ℕ) (pred : Ptr) (t : TraversalCtx)
      → level ≤ max_head_height
      → RowOk c head task.key s.heap lists level pred
      → Lands (row g level pred t)
  row-Lands level pred t le at =
      let (t', eq, same, cuts, others) =
        Found.search_levels-ok c Valid law task.key key_valid s.heap head lists fuel search_Levels
          level pred t le
          (λ b e. subst (λ (l : ℕ). RowOk c head task.key s.heap lists l pred) e at) in
      (t', search_levels-Alone c x task s g fuel level pred t t' eq)

  pub descending-Lands : (level : ℕ) → level ≤ max_head_height → Lands (descending g level)
  descending-Lands level le =
      let (start, eq, below, none_there) = start_level-ok s.heap s.head lists level (λ j l.
        subst (λ (a : Ptr). Chain s.heap j a (lists j)) (sym root)
          (levels.chains j (omega arith))) in
      let (t, lands) =
        row-Lands start s.head (first_ctx c s.head) (omega arith) (head_RowOk start) in
      (
        t,
        Alone-trans c x task s s s (descending g level) (row g start s.head (first_ctx c s.head))
            (found g t) (start_level-Alone c x task s g level start eq) lands,
      )
    where
      head_RowOk : (l : ℕ) → RowOk c head task.key s.heap lists l s.head
      head_RowOk zero = tt
      head_RowOk (suc l) = inl root

  -- On every level in use the two nodes that a new search finds are neighbours.
  pub search-finds :
      (t : TraversalCtx) × Alone c x task s (finding g) s (found g t)
      × ((j : ℕ) → j < s.max_level → load_next s.heap (t.predecessors j) j ≡ ok (t.successors j))
  unfolding search
  search-finds =
      let (start, eq, below, none_there) = start_level-ok s.heap s.head lists s.max_level (λ j l.
        subst (λ (a : Ptr). Chain s.heap j a (lists j)) (sym root)
          (levels.chains j (omega arith))) in
      let (t, finds, same, cuts, others) =
        Found.search_levels-ok c Valid law task.key key_valid s.heap head lists fuel search_Levels
          start s.head (first_ctx c s.head) (omega arith) (λ b e. inl root) in
      (
        t,
        search-Alone c x task s g fuel t (rw eq finds),
        λ j l. elim (dec_lt j start) [
          | yes inside ↦
              neighbours j (t.predecessors j) (t.successors j) (omega arith) (cuts j inside)
          | no above ↦
              let (a, b) = others j (omega arith) in
              rw (a, b, root)
                (load-first s.heap j head [] (
                  subst (Chain s.heap j head) (none_there j (omega arith) l)
                    (levels.chains j (omega arith))))
        ],
      )
    where
      neighbours :
          (j : ℕ) (p q : Ptr)
          → j < max_head_height
          → Cut c s.heap task.key head (lists j) p q
          → load_next s.heap p j ≡ ok q
      neighbours j p q l cut =
          rw (cut.pred, cut.succ)
            (load-first s.heap j (last head cut.before) cut.after (
              Chain-after s.heap j head cut.before cut.after
                (subst (Chain s.heap j head) cut.whole (levels.chains j l))))

  module _ (level : ℕ) (low : level < max_head_height) (t : TraversalCtx) where
    abbrev WalkLands : Ptr → Ptr → Type 0
    WalkLands pred curr = Lands (walking g level pred curr t)

    -- The walk ends here.
    ends :
        (pred curr : Ptr)
        → IsBefore c head task.key s.heap lists level pred
        → insert_step c x task s (walking g level pred curr t)
          ≡ ok (s, row g level pred (with_level t level pred curr))
        → WalkLands pred curr
    ends pred curr at runs =
        let (t', lands) =
          row-Lands level pred (with_level t level pred curr) (omega arith)
            (RowOk-below c Valid head s.heap lists levels task.key level pred at) in
        (t', more (inl refl) runs lands)

    ends_null :
        (pred curr : Ptr)
        → IsBefore c head task.key s.heap lists level pred
        → curr ≡ null
        → WalkLands pred curr
    unfolding insert_step
    ends_null pred curr at e =
        let end : (curr == null) ≡ true = ground (arith, e) in ends pred curr at (rw (end) refl)

    -- At a node the walk ends, or goes on from it.
    node-Lands :
        (pred curr : Ptr)
        → IsBefore c head task.key s.heap lists level pred
        → curr ≢ null
        → Has curr (lists level)
        → ((next : Ptr)
            → load_next s.heap curr level ≡ ok next
            → IsBefore c head task.key s.heap lists level curr
            → WalkLands curr next)
        → WalkLands pred curr
    unfolding insert_step
    node-Lands pred curr at ne there continue =
        let (next, load, follows) =
          listed-Follows c Valid head s.heap lists levels level curr low there in
        let node : (curr == null) ≡ false = ground (arith, ne) in
        let test =
          node_less-ok c Valid law task.key key_valid s.heap level curr next load (
            All-Has (λ p. Valid (key_of s.heap p)) (lists level) (levels.valid level) curr there) in
        elim (Bool-cases (less c (key_of s.heap curr) task.key)) [
          | inl smaller ↦
              let (t', lands) = continue next load (inr (there, smaller)) in
              (t', more (inl refl) (rw (node, test, smaller, load) refl) lands)
          | inr larger ↦ ends pred curr at (rw (node, test, larger) refl)
        ]

    Chain-Lands :
        (pred : Ptr) (xs : List Ptr) (next : Ptr)
        → Chain s.heap level pred xs
        → ((p : Ptr) → Has p xs → Has p (lists level))
        → load_next s.heap pred level ≡ ok next
        → IsBefore c head task.key s.heap lists level pred
        → WalkLands pred next
    Chain-Lands pred [] next ch all load at =
        ends_null pred next at (ok_inj next null (sym load ∙ ch))
    Chain-Lands pred (y ∷ ys) next ch all load at =
        let same : next ≡ y = ok_inj next y (sym load ∙ ch.0) in
        node-Lands pred next at (λ e. ch.1 (sym same ∙ e))
          (subst (λ (p : Ptr). Has p (lists level)) (sym same) (all y (inl refl)))
          (λ further load' at'.
            Chain-Lands next ys further
              (subst (λ (p : Ptr). Chain s.heap level p ys) (sym same) ch.2)
              (λ p there. all p (inr there)) load' at')

    pub walking-Lands :
        (pred curr : Ptr)
        → IsBefore c head task.key s.heap lists level pred
        → (curr ≡ null) ⊎ Has curr (lists level)
        → WalkLands pred curr
    walking-Lands pred curr at next = elim (ℕ_discrete curr null) [
      | yes e ↦ ends_null pred curr at e
      | no ne ↦ elim next [
        | inl e ↦ absurd (ne e)
        | inr there ↦
            let (us, vs, split) = Has-split curr (lists level) there in
            let ch = subst (Chain s.heap level head) split (levels.chains level low) in
            node-Lands pred curr at ne there (λ further load at'.
              Chain-Lands curr vs further (Chain-after s.heap level head us (curr ∷ vs) ch).2
                (λ p inside.
                  subst (Has p) (sym split) (Has-append_right p us (curr ∷ vs) (inr inside)))
                load at')
      ]
    ]
