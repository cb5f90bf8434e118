-- ===== src/SkipList/Concurrent/Covering.antt =====
-- Every access of a search (crates/engine/src/memtable/skip_list.rs) keeps what it has covered.
use victory_db.Base.{
  ℕ, zero, suc, ◌≤◌, ◌<◌, ◌≡◌, refl, sym, ap, subst, ◌∙◌, inl, inr, Option, none, some, true, false,
  Bool, List, Bytes, arith, ◌==◌, Bool-cases, if◌then◌else◌,
}
use victory_db.Base.Run.{Run, ok, bind-ok, ◌>>=◌}
use victory_db.Key.Comparator.{Comparator, less, IsLawful}
use victory_db.SkipList.Node.{Ptr, null, Heap, load_next, max_head_height}
use victory_db.SkipList.Search.{SkipList, TraversalCtx, node_less, first_ctx}
use victory_db.SkipList.Chain.{Has, All-Has}
use victory_db.SkipList.Invariant.{key_of}
use victory_db.SkipList.Walk.{node_less-ok}
use victory_db.SkipList.Insert.{compare_exchange, link_successor}
use victory_db.SkipList.Concurrent.{
  Task, before, linking, Pc, starting, finding, descending, row, walking, placing, storing,
  exchanging, done, with_level, advance, insert_step,
}
use victory_db.SkipList.Concurrent.Invariant.{Levels, IsBefore, PcOk}
use victory_db.SkipList.Concurrent.Reading.{listed-Follows}
use victory_db.SkipList.Concurrent.Readers.{Covers, SeenOk, load-Covers}
use victory_db.SkipList.Concurrent.Unsearched.{
  leads, place-Seen, exchanged-Seen, lower-Seen, linking_on-Seen, at_linking_node, lower,
  linking_on,
}

module _ (c : Comparator) (Valid : Bytes → Type 0) (law : IsLawful c Valid) (head : Ptr)
    (task : Task) (key_valid : Valid task.key) (x : Ptr) (s : SkipList) (lists : ℕ → List Ptr)
    (root : s.head ≡ head) (some_level : 1 ≤ s.max_level)
    (levels : Levels c Valid head s.heap lists) (seen : List Ptr)
    (all : (n : Ptr) → Has n seen → Has n (lists 0)) where
  abbrev Seen : Pc → Type 0
  Seen pc = SeenOk c task.key seen s.heap lists pc

  covers :
      (p q : Ptr)
      → IsBefore c head task.key s.heap lists 0 p
      → load_next s.heap p 0 ≡ ok q
      → Covers c task.key seen s.heap lists q
  covers p q at load =
      load-Covers c Valid law head task key_valid x s lists root levels seen all p q at load

  first_level : (level : ℕ) → 1 ≤ level → Seen (descending before level)
  first_level zero l = absurd (omega arith)
  first_level (suc level) l = tt

  descending-Seen :
      (level : ℕ) (q : SkipList × Pc)
      → insert_step c x task s (descending before (suc level)) ≡ ok q
      → Seen q.1
  unfolding insert_step
  descending-Seen level q e =
      let (p, load, e1) =
        bind-ok (load_next s.heap s.head level)
          (λ (p : Ptr). ok (
            s,
            (if p == null
                then descending before level
                else row before (suc level) s.head (first_ctx c s.head)),
          ))
          q e in
      leads c task x s lists seen
        (
          s,
          (if p == null
              then descending before level
              else row before (suc level) s.head (first_ctx c s.head)),
        )
        q (below level p load) e1
    where
      bottom :
          (level : ℕ) (p : Ptr)
          → load_next s.heap s.head level ≡ ok p
          → p ≡ null
          → Seen (descending before level)
      bottom zero p load e = covers s.head null (inl root) (load ∙ ap ok e)
      bottom (suc level) p load e = tt

      below :
          (level : ℕ) (p : Ptr)
          → load_next s.heap s.head level ≡ ok p
          → Seen (
              if p == null
              then descending before level
              else row before (suc level) s.head (first_ctx c s.head))
      below level p load = elim (Bool-cases (p == null)) [
        | inr full ↦
            subst
              (λ (b : Bool). Seen (
                if b
                then descending before level
                else row before (suc level) s.head (first_ctx c s.head)))
              (sym full) tt
        | inl empty ↦
            subst
              (λ (b : Bool). Seen (
                if b
                then descending before level
                else row before (suc level) s.head (first_ctx c s.head)))
              (sym empty) (bottom level p load (ground (arith, empty)))
      ]

  -- What the walk does at a node, after the comparison.
  abbrev walk_on : ℕ → Ptr → Ptr → TraversalCtx → Bool → Run (SkipList × Pc)
  walk_on level pred curr t false = ok (s, row before level pred (with_level t level pred curr))
  walk_on level pred curr t true =
      load_next s.heap curr level >>= λ next. ok (s, walking before level curr next t)

  -- The level ends: what it covered is the successor there.
  ended-Seen :
      (level : ℕ) (pred curr : Ptr) (t : TraversalCtx)
      → Seen (walking before level pred curr t)
      → Seen (row before level pred (with_level t level pred curr))
  ended-Seen zero pred curr t k = k
  ended-Seen (suc level) pred curr t k = tt

  loaded-Seen :
      (level : ℕ) (curr next : Ptr) (t : TraversalCtx)
      → IsBefore c head task.key s.heap lists level curr
      → load_next s.heap curr level ≡ ok next
      → Seen (walking before level curr next t)
  loaded-Seen zero curr next t at load = covers curr next at load
  loaded-Seen (suc level) curr next t at load = tt

  at_node :
      (level : ℕ) (pred curr : Ptr) (t : TraversalCtx)
      → (curr == null) ≡ false
      → insert_step c x task s (walking before level pred curr t)
        ≡ (node_less c s.heap curr task.key >>= walk_on level pred curr t)
  unfolding insert_step
  at_node level pred curr t node = rw (node) refl

  node-Seen :
      (level : ℕ) (pred curr : Ptr) (t : TraversalCtx) (q : SkipList × Pc)
      → level < max_head_height
      → Has curr (lists level)
      → Seen (walking before level pred curr t)
      → (node_less c s.heap curr task.key >>= walk_on level pred curr t) ≡ ok q
      → Seen q.1
  node-Seen level pred curr t q low there k e =
      let (next, load, follows) =
        listed-Follows c Valid head s.heap lists levels level curr low there in
      let test =
        node_less-ok c Valid law task.key key_valid s.heap level curr next load
          (All-Has (λ p. Valid (key_of s.heap p)) (lists level) (levels.valid level) curr there) in
      let e1 : walk_on level pred curr t (less c (key_of s.heap curr) task.key) ≡ ok q =
        sym (ap (λ (r : Run Bool). r >>= walk_on level pred curr t) test) ∙ e in
      elim (Bool-cases (less c (key_of s.heap curr) task.key)) [
        | inr larger ↦
            leads c task x s lists seen (s, row before level pred (with_level t level pred curr)) q
              (ended-Seen level pred curr t k) (sym (ap (walk_on level pred curr t) larger) ∙ e1)
        | inl smaller ↦
            leads c task x s lists seen (s, walking before level curr next t) q
              (loaded-Seen level curr next t (inr (there, smaller)) load)
              (sym (ap (λ (r : Run Ptr). r >>= λ n. ok (s, walking before level curr n t)) load)
                ∙ sym (ap (walk_on level pred curr t) smaller)
                ∙ e1)
      ]

  walking-Seen :
      (level : ℕ) (pred curr : Ptr) (t : TraversalCtx) (q : SkipList × Pc)
      → PcOk c head task.key s.heap lists x (walking before level pred curr t)
      → Seen (walking before level pred curr t)
      → insert_step c x task s (walking before level pred curr t) ≡ ok q
      → Seen q.1
  unfolding insert_step
  walking-Seen level pred curr t q knows k e = elim (Bool-cases (curr == null)) [
    | inl end ↦
        leads c task x s lists seen (s, row before level pred (with_level t level pred curr)) q
          (ended-Seen level pred curr t k) (sym (rw (end) refl) ∙ e)
    | inr node ↦
        node-Seen level pred curr t q knows.1
          (elim knows.3 [ inl gone ↦ absurd (ground (arith, node, gone)) | inr there ↦ there ]) k
          (sym (at_node level pred curr t node) ∙ e)
  ]

  row-Seen :
      (level : ℕ) (pred : Ptr) (t : TraversalCtx) (q : SkipList × Pc)
      → PcOk c head task.key s.heap lists x (row before (suc level) pred t)
      → insert_step c x task s (row before (suc level) pred t) ≡ ok q
      → Seen q.1
  unfolding insert_step
  row-Seen level pred t q knows e =
      let (curr, load, e1) =
        bind-ok (load_next s.heap pred level)
          (λ (curr : Ptr). ok (s, walking before level pred curr t)) q e in
      leads c task x s lists seen (s, walking before level pred curr t) q
        (loaded-Seen level pred curr t knows.2 load) e1

  -- An access of the insertion, wherever it is.
  pub insert_step-Seen :
      (pc : Pc) (q : SkipList × Pc)
      → PcOk c head task.key s.heap lists x pc
      → Seen pc
      → insert_step c x task s pc ≡ ok q
      → Seen q.1
  unfolding insert_step
  insert_step-Seen starting q knows k e = elim (Bool-cases task.with_closure) [
    | inl makes ↦
        place-Seen c task x s lists seen (λ height. finding (linking height 0)) q (λ height. tt)
          (sym (rw makes refl) ∙ e)
    | inr searches ↦
        leads c task x s lists seen (s, finding before) q tt (sym (rw searches refl) ∙ e)
  ]
  insert_step-Seen (finding before) q knows k e =
      leads c task x s lists seen (s, descending before s.max_level) q
        (first_level s.max_level some_level) e
  insert_step-Seen (finding (linking height l)) q knows k e =
      leads c task x s lists seen (s, descending (linking height l) s.max_level) q tt e
  insert_step-Seen (descending before zero) q knows k e =
      leads c task x s lists seen (s, row before 0 s.head (first_ctx c s.head)) q k e
  insert_step-Seen (descending before (suc level)) q knows k e = descending-Seen level q e
  insert_step-Seen (row before zero pred t) q knows k e =
      leads c task x s lists seen (s, placing t) q k e
  insert_step-Seen (row before (suc level) pred t) q knows k e = row-Seen level pred t q knows e
  insert_step-Seen (walking before level pred curr t) q knows k e =
      walking-Seen level pred curr t q knows k e
  insert_step-Seen (placing t) q knows k e =
      place-Seen c task x s lists seen (λ height. storing height 0 t) q (λ height. tt) e
  insert_step-Seen (storing height l t) q knows k e =
      let (h, linked, e1) =
        bind-ok (link_successor s.heap x l (t.successors l))
          (λ (h : Heap). ok (record s { heap = h }, exchanging height l t)) q e in
      leads c task x s lists seen (record s { heap = h }, exchanging height l t) q tt e1
  insert_step-Seen (exchanging height l t) q knows k e =
      let (r, exchanged, e1) =
        bind-ok (compare_exchange s.heap (t.predecessors l) l (t.successors l) x)
          (λ (r : Option Heap). elim r [
            | some h ↦ ok (record s { heap = h }, advance height l t)
            | none ↦ ok (s, finding (linking height l))
          ])
          q e in
      exchanged-Seen c task x s lists seen height l t q r e1
  insert_step-Seen (done height) q knows k e = leads c task x s lists seen (s, done height) q tt e
  insert_step-Seen (descending (linking height l) zero) q knows k e =
      leads c task x s lists seen (s, row (linking height l) 0 s.head (first_ctx c s.head)) q tt e
  insert_step-Seen (descending (linking height l) (suc level)) q knows k e =
      let (p, load, e1) =
        bind-ok (load_next s.heap s.head level)
          (λ (p : Ptr). ok (s, lower c task x s lists seen height l level (p == null))) q e in
      leads c task x s lists seen (s, lower c task x s lists seen height l level (p == null)) q
        (lower-Seen c task x s lists seen height l level (p == null)) e1
  insert_step-Seen (row (linking height l) zero pred t) q knows k e =
      leads c task x s lists seen (s, storing height l t) q tt e
  insert_step-Seen (row (linking height l) (suc level) pred t) q knows k e =
      let (curr, load, e1) =
        bind-ok (load_next s.heap pred level)
          (λ (curr : Ptr). ok (s, walking (linking height l) level pred curr t)) q e in
      leads c task x s lists seen (s, walking (linking height l) level pred curr t) q tt e1
  insert_step-Seen (walking (linking height l) level pred curr t) q knows k e =
      elim (Bool-cases (curr == null)) [
        | inl end ↦
            leads c task x s lists seen
              (s, row (linking height l) level pred (with_level t level pred curr)) q tt
              (sym (rw (end) refl) ∙ e)
        | inr node ↦
            let (b, test, e1) =
              bind-ok (node_less c s.heap curr task.key)
                (linking_on c task x s lists seen height l level pred curr t) q
                (sym (at_linking_node c task x s lists seen height l level pred curr t node) ∙ e) in
            linking_on-Seen c task x s lists seen height l level pred curr t b q e1
      ]
