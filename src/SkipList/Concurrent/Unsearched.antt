-- ===== src/SkipList/Concurrent/Unsearched.antt =====
-- The accesses of an insertion (crates/engine/src/memtable/skip_list.rs) that are none of its first
-- search: they have nothing to cover.
use victory_db.Base.{
  ℕ, suc, ◌≡◌, refl, sym, ap, subst, inl, inr, Option, none, some, true, false, Bool, List, ◌==◌,
  Bool-cases, if◌then◌else◌, ltb, ◌+◌,
}
use victory_db.Base.Run.{Run, ok, ok_inj, bind-ok, ◌>>=◌}
use victory_db.Key.Comparator.{Comparator}
use victory_db.SkipList.Node.{Ptr, null, Heap, load_next, alloc_node}
use victory_db.SkipList.Search.{SkipList, TraversalCtx, node_less, first_ctx}
use victory_db.SkipList.Insert.{next_height}
use victory_db.SkipList.Concurrent.{
  Task, linking, Pc, finding, descending, row, walking, storing, done, with_level, advance,
  insert_step, place_step,
}
use victory_db.SkipList.Concurrent.Readers.{SeenOk}

module _ (c : Comparator) (task : Task) (x : Ptr) (s : SkipList) (lists : ℕ → List Ptr)
    (seen : List Ptr) where
  abbrev Seen : Pc → Type 0
  Seen pc = SeenOk c task.key seen s.heap lists pc

  pub leads : (r q : SkipList × Pc) → Seen r.1 → ok r ≡ ok q → Seen q.1
  leads r q k e = subst (λ (z : SkipList × Pc). Seen z.1) (ok_inj r q e) k

  advance-Seen : (height k : ℕ) (t : TraversalCtx) → Seen (advance height k t)
  advance-Seen height k t = elim (Bool-cases (ltb (k + 1) height)) [
    | inl more ↦
        subst Seen
          (ap (λ (b : Bool). if b then storing height (k + 1) t else done height) (sym more)) tt
    | inr all_done ↦
        subst Seen
          (ap (λ (b : Bool). if b then storing height (k + 1) t else done height) (sym all_done)) tt
  ]

  pub place-Seen :
      (next : ℕ → Pc) (q : SkipList × Pc)
      → ((height : ℕ) → Seen (next height))
      → place_step c x task s next ≡ ok q
      → Seen q.1
  unfolding place_step
  place-Seen next q k e =
      let height = (next_height s).0 in
      let s' = (next_height s).1 in
      let (h, made, e1) =
        bind-ok (alloc_node s'.heap x height task.key task.value)
          (λ (h : Heap). ok (record s' { heap = h }, next height)) q e in
      leads (record s' { heap = h }, next height) q (k height) e1

  pub exchanged-Seen :
      (height k : ℕ) (t : TraversalCtx) (q : SkipList × Pc) (r : Option Heap)
      → elim r [
        | some h ↦ ok (record s { heap = h }, advance height k t)
        | none ↦ ok (s, finding (linking height k))
      ]
        ≡ ok q
      → Seen q.1
  exchanged-Seen height k t q (some h) e =
      leads (record s { heap = h }, advance height k t) q (advance-Seen height k t) e
  exchanged-Seen height k t q none e = leads (s, finding (linking height k)) q tt e

  -- A search for the links of a node covers nothing that is asked for.
  abbrev pub lower : ℕ → ℕ → ℕ → Bool → Pc
  lower height l level b =
      if b
      then descending (linking height l) level
      else row (linking height l) (suc level) s.head (first_ctx c s.head)

  pub lower-Seen : (height l level : ℕ) (b : Bool) → Seen (lower height l level b)
  lower-Seen height l level true = tt
  lower-Seen height l level false = tt

  abbrev pub linking_on : ℕ → ℕ → ℕ → Ptr → Ptr → TraversalCtx → Bool → Run (SkipList × Pc)
  linking_on height l level pred curr t false =
      ok (s, row (linking height l) level pred (with_level t level pred curr))
  linking_on height l level pred curr t true =
      load_next s.heap curr level >>= λ next. ok (s, walking (linking height l) level curr next t)

  pub at_linking_node :
      (height l level : ℕ) (pred curr : Ptr) (t : TraversalCtx)
      → (curr == null) ≡ false
      → insert_step c x task s (walking (linking height l) level pred curr t)
        ≡ (node_less c s.heap curr task.key >>= linking_on height l level pred curr t)
  unfolding insert_step
  at_linking_node height l level pred curr t node = rw (node) refl

  pub linking_on-Seen :
      (height l level : ℕ) (pred curr : Ptr) (t : TraversalCtx) (b : Bool) (q : SkipList × Pc)
      → linking_on height l level pred curr t b ≡ ok q
      → Seen q.1
  linking_on-Seen height l level pred curr t false q e =
      leads (s, row (linking height l) level pred (with_level t level pred curr)) q tt e
  linking_on-Seen height l level pred curr t true q e =
      let (next, load, e1) =
        bind-ok (load_next s.heap curr level)
          (λ (next : Ptr). ok (s, walking (linking height l) level curr next t)) q e in
      leads (s, walking (linking height l) level curr next t) q tt e1
